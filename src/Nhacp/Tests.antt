-- ===== src/Nhacp/Tests.antt =====
-- A connection with two sessions, one of which has a file of five bytes open at slot 3; the peer
-- accepts every write.
use nabud.Prelude.{
  ℕ, ◌==◌, ◌*◌, ◌≡◌, ◌⊎◌, refl, arith, List, [], ◌∷◌, ◌++◌, Bool, true, false, none, inr,
}
use nabud.Prelude.Monad.{M, done, fault, pure}
use nabud.Prelude.Keeps.{Kept}
use nabud.ConnIo.{ConnIo, ok, byte}
use nabud.ConnIo.Send.{Accepts}
use nabud.Stext.{StextFile, fileio, stext_file_find, find_loop}
use nabud.Stext.Files.{patch}
use nabud.Stext.Transfer.{span}
use nabud.Nhacp.{NhacpContext, NhacpSession, Exchange, System, Buffer, store, fetch, with_buffer}
use nabud.Nhacp.Reply.{nhacp_send_reply, nhacp_crc_len, crc8_of}
use nabud.Nhacp.Sessions.{NhacpConn, context_at}
use nabud.Nhacp.Serve.{nhacp_request, serve_request, loop_0_0}
use nabud.Nhacp.Requests.{nhacp_req_hello}
use nabud.Nhacp.Files.{nhacp_req_storage_get_block}
use nabud.Nhacp.Invariant.{SoundConn, nhacp_request-SoundConn}
use nabud.Adaptor.Loop.{Ends}
use nabud.Nhacp.Quiet.{NoReception}
use nabud.Nhacp.Ending.{loop_0_0-Ends}
use nabud.Nhacp.Service.{NhacpRest, OtherServices, OthersQuiet}
use nabud.Adaptor.{NabuConnection}
use nabud.Prelude.Measure.{Quiet-pure}
use nabud.Nhacp.Crash.{unknown_session-fault}
use nabud.Nhacp.Frames.{reply_frame, after_reply, nhacp_send_reply-frame}
use nabud.Nhacp.Tables.{Serves}
use nabud.Nhacp.Transfers.{request_fields, Answered, data_payload}
use nabud.Nhacp.Blocks.{padded, storage_get_block-padded}
use nabud.Nhacp.Puts.{put_then_get, put_then_get-bytes, patched}

abbrev io_with : List nabud.ConnIo.RecvEvent → ConnIo
io_with recvs = record { state = ok; watchdog = 0; recvs = recvs; sends = []; sent = [] }

abbrev system : System
system = record {
  opening = λ url flags. record {
    calloc_ok = true;
    result = nabud.Stext.Open.not_opened 2;
    is_directory = false;
    is_writable = true;
  };
  transfers = (nabud.Stext.Files.short 0 ∷ nabud.Stext.Files.interrupted ∷ []) ∷ [];
  resolve_path = λ name. inr name;
  unlink = λ path. none;
  rmdir = λ path. none;
  mkdir = λ path. none;
  rename = λ from to. none;
  truncate = λ size. none;
  date_time = λ i. 48;
}

abbrev open_file : StextFile
open_file = record { slot = 3; backing = fileio (1 ∷ 2 ∷ 3 ∷ 4 ∷ 5 ∷ []) }

abbrev session : Buffer → NhacpSession
session buffer = record {
  stext = record { files = open_file ∷ []; handles = 1 };
  privates = λ slot. record { is_directory = false; is_writable = true };
  nhacp_version = 1;
  nhacp_options = 1;
  buffer = buffer;
}

abbrev context : ℕ → Bool → ℕ → Buffer → NhacpContext
context address linked session_id buffer = record {
  address = address;
  linked = linked;
  session_id = session_id;
  timo = 1;
  session = session buffer;
}

abbrev zero_buffer : Buffer
zero_buffer i = 0

abbrev conn_with : List nabud.ConnIo.RecvEvent → List NhacpContext → NhacpConn
conn_with recvs contexts = record {
  io = io_with recvs;
  baud = 115200;
  stop_bits = 1;
  contexts = contexts;
  next_address = 9;
  system = system;
}

abbrev two_sessions : List NhacpContext
two_sessions = context 4 true 2 zero_buffer ∷ context 3 true 1 zero_buffer ∷ []

abbrev no_request : ℕ → M Exchange (Unit {0})
no_request type = pure tt

two_sessions-Sound :
    (recvs : List nabud.ConnIo.RecvEvent) → SoundConn (conn_with recvs two_sessions)
unfolding nabud.Nhacp.Sessions.nhacp_context_lookup
two_sessions-Sound recvs = ((λ e. (omega arith, refl)), ((λ e. (omega arith, refl)), tt))

-- GOODBYE of session 2.
abbrev goodbye : List nabud.ConnIo.RecvEvent
goodbye = byte 2 ∷ byte 1 ∷ byte 0 ∷ byte 0xef ∷ []

nhacp_request-SoundConn_example :
    Kept SoundConn (nhacp_request [] no_request 0 0x8f (conn_with goodbye two_sessions))
nhacp_request-SoundConn_example =
    nhacp_request-SoundConn [] no_request 0 0x8f (conn_with goodbye two_sessions)
      (two_sessions-Sound goodbye)

no_request-NoReception : (type : ℕ) → NoReception (no_request type)
no_request-NoReception type n = record { run = λ e h. h }

loop_0_0-Ends_example : Ends (loop_0_0 [] no_request 5 4 (conn_with goodbye two_sessions))
loop_0_0-Ends_example =
    loop_0_0-Ends [] no_request no_request-NoReception 5 4 (conn_with goodbye two_sessions)
      (omega arith)

abbrev new_session : NhacpContext
new_session = context 8 false 0xff zero_buffer

abbrev with_new_session : NhacpConn
with_new_session = conn_with [] (new_session ∷ two_sessions)

-- HELLO, version 1, without options, on a context for the session number 7.
abbrev hello_message : Buffer
hello_message = store 0 (8 ∷ 0 ∷ 0 ∷ 65 ∷ 67 ∷ 80 ∷ 1 ∷ 0 ∷ 0 ∷ 0 ∷ []) zero_buffer

abbrev unknown_session : NhacpContext
unknown_session = context 8 false 7 hello_message

abbrev with_unknown : NhacpConn
with_unknown = conn_with [] (unknown_session ∷ two_sessions)

unknown_session-valid : nabud.Nhacp.Requests.hello_is_valid unknown_session.session ≡ true
unfolding nabud.Nhacp.Requests.hello_is_valid store fetch nabud.Proto.nabu_get_uint16
unknown_session-valid = refl

unknown_session-formed : nabud.Nhacp.Requests.well_formed 7 unknown_session.session 8 ≡ true
unfolding nabud.Nhacp.Requests.well_formed store fetch nabud.Proto.nabu_get_uint16
unknown_session-formed = refl

unknown_session-hello : (unknown_session.session.buffer 2 == 0) ≡ true
unfolding store
unknown_session-hello = refl

unknown_session-fault_example : serve_request [] no_request 8 8 with_unknown ≡ fault
unknown_session-fault_example =
    unknown_session-fault [] no_request 8 8 unknown_session with_unknown
      (record {
        allocated = refl;
        alone = refl;
        unlinked = refl;
        not_system = refl;
        not_create = refl;
        valid = unknown_session-valid;
      })
      unknown_session-hello unknown_session-formed refl

abbrev exchange : Exchange
exchange = record { session = session zero_buffer; io = io_with []; system = system }

exchange-Serves : Serves 3 open_file (1 ∷ 2 ∷ 3 ∷ 4 ∷ 5 ∷ []) exchange
unfolding stext_file_find find_loop
exchange-Serves = record {
  found = refl;
  regular = refl;
  live = refl;
  calm = (tt, tt);
  accepts = tt;
}

crc_on : nhacp_crc_len 1 ≡ 1
unfolding nhacp_crc_len
crc_on = refl

nhacp_send_reply-frame_example :
    (buf : Buffer) × (es : List nabud.ConnIo.SendEvent) × (nhacp_send_reply 0x84 4 exchange
      ≡ done (
        tt,
        after_reply exchange buf es (reply_frame (nhacp_crc_len 1) 0x84 (fetch 3 3 zero_buffer)),
      ))
    × Accepts es
    × ((nhacp_crc_len 1 ≡ 0)
        ⊎ (crc8_of (reply_frame (nhacp_crc_len 1) 0x84 (fetch 3 3 zero_buffer)) ≡ 0))
nhacp_send_reply-frame_example = nhacp_send_reply-frame 0x84 3 exchange tt (omega (arith, crc_on))

storage_get_block-padded_example :
    Answered 3 open_file
      (1 ∷ 2 ∷ 3 ∷ 4 ∷ 5 ∷ [])
      exchange
      (reply_frame
        (nhacp_crc_len 1)
        0x84
        (data_payload (padded 4 (span (1 ∷ 2 ∷ 3 ∷ 4 ∷ 5 ∷ []) (1 * 4) 4))))
      (nhacp_req_storage_get_block (with_buffer (request_fields 3 1 4) exchange))
storage_get_block-padded_example =
    storage_get_block-padded 3 1 4 open_file (1 ∷ 2 ∷ 3 ∷ 4 ∷ 5 ∷ []) exchange exchange-Serves
      (omega arith) (omega arith) (omega arith)

put_then_get-bytes_example :
    Answered 3
      (patched open_file (1 ∷ 2 ∷ 3 ∷ 4 ∷ 5 ∷ []) 4 (9 ∷ 8 ∷ []))
      (patch (1 ∷ 2 ∷ 3 ∷ 4 ∷ 5 ∷ []) 4 (9 ∷ 8 ∷ []))
      exchange
      (reply_frame (nhacp_crc_len 1) 0x81 []
        ++ reply_frame (nhacp_crc_len 1) 0x84 (data_payload (9 ∷ 8 ∷ [])))
      (put_then_get 3 4 (9 ∷ 8 ∷ []) exchange)
put_then_get-bytes_example =
    put_then_get-bytes 3 4 9 (8 ∷ []) open_file (1 ∷ 2 ∷ 3 ∷ 4 ∷ 5 ∷ []) exchange exchange-Serves
      (omega arith) (omega arith)

-- Services that leave the connection as it is, and a connection on which a session says GOODBYE.
abbrev others : OtherServices (Unit {0})
others = record {
  image_load = λ image c. (none, c);
  image_unload = λ img last c. c;
  image_channel_select = λ channel c. c;
  conn_reboot = λ c. c;
  retronet_request = λ msg. pure false;
  localtime = λ r. none;
  malloc_ok = λ n. true;
}

others-Quiet : OthersQuiet others
others-Quiet = record {
  load = λ image c. omega arith;
  unload = λ img last c. omega arith;
  select = λ channel c. omega arith;
  reboot = λ c. omega arith;
  retronet = λ msg. Quiet-pure _ false;
}

abbrev saying_goodbye : NabuConnection (NhacpRest (Unit {0}))
saying_goodbye = record {
  io = io_with (byte 0x8f ∷ goodbye);
  pktbuf = [];
  selection = record { channel = none; selected_file = none; retronet_enabled = false };
  rest = record {
    baud = 115200;
    stop_bits = 1;
    contexts = two_sessions;
    next_address = 9;
    system = system;
    others = tt;
  };
}
