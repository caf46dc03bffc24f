-- ===== src/Retronet/Tests.antt =====
-- A connection that has a file of five bytes open at slot 3, and a list of two files.
use nabud.Prelude.{
  ℕ, ◌≡◌, refl, arith, List, [], ◌∷◌, true, false, none, some, inl, inr, ltb, length, if◌then◌else◌,
}
use nabud.Prelude.Monad.{done, M, pure}
use nabud.Prelude.Keeps.{Keeps}
use nabud.ConnIo.{ConnIo, RecvEvent, ok, byte}
use nabud.ConnIo.Recv.{bytes_then}
use nabud.Stext.{StextFile, fileio, find_loop, stext_file_find}
use nabud.Adaptor.Messages.{adaptor_event_loop}
use nabud.Adaptor.Loop.{Ends}
use nabud.Nhacp.{Exchange}
use nabud.Nhacp.Quiet.{NoReception}
use nabud.Nhacp.Service.{services_with_nhacp}
use nabud.Retronet.{RnExchange, RnSystem, RetronetContext, RnFileListEntry}
use nabud.Retronet.Shift.{rn_req_fh_delete_range, rn_req_fh_insert}
use nabud.Retronet.Lists.{lookup_item}
use nabud.Retronet.Serve.{RetronetConn, retronet_request}
use nabud.Retronet.Requests.{Ready, Became, range_request}
use nabud.Retronet.Deletion.{without_range, fh_delete_range-removes}
use nabud.Retronet.Patches.{inserted}
use nabud.Retronet.Insertion.{fh_insert-inserts}
use nabud.Stext.Files.{short}
use nabud.Stext.Open.{opened}
use nabud.Retronet.{with_transfers, write_file}
use nabud.Retronet.Moves.{called}
use nabud.Retronet.Copy.{copy_files}
use nabud.Retronet.Copied.{copy_files-overwrites}
use nabud.Retronet.Items.{lookup_item-Numbered}
use nabud.Retronet.Service.{ContextNumbered, request-ContextNumbered}
use nabud.Retronet.Loop.{
  Conn, BaseServices, BaseQuiet, with_retronet_service, event_loop_with_requests-Ends,
}

abbrev io_with : List RecvEvent → ConnIo
io_with recvs = record { state = ok; watchdog = 0; recvs = recvs; sends = []; sent = [] }

abbrev system : RnSystem
system = record {
  opening = λ location flags. (true, nabud.Stext.Open.not_opened 2);
  transfers = (nabud.Stext.Files.short 1 ∷ nabud.Stext.Files.interrupted ∷ []) ∷ [];
  getattr = none;
  getattr_location = λ location. inl 2;
  truncate = λ size. none;
  malloc_ok = true;
  stale_bytes = λ n. [];
  stat = λ path. some 2;
  glob = λ pattern. some [];
}

abbrev five : List ℕ
five = 1 ∷ 2 ∷ 3 ∷ 4 ∷ 5 ∷ []

abbrev open_file : StextFile
open_file = record { slot = 3; backing = fileio five }

abbrev two_entries : List RnFileListEntry
two_entries = record { idx = 0; details = [] } ∷ record { idx = 1; details = [] } ∷ []

abbrev context : RetronetContext
context = record {
  stext = record { files = open_file ∷ []; handles = 1 };
  file_list = two_entries;
  file_list_count = 2;
  cached_entry = some 1;
}

abbrev exchange : List RecvEvent → RnExchange
exchange recvs = record {
  ctx = context;
  io = io_with recvs;
  file_root = none;
  system = system;
  calls = [];
}

exchange-Ready : (recvs : List RecvEvent) → Ready 3 open_file five (exchange recvs)
unfolding stext_file_find find_loop
exchange-Ready recvs = record {
  found = refl;
  live = refl;
  calm = (tt, tt);
  stats = refl;
  truncates = λ size. refl;
  memory = refl;
}

-- The first read moves two bytes, and the write all of them.
abbrev copying : List RecvEvent → RnExchange
copying recvs = with_transfers ((short 1 ∷ short 65535 ∷ []) ∷ []) (exchange recvs)

-- Two bytes from the second one on.
abbrev deleting : List RecvEvent
deleting = bytes_then (range_request 3 1 2) []

fh_delete_range-removes_example :
    Became 3 open_file
      (without_range five 1 2)
      []
      (exchange deleting)
      (rn_req_fh_delete_range (exchange deleting))
fh_delete_range-removes_example =
    fh_delete_range-removes 3 1 2 open_file five [] (exchange deleting) (exchange-Ready deleting)
      (omega arith) (omega arith) (omega arith) refl

removed : without_range five 1 2 ≡ (1 ∷ 4 ∷ 5 ∷ [])
removed = refl

abbrev inserting : List RecvEvent
inserting = bytes_then (range_request 3 2 2) (bytes_then (8 ∷ 9 ∷ []) [])

fh_insert-inserts_example :
    Became 3 open_file
      (inserted five 2 (8 ∷ 9 ∷ []))
      []
      (exchange inserting)
      (rn_req_fh_insert (exchange inserting))
fh_insert-inserts_example =
    fh_insert-inserts 3 2 8 (9 ∷ []) five open_file [] (exchange inserting)
      (exchange-Ready inserting) (omega arith) (omega arith) (omega arith) refl

put_between : inserted five 2 (8 ∷ 9 ∷ []) ≡ (1 ∷ 2 ∷ 8 ∷ 9 ∷ 3 ∷ 4 ∷ 5 ∷ [])
unfolding nabud.Retronet.Patches.head
put_between = refl

-- There is no entry 7: the one answered last is answered again.
lookup_item-Numbered_example :
    lookup_item 7 (some 1) two_entries ≡ (if ltb 7 (length two_entries) then some 7 else some 1)
lookup_item-Numbered_example =
    lookup_item-Numbered 7 (some 1) two_entries (refl, (refl, tt)) (omega arith)

-- A copy of three bytes over the file of five, in two reads.
copy_files-overwrites_example :
    copy_files (b'x' ∷ []) (opened (7 ∷ 8 ∷ 9 ∷ []) 3 true) (opened five 5 true) (copying [])
    ≡ done (
      tt,
      called
          (some (write_file (b'x' ∷ []) (7 ∷ 8 ∷ 9 ∷ 4 ∷ 5 ∷ [])))
          (with_transfers [] (copying [])),
    )
copy_files-overwrites_example =
    copy_files-overwrites (b'x' ∷ []) (7 ∷ 8 ∷ 9 ∷ []) five 3 5 true true (copying [])
      (omega arith, tt)

abbrev no_request : ℕ → M RnExchange (Unit {0})
no_request msg = pure tt

abbrev conn : RetronetConn
conn = record {
  io = io_with (byte 1 ∷ byte 0 ∷ []);
  retronet_enabled = true;
  retronet = some context;
  file_root = none;
  system = system;
  calls = [];
}

-- FILE-LIST-ITEM.
request-ContextNumbered_example : Keeps ContextNumbered (retronet_request no_request 0xb2)
request-ContextNumbered_example =
    request-ContextNumbered no_request (λ msg. record { run = λ e h. h }) 0xb2

abbrev no_nhacp : ℕ → M Exchange (Unit {0})
no_nhacp type = pure tt

no_nhacp-NoReception : (type : ℕ) → NoReception (no_nhacp type)
no_nhacp-NoReception type n = record { run = λ e h. h }

abbrev base : BaseServices (Unit {0})
base = record {
  image_load = λ image c. (none, c);
  image_unload = λ img last c. c;
  image_channel_select = λ channel c. c;
  conn_reboot = λ c. c;
  localtime = λ r. none;
  malloc_ok = λ n. true;
}

base-Quiet : BaseQuiet base
base-Quiet = record {
  load = λ image c. omega arith;
  unload = λ img last c. omega arith;
  select = λ channel c. omega arith;
  reboot = λ c. omega arith;
}

abbrev nhacp_system : nabud.Nhacp.System
nhacp_system = record {
  opening = λ url flags. record {
    calloc_ok = true;
    result = nabud.Stext.Open.not_opened 2;
    is_directory = false;
    is_writable = true;
  };
  transfers = [];
  resolve_path = λ name. inr name;
  unlink = λ path. none;
  rmdir = λ path. none;
  mkdir = λ path. none;
  rename = λ from to. none;
  truncate = λ size. none;
  date_time = λ i. 48;
}

-- FILE-LIST-ITEM of the second entry comes.
abbrev connection : Conn (Unit {0})
connection = record {
  io = io_with (byte 0xb2 ∷ byte 1 ∷ byte 0 ∷ []);
  pktbuf = [];
  selection = record { channel = none; selected_file = none; retronet_enabled = true };
  rest = record {
    baud = 115200;
    stop_bits = 1;
    contexts = [];
    next_address = 0;
    system = nhacp_system;
    others = record {
      retronet_enabled = true;
      retronet = some context;
      file_root = none;
      system = system;
      calls = [];
      others = tt;
    };
  };
}

event_loop_with_requests-Ends_example : Ends (
    adaptor_event_loop
      (services_with_nhacp [] no_nhacp (with_retronet_service [] no_nhacp no_request base))
      5
      connection)
event_loop_with_requests-Ends_example =
    event_loop_with_requests-Ends [] no_nhacp no_request base 5 connection base-Quiet
      no_nhacp-NoReception (λ n msg. record { run = λ e h. h }) (omega arith)
