-- ===== src/Nhacp/Requests.antt =====
-- nabud/nhacp.c: the check of a request, HELLO, and the requests of a connection. `adapter_id` is the
-- name and version of the program; `other_request` are the handlers that are not modelled, by type.
use nabud.Prelude.{
  ℕ, ◌+◌, ◌-◌, List, [], ◌∷◌, ◌++◌, Bool, true, false, ltb, leb, ◌==◌, take, length,
}
use nabud.Prelude.{if◌then◌else◌, Option, none, some, bit_and, not, ◌&&◌, get_elem?}
use nabud.Prelude.Monad.{M, fault, pure, modify, read, assert, ◌>>=◌, ◌>>◌}
use nabud.Proto.{nabu_get_uint16, nabu_set_uint16}
use nabud.Nhacp.{
  NhacpContext, NhacpSession, Exchange, Buffer, store, fetch, with_buffer, nhacp_vers_0_0,
}
use nabud.Nhacp.{nhacp_vers_0_1, nhacp_option_crc8, nhacp_session_system, nhacp_session_create}
use nabud.Nhacp.{nhacp_max_messagelen, at}
use nabud.Nhacp.Texts.{nhacp_einval, nhacp_esrch, nhacp_ensess, nhacp_strsize}
use nabud.Nhacp.Reply.{nhacp_send_error, nhacp_send_reply, nhacp_crc_ptr, crc8_of}
use nabud.Nhacp.Sessions.{NhacpConn, deref, with_context, nhacp_context_free}
use nabud.Nhacp.Sessions.{nhacp_context_init, nhacp_conn_reset}
use nabud.Nhacp.Files.{nhacp_req_storage_open, nhacp_req_storage_get, nhacp_req_storage_put}
use nabud.Nhacp.Files.{nhacp_req_storage_get_block, nhacp_req_storage_put_block}
use nabud.Nhacp.Paths.{nhacp_req_get_date_time, nhacp_req_file_close, nhacp_req_get_error_details}
use nabud.Nhacp.Paths.{nhacp_req_file_set_size, nhacp_req_remove, nhacp_req_rename, nhacp_req_mkdir}

abbrev pub nabu_msg_start_nhacp_0_0 : ℕ
nabu_msg_start_nhacp_0_0 = 0xaf

abbrev pub nabu_msg_nhacp_request : ℕ
nabu_msg_nhacp_request = 0x8f

abbrev pub nhacp_req_goodbye : ℕ
nhacp_req_goodbye = 0xef

abbrev pub nhacp_req_hello_type : ℕ
nhacp_req_hello_type = 0x00

-- `min_reqlen` and `min_version` of `nhacp_request_types`, by the type.
abbrev pub nhacp_request_types : List (ℕ × ℕ)
nhacp_request_types =
    (8, 1)
    ∷ (5, 0)
    ∷ (8, 0)
    ∷ (8, 0)
    ∷ (1, 0)
    ∷ (2, 0)
    ∷ (4, 1)
    ∷ (8, 1)
    ∷ (8, 1)
    ∷ (6, 1)
    ∷ (6, 1)
    ∷ (7, 1)
    ∷ (2, 1)
    ∷ (6, 1)
    ∷ (3, 1)
    ∷ (3, 1)
    ∷ (4, 1)
    ∷ (2, 1)
    ∷ (2, 1)
    ∷ []

abbrev type_entry : ℕ → Option (ℕ × ℕ)
type_entry req = if req == nhacp_req_goodbye then some (1, 0) else get_elem? nhacp_request_types req

-- The version and the options that a request is checked against are those of the session; a HELLO
-- brings its own.
abbrev pub request_version : NhacpSession → ℕ
request_version s =
    if s.buffer 2 == nhacp_req_hello_type
    then nabu_get_uint16 (fetch 6 2 s.buffer)
    else s.nhacp_version

abbrev pub request_options : NhacpSession → ℕ
request_options s =
    if s.buffer 2 == nhacp_req_hello_type
    then nabu_get_uint16 (fetch 8 2 s.buffer)
    else s.nhacp_options

abbrev long_enough : Option (ℕ × ℕ) → ℕ → ℕ → Bool
long_enough none version length = false
long_enough (some (min_reqlen, min_version)) version length =
    not (ltb version min_version) && not (ltb length min_reqlen)

-- A CRC byte of 0 counts as one that the client left out. The CRC covers the message byte and the
-- session number, which precede the buffer.
unfoldable pub crc_matches : ℕ → NhacpSession → ℕ → Bool
unfolding crc8_of nhacp_crc_ptr
crc_matches session_id s length =
    if bit_and (request_options s) nhacp_option_crc8 == 0
    then true
    else if s.buffer (nhacp_crc_ptr s.buffer) == 0
    then true
    else crc8_of (nabu_msg_nhacp_request ∷ session_id ∷ fetch 0 (length + 2) s.buffer) == 0

-- The tests of `nhacp_request_check` that only refuse.
unfoldable pub well_formed : ℕ → NhacpSession → ℕ → Bool
unfolding crc_matches
well_formed session_id s length =
    long_enough (type_entry (s.buffer 2)) (request_version s) length
    && crc_matches session_id s length

unfoldable pub needs_session : NhacpContext → Bool
needs_session ctx =
    not (ctx.session.buffer 2 == nhacp_req_hello_type)
    && not ctx.linked
    && not (ctx.session.nhacp_version == nhacp_vers_0_0)

unfoldable pub nhacp_request_check : ℕ → ℕ → M NhacpConn Bool
unfolding deref with_context well_formed needs_session nhacp_send_error
nhacp_request_check p length = do
  ctx ← deref p
  assert (leb length nhacp_max_messagelen)
  if not (well_formed ctx.session_id ctx.session length)
      then pure false
      else if not (needs_session ctx)
      then pure true
      else if ctx.session.buffer 2 == nhacp_req_goodbye
      then pure false
      else with_context p (nhacp_send_error nhacp_esrch) >> pure false

-- `reply.adapter_id`, whose length byte is at `offset`, and the length of the text.
abbrev pub set_adapter_id : ℕ → List ℕ → Buffer → Buffer
set_adapter_id offset adapter_id buf =
    let text = take 255 adapter_id in
    store offset (length text ∷ []) (store (offset + 1) (text ++ (0 ∷ [])) buf)

unfoldable pub send_session_started : List ℕ → ℕ → M Exchange (Unit {0})
unfolding nhacp_send_reply
send_session_started adapter_id session_id = do
  modify (with_buffer (store 3 (session_id ∷ [])))
  modify (with_buffer (store 4 (nabu_set_uint16 nhacp_vers_0_1)))
  modify (with_buffer (set_adapter_id 6 adapter_id))
  size ← read (at (nhacp_strsize 6))
  nhacp_send_reply 0x80 (5 + size)

abbrev pub free_if_unlinked : ℕ → NhacpContext → M NhacpConn (Unit {0})
free_if_unlinked p ctx = if ctx.linked then pure tt else nhacp_context_free p

abbrev magic_is_valid : Buffer → Bool
magic_is_valid buf = buf 3 == b'A' && (buf 4 == b'C' && buf 5 == b'P')

abbrev pub hello_options : NhacpSession → ℕ
hello_options s = nabu_get_uint16 (fetch 8 2 s.buffer)

abbrev pub hello_version : NhacpSession → ℕ
hello_version s = nabu_get_uint16 (fetch 6 2 s.buffer)

-- What HELLO asks of the message before it does anything.
unfoldable pub hello_is_valid : NhacpSession → Bool
hello_is_valid s =
    magic_is_valid s.buffer
    && (bit_and (hello_options s) 0xfffe == 0 && hello_version s == nhacp_vers_0_1)

-- `ctx->nhacp_version` and `ctx->nhacp_options` set from the message.
unfoldable pub take_version : M Exchange (Unit {0})
take_version = modify (λ e.
    let s = e.session in
    record e {
      session = record s { nhacp_version = hello_version s; nhacp_options = hello_options s };
    })

module _ (adapter_id : List ℕ) where
  unfoldable pub establish_session : ℕ → M NhacpConn (Unit {0})
  unfolding deref with_context nhacp_context_init nhacp_send_error nhacp_context_free
  establish_session p = do
    ctx ← deref p
    established ←
        if ctx.linked
        then (do assert (ctx.session_id == nhacp_session_system); pure true)
        else nhacp_context_init p
    linked ← deref p
    if established
        then with_context p (send_session_started adapter_id linked.session_id)
        else (do with_context p (nhacp_send_error nhacp_ensess); nhacp_context_free p)

  unfoldable pub nhacp_req_hello : ℕ → M NhacpConn (Unit {0})
  unfolding deref with_context nhacp_conn_reset take_version nhacp_context_free hello_is_valid
  nhacp_req_hello p = do
    ctx ← deref p
    if not (hello_is_valid ctx.session) then pure tt else (do
      with_context p take_version
      if ctx.session_id == nhacp_session_system
          then (do nhacp_conn_reset (some p); establish_session p)
          else if ctx.session_id == nhacp_session_create
          then establish_session p
          else (do with_context p (nhacp_send_error nhacp_einval); free_if_unlinked p ctx))

  module _ (other_request : ℕ → M Exchange (Unit {0})) where
    -- The handlers of `nhacp_request_types` behind that of HELLO.
    abbrev pub file_requests : List (M Exchange (Unit {0}))
    file_requests =
        nhacp_req_storage_open
        ∷ nhacp_req_storage_get
        ∷ nhacp_req_storage_put
        ∷ nhacp_req_get_date_time
        ∷ nhacp_req_file_close
        ∷ nhacp_req_get_error_details
        ∷ nhacp_req_storage_get_block
        ∷ nhacp_req_storage_put_block
        ∷ other_request 0x09
        ∷ other_request 0x0a
        ∷ other_request 0x0b
        ∷ other_request 0x0c
        ∷ nhacp_req_file_set_size
        ∷ other_request 0x0e
        ∷ other_request 0x0f
        ∷ nhacp_req_remove
        ∷ nhacp_req_rename
        ∷ nhacp_req_mkdir
        ∷ []

    abbrev pub handler_or_fault : Option (M Exchange (Unit {0})) → M Exchange (Unit {0})
    handler_or_fault none = λ e. fault
    handler_or_fault (some handler) = handler

    -- A type behind the table would be read out of bounds.
    unfoldable pub file_request : ℕ → M Exchange (Unit {0})
    file_request type = handler_or_fault (get_elem? file_requests (type - 1))

    unfoldable pub nhacp_process_request : ℕ → M NhacpConn (Unit {0})
    unfolding deref with_context
    nhacp_process_request p = do
      ctx ← deref p
      let type = ctx.session.buffer 2
      if type == nhacp_req_hello_type then nhacp_req_hello p else with_context p (file_request type)
