-- ===== src/Nhacp/Serve.antt =====
-- nabud/nhacp.c: NHACP-0.0 mode, which goes round until the client ends it, and the single requests of
-- NHACP 0.1. Texts that are only logged are left out.
use nabud.Prelude.{ℕ, zero, suc, ◌+◌, List, [], ◌∷◌, Bool, true, false, ◌==◌}
use nabud.Prelude.{if◌then◌else◌, Option, none, some, not}
use nabud.Prelude.Monad.{M, done, blocked, pure, modify, read, ◌>>=◌, ◌>>◌}
use nabud.Proto.{nabu_get_uint16, nabu_set_uint16, byte_at}
use nabud.ConnIo.{conn_io_recv, conn_io_recv_byte, conn_io_check_state, conn_io_start_watchdog}
use nabud.ConnIo.{conn_io_stop_watchdog}
use nabud.Nhacp.{NhacpContext, Exchange, store, with_buffer, nhacp_vers_0_0, nhacp_vers_0_1, at}
use nabud.Nhacp.{nhacp_session_system}
use nabud.Nhacp.Texts.{nhacp_strsize}
use nabud.Nhacp.Reply.{nhacp_send_reply, nhacp_reqlen_ok}
use nabud.Nhacp.Sessions.{
  NhacpConn, deref, with_context, conn_io, nhacp_context_free, nhacp_context_alloc,
}
use nabud.Nhacp.Sessions.{nhacp_context_lookup, nhacp_conn_reset}
use nabud.Nhacp.Requests.{
  set_adapter_id, nhacp_request_check, nhacp_process_request, free_if_unlinked,
}
use nabud.Nhacp.Requests.{nhacp_req_goodbye, nabu_msg_start_nhacp_0_0, nabu_msg_nhacp_request}

-- Whether a connection has a session.
abbrev pub any_linked : List NhacpContext → Bool
any_linked [] = false
any_linked (ctx ∷ rest) = let further = any_linked rest in if ctx.linked then true else further

-- A reception into the buffer of a context.
unfoldable pub recv_at : ℕ → ℕ → ℕ → M NhacpConn Bool
recv_at p offset n = do
  (received, got) ← conn_io (conn_io_recv n)
  with_context p (modify (with_buffer (store offset got)))
  pure received

unfoldable pub send_started_0_0 : List ℕ → M Exchange (Unit {0})
unfolding nhacp_send_reply
send_started_0_0 adapter_id = do
  modify (with_buffer (store 3 (nabu_set_uint16 nhacp_vers_0_1)))
  modify (with_buffer (set_adapter_id 5 adapter_id))
  size ← read (at (nhacp_strsize 5))
  nhacp_send_reply 0x80 (4 + size)

-- At `recv_failure`: the connection decides whether the loop goes on.
unfoldable pub connection_is_ok : M NhacpConn Bool
connection_is_ok = read (λ c. conn_io_check_state c.io)

abbrev pub lookup_or_alloc : ℕ → Option NhacpContext → M NhacpConn ℕ
lookup_or_alloc session_id (some ctx) = pure ctx.address
lookup_or_alloc session_id none = nhacp_context_alloc nhacp_vers_0_1 session_id

abbrev pub message_length : NhacpContext → ℕ
message_length ctx = nabu_get_uint16 (nabud.Nhacp.fetch 0 2 ctx.session.buffer)

-- The end of `nhacp_request`, at `out`.
unfoldable pub request_out : ℕ → M NhacpConn Bool
unfolding deref nhacp_context_free
request_out p = do ctx ← deref p; free_if_unlinked p ctx; pure true

module _ (adapter_id : List ℕ) (other_request : ℕ → M Exchange (Unit {0})) where
  -- The body of the loop from the message on; the result is whether the loop goes on.
  unfoldable pub message_0_0 : ℕ → ℕ → M NhacpConn Bool
  unfolding deref
  message_0_0 p reqlen = do
    received ← recv_at p 2 reqlen
    ctx ← deref p
    if not received
        then connection_is_ok
        else if ctx.session.buffer 2 == nhacp_req_goodbye
        then pure false
        else (do
          checked ← nhacp_request_check p reqlen
          if not checked
              then pure true
              else (do nhacp_process_request adapter_id other_request p; pure true))

  -- From the second byte of the length on.
  unfoldable pub second_byte_0_0 : ℕ → M NhacpConn Bool
  unfolding deref
  second_byte_0_0 p = do
    second ← recv_at p 1 1
    if not second then connection_is_ok else (do
      ctx ← deref p
      if message_length ctx == 0
          then pure true
          else if not (nhacp_reqlen_ok ctx.session (message_length ctx))
          then pure false
          else message_0_0 p (message_length ctx))

  unfoldable pub round_0_0 : ℕ → M NhacpConn Bool
  unfolding deref
  round_0_0 p = do
    conn_io conn_io_stop_watchdog
    first ← recv_at p 0 1
    if not first
        then connection_is_ok
        else (do ctx ← deref p; conn_io (conn_io_start_watchdog ctx.timo); second_byte_0_0 p)

  -- None if the fuel is used up.
  unfoldable pub loop_0_0 : ℕ → ℕ → M NhacpConn (Option (Unit {0}))
  loop_0_0 zero p = pure none
  loop_0_0 (suc fuel) p = do more ← round_0_0 p; if more then loop_0_0 fuel p else pure (some tt)

  abbrev pub after_loop : Option (Unit {0}) → M NhacpConn (Unit {0})
  after_loop none c = blocked
  after_loop (some x) c = done (tt, c)

  unfoldable pub nhacp_start_0_0 : ℕ → M NhacpConn Bool
  unfolding loop_0_0
  nhacp_start_0_0 fuel = do
    contexts ← read (λ c. c.contexts)
    if any_linked contexts then pure false else (do
      p ← nhacp_context_alloc nhacp_vers_0_0 nhacp_session_system
      with_context p (send_started_0_0 adapter_id)
      ended ← loop_0_0 fuel p
      after_loop ended
      nhacp_context_free p
      pure true)

  -- What follows the reception of a whole message.
  unfoldable pub serve_request : ℕ → ℕ → M NhacpConn Bool
  unfolding deref request_out nhacp_conn_reset nhacp_context_free
  serve_request p reqlen = do
    checked ← nhacp_request_check p reqlen
    ctx ← deref p
    if not checked
        then request_out p
        else if not (ctx.session.buffer 2 == nhacp_req_goodbye)
        then (do nhacp_process_request adapter_id other_request p; request_out p)
        else if ctx.session_id == nhacp_session_system
        then (do nhacp_conn_reset none; pure true)
        else (do nhacp_context_free p; pure true)

  -- From the length of the message on.
  unfoldable pub receive_length : ℕ → M NhacpConn Bool
  unfolding deref request_out recv_at serve_request
  receive_length p = do
    received ← recv_at p 0 2
    ctx ← deref p
    let reqlen = message_length ctx
    if not received
        then request_out p
        else if not (nhacp_reqlen_ok ctx.session reqlen)
        then request_out p
        else (do
          whole ← recv_at p 2 reqlen
          if not whole then request_out p else serve_request p reqlen)

  unfoldable pub receive_request : ℕ → M NhacpConn Bool
  unfolding deref receive_length
  receive_request session_id = do
    found ← read (λ c. nhacp_context_lookup session_id c.contexts)
    p ← lookup_or_alloc session_id found
    ctx ← deref p
    conn_io (conn_io_start_watchdog ctx.timo)
    receive_length p

  -- `fuel` bounds the rounds of NHACP-0.0 mode.
  unfoldable pub nhacp_request : ℕ → ℕ → M NhacpConn Bool
  unfolding receive_request nhacp_start_0_0
  nhacp_request fuel msg =
      if msg == nabu_msg_start_nhacp_0_0
      then nhacp_start_0_0 fuel
      else if not (msg == nabu_msg_nhacp_request)
      then pure false
      else (do
        conn_io (conn_io_start_watchdog 1)
        (received, got) ← conn_io conn_io_recv_byte
        if not received then pure true else receive_request (byte_at got 0))
