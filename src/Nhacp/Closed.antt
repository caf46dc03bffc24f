-- ===== src/Nhacp/Closed.antt =====
-- What an invariant of a connection has to stand, to be kept by every request: the operations on
-- contexts, and on one session those that are `Mild`.
use nabud.Prelude.{ℕ, List, Option}
use nabud.Prelude.Monad.{M, modify}
use nabud.Prelude.Keeps.{Keeps}
use nabud.ConnIo.{conn_io_recv, conn_io_recv_byte, conn_io_start_watchdog, conn_io_stop_watchdog}
use nabud.Nhacp.{Exchange, Buffer, with_buffer}
use nabud.Nhacp.Reply.{nhacp_send_error}
use nabud.Nhacp.Sessions.{
  NhacpConn, with_context, deref, conn_io, nhacp_context_free, nhacp_context_alloc,
  nhacp_context_init, nhacp_conn_reset,
}
use nabud.Nhacp.Requests.{take_version, send_session_started, file_request}
use nabud.Nhacp.Serve.{send_started_0_0}

pub record Closed (adapter_id : List ℕ) (other_request : ℕ → M Exchange (Unit {0}))
    (I : NhacpConn → Type 0) : Type 1 where
  pub Mild : M Exchange (Unit {0}) → Type 0
  pub on_context : (p : ℕ) (m : M Exchange (Unit {0})) → Mild m → Keeps I (with_context p m)
  pub on_deref : (p : ℕ) → Keeps I (deref p)
  pub on_recv : (n : ℕ) → Keeps I (conn_io (conn_io_recv n))
  pub on_recv_byte : Keeps I (conn_io conn_io_recv_byte)
  pub on_start : (timo : ℕ) → Keeps I (conn_io (conn_io_start_watchdog timo))
  pub on_stop : Keeps I (conn_io conn_io_stop_watchdog)
  pub on_free : (p : ℕ) → Keeps I (nhacp_context_free p)
  pub on_alloc : (version session_id : ℕ) → Keeps I (nhacp_context_alloc version session_id)
  pub on_init : (p : ℕ) → Keeps I (nhacp_context_init p)
  pub on_reset : (octx : Option ℕ) → Keeps I (nhacp_conn_reset octx)
  pub mild_buffer : (f : Buffer → Buffer) → Mild (modify (with_buffer f))
  pub mild_error : (code : ℕ) → Mild (nhacp_send_error code)
  pub mild_version : Mild take_version
  pub mild_session_started : (session_id : ℕ) → Mild (send_session_started adapter_id session_id)
  pub mild_started_0_0 : Mild (send_started_0_0 adapter_id)
  pub mild_request : (type : ℕ) → Mild (file_request adapter_id other_request type)
