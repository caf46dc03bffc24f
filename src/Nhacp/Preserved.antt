-- ===== src/Nhacp/Preserved.antt =====
-- An invariant that the operations on contexts keep is kept by every request.
use nabud.Prelude.{ℕ, zero, suc, List, true, false, ◌==◌, if◌then◌else◌, Option, none, some, not}
use nabud.Prelude.Monad.{M, pure, modify, read, assert, ◌>>◌}
use nabud.Prelude.Keeps.{Keeps, Keeps-bind, Keeps-pure, Keeps-assert, Keeps-if}
use nabud.Proto.{byte_at}
use nabud.ConnIo.{conn_io_recv, conn_io_recv_byte, conn_io_start_watchdog, conn_io_stop_watchdog}
use nabud.Nhacp.{
  NhacpContext, Exchange, nhacp_session_create, nhacp_session_system, store, with_buffer,
}
use nabud.Nhacp.{nhacp_vers_0_0, nhacp_vers_0_1}
use nabud.Nhacp.Texts.{nhacp_ensess, nhacp_einval}
use nabud.Nhacp.Reply.{nhacp_send_error, nhacp_reqlen_ok}
use nabud.Nhacp.Sessions.{NhacpConn, with_context, deref, conn_io, nhacp_context_free}
use nabud.Nhacp.Sessions.{
  nhacp_context_init, nhacp_conn_reset, nhacp_context_lookup, nhacp_context_alloc,
}
use nabud.Nhacp.Requests.{
  nhacp_request_check, nhacp_process_request, free_if_unlinked, nhacp_req_hello,
}
use nabud.Nhacp.Requests.{establish_session, hello_is_valid, send_session_started, take_version}
use nabud.Nhacp.Requests.{nhacp_req_hello_type, file_request, nhacp_req_goodbye}
use nabud.Nhacp.Requests.{nabu_msg_start_nhacp_0_0, nabu_msg_nhacp_request}
use nabud.Nhacp.Serve.{
  recv_at, connection_is_ok, lookup_or_alloc, request_out, message_0_0, round_0_0,
}
use nabud.Nhacp.Serve.{
  loop_0_0, after_loop, nhacp_start_0_0, serve_request, receive_request, nhacp_request,
}
use nabud.Nhacp.Serve.{
  any_linked, send_started_0_0, message_length, second_byte_0_0, receive_length,
}
use nabud.Nhacp.Closed.{Closed}
use nabud.Nhacp.Requests.{well_formed, needs_session}
use nabud.Nhacp.Texts.{nhacp_esrch}

module _ (adapter_id : List ℕ) (other_request : ℕ → M Exchange (Unit {0})) (I : NhacpConn → Type 0)
    (cl : Closed adapter_id other_request I) where
  read-Keeps : {A : Type 0} (f : NhacpConn → A) → Keeps I (read f)
  read-Keeps f = record { run = λ c h. h }

  check-Keeps : (p length : ℕ) → Keeps I (nhacp_request_check p length)
  unfolding nhacp_request_check
  check-Keeps p length = Keeps-bind I (deref p) _ (cl.on_deref p) (λ ctx.
      Keeps-bind I (assert _) _ (Keeps-assert I _) (λ _.
        Keeps-if I (not (well_formed ctx.session_id ctx.session length)) _ _ (Keeps-pure I false) (
          Keeps-if I (not (needs_session ctx)) _ _ (Keeps-pure I true) (
            Keeps-if I _ _ _ (Keeps-pure I false) (
              Keeps-bind I (with_context p (nhacp_send_error nhacp_esrch)) _
                (cl.on_context p (nhacp_send_error nhacp_esrch) (cl.mild_error nhacp_esrch))
                (λ _. Keeps-pure I false))))))

  free_if_unlinked-Keeps : (p : ℕ) (ctx : NhacpContext) → Keeps I (free_if_unlinked p ctx)
  free_if_unlinked-Keeps p ctx = Keeps-if I ctx.linked _ _ (Keeps-pure I tt) (cl.on_free p)

  established :
      (p : ℕ) (ctx : NhacpContext)
      → Keeps I (
          if ctx.linked
          then (do assert (ctx.session_id == nhacp_session_system); pure true)
          else nhacp_context_init p)
  established p ctx =
      Keeps-if I ctx.linked _ _
        (Keeps-bind I (assert (ctx.session_id == nhacp_session_system)) _ (Keeps-assert I _)
          (λ _. Keeps-pure I true))
        (cl.on_init p)

  establish-Keeps : (p : ℕ) → Keeps I (establish_session adapter_id p)
  unfolding establish_session
  establish-Keeps p = Keeps-bind I (deref p) _ (cl.on_deref p) (λ ctx.
      Keeps-bind I _ _ (established p ctx) (λ is_new.
        Keeps-bind I (deref p) _ (cl.on_deref p) (λ linked.
          Keeps-if I is_new _ _
            (cl.on_context p (send_session_started adapter_id linked.session_id)
              (cl.mild_session_started linked.session_id))
            (Keeps-bind I (with_context p (nhacp_send_error nhacp_ensess)) _
              (cl.on_context p (nhacp_send_error nhacp_ensess) (cl.mild_error nhacp_ensess))
              (λ _. cl.on_free p)))))

  hello-Keeps : (p : ℕ) → Keeps I (nhacp_req_hello adapter_id p)
  unfolding nhacp_req_hello
  hello-Keeps p = Keeps-bind I (deref p) _ (cl.on_deref p) (λ ctx.
      Keeps-if I (not (hello_is_valid ctx.session)) _ _ (Keeps-pure I tt) (
        Keeps-bind I (with_context p take_version) _ (cl.on_context p take_version cl.mild_version)
          (λ _.
            Keeps-if I (ctx.session_id == nhacp_session_system) _ _
              (Keeps-bind I (nhacp_conn_reset (some p)) _ (cl.on_reset (some p))
                (λ _. establish-Keeps p))
              (Keeps-if I (ctx.session_id == nhacp_session_create) _ _ (establish-Keeps p) (
                Keeps-bind I (with_context p (nhacp_send_error nhacp_einval)) _
                  (cl.on_context p (nhacp_send_error nhacp_einval) (cl.mild_error nhacp_einval))
                  (λ _. free_if_unlinked-Keeps p ctx))))))

  process-Keeps : (p : ℕ) → Keeps I (nhacp_process_request adapter_id other_request p)
  unfolding nhacp_process_request
  process-Keeps p = Keeps-bind I (deref p) _ (cl.on_deref p) (λ ctx.
      Keeps-if I (ctx.session.buffer 2 == nhacp_req_hello_type) _ _ (hello-Keeps p) (
        cl.on_context p (file_request adapter_id other_request (ctx.session.buffer 2))
          (cl.mild_request (ctx.session.buffer 2))))

  request_out-Keeps : (p : ℕ) → Keeps I (request_out p)
  unfolding request_out
  request_out-Keeps p = Keeps-bind I (deref p) _ (cl.on_deref p) (λ ctx.
      Keeps-bind I (free_if_unlinked p ctx) _ (free_if_unlinked-Keeps p ctx)
        (λ _. Keeps-pure I true))

  recv_at-Keeps : (p offset n : ℕ) → Keeps I (recv_at p offset n)
  unfolding recv_at
  recv_at-Keeps p offset n =
      Keeps-bind I (conn_io (conn_io_recv n)) _ (cl.on_recv n) (λ (received, got).
        Keeps-bind I (with_context p (modify (with_buffer (store offset got)))) _
          (cl.on_context p (modify (with_buffer (store offset got)))
            (cl.mild_buffer (store offset got)))
          (λ _. Keeps-pure I received))

  message_0_0-Keeps : (p reqlen : ℕ) → Keeps I (message_0_0 adapter_id other_request p reqlen)
  unfolding message_0_0 connection_is_ok
  message_0_0-Keeps p reqlen =
      Keeps-bind I (recv_at p 2 reqlen) _ (recv_at-Keeps p 2 reqlen) (λ received.
        Keeps-bind I (deref p) _ (cl.on_deref p) (λ ctx.
          Keeps-if I (not received) _ _ (read-Keeps _) (
            Keeps-if I (ctx.session.buffer 2 == nhacp_req_goodbye) _ _ (Keeps-pure I false) (
              Keeps-bind I (nhacp_request_check p reqlen) _ (check-Keeps p reqlen) (λ checked.
                Keeps-if I (not checked) _ _ (Keeps-pure I true) (
                  Keeps-bind I (nhacp_process_request adapter_id other_request p) _
                    (process-Keeps p) (λ _. Keeps-pure I true)))))))

  pub second_length_byte : (p : ℕ) → Keeps I (second_byte_0_0 adapter_id other_request p)
  unfolding second_byte_0_0 connection_is_ok
  second_length_byte p = Keeps-bind I (recv_at p 1 1) _ (recv_at-Keeps p 1 1) (λ second.
      Keeps-if I (not second) _ _ (read-Keeps _) (
        Keeps-bind I (deref p) _ (cl.on_deref p) (λ ctx.
          Keeps-if I (message_length ctx == 0) _ _ (Keeps-pure I true) (
            Keeps-if I (not (nhacp_reqlen_ok ctx.session (message_length ctx))) _ _
              (Keeps-pure I false) (message_0_0-Keeps p (message_length ctx))))))

  round_0_0-Keeps : (p : ℕ) → Keeps I (round_0_0 adapter_id other_request p)
  unfolding round_0_0 connection_is_ok
  round_0_0-Keeps p = Keeps-bind I (conn_io conn_io_stop_watchdog) _ cl.on_stop (λ _.
      Keeps-bind I (recv_at p 0 1) _ (recv_at-Keeps p 0 1) (λ first.
        Keeps-if I (not first) _ _ (read-Keeps _) (
          Keeps-bind I (deref p) _ (cl.on_deref p) (λ ctx.
            Keeps-bind I (conn_io (conn_io_start_watchdog ctx.timo)) _ (cl.on_start ctx.timo)
              (λ _. second_length_byte p)))))

  loop_0_0-Keeps : (fuel p : ℕ) → Keeps I (loop_0_0 adapter_id other_request fuel p)
  unfolding loop_0_0
  loop_0_0-Keeps zero p = Keeps-pure I none
  loop_0_0-Keeps (suc fuel) p =
      Keeps-bind I (round_0_0 adapter_id other_request p) _ (round_0_0-Keeps p)
        (λ more. Keeps-if I more _ _ (loop_0_0-Keeps fuel p) (Keeps-pure I (some tt)))

  after_loop-Keeps : (o : Option (Unit {0})) → Keeps I (after_loop adapter_id other_request o)
  after_loop-Keeps none = record { run = λ c h. tt }
  after_loop-Keeps (some x) = record { run = λ c h. h }

  start_0_0-Keeps : (fuel : ℕ) → Keeps I (nhacp_start_0_0 adapter_id other_request fuel)
  unfolding nhacp_start_0_0
  start_0_0-Keeps fuel = Keeps-bind I (read _) _ (read-Keeps (λ c. c.contexts)) (λ contexts.
      Keeps-if I (any_linked contexts) _ _ (Keeps-pure I false) (
        Keeps-bind I (nhacp_context_alloc nhacp_vers_0_0 nhacp_session_system) _
          (cl.on_alloc nhacp_vers_0_0 nhacp_session_system)
          (λ p.
            Keeps-bind I (with_context p (send_started_0_0 adapter_id)) _
              (cl.on_context p (send_started_0_0 adapter_id) cl.mild_started_0_0)
              (λ _.
                Keeps-bind I (loop_0_0 adapter_id other_request fuel p) _ (loop_0_0-Keeps fuel p)
                  (λ ended.
                    Keeps-bind I (after_loop adapter_id other_request ended) _
                      (after_loop-Keeps ended)
                      (λ _.
                        Keeps-bind I (nhacp_context_free p) _ (cl.on_free p)
                          (λ _. Keeps-pure I true)))))))

  serve-Keeps : (p reqlen : ℕ) → Keeps I (serve_request adapter_id other_request p reqlen)
  unfolding serve_request
  serve-Keeps p reqlen =
      Keeps-bind I (nhacp_request_check p reqlen) _ (check-Keeps p reqlen) (λ checked.
        Keeps-bind I (deref p) _ (cl.on_deref p) (λ ctx.
          Keeps-if I (not checked) _ _ (request_out-Keeps p) (
            Keeps-if I (not (ctx.session.buffer 2 == nhacp_req_goodbye)) _ _
              (Keeps-bind I (nhacp_process_request adapter_id other_request p) _ (process-Keeps p)
                (λ _. request_out-Keeps p))
              (Keeps-if I (ctx.session_id == nhacp_session_system) _ _
                (Keeps-bind I (nhacp_conn_reset none) _ (cl.on_reset none) (λ _. Keeps-pure I true))
                (Keeps-bind I (nhacp_context_free p) _ (cl.on_free p) (λ _. Keeps-pure I true))))))

  received_length : (p : ℕ) → Keeps I (receive_length adapter_id other_request p)
  unfolding receive_length
  received_length p = Keeps-bind I (recv_at p 0 2) _ (recv_at-Keeps p 0 2) (λ received.
      Keeps-bind I (deref p) _ (cl.on_deref p) (λ ctx.
        Keeps-if I (not received) _ _ (request_out-Keeps p) (
          Keeps-if I (not (nhacp_reqlen_ok ctx.session (message_length ctx))) _ _
            (request_out-Keeps p)
            (Keeps-bind I (recv_at p 2 (message_length ctx)) _
              (recv_at-Keeps p 2 (message_length ctx))
              (λ whole.
                Keeps-if I (not whole) _ _ (request_out-Keeps p)
                  (serve-Keeps p (message_length ctx)))))))

  lookup-Keeps : (session_id : ℕ) (o : Option NhacpContext) → Keeps I (lookup_or_alloc session_id o)
  lookup-Keeps session_id none = cl.on_alloc nhacp_vers_0_1 session_id
  lookup-Keeps session_id (some ctx) = Keeps-pure I ctx.address

  receive-Keeps : (session_id : ℕ) → Keeps I (receive_request adapter_id other_request session_id)
  unfolding receive_request
  receive-Keeps session_id =
      Keeps-bind I (read _) _ (read-Keeps (λ c. nhacp_context_lookup session_id c.contexts))
        (λ found.
          Keeps-bind I (lookup_or_alloc session_id found) _ (lookup-Keeps session_id found) (λ p.
            Keeps-bind I (deref p) _ (cl.on_deref p) (λ ctx.
              Keeps-bind I (conn_io (conn_io_start_watchdog ctx.timo)) _ (cl.on_start ctx.timo)
                (λ _. received_length p))))

  pub request-Keeps : (fuel msg : ℕ) → Keeps I (nhacp_request adapter_id other_request fuel msg)
  unfolding nhacp_request
  request-Keeps fuel msg = Keeps-if I (msg == nabu_msg_start_nhacp_0_0) _ _ (start_0_0-Keeps fuel) (
      Keeps-if I (not (msg == nabu_msg_nhacp_request)) _ _ (Keeps-pure I false) (
        Keeps-bind I (conn_io (conn_io_start_watchdog 1)) _ (cl.on_start 1) (λ _.
          Keeps-bind I (conn_io conn_io_recv_byte) _ cl.on_recv_byte (λ (received, got).
            Keeps-if I (not received) _ _ (Keeps-pure I true) (receive-Keeps (byte_at got 0))))))
