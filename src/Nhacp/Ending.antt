-- ===== src/Nhacp/Ending.antt =====
-- NHACP-0.0 mode ends: every round of its loop takes a round of reception from the script.
use nabud.Prelude.{ℕ, zero, suc, ◌≤◌, ◌<◌, arith, List, Bool, true, false, if◌then◌else◌, not}
use nabud.Prelude.{some}
use nabud.Prelude.Monad.{M, Outcome, done, blocked, fault, modify, pure, ◌>>=◌, ◌>>◌}
use nabud.Prelude.Keeps.{Keeps, Kept, Keeps-bind, Keeps-if, Keeps-pure, Kept-weaken}
use nabud.Prelude.Measure.{Within}
use nabud.ConnIo.{ConnIo, conn_io_recv, conn_io_start_watchdog, conn_io_stop_watchdog}
use nabud.ConnIo.Rounds.{rounds_left, recv-rounds}
use nabud.Adaptor.Loop.{Ends}
use nabud.Nhacp.{Exchange, with_buffer, store}
use nabud.Nhacp.Sessions.{NhacpConn, with_context, deref, conn_io}
use nabud.Nhacp.Quiet.{NoReception}
use nabud.Nhacp.Serve.{round_0_0, loop_0_0, recv_at, second_byte_0_0, connection_is_ok}
use nabud.Nhacp.Preserved.{second_length_byte}
use nabud.Nhacp.Rounds.{left, Bounded, bound-Closed}

-- Fewer rounds than `n` are to come.
abbrev Fewer : ℕ → NhacpConn → Type 0
Fewer n c = suc (left c) ≤ n

module _ (adapter_id : List ℕ) (other_request : ℕ → M Exchange (Unit {0}))
    (quiet : (type : ℕ) → NoReception (other_request type)) where
  -- A reception into a context, given by its outcome, and what follows.
  received_into :
      ℕ → (Bool → M NhacpConn Bool) → Outcome ((Bool × List ℕ) × ConnIo) → M NhacpConn Bool
  received_into p g o =
      (conn_io (λ io. o) >>= λ (received, got).
      (with_context p (modify (with_buffer (store 0 got))) >> pure received))
      >>= g

  received-Fewer :
      (n p : ℕ) (g : Bool → M NhacpConn Bool) (o : Outcome ((Bool × List ℕ) × ConnIo))
      (c : NhacpConn)
      → Within (λ io. suc (rounds_left io)) n o
      → ((k : ℕ) (received : Bool) → Keeps (Bounded k) (g received))
      → Kept (Fewer n) (received_into p g o c)
  unfolding received_into
  received-Fewer zero p g (done (r, io)) c w h = absurd (omega arith)
  received-Fewer (suc k) p g (done ((received, got), io)) c w h =
      let cl = bound-Closed adapter_id other_request quiet k in
      let stored = modify (with_buffer (store 0 got)) in
      let less : rounds_left io ≤ k = omega arith in
      Kept-weaken (Bounded k) (Fewer (suc k)) _ (λ d i. omega arith)
        ((Keeps-bind (Bounded k) (with_context p stored >> pure received) g
            (Keeps-bind (Bounded k) (with_context p stored) (λ _. pure received)
              (cl.on_context p stored (cl.mild_buffer (store 0 got)))
              (λ _. Keeps-pure (Bounded k) received))
            (h k)).run
          (record c { io = io }) less)
  received-Fewer zero p g blocked c w h = tt
  received-Fewer (suc k) p g blocked c w h = tt
  received-Fewer zero p g fault c w h = tt
  received-Fewer (suc k) p g fault c w h = tt

  -- What a round does after the first byte.
  after_first : ℕ → Bool → M NhacpConn Bool
  after_first p first = if not first then connection_is_ok else (do
    ctx ← deref p
    conn_io (conn_io_start_watchdog ctx.timo)
    second_byte_0_0 adapter_id other_request p)

  after_first-Bounded : (p k : ℕ) (first : Bool) → Keeps (Bounded k) (after_first p first)
  unfolding after_first connection_is_ok
  after_first-Bounded p k first =
      let cl = bound-Closed adapter_id other_request quiet k in
      Keeps-if (Bounded k) (not first) _ _ (record { run = λ c h. h })
        (Keeps-bind (Bounded k) (deref p) _ (cl.on_deref p) (λ ctx.
          Keeps-bind (Bounded k) (conn_io (conn_io_start_watchdog ctx.timo)) _
            (cl.on_start ctx.timo)
            (λ _. second_length_byte adapter_id other_request (Bounded k) cl p)))

  round-Fewer :
      (p : ℕ) (c : NhacpConn) → Kept (Fewer (left c)) (round_0_0 adapter_id other_request p c)
  unfolding round_0_0 conn_io_stop_watchdog recv_at after_first received_into
  round-Fewer p c =
      let io : ConnIo = record c.io { watchdog = 0 } in
      received-Fewer (left c) p (after_first p) (conn_io_recv 1 io) (record c { io = io })
        (recv-rounds 0 io) (λ k received. after_first-Bounded p k received)

  next-Ends :
      (fuel p n : ℕ) (o : Outcome (Bool × NhacpConn))
      → Kept (Fewer n) o
      → ((d : NhacpConn) → left d < n → Ends (loop_0_0 adapter_id other_request fuel p d))
      → Ends (elim o [
        | done (more, d) ↦
            (if more then loop_0_0 adapter_id other_request fuel p else pure (some tt)) d
        | blocked ↦ blocked
        | fault ↦ fault
      ])
  next-Ends fuel p n (done (true, d)) h k = k d (omega arith)
  next-Ends fuel p n (done (false, d)) h k = tt
  next-Ends fuel p n blocked h k = tt
  next-Ends fuel p n fault h k = tt

  -- If the handlers that are not modelled receive nothing, then NHACP-0.0 mode ends with a fuel of
  -- more than the rounds of reception to come: it comes to its regular end, waits for a round that
  -- never comes, or runs into a fault, but it does not go round without taking a round.
  pub loop_0_0-Ends :
      (fuel p : ℕ) (c : NhacpConn)
      → left c < fuel
      → Ends (loop_0_0 adapter_id other_request fuel p c)
  unfolding loop_0_0
  loop_0_0-Ends zero p c h = absurd (omega arith)
  loop_0_0-Ends (suc fuel) p c h =
      next-Ends fuel p (left c) (round_0_0 adapter_id other_request p c) (round-Fewer p c)
        (λ d i. loop_0_0-Ends fuel p d (omega arith))
