-- ===== src/ConnIo/Rounds.antt =====
-- The operations of a connection take rounds from the script of receptions and add none.
use nabud.Prelude.{ℕ, zero, suc, arith, length, List, [], ◌∷◌, ◌++◌, take, drop}
use nabud.Prelude.Monad.{Outcome}
use nabud.Prelude.Measure.{Within, Quiet, Within-mono}
use nabud.ConnIo.{
  ConnIo, RecvEvent, SendEvent, byte, read_again, read_failed, read_eof, no_recv, wrote,
  write_again, write_failed, no_send,
}
use nabud.ConnIo.{poll_failed, timed_out, cancel_requested, hung_up, conn_io_wait, conn_io_cancel}
use nabud.ConnIo.{conn_io_set_state, step_back, recv_loop, send_loop, if_none_left, rev_onto}
use nabud.ConnIo.{conn_io_recv, conn_io_recv_byte, conn_io_send}

-- How many rounds of reception are to come.
abbrev pub rounds_left : ConnIo → ℕ
rounds_left c = length c.recvs

if_none_left-Within :
    (n : ℕ) (left : List ℕ) (stop more : Outcome (Unit {0} × ConnIo))
    → Within rounds_left n stop
    → Within rounds_left n more
    → Within rounds_left n (if_none_left left stop more)
if_none_left-Within n [] stop more h k = h
if_none_left-Within n (b ∷ left) stop more h k = k

recv_loop-rounds :
    (es : List RecvEvent) (resid : ℕ) (got : List ℕ) (c : ConnIo)
    → Within rounds_left (length es) (recv_loop es resid got c)
unfolding recv_loop
recv_loop-rounds [] resid got c = tt
recv_loop-rounds (byte b ∷ es) zero got c = omega arith
recv_loop-rounds (byte b ∷ es) (suc zero) got c = omega arith
recv_loop-rounds (byte b ∷ es) (suc (suc resid)) got c =
    Within-mono rounds_left (length es) (suc (length es)) _ (omega arith)
      (recv_loop-rounds es (suc resid) (got ++ (b ∷ [])) c)
recv_loop-rounds (read_again ∷ es) resid [] c = tt
recv_loop-rounds (read_again ∷ es) resid (b ∷ got) c =
    Within-mono rounds_left (length es) (suc (length es)) _ (omega arith)
      (recv_loop-rounds es (suc resid) (step_back (b ∷ got)) c)
recv_loop-rounds (read_failed ∷ es) resid got c = omega arith
recv_loop-rounds (read_eof ∷ es) resid got c = omega arith
recv_loop-rounds (no_recv w ∷ es) resid got c = omega arith

send_loop-rounds :
    (es : List SendEvent) (before rest : List ℕ) (c : ConnIo)
    → Within rounds_left (rounds_left c) (send_loop es before rest c)
unfolding send_loop conn_io_wait conn_io_cancel conn_io_set_state
send_loop-rounds [] before [] c = omega arith
send_loop-rounds [] before (b ∷ rest) c = omega arith
send_loop-rounds (wrote zero ∷ es) before rest c = omega arith
send_loop-rounds (wrote (suc n) ∷ es) before [] c = omega arith
send_loop-rounds (wrote (suc n) ∷ es) before (b ∷ rest) c =
    let c' : ConnIo = record c { sends = es; sent = c.sent ++ (b ∷ take n rest) } in
    if_none_left-Within (rounds_left c) (drop n rest) _ _ (omega arith)
      (send_loop-rounds es (rev_onto (b ∷ take n rest) before) (drop n rest) c')
send_loop-rounds (write_again ∷ es) [] rest c = tt
send_loop-rounds (write_again ∷ es) (b ∷ before) rest c = send_loop-rounds es before (b ∷ rest) c
send_loop-rounds (write_failed ∷ es) before rest c = omega arith
send_loop-rounds (no_send poll_failed ∷ es) before rest c = omega arith
send_loop-rounds (no_send timed_out ∷ es) before rest c = omega arith
send_loop-rounds (no_send cancel_requested ∷ es) before rest c = omega arith
send_loop-rounds (no_send hung_up ∷ es) before rest c = omega arith

pub recv-Quiet : (len : ℕ) → Quiet rounds_left (conn_io_recv len)
unfolding conn_io_recv
recv-Quiet len = record { run = λ c. recv_loop-rounds c.recvs len [] c }

pub send-Quiet : (buf : List ℕ) → Quiet rounds_left (conn_io_send buf)
unfolding conn_io_send
send-Quiet buf = record { run = λ c. send_loop-rounds c.sends [] buf c }

recv_step :
    (es : List RecvEvent) (resid : ℕ) (got : List ℕ) (c : ConnIo)
    → Within (λ d. suc (rounds_left d)) (length es) (recv_loop es (suc resid) got c)
unfolding recv_loop
recv_step [] resid got c = tt
recv_step (byte b ∷ es) zero got c = omega arith
recv_step (byte b ∷ es) (suc resid) got c =
    Within-mono (λ d. suc (rounds_left d)) (length es) (suc (length es)) _ (omega arith)
      (recv_step es resid (got ++ (b ∷ [])) c)
recv_step (read_again ∷ es) resid [] c = tt
recv_step (read_again ∷ es) resid (b ∷ got) c =
    Within-mono (λ d. suc (rounds_left d)) (length es) (suc (length es)) _ (omega arith)
      (recv_step es (suc resid) (step_back (b ∷ got)) c)
recv_step (read_failed ∷ es) resid got c = omega arith
recv_step (read_eof ∷ es) resid got c = omega arith
recv_step (no_recv w ∷ es) resid got c = omega arith

-- Every outcome of a call for some bytes takes a round.
pub recv-rounds :
    (n : ℕ) (c : ConnIo)
    → Within (λ d. suc (rounds_left d)) (rounds_left c) (conn_io_recv (suc n) c)
unfolding conn_io_recv
recv-rounds n c = recv_step c.recvs n [] c

pub recv_byte-rounds :
    (c : ConnIo) → Within (λ d. suc (rounds_left d)) (rounds_left c) (conn_io_recv_byte c)
unfolding conn_io_recv_byte
recv_byte-rounds c = recv-rounds 0 c
