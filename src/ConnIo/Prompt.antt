-- ===== src/ConnIo/Prompt.antt =====
-- Sending does not block: it gives all bytes to the peer, sets the state of the connection, or
-- faults.
use nabud.Prelude.{ℕ, zero, suc, List, [], ◌∷◌, take, drop, ◌++◌}
use nabud.Prelude.Monad.{Outcome}
use nabud.Prelude.Prompt.{Prompt, Returned}
use nabud.ConnIo.{ConnIo, SendEvent, wrote, write_again, write_failed, no_send, send_loop, rev_onto}
use nabud.ConnIo.{if_none_left, conn_io_send}

none_left-Returned :
    (left : List ℕ) (stop more : Outcome (Unit {0} × ConnIo))
    → Returned (λ a t. Unit {0}) stop
    → Returned (λ a t. Unit {0}) more
    → Returned (λ a t. Unit {0}) (if_none_left left stop more)
none_left-Returned [] stop more h k = h
none_left-Returned (b ∷ left) stop more h k = k

send_loop-Returned :
    (es : List SendEvent) (before rest : List ℕ) (c : ConnIo)
    → Returned (λ a t. Unit {0}) (send_loop es before rest c)
unfolding send_loop
send_loop-Returned [] before [] c = tt
send_loop-Returned [] before (b ∷ rest) c = tt
send_loop-Returned (wrote zero ∷ es) before rest c = tt
send_loop-Returned (wrote (suc n) ∷ es) before [] c = tt
send_loop-Returned (wrote (suc n) ∷ es) before (b ∷ rest) c =
    none_left-Returned (drop n rest) _ _ tt (
      send_loop-Returned es (rev_onto (b ∷ take n rest) before) (drop n rest)
        (record c { sends = es; sent = c.sent ++ (b ∷ take n rest) }))
send_loop-Returned (write_again ∷ es) [] rest c = tt
send_loop-Returned (write_again ∷ es) (b ∷ before) rest c =
    send_loop-Returned es before (b ∷ rest) c
send_loop-Returned (write_failed ∷ es) before rest c = tt
send_loop-Returned (no_send w ∷ es) before rest c = tt

pub send-Prompt : (buf : List ℕ) → Prompt (conn_io_send buf)
unfolding conn_io_send
send-Prompt buf = record { run = λ c. send_loop-Returned c.sends [] buf c }
