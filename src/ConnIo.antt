-- ===== src/ConnIo.antt =====
-- libnabud/conn_io.c: how a connection sends and receives, one step of poll(2) and read(2) or
-- write(2) at a time. What the kernel answers is a script of events, in the state; the buffers are
-- lists, and a pointer that is moved before its buffer is a fault.
pub mod Recv
pub mod Send
pub mod Rounds
pub mod Prompt
mod Tests
use nabud.Prelude.{
  ℕ, zero, suc, ◌+◌, ◌-◌, List, [], ◌∷◌, ◌++◌, Bool, true, false, length, take, drop,
}
use nabud.Prelude.{◌==◌, if◌then◌else◌, min}
use nabud.Prelude.Monad.{M, Outcome, done, blocked, fault, pure}

pub data ConnState : Type 0 where
  ok eof cancelled aborted : ConnState

-- Why `conn_io_wait` returns false: poll(2) failed, the deadline passed, another thread called
-- `conn_io_cancel`, or the descriptor reports an error and no readiness.
pub data WaitFailure : Type 0 where
  poll_failed timed_out cancel_requested hung_up : WaitFailure

-- One round of the receive loop. A read(2) that returns several bytes is that many `byte` events:
-- the loop adds up what it is given.
pub data RecvEvent : Type 0 where
  byte : ℕ → RecvEvent
  read_again read_failed read_eof : RecvEvent
  no_recv : WaitFailure → RecvEvent

-- One round of the send loop; `wrote n` accepts `n` bytes, or all if fewer are left.
pub data SendEvent : Type 0 where
  wrote : ℕ → SendEvent
  write_again write_failed : SendEvent
  no_send : WaitFailure → SendEvent

-- `sends` lists the rounds of send loops to come; after them every write is accepted whole.
-- `sent` is all that the peer has been given.
pub record ConnIo : Type 0 where
  pub state : ConnState
  pub watchdog : ℕ
  pub recvs : List RecvEvent
  pub sends : List SendEvent
  pub sent : List ℕ

unfoldable pub conn_io_set_state : ConnState → ConnIo → ConnIo
conn_io_set_state s c = record c { state = s }

-- The write to the cancellation pipe is the event by which a waiting thread learns of it.
unfoldable pub conn_io_cancel : ConnIo → ConnIo
unfolding conn_io_set_state
conn_io_cancel c = conn_io_set_state cancelled c

-- The state that a failed `conn_io_wait` leaves.
unfoldable pub conn_io_wait : WaitFailure → ConnIo → ConnIo
unfolding conn_io_cancel conn_io_set_state
conn_io_wait poll_failed c = conn_io_set_state aborted c
conn_io_wait timed_out c = c
conn_io_wait cancel_requested c = conn_io_cancel c
conn_io_wait hung_up c = conn_io_set_state aborted c

-- All but the last byte: a `curptr` moved back by one, and `none` before the start of the buffer.
abbrev pub step_back : List ℕ → List ℕ
step_back [] = []
step_back (b ∷ []) = []
step_back (b ∷ c ∷ bs) = b ∷ step_back (c ∷ bs)

-- The loop of `conn_io_recv`, with the bytes between `buf` and `curptr`. At EAGAIN read(2) returns
-- -1, which the loop subtracts from `resid` and adds to `curptr` like any count.
-- A read(2) of no bytes returns 0, which the loop takes for the end of the file.
recv_loop : List RecvEvent → ℕ → List ℕ → M ConnIo (Bool × List ℕ)
unfolding conn_io_wait conn_io_set_state
recv_loop [] resid got c = blocked
recv_loop (byte b ∷ es) zero got c =
    done ((false, got), record (conn_io_set_state eof c) { recvs = byte b ∷ es })
recv_loop (byte b ∷ es) (suc zero) got c = done ((true, got ++ (b ∷ [])), record c { recvs = es })
recv_loop (byte b ∷ es) (suc (suc resid)) got c = recv_loop es (suc resid) (got ++ (b ∷ [])) c
recv_loop (read_again ∷ es) resid [] c = fault
recv_loop (read_again ∷ es) resid (b ∷ got) c = recv_loop es (suc resid) (step_back (b ∷ got)) c
recv_loop (read_failed ∷ es) resid got c =
    done ((false, got), record (conn_io_set_state aborted c) { recvs = es })
recv_loop (read_eof ∷ es) resid got c =
    done ((false, got), record (conn_io_set_state eof c) { recvs = es })
recv_loop (no_recv w ∷ es) resid got c =
    done ((false, got), record (conn_io_wait w c) { recvs = es })

-- The result holds what was stored at `vbuf`, also where the call fails.
unfoldable pub conn_io_recv : ℕ → M ConnIo (Bool × List ℕ)
unfolding recv_loop
conn_io_recv len c = recv_loop c.recvs len [] c

unfoldable pub conn_io_recv_byte : M ConnIo (Bool × List ℕ)
unfolding conn_io_recv
conn_io_recv_byte = conn_io_recv 1

-- Bytes put, one after the other, at the front of a list.
abbrev pub rev_onto : List ℕ → List ℕ → List ℕ
rev_onto [] before = before
rev_onto (b ∷ bs) before = rev_onto bs (b ∷ before)

-- `if (resid == 0) return;`
abbrev pub if_none_left : {A : Type 0} → List ℕ → A → A → A
if_none_left [] stop more = stop
if_none_left (b ∷ bs) stop more = more

-- The loop of `conn_io_send`: `before` is the part of the buffer that `curptr` has passed, last
-- byte first, and `rest` what is left.
send_loop : List SendEvent → List ℕ → List ℕ → M ConnIo (Unit {0})
unfolding conn_io_wait conn_io_set_state
send_loop [] before [] c = done (tt, record (conn_io_set_state eof c) { sends = [] })
send_loop [] before (b ∷ rest) c = done (tt, record c { sends = []; sent = c.sent ++ (b ∷ rest) })
send_loop (wrote zero ∷ es) before rest c =
    done (tt, record (conn_io_set_state eof c) { sends = es })
send_loop (wrote (suc n) ∷ es) before [] c =
    done (tt, record (conn_io_set_state eof c) { sends = es })
send_loop (wrote (suc n) ∷ es) before (b ∷ rest) c =
    let now = b ∷ take n rest in
    let left = drop n rest in
    let c' = record c { sends = es; sent = c.sent ++ now } in
    let more = send_loop es (rev_onto now before) left c' in if_none_left left (done (tt, c')) more
send_loop (write_again ∷ es) [] rest c = fault
send_loop (write_again ∷ es) (b ∷ before) rest c = send_loop es before (b ∷ rest) c
send_loop (write_failed ∷ es) before rest c =
    done (tt, record (conn_io_set_state aborted c) { sends = es })
send_loop (no_send w ∷ es) before rest c = done (tt, record (conn_io_wait w c) { sends = es })

unfoldable pub conn_io_send : List ℕ → M ConnIo (Unit {0})
unfolding send_loop
conn_io_send buf c = send_loop c.sends [] buf c

unfoldable pub conn_io_send_byte : ℕ → M ConnIo (Unit {0})
unfolding conn_io_send
conn_io_send_byte val = conn_io_send (val ∷ [])

unfoldable pub conn_io_start_watchdog : ℕ → M ConnIo (Unit {0})
conn_io_start_watchdog timo_sec c = done (tt, record c { watchdog = timo_sec })

unfoldable pub conn_io_stop_watchdog : M ConnIo (Unit {0})
conn_io_stop_watchdog c = done (tt, record c { watchdog = 0 })

-- The switch has a default that ends the process; the enumeration has no value that reaches it.
state_is_ok : ConnState → Bool
state_is_ok ok = true
state_is_ok eof = false
state_is_ok cancelled = false
state_is_ok aborted = false

unfoldable pub conn_io_check_state : ConnIo → Bool
unfolding state_is_ok
conn_io_check_state c = state_is_ok c.state
