-- ===== src/Atom/Reception.antt =====
-- The reception of a list ends, and what it returns is bounded.
use nabud.Prelude.{
  ℕ, zero, suc, ◌≤◌, ◌<◌, ◌≡◌, refl, arith, List, [], Bool, true, false, not, ◌||◌, ◌&&◌, ◌==◌,
  if◌then◌else◌, drop, Option, none, some,
}
use nabud.Prelude.Monad.{M, Outcome, done, blocked, fault}
use nabud.Prelude.Measure.{Within, Quiet, Within-bind_down, Quiet-bind, Quiet-pure}
use nabud.Proto.{nabu_get_uint32_be}
use nabud.ConnIo.{ConnIo, conn_io_recv}
use nabud.ConnIo.Rounds.{rounds_left, recv-rounds, recv-Quiet}
use nabud.Atom.{Atom, atom_recv, recv_data, nul_ok, length_ok, nabuctl_type}
use nabud.Atom.Lists.{
  Next, stop, more, NextPost, list_round, follow, list_loop, atom_list_recv, total_size,
  max_list_size, round-NextPost,
}

if-Quiet :
    {A : Type 0}
    → (b : Bool) (m k : M ConnIo A) → Quiet rounds_left m
    → Quiet rounds_left k
    → Quiet rounds_left (if b then m else k)
if-Quiet true m k h h' = h
if-Quiet false m k h h' = h'

recv_data-Quiet : (tag len : ℕ) → Quiet rounds_left (recv_data tag len)
unfolding recv_data
recv_data-Quiet tag len =
    Quiet-bind rounds_left (conn_io_recv len) _ (recv-Quiet len) (λ (received, content).
      if-Quiet (received && nul_ok (nabuctl_type tag) content) _ _
        (Quiet-pure rounds_left (some (record { tag = tag; content = content })))
        (Quiet-pure rounds_left none))

atom_recv-rounds :
    (alloc_ok : ℕ → Bool) (c : ConnIo)
    → Within (λ d. suc (rounds_left d)) (rounds_left c) (atom_recv alloc_ok c)
unfolding atom_recv
atom_recv-rounds alloc_ok c =
    Within-bind_down rounds_left (rounds_left c) (conn_io_recv 8 c) _ (recv-rounds 7 c)
      (λ (received, hdr).
        let tag : ℕ = nabu_get_uint32_be hdr in
        let len : ℕ = nabu_get_uint32_be (drop 4 hdr) in
        if-Quiet (not received || not (length_ok (nabuctl_type tag) len) || not (alloc_ok len)) _ _
          (Quiet-pure rounds_left none)
          (if-Quiet (len == 0) _ _
            (Quiet-pure rounds_left (some (record { tag = tag; content = [] })))
            (recv_data-Quiet tag len)))

-- What the reception of a list may come to: a list of at most 128 KB of data, or a failure, and
-- then the list is empty; or it waits for bytes that never come, or runs into a fault. It does not
-- run out of fuel.
abbrev pub ListPost : Outcome (Option (Bool × List Atom) × ConnIo) → Type 0
ListPost (done (none, c)) = ⊥
ListPost (done (some (true, atoms), c)) = total_size atoms ≤ max_list_size
ListPost (done (some (false, atoms), c)) = atoms ≡ []
ListPost blocked = Unit
ListPost fault = Unit

follow-ListPost :
    (go : ℕ → ℕ → List Atom → M ConnIo (Option (Bool × List Atom))) (next : Next) (c : ConnIo)
    → NextPost next
    → ((size objtype : ℕ) (atoms : List Atom)
        → size ≡ total_size atoms
        → ListPost (go size objtype atoms c))
    → ListPost (follow go next c)
unfolding NextPost
follow-ListPost go (stop true atoms) c h k = h
follow-ListPost go (stop false atoms) c h k = h
follow-ListPost go (more size objtype atoms) c h k = k size objtype atoms h.0

loop_step :
    (go : ℕ → ℕ → List Atom → M ConnIo (Option (Bool × List Atom)))
    (o : Outcome (Option Atom × ConnIo)) (n size objtype : ℕ) (atoms : List Atom)
    → Within (λ d. suc (rounds_left d)) n o
    → size ≡ total_size atoms
    → ((c : ConnIo) (size objtype : ℕ) (atoms : List Atom)
        → rounds_left c < n
        → size ≡ total_size atoms
        → ListPost (go size objtype atoms c))
    → ListPost (elim o [
      | done (got, c) ↦ follow go (list_round got size objtype atoms) c
      | blocked ↦ blocked
      | fault ↦ fault
    ])
loop_step go (done (got, c)) n size objtype atoms w e k =
    follow-ListPost go (list_round got size objtype atoms) c
      (round-NextPost got size objtype atoms e)
      (λ size' objtype' atoms' e'. k c size' objtype' atoms' (omega arith) e')
loop_step go blocked n size objtype atoms w e k = tt
loop_step go fault n size objtype atoms w e k = tt

loop-ListPost :
    (alloc_ok : ℕ → Bool) (fuel : ℕ) (c : ConnIo) (size objtype : ℕ) (atoms : List Atom)
    → rounds_left c < fuel
    → size ≡ total_size atoms
    → ListPost (list_loop alloc_ok fuel size objtype atoms c)
unfolding list_loop
loop-ListPost alloc_ok zero c size objtype atoms h e = absurd (omega arith)
loop-ListPost alloc_ok (suc fuel) c size objtype atoms h e =
    loop_step (list_loop alloc_ok fuel) (atom_recv alloc_ok c) (rounds_left c) size objtype atoms
      (atom_recv-rounds alloc_ok c) e
      (λ d size' objtype' atoms' k e'.
        loop-ListPost alloc_ok fuel d size' objtype' atoms' (omega arith) e')

-- Whatever bytes and events come, with a fuel of more than the rounds of reception to come the
-- reception of a list does not run out of fuel; a list that it returns with success holds at most
-- 128 KB of data, and after a failure the list is empty.
pub list_recv-ListPost :
    (alloc_ok : ℕ → Bool) (fuel : ℕ) (c : ConnIo)
    → rounds_left c < fuel
    → ListPost (atom_list_recv alloc_ok fuel c)
unfolding atom_list_recv
list_recv-ListPost alloc_ok fuel c h = loop-ListPost alloc_ok fuel c 0 0 [] h refl
