-- ===== src/Atom/Lists.antt =====
-- libnabud/atom.c: lists of atoms are built by appending, and received until they are complete. A
-- list is kept in its order; its counter is its length.
use nabud.Prelude.{
  ℕ, zero, suc, ◌+◌, ◌*◌, ◌≤◌, ◌≡◌, refl, arith, List, [], ◌∷◌, ◌++◌, Bool, true, false, not, ◌&&◌,
  ◌||◌, ◌==◌, ltb, if◌then◌else◌,
}
use nabud.Prelude.{length, bit_and, Option, none, some, Bool-cases, inl, inr}
use nabud.Prelude.Monad.{M, Outcome, done, fault, pure, ◌>>=◌}
use nabud.ConnIo.{ConnIo}
use nabud.Atom.{
  Atom, atom_recv, nabuctl_type, nabuctl_type_void, nabuctl_done, nabuctl_error, stored,
}

abbrev pub nabuctl_obj : ℕ → ℕ
nabuctl_obj tag = bit_and tag 0x00ff_0000

abbrev pub nabuctl_obj_channel : ℕ
nabuctl_obj_channel = 0x0001_0000

abbrev pub nabuctl_obj_connection : ℕ
nabuctl_obj_connection = 0x0002_0000

-- The assertions ask for data exactly where the type is not void.
unfoldable pub atom_list_append : (ℕ → Bool) → ℕ → List ℕ → List Atom → Outcome (Bool × List Atom)
atom_list_append alloc_ok tag buf atoms =
    let void = nabuctl_type tag == nabuctl_type_void in
    let empty = length buf == 0 in
    if (void && not empty) || (not void && empty)
    then fault
    else if alloc_ok (length buf)
    then done (true, atoms ++ (record { tag = tag; content = stored (nabuctl_type tag) buf } ∷ []))
    else done (false, atoms)

-- What the loop of `atom_list_recv` does after an atom: it returns, or goes on with the size so far,
-- the object that it is in, and the list.
pub data Next : Type 0 where
  stop : Bool → List Atom → Next
  more : ℕ → ℕ → List Atom → Next

-- The switch on the tag.
unfoldable pub list_verdict : ℕ → ℕ → ℕ → List Atom → Next
list_verdict tag size objtype atoms =
    if tag == nabuctl_done
    then (if objtype == 0 then stop true atoms else more size 0 atoms)
    else if tag == nabuctl_error
    then stop true atoms
    else if tag == nabuctl_obj_channel || tag == nabuctl_obj_connection
    then (if objtype == 0 then more size tag atoms else stop false [])
    else if nabuctl_obj tag == objtype
    then more size objtype atoms
    else stop false []

abbrev pub max_list_size : ℕ
max_list_size = 128 * 1024

-- A round of the loop behind `atom_recv`; `bad` frees the whole list.
unfoldable pub list_round : Option Atom → ℕ → ℕ → List Atom → Next
list_round none size objtype atoms = stop false []
list_round (some atom) size objtype atoms =
    if ltb max_list_size (size + length atom.content)
    then stop false []
    else list_verdict atom.tag (size + length atom.content) objtype (atoms ++ (atom ∷ []))

abbrev pub follow :
    (ℕ → ℕ → List Atom → M ConnIo (Option (Bool × List Atom)))
    → Next
    → M ConnIo (Option (Bool × List Atom))
follow go (stop ok atoms) = pure (some (ok, atoms))
follow go (more size objtype atoms) = go size objtype atoms

-- The loop, with fuel; `none` means that the fuel ran out.
unfoldable pub list_loop : (ℕ → Bool) → ℕ → ℕ → ℕ → List Atom → M ConnIo (Option (Bool × List Atom))
list_loop alloc_ok zero size objtype atoms = pure none
list_loop alloc_ok (suc fuel) size objtype atoms = do
  got ← atom_recv alloc_ok
  follow (list_loop alloc_ok fuel) (list_round got size objtype atoms)

unfoldable pub atom_list_recv : (ℕ → Bool) → ℕ → M ConnIo (Option (Bool × List Atom))
unfolding list_loop
atom_list_recv alloc_ok fuel = list_loop alloc_ok fuel 0 0 []

abbrev pub total_size : List Atom → ℕ
total_size [] = 0
total_size (atom ∷ atoms) = length atom.content + total_size atoms

total_size-append :
    (atoms : List Atom) (atom : Atom)
    → total_size (atoms ++ (atom ∷ [])) ≡ total_size atoms + length atom.content
total_size-append [] atom = omega arith
total_size-append (a ∷ atoms) atom = omega (arith, total_size-append atoms atom)

-- What the loop keeps: the size so far is that of the list, and no more than the limit.
unfoldable pub NextPost : Next → Type 0
NextPost (stop true atoms) = total_size atoms ≤ max_list_size
NextPost (stop false atoms) = atoms ≡ []
NextPost (more size objtype atoms) = (size ≡ total_size atoms) × (size ≤ max_list_size)

if-NextPost : (t : Bool) (m k : Next) → NextPost m → NextPost k → NextPost (if t then m else k)
if-NextPost true m k h h' = h
if-NextPost false m k h h' = h'

verdict-NextPost :
    (tag size objtype : ℕ) (atoms : List Atom)
    → size ≡ total_size atoms
    → size ≤ max_list_size
    → NextPost (list_verdict tag size objtype atoms)
unfolding list_verdict NextPost
verdict-NextPost tag size objtype atoms e h =
    if-NextPost (tag == nabuctl_done) _ _ (if-NextPost (objtype == 0) _ _ (omega arith) (e, h)) (
      if-NextPost (tag == nabuctl_error) _ _ (omega arith) (
        if-NextPost (tag == nabuctl_obj_channel || tag == nabuctl_obj_connection) _ _
          (if-NextPost (objtype == 0) _ _ (e, h) refl)
          (if-NextPost (nabuctl_obj tag == objtype) _ _ (e, h) refl)))

pub round-NextPost :
    (got : Option Atom) (size objtype : ℕ) (atoms : List Atom)
    → size ≡ total_size atoms
    → NextPost (list_round got size objtype atoms)
unfolding list_round NextPost
round-NextPost none size objtype atoms e = refl
round-NextPost (some atom) size objtype atoms e =
    elim (Bool-cases (ltb max_list_size (size + length atom.content))) [
      | inl big ↦ rw big refl
      | inr fits ↦ rw fits (
          verdict-NextPost atom.tag (size + length atom.content) objtype (atoms ++ (atom ∷ []))
            (omega (arith, total_size-append atoms atom)) (ground arith))
    ]
