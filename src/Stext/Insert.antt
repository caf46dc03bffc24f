-- ===== src/Stext/Insert.antt =====
-- Insertion into the table of slots.
use nabud.Prelude.{
  ℕ, ◌+◌, ◌≤◌, ◌<◌, ◌≡◌, ◌≢◌, refl, sym, arith, List, [], ◌∷◌, ◌==◌, ltb, none, some,
}
use nabud.Prelude.{Bool-cases, inl, inr, ◌∙◌}
use nabud.Stext.{StextFile, Result, ok, error, crashed, ebusy, emfile, efbig, erofs, other_errno}
use nabud.Stext.{consed, find_loop}

-- The list is sorted by slots, without repetition, from `n` up to 0xfe.
abbrev pub SortedFrom : ℕ → List StextFile → Type 0
SortedFrom n [] = Unit
SortedFrom n (f ∷ rest) = (n ≤ f.slot) × (f.slot < 0xff) × SortedFrom (f.slot + 1) rest

-- What a table holds after `f` has come to the slot `s`: the slot was free, it holds `f` now, and
-- every other slot holds what it held.
abbrev pub Added : StextFile → ℕ → List StextFile → List StextFile → Type 0
Added f s files files' =
    (find_loop s files ≡ none)
    × (find_loop s files' ≡ some (record f { slot = s }))
    × ((m : ℕ) → m ≢ s → find_loop m files' ≡ find_loop m files)

-- The result of the search for the lowest free slot from `n` on.
abbrev pub LowestPost : ℕ → StextFile → List StextFile → Result (List StextFile) → Type 0
LowestPost n f files (ok files') =
    (s : ℕ) × (n ≤ s)
    × (s < 0xff)
    × SortedFrom n files'
    × Added f s files files'
    × ((m : ℕ) → n ≤ m → m < s → find_loop m files ≢ none)
LowestPost n f files (error emfile) = (m : ℕ) → n ≤ m → m < 0xff → find_loop m files ≢ none
LowestPost n f files (error e) = ⊥
LowestPost n f files crashed = ⊥

pub some≢none : (f : StextFile) → some f ≢ none
some≢none f e = cc

find-below :
    (n m : ℕ) (files : List StextFile) → SortedFrom n files → m < n → find_loop m files ≡ none
unfolding find_loop
find-below n m [] h k = refl
find-below n m (f ∷ rest) h k = ground arith

pub find-here :
    (f : StextFile) (rest : List StextFile) (s : ℕ) → f.slot ≡ s → find_loop s (f ∷ rest) ≡ some f
unfolding find_loop
find-here f rest s e = ground arith

pub find-skip :
    (f : StextFile) (rest : List StextFile) (m : ℕ)
    → f.slot < m
    → find_loop m (f ∷ rest) ≡ find_loop m rest
unfolding find_loop
find-skip f rest m h = ground arith

pub find-before :
    (f : StextFile) (rest : List StextFile) (m : ℕ) → m < f.slot → find_loop m (f ∷ rest) ≡ none
unfolding find_loop
find-before f rest m h = ground arith

-- A file put before a table that begins above its slot.
pub put_front-Added :
    (f : StextFile) (s : ℕ) (files : List StextFile)
    → SortedFrom (s + 1) files
    → Added f s files (record f { slot = s } ∷ files)
put_front-Added f s files h = (
  find-below (s + 1) s files h (omega arith),
  find-here (record f { slot = s }) files s refl,
  λ m differs. elim (Bool-cases (ltb m s)) [
    | inl e ↦
        find-before (record f { slot = s }) files m (ground arith)
        ∙ sym (find-below (s + 1) m files h (ground arith))
    | inr e ↦ find-skip (record f { slot = s }) files m (ground (arith, differs))
  ],
)

-- A file added behind the first.
pub behind-Added :
    (f lf : StextFile) (s : ℕ) (rest rest' : List StextFile)
    → lf.slot < s
    → Added f s rest rest'
    → Added f s (lf ∷ rest) (lf ∷ rest')
behind-Added f lf s rest rest' h (free, found, others) = (
  find-skip lf rest s h ∙ free,
  find-skip lf rest' s h ∙ found,
  λ m differs. same m (others m differs),
)
  where
    same :
        (m : ℕ)
        → find_loop m rest' ≡ find_loop m rest
        → find_loop m (lf ∷ rest') ≡ find_loop m (lf ∷ rest)
    same m e = unfold find_loop in ground (arith, e)

-- If the slots behind the first up to `s` are taken, so are those from the first on.
taken_from :
    (n : ℕ) (lf : StextFile) (rest : List StextFile) (m s : ℕ)
    → n ≡ lf.slot
    → n ≤ m
    → m < s
    → ((k : ℕ) → lf.slot + 1 ≤ k → k < s → find_loop k rest ≢ none)
    → find_loop m (lf ∷ rest) ≢ none
taken_from n lf rest m s e h k least = λ none_found. elim (Bool-cases (m == lf.slot)) [
  | inl same ↦ let here = find-here lf rest m (ground arith) in some≢none lf (sym here ∙ none_found)
  | inr other ↦
      let past : lf.slot < m = ground arith in
      least m (omega arith) k (sym (find-skip lf rest m past) ∙ none_found)
]

pub consed-LowestPost :
    (n : ℕ) (f lf : StextFile) (rest : List StextFile) (r : Result (List StextFile))
    → n ≡ lf.slot
    → lf.slot < 0xfe
    → LowestPost (lf.slot + 1) f rest r
    → LowestPost n f (lf ∷ rest) (consed lf r)
consed-LowestPost n f lf rest (ok files') e small (s, above, below, sorted, added, least) = (
  s,
  omega arith,
  below,
  (omega arith, omega arith, sorted),
  behind-Added f lf s rest files' (omega arith) added,
  λ m h k. taken_from n lf rest m s e h k least,
)
consed-LowestPost n f lf rest (error emfile) e small full =
    λ m h k. taken_from n lf rest m 0xff e h k full
consed-LowestPost n f lf rest (error ebusy) e small h = absurd h
consed-LowestPost n f lf rest (error efbig) e small h = absurd h
consed-LowestPost n f lf rest (error erofs) e small h = absurd h
consed-LowestPost n f lf rest (error (other_errno x)) e small h = absurd h
consed-LowestPost n f lf rest crashed e small h = absurd h
