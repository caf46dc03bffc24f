-- ===== src/Fileio/Paths.antt =====
-- From the check to the path: what is resolved below a root stays below it.
use nabud.Prelude.{ℕ, ◌≡◌, refl, sym, ap, ◌∙◌, arith, List, [], ◌∷◌, ◌++◌, ◌⊎◌, inl, inr}
use nabud.Prelude.{Bool, true, false, not, ◌==◌, some, Bool-cases, if-cases, length}
use nabud.Fileio.{slash, dot, escape_step, escape_loop, check_local_root_escape}
use nabud.Fileio.{
  initial, base, have_dot, have_dot_dot, have_slash, have_slash_dot, have_slash_dot_dot,
}
use nabud.Fileio.{skip_slashes, escape_start}
use nabud.Fileio.{fileio_resolve_path, fileio_local_resolve_path, strip_extra_slashes}
use nabud.Fileio.{after_dot, after_dot_dot, non_empty, below_root, allocated}
use nabud.Fileio.{fileio_location_is_local, with_prefix_stripped, EscapeCheckState}
use nabud.Fileio.Components.{
  components_from, stays_inside, goes_on, after_slash, ends_led, one-down, two-down, three-down,
  turn_nothing, turning_back, led,
}
use nabud.Fileio.Confined.{loop-inside, loop-step, loop_stopped}

-- The components of a path.
abbrev pub components : List ℕ → List (List ℕ)
components path = components_from [] path

abbrev Starts : List ℕ → Type 0
Starts [] = Unit
Starts (c ∷ cs) = (c == slash) ≡ false

skip_slashes-Starts : (l : List ℕ) → Starts (skip_slashes l)
unfolding skip_slashes
skip_slashes-Starts [] = tt
skip_slashes-Starts (c ∷ cs) = elim (Bool-cases (c == slash)) [
  | inl e ↦ rw e (skip_slashes-Starts cs)
  | inr e ↦ rw e e
]

module _ (c : ℕ) (cs : List ℕ) where
  after_dot_dot-inside :
      after_dot_dot (c ∷ cs) ≡ false
      → stays_inside 0 (components_from (dot ∷ dot ∷ []) (c ∷ cs)) ≡ true
  unfolding escape_step
  after_dot_dot-inside h = elim (Bool-cases (c == slash)) [
    | inl e ↦ cc (loop_stopped c cs have_dot_dot 0 (rw e refl))
    | inr e ↦ rw (goes_on (dot ∷ dot ∷ []) c cs e) (
        loop-inside cs base (dot ∷ dot ∷ c ∷ []) 0 0 (three-down c, omega arith)
          (loop-step c cs have_dot_dot base 0 0 (rw e refl) h))
  ]

  -- A component that begins with one dot only.
  one_dot-inside :
      (c == dot) ≡ false
      → escape_loop (c ∷ cs) have_dot 0 ≡ false
      → stays_inside 0 (components_from (dot ∷ []) (c ∷ cs)) ≡ true
  unfolding escape_step
  one_dot-inside other h = elim (Bool-cases (c == slash)) [
    | inl e ↦ after_slash (dot ∷ []) c cs 0 0 e (ap (λ k. led k 0) turning_back) (
        loop-inside cs have_slash [] 0 0 (refl, omega arith)
          (loop-step c cs have_dot have_slash 0 0 (rw (other, e) refl) h))
    | inr e ↦ rw (goes_on (dot ∷ []) c cs e) (
        loop-inside cs base (dot ∷ c ∷ []) 0 0 (two-down c other, omega arith)
          (loop-step c cs have_dot base 0 0 (rw (other, e) refl) h))
  ]

  no_dot-inside :
      (c == dot) ≡ false
      → (c == slash) ≡ false
      → escape_loop (c ∷ cs) initial 0 ≡ false
      → stays_inside 0 (components_from [] (c ∷ cs)) ≡ true
  unfolding escape_step
  no_dot-inside other e h = rw (goes_on [] c cs e) (
      loop-inside cs initial (c ∷ []) 0 0 (one-down c other, omega arith)
        (loop-step c cs initial initial 0 0 (rw e refl) h))

two_dots-inside :
    (cs : List ℕ)
    → after_dot_dot cs ≡ false
    → stays_inside 0 (components_from (dot ∷ []) (dot ∷ cs)) ≡ true
two_dots-inside [] h = cc
two_dots-inside (c ∷ cs) h = rw (goes_on (dot ∷ []) dot (c ∷ cs) refl) (after_dot_dot-inside c cs h)

after_dot-inside :
    (cs : List ℕ) → after_dot cs ≡ false → stays_inside 0 (components_from (dot ∷ []) cs) ≡ true
after_dot-inside [] h = ends_led (dot ∷ []) 0 0 (ap (λ k. led k 0) turning_back)
after_dot-inside (c ∷ cs) h = elim (Bool-cases (c == dot)) [
  | inl e ↦
      let c_dot : c ≡ dot = ground arith in
      ap (λ x. stays_inside 0 (components_from (dot ∷ []) (x ∷ cs))) c_dot
      ∙ two_dots-inside cs (sym (rw e refl) ∙ h)
  | inr e ↦ one_dot-inside c cs e (sym (rw e refl) ∙ h)
]

start-inside :
    (l : List ℕ) → Starts l → escape_start l ≡ false → stays_inside 0 (components l) ≡ true
start-inside [] s h = ends_led [] 0 0 (ap (λ k. led k 0) turn_nothing)
start-inside (c ∷ cs) s h = elim (Bool-cases (c == dot)) [
  | inl e ↦
      let c_dot : c ≡ dot = ground arith in
      rw (goes_on [] c cs s ∙ ap (λ x. components_from (x ∷ []) cs) c_dot)
        (after_dot-inside cs (sym (rw e refl) ∙ h))
  | inr e ↦ no_dot-inside c cs e s (sym (rw e refl) ∙ h)
]

-- Slashes at the head do not count.
skipped-inside :
    (l : List ℕ)
    → stays_inside 0 (components (skip_slashes l)) ≡ true
    → stays_inside 0 (components l) ≡ true
unfolding skip_slashes
skipped-inside [] h = h
skipped-inside (c ∷ cs) h = elim (Bool-cases (c == slash)) [
  | inl e ↦
      after_slash [] c cs 0 0 e (ap (λ k. led k 0) turn_nothing)
        (skipped-inside cs (ap (λ l. stays_inside 0 (components l)) (sym (rw e refl)) ∙ h))
  | inr e ↦ ap (λ l. stays_inside 0 (components l)) (sym (rw e refl)) ∙ h
]

-- A location that the check lets pass leads nowhere above the root.
checked-inside :
    (location : List ℕ)
    → check_local_root_escape location ≡ false
    → stays_inside 0 (components location) ≡ true
unfolding check_local_root_escape
checked-inside location h =
    skipped-inside location (start-inside (skip_slashes location) (skip_slashes-Starts location) h)

-- What a path looks like that stands below a root.
abbrev pub Below : List ℕ → ℕ ⊎ List ℕ → Type 0
Below root (inl e) = Unit
Below root (inr path) =
    (rest : List ℕ) × (path ≡ root ++ (slash ∷ rest)) × (stays_inside 0 (components rest) ≡ true)

allocated-Below :
    (malloc_ok : Bool) (root rest : List ℕ)
    → stays_inside 0 (components rest) ≡ true
    → Below root (allocated malloc_ok (root ++ (slash ∷ rest)))
allocated-Below true root rest h = (rest, refl, h)
allocated-Below false root rest h = tt

below_root-Below :
    (malloc_ok : Bool) (location root : List ℕ) (flags : ℕ)
    → Below root (below_root malloc_ok location (some root) flags)
below_root-Below malloc_ok location [] flags = tt
below_root-Below malloc_ok location (r ∷ root) flags =
    if-cases (Below (r ∷ root)) (not (r == slash)) _ _ (λ e. tt)
      (λ e.
        if-cases (Below (r ∷ root)) (check_local_root_escape location) _ _ (λ k. tt)
          (λ k. allocated-Below malloc_ok (r ∷ root) location (checked-inside location k)))

non_empty-Below :
    (root location : List ℕ) (r : ℕ ⊎ List ℕ) → Below root r → Below root (non_empty location r)
non_empty-Below root [] r h = tt
non_empty-Below root (c ∷ cs) r h = h

-- Whatever the location, the flags and the memory, a path that is resolved below a local root is the
-- root, a slash, and a path of which no component leads above the root.
pub resolve_path-Below :
    (malloc_ok : Bool) (location root : List ℕ) (flags : ℕ)
    → Below root (fileio_resolve_path malloc_ok location (some root) flags)
unfolding fileio_resolve_path fileio_local_resolve_path
resolve_path-Below malloc_ok location root flags =
    if-cases (Below root) (not (fileio_location_is_local location (length location))) _ _ (λ e. tt)
      (λ e.
        let stripped = strip_extra_slashes (with_prefix_stripped location) in
        non_empty-Below root stripped _ (below_root-Below malloc_ok stripped root flags))

-- No dot occurs.
abbrev pub NoDot : List ℕ → Type 0
NoDot [] = Unit
NoDot (c ∷ cs) = ((c == dot) ≡ false) × NoDot cs

-- The states that are reached without a dot.
abbrev Plain : EscapeCheckState → Type 0
Plain initial = Unit
Plain base = Unit
Plain have_slash = Unit
Plain have_dot = ⊥
Plain have_dot_dot = ⊥
Plain have_slash_dot = ⊥
Plain have_slash_dot_dot = ⊥
