-- ===== src/Fileio/Components.antt =====
-- The components of a path, and where they lead from a directory below the root.
use nabud.Prelude.{ℕ, zero, suc, ◌+◌, ◌≤◌, ◌≡◌, refl, ap, ◌∙◌, arith, List, [], ◌∷◌, ◌++◌}
use nabud.Prelude.{Bool, true, false, ◌==◌, if◌then◌else◌, Option, none, some}
use nabud.Fileio.{slash, dot}

-- Where a component of a path leads from a directory.
pub data Turn : Type 0 where
  stay down back : Turn

-- The empty component and "." stay, ".." goes back, any other name leads down.
unfoldable pub turn : List ℕ → Turn
turn [] = stay
turn (c ∷ []) = if c == dot then stay else down
turn (c ∷ d ∷ []) = if c == dot then (if d == dot then back else down) else down
turn (c ∷ d ∷ e ∷ w) = down

-- The components of a path of which `w` begins the first one.
unfoldable pub components_from : List ℕ → List ℕ → List (List ℕ)
components_from w [] = w ∷ []
components_from w (c ∷ cs) =
    let other = components_from (w ++ (c ∷ [])) cs in
    let next = components_from [] cs in if c == slash then w ∷ next else other

-- The directory that a component leads to, by its depth; none is above depth 0.
abbrev pub led : Turn → ℕ → Option ℕ
led stay depth = some depth
led down depth = some (depth + 1)
led back zero = none
led back (suc depth) = some depth

-- On the way from a directory at a depth along the components, no step leads above depth 0.
unfoldable pub stays_inside : ℕ → List (List ℕ) → Bool
unfolding turn
stays_inside depth [] = true
stays_inside depth (w ∷ ws) = elim (led (turn w) depth) [
  | none ↦ false
  | some depth' ↦ stays_inside depth' ws
]

pub turn-longer : (w : List ℕ) (c : ℕ) → turn w ≡ down → turn (w ++ (c ∷ [])) ≡ down
unfolding turn
turn-longer [] c h = ground arith
turn-longer (a ∷ []) c h = ground arith
turn-longer (a ∷ b ∷ []) c h = refl
turn-longer (a ∷ b ∷ d ∷ w) c h = refl

-- A component that ends at a slash, or goes on.
pub ended :
    (w : List ℕ) (c : ℕ) (cs : List ℕ)
    → (c == slash) ≡ true
    → components_from w (c ∷ cs) ≡ w ∷ components_from [] cs
unfolding components_from
ended w c cs e = rw e refl

pub goes_on :
    (w : List ℕ) (c : ℕ) (cs : List ℕ)
    → (c == slash) ≡ false
    → components_from w (c ∷ cs) ≡ components_from (w ++ (c ∷ [])) cs
unfolding components_from
goes_on w c cs e = rw e refl

pub led-inside :
    (t t' : ℕ) (w : List ℕ) (ws : List (List ℕ))
    → led (turn w) t ≡ some t'
    → stays_inside t' ws ≡ true
    → stays_inside t (w ∷ ws) ≡ true
unfolding stays_inside
led-inside t t' w ws e h =
    ap (λ o. elim o [ none ↦ false | some depth' ↦ stays_inside depth' ws ]) e ∙ h

pub down_led : (t : ℕ) (w : List ℕ) → turn w ≡ down → led (turn w) t ≡ some (t + 1)
down_led t w h = ap (λ k. led k t) h

pub turning_back : turn (dot ∷ []) ≡ stay
unfolding turn
turning_back = refl

pub turning_up : turn (dot ∷ dot ∷ []) ≡ back
unfolding turn
turning_up = refl

pub turn_nothing : turn [] ≡ stay
unfolding turn
turn_nothing = refl

pub no_components : (t : ℕ) → stays_inside t [] ≡ true
unfolding stays_inside
no_components t = refl

pub back_led : (t d : ℕ) → suc d ≤ t → (t' : ℕ) × (led back t ≡ some t') × (d ≤ t')
back_led zero d h = absurd (omega arith)
back_led (suc t) d h = (t, refl, omega arith)

pub last_component : (w : List ℕ) → components_from w [] ≡ w ∷ []
unfolding components_from
last_component w = refl

pub ends_led :
    (w : List ℕ) (t t' : ℕ)
    → led (turn w) t ≡ some t'
    → stays_inside t (components_from w []) ≡ true
ends_led w t t' e = rw (last_component w) (led-inside t t' w [] e (no_components t'))

-- A component that leads to `t'` ends at a slash.
pub after_slash :
    (w : List ℕ) (c : ℕ) (cs : List ℕ) (t t' : ℕ)
    → (c == slash) ≡ true
    → led (turn w) t ≡ some t'
    → stays_inside t' (components_from [] cs) ≡ true
    → stays_inside t (components_from w (c ∷ cs)) ≡ true
after_slash w c cs t t' e l h = rw (ended w c cs e) (led-inside t t' w (components_from [] cs) l h)

pub one-down : (c : ℕ) → (c == dot) ≡ false → turn (c ∷ []) ≡ down
unfolding turn
one-down c e = rw e refl

pub two-down : (c : ℕ) → (c == dot) ≡ false → turn (dot ∷ c ∷ []) ≡ down
unfolding turn
two-down c e = rw e refl

pub three-down : (c : ℕ) → turn (dot ∷ dot ∷ c ∷ []) ≡ down
unfolding turn
three-down c = refl
