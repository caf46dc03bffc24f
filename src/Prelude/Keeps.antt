-- ===== src/Prelude/Keeps.antt =====
-- Runs that keep an invariant of the state, whatever they return.
use nabud.Prelude.{Bool, true, false, ◌≡◌, refl, if◌then◌else◌}
use nabud.Prelude.Monad.{
  Outcome, done, blocked, fault, M, pure, modify, read, assert, zoom, ◌>>=◌, ◌>>◌,
}

-- If a run gives a state, it is one of which `I` holds.
abbrev pub Kept : {S A : Type 0} → (S → Type 0) → Outcome (A × S) → Type 0
Kept I (done (a, s)) = I s
Kept I blocked = Unit
Kept I fault = Unit

pub record Keeps {S A : Type 0} (I : S → Type 0) (m : M S A) : Type 0 where
  pub run : (s : S) → I s → Kept I (m s)

module _ {S : Type 0} (I : S → Type 0) where
  pub Kept-bind :
      {A B : Type 0}
      → (o : Outcome (A × S)) (f : A → M S B) → Kept I o
      → ((a : A) → Keeps I (f a))
      → Kept I (elim o [ done (a, t) ↦ f a t | blocked ↦ blocked | fault ↦ fault ])
  Kept-bind (done (a, s)) f h k = (k a).run s h
  Kept-bind blocked f h k = tt
  Kept-bind fault f h k = tt

  pub Keeps-bind :
      {A B : Type 0}
      → (m : M S A) (f : A → M S B) → Keeps I m
      → ((a : A) → Keeps I (f a))
      → Keeps I (m >>= f)
  Keeps-bind m f h k = record { run = λ s i. Kept-bind (m s) f (h.run s i) k }

  -- What follows may use that the value was read off a state of the invariant.
  pub Keeps-read :
      {A B : Type 0}
      → (g : S → A) (f : A → M S B) (P : A → Type 0) → ((s : S) → I s → P (g s))
      → ((a : A) → P a → Keeps I (f a))
      → Keeps I (read g >>= f)
  Keeps-read g f P h k = record { run = λ s i. (k (g s) (h s i)).run s i }

  pub Keeps-pure : {A : Type 0} → (a : A) → Keeps I (pure a)
  Keeps-pure a = record { run = λ s i. i }

  pub Keeps-modify : (f : S → S) → ((s : S) → I s → I (f s)) → Keeps I (modify f)
  Keeps-modify f h = record { run = h }

  pub Keeps-assert : (b : Bool) → Keeps I (assert b)
  Keeps-assert true = record { run = λ s i. i }
  Keeps-assert false = record { run = λ s i. tt }

  -- What follows an assertion may use it.
  pub Kept-assert :
      {A : Type 0}
      → (b : Bool) (m : M S A) (s : S) → (b ≡ true → Kept I (m s))
      → Kept I ((assert b >> m) s)
  Kept-assert true m s h = h refl
  Kept-assert false m s h = tt

  pub Keeps-if :
      {A : Type 0} → (b : Bool) (m k : M S A) → Keeps I m → Keeps I k → Keeps I (if b then m else k)
  Keeps-if true m k h h' = h
  Keeps-if false m k h h' = h'

  zoomed :
      {T A : Type 0}
      → (put : S → T → S) (s : S) (o : Outcome (A × T)) → ((t : T) → I (put s t))
      → Kept I (elim o [ done (a, t) ↦ done (a, put s t) | blocked ↦ blocked | fault ↦ fault ])
  zoomed put s (done (a, t)) h = h t
  zoomed put s blocked h = tt
  zoomed put s fault h = tt

  -- An operation on a part of the state that the invariant does not look at.
  pub Keeps-zoom :
      {T A : Type 0}
      → (get : S → T) (put : S → T → S) (m : M T A) → ((s : S) (t : T) → I s → I (put s t))
      → Keeps I (zoom get put m)
  Keeps-zoom get put m h = record { run = λ s i. zoomed put s (m (get s)) (λ t. h s t i) }

pub Kept-weaken :
    {S A : Type 0}
    → (I J : S → Type 0) (o : Outcome (A × S)) → ((s : S) → I s → J s)
    → Kept I o
    → Kept J o
Kept-weaken I J (done (a, s)) h k = h s k
Kept-weaken I J blocked h k = tt
Kept-weaken I J fault h k = tt
