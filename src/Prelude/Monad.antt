-- ===== src/Prelude/Monad.antt =====
-- State with the two ways in which a run of the C code may give no value: it waits for an event
-- that never comes, or it leaves what the C standard defines.
use mathlib.Core.Path.{◌≡◌, ap}
use mathlib.Core.Bool.{Bool, true, false}

-- `blocked`: the script of events is used up and the thread is still waiting.
-- `fault`: an access outside a buffer, or a failed assertion.
pub data Outcome {ℓ} (A : Type ℓ) : Type ℓ where
  done : A → Outcome A
  blocked : Outcome A
  fault : Outcome A

-- `abbrev`, so that a bind of a value computes wherever it stands.
abbrev pub M : Type 0 → Type 0 → Type 0
M S A = S → Outcome (A × S)

abbrev pub pure : {S A : Type 0} → A → M S A
pure a s = done (a, s)

abbrev pub modify : {S : Type 0} → (S → S) → M S (Unit {0})
modify f s = done (tt, f s)

abbrev pub read : {S A : Type 0} → (S → A) → M S A
read f s = done (f s, s)

infixl 5 ◌>>=◌ ◌>>◌
abbrev pub ◌>>=◌ : {S A B : Type 0} → M S A → (A → M S B) → M S B
◌>>=◌ m f s = elim (m s) [ done (a, t) ↦ f a t | blocked ↦ blocked | fault ↦ fault ]

abbrev pub ◌>>◌ : {S B : Type 0} → M S (Unit {0}) → M S B → M S B
m >> k = m >>= λ _. k

-- `assert(b)`
abbrev pub assert : {S : Type 0} → Bool → M S (Unit {0})
assert true s = done (tt, s)
assert false s = fault

-- An operation on a part of the state.
abbrev pub zoom : {S T A : Type 0} → (S → T) → (S → T → S) → M T A → M S A
zoom get put m s = elim (m (get s)) [
  | done (a, t) ↦ done (a, put s t)
  | blocked ↦ blocked
  | fault ↦ fault
]

pub zoom-done :
    {S T A : Type 0}
    → (get : S → T) (put : S → T → S) (m : M T A) (s : S) (a : A) (t : T) → m (get s) ≡ done (a, t)
    → zoom get put m s ≡ done (a, put s t)
zoom-done get put m s a t e =
    ap (λ o. elim o [ done (a, t) ↦ done (a, put s t) | blocked ↦ blocked | fault ↦ fault ]) e

pub bind-done :
    {S A B : Type 0}
    → (m : M S A) (f : A → M S B) (s : S) (a : A) (t : S) → m s ≡ done (a, t)
    → (m >>= f) s ≡ f a t
bind-done m f s a t e =
    ap (λ o. elim o [ done (a, t) ↦ f a t | blocked ↦ blocked | fault ↦ fault ]) e
