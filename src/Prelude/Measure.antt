-- ===== src/Prelude/Measure.antt =====
-- Runs that do not raise a measure of the state, whatever they return.
use nabud.Prelude.{ℕ, suc, ◌≤◌, arith}
use nabud.Prelude.Monad.{Outcome, done, blocked, fault, M, pure, ◌>>=◌}

-- A run that gives a state gives one of a measure of at most `n`.
abbrev pub Within : {S A : Type 0} → (S → ℕ) → ℕ → Outcome (A × S) → Type 0
Within μ n (done (a, s)) = μ s ≤ n
Within μ n blocked = Unit
Within μ n fault = Unit

-- A record, so that the operation is read off the type.
pub record Quiet {S A : Type 0} (μ : S → ℕ) (m : M S A) : Type 0 where
  pub run : (s : S) → Within μ (μ s) (m s)

pub Within-mono :
    {S A : Type 0}
    → (μ : S → ℕ) (n k : ℕ) (o : Outcome (A × S)) → n ≤ k
    → Within μ n o
    → Within μ k o
Within-mono μ n k (done (a, s)) h w = omega arith
Within-mono μ n k blocked h w = tt
Within-mono μ n k fault h w = tt

pub Within-bind :
    {S A B : Type 0}
    → (μ : S → ℕ) (n : ℕ) (o : Outcome (A × S)) (f : A → M S B) → Within μ n o
    → ((a : A) → Quiet μ (f a))
    → Within μ n (elim o [ done (a, t) ↦ f a t | blocked ↦ blocked | fault ↦ fault ])
Within-bind μ n (done (a, s)) f w q = Within-mono μ (μ s) n (f a s) w ((q a).run s)
Within-bind μ n blocked f w q = tt
Within-bind μ n fault f w q = tt

pub Quiet-bind :
    {S A B : Type 0}
    → (μ : S → ℕ) (m : M S A) (f : A → M S B) → Quiet μ m
    → ((a : A) → Quiet μ (f a))
    → Quiet μ (m >>= f)
Quiet-bind μ m f q r = record { run = λ s. Within-bind μ (μ s) (m s) f (q.run s) r }

pub Quiet-pure : {S A : Type 0} → (μ : S → ℕ) (a : A) → Quiet μ (pure {S = S} a)
Quiet-pure μ a = record { run = λ s. omega arith }

-- An operation that returns at once with a state of the same or of a lower measure.
pub Quiet-step :
    {S A : Type 0}
    → (μ : S → ℕ) (f : S → A) (g : S → S) → ((s : S) → μ (g s) ≤ μ s)
    → Quiet μ (λ s. done (f s, g s))
Quiet-step μ f g h = record { run = h }

Within-down :
    {S A : Type 0}
    → (μ : S → ℕ) (k n : ℕ) (o : Outcome (A × S)) → suc k ≤ n
    → Within μ k o
    → Within (λ s. suc (μ s)) n o
Within-down μ k n (done (a, s)) h w = omega arith
Within-down μ k n blocked h w = tt
Within-down μ k n fault h w = tt

-- What follows a step that lowers the measure is still below where the step began.
pub Within-bind_down :
    {S A B : Type 0}
    → (μ : S → ℕ) (n : ℕ) (o : Outcome (A × S)) (f : A → M S B) → Within (λ s. suc (μ s)) n o
    → ((a : A) → Quiet μ (f a))
    → Within (λ s. suc (μ s)) n (elim o [ done (a, t) ↦ f a t | blocked ↦ blocked | fault ↦ fault ])
Within-bind_down μ n (done (a, s)) f w q = Within-down μ (μ s) n (f a s) w ((q a).run s)
Within-bind_down μ n blocked f w q = tt
Within-bind_down μ n fault f w q = tt
