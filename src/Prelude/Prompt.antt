-- ===== src/Prelude/Prompt.antt =====
-- Runs that do not wait for an event that never comes.
use nabud.Prelude.{Bool, true, false, ◌≡◌, refl}
use nabud.Prelude.Monad.{Outcome, done, blocked, fault, M, modify, read, assert, zoom, ◌>>=◌}

-- A run that does not block, and of whose result, if it has one, `P` holds.
abbrev pub Returned : {S A : Type 0} → (A → S → Type 0) → Outcome (A × S) → Type 0
Returned P (done (a, s)) = P a s
Returned P blocked = ⊥
Returned P fault = Unit

pub record Prompt {S A : Type 0} (m : M S A) : Type 0 where
  pub run : (s : S) → Returned (λ a t. Unit {0}) (m s)

-- Without a possible result only the fault is left.
pub Returned-fault : {S A : Type 0} → (o : Outcome (A × S)) → Returned (λ a t. ⊥) o → o ≡ fault
Returned-fault (done (a, s)) h = absurd h
Returned-fault blocked h = absurd h
Returned-fault fault h = refl

pub Returned-bind :
    {S A B : Type 0}
    → (P : A → S → Type 0) (Q : B → S → Type 0) (o : Outcome (A × S)) (f : A → M S B) → Returned P o
    → ((a : A) (s : S) → P a s → Returned Q (f a s))
    → Returned Q (elim o [ done (a, t) ↦ f a t | blocked ↦ blocked | fault ↦ fault ])
Returned-bind P Q (done (a, s)) f h k = k a s h
Returned-bind P Q blocked f h k = absurd h
Returned-bind P Q fault f h k = tt

pub Prompt-bind :
    {S A B : Type 0}
    → (m : M S A) (f : A → M S B) → Prompt m
    → ((a : A) → Prompt (f a))
    → Prompt (m >>= f)
Prompt-bind m f h k = record {
  run = λ s. Returned-bind _ _ (m s) f (h.run s) (λ a t u. (k a).run t);
}

pub Prompt-at_once : {S A : Type 0} → (f : S → A) (g : S → S) → Prompt (λ s. done (f s, g s))
Prompt-at_once f g = record { run = λ s. tt }

pub Prompt-read : {S A : Type 0} → (f : S → A) → Prompt (read f)
Prompt-read f = record { run = λ s. tt }

pub Prompt-modify : {S : Type 0} → (f : S → S) → Prompt (modify f)
Prompt-modify f = record { run = λ s. tt }

pub Prompt-assert : {S : Type 0} → (b : Bool) → Prompt (assert {S = S} b)
Prompt-assert true = record { run = λ s. tt }
Prompt-assert false = record { run = λ s. tt }

zoomed :
    {S T A : Type 0}
    → (put : S → T → S) (s : S) (o : Outcome (A × T)) → Returned (λ a t. Unit {0}) o
    → Returned
        (λ a t. Unit {0})
        (elim o [ done (a, t) ↦ done (a, put s t) | blocked ↦ blocked | fault ↦ fault ])
zoomed put s (done (a, t)) h = tt
zoomed put s blocked h = absurd h
zoomed put s fault h = tt

pub Prompt-zoom :
    {S T A : Type 0}
    → (get : S → T) (put : S → T → S) (m : M T A) → Prompt m
    → Prompt (zoom get put m)
Prompt-zoom get put m h = record { run = λ s. zoomed put s (m (get s)) (h.run (get s)) }
