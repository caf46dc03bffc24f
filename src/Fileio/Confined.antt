-- ===== src/Fileio/Confined.antt =====
-- A path that the check lets pass does not lead above the root.
use nabud.Prelude.{ℕ, zero, suc, ◌+◌, ◌≤◌, ◌≡◌, refl, sym, ap, ap₂, ◌∙◌, arith, List, [], ◌∷◌, ◌++◌}
use nabud.Prelude.{true, false, ◌==◌, none, some, Bool-cases, inl, inr}
use nabud.Fileio.{slash, dot, EscapeCheckState, escape_step, escape_loop}
use nabud.Fileio.{
  initial, base, have_dot, have_dot_dot, have_slash, have_slash_dot, have_slash_dot_dot,
}
use nabud.Fileio.Components.{
  down, turn, components_from, led, stays_inside, turn-longer, goes_on, down_led, turning_back,
  turning_up, turn_nothing, back_led, ends_led, after_slash, one-down, two-down, three-down,
}

-- What the state of the check says of the begun component `w`, reached at depth `t`.
abbrev pub Agrees : EscapeCheckState → List ℕ → ℕ → ℕ → Type 0
Agrees initial w t depth = (turn w ≡ down) × (depth ≤ t)
Agrees base w t depth = (turn w ≡ down) × (depth ≤ t + 1)
Agrees have_dot w t depth = ⊥
Agrees have_dot_dot w t depth = ⊥
Agrees have_slash w t depth = (w ≡ []) × (depth ≤ t)
Agrees have_slash_dot w t depth = (w ≡ dot ∷ []) × (depth ≤ t)
Agrees have_slash_dot_dot w t depth = (w ≡ dot ∷ dot ∷ []) × (depth ≤ t)

pub loop-step :
    (c : ℕ) (cs : List ℕ) (s s' : EscapeCheckState) (d d' : ℕ)
    → escape_step s c d ≡ some (s', d')
    → escape_loop (c ∷ cs) s d ≡ false
    → escape_loop cs s' d' ≡ false
unfolding escape_loop
loop-step c cs s s' d d' e h =
    sym (ap (λ o. elim o [ none ↦ true | some (s', d') ↦ escape_loop cs s' d' ]) e) ∙ h

pub loop-from :
    (c : ℕ) (cs : List ℕ) (s s' : EscapeCheckState) (d d' : ℕ)
    → escape_step s c d ≡ some (s', d')
    → escape_loop cs s' d' ≡ false
    → escape_loop (c ∷ cs) s d ≡ false
unfolding escape_loop
loop-from c cs s s' d d' e h =
    ap (λ o. elim o [ none ↦ true | some (s', d') ↦ escape_loop cs s' d' ]) e ∙ h

pub loop_stopped :
    (c : ℕ) (cs : List ℕ) (s : EscapeCheckState) (d : ℕ)
    → escape_step s c d ≡ none
    → escape_loop (c ∷ cs) s d ≡ true
unfolding escape_loop
loop_stopped c cs s d e = ap (λ o. elim o [ none ↦ true | some (s', d') ↦ escape_loop cs s' d' ]) e

end-inside :
    (s : EscapeCheckState) (w : List ℕ) (t d : ℕ)
    → Agrees s w t d
    → escape_loop [] s d ≡ false
    → stays_inside t (components_from w []) ≡ true
unfolding escape_loop
end-inside initial w t d (a, b) h = ends_led w t (t + 1) (down_led t w a)
end-inside base w t d (a, b) h = ends_led w t (t + 1) (down_led t w a)
end-inside have_dot w t d a h = absurd a
end-inside have_dot_dot w t d a h = absurd a
end-inside have_slash w t d (a, b) h = ends_led w t t (ap (λ k. led k t) (ap turn a ∙ turn_nothing))
end-inside have_slash_dot w t d (a, b) h =
    ends_led w t t (ap (λ k. led k t) (ap turn a ∙ turning_back))
end-inside have_slash_dot_dot w t zero (a, b) h = absurd (ground (arith, h))
end-inside have_slash_dot_dot w t (suc d) (a, b) h =
    let (t', e, le) = back_led t d b in
    ends_led w t t' (ap (λ k. led k t) (ap turn a ∙ turning_up) ∙ e)

-- The check at a state that agrees with the begun component, and from there to the end.
pub loop-inside :
    (cs : List ℕ) (s : EscapeCheckState) (w : List ℕ) (t d : ℕ)
    → Agrees s w t d
    → escape_loop cs s d ≡ false
    → stays_inside t (components_from w cs) ≡ true
unfolding escape_step
loop-inside [] s w t d a h = end-inside s w t d a h
loop-inside (c ∷ cs) initial w t d (a, b) h = elim (Bool-cases (c == slash)) [
  | inl e ↦ after_slash w c cs t (t + 1) e (down_led t w a) (
      loop-inside cs have_slash [] (t + 1) (d + 1) (refl, omega arith)
        (loop-step c cs initial have_slash d (d + 1) (rw e refl) h))
  | inr e ↦ rw (goes_on w c cs e) (
      loop-inside cs initial (w ++ (c ∷ [])) t d (turn-longer w c a, b)
        (loop-step c cs initial initial d d (rw e refl) h))
]
loop-inside (c ∷ cs) base w t d (a, b) h = elim (Bool-cases (c == slash)) [
  | inl e ↦ after_slash w c cs t (t + 1) e (down_led t w a) (
      loop-inside cs have_slash [] (t + 1) d (refl, b)
        (loop-step c cs base have_slash d d (rw e refl) h))
  | inr e ↦ rw (goes_on w c cs e) (
      loop-inside cs base (w ++ (c ∷ [])) t d (turn-longer w c a, b)
        (loop-step c cs base base d d (rw e refl) h))
]
loop-inside (c ∷ cs) have_dot w t d a h = absurd a
loop-inside (c ∷ cs) have_dot_dot w t d a h = absurd a
loop-inside (c ∷ cs) have_slash w t d (a, b) h = elim (Bool-cases (c == slash)) [
  | inl e ↦
      let not_dot : (c == dot) ≡ false = ground arith in
      after_slash w c cs t t e (ap (λ k. led k t) (ap turn a ∙ turn_nothing)) (
        loop-inside cs have_slash [] t d (refl, b)
          (loop-step c cs have_slash have_slash d d (rw (not_dot, e) refl) h))
  | inr e ↦ rw (goes_on w c cs e) (elim (Bool-cases (c == dot)) [
    | inl at_dot ↦
        let is_dot : c ≡ dot = ground arith in
        loop-inside cs have_slash_dot (w ++ (c ∷ [])) t d (ap₂ (λ u x. u ++ (x ∷ [])) a is_dot, b)
          (loop-step c cs have_slash have_slash_dot d d (rw at_dot refl) h)
    | inr other ↦
        loop-inside cs base (w ++ (c ∷ [])) t (d + 1)
          (ap (λ u. turn (u ++ (c ∷ []))) a ∙ one-down c other, omega arith)
          (loop-step c cs have_slash base d (d + 1) (rw (other, e) refl) h)
  ])
]
loop-inside (c ∷ cs) have_slash_dot w t d (a, b) h = elim (Bool-cases (c == slash)) [
  | inl e ↦
      let not_dot : (c == dot) ≡ false = ground arith in
      after_slash w c cs t t e (ap (λ k. led k t) (ap turn a ∙ turning_back)) (
        loop-inside cs have_slash [] t d (refl, b)
          (loop-step c cs have_slash_dot have_slash d d (rw (not_dot, e) refl) h))
  | inr e ↦ rw (goes_on w c cs e) (elim (Bool-cases (c == dot)) [
    | inl at_dot ↦
        let is_dot : c ≡ dot = ground arith in
        loop-inside cs have_slash_dot_dot (w ++ (c ∷ [])) t d
          (ap₂ (λ u x. u ++ (x ∷ [])) a is_dot, b)
          (loop-step c cs have_slash_dot have_slash_dot_dot d d (rw at_dot refl) h)
    | inr other ↦
        loop-inside cs base (w ++ (c ∷ [])) t d
          (ap (λ u. turn (u ++ (c ∷ []))) a ∙ two-down c other, omega arith)
          (loop-step c cs have_slash_dot base d d (rw (other, e) refl) h)
  ])
]
loop-inside (c ∷ cs) have_slash_dot_dot w t zero (a, b) h = elim (Bool-cases (c == slash)) [
  | inl e ↦ cc (loop_stopped c cs have_slash_dot_dot 0 (rw e refl))
  | inr e ↦ rw (goes_on w c cs e) (
      loop-inside cs base (w ++ (c ∷ [])) t 0
        (ap (λ u. turn (u ++ (c ∷ []))) a ∙ three-down c, omega arith)
        (loop-step c cs have_slash_dot_dot base 0 0 (rw e refl) h))
]
loop-inside (c ∷ cs) have_slash_dot_dot w t (suc d) (a, b) h = elim (Bool-cases (c == slash)) [
  | inl e ↦
      let (t', l, le) = back_led t d b in
      after_slash w c cs t t' e (ap (λ k. led k t) (ap turn a ∙ turning_up) ∙ l) (
        loop-inside cs have_slash [] t' d (refl, le)
          (loop-step c cs have_slash_dot_dot have_slash (suc d) d (rw e refl) h))
  | inr e ↦ rw (goes_on w c cs e) (
      loop-inside cs base (w ++ (c ∷ [])) t (suc d)
        (ap (λ u. turn (u ++ (c ∷ []))) a ∙ three-down c, omega arith)
        (loop-step c cs have_slash_dot_dot base (suc d) (suc d) (rw e refl) h))
]
