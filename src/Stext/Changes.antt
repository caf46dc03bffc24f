-- ===== src/Stext/Changes.antt =====
-- The table of open files when the file at one slot is changed in place.
use nabud.Prelude.{ℕ, ◌<◌, ◌≡◌, refl, sym, ap, ◌∙◌, arith, List, [], ◌∷◌, true, false, ltb, ◌==◌}
use nabud.Prelude.{Option, none, some, Bool-cases, inl, inr}
use nabud.Stext.{StextFile, Backing, find_loop, stext_file_find, any_slot}
use nabud.Stext.Insert.{find-here, find-skip, find-before, some≢none}
use nabud.Stext.Files.{with_backing}

find-nothing : (slot : ℕ) → find_loop slot [] ≡ none
unfolding find_loop
find-nothing slot = refl

slot_or : ℕ → Option StextFile → ℕ
slot_or d none = d
slot_or d (some f) = f.slot

-- A file is found where it stands, and a change of its backing is found there too.
find_loop-changed :
    (slot : ℕ) (f : StextFile) (b : Backing) (files : List StextFile)
    → find_loop slot files ≡ some f
    → (f.slot ≡ slot)
      × (find_loop slot (with_backing f.slot b files) ≡ some (record f { backing = b }))
unfolding slot_or
find_loop-changed slot f b [] h = absurd (some≢none f (sym h ∙ find-nothing slot))
find_loop-changed slot f b (g ∷ files) h =
    let ih = find_loop-changed slot f b files in
    elim (Bool-cases (ltb slot g.slot)) [
      | inl e ↦ absurd (some≢none f (sym h ∙ find-before g files slot (ground arith)))
      | inr e ↦ elim (Bool-cases (g.slot == slot)) [
        | inl same ↦
            let here : g.slot ≡ slot = ground arith in
            let this : some g ≡ some f = sym (find-here g files slot here) ∙ h in
            let slots : g.slot ≡ f.slot = ap (slot_or 0) this in
            let hit : (g.slot == f.slot) ≡ true = ground arith in
            (
              omega arith,
              rw hit (
                  find-here (record g { backing = b }) files slot here
                  ∙ ap (λ k. some (record { slot = k; backing = b })) slots),
            )
        | inr other ↦
            let before : g.slot < slot = ground arith in
            let (at_slot, changed) = ih (sym (find-skip g files slot before) ∙ h) in
            let not_here : (g.slot == f.slot) ≡ false = ground arith in
            (at_slot, rw not_here (find-skip g (with_backing f.slot b files) slot before ∙ changed))
      ]
    ]

-- The same of `stext_file_find`.
pub find-changed :
    (slot : ℕ) (f : StextFile) (b : Backing) (files : List StextFile)
    → stext_file_find slot files ≡ some f
    → (f.slot ≡ slot)
      × (stext_file_find slot (with_backing f.slot b files) ≡ some (record f { backing = b }))
unfolding stext_file_find
find-changed slot f b files h = elim (Bool-cases (slot == any_slot)) [
  | inl e ↦ absurd (some≢none f (sym h ∙ rw e refl))
  | inr e ↦
      let (at_slot, changed) = find_loop-changed slot f b files (sym (rw e refl) ∙ h) in
      (at_slot, rw e changed)
]
