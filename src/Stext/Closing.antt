-- ===== src/Stext/Closing.antt =====
-- Closing a file that is in the table of nabud/stext.c.
use nabud.Prelude.{
  ℕ, ◌+◌, ◌≡◌, refl, sym, ap, ◌∙◌, arith, List, [], ◌∷◌, ltb, ◌==◌, inl, inr, Bool-cases, Option,
  some, none,
}
use nabud.Stext.{StextFile, any_slot, find_loop}
use nabud.Stext.{stext_file_find}
use nabud.Stext.Insert.{find-here, find-skip, find-before, some≢none}
use nabud.Stext.Open.{StextContext, handle_count, open_handles, stext_file_close, remove_slot}
use nabud.Stext.Handles.{Balanced}

handles_of : Option StextFile → ℕ
handles_of none = 0
handles_of (some f) = handle_count f.backing

remove-handles :
    (f : StextFile) (files : List StextFile)
    → find_loop f.slot files ≡ some f
    → open_handles files ≡ open_handles (remove_slot f.slot files) + handle_count f.backing
unfolding remove_slot handles_of
remove-handles f [] h = absurd (some≢none f (sym (unfold find_loop in h)))
remove-handles f (g ∷ rest) h =
    let ih = remove-handles f rest in
    elim (Bool-cases (ltb f.slot g.slot)) [
      | inl e ↦ absurd (some≢none f (sym h ∙ find-before g rest f.slot (ground arith)))
      | inr e ↦ elim (Bool-cases (g.slot == f.slot)) [
        | inl same ↦
            let this = sym (find-here g rest f.slot (ground arith)) ∙ h in
            rw same (omega (arith, ap handles_of this))
        | inr other ↦
            let behind = ih (sym (find-skip g rest f.slot (ground arith)) ∙ h) in
            rw other (omega (arith, behind))
      ]
    ]

found_loop :
    (slot : ℕ) (f : StextFile) (files : List StextFile)
    → stext_file_find slot files ≡ some f
    → find_loop slot files ≡ some f
unfolding stext_file_find
found_loop slot f files h = elim (Bool-cases (slot == any_slot)) [
  | inl e ↦ absurd (some≢none f (sym h ∙ rw e refl))
  | inr e ↦ sym (rw e refl) ∙ h
]

-- Closing a file that the table holds keeps the table accounting for every open system file.
close-Balanced :
    (f : StextFile) (ctx : StextContext)
    → Balanced ctx
    → stext_file_find f.slot ctx.files ≡ some f
    → Balanced (stext_file_close f ctx)
unfolding stext_file_close
close-Balanced f ctx h found =
    omega (arith, remove-handles f ctx.files (found_loop f.slot f ctx.files found))
