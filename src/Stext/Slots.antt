-- ===== src/Stext/Slots.antt =====
-- The table of slots stays sorted, and gives the lowest free slot or the one asked for.
use nabud.Prelude.{ℕ, ◌+◌, ◌≤◌, ◌<◌, ◌≡◌, ◌≢◌, sym, arith, List, [], ◌∷◌, ◌==◌, ◌||◌, ltb, none}
use nabud.Prelude.{Bool-cases, inl, inr, ◌∙◌, false}
use nabud.Stext.{
  StextFile, Result, ok, error, crashed, ebusy, emfile, efbig, erofs, other_errno, any_slot,
}
use nabud.Stext.{consed, insert_lowest, insert_requested, find_loop, stext_file_insert}
use nabud.Stext.Insert.{
  SortedFrom, Added, LowestPost, consed-LowestPost, put_front-Added, behind-Added, find-here,
  find-skip, some≢none,
}

lowest_lem :
    (n : ℕ) (f : StextFile) (files : List StextFile)
    → SortedFrom n files
    → n < 0xff
    → LowestPost n f files (insert_lowest n f files)
unfolding insert_lowest
lowest_lem n f [] h small = (
  n,
  omega arith,
  small,
  (omega arith, small, tt),
  put_front-Added f n [] tt,
  λ m k l. absurd (omega arith),
)
lowest_lem n f (lf ∷ rest) h small =
    let fine : (lf.slot == any_slot || ltb lf.slot n) ≡ false = ground arith in
    let ih = lowest_lem (lf.slot + 1) f rest h.2 in
    elim (Bool-cases (ltb n lf.slot)) [
      | inl e ↦
          rw (fine, e)
            (
              n,
              omega arith,
              small,
              (omega arith, small, (ground arith, h.1, h.2)),
              put_front-Added f n (lf ∷ rest) (ground arith, h.1, h.2),
              λ m k l. absurd (omega arith),
            )
      | inr e ↦ elim (Bool-cases (lf.slot + 1 == 0xff)) [
        | inl last ↦
            rw (fine, e, last)
              (λ m k l none_found.
                some≢none lf (sym (find-here lf rest m (ground arith)) ∙ none_found))
        | inr more ↦
            rw (fine, e, more)
              (consed-LowestPost n f lf rest _ (ground arith) (ground arith) (ih (ground arith)))
      ]
    ]

-- If a table is sorted and a file is to be opened at any slot, the lowest slot that is free from 0
-- to 0xfe is taken, and no other changes; the table stays sorted. It fails only with EMFILE, and
-- only if all slots are taken.
pub insert_any :
    (f : StextFile) (files : List StextFile)
    → SortedFrom 0 files
    → LowestPost 0 f files (stext_file_insert f any_slot files)
unfolding stext_file_insert
insert_any f files h = lowest_lem 0 f files h (omega arith)

-- The result of an insertion at the slot of `f`.
abbrev pub RequestedPost : ℕ → StextFile → List StextFile → Result (List StextFile) → Type 0
RequestedPost n f files (ok files') = SortedFrom n files' × Added f f.slot files files'
RequestedPost n f files (error ebusy) = find_loop f.slot files ≢ none
RequestedPost n f files (error e) = ⊥
RequestedPost n f files crashed = ⊥

consed-RequestedPost :
    (n : ℕ) (f lf : StextFile) (rest : List StextFile) (r : Result (List StextFile))
    → n ≤ lf.slot
    → lf.slot < f.slot
    → f.slot < 0xff
    → RequestedPost (lf.slot + 1) f rest r
    → RequestedPost n f (lf ∷ rest) (consed lf r)
consed-RequestedPost n f lf rest (ok files') h past small (sorted, added) =
    ((h, omega arith, sorted), behind-Added f lf f.slot rest files' past added)
consed-RequestedPost n f lf rest (error ebusy) h past small taken =
    λ none_found. taken (sym (find-skip lf rest f.slot past) ∙ none_found)
consed-RequestedPost n f lf rest (error emfile) h past small k = absurd k
consed-RequestedPost n f lf rest (error efbig) h past small k = absurd k
consed-RequestedPost n f lf rest (error erofs) h past small k = absurd k
consed-RequestedPost n f lf rest (error (other_errno x)) h past small k = absurd k
consed-RequestedPost n f lf rest crashed h past small k = absurd k

requested_lem :
    (n : ℕ) (f : StextFile) (files : List StextFile)
    → SortedFrom n files
    → n ≤ f.slot
    → f.slot < 0xff
    → RequestedPost n f files (insert_requested f files)
unfolding insert_requested
requested_lem n f [] h low small = ((low, small, tt), put_front-Added f f.slot [] tt)
requested_lem n f (lf ∷ rest) h low small =
    let ih = requested_lem (lf.slot + 1) f rest h.2 in
    elim (Bool-cases (ltb lf.slot f.slot)) [
      | inl e ↦
          rw e
            (consed-RequestedPost n f lf rest _ h.0 (ground arith) small (ih (ground arith) small))
      | inr e ↦ elim (Bool-cases (f.slot == lf.slot)) [
        | inl same ↦
            rw (e, same)
              (λ none_found.
                some≢none lf (sym (find-here lf rest f.slot (ground arith)) ∙ none_found))
        | inr other ↦
            let above : f.slot + 1 ≤ lf.slot = ground arith in
            rw (e, other)
              (
                (low, small, (above, h.1, h.2)),
                put_front-Added f f.slot (lf ∷ rest) (above, h.1, h.2),
              )
      ]
    ]

-- If a table is sorted and a file is to be opened at a slot below 0xff, the file comes to that slot
-- and no other changes; the table stays sorted. It fails only with EBUSY, and only if the slot is
-- taken.
pub insert_at :
    (f : StextFile) (slot : ℕ) (files : List StextFile)
    → SortedFrom 0 files
    → slot < 0xff
    → RequestedPost 0 (record f { slot = slot }) files (stext_file_insert f slot files)
unfolding stext_file_insert
insert_at f slot files h small =
    let named : (slot == any_slot) ≡ false = ground arith in
    rw named (requested_lem 0 (record f { slot = slot }) files h (omega arith) small)
