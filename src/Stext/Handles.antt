-- ===== src/Stext/Handles.antt =====
-- The table accounts for every system file that is open.
use nabud.Prelude.{
  ℕ, ◌+◌, ◌≡◌, refl, ap, arith, List, [], ◌∷◌, Bool, true, false, ltb, ◌==◌, ◌||◌, if◌then◌else◌,
  inl, inr, if-cases, not, ◌<◌, ◌≤◌, ◌⊎◌,
}
use nabud.Stext.{Errno, Result, ok, error, crashed, Backing, StextFile, any_slot}
use nabud.Stext.{stext_file_insert, insert_lowest, insert_requested, consed}
use nabud.Stext.Files.{max_fileio_length}
use nabud.Stext.Slots.{insert_any}
use nabud.Stext.Insert.{SortedFrom, LowestPost}
use nabud.Stext.Open.{
  StextContext, FileioOpened, opened, not_opened, handle_count, open_handles, backing_of,
  inserted_file, max_shadow_length, stext_file_open,
}

-- An insertion that succeeds adds the handle of the file, and no other.
abbrev Gained : Backing → List StextFile → Result (List StextFile) → Type 0
Gained b files (ok files') = open_handles files' ≡ open_handles files + handle_count b
Gained b files (error e) = Unit
Gained b files crashed = Unit

consed-Gained :
    (b : Backing) (lf : StextFile) (files : List StextFile) (r : Result (List StextFile))
    → Gained b files r
    → Gained b (lf ∷ files) (consed lf r)
consed-Gained b lf files (ok files') h = omega arith
consed-Gained b lf files (error e) h = tt
consed-Gained b lf files crashed h = tt

if-Gained :
    (b : Backing) (files : List StextFile) (t : Bool) (r k : Result (List StextFile))
    → Gained b files r
    → Gained b files k
    → Gained b files (if t then r else k)
if-Gained b files true r k h h' = h
if-Gained b files false r k h h' = h'

lowest-Gained :
    (slot : ℕ) (f : StextFile) (files : List StextFile)
    → Gained f.backing files (insert_lowest slot f files)
unfolding insert_lowest
lowest-Gained slot f [] = omega arith
lowest-Gained slot f (lf ∷ rest) =
    let ih = consed-Gained f.backing lf rest _ (lowest-Gained (lf.slot + 1) f rest) in
    if-Gained f.backing (lf ∷ rest) (lf.slot == any_slot || ltb lf.slot slot) _ _ tt (
      if-Gained f.backing (lf ∷ rest) (ltb slot lf.slot) _ _ (omega arith)
        (if-Gained f.backing (lf ∷ rest) (lf.slot + 1 == 0xff) _ _ tt ih))

requested-Gained :
    (f : StextFile) (files : List StextFile) → Gained f.backing files (insert_requested f files)
unfolding insert_requested
requested-Gained f [] = omega arith
requested-Gained f (lf ∷ rest) =
    let ih = consed-Gained f.backing lf rest _ (requested-Gained f rest) in
    if-Gained f.backing (lf ∷ rest) (ltb lf.slot f.slot) _ _ ih
      (if-Gained f.backing (lf ∷ rest) (f.slot == lf.slot) _ _ tt (omega arith))

insert-Gained :
    (f : StextFile) (reqslot : ℕ) (files : List StextFile)
    → Gained f.backing files (stext_file_insert f reqslot files)
unfolding stext_file_insert
insert-Gained f reqslot files =
    if-Gained f.backing files (reqslot == any_slot) _ _ (lowest-Gained 0 f files)
      (requested-Gained (record f { slot = reqslot }) files)

-- The files that the system has open for a context are those of its table.
abbrev pub Balanced : StextContext → Type 0
Balanced ctx = ctx.handles ≡ open_handles ctx.files

-- A file that can be sought in and is longer than the largest one.
abbrev pub TooLong : FileioOpened → Type 0
TooLong (not_opened e) = ⊥
TooLong (opened content size true) = max_fileio_length < size
TooLong (opened content size false) = ⊥

-- What the insertion of an opened file into the table gives.
abbrev pub inserting : List ℕ → Bool → ℕ → StextContext → Result (List StextFile)
inserting content is_seekable reqslot ctx =
    stext_file_insert (record { slot = 0; backing = backing_of content is_seekable }) reqslot
      ctx.files

-- Why opening may fail: there is no memory, the system does not open the file, it is too long for a
-- shadow buffer, or the insertion fails.
abbrev pub MayFail : Bool → FileioOpened → ℕ → StextContext → Type 0
MayFail false o reqslot ctx = Unit
MayFail true (not_opened e) reqslot ctx = Unit
MayFail true (opened content size true) reqslot ctx =
    (size ≤ max_fileio_length) × (e : Errno) × (inserting content true reqslot ctx ≡ error e)
MayFail true (opened content size false) reqslot ctx =
    (max_shadow_length < size) ⊎ ((e : Errno) × (inserting content false reqslot ctx ≡ error e))

-- The table after success is what the insertion gives.
abbrev pub Linked : FileioOpened → ℕ → StextContext → StextContext → Type 0
Linked (not_opened e) reqslot ctx ctx' = ⊥
Linked (opened content size is_seekable) reqslot ctx ctx' =
    inserting content is_seekable reqslot ctx ≡ ok ctx'.files

-- What an attempt to open a file may do.
abbrev pub OpenPost :
    Bool → FileioOpened → ℕ → StextContext → Result (Unit {0}) × StextContext → Type 0
OpenPost calloc_ok o reqslot ctx (ok x, ctx') = Linked o reqslot ctx ctx' × Balanced ctx'
OpenPost calloc_ok o reqslot ctx (error e, ctx') = (ctx' ≡ ctx) × MayFail calloc_ok o reqslot ctx
OpenPost calloc_ok o reqslot ctx (crashed, ctx') = TooLong o

-- A file that can be sought in and is not longer than the largest one.
abbrev Within : ℕ → Bool → Type 0
Within size true = size ≤ max_fileio_length
Within size false = Unit

-- An insertion into a table that is sorted does not end the process.
Proceeds : Result (List StextFile) → Type 0
Proceeds (ok files) = Unit
Proceeds (error e) = Unit
Proceeds crashed = ⊥

lowest-Proceeds :
    (f : StextFile) (files : List StextFile) (r : Result (List StextFile))
    → LowestPost 0 f files r
    → Proceeds r
unfolding Proceeds
lowest-Proceeds f files (ok files') h = tt
lowest-Proceeds f files (error e) h = tt
lowest-Proceeds f files crashed h = h

consed-Proceeds :
    (lf : StextFile) (r : Result (List StextFile)) → Proceeds r → Proceeds (consed lf r)
unfolding Proceeds
consed-Proceeds lf (ok files) h = tt
consed-Proceeds lf (error e) h = tt
consed-Proceeds lf crashed h = h

requested-Proceeds : (f : StextFile) (files : List StextFile) → Proceeds (insert_requested f files)
unfolding insert_requested Proceeds
requested-Proceeds f [] = tt
requested-Proceeds f (lf ∷ rest) =
    if-cases Proceeds (ltb lf.slot f.slot) _ _
      (λ e. consed-Proceeds lf (insert_requested f rest) (requested-Proceeds f rest))
      (λ e. if-cases Proceeds (f.slot == lf.slot) _ _ (λ e. tt) (λ e. tt))

insert-Proceeds :
    (f : StextFile) (reqslot : ℕ) (files : List StextFile)
    → SortedFrom 0 files
    → Proceeds (stext_file_insert f reqslot files)
unfolding stext_file_insert
insert-Proceeds f reqslot files h =
    if-cases Proceeds (reqslot == any_slot) _ _
      (λ e. lowest-Proceeds f files (insert_lowest 0 f files) (insert_any f files h))
      (λ e. requested-Proceeds (record f { slot = reqslot }) files)

counted_again : (ctx : StextContext) (n : ℕ) → n ≡ ctx.handles → record ctx { handles = n } ≡ ctx
counted_again ctx n e = ap (λ h. record ctx { handles = h }) e

-- The system file that has been opened is closed, but for what the table has gained.
inserted-OpenPost :
    (content : List ℕ) (size : ℕ) (is_seekable : Bool) (reqslot : ℕ) (ctx : StextContext)
    (r : Result (List StextFile))
    → inserting content is_seekable reqslot ctx ≡ r
    → Within size is_seekable
    → Balanced ctx
    → Gained (backing_of content is_seekable) ctx.files r
    → Proceeds r
    → OpenPost true (opened content size is_seekable) reqslot ctx (
        inserted_file
          (not is_seekable)
          (backing_of content is_seekable)
          (record ctx { handles = ctx.handles + 1 })
          r)
unfolding Proceeds
inserted-OpenPost content size true reqslot ctx (ok files) i w h g p = (i, omega arith)
inserted-OpenPost content size false reqslot ctx (ok files) i w h g p = (i, omega arith)
inserted-OpenPost content size true reqslot ctx (error e) i w h g p =
    (counted_again ctx _ (omega arith), (w, e, i))
inserted-OpenPost content size false reqslot ctx (error e) i w h g p =
    (counted_again ctx _ (omega arith), inr (e, i))
inserted-OpenPost content size true reqslot ctx crashed i w h g p = absurd p
inserted-OpenPost content size false reqslot ctx crashed i w h g p = absurd p

-- An attempt to open a file with a table that is sorted and accounts for the open system files,
-- whatever the system answers. If it fails, every system file that it has opened is closed again and
-- the context is as it was; and there was no memory, the system did not open the file, it is too
-- long for a shadow buffer, or the table refused it, in which case it is short enough if it can be
-- sought in. If it succeeds, the table is what the insertion gives and accounts for every open
-- system file. It ends the process only for a file that can be sought in and is longer than the
-- largest one.
pub open-Balanced :
    (calloc_ok : Bool) (o : FileioOpened) (reqslot : ℕ) (ctx : StextContext)
    → Balanced ctx
    → SortedFrom 0 ctx.files
    → OpenPost calloc_ok o reqslot ctx (stext_file_open calloc_ok o reqslot ctx)
unfolding stext_file_open
open-Balanced false o reqslot ctx h sorted = (refl, tt)
open-Balanced true (not_opened e) reqslot ctx h sorted = (refl, tt)
open-Balanced true (opened content size true) reqslot ctx h sorted =
    let f : StextFile = record { slot = 0; backing = backing_of content true } in
    if-cases (OpenPost true (opened content size true) reqslot ctx) (ltb max_fileio_length size) _ _
      (λ e. ground arith)
      (λ e.
        inserted-OpenPost content size true reqslot ctx _ refl (ground arith) h
          (insert-Gained f reqslot ctx.files) (insert-Proceeds f reqslot ctx.files sorted))
open-Balanced true (opened content size false) reqslot ctx h sorted =
    let f : StextFile = record { slot = 0; backing = backing_of content false } in
    if-cases (OpenPost true (opened content size false) reqslot ctx) (ltb max_shadow_length size) _
      _ (λ e. (counted_again ctx _ (omega arith), inl (ground arith)))
      (λ e.
        inserted-OpenPost content size false reqslot ctx _ refl tt h
          (insert-Gained f reqslot ctx.files) (insert-Proceeds f reqslot ctx.files sorted))
