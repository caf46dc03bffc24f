-- ===== src/Stext.antt =====
-- nabud/stext.c: the files that a connection has open for the storage extensions. This file has the
-- table of slots; `Files` has the reading and writing of a file, `Open` its opening, `Seek` its cursor.
pub mod Slots
pub mod Insert
pub mod Files
pub mod Transfer
pub mod Changes
pub mod RoundTrip
pub mod Open
pub mod Seek
pub mod Handles
pub mod Closing
mod Tests
use nabud.Prelude.{ℕ, ◌+◌, List, [], ◌∷◌, ◌==◌, ◌||◌, ltb, if◌then◌else◌, Option, none, some}

pub data Errno : Type 0 where
  ebusy efbig emfile erofs : Errno
  other_errno : ℕ → Errno

-- What a function returns that gives an error number, 0 for success. A use of a null pointer and an
-- assertion that fails end the process.
pub data Result (A : Type 0) : Type 0 where
  ok : A → Result A
  error : Errno → Result A
  crashed : Result A

-- What the operations of a file work on: a file of the system, given by its bytes, or a shadow
-- buffer with its cursor.
pub data Backing : Type 0 where
  fileio : List ℕ → Backing
  shadow : List ℕ → ℕ → Backing

pub record StextFile : Type 0 where
  pub slot : ℕ
  pub backing : Backing

-- The slot number that asks for the lowest free one.
abbrev pub any_slot : ℕ
any_slot = 0xff

abbrev pub consed : StextFile → Result (List StextFile) → Result (List StextFile)
consed lf (ok files) = ok (lf ∷ files)
consed lf (error e) = error e
consed lf crashed = crashed

-- The first loop: `slot` is the lowest number that may still be free.
pub insert_lowest : ℕ → StextFile → List StextFile → Result (List StextFile)
insert_lowest slot f [] = ok (record f { slot = slot } ∷ [])
insert_lowest slot f (lf ∷ rest) =
    let further = insert_lowest (lf.slot + 1) f rest in
    if lf.slot == any_slot || ltb lf.slot slot
    then crashed
    else if ltb slot lf.slot
    then ok (record f { slot = slot } ∷ lf ∷ rest)
    else if lf.slot + 1 == 0xff
    then error emfile
    else consed lf further

-- The second loop, for a slot that the caller names.
pub insert_requested : StextFile → List StextFile → Result (List StextFile)
insert_requested f [] = ok (f ∷ [])
insert_requested f (lf ∷ rest) =
    let further = insert_requested f rest in
    if ltb lf.slot f.slot
    then consed lf further
    else if f.slot == lf.slot
    then error ebusy
    else ok (f ∷ lf ∷ rest)

-- The two assertions at its end, on the slot and its successor in the list, are left out.
unfoldable pub stext_file_insert : StextFile → ℕ → List StextFile → Result (List StextFile)
stext_file_insert f reqslot files =
    if reqslot == any_slot
    then insert_lowest 0 f files
    else insert_requested (record f { slot = reqslot }) files

-- The loop of `stext_file_find`, which stops at the first slot that is greater.
unfoldable pub find_loop : ℕ → List StextFile → Option StextFile
find_loop slot [] = none
find_loop slot (f ∷ rest) =
    let further = find_loop slot rest in
    if ltb slot f.slot then none else if f.slot == slot then some f else further

unfoldable pub stext_file_find : ℕ → List StextFile → Option StextFile
stext_file_find slot files = if slot == any_slot then none else find_loop slot files
