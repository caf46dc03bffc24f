-- ===== src/Stext/Files.antt =====
-- nabud/stext.c: reading and writing at a position. A transfer to a file of the system goes in
-- rounds, of which each may be short; the rounds are a script. The shadow buffer is read-only.
use nabud.Prelude.{
  ℕ, zero, suc, ◌+◌, ◌-◌, ◌%◌, ◌^◌, List, [], ◌∷◌, ◌++◌, length, take, drop, ltb, leb,
}
use nabud.Prelude.{if◌then◌else◌, min, Option, none, some, ◌==◌}
use nabud.Stext.{
  Errno, erofs, efbig, other_errno, Result, ok, error, crashed, Backing, fileio, shadow, StextFile,
}

-- One call of `fileio_pread` or `fileio_pwrite`: `short n` moves `n + 1` bytes, or fewer if fewer are
-- asked for or there; after the script every call moves all that it can.
pub data Round : Type 0 where
  short : ℕ → Round
  interrupted : Round
  failed : ℕ → Round

-- `MAX_FILEIO_LENGTH`, where `off_t` has 64 bits
abbrev pub max_fileio_length : ℕ
max_fileio_length = 2 ^ 32 - 1

-- The loop of `stext_fileop_pread_fileio`: what has been stored, and `resid`.
unfoldable pub pread_loop : List Round → List ℕ → ℕ → ℕ → List ℕ → Result (List ℕ × ℕ)
pread_loop es content offset zero got = ok (got, 0)
pread_loop [] content offset (suc resid) got =
    let bytes = take (suc resid) (drop offset content) in
    ok (got ++ bytes, suc resid - length bytes)
pread_loop (short n ∷ es) content offset (suc resid) got =
    let bytes = take (min (suc n) (suc resid)) (drop offset content) in
    let further =
      pread_loop es content (offset + length bytes) (suc resid - length bytes) (got ++ bytes) in
    if leb (length bytes) 0 then ok (got, suc resid) else further
pread_loop (interrupted ∷ es) content offset (suc resid) got =
    pread_loop es content offset (suc resid) got
pread_loop (failed e ∷ es) content offset (suc resid) got = error (other_errno e)

-- `*lengthp -= resid`
abbrev pub less_resid : ℕ → Result (List ℕ × ℕ) → Result (List ℕ × ℕ)
less_resid len (ok (got, resid)) = ok (got, len - resid)
less_resid len (error e) = error e
less_resid len crashed = crashed

-- The bytes stored and the length reported.
unfoldable pub stext_fileop_pread_fileio : List Round → List ℕ → ℕ → ℕ → Result (List ℕ × ℕ)
unfolding pread_loop
stext_fileop_pread_fileio es content offset len =
    let room = max_fileio_length - offset in
    less_resid len (pread_loop es content offset (if ltb room len then room else len) [])

-- What `fileio_pwrite` does to the bytes of a file: a gap before `offset` is filled with zeros.
unfoldable pub patch : List ℕ → ℕ → List ℕ → List ℕ
patch content zero bytes = bytes ++ drop (length bytes) content
patch [] (suc offset) bytes = 0 ∷ patch [] offset bytes
patch (c ∷ content) (suc offset) bytes = c ∷ patch content offset bytes

-- The loop of `stext_fileop_pwrite_fileio`: the error, if there is one, and the file as it is then.
-- A call that moves no byte counts as failed, with the error number that happens to be set.
unfoldable pub pwrite_loop : List Round → List ℕ → ℕ → List ℕ → Option Errno × List ℕ
unfolding patch
pwrite_loop es content offset [] = (none, content)
pwrite_loop [] content offset (b ∷ bytes) = (none, patch content offset (b ∷ bytes))
pwrite_loop (short n ∷ es) content offset (b ∷ bytes) =
    let now = b ∷ take n bytes in
    pwrite_loop es (patch content offset now) (offset + length now) (drop n bytes)
pwrite_loop (interrupted ∷ es) content offset (b ∷ bytes) =
    pwrite_loop es content offset (b ∷ bytes)
pwrite_loop (failed e ∷ es) content offset (b ∷ bytes) = (some (other_errno e), content)

unfoldable pub stext_fileop_pwrite_fileio : List Round → List ℕ → ℕ → List ℕ → Option Errno × List ℕ
unfolding pwrite_loop
stext_fileop_pwrite_fileio es content offset bytes = pwrite_loop es content offset bytes

unfoldable pub stext_fileop_pread_shadow : List ℕ → ℕ → ℕ → Result (List ℕ × ℕ)
stext_fileop_pread_shadow content offset len =
    let total = length content in
    let n =
      if leb total offset then 0 else if ltb (total - offset) len then total - offset else len in
    ok (take n (drop offset content), n)

unfoldable pub stext_file_pread : List Round → Backing → ℕ → ℕ → Result (List ℕ × ℕ)
stext_file_pread es (fileio content) offset len = stext_fileop_pread_fileio es content offset len
stext_file_pread es (shadow content cursor) offset len =
    stext_fileop_pread_shadow content offset len

abbrev pub with_content : Option Errno × List ℕ → Option Errno × Backing
with_content (e, content) = (e, fileio content)

unfoldable pub stext_file_pwrite : List Round → Backing → ℕ → List ℕ → Option Errno × Backing
stext_file_pwrite es (shadow content cursor) offset bytes = (some erofs, shadow content cursor)
stext_file_pwrite es (fileio content) offset bytes =
    if ltb (max_fileio_length - offset) (length bytes)
    then (some efbig, fileio content)
    else with_content (stext_fileop_pwrite_fileio es content offset bytes)

abbrev pub advanced : List ℕ → ℕ → Result (List ℕ × ℕ) → Result (List ℕ × ℕ) × Backing
advanced content cursor (ok (got, n)) = (ok (got, n), shadow content ((cursor + n) % 2 ^ 32))
advanced content cursor r = (r, shadow content cursor)

-- The read at the cursor of a shadow buffer, which moves the cursor by what has been read.
unfoldable pub stext_fileop_read_shadow : List ℕ → ℕ → ℕ → Result (List ℕ × ℕ) × Backing
unfolding stext_fileop_pread_shadow
stext_fileop_read_shadow content cursor len =
    advanced content cursor (stext_fileop_pread_shadow content cursor len)

-- The table after an operation has changed the file object at a slot.
abbrev pub with_backing : ℕ → Backing → List StextFile → List StextFile
with_backing slot b [] = []
with_backing slot b (f ∷ files) =
    let further = with_backing slot b files in
    if f.slot == slot then record f { backing = b } ∷ files else f ∷ further

abbrev pub first_rounds : List (List Round) → List Round
first_rounds [] = []
first_rounds (rounds ∷ more) = rounds

abbrev pub later_rounds : List (List Round) → List (List Round)
later_rounds [] = []
later_rounds (rounds ∷ more) = more

unfoldable pub zeros : ℕ → List ℕ
zeros zero = []
zeros (suc n) = 0 ∷ zeros n

-- `stext_file_truncate` with the `ftruncate` below it: a file that grows is filled with zeros.
unfoldable pub stext_file_truncate : Option ℕ → Backing → ℕ → Option Errno × Backing
unfolding zeros
stext_file_truncate refused (shadow content cursor) size = (some erofs, shadow content cursor)
stext_file_truncate (some e) (fileio content) size =
    (some (if ltb max_fileio_length size then efbig else other_errno e), fileio content)
stext_file_truncate none (fileio content) size =
    if ltb max_fileio_length size
    then (some efbig, fileio content)
    else (none, fileio (take size content ++ zeros (size - length content)))
