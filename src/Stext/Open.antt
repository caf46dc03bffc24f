-- ===== src/Stext/Open.antt =====
-- nabud/stext.c, `stext_file_open` and `stext_file_close`: a file that cannot be sought in is read
-- into a shadow buffer. The system files that are open are counted.
use nabud.Prelude.{
  ℕ, ◌+◌, ◌-◌, ◌*◌, List, [], ◌∷◌, Bool, true, false, ltb, ◌==◌, if◌then◌else◌, Option, none, some,
}
use nabud.Stext.{efbig, other_errno, Result, ok, error, crashed, Backing, fileio, shadow, StextFile}
use nabud.Stext.{stext_file_insert}
use nabud.Stext.Files.{max_fileio_length}

-- `MAX_SHADOW_LENGTH`
abbrev pub max_shadow_length : ℕ
max_shadow_length = 10 * 1024 * 1024

-- `struct stext_context`, with the number of system files that are open.
pub record StextContext : Type 0 where
  pub files : List StextFile
  pub handles : ℕ

-- What `fileio_open` gives: an error number, or a file with its bytes and the attributes that are
-- looked at.
pub data FileioOpened : Type 0 where
  not_opened : ℕ → FileioOpened
  opened : List ℕ → ℕ → Bool → FileioOpened

abbrev pub handle_count : Backing → ℕ
handle_count (fileio content) = 1
handle_count (shadow content cursor) = 0

-- What an open file holds on to; `fileio_load_file` is taken to succeed, and its result is the
-- contents of the file.
abbrev pub backing_of : List ℕ → Bool → Backing
backing_of content true = fileio content
backing_of content false = shadow content 0

-- `fileio_close` of a system file that no file object owns.
abbrev pub fileio_close : StextContext → StextContext
fileio_close ctx = record ctx { handles = ctx.handles - 1 }

-- `stext_file_close` of a file object that is not linked: its `file_close`, if it has operations yet.
abbrev pub close_unlinked : Option Backing → StextContext → StextContext
close_unlinked none ctx = ctx
close_unlinked (some b) ctx = record ctx { handles = ctx.handles - handle_count b }

-- The end of `stext_file_open`, at `out`: `fileio` says whether the pointer is still set, and `f` is
-- the file object, if it is, with what it owns.
abbrev pub out : Bool → Option (Option Backing) → StextContext → StextContext
out true none ctx = fileio_close ctx
out true (some b) ctx = close_unlinked b (fileio_close ctx)
out false none ctx = ctx
out false (some b) ctx = close_unlinked b ctx

-- From the insertion on. The file object is linked by it, or closed at `out`.
abbrev pub inserted_file :
    Bool → Backing → StextContext → Result (List StextFile) → Result (Unit {0}) × StextContext
inserted_file still_set b ctx (ok files) =
    (ok tt, out still_set none (record ctx { files = files }))
inserted_file still_set b ctx (error e) = (error e, out still_set (some (some b)) ctx)
inserted_file still_set b ctx crashed = (crashed, ctx)

-- From `fileio_open` on, which has opened a system file. A shadow buffer is filled, and the system
-- file is closed at `out`; a file that can be sought in goes over to the file object. The message
-- for one that is too long asks for the location of a file that the object does not have yet.
abbrev pub opened_fileio : List ℕ → ℕ → Bool → ℕ → StextContext → Result (Unit {0}) × StextContext
opened_fileio content size false reqslot ctx =
    if ltb max_shadow_length size
    then (error efbig, out true (some none) ctx)
    else inserted_file true (backing_of content false) ctx (
        stext_file_insert (record { slot = 0; backing = backing_of content false }) reqslot
          ctx.files)
opened_fileio content size true reqslot ctx =
    if ltb max_fileio_length size
    then (crashed, ctx)
    else inserted_file false (backing_of content true) ctx (
        stext_file_insert (record { slot = 0; backing = backing_of content true }) reqslot
          ctx.files)

-- `calloc_ok` says whether there is memory for the file object.
unfoldable pub stext_file_open :
    Bool → FileioOpened → ℕ → StextContext → Result (Unit {0}) × StextContext
stext_file_open false o reqslot ctx = (error (other_errno 12), out false none ctx)
stext_file_open true (not_opened e) reqslot ctx = (error (other_errno e), out false (some none) ctx)
stext_file_open true (opened content size is_seekable) reqslot ctx =
    opened_fileio content size is_seekable reqslot (record ctx { handles = ctx.handles + 1 })

-- How many system files a table holds open.
abbrev pub open_handles : List StextFile → ℕ
open_handles [] = 0
open_handles (f ∷ rest) = handle_count f.backing + open_handles rest

-- `LIST_REMOVE` of the file at a slot.
unfoldable pub remove_slot : ℕ → List StextFile → List StextFile
remove_slot slot [] = []
remove_slot slot (f ∷ rest) =
    let further = remove_slot slot rest in if f.slot == slot then rest else f ∷ further

unfoldable pub stext_file_close : StextFile → StextContext → StextContext
unfolding remove_slot
stext_file_close f ctx = record {
  files = remove_slot f.slot ctx.files;
  handles = ctx.handles - handle_count f.backing;
}
