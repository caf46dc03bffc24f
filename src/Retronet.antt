-- ===== src/Retronet.antt =====
-- nabud/retronet.c: the NabuRetroNet requests on a connection. This file has the state and the
-- steps that the handlers share; `Names` has the file names, `Open` and `Transfers` the requests on
-- open files, `Shift` those that move the bytes of a file, `Moves` and `Copy` the requests on named
-- files, `Lists` the lists of files and `Serve` the dispatch. That a named file may also be open at
-- a slot is left out. A request is received into a buffer that its reply overwrites; every handler
-- has read its request by then, so the model keeps what was received as lists.
pub mod Names
pub mod Open
pub mod Transfers
pub mod Shift
pub mod Moves
pub mod Copy
pub mod Copied
pub mod Lists
pub mod Serve
pub mod Patches
pub mod Deleting
pub mod Inserting
pub mod Requests
pub mod Items
pub mod Closed
pub mod Preserved
pub mod Kept
pub mod Served
pub mod Service
pub mod Loop
pub mod Deletion
pub mod Insertion
mod Tests
use nabud.Prelude.{ℕ, ◌+◌, ◌-◌, List, [], ◌∷◌, Bool, true, false, Option, none, some, ◌⊎◌}
use nabud.Prelude.{length, take, drop, ltb, if◌then◌else◌}
use nabud.Prelude.Monad.{M, done, pure, modify, read, zoom, ◌>>=◌, ◌>>◌}
use nabud.Proto.{nabu_get_uint16, nabu_get_uint32}
use nabud.ConnIo.{ConnIo, conn_io_recv, conn_io_send}
use nabud.Stext.{Errno, other_errno, Result, ok, error, Backing, fileio, shadow, StextFile}
use nabud.Stext.{stext_file_find}
use nabud.Stext.Files.{Round, first_rounds, later_rounds, with_backing}
use nabud.Stext.Open.{StextContext, FileioOpened}

-- `struct tm`, as far as a file's details need it: the year is the full one, the month begins at 1.
pub record LocalTime : Type 0 where
  pub year : ℕ
  pub month : ℕ
  pub day : ℕ
  pub hour : ℕ
  pub minute : ℕ
  pub second : ℕ

-- `struct fileio_attrs`, with the times in local form.
pub record FileioAttrs : Type 0 where
  pub size : ℕ
  pub is_directory : Bool
  pub btime : LocalTime
  pub mtime : LocalTime

-- `struct rn_file_list_entry`, with the bytes of its details.
pub record RnFileListEntry : Type 0 where
  pub idx : ℕ
  pub details : List ℕ

-- `struct retronet_context`. `cached_entry` is the position of the entry in the list.
pub record RetronetContext : Type 0 where
  pub stext : StextContext
  pub file_list : List RnFileListEntry
  pub file_list_count : ℕ
  pub cached_entry : Option ℕ

-- What is outside of RetroNet and stext. A number in an answer is an error number. `opening` says
-- whether there is memory and what `fileio_open` gives for a location and flags; `transfers` is a
-- script of rounds for each transfer to come; `getattr` is the failure of `fstat` on an open file;
-- `stale_bytes` are those of the reply's buffer behind what a read has stored.
pub record RnSystem : Type 0 where
  pub opening : List ℕ → ℕ → Bool × FileioOpened
  pub transfers : List (List Round)
  pub getattr : Option ℕ
  pub getattr_location : List ℕ → ℕ ⊎ FileioAttrs
  pub truncate : ℕ → Option ℕ
  pub malloc_ok : Bool
  pub stale_bytes : ℕ → List ℕ
  pub stat : List ℕ → Option ℕ
  pub glob : List ℕ → Option (List (List ℕ))

-- What has been done to named files: `unlink` and `rename`, whose answers are only logged, and the
-- writing of a file, with the bytes that it has then.
pub data PathCall : Type 0 where
  unlink : List ℕ → PathCall
  rename : List ℕ → List ℕ → PathCall
  write_file : List ℕ → List ℕ → PathCall

-- What a handler works on: the context, of its connection the input and output and the root, and the
-- calls that have been made.
pub record RnExchange : Type 0 where
  pub ctx : RetronetContext
  pub io : ConnIo
  pub file_root : Option (List ℕ)
  pub system : RnSystem
  pub calls : List PathCall

abbrev pub with_io : RnExchange → ConnIo → RnExchange
with_io e io = record e { io = io }

abbrev pub conn_recv : ℕ → M RnExchange (Bool × List ℕ)
conn_recv len = zoom (λ e. e.io) with_io (conn_io_recv len)

abbrev pub conn_send : List ℕ → M RnExchange (Unit {0})
conn_send buf = zoom (λ e. e.io) with_io (conn_io_send buf)

-- A request of a fixed size is received, or the handler returns.
abbrev pub on_request : ℕ → (List ℕ → M RnExchange (Unit {0})) → M RnExchange (Unit {0})
on_request size handle = do
  (received, req) ← conn_recv size
  if received then handle req else pure tt

abbrev pub with_stext : StextContext → RnExchange → RnExchange
with_stext t e = let ctx = e.ctx in record e { ctx = record ctx { stext = t } }

-- The file object at a slot holds `b` from here on.
abbrev pub with_file : ℕ → Backing → RnExchange → RnExchange
with_file slot b e =
    let t = e.ctx.stext in with_stext (record t { files = with_backing slot b t.files }) e

abbrev pub with_transfers : List (List Round) → RnExchange → RnExchange
with_transfers ts e =
    let system = e.system in record e { system = record system { transfers = ts } }

-- The rounds of the next transfer; after the script every transfer is whole.
abbrev pub next_transfer : M RnExchange (List Round)
next_transfer e =
    done (first_rounds e.system.transfers, with_transfers (later_rounds e.system.transfers) e)

abbrev pub file_at : ℕ → M RnExchange (Option StextFile)
file_at slot = read (λ e. stext_file_find slot e.ctx.stext.files)

-- The size that `stext_file_getattr` gives for an open file; a shadow buffer has its attributes itself.
abbrev pub size_of_backing : Option ℕ → Backing → Result ℕ
size_of_backing refused (shadow content cursor) = ok (length content)
size_of_backing none (fileio content) = ok (length content)
size_of_backing (some e) (fileio content) = error (other_errno e)

abbrev pub attrs_size : StextFile → M RnExchange (Result ℕ)
attrs_size f = read (λ e. size_of_backing e.system.getattr f.backing)

-- Two and four bytes of a request at an offset.
unfoldable pub get16 : ℕ → List ℕ → ℕ
get16 offset req = nabu_get_uint16 (take 2 (drop offset req))

unfoldable pub get32 : ℕ → List ℕ → ℕ
get32 offset req = nabu_get_uint32 (take 4 (drop offset req))
