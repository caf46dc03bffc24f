-- ===== src/Retronet/Copy.antt =====
-- nabud/retronet.c: FILE-COPY. Its loop works on what is left to be read of the source, on the bytes of
-- the destination and on the place of the next write. What fileio_read and fileio_write do is a round
-- of the script each. No error is reported to the client.
use nabud.Prelude.{ℕ, zero, suc, ◌+◌, List, [], ◌∷◌, length, take, drop, min, ◌==◌, if◌then◌else◌}
use nabud.Prelude.{Option, none, some, ◌⊎◌, inl, inr, bit_and, bit_or}
use nabud.Prelude.Monad.{M, blocked, pure, modify, read, ◌>>=◌}
use nabud.Stext.Files.{Round, short, interrupted, failed, patch}
use nabud.Stext.Open.{FileioOpened, not_opened, opened}
use nabud.Retronet.{RnExchange, unlink, write_file, next_transfer}
use nabud.Retronet.Names.{rn_file_copy_move_getargs, resolve}
use nabud.Retronet.Moves.{called}
use nabud.Retronet.Shift.{iolen_of}

-- How many of `n` bytes a call moves, or none for an error: it is not called again.
abbrev pub moved : List Round → ℕ → Option ℕ
moved [] n = some n
moved (short k ∷ rounds) n = some (min (suc k) n)
moved (interrupted ∷ rounds) n = none
moved (failed e ∷ rounds) n = none

-- How the loop ends: at the end of the source, or by `goto bad`. None where the fuel is used up.
pub data CopyEnd : Type 0 where
  complete : List ℕ → CopyEnd
  broken : CopyEnd

-- What follows a write, of which the loop looks at no more than whether it failed.
abbrev copy_written :
    (List ℕ → ℕ → Option CopyEnd) → List ℕ → List ℕ → ℕ → Option ℕ → Option CopyEnd
copy_written again bytes content pos none = some broken
copy_written again bytes content pos (some w) = again (patch content pos (take w bytes)) (pos + w)

abbrev pub copy_read :
    (ℕ → List ℕ → ℕ → Option CopyEnd) → List Round → List ℕ → List ℕ → ℕ → Option ℕ → Option CopyEnd
copy_read again rounds source content pos none = some broken
copy_read again rounds source content pos (some zero) = some (complete content)
copy_read again rounds source content pos (some (suc n)) =
    copy_written (again (suc n)) (take (suc n) source) content pos (moved rounds (suc n))

unfoldable pub copy_loop : ℕ → List Round → List ℕ → List ℕ → ℕ → Option CopyEnd
unfolding patch
copy_loop zero rounds source content pos = none
copy_loop (suc fuel) rounds source content pos =
    copy_read (λ n c p. copy_loop fuel (drop 2 rounds) (drop n source) c p) (drop 1 rounds) source
      content pos (moved rounds (iolen_of (length source)))

-- The file at the destination has its new bytes, or it is removed.
abbrev pub copy_ended : List ℕ → Option CopyEnd → M RnExchange (Unit {0})
copy_ended path none = λ e. blocked
copy_ended path (some (complete content)) = modify (called (some (write_file path content)))
copy_ended path (some broken) = modify (called (some (unlink path)))

-- The fuel is one more than the size of the source, since every round but the last reads a byte.
abbrev pub copy_files : List ℕ → FileioOpened → FileioOpened → M RnExchange (Unit {0})
copy_files path (not_opened e) dst = pure tt
copy_files path (opened source size seekable) (not_opened e) = pure tt
copy_files path (opened source size seekable) (opened content size' seekable') = do
  rounds ← next_transfer
  copy_ended path (copy_loop (suc (length source)) rounds source content 0)

-- `FILEIO_O_RDONLY | FILEIO_O_REGULAR | FILEIO_O_LOCAL_ROOT`
abbrev src_oflags : ℕ
src_oflags = 0x48

-- `FILEIO_O_RDWR | FILEIO_O_CREAT | FILEIO_O_REGULAR`, with `FILEIO_O_EXCL` unless the destination
-- may be replaced.
abbrev dst_oflags : ℕ → ℕ
dst_oflags flags = bit_or 0x51 (if bit_and flags 0x01 == 0 then 0x20 else 0x00)

abbrev pub copy_to : List ℕ → ℕ → ℕ ⊎ List ℕ → M RnExchange (Unit {0})
copy_to src_fname flags (inl e) = pure tt
copy_to src_fname flags (inr dst_path) = do
  e ← read (λ e. e)
  copy_files dst_path (e.system.opening src_fname src_oflags).1
      (e.system.opening dst_path (dst_oflags flags)).1

unfoldable pub rn_req_file_copy : M RnExchange (Unit {0})
unfolding rn_file_copy_move_getargs resolve copy_loop
rn_req_file_copy = do
  args ← rn_file_copy_move_getargs
  elim args [
    | none ↦ pure tt
    | some (src_fname, dst_fname, flags) ↦ do
      dst_path ← resolve dst_fname
      copy_to src_fname flags dst_path
  ]
