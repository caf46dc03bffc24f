-- ===== src/Retronet/Shift.antt =====
-- nabud/retronet.c: FH-INSERT and FH-DELETE-RANGE, which move the bytes of a file behind the place of
-- the change. The loops work on the file's bytes and on the script of transfers.
use nabud.Prelude.{ℕ, zero, suc, ◌+◌, ◌-◌, ◌%◌, ◌^◌, List, Bool, ltb, leb, ◌==◌, ◌||◌, not}
use nabud.Prelude.{if◌then◌else◌, Option, none, some}
use nabud.Prelude.Monad.{M, blocked, fault, pure, modify, read, ◌>>=◌, ◌>>◌}
use nabud.Proto.{byte_at}
use nabud.Stext.{Errno, Result, ok, error, crashed, StextFile, Backing}
use nabud.Stext.Files.{Round, first_rounds, later_rounds}
use nabud.Stext.Files.{stext_file_pread, stext_file_pwrite, stext_file_truncate}
use nabud.Retronet.{
  RnExchange, on_request, with_file, with_transfers, file_at, attrs_size, get16, get32,
}
use nabud.Retronet.Transfers.{buffer_bytes, on_data, pwrite_file}

-- `COPY_BUFSIZE`
abbrev pub copy_bufsize : ℕ
copy_bufsize = 65535

-- A file, and the transfers to come.
abbrev pub Shifting : Type 0
Shifting = Backing × List (List Round)

-- How a loop ends: with its last statement, or by `goto out`. None where the fuel is used up.
pub data Ended : Type 0 where
  finished given_up : Shifting → Ended

abbrev pub pread_now : Shifting → ℕ → ℕ → Result (List ℕ × ℕ)
pread_now (b, ts) offset n = stext_file_pread (first_rounds ts) b offset n

abbrev after_pread : Shifting → Shifting
after_pread (b, ts) = (b, later_rounds ts)

abbrev pub pwrite_now : Shifting → ℕ → List ℕ → Option Errno × Shifting
pwrite_now (b, ts) offset bytes =
    let (e, b') = stext_file_pwrite (first_rounds ts) b offset bytes in (e, (b', later_rounds ts))

abbrev pub iolen_of : ℕ → ℕ
iolen_of resid = if ltb resid copy_bufsize then resid else copy_bufsize

module _ (stale : ℕ → List ℕ) where
  -- One round of the loop of FH-DELETE-RANGE, behind its read; `again` is the rest of the loop.
  abbrev pub delete_written :
      (Shifting → ℕ → ℕ → Option Ended) → ℕ → ℕ → ℕ → Option Errno × Shifting → Option Ended
  delete_written again keepoff offset n (none, s) =
      again s ((keepoff + n) % 2 ^ 32) ((offset + n) % 2 ^ 32)
  delete_written again keepoff offset n (some e, s) = some (finished s)

  abbrev pub delete_read :
      (Shifting → ℕ → ℕ → Option Ended) → Shifting → ℕ → ℕ → Result (List ℕ × ℕ) → Option Ended
  delete_read again s keepoff offset (ok (got, zero)) = some (finished s)
  delete_read again s keepoff offset (ok (got, suc n)) =
      delete_written again keepoff offset (suc n)
        (pwrite_now s offset (buffer_bytes got stale (suc n)))
  delete_read again s keepoff offset (error e) = some (finished s)
  delete_read again s keepoff offset crashed = none

  -- Either way out of the loop leads to the truncation.
  unfoldable pub delete_loop : ℕ → Shifting → ℕ → ℕ → Option Ended
  unfolding stext_file_pread stext_file_pwrite buffer_bytes
  delete_loop zero s keepoff offset = none
  delete_loop (suc fuel) s keepoff offset =
      delete_read (λ s' k o. delete_loop fuel s' k o) (after_pread s) keepoff offset
        (pread_now s keepoff copy_bufsize)

  -- The loop of FH-INSERT counts `resid` down; a read may give less than is asked for.
  abbrev pub insert_written : (Shifting → Option Ended) → Option Errno × Shifting → Option Ended
  insert_written again (none, s) = again s
  insert_written again (some e, s) = some (given_up s)

  abbrev pub insert_read :
      (ℕ → Shifting → Option Ended) → Shifting → ℕ → Result (List ℕ × ℕ) → Option Ended
  insert_read again s writeoff (ok (got, zero)) = some (given_up s)
  insert_read again s writeoff (ok (got, suc n)) =
      insert_written (again (suc n)) (pwrite_now s writeoff (buffer_bytes got stale (suc n)))
  insert_read again s writeoff (error e) = some (given_up s)
  insert_read again s writeoff crashed = none

  unfoldable pub insert_loop : ℕ → Shifting → ℕ → ℕ → ℕ → Option Ended
  unfolding stext_file_pread stext_file_pwrite buffer_bytes
  insert_loop fuel s zero readoff writeoff = some (finished s)
  insert_loop zero s (suc resid) readoff writeoff = none
  insert_loop (suc fuel) s (suc resid) readoff writeoff =
      let iolen = iolen_of (suc resid) in
      let r = (readoff + 2 ^ 32 - iolen) % 2 ^ 32 in
      let w = (writeoff + 2 ^ 32 - iolen) % 2 ^ 32 in
      insert_read (λ n s'. insert_loop fuel s' (suc resid - n) r w) (after_pread s) w
        (pread_now s r iolen)

abbrev pub put_back : StextFile → Shifting → RnExchange → RnExchange
put_back f (b, ts) e = with_transfers ts (with_file f.slot b e)

abbrev pub truncate_to : StextFile → Backing → ℕ → M RnExchange (Unit {0})
truncate_to f b size = do
  refused ← read (λ e. e.system.truncate size)
  modify (with_file f.slot (stext_file_truncate refused b size).1)

abbrev pub shifted_down : StextFile → ℕ → Option Ended → M RnExchange (Unit {0})
shifted_down f newsize none = λ e. blocked
shifted_down f newsize (some (finished s)) = modify (put_back f s) >> truncate_to f s.0 newsize
shifted_down f newsize (some (given_up s)) = modify (put_back f s) >> truncate_to f s.0 newsize

-- The fuel is one more than the size, since every round but the last moves a byte.
abbrev pub delete_from : StextFile → ℕ → ℕ → Result ℕ → M RnExchange (Unit {0})
delete_from f offset len (error e) = pure tt
delete_from f offset len crashed = λ s. fault
delete_from f offset len (ok size) =
    if leb size offset
    then pure tt
    else if leb (size - offset) len
    then truncate_to f f.backing offset
    else if leb ((offset + len) % 2 ^ 32) offset
    then (λ s. fault)
    else (do
      e ← read (λ e. e)
      shifted_down f ((size % 2 ^ 32 + 2 ^ 32 - len) % 2 ^ 32) (
          delete_loop e.system.stale_bytes (suc size) (f.backing, e.system.transfers)
            ((offset + len) % 2 ^ 32) offset))

abbrev pub delete_found : ℕ → ℕ → Option StextFile → M RnExchange (Unit {0})
delete_found offset len none = pure tt
delete_found offset len (some f) =
    if len == 0 then pure tt else (do size ← attrs_size f; delete_from f offset len size)

unfoldable pub rn_req_fh_delete_range : M RnExchange (Unit {0})
unfolding get32 get16 delete_loop stext_file_truncate
rn_req_fh_delete_range =
    on_request 7 (λ req. do f ← file_at (byte_at req 0); delete_found (get32 1 req) (get16 5 req) f)

-- `do_insert`
abbrev do_insert : StextFile → ℕ → List ℕ → M RnExchange (Unit {0})
do_insert f offset bytes = pwrite_file f offset bytes

abbrev pub shifted_up : StextFile → ℕ → List ℕ → Option Ended → M RnExchange (Unit {0})
shifted_up f offset bytes none = λ e. blocked
shifted_up f offset bytes (some (given_up s)) = modify (put_back f s)
shifted_up f offset bytes (some (finished s)) =
    modify (put_back f s) >> do_insert (record f { backing = s.0 }) offset bytes

abbrev pub not_allowed : Bool → ℕ → Bool
not_allowed malloc_ok newsize = not malloc_ok || ltb (2 ^ 32 - 1) newsize

-- The buffer is allocated before the new size is checked.
abbrev pub insert_into : StextFile → ℕ → ℕ → List ℕ → Result ℕ → M RnExchange (Unit {0})
insert_into f offset len bytes (error e) = pure tt
insert_into f offset len bytes crashed = λ s. fault
insert_into f offset len bytes (ok size) = if leb size offset then do_insert f offset bytes else (do
  e ← read (λ e. e)
  if not_allowed e.system.malloc_ok (size + len)
      then pure tt
      else shifted_up f offset bytes (
          insert_loop e.system.stale_bytes (suc size) (f.backing, e.system.transfers)
            (size - offset) size (size + len)))

abbrev pub insert_found : Option StextFile → ℕ → ℕ → List ℕ → M RnExchange (Unit {0})
insert_found none offset len bytes = pure tt
insert_found (some f) offset len bytes =
    if len == 0 then pure tt else (do size ← attrs_size f; insert_into f offset len bytes size)

unfoldable pub rn_req_fh_insert : M RnExchange (Unit {0})
unfolding get32 get16 insert_loop
rn_req_fh_insert = on_request 7 (λ req. do
  f ← file_at (byte_at req 0)
  on_data (get16 5 req) (insert_found f (get32 1 req) (get16 5 req)))
