-- ===== src/Nhacp/Files.antt =====
-- nabud/nhacp.c: the handlers of the requests on open files. The field of a request is read at its
-- offset in the message, which begins with the length, the type and the number of the file.
use nabud.Prelude.{ℕ, ◌+◌, ◌-◌, ◌*◌, ◌%◌, ◌^◌, List, [], ◌∷◌, Bool, ltb, ◌==◌}
use nabud.Prelude.{if◌then◌else◌, Option, none, some, bit_and, bit_or, length}
use nabud.Prelude.Monad.{M, fault, modify, read, ◌>>=◌, ◌>>◌}
use nabud.Proto.{nabu_get_uint16, nabu_get_uint32, nabu_set_uint32}
use nabud.Stext.{Errno, Result, ok, error, crashed, Backing, StextFile}
use nabud.Stext.{stext_file_find}
use nabud.Stext.Files.{stext_file_pread, stext_file_pwrite, with_backing}
use nabud.Stext.Open.{StextContext, FileioOpened, opened, not_opened, stext_file_open}
use nabud.Stext.Files.{zeros}
use nabud.Nhacp.{Exchange, Opening, store, fetch, with_buffer, at, next_transfer, nhacp_vers_0_0}
use nabud.Nhacp.Texts.{nhacp_strlen, nhacp_string_get, nhacp_error_from_unix, errno_number, codes}
use nabud.Nhacp.Texts.{nhacp_ebadf, nhacp_eisdir, nhacp_einval}
use nabud.Nhacp.Reply.{nhacp_max_payload, nhacp_send_reply, nhacp_send_error, nhacp_send_ok}
use nabud.Nhacp.Reply.{nhacp_send_data_buffer, nhacp_req_storage_get_type}
use nabud.Nhacp.Reply.{nhacp_req_storage_put_type}

abbrev with_bit : ℕ → ℕ → ℕ → ℕ → ℕ
with_bit flags mask bit out = if bit_and flags mask == 0 then out else bit_or out bit

-- The flags that do not depend on the access mode, added to `out`. EXCL counts with CREAT only.
unfoldable pub o_flags_rest : ℕ → ℕ → ℕ
o_flags_rest flags out =
    let creat = with_bit flags 0x10 0x10 out in
    let excl = if bit_and flags 0x10 == 0 then creat else with_bit flags 0x20 0x20 creat in
    bit_or excl (if bit_and flags 0x08 == 0 then 0x40 else 0x80)

-- None where the access mode is none of the three, which is the error EINVAL.
unfoldable pub nhacp_o_flags_to_fileio : ℕ → Option ℕ
unfolding o_flags_rest
nhacp_o_flags_to_fileio flags =
    let mode = bit_and flags 0x07 in
    if mode == 0
    then some (o_flags_rest flags 0x00)
    else if mode == 1
    then some (with_bit flags 0x40 0x200 (o_flags_rest flags 0x01))
    else if mode == 2
    then some (with_bit flags 0x40 0x200 (o_flags_rest flags 0x02))
    else none

unfoldable pub get16 : ℕ → M Exchange ℕ
get16 offset = read (at (λ buf. nabu_get_uint16 (fetch offset 2 buf)))

unfoldable pub get32 : ℕ → M Exchange ℕ
get32 offset = read (at (λ buf. nabu_get_uint32 (fetch offset 4 buf)))

abbrev pub get8 : ℕ → M Exchange ℕ
get8 offset = read (at (λ buf. buf offset))

abbrev pub send_errno : Errno → M Exchange (Unit {0})
send_errno e = nhacp_send_error (nhacp_error_from_unix (errno_number e))

-- What a handler without a result sends.
abbrev pub answer : Option Errno → M Exchange (Unit {0})
answer none = nhacp_send_ok
answer (some e) = send_errno e

abbrev pub with_stext : StextContext → Exchange → Exchange
with_stext t e = let s = e.session in record e { session = record s { stext = t } }

abbrev pub with_file : ℕ → Backing → Exchange → Exchange
with_file slot b e =
    let t = e.session.stext in with_stext (record t { files = with_backing slot b t.files }) e

-- The slot of the file that was put into a table.
abbrev pub added_slot : List StextFile → List StextFile → ℕ
added_slot before [] = 0
added_slot [] (g ∷ after) = g.slot
added_slot (f ∷ before) (g ∷ after) =
    let further = added_slot before after in if f.slot == g.slot then further else g.slot

abbrev pub size_of : FileioOpened → ℕ
size_of (not_opened e) = 0
size_of (opened content size is_seekable) = size

abbrev pub register : Opening → ℕ → Exchange → Exchange
register o slot e =
    let s = e.session in
    record e {
      session = record s {
        privates = λ i.
            if i == slot
            then record { is_directory = o.is_directory; is_writable = o.is_writable }
            else s.privates i;
      };
    }

abbrev pub opened_file :
    Opening → List StextFile → Result (Unit {0}) × StextContext → M Exchange (Unit {0})
opened_file o before (ok x, t) = do
  let slot = added_slot before t.files
  modify (with_stext t)
  modify (register o slot)
  modify (with_buffer (store 3 (slot ∷ [])))
  modify (with_buffer (store 4 (nabu_set_uint32 (size_of o.result % 2 ^ 32))))
  nhacp_send_reply 0x83 6
opened_file o before (error e, t) = modify (with_stext t) >> send_errno e
opened_file o before (crashed, t) = λ s. fault

abbrev pub open_with : ℕ → Option ℕ → List ℕ → M Exchange (Unit {0})
open_with slot none url = nhacp_send_error (nhacp_error_from_unix 22)
open_with slot (some flags) url = do
  o ← read (λ e. e.system.opening url flags)
  t ← read (λ e. e.session.stext)
  opened_file o t.files (stext_file_open o.calloc_ok o.result slot t)

unfoldable pub nhacp_req_storage_open : M Exchange (Unit {0})
unfolding get16 nhacp_o_flags_to_fileio
nhacp_req_storage_open = do
  n ← read (at (nhacp_strlen 6))
  text ← read (at (nhacp_string_get 6))
  version ← read (λ e. e.session.nhacp_version)
  requested ← get16 4
  slot ← get8 3
  let flags = if version == nhacp_vers_0_0 then 0x12 else requested
  open_with slot (nhacp_o_flags_to_fileio flags) (if n == 0 then codes "." else text)

-- The guards of the handlers of data: the file is open, and it is not a directory.
abbrev pub checked_file :
    (StextFile → M Exchange (Unit {0})) → Option StextFile → M Exchange (Unit {0})
checked_file handle none = nhacp_send_error nhacp_ebadf
checked_file handle (some f) = do
  is_directory ← read (λ e. (e.session.privates f.slot).is_directory)
  if is_directory then nhacp_send_error nhacp_eisdir else handle f

unfoldable pub on_file : (StextFile → M Exchange (Unit {0})) → M Exchange (Unit {0})
on_file handle = do
  slot ← get8 3
  found ← read (λ e. stext_file_find slot e.session.stext.files)
  checked_file handle found

unfoldable pub limit_payload : ℕ → ℕ → M Exchange (Unit {0}) → M Exchange (Unit {0})
limit_payload type length body = do
  most ← read (λ e. nhacp_max_payload e.session type)
  if ltb most length then nhacp_send_error nhacp_einval else body

-- A read into the data of a DATA-BUFFER reply; what follows has the length that was read.
abbrev pub pread_done : (ℕ → M Exchange (Unit {0})) → Result (List ℕ × ℕ) → M Exchange (Unit {0})
pread_done k (ok (got, n)) = modify (with_buffer (store 5 got)) >> k n
pread_done k (error e) = send_errno e
pread_done k crashed = λ s. fault

unfoldable pub pread_file : StextFile → ℕ → ℕ → (ℕ → M Exchange (Unit {0})) → M Exchange (Unit {0})
pread_file f offset length k = do
  rounds ← next_transfer
  pread_done k (stext_file_pread rounds f.backing offset length)

abbrev pub pwritten : ℕ → Option Errno × Backing → M Exchange (Unit {0})
pwritten slot (e, b) = modify (with_file slot b) >> answer e

unfoldable pub pwrite_file : StextFile → ℕ → List ℕ → M Exchange (Unit {0})
pwrite_file f offset bytes = do
  rounds ← next_transfer
  pwritten f.slot (stext_file_pwrite rounds f.backing offset bytes)

unfoldable pub nhacp_req_storage_get : M Exchange (Unit {0})
unfolding on_file get32 get16 limit_payload pread_file
nhacp_req_storage_get = on_file (λ f. do
  offset ← get32 4
  length ← get16 8
  limit_payload nhacp_req_storage_get_type length
      (pread_file f offset length nhacp_send_data_buffer))

unfoldable pub nhacp_req_storage_put : M Exchange (Unit {0})
unfolding on_file get32 get16 limit_payload pwrite_file
nhacp_req_storage_put = on_file (λ f. do
  offset ← get32 4
  length ← get16 8
  limit_payload nhacp_req_storage_put_type length
      (do bytes ← read (at (fetch 10 length)); pwrite_file f offset bytes))

-- `UINT32_MAX - blklen + 1` in 32 bits.
unfoldable pub block_too_far : ℕ → ℕ → Bool
block_too_far blkno blklen = ltb ((2 ^ 32 - 1 - blklen + 1) % 2 ^ 32) (blkno * blklen)

unfoldable pub send_block : ℕ → ℕ → M Exchange (Unit {0})
unfolding zeros
send_block save_blklen blklen =
    if blklen == 0
    then nhacp_send_data_buffer 0
    else if blklen == save_blklen
    then nhacp_send_data_buffer save_blklen
    else if ltb blklen save_blklen
    then (do
      modify (with_buffer (store (5 + blklen) (zeros (save_blklen - blklen))))
      nhacp_send_data_buffer save_blklen)
    else (λ s. fault)

abbrev pub get_block : StextFile → ℕ → ℕ → M Exchange (Unit {0})
get_block f blkno blklen =
    if block_too_far blkno blklen
    then nhacp_send_error nhacp_einval
    else limit_payload 0x07 blklen
        (pread_file f (blkno * blklen % 2 ^ 32) blklen (send_block blklen))

unfoldable pub nhacp_req_storage_get_block : M Exchange (Unit {0})
unfolding on_file get32 get16
nhacp_req_storage_get_block =
    on_file (λ f. do blkno ← get32 4; blklen ← get16 8; get_block f blkno blklen)

unfoldable pub nhacp_req_storage_put_block : M Exchange (Unit {0})
unfolding on_file get32 get16 limit_payload pwrite_file block_too_far
nhacp_req_storage_put_block = on_file (λ f. do
  blkno ← get32 4
  blklen ← get16 8
  if block_too_far blkno blklen
      then nhacp_send_error nhacp_einval
      else limit_payload 0x08 blklen
          (do bytes ← read (at (fetch 10 blklen)); pwrite_file f (blkno * blklen % 2 ^ 32) bytes))
