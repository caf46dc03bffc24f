-- ===== src/Retronet/Transfers.antt =====
-- nabud/retronet.c: FH-READ, FH-APPEND, FH-REPLACE and FH-TRUNCATE.
use nabud.Prelude.{ℕ, ◌-◌, ◌^◌, List, ◌++◌, leb, if◌then◌else◌, Option, none, some, take}
use nabud.Prelude.Monad.{M, fault, pure, modify, read, ◌>>=◌}
use nabud.Proto.{byte_at, nabu_set_uint16}
use nabud.Stext.{Result, ok, error, crashed, StextFile}
use nabud.Stext.Files.{stext_file_pread, stext_file_pwrite, stext_file_truncate}
use nabud.Retronet.{
  RnExchange, conn_recv, conn_send, on_request, with_file, next_transfer, file_at, attrs_size,
  get16, get32,
}

-- The first `n` bytes of a buffer into which `got` has been read.
unfoldable pub buffer_bytes : List ℕ → (ℕ → List ℕ) → ℕ → List ℕ
buffer_bytes got stale n = take n (got ++ stale n)

-- The length and as many bytes of the buffer; no bytes after an error.
abbrev pub read_reply : (ℕ → List ℕ) → Result (List ℕ × ℕ) → M RnExchange (Unit {0})
read_reply stale (ok (got, n)) = conn_send (nabu_set_uint16 n ++ buffer_bytes got stale n)
read_reply stale (error e) = conn_send (nabu_set_uint16 0)
read_reply stale crashed = λ s. fault

abbrev pub read_found : ℕ → ℕ → Option StextFile → M RnExchange (Unit {0})
read_found offset length none = conn_send (nabu_set_uint16 0)
read_found offset length (some f) = do
  rounds ← next_transfer
  stale ← read (λ e. e.system.stale_bytes)
  read_reply stale (stext_file_pread rounds f.backing offset length)

unfoldable pub rn_req_fh_read : M RnExchange (Unit {0})
unfolding get32 get16 stext_file_pread buffer_bytes nabu_set_uint16
rn_req_fh_read =
    on_request 7 (λ req. do f ← file_at (byte_at req 0); read_found (get32 1 req) (get16 5 req) f)

-- An error of a write is only logged.
abbrev pub pwrite_file : StextFile → ℕ → List ℕ → M RnExchange (Unit {0})
pwrite_file f offset bytes = do
  rounds ← next_transfer
  modify (with_file f.slot (stext_file_pwrite rounds f.backing offset bytes).1)

-- A request whose data follow its fixed part: they are received before the file is looked at.
abbrev pub on_data : ℕ → (List ℕ → M RnExchange (Unit {0})) → M RnExchange (Unit {0})
on_data length handle = do
  (received, bytes) ← conn_recv length
  if received then handle bytes else pure tt

abbrev pub append_to : StextFile → List ℕ → Result ℕ → M RnExchange (Unit {0})
append_to f bytes (ok size) = if leb (2 ^ 32 - 1) size then pure tt else pwrite_file f size bytes
append_to f bytes (error e) = pure tt
append_to f bytes crashed = λ s. fault

abbrev pub append_found : Option StextFile → List ℕ → M RnExchange (Unit {0})
append_found none bytes = pure tt
append_found (some f) bytes = do size ← attrs_size f; append_to f bytes size

unfoldable pub rn_req_fh_append : M RnExchange (Unit {0})
unfolding get16 stext_file_pwrite
rn_req_fh_append =
    on_request 3 (λ req. do f ← file_at (byte_at req 0); on_data (get16 1 req) (append_found f))

abbrev pub replace_found : Option StextFile → ℕ → List ℕ → M RnExchange (Unit {0})
replace_found none offset bytes = pure tt
replace_found (some f) offset bytes = pwrite_file f offset bytes

unfoldable pub rn_req_fh_replace : M RnExchange (Unit {0})
unfolding get32 get16 stext_file_pwrite
rn_req_fh_replace =
    on_request 7
      (λ req. do f ← file_at (byte_at req 0); on_data (get16 5 req) (replace_found f (get32 1 req)))

abbrev pub truncate_found : Option StextFile → M RnExchange (Unit {0})
truncate_found none = pure tt
truncate_found (some f) = do
  refused ← read (λ e. e.system.truncate 0)
  modify (with_file f.slot (stext_file_truncate refused f.backing 0).1)

unfoldable pub rn_req_fh_truncate : M RnExchange (Unit {0})
unfolding stext_file_truncate
rn_req_fh_truncate = on_request 1 (λ req. do f ← file_at (byte_at req 0); truncate_found f)
