-- ===== src/Retronet/Open.antt =====
-- nabud/retronet.c: FILE-OPEN, FH-CLOSE, and the requests for sizes.
use nabud.Prelude.{ℕ, ◌-◌, ◌^◌, [], ◌∷◌, Bool, true, false, ◌==◌, ltb, if◌then◌else◌}
use nabud.Prelude.{Option, none, some, bit_and, bit_or}
use nabud.Prelude.Monad.{M, fault, pure, modify, read, ◌>>=◌, ◌>>◌}
use nabud.Proto.{byte_at, nabu_set_uint32}
use nabud.Stext.{ebusy, efbig, emfile, erofs, other_errno, Result, ok, error, crashed}
use nabud.Stext.{StextFile}
use nabud.Stext.Open.{StextContext, FileioOpened, stext_file_open, stext_file_close}
use nabud.Nhacp.Files.{added_slot}
use nabud.Retronet.{RnExchange, conn_send, on_request, with_stext, file_at, attrs_size, get16}
use nabud.Retronet.Names.{on_filename, rn_file_getattr}

-- `FILEIO_O_CREAT | FILEIO_O_REGULAR`, with the access that the flags of the request ask for.
abbrev pub open_flags : ℕ → ℕ
open_flags flags = bit_or 0x50 (if bit_and flags 0x01 == 0 then 0x00 else 0x02)

abbrev is_busy : Result (Unit {0}) → Bool
is_busy (ok x) = false
is_busy crashed = false
is_busy (error ebusy) = true
is_busy (error efbig) = false
is_busy (error emfile) = false
is_busy (error erofs) = false
is_busy (error (other_errno e)) = false

-- A slot that is taken is answered by any free one.
unfoldable pub open_anyway :
    Bool × FileioOpened → ℕ → StextContext → Result (Unit {0}) × StextContext
unfolding stext_file_open
open_anyway (calloc_ok, o) reqslot ctx =
    let first = stext_file_open calloc_ok o reqslot ctx in
    if is_busy first.0 then stext_file_open calloc_ok o 0xff first.1 else first

-- The handle that the reply has, 0xff for an error.
abbrev pub opened_reply : StextContext → Result (Unit {0}) × StextContext → M RnExchange (Unit {0})
opened_reply before (ok x, t) =
    modify (with_stext t) >> conn_send (added_slot before.files t.files ∷ [])
opened_reply before (error e, t) = modify (with_stext t) >> conn_send (0xff ∷ [])
opened_reply before (crashed, t) = λ s. fault

unfoldable pub rn_req_file_open : M RnExchange (Unit {0})
unfolding get16 open_anyway
rn_req_file_open = on_filename (λ fname. on_request 3 (λ req. do
  e ← read (λ e. e)
  let o = e.system.opening fname (open_flags (get16 0 req))
  opened_reply e.ctx.stext (open_anyway o (byte_at req 2) e.ctx.stext)))

-- A size in 32 bits with a sign, and -1 where there is none.
abbrev pub int32_size : Result ℕ → ℕ
int32_size (ok size) = if ltb (2 ^ 31 - 1) size then 2 ^ 31 - 1 else size
int32_size (error e) = 2 ^ 32 - 1
int32_size crashed = 2 ^ 32 - 1

abbrev pub send_size : Result ℕ → M RnExchange (Unit {0})
send_size size = conn_send (nabu_set_uint32 (int32_size size))

abbrev pub fh_size_found : Option StextFile → M RnExchange (Unit {0})
fh_size_found none = send_size (error ebusy)
fh_size_found (some f) = do size ← attrs_size f; send_size size

unfoldable pub rn_req_fh_size : M RnExchange (Unit {0})
unfolding nabu_set_uint32
rn_req_fh_size = on_request 1 (λ req. do f ← file_at (byte_at req 0); fh_size_found f)

unfoldable pub rn_req_file_size : M RnExchange (Unit {0})
unfolding rn_file_getattr nabu_set_uint32
rn_req_file_size = do
  attrs ← rn_file_getattr
  elim attrs [ none ↦ send_size (error ebusy) | some a ↦ send_size (ok a.size) ]

abbrev pub close_found : Option StextFile → M RnExchange (Unit {0})
close_found none = pure tt
close_found (some f) = modify (λ e. with_stext (stext_file_close f e.ctx.stext) e)

unfoldable pub rn_req_fh_close : M RnExchange (Unit {0})
rn_req_fh_close = on_request 1 (λ req. do f ← file_at (byte_at req 0); close_found f)
