-- ===== src/Nhacp/Tables.antt =====
-- The steps that the handlers of data share: the file is found, the length is allowed, and the rounds
-- of the transfer are taken from the script.
use nabud.Prelude.{ℕ, ◌+◌, ◌≤◌, ◌≡◌, refl, ap, ◌∙◌, arith, List, false, ltb}
use nabud.Prelude.{length, some}
use nabud.Prelude.Monad.{M}
use nabud.Stext.{StextFile, fileio, stext_file_find}
use nabud.Stext.Files.{stext_file_pread, max_fileio_length}
use nabud.Stext.Files.{Round}
use nabud.Stext.Transfer.{span, pread-span}
use nabud.Stext.Transfer.{CalmTransfers, first-Calm}
use nabud.ConnIo.Send.{Accepts}
use nabud.Nhacp.{Exchange, NhacpSession, with_buffer, store, without_transfer, next_transfer}
use nabud.Stext.Files.{first_rounds}
use nabud.Nhacp.Files.{on_file, limit_payload, pread_file, pread_done}
use nabud.Nhacp.Reply.{nhacp_max_payload}

-- A regular file with the bytes `content` is open at `slot`, transfers do not fail, and the peer
-- accepts what it is sent.
pub record Serves (slot : ℕ) (f : StextFile) (content : List ℕ) (e : Exchange) : Type 0 where
  pub found : stext_file_find slot e.session.stext.files ≡ some f
  pub regular : (e.session.privates f.slot).is_directory ≡ false
  pub live : f.backing ≡ fileio content
  pub calm : CalmTransfers e.system.transfers
  pub accepts : Accepts e.io.sends

pub on_file-run :
    (slot : ℕ) (f : StextFile) (content : List ℕ) (e : Exchange)
    (handle : StextFile → M Exchange (Unit {0}))
    → Serves slot f content e
    → e.session.buffer 3 ≡ slot
    → on_file handle e ≡ handle f e
unfolding on_file
on_file-run slot f content e handle h at_slot = rw (at_slot, h.found, h.regular) refl

pub max_payload-least : (s : NhacpSession) (type : ℕ) → 8192 ≤ nhacp_max_payload s type
unfolding nhacp_max_payload
max_payload-least s type = ground arith

pub limit-run :
    (type n : ℕ) (body : M Exchange (Unit {0})) (e : Exchange)
    → n ≤ 8192
    → limit_payload type n body e ≡ body e
unfolding limit_payload
limit-run type n body e h =
    let most = max_payload-least e.session type in
    let allowed : ltb (nhacp_max_payload e.session type) n ≡ false = ground arith in rw allowed refl

-- A read that fits stores the bytes of the file in the reply, and goes on with their number.
pub pread-run :
    (f : StextFile) (content : List ℕ) (offset n : ℕ) (k : ℕ → M Exchange (Unit {0})) (e : Exchange)
    → f.backing ≡ fileio content
    → CalmTransfers e.system.transfers
    → offset + n ≤ max_fileio_length
    → let got : List ℕ = span content offset n in
      pread_file f offset n k e ≡ k (length got) (with_buffer (store 5 got) (without_transfer e))
unfolding pread_file stext_file_pread next_transfer
pread-run f content offset n k e live calm inside =
    let rounds : List Round = first_rounds e.system.transfers in
    ap (λ b. pread_done k (stext_file_pread rounds b offset n) (without_transfer e)) live
    ∙ ap (λ r. pread_done k r (without_transfer e))
        (pread-span rounds content offset n (first-Calm e.system.transfers calm) inside)
