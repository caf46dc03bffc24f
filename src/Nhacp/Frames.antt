-- ===== src/Nhacp/Frames.antt =====
-- The bytes of a reply, described on their own: the length, the type, the payload and, if the session
-- has the option, the CRC-8 of what precedes it. `nhacp_send_reply` gives them to the peer.
use nabud.Prelude.{
  ℕ, zero, suc, ◌+◌, ◌-◌, ◌%◌, ◌^◌, ◌≤◌, ◌<◌, ◌≡◌, refl, sym, ap, ap₂, ◌∙◌, arith, List, [], ◌∷◌,
  ◌++◌,
}
use nabud.Prelude.{true, leb, length, inl, inr, ◌⊎◌, append_assoc}
use nabud.Prelude.Monad.{done, zoom-done}
use nabud.Proto.{nabu_set_uint16, nabu_get_uint16}
use nabud.Proto.RoundTrip.{get-set}
use nabud.Crc8.Residue.{crc_residue}
use nabud.ConnIo.{SendEvent, conn_io_send}
use nabud.ConnIo.Send.{Accepts, send_all}
use nabud.Nhacp.{Exchange, Buffer, store, fetch, with_buffer, nhacp_max_messagelen}
use nabud.Nhacp.Memory.{
  fetch-store_behind, fetch-store_before, fetch-store, fetch-split, length-fetch,
}
use nabud.Nhacp.Reply.{
  nhacp_send_reply, nhacp_crc_len, nhacp_crc_ptr, crc8_of, finish_reply, exchange_io,
}

-- What the reply is without its CRC.
abbrev pub reply_head : ℕ → ℕ → List ℕ → List ℕ
reply_head crclen type payload = nabu_set_uint16 (1 + length payload + crclen) ++ (type ∷ payload)

unfoldable pub reply_frame : ℕ → ℕ → List ℕ → List ℕ
reply_frame zero type payload = reply_head 0 type payload
reply_frame (suc n) type payload =
    let head = reply_head (suc n) type payload in head ++ (crc8_of head ∷ [])

framed : ℕ → ℕ → Buffer → Buffer
framed type len buf = store 2 (type ∷ []) (store 0 (nabu_set_uint16 len) buf)

set16-length : (len : ℕ) → length (nabu_set_uint16 len) ≡ 2
unfolding nabu_set_uint16
set16-length len = refl

framed-head :
    (type len k : ℕ) (buf : Buffer)
    → fetch 0 (3 + k) (framed type len buf) ≡ nabu_set_uint16 len ++ (type ∷ fetch 3 k buf)
unfolding framed
framed-head type len k buf =
    let length_field : List ℕ = nabu_set_uint16 len in
    let three = set16-length len in
    fetch-split 3 k 0 (framed type len buf)
    ∙ ap₂ (λ xs ys. xs ++ ys)
        (fetch-split 2 1 0 (framed type len buf)
          ∙ ap₂ (λ xs ys. xs ++ ys)
              (fetch-store_behind 2 0 2 (type ∷ []) (store 0 length_field buf) (omega arith)
                ∙ fetch-store 2 0 length_field buf (sym three))
              (fetch-store 1 2 (type ∷ []) (store 0 length_field buf) refl))
        (fetch-store_before k 3 2 (type ∷ []) (store 0 length_field buf) (omega arith)
          ∙ fetch-store_before k 3 0 length_field buf (omega (arith, three)))
    ∙ append_assoc length_field (type ∷ []) (fetch 3 k buf)

framed-length :
    (type len : ℕ) (buf : Buffer)
    → len < 2 ^ 16
    → nhacp_crc_ptr (framed type len buf) ≡ 3 + len - 1 - 1
unfolding framed nhacp_crc_ptr
framed-length type len buf h =
    let field = nabu_set_uint16 len in
    let there =
      fetch-store_behind 2 0 2 (type ∷ []) (store 0 field buf) (omega arith)
      ∙ fetch-store 2 0 field buf (sym (set16-length len)) in
    let value : nabu_get_uint16 field ≡ len = (get-set len).0 ∙ omega arith in
    ap (λ n. 3 + n - 1 - 1) (ap nabu_get_uint16 there ∙ value)

finish-bare :
    (type k : ℕ) (buf : Buffer)
    → fetch 0 (1 + k + 2) (finish_reply 0 type (1 + k) buf) ≡ reply_frame 0 type (fetch 3 k buf)
unfolding finish_reply reply_frame framed
finish-bare type k buf =
    let all : 1 + k + 2 ≡ 3 + k = omega arith in
    let len : 1 + k ≡ 1 + length (fetch 3 k buf) + 0 = omega (arith, length-fetch k 3 buf) in
    ap (λ n. fetch 0 n (framed type (1 + k) buf)) all
    ∙ framed-head type (1 + k) k buf
    ∙ ap (λ n. nabu_set_uint16 n ++ (type ∷ fetch 3 k buf)) len

finish-crc :
    (type k : ℕ) (buf : Buffer)
    → 2 + k < 2 ^ 16
    → fetch 0 (2 + k + 2) (finish_reply 1 type (2 + k) buf) ≡ reply_frame 1 type (fetch 3 k buf)
unfolding finish_reply reply_frame framed
finish-crc type k buf h =
    let base : Buffer = framed type (2 + k) buf in
    let ptr : ℕ = nhacp_crc_ptr base in
    let crc : List ℕ = crc8_of (fetch 0 ptr base) ∷ [] in
    let place : ptr ≡ 3 + k = framed-length type (2 + k) buf h ∙ omega arith in
    let all : 2 + k + 2 ≡ ptr + 1 = omega (arith, place) in
    let len : 2 + k ≡ 1 + length (fetch 3 k buf) + 1 = omega (arith, length-fetch k 3 buf) in
    let head : fetch 0 ptr base ≡ reply_head 1 type (fetch 3 k buf) =
      ap (λ n. fetch 0 n base) place
      ∙ framed-head type (2 + k) k buf
      ∙ ap (λ n. nabu_set_uint16 n ++ (type ∷ fetch 3 k buf)) len in
    ap (λ n. fetch 0 n (store ptr crc base)) all
    ∙ fetch-split ptr 1 0 (store ptr crc base)
    ∙ ap₂ (λ xs ys. xs ++ ys) (fetch-store_behind ptr 0 ptr crc base (omega arith))
        (ap (λ o. fetch o 1 (store ptr crc base)) (omega arith) ∙ fetch-store 1 ptr crc base refl)
    ∙ ap (λ l. l ++ (crc8_of l ∷ [])) head

-- The CRC of a session's replies takes one byte, or none.
crc_len-cases : (options : ℕ) → (nhacp_crc_len options ≡ 0) ⊎ (nhacp_crc_len options ≡ 1)
unfolding nhacp_crc_len
crc_len-cases options = ground arith

finish-frame :
    (crclen type k : ℕ) (buf : Buffer)
    → (crclen ≡ 0) ⊎ (crclen ≡ 1)
    → 1 + k + crclen < 2 ^ 16
    → fetch 0 (1 + k + crclen + 2) (finish_reply crclen type (1 + k + crclen) buf)
      ≡ reply_frame crclen type (fetch 3 k buf)
finish-frame crclen type k buf (inl none) h =
    ap₂ (λ n m. fetch 0 (m + 2) (finish_reply n type m buf)) none (omega arith)
    ∙ finish-bare type k buf
    ∙ ap (λ n. reply_frame n type (fetch 3 k buf)) (sym none)
finish-frame crclen type k buf (inr one) h =
    ap₂ (λ n m. fetch 0 (m + 2) (finish_reply n type m buf)) one (omega arith)
    ∙ finish-crc type k buf (omega arith)
    ∙ ap (λ n. reply_frame n type (fetch 3 k buf)) (sym one)

frame-residue :
    (crclen type : ℕ) (payload : List ℕ)
    → (crclen ≡ 0) ⊎ (crclen ≡ 1)
    → (crclen ≡ 0) ⊎ (crc8_of (reply_frame crclen type payload) ≡ 0)
unfolding reply_frame crc8_of
frame-residue crclen type payload (inl none) = inl none
frame-residue crclen type payload (inr one) =
    inr
      (ap (λ n. crc8_of (reply_frame n type payload)) one ∙ crc_residue (reply_head 1 type payload))

-- The exchange after a reply: the message buffer is another one, and the peer has the bytes.
abbrev pub after_reply : Exchange → Buffer → List SendEvent → List ℕ → Exchange
after_reply e buf es bytes = record e {
  session = record e.session { buffer = buf };
  io = record e.io { sends = es; sent = e.io.sent ++ bytes };
}

frame-cons :
    (crclen type : ℕ) (payload : List ℕ)
    → (b : ℕ) × (bs : List ℕ) × (reply_frame crclen type payload ≡ b ∷ bs)
unfolding reply_frame nabu_set_uint16
frame-cons zero type payload = (_, _, refl)
frame-cons (suc n) type payload = (_, _, refl)

-- Where the peer accepts every write and the length fits, a reply with a payload of `k` bytes is sent
-- whole: its bytes are those of `reply_frame`, and if there is a CRC then the CRC-8 over all of them
-- is 0. Apart from the message buffer and the connection nothing changes.
pub nhacp_send_reply-frame :
    (type k : ℕ) (e : Exchange)
    → Accepts e.io.sends
    → 1 + k + nhacp_crc_len e.session.nhacp_options ≤ nhacp_max_messagelen
    → let crclen : ℕ = nhacp_crc_len e.session.nhacp_options in
      let frame : List ℕ = reply_frame crclen type (fetch 3 k e.session.buffer) in
      (buf : Buffer) × (es : List SendEvent) × (nhacp_send_reply type (1 + k) e
        ≡ done (tt, after_reply e buf es frame))
      × Accepts es
      × ((crclen ≡ 0) ⊎ (crc8_of frame ≡ 0))
unfolding nhacp_send_reply
nhacp_send_reply-frame type k e h fits =
    let crclen : ℕ = nhacp_crc_len e.session.nhacp_options in
    let size = crc_len-cases e.session.nhacp_options in
    let payload : List ℕ = fetch 3 k e.session.buffer in
    let frame : List ℕ = reply_frame crclen type payload in
    let buf : Buffer = finish_reply crclen type (1 + k + crclen) e.session.buffer in
    let (b, bs, shape) = frame-cons crclen type payload in
    let (es, sent, again) = send_all b bs e.io h in
    let wrap : (1 + k + crclen) % 2 ^ 16 ≡ 1 + k + crclen = omega arith in
    let short : leb (1 + k + crclen) nhacp_max_messagelen ≡ true = ground arith in
    let bytes = finish-frame crclen type k e.session.buffer size (omega arith) in
    (
      buf,
      es,
      rw (wrap, short)
          (ap (λ l. exchange_io (conn_io_send l) (with_buffer (λ _. buf) e)) (bytes ∙ shape)
            ∙ zoom-done (λ d. d.io) (λ d io. record d { io = io }) (conn_io_send (b ∷ bs))
                (with_buffer (λ _. buf) e) tt _ sent
            ∙ ap (λ l. done (tt, after_reply e buf es l)) (sym shape)),
      again,
      frame-residue crclen type payload size,
    )
