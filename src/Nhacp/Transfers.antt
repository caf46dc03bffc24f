-- ===== src/Nhacp/Transfers.antt =====
-- STORAGE-GET and STORAGE-PUT, from the request in the buffer to the reply that the peer is given.
use nabud.Prelude.{ℕ, ◌+◌, ◌^◌, ◌≤◌, ◌<◌, ◌≡◌, refl, sym, ap, ap₂, ◌∙◌, arith, List, [], ◌∷◌, ◌++◌}
use nabud.Prelude.{length, drop, length-take}
use nabud.Prelude.Monad.{Outcome, done}
use nabud.Proto.{nabu_set_uint16, nabu_get_uint16, nabu_set_uint32, nabu_get_uint32}
use nabud.Proto.RoundTrip.{get-set}
use nabud.Stext.{StextFile}
use nabud.Stext.Files.{max_fileio_length}
use nabud.Stext.Transfer.{span}
use nabud.Nhacp.{Exchange, NhacpSession, Buffer, store, fetch, with_buffer, without_transfer}
use nabud.Nhacp.Memory.{
  store-before, store-at, fetch-store, fetch-store_before, fetch-store_behind, fetch-split,
}
use nabud.Nhacp.Reply.{nhacp_crc_len, nhacp_send_data_buffer, nhacp_req_storage_get_type}
use nabud.Nhacp.Frames.{reply_frame, after_reply, nhacp_send_reply-frame}
use nabud.Nhacp.Files.{nhacp_req_storage_get, pread_file, limit_payload}
use nabud.Nhacp.Tables.{Serves, on_file-run, limit-run, pread-run}
use nabud.Stext.Transfer.{later-Calm}

-- A request for `n` bytes at `offset` of the file at `slot`, where the handlers look for its fields.
abbrev pub request_fields : ℕ → ℕ → ℕ → Buffer → Buffer
request_fields slot offset n buf =
    store 8 (nabu_set_uint16 n) (store 4 (nabu_set_uint32 offset) (store 3 (slot ∷ []) buf))

pub set32-length : (v : ℕ) → length (nabu_set_uint32 v) ≡ 4
unfolding nabu_set_uint32
set32-length v = refl

pub set16-length : (v : ℕ) → length (nabu_set_uint16 v) ≡ 2
unfolding nabu_set_uint16
set16-length v = refl

-- The fields are read back.
pub request_fields-read :
    (slot offset n : ℕ) (buf : Buffer)
    → offset < 2 ^ 32
    → n < 2 ^ 16
    → let b : Buffer = request_fields slot offset n buf in
      (b 3 ≡ slot) × (nabu_get_uint32 (fetch 4 4 b) ≡ offset) × (nabu_get_uint16 (fetch 8 2 b) ≡ n)
request_fields-read slot offset n buf h k =
    let one = store 3 (slot ∷ []) buf in
    let two = store 4 (nabu_set_uint32 offset) one in
    (
      store-before 8 3 (nabu_set_uint16 n) two (omega arith)
          ∙ store-before 4 3 (nabu_set_uint32 offset) one (omega arith)
          ∙ store-at 3 3 0 (slot ∷ []) buf refl,
      ap nabu_get_uint32 (
            fetch-store_behind 4 4 8 (nabu_set_uint16 n) two (omega arith)
            ∙ fetch-store 4 4 (nabu_set_uint32 offset) one (sym (set32-length offset)))
          ∙ (get-set offset).4
          ∙ omega arith,
      ap nabu_get_uint16 (fetch-store 2 8 (nabu_set_uint16 n) two (sym (set16-length n)))
          ∙ (get-set n).0
          ∙ omega arith,
    )

-- What an exchange is after a reply of `frame`: another one in which the same file is served.
pub record Answered (slot : ℕ) (f : StextFile) (content : List ℕ) (e : Exchange) (frame : List ℕ)
    (o : Outcome (Unit {0} × Exchange)) : Type 0 where
  pub after : Exchange
  pub runs : o ≡ done (tt, after)
  pub serves : Serves slot f content after
  pub sent : after.io.sent ≡ e.io.sent ++ frame
  pub options : after.session.nhacp_options ≡ e.session.nhacp_options

-- The payload of a DATA-BUFFER reply with the bytes `got`.
abbrev pub data_payload : List ℕ → List ℕ
data_payload got = nabu_set_uint16 (length got) ++ got

pub crc_len-most : (options : ℕ) → nhacp_crc_len options ≤ 1
unfolding nhacp_crc_len
crc_len-most options = ground arith

pub data_buffer-run :
    (slot : ℕ) (f : StextFile) (content got : List ℕ) (e : Exchange)
    → Serves slot f content e
    → length got ≤ 8192
    → fetch 5 (length got) e.session.buffer ≡ got
    → Answered slot f content e
        (reply_frame (nhacp_crc_len e.session.nhacp_options) 0x84 (data_payload got))
        (nhacp_send_data_buffer (length got) e)
unfolding nhacp_send_data_buffer
data_buffer-run slot f content got e h short there =
    let n : ℕ = length got in
    let field : List ℕ = nabu_set_uint16 n in
    let e1 : Exchange = with_buffer (store 3 field) e in
    let most = crc_len-most e.session.nhacp_options in
    let (buf, es, run, again, residue) =
      nhacp_send_reply-frame 0x84 (2 + n) e1 h.accepts (omega arith) in
    let payload : fetch 3 (2 + n) e1.session.buffer ≡ data_payload got =
      fetch-split 2 n 3 e1.session.buffer
      ∙ ap₂ (λ xs ys. xs ++ ys) (fetch-store 2 3 field e.session.buffer (sym (set16-length n)))
          (fetch-store_before n 5 3 field e.session.buffer (omega (arith, set16-length n))
            ∙ there) in
    let frame_is = ap (reply_frame (nhacp_crc_len e.session.nhacp_options) 0x84) payload in
    record {
      after = after_reply e1 buf es (
          reply_frame (nhacp_crc_len e.session.nhacp_options) 0x84
            (fetch 3 (2 + n) e1.session.buffer));
      runs = ap (λ k. nabud.Nhacp.Reply.nhacp_send_reply 0x84 k e1) (omega arith) ∙ run;
      serves = record {
        found = h.found;
        regular = h.regular;
        live = h.live;
        calm = h.calm;
        accepts = again;
      };
      sent = ap (λ l. e.io.sent ++ l) frame_is;
      options = refl;
    }

-- A STORAGE-GET of a regular file that is open, of at most 8192 bytes that end within the largest
-- file, is answered by a DATA-BUFFER with those bytes of the file from the offset on that there are,
-- in one frame and whatever short and interrupted reads there are; the file is served on.
pub storage_get-span :
    (slot offset n : ℕ) (f : StextFile) (content : List ℕ) (e : Exchange)
    → Serves slot f content e
    → n ≤ 8192
    → offset + n ≤ max_fileio_length
    → Answered slot f content e
        (reply_frame
          (nhacp_crc_len e.session.nhacp_options)
          0x84
          (data_payload (span content offset n)))
        (nhacp_req_storage_get (with_buffer (request_fields slot offset n) e))
unfolding nhacp_req_storage_get
storage_get-span slot offset n f content e h short inside =
    let got : List ℕ = span content offset n in
    let e0 : Exchange = with_buffer (request_fields slot offset n) e in
    let e1 : Exchange = with_buffer (store 5 got) (without_transfer e0) in
    let (at_slot, at_offset, at_length) =
      request_fields-read slot offset n e.session.buffer (omega arith) (omega arith) in
    let h0 : Serves slot f content e0 = record {
      found = h.found;
      regular = h.regular;
      live = h.live;
      calm = h.calm;
      accepts = h.accepts;
    } in
    let h1 : Serves slot f content e1 = record {
      found = h.found;
      regular = h.regular;
      live = h.live;
      calm = later-Calm e.system.transfers h.calm;
      accepts = h.accepts;
    } in
    let size : length got ≤ 8192 = omega (arith, length-take n (drop offset content)) in
    let a = data_buffer-run slot f content got e1 h1 size (fetch-store (length got) 5 got _ refl) in
    record {
      after = a.after;
      runs =
          on_file-run slot f content e0 _ h0 at_slot
          ∙ ap₂
              (λ o m.
                limit_payload nhacp_req_storage_get_type m (pread_file f o m nhacp_send_data_buffer)
                  e0)
              at_offset at_length
          ∙ limit-run nhacp_req_storage_get_type n _ e0 short
          ∙ pread-run f content offset n nhacp_send_data_buffer e0 h.live h.calm inside
          ∙ a.runs;
      serves = a.serves;
      sent = a.sent;
      options = a.options;
    }
