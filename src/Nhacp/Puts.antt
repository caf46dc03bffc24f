-- ===== src/Nhacp/Puts.antt =====
-- STORAGE-PUT, and what a STORAGE-GET after it gives.
use nabud.Prelude.{ℕ, ◌+◌, ◌≤◌, ◌≡◌, refl, ap, ap₂, ◌∙◌, arith, List, [], ◌∷◌, ◌++◌}
use nabud.Prelude.{length, append_assoc}
use nabud.Prelude.Monad.{M, bind-done, modify, read, ◌>>=◌, ◌>>◌}
use nabud.Proto.{nabu_set_uint16, nabu_set_uint32}
use nabud.Stext.{StextFile, fileio}
use nabud.Stext.Files.{Round, stext_file_pwrite, max_fileio_length, patch}
use nabud.Stext.RoundTrip.{pwrite-patch, span-patch}
use nabud.Stext.Transfer.{span}
use nabud.Stext.Changes.{find-changed}
use nabud.Nhacp.{Exchange, Buffer, store, fetch, with_buffer, without_transfer, next_transfer, at}
use nabud.Stext.Files.{first_rounds}
use nabud.Nhacp.Memory.{fetch-store, fetch-store_before}
use nabud.Nhacp.Reply.{nhacp_crc_len, nhacp_send_ok, nhacp_req_storage_put_type}
use nabud.Nhacp.Frames.{reply_frame, after_reply, nhacp_send_reply-frame}
use nabud.Nhacp.Files.{
  nhacp_req_storage_put, nhacp_req_storage_get, pwrite_file, limit_payload, pwritten, with_file,
}
use nabud.Nhacp.Tables.{Serves, on_file-run, limit-run}
use nabud.Stext.Transfer.{later-Calm}
use nabud.Stext.Transfer.{first-Calm}
use nabud.Nhacp.Transfers.{
  request_fields, request_fields-read, Answered, data_payload, storage_get-span, crc_len-most,
}
use nabud.Nhacp.Transfers.{set16-length, set32-length}

-- A request to store bytes at `offset` of the file at `slot`.
abbrev pub put_fields : ℕ → ℕ → List ℕ → Buffer → Buffer
put_fields slot offset bytes buf = request_fields slot offset (length bytes) (store 10 bytes buf)

put_fields-bytes :
    (slot offset : ℕ) (bytes : List ℕ) (buf : Buffer)
    → fetch 10 (length bytes) (put_fields slot offset bytes buf) ≡ bytes
put_fields-bytes slot offset bytes buf =
    let n : ℕ = length bytes in
    let stored = store 10 bytes buf in
    let one = store 3 (slot ∷ []) stored in
    let two = store 4 (nabu_set_uint32 offset) one in
    fetch-store_before n 10 8 (nabu_set_uint16 n) two (omega (arith, set16-length n))
    ∙ fetch-store_before n 10 4 (nabu_set_uint32 offset) one (omega (arith, set32-length offset))
    ∙ fetch-store_before n 10 3 (slot ∷ []) stored (omega arith)
    ∙ fetch-store n 10 bytes buf refl

fetch_nothing : (buf : Buffer) → fetch 3 0 buf ≡ []
unfolding fetch
fetch_nothing buf = refl

-- An OK reply.
ok-run :
    (slot : ℕ) (f : StextFile) (content : List ℕ) (e : Exchange)
    → Serves slot f content e
    → Answered slot f content e
        (reply_frame (nhacp_crc_len e.session.nhacp_options) 0x81 [])
        (nhacp_send_ok e)
unfolding nhacp_send_ok
ok-run slot f content e h =
    let most = crc_len-most e.session.nhacp_options in
    let (buf, es, run, again, residue) = nhacp_send_reply-frame 0x81 0 e h.accepts (omega arith) in
    record {
      after =
          after_reply e buf es
            (reply_frame (nhacp_crc_len e.session.nhacp_options) 0x81 (fetch 3 0 e.session.buffer));
      runs = run;
      serves = record {
        found = h.found;
        regular = h.regular;
        live = h.live;
        calm = h.calm;
        accepts = again;
      };
      sent =
          ap (λ l. e.io.sent ++ reply_frame (nhacp_crc_len e.session.nhacp_options) 0x81 l)
            (fetch_nothing e.session.buffer);
      options = refl;
    }

pwrite-run :
    (f : StextFile) (content : List ℕ) (offset b : ℕ) (bytes : List ℕ) (e : Exchange)
    → f.backing ≡ fileio content
    → nabud.Stext.Transfer.CalmTransfers e.system.transfers
    → offset + length (b ∷ bytes) ≤ max_fileio_length
    → pwrite_file f offset (b ∷ bytes) e
      ≡ nhacp_send_ok
          (with_file f.slot (fileio (patch content offset (b ∷ bytes))) (without_transfer e))
unfolding pwrite_file next_transfer
pwrite-run f content offset b bytes e live calm inside =
    let rounds : List Round = first_rounds e.system.transfers in
    ap (λ k. pwritten f.slot (stext_file_pwrite rounds k offset (b ∷ bytes)) (without_transfer e))
      live
    ∙ ap (λ r. pwritten f.slot r (without_transfer e))
        (pwrite-patch rounds content offset b bytes (first-Calm e.system.transfers calm) inside)

-- The file of the table after a write.
abbrev pub patched : StextFile → List ℕ → ℕ → List ℕ → StextFile
patched f content offset bytes = record f { backing = fileio (patch content offset bytes) }

-- The handler behind its guards.
put_body : StextFile → ℕ → ℕ → M Exchange (Unit {0})
put_body f offset n =
    limit_payload nhacp_req_storage_put_type n (read (at (fetch 10 n)) >>= pwrite_file f offset)

-- A STORAGE-PUT of one to 8192 bytes to a regular file that is open, which end within the largest
-- file, is answered by OK in one frame, and the session serves the file with the bytes in place.
pub storage_put-patch :
    (slot offset b : ℕ) (bytes : List ℕ) (f : StextFile) (content : List ℕ) (e : Exchange)
    → Serves slot f content e
    → length (b ∷ bytes) ≤ 8192
    → offset + length (b ∷ bytes) ≤ max_fileio_length
    → Answered slot
        (patched f content offset (b ∷ bytes))
        (patch content offset (b ∷ bytes))
        e
        (reply_frame (nhacp_crc_len e.session.nhacp_options) 0x81 [])
        (nhacp_req_storage_put (with_buffer (put_fields slot offset (b ∷ bytes)) e))
unfolding nhacp_req_storage_put put_body
storage_put-patch slot offset b bytes f content e h short inside =
    let n : ℕ = length (b ∷ bytes) in
    let f' : StextFile = patched f content offset (b ∷ bytes) in
    let content' : List ℕ = patch content offset (b ∷ bytes) in
    let e0 : Exchange = with_buffer (put_fields slot offset (b ∷ bytes)) e in
    let e1 : Exchange = with_file f.slot (fileio content') (without_transfer e0) in
    let (at_slot, at_offset, at_length) =
      request_fields-read slot offset n (store 10 (b ∷ bytes) e.session.buffer) (omega arith)
        (omega arith) in
    let h0 : Serves slot f content e0 = record {
      found = h.found;
      regular = h.regular;
      live = h.live;
      calm = h.calm;
      accepts = h.accepts;
    } in
    let h1 : Serves slot f' content' e1 = record {
      found = (find-changed slot f (fileio content') e.session.stext.files h.found).1;
      regular = h.regular;
      live = refl;
      calm = later-Calm e.system.transfers h.calm;
      accepts = h.accepts;
    } in
    let a = ok-run slot f' content' e1 h1 in
    record {
      after = a.after;
      runs =
          on_file-run slot f content e0 _ h0 at_slot
          ∙ ap₂ (λ o m. put_body f o m e0) at_offset at_length
          ∙ limit-run nhacp_req_storage_put_type n (read (at (fetch 10 n)) >>= pwrite_file f offset)
              e0 short
          ∙ ap (λ l. pwrite_file f offset l e0)
              (put_fields-bytes slot offset (b ∷ bytes) e.session.buffer)
          ∙ pwrite-run f content offset b bytes e0 h.live h.calm inside
          ∙ a.runs;
      serves = a.serves;
      sent = a.sent;
      options = a.options;
    }

-- A STORAGE-PUT, and then a STORAGE-GET of as many bytes at the same offset.
abbrev pub put_then_get : ℕ → ℕ → List ℕ → M Exchange (Unit {0})
put_then_get slot offset bytes = do
  modify (with_buffer (put_fields slot offset bytes))
  nhacp_req_storage_put
  modify (with_buffer (request_fields slot offset (length bytes)))
  nhacp_req_storage_get

-- After a STORAGE-PUT of one to 8192 bytes to a regular file that is open, which end within the
-- largest file, a STORAGE-GET at the same offset gets those bytes, whatever short and interrupted
-- reads and writes there are: the peer is given an OK and then a DATA-BUFFER with the bytes.
pub put_then_get-bytes :
    (slot offset b : ℕ) (bytes : List ℕ) (f : StextFile) (content : List ℕ) (e : Exchange)
    → Serves slot f content e
    → length (b ∷ bytes) ≤ 8192
    → offset + length (b ∷ bytes) ≤ max_fileio_length
    → let crclen : ℕ = nhacp_crc_len e.session.nhacp_options in
      Answered slot
        (patched f content offset (b ∷ bytes))
        (patch content offset (b ∷ bytes))
        e
        (reply_frame crclen 0x81 [] ++ reply_frame crclen 0x84 (data_payload (b ∷ bytes)))
        (put_then_get slot offset (b ∷ bytes) e)
put_then_get-bytes slot offset b bytes f content e h short inside =
    let n : ℕ = length (b ∷ bytes) in
    let f' : StextFile = patched f content offset (b ∷ bytes) in
    let content' : List ℕ = patch content offset (b ∷ bytes) in
    let crclen : ℕ = nhacp_crc_len e.session.nhacp_options in
    let put = storage_put-patch slot offset b bytes f content e h short inside in
    let get = storage_get-span slot offset n f' content' put.after put.serves short inside in
    let same = ap nhacp_crc_len put.options in
    let read_back = span-patch content offset (b ∷ bytes) in
    record {
      after = get.after;
      runs =
          bind-done nhacp_req_storage_put _ (with_buffer (put_fields slot offset (b ∷ bytes)) e) tt
            put.after put.runs
          ∙ get.runs;
      serves = get.serves;
      sent =
          get.sent
          ∙ ap₂ (λ l m. l ++ reply_frame m 0x84 (data_payload (span content' offset n))) put.sent
              same
          ∙ append_assoc e.io.sent (reply_frame crclen 0x81 []) _
          ∙ ap
              (λ l.
                e.io.sent
                ++ (reply_frame crclen 0x81 [] ++ reply_frame crclen 0x84 (data_payload l)))
              read_back;
      options = get.options ∙ put.options;
    }
