-- ===== src/Nhacp/Blocks.antt =====
-- STORAGE-GET-BLOCK: what is sent of a block that the file covers wholly, in part or not at all.
use nabud.Prelude.{
  ℕ, zero, suc, ◌+◌, ◌-◌, ◌*◌, ◌%◌, ◌^◌, ◌≤◌, ◌<◌, ◌≡◌, refl, sym, ap, ap₂, ◌∙◌, arith, List, [],
  ◌∷◌, ◌++◌,
}
use nabud.Prelude.{
  length, drop, length-take, length-append, append-nil, true, false, ltb, ◌==◌, Bool-cases, inl,
  inr,
}
use nabud.Stext.{StextFile}
use nabud.Stext.Files.{max_fileio_length}
use nabud.Stext.Transfer.{span}
use nabud.Nhacp.{Exchange, store, fetch, with_buffer, without_transfer}
use nabud.Nhacp.Memory.{fetch-store, fetch-store_behind, fetch-split}
use nabud.Nhacp.Reply.{nhacp_crc_len}
use nabud.Nhacp.Frames.{reply_frame}
use nabud.Nhacp.Files.{nhacp_req_storage_get_block, get_block, send_block, block_too_far}
use nabud.Stext.Files.{zeros}
use nabud.Nhacp.Tables.{Serves, on_file-run, limit-run, pread-run}
use nabud.Stext.Transfer.{later-Calm}
use nabud.Nhacp.Transfers.{
  request_fields, request_fields-read, Answered, data_payload, data_buffer-run,
}

-- A block of `n` bytes of which the file has those of the list: filled up with zeros, or nothing at
-- all behind the end of the file.
abbrev pub padded : ℕ → List ℕ → List ℕ
padded n [] = []
padded n (b ∷ got) = (b ∷ got) ++ zeros (n - length (b ∷ got))

length-zeros : (n : ℕ) → length (zeros n) ≡ n
unfolding zeros
length-zeros zero = refl
length-zeros (suc n) = ap suc (length-zeros n)

no_zeros : (n : ℕ) → n ≡ 0 → zeros n ≡ []
unfolding zeros
no_zeros n e = ap zeros e

-- The answer for bytes that are in the buffer already.
BlockAnswer : ℕ → StextFile → List ℕ → Exchange → ℕ → List ℕ → Type 0
BlockAnswer slot f content e n got =
    Answered slot f content e
      (reply_frame (nhacp_crc_len e.session.nhacp_options) 0x84 (data_payload (padded n got)))
      (send_block n (length got) e)

whole_block :
    (slot : ℕ) (f : StextFile) (content got : List ℕ) (b n : ℕ) (e : Exchange)
    → Serves slot f content e
    → n ≤ 8192
    → length (b ∷ got) ≡ n
    → fetch 5 (length (b ∷ got)) e.session.buffer ≡ b ∷ got
    → BlockAnswer slot f content e n (b ∷ got)
unfolding send_block BlockAnswer
whole_block slot f content got b n e h short full there =
    let some_read : (suc (length got) == 0) ≡ false = ground arith in
    let same : (suc (length got) == n) ≡ true = ground arith in
    let no_rest : padded n (b ∷ got) ≡ b ∷ got =
      ap (λ l. (b ∷ got) ++ l) (no_zeros (n - length (b ∷ got)) (omega arith))
      ∙ append-nil (b ∷ got) in
    let a = data_buffer-run slot f content (b ∷ got) e h (omega arith) there in
    record {
      after = a.after;
      runs =
          rw (some_read, same)
            (ap (λ m. nabud.Nhacp.Reply.nhacp_send_data_buffer m e) (sym full) ∙ a.runs);
      serves = a.serves;
      sent =
          a.sent
          ∙ ap
              (λ l.
                e.io.sent
                ++ reply_frame (nhacp_crc_len e.session.nhacp_options) 0x84 (data_payload l))
              (sym no_rest);
      options = a.options;
    }

short_block :
    (slot : ℕ) (f : StextFile) (content got : List ℕ) (b n : ℕ) (e : Exchange)
    → Serves slot f content e
    → n ≤ 8192
    → length (b ∷ got) < n
    → fetch 5 (length (b ∷ got)) e.session.buffer ≡ b ∷ got
    → BlockAnswer slot f content e n (b ∷ got)
unfolding send_block BlockAnswer
short_block slot f content got b n e h short less there =
    let k : ℕ = length (b ∷ got) in
    let rest : List ℕ = zeros (n - k) in
    let e1 : Exchange = with_buffer (store (5 + k) rest) e in
    let some_read : (suc (length got) == 0) ≡ false = ground arith in
    let other : (suc (length got) == n) ≡ false = ground arith in
    let below : ltb (suc (length got)) n ≡ true = ground arith in
    let size : length (padded n (b ∷ got)) ≡ n =
      length-append (b ∷ got) rest ∙ omega (arith, length-zeros (n - k)) in
    let whole : n ≡ k + (n - k) = omega arith in
    let stored : fetch 5 n e1.session.buffer ≡ padded n (b ∷ got) =
      ap (λ m. fetch 5 m e1.session.buffer) whole
      ∙ fetch-split k (n - k) 5 e1.session.buffer
      ∙ ap₂ (λ xs ys. xs ++ ys)
          (fetch-store_behind k 5 (5 + k) rest e.session.buffer (omega arith) ∙ there)
          (fetch-store (n - k) (5 + k) rest e.session.buffer (sym (length-zeros (n - k)))) in
    let h1 : Serves slot f content e1 = record {
      found = h.found;
      regular = h.regular;
      live = h.live;
      calm = h.calm;
      accepts = h.accepts;
    } in
    let a =
      data_buffer-run slot f content (padded n (b ∷ got)) e1 h1 (omega (arith, size))
        (ap (λ m. fetch 5 m e1.session.buffer) size ∙ stored) in
    record {
      after = a.after;
      runs =
          rw (some_read, other, below)
            (ap (λ m. nabud.Nhacp.Reply.nhacp_send_data_buffer m e1) (sym size) ∙ a.runs);
      serves = a.serves;
      sent = a.sent;
      options = a.options;
    }

block-Answer :
    (slot : ℕ) (f : StextFile) (content got : List ℕ) (n : ℕ) (e : Exchange)
    → Serves slot f content e
    → n ≤ 8192
    → length got ≤ n
    → fetch 5 (length got) e.session.buffer ≡ got
    → BlockAnswer slot f content e n got
unfolding send_block BlockAnswer
block-Answer slot f content [] n e h short most there =
    data_buffer-run slot f content [] e h (omega arith) there
block-Answer slot f content (b ∷ got) n e h short most there =
    elim (Bool-cases (length (b ∷ got) == n)) [
      | inl same ↦ whole_block slot f content got b n e h short (ground arith) there
      | inr other ↦ short_block slot f content got b n e h short (ground arith) there
    ]

block_near :
    (blkno blklen : ℕ)
    → blkno * blklen + blklen ≤ max_fileio_length
    → block_too_far blkno blklen ≡ false
unfolding block_too_far
block_near blkno zero h = ground arith
block_near blkno (suc n) h =
    let offset : ℕ = blkno * suc n in
    let room : (2 ^ 32 - 1 - suc n + 1) % 2 ^ 32 ≡ 2 ^ 32 - suc n = omega arith in
    rw room (ground arith)

-- A STORAGE-GET-BLOCK of a regular file that is open, of a block of at most 8192 bytes within the
-- largest file, is answered by the bytes that the file has of that block, filled up with zeros to the
-- length of the block, or by no bytes if it has none.
pub storage_get_block-padded :
    (slot blkno blklen : ℕ) (f : StextFile) (content : List ℕ) (e : Exchange)
    → Serves slot f content e
    → blkno < 2 ^ 32
    → blklen ≤ 8192
    → blkno * blklen + blklen ≤ max_fileio_length
    → Answered slot f content e
        (reply_frame
          (nhacp_crc_len e.session.nhacp_options)
          0x84
          (data_payload (padded blklen (span content (blkno * blklen) blklen))))
        (nhacp_req_storage_get_block (with_buffer (request_fields slot blkno blklen) e))
unfolding nhacp_req_storage_get_block BlockAnswer
storage_get_block-padded slot blkno blklen f content e h in_range short inside =
    let offset : ℕ = blkno * blklen in
    let got : List ℕ = span content offset blklen in
    let e0 : Exchange = with_buffer (request_fields slot blkno blklen) e in
    let e1 : Exchange = with_buffer (store 5 got) (without_transfer e0) in
    let (at_slot, at_block, at_length) =
      request_fields-read slot blkno blklen e.session.buffer in_range (omega arith) in
    let h0 : Serves slot f content e0 = record {
      found = h.found;
      regular = h.regular;
      live = h.live;
      calm = h.calm;
      accepts = h.accepts;
    } in
    let h1 : Serves slot f content e1 = record {
      found = h.found;
      regular = h.regular;
      live = h.live;
      calm = later-Calm e.system.transfers h.calm;
      accepts = h.accepts;
    } in
    let most : length got ≤ blklen = omega (arith, length-take blklen (drop offset content)) in
    let near = block_near blkno blklen inside in
    let small : offset % 2 ^ 32 ≡ offset = omega arith in
    let a =
      block-Answer slot f content got blklen e1 h1 short most
        (fetch-store (length got) 5 got _ refl) in
    record {
      after = a.after;
      runs =
          on_file-run slot f content e0 _ h0 at_slot
          ∙ ap₂ (λ o m. get_block f o m e0) at_block at_length
          ∙ rw (near, small)
              (limit-run 0x07 blklen _ e0 short
                ∙ pread-run f content offset blklen (send_block blklen) e0 h.live h.calm inside
                ∙ a.runs);
      serves = a.serves;
      sent = a.sent;
      options = a.options;
    }
