-- ===== src/Retronet/Deleting.antt =====
-- The loop of FH-DELETE-RANGE moves what follows the range to the place of the range.
use nabud.Prelude.{ℕ, zero, suc, ◌+◌, ◌-◌, ◌%◌, ◌^◌, ◌≤◌, ◌<◌, ◌≡◌, refl, sym, ap, ap₂, ◌∙◌, arith}
use nabud.Prelude.{
  List, [], ◌∷◌, ◌++◌, none, some, inl, inr, length, take, drop, append_assoc, append-nil,
}
use nabud.Stext.{ok, fileio}
use nabud.Stext.Files.{
  Round, patch, max_fileio_length, first_rounds, later_rounds, stext_file_pread,
}
use nabud.Stext.Transfer.{CalmTransfers, first-Calm, later-Calm, span, pread-span}
use nabud.Stext.RoundTrip.{pwrite-patch, List-cases, take-exact}
use nabud.Retronet.Transfers.{buffer_bytes}
use nabud.Retronet.Shift.{
  Shifting, Ended, finished, copy_bufsize, delete_loop, delete_read, delete_written, pread_now,
  pwrite_now,
}
use nabud.Retronet.Patches.{
  take-patch_through, drop-patch, length-patch_inside, drop-all, span-append, length-span,
}

-- The rounds of a read and of a write in the script.
abbrev pub next_but_one : List (List Round) → List (List Round)
next_but_one ts = later_rounds (later_rounds ts)

pub two_later-Calm : (ts : List (List Round)) → CalmTransfers ts → CalmTransfers (next_but_one ts)
two_later-Calm ts h = later-Calm (later_rounds ts) (later-Calm ts h)

pub read_now :
    (content : List ℕ) (ts : List (List Round)) (offset n : ℕ)
    → CalmTransfers ts
    → offset + n ≤ max_fileio_length
    → pread_now (fileio content, ts) offset n
      ≡ ok (span content offset n, length (span content offset n))
unfolding stext_file_pread
read_now content ts offset n h fits =
    pread-span (first_rounds ts) content offset n (first-Calm ts h) fits

pub write_now :
    (stale : ℕ → List ℕ) (content : List ℕ) (ts : List (List Round)) (offset b : ℕ) (bytes : List ℕ)
    → CalmTransfers ts
    → offset + length (b ∷ bytes) ≤ max_fileio_length
    → pwrite_now (fileio content, ts) offset (buffer_bytes (b ∷ bytes) stale (suc (length bytes)))
      ≡ (none, (fileio (patch content offset (b ∷ bytes)), later_rounds ts))
unfolding buffer_bytes
write_now stale content ts offset b bytes h fits =
    ap (pwrite_now (fileio content, ts) offset)
      (take-exact (b ∷ bytes) (stale (suc (length bytes))))
    ∙ ap (λ r. (r.0, (r.1, later_rounds ts)))
        (pwrite-patch (first_rounds ts) content offset b bytes (first-Calm ts h) fits)

-- One round leaves what is kept as it is.
kept_step :
    (content : List ℕ) (k o b : ℕ) (bytes : List ℕ)
    → o ≤ length content
    → o ≤ k
    → span content k copy_bufsize ≡ b ∷ bytes
    → let n : ℕ = length (b ∷ bytes) in
      let after : List ℕ = patch content o (b ∷ bytes) in
      take (o + n) after ++ drop (k + n) after ≡ take o content ++ drop k content
kept_step content k o b bytes in_o le e =
    let n : ℕ = length (b ∷ bytes) in
    let counted = ap length e in
    ap₂ (λ xs ys. xs ++ ys) (take-patch_through content (b ∷ bytes) o (o + n) in_o refl)
      (drop-patch content (b ∷ bytes) o (k + n) (omega arith))
    ∙ append_assoc (take o content) (b ∷ bytes) (drop (k + n) content)
    ∙ ap (λ l. take o content ++ l)
        (ap (λ l. l ++ drop (k + n) content) (sym e)
          ∙ span-append content k copy_bufsize (k + n) (omega (arith, counted)))

-- What the loop leaves: a file of the same size, of which what is kept stands at the front.
pub record Moved (content : List ℕ) (k o : ℕ) (r : nabud.Prelude.Option Ended) : Type 0 where
  pub bytes : List ℕ
  pub transfers : List (List Round)
  pub ends : r ≡ some (finished (fileio bytes, transfers))
  pub calm : CalmTransfers transfers
  pub kept : take (length content - (k - o)) bytes ≡ take o content ++ drop k content
  pub same_size : length bytes ≡ length content

module _ (stale : ℕ → List ℕ) where
  delete_ends :
      (fuel : ℕ) (content : List ℕ) (ts : List (List Round)) (k o : ℕ)
      → CalmTransfers ts
      → k + copy_bufsize ≤ max_fileio_length
      → span content k copy_bufsize ≡ []
      → delete_loop stale (suc fuel) (fileio content, ts) k o
        ≡ some (finished (fileio content, later_rounds ts))
  unfolding delete_loop
  delete_ends fuel content ts k o h fits e =
      ap
        (delete_read stale (λ s' k o. delete_loop stale fuel s' k o)
          (fileio content, later_rounds ts) k o)
        (read_now content ts k copy_bufsize h fits ∙ ap (λ l. ok (l, length l)) e)

  delete_goes_on :
      (fuel : ℕ) (content : List ℕ) (ts : List (List Round)) (k o b : ℕ) (bytes : List ℕ)
      → CalmTransfers ts
      → k + copy_bufsize ≤ max_fileio_length
      → o + length (b ∷ bytes) ≤ max_fileio_length
      → k + length (b ∷ bytes) ≤ max_fileio_length
      → span content k copy_bufsize ≡ b ∷ bytes
      → delete_loop stale (suc fuel) (fileio content, ts) k o
        ≡ delete_loop stale fuel
            (fileio (patch content o (b ∷ bytes)), next_but_one ts)
            (k + length (b ∷ bytes))
            (o + length (b ∷ bytes))
  unfolding delete_loop
  delete_goes_on fuel content ts k o b bytes h fits in_o in_k e =
      let again = λ (s' : Shifting) (k : ℕ) (o : ℕ). delete_loop stale fuel s' k o in
      ap (delete_read stale again (fileio content, later_rounds ts) k o)
        (read_now content ts k copy_bufsize h fits ∙ ap (λ l. ok (l, length l)) e)
      ∙ ap (delete_written stale again k o (length (b ∷ bytes)))
          (write_now stale content (later_rounds ts) o b bytes (later-Calm ts h) in_o)
      ∙ ap₂ (delete_loop stale fuel (fileio (patch content o (b ∷ bytes)), next_but_one ts))
          (omega arith) (omega arith)

  pub delete_loop-Moved :
      (fuel : ℕ) (content : List ℕ) (ts : List (List Round)) (k o : ℕ)
      → CalmTransfers ts
      → length content + copy_bufsize ≤ max_fileio_length
      → k ≤ length content
      → o ≤ k
      → length content - k < fuel
      → Moved content k o (delete_loop stale fuel (fileio content, ts) k o)
  delete_loop-Moved zero content ts k o h fits in_k le f = absurd (omega arith)
  delete_loop-Moved (suc fuel) content ts k o h fits in_k le f =
      let got : List ℕ = span content k copy_bufsize in
      let size = length-span content k copy_bufsize in
      elim (List-cases got) [
        | inl e ↦
            let nothing = ap length e in
            let at_end : length content ≡ k = omega (arith, size, nothing) in
            record {
              bytes = content;
              transfers = later_rounds ts;
              ends = delete_ends fuel content ts k o h (omega arith) e;
              calm = later-Calm ts h;
              kept =
                  ap (λ n. take n content) (omega arith)
                  ∙ sym (append-nil (take o content))
                  ∙ ap (λ l. take o content ++ l) (sym (drop-all content k (omega arith)));
              same_size = refl;
            }
        | inr (b, bytes, e) ↦
            let n : ℕ = length (b ∷ bytes) in
            let counted = ap length e in
            let after : List ℕ = patch content o (b ∷ bytes) in
            let len = length-patch_inside content (b ∷ bytes) o (omega (arith, size, counted)) in
            let m =
              delete_loop-Moved fuel after (next_but_one ts) (k + n) (o + n) (two_later-Calm ts h)
                (omega (arith, len)) (omega (arith, len, size, counted)) (omega arith)
                (omega (arith, len, size, counted)) in
            record {
              bytes = m.bytes;
              transfers = m.transfers;
              ends =
                  delete_goes_on fuel content ts k o b bytes h (omega arith)
                    (omega (arith, size, counted)) (omega (arith, size, counted)) e
                  ∙ m.ends;
              calm = m.calm;
              kept =
                  ap (λ n. take n m.bytes) (omega (arith, len))
                  ∙ m.kept
                  ∙ kept_step content k o b bytes (omega arith) le e;
              same_size = m.same_size ∙ len;
            }
      ]
