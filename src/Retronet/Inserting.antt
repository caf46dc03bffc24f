-- ===== src/Retronet/Inserting.antt =====
-- The loop of FH-INSERT moves what follows the place of the insertion up, from the end of the file on.
use nabud.Prelude.{ℕ, zero, suc, ◌+◌, ◌-◌, ◌%◌, ◌^◌, ◌≤◌, ◌<◌, ◌≡◌, refl, sym, ap, ap₂, ◌∙◌, arith}
use nabud.Prelude.{List, ◌∷◌, ◌++◌, some, inl, inr, length, take, drop, Option}
use mathlib.Core.Path.{subst}
use nabud.Stext.{ok, fileio}
use nabud.Stext.Files.{Round, patch, max_fileio_length, later_rounds}
use nabud.Stext.Transfer.{CalmTransfers, later-Calm, span}
use nabud.Stext.RoundTrip.{List-cases}
use nabud.Retronet.Shift.{
  Shifting, Ended, finished, copy_bufsize, insert_loop, insert_read, insert_written, iolen_of,
  pread_now,
}
use nabud.Retronet.Patches.{
  take-patch, take-of_take, drop-patch_at, length-patch_grows, span-append, length-span, span-take,
}
use nabud.Retronet.Deleting.{next_but_one, two_later-Calm, read_now, write_now}

-- How the loop ends: before `offset` the file has its old bytes, and those behind from `w` on.
pub record Raised (content : List ℕ) (offset w : ℕ) (r : Option Ended) : Type 0 where
  pub bytes : List ℕ
  pub transfers : List (List Round)
  pub ends : r ≡ some (finished (fileio bytes, transfers))
  pub calm : CalmTransfers transfers
  pub before : take offset bytes ≡ take offset content
  pub behind : drop w bytes ≡ drop offset content
  pub as_long : length content ≤ length bytes

-- The state of the loop with `resid` bytes to go: the bytes up to there are the old ones, and those
-- behind have been moved up.
pub record Raising (content file : List ℕ) (ts : List (List Round)) (offset w resid : ℕ)
    : Type 0 where
  pub calm : CalmTransfers ts
  pub inside : offset + resid ≤ length content
  pub as_long : length content ≤ length file
  pub fits : w + resid ≤ max_fileio_length
  pub upwards : offset ≤ w
  pub before : take (offset + resid) file ≡ take (offset + resid) content
  pub behind : drop (w + resid) file ≡ drop (offset + resid) content

module _ (stale : ℕ → List ℕ) where
  -- One round: `n` bytes before `r + n` are moved to `w`.
  insert_goes_on :
      (fuel resid r w b : ℕ) (content bytes : List ℕ) (ts : List (List Round))
      → let n : ℕ = iolen_of (suc resid) in
        CalmTransfers ts
        → r + n ≤ max_fileio_length
        → w + n ≤ max_fileio_length
        → span content r n ≡ b ∷ bytes
        → length (b ∷ bytes) ≡ n
        → insert_loop stale (suc fuel) (fileio content, ts) (suc resid) (r + n) (w + n)
          ≡ insert_loop stale fuel
              (fileio (patch content w (b ∷ bytes)), next_but_one ts)
              (suc resid - n)
              r
              w
  unfolding insert_loop
  insert_goes_on fuel resid r w b content bytes ts h in_r in_w e len =
      let n : ℕ = iolen_of (suc resid) in
      let least : n ≤ copy_bufsize = ground arith in
      let r_is : (r + n + 2 ^ 32 - n) % 2 ^ 32 ≡ r = omega arith in
      let w_is : (w + n + 2 ^ 32 - n) % 2 ^ 32 ≡ w = omega arith in
      let again = λ (m : ℕ) (s : Shifting). insert_loop stale fuel s (suc resid - m) r w in
      ap₂
        (λ r w.
          insert_read stale (λ m s. insert_loop stale fuel s (suc resid - m) r w)
            (fileio content, later_rounds ts) w (pread_now (fileio content, ts) r n))
        r_is w_is
      ∙ ap (insert_read stale again (fileio content, later_rounds ts) w)
          (read_now content ts r n h in_r ∙ ap (λ l. ok (l, length l)) e)
      ∙ ap (insert_written stale (again (length (b ∷ bytes)))) (
          write_now stale content (later_rounds ts) w b bytes (later-Calm ts h)
            (omega (arith, len)))
      ∙ ap
          (λ m.
            insert_loop stale fuel (fileio (patch content w (b ∷ bytes)), next_but_one ts)
              (suc resid - m) r w)
          len

  -- A round of `n` bytes.
  raised_once :
      (content file : List ℕ) (ts : List (List Round)) (offset w resid n : ℕ)
      → Raising content file ts offset w (resid + n)
      → Raising content
          (patch file (w + resid) (span file (offset + resid) n))
          (next_but_one ts)
          offset
          w
          resid
  raised_once content file ts offset w resid n h =
      let r : ℕ = offset + resid in
      let got : List ℕ = span file r n in
      let same : take (r + n) file ≡ take (r + n) content =
        ap (λ k. take k file) (omega arith) ∙ h.before ∙ ap (λ k. take k content) (omega arith) in
      let size = length-span file r n in
      let all_read : length got ≡ n = omega (arith, size, h.inside, h.as_long) in
      record {
        calm = two_later-Calm ts h.calm;
        inside = omega (arith, h.inside);
        as_long = omega (arith, length-patch_grows file got (w + resid), h.as_long);
        fits = omega (arith, h.fits);
        upwards = h.upwards;
        before =
            take-patch file got (w + resid) r (omega (arith, h.upwards))
              (omega (arith, h.inside, h.as_long))
            ∙ take-of_take file r (r + n) (omega arith)
            ∙ ap (take r) same
            ∙ sym (take-of_take content r (r + n) (omega arith));
        behind =
            drop-patch_at file got (w + resid) (w + (resid + n)) (omega (arith, all_read))
            ∙ ap₂ (λ xs ys. xs ++ ys) (span-take file content r n (r + n) (omega arith) same)
                h.behind
            ∙ span-append content r n (offset + (resid + n))
                (omega (arith, length-span content r n, h.inside));
      }

  pub insert_loop-Raised :
      (fuel resid offset w : ℕ) (content file : List ℕ) (ts : List (List Round))
      → Raising content file ts offset w resid
      → resid < fuel
      → Raised content offset w
          (insert_loop stale fuel (fileio file, ts) resid (offset + resid) (w + resid))
  unfolding insert_loop
  insert_loop-Raised zero resid offset w content file ts h f = absurd (omega arith)
  insert_loop-Raised (suc fuel) zero offset w content file ts h f = record {
    bytes = file;
    transfers = ts;
    ends = refl;
    calm = h.calm;
    before =
        ap (λ k. take k file) (omega arith) ∙ h.before ∙ ap (λ k. take k content) (omega arith);
    behind =
        ap (λ k. drop k file) (omega arith) ∙ h.behind ∙ ap (λ k. drop k content) (omega arith);
    as_long = h.as_long;
  }
  insert_loop-Raised (suc fuel) (suc resid) offset w content file ts h f =
      let n : ℕ = iolen_of (suc resid) in
      let some_left : 0 < n = ground arith in
      let no_more : n ≤ suc resid = ground arith in
      let rest : ℕ = suc resid - n in
      let split : suc resid ≡ rest + n = omega (arith, some_left, no_more) in
      let got : List ℕ = span file (offset + rest) n in
      let size = length-span file (offset + rest) n in
      let all_read : length got ≡ n = omega (arith, size, h.inside, h.as_long, split) in
      let m =
        insert_loop-Raised fuel rest offset w content (patch file (w + rest) got) (next_but_one ts)
          (raised_once content file ts offset w rest n
            (subst (λ k. Raising content file ts offset w k) split h))
          (omega (arith, some_left)) in
      elim (List-cases got) [
        | inl e ↦ absurd (omega (arith, ap length e, all_read, some_left))
        | inr (b, bytes, e) ↦ record {
          bytes = m.bytes;
          transfers = m.transfers;
          ends =
              ap₂ (insert_loop stale (suc fuel) (fileio file, ts) (suc resid))
                (omega (arith, split)) (omega (arith, split))
              ∙ insert_goes_on fuel resid (offset + rest) (w + rest) b file bytes ts h.calm
                  (omega (arith, split, h.fits, h.upwards)) (omega (arith, split, h.fits)) e
                  (sym (ap length e) ∙ all_read)
              ∙ ap
                  (λ l.
                    insert_loop stale fuel (fileio (patch file (w + rest) l), next_but_one ts) rest
                      (offset + rest) (w + rest))
                  (sym e)
              ∙ m.ends;
          calm = m.calm;
          before = m.before;
          behind = m.behind;
          as_long = m.as_long;
        }
      ]
