-- ===== src/Retronet/Deletion.antt =====
-- FH-DELETE-RANGE, from the bytes of the request to the bytes of the file.
use nabud.Prelude.{ℕ, suc, ◌+◌, ◌-◌, ◌%◌, ◌^◌, ◌≤◌, ◌<◌, ◌≡◌, refl, sym, ap, ap₂, ◌∙◌, arith}
use nabud.Prelude.{List, [], ◌++◌, false, ◌==◌, leb, ltb, none, some, inl, inr, length}
use nabud.Prelude.{take, drop, append-nil, take-append-drop, Bool-cases}
use nabud.Prelude.{Option}
use mathlib.Core.Path.{subst}
use nabud.Prelude.Monad.{Outcome, done}
use nabud.ConnIo.{RecvEvent}
use nabud.ConnIo.Recv.{bytes_then}
use nabud.Stext.{StextFile, fileio, ok}
use nabud.Stext.Files.{max_fileio_length, zeros, stext_file_truncate}
use nabud.Retronet.{RnExchange, with_file, with_transfers, get32, get16}
use nabud.Retronet.Shift.{
  Ended, copy_bufsize, delete_loop, delete_found, delete_from, truncate_to, shifted_down,
  rn_req_fh_delete_range,
}
use nabud.Retronet.Deleting.{Moved, delete_loop-Moved}
use nabud.Retronet.Patches.{take-all, drop-all}
use nabud.Retronet.Requests.{
  Ready, holding, Became, received, on_request-run, range_request, range_request-size,
  range_request-fields, changed-Ready, transfers-Ready, received-Ready, same-Ready, size-run,
}

no_zeros : (n : ℕ) → n ≡ 0 → zeros n ≡ []
unfolding zeros
no_zeros n e = ap zeros e

-- A file that is made shorter.
truncate-run :
    (f : StextFile) (content : List ℕ) (size : ℕ) (e : RnExchange)
    → e.system.truncate size ≡ none
    → size ≤ length content
    → size ≤ max_fileio_length
    → truncate_to f (fileio content) size e
      ≡ done (tt, with_file f.slot (fileio (take size content)) e)
unfolding stext_file_truncate
truncate-run f content size e t inside fits =
    let below : ltb max_fileio_length size ≡ false = ground arith in
    rw (t, below)
      (ap (λ l. done (tt, with_file f.slot (fileio (take size content ++ l)) e))
          (no_zeros (size - length content) (omega arith))
        ∙ ap (λ l. done (tt, with_file f.slot (fileio l) e)) (append-nil (take size content)))

-- The bytes of a file without a range.
abbrev pub without_range : List ℕ → ℕ → ℕ → List ℕ
without_range content offset len = take offset content ++ drop (offset + len) content

-- Where the handler has found the file: what it does, and what is then the state.
record Deleted (slot : ℕ) (f : StextFile) (content : List ℕ) (e : RnExchange)
    (o : Outcome (Unit {0} × RnExchange)) : Type 0 where
  after : RnExchange
  runs : o ≡ done (tt, after)
  ready : Ready slot (holding f content) content after
  same_io : after.io ≡ e.io

module _ (slot offset len : ℕ) (f : StextFile) (content : List ℕ) (e : RnExchange)
    (h : Ready slot f content e) where
  unchanged :
      (o : Outcome (Unit {0} × RnExchange))
      → o ≡ done (tt, e)
      → content ≡ without_range content offset len
      → Deleted slot f (without_range content offset len) e o
  unchanged o runs same = record {
    after = e;
    runs = runs;
    ready = same-Ready slot f content (without_range content offset len) e same h;
    same_io = refl;
  }

  -- The range reaches the end of the file.
  tail-Deleted :
      offset ≤ length content
      → length content ≤ offset + len
      → length content ≤ max_fileio_length
      → Deleted slot f (without_range content offset len) e (truncate_to f f.backing offset e)
  tail-Deleted inside at_end fits =
      let same : take offset content ≡ without_range content offset len =
        sym (append-nil (take offset content))
        ∙ ap (λ l. take offset content ++ l) (sym (drop-all content (offset + len) at_end)) in
      record {
        after = with_file f.slot (fileio (without_range content offset len)) e;
        runs =
            ap (λ b. truncate_to f b offset e) h.live
            ∙ truncate-run f content offset e (h.truncates offset) inside (omega arith)
            ∙ ap (λ l. done (tt, with_file f.slot (fileio l) e)) same;
        ready = changed-Ready slot f content (without_range content offset len) e h;
        same_io = refl;
      }

  -- The range lies within the file.
  middle-Deleted :
      (newsize : ℕ) (r : Option Ended)
      → newsize ≡ length content - (offset + len - offset)
      → Moved content (offset + len) offset r
      → length content ≤ max_fileio_length
      → Deleted slot f (without_range content offset len) e (shifted_down f newsize r e)
  middle-Deleted newsize r size m fits =
      let e1 : RnExchange = with_file f.slot (fileio m.bytes) e in
      let e2 : RnExchange = with_transfers m.transfers e1 in
      let h2 : Ready slot (holding f m.bytes) m.bytes e2 =
        transfers-Ready slot (holding f m.bytes) m.bytes m.transfers e1
          (changed-Ready slot f content m.bytes e h) m.calm in
      let kept : take newsize m.bytes ≡ without_range content offset len =
        ap (λ n. take n m.bytes) size ∙ m.kept in
      record {
        after = with_file f.slot (fileio (without_range content offset len)) e2;
        runs =
            ap (λ r. shifted_down f newsize r e) m.ends
            ∙ truncate-run f m.bytes newsize e2 (h.truncates newsize)
                (omega (arith, m.same_size, size)) (omega (arith, size, fits))
            ∙ ap (λ l. done (tt, with_file f.slot (fileio l) e2)) kept;
        ready =
            changed-Ready slot (holding f m.bytes) m.bytes (without_range content offset len) e2 h2;
        same_io = refl;
      }

  from_size :
      length content + copy_bufsize ≤ max_fileio_length
      → 0 < len
      → Deleted slot f
          (without_range content offset len)
          e
          (delete_from f offset len (ok (length content)) e)
  from_size fits positive = elim (Bool-cases (leb (length content) offset)) [
    | inl beyond ↦
        let past : length content ≤ offset = ground arith in
        unchanged _ (rw beyond refl) (
          sym (append-nil content)
          ∙ ap₂ (λ xs ys. xs ++ ys) (sym (take-all content offset past))
              (sym (drop-all content (offset + len) (omega arith))))
    | inr inside ↦ elim (Bool-cases (leb (length content - offset) len)) [
      | inl at_end ↦ rw (inside, at_end) (tail-Deleted (ground arith) (ground arith) (omega arith))
      | inr before ↦
          let more : offset + len < length content = ground arith in
          let no_wrap : (offset + len) % 2 ^ 32 ≡ offset + len = omega arith in
          let asserted : leb (offset + len) offset ≡ false = ground arith in
          rw (inside, before, no_wrap, asserted)
            (middle-Deleted _ _ (omega arith)
              (subst
                (λ b. Moved content (offset + len) offset (
                  delete_loop e.system.stale_bytes (suc (length content)) (b, e.system.transfers)
                    (offset + len) offset))
                (sym h.live)
                (delete_loop-Moved e.system.stale_bytes (suc (length content)) content
                  e.system.transfers (offset + len) offset h.calm fits (omega arith) (omega arith)
                  (omega arith)))
              (omega arith))
    ]
  ]

  found-Deleted :
      length content + copy_bufsize ≤ max_fileio_length
      → Deleted slot f (without_range content offset len) e (delete_found offset len (some f) e)
  found-Deleted fits = elim (Bool-cases (len == 0)) [
    | inl nothing ↦
        let none_deleted : offset + len ≡ offset = ground arith in
        unchanged _ (rw nothing refl) (
          sym (take-append-drop offset content)
          ∙ ap (λ n. take offset content ++ drop n content) (sym none_deleted))
    | inr some_deleted ↦
        let positive : 0 < len = ground arith in
        rw some_deleted (
          subst
            (λ size.
              Deleted slot f (without_range content offset len) e (delete_from f offset len size e))
            (sym (size-run slot f content e h)) (from_size fits positive))
  ]

-- FH-DELETE-RANGE of a file of the system that is open at the slot asked for, and not longer than
-- 2 ^ 32 - 65536 bytes: if the request comes and no transfer fails, the file loses the bytes from
-- the offset on, as many as asked for or as there are, and keeps all others in order.
pub fh_delete_range-removes :
    (slot offset len : ℕ) (f : StextFile) (content : List ℕ) (es : List RecvEvent) (e : RnExchange)
    → Ready slot f content e
    → offset < 2 ^ 32
    → len < 2 ^ 16
    → length content + copy_bufsize ≤ max_fileio_length
    → e.io.recvs ≡ bytes_then (range_request slot offset len) es
    → Became slot f (without_range content offset len) es e (rn_req_fh_delete_range e)
unfolding rn_req_fh_delete_range
fh_delete_range-removes slot offset len f content es e h in_offset in_len fits arrives =
    let (at_offset, at_len) = range_request-fields slot offset len in_offset in_len in
    let e1 : RnExchange = received es e in
    let d =
      found-Deleted slot offset len f content e1 (received-Ready slot f content es e h) fits in
    record {
      after = d.after;
      runs =
          on_request-run 7 slot _ es e _ (range_request-size slot offset len) arrives
          ∙ ap
              (λ found.
                delete_found (get32 1 (range_request slot offset len))
                  (get16 5 (range_request slot offset len)) found e1)
              h.found
          ∙ ap₂ (λ o l. delete_found o l (some f) e1) at_offset at_len
          ∙ d.runs;
      ready = d.ready;
      input = d.same_io;
    }
