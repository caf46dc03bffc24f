-- ===== src/Retronet/Insertion.antt =====
-- FH-INSERT, from the bytes of the request to the bytes of the file.
use nabud.Prelude.{ℕ, suc, ◌+◌, ◌-◌, ◌^◌, ◌≤◌, ◌<◌, ◌≡◌, refl, sym, ap, ap₂, ◌∙◌, arith}
use nabud.Prelude.{List, ◌∷◌, false, ◌==◌, leb, ltb, some, inl, inr, length}
use nabud.Prelude.{Bool-cases, if◌then◌else◌, Option, not, ◌||◌}
use mathlib.Core.Path.{subst}
use nabud.Prelude.Monad.{M, Outcome, done, pure}
use nabud.ConnIo.{RecvEvent}
use nabud.ConnIo.Recv.{bytes_then}
use nabud.Stext.{StextFile, fileio, ok}
use nabud.Stext.Files.{max_fileio_length, patch, first_rounds, later_rounds, stext_file_pwrite}
use nabud.Stext.Transfer.{first-Calm, later-Calm}
use nabud.Stext.RoundTrip.{pwrite-patch}
use nabud.Retronet.{RnExchange, with_file, with_transfers, get32, get16}
use nabud.Retronet.Transfers.{pwrite_file, on_data}
use nabud.Retronet.Shift.{
  Ended, insert_loop, insert_found, insert_into, shifted_up, rn_req_fh_insert, not_allowed,
}
use nabud.Retronet.Inserting.{Raised, Raising, insert_loop-Raised}
use nabud.Retronet.Patches.{inserted, patch-inserted, raised-inserted, drop-all}
use nabud.Retronet.Requests.{
  Ready, holding, Became, received, on_request-run, range_request, range_request-size,
  range_request-fields, changed-Ready, transfers-Ready, received-Ready, size-run,
}

record Inserted (slot : ℕ) (f : StextFile) (content : List ℕ) (e : RnExchange)
    (o : Outcome (Unit {0} × RnExchange)) : Type 0 where
  after : RnExchange
  runs : o ≡ done (tt, after)
  ready : Ready slot (holding f content) content after
  same_io : after.io ≡ e.io

-- A write to the file.
written :
    (slot offset b : ℕ) (bytes content result : List ℕ) (f : StextFile) (e : RnExchange)
    → Ready slot f content e
    → offset + length (b ∷ bytes) ≤ max_fileio_length
    → patch content offset (b ∷ bytes) ≡ result
    → Inserted slot f result e (pwrite_file f offset (b ∷ bytes) e)
written slot offset b bytes content result f e h fits same =
    let e1 : RnExchange = with_transfers (later_rounds e.system.transfers) e in
    let calm = later-Calm e.system.transfers h.calm in
    record {
      after = with_file f.slot (fileio result) e1;
      runs =
          ap
            (λ k. done (
              tt,
              with_file f.slot
                  (stext_file_pwrite (first_rounds e.system.transfers) k offset (b ∷ bytes)).1 e1,
            ))
            h.live
          ∙ ap (λ r. done (tt, with_file f.slot r.1 e1))
              (pwrite-patch (first_rounds e.system.transfers) content offset b bytes
                (first-Calm e.system.transfers h.calm) fits)
          ∙ ap (λ l. done (tt, with_file f.slot (fileio l) e1)) same;
      ready =
          changed-Ready slot f content result e1
            (transfers-Ready slot f content (later_rounds e.system.transfers) e h calm);
      same_io = refl;
    }

module _ (slot offset b : ℕ) (bytes content : List ℕ) (f : StextFile) (e : RnExchange)
    (h : Ready slot f content e) where
  -- The loop has made room, and the bytes are written.
  room_made :
      (r : Option Ended)
      → Raised content offset (offset + length (b ∷ bytes)) r
      → offset ≤ length content
      → offset + length (b ∷ bytes) ≤ max_fileio_length
      → Inserted slot f
          (inserted content offset (b ∷ bytes))
          e
          (shifted_up f offset (b ∷ bytes) r e)
  room_made r m inside fits =
      let e1 : RnExchange = with_file f.slot (fileio m.bytes) e in
      let e2 : RnExchange = with_transfers m.transfers e1 in
      let h2 : Ready slot (holding f m.bytes) m.bytes e2 =
        transfers-Ready slot (holding f m.bytes) m.bytes m.transfers e1
          (changed-Ready slot f content m.bytes e h) m.calm in
      let w =
        written slot offset b bytes m.bytes (inserted content offset (b ∷ bytes))
          (holding f m.bytes) e2 h2 fits
          (raised-inserted content m.bytes offset (b ∷ bytes) inside m.as_long m.before m.behind) in
      record {
        after = w.after;
        runs = ap (λ r. shifted_up f offset (b ∷ bytes) r e) m.ends ∙ w.runs;
        ready = w.ready;
        same_io = w.same_io;
      }

  before_loop :
      (resid : ℕ)
      → resid ≡ length content - offset
      → offset ≤ length content
      → length content + length (b ∷ bytes) ≤ max_fileio_length
      → Raising content content e.system.transfers offset (offset + length (b ∷ bytes)) resid
  before_loop resid resid_is inside fits = record {
    calm = h.calm;
    inside = omega arith;
    as_long = omega arith;
    fits = omega arith;
    upwards = omega arith;
    before = refl;
    behind =
        drop-all content (offset + length (b ∷ bytes) + resid) (omega arith)
        ∙ sym (drop-all content (offset + resid) (omega arith));
  }

  loop_raises :
      (len : ℕ)
      → len ≡ length (b ∷ bytes)
      → offset < length content
      → length content + length (b ∷ bytes) ≤ max_fileio_length
      → Raised content offset (offset + length (b ∷ bytes)) (
          insert_loop e.system.stale_bytes
            (suc (length content))
            (f.backing, e.system.transfers)
            (length content - offset)
            (length content)
            (length content + len))
  loop_raises len e_len inside fits =
      let resid : ℕ = length content - offset in
      let loop = insert_loop e.system.stale_bytes (suc (length content)) in
      let Goal = Raised content offset (offset + length (b ∷ bytes)) in
      let m =
        insert_loop-Raised e.system.stale_bytes (suc (length content)) resid offset
          (offset + length (b ∷ bytes)) content content e.system.transfers
          (before_loop resid refl (omega arith) fits) (omega arith) in
      subst Goal
        (ap₂ (loop (fileio content, e.system.transfers) resid) (omega arith) (omega arith)
          ∙ ap (λ k. loop (k, e.system.transfers) resid (length content) (length content + len))
              (sym h.live))
        m

  into_size :
      (len : ℕ)
      → len ≡ length (b ∷ bytes)
      → length content + length (b ∷ bytes) ≤ max_fileio_length
      → offset + length (b ∷ bytes) ≤ max_fileio_length
      → Inserted slot f
          (inserted content offset (b ∷ bytes))
          e
          (insert_into f offset len (b ∷ bytes) (ok (length content)) e)
  into_size len e_len fits in_offset = elim (Bool-cases (leb (length content) offset)) [
    | inl beyond ↦ rw beyond (
        written slot offset b bytes content _ f e h in_offset
          (patch-inserted content offset (b ∷ bytes) (ground arith)))
    | inr inside ↦
        let before : offset < length content = ground arith in
        let small : ltb (2 ^ 32 - 1) (length content + len) ≡ false = ground arith in
        let allowed : not_allowed e.system.malloc_ok (length content + len) ≡ false =
          ap₂ (λ m t. not m || t) h.memory small in
        let loop =
          insert_loop e.system.stale_bytes (suc (length content)) (f.backing, e.system.transfers)
            (length content - offset) (length content) (length content + len) in
        rw inside (
          subst
            (λ t.
              Inserted slot f (inserted content offset (b ∷ bytes)) e
                ((if t then pure tt else shifted_up f offset (b ∷ bytes) loop) e))
            (sym allowed)
            (room_made loop (loop_raises len e_len before fits) (omega arith) in_offset))
  ]

  found_inserted :
      (len : ℕ)
      → len ≡ length (b ∷ bytes)
      → length content + length (b ∷ bytes) ≤ max_fileio_length
      → offset + length (b ∷ bytes) ≤ max_fileio_length
      → Inserted slot f
          (inserted content offset (b ∷ bytes))
          e
          (insert_found (some f) offset len (b ∷ bytes) e)
  found_inserted len e_len fits in_offset =
      let positive : (len == 0) ≡ false = ground arith in
      rw positive (
        subst
          (λ size.
            Inserted slot f (inserted content offset (b ∷ bytes)) e
              (insert_into f offset len (b ∷ bytes) size e))
          (sym (size-run slot f content e h)) (into_size len e_len fits in_offset))

on_data-run :
    (len b : ℕ) (bytes : List ℕ) (es : List RecvEvent) (e : RnExchange)
    (handle : List ℕ → M RnExchange (Unit {0}))
    → length (b ∷ bytes) ≡ len
    → e.io.recvs ≡ bytes_then (b ∷ bytes) es
    → on_data len handle e ≡ handle (b ∷ bytes) (received es e)
on_data-run len b bytes es e handle e_len h = on_request-run len b bytes es e handle e_len h

-- FH-INSERT of one or more bytes into a file of the system that is open at the slot asked for: if the
-- request and its data come, the result is not longer than the largest file, and no transfer fails,
-- then the file has its old bytes before the offset, zeros up to the offset where it ended earlier,
-- the new bytes, and then its old bytes from the offset on.
pub fh_insert-inserts :
    (slot offset b : ℕ) (bytes content : List ℕ) (f : StextFile) (es : List RecvEvent)
    (e : RnExchange)
    → Ready slot f content e
    → length (b ∷ bytes) < 2 ^ 16
    → length content + length (b ∷ bytes) ≤ max_fileio_length
    → offset + length (b ∷ bytes) ≤ max_fileio_length
    → e.io.recvs
      ≡ bytes_then (range_request slot offset (length (b ∷ bytes))) (bytes_then (b ∷ bytes) es)
    → Became slot f (inserted content offset (b ∷ bytes)) es e (rn_req_fh_insert e)
unfolding rn_req_fh_insert
fh_insert-inserts slot offset b bytes content f es e h short fits in_offset arrives =
    let n : ℕ = length (b ∷ bytes) in
    let req : List ℕ = range_request slot offset n in
    let (at_offset, at_len) = range_request-fields slot offset n (omega arith) short in
    let e1 : RnExchange = received (bytes_then (b ∷ bytes) es) e in
    let e2 : RnExchange = received es e in
    let d =
      found_inserted slot offset b bytes content f e2 (received-Ready slot f content es e h) n refl
        fits in_offset in
    record {
      after = d.after;
      runs =
          on_request-run 7 slot _ (bytes_then (b ∷ bytes) es) e _ (range_request-size slot offset n)
            arrives
          ∙ ap (λ found. on_data (get16 5 req) (insert_found found (get32 1 req) (get16 5 req)) e1)
              h.found
          ∙ ap₂ (λ o l. on_data l (insert_found (some f) o l) e1) at_offset at_len
          ∙ on_data-run n b bytes es e1 _ refl refl
          ∙ d.runs;
      ready = d.ready;
      input = d.same_io;
    }
