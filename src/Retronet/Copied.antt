-- ===== src/Retronet/Copied.antt =====
-- What FILE-COPY leaves at its destination.
use nabud.Prelude.{ℕ, zero, suc, ◌+◌, ◌≤◌, ◌<◌, ◌≡◌, refl, sym, ap, ◌∙◌, arith, min}
use nabud.Prelude.{
  List, [], ◌∷◌, ◌++◌, length, take, drop, append-nil, append_assoc, take-append-drop,
}
use nabud.Prelude.{length-take, length-drop, some, length-append, Bool}
use nabud.Prelude.Monad.{done}
use nabud.Stext.Files.{Round, short, interrupted, failed, patch, first_rounds, later_rounds}
use nabud.Stext.Open.{opened}
use nabud.Stext.RoundTrip.{patch-patch}
use nabud.Retronet.{RnExchange, write_file, with_transfers}
use nabud.Retronet.Moves.{called}
use nabud.Retronet.Shift.{copy_bufsize, iolen_of}
use nabud.Retronet.Patches.{take-all}
use nabud.Retronet.Copy.{copy_loop, copy_read, copy_ended, copy_files, moved, complete}

-- No call fails, and every second one, a write, moves all that it is given.
abbrev pub WritesWhole : List Round → Type 0
WritesWhole [] = Unit
WritesWhole (short n ∷ []) = Unit
WritesWhole (short n ∷ short k ∷ rounds) = (copy_bufsize ≤ suc k) × WritesWhole rounds
WritesWhole (short n ∷ interrupted ∷ rounds) = ⊥
WritesWhole (short n ∷ failed e ∷ rounds) = ⊥
WritesWhole (interrupted ∷ rounds) = ⊥
WritesWhole (failed e ∷ rounds) = ⊥

-- A read of a buffer's size, or of the rest: it moves something if there is something.
abbrev Moves : List Round → ℕ → Type 0
Moves rounds len =
    (n : ℕ) × (moved rounds (iolen_of len) ≡ some n)
    × (n ≤ len)
    × (n ≤ copy_bufsize)
    × ((n ≡ 0) → len ≡ 0)

iolen_of-bounds :
    (len : ℕ)
    → (iolen_of len ≤ len) × (iolen_of len ≤ copy_bufsize) × ((iolen_of len ≡ 0) → len ≡ 0)
iolen_of-bounds len = (ground arith, ground arith, λ e. ground arith)

read-Moves : (rounds : List Round) (len : ℕ) → WritesWhole rounds → Moves rounds len
read-Moves [] len h = let (a, b, c) = iolen_of-bounds len in (iolen_of len, refl, a, b, c)
read-Moves (short n ∷ rounds) len h =
    let (a, b, c) = iolen_of-bounds len in
    (min (suc n) (iolen_of len), refl, omega arith, omega arith, λ e. c (omega arith))
read-Moves (interrupted ∷ rounds) len h = absurd h
read-Moves (failed e ∷ rounds) len h = absurd h

write-whole :
    (rounds : List Round) (n : ℕ)
    → WritesWhole rounds
    → n ≤ copy_bufsize
    → (moved (drop 1 rounds) n ≡ some n) × WritesWhole (drop 2 rounds)
write-whole [] n h k = (refl, tt)
write-whole (short m ∷ []) n h k = (refl, tt)
write-whole (short m ∷ short j ∷ rounds) n (big, h) k = (ap {A = ℕ} (λ x. some x) (omega arith), h)
write-whole (short m ∷ interrupted ∷ rounds) n h k = absurd h
write-whole (short m ∷ failed e ∷ rounds) n h k = absurd h
write-whole (interrupted ∷ rounds) n h k = absurd h
write-whole (failed e ∷ rounds) n h k = absurd h

-- With what has been written so far, the copy is completed by what is left of the source.
abbrev Completes : ℕ → List ℕ → Type 0
Completes fuel content =
    (rounds : List Round) (source written : List ℕ) (pos : ℕ)
    → length source < fuel
    → WritesWhole rounds
    → pos ≡ length written
    → copy_loop fuel rounds source (patch content 0 written) pos
      ≡ some (complete (patch content 0 (written ++ source)))

after_read-Completes :
    (fuel : ℕ) (content : List ℕ) (rounds : List Round) (source written : List ℕ) (pos n : ℕ)
    → Completes fuel content
    → length source < suc fuel
    → WritesWhole rounds
    → pos ≡ length written
    → n ≤ length source
    → n ≤ copy_bufsize
    → ((n ≡ 0) → length source ≡ 0)
    → copy_read
        (λ n c p. copy_loop fuel (drop 2 rounds) (drop n source) c p)
        (drop 1 rounds)
        source
        (patch content 0 written)
        pos
        (some n)
      ≡ some (complete (patch content 0 (written ++ source)))
after_read-Completes fuel content rounds source written pos zero again h w e within buffered
      nothing =
    let none_left : length source ≤ 0 = omega (arith, nothing refl) in
    ap (λ l. some (complete (patch content 0 l)))
      (sym (append-nil written) ∙ ap (λ l. written ++ l) (take-all source 0 none_left))
after_read-Completes fuel content rounds source written pos (suc n) again h w e within buffered
      nothing =
    let (whole, rest) = write-whole rounds (suc n) w buffered in
    let bytes = take (suc n) source in
    let same = take-all bytes (suc n) (omega (arith, length-take (suc n) source)) in
    rw whole (
      ap (λ c. copy_loop fuel (drop 2 rounds) (drop (suc n) source) c (pos + suc n))
        (ap (patch (patch content 0 written) pos) same
          ∙ patch-patch content written bytes 0 pos (omega arith))
      ∙ again (drop 2 rounds) (drop (suc n) source) (written ++ bytes) (pos + suc n)
          (omega (arith, length-drop (suc n) source)) rest
          (omega (arith, length-append written bytes, length-take (suc n) source))
      ∙ ap (λ l. some (complete (patch content 0 l)))
          (append_assoc written bytes (drop (suc n) source)
            ∙ ap (λ l. written ++ l) (take-append-drop (suc n) source)))

copy_loop-Completes : (fuel : ℕ) (content : List ℕ) → Completes fuel content
unfolding copy_loop
copy_loop-Completes zero content rounds source written pos h w e = absurd (omega arith)
copy_loop-Completes (suc fuel) content rounds source written pos h w e =
    let (n, moves, within, buffered, nothing) = read-Moves rounds (length source) w in
    let again = copy_loop-Completes fuel content in
    rw moves (
      after_read-Completes fuel content rounds source written pos n again h w e within buffered
        nothing)

-- FILE-COPY from a file that can be opened to one that can be opened for writing: if no read and no
-- write fails and every write is whole, the destination has the bytes of the source, and behind them,
-- where it was longer, its old bytes.
pub copy_files-overwrites :
    (path source content : List ℕ) (size size' : ℕ) (seekable seekable' : Bool) (e : RnExchange)
    → WritesWhole (first_rounds e.system.transfers)
    → copy_files path (opened source size seekable) (opened content size' seekable') e
      ≡ done (
        tt,
        called
            (some (write_file path (source ++ drop (length source) content)))
            (with_transfers (later_rounds e.system.transfers) e),
      )
unfolding patch copy_loop
copy_files-overwrites path source content size size' seekable seekable' e h =
    ap (λ o. copy_ended path o (with_transfers (later_rounds e.system.transfers) e))
      (copy_loop-Completes (suc (length source)) content (first_rounds e.system.transfers) source []
        0 (omega arith) h refl)
