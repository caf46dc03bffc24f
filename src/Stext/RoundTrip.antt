-- ===== src/Stext/RoundTrip.antt =====
-- What has been written to a file is read back from it, and nothing else of the file changes.
use nabud.Prelude.{
  ℕ, zero, suc, ◌+◌, ◌-◌, ◌≤◌, ◌≡◌, refl, sym, arith, List, [], ◌∷◌, ◌++◌, ltb, none,
}
use nabud.Prelude.{
  ◌⊎◌, inl, inr, ap, ◌∙◌, false, length, take, drop, append_assoc, append-nil, take-append-drop,
}
use nabud.Stext.{ok, Backing, fileio}
use nabud.Stext.Files.{Round, short, interrupted, failed, max_fileio_length, patch, pwrite_loop}
use nabud.Stext.Files.{
  stext_fileop_pwrite_fileio, stext_file_pwrite, stext_file_pread, with_content,
}
use nabud.Stext.Transfer.{Calm, span, pread-span}

-- Two writes, one after the other, are one.
drop-append :
    (xs ys : List ℕ) (content : List ℕ)
    → drop (length ys) (drop (length xs) content) ≡ drop (length (xs ++ ys)) content
drop-append [] ys content = refl
drop-append (x ∷ xs) [] [] = refl
drop-append (x ∷ xs) (y ∷ ys) [] = refl
drop-append (x ∷ xs) ys (c ∷ content) = drop-append xs ys content

-- Written at the front of what an earlier write left behind itself.
patch-behind :
    (xs ys rest : List ℕ) (k : ℕ)
    → k ≡ length xs
    → patch (xs ++ rest) k ys ≡ xs ++ (ys ++ drop (length ys) rest)
unfolding patch
patch-behind [] ys rest zero e = refl
patch-behind [] ys rest (suc k) e = absurd (omega arith)
patch-behind (x ∷ xs) ys rest zero e = absurd (omega arith)
patch-behind (x ∷ xs) ys rest (suc k) e = ap (λ l. x ∷ l) (patch-behind xs ys rest k (omega arith))

pub patch-patch :
    (content xs ys : List ℕ) (offset k : ℕ)
    → k ≡ offset + length xs
    → patch (patch content offset xs) k ys ≡ patch content offset (xs ++ ys)
unfolding patch
patch-patch content xs ys zero k e =
    patch-behind xs ys (drop (length xs) content) k (omega arith)
    ∙ sym (append_assoc xs ys (drop (length ys) (drop (length xs) content)))
    ∙ ap (λ l. (xs ++ ys) ++ l) (drop-append xs ys content)
patch-patch content xs ys (suc offset) zero e = absurd (omega arith)
patch-patch [] xs ys (suc offset) (suc k) e =
    ap (λ l. 0 ∷ l) (patch-patch [] xs ys offset k (omega arith))
patch-patch (c ∷ content) xs ys (suc offset) (suc k) e =
    ap (λ l. c ∷ l) (patch-patch content xs ys offset k (omega arith))

pwrite_loop-nothing :
    (es : List Round) (content : List ℕ) (offset : ℕ)
    → pwrite_loop es content offset [] ≡ (none, content)
unfolding pwrite_loop
pwrite_loop-nothing [] content offset = refl
pwrite_loop-nothing (short n ∷ es) content offset = refl
pwrite_loop-nothing (interrupted ∷ es) content offset = refl
pwrite_loop-nothing (failed e ∷ es) content offset = refl

pub List-cases : (l : List ℕ) → (l ≡ []) ⊎ ((x : ℕ) × (xs : List ℕ) × (l ≡ x ∷ xs))
List-cases [] = inl refl
List-cases (x ∷ xs) = inr (x, xs, refl)

pwrite_loop-patch :
    (es : List Round) (content : List ℕ) (offset b : ℕ) (bytes : List ℕ)
    → Calm es
    → pwrite_loop es content offset (b ∷ bytes) ≡ (none, patch content offset (b ∷ bytes))
unfolding pwrite_loop
pwrite_loop-patch [] content offset b bytes h = refl
pwrite_loop-patch (interrupted ∷ es) content offset b bytes h =
    pwrite_loop-patch es content offset b bytes h
pwrite_loop-patch (failed e ∷ es) content offset b bytes h = absurd h
pwrite_loop-patch (short n ∷ es) content offset b bytes h =
    let now : List ℕ = b ∷ take n bytes in
    let k : ℕ = offset + length now in
    let whole = ap (λ l. b ∷ l) (take-append-drop n bytes) in
    elim (List-cases (drop n bytes)) [
      | inl none_left ↦
          ap (pwrite_loop es (patch content offset now) k) none_left
          ∙ pwrite_loop-nothing es (patch content offset now) k
          ∙ ap (λ l. (none, patch content offset l))
              (sym (append-nil now) ∙ ap (λ l. now ++ l) (sym none_left) ∙ whole)
      | inr (x, xs, some_left) ↦
          ap (pwrite_loop es (patch content offset now) k) some_left
          ∙ pwrite_loop-patch es (patch content offset now) k x xs h
          ∙ ap (λ l. (none, l)) (patch-patch content now (x ∷ xs) offset k refl)
          ∙ ap (λ l. (none, patch content offset l)) (ap (λ l. now ++ l) (sym some_left) ∙ whole)
    ]

pub take-exact : (xs rest : List ℕ) → take (length xs) (xs ++ rest) ≡ xs
take-exact [] rest = refl
take-exact (x ∷ xs) rest = ap (λ l. x ∷ l) (take-exact xs rest)

pub span-patch :
    (content : List ℕ) (offset : ℕ) (bytes : List ℕ)
    → span (patch content offset bytes) offset (length bytes) ≡ bytes
unfolding patch
span-patch content zero bytes = take-exact bytes (drop (length bytes) content)
span-patch [] (suc offset) bytes = span-patch [] offset bytes
span-patch (c ∷ content) (suc offset) bytes = span-patch content offset bytes

-- A write that fits puts the bytes into the file, in however many rounds.
pub pwrite-patch :
    (es : List Round) (content : List ℕ) (offset b : ℕ) (bytes : List ℕ)
    → Calm es
    → offset + length (b ∷ bytes) ≤ max_fileio_length
    → stext_file_pwrite es (fileio content) offset (b ∷ bytes)
      ≡ (none, fileio (patch content offset (b ∷ bytes)))
unfolding stext_file_pwrite stext_fileop_pwrite_fileio
pwrite-patch es content offset b bytes h fits =
    let inside : ltb (max_fileio_length - offset) (length (b ∷ bytes)) ≡ false = ground arith in
    rw inside (ap with_content (pwrite_loop-patch es content offset b bytes h))

-- Bytes that are not empty, written to a file of the system within its first 2 ^ 32 - 1 bytes, are
-- read back at their offset, whatever the file held before and whatever rounds the two transfers
-- take, so long as none fails.
pub pwrite-pread :
    (es fs : List Round) (content : List ℕ) (offset b : ℕ) (bytes : List ℕ)
    → Calm es
    → Calm fs
    → offset + length (b ∷ bytes) ≤ max_fileio_length
    → (file : Backing) × (stext_file_pwrite es (fileio content) offset (b ∷ bytes) ≡ (none, file))
      × (stext_file_pread fs file offset (length (b ∷ bytes)) ≡ ok (b ∷ bytes, length (b ∷ bytes)))
unfolding stext_file_pread
pwrite-pread es fs content offset b bytes h k fits =
    let after : List ℕ = patch content offset (b ∷ bytes) in
    (
      fileio after,
      pwrite-patch es content offset b bytes h fits,
      pread-span fs after offset (length (b ∷ bytes)) k fits
          ∙ ap (λ l. ok (l, length l)) (span-patch content offset (b ∷ bytes)),
    )
