-- ===== src/Stext/Transfer.antt =====
-- Reads in rounds, of which each may be short, deliver what one read would.
use nabud.Prelude.{
  ℕ, zero, suc, ◌+◌, ◌-◌, ◌≤◌, ◌<◌, ◌≡◌, refl, sym, arith, List, [], ◌∷◌, ◌++◌, ltb, leb,
  if◌then◌else◌, min,
}
use nabud.Prelude.{
  Bool-cases, inl, inr, ap, ap₂, ◌∙◌, true, false, length, take, drop, length-take, length-append,
  length-drop, append_assoc, append-nil,
}
use nabud.Stext.{Result, ok, fileio, shadow}
use nabud.Stext.Files.{Round, short, interrupted, failed, max_fileio_length, pread_loop}
use nabud.Stext.Files.{first_rounds, later_rounds}
use nabud.Stext.Files.{stext_fileop_pread_fileio, stext_fileop_pread_shadow, stext_file_pread}

-- No call fails, though calls may be short or interrupted.
abbrev pub Calm : List Round → Type 0
Calm [] = Unit
Calm (short n ∷ es) = Calm es
Calm (interrupted ∷ es) = Calm es
Calm (failed e ∷ es) = ⊥

-- `m` bytes from `offset` on, or as many as there are.
abbrev pub span : List ℕ → ℕ → ℕ → List ℕ
span content offset m = take m (drop offset content)

pub drop-nil : (n : ℕ) → ◌≡◌ {A = List ℕ} (drop {A = ℕ} n []) []
drop-nil zero = refl
drop-nil (suc n) = refl

pub take-nil : (n : ℕ) → ◌≡◌ {A = List ℕ} (take {A = ℕ} n []) []
take-nil zero = refl
take-nil (suc n) = refl

pub drop-drop : (m n k : ℕ) (xs : List ℕ) → k ≡ m + n → drop n (drop m xs) ≡ drop k xs
drop-drop zero n k xs e = ap (λ t. drop t xs) (omega arith)
drop-drop (suc m) n zero xs e = absurd (omega arith)
drop-drop (suc m) n (suc k) [] e = drop-nil n
drop-drop (suc m) n (suc k) (x ∷ xs) e = drop-drop m n k xs (omega arith)

-- Taking a part first, and then the rest.
take-split :
    (m n k : ℕ) (xs : List ℕ)
    → m ≤ n
    → n ≡ length (take m xs) + k
    → take m xs ++ take k (drop (length (take m xs)) xs) ≡ take n xs
take-split zero n k xs h e = ap (λ t. take t xs) (omega arith)
take-split (suc m) zero k xs h e = absurd (omega arith)
take-split (suc m) (suc n) k [] h e = take-nil k
take-split (suc m) (suc n) k (x ∷ xs) h e =
    ap (λ l. x ∷ l) (take-split m n k xs (omega arith) (omega arith))

take-empty : (n : ℕ) (xs : List ℕ) → 0 < n → length (take n xs) ≡ 0 → (k : ℕ) → take k xs ≡ []
take-empty zero xs p h k = absurd (omega arith)
take-empty (suc n) [] p h k = take-nil k
take-empty (suc n) (x ∷ xs) p h k = absurd (omega arith)

-- The two parts of a span that a short read splits.
span-split :
    (content : List ℕ) (offset m resid : ℕ)
    → m ≤ resid
    → let got : ℕ = length (span content offset m) in
      span content offset m ++ span content (offset + got) (resid - got) ≡ span content offset resid
span-split content offset m resid h =
    let got : ℕ = length (span content offset m) in
    ap (λ l. span content offset m ++ take (resid - got) l)
      (sym (drop-drop offset got (offset + got) content refl))
    ∙ take-split m resid (resid - got) (drop offset content) h
        (omega (arith, length-take m (drop offset content)))

-- What a read loop is to deliver.
abbrev Delivered : List ℕ → ℕ → ℕ → List ℕ → Result (List ℕ × ℕ)
Delivered content offset resid got =
    ok (got ++ span content offset resid, resid - length (span content offset resid))

nothing_asked :
    (content : List ℕ) (offset : ℕ) (got : List ℕ) → ok (got, 0) ≡ Delivered content offset 0 got
nothing_asked content offset got = ap (λ l. ok (l, 0)) (sym (append-nil got))

-- The last round: the file ends at the offset.
at_end :
    (content : List ℕ) (offset n resid : ℕ) (got : List ℕ)
    → 0 < n
    → length (span content offset n) ≡ 0
    → ok (got, resid) ≡ Delivered content offset resid got
at_end content offset n resid got p h =
    let empty = take-empty n (drop offset content) p h resid in
    ap₂ (λ l k. ok (l, k)) (sym (append-nil got) ∙ ap (λ l. got ++ l) (sym empty))
      (omega (arith, ap length empty))

after_short :
    (content : List ℕ) (offset m resid : ℕ) (got : List ℕ)
    → m ≤ resid
    → let n : ℕ = length (span content offset m) in
      Delivered content (offset + n) (resid - n) (got ++ span content offset m)
      ≡ Delivered content offset resid got
after_short content offset m resid got h =
    let n : ℕ = length (span content offset m) in
    let whole = span-split content offset m resid h in
    ap₂ (λ l k. ok (l, k))
      (append_assoc got (span content offset m) (span content (offset + n) (resid - n))
        ∙ ap (λ l. got ++ l) whole)
      (omega (
        arith,
        ap length whole,
        length-append (span content offset m) (span content (offset + n) (resid - n)),
      ))

pread_loop-Delivered :
    (es : List Round) (content : List ℕ) (offset resid : ℕ) (got : List ℕ)
    → Calm es
    → pread_loop es content offset resid got ≡ Delivered content offset resid got
unfolding pread_loop
pread_loop-Delivered [] content offset zero got h = nothing_asked content offset got
pread_loop-Delivered (short n ∷ es) content offset zero got h = nothing_asked content offset got
pread_loop-Delivered (interrupted ∷ es) content offset zero got h = nothing_asked content offset got
pread_loop-Delivered (failed e ∷ es) content offset zero got h = absurd h
pread_loop-Delivered [] content offset (suc resid) got h = refl
pread_loop-Delivered (interrupted ∷ es) content offset (suc resid) got h =
    pread_loop-Delivered es content offset (suc resid) got h
pread_loop-Delivered (failed e ∷ es) content offset (suc resid) got h = absurd h
pread_loop-Delivered (short n ∷ es) content offset (suc resid) got h =
    let m : ℕ = min (suc n) (suc resid) in
    let bytes : List ℕ = span content offset m in
    let ih =
      pread_loop-Delivered es content (offset + length bytes) (suc resid - length bytes)
        (got ++ bytes) h in
    elim (Bool-cases (leb (length bytes) 0)) [
      | inl none_read ↦
          rw none_read (at_end content offset m (suc resid) got (omega arith) (ground arith))
      | inr some_read ↦
          rw some_read (ih ∙ after_short content offset m (suc resid) got (omega arith))
    ]

-- A read of bytes within the first 2 ^ 32 - 1 of a file, in rounds that may be short or interrupted
-- but do not fail, stores exactly the bytes that are there, and reports how many they are.
pub pread-span :
    (es : List Round) (content : List ℕ) (offset len : ℕ)
    → Calm es
    → offset + len ≤ max_fileio_length
    → stext_fileop_pread_fileio es content offset len
      ≡ ok (span content offset len, length (span content offset len))
unfolding stext_fileop_pread_fileio
pread-span es content offset len h fits =
    let inside : ltb (max_fileio_length - offset) len ≡ false = ground arith in
    rw (inside, pread_loop-Delivered es content offset len [] h)
      (ap (λ n. ok (span content offset len, n))
        (omega (arith, length-take len (drop offset content))))

-- A read that goes beyond the first 2 ^ 32 - 1 bytes is cut short there, but the length that it
-- reports is not: it exceeds the number of bytes stored by what was cut off.
pub pread_cut :
    (es : List Round) (content : List ℕ) (offset len : ℕ)
    → Calm es
    → offset ≤ max_fileio_length
    → max_fileio_length < offset + len
    → let stored : List ℕ = span content offset (max_fileio_length - offset) in
      stext_fileop_pread_fileio es content offset len
      ≡ ok (stored, length stored + (offset + len - max_fileio_length))
unfolding stext_fileop_pread_fileio
pread_cut es content offset len h inside beyond =
    let room : ℕ = max_fileio_length - offset in
    let cut : ltb room len ≡ true = ground arith in
    rw (cut, pread_loop-Delivered es content offset room [] h)
      (ap (λ n. ok (span content offset room, n))
        (omega (arith, length-take room (drop offset content))))

take-min : (n k : ℕ) (xs : List ℕ) → k ≡ min n (length xs) → take k xs ≡ take n xs
take-min zero zero xs e = refl
take-min zero (suc k) xs e = absurd (omega arith)
take-min (suc n) zero [] e = refl
take-min (suc n) (suc k) [] e = absurd (omega arith)
take-min (suc n) zero (x ∷ xs) e = absurd (omega arith)
take-min (suc n) (suc k) (x ∷ xs) e = ap (λ l. x ∷ l) (take-min n k xs (omega arith))

-- A shadow buffer and a file with the same bytes answer a read within the first 2 ^ 32 - 1 bytes
-- alike, whatever the cursor, in rounds that do not fail.
pub pread_shadow-fileio :
    (es : List Round) (content : List ℕ) (cursor offset len : ℕ)
    → Calm es
    → offset + len ≤ max_fileio_length
    → stext_file_pread es (shadow content cursor) offset len
      ≡ stext_file_pread es (fileio content) offset len
unfolding stext_file_pread stext_fileop_pread_shadow
pread_shadow-fileio es content cursor offset len h fits =
    let total : ℕ = length content in
    let n : ℕ =
      if leb total offset then 0 else if ltb (total - offset) len then total - offset else len in
    let n_least : n ≡ min len (total - offset) = ground arith in
    let there = length-drop offset content in
    ap₂ (λ l k. ok (l, k)) (take-min len n (drop offset content) (omega (arith, n_least, there)))
      (omega (arith, n_least, there, length-take len (drop offset content)))
    ∙ sym (pread-span es content offset len h fits)

-- No transfer to come fails.
abbrev pub CalmTransfers : List (List Round) → Type 0
CalmTransfers [] = Unit
CalmTransfers (es ∷ more) = Calm es × CalmTransfers more

pub first-Calm : (ts : List (List Round)) → CalmTransfers ts → Calm (first_rounds ts)
first-Calm [] h = tt
first-Calm (es ∷ ts) (h, k) = h

pub later-Calm : (ts : List (List Round)) → CalmTransfers ts → CalmTransfers (later_rounds ts)
later-Calm [] h = tt
later-Calm (es ∷ ts) (h, k) = k
