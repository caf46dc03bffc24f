-- ===== src/Retronet/Patches.antt =====
-- What the bytes of a file are around a write.
use nabud.Prelude.{
  ℕ, zero, suc, ◌+◌, ◌-◌, ◌≤◌, min, ◌≡◌, refl, sym, ap, ap₂, ◌∙◌, arith, List, [], ◌∷◌, ◌++◌,
}
use nabud.Prelude.{length, take, drop, length-append, length-drop, length-take}
use nabud.Stext.Files.{patch}
use nabud.Stext.Transfer.{span, drop-drop, drop-nil, take-nil}
use nabud.Stext.RoundTrip.{take-exact}

-- The first `n` bytes of a file, filled up with zeros.
unfoldable pub head : ℕ → List ℕ → List ℕ
head zero content = []
head (suc n) [] = 0 ∷ head n []
head (suc n) (c ∷ content) = c ∷ head n content

pub patch-head :
    (content : List ℕ) (offset : ℕ) (bytes : List ℕ)
    → patch content offset bytes
      ≡ head offset content ++ (bytes ++ drop (length bytes) (drop offset content))
unfolding patch head
patch-head content zero bytes = refl
patch-head [] (suc offset) bytes =
    ap (λ l. 0 ∷ l)
      (patch-head [] offset bytes
        ∙ ap (λ l. head offset [] ++ (bytes ++ drop (length bytes) l)) (drop-nil offset))
patch-head (c ∷ content) (suc offset) bytes = ap (λ l. c ∷ l) (patch-head content offset bytes)

pub take-patch :
    (content bytes : List ℕ) (offset n : ℕ)
    → n ≤ offset
    → n ≤ length content
    → take n (patch content offset bytes) ≡ take n content
unfolding patch
take-patch content bytes offset zero h k = refl
take-patch [] bytes offset (suc n) h k = absurd (omega arith)
take-patch (c ∷ content) bytes zero (suc n) h k = absurd (omega arith)
take-patch (c ∷ content) bytes (suc offset) (suc n) h k =
    ap (λ l. c ∷ l) (take-patch content bytes offset n (omega arith) (omega arith))

drop_past :
    (bytes rest : List ℕ) (n k : ℕ) → n ≡ length bytes + k → drop n (bytes ++ rest) ≡ drop k rest
drop_past [] rest n k e = ap (λ m. drop m rest) (omega arith)
drop_past (b ∷ bytes) rest zero k e = absurd (omega arith)
drop_past (b ∷ bytes) rest (suc n) k e = drop_past bytes rest n k (omega arith)

-- Behind what is written nothing changes.
pub drop-patch :
    (content bytes : List ℕ) (offset n : ℕ)
    → offset + length bytes ≤ n
    → drop n (patch content offset bytes) ≡ drop n content
unfolding patch
drop-patch content bytes zero n h =
    drop_past bytes (drop (length bytes) content) n (n - length bytes) (omega arith)
    ∙ drop-drop (length bytes) (n - length bytes) n content (omega arith)
drop-patch [] bytes (suc offset) zero h = absurd (omega arith)
drop-patch [] bytes (suc offset) (suc n) h = drop-patch [] bytes offset n (omega arith) ∙ drop-nil n
drop-patch (c ∷ content) bytes (suc offset) zero h = absurd (omega arith)
drop-patch (c ∷ content) bytes (suc offset) (suc n) h =
    drop-patch content bytes offset n (omega arith)

-- From where it is written on, the file has what is written, and then what it had.
pub drop-patch_at :
    (content bytes : List ℕ) (offset n : ℕ)
    → n ≡ offset + length bytes
    → drop offset (patch content offset bytes) ≡ bytes ++ drop n content
unfolding patch
drop-patch_at content bytes zero n e = ap (λ k. bytes ++ drop k content) (omega arith)
drop-patch_at [] bytes (suc offset) zero e = absurd (omega arith)
drop-patch_at [] bytes (suc offset) (suc n) e =
    drop-patch_at [] bytes offset n (omega arith) ∙ ap (λ l. bytes ++ l) (drop-nil n)
drop-patch_at (c ∷ content) bytes (suc offset) zero e = absurd (omega arith)
drop-patch_at (c ∷ content) bytes (suc offset) (suc n) e =
    drop-patch_at content bytes offset n (omega arith)

-- Up to where the bytes end, if they are written within the file or at its end.
pub take-patch_through :
    (content bytes : List ℕ) (offset n : ℕ)
    → offset ≤ length content
    → n ≡ offset + length bytes
    → take n (patch content offset bytes) ≡ take offset content ++ bytes
unfolding patch
take-patch_through content bytes zero n h e =
    ap (λ k. take k (bytes ++ drop (length bytes) content)) (omega arith)
    ∙ take-exact bytes (drop (length bytes) content)
take-patch_through [] bytes (suc offset) n h e = absurd (omega arith)
take-patch_through (c ∷ content) bytes (suc offset) zero h e = absurd (omega arith)
take-patch_through (c ∷ content) bytes (suc offset) (suc n) h e =
    ap (λ l. c ∷ l) (take-patch_through content bytes offset n (omega arith) (omega arith))

pub length-patch_inside :
    (content bytes : List ℕ) (offset : ℕ)
    → offset + length bytes ≤ length content
    → length (patch content offset bytes) ≡ length content
unfolding patch
length-patch_inside content bytes zero h =
    length-append bytes (drop (length bytes) content)
    ∙ omega (arith, length-drop (length bytes) content)
length-patch_inside [] bytes (suc offset) h = absurd (omega arith)
length-patch_inside (c ∷ content) bytes (suc offset) h =
    ap suc (length-patch_inside content bytes offset (omega arith))

pub length-patch_grows :
    (content bytes : List ℕ) (offset : ℕ) → length content ≤ length (patch content offset bytes)
unfolding patch
length-patch_grows content bytes zero =
    omega
      (arith, length-append bytes (drop (length bytes) content), length-drop (length bytes) content)
length-patch_grows [] bytes (suc offset) = omega arith
length-patch_grows (c ∷ content) bytes (suc offset) =
    omega (arith, length-patch_grows content bytes offset)

pub head-inside : (content : List ℕ) (n : ℕ) → n ≤ length content → head n content ≡ take n content
unfolding head
head-inside content zero h = refl
head-inside [] (suc n) h = absurd (omega arith)
head-inside (c ∷ content) (suc n) h = ap (λ l. c ∷ l) (head-inside content n (omega arith))

pub drop-all : (content : List ℕ) (n : ℕ) → length content ≤ n → drop n content ≡ []
drop-all [] n h = drop-nil n
drop-all (c ∷ content) zero h = absurd (omega arith)
drop-all (c ∷ content) (suc n) h = drop-all content n (omega arith)

pub take-all : (content : List ℕ) (n : ℕ) → length content ≤ n → take n content ≡ content
take-all [] zero h = refl
take-all [] (suc n) h = refl
take-all (c ∷ content) zero h = absurd (omega arith)
take-all (c ∷ content) (suc n) h = ap (λ l. c ∷ l) (take-all content n (omega arith))

take-rest :
    (content : List ℕ) (m n : ℕ)
    → n ≡ length (take m content)
    → take m content ++ drop n content ≡ content
take-rest content zero n e =
    let none_left : n ≡ 0 = omega arith in ap (λ k. drop k content) none_left
take-rest [] (suc m) n e = drop-nil n
take-rest (x ∷ content) (suc m) zero e = absurd (omega arith)
take-rest (x ∷ content) (suc m) (suc n) e = ap (λ l. x ∷ l) (take-rest content m n (omega arith))

-- A span, and what follows it.
pub span-append :
    (content : List ℕ) (k m n : ℕ)
    → n ≡ k + length (span content k m)
    → span content k m ++ drop n content ≡ drop k content
span-append content zero m n e = take-rest content m n (omega arith)
span-append [] (suc k) m n e = ap (λ l. l ++ drop n []) (take-nil m) ∙ drop-nil n
span-append (c ∷ content) (suc k) m zero e = absurd (omega arith)
span-append (c ∷ content) (suc k) m (suc n) e = span-append content k m n (omega arith)

pub length-span :
    (content : List ℕ) (k m : ℕ) → length (span content k m) ≡ min m (length content - k)
length-span content k m = length-take m (drop k content) ∙ ap (min m) (length-drop k content)

pub take-of_take : (xs : List ℕ) (m n : ℕ) → m ≤ n → take m xs ≡ take m (take n xs)
take-of_take xs zero n h = refl
take-of_take [] (suc m) zero h = absurd (omega arith)
take-of_take [] (suc m) (suc n) h = refl
take-of_take (x ∷ xs) (suc m) zero h = absurd (omega arith)
take-of_take (x ∷ xs) (suc m) (suc n) h = ap (λ l. x ∷ l) (take-of_take xs m n (omega arith))

span-of_take : (xs : List ℕ) (k m n : ℕ) → k + m ≤ n → span xs k m ≡ span (take n xs) k m
span-of_take xs zero m n h = take-of_take xs m n (omega arith)
span-of_take [] (suc k) m zero h = absurd (omega arith)
span-of_take [] (suc k) m (suc n) h = refl
span-of_take (x ∷ xs) (suc k) m zero h = absurd (omega arith)
span-of_take (x ∷ xs) (suc k) m (suc n) h = span-of_take xs k m n (omega arith)

-- A span before `n` shows only the first `n` bytes.
pub span-take :
    (xs ys : List ℕ) (k m n : ℕ) → k + m ≤ n → take n xs ≡ take n ys → span xs k m ≡ span ys k m
span-take xs ys k m n h e =
    span-of_take xs k m n h ∙ ap (λ l. span l k m) e ∙ sym (span-of_take ys k m n h)

-- The bytes of a file with others put in at an offset; a gap before them is filled with zeros.
abbrev pub inserted : List ℕ → ℕ → List ℕ → List ℕ
inserted content offset bytes = head offset content ++ (bytes ++ drop offset content)

-- Behind the end of the file, to insert is to write.
pub patch-inserted :
    (content : List ℕ) (offset : ℕ) (bytes : List ℕ)
    → length content ≤ offset
    → patch content offset bytes ≡ inserted content offset bytes
patch-inserted content offset bytes h =
    patch-head content offset bytes
    ∙ ap (λ l. head offset content ++ (bytes ++ l))
        (ap (drop (length bytes)) (drop-all content offset h)
          ∙ drop-all [] (length bytes) (omega arith)
          ∙ sym (drop-all content offset h))

-- What the last write makes of a file whose bytes behind the offset have been moved up.
pub raised-inserted :
    (content file : List ℕ) (offset : ℕ) (bytes : List ℕ)
    → offset ≤ length content
    → length content ≤ length file
    → take offset file ≡ take offset content
    → drop (offset + length bytes) file ≡ drop offset content
    → patch file offset bytes ≡ inserted content offset bytes
raised-inserted content file offset bytes inside long before behind =
    patch-head file offset bytes
    ∙ ap₂ (λ xs ys. xs ++ (bytes ++ ys))
        (head-inside file offset (omega arith) ∙ before ∙ sym (head-inside content offset inside))
        (drop-drop offset (length bytes) (offset + length bytes) file refl ∙ behind)
