-- ===== src/Nhacp/Memory.antt =====
-- What a buffer holds after bytes have been stored in it.
use nabud.Prelude.{
  ℕ, zero, suc, ◌+◌, ◌-◌, ◌≤◌, ◌<◌, ◌≡◌, refl, ap, ap₂, ◌∙◌, arith, List, [], ◌∷◌, ◌++◌, get_or,
  ltb,
}
use nabud.Prelude.{true, false, length}
use nabud.Nhacp.{Buffer, store, fetch}

pub store-before : (o i : ℕ) (xs : List ℕ) (buf : Buffer) → i < o → store o xs buf i ≡ buf i
unfolding store
store-before o i xs buf h = let below : ltb i o ≡ true = ground arith in rw below refl

pub store-at :
    (o i k : ℕ) (xs : List ℕ) (buf : Buffer) → i ≡ o + k → store o xs buf i ≡ get_or xs k (buf i)
unfolding store
store-at o i k xs buf h =
    let above : ltb i o ≡ false = ground arith in
    let index : i - o ≡ k = omega arith in rw (above, index) refl

pub get_or-beyond : (xs : List ℕ) (k d : ℕ) → length xs ≤ k → get_or xs k d ≡ d
get_or-beyond [] k d h = refl
get_or-beyond (x ∷ xs) zero d h = absurd (omega arith)
get_or-beyond (x ∷ xs) (suc k) d h = get_or-beyond xs k d (omega arith)

pub fetch-ext :
    (n o : ℕ) (b c : Buffer) → ((i : ℕ) → o ≤ i → i < o + n → b i ≡ c i) → fetch o n b ≡ fetch o n c
unfolding fetch
fetch-ext zero o b c h = refl
fetch-ext (suc n) o b c h =
    ap₂ (λ x xs. x ∷ xs) (h o (omega arith) (omega arith))
      (fetch-ext n (o + 1) b c (λ i k l. h i (omega arith) (omega arith)))

-- Bytes stored before or behind a part leave it.
pub fetch-store_behind :
    (n o p : ℕ) (xs : List ℕ) (buf : Buffer)
    → o + n ≤ p
    → fetch o n (store p xs buf) ≡ fetch o n buf
fetch-store_behind n o p xs buf h =
    fetch-ext n o (store p xs buf) buf (λ i k l. store-before p i xs buf (omega arith))

pub fetch-store_before :
    (n o p : ℕ) (xs : List ℕ) (buf : Buffer)
    → p + length xs ≤ o
    → fetch o n (store p xs buf) ≡ fetch o n buf
fetch-store_before n o p xs buf h = fetch-ext n o (store p xs buf) buf (λ i k l.
    store-at p i (i - p) xs buf (omega arith) ∙ get_or-beyond xs (i - p) (buf i) (omega arith))

fetch-listed :
    (xs : List ℕ) (o : ℕ) (b : Buffer)
    → ((k : ℕ) → k < length xs → b (o + k) ≡ get_or xs k 0)
    → fetch o (length xs) b ≡ xs
unfolding fetch
fetch-listed [] o b h = refl
fetch-listed (x ∷ xs) o b h =
    ap₂ (λ y ys. y ∷ ys) (ap b (omega arith) ∙ h 0 (omega arith))
      (fetch-listed xs (o + 1) b (λ k l. ap b (omega arith) ∙ h (suc k) (omega arith)))

get_or-inside : (xs : List ℕ) (k d e : ℕ) → k < length xs → get_or xs k d ≡ get_or xs k e
get_or-inside [] k d e h = absurd (omega arith)
get_or-inside (x ∷ xs) zero d e h = refl
get_or-inside (x ∷ xs) (suc k) d e h = get_or-inside xs k d e (omega arith)

-- The bytes stored are there.
pub fetch-store :
    (n o : ℕ) (xs : List ℕ) (buf : Buffer) → n ≡ length xs → fetch o n (store o xs buf) ≡ xs
fetch-store n o xs buf h =
    ap (λ m. fetch o m (store o xs buf)) h
    ∙ fetch-listed xs o (store o xs buf)
        (λ k l. store-at o (o + k) k xs buf refl ∙ get_or-inside xs k (buf (o + k)) 0 l)

pub fetch-split : (m n o : ℕ) (b : Buffer) → fetch o (m + n) b ≡ fetch o m b ++ fetch (o + m) n b
unfolding fetch
fetch-split zero n o b = ap₂ (λ k m. fetch k m b) (omega arith) (omega arith)
fetch-split (suc m) n o b =
    let whole : suc m + n ≡ suc (m + n) = omega arith in
    let behind : o + 1 + m ≡ o + suc m = omega arith in
    ap (λ k. fetch o k b) whole
    ∙ ap (λ l. b o ∷ l)
        (fetch-split m n (o + 1) b ∙ ap (λ k. fetch (o + 1) m b ++ fetch k n b) behind)

pub length-fetch : (n o : ℕ) (b : Buffer) → length (fetch o n b) ≡ n
unfolding fetch
length-fetch zero o b = refl
length-fetch (suc n) o b = ap suc (length-fetch n (o + 1) b)
