-- ===== src/Prelude/Bits/Fields.antt =====
-- `|` of disjoint fields and `&` with a mask, as arithmetic, at every width.
use nabud.Prelude.Bits.Digits.{enough_fuel}
use Prim.Native.Nat.{ℕ, zero, suc, ◌+◌, ◌*◌, ◌/◌, ◌%◌, ◌^◌, ◌-◌, ◌≤◌, ◌<◌, min, max}
use Prim.Native.Nat.{bit_and, bit_or, bit_and-bitwise, bit_or-bitwise}
use mathlib.Core.Path.{◌≡◌, refl, ap, ap₂, ◌∙◌}
use native.Mathlib.Nat.{pow-suc, one-le-pow}
use native.Mathlib.Omega.{arith}

-- The law of the lowest digit: digits are joined by the greater, or by the lesser, of two.
bit_and_step : (x y : ℕ) → bit_and x y ≡ min (x % 2) (y % 2) + 2 * bit_and (x / 2) (y / 2)
bit_and_step zero y = simp bit_and-bitwise (omega arith)
bit_and_step (suc x) y =
    let fuel = enough_fuel (λ _. 0) min x (suc x / 2) (y / 2) (omega arith) in
    simp bit_and-bitwise (omega (arith, fuel))

bit_or_step : (x y : ℕ) → bit_or x y ≡ max (x % 2) (y % 2) + 2 * bit_or (x / 2) (y / 2)
bit_or_step zero y = simp bit_or-bitwise (omega arith)
bit_or_step (suc x) y =
    let fuel = enough_fuel (λ n. n) max x (suc x / 2) (y / 2) (omega arith) in
    simp bit_or-bitwise (omega (arith, fuel))

or-zero_below : (n a : ℕ) → a ≤ n → bit_or a 0 ≡ a
or-zero_below n zero h = refl
or-zero_below zero (suc a) h = absurd (omega arith)
or-zero_below (suc n) (suc a) h =
    omega (arith, bit_or_step (suc a) 0, or-zero_below n (suc a / 2) (omega arith))

pub bit_or-zero : (a : ℕ) → bit_or a 0 ≡ a
bit_or-zero a = or-zero_below a a (omega arith)

and-zero_below : (n a : ℕ) → a ≤ n → bit_and a 0 ≡ 0
and-zero_below n zero h = refl
and-zero_below zero (suc a) h = absurd (omega arith)
and-zero_below (suc n) (suc a) h =
    omega (arith, bit_and_step (suc a) 0, and-zero_below n (suc a / 2) (omega arith))

pub bit_and-zero : (a : ℕ) → bit_and a 0 ≡ 0
bit_and-zero a = and-zero_below a a (omega arith)

or_comm_below : (n a b : ℕ) → a + b ≤ n → bit_or a b ≡ bit_or b a
or_comm_below zero zero zero h = refl
or_comm_below zero zero (suc b) h = absurd (omega arith)
or_comm_below zero (suc a) b h = absurd (omega arith)
or_comm_below (suc n) zero zero h = refl
or_comm_below (suc n) zero (suc b) h = omega (
  arith,
  bit_or_step 0 (suc b),
  bit_or_step (suc b) 0,
  or_comm_below n 0 (suc b / 2) (omega arith),
)
or_comm_below (suc n) (suc a) b h = omega (
  arith,
  bit_or_step (suc a) b,
  bit_or_step b (suc a),
  or_comm_below n (suc a / 2) (b / 2) (omega arith),
)

pub bit_or_comm : (a b : ℕ) → bit_or a b ≡ bit_or b a
bit_or_comm a b = or_comm_below (a + b) a b (omega arith)

twice_pow : (q k : ℕ) → q * 2 ^ suc k ≡ 2 * (q * 2 ^ k)
twice_pow q k = omega (arith, ap (λ (t : ℕ). q * t) (pow-suc 2 k))

-- `r | (q << k)` is a sum when `r` fits `k` bits.
pub bit_or_fields : (k r q : ℕ) → r < 2 ^ k → bit_or r (q * 2 ^ k) ≡ q * 2 ^ k + r
bit_or_fields zero zero q h = omega (arith, bit_or_comm 0 (q * 2 ^ 0), bit_or-zero (q * 2 ^ 0))
bit_or_fields zero (suc r) q h = absurd (omega arith)
bit_or_fields (suc k) r q h = omega (
  arith,
  bit_or_step r (q * 2 ^ suc k),
  twice_pow q k,
  ap (bit_or (r / 2)) (half k),
  bit_or_fields k (r / 2) q (omega (arith, pow-suc 2 k)),
)
  where
    half : (k : ℕ) → q * 2 ^ suc k / 2 ≡ q * 2 ^ k
    half k = omega (arith, twice_pow q k)

half_part : (q k r : ℕ) → (q * 2 ^ suc k + r) / 2 ≡ q * 2 ^ k + r / 2
half_part q k r = omega (arith, twice_pow q k)

half_mask : (m k : ℕ) → m * 2 ^ suc k / 2 ≡ m * 2 ^ k
half_mask m k = omega (arith, twice_pow m k)

one_part : (q : ℕ) → q * 2 ^ 0 + 0 ≡ q
one_part q = omega arith

one_mask : (m : ℕ) → m * 2 ^ 0 ≡ m
one_mask m = omega arith

-- A mask whose low `k` bits are clear.
pub bit_and_high :
    (k q r m : ℕ) → r < 2 ^ k → bit_and (q * 2 ^ k + r) (m * 2 ^ k) ≡ bit_and q m * 2 ^ k
bit_and_high zero q zero m h = omega (arith, ap₂ bit_and (one_part q) (one_mask m))
bit_and_high zero q (suc r) m h = absurd (omega arith)
bit_and_high (suc k) q r m h = omega (
  arith,
  bit_and_step (q * 2 ^ suc k + r) (m * 2 ^ suc k),
  ap₂ bit_and (half_part q k r) (half_mask m k),
  twice_pow q k,
  twice_pow m k,
  twice_pow (bit_and q m) k,
  bit_and_high k q (r / 2) m (omega (arith, pow-suc 2 k)),
)

-- A mask of `k` low bits.
pub bit_and_low : (k q r : ℕ) → r < 2 ^ k → bit_and (q * 2 ^ k + r) (2 ^ k - 1) ≡ r
bit_and_low zero q zero h = bit_and-zero (q * 2 ^ 0 + 0)
bit_and_low zero q (suc r) h = absurd (omega arith)
bit_and_low (suc k) q r h = omega (
  arith,
  bit_and_step (q * 2 ^ suc k + r) (2 ^ suc k - 1),
  ap₂ bit_and (half_part q k r) (half_ones k),
  twice_pow q k,
  pow-suc 2 k,
  one-le-pow k 2,
  bit_and_low k q (r / 2) (omega (arith, pow-suc 2 k)),
)
  where
    half_ones : (k : ℕ) → (2 ^ suc k - 1) / 2 ≡ 2 ^ k - 1
    half_ones k = omega (arith, pow-suc 2 k)

-- The bytes of a 32-bit word, as its masks give them.
pub bit_and_byte : (x : ℕ) → bit_and x 0xff ≡ x % 256
bit_and_byte x =
    ap (λ t. bit_and t 0xff) (split x) ∙ bit_and_low 8 (x / 256) (x % 256) (omega arith)
  where
    split : (x : ℕ) → x ≡ x / 256 * 2 ^ 8 + x % 256
    split x = omega arith

pub bit_and_byte3 : (x : ℕ) → bit_and x 0xff00_0000 ≡ x / 2 ^ 24 % 256 * 2 ^ 24
bit_and_byte3 x =
    ap (λ t. bit_and t 0xff00_0000) (split x)
    ∙ bit_and_high 24 (x / 2 ^ 24) (x % 2 ^ 24) 0xff (omega arith)
    ∙ ap (λ (t : ℕ). t * 2 ^ 24) (bit_and_byte (x / 2 ^ 24))
  where
    split : (x : ℕ) → x ≡ x / 2 ^ 24 * 2 ^ 24 + x % 2 ^ 24
    split x = omega arith

pub bit_and_byte2 : (x : ℕ) → bit_and x 0xff_0000 ≡ x / 2 ^ 16 % 256 * 2 ^ 16
bit_and_byte2 x =
    ap (λ t. bit_and t 0xff_0000) (split x)
    ∙ bit_and_high 16 (x / 2 ^ 16) (x % 2 ^ 16) 0xff (omega arith)
    ∙ ap (λ (t : ℕ). t * 2 ^ 16) (bit_and_byte (x / 2 ^ 16))
  where
    split : (x : ℕ) → x ≡ x / 2 ^ 16 * 2 ^ 16 + x % 2 ^ 16
    split x = omega arith

pub bit_and_one : (x : ℕ) → bit_and x 1 ≡ x % 2
bit_and_one x = ap (λ t. bit_and t 1) (split x) ∙ bit_and_low 1 (x / 2) (x % 2) (omega arith)
  where
    split : (x : ℕ) → x ≡ x / 2 * 2 ^ 1 + x % 2
    split x = omega arith
