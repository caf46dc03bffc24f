-- ===== src/Crc16/Serial.antt =====
-- The table-driven CRC-16 is the bit-serial one: division by x^16 + x^12 + x^5 + 1 (0x1021).
use nabud.Prelude.{ℕ, zero, suc, List, [], ◌∷◌, ◌+◌, ◌*◌, ◌/◌, ◌%◌, ◌^◌, ◌<◌}
use nabud.Prelude.{◌≡◌, refl, ap, ap₂, ◌∙◌, sym, arith, bit_xor}
use nabud.Prelude.Bits.{bit_xor-lt, bit_xor_parts, bit_xor_comm, bit_xor_assoc, zero-bit_xor}
use nabud.Prelude.Bits.{bit_xor_self, bit_xor-zero, bit_xor_step}
use nabud.Prelude.Word.{All, IsByte, agree_below, agree_below→eq}
use nabud.Crc16.{crc16_crctab_at, crc16_genibus_round, crc16_genibus_update}

-- Shift a register of 16 bits, and subtract the polynomial if a one falls out.
abbrev pub crc16_shift : ℕ → ℕ
crc16_shift r = bit_xor (r * 2 % 2 ^ 16) (r / 2 ^ 15 * 0x1021)

unfoldable pub crc16_shifts : ℕ → ℕ → ℕ
crc16_shifts zero r = r
crc16_shifts (suc n) r = crc16_shifts n (crc16_shift r)

unfoldable pub crc16_serial : List ℕ → ℕ → ℕ
crc16_serial [] r = r
crc16_serial (b ∷ buf) r = crc16_serial buf (crc16_shifts 8 (bit_xor r (b * 256)))

crctab-shifts : (i : ℕ) → i < 256 → crc16_crctab_at i ≡ crc16_shifts 8 (i * 256)
unfolding agree_below crc16_crctab_at crc16_shifts
crctab-shifts = agree_below→eq _ _ 256 refl

low_shifts : (i : ℕ) → i < 256 → crc16_shifts 8 i ≡ i * 256
unfolding agree_below crc16_shifts
low_shifts = agree_below→eq _ _ 256 refl

crctab-mod : (i : ℕ) → i < 256 → crc16_crctab_at i % 2 ^ 16 ≡ crc16_crctab_at i
unfolding agree_below crc16_crctab_at
crctab-mod = agree_below→eq _ _ 256 refl

pub crctab-lt : (i : ℕ) → i < 256 → crc16_crctab_at i < 2 ^ 16
crctab-lt i h = omega (arith, crctab-mod i h)

zero_mul : (p : ℕ) → 0 * p ≡ 0
zero_mul p = omega arith

one_mul : (p : ℕ) → 1 * p ≡ p
one_mul p = omega arith

-- One shift is linear over exclusive or.
xor_digit-mul : (q s p : ℕ) → q < 2 → s < 2 → bit_xor q s * p ≡ bit_xor (q * p) (s * p)
xor_digit-mul zero zero p hq hs = omega arith ∙ sym (bit_xor_self (0 * p))
xor_digit-mul zero (suc zero) p hq hs =
    omega (arith, ap₂ bit_xor (zero_mul p) (one_mul p), zero-bit_xor p)
xor_digit-mul zero (suc (suc s)) p hq hs = absurd (omega arith)
xor_digit-mul (suc zero) zero p hq hs =
    omega (arith, ap₂ bit_xor (one_mul p) (zero_mul p), bit_xor-zero p)
xor_digit-mul (suc zero) (suc zero) p hq hs = omega (arith, bit_xor_self (1 * p))
xor_digit-mul (suc zero) (suc (suc s)) p hq hs = absurd (omega arith)
xor_digit-mul (suc (suc q)) s p hq hs = absurd (omega arith)

top_half :
    (x y : ℕ)
    → bit_xor x y ≡ bit_xor (x / 2 ^ 15) (y / 2 ^ 15) * 2 ^ 15 + bit_xor (x % 2 ^ 15) (y % 2 ^ 15)
top_half x y =
    ap₂ bit_xor (omega arith) (omega arith)
    ∙ bit_xor_parts 15 (x / 2 ^ 15) (x % 2 ^ 15) (y / 2 ^ 15) (y % 2 ^ 15) (omega arith)
        (omega arith)

-- The cross terms of two exclusive ors of two.
xor_exchange :
    (a b c d : ℕ) → bit_xor (bit_xor a b) (bit_xor c d) ≡ bit_xor (bit_xor a c) (bit_xor b d)
xor_exchange a b c d =
    bit_xor_assoc a b (bit_xor c d)
    ∙ ap (bit_xor a)
        (sym (bit_xor_assoc b c d) ∙ ap (λ t. bit_xor t d) (bit_xor_comm b c) ∙ bit_xor_assoc c b d)
    ∙ sym (bit_xor_assoc a c (bit_xor b d))

shift_low : (x y : ℕ) → bit_xor x y * 2 % 2 ^ 16 ≡ bit_xor (x * 2 % 2 ^ 16) (y * 2 % 2 ^ 16)
shift_low x y = omega (
  arith,
  top_half x y,
  bit_xor-lt 15 (x % 2 ^ 15) (y % 2 ^ 15) (omega arith) (omega arith),
  bit_xor_step (x * 2 % 2 ^ 16) (y * 2 % 2 ^ 16),
  ap₂ bit_xor (half_of x) (half_of y),
)
  where
    half_of : (z : ℕ) → z * 2 % 2 ^ 16 / 2 ≡ z % 2 ^ 15
    half_of z = omega arith

shift_top : (x y : ℕ) → bit_xor x y / 2 ^ 15 ≡ bit_xor (x / 2 ^ 15) (y / 2 ^ 15)
shift_top x y =
    omega (arith, top_half x y, bit_xor-lt 15 (x % 2 ^ 15) (y % 2 ^ 15) (omega arith) (omega arith))

shift-xor :
    (x y : ℕ)
    → x < 2 ^ 16
    → y < 2 ^ 16
    → crc16_shift (bit_xor x y) ≡ bit_xor (crc16_shift x) (crc16_shift y)
shift-xor x y hx hy =
    ap₂ bit_xor (shift_low x y) (
      ap (λ (t : ℕ). t * 0x1021) (shift_top x y)
      ∙ xor_digit-mul (x / 2 ^ 15) (y / 2 ^ 15) 0x1021 (omega arith) (omega arith))
    ∙ xor_exchange (x * 2 % 2 ^ 16) (y * 2 % 2 ^ 16) (x / 2 ^ 15 * 0x1021) (y / 2 ^ 15 * 0x1021)

shift-lt : (x : ℕ) → x < 2 ^ 16 → crc16_shift x < 2 ^ 16
shift-lt x h = bit_xor-lt 16 (x * 2 % 2 ^ 16) (x / 2 ^ 15 * 0x1021) (omega arith) (omega arith)

shifts-xor :
    (n x y : ℕ)
    → x < 2 ^ 16
    → y < 2 ^ 16
    → crc16_shifts n (bit_xor x y) ≡ bit_xor (crc16_shifts n x) (crc16_shifts n y)
unfolding crc16_shifts
shifts-xor zero x y hx hy = refl
shifts-xor (suc n) x y hx hy =
    ap (crc16_shifts n) (shift-xor x y hx hy)
    ∙ shifts-xor n (crc16_shift x) (crc16_shift y) (shift-lt x hx) (shift-lt y hy)

-- Parts that share no digit add up.
xor_apart : (x lo : ℕ) → lo < 256 → bit_xor lo (x * 256) ≡ x * 256 + lo
xor_apart x lo h =
    ap₂ bit_xor (omega arith) (omega arith)
    ∙ bit_xor_parts 8 0 lo x 0 h (omega arith)
    ∙ omega (arith, zero-bit_xor x, bit_xor-zero lo)

byte_on_top : (hi lo b : ℕ) → lo < 256 → bit_xor (hi * 256 + lo) (b * 256) ≡ bit_xor hi b * 256 + lo
byte_on_top hi lo b hl =
    ap (bit_xor (hi * 256 + lo)) (omega arith)
    ∙ bit_xor_parts 8 hi lo b 0 hl (omega arith)
    ∙ omega (arith, bit_xor-zero lo)

-- One round of the loop shifts the register, with the byte added at its top, eight times.
-- `hi` and `lo` are the bytes of the register.
round_bytes :
    (hi lo b : ℕ)
    → hi < 256
    → lo < 256
    → b < 256
    → crc16_shifts 8 (bit_xor (hi * 256 + lo) (b * 256))
      ≡ bit_xor (lo * 256) (crc16_crctab_at (bit_xor hi b))
round_bytes hi lo b hh hl hb =
    let small = bit_xor-lt 8 hi b hh hb in
    ap (crc16_shifts 8) (byte_on_top hi lo b hl ∙ sym (xor_apart (bit_xor hi b) lo hl))
    ∙ shifts-xor 8 lo (bit_xor hi b * 256) (omega arith) (omega (arith, small))
    ∙ ap₂ bit_xor (low_shifts lo hl) (sym (crctab-shifts _ small))

pub round-shifts :
    (crc b : ℕ)
    → crc < 2 ^ 16
    → b < 256
    → crc16_genibus_round crc b ≡ crc16_shifts 8 (bit_xor crc (b * 256))
unfolding crc16_genibus_round
round-shifts crc b hc hb =
    ap₂ bit_xor (omega arith)
      (ap crc16_crctab_at (omega (arith, bit_xor-lt 8 (crc / 256) b (omega arith) hb)))
    ∙ sym (round_bytes (crc / 256) (crc % 256) b (omega arith) (omega arith) hb)
    ∙ ap (λ t. crc16_shifts 8 (bit_xor t (b * 256))) (omega arith)

pub round-lt : (crc b : ℕ) → crc < 2 ^ 16 → b < 256 → crc16_genibus_round crc b < 2 ^ 16
unfolding crc16_genibus_round
round-lt crc b hc hb = bit_xor-lt 16 _ _ (omega arith) (crctab-lt _ (omega arith))

-- On a buffer of bytes and a register of 16 bits, the table-driven loop computes the bit-serial
-- remainder by the polynomial 0x1021.
pub update-eq-serial16 :
    (buf : List ℕ) (crc : ℕ)
    → All IsByte buf
    → crc < 2 ^ 16
    → crc16_genibus_update buf crc ≡ crc16_serial buf crc
unfolding crc16_genibus_update crc16_serial
update-eq-serial16 [] crc h hc = refl
update-eq-serial16 (b ∷ buf) crc h hc =
    update-eq-serial16 buf _ h.1 (round-lt crc b hc h.0)
    ∙ ap (crc16_serial buf) (round-shifts crc b hc h.0)
