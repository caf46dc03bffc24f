-- ===== src/Crc8/Serial.antt =====
-- The table-driven CRC-8 is the bit-serial one: division by x^8 + x^7 + x^4 + x^3 + x + 1 (0x9b).
use nabud.Prelude.{ℕ, List, [], ◌∷◌, ◌*◌, ◌/◌, ◌%◌, ◌<◌, ◌≡◌, refl, ap, ◌∙◌, arith, bit_xor}
use nabud.Prelude.Bits.{bit_xor-lt}
use nabud.Prelude.Word.{All, IsByte, agree_below, agree_below→eq}
use nabud.Crc8.{crc8_crctab_at, crc8_cdma2000_update}

-- Shift a register of 8 bits, and subtract the polynomial if a one falls out.
abbrev pub crc8_shift : ℕ → ℕ
crc8_shift r = bit_xor (r * 2 % 256) (r / 128 * 0x9b)

abbrev pub crc8_shifts : ℕ → ℕ
crc8_shifts r =
    crc8_shift
      (crc8_shift (crc8_shift (crc8_shift (crc8_shift (crc8_shift (crc8_shift (crc8_shift r)))))))

unfoldable pub crc8_serial : List ℕ → ℕ → ℕ
crc8_serial [] r = r
crc8_serial (b ∷ buf) r = crc8_serial buf (crc8_shifts (bit_xor r b))

pub crctab-shifts : (i : ℕ) → i < 256 → crc8_crctab_at i ≡ crc8_shifts i
unfolding agree_below crc8_crctab_at
crctab-shifts = agree_below→eq _ _ 256 refl

crctab-lt : (i : ℕ) → i < 256 → crc8_crctab_at i % 256 ≡ crc8_crctab_at i
unfolding agree_below crc8_crctab_at
crctab-lt = agree_below→eq _ _ 256 refl

pub crctab_byte : (i : ℕ) → i < 256 → crc8_crctab_at i < 256
crctab_byte i h = omega (arith, crctab-lt i h)

-- The register stays a byte.
pub update-lt : (buf : List ℕ) (r : ℕ) → All IsByte buf → r < 256 → crc8_cdma2000_update buf r < 256
unfolding crc8_cdma2000_update
update-lt [] r h hr = hr
update-lt (b ∷ buf) r h hr = update-lt buf _ h.1 (crctab_byte _ (bit_xor-lt 8 r b hr h.0))

-- On a buffer of bytes and a register of 8 bits, the table-driven loop computes the bit-serial
-- remainder by the polynomial 0x9b.
pub update-eq-serial :
    (buf : List ℕ) (r : ℕ)
    → All IsByte buf
    → r < 256
    → crc8_cdma2000_update buf r ≡ crc8_serial buf r
unfolding crc8_cdma2000_update crc8_serial
update-eq-serial [] r h hr = refl
update-eq-serial (b ∷ buf) r h hr =
    let hx : bit_xor r b < 256 = bit_xor-lt 8 r b hr h.0 in
    update-eq-serial buf _ h.1 (crctab_byte _ hx) ∙ ap (crc8_serial buf) (crctab-shifts _ hx)
