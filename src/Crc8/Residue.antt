-- ===== src/Crc8/Residue.antt =====
-- What the receiver of a frame relies on: a frame that ends in its own CRC-8 has remainder 0.
use nabud.Prelude.{ℕ, List, [], ◌∷◌, ◌++◌, ◌≡◌, refl, ap, ◌∙◌, bit_xor}
use nabud.Prelude.Bits.{bit_xor_self}
use nabud.Crc8.{crc8_crctab_at, crc8_cdma2000_update, crc8_cdma2000_fini, crc8_cdma2000_init}

-- A buffer may be checked in pieces, as `nhacp_request_check` does.
pub update-append :
    (front back : List ℕ) (r : ℕ)
    → crc8_cdma2000_update (front ++ back) r
      ≡ crc8_cdma2000_update back (crc8_cdma2000_update front r)
unfolding crc8_cdma2000_update
update-append [] back r = refl
update-append (b ∷ front) back r = update-append front back (crc8_crctab_at (bit_xor r b))

crctab-zero : crc8_crctab_at 0 ≡ 0
unfolding crc8_crctab_at
crctab-zero = refl

last_step : (r : ℕ) → crc8_cdma2000_update (r ∷ []) r ≡ 0
unfolding crc8_cdma2000_update
last_step r = ap crc8_crctab_at (bit_xor_self r) ∙ crctab-zero

-- For every buffer, appending the CRC-8 computed over it gives a buffer whose CRC-8 is 0.
pub crc_residue :
    (buf : List ℕ)
    → crc8_cdma2000_update
        (buf ++ (crc8_cdma2000_fini (crc8_cdma2000_update buf crc8_cdma2000_init) ∷ []))
        crc8_cdma2000_init
      ≡ 0
crc_residue buf = update-append buf _ crc8_cdma2000_init ∙ last_step _
