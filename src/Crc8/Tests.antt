-- ===== src/Crc8/Tests.antt =====
-- Runs of the CRC-8 on concrete buffers.
use nabud.Prelude.{◌≡◌, List, ℕ, [], ◌∷◌, refl}
use nabud.Crc8.{crc8_crctab_at, crc8_cdma2000_init, crc8_cdma2000_update}

abbrev bytes : List ℕ
bytes = 0xaf ∷ 0x00 ∷ 0x8f ∷ []

-- The check value of CRC-8/CDMA2000 over "123456789".
check_value :
    crc8_cdma2000_update
      (0x31 ∷ 0x32 ∷ 0x33 ∷ 0x34 ∷ 0x35 ∷ 0x36 ∷ 0x37 ∷ 0x38 ∷ 0x39 ∷ [])
      crc8_cdma2000_init
    ≡ 0xda
unfolding crc8_cdma2000_update crc8_crctab_at
check_value = refl
