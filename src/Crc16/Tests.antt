-- ===== src/Crc16/Tests.antt =====
-- Runs of the CRC-16 on concrete buffers.
use nabud.Prelude.{arith, ◌≡◌, List, ℕ, [], ◌∷◌, refl}
use nabud.Crc16.{
  crc16_genibus_init, crc16_genibus_update, crc16_genibus_fini, crc16_genibus_round,
  crc16_crctab_at,
}
use nabud.Crc16.Serial.{crc16_serial, update-eq-serial16}
use nabud.Crc16.Residue.{append_crc, packet_residue}

abbrev bytes : List ℕ
bytes = 0xaf ∷ 0x00 ∷ 0x8f ∷ []

-- The check value of CRC-16/GENIBUS over "123456789".
check_value :
    crc16_genibus_fini (
      crc16_genibus_update
        (0x31 ∷ 0x32 ∷ 0x33 ∷ 0x34 ∷ 0x35 ∷ 0x36 ∷ 0x37 ∷ 0x38 ∷ 0x39 ∷ [])
        crc16_genibus_init)
    ≡ 0xd64e
unfolding crc16_genibus_update crc16_genibus_round crc16_crctab_at
check_value = refl

update-eq-serial16_example : crc16_genibus_update bytes 0xffff ≡ crc16_serial bytes 0xffff
update-eq-serial16_example =
    update-eq-serial16 bytes 0xffff (omega arith, (omega arith, (omega arith, tt))) (omega arith)

packet_residue_example :
    crc16_genibus_update
      (append_crc bytes (crc16_genibus_fini (crc16_genibus_update bytes crc16_genibus_init)))
      crc16_genibus_init
    ≡ 0x1d0f
packet_residue_example = packet_residue bytes (omega arith, (omega arith, (omega arith, tt)))
