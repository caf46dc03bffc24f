-- ===== src/Crc16/Residue.antt =====
-- A packet that ends in its own CRC-16, high byte first, leaves the same remainder always.
use nabud.Prelude.{
  ℕ, List, [], ◌∷◌, ◌++◌, ◌+◌, ◌*◌, ◌/◌, ◌%◌, ◌^◌, ◌<◌, ◌≡◌, refl, ap, ap₂, ◌∙◌, sym, arith,
  bit_xor,
}
use nabud.Prelude.Bits.{
  bit_xor-lt, bit_xor_self, bit_xor_comm, bit_xor_assoc, zero-bit_xor, bit_xor_parts,
}
use nabud.Prelude.Word.{All, IsByte}
use nabud.Crc16.{
  crc16_crctab_at, crc16_genibus_round, crc16_genibus_update, crc16_genibus_fini,
  crc16_genibus_init,
}
use nabud.Crc16.Serial.{round-lt}

pub update-append16 :
    (front back : List ℕ) (r : ℕ)
    → crc16_genibus_update (front ++ back) r
      ≡ crc16_genibus_update back (crc16_genibus_update front r)
unfolding crc16_genibus_update
update-append16 [] back r = refl
update-append16 (b ∷ front) back r = update-append16 front back (crc16_genibus_round r b)

pub update-lt16 :
    (buf : List ℕ) (r : ℕ) → All IsByte buf → r < 2 ^ 16 → crc16_genibus_update buf r < 2 ^ 16
unfolding crc16_genibus_update
update-lt16 [] r h hr = hr
update-lt16 (b ∷ buf) r h hr = update-lt16 buf _ h.1 (round-lt r b hr h.0)

-- What is taken twice cancels.
cancel : (a b : ℕ) → bit_xor a (bit_xor a b) ≡ b
cancel a b = sym (bit_xor_assoc a a b) ∙ ap (λ t. bit_xor t b) (bit_xor_self a) ∙ zero-bit_xor b

fini_bytes :
    (r : ℕ) → r < 2 ^ 16 → bit_xor r 0xffff ≡ bit_xor (r / 256) 0xff * 256 + bit_xor (r % 256) 0xff
fini_bytes r h =
    ap (λ t. bit_xor t 0xffff) (omega arith)
    ∙ bit_xor_parts 8 (r / 256) (r % 256) 0xff 0xff (omega arith) (omega arith)

fini-lt : (r : ℕ) → r < 256 → bit_xor r 0xff < 256
fini-lt r h = bit_xor-lt 8 r 0xff h (omega arith)

high_byte : (r : ℕ) → r < 2 ^ 16 → bit_xor r 0xffff / 256 ≡ bit_xor (r / 256) 0xff
high_byte r h = omega (arith, fini_bytes r h, fini-lt (r % 256) (omega arith))

low_byte : (r : ℕ) → r < 2 ^ 16 → bit_xor r 0xffff % 256 ≡ bit_xor (r % 256) 0xff
low_byte r h = omega (arith, fini_bytes r h, fini-lt (r % 256) (omega arith))

-- The round of the high byte leaves the low byte of the register, moved up.
high_round :
    (r : ℕ)
    → r < 2 ^ 16
    → crc16_genibus_round r (bit_xor (r / 256) 0xff) ≡ bit_xor (r % 256) 0x1e * 256 + 0xf0
unfolding crc16_genibus_round crc16_crctab_at
high_round r h =
    ap (λ (c : ℕ). bit_xor (r * 256 % 2 ^ 16) (crc16_crctab_at (c % 256))) (cancel (r / 256) 0xff)
    ∙ ap (λ t. bit_xor t 0x1ef0) (omega arith)
    ∙ bit_xor_parts 8 (r % 256) 0 0x1e 0xf0 (omega arith) (omega arith)

low_round :
    (lo : ℕ)
    → lo < 256
    → crc16_genibus_round (bit_xor lo 0x1e * 256 + 0xf0) (bit_xor lo 0xff) ≡ 0x1d0f
unfolding crc16_genibus_round crc16_crctab_at
low_round lo h = ap₂ (λ (t c : ℕ). bit_xor t (crc16_crctab_at (c % 256))) moved index
  where
    moved : (bit_xor lo 0x1e * 256 + 0xf0) * 256 % 2 ^ 16 ≡ 0xf000
    moved = omega arith

    index : bit_xor ((bit_xor lo 0x1e * 256 + 0xf0) / 256) (bit_xor lo 0xff) ≡ 0xe1
    index =
        ap₂ bit_xor (omega arith ∙ bit_xor_comm lo 0x1e) refl
        ∙ bit_xor_assoc 0x1e lo (bit_xor lo 0xff)
        ∙ ap (bit_xor 0x1e) (cancel lo 0xff)

-- The packet's last two bytes are the CRC of what precedes them, high byte first.
unfoldable pub append_crc : List ℕ → ℕ → List ℕ
append_crc buf crc = buf ++ (crc / 256 ∷ crc % 256 ∷ [])

-- For every buffer of bytes, appending the CRC-16 computed over it, high byte first, gives a
-- packet on which the loop ends with the register at 0x1d0f.
pub packet_residue :
    (buf : List ℕ)
    → All IsByte buf
    → crc16_genibus_update
        (append_crc buf (crc16_genibus_fini (crc16_genibus_update buf crc16_genibus_init)))
        crc16_genibus_init
      ≡ 0x1d0f
unfolding append_crc crc16_genibus_update
packet_residue buf h =
    update-append16 buf _ crc16_genibus_init ∙ last_rounds _ (update-lt16 buf _ h (omega arith))
  where
    last_rounds :
        (r : ℕ)
        → r < 2 ^ 16
        → crc16_genibus_round
            (crc16_genibus_round r (crc16_genibus_fini r / 256))
            (crc16_genibus_fini r % 256)
          ≡ 0x1d0f
    last_rounds r hr =
        ap₂ crc16_genibus_round (ap (crc16_genibus_round r) (high_byte r hr) ∙ high_round r hr)
          (low_byte r hr)
        ∙ low_round (r % 256) (omega arith)
