-- ===== src/Proto/Header.antt =====
-- The packet header of `nabu_init_pkthdr`, read back field by field.
use nabud.Prelude.{
  ℕ, ◌%◌, ◌^◌, ◌<◌, ◌≡◌, refl, arith, length, drop, if◌then◌else◌, Bool, true, false,
}
use nabud.Prelude.{bit_and, bit_or, ◌==◌, List}
use nabud.Prelude.Word.{All, IsByte}
use nabud.Proto.{byte_at, nabu_headersize, nabu_init_pkthdr, nabu_get_uint24_be, nabu_get_uint16}
use nabud.Proto.{
  nabu_get_uint16_be, nabu_set_uint24_be, nabu_set_uint32_be, nabu_set_uint16, nabu_set_uint16_be,
}
use nabud.Proto.RoundTrip.{get-set}

-- The type byte, by the two flags.
type_byte :
    (first last : Bool)
    → bit_and (bit_or (if first then 0xa1 else 0x20) (if last then 0x10 else 0)) 0x10
      ≡ (if last then 0x10 else 0)
type_byte true true = refl
type_byte true false = refl
type_byte false true = refl
type_byte false false = refl

type_byte_first :
    (first last : Bool)
    → bit_and (bit_or (if first then 0xa1 else 0x20) (if last then 0x10 else 0)) 0x81
      ≡ (if first then 0x81 else 0)
type_byte_first true true = refl
type_byte_first true false = refl
type_byte_first false true = refl
type_byte_first false false = refl

type_byte-lt :
    (first last : Bool) → bit_or (if first then 0xa1 else 0x20) (if last then 0x10 else 0) < 256
type_byte-lt true true = omega arith
type_byte-lt true false = omega arith
type_byte-lt false true = omega arith
type_byte-lt false false = omega arith

module _ (image segment offset : ℕ) (last : Bool) where
  -- The header is 16 bytes, and each is a byte.
  pub header_shape :
      (length (nabu_init_pkthdr image segment offset last) ≡ nabu_headersize)
      × All IsByte (nabu_init_pkthdr image segment offset last)
  unfolding nabu_init_pkthdr nabu_set_uint24_be nabu_set_uint32_be nabu_set_uint16
      nabu_set_uint16_be
  header_shape = omega (arith, type_byte-lt (segment == 0) last)

  -- The header holds the image number at 24 bits, the segment number at 8 and at 16 bits, and the
  -- offset at 16 bits; the bit 0x10 of the type byte is set exactly for the last segment, and its
  -- bits 0x81 exactly for segment 0.
  pub header_fields :
      let hdr : List ℕ = nabu_init_pkthdr image segment offset last in
      (nabu_get_uint24_be hdr ≡ image % 2 ^ 24)
      × (byte_at hdr 3 ≡ segment % 256)
      × (nabu_get_uint16 (drop 12 hdr) ≡ segment % 2 ^ 16)
      × (nabu_get_uint16_be (drop 14 hdr) ≡ offset % 2 ^ 16)
      × (bit_and (byte_at hdr 11) 0x10 ≡ (if last then 0x10 else 0))
      × (bit_and (byte_at hdr 11) 0x81 ≡ (if segment == 0 then 0x81 else 0))
  unfolding nabu_init_pkthdr nabu_set_uint24_be nabu_set_uint32_be nabu_set_uint16
      nabu_set_uint16_be nabu_get_uint24_be nabu_get_uint16 nabu_get_uint16_be
  header_fields = (
    (get-set image).3,
    refl,
    omega (arith, (get-set (segment % 2 ^ 16)).0),
    omega (arith, (get-set (offset % 2 ^ 16)).1),
    type_byte (segment == 0) last,
    type_byte_first (segment == 0) last,
  )
