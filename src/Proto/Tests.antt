-- ===== src/Proto/Tests.antt =====
-- Runs of the integers and of the header on concrete values.
use nabud.Prelude.{◌%◌, ◌^◌, ◌≡◌, [], ◌∷◌, true, refl}
use nabud.Proto.{nabu_init_pkthdr, nabu_get_uint16, nabu_set_uint16, nabu_get_uint16_be}
use nabud.Proto.{
  nabu_set_uint16_be, nabu_get_uint24, nabu_set_uint24, nabu_get_uint24_be, nabu_set_uint24_be,
}
use nabud.Proto.{
  nabu_get_uint32, nabu_set_uint32, nabu_get_uint32_be, nabu_set_uint32_be, nabu_get_crc,
  nabu_set_crc,
}
use nabud.Proto.RoundTrip.{get-set}

-- The header of segment 0 of image 1, its only segment.
only_segment :
    nabu_init_pkthdr 1 0 0 true
    ≡ 0 ∷ 0 ∷ 1 ∷ 0 ∷ 1 ∷ 0x7f ∷ 0xff ∷ 0xff ∷ 0xff ∷ 0x7f ∷ 0x80 ∷ 0xb1 ∷ 0 ∷ 0 ∷ 0 ∷ 0 ∷ []
unfolding nabu_init_pkthdr nabu_set_uint24_be nabu_set_uint32_be nabu_set_uint16 nabu_set_uint16_be
only_segment = refl

get-set_example :
    (nabu_get_uint16 (nabu_set_uint16 0x123456789) ≡ 0x123456789 % 2 ^ 16)
    × (nabu_get_uint16_be (nabu_set_uint16_be 0x123456789) ≡ 0x123456789 % 2 ^ 16)
    × (nabu_get_uint24 (nabu_set_uint24 0x123456789) ≡ 0x123456789 % 2 ^ 24)
    × (nabu_get_uint24_be (nabu_set_uint24_be 0x123456789) ≡ 0x123456789 % 2 ^ 24)
    × (nabu_get_uint32 (nabu_set_uint32 0x123456789) ≡ 0x123456789 % 2 ^ 32)
    × (nabu_get_uint32_be (nabu_set_uint32_be 0x123456789) ≡ 0x123456789 % 2 ^ 32)
    × (nabu_get_crc (nabu_set_crc 0x123456789) ≡ 0x123456789 % 2 ^ 16)
get-set_example = get-set 0x123456789
