-- ===== src/Proto.antt =====
-- libnabud/nabu_proto.h: the constants of the NABU adaptor protocol, its integers in byte buffers
-- and its packet header. A setter returns the bytes that it writes at `buf`; a getter reads a list
-- at the offsets of the source, and its callers hand it enough bytes.
pub mod RoundTrip
pub mod Header
mod Tests
use nabud.Prelude.{ℕ, ◌+◌, ◌*◌, ◌/◌, ◌%◌, ◌^◌, List, [], ◌∷◌, ◌++◌, get_or, bit_or, ◌==◌}
use nabud.Prelude.{Bool, if◌then◌else◌}

abbrev pub nabu_maxsegmentsize : ℕ
nabu_maxsegmentsize = 65536

abbrev pub nabu_maxpacketsize : ℕ
nabu_maxpacketsize = 1024

abbrev pub nabu_maxpayloadsize : ℕ
nabu_maxpayloadsize = 991

abbrev pub nabu_headersize : ℕ
nabu_headersize = 16

abbrev pub nabu_footersize : ℕ
nabu_footersize = 2

abbrev pub nabu_totalpayloadsize : ℕ
nabu_totalpayloadsize = nabu_maxpayloadsize + nabu_headersize + nabu_footersize

-- `buf[i]`
abbrev pub byte_at : List ℕ → ℕ → ℕ
byte_at buf i = get_or buf i 0

unfoldable pub nabu_get_uint16 : List ℕ → ℕ
nabu_get_uint16 buf = bit_or (byte_at buf 0) (byte_at buf 1 * 2 ^ 8)

unfoldable pub nabu_get_uint16_be : List ℕ → ℕ
nabu_get_uint16_be buf = bit_or (byte_at buf 0 * 2 ^ 8) (byte_at buf 1)

unfoldable pub nabu_get_uint24 : List ℕ → ℕ
nabu_get_uint24 buf =
    bit_or (bit_or (byte_at buf 0) (byte_at buf 1 * 2 ^ 8)) (byte_at buf 2 * 2 ^ 16)

unfoldable pub nabu_get_uint24_be : List ℕ → ℕ
nabu_get_uint24_be buf =
    bit_or (bit_or (byte_at buf 0 * 2 ^ 16) (byte_at buf 1 * 2 ^ 8)) (byte_at buf 2)

unfoldable pub nabu_get_uint32 : List ℕ → ℕ
nabu_get_uint32 buf =
    bit_or (bit_or (bit_or (byte_at buf 0) (byte_at buf 1 * 2 ^ 8)) (byte_at buf 2 * 2 ^ 16))
      (byte_at buf 3 * 2 ^ 24)
    % 2 ^ 32

unfoldable pub nabu_get_uint32_be : List ℕ → ℕ
nabu_get_uint32_be buf =
    bit_or
      (bit_or (bit_or (byte_at buf 0 * 2 ^ 24) (byte_at buf 1 * 2 ^ 16)) (byte_at buf 2 * 2 ^ 8))
      (byte_at buf 3)
    % 2 ^ 32

-- `(uint8_t)(val)`
abbrev pub low_byte : ℕ → ℕ
low_byte v = v % 256

unfoldable pub nabu_set_uint16 : ℕ → List ℕ
nabu_set_uint16 val = low_byte val ∷ low_byte (val / 2 ^ 8) ∷ []

unfoldable pub nabu_set_uint16_be : ℕ → List ℕ
nabu_set_uint16_be val = low_byte (val / 2 ^ 8) ∷ low_byte val ∷ []

unfoldable pub nabu_set_uint24 : ℕ → List ℕ
nabu_set_uint24 val = low_byte val ∷ low_byte (val / 2 ^ 8) ∷ low_byte (val / 2 ^ 16) ∷ []

unfoldable pub nabu_set_uint24_be : ℕ → List ℕ
nabu_set_uint24_be val = low_byte (val / 2 ^ 16) ∷ low_byte (val / 2 ^ 8) ∷ low_byte val ∷ []

unfoldable pub nabu_set_uint32 : ℕ → List ℕ
nabu_set_uint32 val =
    low_byte val ∷ low_byte (val / 2 ^ 8) ∷ low_byte (val / 2 ^ 16) ∷ low_byte (val / 2 ^ 24) ∷ []

unfoldable pub nabu_set_uint32_be : ℕ → List ℕ
nabu_set_uint32_be val =
    low_byte (val / 2 ^ 24) ∷ low_byte (val / 2 ^ 16) ∷ low_byte (val / 2 ^ 8) ∷ low_byte val ∷ []

-- The fields of `struct nabu_pkthdr` in their order. `segment` and `offset` are `uint16_t`: a
-- caller's value is taken at 16 bits.
unfoldable pub nabu_init_pkthdr : ℕ → ℕ → ℕ → Bool → List ℕ
nabu_init_pkthdr image segment offset last =
    nabu_set_uint24_be image
    ++ (low_byte segment ∷ 0x01 ∷ nabu_set_uint32_be 0x7fff_ffff)
    ++ (0x7f ∷ 0x80 ∷ bit_or (if segment == 0 then 0xa1 else 0x20) (if last then 0x10 else 0) ∷ [])
    ++ nabu_set_uint16 (segment % 2 ^ 16)
    ++ nabu_set_uint16_be (offset % 2 ^ 16)

unfoldable pub nabu_set_crc : ℕ → List ℕ
nabu_set_crc crc = low_byte (crc / 2 ^ 8) ∷ low_byte crc ∷ []

unfoldable pub nabu_get_crc : List ℕ → ℕ
nabu_get_crc buf = bit_or (byte_at buf 0 * 2 ^ 8) (byte_at buf 1)
