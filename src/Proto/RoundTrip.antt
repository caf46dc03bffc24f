-- ===== src/Proto/RoundTrip.antt =====
-- What is set in a buffer is what is got from it, in both byte orders.
use nabud.Prelude.{ℕ, ◌+◌, ◌*◌, ◌/◌, ◌%◌, ◌^◌, ◌<◌, ◌≡◌, arith, bit_or, ◌∙◌, ap}
use nabud.Prelude.Bits.Fields.{bit_or_fields, bit_or_comm}
use nabud.Proto.{nabu_get_uint16, nabu_get_uint16_be, nabu_get_uint24, nabu_get_uint24_be}
use nabud.Proto.{nabu_get_uint32, nabu_get_uint32_be}
use nabud.Proto.{nabu_set_crc, nabu_get_crc}
use nabud.Proto.{nabu_set_uint16, nabu_set_uint16_be, nabu_set_uint24, nabu_set_uint24_be}
use nabud.Proto.{nabu_set_uint32, nabu_set_uint32_be}

-- Bytes joined by `|` and shifts are a sum, in either order of the joined parts.
pub join2 : (a b : ℕ) → a < 256 → bit_or a (b * 2 ^ 8) ≡ b * 2 ^ 8 + a
join2 a b h = bit_or_fields 8 a b h

pub join2_be : (a b : ℕ) → b < 256 → bit_or (a * 2 ^ 8) b ≡ a * 2 ^ 8 + b
join2_be a b h = bit_or_comm (a * 2 ^ 8) b ∙ bit_or_fields 8 b a h

join3 :
    (a b c : ℕ)
    → a < 256
    → b < 256
    → bit_or (bit_or a (b * 2 ^ 8)) (c * 2 ^ 16) ≡ c * 2 ^ 16 + (b * 2 ^ 8 + a)
join3 a b c ha hb =
    ap (λ t. bit_or t (c * 2 ^ 16)) (join2 a b ha)
    ∙ bit_or_fields 16 (b * 2 ^ 8 + a) c (omega arith)

join3_be :
    (a b c : ℕ)
    → b < 256
    → c < 256
    → bit_or (bit_or (a * 2 ^ 16) (b * 2 ^ 8)) c ≡ a * 2 ^ 16 + b * 2 ^ 8 + c
join3_be a b c hb hc =
    ap (λ t. bit_or t c)
      (bit_or_comm (a * 2 ^ 16) (b * 2 ^ 8) ∙ bit_or_fields 16 (b * 2 ^ 8) a (omega arith))
    ∙ bit_or_comm (a * 2 ^ 16 + b * 2 ^ 8) c
    ∙ ap (bit_or c) (omega arith)
    ∙ bit_or_fields 8 c (a * 2 ^ 8 + b) hc
    ∙ omega arith

join4 :
    (a b c d : ℕ)
    → a < 256
    → b < 256
    → c < 256
    → bit_or (bit_or (bit_or a (b * 2 ^ 8)) (c * 2 ^ 16)) (d * 2 ^ 24)
      ≡ d * 2 ^ 24 + (c * 2 ^ 16 + (b * 2 ^ 8 + a))
join4 a b c d ha hb hc =
    ap (λ t. bit_or t (d * 2 ^ 24)) (join3 a b c ha hb) ∙ bit_or_fields 24 _ d (omega arith)

join4_be :
    (a b c d : ℕ)
    → b < 256
    → c < 256
    → d < 256
    → bit_or (bit_or (bit_or (a * 2 ^ 24) (b * 2 ^ 16)) (c * 2 ^ 8)) d
      ≡ a * 2 ^ 24 + b * 2 ^ 16 + c * 2 ^ 8 + d
join4_be a b c d hb hc hd =
    ap (λ t. bit_or t d) (front ∙ regroup)
    ∙ bit_or_comm ((a * 2 ^ 16 + b * 2 ^ 8 + c) * 2 ^ 8) d
    ∙ bit_or_fields 8 d (a * 2 ^ 16 + b * 2 ^ 8 + c) hd
    ∙ omega arith
  where
    top : bit_or (a * 2 ^ 24) (b * 2 ^ 16) ≡ (a * 2 ^ 8 + b) * 2 ^ 16
    top =
        bit_or_comm (a * 2 ^ 24) (b * 2 ^ 16)
        ∙ bit_or_fields 24 (b * 2 ^ 16) a (omega arith)
        ∙ omega arith

    front :
        bit_or (bit_or (a * 2 ^ 24) (b * 2 ^ 16)) (c * 2 ^ 8) ≡ (a * 2 ^ 8 + b) * 2 ^ 16 + c * 2 ^ 8
    front =
        ap (λ t. bit_or t (c * 2 ^ 8)) top
        ∙ bit_or_comm ((a * 2 ^ 8 + b) * 2 ^ 16) (c * 2 ^ 8)
        ∙ bit_or_fields 16 (c * 2 ^ 8) (a * 2 ^ 8 + b) (omega arith)

    regroup : (a * 2 ^ 8 + b) * 2 ^ 16 + c * 2 ^ 8 ≡ (a * 2 ^ 16 + b * 2 ^ 8 + c) * 2 ^ 8
    regroup = omega arith

-- Every setter followed by its getter gives the value back, taken at the width of the field.
pub get-set :
    (v : ℕ)
    → (nabu_get_uint16 (nabu_set_uint16 v) ≡ v % 2 ^ 16)
      × (nabu_get_uint16_be (nabu_set_uint16_be v) ≡ v % 2 ^ 16)
      × (nabu_get_uint24 (nabu_set_uint24 v) ≡ v % 2 ^ 24)
      × (nabu_get_uint24_be (nabu_set_uint24_be v) ≡ v % 2 ^ 24)
      × (nabu_get_uint32 (nabu_set_uint32 v) ≡ v % 2 ^ 32)
      × (nabu_get_uint32_be (nabu_set_uint32_be v) ≡ v % 2 ^ 32)
      × (nabu_get_crc (nabu_set_crc v) ≡ v % 2 ^ 16)
unfolding nabu_get_uint16 nabu_set_uint16 nabu_get_uint16_be nabu_set_uint16_be nabu_get_uint24
    nabu_set_uint24 nabu_get_uint24_be nabu_set_uint24_be nabu_get_uint32 nabu_set_uint32
    nabu_get_uint32_be nabu_set_uint32_be nabu_get_crc nabu_set_crc
get-set v =
    let b0 : ℕ = v % 256 in
    let b1 : ℕ = v / 2 ^ 8 % 256 in
    let b2 : ℕ = v / 2 ^ 16 % 256 in
    let b3 : ℕ = v / 2 ^ 24 % 256 in
    (
      omega (arith, join2 b0 b1 (omega arith)),
      omega (arith, join2_be b1 b0 (omega arith)),
      omega (arith, join3 b0 b1 b2 (omega arith) (omega arith)),
      omega (arith, join3_be b2 b1 b0 (omega arith) (omega arith)),
      omega (arith, join4 b0 b1 b2 b3 (omega arith) (omega arith) (omega arith)),
      omega (arith, join4_be b3 b2 b1 b0 (omega arith) (omega arith) (omega arith)),
      omega (arith, join2_be b1 b0 (omega arith)),
    )
