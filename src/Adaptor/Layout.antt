-- ===== src/Adaptor/Layout.antt =====
-- What the packet of a segment is on the wire, byte by byte.
use nabud.Prelude.{ℕ, ◌+◌, ◌*◌, ◌/◌, ◌%◌, ◌^◌, ◌≤◌, ◌<◌, ◌≡◌, refl, sym, arith, ap₂, ◌∙◌}
use nabud.Prelude.{
  List, [], ◌∷◌, ◌++◌, Bool, true, false, ◌==◌, leb, if◌then◌else◌, if-cases, Bool-cases, inl, inr,
}
use nabud.Prelude.{length, take, drop, append_assoc, length-drop, bit_or}
use nabud.Prelude.Word.{All, IsByte}
use nabud.Proto.{nabu_maxpayloadsize, nabu_init_pkthdr, nabu_set_crc}
use nabud.Proto.{nabu_set_uint24_be, nabu_set_uint32_be, nabu_set_uint16, nabu_set_uint16_be}
use nabud.Crc16.{crc16_genibus_init, crc16_genibus_update}
use nabud.Adaptor.{NabuImage}
use nabud.Adaptor.Packets.{slice, segment_length, segment_last, nabu_packet, packet_crc}
use nabud.Adaptor.Segments.{nabu_packet_shape, take-all}

-- 0xa1 for the first segment and 0x20 for the others, and 0x10 more for the last one.
abbrev pub type_of : Bool → Bool → ℕ
type_of true true = 0xb1
type_of true false = 0xa1
type_of false true = 0x30
type_of false false = 0x20

-- The image number at 24 bits, high byte first; the low byte of the segment number; the owner, the
-- tier and two bytes that are fixed; the type; the segment number, low byte first; and the offset
-- of the segment in the image, high byte first.
abbrev pub wire_header : ℕ → ℕ → Bool → List ℕ
wire_header image segment last =
    let offset = segment * 991 in
    (image / 2 ^ 16 % 256)
    ∷ (image / 2 ^ 8 % 256)
    ∷ (image % 256)
    ∷ (segment % 256)
    ∷ 0x01
    ∷ 0x7f
    ∷ 0xff
    ∷ 0xff
    ∷ 0xff
    ∷ 0x7f
    ∷ 0x80
    ∷ type_of (segment == 0) last
    ∷ (segment % 256)
    ∷ (segment / 256 % 256)
    ∷ (offset / 256 % 256)
    ∷ (offset % 256)
    ∷ []

-- The 991 bytes of an image that a segment holds, or as many as there are.
abbrev pub payload_at : ℕ → List ℕ → List ℕ
payload_at segment content = take 991 (drop (segment * 991) content)

-- No byte of the image is behind the last segment, and some byte is behind any other.
abbrev pub LastIs : Bool → ℕ → List ℕ → Type 0
LastIs true segment content = length content ≤ (segment + 1) * 991
LastIs false segment content = (segment + 1) * 991 < length content

-- The header, the bytes of the image, and two bytes with which the CRC-16 of the whole leaves the
-- remainder of a sound packet.
pub record IsPacketOf (image segment : ℕ) (content : List ℕ) (last : Bool) (packet : List ℕ)
    : Type 0 where
  pub crc_high : ℕ
  pub crc_low : ℕ
  pub bytes :
      packet
      ≡ wire_header image segment last ++ (payload_at segment content ++ (crc_high ∷ crc_low ∷ []))
  pub sound : crc16_genibus_update packet crc16_genibus_init ≡ 0x1d0f

type_byte-of :
    (first last : Bool)
    → bit_or (if first then 0xa1 else 0x20) (if last then 0x10 else 0) ≡ type_of first last
type_byte-of true true = refl
type_byte-of true false = refl
type_byte-of false true = refl
type_byte-of false false = refl

pkthdr-wire :
    (image segment : ℕ) (last : Bool)
    → nabu_init_pkthdr image segment (segment * 991 % 2 ^ 16) last ≡ wire_header image segment last
unfolding nabu_init_pkthdr nabu_set_uint24_be nabu_set_uint32_be nabu_set_uint16 nabu_set_uint16_be
pkthdr-wire image segment last = ground (arith, type_byte-of (segment == 0) last)

slice-payload :
    (segment : ℕ) (content : List ℕ)
    → slice content
        (segment * 991)
        (segment_length nabu_maxpayloadsize (segment * 991) (length content))
      ≡ payload_at segment content
slice-payload segment content =
    if-cases (λ n. take n (drop (segment * 991) content) ≡ payload_at segment content)
      (leb (length content) (segment * 991 + 991)) _ _
      (λ e.
        take-all _ _ (omega (arith, length-drop (segment * 991) content))
        ∙ sym (take-all 991 _ (ground (arith, length-drop (segment * 991) content))))
      (λ e. refl)

pub segment_last-LastIs :
    (segment : ℕ) (content : List ℕ)
    → LastIs
        (segment_last nabu_maxpayloadsize (segment * nabu_maxpayloadsize) (length content))
        segment
        content
segment_last-LastIs segment content =
    elim (Bool-cases (leb (length content) (segment * 991 + 991))) [
      | inl e ↦ rw e (ground arith)
      | inr e ↦ rw e (ground arith)
    ]

pub nabu_packet-IsPacketOf :
    (image segment : ℕ) (img : NabuImage)
    → All IsByte img.content
    → segment * nabu_maxpayloadsize < length img.content
    → IsPacketOf image segment img.content
        (segment_last nabu_maxpayloadsize (segment * nabu_maxpayloadsize) (length img.content))
        (nabu_packet image segment img)
unfolding nabu_packet nabu_set_crc
nabu_packet-IsPacketOf image segment img h k =
    let last : Bool =
      segment_last nabu_maxpayloadsize (segment * nabu_maxpayloadsize) (length img.content) in
    let hdr : List ℕ = nabu_init_pkthdr image segment (segment * 991 % 2 ^ 16) last in
    let payload : List ℕ =
      slice img.content (segment * 991)
        (segment_length nabu_maxpayloadsize (segment * 991) (length img.content)) in
    let crc : ℕ = packet_crc (hdr ++ payload) in
    record {
      crc_high = crc / 2 ^ 8 % 256;
      crc_low = crc % 256;
      bytes =
          append_assoc hdr payload (nabu_set_crc crc)
          ∙ ap₂ (λ h p. h ++ (p ++ nabu_set_crc crc)) (pkthdr-wire image segment last)
              (slice-payload segment img.content);
      sound = (nabu_packet_shape image segment img h k).2;
    }
