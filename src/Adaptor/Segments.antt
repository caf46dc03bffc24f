-- ===== src/Adaptor/Segments.antt =====
-- The packets of an image: their length and their CRC.
use nabud.Prelude.{ℕ, zero, suc, ◌+◌, ◌*◌, ◌%◌, ◌^◌, ◌≤◌, ◌<◌, ◌≡◌, refl, arith, ap, ◌∙◌}
use nabud.Prelude.{List, [], ◌∷◌, ◌++◌}
use nabud.Prelude.{length, take, drop, length-append, length-take, length-drop, take-append-drop}
use nabud.Prelude.Word.{All, IsByte, All-append}
use nabud.Proto.{
  nabu_maxpayloadsize, nabu_maxpacketsize, nabu_headersize, nabu_footersize, nabu_set_crc,
  nabu_init_pkthdr,
}
use nabud.Proto.Header.{header_shape}
use nabud.Crc16.{crc16_genibus_init, crc16_genibus_update}
use nabud.Crc16.Residue.{append_crc, packet_residue, update-lt16}
use nabud.Prelude.Bits.{bit_xor-lt}
use nabud.Adaptor.{NabuImage}
use nabud.Adaptor.Packets.{slice, segment_length, segment_last, nabu_packet, packet_crc}

take-nil : (m : ℕ) → ◌≡◌ {A = List ℕ} (take {A = ℕ} m [] ++ []) []
take-nil zero = refl
take-nil (suc m) = refl

-- A slice, and what is dropped after it, are what is dropped before it.
pub slice-append-drop :
    (off m k : ℕ) (xs : List ℕ) → k ≡ off + m → slice xs off m ++ drop k xs ≡ drop off xs
slice-append-drop zero m k xs e =
    let e' : k ≡ m = omega arith in ap (λ t. take m xs ++ drop t xs) e' ∙ take-append-drop m xs
slice-append-drop (suc off) m zero xs e = absurd (omega arith)
slice-append-drop (suc off) m (suc k) [] e = take-nil m
slice-append-drop (suc off) m (suc k) (x ∷ xs) e = slice-append-drop off m k xs (omega arith)

pub take-all : (n : ℕ) (xs : List ℕ) → length xs ≤ n → take n xs ≡ xs
take-all zero [] h = refl
take-all (suc n) [] h = refl
take-all zero (x ∷ xs) h = absurd (omega arith)
take-all (suc n) (x ∷ xs) h = ap (λ l. x ∷ l) (take-all n xs (omega arith))

set_crc-append :
    (buf : List ℕ) (crc : ℕ) → crc < 2 ^ 16 → buf ++ nabu_set_crc crc ≡ append_crc buf crc
unfolding nabu_set_crc append_crc
set_crc-append buf crc h = ap (λ (t : ℕ). buf ++ (t ∷ crc % 256 ∷ [])) (omega arith)

packet_crc-lt : (buf : List ℕ) → All IsByte buf → packet_crc buf < 2 ^ 16
unfolding packet_crc
packet_crc-lt buf h =
    bit_xor-lt 16 _ 0xffff (update-lt16 buf crc16_genibus_init h (omega arith)) (omega arith)

crc-residue :
    (body : List ℕ)
    → All IsByte body
    → crc16_genibus_update (body ++ nabu_set_crc (packet_crc body)) crc16_genibus_init ≡ 0x1d0f
crc-residue body h =
    ap (λ l. crc16_genibus_update l crc16_genibus_init)
      (set_crc-append body (packet_crc body) (packet_crc-lt body h))
    ∙ unfold packet_crc in packet_residue body h

All-drop : (n : ℕ) (xs : List ℕ) → All IsByte xs → All IsByte (drop n xs)
All-drop zero xs h = h
All-drop (suc n) [] h = h
All-drop (suc n) (x ∷ xs) h = All-drop n xs h.1

All-take : (n : ℕ) (xs : List ℕ) → All IsByte xs → All IsByte (take n xs)
All-take zero xs h = tt
All-take (suc n) [] h = h
All-take (suc n) (x ∷ xs) h = (h.0, All-take n xs h.1)

-- A body of bytes with its CRC behind it.
wrapped :
    (hdr payload : List ℕ)
    → All IsByte hdr
    → All IsByte payload
    → let body : List ℕ = hdr ++ payload in
      (length (body ++ nabu_set_crc (packet_crc body)) ≡ length hdr + length payload + 2)
      × (crc16_genibus_update (body ++ nabu_set_crc (packet_crc body)) crc16_genibus_init ≡ 0x1d0f)
unfolding nabu_set_crc
wrapped hdr payload h k = (
  omega (
    arith,
    length-append (hdr ++ payload) (nabu_set_crc (packet_crc (hdr ++ payload))),
    length-append hdr payload,
  ),
  crc-residue (hdr ++ payload) (All-append IsByte hdr payload h k),
)

length-slice :
    (content : List ℕ) (off : ℕ)
    → off < length content
    → let len : ℕ = segment_length nabu_maxpayloadsize off (length content) in
      (length (slice content off len) ≡ len) × (len ≤ nabu_maxpayloadsize)
length-slice content off h = ground (
  arith,
  length-take (segment_length nabu_maxpayloadsize off (length content)) (drop off content),
  length-drop off content,
)

-- The packet of a segment that starts within an image of bytes: it is as long as the code expects,
-- so it fits the packet buffer, and its CRC-16 leaves the remainder of a sound packet.
pub nabu_packet_shape :
    (image segment : ℕ) (img : NabuImage)
    → All IsByte img.content
    → segment * nabu_maxpayloadsize < length img.content
    → let len : ℕ =
        segment_length nabu_maxpayloadsize (segment * nabu_maxpayloadsize) (length img.content) in
      (length (nabu_packet image segment img) ≡ len + nabu_headersize + nabu_footersize)
      × (length (nabu_packet image segment img) ≤ nabu_maxpacketsize)
      × (crc16_genibus_update (nabu_packet image segment img) crc16_genibus_init ≡ 0x1d0f)
unfolding nabu_packet
nabu_packet_shape image segment img h k =
    let off : ℕ = segment * nabu_maxpayloadsize in
    let total : ℕ = length img.content in
    let (h16, hdr_bytes) =
      header_shape image segment (off % 2 ^ 16) (segment_last nabu_maxpayloadsize off total) in
    let (exact, small) = length-slice img.content off k in
    let (size, residue) =
      wrapped
        (nabu_init_pkthdr image segment (off % 2 ^ 16) (segment_last nabu_maxpayloadsize off total))
        (slice img.content off (segment_length nabu_maxpayloadsize off total)) hdr_bytes
        (All-take _ (drop off img.content) (All-drop off img.content h)) in
    (omega (arith, size, h16, exact), omega (arith, size, h16, exact, small), residue)
