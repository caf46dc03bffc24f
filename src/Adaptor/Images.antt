-- ===== src/Adaptor/Images.antt =====
-- Sending a segment of an image, from the request to the bytes that the NABU puts together.
use nabud.Prelude.{
  ℕ, ◌+◌, ◌*◌, ◌≤◌, ◌<◌, ◌≡◌, ◌≢◌, ◌∙◌, refl, arith, ap, List, [], ◌∷◌, ◌++◌, Bool, true, false,
}
use nabud.Prelude.{length, append-nil, Option, none, some, leb, ◌==◌}
use nabud.Prelude.Monad.{assert, done, pure, bind-done}
use nabud.Prelude.Word.{All, IsByte}
use nabud.Proto.{nabu_maxpacketsize, nabu_maxpayloadsize, nabu_headersize, nabu_footersize}
use nabud.ConnIo.{RecvEvent, SendEvent, byte, conn_io_send_byte}
use nabud.ConnIo.Send.{Accepts}
use nabud.Channel.{ImageChannelType, pak, nabu, invalid}
use nabud.Adaptor.{
  NabuConnection, NabuImage, Services, on_io, escape, adaptor_expect_ack, nabu_msg_finished,
}
use nabud.Adaptor.{nabu_service_authorized, nabu_service_unauthorized, adaptor_send_unauthorized}
use nabud.Adaptor.Packets.{adaptor_send_packet, adaptor_send_image, send_nabu_image, nabu_packet}
use nabud.Adaptor.Packets.{send_by_type, segment_last, segment_length}
use nabud.Adaptor.Deliver.{
  delivered, send_packet-delivers, after_send, after_recv, send_byte_on, expect_ack-ready,
}
use nabud.Adaptor.Escape.{unescape, unescape-escape}
use nabud.Adaptor.Segments.{nabu_packet_shape}
use nabud.Adaptor.Layout.{IsPacketOf, LastIs, nabu_packet-IsPacketOf, segment_last-LastIs}

module _ {R : Type 0} where
  pub unauthorized-ready :
      (es : List RecvEvent) (c : NabuConnection R)
      → c.io.recvs ≡ byte 0x10 ∷ byte 0x06 ∷ es
      → Accepts c.io.sends
      → (sends : List SendEvent) × (adaptor_send_unauthorized c
          ≡ done (tt, after_recv es (after_send (nabu_service_unauthorized ∷ []) sends c)))
        × Accepts sends
  unfolding adaptor_send_unauthorized
  unauthorized-ready es c acks h =
      let (sends, e, h') = send_byte_on nabu_service_unauthorized c h in
      (
        sends,
        bind-done (on_io (conn_io_send_byte nabu_service_unauthorized)) _ c _ _ e
            ∙ bind-done adaptor_expect_ack _ _ _ _
                (expect_ack-ready es (after_send (nabu_service_unauthorized ∷ []) sends c) acks),
        h',
      )

-- Whatever the type of an image's channel, if it is not a PAK the image is sent as a NABU image.
abbrev pub NotPak : NabuImage → Type 0
NotPak img = img.channel_type ≢ some pak

nonempty : (l : List ℕ) → 0 < length l → (b : ℕ) × (bs : List ℕ) × (l ≡ b ∷ bs)
nonempty [] h = absurd (omega arith)
nonempty (b ∷ bs) h = (b, bs, refl)

deliver_buf :
    {R : Type 0}
    → (b : ℕ) (bs buf : List ℕ) (es : List RecvEvent) (c : NabuConnection R) → buf ≡ b ∷ bs
    → length buf ≤ nabu_maxpacketsize
    → c.io.recvs ≡ byte 0x10 ∷ byte 0x06 ∷ es
    → Accepts c.io.sends
    → (sends : List SendEvent) × (adaptor_send_packet buf c ≡ done (tt, delivered buf es sends c))
      × Accepts sends
deliver_buf b bs buf es c e = rw e (send_packet-delivers b bs es c)

module _ (sv : Services) where
  open sv use {Rest, malloc_ok}

  by_type-nabu :
      (type : Option ImageChannelType) (image segment : ℕ) (img : NabuImage)
      → type ≢ some pak
      → send_by_type sv type image segment img ≡ send_nabu_image sv image segment img
  by_type-nabu (some pak) image segment img h = absurd (h refl)
  by_type-nabu (some nabu) image segment img h = refl
  by_type-nabu (some invalid) image segment img h = refl
  by_type-nabu none image segment img h = refl

  -- A segment that starts at or past the end of an image that is not of a PAK channel is refused:
  -- a NABU that acknowledges gets the byte 0x90 and nothing else, and the result is false.
  pub send_image-beyond :
      (image segment : ℕ) (img : NabuImage) (es : List RecvEvent) (c : NabuConnection Rest)
      → NotPak img
      → length img.content ≤ segment * nabu_maxpayloadsize
      → c.io.recvs ≡ byte 0x10 ∷ byte 0x06 ∷ es
      → Accepts c.io.sends
      → (sends : List SendEvent) × (adaptor_send_image sv image segment img c
          ≡ done (false, after_recv es (after_send (nabu_service_unauthorized ∷ []) sends c)))
        × Accepts sends
  unfolding adaptor_send_image send_nabu_image
  send_image-beyond image segment img es c plain beyond acks h =
      let e : leb (length img.content) (segment * nabu_maxpayloadsize) ≡ true = ground arith in
      let (sends, e', h') = unauthorized-ready es c acks h in
      (
        sends,
        ap (λ m. m c) (by_type-nabu img.channel_type image segment img plain)
            ∙ rw e (bind-done adaptor_send_unauthorized (λ _. pure false) c tt _ e'),
        h',
      )

  -- A segment that starts within an image of bytes, for a NABU that acknowledges, where memory can
  -- be had and the channel is not a PAK's: the request succeeds, and what is sent after the
  -- authorization byte is a stream that a receiver reads as one packet: the header of the segment,
  -- the bytes of the image from 991 times the segment on, 991 or as many as there are, and a
  -- CRC-16 that is sound. The result, and a bit of the header, say whether these are the image's
  -- last bytes. The acknowledgement is used up, and what can be sent is as before.
  pub send_image-delivers :
      (image segment : ℕ) (img : NabuImage) (es : List RecvEvent) (c : NabuConnection Rest)
      → NotPak img
      → All IsByte img.content
      → segment * nabu_maxpayloadsize < length img.content
      → ((n : ℕ) → n ≤ nabu_maxpacketsize → malloc_ok n ≡ true)
      → c.io.recvs ≡ byte 0x10 ∷ byte 0x06 ∷ es
      → Accepts c.io.sends
      → (stream : List ℕ) × (packet : List ℕ) × (last : Bool) × (c' : NabuConnection Rest)
        × (adaptor_send_image sv image segment img c ≡ done (last, c'))
        × (c'.io.sent ≡ c.io.sent ++ (nabu_service_authorized ∷ stream))
        × (unescape stream ≡ some (packet, []))
        × IsPacketOf image segment img.content last packet
        × LastIs last segment img.content
        × (c'.io.recvs ≡ es)
        × Accepts c'.io.sends
  unfolding adaptor_send_image send_nabu_image
  send_image-delivers image segment img es c plain bytes inside memory acks h =
      let off : ℕ = segment * nabu_maxpayloadsize in
      let total : ℕ = length img.content in
      let len : ℕ = segment_length nabu_maxpayloadsize off total in
      let last : Bool = segment_last nabu_maxpayloadsize off total in
      let packet : List ℕ = nabu_packet image segment img in
      let (size, small, residue) = nabu_packet_shape image segment img bytes inside in
      let (b, bs, e) = nonempty packet (omega (arith, size)) in
      let (sends, sent, h') = deliver_buf b bs packet es c e small acks h in
      let within : leb total off ≡ false = ground arith in
      let have : malloc_ok (len + nabu_headersize + nabu_footersize) ≡ true =
        memory (len + nabu_headersize + nabu_footersize) (omega (arith, size, small)) in
      let same : (length packet == len + nabu_headersize + nabu_footersize) ≡ true =
        ground (arith, size) in
      (
        escape packet ++ nabu_msg_finished,
        packet,
        last,
        delivered packet es sends c,
        ap (λ m. m c) (by_type-nabu img.channel_type image segment img plain)
            ∙ rw (within, have)
                (bind-done (assert _) _ c tt c (ap (λ t. assert t c) same)
                  ∙ bind-done (adaptor_send_packet packet) (λ _. pure last) c tt _ sent),
        refl,
        ap (λ l. unescape (escape packet ++ l)) (append-nil nabu_msg_finished)
            ∙ unescape-escape packet [],
        nabu_packet-IsPacketOf image segment img bytes inside,
        segment_last-LastIs segment img.content,
        refl,
        h',
      )
