-- ===== src/Adaptor/Fetch.antt =====
-- A client that fetches a whole image from nabud/adaptor.c. It looks at nothing but the bytes that
-- are sent to it: it asks `adaptor_send_image` for segment after segment, and stops at the packet
-- whose header says that it is the last one.
use nabud.Prelude.{
  ℕ, zero, suc, ◌+◌, ◌-◌, ◌*◌, ◌≤◌, ◌<◌, ◌≡◌, ◌∙◌, refl, sym, arith, ap, ap₂, List, [], ◌∷◌, ◌++◌,
  Bool, true, false, ◌==◌, not, if◌then◌else◌, length, take, drop, Option, none, some,
}
use nabud.Prelude.{length-append, length-drop, bit_and}
use nabud.Prelude.Monad.{Outcome, done}
use nabud.Prelude.Word.{All, IsByte}
use nabud.Proto.{nabu_maxpacketsize, byte_at}
use nabud.Crc16.{crc16_genibus_init, crc16_genibus_update}
use nabud.ConnIo.{RecvEvent, byte}
use nabud.ConnIo.Send.{Accepts}
use nabud.Adaptor.{NabuConnection, NabuImage, Services}
use nabud.Adaptor.Packets.{adaptor_send_image}
use nabud.Adaptor.Escape.{unescape}
use nabud.Adaptor.Segments.{slice-append-drop, take-all}
use nabud.Adaptor.Layout.{type_of, wire_header, payload_at, LastIs, IsPacketOf}
use nabud.Adaptor.Images.{NotPak, send_image-delivers}

-- A packet is accepted when nothing follows it and its CRC-16 leaves the remainder of a sound one.
abbrev accepted : Option (List ℕ × List ℕ) → Option (List ℕ)
accepted (some (packet, [])) =
    if crc16_genibus_update packet crc16_genibus_init == 0x1d0f then some packet else none
accepted _ = none

-- What is sent for a segment: the authorization byte and an escaped packet.
abbrev received : List ℕ → Option (List ℕ)
received [] = none
received (b ∷ stream) = if b == 0x91 then accepted (unescape stream) else none

-- The mark of the last packet in the type byte.
abbrev marked : ℕ → Bool
marked type = not (bit_and type 0x10 == 0)

-- What is between the header and the CRC.
abbrev payload_of : List ℕ → List ℕ
payload_of packet = take (length packet - 18) (drop 16 packet)

abbrev in_front : List ℕ → Option (List ℕ) → Option (List ℕ)
in_front payload none = none
in_front payload (some rest) = some (payload ++ rest)

-- The bytes of a packet, with those of the packets behind it if it is not the last.
abbrev put_together : Option (List ℕ) → Option (List ℕ) → Option (List ℕ)
put_together none rest = none
put_together (some packet) rest =
    if marked (byte_at packet 11)
    then some (payload_of packet)
    else in_front (payload_of packet) rest

module _ (sv : Services) (image : ℕ) (img : NabuImage) where
  open sv use {Rest, malloc_ok}

  -- What is put together after one request, and with the requests that follow.
  abbrev after_request :
      List ℕ
      → Outcome (Bool × NabuConnection Rest)
      → (NabuConnection Rest → Option (List ℕ))
      → Option (List ℕ)
  after_request sent (done (last, c')) more =
      put_together (received (drop (length sent) c'.io.sent)) (more c')
  after_request sent _ more = none

  -- The bytes of an image from a segment on, in at most so many requests.
  unfoldable pub fetch : ℕ → ℕ → NabuConnection Rest → Option (List ℕ)
  fetch zero segment c = none
  fetch (suc n) segment c =
      after_request c.io.sent (adaptor_send_image sv image segment img c)
        (λ c'. fetch n (segment + 1) c')

-- A NABU that acknowledges so many times.
abbrev pub acks : ℕ → List RecvEvent → List RecvEvent
acks zero es = es
acks (suc n) es = byte 0x10 ∷ byte 0x06 ∷ acks n es

drop-length-append : (xs ys : List ℕ) → drop (length xs) (xs ++ ys) ≡ ys
drop-length-append [] ys = refl
drop-length-append (x ∷ xs) ys = drop-length-append xs ys

take-length-append : (xs ys : List ℕ) (n : ℕ) → n ≡ length xs → take n (xs ++ ys) ≡ xs
take-length-append [] ys n e = rw e refl
take-length-append (x ∷ xs) ys zero e = absurd (omega arith)
take-length-append (x ∷ xs) ys (suc n) e =
    ap (λ l. x ∷ l) (take-length-append xs ys n (omega arith))

marked-type_of : (first last : Bool) → marked (type_of first last) ≡ last
marked-type_of true true = refl
marked-type_of true false = refl
marked-type_of false true = refl
marked-type_of false false = refl

received_sound :
    (packet stream : List ℕ)
    → unescape stream ≡ some (packet, [])
    → crc16_genibus_update packet crc16_genibus_init ≡ 0x1d0f
    → received (0x91 ∷ stream) ≡ some packet
received_sound packet stream e sound = rw (e, sound) refl

payload_of-layout :
    (header payload : List ℕ) (h l : ℕ)
    → length header ≡ 16
    → payload_of (header ++ (payload ++ (h ∷ l ∷ []))) ≡ payload
payload_of-layout header payload h l sixteen =
    ap (λ t. take (length (header ++ (payload ++ (h ∷ l ∷ []))) - 18) t)
      (ap (λ t. drop t (header ++ (payload ++ (h ∷ l ∷ [])))) (sym sixteen)
        ∙ drop-length-append header (payload ++ (h ∷ l ∷ [])))
    ∙ take-length-append payload (h ∷ l ∷ []) _ (
        omega (
          arith,
          sixteen,
          length-append header (payload ++ (h ∷ l ∷ [])),
          length-append payload (h ∷ l ∷ []),
        ))

-- What a packet adds to the bytes behind it.
module _ (image segment : ℕ) (content : List ℕ) where
  put_together-packet :
      (last : Bool) (packet : List ℕ) (rest : Option (List ℕ))
      → IsPacketOf image segment content last packet
      → put_together (some packet) rest ≡ (
          if last
          then some (payload_at segment content)
          else in_front (payload_at segment content) rest)
  put_together-packet last packet rest p =
      let mark : marked (byte_at packet 11) ≡ last =
        ap (λ t. marked (byte_at t 11)) p.bytes ∙ marked-type_of (segment == 0) last in
      let payload : payload_of packet ≡ payload_at segment content =
        ap payload_of p.bytes
        ∙ payload_of-layout (wire_header image segment last) (payload_at segment content) p.crc_high
            p.crc_low refl in
      ap₂ (λ m l. if m then some l else in_front l rest) mark payload

  whole-step :
      (last : Bool) (rest : Option (List ℕ))
      → LastIs last segment content
      → ((segment + 1) * 991 < length content → rest ≡ some (drop ((segment + 1) * 991) content))
      → (if last
          then some (payload_at segment content)
          else in_front (payload_at segment content) rest)
        ≡ some (drop (segment * 991) content)
  whole-step true rest h k = ap some (
      take-all 991 (drop (segment * 991) content)
        (omega (arith, length-drop (segment * 991) content)))
  whole-step false rest h k =
      ap (in_front (payload_at segment content)) (k h)
      ∙ ap some (slice-append-drop (segment * 991) 991 ((segment + 1) * 991) content (omega arith))

module _ (sv : Services) (image : ℕ) (img : NabuImage) (es : List RecvEvent) (plain : NotPak img)
    (bytes : All IsByte img.content)
    (memory : (n : ℕ) → n ≤ nabu_maxpacketsize → sv.malloc_ok n ≡ true) where
  fetch-rest :
      (n segment : ℕ) (c : NabuConnection sv.Rest)
      → segment * 991 < length img.content
      → length img.content ≤ (segment + n) * 991
      → c.io.recvs ≡ acks n es
      → Accepts c.io.sends
      → fetch sv image img n segment c ≡ some (drop (segment * 991) img.content)
  unfolding fetch
  fetch-rest zero segment c inside enough acked ready = absurd (omega arith)
  fetch-rest (suc n) segment c inside enough acked ready =
      let (stream, packet, last, c', e, sent, whole, layout, end, acked', ready') =
        send_image-delivers sv image segment img (acks n es) c plain bytes inside memory acked
          ready in
      let rest : Option (List ℕ) = fetch sv image img n (segment + 1) c' in
      let got : received (drop (length c.io.sent) c'.io.sent) ≡ some packet =
        ap received
          (ap (drop (length c.io.sent)) sent ∙ drop-length-append c.io.sent (0x91 ∷ stream))
        ∙ received_sound packet stream whole layout.sound in
      rw (e, got)
        (put_together-packet image segment img.content last packet rest layout
          ∙ whole-step image segment img.content last rest end
              (λ more. fetch-rest n (segment + 1) c' more (omega arith) acked' ready'))

-- A client that fetches an image of bytes that is not of a PAK's channel and is not empty, and that
-- acknowledges each segment, gets the whole image, and neither stops early nor asks for a segment
-- too many, whatever the number of requests it may make, if segments of 991 bytes cover the image
-- in so many. Memory must be there for a packet.
pub fetch-whole :
    (sv : Services) (image n : ℕ) (img : NabuImage) (es : List RecvEvent)
    (c : NabuConnection sv.Rest)
    → NotPak img
    → All IsByte img.content
    → ((m : ℕ) → m ≤ nabu_maxpacketsize → sv.malloc_ok m ≡ true)
    → 0 < length img.content
    → length img.content ≤ n * 991
    → c.io.recvs ≡ acks n es
    → Accepts c.io.sends
    → fetch sv image img n 0 c ≡ some img.content
fetch-whole sv image n img es c plain bytes memory some_bytes enough acked ready =
    fetch-rest sv image img es plain bytes memory n 0 c some_bytes (omega arith) acked ready
