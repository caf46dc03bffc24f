-- ===== src/Adaptor/Rounds.antt =====
-- Sending images takes rounds from the script of receptions and adds none, whatever the NABU does.
use nabud.Prelude.{
  ℕ, ◌+◌, arith, List, [], ◌∷◌, Bool, true, false, leb, ltb, ◌*◌, if◌then◌else◌, Option, none, some,
}
use nabud.Prelude.{length, ◌==◌}
use nabud.Prelude.Monad.{M, Outcome, done, blocked, fault, pure, read, assert, ◌>>◌}
use nabud.Prelude.Measure.{Within, Quiet, Quiet-bind, Quiet-pure}
use nabud.ConnIo.{ConnIo, conn_io_recv, conn_io_send, conn_io_recv_byte, conn_io_send_byte}
use nabud.ConnIo.Rounds.{rounds_left, recv-Quiet, send-Quiet}
use nabud.Channel.{ImageChannelType, pak, nabu, invalid}
use nabud.Adaptor.{
  NabuConnection, NabuImage, Services, on_io, adaptor_escape_packet, adaptor_expect_byte,
  adaptor_expect_sequence,
}
use nabud.Adaptor.{adaptor_expect_ack, adaptor_send_unauthorized, nabu_msg_ack, nabu_msg_finished}
use nabud.Proto.{nabu_maxpayloadsize, nabu_totalpayloadsize}
use nabud.Adaptor.Packets.{
  segment_length, segment_last, pak_offset, adaptor_send_packet, adaptor_send_pak, send_nabu_image,
  send_by_type, adaptor_send_image, adaptor_send_time, refuse, time_image, tm_or_zero,
  nabu_image_time, pak_packet, nabu_packet,
}

module _ {R : Type 0} where
  abbrev pub left : NabuConnection R → ℕ
  left c = rounds_left c.io

  zoom-Within :
      {A : Type 0}
      → (n : ℕ) (c : NabuConnection R) (o : Outcome (A × ConnIo)) → Within rounds_left n o
      → Within left n (elim o [
        | done (a, t) ↦ done (a, record c { io = t })
        | blocked ↦ blocked
        | fault ↦ fault
      ])
  zoom-Within n c (done (a, t)) h = h
  zoom-Within n c blocked h = tt
  zoom-Within n c fault h = tt

  pub on_io-Quiet : {A : Type 0} → (m : M ConnIo A) → Quiet rounds_left m → Quiet left (on_io m)
  on_io-Quiet m h = record { run = λ c. zoom-Within (left c) c (m c.io) (h.run c.io) }

  pub send_on-Quiet : (buf : List ℕ) → Quiet left (on_io (conn_io_send buf))
  send_on-Quiet buf = on_io-Quiet (conn_io_send buf) (send-Quiet buf)

  pub send_byte_on-Quiet : (b : ℕ) → Quiet left (on_io (conn_io_send_byte b))
  unfolding conn_io_send_byte
  send_byte_on-Quiet b = send_on-Quiet (b ∷ [])

  pub recv_on-Quiet : (n : ℕ) → Quiet left (on_io (conn_io_recv n))
  recv_on-Quiet n = on_io-Quiet (conn_io_recv n) (recv-Quiet n)

  pub if-Quiet :
      {A : Type 0}
      → (b : Bool) (m k : M (NabuConnection R) A) → Quiet left m
      → Quiet left k
      → Quiet left (if b then m else k)
  if-Quiet true m k h h' = h
  if-Quiet false m k h h' = h'

  assert-Quiet : (b : Bool) → Quiet left (assert {S = NabuConnection R} b)
  assert-Quiet true = record { run = λ c. omega arith }
  assert-Quiet false = record { run = λ c. tt }

  expect_byte-Quiet : (val : ℕ) → Quiet left (adaptor_expect_byte val)
  unfolding adaptor_expect_byte conn_io_recv_byte
  expect_byte-Quiet val =
      Quiet-bind left (on_io (conn_io_recv 1)) _ (recv_on-Quiet 1)
        (λ (received, got). Quiet-pure left _)

  expect_sequence-Quiet : (seq : List ℕ) → Quiet left (adaptor_expect_sequence seq)
  unfolding adaptor_expect_sequence
  expect_sequence-Quiet [] = Quiet-pure left true
  expect_sequence-Quiet (b ∷ seq) =
      Quiet-bind left (adaptor_expect_byte b) _ (expect_byte-Quiet b)
        (λ same. if-Quiet same _ _ (expect_sequence-Quiet seq) (Quiet-pure left false))

  expect_ack-Quiet : Quiet left adaptor_expect_ack
  unfolding adaptor_expect_ack
  expect_ack-Quiet = expect_sequence-Quiet nabu_msg_ack

  pub unauthorized-Quiet : Quiet left adaptor_send_unauthorized
  unfolding adaptor_send_unauthorized
  unauthorized-Quiet =
      Quiet-bind left (on_io (conn_io_send_byte 0x90)) _ (send_byte_on-Quiet 0x90)
        (λ _. Quiet-bind left adaptor_expect_ack _ expect_ack-Quiet (λ _. Quiet-pure left tt))

  send_packet-Quiet : (buf : List ℕ) → Quiet left (adaptor_send_packet buf)
  unfolding adaptor_send_packet adaptor_escape_packet
  send_packet-Quiet buf =
      Quiet-bind left (assert (leb (length buf) 1024)) _ (assert-Quiet (leb (length buf) 1024))
        (λ _.
          Quiet-bind left (adaptor_escape_packet buf) _ (record { run = λ c. omega arith })
            (λ _. Quiet-bind left (on_io (conn_io_send_byte 0x91)) _ (send_byte_on-Quiet 0x91) (λ _.
              Quiet-bind left adaptor_expect_ack _ expect_ack-Quiet (λ acked.
                if-Quiet acked _ _
                  (Quiet-bind left (read (λ c. c.pktbuf)) _ (record { run = λ c. omega arith })
                    (λ pktbuf.
                      Quiet-bind left (on_io (conn_io_send pktbuf)) _ (send_on-Quiet pktbuf)
                        (λ _. send_on-Quiet nabu_msg_finished)))
                  (Quiet-pure left tt)))))

  then-Quiet :
      {A : Type 0}
      → (m : M (NabuConnection R) (Unit {0})) (a : A) → Quiet left m
      → Quiet left (m >> pure a)
  then-Quiet m a h = Quiet-bind left m _ h (λ _. Quiet-pure left a)

  gated-Quiet :
      (b last : Bool) {m : M (NabuConnection R) Bool}
      → Quiet left m
      → Quiet left (if b then refuse last else m)
  gated-Quiet b last h = if-Quiet b (refuse last) _ (then-Quiet _ last unauthorized-Quiet) h

  sent-Quiet :
      (b last : Bool) (buf : List ℕ)
      → Quiet left (if b then (adaptor_send_packet buf >> pure last) else refuse last)
  sent-Quiet b last buf =
      if-Quiet b _ (refuse last) (then-Quiet _ last (send_packet-Quiet buf))
        (then-Quiet _ last unauthorized-Quiet)

module _ (sv : Services) where
  open sv use {Rest}

  send_pak-Quiet : (segment : ℕ) (img : NabuImage) → Quiet left (adaptor_send_pak sv segment img)
  unfolding adaptor_send_pak
  send_pak-Quiet segment img =
      let total : ℕ = length img.content in
      let len : ℕ = segment_length nabu_totalpayloadsize (pak_offset segment) total in
      let last : Bool = segment_last nabu_totalpayloadsize (pak_offset segment) total in
      gated-Quiet (leb total (pak_offset segment)) false (
        gated-Quiet (ltb len 18) last
          (sent-Quiet (sv.malloc_ok len) last (pak_packet img.content (pak_offset segment) len)))

  send_nabu-Quiet :
      (image segment : ℕ) (img : NabuImage) → Quiet left (send_nabu_image sv image segment img)
  unfolding send_nabu_image
  send_nabu-Quiet image segment img =
      let off : ℕ = segment * nabu_maxpayloadsize in
      let total : ℕ = length img.content in
      let len : ℕ = segment_length nabu_maxpayloadsize off total in
      let last : Bool = segment_last nabu_maxpayloadsize off total in
      let packet : List ℕ = nabu_packet image segment img in
      gated-Quiet (leb total off) false (
        if-Quiet (sv.malloc_ok (len + 16 + 2)) _ (refuse last)
          (Quiet-bind left (assert (length packet == len + 16 + 2)) _
            (assert-Quiet (length packet == len + 16 + 2))
            (λ _. then-Quiet _ last (send_packet-Quiet packet)))
          (then-Quiet _ last unauthorized-Quiet))

  by_type-Quiet :
      (type : Option ImageChannelType) (image segment : ℕ) (img : NabuImage)
      → Quiet left (send_by_type sv type image segment img)
  by_type-Quiet (some pak) image segment img = send_pak-Quiet segment img
  by_type-Quiet (some nabu) image segment img = send_nabu-Quiet image segment img
  by_type-Quiet (some invalid) image segment img = send_nabu-Quiet image segment img
  by_type-Quiet none image segment img = send_nabu-Quiet image segment img

  pub send_image-Quiet :
      (image segment : ℕ) (img : NabuImage) → Quiet left (adaptor_send_image sv image segment img)
  unfolding adaptor_send_image
  send_image-Quiet image segment img = by_type-Quiet img.channel_type image segment img

  pub send_time-Quiet : Quiet left (adaptor_send_time sv)
  unfolding adaptor_send_time
  send_time-Quiet =
      Quiet-bind left (read (λ c. sv.localtime c.rest)) _ (record { run = λ c. omega arith })
        (λ now.
          Quiet-bind left (adaptor_send_image sv nabu_image_time 0 (time_image (tm_or_zero now))) _
            (send_image-Quiet nabu_image_time 0 (time_image (tm_or_zero now)))
            (λ last. Quiet-pure left tt))
