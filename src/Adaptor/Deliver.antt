-- ===== src/Adaptor/Deliver.antt =====
-- What a NABU that acknowledges gets from the adaptor, and what happens when it does not.
use nabud.Prelude.{ℕ, ◌≤◌, ◌≡◌, ◌≢◌, ◌∙◌, refl, arith, ap, List, [], ◌∷◌, ◌++◌, true, false}
use nabud.Prelude.{length, append_assoc, leb, ◌==◌, Bool-cases, inl, inr}
use nabud.Prelude.Monad.{assert, done, zoom-done, bind-done}
use nabud.Proto.{nabu_maxpacketsize}
use nabud.ConnIo.{RecvEvent, SendEvent, byte, conn_io_send, conn_io_send_byte, conn_io_recv_byte}
use nabud.ConnIo.Recv.{recv_all}
use nabud.ConnIo.Send.{Accepts, send_all}
use nabud.Adaptor.{NabuConnection, on_io, escape, adaptor_expect_byte, adaptor_escape_packet}
use nabud.Adaptor.{adaptor_expect_sequence, adaptor_expect_ack, nabu_msg_escape, nabu_msg_finished}
use nabud.Adaptor.{nabu_service_authorized}
use nabud.Adaptor.Packets.{adaptor_send_packet}

escape-cons : (b : ℕ) (buf : List ℕ) → (x : ℕ) × (xs : List ℕ) × (escape (b ∷ buf) ≡ x ∷ xs)
unfolding escape
escape-cons b buf = elim (Bool-cases (b == nabu_msg_escape)) [
  | inl e ↦ (0x10, 0x10 ∷ escape buf, rw e refl)
  | inr e ↦ (b, escape buf, rw e refl)
]

module _ {R : Type 0} where
  -- A connection after `out` has been sent, with the rounds `es` of writes left.
  abbrev pub after_send : List ℕ → List SendEvent → NabuConnection R → NabuConnection R
  after_send out es c = record c { io = record c.io { sends = es; sent = c.io.sent ++ out } }

  abbrev pub after_recv : List RecvEvent → NabuConnection R → NabuConnection R
  after_recv es c = record c { io = record c.io { recvs = es } }

  send_on :
      (b : ℕ) (buf : List ℕ) (c : NabuConnection R)
      → Accepts c.io.sends
      → (es : List SendEvent) × (on_io (conn_io_send (b ∷ buf)) c
          ≡ done (tt, after_send (b ∷ buf) es c))
        × Accepts es
  send_on b buf c h =
      let (es, e, h') = send_all b buf c.io h in
      (
        es,
        zoom-done (λ d. d.io) (λ d io. record d { io = io }) (conn_io_send (b ∷ buf)) c _ _ e,
        h',
      )

  pub send_byte_on :
      (b : ℕ) (c : NabuConnection R)
      → Accepts c.io.sends
      → (es : List SendEvent) × (on_io (conn_io_send_byte b) c
          ≡ done (tt, after_send (b ∷ []) es c))
        × Accepts es
  unfolding conn_io_send_byte
  send_byte_on b c h = send_on b [] c h

  recv_byte_on :
      (b : ℕ) (es : List RecvEvent) (c : NabuConnection R)
      → c.io.recvs ≡ byte b ∷ es
      → on_io conn_io_recv_byte c ≡ done ((true, b ∷ []), after_recv es c)
  unfolding conn_io_recv_byte
  recv_byte_on b es c h =
      zoom-done (λ d. d.io) (λ d io. record d { io = io }) conn_io_recv_byte c _ _
        (recv_all b [] es c.io h)

  expect_byte-ready :
      (val b : ℕ) (es : List RecvEvent) (c : NabuConnection R)
      → c.io.recvs ≡ byte b ∷ es
      → adaptor_expect_byte val c ≡ done (b == val, after_recv es c)
  unfolding adaptor_expect_byte
  expect_byte-ready val b es c h =
      bind-done (on_io conn_io_recv_byte) _ c _ _ (recv_byte_on b es c h)

  pub expect_ack-ready :
      (es : List RecvEvent) (c : NabuConnection R)
      → c.io.recvs ≡ byte 0x10 ∷ byte 0x06 ∷ es
      → adaptor_expect_ack c ≡ done (true, after_recv es c)
  unfolding adaptor_expect_ack adaptor_expect_sequence
  expect_ack-ready es c h =
      bind-done (adaptor_expect_byte 0x10) _ c _ _
        (expect_byte-ready 0x10 0x10 (byte 0x06 ∷ es) c h)
      ∙ bind-done (adaptor_expect_byte 0x06) _ _ _ _
          (expect_byte-ready 0x06 0x06 es (after_recv (byte 0x06 ∷ es) c) refl)

  expect_ack-other :
      (b : ℕ) (es : List RecvEvent) (c : NabuConnection R)
      → c.io.recvs ≡ byte b ∷ es
      → (b == 0x10) ≡ false
      → adaptor_expect_ack c ≡ done (false, after_recv es c)
  unfolding adaptor_expect_ack adaptor_expect_sequence
  expect_ack-other b es c h differs =
      bind-done (adaptor_expect_byte 0x10) _ c _ _ (expect_byte-ready 0x10 b es c h)
      ∙ rw differs refl

  send_buf :
      (buf : List ℕ) (b : ℕ) (rest : List ℕ) (c : NabuConnection R)
      → buf ≡ b ∷ rest
      → Accepts c.io.sends
      → (es : List SendEvent) × (on_io (conn_io_send buf) c ≡ done (tt, after_send buf es c))
        × Accepts es
  send_buf buf b rest c e h = rw e (send_on b rest c h)

  -- The state that a delivered packet leaves: the authorization, the packet escaped, and the
  -- finishing sequence have been sent, and the two bytes of the acknowledgement are used up.
  abbrev pub delivered :
      List ℕ → List RecvEvent → List SendEvent → NabuConnection R → NabuConnection R
  delivered buf es sends c = record c {
    pktbuf = escape buf;
    io = record c.io {
      recvs = es;
      sends = sends;
      sent = c.io.sent ++ (nabu_service_authorized ∷ (escape buf ++ nabu_msg_finished));
    };
  }

  -- A packet of one to 1024 bytes for a NABU that acknowledges, on writes that do not fail: the
  -- adaptor sends the authorization byte, the packet escaped and the finishing sequence, and
  -- nothing else.
  pub send_packet-delivers :
      (b : ℕ) (buf : List ℕ) (es : List RecvEvent) (c : NabuConnection R)
      → length (b ∷ buf) ≤ nabu_maxpacketsize
      → c.io.recvs ≡ byte 0x10 ∷ byte 0x06 ∷ es
      → Accepts c.io.sends
      → (sends : List SendEvent) × (adaptor_send_packet (b ∷ buf) c
          ≡ done (tt, delivered (b ∷ buf) es sends c))
        × Accepts sends
  unfolding adaptor_send_packet adaptor_escape_packet
  send_packet-delivers b buf es c small acks h =
      let fits : leb (length (b ∷ buf)) nabu_maxpacketsize ≡ true = ground arith in
      let c0 : NabuConnection R = record c { pktbuf = escape (b ∷ buf) } in
      let (s1, e1, h1) = send_byte_on nabu_service_authorized c0 h in
      let c1 : NabuConnection R = after_send (nabu_service_authorized ∷ []) s1 c0 in
      let e2 = expect_ack-ready es c1 acks in
      let (x, xs, e) = escape-cons b buf in
      let (s3, e3, h3) = send_buf (escape (b ∷ buf)) x xs (after_recv es c1) e h1 in
      let (s4, e4, h4) =
        send_on nabu_msg_escape (0xe1 ∷ []) (after_send (escape (b ∷ buf)) s3 (after_recv es c1))
          h3 in
      (
        s4,
        bind-done (assert _) _ c tt c (ap (λ t. assert t c) fits)
            ∙ bind-done (on_io (conn_io_send_byte nabu_service_authorized)) _ c0 _ _ e1
            ∙ bind-done adaptor_expect_ack _ c1 _ _ e2
            ∙ bind-done (on_io (conn_io_send (escape (b ∷ buf)))) _ (after_recv es c1) _ _ e3
            ∙ e4
            ∙ ap
                (λ l.
                  done (tt, record c0 { io = record c0.io { recvs = es; sends = s4; sent = l } }))
                (append_assoc (c.io.sent ++ (nabu_service_authorized ∷ [])) (escape (b ∷ buf))
                    nabu_msg_finished
                  ∙ append_assoc c.io.sent (nabu_service_authorized ∷ [])
                      (escape (b ∷ buf) ++ nabu_msg_finished)),
        h4,
      )

  -- If the first byte that comes back is not the first of an acknowledgement, the packet is not
  -- sent: only the authorization byte has been.
  pub send_packet-unacknowledged :
      (b : ℕ) (buf : List ℕ) (es : List RecvEvent) (c : NabuConnection R)
      → length buf ≤ nabu_maxpacketsize
      → c.io.recvs ≡ byte b ∷ es
      → b ≢ nabu_msg_escape
      → Accepts c.io.sends
      → (sends : List SendEvent) × (adaptor_send_packet buf c
          ≡ done (
            tt,
            record c {
              pktbuf = escape buf;
              io = record c.io {
                recvs = es;
                sends = sends;
                sent = c.io.sent ++ (nabu_service_authorized ∷ []);
              };
            },
          ))
        × Accepts sends
  unfolding adaptor_send_packet adaptor_escape_packet
  send_packet-unacknowledged b buf es c small answer differs h =
      let fits : leb (length buf) nabu_maxpacketsize ≡ true = ground arith in
      let other : (b == 0x10) ≡ false = ground arith in
      let c0 : NabuConnection R = record c { pktbuf = escape buf } in
      let (s1, e1, h1) = send_byte_on nabu_service_authorized c0 h in
      let c1 : NabuConnection R = after_send (nabu_service_authorized ∷ []) s1 c0 in
      (
        s1,
        bind-done (assert _) _ c tt c (ap (λ t. assert t c) fits)
            ∙ bind-done (on_io (conn_io_send_byte nabu_service_authorized)) _ c0 _ _ e1
            ∙ bind-done adaptor_expect_ack _ c1 _ _ (expect_ack-other b es c1 answer other),
        h1,
      )
