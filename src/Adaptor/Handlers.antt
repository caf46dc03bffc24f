-- ===== src/Adaptor/Handlers.antt =====
-- The handlers of the classic messages take rounds from the script of receptions and add none.
use nabud.Prelude.{ℕ, ◌≤◌, arith, Bool, ◌==◌, not, Option, none, some, drop}
use nabud.Prelude.Monad.{M, modify, read, ◌>>◌}
use nabud.Prelude.Measure.{Quiet, Quiet-bind, Quiet-pure}
use nabud.Proto.{byte_at, nabu_get_uint16, nabu_get_uint24}
use nabud.ConnIo.{conn_io_recv, conn_io_send, conn_io_recv_byte, conn_io_send_byte}
use nabud.ConnIo.{conn_io_set_state}
use nabud.Channel.{ImageChannel, conn_get_channel}
use nabud.Adaptor.{
  NabuConnection, NabuImage, Services, on_io, adaptor_send_ack, adaptor_send_confirmed,
  nabu_msg_ack, nabu_msg_finished,
}
use nabud.Adaptor.Packets.{adaptor_send_image, nabu_image_time}
use nabud.Adaptor.Rounds.{
  left, send_on-Quiet, send_byte_on-Quiet, recv_on-Quiet, if-Quiet, unauthorized-Quiet,
  send_image-Quiet, send_time-Quiet,
}
use nabud.Adaptor.Messages.{
  adaptor_msg_channel_status, adaptor_msg_transmit_status, adaptor_msg_mystery,
  adaptor_msg_get_status, adaptor_msg_start_up, status_byte,
}
use nabud.Adaptor.Messages.{
  load, send_loaded, adaptor_msg_reset, adaptor_msg_packet_request, adaptor_msg_change_channel,
}

module _ {R : Type 0} where
  seq-Quiet :
      {B : Type 0}
      → (m : M (NabuConnection R) (Unit {0})) (k : M (NabuConnection R) B) → Quiet left m
      → Quiet left k
      → Quiet left (m >> k)
  seq-Quiet m k h h' = Quiet-bind left m _ h (λ _. h')

  ack-Quiet : Quiet left (adaptor_send_ack {R = R})
  unfolding adaptor_send_ack
  ack-Quiet = send_on-Quiet nabu_msg_ack

  confirmed-Quiet : Quiet left (adaptor_send_confirmed {R = R})
  unfolding adaptor_send_confirmed
  confirmed-Quiet = send_byte_on-Quiet 0xe4

  finish-Quiet :
      (status : ℕ)
      → Quiet left
          (on_io {R = R} (conn_io_send_byte status) >> on_io (conn_io_send nabu_msg_finished))
  finish-Quiet status = seq-Quiet _ _ (send_byte_on-Quiet status) (send_on-Quiet nabu_msg_finished)

  channel_status-Quiet : Quiet left (adaptor_msg_channel_status {R = R})
  unfolding adaptor_msg_channel_status
  channel_status-Quiet =
      Quiet-bind left (read (λ c. conn_get_channel c.selection)) _
        (record { run = λ c. omega arith })
        (λ (chan : Option ImageChannel). finish-Quiet (status_byte chan))

  transmit_status-Quiet : Quiet left (adaptor_msg_transmit_status {R = R})
  unfolding adaptor_msg_transmit_status
  transmit_status-Quiet = finish-Quiet 0x1f

  pub mystery-Quiet : Quiet left (adaptor_msg_mystery {R = R})
  unfolding adaptor_msg_mystery
  mystery-Quiet =
      seq-Quiet _ _ ack-Quiet
        (Quiet-bind left (on_io (conn_io_recv 2)) _ (recv_on-Quiet 2) (λ _. confirmed-Quiet))

  recv_byte-Quiet : Quiet left (on_io {R = R} conn_io_recv_byte)
  unfolding conn_io_recv_byte
  recv_byte-Quiet = recv_on-Quiet 1

  pub get_status-Quiet : Quiet left (adaptor_msg_get_status {R = R})
  unfolding adaptor_msg_get_status
  get_status-Quiet = seq-Quiet _ _ ack-Quiet (
      Quiet-bind left (on_io conn_io_recv_byte) _ recv_byte-Quiet (λ (received, got).
        if-Quiet (not received) _ _ (Quiet-pure left tt) (
          if-Quiet (byte_at got 0 == 0x01) _ _ channel_status-Quiet
            (if-Quiet (byte_at got 0 == 0x1e) _ _ transmit_status-Quiet (Quiet-pure left tt)))))

  pub start_up-Quiet : Quiet left (adaptor_msg_start_up {R = R})
  unfolding adaptor_msg_start_up
  start_up-Quiet = seq-Quiet _ _ ack-Quiet confirmed-Quiet

  modify-Quiet :
      (f : NabuConnection R → NabuConnection R)
      → ((c : NabuConnection R) → left (f c) ≤ left c)
      → Quiet left (modify f)
  modify-Quiet f h = record { run = h }

-- What the other components must do for the loop to end: use up rounds at most.
abbrev pub ServicesQuiet : Services → Type 0
ServicesQuiet sv =
    ((image : ℕ) (c : NabuConnection sv.Rest) → left (sv.image_load image c).1 ≤ left c)
    × ((img : NabuImage) (last : Bool) (c : NabuConnection sv.Rest)
        → left (sv.image_unload img last c) ≤ left c)
    × ((channel : ℕ) (c : NabuConnection sv.Rest)
        → left (sv.image_channel_select channel c) ≤ left c)
    × ((c : NabuConnection sv.Rest) → left (sv.conn_reboot c) ≤ left c)
    × ((msg : ℕ) → Quiet left (sv.retronet_request msg))
    × ((msg : ℕ) → Quiet left (sv.nhacp_request msg))

module _ (sv : Services) where
  open sv use {Rest, image_load, image_unload, image_channel_select, conn_reboot}
  open sv use {retronet_request, nhacp_request}

  pub reset-Quiet :
      ((c : NabuConnection Rest) → left (conn_reboot c) ≤ left c)
      → Quiet left (adaptor_msg_reset sv)
  unfolding adaptor_msg_reset
  reset-Quiet h =
      seq-Quiet (modify conn_reboot) _ (modify-Quiet conn_reboot h)
        (seq-Quiet _ _ ack-Quiet confirmed-Quiet)

  send_loaded-Quiet :
      ((img : NabuImage) (last : Bool) (c : NabuConnection Rest)
        → left (image_unload img last c) ≤ left c)
      → (image segment : ℕ) (img : Option NabuImage) → Quiet left (send_loaded sv image segment img)
  unfolding send_loaded
  send_loaded-Quiet h image segment none = unauthorized-Quiet
  send_loaded-Quiet h image segment (some img) =
      Quiet-bind left (adaptor_send_image sv image segment img) _
        (send_image-Quiet sv image segment img)
        (λ last. modify-Quiet (image_unload img last) (h img last))

  pub packet_request-Quiet :
      ((image : ℕ) (c : NabuConnection Rest) → left (image_load image c).1 ≤ left c)
      → ((img : NabuImage) (last : Bool) (c : NabuConnection Rest)
          → left (image_unload img last c) ≤ left c)
      → Quiet left (adaptor_msg_packet_request sv)
  unfolding adaptor_msg_packet_request conn_io_set_state
  packet_request-Quiet h k = seq-Quiet _ _ ack-Quiet (
      Quiet-bind left (on_io (conn_io_recv 4)) _ (recv_on-Quiet 4) (λ (received, msg).
        let segment : ℕ = byte_at msg 0 in
        let image : ℕ = nabu_get_uint24 (drop 1 msg) in
        if-Quiet (not received) _ _ (record { run = λ c. omega arith })
          (seq-Quiet _ _ confirmed-Quiet (
            if-Quiet (image == nabu_image_time) _ _
              (if-Quiet (segment == 0) _ _ (send_time-Quiet sv) unauthorized-Quiet)
              (Quiet-bind left (load sv image) _ (record { run = λ c. h image c })
                (λ img. send_loaded-Quiet k image segment img))))))

  pub change_channel-Quiet :
      ((channel : ℕ) (c : NabuConnection Rest) → left (image_channel_select channel c) ≤ left c)
      → Quiet left (adaptor_msg_change_channel sv)
  unfolding adaptor_msg_change_channel conn_io_set_state
  change_channel-Quiet h = seq-Quiet _ _ ack-Quiet (
      Quiet-bind left (on_io (conn_io_recv 2)) _ (recv_on-Quiet 2) (λ (received, msg).
        if-Quiet (not received) _ _ (record { run = λ c. omega arith })
          (seq-Quiet (modify (image_channel_select (nabu_get_uint16 msg))) _
            (modify-Quiet (image_channel_select (nabu_get_uint16 msg)) (h (nabu_get_uint16 msg)))
            confirmed-Quiet)))
