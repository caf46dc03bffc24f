-- ===== src/Adaptor/Messages.antt =====
-- nabud/adaptor.c, from `adaptor_msg_reset` to the end: the handlers of the classic messages and the
-- event loop. Texts that are only logged are left out.
use nabud.Prelude.{ℕ, zero, suc, ◌-◌, Bool, true, false, leb, ◌==◌, ◌&&◌, not}
use nabud.Prelude.{if◌then◌else◌, drop, Option, none, some}
use nabud.Prelude.Monad.{M, Outcome, pure, modify, read, ◌>>=◌, ◌>>◌}
use nabud.Proto.{byte_at, nabu_get_uint16, nabu_get_uint24}
use nabud.ConnIo.{
  conn_io_send, conn_io_send_byte, conn_io_recv, conn_io_recv_byte, conn_io_check_state,
}
use nabud.ConnIo.{conn_io_set_state, conn_io_start_watchdog, conn_io_stop_watchdog, aborted}
use nabud.Channel.{conn_get_channel}
use nabud.Adaptor.{NabuImage, NabuConnection, Services, on_io, nabu_msg_finished}
use nabud.Adaptor.{adaptor_send_ack, adaptor_send_confirmed, adaptor_send_unauthorized}
use nabud.Adaptor.Packets.{nabu_image_time, adaptor_send_image, adaptor_send_time}

abbrev pub nabu_signal_status_no : ℕ
nabu_signal_status_no = 0x9f

abbrev pub nabu_signal_status_yes : ℕ
nabu_signal_status_yes = 0x1f

abbrev pub nabu_status_signal : ℕ
nabu_status_signal = 0x01

abbrev pub nabu_status_transmit : ℕ
nabu_status_transmit = 0x1e

abbrev pub nabu_msg_reset : ℕ
nabu_msg_reset = 0x80

abbrev pub nabu_msg_classic_last : ℕ
nabu_msg_classic_last = 0x85

abbrev pub status_byte : {A : Type 0} → Option A → ℕ
status_byte (some chan) = nabu_signal_status_yes
status_byte none = nabu_signal_status_no

module _ {R : Type 0} where
  abbrev abort : M (NabuConnection R) (Unit {0})
  abort = modify (λ c. record c { io = conn_io_set_state aborted c.io })

  abbrev finish_with : ℕ → M (NabuConnection R) (Unit {0})
  finish_with status = do on_io (conn_io_send_byte status); on_io (conn_io_send nabu_msg_finished)

  unfoldable pub adaptor_msg_channel_status : M (NabuConnection R) (Unit {0})
  adaptor_msg_channel_status = do
    chan ← read (λ c. conn_get_channel c.selection)
    finish_with (status_byte chan)

  unfoldable pub adaptor_msg_transmit_status : M (NabuConnection R) (Unit {0})
  adaptor_msg_transmit_status = finish_with nabu_signal_status_yes

  -- That the two bytes may never arrive is only logged.
  unfoldable pub adaptor_msg_mystery : M (NabuConnection R) (Unit {0})
  adaptor_msg_mystery = do adaptor_send_ack; msg ← on_io (conn_io_recv 2); adaptor_send_confirmed

  unfoldable pub adaptor_msg_get_status : M (NabuConnection R) (Unit {0})
  unfolding adaptor_msg_channel_status adaptor_msg_transmit_status
  adaptor_msg_get_status = do
    adaptor_send_ack
    (received, got) ← on_io conn_io_recv_byte
    let msg = byte_at got 0
    if not received
        then pure tt
        else if msg == nabu_status_signal
        then adaptor_msg_channel_status
        else if msg == nabu_status_transmit
        then adaptor_msg_transmit_status
        else pure tt

  unfoldable pub adaptor_msg_start_up : M (NabuConnection R) (Unit {0})
  adaptor_msg_start_up = do adaptor_send_ack; adaptor_send_confirmed

module _ (sv : Services) where
  open sv use {Rest, image_load, image_unload, image_channel_select, conn_reboot}
  open sv use {retronet_request, nhacp_request}

  unfoldable pub adaptor_msg_reset : M (NabuConnection Rest) (Unit {0})
  adaptor_msg_reset = do modify conn_reboot; adaptor_send_ack; adaptor_send_confirmed

  abbrev pub load : ℕ → M (NabuConnection Rest) (Option NabuImage)
  load image c = Outcome.done (image_load image c)

  unfoldable pub send_loaded : ℕ → ℕ → Option NabuImage → M (NabuConnection Rest) (Unit {0})
  send_loaded image segment none = adaptor_send_unauthorized
  send_loaded image segment (some img) = do
    last ← adaptor_send_image sv image segment img
    modify (image_unload img last)

  -- The request is a segment number in one byte and an image number in three.
  unfoldable pub adaptor_msg_packet_request : M (NabuConnection Rest) (Unit {0})
  unfolding send_loaded
  adaptor_msg_packet_request = do
    adaptor_send_ack
    (received, msg) ← on_io (conn_io_recv 4)
    let segment = byte_at msg 0
    let image = nabu_get_uint24 (drop 1 msg)
    if not received then abort else (do
      adaptor_send_confirmed
      if image == nabu_image_time
          then (if segment == 0 then adaptor_send_time sv else adaptor_send_unauthorized)
          else (do img ← load image; send_loaded image segment img))

  unfoldable pub adaptor_msg_change_channel : M (NabuConnection Rest) (Unit {0})
  adaptor_msg_change_channel = do
    adaptor_send_ack
    (received, msg) ← on_io (conn_io_recv 2)
    if not received
        then abort
        else (do modify (image_channel_select (nabu_get_uint16 msg)); adaptor_send_confirmed)

  -- The table `adaptor_msg_types`, by the index of the message.
  unfoldable pub adaptor_msg_types : ℕ → Option (M (NabuConnection Rest) (Unit {0}))
  adaptor_msg_types idx =
      if idx == 0
      then some adaptor_msg_reset
      else if idx == 1
      then some adaptor_msg_mystery
      else if idx == 2
      then some adaptor_msg_get_status
      else if idx == 3
      then some adaptor_msg_start_up
      else if idx == 4
      then some adaptor_msg_packet_request
      else if idx == 5
      then some adaptor_msg_change_channel
      else none

  unfoldable pub run_handler :
      Option (M (NabuConnection Rest) (Unit {0})) → M (NabuConnection Rest) Bool
  run_handler none = pure false
  run_handler (some handler) = handler >> pure true

  unfoldable pub adaptor_msg_classic : ℕ → M (NabuConnection Rest) Bool
  unfolding adaptor_msg_types run_handler
  adaptor_msg_classic msg =
      if leb nabu_msg_reset msg && leb msg nabu_msg_classic_last
      then run_handler (adaptor_msg_types (msg - nabu_msg_reset))
      else pure false

  -- A request goes to the first of the three that takes it.
  unfoldable pub dispatch_request : ℕ → M (NabuConnection Rest) (Unit {0})
  dispatch_request msg = do
    classic ← adaptor_msg_classic msg
    if classic then pure tt else (do
      retronet ← retronet_request msg
      if retronet then pure tt else (do nhacp ← nhacp_request msg; pure tt))

  -- One round of the event loop; the result says whether it goes on.
  unfoldable pub loop_round : M (NabuConnection Rest) Bool
  loop_round = do
    on_io conn_io_stop_watchdog
    (received, got) ← on_io conn_io_recv_byte
    if received
        then (do on_io (conn_io_start_watchdog 10); dispatch_request (byte_at got 0); pure true)
        else read (λ c. conn_io_check_state c.io)

  -- The loop, with fuel; `none` means that the fuel ran out. A round takes at least an event from
  -- the script of receptions.
  unfoldable pub adaptor_event_loop : ℕ → M (NabuConnection Rest) (Option (Unit {0}))
  adaptor_event_loop zero = pure none
  adaptor_event_loop (suc fuel) = do
    more ← loop_round
    if more then adaptor_event_loop fuel else pure (some tt)
