-- ===== src/Adaptor.antt =====
-- nabud/adaptor.c: the emulated NABU Adaptor, which answers the requests of a NABU on a connection.
-- This file has the state, what the adaptor needs of other components, and the small exchanges;
-- `Packets` has the sending of images and `Messages` the handlers and the event loop.
pub mod Packets
pub mod Messages
pub mod Escape
pub mod Segments
pub mod Layout
pub mod Deliver
pub mod Images
pub mod Fetch
pub mod Rounds
pub mod Handlers
pub mod Loop
mod Tests
use nabud.Prelude.{ℕ, ◌+◌, List, [], ◌∷◌, ◌++◌, Bool, true, false, ◌==◌, ◌&&◌, if◌then◌else◌}
use nabud.Prelude.{Option, none, some}
use nabud.Prelude.Monad.{M, pure, modify, zoom, ◌>>=◌, ◌>>◌}
use nabud.Proto.{byte_at}
use nabud.ConnIo.{ConnIo, conn_io_recv, conn_io_recv_byte, conn_io_send, conn_io_send_byte}
use nabud.Channel.{ImageChannelType, Selection}

-- `struct nabu_image`, as far as sending needs it: the type of its channel, if it has one, and its
-- data, whose length is the field `length`.
pub record NabuImage : Type 0 where
  pub channel_type : Option ImageChannelType
  pub content : List ℕ
  pub number : ℕ

-- `struct tm`
pub record Tm : Type 0 where
  pub tm_wday : ℕ
  pub tm_mon : ℕ
  pub tm_mday : ℕ
  pub tm_hour : ℕ
  pub tm_min : ℕ
  pub tm_sec : ℕ

-- `struct nabu_connection`. `pktbuf` is the buffer up to `pktlen`; `rest` stands for what other
-- components keep: the image caches, the NHACP sessions and the RetroNet context.
pub record NabuConnection (R : Type 0) : Type 0 where
  pub io : ConnIo
  pub pktbuf : List ℕ
  pub selection : Selection
  pub rest : R

-- What the adaptor calls of other components, and of the C library: `localtime` is the time in
-- local form if there is one, and `malloc_ok` says whether so many bytes can be had.
pub record Services : Type 1 where
  pub Rest : Type 0
  pub image_load : ℕ → NabuConnection Rest → Option NabuImage × NabuConnection Rest
  pub image_unload : NabuImage → Bool → NabuConnection Rest → NabuConnection Rest
  pub image_channel_select : ℕ → NabuConnection Rest → NabuConnection Rest
  pub conn_reboot : NabuConnection Rest → NabuConnection Rest
  pub retronet_request : ℕ → M (NabuConnection Rest) Bool
  pub nhacp_request : ℕ → M (NabuConnection Rest) Bool
  pub localtime : Rest → Option Tm
  pub malloc_ok : ℕ → Bool

abbrev pub nabu_msg_escape : ℕ
nabu_msg_escape = 0x10

abbrev pub nabu_msg_ack : List ℕ
nabu_msg_ack = nabu_msg_escape ∷ 0x06 ∷ []

abbrev pub nabu_msg_finished : List ℕ
nabu_msg_finished = nabu_msg_escape ∷ 0xe1 ∷ []

abbrev pub nabu_state_confirmed : ℕ
nabu_state_confirmed = 0xe4

abbrev pub nabu_service_unauthorized : ℕ
nabu_service_unauthorized = 0x90

abbrev pub nabu_service_authorized : ℕ
nabu_service_authorized = 0x91

-- The bytes that the loop of `adaptor_escape_packet` stores.
unfoldable pub escape : List ℕ → List ℕ
escape [] = []
escape (b ∷ buf) =
    let more = escape buf in
    if b == nabu_msg_escape then nabu_msg_escape ∷ nabu_msg_escape ∷ more else b ∷ more

module _ {R : Type 0} where
  abbrev pub on_io : {A : Type 0} → M ConnIo A → M (NabuConnection R) A
  on_io = zoom (λ c. c.io) (λ c io. record c { io = io })

  unfoldable pub adaptor_escape_packet : List ℕ → M (NabuConnection R) (Unit {0})
  adaptor_escape_packet buf = modify (λ c. record c { pktbuf = escape buf })

  unfoldable pub adaptor_expect_byte : ℕ → M (NabuConnection R) Bool
  adaptor_expect_byte val = do
    (received, got) ← on_io conn_io_recv_byte
    pure (received && byte_at got 0 == val)

  unfoldable pub adaptor_expect_sequence : List ℕ → M (NabuConnection R) Bool
  adaptor_expect_sequence [] = pure true
  adaptor_expect_sequence (b ∷ seq) = do
    same ← adaptor_expect_byte b
    if same then adaptor_expect_sequence seq else pure false

  unfoldable pub adaptor_expect_ack : M (NabuConnection R) Bool
  adaptor_expect_ack = adaptor_expect_sequence nabu_msg_ack

  unfoldable pub adaptor_send_ack : M (NabuConnection R) (Unit {0})
  adaptor_send_ack = on_io (conn_io_send nabu_msg_ack)

  unfoldable pub adaptor_send_confirmed : M (NabuConnection R) (Unit {0})
  adaptor_send_confirmed = on_io (conn_io_send_byte nabu_state_confirmed)

  -- Whether the NABU acknowledges is only logged.
  unfoldable pub adaptor_send_unauthorized : M (NabuConnection R) (Unit {0})
  adaptor_send_unauthorized = do
    on_io (conn_io_send_byte nabu_service_unauthorized)
    acked ← adaptor_expect_ack
    pure tt
