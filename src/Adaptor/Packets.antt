-- ===== src/Adaptor/Packets.antt =====
-- nabud/adaptor.c, from `adaptor_send_packet` to `adaptor_send_time`: an image is cut into segments,
-- a segment is wrapped in a packet (or is one already, in a PAK), and the packet is sent escaped.
use nabud.Prelude.{ℕ, ◌+◌, ◌-◌, ◌*◌, ◌%◌, ◌^◌, List, [], ◌∷◌, ◌++◌, Bool, false, leb, ltb, ◌==◌}
use nabud.Prelude.{if◌then◌else◌, length, take, drop, Option, none, some}
use nabud.Prelude.Monad.{M, pure, read, assert, ◌>>=◌, ◌>>◌}
use nabud.Proto.{nabu_maxpacketsize, nabu_maxpayloadsize, nabu_headersize, nabu_footersize}
use nabud.Proto.{nabu_totalpayloadsize, nabu_init_pkthdr, nabu_set_crc}
use nabud.Crc16.{crc16_genibus_init, crc16_genibus_update, crc16_genibus_fini}
use nabud.ConnIo.{conn_io_send, conn_io_send_byte}
use nabud.Channel.{ImageChannelType, invalid, pak, nabu}
use nabud.Adaptor.{NabuImage, NabuConnection, Services, Tm, on_io, adaptor_escape_packet}
use nabud.Adaptor.{adaptor_expect_ack, adaptor_send_unauthorized}
use nabud.Adaptor.{nabu_service_authorized, nabu_msg_finished}

abbrev pub nabu_image_time : ℕ
nabu_image_time = 0x7f_ffff

-- `data[off .. off + len)`
abbrev pub slice : List ℕ → ℕ → ℕ → List ℕ
slice content off len = take len (drop off content)

-- The CRC that ends a packet, over all that precedes it.
unfoldable pub packet_crc : List ℕ → ℕ
packet_crc buf = crc16_genibus_fini (crc16_genibus_update buf crc16_genibus_init)

-- How much of an image a segment holds, for a segment that starts before the image's end, and
-- whether it is the last.
abbrev pub segment_length : ℕ → ℕ → ℕ → ℕ
segment_length full off total = if leb total (off + full) then total - off else full

abbrev pub segment_last : ℕ → ℕ → ℕ → Bool
segment_last full off total = leb total (off + full)

-- The packet of a segment of a NABU image: header, payload and CRC.
unfoldable pub nabu_packet : ℕ → ℕ → NabuImage → List ℕ
nabu_packet image segment img =
    let off = segment * nabu_maxpayloadsize in
    let total = length img.content in
    let body =
      nabu_init_pkthdr image segment (off % 2 ^ 16) (segment_last nabu_maxpayloadsize off total)
      ++ slice img.content off (segment_length nabu_maxpayloadsize off total) in
    body ++ nabu_set_crc (packet_crc body)

-- Where a segment of a PAK starts, past the two bytes before each packet of the file.
unfoldable pub pak_offset : ℕ → ℕ
pak_offset segment = segment * nabu_totalpayloadsize + (2 * segment + 2)

-- The packet of a segment of a PAK: the bytes of the file, with the CRC computed anew.
unfoldable pub pak_packet : List ℕ → ℕ → ℕ → List ℕ
pak_packet content off len =
    let body = slice content off (len - 2) in body ++ nabu_set_crc (packet_crc body)

module _ {R : Type 0} where
  unfoldable pub adaptor_send_packet : List ℕ → M (NabuConnection R) (Unit {0})
  adaptor_send_packet buf = do
    assert (leb (length buf) nabu_maxpacketsize)
    adaptor_escape_packet buf
    on_io (conn_io_send_byte nabu_service_authorized)
    acked ← adaptor_expect_ack
    if acked
        then (do
          pktbuf ← read (λ c. c.pktbuf)
          on_io (conn_io_send pktbuf)
          on_io (conn_io_send nabu_msg_finished))
        else pure tt

  -- What the error paths have in common.
  abbrev pub refuse : Bool → M (NabuConnection R) Bool
  refuse last = adaptor_send_unauthorized >> pure last

abbrev pub tm_or_zero : Option Tm → Tm
tm_or_zero (some tm) = tm
tm_or_zero none = record {
  tm_wday = 0;
  tm_mon = 0;
  tm_mday = 0;
  tm_hour = 0;
  tm_min = 0;
  tm_sec = 0;
}

-- The nine bytes of `struct nabu_time`; the year is 84, as in 1984.
unfoldable pub time_image : Tm → NabuImage
time_image tm = record {
  channel_type = none;
  content =
      0x02
      ∷ 0x02
      ∷ ((tm.tm_wday + 1) % 256)
      ∷ 84
      ∷ ((tm.tm_mon + 1) % 256)
      ∷ (tm.tm_mday % 256)
      ∷ (tm.tm_hour % 256)
      ∷ (tm.tm_min % 256)
      ∷ (tm.tm_sec % 256)
      ∷ [];
  number = nabu_image_time;
}

module _ (sv : Services) where
  open sv use {Rest, malloc_ok, localtime}

  unfoldable pub adaptor_send_pak : ℕ → NabuImage → M (NabuConnection Rest) Bool
  unfolding pak_offset
  adaptor_send_pak segment img =
      let off = pak_offset segment in
      let total = length img.content in
      let len = segment_length nabu_totalpayloadsize off total in
      let last = segment_last nabu_totalpayloadsize off total in
      if leb total off
      then refuse false
      else if ltb len (nabu_headersize + nabu_footersize)
      then refuse last
      else if malloc_ok len
      then (adaptor_send_packet (pak_packet img.content off len) >> pure last)
      else refuse last

  -- A packet that has not come out at `pktlen` bytes ends the process.
  unfoldable pub send_nabu_image : ℕ → ℕ → NabuImage → M (NabuConnection Rest) Bool
  send_nabu_image image segment img =
      let off = segment * nabu_maxpayloadsize in
      let total = length img.content in
      let len = segment_length nabu_maxpayloadsize off total in
      let last = segment_last nabu_maxpayloadsize off total in
      if leb total off
      then refuse false
      else if malloc_ok (len + nabu_headersize + nabu_footersize)
      then (assert
            (length (nabu_packet image segment img) == len + nabu_headersize + nabu_footersize)
          >> (adaptor_send_packet (nabu_packet image segment img) >> pure last))
      else refuse last

  abbrev pub send_by_type :
      Option ImageChannelType → ℕ → ℕ → NabuImage → M (NabuConnection Rest) Bool
  send_by_type (some pak) image segment img = adaptor_send_pak segment img
  send_by_type (some nabu) image segment img = send_nabu_image image segment img
  send_by_type (some invalid) image segment img = send_nabu_image image segment img
  send_by_type none image segment img = send_nabu_image image segment img

  unfoldable pub adaptor_send_image : ℕ → ℕ → NabuImage → M (NabuConnection Rest) Bool
  adaptor_send_image image segment img = send_by_type img.channel_type image segment img

  unfoldable pub adaptor_send_time : M (NabuConnection Rest) (Unit {0})
  adaptor_send_time = do
    now ← read (λ c. localtime c.rest)
    last ← adaptor_send_image nabu_image_time 0 (time_image (tm_or_zero now))
    pure tt
