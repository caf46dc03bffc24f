-- ===== src/Adaptor/Tests.antt =====
-- A connection of a NABU that acknowledges, and one that does not.
use nabud.Prelude.{
  ℕ, ◌+◌, ◌≤◌, ◌≡◌, List, [], ◌∷◌, ◌++◌, Bool, length, none, some, refl, arith, true, false,
}
use nabud.Prelude.Monad.{done, pure}
use nabud.Prelude.Measure.{Quiet-pure}
use nabud.Proto.{nabu_headersize, nabu_footersize, nabu_maxpacketsize}
use nabud.Crc16.{crc16_genibus_init, crc16_genibus_update}
use nabud.ConnIo.{ok, RecvEvent, SendEvent, byte, wrote, read_eof}
use nabud.ConnIo.Send.{Accepts}
use nabud.Channel.{nabu}
use nabud.Adaptor.{NabuImage, NabuConnection, Services, escape}
use nabud.Adaptor.Packets.{adaptor_send_packet, adaptor_send_image, nabu_packet}
use nabud.Adaptor.Messages.{adaptor_event_loop}
use nabud.Adaptor.Escape.{unescape, unescape-escape}
use nabud.Adaptor.Segments.{nabu_packet_shape}
use nabud.Adaptor.Layout.{IsPacketOf, LastIs}
use nabud.Adaptor.Deliver.{
  delivered, after_send, after_recv, send_packet-delivers, send_packet-unacknowledged,
}
use nabud.Adaptor.Images.{send_image-delivers, send_image-beyond}
use nabud.Adaptor.Fetch.{fetch, fetch-whole}
use nabud.Adaptor.Loop.{Ends, event_loop-Ends}

abbrev services : Services
services = record {
  Rest = Unit;
  image_load = λ image c. (none, c);
  image_unload = λ img last c. c;
  image_channel_select = λ channel c. c;
  conn_reboot = λ c. c;
  retronet_request = λ msg. pure false;
  nhacp_request = λ msg. pure false;
  localtime = λ r. none;
  malloc_ok = λ n. true;
}

abbrev idle : List RecvEvent → NabuConnection (Unit {0})
idle es = record {
  io = record { state = ok; watchdog = 10; recvs = es; sends = wrote 1 ∷ []; sent = [] };
  pktbuf = [];
  selection = record { channel = none; selected_file = none; retronet_enabled = false };
  rest = tt;
}

abbrev image : NabuImage
image = record { channel_type = some nabu; content = 0x10 ∷ 0x20 ∷ []; number = 1 }

abbrev answers : List RecvEvent
answers = byte 0x10 ∷ byte 0x06 ∷ read_eof ∷ []

-- The escape byte is doubled.
escape_doubles : escape (1 ∷ 0x10 ∷ 2 ∷ []) ≡ 1 ∷ 0x10 ∷ 0x10 ∷ 2 ∷ []
unfolding escape
escape_doubles = refl

unescape-escape_example :
    unescape (escape (1 ∷ 0x10 ∷ []) ++ (0x10 ∷ 0xe1 ∷ 7 ∷ [])) ≡ some (1 ∷ 0x10 ∷ [], 7 ∷ [])
unescape-escape_example = unescape-escape (1 ∷ 0x10 ∷ []) (7 ∷ [])

nabu_packet_shape_example :
    (length (nabu_packet 1 0 image) ≡ 2 + nabu_headersize + nabu_footersize)
    × (length (nabu_packet 1 0 image) ≤ nabu_maxpacketsize)
    × (crc16_genibus_update (nabu_packet 1 0 image) crc16_genibus_init ≡ 0x1d0f)
nabu_packet_shape_example =
    nabu_packet_shape 1 0 image (omega arith, (omega arith, tt)) (omega arith)

send_packet-delivers_example :
    (sends : List SendEvent) × (adaptor_send_packet (1 ∷ 2 ∷ []) (idle answers)
      ≡ done (tt, delivered (1 ∷ 2 ∷ []) (read_eof ∷ []) sends (idle answers)))
    × Accepts sends
send_packet-delivers_example =
    send_packet-delivers 1 (2 ∷ []) (read_eof ∷ []) (idle answers) (omega arith) refl tt

send_packet-unacknowledged_example :
    (sends : List SendEvent) × (adaptor_send_packet (1 ∷ 2 ∷ []) (idle (byte 0x83 ∷ []))
      ≡ done (
        tt,
        record (idle (byte 0x83 ∷ [])) {
          pktbuf = escape (1 ∷ 2 ∷ []);
          io = record (idle (byte 0x83 ∷ [])).io { recvs = []; sends = sends; sent = 0x91 ∷ [] };
        },
      ))
    × Accepts sends
send_packet-unacknowledged_example =
    send_packet-unacknowledged 0x83 (1 ∷ 2 ∷ []) [] (idle (byte 0x83 ∷ [])) (omega arith) refl
      (λ e. omega arith) tt

send_image-delivers_example :
    (stream : List ℕ) × (packet : List ℕ) × (last : Bool) × (c' : NabuConnection (Unit {0}))
    × (adaptor_send_image services 1 0 image (idle answers) ≡ done (last, c'))
    × (c'.io.sent ≡ 0x91 ∷ stream)
    × (unescape stream ≡ some (packet, []))
    × IsPacketOf 1 0 (0x10 ∷ 0x20 ∷ []) last packet
    × LastIs last 0 (0x10 ∷ 0x20 ∷ [])
    × (c'.io.recvs ≡ read_eof ∷ [])
    × Accepts c'.io.sends
send_image-delivers_example =
    send_image-delivers services 1 0 image (read_eof ∷ []) (idle answers) (λ e. cc)
      (omega arith, (omega arith, tt)) (omega arith) (λ n h. refl) refl tt

fetch-whole_example : fetch services 1 image 1 0 (idle answers) ≡ some (0x10 ∷ 0x20 ∷ [])
fetch-whole_example =
    fetch-whole services 1 1 image (read_eof ∷ []) (idle answers) (λ e. cc)
      (omega arith, (omega arith, tt)) (λ m h. refl) (omega arith) (omega arith) refl tt

send_image-beyond_example :
    (sends : List SendEvent) × (adaptor_send_image services 1 1 image (idle answers)
      ≡ done (false, after_recv (read_eof ∷ []) (after_send (0x90 ∷ []) sends (idle answers))))
    × Accepts sends
send_image-beyond_example =
    send_image-beyond services 1 1 image (read_eof ∷ []) (idle answers) (λ e. cc) (omega arith) refl
      tt

event_loop-Ends_example : Ends (adaptor_event_loop services 4 (idle answers))
event_loop-Ends_example =
    event_loop-Ends services 4 (idle answers)
      (
        λ image c. omega arith,
        λ img last c. omega arith,
        λ channel c. omega arith,
        λ c. omega arith,
        λ msg. Quiet-pure _ false,
        λ msg. Quiet-pure _ false,
      )
      (omega arith)
