-- ===== src/ConnIo/Tests.antt =====
-- Runs of the connection on concrete scripts.
use nabud.Prelude.{◌≡◌, List, [], ◌∷◌, true, refl}
use nabud.Prelude.Monad.{done}
use nabud.ConnIo.{ConnIo, ok, byte, read_again, wrote, RecvEvent, SendEvent}
use nabud.ConnIo.{conn_io_recv, conn_io_send}
use nabud.ConnIo.Recv.{RecvPost, recv_whole, recv_again_loses}
use nabud.ConnIo.Send.{Accepts, send_all}

abbrev idle : List RecvEvent → List SendEvent → ConnIo
idle es fs = record { state = ok; watchdog = 10; recvs = es; sends = fs; sent = 0x91 ∷ [] }

abbrev three : ConnIo
three = idle (byte 1 ∷ byte 2 ∷ byte 3 ∷ byte 4 ∷ []) (wrote 1 ∷ wrote 9 ∷ [])

recv_whole_example : RecvPost 3 three (conn_io_recv 3 three)
recv_whole_example = recv_whole 3 three

abbrev stalled : ConnIo
stalled = idle (byte 1 ∷ byte 2 ∷ read_again ∷ byte 3 ∷ byte 4 ∷ []) []

-- Of the bytes 1, 2, 3, 4 a call for three bytes delivers 1, 3, 4.
recv_again_loses_example :
    conn_io_recv 3 stalled ≡ done ((true, 1 ∷ 3 ∷ 4 ∷ []), record stalled { recvs = [] })
recv_again_loses_example = recv_again_loses 1 3 4 (2 ∷ []) [] [] stalled refl

send_all_example :
    (es : List SendEvent) × (conn_io_send (5 ∷ 6 ∷ 7 ∷ []) three
      ≡ done (tt, record three { sends = es; sent = 0x91 ∷ 5 ∷ 6 ∷ 7 ∷ [] }))
    × Accepts es
send_all_example = send_all 5 (6 ∷ 7 ∷ []) three tt
