-- ===== src/Net/Slip/Tests.antt =====
-- slip.c on concrete packets.
use kappara.Base.{ℕ, zero, suc, ◌≡◌, refl, true, false, some, List, [], ◌∷◌, arith}
use kappara.Net.Slip.{SlipState, Port, frame_packet, rx_byte, slip_rq_putp}
use kappara.Net.Slip.Receive.{IsBounded, slip_rq_putp-IsBounded}
use kappara.Net.Slip.RoundTrip.{send_all, Received, send_all-Received}

abbrev idle : SlipState
idle = record {
  frame = some [];
  in_esc = false;
  rx_frames = 0;
  rx_runts = 0;
  rx_overflow = 0;
  tx_frames = 0;
}

abbrev port : Port
port = record { slip = idle; answers = true ∷ true ∷ []; up = []; down = [] }

abbrev bytes : ℕ → List ℕ
bytes zero = []
bytes (suc n) = 0xc0 ∷ bytes n

-- A packet of 20 bytes in two blocks, with both special bytes in it.
abbrev packet : List (List ℕ)
packet = bytes 10 ∷ (0xdb ∷ 0xdc ∷ bytes 8) ∷ []

stuffed :
    frame_packet ((1 ∷ 0xc0 ∷ []) ∷ (0xdb ∷ []) ∷ [])
    ≡ 0xc0 ∷ 1 ∷ 0xdb ∷ 0xdc ∷ 0xdb ∷ 0xdd ∷ 0xc0 ∷ []
unfolding frame_packet
stuffed = refl

runt_dropped : (slip_rq_putp port true (frame_packet ((1 ∷ []) ∷ []) ∷ [])).slip.rx_runts ≡ 1
unfolding slip_rq_putp rx_byte frame_packet
runt_dropped = refl

slip_rq_putp-IsBounded_example : IsBounded (slip_rq_putp port true packet)
slip_rq_putp-IsBounded_example =
    slip_rq_putp-IsBounded port true packet (record { frame = omega arith; up = tt })

send_all-Received_example :
    Received port (packet ∷ []) (slip_rq_putp port true (send_all port (packet ∷ [])).down)
send_all-Received_example =
    send_all-Received port port (packet ∷ []) refl (refl, tt)
      (record { frame = refl; plain = refl }) (refl, tt) (omega arith)
