-- ===== src/Net/Slip/Oversize.antt =====
-- A frame that exceeds the MTU on the line: what becomes of its end.
use kappara.Base.{
  ℕ, ◌≤◌, ◌≡◌, sym, ap, ◌∙◌, true, some, List, [], ◌∷◌, ◌++◌, arith, length, append-nil, inc32,
  subst,
}
use kappara.Net.Slip.{
  Port, slip_end, slip_mtu, stuff, stuff_bytes, frame_packet, rx_byte, rx_bytes, append_to,
  slip_append, end_frame, slip_end_frame, slip_deliver_frame, slip_rq_putp,
}
use kappara.Net.Slip.Send.{stuff_bytes-append}
use kappara.Net.Slip.Fragments.{rx_bytes-append}
use kappara.Net.Slip.RoundTrip.{holding, rx_bytes-stuff_bytes, rx_frame, IsReady, holding-IsReady}

-- The receiver with an empty frame, after one overflow.
abbrev overflowed : Port → Port
overflowed p = record p { slip = record p.slip { rx_overflow = inc32 p.slip.rx_overflow } }

-- A byte for which there is no room empties the frame and is lost; the next byte is stored again.
rx_bytes-stuff_full :
    (p : Port) (bs : List ℕ) (c : ℕ)
    → slip_mtu ≤ length bs
    → rx_bytes (holding p bs) (stuff c) ≡ holding (overflowed p) []
unfolding rx_bytes rx_byte slip_append append_to
rx_bytes-stuff_full p bs c h = ground arith

rx_oversize :
    (p : Port) (bs : List ℕ) (c : ℕ) (cs : List ℕ)
    → length bs ≡ slip_mtu
    → length cs ≤ slip_mtu
    → rx_bytes (holding p []) (stuff_bytes (bs ++ c ∷ cs)) ≡ holding (overflowed p) cs
unfolding stuff_bytes
rx_oversize p bs c cs e h =
    ap (rx_bytes (holding p [])) (stuff_bytes-append bs (c ∷ cs))
    ∙ rx_bytes-append (holding p []) (stuff_bytes bs) (stuff c ++ stuff_bytes cs)
    ∙ ap (λ q. rx_bytes q (stuff c ++ stuff_bytes cs)) (rx_bytes-stuff_bytes p [] bs (omega arith))
    ∙ rx_bytes-append (holding p bs) (stuff c) (stuff_bytes cs)
    ∙ ap (λ q. rx_bytes q (stuff_bytes cs)) (rx_bytes-stuff_full p bs c (omega arith))
    ∙ rx_bytes-stuff_bytes (overflowed p) [] cs (omega arith)

deliver_tail :
    (p : Port) (cs : List ℕ)
    → 20 ≤ length cs
    → ((end_frame (holding (overflowed p) cs) (some cs)).up ≡ p.up ++ cs ∷ [])
      × ((end_frame (holding (overflowed p) cs) (some cs)).slip.rx_overflow
          ≡ inc32 p.slip.rx_overflow)
unfolding end_frame slip_deliver_frame
deliver_tail p [] h = absurd (omega arith)
deliver_tail p (c ∷ cs) h = ground arith

-- A framed packet of 297 + k bytes with 20 ≤ k ≤ 296 arrives at a ready receiver: one overflow is
-- counted, and the last k bytes of the packet are handed up as if they were a packet. So the
-- receiver drops the start of an oversize frame and does not wait for the END to drop the rest.
pub oversize_tail_delivered :
    (p : Port) (bs : List ℕ) (c : ℕ) (cs : List ℕ)
    → IsReady p
    → length bs ≡ slip_mtu
    → 20 ≤ length cs
    → length cs ≤ slip_mtu
    → let q = slip_rq_putp p true (frame_packet ((bs ++ c ∷ cs) ∷ []) ∷ []) in
      (q.up ≡ p.up ++ cs ∷ []) × (q.slip.rx_overflow ≡ inc32 p.slip.rx_overflow)
unfolding slip_rq_putp rx_bytes rx_byte slip_end_frame
oversize_tail_delivered p bs c cs r e lo hi =
    subst (λ q. (q.up ≡ p.up ++ cs ∷ []) × (q.slip.rx_overflow ≡ inc32 p.slip.rx_overflow))
      (sym arrives) (deliver_tail p cs lo)
  where
    packet : List ℕ
    packet = bs ++ c ∷ cs

    stored : rx_bytes (holding p []) (stuff_bytes (packet ++ [])) ≡ holding (overflowed p) cs
    stored = rw append-nil (rx_oversize p bs c cs e hi)

    arrives :
        slip_rq_putp p true (frame_packet (packet ∷ []) ∷ [])
        ≡ end_frame (holding (overflowed p) cs) (some cs)
    arrives =
        ap (λ q. rx_bytes q (frame_packet (packet ∷ []))) (holding-IsReady p r)
        ∙ rx_frame p (packet ∷ [])
        ∙ ap (λ q. rx_bytes q (slip_end ∷ [])) stored
