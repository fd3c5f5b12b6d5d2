-- ===== src/Net/Slip/RoundTrip.antt =====
-- SLIP end to end: what one module frames, the other delivers.
use kappara.Base.{
  ℕ, zero, suc, ◌+◌, ◌≤◌, ◌<◌, ◌≡◌, refl, sym, ap, ◌∙◌, Bool, true, false, some, List, [], ◌∷◌,
  ◌++◌, arith, length, map, All, length-append, flatten, append-nil, append_assoc, subst, ltb,
  if◌then◌else◌,
}
use kappara.Net.Slip.{
  Port, slip_end, slip_mtu, stuff, stuff_bytes, frame_packet, tx_cap, rx_byte, rx_bytes,
  slip_append, end_frame, slip_end_frame, slip_deliver_frame, slip_rq_putp, slip_wq_putp,
  next_answer, rest_answers,
}
use kappara.Net.Slip.Send.{stuff_blocks-flatten}
use kappara.Net.Slip.Fragments.{rx_bytes-append}

-- The next `n` answers of `allocb` are successes.
abbrev pub Grants : ℕ → List Bool → Type 0
Grants zero bs = Unit {0}
Grants (suc n) [] = ⊥
Grants (suc n) (b ∷ bs) = (b ≡ true) × Grants n bs

Grants-pred : (n : ℕ) (bs : List Bool) → Grants (suc n) bs → Grants n bs
Grants-pred zero bs g = tt
Grants-pred (suc n) [] g = g
Grants-pred (suc n) (b ∷ bs) g = (g.0, Grants-pred n bs g.1)

Grants-rest :
    (n : ℕ) (bs : List Bool)
    → Grants (suc n) bs
    → (next_answer bs ≡ true) × Grants n (rest_answers bs)
Grants-rest n [] g = absurd g
Grants-rest n (b ∷ bs) g = g

-- A packet is a chain of blocks, here one of at most the MTU.
abbrev pub IsSmall : List (List ℕ) → Type 0
IsSmall m = length (flatten m) ≤ slip_mtu

-- The packets that have at least an IPv4 header, each in one block.
pub proper : List (List (List ℕ)) → List (List ℕ)
proper [] = []
proper (m ∷ ms) = if ltb (length (flatten m)) 20 then proper ms else flatten m ∷ proper ms

-- IP hands the packets to `slip_wq_putp`, one after the other.
pub send_all : Port → List (List (List ℕ)) → Port
send_all p [] = p
send_all p (m ∷ ms) = send_all (slip_wq_putp p true m).0 ms

-- The port with the bytes `bs` in its frame buffer, between two bytes of the line.
abbrev pub holding : Port → List ℕ → Port
holding p bs = record p { slip = record p.slip { frame = some bs; in_esc = false } }

-- One byte of the packet, stuffed, is appended to the frame while there is room.
rx_bytes-stuff :
    (p : Port) (bs : List ℕ) (c : ℕ)
    → length bs < slip_mtu
    → rx_bytes (holding p bs) (stuff c) ≡ holding p (bs ++ c ∷ [])
unfolding rx_bytes rx_byte slip_append
rx_bytes-stuff p bs c h = ground arith

pub rx_bytes-stuff_bytes :
    (p : Port) (bs cs : List ℕ)
    → length bs + length cs ≤ slip_mtu
    → rx_bytes (holding p bs) (stuff_bytes cs) ≡ holding p (bs ++ cs)
unfolding rx_bytes stuff_bytes
rx_bytes-stuff_bytes p bs [] h = ap (holding p) (sym (append-nil bs))
rx_bytes-stuff_bytes p bs (c ∷ cs) h =
    rx_bytes-append (holding p bs) (stuff c) (stuff_bytes cs)
    ∙ ap (λ q. rx_bytes q (stuff_bytes cs)) (rx_bytes-stuff p bs c (omega arith))
    ∙ rx_bytes-stuff_bytes p (bs ++ c ∷ []) cs (omega (arith, length-append bs (c ∷ [])))
    ∙ ap (holding p) (append_assoc bs (c ∷ []) cs)

slip_wq_putp_small :
    (p : Port) (m : List (List ℕ))
    → IsSmall m
    → next_answer p.answers ≡ true
    → ((slip_wq_putp p true m).0.down ≡ p.down ++ frame_packet m ∷ [])
      × ((slip_wq_putp p true m).0.answers ≡ rest_answers p.answers)
unfolding slip_wq_putp tx_cap
slip_wq_putp_small p m h g = ground arith

send_all-down :
    (p : Port) (ms : List (List (List ℕ)))
    → All IsSmall ms
    → Grants (length ms) p.answers
    → (send_all p ms).down ≡ p.down ++ map frame_packet ms
unfolding send_all
send_all-down p [] h g = sym (append-nil p.down)
send_all-down p (m ∷ ms) h g =
    send_all-down q ms h.1 (rw sent.1 granted.1)
    ∙ ap (λ d. d ++ map frame_packet ms) sent.0
    ∙ append_assoc p.down (frame_packet m ∷ []) (map frame_packet ms)
  where
    q : Port
    q = (slip_wq_putp p true m).0

    granted : (next_answer p.answers ≡ true) × Grants (length ms) (rest_answers p.answers)
    granted = Grants-rest (length ms) p.answers g

    sent : (q.down ≡ p.down ++ frame_packet m ∷ []) × (q.answers ≡ rest_answers p.answers)
    sent = slip_wq_putp_small p m h.0 granted.0

-- The END in front of a packet changes nothing.
pub rx_frame :
    (p : Port) (m : List (List ℕ))
    → rx_bytes (holding p []) (frame_packet m)
      ≡ rx_bytes (rx_bytes (holding p []) (stuff_bytes (flatten m))) (slip_end ∷ [])
unfolding rx_bytes frame_packet rx_byte slip_end_frame
rx_frame p m =
    ap (λ bs. rx_bytes (holding p []) (bs ++ slip_end ∷ [])) (stuff_blocks-flatten m)
    ∙ rx_bytes-append (holding p []) (stuff_bytes (flatten m)) (slip_end ∷ [])

rx_packet :
    (p : Port) (m : List (List ℕ))
    → IsSmall m
    → rx_bytes (holding p []) (frame_packet m)
      ≡ end_frame (holding p (flatten m)) (some (flatten m))
unfolding rx_bytes rx_byte slip_end_frame
rx_packet p m h =
    rx_frame p m
    ∙ ap (λ q. rx_bytes q (slip_end ∷ [])) (rx_bytes-stuff_bytes p [] (flatten m) (omega arith))

-- The receiver waits for a packet.
pub record IsReady (p : Port) : Type 0 where
  pub frame : p.slip.frame ≡ some []
  pub plain : p.slip.in_esc ≡ false

pub holding-IsReady : (p : Port) → IsReady p → p ≡ holding p []
holding-IsReady p r = ground arith

-- What the receiver is after one packet.
record Took (p : Port) (m : List (List ℕ)) (q : Port) : Type 0 where
  ready : IsReady q
  up : q.up ≡ p.up ++ proper (m ∷ [])
  overflow : q.slip.rx_overflow ≡ p.slip.rx_overflow
  grants : (n : ℕ) → Grants (suc n) p.answers → Grants n q.answers

end_frame-Took :
    (p : Port) (m : List (List ℕ)) (bs : List ℕ)
    → flatten m ≡ bs
    → next_answer p.answers ≡ true
    → Took p m (end_frame (holding p bs) (some bs))
unfolding end_frame slip_deliver_frame proper
end_frame-Took p m [] e g = record {
  ready = ground arith;
  up = ground (arith, append-nil p.up);
  overflow = refl;
  grants = λ n. Grants-pred n p.answers;
}
end_frame-Took p m (b ∷ bs) e g = record {
  ready = ground arith;
  up = ground (arith, append-nil p.up);
  overflow = ground arith;
  grants = λ n h. ground (arith, Grants-rest n p.answers h);
}

packet-Took :
    (p : Port) (m : List (List ℕ))
    → IsReady p
    → IsSmall m
    → next_answer p.answers ≡ true
    → Took p m (rx_bytes p (frame_packet m))
packet-Took p m r h g =
    subst (λ q. Took p m (rx_bytes q (frame_packet m))) (sym (holding-IsReady p r))
      (rw (rx_packet p m h) (end_frame-Took p m (flatten m) refl g))

-- What the receiver is after a list of packets.
pub record Received (p : Port) (ms : List (List (List ℕ))) (q : Port) : Type 0 where
  pub ready : IsReady q
  pub up : q.up ≡ p.up ++ proper ms
  pub overflow : q.slip.rx_overflow ≡ p.slip.rx_overflow

proper-cons :
    (m : List (List ℕ)) (ms : List (List (List ℕ))) → proper (m ∷ []) ++ proper ms ≡ proper (m ∷ ms)
unfolding proper
proper-cons m ms = ground arith

Received-cons :
    (p q t : Port) (m : List (List ℕ)) (ms : List (List (List ℕ)))
    → Took p m q
    → Received q ms t
    → Received p (m ∷ ms) t
Received-cons p q t m ms took rest = record {
  ready = rest.ready;
  up =
      rest.up
      ∙ ap (λ u. u ++ proper ms) took.up
      ∙ append_assoc p.up (proper (m ∷ [])) (proper ms)
      ∙ ap (λ u. p.up ++ u) (proper-cons m ms);
  overflow = rest.overflow ∙ took.overflow;
}

frames-Received :
    (p : Port) (ms : List (List (List ℕ)))
    → IsReady p
    → All IsSmall ms
    → Grants (length ms) p.answers
    → Received p ms (slip_rq_putp p true (map frame_packet ms))
unfolding slip_rq_putp
frames-Received p [] r h g = record {
  ready = r;
  up = unfold proper in sym (append-nil p.up);
  overflow = refl;
}
frames-Received p (m ∷ ms) r h g =
    let took = packet-Took p m r h.0 (Grants-rest (length ms) p.answers g).0 in
    Received-cons p (rx_bytes p (frame_packet m)) _ m ms took
      (frames-Received (rx_bytes p (frame_packet m)) ms took.ready h.1 (took.grants (length ms) g))

-- Every packet of at most 296 bytes that IP hands to one module, in blocks of any size and with any
-- bytes in it, is delivered by the other in order and unchanged if it has at least 20 bytes, and
-- dropped if not; the receiver ends ready for the next packet with no overflow counted. The sender
-- has sent nothing before, the receiver is ready, and `allocb` serves both for every packet.
pub send_all-Received :
    (s p : Port) (ms : List (List (List ℕ)))
    → s.down ≡ []
    → Grants (length ms) s.answers
    → IsReady p
    → Grants (length ms) p.answers
    → All IsSmall ms
    → Received p ms (slip_rq_putp p true (send_all s ms).down)
send_all-Received s p ms e gs r gp h = rw (send_all-down s ms h gs, e) (frames-Received p ms r h gp)
