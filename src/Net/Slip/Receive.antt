-- ===== src/Net/Slip/Receive.antt =====
-- The incoming side of slip.c on any input: the bounds of the frame buffer and of what is delivered.
use kappara.Base.{
  ℕ, ◌≤◌, ◌≡◌, Bool, true, false, Option, none, some, List, [], ◌∷◌, arith, length, All, All-append,
  length-append, refl,
}
use kappara.Net.Slip.{
  SlipState, Port, slip_mtu, slip_deliver_frame, append_to, slip_append, end_frame, slip_end_frame,
  rx_byte, rx_bytes, slip_rq_putp, unescape,
}

-- A frame in progress that its buffer can hold.
abbrev pub Fits : Option (List ℕ) → Type 0
Fits none = Unit {0}
Fits (some bytes) = length bytes ≤ slip_mtu

-- What may be handed to IP: at least an IPv4 header, at most the MTU.
abbrev pub Proper : List ℕ → Type 0
Proper bytes = (20 ≤ length bytes) × (length bytes ≤ slip_mtu)

pub record IsBounded (p : Port) : Type 0 where
  pub frame : Fits p.slip.frame
  pub up : All Proper p.up

append_to-Fits :
    (s : SlipState) (f : Option (List ℕ)) (c : ℕ)
    → s.frame ≡ f
    → Fits f
    → Fits (append_to s f c).frame
unfolding append_to
append_to-Fits s none c e h = rw e tt
append_to-Fits s (some bytes) c e h = ground (arith, length-append bytes (c ∷ []))

slip_append-Fits : (s : SlipState) (c : ℕ) → Fits s.frame → Fits (slip_append s c).frame
unfolding slip_append
slip_append-Fits s c h = append_to-Fits s s.frame c refl h

deliver-IsBounded :
    (p : Port) (bytes : List ℕ)
    → length bytes ≤ slip_mtu
    → All Proper p.up
    → IsBounded (slip_deliver_frame p bytes)
unfolding slip_deliver_frame
deliver-IsBounded p bytes h u = ground (arith, All-append Proper p.up (bytes ∷ []) u)

end_frame-IsBounded :
    (p : Port) (f : Option (List ℕ)) → Fits f → IsBounded p → IsBounded (end_frame p f)
unfolding end_frame
end_frame-IsBounded p none h v = v
end_frame-IsBounded p (some []) h v = v
end_frame-IsBounded p (some (b ∷ bs)) h v = deliver-IsBounded p (b ∷ bs) h v.up

rx_byte-IsBounded : (p : Port) (c : ℕ) → IsBounded p → IsBounded (rx_byte p c)
unfolding rx_byte slip_end_frame
rx_byte-IsBounded p c v = ground (
  arith,
  slip_append-Fits p.slip c v.frame,
  slip_append-Fits p.slip (unescape c) v.frame,
  end_frame-IsBounded p p.slip.frame v.frame v,
)

rx_bytes-IsBounded : (p : Port) (cs : List ℕ) → IsBounded p → IsBounded (rx_bytes p cs)
unfolding rx_bytes
rx_bytes-IsBounded p [] v = v
rx_bytes-IsBounded p (c ∷ cs) v = rx_bytes-IsBounded (rx_byte p c) cs (rx_byte-IsBounded p c v)

-- Whatever arrives on the line, M_DATA or not: the frame in progress stays within its buffer, and
-- every frame that is handed up has at least 20 and at most 296 bytes.
pub slip_rq_putp-IsBounded :
    (p : Port) (is_data : Bool) (ms : List (List ℕ))
    → IsBounded p
    → IsBounded (slip_rq_putp p is_data ms)
unfolding slip_rq_putp
slip_rq_putp-IsBounded p is_data [] v = v
slip_rq_putp-IsBounded p true (m ∷ ms) v =
    slip_rq_putp-IsBounded (rx_bytes p m) true ms (rx_bytes-IsBounded p m v)
slip_rq_putp-IsBounded p false (m ∷ ms) v = v
