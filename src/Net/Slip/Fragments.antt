-- ===== src/Net/Slip/Fragments.antt =====
-- `slip_rq_putp` over a chain of blocks, and over the bytes of the chain.
use kappara.Base.{◌≡◌, refl, ℕ, true, List, [], ◌∷◌, ◌++◌, ◌∙◌, sym, flatten, ap}
use kappara.Net.Slip.{Port, rx_byte, rx_bytes, slip_rq_putp}

pub rx_bytes-append :
    (p : Port) (xs ys : List ℕ) → rx_bytes p (xs ++ ys) ≡ rx_bytes (rx_bytes p xs) ys
unfolding rx_bytes
rx_bytes-append p [] ys = refl
rx_bytes-append p (x ∷ xs) ys = rx_bytes-append (rx_byte p x) xs ys

pub slip_rq_putp-bytes :
    (p : Port) (ms : List (List ℕ)) → slip_rq_putp p true ms ≡ rx_bytes p (flatten ms)
unfolding slip_rq_putp rx_bytes
slip_rq_putp-bytes p [] = refl
slip_rq_putp-bytes p (m ∷ ms) =
    slip_rq_putp-bytes (rx_bytes p m) ms ∙ sym (rx_bytes-append p m (flatten ms))

-- However the line's bytes are cut into blocks, in whatever state the receiver is, the receiver ends
-- in the same state and has handed up the same frames: two chains of the same bytes act alike.
pub slip_rq_putp-fragments :
    (p : Port) (ms ns : List (List ℕ))
    → flatten ms ≡ flatten ns
    → slip_rq_putp p true ms ≡ slip_rq_putp p true ns
slip_rq_putp-fragments p ms ns e =
    slip_rq_putp-bytes p ms ∙ ap (rx_bytes p) e ∙ sym (slip_rq_putp-bytes p ns)
