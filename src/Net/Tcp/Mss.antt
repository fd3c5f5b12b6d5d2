-- ===== src/Net/Tcp/Mss.antt =====
-- tcp.c: the segment size and the congestion window.
use kappara.Base.{
  ℕ, ◌+◌, ◌-◌, ◌*◌, ◌/◌, ◌^◌, ◌≤◌, ◌<◌, ◌≡◌, refl, ◌⊎◌, inl, inr, Option, none, some, arith, ltb,
  leb, ◌==◌, Bool-cases, if◌then◌else◌, add32, sub32,
}
use native.Mathlib.Nat.{div-lt_iff_lt-mul}
use kappara.Net.Tcp.Types.{Tcb, mss_default}

-- The MTU of the route, less the IP and the shortest TCP header.
unfoldable pub tcp_local_mss : Option ℕ → ℕ
tcp_local_mss none = mss_default
tcp_local_mss (some mtu) =
    if leb mtu 40 then mss_default else if ltb 65535 (mtu - 40) then 65535 else mtu - 40

unfoldable pub tcp_rfc6928_iw : ℕ → ℕ
tcp_rfc6928_iw mss =
    let lo = if ltb 14600 (2 * mss) then 2 * mss else 14600 in
    if ltb (10 * mss) lo then 10 * mss else lo

-- The effective size: `peer` is 0 where the peer has sent no option.
unfoldable pub effective_mss : Option ℕ → ℕ → ℕ
unfolding tcp_local_mss
effective_mss mtu peer =
    let local = tcp_local_mss mtu in
    let eff = if peer == 0 then local else if ltb peer local then peer else local in
    if ltb eff mss_default then mss_default else eff

unfoldable pub tcp_negotiate_mss : Option ℕ → Tcb → ℕ → Tcb
unfolding effective_mss tcp_rfc6928_iw
tcp_negotiate_mss mtu s peer =
    let eff = effective_mss mtu peer in record s { mss = eff; cwnd = tcp_rfc6928_iw eff }

-- The division is by 0 in the source where `cwnd` is 0; here its result is then 0.
unfoldable pub tcp_cwnd_on_ack : Tcb → Tcb
tcp_cwnd_on_ack s =
    let incr = add32 (s.mss * s.mss) (s.cwnd / 2) / s.cwnd in
    if ltb s.cwnd s.ssthresh
    then record s { cwnd = add32 s.cwnd s.mss }
    else record s { cwnd = add32 s.cwnd (if incr == 0 then 1 else incr) }

-- Half of what is in flight, at least two segments.
unfoldable pub half_flight : Tcb → ℕ
half_flight s =
    let half = sub32 s.snd_nxt s.snd_una / 2 in if ltb half (2 * s.mss) then 2 * s.mss else half

unfoldable pub tcp_cwnd_on_rto : Tcb → Tcb
unfolding half_flight
tcp_cwnd_on_rto s = record s { ssthresh = half_flight s; cwnd = s.mss }

-- For every MTU up to 1500 and every option of the peer the negotiated size is between 536 and
-- 1460, which the 1500 bytes of `seg_data` can hold, and the initial window is between ten
-- segments of 536 bytes and 14600 bytes, so at least one segment.
pub tcp_negotiate_mss_bounds :
    (mtu : Option ℕ) (s : Tcb) (peer : ℕ)
    → ((m : ℕ) → mtu ≡ some m → m ≤ 1500)
    → let t = tcp_negotiate_mss mtu s peer in
      (mss_default ≤ t.mss) × (t.mss ≤ 1460) × (5360 ≤ t.cwnd) × (t.cwnd ≤ 14600)
unfolding tcp_negotiate_mss
tcp_negotiate_mss_bounds none s peer h = ground arith
tcp_negotiate_mss_bounds (some m) s peer h = ground (arith, h m refl)

-- The floor of 536 bytes wins over the link and over the peer: where the link or a non-zero option
-- of the peer asks for less, the negotiated size is 536.
pub tcp_negotiate_mss_floor :
    (mtu : ℕ) (s : Tcb) (peer : ℕ)
    → ((40 < mtu) × (mtu < 576)) ⊎ ((0 < peer) × (peer < mss_default))
    → (tcp_negotiate_mss (some mtu) s peer).mss ≡ mss_default
unfolding tcp_negotiate_mss
tcp_negotiate_mss_floor mtu s peer h = ground arith

increment_le : (m c : ℕ) → 0 < c → m ≤ c → add32 (m * m) (c / 2) / c ≤ m
increment_le m c p h =
    let square : m * m ≤ m * c = grind arith in
    let below : add32 (m * m) (c / 2) < (m + 1) * c = omega (arith, square) in
    let few : add32 (m * m) (c / 2) / c < m + 1 = (div-lt_iff_lt-mul p).1 below in
    omega (arith, few)

-- On an acknowledgement the window grows by one segment below `ssthresh`, and above it by at least
-- one byte and at most one segment, if it holds a segment and does not wrap.
pub tcp_cwnd_on_ack_growth :
    (s : Tcb)
    → 0 < s.mss
    → s.mss ≤ s.cwnd
    → s.cwnd + s.mss < 2 ^ 32
    → ((s.cwnd < s.ssthresh) × ((tcp_cwnd_on_ack s).cwnd ≡ s.cwnd + s.mss))
      ⊎ ((s.ssthresh ≤ s.cwnd)
          × (s.cwnd < (tcp_cwnd_on_ack s).cwnd)
          × ((tcp_cwnd_on_ack s).cwnd ≤ s.cwnd + s.mss))
unfolding tcp_cwnd_on_ack
tcp_cwnd_on_ack_growth s p c w = elim (Bool-cases (ltb s.cwnd s.ssthresh)) [
  | inl slow ↦ inl (ground arith, ground arith)
  | inr fast ↦
      let few = increment_le s.mss s.cwnd (omega arith) c in
      inr (ground arith, ground arith, ground arith)
]
