-- ===== src/Net/Tcp/Rtt.antt =====
-- tcp.c: the retransmit timer's interval, by the estimator of RFC 6298.
use kappara.Base.{
  ℕ, ◌+◌, ◌-◌, ◌*◌, ◌/◌, ◌%◌, ◌^◌, ◌≤◌, ◌<◌, ◌≡◌, true, arith, ltb, ◌==◌, if◌then◌else◌, add32,
  sub32, u32_mod,
}
use kappara.Net.Tcp.Types.{Tcb, Flags, time_wait, rto_min, rto_max, rto_initial, time_wait_ticks}

-- |sample - srtt| as `int32_t` arithmetic that wraps gives it.
unfoldable pub abs_diff : ℕ → ℕ → ℕ
abs_diff sample srtt = let d = sub32 sample srtt in if ltb d (2 ^ 31) then d else u32_mod - d

unfoldable pub clamp_rto : ℕ → ℕ
clamp_rto rto = if ltb rto rto_min then rto_min else if ltb rto_max rto then rto_max else rto

unfoldable pub tcp_update_rtt : Tcb → ℕ → Tcb
unfolding abs_diff clamp_rto
tcp_update_rtt s sample =
    let var =
      if s.rtt_valid
      then (3 * s.rttvar_ticks + abs_diff sample s.srtt_ticks) % u32_mod / 4
      else sample / 2 in
    let srtt = if s.rtt_valid then (7 * s.srtt_ticks + sample) % u32_mod / 8 else sample in
    record s {
      srtt_ticks = srtt;
      rttvar_ticks = var;
      rtt_valid = true;
      rto_ticks = clamp_rto (add32 srtt (4 * var % u32_mod));
    }

-- The timer functions take the tick counter.
unfoldable pub tcp_arm_rto : ℕ → Tcb → Flags → Tcb
tcp_arm_rto tick s flags =
    let rto = if s.rto_ticks == 0 then rto_initial else s.rto_ticks in
    record s {
      rto_ticks = rto;
      rto_expires = add32 tick rto;
      send_tick = tick;
      pending_flags = flags;
      retransmit_count = 0;
    }

unfoldable pub tcp_cancel_rto : Tcb → Tcb
tcp_cancel_rto s = record s { rto_expires = 0 }

unfoldable pub tcp_enter_time_wait : ℕ → Tcb → Tcb
unfolding tcp_cancel_rto
tcp_enter_time_wait tick s =
    tcp_cancel_rto (record s { state = time_wait; time_wait_expires = add32 tick time_wait_ticks })

-- A sample, taken unless the segment was sent again (Karn).
unfoldable pub sample_rtt : ℕ → Tcb → Tcb
unfolding tcp_update_rtt
sample_rtt tick s = if s.retransmit_count == 0 then tcp_update_rtt s (sub32 tick s.send_tick) else s

-- Whatever the sample and the state before, the interval lies between TCP_RTO_MIN and TCP_RTO_MAX.
pub tcp_update_rtt_bounds :
    (s : Tcb) (sample : ℕ)
    → (rto_min ≤ (tcp_update_rtt s sample).rto_ticks)
      × ((tcp_update_rtt s sample).rto_ticks ≤ rto_max)
unfolding tcp_update_rtt
tcp_update_rtt_bounds s sample = ground arith

-- The estimate follows the samples: if the old estimate and the sample lie between `lo` and `hi`, so
-- does the new estimate, and the new deviation is at most 3/4 of the old one and 1/4 of hi - lo.
-- Below 2^28 ticks no sum wraps.
pub tcp_update_rtt_between :
    (s : Tcb) (sample lo hi : ℕ)
    → s.rtt_valid ≡ true
    → (lo ≤ s.srtt_ticks) × (s.srtt_ticks ≤ hi)
    → (lo ≤ sample) × (sample ≤ hi)
    → hi < 2 ^ 28
    → s.rttvar_ticks < 2 ^ 28
    → let t = tcp_update_rtt s sample in
      (lo ≤ t.srtt_ticks)
      × (t.srtt_ticks ≤ hi)
      × (4 * t.rttvar_ticks ≤ 3 * s.rttvar_ticks + (hi - lo))
unfolding tcp_update_rtt
tcp_update_rtt_between s sample lo hi valid h k n v = ground arith
