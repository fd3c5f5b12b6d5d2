-- ===== src/Net/Tcp/Sound.antt =====
-- tcp.c: bounds on the fields of a connection block that no step leaves.
pub mod Segments
pub mod Requests
pub mod Timer
pub mod History
use kappara.Base.{
  ℕ, zero, suc, ◌+◌, ◌≤◌, ◌<◌, ◌≡◌, refl, sym, ap, ◌∙◌, subst, Bool, true, false, Option, none,
  some, List, [], ◌∷◌, arith, ltb, leb, ◌==◌, ◌&&◌, ◌||◌, not, ◌%◌, if◌then◌else◌, if-elim, length,
  flatten, add32, sub32,
}
use kappara.Net.Tcp.Types.{
  Tcb, Conn, seq_after, TcpState, Flags, Arrival, flag_ack, flag_psh_ack, rto_max, max_retransmits,
  mss_default, listen_backlog,
}
use kappara.Net.Tcp.Rtt.{tcp_update_rtt, sample_rtt, tcp_cancel_rto, tcp_enter_time_wait}
use kappara.Net.Tcp.Mss.{tcp_cwnd_on_ack, tcp_cwnd_on_rto, half_flight, tcp_negotiate_mss}
use kappara.Net.Tcp.Output.{tcp_emit_segment, tcp_send_segment, with_tcb}
use kappara.Net.Tcp.Send.{
  send_loop, after_chunk, next_bytes, chunk, unsent, sent_bytes, may_send, tcp_try_send_pending,
}
use kappara.Net.Tcp.Ack.{
  drained, partly, trim_buffer, trim_held, is_duplicate, deflated, acknowledged, ack_new,
  first_segment, counted, enter_recovery, inflated, ack_duplicate, ack_state, count_ack, take_ack,
}
use kappara.Net.Tcp.Input.{
  take_window, opened, complete_open, in_syn_sent, in_listen, in_syn_received, take_data, after_fin,
  take_fin, in_connection, in_time_wait, dispatch, tcp_input_segment, from_peer, is_listen,
}

-- The retransmission interval, the number of retransmissions, the segment size and the ring's counters
-- are in their ranges.
abbrev pub IsSound : Tcb → Type 0
IsSound s =
    (s.rto_ticks ≤ rto_max)
    × (s.retransmit_count ≤ max_retransmits)
    × (mss_default ≤ s.mss)
    × (s.pending_head < listen_backlog)
    × (s.pending_count ≤ listen_backlog)

abbrev pub InBounds : Conn → Type 0
InBounds c = IsSound c.tcb

pub send-IsSound :
    (c : Conn) (fl : Flags) (xs : List ℕ) → IsSound c.tcb → IsSound (tcp_send_segment c fl xs).tcb
unfolding tcp_send_segment
send-IsSound c fl xs h = ground (arith, h)

pub emit-tcb :
    (c : Conn) (n : ℕ) (fl : Flags) (xs : List ℕ) → (tcp_emit_segment c n fl xs).1.tcb ≡ c.tcb
unfolding tcp_emit_segment
emit-tcb c n fl xs = ground arith

pub chunk-IsSound : (c : Conn) → IsSound c.tcb → IsSound (after_chunk c)
unfolding after_chunk
chunk-IsSound c h = ground (arith, h)

pub loop-IsSound : (f : ℕ) (c : Conn) → IsSound c.tcb → IsSound (send_loop f c).tcb
unfolding send_loop
loop-IsSound zero c h = h
loop-IsSound (suc f) c h =
    let e = tcp_emit_segment c c.tcb.snd_nxt flag_psh_ack (next_bytes c.tcb) in
    if-elim InBounds (leb (length (flatten c.tcb.snd_buf)) (sent_bytes c.tcb) || chunk c.tcb == 0)
      (λ _. h)
      (λ _.
        if-elim InBounds e.0
          (λ _. loop-IsSound f (with_tcb e.1 (after_chunk c)) (chunk-IsSound c h))
          (λ _. subst IsSound (sym (emit-tcb c c.tcb.snd_nxt flag_psh_ack (next_bytes c.tcb))) h))

pub try-IsSound : (c : Conn) → IsSound c.tcb → IsSound (tcp_try_send_pending c).tcb
unfolding tcp_try_send_pending
try-IsSound c h =
    if-elim (λ (d : Conn). IsSound d.tcb) (not c.tcb.in_send && may_send c.tcb.state)
      (λ _. loop-IsSound (suc (unsent c.tcb)) c h) (λ _. h)

pub sample-IsSound : (t : ℕ) (s : Tcb) → IsSound s → IsSound (sample_rtt t s)
unfolding sample_rtt
sample-IsSound t s h = ground (arith, h)

pub cwnd-IsSound : (s : Tcb) → IsSound s → IsSound (tcp_cwnd_on_ack s)
unfolding tcp_cwnd_on_ack
cwnd-IsSound s h = ground (arith, h)

pub drained-IsSound : (t : ℕ) (s : Tcb) → IsSound s → IsSound (drained t s)
unfolding drained
drained-IsSound t s h = sample-IsSound t (record s { snd_buf = []; snd_buf_seq = 0 }) h

pub partly-IsSound : (t : ℕ) (s : Tcb) (n : ℕ) → IsSound s → IsSound (partly t s n)
unfolding partly
partly-IsSound t s n h = ground (arith, h)

pub trim-IsSound : (t : ℕ) (s : Tcb) (n : ℕ) → IsSound s → IsSound (trim_buffer t s n)
unfolding trim_buffer
trim-IsSound t s n h =
    if-elim IsSound (leb (length (flatten s.snd_buf)) n) (λ _. drained-IsSound t s h)
      (λ _. partly-IsSound t s n h)

pub held-IsSound :
    (bs : List (List ℕ)) (t : ℕ) (s : Tcb) (n : ℕ) → IsSound s → IsSound (trim_held bs t s n)
unfolding trim_held
held-IsSound [] t s n h = h
held-IsSound (b ∷ bs) t s n h = trim-IsSound t s n h

pub new-IsSound : (c : Conn) (a : Arrival) → IsSound c.tcb → IsSound (ack_new c a).tcb
unfolding ack_new acknowledged
new-IsSound c a h =
    let s = c.tcb in
    try-IsSound (with_tcb c (acknowledged c.tick s a.ack)) (
      held-IsSound s.snd_buf c.tick (tcp_cwnd_on_ack (deflated s a.ack)) (sub32 a.ack s.snd_una)
        (cwnd-IsSound (deflated s a.ack) h))

pub recovery-IsSound : (s : Tcb) → IsSound s → IsSound (enter_recovery s)
unfolding enter_recovery
recovery-IsSound s h = h

pub duplicate-IsSound : (c : Conn) → IsSound c.tcb → IsSound (ack_duplicate c).tcb
unfolding ack_duplicate
duplicate-IsSound c h =
    let s = c.tcb in
    let n = (s.dup_ack_count + 1) % 256 in
    if-elim InBounds (n == 3)
      (λ _.
        subst IsSound
          (sym
            (emit-tcb (with_tcb c (enter_recovery s)) s.snd_buf_seq flag_psh_ack (first_segment s)))
          (recovery-IsSound s h))
      (λ _. if-elim InBounds (ltb 3 n) (λ _. try-IsSound (with_tcb c (inflated s)) h) (λ _. h))

pub ack_state-IsSound : (c : Conn) → IsSound c.tcb → IsSound (ack_state c).tcb
unfolding ack_state
ack_state-IsSound c h = ground (arith, h, sample-IsSound c.tick c.tcb h)

pub take_ack-IsSound : (c : Conn) (a : Arrival) → IsSound c.tcb → IsSound (take_ack c a).tcb
unfolding take_ack count_ack
take_ack-IsSound c a h =
    if-elim InBounds a.flags.ack
      (λ _. ack_state-IsSound (count_ack c a) (
        if-elim InBounds (seq_after a.ack c.tcb.snd_una) (λ _. new-IsSound c a h)
          (λ _. if-elim InBounds (is_duplicate c.tcb a) (λ _. duplicate-IsSound c h) (λ _. h))))
      (λ _. h)
