-- ===== src/Net/Tcp/Ack.antt =====
-- tcp.c: the acknowledgement's part of `tcp_input_segment`.
use kappara.Base.{
  ℕ, ◌+◌, ◌-◌, ◌*◌, ◌%◌, Bool, List, [], ◌∷◌, ltb, leb, ◌==◌, ◌&&◌, ◌||◌, not, if◌then◌else◌,
  length, take, drop, flatten, add32, sub32,
}
use kappara.Net.Tcp.Types.{
  Tcb, Conn, closed, fin_wait_1, fin_wait_2, last_ack, closing, flag_psh_ack, Arrival, seq_after,
}
use kappara.Net.Tcp.Rtt.{tcp_cancel_rto, tcp_enter_time_wait, sample_rtt}
use kappara.Net.Tcp.Mss.{tcp_cwnd_on_ack, half_flight}
use kappara.Net.Tcp.Output.{tcp_emit_segment, with_tcb}
use kappara.Net.Tcp.Send.{tcp_try_send_pending, sent_bytes}

-- The loop that frees acknowledged blocks: what is left of the chain, and the bytes freed.
unfoldable pub trim_blocks : ℕ → List (List ℕ) → List (List ℕ) × ℕ
trim_blocks n [] = ([], 0)
trim_blocks n (b ∷ bs) =
    let (rest, freed) = trim_blocks (n - length b) bs in
    if n == 0
    then (b ∷ bs, 0)
    else (if leb (length b) n then (rest, length b + freed) else (drop n b ∷ bs, n))

-- The whole buffer is acknowledged.
unfoldable pub drained : ℕ → Tcb → Tcb
unfolding tcp_cancel_rto sample_rtt
drained tick s = tcp_cancel_rto (sample_rtt tick (record s { snd_buf = []; snd_buf_seq = 0 }))

-- A part of it is: the timer starts again for what is still in flight.
unfoldable pub partly : ℕ → Tcb → ℕ → Tcb
unfolding tcp_cancel_rto trim_blocks
partly tick s acked =
    let (rest, freed) = trim_blocks acked s.snd_buf in
    let left = sub32 (sent_bytes s) acked in
    let trimmed : Tcb = record s { snd_buf = rest; snd_buf_seq = add32 s.snd_buf_seq freed } in
    if ltb 0 left
    then record trimmed {
      rto_expires = add32 tick s.rto_ticks;
      send_tick = tick;
      retransmit_count = 0;
    }
    else tcp_cancel_rto trimmed

unfoldable pub trim_buffer : ℕ → Tcb → ℕ → Tcb
unfolding drained partly
trim_buffer tick s acked =
    if leb (length (flatten s.snd_buf)) acked then drained tick s else partly tick s acked

-- `if (s->snd_buf)`.
unfoldable pub trim_held : List (List ℕ) → ℕ → Tcb → ℕ → Tcb
unfolding trim_buffer
trim_held [] tick s acked = s
trim_held (b ∷ bs) tick s acked = trim_buffer tick s acked

-- A new acknowledgement ends fast recovery.
abbrev pub deflated : Tcb → ℕ → Tcb
deflated s ack = record s {
  snd_una = ack;
  cwnd = if leb 3 s.dup_ack_count then s.ssthresh else s.cwnd;
  dup_ack_count = 0;
}

-- The block after a new acknowledgement, before anything more is sent.
unfoldable pub acknowledged : ℕ → Tcb → ℕ → Tcb
unfolding tcp_cwnd_on_ack trim_held
acknowledged tick s ack =
    trim_held s.snd_buf tick (tcp_cwnd_on_ack (deflated s ack)) (sub32 ack s.snd_una)

unfoldable pub ack_new : Conn → Arrival → Conn
unfolding acknowledged tcp_try_send_pending
ack_new c a = tcp_try_send_pending (with_tcb c (acknowledged c.tick c.tcb a.ack))

-- The first segment of the buffer's first block, which is what is sent again.
abbrev pub first_segment : Tcb → List ℕ
first_segment s = elim s.snd_buf [ [] ↦ [] | b ∷ _ ↦ take s.mss b ]

-- The third duplicate is taken for a loss, and each further one for a segment that has arrived.
abbrev pub counted : Tcb → Tcb
counted s = record s { dup_ack_count = (s.dup_ack_count + 1) % 256 }

unfoldable pub enter_recovery : Tcb → Tcb
unfolding half_flight
enter_recovery s = record (counted s) {
  ssthresh = half_flight s;
  cwnd = add32 (half_flight s) (3 * s.mss);
}

abbrev pub inflated : Tcb → Tcb
inflated s = record (counted s) { cwnd = add32 s.cwnd s.mss }

unfoldable pub ack_duplicate : Conn → Conn
unfolding enter_recovery tcp_emit_segment tcp_try_send_pending
ack_duplicate c =
    let s = c.tcb in
    let n = (s.dup_ack_count + 1) % 256 in
    if n == 3
    then (tcp_emit_segment (with_tcb c (enter_recovery s)) s.snd_buf_seq flag_psh_ack
        (first_segment s)).1
    else (if ltb 3 n
        then tcp_try_send_pending (with_tcb c (inflated s))
        else with_tcb c (counted s))

abbrev pub is_duplicate : Tcb → Arrival → Bool
is_duplicate s a =
    a.ack == s.snd_una
    && length a.payload == 0
    && not (a.flags.syn || a.flags.fin)
    && ltb 0 (length s.snd_buf)
    && not (s.snd_nxt == s.snd_una)

-- The state's own reaction to an acknowledgement, once everything sent is acknowledged.
unfoldable pub ack_state : Conn → Conn
unfolding tcp_cancel_rto tcp_enter_time_wait sample_rtt
ack_state c =
    let timed = sample_rtt c.tick c.tcb in
    if c.tcb.snd_una == c.tcb.snd_nxt
    then elim c.tcb.state [
      | fin_wait_1 ↦ with_tcb c (record (tcp_cancel_rto timed) { state = fin_wait_2 })
      | closing ↦ with_tcb c (tcp_enter_time_wait c.tick timed)
      | last_ack ↦ with_tcb c (record (tcp_cancel_rto timed) { state = closed })
      | _ ↦ c
    ]
    else c

unfoldable pub count_ack : Conn → Arrival → Conn
unfolding ack_new ack_duplicate
count_ack c a =
    if seq_after a.ack c.tcb.snd_una
    then ack_new c a
    else (if is_duplicate c.tcb a then ack_duplicate c else c)

unfoldable pub take_ack : Conn → Arrival → Conn
unfolding count_ack ack_state
take_ack c a = if a.flags.ack then ack_state (count_ack c a) else c
