-- ===== src/Net/Tcp/Timer.antt =====
-- tcp.c: what `tcp_retransmit_main` does with one connection at a tick.
use kappara.Base.{
  ◌+◌, Bool, ◌*◌, ◌%◌, false, [], ◌∷◌, ltb, leb, ◌==◌, ◌||◌, not, if◌then◌else◌, length, add32,
  u32_mod,
}
use kappara.Net.Tcp.Types.{
  Tcb, Conn, closed, time_wait, flag_psh_ack, Reply, Reason, rto_max, max_retransmits, tick_reached,
}
use kappara.Net.Tcp.Mss.{tcp_cwnd_on_rto}
use kappara.Net.Tcp.Output.{tcp_emit_segment, with_tcb, reply}
use kappara.Net.Tcp.Ack.{first_segment}

-- The 2*MSL clock.
unfoldable pub sweep_time_wait : Conn → Conn
sweep_time_wait c =
    if tick_reached c.tick c.tcb.time_wait_expires
    then with_tcb c (record c.tcb { state = closed; time_wait_expires = 0 })
    else c

unfoldable pub give_up : Conn → Conn
give_up c =
    reply (with_tcb c (record c.tcb { state = closed; rto_expires = 0 }))
      (Reply.discon_ind Reason.timeout)

unfoldable pub backed_off : Tcb → Tcb
unfolding tcp_cwnd_on_rto
backed_off s =
    let doubled = 2 * s.rto_ticks % u32_mod in
    let lost = if s.retransmit_count == 0 then tcp_cwnd_on_rto s else s in
    record lost { rto_ticks = if ltb rto_max doubled then rto_max else doubled }

-- The head of the buffer, or the SYN or FIN, goes out again.
unfoldable pub resend : Conn → Conn
unfolding tcp_emit_segment
resend c =
    let s = c.tcb in
    let head = first_segment s in
    let holds : Bool = elim s.snd_buf [ [] ↦ false | b ∷ _ ↦ ltb 0 (length b) ] in
    if holds
    then (tcp_emit_segment c s.snd_buf_seq flag_psh_ack head).1
    else (if s.pending_flags.syn || s.pending_flags.fin
        then (tcp_emit_segment c s.snd_una s.pending_flags []).1
        else c)

unfoldable pub retransmit : Conn → Conn
unfolding backed_off resend
retransmit c =
    let sent = resend (with_tcb c (backed_off c.tcb)) in
    with_tcb sent (record sent.tcb {
      retransmit_count = (c.tcb.retransmit_count + 1) % 256;
      rto_expires = add32 c.tick sent.tcb.rto_ticks;
    })

unfoldable pub poll_rto : Conn → Conn
unfolding give_up retransmit
poll_rto c =
    if c.tcb.rto_expires == 0 || not (tick_reached c.tick c.tcb.rto_expires)
    then c
    else (if leb max_retransmits c.tcb.retransmit_count then give_up c else retransmit c)

-- The loop's body for one block, at the tick `c.tick`.
unfoldable pub tcp_retransmit_main : Conn → Conn
unfolding sweep_time_wait poll_rto
tcp_retransmit_main c = elim c.tcb.state [ time_wait ↦ sweep_time_wait c | _ ↦ poll_rto c ]
