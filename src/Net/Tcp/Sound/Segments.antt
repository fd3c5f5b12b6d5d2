-- ===== src/Net/Tcp/Sound/Segments.antt =====
-- tcp.c: the bounds, over a segment that arrives.
use kappara.Base.{ℕ, Option, none, some, [], arith, ◌==◌, ◌&&◌, if-elim, length, add32}
use kappara.Net.Tcp.Types.{
  Tcb, Conn, TcpState, Arrival, closed, bound, listen, syn_sent, syn_received, established,
  fin_wait_1, fin_wait_2, close_wait, last_ack, closing, time_wait, flag_ack,
}
use kappara.Net.Tcp.Rtt.{tcp_cancel_rto, sample_rtt}
use kappara.Net.Tcp.Mss.{tcp_negotiate_mss}
use kappara.Net.Tcp.Options.{tcp_parse_syn_options}
use kappara.Net.Tcp.Output.{with_tcb}
use kappara.Net.Tcp.Ack.{take_ack}
use kappara.Net.Tcp.Input.{
  take_window, scale_peer, opened, complete_open, in_syn_sent, in_listen, in_syn_received,
  take_data, after_fin, take_fin, in_connection, in_time_wait, dispatch, tcp_input_segment,
  from_peer, is_listen,
}
use kappara.Net.Tcp.Sound.{IsSound, InBounds, send-IsSound, sample-IsSound, take_ack-IsSound}

data-IsSound : (c : Conn) (a : Arrival) → InBounds c → InBounds (take_data c a)
unfolding take_data
data-IsSound c a h = ground (arith, h)

after_fin-IsSound : (t : ℕ) (s : Tcb) → IsSound s → IsSound (after_fin t s)
unfolding after_fin
after_fin-IsSound t s h = ground (arith, h)

fin-IsSound : (c : Conn) (a : Arrival) → InBounds c → InBounds (take_fin c a)
unfolding take_fin
fin-IsSound c a h =
    let s : Tcb = record c.tcb { rcv_nxt = add32 c.tcb.rcv_nxt 1 } in
    if-elim InBounds (a.flags.fin && add32 a.seq (length a.payload) == c.tcb.rcv_nxt)
      (λ _.
        send-IsSound (with_tcb c (after_fin c.tick s)) flag_ack [] (after_fin-IsSound c.tick s h))
      (λ _. h)

connection-IsSound : (c : Conn) (a : Arrival) → InBounds c → InBounds (in_connection c a)
unfolding in_connection
connection-IsSound c a h =
    if-elim InBounds (from_peer c.tcb a)
      (λ _.
        if-elim InBounds a.flags.rst (λ _. h)
          (λ _.
            fin-IsSound (take_data (take_ack c a) a) a
              (data-IsSound (take_ack c a) a (take_ack-IsSound c a h))))
      (λ _. h)

scale-IsSound : (o : Option ℕ) (s : Tcb) → IsSound s → IsSound (scale_peer o s)
unfolding scale_peer
scale-IsSound none s h = h
scale-IsSound (some w) s h = h

negotiate-IsSound :
    (mtu : Option ℕ) (s : Tcb) (peer : ℕ) → IsSound s → IsSound (tcp_negotiate_mss mtu s peer)
unfolding tcp_negotiate_mss
negotiate-IsSound none s peer h = ground (arith, h)
negotiate-IsSound (some mtu) s peer h = ground (arith, h)

opened-IsSound : (c : Conn) (a : Arrival) → InBounds c → IsSound (opened c a)
unfolding opened tcp_cancel_rto
opened-IsSound c a h =
    let o = tcp_parse_syn_options a.options in
    let timed = tcp_cancel_rto (sample_rtt c.tick c.tcb) in
    scale-IsSound o.wscale (tcp_negotiate_mss c.route_mtu timed o.mss)
      (negotiate-IsSound c.route_mtu timed o.mss (sample-IsSound c.tick c.tcb h))

syn_sent-IsSound : (c : Conn) (a : Arrival) → InBounds c → InBounds (in_syn_sent c a)
unfolding in_syn_sent complete_open
syn_sent-IsSound c a h =
    if-elim InBounds (a.flags.syn && a.flags.ack && a.ack == c.tcb.snd_nxt && from_peer c.tcb a)
      (λ _. send-IsSound (with_tcb c (opened c a)) flag_ack [] (opened-IsSound c a h)) (λ _. h)

listen-IsSound : (c : Conn) (a : Arrival) → InBounds c → InBounds (in_listen c a)
unfolding in_listen
listen-IsSound c a h = ground (arith, h)

received-IsSound : (c : Conn) (a : Arrival) → InBounds c → InBounds (in_syn_received c a)
unfolding in_syn_received
received-IsSound c a h = ground (arith, h, sample-IsSound c.tick c.tcb h)

time_wait-IsSound : (c : Conn) (a : Arrival) → InBounds c → InBounds (in_time_wait c a)
unfolding in_time_wait
time_wait-IsSound c a h = ground (arith, h, send-IsSound c flag_ack [] h)

dispatch-IsSound : (s : TcpState) (c : Conn) (a : Arrival) → InBounds c → InBounds (dispatch s c a)
unfolding dispatch
dispatch-IsSound syn_sent c a h = syn_sent-IsSound c a h
dispatch-IsSound listen c a h = listen-IsSound c a h
dispatch-IsSound syn_received c a h = received-IsSound c a h
dispatch-IsSound established c a h = connection-IsSound c a h
dispatch-IsSound fin_wait_1 c a h = connection-IsSound c a h
dispatch-IsSound fin_wait_2 c a h = connection-IsSound c a h
dispatch-IsSound close_wait c a h = connection-IsSound c a h
dispatch-IsSound last_ack c a h = connection-IsSound c a h
dispatch-IsSound time_wait c a h = time_wait-IsSound c a h
dispatch-IsSound closed c a h = h
dispatch-IsSound bound c a h = h
dispatch-IsSound closing c a h = h

pub segment-IsSound : (c : Conn) (a : Arrival) → InBounds c → InBounds (tcp_input_segment c a)
unfolding tcp_input_segment take_window
segment-IsSound c a h =
    if-elim InBounds (is_listen c.tcb.state)
      (λ _. if-elim InBounds a.flags.syn (λ _. listen-IsSound c a h) (λ _. h))
      (λ _. dispatch-IsSound c.tcb.state (take_window c a) a h)
