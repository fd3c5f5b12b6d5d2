-- ===== src/Net/Tcp/Input.antt =====
-- tcp.c: `tcp_input_segment`, from the port filter on, for a segment that is for the connection's own
-- port. The functions are the parts of its switch, in the order in which they run.
use kappara.Base.{
  Option, ℕ, ◌+◌, ◌*◌, ◌^◌, ◌%◌, Bool, true, false, none, some, [], ltb, ◌==◌, ◌&&◌, if◌then◌else◌,
  length, add32, u32_mod, write,
}
use kappara.Net.Tcp.Types.{
  Tcb, Conn, TcpState, closed, listen, syn_sent, syn_received, established, fin_wait_1, fin_wait_2,
  close_wait, last_ack, closing, time_wait, flag_ack, Pending, Arrival, Reply, Reason,
  listen_backlog, next_answer, rest_answers,
}
use kappara.Net.Tcp.Rtt.{tcp_cancel_rto, tcp_enter_time_wait, sample_rtt}
use kappara.Net.Tcp.Mss.{tcp_negotiate_mss}
use kappara.Net.Tcp.Options.{tcp_parse_syn_options}
use kappara.Net.Tcp.Output.{tcp_send_segment, with_tcb, reply}
use kappara.Net.Tcp.Ack.{take_ack}

-- The segment comes from the connection's peer.
abbrev pub from_peer : Tcb → Arrival → Bool
from_peer s a = a.src_ip == s.remote_ip && a.src_port == s.remote_port

-- The peer's window, scaled unless the segment is a SYN.
unfoldable pub take_window : Conn → Arrival → Conn
take_window c a =
    let w = if a.flags.syn then a.window else a.window * 2 ^ c.tcb.snd_wnd_shift % u32_mod in
    with_tcb c (record c.tcb { snd_wnd = w })

-- The peer's shift, or no scaling where its SYN offers none.
unfoldable pub scale_peer : Option ℕ → Tcb → Tcb
scale_peer none s = record s { snd_wnd_shift = 0; ws_active = false }
scale_peer (some w) s = record s { snd_wnd_shift = w }

-- `case TCPS_SYN_SENT`, for a SYN and ACK of our SYN: the block, before the ACK is sent.
unfoldable pub opened : Conn → Arrival → Tcb
unfolding tcp_negotiate_mss tcp_cancel_rto sample_rtt tcp_parse_syn_options scale_peer
opened c a =
    let o = tcp_parse_syn_options a.options in
    let timed = tcp_cancel_rto (sample_rtt c.tick c.tcb) in
    let sized = tcp_negotiate_mss c.route_mtu timed o.mss in
    let scaled = scale_peer o.wscale sized in
    record scaled { rcv_irs = a.seq; rcv_nxt = add32 a.seq 1; snd_una = a.ack; state = established }

unfoldable pub complete_open : Conn → Arrival → Conn
unfolding opened tcp_send_segment
complete_open c a =
    reply (tcp_send_segment (with_tcb c (opened c a)) flag_ack [])
      (Reply.conn_con a.src_ip a.src_port)

unfoldable pub in_syn_sent : Conn → Arrival → Conn
unfolding complete_open
in_syn_sent c a =
    if a.flags.syn && a.flags.ack && a.ack == c.tcb.snd_nxt && from_peer c.tcb a
    then complete_open c a
    else c

-- `case TCPS_LISTEN`: the SYN goes to the end of the ring.
unfoldable pub in_listen : Conn → Arrival → Conn
unfolding tcp_parse_syn_options
in_listen c a =
    let s = c.tcb in
    let o = tcp_parse_syn_options a.options in
    let slot = (s.pending_head + s.pending_count) % listen_backlog in
    let entry : Pending = record {
      remote_ip = a.src_ip;
      remote_port = a.src_port;
      irs = a.seq;
      peer_mss = o.mss;
      wscale = o.wscale;
    } in
    if a.flags.syn && ltb s.pending_count listen_backlog
    then reply
        (with_tcb c (record s {
          pending_q = write s.pending_q slot entry;
          pending_count = s.pending_count + 1;
        }))
        (Reply.conn_ind a.src_ip a.src_port)
    else c

-- `case TCPS_SYN_RECEIVED`.
unfoldable pub in_syn_received : Conn → Arrival → Conn
unfolding tcp_cancel_rto sample_rtt
in_syn_received c a =
    let timed = tcp_cancel_rto (sample_rtt c.tick c.tcb) in
    if a.flags.ack && a.ack == c.tcb.snd_nxt && from_peer c.tcb a
    then reply (with_tcb c (record timed { snd_una = a.ack; state = established }))
        (Reply.conn_con a.src_ip a.src_port)
    else c

abbrev pub takes_data : TcpState → Bool
takes_data established = true
takes_data close_wait = true
takes_data _ = false

-- In-order data goes up and is acknowledged; `allocb` of its buffer asks for an answer of its own.
unfoldable pub take_data : Conn → Arrival → Conn
unfolding tcp_send_segment
take_data c a =
    let rest : Conn = record c { answers = rest_answers c.answers } in
    let advanced : Conn =
      with_tcb rest (record c.tcb { rcv_nxt = add32 c.tcb.rcv_nxt (length a.payload) }) in
    if ltb 0 (length a.payload) && a.seq == c.tcb.rcv_nxt && takes_data c.tcb.state
    then (if next_answer c.answers
        then tcp_send_segment (reply advanced (Reply.data_ind a.payload)) flag_ack []
        else rest)
    else c

-- The state after a FIN that is next in sequence.
unfoldable pub after_fin : ℕ → Tcb → Tcb
unfolding tcp_enter_time_wait
after_fin tick s = elim s.state [
  | established ↦ record s { state = close_wait }
  | fin_wait_1 ↦ record s { state = closing }
  | fin_wait_2 ↦ tcp_enter_time_wait tick s
  | _ ↦ s
]

unfoldable pub take_fin : Conn → Arrival → Conn
unfolding after_fin tcp_send_segment
take_fin c a =
    let s : Tcb = record c.tcb { rcv_nxt = add32 c.tcb.rcv_nxt 1 } in
    if a.flags.fin && add32 a.seq (length a.payload) == c.tcb.rcv_nxt
    then reply (tcp_send_segment (with_tcb c (after_fin c.tick s)) flag_ack []) Reply.ordrel_ind
    else c

-- `case TCPS_ESTABLISHED` to `case TCPS_LAST_ACK`.
unfoldable pub in_connection : Conn → Arrival → Conn
unfolding take_ack take_data take_fin
in_connection c a =
    if from_peer c.tcb a
    then (if a.flags.rst
        then reply (with_tcb c (record c.tcb { state = closed })) (Reply.discon_ind Reason.reset)
        else take_fin (take_data (take_ack c a) a) a)
    else c

-- `case TCPS_TIME_WAIT`: a repeated FIN is acknowledged again.
unfoldable pub in_time_wait : Conn → Arrival → Conn
unfolding tcp_send_segment
in_time_wait c a =
    if a.flags.fin && from_peer c.tcb a && add32 a.seq 1 == c.tcb.rcv_nxt
    then tcp_send_segment c flag_ack []
    else c

-- The switch. CLOSED, BOUND and CLOSING have no case of their own.
unfoldable pub dispatch : TcpState → Conn → Arrival → Conn
unfolding in_syn_sent in_listen in_syn_received in_connection in_time_wait
dispatch syn_sent c a = in_syn_sent c a
dispatch listen c a = in_listen c a
dispatch syn_received c a = in_syn_received c a
dispatch established c a = in_connection c a
dispatch fin_wait_1 c a = in_connection c a
dispatch fin_wait_2 c a = in_connection c a
dispatch close_wait c a = in_connection c a
dispatch last_ack c a = in_connection c a
dispatch time_wait c a = in_time_wait c a
dispatch _ c a = c

abbrev pub is_listen : TcpState → Bool
is_listen listen = true
is_listen _ = false

-- A segment without SYN that reaches a listener goes to the child that owns the connection, if there
-- is one: for that child this is another call. The listener itself does nothing.
unfoldable pub tcp_input_segment : Conn → Arrival → Conn
unfolding take_window dispatch
tcp_input_segment c a =
    if is_listen c.tcb.state
    then (if a.flags.syn then in_listen c a else c)
    else dispatch c.tcb.state (take_window c a) a
