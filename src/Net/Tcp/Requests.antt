-- ===== src/Net/Tcp/Requests.antt =====
-- tcp.c: the requests that come down the stream, opening and closing, and IP's answer to a bind.
use kappara.Base.{
  ℕ, zero, suc, ◌+◌, ◌-◌, ◌*◌, ◌%◌, ◌/◌, Bool, true, false, Option, none, some, List, [], ◌∷◌, ◌++◌,
  ltb, ◌==◌, ◌||◌, not, if◌then◌else◌, length, flatten, add32,
}
use kappara.Net.Tcp.Types.{
  Tcb, Conn, TcpState, closed, bound, listen, syn_sent, syn_received, established, fin_wait_1,
  fin_wait_2, close_wait, last_ack, no_flags, flag_ack, flag_syn, flag_rst, flag_syn_ack,
  flag_fin_ack, Pending, Reply, Reason, Bind, listen_backlog, mss_default, initial_cwnd,
  initial_ssthresh, snd_buf_max,
}
use kappara.Net.Tcp.Mss.{tcp_negotiate_mss}
use kappara.Net.Tcp.Output.{tcp_send_segment, with_tcb, reply}
use kappara.Net.Tcp.Send.{tcp_try_send_pending}

-- The block that `kmemset` clears.
abbrev pub no_pending : Pending
no_pending = record { remote_ip = 0; remote_port = 0; irs = 0; peer_mss = 0; wscale = none }

abbrev pub tcp_qopen : Tcb
tcp_qopen = record {
  state = closed;
  local_port = 0;
  is_bound = false;
  remote_ip = 0;
  remote_port = 0;
  snd_una = 0;
  snd_nxt = 0;
  snd_iss = 0;
  rcv_nxt = 0;
  rcv_irs = 0;
  pending_q = λ _. no_pending;
  pending_head = 0;
  pending_count = 0;
  rto_expires = 0;
  rto_ticks = 0;
  send_tick = 0;
  pending_flags = no_flags;
  retransmit_count = 0;
  rtt_valid = false;
  srtt_ticks = 0;
  rttvar_ticks = 0;
  snd_buf = [];
  snd_buf_seq = 0;
  snd_wnd = 0;
  snd_wnd_shift = 0;
  ws_active = false;
  time_wait_expires = 0;
  cwnd = initial_cwnd;
  ssthresh = initial_ssthresh;
  mss = mss_default;
  in_send = false;
  dup_ack_count = 0;
}

-- `uint32_t` and `uint16_t` counters that wrap.
unfoldable pub alloc_iss : Conn → ℕ × Conn
alloc_iss c = (c.iss_next, record c { iss_next = add32 c.iss_next 65536 })

unfoldable pub alloc_ephemeral_port : Conn → ℕ × Conn
alloc_ephemeral_port c =
    let next = (c.ephemeral_next + 1) % 65536 in
    (c.ephemeral_next, record c { ephemeral_next = if next == 0 then 49152 else next })

abbrev pub tcp_bind_key : ℕ → ℕ → ℕ
tcp_bind_key lport rport = lport * 65536 + rport

abbrev pub send_ip_bind : Conn → Bind → Conn
send_ip_bind c b = record c { binds = c.binds ++ b ∷ [] }

abbrev pub bind_to : Conn → ℕ → Conn
bind_to c port =
    send_ip_bind (with_tcb c (record c.tcb { local_port = port; state = bound }))
      (Bind.bind_req (tcp_bind_key port 0))

-- The port is 0 where the user leaves the choice to TCP.
unfoldable pub handle_bind_req : Conn → ℕ → Conn
unfolding alloc_ephemeral_port
handle_bind_req c port =
    let (ephemeral, c') = alloc_ephemeral_port c in
    if c.tcb.is_bound
    then reply c (Reply.bind_nak 1)
    else (if port == 0 then bind_to c' ephemeral else bind_to c port)

-- `handle_ip_ack` for IP_T_BIND_ACK (true) and IP_T_BIND_NAK (false).
unfoldable pub handle_ip_ack : Conn → Bool → ℕ → Conn
handle_ip_ack c true key =
    reply (with_tcb c (record c.tcb { is_bound = true })) (Reply.bind_ack (key / 65536))
handle_ip_ack c false key =
    reply (with_tcb c (record c.tcb { is_bound = false; local_port = 0; state = closed }))
      (Reply.bind_nak 1)

abbrev pub protoerr : Conn → Conn
protoerr c = reply c (Reply.discon_ind Reason.protoerr)

unfoldable pub handle_conn_req : Conn → ℕ → ℕ → Conn
unfolding alloc_iss tcp_send_segment
handle_conn_req c ip port =
    let (iss, c') = alloc_iss c in
    let s : Tcb = record c.tcb {
      remote_ip = ip;
      remote_port = port;
      snd_iss = iss;
      snd_una = iss;
      snd_nxt = iss;
      state = syn_sent;
      ws_active = true;
    } in
    elim c.tcb.state [ bound ↦ tcp_send_segment (with_tcb c' s) flag_syn [] | _ ↦ protoerr c ]

unfoldable pub handle_listen_req : Conn → Conn
handle_listen_req c = elim c.tcb.state [
  | bound ↦ with_tcb c (record c.tcb { state = listen })
  | _ ↦ protoerr c
]

-- The listener without its oldest pending SYN.
abbrev pub pop_pending : Tcb → Tcb
pop_pending s = record s {
  pending_head = (s.pending_head + 1) % listen_backlog;
  pending_count = s.pending_count - 1;
}

-- The child's block, before its SYN and ACK.
unfoldable pub accepted : Option ℕ → ℕ → Tcb → Tcb → Tcb
unfolding tcp_negotiate_mss
accepted mtu iss s child =
    let p : Pending = s.pending_q s.pending_head in
    let opened : Tcb = record child {
      local_port = s.local_port;
      remote_ip = p.remote_ip;
      remote_port = p.remote_port;
      rcv_irs = p.irs;
      rcv_nxt = add32 p.irs 1;
      snd_iss = iss;
      snd_una = iss;
      snd_nxt = iss;
      state = syn_received;
      cwnd = initial_cwnd;
      ssthresh = initial_ssthresh;
    } in
    let sized = tcp_negotiate_mss mtu opened p.peer_mss in
    elim p.wscale [
      | none ↦ record sized { ws_active = false; snd_wnd_shift = 0 }
      | some w ↦ record sized { ws_active = true; snd_wnd_shift = w }
    ]

-- The listener's surroundings are the child's: the result is the listener's connection and the child.
unfoldable pub tcp_accept_into : Conn → Tcb → Conn × Tcb
unfolding alloc_iss accepted tcp_send_segment
tcp_accept_into c child =
    let (iss, c') = alloc_iss c in
    let cc =
      tcp_send_segment (with_tcb c' (accepted c.route_mtu iss c.tcb child)) flag_syn_ack [] in
    (with_tcb cc (pop_pending c.tcb), cc.tcb)

abbrev pub is_closed : TcpState → Bool
is_closed closed = true
is_closed _ = false

-- `child` is the TCP endpoint behind the responding descriptor, none where there is none or where it
-- is the listener.
unfoldable pub handle_conn_res : Conn → Option Tcb → Conn × Option Tcb
unfolding tcp_accept_into
handle_conn_res c none = (protoerr c, none)
handle_conn_res c (some child) =
    let (c', child') = tcp_accept_into c child in
    elim c.tcb.state [
      | listen ↦
          if c.tcb.pending_count == 0 || not (is_closed child.state)
          then (protoerr c, some child)
          else (c', some child')
      | _ ↦ (protoerr c, some child)
    ]

unfoldable pub handle_ordrel_req : Conn → Conn
unfolding tcp_send_segment
handle_ordrel_req c = elim c.tcb.state [
  | established ↦
      tcp_send_segment (with_tcb c (record c.tcb { state = fin_wait_1 })) flag_fin_ack []
  | close_wait ↦ tcp_send_segment (with_tcb c (record c.tcb { state = last_ack })) flag_fin_ack []
  | _ ↦ protoerr c
]

-- The loop that rejects the pending SYNs, as often as `pending_count` says.
unfoldable pub reject_pending : ℕ → Conn → Conn
unfolding tcp_send_segment
reject_pending zero c = c
reject_pending (suc n) c =
    let p : Pending = c.tcb.pending_q c.tcb.pending_head in
    let named : Tcb = record c.tcb { remote_ip = p.remote_ip; remote_port = p.remote_port } in
    let reset = tcp_send_segment (with_tcb c named) flag_rst [] in
    reject_pending n (with_tcb reset (pop_pending reset.tcb))

-- The states in which an abort is told to the peer.
abbrev pub sends_rst : TcpState → Bool
sends_rst syn_sent = true
sends_rst syn_received = true
sends_rst established = true
sends_rst fin_wait_1 = true
sends_rst fin_wait_2 = true
sends_rst close_wait = true
sends_rst last_ack = true
sends_rst _ = false

abbrev pub is_listener : Tcb → Bool
is_listener s = elim s.state [ listen ↦ ltb 0 s.pending_count | _ ↦ false ]

unfoldable pub handle_discon_req : Conn → Conn
unfolding tcp_send_segment reject_pending
handle_discon_req c =
    let rejected = reject_pending c.tcb.pending_count c in
    if sends_rst c.tcb.state
    then tcp_send_segment (with_tcb c (record c.tcb { state = closed })) flag_rst []
    else (if is_listener c.tcb
        then with_tcb rejected (record rejected.tcb { remote_ip = 0; remote_port = 0 })
        else c)

-- `tcp_qclose` up to the release of the block. Its RST goes out in the state it had.
unfoldable pub tcp_qclose : Conn → Conn
unfolding tcp_send_segment reject_pending
tcp_qclose c =
    let told =
      if sends_rst c.tcb.state
      then tcp_send_segment c flag_rst []
      else (if is_listener c.tcb then reject_pending c.tcb.pending_count c else c) in
    if c.tcb.is_bound
    then send_ip_bind told (Bind.unbind_req (tcp_bind_key c.tcb.local_port 0))
    else told

-- The bytes are appended to the buffer; false stands for a negative return.
unfoldable pub queue_data : Tcb → List (List ℕ) → Tcb
queue_data s payload = elim s.snd_buf [
  | [] ↦ record s { snd_buf = payload; snd_buf_seq = s.snd_nxt }
  | _ ∷ _ ↦ record s { snd_buf = s.snd_buf ++ payload }
]

unfoldable pub handle_data_req : Conn → List (List ℕ) → Bool × Conn
unfolding queue_data tcp_try_send_pending
handle_data_req c payload = elim c.tcb.state [
  | established ↦
      if length (flatten payload) == 0
      then (true, c)
      else (if ltb snd_buf_max (length (flatten c.tcb.snd_buf) + length (flatten payload))
          then (false, protoerr c)
          else (true, tcp_try_send_pending (with_tcb c (queue_data c.tcb payload))))
  | _ ↦ (false, protoerr c)
]

-- The drain callback of the stream head: an ACK with the window that is open again.
unfoldable pub tcp_on_user_drain : Conn → Conn
unfolding tcp_send_segment
tcp_on_user_drain c = elim c.tcb.state [ established ↦ tcp_send_segment c flag_ack [] | _ ↦ c ]
