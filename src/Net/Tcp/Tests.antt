-- ===== src/Net/Tcp/Tests.antt =====
-- tcp.c on concrete connections: 20 bytes in two blocks of which 4 are sent and acknowledged up to
-- byte 2, a listener with two waiting SYNs, and others.
use kappara.Base.{
  ℕ, ◌<◌, ◌≡◌, ◌≢◌, ◌⊎◌, refl, true, false, some, List, [], ◌∷◌, ◌++◌, arith, length, add32, ◌==◌,
  if◌then◌else◌,
}
use kappara.Net.Tcp.Types.{
  Tcb, Conn, flag_ack, flag_fin_ack, flag_syn, Pending, Arrival, Segment, Reply, established,
  closing, close_wait, listen, next_answer,
}
use kappara.Net.Tcp.Options.{tcp_parse_syn_options, syn_options, parse-syn_options}
use kappara.Net.Tcp.Send.{tcp_try_send_pending}
use kappara.Net.Tcp.Input.{tcp_input_segment, take_data, takes_data, in_listen}
use kappara.Net.Tcp.Requests.{
  tcp_qopen, handle_bind_req, handle_ip_ack, tcp_accept_into, handle_conn_req,
}
use kappara.Net.Tcp.Timer.{tcp_retransmit_main}
use kappara.Net.Tcp.Backoff.{Visits, tcp_retransmit_main-Visits}
use kappara.Net.Tcp.Steps.{segment, Steps, begin, then_step, bind, connect}
use kappara.Net.Tcp.Sound.{IsSound}
use kappara.Net.Tcp.Sound.History.{Steps-IsSound}
use kappara.Net.Tcp.States.{Edge, tcp_input_segment-Edge}
use kappara.Net.Tcp.Closing.{TimedOut, Rebound, Refused, Step-closing}
use kappara.Net.Tcp.Window.{InRange, Ships}
use kappara.Net.Tcp.Window.Loop.{
  ready, Exhausted, tcp_try_send_pending-Ships, tcp_try_send_pending-exhausts,
}
use kappara.Net.Tcp.Delivery.{take_data-cases}
use kappara.Net.Tcp.Backlog.{RingOk, backlog, Listened, in_listen-backlog}
use kappara.Net.Tcp.Backlog.Accept.{Opens, tcp_accept_into-backlog}

abbrev ten_bytes : List ℕ
ten_bytes = 1 ∷ 2 ∷ 3 ∷ 4 ∷ 5 ∷ 6 ∷ 7 ∷ 8 ∷ 9 ∷ 10 ∷ []

-- 20 bytes from number 1000 on, of which 4 are sent, and segments of 6 bytes.
abbrev sender : Tcb
sender = record tcp_qopen {
  state = established;
  local_port = 80;
  remote_ip = 0x0a000002;
  remote_port = 4000;
  snd_una = 1000;
  snd_nxt = 1004;
  rcv_nxt = 500;
  snd_buf = ten_bytes ∷ ten_bytes ∷ [];
  snd_buf_seq = 1000;
  snd_wnd = 17;
  mss = 6;
}

abbrev conn : Tcb → Conn
conn s = record {
  tcb = s;
  tick = 900;
  iss_next = 0x12345;
  ephemeral_next = 49152;
  route_mtu = some 1500;
  answers =
      true ∷ true ∷ true ∷ true ∷ true ∷ true ∷ true ∷ true ∷ true ∷ true ∷ true ∷ true ∷ true
      ∷ true ∷ true ∷ true ∷ true ∷ true ∷ [];
  sent = [];
  up = [];
  binds = [];
}

abbrev sending : Conn
sending = conn sender

abbrev sizes : List Segment → List ℕ
sizes [] = []
sizes (p ∷ ps) = length p.payload ∷ sizes ps

-- 13 bytes go out, in segments of 6, 6 and 1, and fill the window of 17.
three_segments : sizes (tcp_try_send_pending sending).sent ≡ 6 ∷ 6 ∷ 1 ∷ []
unfolding tcp_try_send_pending
three_segments = refl

sending-InRange : InRange sender
sending-InRange = record {
  nxt = omega arith;
  una = omega arith;
  seq = omega arith;
  wnd = omega arith;
  cwnd = omega arith;
  buf = omega arith;
  mss = omega arith;
}

tcp_try_send_pending-Ships_example : Ships sending (tcp_try_send_pending sending)
tcp_try_send_pending-Ships_example = tcp_try_send_pending-Ships sending sending-InRange

tcp_try_send_pending-exhausts_example : Exhausted (tcp_try_send_pending sending).tcb
unfolding ready
tcp_try_send_pending-exhausts_example =
    tcp_try_send_pending-exhausts sending sending-InRange refl refl refl

-- The peer's FIN, with an acknowledgement of what was sent.
abbrev fin : Arrival
fin = record {
  src_ip = 0x0a000002;
  src_port = 4000;
  seq = 500;
  ack = 1004;
  flags = flag_fin_ack;
  window = 4096;
  options = [];
  payload = [];
}

fin_closes : (tcp_input_segment sending fin).tcb.state ≡ close_wait
unfolding tcp_input_segment
fin_closes = refl

tcp_input_segment-Edge_example : Edge established (tcp_input_segment sending fin).tcb.state
tcp_input_segment-Edge_example = tcp_input_segment-Edge sending fin

abbrev both_closed : Conn
both_closed = conn (record sender { state = closing; snd_buf = []; snd_una = 1003 })

Step-closing_example :
    let d = tcp_input_segment both_closed fin in
    (d.tcb.state ≡ closing)
    ⊎ (((d ≡ tcp_retransmit_main both_closed) × TimedOut both_closed d)
        ⊎ (((port : ℕ) × (d ≡ handle_bind_req both_closed port) × Rebound both_closed d)
            ⊎ ((key : ℕ) × (d ≡ handle_ip_ack both_closed false key) × Refused both_closed d)))
Step-closing_example =
    Step-closing both_closed (tcp_input_segment both_closed fin) (segment both_closed fin) refl

-- Two bytes, next in sequence.
abbrev two_bytes : Arrival
two_bytes = record fin { flags = flag_ack; payload = 7 ∷ 8 ∷ [] }

take_data-cases_example :
    let d = take_data sending two_bytes in
    ((500 ≡ sender.rcv_nxt)
      × (takes_data established ≡ true)
      × (0 < length two_bytes.payload)
      × (next_answer sending.answers ≡ true)
      × (d.tcb.rcv_nxt ≡ add32 500 (length two_bytes.payload))
      × (d.up ≡ sending.up ++ Reply.data_ind two_bytes.payload ∷ []))
    ⊎ (((500 ≢ sender.rcv_nxt)
          ⊎ (takes_data established ≡ false)
          ⊎ (length two_bytes.payload ≡ 0)
          ⊎ (next_answer sending.answers ≡ false))
        × (d.tcb ≡ sender)
        × (d.up ≡ sending.up))
take_data-cases_example = take_data-cases sending two_bytes

-- A listener at the end of its ring, for which two SYNs wait.
abbrev waiting : ℕ → ℕ → Pending
waiting ip port = record {
  remote_ip = ip;
  remote_port = port;
  irs = 77;
  peer_mss = 1460;
  wscale = some 3;
}

abbrev ring : ℕ → Pending
ring i = if i == 7 then waiting 5 1000 else waiting 6 2000

abbrev listening : Conn
listening = conn (record tcp_qopen {
  state = listen;
  local_port = 80;
  pending_q = ring;
  pending_head = 7;
  pending_count = 2;
})

listening-RingOk : RingOk listening.tcb
listening-RingOk = record { head = omega arith; count = omega arith }

abbrev syn : Arrival
syn = record fin { flags = flag_syn }

in_listen-backlog_example : Listened listening syn (in_listen listening syn)
in_listen-backlog_example = in_listen-backlog listening syn listening-RingOk

tcp_accept_into-backlog_example :
    let (d, t) = tcp_accept_into listening tcp_qopen in
    (p : Pending) × (backlog listening.tcb ≡ p ∷ backlog d.tcb)
    × RingOk d.tcb
    × Opens listening.tcb 0x12345 p t
tcp_accept_into-backlog_example =
    tcp_accept_into-backlog listening tcp_qopen listening-RingOk (omega arith)

abbrev measured : Tcb
measured = record sender { rtt_valid = true; srtt_ticks = 40; rttvar_ticks = 8 }

parse-syn_options_example :
    tcp_parse_syn_options (syn_options 1460 true) ≡ record { mss = 1460; wscale = some 0 }
parse-syn_options_example = parse-syn_options 1460 true (omega arith)

-- A fresh block is bound to port 80 and asked to connect.
abbrev fresh : Conn
fresh = conn tcp_qopen

abbrev named : Conn
named = handle_bind_req fresh 80

dialling : Steps fresh (handle_conn_req named 5 1000)
dialling =
    then_step fresh named (handle_conn_req named 5 1000)
      (then_step fresh fresh named (begin fresh) (bind fresh 80)) (connect named 5 1000)

Steps-IsSound_example : IsSound (handle_conn_req named 5 1000).tcb
Steps-IsSound_example =
    Steps-IsSound fresh (handle_conn_req named 5 1000) dialling
      (omega arith, omega arith, omega arith, omega arith, omega arith)

-- The first retransmission is long due.
abbrev late : Conn
late = conn (record sender { rto_expires = 800; rto_ticks = 200 })

tcp_retransmit_main-Visits_example : Visits late (tcp_retransmit_main late)
tcp_retransmit_main-Visits_example =
    tcp_retransmit_main-Visits late (λ e. ground (arith, e)) (omega arith) (omega arith)
