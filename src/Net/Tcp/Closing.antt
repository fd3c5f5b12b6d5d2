-- ===== src/Net/Tcp/Closing.antt =====
-- tcp.c: the states from which the code does not go on as its comments say: CLOSING, a release with
-- bytes unsent, and a bind of an endpoint that is in use.
use kappara.Base.{
  add32, ℕ, ◌≡◌, ◌≢◌, ◌⊎◌, inl, inr, refl, ap, ◌∙◌, true, false, Option, none, some, List, [], ◌∷◌,
  ◌++◌, arith, if◌then◌else◌, ◌≤◌,
}
use kappara.Net.Tcp.Types.{
  Tcb, Conn, TcpState, Arrival, closing, closed, bound, established, close_wait, Reply, Reason,
  flag_fin_ack, next_answer, Bind, max_retransmits,
}
use kappara.Net.Tcp.Output.{build_segment, with_tcb}
use kappara.Net.Tcp.Send.{may_send, tcp_try_send_pending}
use kappara.Net.Tcp.Input.{take_window, dispatch, is_listen, in_listen, tcp_input_segment}
use kappara.Net.Tcp.Requests.{
  tcp_bind_key, handle_bind_req, handle_ip_ack, handle_conn_req, handle_listen_req, handle_conn_res,
  handle_ordrel_req, handle_discon_req, handle_data_req, tcp_on_user_drain,
}
use kappara.Net.Tcp.Timer.{backed_off, resend, give_up, retransmit, poll_rto, tcp_retransmit_main}
use kappara.Net.Tcp.Steps.{
  Step, segment, bind, answer, connect, listening, accepting, release, abort, write_data, read_data,
  visit, elapse,
}

abbrev state_of : Conn → TcpState
state_of c = c.tcb.state

-- In CLOSING a segment changes nothing but the peer's window: the ACK of our FIN is not taken.
pub tcp_input_segment-closing :
    (c : Conn) (a : Arrival) → c.tcb.state ≡ closing → tcp_input_segment c a ≡ take_window c a
unfolding tcp_input_segment dispatch
tcp_input_segment-closing c a p =
    ap
      (λ s.
        if is_listen s
        then (if a.flags.syn then in_listen c a else c)
        else dispatch s (take_window c a) a)
      p

resend-tcb : (c : Conn) → (resend c).tcb ≡ c.tcb
unfolding resend
resend-tcb c = ground arith

backed_off-state : (s : Tcb) → (backed_off s).state ≡ s.state
unfolding backed_off
backed_off-state s = ground arith

retransmit-state : (c : Conn) → (retransmit c).tcb.state ≡ c.tcb.state
unfolding retransmit
retransmit-state c =
    ap (λ (s : Tcb). s.state) (resend-tcb (with_tcb c (backed_off c.tcb))) ∙ backed_off-state c.tcb

-- The connection is closed, and the user is told that the peer did not answer.
abbrev pub TimedOut : Conn → Conn → Type 0
TimedOut c d =
    (d.tcb.state ≡ closed)
    × (d.up ≡ c.up ++ Reply.discon_ind Reason.timeout ∷ [])
    × (max_retransmits ≤ c.tcb.retransmit_count)

poll_rto-closing :
    (c : Conn)
    → c.tcb.state ≡ closing
    → ((poll_rto c).tcb.state ≡ closing) ⊎ TimedOut c (poll_rto c)
unfolding poll_rto give_up
poll_rto-closing c p = ground (arith, retransmit-state c)

visit-closing :
    (c : Conn)
    → c.tcb.state ≡ closing
    → ((tcp_retransmit_main c).tcb.state ≡ closing) ⊎ TimedOut c (tcp_retransmit_main c)
unfolding tcp_retransmit_main
visit-closing c p = ground (arith, poll_rto-closing c p)

connect-closing :
    (c : Conn) (ip port : ℕ)
    → c.tcb.state ≡ closing
    → (handle_conn_req c ip port).tcb.state ≡ closing
unfolding handle_conn_req
connect-closing c ip port p = ground arith

listen-closing : (c : Conn) → c.tcb.state ≡ closing → (handle_listen_req c).tcb.state ≡ closing
unfolding handle_listen_req
listen-closing c p = ground arith

accept-closing :
    (c : Conn) (child : Option Tcb)
    → c.tcb.state ≡ closing
    → (handle_conn_res c child).0.tcb.state ≡ closing
unfolding handle_conn_res
accept-closing c none p = ground arith
accept-closing c (some child) p = ground arith

release-closing : (c : Conn) → c.tcb.state ≡ closing → (handle_ordrel_req c).tcb.state ≡ closing
unfolding handle_ordrel_req
release-closing c p = ground arith

abort-closing : (c : Conn) → c.tcb.state ≡ closing → (handle_discon_req c).tcb.state ≡ closing
unfolding handle_discon_req
abort-closing c p = ground arith

data-closing :
    (c : Conn) (bs : List (List ℕ))
    → c.tcb.state ≡ closing
    → (handle_data_req c bs).1.tcb.state ≡ closing
unfolding handle_data_req
data-closing c bs p = ground arith

drain-closing : (c : Conn) → c.tcb.state ≡ closing → (tcp_on_user_drain c).tcb.state ≡ closing
unfolding tcp_on_user_drain
drain-closing c p = ground arith

-- A bind is refused where a port is bound already, and otherwise goes through in every state, also
-- for a connection that is in use: the port is the one asked for or the next ephemeral one, the state
-- is BOUND, and IP is asked to bind the port.
pub handle_bind_req-cases :
    (c : Conn) (port : ℕ)
    → let d = handle_bind_req c port in
      ((c.tcb.is_bound ≡ true) × (d.tcb ≡ c.tcb) × (d.up ≡ c.up ++ Reply.bind_nak 1 ∷ []))
      ⊎ ((c.tcb.is_bound ≡ false)
          × (d.tcb.state ≡ bound)
          × (((port ≢ 0) × (d.tcb.local_port ≡ port))
              ⊎ ((port ≡ 0) × (d.tcb.local_port ≡ c.ephemeral_next)))
          × (d.binds ≡ c.binds ++ Bind.bind_req (tcp_bind_key d.tcb.local_port 0) ∷ []))
unfolding handle_bind_req
handle_bind_req-cases c port = ground arith

-- A bind went through: the connection is in BOUND, and IP is asked to bind the port.
abbrev pub Rebound : Conn → Conn → Type 0
Rebound c d =
    (c.tcb.is_bound ≡ false)
    × (d.tcb.state ≡ bound)
    × (d.binds ≡ c.binds ++ Bind.bind_req (tcp_bind_key d.tcb.local_port 0) ∷ [])

bind-closing :
    (c : Conn) (port : ℕ)
    → c.tcb.state ≡ closing
    → let d = handle_bind_req c port in (d.tcb.state ≡ closing) ⊎ Rebound c d
bind-closing c port p = elim (handle_bind_req-cases c port) [
  | inl (taken, same, told) ↦ inl (ap (λ (s : Tcb). s.state) same ∙ p)
  | inr (free, now, which, asked) ↦ inr (free, now, asked)
]

-- IP has refused the port.
abbrev pub Refused : Conn → Conn → Type 0
Refused c d = (d.tcb.state ≡ closed) × (d.up ≡ c.up ++ Reply.bind_nak 1 ∷ [])

answered-closing :
    (c : Conn) (key : ℕ) → c.tcb.state ≡ closing → (handle_ip_ack c true key).tcb.state ≡ closing
unfolding handle_ip_ack
answered-closing c key p = p

handle_ip_ack-Refused : (c : Conn) (key : ℕ) → Refused c (handle_ip_ack c false key)
unfolding handle_ip_ack
handle_ip_ack-Refused c key = (refl, refl)

-- There are three ways out of CLOSING: a visit of the retransmit thread that finds five
-- retransmissions made, which closes the connection and reports a timeout; a T_BIND_REQ where no port is
-- marked as bound, which leads to BOUND; and IP's refusal of a port, which leads to CLOSED. All other
-- steps stay in CLOSING: no segment and no other request leads out of it, and nothing to TIME_WAIT.
pub Step-closing :
    (c d : Conn)
    → Step c d
    → c.tcb.state ≡ closing
    → (d.tcb.state ≡ closing)
      ⊎ (((d ≡ tcp_retransmit_main c) × TimedOut c d)
          ⊎ (((port : ℕ) × (d ≡ handle_bind_req c port) × Rebound c d)
              ⊎ ((key : ℕ) × (d ≡ handle_ip_ack c false key) × Refused c d)))
unfolding take_window
Step-closing c _ (segment _ a) p = inl (ap state_of (tcp_input_segment-closing c a p) ∙ p)
Step-closing c _ (bind _ port) p = elim (bind-closing c port p) [
  | inl stays ↦ inl stays
  | inr leaves ↦ inr (inr (inl (port, refl, leaves)))
]
Step-closing c _ (answer _ true key) p = inl (answered-closing c key p)
Step-closing c _ (answer _ false key) p = inr (inr (inr (key, refl, handle_ip_ack-Refused c key)))
Step-closing c _ (connect _ ip port) p = inl (connect-closing c ip port p)
Step-closing c _ (listening _) p = inl (listen-closing c p)
Step-closing c _ (accepting _ child) p = inl (accept-closing c child p)
Step-closing c _ (release _) p = inl (release-closing c p)
Step-closing c _ (abort _) p = inl (abort-closing c p)
Step-closing c _ (write_data _ bs) p = inl (data-closing c bs p)
Step-closing c _ (read_data _) p = inl (drain-closing c p)
Step-closing c _ (visit _) p = elim (visit-closing c p) [
  | inl stays ↦ inl stays
  | inr leaves ↦ inr (inl (refl, leaves))
]
Step-closing c _ (elapse _ n mtu answers) p = inl p

try-stopped : (c : Conn) → may_send c.tcb.state ≡ false → tcp_try_send_pending c ≡ c
unfolding tcp_try_send_pending
try-stopped c p = ground (arith, p)

release-stopped :
    (c : Conn)
    → (c.tcb.state ≡ established) ⊎ (c.tcb.state ≡ close_wait)
    → may_send (handle_ordrel_req c).tcb.state ≡ false
unfolding handle_ordrel_req
release-stopped c h = ground arith

-- A release with a route and a buffer sends the FIN at `snd_nxt` at once, ahead of the bytes of the
-- buffer that are not sent yet. They stay in the buffer, and in the new state nothing sends them.
pub handle_ordrel_req-ahead :
    (c : Conn)
    → (c.tcb.state ≡ established) ⊎ (c.tcb.state ≡ close_wait)
    → next_answer c.answers ≡ true
    → let d = handle_ordrel_req c in
      (d.sent ≡ c.sent ++ build_segment c c.tcb.snd_nxt flag_fin_ack [] ∷ [])
      × (d.tcb.snd_nxt ≡ add32 c.tcb.snd_nxt 1)
      × (d.tcb.snd_buf ≡ c.tcb.snd_buf)
      × (tcp_try_send_pending d ≡ d)
unfolding handle_ordrel_req
handle_ordrel_req-ahead c h ok = (
  ground arith,
  ground arith,
  ground arith,
  try-stopped (handle_ordrel_req c) (release-stopped c h),
)
