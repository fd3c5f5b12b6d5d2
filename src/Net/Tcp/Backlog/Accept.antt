-- ===== src/Net/Tcp/Backlog/Accept.antt =====
-- tcp.c: the oldest SYN, accepted.
use kappara.Base.{ℕ, ◌<◌, ◌≡◌, ◌∙◌, List, [], ◌∷◌, arith, add32, Option}
use kappara.Net.Tcp.Types.{Tcb, Conn, Flags, flag_syn_ack, Pending, syn_received}
use kappara.Net.Tcp.Output.{tcp_send_segment, with_tcb}
use kappara.Net.Tcp.Requests.{alloc_iss, accepted, tcp_accept_into}
use kappara.Net.Tcp.Backlog.{backlog, RingOk, pop-backlog, pop-RingOk}

-- Two blocks of the same connection at the same point.
pub record SameEnds (s t : Tcb) : Type 0 where
  pub state : t.state ≡ s.state
  pub local_port : t.local_port ≡ s.local_port
  pub remote_ip : t.remote_ip ≡ s.remote_ip
  pub remote_port : t.remote_port ≡ s.remote_port
  pub rcv_nxt : t.rcv_nxt ≡ s.rcv_nxt
  pub snd_una : t.snd_una ≡ s.snd_una

pub send-SameEnds :
    (c : Conn) (fl : Flags) (xs : List ℕ) → SameEnds c.tcb (tcp_send_segment c fl xs).tcb
unfolding tcp_send_segment
send-SameEnds c fl xs = record {
  state = ground arith;
  local_port = ground arith;
  remote_ip = ground arith;
  remote_port = ground arith;
  rcv_nxt = ground arith;
  snd_una = ground arith;
}

-- The child is the connection with the sender of `p`, whose number comes next, in SYN_RECEIVED.
abbrev pub Opens : Tcb → ℕ → Pending → Tcb → Type 0
Opens s iss p t =
    (t.state ≡ syn_received)
    × (t.local_port ≡ s.local_port)
    × (t.remote_ip ≡ p.remote_ip)
    × (t.remote_port ≡ p.remote_port)
    × (t.rcv_nxt ≡ add32 p.irs 1)
    × (t.snd_una ≡ iss)

pub accepted-Opens :
    (mtu : Option ℕ) (iss : ℕ) (s child : Tcb)
    → Opens s iss (s.pending_q s.pending_head) (accepted mtu iss s child)
unfolding accepted
accepted-Opens mtu iss s child =
    (ground arith, ground arith, ground arith, ground arith, ground arith, ground arith)

pub SameEnds-Opens :
    (s : Tcb) (iss : ℕ) (p : Pending) (t u : Tcb) → Opens s iss p t → SameEnds t u → Opens s iss p u
SameEnds-Opens s iss p t u o e = (
  e.state ∙ o.0,
  e.local_port ∙ o.1,
  e.remote_ip ∙ o.2,
  e.remote_port ∙ o.3,
  e.rcv_nxt ∙ o.4,
  e.snd_una ∙ o.5,
)

-- An accept takes the oldest waiting SYN out of the ring, and the child becomes the connection with
-- its sender.
pub tcp_accept_into-backlog :
    (c : Conn) (child : Tcb)
    → RingOk c.tcb
    → 0 < c.tcb.pending_count
    → let (d, t) = tcp_accept_into c child in
      (p : Pending) × (backlog c.tcb ≡ p ∷ backlog d.tcb)
      × RingOk d.tcb
      × Opens c.tcb c.iss_next p t
unfolding tcp_accept_into alloc_iss
tcp_accept_into-backlog c child r h =
    let oldest = c.tcb.pending_q c.tcb.pending_head in
    let fresh = accepted c.route_mtu c.iss_next c.tcb child in
    let opened = with_tcb (record c { iss_next = add32 c.iss_next 65536 }) fresh in
    let sent = tcp_send_segment opened flag_syn_ack [] in
    (
      oldest,
      pop-backlog c.tcb r h,
      pop-RingOk c.tcb r,
      SameEnds-Opens c.tcb c.iss_next oldest fresh sent.tcb
          (accepted-Opens c.route_mtu c.iss_next c.tcb child)
          (send-SameEnds opened flag_syn_ack []),
    )
