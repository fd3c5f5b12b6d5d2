-- ===== src/Net/Tcp/States.antt =====
-- tcp.c: the state machine, as the segments that arrive drive it.
use kappara.Base.{
  if-elim, subst, sym, ◌⊎◌, inl, inr, add32, ℕ, zero, suc, ◌≡◌, refl, ap, ◌∙◌, Bool, true, false,
  List, [], ◌∷◌, arith, ◌==◌, ◌&&◌, sub32,
}
use kappara.Net.Tcp.Types.{
  Tcb, Conn, TcpState, closed, bound, listen, syn_sent, syn_received, established, fin_wait_1,
  fin_wait_2, close_wait, last_ack, closing, time_wait, Flags, Arrival, flag_psh_ack, flag_ack,
}
use kappara.Net.Tcp.Mss.{tcp_cwnd_on_ack}
use kappara.Net.Tcp.Output.{tcp_emit_segment, tcp_send_segment, with_tcb}
use kappara.Net.Tcp.Send.{next_bytes, after_chunk, unsent, send_loop, tcp_try_send_pending}
use kappara.Net.Tcp.Ack.{
  trim_buffer, trim_held, deflated, acknowledged, enter_recovery, inflated, first_segment, ack_new,
  ack_duplicate, ack_state, count_ack, take_ack,
}
use kappara.Net.Tcp.Input.{
  take_window, from_peer, opened, complete_open, is_listen, in_syn_sent, in_listen, in_syn_received,
  take_data, after_fin, take_fin, in_connection, in_time_wait, dispatch, tcp_input_segment,
}

send-state :
    (c : Conn) (fl : Flags) (xs : List ℕ) → (tcp_send_segment c fl xs).tcb.state ≡ c.tcb.state
unfolding tcp_send_segment
send-state c fl xs = ground arith

emit-state :
    (c : Conn) (n : ℕ) (fl : Flags) (xs : List ℕ) → (tcp_emit_segment c n fl xs).1.tcb ≡ c.tcb
unfolding tcp_emit_segment
emit-state c n fl xs = ground arith

after-state : (c : Conn) → (after_chunk c).state ≡ c.tcb.state
unfolding after_chunk
after-state c = ground arith

loop-state : (f : ℕ) (c : Conn) → (send_loop f c).tcb.state ≡ c.tcb.state
unfolding send_loop
loop-state zero c = refl
loop-state (suc f) c = ground (
  arith,
  loop-state f (
      with_tcb (tcp_emit_segment c c.tcb.snd_nxt flag_psh_ack (next_bytes c.tcb)).1
        (after_chunk c)),
  emit-state c c.tcb.snd_nxt flag_psh_ack (next_bytes c.tcb),
  after-state c,
)

try-state : (c : Conn) → (tcp_try_send_pending c).tcb.state ≡ c.tcb.state
unfolding tcp_try_send_pending
try-state c = ground (arith, loop-state (suc (unsent c.tcb)) c)

trim-state : (t : ℕ) (s : Tcb) (n : ℕ) → (trim_buffer t s n).state ≡ s.state
unfolding trim_buffer
trim-state t s n = ground arith

cwnd-state : (s : Tcb) → (tcp_cwnd_on_ack s).state ≡ s.state
unfolding tcp_cwnd_on_ack
cwnd-state s = ground arith

held-state : (bs : List (List ℕ)) (t : ℕ) (s : Tcb) (n : ℕ) → (trim_held bs t s n).state ≡ s.state
unfolding trim_held
held-state [] t s n = refl
held-state (b ∷ bs) t s n = trim-state t s n

acknowledged-state : (t : ℕ) (s : Tcb) (n : ℕ) → (acknowledged t s n).state ≡ s.state
unfolding acknowledged
acknowledged-state t s n =
    held-state s.snd_buf t (tcp_cwnd_on_ack (deflated s n)) (sub32 n s.snd_una)
    ∙ cwnd-state (deflated s n)

new-state : (c : Conn) (a : Arrival) → (ack_new c a).tcb.state ≡ c.tcb.state
unfolding ack_new
new-state c a =
    try-state (with_tcb c (acknowledged c.tick c.tcb a.ack)) ∙ acknowledged-state c.tick c.tcb a.ack

duplicate-state : (c : Conn) → (ack_duplicate c).tcb.state ≡ c.tcb.state
unfolding ack_duplicate
duplicate-state c = ground (
  arith,
  emit-state (with_tcb c (enter_recovery c.tcb)) c.tcb.snd_buf_seq flag_psh_ack
      (first_segment c.tcb),
  try-state (with_tcb c (inflated c.tcb)),
)

data-state : (c : Conn) (a : Arrival) → (take_data c a).tcb.state ≡ c.tcb.state
unfolding take_data
data-state c a = ground arith

-- The states of the switch's common case.
abbrev pub in_switch : TcpState → Bool
in_switch established = true
in_switch fin_wait_1 = true
in_switch fin_wait_2 = true
in_switch close_wait = true
in_switch last_ack = true
in_switch s = false

-- The edges of RFC 793's graph that a segment takes. An ACK and a FIN in one segment take two.
pub data Edge : TcpState → TcpState → Type 0 where
  stay : {s : TcpState} → Edge s s
  completed : Edge syn_sent established
  answered : Edge syn_received established
  peer_closed : Edge established close_wait
  fin_acked : Edge fin_wait_1 fin_wait_2
  both_closing : Edge fin_wait_1 closing
  fin_acked_and_closed : Edge fin_wait_1 time_wait
  closed_after : Edge fin_wait_2 time_wait
  done : Edge last_ack closed
  reset : {s : TcpState} → in_switch s ≡ true → Edge s closed

-- Where an acknowledgement of everything, and where a FIN, may lead.
abbrev ack_next : TcpState → TcpState
ack_next fin_wait_1 = fin_wait_2
ack_next closing = time_wait
ack_next last_ack = closed
ack_next s = s

abbrev fin_next : TcpState → TcpState
fin_next established = close_wait
fin_next fin_wait_1 = closing
fin_next fin_wait_2 = time_wait
fin_next s = s

ack_state-next :
    (c : Conn)
    → ((ack_state c).tcb.state ≡ c.tcb.state) ⊎ ((ack_state c).tcb.state ≡ ack_next c.tcb.state)
unfolding ack_state
ack_state-next c = ground arith

count_ack-state : (c : Conn) (a : Arrival) → (count_ack c a).tcb.state ≡ c.tcb.state
unfolding count_ack
count_ack-state c a = ground (arith, new-state c a, duplicate-state c)

take_ack-next :
    (c : Conn) (a : Arrival)
    → ((take_ack c a).tcb.state ≡ c.tcb.state) ⊎ ((take_ack c a).tcb.state ≡ ack_next c.tcb.state)
unfolding take_ack
take_ack-next c a =
    let same = count_ack-state c a in
    if-elim (λ (d : Conn). (d.tcb.state ≡ c.tcb.state) ⊎ (d.tcb.state ≡ ack_next c.tcb.state))
      a.flags.ack
      (λ _. elim (ack_state-next (count_ack c a)) [
        | inl p ↦ inl (p ∙ same)
        | inr p ↦ inr (p ∙ ap ack_next same)
      ])
      (λ _. inl refl)

after_fin-next : (t : ℕ) (s : Tcb) → (after_fin t s).state ≡ fin_next s.state
unfolding after_fin
after_fin-next t s = ground arith

take_fin-next :
    (c : Conn) (a : Arrival)
    → ((take_fin c a).tcb.state ≡ c.tcb.state) ⊎ ((take_fin c a).tcb.state ≡ fin_next c.tcb.state)
unfolding take_fin
take_fin-next c a =
    let s : Tcb = record c.tcb { rcv_nxt = add32 c.tcb.rcv_nxt 1 } in
    ground
      (arith, after_fin-next c.tick s, send-state (with_tcb c (after_fin c.tick s)) flag_ack [])

-- The states on the way through the switch's common case.
abbrev Edges : TcpState → Type 0
Edges s = Edge s s × Edge s (ack_next s) × Edge s (fin_next s) × Edge s (fin_next (ack_next s))

edges : (s : TcpState) → in_switch s ≡ true → Edges s
edges established p = (stay, stay, peer_closed, peer_closed)
edges fin_wait_1 p = (stay, fin_acked, both_closing, fin_acked_and_closed)
edges fin_wait_2 p = (stay, stay, closed_after, closed_after)
edges close_wait p = (stay, stay, stay, stay)
edges last_ack p = (stay, done, stay, done)
edges _ p = absurd (ground (arith, p))

after_both :
    (s u v : TcpState)
    → in_switch s ≡ true
    → (u ≡ s) ⊎ (u ≡ ack_next s)
    → (v ≡ u) ⊎ (v ≡ fin_next u)
    → Edge s v
after_both s u v p (inl q) (inl r) = subst (λ w. Edge s w) (sym (r ∙ q)) (edges s p).0
after_both s u v p (inr q) (inl r) = subst (λ w. Edge s w) (sym (r ∙ q)) (edges s p).1
after_both s u v p (inl q) (inr r) = subst (λ w. Edge s w) (sym (r ∙ ap fin_next q)) (edges s p).2
after_both s u v p (inr q) (inr r) = subst (λ w. Edge s w) (sym (r ∙ ap fin_next q)) (edges s p).3

accept-Edge :
    (c : Conn) (a : Arrival)
    → in_switch c.tcb.state ≡ true
    → Edge c.tcb.state (take_fin (take_data (take_ack c a) a) a).tcb.state
accept-Edge c a p =
    let d = take_data (take_ack c a) a in
    after_both c.tcb.state (take_ack c a).tcb.state (take_fin d a).tcb.state p (take_ack-next c a) (
      subst (λ u. ((take_fin d a).tcb.state ≡ u) ⊎ ((take_fin d a).tcb.state ≡ fin_next u))
        (data-state (take_ack c a) a) (take_fin-next d a))

in_connection-Edge :
    (c : Conn) (a : Arrival)
    → in_switch c.tcb.state ≡ true
    → Edge c.tcb.state (in_connection c a).tcb.state
unfolding in_connection
in_connection-Edge c a p =
    let Next : Conn → Type 0 = λ d. Edge c.tcb.state d.tcb.state in
    if-elim Next (from_peer c.tcb a)
      (λ _. if-elim Next a.flags.rst (λ _. reset p) (λ _. accept-Edge c a p)) (λ _. stay)

complete_open-state : (c : Conn) (a : Arrival) → (complete_open c a).tcb.state ≡ established
unfolding complete_open
complete_open-state c a = send-state (with_tcb c (opened c a)) flag_ack []

in_syn_sent-Edge :
    (c : Conn) (a : Arrival) → c.tcb.state ≡ syn_sent → Edge syn_sent (in_syn_sent c a).tcb.state
unfolding in_syn_sent
in_syn_sent-Edge c a p =
    if-elim (λ (d : Conn). Edge syn_sent d.tcb.state)
      (a.flags.syn && a.flags.ack && a.ack == c.tcb.snd_nxt && from_peer c.tcb a)
      (λ _. subst (λ u. Edge syn_sent u) (sym (complete_open-state c a)) completed)
      (λ _. subst (λ u. Edge syn_sent u) (sym p) stay)

in_syn_received-Edge :
    (c : Conn) (a : Arrival)
    → c.tcb.state ≡ syn_received
    → Edge syn_received (in_syn_received c a).tcb.state
unfolding in_syn_received
in_syn_received-Edge c a p =
    if-elim (λ (d : Conn). Edge syn_received d.tcb.state)
      (a.flags.ack && a.ack == c.tcb.snd_nxt && from_peer c.tcb a) (λ _. answered)
      (λ _. subst (λ u. Edge syn_received u) (sym p) stay)

in_time_wait-state : (c : Conn) (a : Arrival) → (in_time_wait c a).tcb.state ≡ c.tcb.state
unfolding in_time_wait
in_time_wait-state c a = ground (arith, send-state c flag_ack [])

in_listen-state : (c : Conn) (a : Arrival) → (in_listen c a).tcb.state ≡ c.tcb.state
unfolding in_listen
in_listen-state c a = ground arith

connection-Edge :
    (s : TcpState) (c : Conn) (a : Arrival)
    → c.tcb.state ≡ s
    → in_switch s ≡ true
    → Edge s (in_connection c a).tcb.state
connection-Edge s c a p q =
    subst (λ u. Edge u (in_connection c a).tcb.state) p
      (in_connection-Edge c a (ap in_switch p ∙ q))

window-state : (c : Conn) (a : Arrival) → (take_window c a).tcb.state ≡ c.tcb.state
unfolding take_window
window-state c a = refl

-- The state is passed twice: `s` is the one that the switch reads.
dispatch-Edge :
    (s : TcpState) (c : Conn) (a : Arrival) → c.tcb.state ≡ s → Edge s (dispatch s c a).tcb.state
unfolding dispatch
dispatch-Edge syn_sent c a p = in_syn_sent-Edge c a p
dispatch-Edge listen c a p = subst (λ u. Edge listen u) (sym (in_listen-state c a ∙ p)) stay
dispatch-Edge syn_received c a p = in_syn_received-Edge c a p
dispatch-Edge established c a p = connection-Edge established c a p refl
dispatch-Edge fin_wait_1 c a p = connection-Edge fin_wait_1 c a p refl
dispatch-Edge fin_wait_2 c a p = connection-Edge fin_wait_2 c a p refl
dispatch-Edge close_wait c a p = connection-Edge close_wait c a p refl
dispatch-Edge last_ack c a p = connection-Edge last_ack c a p refl
dispatch-Edge time_wait c a p =
    subst (λ u. Edge time_wait u) (sym (in_time_wait-state c a ∙ p)) stay
dispatch-Edge closed c a p = subst (λ u. Edge closed u) (sym p) stay
dispatch-Edge bound c a p = subst (λ u. Edge bound u) (sym p) stay
dispatch-Edge closing c a p = subst (λ u. Edge closing u) (sym p) stay

-- Whatever arrives, in whatever state, the state afterwards is the same or the next along an edge of
-- RFC 793's graph: an open is completed, the peer's FIN or the ACK of ours is taken, or both in one
-- segment, or the connection is closed.
pub tcp_input_segment-Edge :
    (c : Conn) (a : Arrival) → Edge c.tcb.state (tcp_input_segment c a).tcb.state
unfolding tcp_input_segment
tcp_input_segment-Edge c a =
    if-elim (λ (d : Conn). Edge c.tcb.state d.tcb.state) (is_listen c.tcb.state)
      (λ _.
        if-elim (λ (d : Conn). Edge c.tcb.state d.tcb.state) a.flags.syn
          (λ _. subst (λ u. Edge c.tcb.state u) (sym (in_listen-state c a)) stay) (λ _. stay))
      (λ _. dispatch-Edge c.tcb.state (take_window c a) a (window-state c a))
