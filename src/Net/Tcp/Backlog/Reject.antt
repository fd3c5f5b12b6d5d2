-- ===== src/Net/Tcp/Backlog/Reject.antt =====
-- tcp.c: the SYNs of a listener that disconnects.
use kappara.Base.{
  ℕ, zero, suc, ◌+◌, ◌-◌, ◌%◌, ◌<◌, ◌≡◌, refl, sym, ap, ◌∙◌, subst, true, List, [], ◌∷◌, ◌++◌,
  arith, append_assoc, append-nil,
}
use kappara.Net.Tcp.Types.{
  Tcb, Conn, Pending, Segment, listen_backlog, flag_rst, next_answer, rest_answers, listen,
}
use kappara.Net.Tcp.Output.{build_segment, tcp_send_segment, with_tcb}
use kappara.Net.Tcp.Requests.{handle_discon_req, pop_pending, reject_pending}
use kappara.Net.Tcp.Window.Loop.{ready}
use kappara.Net.Tcp.Backlog.{entries, backlog, RingOk, pop-backlog, pop-RingOk}

-- RSTs to the senders of the SYNs, in their order.
unfoldable pub Resets : List Pending → List Segment → Type 0
Resets [] [] = Unit
Resets (p ∷ ps) (s ∷ ss) =
    (s.flags ≡ flag_rst) × (s.dst_ip ≡ p.remote_ip) × (s.dst_port ≡ p.remote_port) × Resets ps ss
Resets _ _ = ⊥

-- The listener after one rejection, and the RST that it sent.
abbrev named : Tcb → Tcb
named s =
    let p : Pending = s.pending_q s.pending_head in
    record s { remote_ip = p.remote_ip; remote_port = p.remote_port }

abbrev rejected : Conn → Conn
rejected c = tcp_send_segment (with_tcb c (named c.tcb)) flag_rst []

record Rejects (c d : Conn) : Type 0 where
  rst : Segment
  sent : d.sent ≡ c.sent ++ rst ∷ []
  answers : d.answers ≡ rest_answers c.answers
  flags : rst.flags ≡ flag_rst
  ip : rst.dst_ip ≡ (c.tcb.pending_q c.tcb.pending_head).remote_ip
  port : rst.dst_port ≡ (c.tcb.pending_q c.tcb.pending_head).remote_port
  pending_q : d.tcb.pending_q ≡ c.tcb.pending_q
  pending_head : d.tcb.pending_head ≡ c.tcb.pending_head
  pending_count : d.tcb.pending_count ≡ c.tcb.pending_count

rejected-Rejects : (c : Conn) → next_answer c.answers ≡ true → Rejects c (rejected c)
unfolding tcp_send_segment
rejected-Rejects c ok = record {
  rst = build_segment (with_tcb c (named c.tcb)) c.tcb.snd_nxt flag_rst [];
  sent = ground arith;
  answers = ground arith;
  flags = refl;
  ip = refl;
  port = refl;
  pending_q = ground arith;
  pending_head = ground arith;
  pending_count = ground arith;
}

popped-same : (c d : Conn) → Rejects c d → backlog (pop_pending d.tcb) ≡ backlog (pop_pending c.tcb)
unfolding backlog
popped-same c d o =
    let s = c.tcb in
    let t = d.tcb in
    let next : Tcb → ℕ = λ u. (u.pending_head + 1) % listen_backlog in
    ap (λ q. entries q (next t) (t.pending_count - 1)) o.pending_q
    ∙ ap (λ h. entries s.pending_q ((h + 1) % listen_backlog) (t.pending_count - 1)) o.pending_head
    ∙ ap (λ n. entries s.pending_q (next s) (n - 1)) o.pending_count

Resets-cons :
    (c d : Conn) (o : Rejects c d) (ss : List Segment)
    → RingOk c.tcb
    → 0 < c.tcb.pending_count
    → Resets (backlog (pop_pending d.tcb)) ss
    → Resets (backlog c.tcb) (o.rst ∷ ss)
unfolding Resets
Resets-cons c d o ss r h k =
    subst (λ ps. Resets ps (o.rst ∷ ss)) (sym (pop-backlog c.tcb r h))
      (o.flags, o.ip, o.port, subst (λ ps. Resets ps ss) (popped-same c d o) k)

no_backlog : (s : Tcb) → s.pending_count ≡ 0 → backlog s ≡ []
unfolding backlog
no_backlog s e = ap (entries s.pending_q s.pending_head) e

reject_pending-Resets :
    (n : ℕ) (c : Conn)
    → c.tcb.pending_count ≡ n
    → RingOk c.tcb
    → ready n c.answers ≡ true
    → let d = reject_pending n c in
      (ss : List Segment) × (d.sent ≡ c.sent ++ ss)
      × Resets (backlog c.tcb) ss
      × (d.tcb.pending_count ≡ 0)
unfolding reject_pending ready Resets
reject_pending-Resets zero c e r p =
    ([], sym (append-nil c.sent), subst (λ ps. Resets ps []) (sym (no_backlog c.tcb e)) tt, e)
reject_pending-Resets (suc n) c e r p =
    let both : (next_answer c.answers ≡ true) × (ready n (rest_answers c.answers) ≡ true) =
      ground (arith, p) in
    let one = rejected-Rejects c both.0 in
    let d = rejected c in
    let next = with_tcb d (pop_pending d.tcb) in
    let held : RingOk d.tcb = record {
      head = omega (arith, r.head, one.pending_head);
      count = omega (arith, r.count, one.pending_count);
    } in
    let rest =
      reject_pending-Resets n next (omega (arith, e, one.pending_count)) (pop-RingOk d.tcb held)
        (ap (ready n) one.answers ∙ both.1) in
    (
      one.rst ∷ rest.0,
      rest.1 ∙ ap (λ xs. xs ++ rest.0) one.sent ∙ append_assoc c.sent (one.rst ∷ []) rest.0,
      Resets-cons c d one rest.0 r (omega (arith, e)) rest.2,
      rest.3,
    )

-- A listener that is told to disconnect resets the sender of every waiting SYN, in their order, and
-- forgets them, where each RST finds a route and a buffer.
pub handle_discon_req-Resets :
    (c : Conn)
    → c.tcb.state ≡ listen
    → RingOk c.tcb
    → 0 < c.tcb.pending_count
    → ready c.tcb.pending_count c.answers ≡ true
    → let d = handle_discon_req c in
      (ss : List Segment) × (d.sent ≡ c.sent ++ ss)
      × Resets (backlog c.tcb) ss
      × (d.tcb.pending_count ≡ 0)
unfolding handle_discon_req
handle_discon_req-Resets c q r h p =
    let e = reject_pending c.tcb.pending_count c in
    let done = with_tcb e (record e.tcb { remote_ip = 0; remote_port = 0 }) in
    let as_listener : handle_discon_req c ≡ done = ground (arith, q, h) in
    let all = reject_pending-Resets c.tcb.pending_count c refl r p in
    (
      all.0,
      ap (λ (d : Conn). d.sent) as_listener ∙ all.1,
      all.2,
      ap (λ (d : Conn). d.tcb.pending_count) as_listener ∙ all.3,
    )
