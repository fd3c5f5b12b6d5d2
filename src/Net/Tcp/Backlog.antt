-- ===== src/Net/Tcp/Backlog.antt =====
-- tcp.c: the ring `pending_q` of a listener, as the queue of the SYNs that wait for an accept.
pub mod Reject
pub mod Accept
use kappara.Base.{
  ℕ, zero, suc, ◌+◌, ◌-◌, ◌%◌, ◌≤◌, ◌<◌, ◌≡◌, ◌≢◌, ◌⊎◌, inl, inr, refl, sym, ap, ◌∙◌, subst, Bool,
  true, false, List, [], ◌∷◌, ◌++◌, arith, ltb, append_assoc, add32, if-elim, ◌&&◌, append-nil,
  write, write_self, write_ne, Option, none, some,
}
use kappara.Net.Tcp.Types.{
  Tcb, Conn, Flags, flag_syn_ack, Pending, Arrival, Segment, Reply, listen_backlog, flag_rst,
  next_answer, rest_answers, listen, closed, syn_received,
}
use kappara.Net.Tcp.Options.{tcp_parse_syn_options}
use kappara.Net.Tcp.Output.{build_segment, tcp_send_segment, with_tcb}
use kappara.Net.Tcp.Input.{in_listen}
use kappara.Net.Tcp.Requests.{
  handle_discon_req, alloc_iss, pop_pending, accepted, tcp_accept_into, reject_pending,
}
use kappara.Net.Tcp.Window.Loop.{ready}

-- The waiting SYNs, oldest first.
pub entries : (ℕ → Pending) → ℕ → ℕ → List Pending
entries q h zero = []
entries q h (suc n) = q h ∷ entries q ((h + 1) % listen_backlog) n

unfoldable pub backlog : Tcb → List Pending
unfolding entries
backlog s = entries s.pending_q s.pending_head s.pending_count

-- The ring's counters are in range.
pub record RingOk (s : Tcb) : Type 0 where
  pub head : s.pending_head < listen_backlog
  pub count : s.pending_count ≤ listen_backlog

pub entries-write :
    (q : ℕ → Pending) (e : Pending) (h n d slot : ℕ)
    → h < listen_backlog
    → n ≤ d
    → d < listen_backlog
    → slot ≡ (h + d) % listen_backlog
    → entries (write q slot e) h n ≡ entries q h n
unfolding entries
entries-write q e h zero d slot a b c p = refl
entries-write q e h (suc n) zero slot a b c p = absurd (omega (arith, b))
entries-write q e h (suc n) (suc d) slot a b c p =
    let other : slot ≢ h = omega (arith, a, c, p) in
    let next = (h + 1) % listen_backlog in
    let rest =
      entries-write q e next n d slot (omega arith) (omega (arith, b)) (omega (arith, c))
        (omega (arith, p)) in
    ap (λ x. x ∷ entries (write q slot e) next n) (write_ne q slot e h other) ∙ ap (◌∷◌ (q h)) rest

pub entries-snoc :
    (q : ℕ → Pending) (h n : ℕ)
    → h < listen_backlog
    → entries q h (suc n) ≡ entries q h n ++ q ((h + n) % listen_backlog) ∷ []
unfolding entries
entries-snoc q h zero a = ap (λ i. q i ∷ []) (omega (arith, a))
entries-snoc q h (suc n) a =
    let next = (h + 1) % listen_backlog in
    let slot : (next + n) % listen_backlog ≡ (h + suc n) % listen_backlog = omega arith in
    ap (◌∷◌ (q h))
      (entries-snoc q next n (omega arith) ∙ ap (λ i. entries q next n ++ q i ∷ []) slot)

pub entries-push :
    (q : ℕ → Pending) (h n : ℕ) (e : Pending)
    → h < listen_backlog
    → n < listen_backlog
    → entries (write q ((h + n) % listen_backlog) e) h (n + 1) ≡ entries q h n ++ e ∷ []
entries-push q h n e a b =
    let slot = (h + n) % listen_backlog in
    let w = write q slot e in
    ap (entries w h) (omega arith)
    ∙ entries-snoc w h n a
    ∙ ap (λ xs. xs ++ w slot ∷ []) (entries-write q e h n n slot a (omega arith) b refl)
    ∙ ap (λ x. entries q h n ++ x ∷ []) (write_self q slot e)

-- What `in_listen` keeps of a SYN.
abbrev pub syn_entry : Arrival → Pending
syn_entry a =
    let o = tcp_parse_syn_options a.options in
    record {
      remote_ip = a.src_ip;
      remote_port = a.src_port;
      irs = a.seq;
      peer_mss = o.mss;
      wscale = o.wscale;
    }

abbrev pub Listened : Conn → Arrival → Conn → Type 0
Listened c a d =
    ((a.flags.syn ≡ true)
      × (c.tcb.pending_count < listen_backlog)
      × (backlog d.tcb ≡ backlog c.tcb ++ syn_entry a ∷ [])
      × (d.up ≡ c.up ++ Reply.conn_ind a.src_ip a.src_port ∷ [])
      × RingOk d.tcb)
    ⊎ (((a.flags.syn ≡ false) ⊎ (c.tcb.pending_count ≡ listen_backlog)) × (d ≡ c))

-- A SYN is put behind those that wait, and the user is told, as long as fewer than eight wait. The
-- ninth changes nothing, nor does a segment without SYN.
pub in_listen-backlog : (c : Conn) (a : Arrival) → RingOk c.tcb → Listened c a (in_listen c a)
unfolding in_listen backlog
in_listen-backlog c a r =
    if-elim (Listened c a) (a.flags.syn && ltb c.tcb.pending_count listen_backlog)
      (λ yes.
        let room : c.tcb.pending_count < listen_backlog = ground (arith, yes) in
        inl (
          ground (arith, yes),
          room,
          entries-push c.tcb.pending_q c.tcb.pending_head c.tcb.pending_count (syn_entry a) r.head
              room,
          refl,
          record { head = r.head; count = omega (arith, room) },
        ))
      (λ no. inr (ground (arith, no, r.count), refl))

-- The oldest waiting SYN leaves the ring.
pub pop-backlog :
    (s : Tcb)
    → RingOk s
    → 0 < s.pending_count
    → backlog s ≡ s.pending_q s.pending_head ∷ backlog (pop_pending s)
unfolding backlog
pop-backlog s r h =
    let one_more : s.pending_count ≡ suc (s.pending_count - 1) = omega (arith, h) in
    ap (entries s.pending_q s.pending_head) one_more

pub pop-RingOk : (s : Tcb) → RingOk s → RingOk (pop_pending s)
pop-RingOk s r = record { head = omega arith; count = omega (arith, r.count) }
