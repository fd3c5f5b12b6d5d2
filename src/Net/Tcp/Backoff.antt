-- ===== src/Net/Tcp/Backoff.antt =====
-- tcp.c: one visit of the retransmit thread, as a schedule of retransmissions.
use kappara.Base.{
  ◌+◌, ◌*◌, ◌≤◌, ◌<◌, ◌≡◌, ◌≢◌, ◌⊎◌, inl, inr, refl, sym, ap, ◌∙◌, subst, min, not, ◌||◌, [], ◌∷◌,
  ◌++◌, arith, leb, ◌==◌, if-elim, add32, sub32, ◌^◌,
}
use kappara.Net.Tcp.Types.{
  Tcb, Conn, closed, time_wait, Reply, Reason, rto_max, max_retransmits, tick_reached,
}
use kappara.Net.Tcp.Output.{with_tcb}
use kappara.Net.Tcp.Timer.{backed_off, resend, retransmit, give_up, poll_rto, tcp_retransmit_main}

-- The timer runs, and the tick is at its end or at most half of the counter's range beyond it.
abbrev pub Due : Conn → Type 0
Due c = (c.tcb.rto_expires ≢ 0) × (sub32 c.tick c.tcb.rto_expires < 2 ^ 31)

-- The timer does not run, or not out: nothing changes.
abbrev pub Waits : Conn → Conn → Type 0
Waits c d = ((c.tcb.rto_expires ≡ 0) ⊎ (2 ^ 31 ≤ sub32 c.tick c.tcb.rto_expires)) × (d ≡ c)

-- The timer has run out after five retransmissions: the connection is closed and the user is told, and
-- no segment is sent.
abbrev pub GivesUp : Conn → Conn → Type 0
GivesUp c d =
    Due c
    × (c.tcb.retransmit_count ≡ 5)
    × (d.tcb.state ≡ closed)
    × (d.up ≡ c.up ++ Reply.discon_ind Reason.timeout ∷ [])
    × (d.sent ≡ c.sent)

-- The timer has run out after fewer: the interval is doubled, up to its limit, and the timer runs again for as long; what has been sent
-- stays as it was counted.
abbrev pub BacksOff : Conn → Conn → Type 0
BacksOff c d =
    Due c
    × (c.tcb.retransmit_count < 5)
    × (d.tcb.retransmit_count ≡ c.tcb.retransmit_count + 1)
    × (d.tcb.rto_ticks ≡ min (2 * c.tcb.rto_ticks) rto_max)
    × (d.tcb.rto_expires ≡ add32 c.tick d.tcb.rto_ticks)
    × (d.tcb.state ≡ c.tcb.state)
    × (d.tcb.snd_nxt ≡ c.tcb.snd_nxt)
    × (d.tcb.snd_una ≡ c.tcb.snd_una)

abbrev pub Visits : Conn → Conn → Type 0
Visits c d = Waits c d ⊎ GivesUp c d ⊎ BacksOff c d

resend-tcb : (c : Conn) → (resend c).tcb ≡ c.tcb
unfolding resend
resend-tcb c = ground arith

retransmit-BacksOff :
    (c : Conn)
    → Due c
    → c.tcb.rto_ticks ≤ rto_max
    → c.tcb.retransmit_count < max_retransmits
    → BacksOff c (retransmit c)
unfolding retransmit backed_off
retransmit-BacksOff c due h few =
    let same = resend-tcb (with_tcb c (backed_off c.tcb)) in
    (
      due,
      few,
      omega (arith, few),
      ap (λ (s : Tcb). s.rto_ticks) same ∙ ground (arith, h),
      refl,
      ap (λ (s : Tcb). s.state) same ∙ ground arith,
      ap (λ (s : Tcb). s.snd_nxt) same ∙ ground arith,
      ap (λ (s : Tcb). s.snd_una) same ∙ ground arith,
    )

poll_rto-Visits :
    (c : Conn)
    → c.tcb.rto_ticks ≤ rto_max
    → c.tcb.retransmit_count ≤ max_retransmits
    → Visits c (poll_rto c)
unfolding poll_rto give_up
poll_rto-Visits c h n =
    if-elim (Visits c) (c.tcb.rto_expires == 0 || not (tick_reached c.tick c.tcb.rto_expires))
      (λ waits. inl (ground (arith, waits), refl))
      (λ out.
        let due : Due c = (ground (arith, out), ground (arith, out)) in
        if-elim (Visits c) (leb max_retransmits c.tcb.retransmit_count)
          (λ all. inr (inl (due, ground (arith, all, n), refl, refl, refl)))
          (λ few. inr (inr (retransmit-BacksOff c due h (ground (arith, few))))))

-- A visit to a connection that is not in TIME_WAIT, with its interval and its count in range. Where
-- the timer does not run or has not run out, it changes nothing. Where the timer has run out after
-- five retransmissions, it closes the connection with a timeout, without a segment. Where the timer
-- has run out after fewer, it counts one retransmission, doubles the interval up to 6000 ticks and
-- starts the timer with it; state and sequence numbers stay.
pub tcp_retransmit_main-Visits :
    (c : Conn)
    → c.tcb.state ≢ time_wait
    → c.tcb.rto_ticks ≤ rto_max
    → c.tcb.retransmit_count ≤ max_retransmits
    → Visits c (tcp_retransmit_main c)
unfolding tcp_retransmit_main
tcp_retransmit_main-Visits c s h n =
    let polled : tcp_retransmit_main c ≡ poll_rto c = ground (arith, s) in
    subst (Visits c) (sym polled) (poll_rto-Visits c h n)
