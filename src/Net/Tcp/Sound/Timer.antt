-- ===== src/Net/Tcp/Sound/Timer.antt =====
-- tcp.c: the bounds, over a visit of the retransmit thread.
use kappara.Base.{◌≡◌, sym, subst, arith, leb, ◌<◌, ◌||◌, ◌==◌, not, if-elim}
use kappara.Net.Tcp.Types.{Tcb, Conn, max_retransmits, tick_reached}
use kappara.Net.Tcp.Output.{with_tcb}
use kappara.Net.Tcp.Timer.{give_up, backed_off, resend, retransmit, poll_rto, tcp_retransmit_main}
use kappara.Net.Tcp.Sound.{IsSound, InBounds}

resend-tcb : (c : Conn) → (resend c).tcb ≡ c.tcb
unfolding resend
resend-tcb c = ground arith

backed_off-IsSound : (s : Tcb) → IsSound s → IsSound (backed_off s)
unfolding backed_off
backed_off-IsSound s h = ground (arith, h)

retransmit-IsSound :
    (c : Conn) → c.tcb.retransmit_count < max_retransmits → InBounds c → InBounds (retransmit c)
unfolding retransmit
retransmit-IsSound c few h =
    let again = resend (with_tcb c (backed_off c.tcb)) in
    let sound : InBounds again =
      subst IsSound (sym (resend-tcb (with_tcb c (backed_off c.tcb))))
        (backed_off-IsSound c.tcb h) in
    (sound.0, omega (arith, few), sound.2, sound.3, sound.4)

poll-IsSound : (c : Conn) → InBounds c → InBounds (poll_rto c)
unfolding poll_rto give_up
poll-IsSound c h =
    if-elim InBounds (c.tcb.rto_expires == 0 || not (tick_reached c.tick c.tcb.rto_expires))
      (λ _. h)
      (λ _.
        if-elim InBounds (leb max_retransmits c.tcb.retransmit_count) (λ _. h)
          (λ few. retransmit-IsSound c (ground (arith, few)) h))

pub visit-IsSound : (c : Conn) → InBounds c → InBounds (tcp_retransmit_main c)
unfolding tcp_retransmit_main
visit-IsSound c h = ground (arith, h, poll-IsSound c h)
