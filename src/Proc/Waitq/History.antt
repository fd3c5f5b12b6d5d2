-- ===== src/Proc/Waitq/History.antt =====
-- sched.c: in every history the queues hold the threads that sleep.
use kappara.Base.{
  ℕ, ◌+◌, ◌*◌, ◌≡◌, refl, sym, ap, ◌∙◌, true, none, ◌==◌, if_false, write, write_self, and_not32,
  or32, ◌||◌, leb, if-elim,
}
use kappara.Proc.Waitq.{
  ready, running, dead, Sched, kthread_wake_one, kthread_signal, sys_sigsuspend_impl,
}
use kappara.Proc.Waitq.Counts.{count}
use kappara.Proc.Waitq.Steps.{
  Step, sleep, suspend, again, change, give_way, end, wake_all, wake_one, signal, scheduled, Reach,
  start, then_step,
}
use kappara.Proc.Signal.{nsig, sigbit, sigkill}
use kappara.Proc.Waitq.Due.{Linked, due-running, due-ready, due-dead, due-nowhere}
use kappara.Proc.Waitq.Linked.{
  Linked-sleep, Linked-wake_one, Linked-wake_all, Linked-signal, Linked-suspend_round, Linked-moved,
}

Linked-suspend :
    (s : Sched) (t mask : ℕ)
    → s.state t ≡ running
    → Linked s
    → Linked (sys_sigsuspend_impl s t mask)
unfolding sys_sigsuspend_impl
Linked-suspend s t mask r h =
    Linked-suspend_round
      (record s {
        sig_saved_mask = write s.sig_saved_mask t (s.sig_mask t);
        sig_mask_save_pending = write s.sig_mask_save_pending t true;
        sig_mask = write s.sig_mask t (and_not32 mask (sigbit sigkill));
      })
      t r h

Linked-kthread_signal : (s : Sched) (t sig : ℕ) → Linked s → Linked (kthread_signal s t sig)
unfolding kthread_signal
Linked-kthread_signal s t sig h =
    if-elim Linked (sig == 0 || leb nsig sig) (λ _. h)
      (λ _.
        Linked-signal
          (record s { sig_pending = write s.sig_pending t (or32 (s.sig_pending t) (sigbit sig)) }) t
          (s.state t) (s.waiting_on t) refl refl h)

Step-Linked : (s s' : Sched) → Step s s' → Linked s → Linked s'
unfolding kthread_wake_one
Step-Linked s _ (sleep t n r i) h = Linked-sleep s t (2 * n + 1) r h
Step-Linked s _ (suspend t mask r i) h = Linked-suspend s t mask r h
Step-Linked s _ (again t r i) h = Linked-suspend_round s t r h
Step-Linked s _ (change t p m save r i) h = h
Step-Linked s _ (give_way t r) h =
    Linked-moved s t (write s.state t ready) s.waiting_on
      (λ q. due-running (s.state t) (s.waiting_on t) q r)
      (λ q. due-ready (write s.state t ready t) (s.waiting_on t) q (write_self s.state t ready))
      (λ u e. (if_false (t == u) ready (s.state u) e, refl)) h
Step-Linked s _ (end t r) h =
    Linked-moved s t (write s.state t dead) s.waiting_on
      (λ q. due-running (s.state t) (s.waiting_on t) q r)
      (λ q. due-dead (write s.state t dead t) (s.waiting_on t) q (write_self s.state t dead))
      (λ u e. (if_false (t == u) dead (s.state u) e, refl)) h
Step-Linked s _ (wake_all wq) h = Linked-wake_all s wq h
Step-Linked s _ (wake_one wq) h = Linked-wake_one s wq (s.queue wq) refl h
Step-Linked s _ (signal t sig) h = Linked-kthread_signal s t sig h
Step-Linked s _ (scheduled t r) h =
    Linked-moved s t (write s.state t running) (write s.waiting_on t none)
      (λ q. due-ready (s.state t) (s.waiting_on t) q r)
      (λ q.
        due-running (write s.state t running t) (write s.waiting_on t none t) q
          (write_self s.state t running))
      (λ u e. (if_false (t == u) running (s.state u) e, if_false (t == u) none (s.waiting_on u) e))
      h

-- In every history of the system, a thread that sleeps stands once in the queue on which it sleeps and
-- in no other, and a thread that does not sleep stands in none.
pub Reach-Linked : (s : Sched) → Reach s → Linked s
unfolding count
Reach-Linked _ (start s nowhere empty) =
    λ t wq. ap (count t) (empty wq) ∙ sym (due-nowhere (s.state t) (s.waiting_on t) wq (nowhere t))
Reach-Linked _ (then_step r s' step) = Step-Linked _ s' step (Reach-Linked _ r)
