-- ===== src/Proc/Waitq/Steps.antt =====
-- sched.c: what can happen to the threads of the system, one step at a time.
use kappara.Base.{ℕ, ◌+◌, ◌*◌, ◌≡◌, Bool, true, false, none, [], write}
use kappara.Proc.Waitq.{
  Sched, ready, running, dead, kthread_sleep_on, kthread_wake_all, kthread_wake_one, kthread_signal,
  suspend_round, sys_sigsuspend_impl,
}

-- A thread that is chosen to run, and returns from `switch_to_next` where it had slept.
abbrev pub run : Sched → ℕ → Sched
run s t = record s { state = write s.state t running; waiting_on = write s.waiting_on t none }

-- A running thread sleeps on a queue other than its own, enters `sigsuspend` or goes round its loop,
-- changes its own signals, gives way or ends; a thread is woken, sent a signal or chosen to run.
pub data Step (s : Sched) : Sched → Type 0 where
  sleep :
      (t n : ℕ)
      → s.state t ≡ running
      → s.in_suspend t ≡ false
      → Step s (kthread_sleep_on s t (2 * n + 1))
  suspend :
      (t mask : ℕ)
      → s.state t ≡ running
      → s.in_suspend t ≡ false
      → Step s (sys_sigsuspend_impl s t mask)
  again : (t : ℕ) → s.state t ≡ running → s.in_suspend t ≡ true → Step s (suspend_round s t)
  change :
      (t pending mask : ℕ) (save : Bool)
      → s.state t ≡ running
      → s.in_suspend t ≡ false
      → Step s (record s {
        sig_pending = write s.sig_pending t pending;
        sig_mask = write s.sig_mask t mask;
        sig_mask_save_pending = write s.sig_mask_save_pending t save;
      })
  give_way : (t : ℕ) → s.state t ≡ running → Step s (record s { state = write s.state t ready })
  end : (t : ℕ) → s.state t ≡ running → Step s (record s { state = write s.state t dead })
  wake_all : (wq : ℕ) → Step s (kthread_wake_all s wq)
  wake_one : (wq : ℕ) → Step s (kthread_wake_one s wq)
  signal : (t sig : ℕ) → Step s (kthread_signal s t sig)
  scheduled : (t : ℕ) → s.state t ≡ ready → Step s (run s t)

-- A history: steps from a system in which no thread sleeps.
pub data Reach : Sched → Type 0 where
  start : (s : Sched) → ((t : ℕ) → s.waiting_on t ≡ none) → ((wq : ℕ) → s.queue wq ≡ []) → Reach s
  then_step : {s : Sched} → Reach s → (s' : Sched) → Step s s' → Reach s'
