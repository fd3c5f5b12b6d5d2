-- ===== src/Proc/Waitq/Tests.antt =====
-- sched.c: a thread that waits in `sigsuspend` and is sent a signal.
use kappara.Base.{
  arith, ltb, ◌&&◌, ◌≡◌, refl, false, none, some, [], ◌∷◌, ◌==◌, if◌then◌else◌, and_not32, or32,
}
use kappara.Proc.Waitq.{Sched, ready, running, kthread_signal, sys_sigsuspend_impl, sigwait_wq}
use kappara.Proc.Waitq.Steps.{Reach, start, then_step, suspend, signal}
use kappara.Proc.Waitq.Groups.{
  Reached, ksched_max_tid, member, signal_members, kthread_signal_pgrp, kthread_signal_pgrp-Reached,
}
use kappara.Proc.Waitq.Due.{Linked}
use kappara.Proc.Waitq.History.{Reach-Linked}
use kappara.Proc.Waitq.Suspended.{Patient, Reach-Patient}

-- Thread 5 runs.
abbrev first : Sched
first = record {
  state = λ t. if t == 5 then running else ready;
  waiting_on = λ _. none;
  queue = λ _. [];
  sig_pending = λ _. 0;
  sig_mask = λ _. 0;
  sig_saved_mask = λ _. 0;
  sig_mask_save_pending = λ _. false;
  in_suspend = λ _. false;
  pushed = [];
  tid_table = λ t. ltb 0 t && ltb t 8;
  t_pgrp = λ t. if t == 6 then 4 else 3;
}

-- It waits for any signal but SIGINT, and gets SIGTERM.
abbrev waits : Sched
waits = sys_sigsuspend_impl first 5 2

abbrev gets : Sched
gets = kthread_signal waits 5 15

sleeps : (waits.queue (sigwait_wq 5) ≡ 5 ∷ []) × (waits.waiting_on 5 ≡ some (sigwait_wq 5))
unfolding sys_sigsuspend_impl and_not32
sleeps = (refl, refl)

wakes : (gets.queue (sigwait_wq 5) ≡ []) × (gets.pushed ≡ 5 ∷ [])
unfolding sys_sigsuspend_impl kthread_signal and_not32 or32
wakes = (refl, refl)

history : Reach gets
history =
    then_step (then_step (start first (λ _. refl) (λ _. refl)) waits (suspend 5 2 refl refl)) gets
      (signal 5 15)

Reach-Linked_example : Linked gets
Reach-Linked_example = Reach-Linked gets history

Reach-Patient_example : Patient gets
Reach-Patient_example = Reach-Patient gets history

-- Thread 5 leads group 3, and thread 6 is in another.
kthread_signal_pgrp-Reached_example :
    Reached first 3 15 ksched_max_tid (kthread_signal_pgrp first 3 15)
kthread_signal_pgrp-Reached_example =
    kthread_signal_pgrp-Reached first 3 15 (λ e. absurd (ground (arith, e))) (omega arith)
      (omega arith)

others_are_left :
    ((signal_members 3 15 7 first).1.sig_pending 6 ≡ 0) × ((signal_members 3 15 7 first).0 ≡ 5)
unfolding signal_members member kthread_signal or32
others_are_left = (refl, refl)
