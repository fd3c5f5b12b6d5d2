-- ===== src/Proc/Waitq.antt =====
-- uts/os/proc/sched.c: wait queues, and the signal that takes a thread off the one it sleeps on. Threads
-- are named by their tid. A queue is the list of the threads that `next` links from its `head`. What
-- the code does under a queue's `sq_lock` is one step.
pub mod Counts
pub mod Steps
pub mod Due
pub mod Linked
pub mod History
pub mod Suspended
pub mod Groups
mod Tests
use kappara.Base.{
  ℕ, ◌+◌, ◌*◌, Bool, true, false, Option, none, some, List, [], ◌∷◌, ◌++◌, ◌==◌, ◌&&◌, leb, ◌||◌,
  if◌then◌else◌, write, or32, and_not32,
}
use kappara.Proc.Signal.{nsig, sigbit, sigkill}

-- `enum kt_state`.
pub data KtState : Type 0 where
  ready : KtState
  running : KtState
  blocked : KtState
  dead : KtState

-- The number of a thread's own queue, on which `sigsuspend` sleeps; all others have odd numbers.
abbrev pub sigwait_wq : ℕ → ℕ
sigwait_wq t = 2 * t

-- The threads' fields that sleeping and waking use, the queues, and the threads pushed to be run,
-- oldest first; `tid_table` says which entries are not NULL. `in_suspend` says that a thread is in the loop of `sys_sigsuspend_impl`.
pub record Sched : Type 0 where
  pub state : ℕ → KtState
  pub waiting_on : ℕ → Option ℕ
  pub queue : ℕ → List ℕ
  pub sig_pending : ℕ → ℕ
  pub sig_mask : ℕ → ℕ
  pub sig_saved_mask : ℕ → ℕ
  pub sig_mask_save_pending : ℕ → Bool
  pub in_suspend : ℕ → Bool
  pub pushed : List ℕ
  pub tid_table : ℕ → Bool
  pub t_pgrp : ℕ → ℕ

unfoldable pub kthread_sleep_on : Sched → ℕ → ℕ → Sched
kthread_sleep_on s t wq = record s {
  state = write s.state t blocked;
  waiting_on = write s.waiting_on t (some wq);
  queue = write s.queue wq (t ∷ s.queue wq);
}

-- A thread that leaves its queue.
unfoldable pub made_ready : Sched → ℕ → Sched
made_ready s t = record s {
  state = write s.state t ready;
  waiting_on = write s.waiting_on t none;
  pushed = s.pushed ++ t ∷ [];
}

-- The loops of `kthread_wake_all`, over the threads of the queue.
unfoldable pub ready_all : List ℕ → Sched → Sched
unfolding made_ready
ready_all [] s = s
ready_all (t ∷ ts) s = ready_all ts (made_ready s t)

unfoldable pub kthread_wake_all : Sched → ℕ → Sched
unfolding ready_all
kthread_wake_all s wq = ready_all (s.queue wq) (record s { queue = write s.queue wq [] })

unfoldable pub kthread_wake_one : Sched → ℕ → Sched
unfolding made_ready
kthread_wake_one s wq = elim (s.queue wq) [
  | [] ↦ s
  | t ∷ ts ↦ made_ready (record s { queue = write s.queue wq ts }) t
]

-- The walk that takes a thread out of its queue.
unfoldable pub unlink : ℕ → List ℕ → List ℕ
unlink t [] = []
unlink t (p ∷ ps) = let rest = unlink t ps in if p == t then ps else p ∷ rest

abbrev pub woken : Sched → ℕ → ℕ → Sched
woken s t wq = made_ready (record s { queue = write s.queue wq (unlink t (s.queue wq)) }) t

-- From the signal's bit on. Both branches, for the thread's own queue and for another, take it off the
-- queue it is on.
unfoldable pub post : Sched → ℕ → ℕ → Sched
unfolding made_ready unlink
post s t sig =
    let s' : Sched = record s {
      sig_pending = write s.sig_pending t (or32 (s.sig_pending t) (sigbit sig));
    } in
    elim (s.state t) [
      | blocked ↦ elim (s.waiting_on t) [ none ↦ s' | some wq ↦ woken s' t wq ]
      | _ ↦ s'
    ]

-- The result is -1, and nothing is done, for a signal out of range.
unfoldable pub kthread_signal : Sched → ℕ → ℕ → Sched
unfolding post
kthread_signal s t sig = if sig == 0 || leb nsig sig then s else post s t sig

-- The test of the loop of `sys_sigsuspend_impl`, with what follows it.
unfoldable pub suspend_round : Sched → ℕ → Sched
unfolding kthread_sleep_on
suspend_round s t =
    if and_not32 (s.sig_pending t) (s.sig_mask t) == 0
    then kthread_sleep_on (record s { in_suspend = write s.in_suspend t true }) t (sigwait_wq t)
    else record s { in_suspend = write s.in_suspend t false }

unfoldable pub sys_sigsuspend_impl : Sched → ℕ → ℕ → Sched
unfolding suspend_round
sys_sigsuspend_impl s t mask =
    suspend_round
      (record s {
        sig_saved_mask = write s.sig_saved_mask t (s.sig_mask t);
        sig_mask_save_pending = write s.sig_mask_save_pending t true;
        sig_mask = write s.sig_mask t (and_not32 mask (sigbit sigkill));
      })
      t
