-- ===== src/Proc/Waitq/Suspended.antt =====
-- signal.c and sched.c: no thread sleeps in `sigsuspend` with a signal that it waits for.
use kappara.Base.{
  Bool, ℕ, ◌+◌, ◌*◌, ◌≡◌, ◌≢◌, inl, inr, refl, sym, ap, ap₂, ◌∙◌, subst, true, false, Option, none,
  some, List, [], ◌∷◌, ◌==◌, if-elim, if_true, if_false, Bool-cases, write, or32, and_not32, arith,
  ◌||◌, leb,
}
use kappara.Proc.Signal.{nsig, sigbit, sigkill}
use kappara.Proc.Waitq.{
  KtState, ready, running, blocked, dead, Sched, kthread_sleep_on, made_ready, ready_all,
  kthread_wake_all, kthread_wake_one, unlink, woken, post, kthread_signal, suspend_round,
  sys_sigsuspend_impl, sigwait_wq,
}
use kappara.Proc.Waitq.Steps.{
  Step, sleep, suspend, again, change, give_way, end, wake_all, wake_one, signal, scheduled, Reach,
  start, then_step,
}

-- The thread sleeps in `sigsuspend`.
abbrev pub Suspended : Sched → ℕ → Type 0
Suspended s t = (s.state t ≡ blocked) × (s.waiting_on t ≡ some (sigwait_wq t))

-- It has no pending signal that it does not block.
abbrev pub Patient : Sched → Type 0
Patient s = (t : ℕ) → Suspended s t → and_not32 (s.sig_pending t) (s.sig_mask t) ≡ 0

awake :
    (st : KtState)
    → st ≢ blocked
    → (m : ℕ → KtState) (t u : ℕ) → write m t st u ≡ blocked
    → (m u ≡ blocked) × ((t == u) ≡ false)
awake st n m t u h = elim (Bool-cases (t == u)) [
  | inl e ↦ absurd (n (sym (if_true (t == u) st (m u) e) ∙ h))
  | inr e ↦ (sym (if_false (t == u) st (m u) e) ∙ h, e)
]

not_blocked_ready : ready ≢ blocked
not_blocked_ready e = absurd (ground (arith, e))

not_blocked_running : running ≢ blocked
not_blocked_running e = absurd (ground (arith, e))

not_blocked_dead : dead ≢ blocked
not_blocked_dead e = absurd (ground (arith, e))

-- A thread that is made something other than blocked, and the others as they were.
ready-Suspended :
    (s : Sched) (t u : ℕ) → Suspended (made_ready s t) u → Suspended s u × ((t == u) ≡ false)
unfolding made_ready
ready-Suspended s t u (b, w) =
    let (b', e) = awake ready not_blocked_ready s.state t u b in
    ((b', sym (if_false (t == u) none (s.waiting_on u) e) ∙ w), e)

Patient-ready : (s : Sched) (t : ℕ) → Patient s → Patient (made_ready s t)
unfolding made_ready
Patient-ready s t h u z = h u (ready-Suspended s t u z).0

Patient-ready_all : (ts : List ℕ) (s : Sched) → Patient s → Patient (ready_all ts s)
unfolding ready_all
Patient-ready_all [] s h = h
Patient-ready_all (t ∷ ts) s h = Patient-ready_all ts (made_ready s t) (Patient-ready s t h)

Patient-wake_one :
    (s : Sched) (wq : ℕ) (l : List ℕ)
    → Patient s
    → Patient (elim l [ [] ↦ s | t ∷ ts ↦ made_ready (record s { queue = write s.queue wq ts }) t ])
Patient-wake_one s wq [] h = h
Patient-wake_one s wq (t ∷ ts) h = Patient-ready (record s { queue = write s.queue wq ts }) t h

-- The signals and the mask of a thread that does not sleep may become anything.
Patient-write :
    (s : Sched) (t : ℕ) (p m : ℕ → ℕ)
    → ((u : ℕ) → (t == u) ≡ false → (p u ≡ s.sig_pending u) × (m u ≡ s.sig_mask u))
    → s.state t ≢ blocked
    → Patient s
    → (saved : ℕ → ℕ) → (save : ℕ → Bool)
    → Patient (record s {
      sig_pending = p;
      sig_mask = m;
      sig_saved_mask = saved;
      sig_mask_save_pending = save;
    })
Patient-write s t p m others awake_now h saved save u z = elim (Bool-cases (t == u)) [
  | inl e ↦ absurd (awake_now (ap s.state {x = t} {y = u} (ground (arith, e)) ∙ z.0))
  | inr e ↦ ap₂ and_not32 (others u e).0 (others u e).1 ∙ h u z
]

Patient-sleep :
    (s : Sched) (t wq : ℕ)
    → (wq ≡ sigwait_wq t → and_not32 (s.sig_pending t) (s.sig_mask t) ≡ 0)
    → Patient s
    → Patient (kthread_sleep_on s t wq)
unfolding kthread_sleep_on
Patient-sleep s t wq own h u (b, w) = elim (Bool-cases (t == u)) [
  | inl e ↦
      let same : t ≡ u = ground (arith, e) in
      let there : some wq ≡ some (sigwait_wq u) =
        sym (if_true (t == u) (some wq) (s.waiting_on u) e) ∙ w in
      let own_queue : wq ≡ sigwait_wq u =
        ap (λ (o : Option ℕ). elim o [ none ↦ wq | some q ↦ q ]) there in
      subst (λ v. and_not32 (s.sig_pending v) (s.sig_mask v) ≡ 0) same
        (own (omega (arith, own_queue, same)))
  | inr e ↦ h u (
    sym (if_false (t == u) blocked (s.state u) e) ∙ b,
    sym (if_false (t == u) (some wq) (s.waiting_on u) e) ∙ w,
  )
]

==-zero : (n : ℕ) → (n == 0) ≡ true → n ≡ 0
==-zero n h = ground (arith, h)

Patient-round : (s : Sched) (t : ℕ) → Patient s → Patient (suspend_round s t)
unfolding suspend_round
Patient-round s t h =
    if-elim Patient (and_not32 (s.sig_pending t) (s.sig_mask t) == 0)
      (λ yes.
        Patient-sleep (record s { in_suspend = write s.in_suspend t true }) t (sigwait_wq t)
          (λ _. ==-zero (and_not32 (s.sig_pending t) (s.sig_mask t)) yes) h)
      (λ _. h)

not_none : (n : ℕ) → none ≢ some n
not_none n e = absurd (ground (arith, e))

-- A signal for a thread that sleeps wakes it.
Patient-signal :
    (s s' : Sched) (t : ℕ) (st : KtState) (w : Option ℕ)
    → s.state t ≡ st
    → s.waiting_on t ≡ w
    → (st ≢ blocked → Patient s')
    → (w ≡ none → Patient s')
    → ((wq : ℕ) → Patient (woken s' t wq))
    → Patient (elim st [ blocked ↦ elim w [ none ↦ s' | some wq ↦ woken s' t wq ] | _ ↦ s' ])
Patient-signal s s' t blocked none e f up off wake = off refl
Patient-signal s s' t blocked (some wq) e f up off wake = wake wq
Patient-signal s s' t ready w e f up off wake = up not_blocked_ready
Patient-signal s s' t running w e f up off wake = up not_blocked_running
Patient-signal s s' t dead w e f up off wake = up not_blocked_dead

module _ (s : Sched) (t sig : ℕ) (h : Patient s) where
  abbrev pended : Sched
  pended = record s { sig_pending = write s.sig_pending t (or32 (s.sig_pending t) (sigbit sig)) }

  others :
      (u : ℕ)
      → (t == u) ≡ false
      → (pended.sig_pending u ≡ s.sig_pending u) × (s.sig_mask u ≡ s.sig_mask u)
  others u e = (if_false (t == u) (or32 (s.sig_pending t) (sigbit sig)) (s.sig_pending u) e, refl)

  -- Once it is awake.
  woken-Patient : (wq : ℕ) → Patient (woken pended t wq)
  unfolding made_ready
  woken-Patient wq u z =
      let (z', e) =
        ready-Suspended (record pended { queue = write s.queue wq (unlink t (s.queue wq)) }) t u
          z in
      ap (λ p. and_not32 p (s.sig_mask u)) (others u e).0 ∙ h u z'

  Patient-post : Patient (post s t sig)
  unfolding post
  Patient-post =
      Patient-signal s pended t (s.state t) (s.waiting_on t) refl refl
        (λ n.
          Patient-write s t pended.sig_pending s.sig_mask others n h s.sig_saved_mask
            s.sig_mask_save_pending)
        (λ n u z. elim (Bool-cases (t == u)) [
          | inl e ↦
              let same : s.waiting_on t ≡ s.waiting_on u =
                ap s.waiting_on {x = t} {y = u} (ground (arith, e)) in
              absurd (not_none (sigwait_wq u) (sym n ∙ same ∙ z.1))
          | inr e ↦ ap (λ p. and_not32 p (s.sig_mask u)) (others u e).0 ∙ h u z
        ])
        woken-Patient

Patient-kthread_signal : (s : Sched) (t sig : ℕ) → Patient s → Patient (kthread_signal s t sig)
unfolding kthread_signal
Patient-kthread_signal s t sig h =
    if-elim Patient (sig == 0 || leb nsig sig) (λ _. h) (λ _. Patient-post s t sig h)

Patient-suspend :
    (s : Sched) (t mask : ℕ)
    → s.state t ≡ running
    → Patient s
    → Patient (sys_sigsuspend_impl s t mask)
unfolding sys_sigsuspend_impl
Patient-suspend s t mask r h =
    let allowed = and_not32 mask (sigbit sigkill) in
    let m = write s.sig_mask t allowed in
    let saved = write s.sig_saved_mask t (s.sig_mask t) in
    let save = write s.sig_mask_save_pending t true in
    Patient-round (record s { sig_mask = m; sig_saved_mask = saved; sig_mask_save_pending = save })
      t
      (Patient-write s t s.sig_pending m (λ u e. (refl, if_false (t == u) allowed (s.sig_mask u) e))
        (λ b. not_blocked_running (sym r ∙ b)) h saved save)

Step-Patient : (s s' : Sched) → Step s s' → Patient s → Patient s'
unfolding kthread_wake_all kthread_wake_one
Step-Patient s _ (sleep t n r i) h =
    Patient-sleep s t (2 * n + 1) (λ e. absurd (omega (arith, e))) h
Step-Patient s _ (suspend t mask r i) h = Patient-suspend s t mask r h
Step-Patient s _ (again t r i) h = Patient-round s t h
Step-Patient s _ (change t p m save r i) h =
    Patient-write s t (write s.sig_pending t p) (write s.sig_mask t m)
      (λ u e. (if_false (t == u) p (s.sig_pending u) e, if_false (t == u) m (s.sig_mask u) e))
      (λ b. not_blocked_running (sym r ∙ b)) h s.sig_saved_mask
      (write s.sig_mask_save_pending t save)
Step-Patient s _ (give_way t r) h =
    λ u z. h u ((awake ready not_blocked_ready s.state t u z.0).0, z.1)
Step-Patient s _ (end t r) h = λ u z. h u ((awake dead not_blocked_dead s.state t u z.0).0, z.1)
Step-Patient s _ (wake_all wq) h =
    Patient-ready_all (s.queue wq) (record s { queue = write s.queue wq [] }) h
Step-Patient s _ (wake_one wq) h = Patient-wake_one s wq (s.queue wq) h
Step-Patient s _ (signal t sig) h = Patient-kthread_signal s t sig h
Step-Patient s _ (scheduled t r) h = λ u z.
    let (b, e) = awake running not_blocked_running s.state t u z.0 in
    h u (b, sym (if_false (t == u) none (s.waiting_on u) e) ∙ z.1)

-- No wake-up is lost: in every history, a thread that sleeps in `sigsuspend` has no pending signal
-- that its mask lets through.
pub Reach-Patient : (s : Sched) → Reach s → Patient s
Reach-Patient _ (start s nowhere empty) =
    λ t z. absurd (not_none (sigwait_wq t) (sym (nowhere t) ∙ z.1))
Reach-Patient _ (then_step r s' step) = Step-Patient _ s' step (Reach-Patient _ r)
