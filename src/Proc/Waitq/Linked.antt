-- ===== src/Proc/Waitq/Linked.antt =====
-- sched.c: a thread stands in a queue exactly while it sleeps there.
use kappara.Base.{
  ℕ, ◌+◌, ◌<◌, ◌≡◌, ◌≢◌, inl, inr, sym, ap, ap₂, ◌∙◌, true, false, Option, none, some, List, [],
  ◌∷◌, ◌==◌, if◌then◌else◌, if-elim, Bool-cases, write, and_not32, arith,
}
use kappara.Proc.Waitq.{
  KtState, ready, running, blocked, dead, Sched, kthread_sleep_on, made_ready, ready_all,
  kthread_wake_all, unlink, woken, suspend_round, sigwait_wq,
}
use kappara.Proc.Waitq.Counts.{count, count-unlink_self, count-unlink_ne}
use kappara.Proc.Waitq.Due.{
  due, Linked, due-one, due-running, due_written, due_kept, count_gained, count_lost, same_thread,
}

pub Linked-sleep :
    (s : Sched) (t wq : ℕ) → s.state t ≡ running → Linked s → Linked (kthread_sleep_on s t wq)
unfolding kthread_sleep_on count due
Linked-sleep s t wq r h u q = elim (Bool-cases (t == u)) [
  | inl e ↦
      let none_yet =
        same_thread t u (s.queue q) e ∙ h t q ∙ due-running (s.state t) (s.waiting_on t) q r in
      count_gained u wq q 1 s.queue (t ∷ s.queue wq) (ground (arith, e))
      ∙ omega (arith, none_yet)
      ∙ sym (due_written s.state s.waiting_on t blocked (some wq) u q e)
  | inr e ↦
      count_gained u wq q 0 s.queue (t ∷ s.queue wq) (ground (arith, e))
      ∙ ground arith
      ∙ h u q
      ∙ sym (due_kept s.state s.waiting_on t blocked (some wq) u q e)
]

-- A thread that is in no queue any more is made ready.
Linked-ready :
    (s : Sched) (t : ℕ)
    → ((q : ℕ) → count t (s.queue q) ≡ 0)
    → ((u q : ℕ) → t ≢ u → count u (s.queue q) ≡ due (s.state u) (s.waiting_on u) q)
    → Linked (made_ready s t)
unfolding made_ready due
Linked-ready s t gone others u q = elim (Bool-cases (t == u)) [
  | inl e ↦
      same_thread t u (s.queue q) e
      ∙ gone q
      ∙ sym (due_written s.state s.waiting_on t ready none u q e)
  | inr e ↦
      others u q (λ p. ground (arith, e, p))
      ∙ sym (due_kept s.state s.waiting_on t ready none u q e)
]

-- A queue without one of its threads, which is made ready.
Linked-woken :
    (s : Sched) (t wq : ℕ) (l : List ℕ)
    → Linked s
    → 0 < count t (s.queue wq)
    → ((u : ℕ) → count u l + (if t == u then 1 else 0) ≡ count u (s.queue wq))
    → Linked (made_ready (record s { queue = write s.queue wq l }) t)
Linked-woken s t wq l h here rest =
    let (one, elsewhere) =
      due-one (s.state t) (s.waiting_on t) wq wq (omega (arith, here, h t wq)) in
    Linked-ready (record s { queue = write s.queue wq l }) t
      (λ q.
        let lost = count_lost t wq q 1 s.queue l (ground (arith, rest t)) in
        let was = (due-one (s.state t) (s.waiting_on t) wq q (omega (arith, here, h t wq))).1 in
        omega (arith, lost, was, h t q))
      (λ u q n.
        let lost = count_lost u wq q 0 s.queue l (ground (arith, rest u, n)) in
        ground (arith, lost) ∙ h u q)

pub Linked-wake_one :
    (s : Sched) (wq : ℕ) (l : List ℕ)
    → s.queue wq ≡ l
    → Linked s
    → Linked (elim l [ [] ↦ s | t ∷ ts ↦ made_ready (record s { queue = write s.queue wq ts }) t ])
unfolding count
Linked-wake_one s wq [] e h = h
Linked-wake_one s wq (t ∷ ts) e h =
    let all : (u : ℕ) → count u (s.queue wq) ≡ (if t == u then 1 else 0) + count u ts =
      λ u. ap (count u) e in
    Linked-woken s t wq ts h (ground (arith, all t)) (λ u. omega (arith, all u))

-- The threads `ts`, taken off the queue `wq`, are still to be made ready.
abbrev Taken : ℕ → List ℕ → Sched → Type 0
Taken wq ts s =
    (u q : ℕ)
    → count u (s.queue q) + (if wq == q then count u ts else 0) ≡ due (s.state u) (s.waiting_on u) q

Taken-next :
    (wq t : ℕ) (ts : List ℕ) (s : Sched) → Taken wq (t ∷ ts) s → Taken wq ts (made_ready s t)
unfolding made_ready count due
Taken-next wq t ts s h u q =
    let here = h t wq in
    elim (Bool-cases (t == u)) [
      | inl e ↦
          let (one, was) = due-one (s.state t) (s.waiting_on t) wq q (ground (arith, here)) in
          let there = h t q in
          let same = same_thread t u (s.queue q) e in
          let same' = same_thread t u ts e in
          ground (arith, there, was, same, same')
          ∙ sym (due_written s.state s.waiting_on t ready none u q e)
      | inr e ↦
          ap (λ n. count u (s.queue q) + (if wq == q then n else 0)) {x = count u ts}
            {y = count u (t ∷ ts)} (ground (arith, e))
          ∙ h u q
          ∙ sym (due_kept s.state s.waiting_on t ready none u q e)
    ]

Linked-ready_all : (wq : ℕ) (ts : List ℕ) (s : Sched) → Taken wq ts s → Linked (ready_all ts s)
unfolding ready_all count
Linked-ready_all wq [] s h = λ u q. ground (arith, h u q)
Linked-ready_all wq (t ∷ ts) s h = Linked-ready_all wq ts (made_ready s t) (Taken-next wq t ts s h)

pub Linked-wake_all : (s : Sched) (wq : ℕ) → Linked s → Linked (kthread_wake_all s wq)
unfolding kthread_wake_all count
Linked-wake_all s wq h =
    Linked-ready_all wq (s.queue wq) (record s { queue = write s.queue wq [] })
      (λ u q. count_lost u wq q (count u (s.queue wq)) s.queue [] (ground arith) ∙ h u q)

pub Linked-signal :
    (s : Sched) (t : ℕ) (st : KtState) (w : Option ℕ)
    → s.state t ≡ st
    → s.waiting_on t ≡ w
    → Linked s
    → Linked (elim st [ blocked ↦ elim w [ none ↦ s | some wq ↦ woken s t wq ] | _ ↦ s ])
unfolding due
Linked-signal s t blocked (some wq) e f h =
    let here : count t (s.queue wq) ≡ 1 = h t wq ∙ ap₂ (λ a b. due a b wq) e f ∙ ground arith in
    Linked-woken s t wq (unlink t (s.queue wq)) h (omega (arith, here)) (λ u.
      elim (Bool-cases (t == u)) [
        | inl i ↦
            let same = same_thread t u (unlink t (s.queue wq)) i in
            let same' = same_thread t u (s.queue wq) i in
            ground (arith, i, same, same', here, count-unlink_self t (s.queue wq))
        | inr i ↦ ground (arith, i, count-unlink_ne t u (s.queue wq) (λ p. ground (arith, i, p)))
      ])
Linked-signal s t blocked none e f h = h
Linked-signal s t ready w e f h = h
Linked-signal s t running w e f h = h
Linked-signal s t dead w e f h = h

pub Linked-suspend_round :
    (s : Sched) (t : ℕ) → s.state t ≡ running → Linked s → Linked (suspend_round s t)
unfolding suspend_round
Linked-suspend_round s t r h =
    if-elim Linked (and_not32 (s.sig_pending t) (s.sig_mask t) == 0)
      (λ _. Linked-sleep (record s { in_suspend = write s.in_suspend t true }) t (sigwait_wq t) r h)
      (λ _. h)

-- A thread that sleeps neither before nor after.
pub Linked-moved :
    (s : Sched) (t : ℕ) (m : ℕ → KtState) (w : ℕ → Option ℕ)
    → ((q : ℕ) → due (s.state t) (s.waiting_on t) q ≡ 0)
    → ((q : ℕ) → due (m t) (w t) q ≡ 0)
    → ((u : ℕ) → (t == u) ≡ false → (m u ≡ s.state u) × (w u ≡ s.waiting_on u))
    → Linked s
    → Linked (record s { state = m; waiting_on = w })
Linked-moved s t m w before after others h u q = elim (Bool-cases (t == u)) [
  | inl e ↦
      let same : due (m u) (w u) q ≡ due (m t) (w t) q =
        ap (λ n. due (m n) (w n) q) {x = u} {y = t} (ground (arith, e)) in
      same_thread t u (s.queue q) e ∙ h t q ∙ before q ∙ sym (same ∙ after q)
  | inr e ↦ h u q ∙ sym (ap₂ (λ a b. due a b q) (others u e).0 (others u e).1)
]
