-- ===== src/Proc/Waitq/Due.antt =====
-- sched.c: where a thread must stand, and what a change to a queue or to a thread does to that.
use kappara.Base.{
  ℕ, ◌+◌, ◌<◌, ◌≡◌, inl, inr, refl, ap, ap₂, ◌∙◌, true, false, Option, none, some, List, ◌==◌,
  if◌then◌else◌, if_true, if_false, Bool-cases, write, arith,
}
use kappara.Proc.Waitq.{KtState, ready, running, blocked, dead, Sched}
use kappara.Proc.Waitq.Counts.{count}

-- How often a thread must stand in a queue.
unfoldable pub due : KtState → Option ℕ → ℕ → ℕ
due blocked (some p) wq = if p == wq then 1 else 0
due blocked none wq = 0
due ready w wq = 0
due running w wq = 0
due dead w wq = 0

-- Every thread is once in the queue on which it sleeps, and in no other.
abbrev pub Linked : Sched → Type 0
Linked s = (t wq : ℕ) → count t (s.queue wq) ≡ due (s.state t) (s.waiting_on t) wq

pub due-one :
    (st : KtState) (w : Option ℕ) (p q : ℕ)
    → 0 < due st w p
    → (due st w p ≡ 1) × (due st w q ≡ (if p == q then 1 else 0))
unfolding due
due-one blocked (some r) p q h = ground (arith, h)
due-one blocked none p q h = absurd (omega (arith, h))
due-one ready w p q h = absurd (omega (arith, h))
due-one running w p q h = absurd (omega (arith, h))
due-one dead w p q h = absurd (omega (arith, h))

pub due-ready : (st : KtState) (w : Option ℕ) (q : ℕ) → st ≡ ready → due st w q ≡ 0
unfolding due
due-ready st w q h = ap (λ x. due x w q) h

pub due-dead : (st : KtState) (w : Option ℕ) (q : ℕ) → st ≡ dead → due st w q ≡ 0
unfolding due
due-dead st w q h = ap (λ x. due x w q) h

pub due-running : (st : KtState) (w : Option ℕ) (q : ℕ) → st ≡ running → due st w q ≡ 0
unfolding due
due-running st w q h = ap (λ x. due x w q) h

-- The thread that is written, and the others.
module _ (m : ℕ → KtState) (w : ℕ → Option ℕ) (t : ℕ) (st : KtState) (on : Option ℕ) where
  pub due_written :
      (u q : ℕ) → (t == u) ≡ true → due (write m t st u) (write w t on u) q ≡ due st on q
  due_written u q e =
      ap₂ (λ a b. due a b q) (if_true (t == u) st (m u) e) (if_true (t == u) on (w u) e)

  pub due_kept :
      (u q : ℕ) → (t == u) ≡ false → due (write m t st u) (write w t on u) q ≡ due (m u) (w u) q
  due_kept u q e =
      ap₂ (λ a b. due a b q) (if_false (t == u) st (m u) e) (if_false (t == u) on (w u) e)

-- A queue that has gained or lost so many entries of a thread.
module _ (u wq q x : ℕ) (m : ℕ → List ℕ) (l : List ℕ) where
  pub count_gained :
      count u l ≡ x + count u (m wq)
      → count u (write m wq l q) ≡ (if wq == q then x else 0) + count u (m q)
  count_gained h = elim (Bool-cases (wq == q)) [
    | inl e ↦
        let same : count u (m wq) ≡ count u (m q) =
          ap (λ n. count u (m n)) {x = wq} {y = q} (ground (arith, e)) in
        ap (count u) (if_true (wq == q) l (m q) e) ∙ ground (arith, e, h, same)
    | inr e ↦ ap (count u) (if_false (wq == q) l (m q) e) ∙ ground (arith, e)
  ]

  pub count_lost :
      count u l + x ≡ count u (m wq)
      → count u (write m wq l q) + (if wq == q then x else 0) ≡ count u (m q)
  count_lost h = elim (Bool-cases (wq == q)) [
    | inl e ↦
        let same : count u (m wq) ≡ count u (m q) =
          ap (λ n. count u (m n)) {x = wq} {y = q} (ground (arith, e)) in
        let put = ap (count u) (if_true (wq == q) l (m q) e) in ground (arith, e, h, same, put)
    | inr e ↦ let put = ap (count u) (if_false (wq == q) l (m q) e) in ground (arith, e, put)
  ]

pub same_thread : (t u : ℕ) (l : List ℕ) → (t == u) ≡ true → count u l ≡ count t l
same_thread t u l e = ap (λ n. count n l) {x = u} {y = t} (ground (arith, e))

due-none : (st : KtState) (q : ℕ) → due st none q ≡ 0
unfolding due
due-none blocked q = refl
due-none ready q = refl
due-none running q = refl
due-none dead q = refl

pub due-nowhere : (st : KtState) (w : Option ℕ) (q : ℕ) → w ≡ none → due st w q ≡ 0
due-nowhere st w q h = ap (λ x. due st x q) h ∙ due-none st q
