-- ===== src/Proc/Signal/Deliver.antt =====
-- signal.c: what `check_signals` does on the way back to user mode.
use kappara.Base.{
  ℕ, suc, ◌≤◌, ◌<◌, ◌≡◌, ◌≢◌, ◌⊎◌, inl, inr, refl, sym, ap, ◌∙◌, subst, Bool, true, false, ltb,
  ◌==◌, ◌||◌, ◌&&◌, not, Bool-cases, and32, test_bit, arith,
}
use kappara.Proc.Signal.{Context, Kthread, sigbit, sig_fatal_mask, sig_dfl, sig_ign}
use kappara.Proc.Signal.Loop.{TrapOutcome, returned, exited, deliverable, handler_of, consume}
use kappara.Proc.Signal.Masks.{deliverable_bit, consumed_bit, Lowest}
use kappara.Proc.Signal.Called.{MaskBack, Called}

-- Signal `k + 1` can be delivered.
abbrev pub Deliverable : Kthread → ℕ → Type 0
Deliverable t k = test_bit (deliverable t) k ≡ true

-- Its default would end the thread.
abbrev pub fatal : ℕ → Bool
fatal k = not (and32 sig_fatal_mask (sigbit (suc k)) == 0)

-- It is dropped when it is delivered.
abbrev pub Ignored : Kthread → ℕ → Type 0
Ignored t k =
    ((handler_of t (suc k) ≡ sig_dfl) × (fatal k ≡ false)) ⊎ (handler_of t (suc k) ≡ sig_ign)

abbrev pub IgnoredBelow : Kthread → ℕ → Type 0
IgnoredBelow t n = (k : ℕ) → k < n → Deliverable t k → Ignored t k

-- The thread whose deliverable signals below `n` are no longer pending, and nothing else is changed.
pub record Dropped (t : Kthread) (n : ℕ) (u : Kthread) : Type 0 where
  pub same : u ≡ record t { sig_pending = u.sig_pending }
  pub bits :
      (k : ℕ)
      → k < 31
      → test_bit u.sig_pending k
        ≡ (test_bit t.sig_pending k && not (test_bit (deliverable t) k && ltb k n))

-- What becomes of a thread on its way back to user mode, by its lowest signal that is not ignored: it
-- has none, one that ends it, or one with a handler of the user's.
pub data Settled (c : Context) : TrapOutcome → Type 0 where
  quiet :
      (u v : Kthread)
      → IgnoredBelow c.thread 31
      → Dropped c.thread 31 u
      → MaskBack u v
      → Settled c (returned (record c { thread = v }))
  killed :
      (k : ℕ)
      → k < 31
      → IgnoredBelow c.thread k
      → Deliverable c.thread k
      → handler_of c.thread (suc k) ≡ sig_dfl
      → fatal k ≡ true
      → Settled c exited
  caught :
      (k : ℕ) (u : Kthread) (o : TrapOutcome)
      → k < 31
      → IgnoredBelow c.thread k
      → Deliverable c.thread k
      → handler_of c.thread (suc k) ≢ sig_dfl
      → handler_of c.thread (suc k) ≢ sig_ign
      → Dropped c.thread (suc k) u
      → Called (record c { thread = u }) k (handler_of c.thread (suc k)) o
      → Settled c o

unset_one :
    (p m k n : Bool)
    → (((p && not n) && not m) || ((p && not n) && k)) ≡ (((p && not m) || (p && k)) && not n)
unset_one true m k true = ground arith
unset_one true m k false = ground arith
unset_one false m k n = refl

-- After the signal `n + 1` is consumed, and no lower one can be delivered.
module _ (c : Context) (n : ℕ) (low : Lowest (deliverable c.thread) n) where
  abbrev t : Kthread
  t = c.thread

  abbrev t' : Kthread
  t' = (consume c (suc n)).thread

  pub consumed-deliverable :
      (k : ℕ) → k < 31 → test_bit (deliverable t') k ≡ (test_bit (deliverable t) k && not (n == k))
  consumed-deliverable k h =
      let e = deliverable_bit t k (omega (arith, h)) in
      let e' = deliverable_bit t' k (omega (arith, h)) in
      let p = consumed_bit t.sig_pending n k (omega (arith, h)) in
      e'
      ∙ ap (λ b. (b && not (test_bit t.sig_mask k)) || (b && (8 == k))) p
      ∙ unset_one (test_bit t.sig_pending k) (test_bit t.sig_mask k) (8 == k) (n == k)
      ∙ ap (λ b. b && not (n == k)) (sym e)

  handler_same : (k : ℕ) → handler_of t' k ≡ handler_of t k
  unfolding handler_of
  handler_same k = refl

  pub lowest_bits : (k : ℕ) → (test_bit (deliverable t) k && ltb k (suc n)) ≡ (n == k)
  lowest_bits k = elim (Bool-cases (n == k)) [
    | inl e ↦
        let set : test_bit (deliverable t) k ≡ true =
          subst (λ b. test_bit (deliverable t) b ≡ true) {x = n} (ground (arith, e)) low.is_set in
        ground (arith, set, e)
    | inr e ↦ elim (Bool-cases (ltb k n)) [
      | inl l ↦ ground (arith, low.none_below k (ground (arith, l)), e)
      | inr l ↦ ground (arith, l, e)
    ]
  ]

  pub consumed-Dropped : Dropped t (suc n) t'
  consumed-Dropped = record {
    same = refl;
    bits = λ k h.
        consumed_bit t.sig_pending n k (omega (arith, h))
        ∙ ap (λ b. test_bit t.sig_pending k && not b) (sym (lowest_bits k));
  }

  IgnoredBelow-consume : (m : ℕ) → m ≤ 31 → Ignored t n → IgnoredBelow t' m → IgnoredBelow t m
  unfolding handler_of
  IgnoredBelow-consume m h ign below k l d = elim (Bool-cases (n == k)) [
    | inl e ↦ subst (Ignored t) {x = n} (ground (arith, e)) ign
    | inr e ↦ below k l (consumed-deliverable k (omega (arith, l, h)) ∙ ground (arith, d, e))
  ]

  Dropped-consume : (m : ℕ) (u : Kthread) → n < m → Dropped t' m u → Dropped t m u
  Dropped-consume m u h d = record {
    same = d.same;
    bits = λ k l.
        let b = d.bits k l in
        let p = consumed_bit t.sig_pending n k (omega (arith, l)) in
        let q = consumed-deliverable k l in
        let r = lowest_bits k in
        elim (Bool-cases (n == k)) [
          | inl e ↦ ground (arith, b, p, q, r, e, h)
          | inr e ↦ ground (arith, b, p, q, e)
        ];
  }

  -- A signal that can still be delivered is a later one.
  still : (k : ℕ) → k < 31 → Deliverable t' k → Deliverable t k × (n < k)
  still k h d =
      let q = consumed-deliverable k h in
      let here : Deliverable t k = ground (arith, q, d) in
      (
        here,
        elim (Bool-cases (ltb k n)) [
          | inl l ↦ absurd (ground (arith, here, low.none_below k (ground (arith, l))))
          | inr l ↦ ground (arith, l, q, d)
        ],
      )

  pub absorb :
      n < 31 → Ignored t n → (o : TrapOutcome) → Settled (consume c (suc n)) o → Settled c o
  unfolding handler_of
  absorb l ign _ (quiet u v below d back) =
      quiet u v (IgnoredBelow-consume 31 (omega arith) ign below) (Dropped-consume 31 u l d) back
  absorb l ign _ (killed k h below d dfl f) =
      killed k h (IgnoredBelow-consume k (omega (arith, h)) ign below) (still k h d).0 dfl f
  absorb l ign _ (caught k u o h below d nd ni dropped called) =
      let (d', later) = still k h d in
      caught k u o h (IgnoredBelow-consume k (omega (arith, h)) ign below) d' nd ni
        (Dropped-consume (suc k) u (omega (arith, later)) dropped) called
