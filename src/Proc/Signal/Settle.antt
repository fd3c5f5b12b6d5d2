-- ===== src/Proc/Signal/Settle.antt =====
-- signal.c: the loop of `check_signals` settles a thread.
use kappara.Base.{
  ℕ, zero, suc, ◌+◌, ◌^◌, ◌≤◌, ◌<◌, ◌≡◌, ◌≢◌, ◌⊎◌, inl, inr, refl, ap, ◌∙◌, Bool, true, false,
  Option, some, ltb, leb, ◌==◌, not, if◌then◌else◌, if_true, if_false, Bool-cases, and32, and_not32,
  test_bit, test_bit_zero, or32_small, arith,
}
use kappara.Proc.Signal.{Context, Kthread, nsig, sigbit, sigkill, sig_fatal_mask, sig_dfl, sig_ign}
use kappara.Proc.Signal.Loop.{
  TrapOutcome, returned, exited, deliverable, first_signal, handler_of, unsuspend, call_handler,
  consume, take_signal, check_signals_loop, check_signals,
}
use kappara.Proc.Signal.Masks.{deliverable_bit, consumed_bit, Lowest, first_signal-cases}
use kappara.Proc.Signal.Called.{unsuspend-MaskBack, call_handler-Called, Reads, thread-Reads}
use kappara.Proc.Signal.Deliver.{
  Deliverable, fatal, Ignored, Settled, quiet, killed, caught, consumed-deliverable, lowest_bits,
  consumed-Dropped, absorb,
}

-- The choice that `take_signal` makes, by the handler and by whether the default does nothing.
pick :
    {A : Type 0} (h : ℕ) (harmless : Bool) (again x y : A)
    → let chosen =
        if h == sig_dfl then if harmless then again else x else if h == sig_ign then again else y in
      ((((h ≡ sig_dfl) × (not harmless ≡ false)) ⊎ (h ≡ sig_ign)) × (chosen ≡ again))
      ⊎ ((h ≡ sig_dfl) × (not harmless ≡ true) × (chosen ≡ x))
      ⊎ ((h ≢ sig_dfl) × (h ≢ sig_ign) × (chosen ≡ y))
pick h harmless again x y = elim (Bool-cases (h == sig_dfl)) [
  | inl e ↦ elim (Bool-cases harmless) [
    | inl n ↦ inl (inl (ground (arith, e), ground (arith, n)), ground (arith, e, n))
    | inr n ↦ inr (inl (ground (arith, e), ground (arith, n), ground (arith, e, n)))
  ]
  | inr e ↦ elim (Bool-cases (h == sig_ign)) [
    | inl i ↦ inl (inr (ground (arith, i)), ground (arith, e, i))
    | inr i ↦
        inr (inr ((λ p. ground (arith, e, p)), (λ p. ground (arith, i, p)), ground (arith, e, i)))
  ]
]

take_signal-cases :
    (c : Context) (k : ℕ) (again : Option TrapOutcome)
    → (Ignored c.thread k × (take_signal c (suc k) again ≡ again))
      ⊎ ((handler_of c.thread (suc k) ≡ sig_dfl)
          × (fatal k ≡ true)
          × (take_signal c (suc k) again ≡ some exited))
      ⊎ ((handler_of c.thread (suc k) ≢ sig_dfl)
          × (handler_of c.thread (suc k) ≢ sig_ign)
          × (take_signal c (suc k) again
              ≡ some (call_handler c (suc k) (handler_of c.thread (suc k)))))
unfolding take_signal
take_signal-cases c k again =
    pick (handler_of c.thread (suc k)) (and32 sig_fatal_mask (sigbit (suc k)) == 0) again
      (some exited) (some (call_handler c (suc k) (handler_of c.thread (suc k))))

abbrev Settles : ℕ → Context → Type 0
Settles f c = (o : TrapOutcome) × (check_signals_loop f c ≡ some o) × Settled c o

set_nonzero : (d k : ℕ) → test_bit d k ≡ true → (d == 0) ≡ false
set_nonzero d k h = elim (Bool-cases (d == 0)) [
  | inl e ↦
      let zero_bit : test_bit d k ≡ false =
        ap (λ b. test_bit b k) {y = 0} (ground (arith, e)) ∙ test_bit_zero k in
      absurd (ground (arith, h, zero_bit))
  | inr e ↦ e
]

next_round :
    (f n : ℕ) (c : Context)
    → Lowest (deliverable c.thread) n
    → check_signals_loop (suc f) c
      ≡ take_signal (consume c (suc n)) (suc n) (check_signals_loop f (consume c (suc n)))
unfolding check_signals_loop
next_round f n c low =
    let d = deliverable c.thread in
    let next = λ (s : ℕ). take_signal (consume c s) s (check_signals_loop f (consume c s)) in
    if_false (d == 0) (some (returned (record c { thread = unsuspend c.thread })))
      (if leb nsig (first_signal d) then some (returned c) else next (first_signal d))
      (set_nonzero d n low.is_set)
    ∙ if_false (leb nsig (first_signal d)) (some (returned c)) (next (first_signal d))
        (ground (arith, low.found, low.below))
    ∙ ap next low.found

-- A round that finds a signal, from what the rounds after it do.
round-Settles :
    (f n : ℕ) (c : Context)
    → Lowest (deliverable c.thread) n
    → Settles f (consume c (suc n))
    → Settles (suc f) c
unfolding handler_of
round-Settles f n c low (o, rest, settled) =
    let c' = consume c (suc n) in
    let ahead = next_round f n c low in
    let none_below = λ (k : ℕ) (l : k < n) (d : Deliverable c.thread k).
      absurd (ground (arith, d, low.none_below k l)) in
    elim (take_signal-cases c' n (check_signals_loop f c')) [
      | inl (ign, e) ↦ (o, ahead ∙ e ∙ rest, absorb c n low low.below ign o settled)
      | inr (inl (dfl, fat, e)) ↦
          (exited, ahead ∙ e, killed n low.below none_below low.is_set dfl fat)
      | inr (inr (nd, ni, e)) ↦ (
        call_handler c' (suc n) (handler_of c'.thread (suc n)),
        ahead ∙ e,
        caught n c'.thread _ low.below none_below low.is_set nd ni (consumed-Dropped c n low)
            (call_handler-Called c' n (handler_of c'.thread (suc n))),
      )
    ]

deliverable_small : (t : Kthread) → deliverable t < 2 ^ 32
unfolding deliverable
deliverable_small t =
    or32_small (and_not32 t.sig_pending t.sig_mask) (and32 t.sig_pending (sigbit sigkill))

no_bit : (t : Kthread) (k : ℕ) → deliverable t ≡ 0 → test_bit (deliverable t) k ≡ false
no_bit t k e = ap (λ b. test_bit b k) e ∙ test_bit_zero k

quiet_round :
    (f : ℕ) (c : Context)
    → deliverable c.thread ≡ 0
    → check_signals_loop (suc f) c ≡ some (returned (record c { thread = unsuspend c.thread }))
unfolding check_signals_loop
quiet_round f c e =
    let d = deliverable c.thread in
    let sig = first_signal d in
    if_true (d == 0) (some (returned (record c { thread = unsuspend c.thread })))
      (if leb nsig sig
        then some (returned c)
        else take_signal (consume c sig) sig (check_signals_loop f (consume c sig)))
      (ground (arith, e))

-- With one round left for every signal that may still come, the loop settles.
loop-Settled :
    (f from : ℕ) (c : Context)
    → 32 ≤ f + from
    → from ≤ 31
    → test_bit c.thread.sig_pending 31 ≡ false
    → ((k : ℕ) → k < from → test_bit (deliverable c.thread) k ≡ false)
    → Settles f c
loop-Settled zero from c enough l top none_below = absurd (omega (arith, enough, l))
loop-Settled (suc f) from c enough l top none_below =
    let t = c.thread in
    let top_bit : test_bit (deliverable t) 31 ≡ false =
      ground (arith, deliverable_bit t 31 (omega arith), top) in
    elim (first_signal-cases (deliverable t) (deliverable_small t) top_bit) [
      | inl e ↦ (
        returned (record c { thread = unsuspend t }),
        quiet_round f c e,
        quiet t (unsuspend t) (λ k u d. absurd (ground (arith, d, no_bit t k e)))
            (record { same = refl; bits = λ k u. ground (arith, no_bit t k e) })
            (unsuspend-MaskBack t),
      )
      | inr (n, low) ↦
          let later : from ≤ n = elim (Bool-cases (ltb n from)) [
            | inl u ↦ absurd (ground (arith, low.is_set, none_below n (ground (arith, u))))
            | inr u ↦ ground (arith, u)
          ] in
          round-Settles f n c low (
            loop-Settled f (suc n) (consume c (suc n)) (omega (arith, enough, later))
              (omega (arith, low.below))
              (ground (arith, consumed_bit t.sig_pending n 31 (omega arith), top))
              (λ k u. ground (
                arith,
                u,
                consumed-deliverable c n low k (omega (arith, u, low.below)),
                lowest_bits c n low k,
              )))
    ]

pub check_signals-Settled :
    (c : Context)
    → test_bit c.thread.sig_pending 31 ≡ false
    → Reads c.thread × (o : TrapOutcome) × (check_signals c ≡ some o) × Settled c o
unfolding check_signals
check_signals-Settled c top =
    let (o, e, settled) =
      loop-Settled 32 0 c (omega arith) (omega arith) top (λ k l. absurd (omega (arith, l))) in
    (thread-Reads c.thread, o, e, settled)
