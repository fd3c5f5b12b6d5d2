-- ===== src/Proc/Signal/Masks.antt =====
-- signal.c: the bits of the masks. Bit `k` stands for signal `k + 1`.
use kappara.Base.{
  ℕ, zero, suc, ◌+◌, ◌-◌, ◌^◌, ◌≤◌, ◌<◌, ◌≡◌, ◌⊎◌, inl, inr, sym, ap, ap₂, ◌∙◌, subst, true, false,
  ltb, ◌==◌, ◌||◌, ◌&&◌, not, if-elim, Bool-cases, and32, and_not32, test_bit, test_bit-or32,
  test_bit-and32, test_bit-and_not32, test_bit-pow_self, test_bit-pow_ne, bits_zero, arith,
}
use kappara.Proc.Signal.{Kthread, sigkill, sigbit}
use kappara.Proc.Signal.Loop.{deliverable, first_from, first_signal}

pub sigbit_bit : (n k : ℕ) → test_bit (sigbit (suc n)) k ≡ (n == k)
sigbit_bit n k = ap (λ m. test_bit (2 ^ m) k) {y = n} (omega arith) ∙ elim (Bool-cases (n == k)) [
  | inl e ↦ subst (λ m. test_bit (2 ^ n) m ≡ true) (ground (arith, e)) (test_bit-pow_self n) ∙ sym e
  | inr e ↦ test_bit-pow_ne n k (ground (arith, e)) ∙ sym e
]

-- Which signals can be delivered: pending and not blocked, or SIGKILL and pending.
pub deliverable_bit :
    (t : Kthread) (k : ℕ)
    → k < 32
    → test_bit (deliverable t) k ≡ (
        (test_bit t.sig_pending k && not (test_bit t.sig_mask k))
        || (test_bit t.sig_pending k && (8 == k)))
unfolding deliverable
deliverable_bit t k h =
    test_bit-or32 (and_not32 t.sig_pending t.sig_mask) (and32 t.sig_pending (sigbit sigkill)) k h
    ∙ ap₂ ◌||◌ (test_bit-and_not32 t.sig_pending t.sig_mask k h) (
        test_bit-and32 t.sig_pending (sigbit sigkill) k h
        ∙ ap (λ b. test_bit t.sig_pending k && b) (sigbit_bit 8 k))

pub consumed_bit :
    (p n k : ℕ)
    → k < 32
    → test_bit (and_not32 p (sigbit (suc n))) k ≡ (test_bit p k && not (n == k))
consumed_bit p n k h =
    test_bit-and_not32 p (sigbit (suc n)) k h ∙ ap (λ b. test_bit p k && not b) (sigbit_bit n k)

-- The signal that the loop finds: the first that is set, or one past the last.
pub record First (d sig n found : ℕ) : Type 0 where
  pub from : sig ≤ found
  pub until : found ≤ sig + n
  pub unset : (k : ℕ) → sig ≤ suc k → suc k < found → test_bit d k ≡ false
  pub is_set : found < sig + n → (k : ℕ) → found ≡ suc k → test_bit d k ≡ true

first_from-First : (d j n : ℕ) → First d (suc j) n (first_from d (suc j) n)
unfolding first_from
first_from-First d j zero = record {
  from = omega arith;
  until = omega arith;
  unset = λ k l u. absurd (omega (arith, l, u));
  is_set = λ u. absurd (omega (arith, u));
}
first_from-First d j (suc n) =
    let rest : First d (suc (suc j)) n (first_from d (suc j + 1) n) =
      subst (λ b. First d (suc (suc j)) n (first_from d b n)) {y = suc j + 1} (omega arith)
        (first_from-First d (suc j) n) in
    if-elim (First d (suc j) (suc n)) (test_bit d (suc j - 1))
      (λ yes. record {
        from = omega arith;
        until = omega arith;
        unset = λ k l u. absurd (omega (arith, l, u));
        is_set = λ u k e.
            subst (λ b. test_bit d b ≡ true) {x = suc j - 1} {y = k} (omega (arith, e)) yes;
      })
      (λ no. record {
        from = omega (arith, rest.from);
        until = omega (arith, rest.until);
        unset = λ k l u. elim (Bool-cases (j == k)) [
          | inl e ↦ subst (λ b. test_bit d b ≡ false) {x = suc j - 1} {y = k} (ground (arith, e)) no
          | inr e ↦ rest.unset k (ground (arith, e, l)) u
        ];
        is_set = λ u k e. rest.is_set (omega (arith, u)) k e;
      })

-- Where there is a signal up to 31, the loop finds the lowest.
pub record Lowest (d : ℕ) (n : ℕ) : Type 0 where
  pub found : first_signal d ≡ suc n
  pub below : n < 31
  pub is_set : test_bit d n ≡ true
  pub none_below : (k : ℕ) → k < n → test_bit d k ≡ false

pub first_signal-cases :
    (d : ℕ) → d < 2 ^ 32 → test_bit d 31 ≡ false → (d ≡ 0) ⊎ ((n : ℕ) × Lowest d n)
first_signal-cases d small top =
    let f = first_from-First d 0 31 in
    elim (Bool-cases (ltb (first_signal d) 32)) [
      | inl u ↦
          let n = first_signal d - 1 in
          let e : first_signal d ≡ suc n = omega (arith, f.from) in
          inr (
            n,
            record {
              found = e;
              below = ground (arith, e, u);
              is_set = f.is_set (ground (arith, u)) n e;
              none_below = λ k l. f.unset k (omega arith) (omega (arith, e, l));
            },
          )
      | inr u ↦ inl (
          bits_zero 32 d small (λ k l. elim (Bool-cases (k == 31)) [
            | inl e ↦ subst (λ b. test_bit d b ≡ false) {x = 31} (ground (arith, e)) top
            | inr e ↦ f.unset k (omega arith) (ground (arith, u, e, l))
          ]))
    ]
