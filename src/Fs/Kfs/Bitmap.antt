-- ===== src/Fs/Kfs/Bitmap.antt =====
-- The bitmap of kfs.c as a set of blocks.
use kappara.Base.{
  ℕ, zero, suc, ◌+◌, ◌/◌, ◌%◌, ◌^◌, ◌≤◌, ◌<◌, ◌≡◌, ◌≢◌, refl, sym, ap, ◌∙◌, inl, inr, subst, Bool,
  true, false, not, ◌||◌, ◌&&◌, arith, ◌==◌, ltb, leb, if◌then◌else◌, Bool-cases, if_true, if_false,
  write, write_self, write_ne, test_bit, test_bit-bitwise, test_bit-pow_self, test_bit-pow_ne,
}
use kappara.Fs.Kfs.{DiskBlock, or8, and_not8, kfs_bit_get, kfs_bit_set, run_free, set_run, capacity}

test_bit-or8 : (a b k : ℕ) → k < 8 → test_bit (or8 a b) k ≡ (test_bit a k || test_bit b k)
unfolding or8
test_bit-or8 a b k h = test_bit-bitwise ◌||◌ 8 a b k h

test_bit-and_not8 :
    (a b k : ℕ) → k < 8 → test_bit (and_not8 a b) k ≡ (test_bit a k && not (test_bit b k))
unfolding and_not8
test_bit-and_not8 a b k h = test_bit-bitwise (λ x y. x && not y) 8 a b k h

-- A byte with bit `j` set or cleared.
changed : Bool → ℕ → ℕ → ℕ
changed v a j = if v then or8 a (2 ^ j) else and_not8 a (2 ^ j)

changed_self : (v : Bool) (a j : ℕ) → j < 8 → test_bit (changed v a j) j ≡ v
unfolding changed
changed_self true a j h = ground (arith, test_bit-or8 a (2 ^ j) j h, test_bit-pow_self j)
changed_self false a j h = ground (arith, test_bit-and_not8 a (2 ^ j) j h, test_bit-pow_self j)

changed_ne : (v : Bool) (a j k : ℕ) → k < 8 → j ≢ k → test_bit (changed v a j) k ≡ test_bit a k
unfolding changed
changed_ne true a j k h n = ground (arith, test_bit-or8 a (2 ^ j) k h, test_bit-pow_ne j k n)
changed_ne false a j k h n = ground (arith, test_bit-and_not8 a (2 ^ j) k h, test_bit-pow_ne j k n)

-- Setting or clearing the bit of a block changes that bit alone.
pub bit_get-set :
    (m : DiskBlock) (b c : ℕ) (v : Bool)
    → kfs_bit_get (kfs_bit_set m b v) c ≡ (if b == c then v else kfs_bit_get m c)
unfolding kfs_bit_get kfs_bit_set changed
bit_get-set m b c v = elim (Bool-cases (b / 8 == c / 8)) [
  | inr other ↦
      ap (λ z. test_bit z (c % 8))
        (write_ne m (b / 8) (changed v (m (b / 8)) (b % 8)) (c / 8) (λ e. ground (arith, e, other)))
      ∙ sym (if_false (b == c) v _ (ground (arith, other)))
  | inl byte ↦
      let there : b / 8 ≡ c / 8 = ground (arith, byte) in
      ap (λ z. test_bit (write m (b / 8) (changed v (m (b / 8)) (b % 8)) z) (c % 8)) (sym there)
      ∙ ap (λ z. test_bit z (c % 8)) (write_self m (b / 8) (changed v (m (b / 8)) (b % 8)))
      ∙ elim (Bool-cases (b == c)) [
        | inl same ↦
            let bit : b % 8 ≡ c % 8 = ground (arith, same) in
            ap (test_bit (changed v (m (b / 8)) (b % 8))) (sym bit)
            ∙ changed_self v (m (b / 8)) (b % 8) (omega arith)
            ∙ sym (if_true (b == c) v _ same)
        | inr other ↦
            changed_ne v (m (b / 8)) (b % 8) (c % 8) (omega arith)
              (λ e. ground (arith, e, there, other))
            ∙ ap (λ z. test_bit (m z) (c % 8)) there
            ∙ sym (if_false (b == c) v _ other)
      ]
]

-- The block is one of the `n` blocks from `start` on.
abbrev pub InRun : ℕ → ℕ → ℕ → Type 0
InRun start n c = (start ≤ c) × (c < start + n)

abbrev pub in_run : ℕ → ℕ → ℕ → Bool
in_run start n c = leb start c && ltb c (start + n)

-- So does marking or clearing a run change its bits alone.
pub bit_get-set_run :
    (m : DiskBlock) (start n c : ℕ) (v : Bool)
    → kfs_bit_get (set_run m start n v) c ≡ (if in_run start n c then v else kfs_bit_get m c)
unfolding set_run
bit_get-set_run m start zero c v = ground arith
bit_get-set_run m start (suc n) c v =
    bit_get-set_run (kfs_bit_set m start v) (start + 1) n c v
    ∙ ground (arith, bit_get-set m start c v)

-- The test of a run.
pub run_free-bits :
    (m : DiskBlock) (start n c : ℕ)
    → run_free m start n ≡ true
    → InRun start n c
    → kfs_bit_get m c ≡ false
unfolding run_free
run_free-bits m start zero c e h = absurd (omega (arith, h))
run_free-bits m start (suc n) c e h = elim (Bool-cases (start == c)) [
  | inl same ↦
      subst (λ z. kfs_bit_get m z ≡ false) {x = start} {y = c} (ground (arith, same))
        (ground (arith, e))
  | inr other ↦
      run_free-bits m (start + 1) n c (ground (arith, e))
        (ground (arith, h, other), omega (arith, h))
]

-- A block of the run is in use.
abbrev pub Blocked : DiskBlock → ℕ → ℕ → Type 0
Blocked m start n = (c : ℕ) × InRun start n c × (kfs_bit_get m c ≡ true)

pub run_free-Blocked :
    (m : DiskBlock) (start n : ℕ) → run_free m start n ≡ false → Blocked m start n
unfolding run_free
run_free-Blocked m start zero e = cc
run_free-Blocked m start (suc n) e = elim (Bool-cases (kfs_bit_get m start)) [
  | inl used ↦ (start, (omega arith, omega arith), used)
  | inr free ↦
      let (c, inside, used) = run_free-Blocked m (start + 1) n (ground (arith, e, free)) in
      (c, (omega (arith, inside), omega (arith, inside)), used)
]

-- What ends at block `e` lies on a device of so many blocks, and the bitmap has its bits.
abbrev pub Fits : ℕ → ℕ → Type 0
Fits nblocks e = (e ≤ nblocks) × (e ≤ 4096)

pub capacity-Fits : (n e : ℕ) → e ≤ capacity n → Fits n e
unfolding capacity
capacity-Fits n e h = (ground (arith, h), ground (arith, h))

pub Fits-capacity : (n e : ℕ) → Fits n e → e ≤ capacity n
unfolding capacity
Fits-capacity n e h = ground (arith, h)

pub bits-run_free :
    (m : DiskBlock) (start n : ℕ)
    → ((c : ℕ) → InRun start n c → kfs_bit_get m c ≡ false)
    → run_free m start n ≡ true
unfolding run_free
bits-run_free m start zero h = refl
bits-run_free m start (suc n) h = ground (
  arith,
  h start (omega arith, omega arith),
  bits-run_free m (start + 1) n (λ c k. h c (omega (arith, k), omega (arith, k))),
)
