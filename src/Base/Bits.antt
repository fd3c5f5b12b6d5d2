-- ===== src/Base/Bits.antt =====
-- Words of `w` bits as sets: the bitwise operators of C on numbers, and what bit `k` of each is.
use Prim.Native.Nat.{ℕ, zero, suc, ◌+◌, ◌*◌, ◌/◌, ◌%◌, ◌^◌, ◌<◌}
use mathlib.Core.Path.{◌≡◌, refl, ap, sym, subst, ◌∙◌}
use mathlib.Core.Logic.{◌≢◌}
use mathlib.Core.Bool.{Bool, true, false, not, ◌&&◌, ◌||◌}
use kappara.Base.Tests.{◌==◌, if◌then◌else◌}
use native.Mathlib.Nat.{pow-succ'}
use native.Mathlib.Omega.{arith}

-- Bit `k` of a word.
unfoldable pub test_bit : ℕ → ℕ → Bool
test_bit a zero = a % 2 == 1
test_bit a (suc k) = test_bit (a / 2) k

-- The word of `w` bits whose bits are those of `a` and `b` under `f`.
unfoldable pub bitwise : (Bool → Bool → Bool) → ℕ → ℕ → ℕ → ℕ
bitwise f zero a b = 0
bitwise f (suc w) a b =
    (if f (a % 2 == 1) (b % 2 == 1) then 1 else 0) + 2 * bitwise f w (a / 2) (b / 2)

digit : (c : Bool) (r : ℕ) → (((if c then 1 else 0) + 2 * r) % 2 == 1) ≡ c
digit true r = ground arith
digit false r = ground arith

rest : (c : Bool) (r : ℕ) → ((if c then 1 else 0) + 2 * r) / 2 ≡ r
rest true r = omega arith
rest false r = omega arith

pub test_bit-bitwise :
    (f : Bool → Bool → Bool) (w a b k : ℕ)
    → k < w
    → test_bit (bitwise f w a b) k ≡ f (test_bit a k) (test_bit b k)
unfolding test_bit bitwise
test_bit-bitwise f zero a b k h = absurd (omega (arith, h))
test_bit-bitwise f (suc w) a b zero h =
    digit (f (a % 2 == 1) (b % 2 == 1)) (bitwise f w (a / 2) (b / 2))
test_bit-bitwise f (suc w) a b (suc k) h =
    ap (λ r. test_bit r k) (rest (f (a % 2 == 1) (b % 2 == 1)) (bitwise f w (a / 2) (b / 2)))
    ∙ test_bit-bitwise f w (a / 2) (b / 2) k (omega (arith, h))

pub double : (n : ℕ) → 2 ^ suc n ≡ 2 * 2 ^ n
double n = pow-succ' 2 n

digit_small : (c : Bool) (r m : ℕ) → r < m → (if c then 1 else 0) + 2 * r < 2 * m
digit_small true r m h = omega (arith, h)
digit_small false r m h = omega (arith, h)

pub bitwise_small : (f : Bool → Bool → Bool) (w a b : ℕ) → bitwise f w a b < 2 ^ w
unfolding bitwise
bitwise_small f zero a b = omega arith
bitwise_small f (suc w) a b =
    subst (λ m. bitwise f (suc w) a b < m) (sym (double w))
      (digit_small (f (a % 2 == 1) (b % 2 == 1)) (bitwise f w (a / 2) (b / 2)) (2 ^ w)
        (bitwise_small f w (a / 2) (b / 2)))

-- A word is 0 where none of its bits is set.
pub bits_zero : (w a : ℕ) → a < 2 ^ w → ((k : ℕ) → k < w → test_bit a k ≡ false) → a ≡ 0
unfolding test_bit
bits_zero zero a h n = omega (arith, h)
bits_zero (suc w) a h n =
    let half =
      bits_zero w (a / 2) (omega (arith, h, double w)) (λ k l. n (suc k) (omega (arith, l))) in
    let low = n 0 (omega arith) in ground (arith, half, low)

pub test_bit_zero : (k : ℕ) → test_bit 0 k ≡ false
unfolding test_bit
test_bit_zero zero = refl
test_bit_zero (suc k) = test_bit_zero k

-- The word with bit `n` alone.
pub test_bit-pow_self : (n : ℕ) → test_bit (2 ^ n) n ≡ true
unfolding test_bit
test_bit-pow_self zero = refl
test_bit-pow_self (suc n) = ap (λ r. test_bit r n) (omega (arith, double n)) ∙ test_bit-pow_self n

pub test_bit-pow_ne : (n k : ℕ) → n ≢ k → test_bit (2 ^ n) k ≡ false
unfolding test_bit
test_bit-pow_ne zero zero h = absurd (h refl)
test_bit-pow_ne (suc n) zero h = ground (arith, double n)
test_bit-pow_ne zero (suc k) h = test_bit_zero k
test_bit-pow_ne (suc n) (suc k) h =
    ap (λ r. test_bit r k) (omega (arith, double n)) ∙ test_bit-pow_ne n k (λ e. h (ap suc e))

-- `|`, `&` and `& ~` of `uint32_t`.
unfoldable pub or32 : ℕ → ℕ → ℕ
unfolding bitwise
or32 a b = bitwise ◌||◌ 32 a b

unfoldable pub and32 : ℕ → ℕ → ℕ
unfolding bitwise
and32 a b = bitwise ◌&&◌ 32 a b

unfoldable pub and_not32 : ℕ → ℕ → ℕ
unfolding bitwise
and_not32 a b = bitwise (λ x y. x && not y) 32 a b

pub test_bit-or32 : (a b k : ℕ) → k < 32 → test_bit (or32 a b) k ≡ (test_bit a k || test_bit b k)
unfolding or32
test_bit-or32 a b k h = test_bit-bitwise ◌||◌ 32 a b k h

pub test_bit-and32 : (a b k : ℕ) → k < 32 → test_bit (and32 a b) k ≡ (test_bit a k && test_bit b k)
unfolding and32
test_bit-and32 a b k h = test_bit-bitwise ◌&&◌ 32 a b k h

pub test_bit-and_not32 :
    (a b k : ℕ) → k < 32 → test_bit (and_not32 a b) k ≡ (test_bit a k && not (test_bit b k))
unfolding and_not32
test_bit-and_not32 a b k h = test_bit-bitwise (λ x y. x && not y) 32 a b k h

pub or32_small : (a b : ℕ) → or32 a b < 2 ^ 32
unfolding or32
or32_small a b = bitwise_small ◌||◌ 32 a b

pub and_not32_small : (a b : ℕ) → and_not32 a b < 2 ^ 32
unfolding and_not32
and_not32_small a b = bitwise_small (λ x y. x && not y) 32 a b
