-- ===== src/Core/Uaccess/Windows.antt =====
-- uaccess.c: which ranges of addresses `user_ptr_ok` lets pass.
use kappara.Base.{ℕ, zero, suc, ◌+◌, ◌^◌, ◌≤◌, ◌<◌, ◌⊎◌, ◌≡◌, ◌↔◌, subst, true, arith}
use kappara.Core.Uaccess.{user_ptr_ok}

pub user_ptr_ok-part : (a n i : ℕ) → user_ptr_ok a n ≡ true → i < n → user_ptr_ok (a + i) 1 ≡ true
unfolding user_ptr_ok
user_ptr_ok-part a n i h l = ground (arith, h, l)

pub user_ptr_ok-grow :
    (a n : ℕ)
    → 0 < n
    → user_ptr_ok a n ≡ true
    → user_ptr_ok (a + n) 1 ≡ true
    → user_ptr_ok a (suc n) ≡ true
unfolding user_ptr_ok
user_ptr_ok-grow a n p h l = ground (arith, p, h, l)

pub user_ptr_ok-before :
    (a n : ℕ)
    → 0 < n
    → user_ptr_ok a 1 ≡ true
    → user_ptr_ok (a + 1) n ≡ true
    → user_ptr_ok a (n + 1) ≡ true
unfolding user_ptr_ok
user_ptr_ok-before a n p h l = ground (arith, p, h, l)

pub user_ptr_ok-after :
    (a n : ℕ) → 0 < n → user_ptr_ok a (n + 1) ≡ true → user_ptr_ok (a + 1) n ≡ true
unfolding user_ptr_ok
user_ptr_ok-after a n p h = ground (arith, p, h)

bytes→range :
    (a n : ℕ) → ((i : ℕ) → i < suc n → user_ptr_ok (a + i) 1 ≡ true) → user_ptr_ok a (suc n) ≡ true
bytes→range a zero h = subst (λ b. user_ptr_ok b 1 ≡ true) (omega arith) (h 0 (omega arith))
bytes→range a (suc n) h =
    user_ptr_ok-grow a (suc n) (omega arith) (bytes→range a n (λ i l. h i (omega (arith, l))))
      (h (suc n) (omega arith))

-- The address lies in the window of `size` bytes from `va` on.
abbrev pub InWindow : ℕ → ℕ → ℕ → Type 0
InWindow va size a = (va ≤ a) × (a < va + size)

-- It lies in the user's memory: init's, the exec windows, the loader's, libc's or dlopen's.
abbrev pub InUser : ℕ → Type 0
InUser a =
    InWindow 0x10000000 0x00200000 a
    ⊎ InWindow 0x20000000 0x01600000 a
    ⊎ InWindow 0x22000000 0x08000000 a
    ⊎ InWindow 0x30000000 0x00100000 a
    ⊎ InWindow 0x38000000 0x00200000 a
    ⊎ InWindow 0x39000000 0x00200000 a

byte-InUser : (a : ℕ) → user_ptr_ok a 1 ≡ true → InUser a
unfolding user_ptr_ok
byte-InUser a h = ground (arith, h)

InUser-byte : (a : ℕ) → InUser a → user_ptr_ok a 1 ≡ true
unfolding user_ptr_ok
InUser-byte a h = ground (arith, h)

-- A range that is not empty passes exactly where each of its bytes lies in one of the six windows of
-- the user's memory.
pub user_ptr_ok-bytes :
    (a n : ℕ) → 0 < n → (user_ptr_ok a n ≡ true) ↔ ((i : ℕ) → i < n → InUser (a + i))
user_ptr_ok-bytes a zero p = absurd (omega (arith, p))
user_ptr_ok-bytes a (suc n) p = (
  λ h i l. byte-InUser (a + i) (user_ptr_ok-part a (suc n) i h l),
  λ h. bytes→range a n (λ i l. InUser-byte (a + i) (h i l)),
)

-- The windows lie in the low half of the address space.
pub user_ptr_ok_small : (a n : ℕ) → 0 < n → user_ptr_ok a n ≡ true → a + n < 2 ^ 32
unfolding user_ptr_ok
user_ptr_ok_small a n p h = ground (arith, p, h)
