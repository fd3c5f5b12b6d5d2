-- ===== src/Proc/Signal/Change.antt =====
-- signal.c: the switch of `sys_sigprocmask_impl` bit by bit, and the set that it reads.
use kappara.Base.{
  ℕ, ◌+◌, ◌*◌, ◌^◌, ◌≤◌, ◌<◌, ◌≡◌, inl, inr, ap, ◌∙◌, if_true, if_false, Bool, true, false, none,
  some, ◌==◌, ◌&&◌, ◌||◌, not, if◌then◌else◌, Bool-cases, set, and_not32, test_bit, test_bit-or32,
  test_bit-and_not32, arith,
}
use kappara.Core.Uaccess.{Mem, user_ptr_ok, bytes_at, copy_from_user}
use kappara.Proc.Signal.{sigkill, sigbit, Context, get32}
use kappara.Proc.Signal.Masks.{consumed_bit}
use kappara.Proc.Signal.Calls.{sig_block, sig_unblock, sig_setmask, with_mask, change_mask}

allowed_bit :
    (set k : ℕ)
    → k < 32
    → test_bit (and_not32 set (sigbit sigkill)) k ≡ (test_bit set k && not (8 == k))
allowed_bit set k h = consumed_bit set 8 k h

-- What a mask becomes, bit by bit: added to, taken from, or replaced.
abbrev pub changed : ℕ → Bool → Bool → Bool
changed how old new =
    if how == sig_block
    then old || new
    else if how == sig_unblock
    then old && not new
    else if how == sig_setmask
    then new
    else old

pub change_mask_bits :
    (c : Context) (how set k : ℕ)
    → k < 32
    → test_bit (change_mask c how set).1.thread.sig_mask k
      ≡ changed how (test_bit c.thread.sig_mask k) (test_bit set k && not (8 == k))
unfolding change_mask
change_mask_bits c how set k h =
    let old = c.thread.sig_mask in
    let allowed = and_not32 set (sigbit sigkill) in
    let bit = allowed_bit set k h in
    let both = test_bit-or32 old allowed k h ∙ ap (λ b. test_bit old k || b) bit in
    let without = test_bit-and_not32 old allowed k h ∙ ap (λ b. test_bit old k && not b) bit in
    elim (Bool-cases (how == sig_block)) [
      | inl e ↦ ground (arith, e, both)
      | inr e ↦ elim (Bool-cases (how == sig_unblock)) [
        | inl f ↦ ground (arith, e, f, without)
        | inr f ↦ elim (Bool-cases (how == sig_setmask)) [
          | inl g ↦ ground (arith, e, f, g, bit)
          | inr g ↦ ground (arith, e, f, g)
        ]
      ]
    ]

-- The word of four bytes at an address, low byte first.
abbrev pub word_in : Mem → ℕ → ℕ
word_in mem a = mem a + 2 ^ 8 * mem (a + 1) + 2 ^ 16 * mem (a + 2) + 2 ^ 24 * mem (a + 3)

pub change_mask-done :
    (c : Context) (how set : ℕ)
    → how ≤ 2
    → change_mask c how set ≡ (true, with_mask c (change_mask c how set).1.thread.sig_mask)
unfolding change_mask
change_mask-done c how set h = elim (Bool-cases (how == sig_block)) [
  | inl e ↦ ground (arith, e)
  | inr e ↦ elim (Bool-cases (how == sig_unblock)) [
    | inl f ↦ ground (arith, e, f)
    | inr f ↦ elim (Bool-cases (how == sig_setmask)) [
      | inl g ↦ ground (arith, e, f, g)
      | inr g ↦ absurd (ground (arith, h, e, f, g))
    ]
  ]
]

pub change_mask-refused : (c : Context) (how set : ℕ) → 2 < how → change_mask c how set ≡ (false, c)
unfolding change_mask
change_mask-refused c how set h = ground (arith, h)

pub get32-bytes_at : (mem : Mem) (a : ℕ) → get32 (bytes_at mem a 4) ≡ word_in mem a
unfolding bytes_at
get32-bytes_at mem a = ground arith

pub copy_from_user-allowed :
    (mem : Mem) (a n : ℕ)
    → user_ptr_ok a n ≡ true
    → copy_from_user mem a n ≡ some (bytes_at mem a n)
unfolding copy_from_user
copy_from_user-allowed mem a n h = if_true (user_ptr_ok a n) (some (bytes_at mem a n)) none h

pub copy_from_user-refused :
    (mem : Mem) (a n : ℕ) → user_ptr_ok a n ≡ false → copy_from_user mem a n ≡ none
unfolding copy_from_user
copy_from_user-refused mem a n h = if_false (user_ptr_ok a n) (some (bytes_at mem a n)) none h
