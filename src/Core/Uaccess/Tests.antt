-- ===== src/Core/Uaccess/Tests.antt =====
-- uaccess.c on a string at the start of the init window.
use kappara.Base.{
  ℕ, ◌+◌, ◌-◌, ◌^◌, ◌<◌, ◌≡◌, ◌↔◌, refl, true, none, some, [], ◌∷◌, ◌==◌, if◌then◌else◌, arith,
}
use kappara.Core.Uaccess.{Mem, user_ptr_ok, strncpy_from_user, user_va, exec_va}
use kappara.Core.Uaccess.Windows.{InUser, user_ptr_ok-bytes}
use kappara.Core.Uaccess.Copies.{StringAt, strncpy_from_user-StringAt}

-- "ab" at `user_va`, and zeros elsewhere.
abbrev ab : Mem
ab a = if a == user_va then 97 else if a == user_va + 1 then 98 else 0

reads_ab : strncpy_from_user ab user_va 8 ≡ some (97 ∷ 98 ∷ [])
unfolding strncpy_from_user
reads_ab = refl

too_long : strncpy_from_user ab user_va 2 ≡ none
unfolding strncpy_from_user
too_long = refl

kernel_refused : strncpy_from_user ab 0x1000 8 ≡ none
unfolding strncpy_from_user
kernel_refused = refl

-- The empty range at the last address passes, since its end wraps to 0.
last_address : user_ptr_ok (2 ^ 64 - 1) 0 ≡ true
unfolding user_ptr_ok
last_address = refl

user_ptr_ok-bytes_example :
    (user_ptr_ok exec_va 64 ≡ true) ↔ ((i : ℕ) → i < 64 → InUser (exec_va + i))
user_ptr_ok-bytes_example = user_ptr_ok-bytes exec_va 64 (omega arith)

strncpy_from_user-StringAt_example :
    (strncpy_from_user ab user_va 8 ≡ some (97 ∷ 98 ∷ [])) ↔ StringAt ab user_va 8 (97 ∷ 98 ∷ [])
strncpy_from_user-StringAt_example = strncpy_from_user-StringAt ab user_va 8 (97 ∷ 98 ∷ [])
