-- ===== src/Core/Uaccess.antt =====
-- uts/os/core/uaccess.c: the copies between user and kernel memory, and the windows in which the user's
-- addresses must lie. User memory is a function from addresses to bytes.
pub mod Windows
pub mod Copies
mod Tests
use kappara.Base.{
  ℕ, zero, suc, ◌+◌, ◌-◌, ◌%◌, ◌^◌, Bool, true, false, Option, none, some, List, [], ◌∷◌, leb, ◌==◌,
  ◌&&◌, ◌||◌, if◌then◌else◌, length, write,
}

abbrev pub user_va : ℕ
user_va = 0x10000000

abbrev pub user_size : ℕ
user_size = 0x00200000

abbrev pub exec_va : ℕ
exec_va = 0x20000000

abbrev pub exec_total : ℕ
exec_total = 0x01600000

abbrev pub anon_va : ℕ
anon_va = 0x22000000

abbrev pub anon_size : ℕ
anon_size = 0x08000000

abbrev pub ld_va : ℕ
ld_va = 0x30000000

abbrev pub ld_size : ℕ
ld_size = 0x00100000

abbrev pub libc_va : ℕ
libc_va = 0x38000000

abbrev pub libc_size : ℕ
libc_size = 0x00200000

abbrev pub dlopen_va : ℕ
dlopen_va = 0x39000000

abbrev pub dlopen_size : ℕ
dlopen_size = 0x00200000

-- The test of one window.
abbrev pub inside : ℕ → ℕ → ℕ → ℕ → Bool
inside a end va size = leb va a && leb end (va + size)

-- The range from `a` to `end` lies in one of the windows.
unfoldable pub in_windows : ℕ → ℕ → Bool
in_windows a end =
    inside a end user_va user_size
    || inside a end exec_va exec_total
    || inside a end anon_va anon_size
    || inside a end ld_va ld_size
    || inside a end libc_va libc_size
    || inside a end dlopen_va dlopen_size

unfoldable pub user_ptr_ok : ℕ → ℕ → Bool
unfolding in_windows
user_ptr_ok a n =
    if leb (2 ^ 64) (a + n)
    then false
    else in_windows a (if n == 0 then (a + 1) % 2 ^ 64 else a + n)

abbrev pub Mem : Type 0
Mem = ℕ → ℕ

-- The bytes at an address, and memory with bytes put there.
unfoldable pub bytes_at : Mem → ℕ → ℕ → List ℕ
bytes_at mem a zero = []
bytes_at mem a (suc n) = mem a ∷ bytes_at mem (a + 1) n

unfoldable pub put_bytes : Mem → ℕ → List ℕ → Mem
put_bytes mem a [] = mem
put_bytes mem a (b ∷ bs) = write (put_bytes mem (a + 1) bs) a b

unfoldable pub copy_from_user : Mem → ℕ → ℕ → Option (List ℕ)
unfolding user_ptr_ok bytes_at
copy_from_user mem usrc n = if user_ptr_ok usrc n then some (bytes_at mem usrc n) else none

unfoldable pub copy_to_user : Mem → ℕ → List ℕ → Option Mem
unfolding user_ptr_ok put_bytes
copy_to_user mem udst src =
    if user_ptr_ok udst (length src) then some (put_bytes mem udst src) else none

-- The string without its NUL, whose length the C function returns; none for -1. `n` is what `maxlen`
-- leaves, and `a` the address of the next byte.
unfoldable pub strncpy_from_user : Mem → ℕ → ℕ → Option (List ℕ)
unfolding user_ptr_ok
strncpy_from_user mem a zero = none
strncpy_from_user mem a (suc n) =
    let rest = strncpy_from_user mem ((a + 1) % 2 ^ 64) n in
    if user_ptr_ok a 1
    then if mem a == 0 then some [] else elim rest [ none ↦ none | some s ↦ some (mem a ∷ s) ]
    else none
