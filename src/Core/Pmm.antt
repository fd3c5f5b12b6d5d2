-- ===== src/Core/Pmm.antt =====
-- uts/os/core/pmm.c: the physical page allocator. Memory is addressed by the byte and holds a 64-bit
-- word at each address that the code reads or writes; a free page's first word is the address of the
-- next free page. pmm_lock is held across each change, so a call is one step.
pub mod Chain
pub mod Steps
pub mod Ranges
pub mod Owners
mod Tests
use kappara.Base.{
  ℕ, zero, suc, ◌+◌, ◌-◌, ◌*◌, ◌/◌, Option, none, some, ltb, leb, ◌==◌, if◌then◌else◌, write, add64,
  sub64,
}

abbrev pub page_size : ℕ
page_size = 4096

-- `freelist` and `free_count`, with the memory that the list runs through.
pub record Pmm : Type 0 where
  pub mem : ℕ → ℕ
  pub freelist : ℕ
  pub free_count : ℕ

-- For `a` = page_size, clearing the low bits by `& ~(a - 1)` is rounding down to a multiple.
pub align_dn : ℕ → ℕ
align_dn v = v / page_size * page_size

pub align_up : ℕ → ℕ
unfolding align_dn
align_up v = align_dn (add64 v (page_size - 1))

-- The loop of `zero_page`, with the words that are left and the address of the next.
unfoldable pub zero_words : ℕ → ℕ → (ℕ → ℕ) → ℕ → ℕ
zero_words zero a m = m
zero_words (suc n) a m = zero_words n (a + 8) (write m a 0)

unfoldable pub zero_page : ℕ → (ℕ → ℕ) → ℕ → ℕ
zero_page pa m = zero_words (page_size / 8) pa m

pub pmm_free : Pmm → ℕ → Pmm
pmm_free s pa = if pa == 0 then s else record {
  mem = write s.mem pa s.freelist;
  freelist = pa;
  free_count = add64 s.free_count 1;
}

-- `none` is the NULL of an empty list.
unfoldable pub pmm_alloc : Pmm → Option ℕ × Pmm
pmm_alloc s = if s.freelist == 0 then (none, s) else (
  some s.freelist,
  record {
    mem = zero_page s.freelist s.mem;
    freelist = s.mem s.freelist;
    free_count = sub64 s.free_count 1;
  },
)

-- The loop of `pmm_add_range`, high to low, from `pa` down to `start`, on fuel.
pub free_down : ℕ → ℕ → ℕ → Pmm → Pmm
free_down zero start pa s = s
free_down (suc f) start pa s =
    let rest = free_down f start (pa - page_size) (pmm_free s (pa - page_size)) in
    if ltb start pa then rest else s

pub pmm_add_range : Pmm → ℕ → ℕ → Pmm
unfolding align_dn align_up free_down
pmm_add_range s start end =
    if leb (align_dn end) (align_up start)
    then s
    else free_down (end / page_size) (align_up start) (align_dn end) s
