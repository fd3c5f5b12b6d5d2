-- ===== src/Core/Kmem.antt =====
-- uts/os/core/kmem.c: the slab allocator over the page allocator. A slab's header and the first
-- word of each free object are words of the memory that Pmm has, at the addresses of their fields;
-- a kmem_cache is known by a number in place of its address, and the eight size caches are 1 to 8.
-- kmem_lock is held across each change, so a call is one step. The diagnostics are not modelled.
pub mod Slabs
pub mod Grow
pub mod Alloc
pub mod Free
pub mod Cache
pub mod NewSlab
pub mod Refines
pub mod Held
pub mod Clients
pub mod AllocSound
pub mod History
pub mod Sizes
pub mod Init
mod Tests
use kappara.Base.{
  ℕ, zero, suc, ◌+◌, ◌-◌, ◌*◌, ◌/◌, Option, none, some, List, [], ◌∷◌, ◌++◌, Bool, true, false, not,
  ◌||◌, ltb, leb, ◌==◌, if◌then◌else◌, length, get_elem?, write, add32, sub32, add64, sub64,
}
use kappara.Core.Pmm.{Pmm, page_size, pmm_alloc}

abbrev pub slab_magic : ℕ
slab_magic = 0x5bab10c0

abbrev pub obj_align : ℕ
obj_align = 8

-- Rounding up to a multiple of 8, for sizes that are far from the top of the type.
abbrev pub round_up : ℕ → ℕ
round_up n = (n + obj_align - 1) / obj_align * obj_align

-- The offsets of `struct slab`.
abbrev pub magic_at : ℕ → ℕ
magic_at s = s

abbrev pub free_count_at : ℕ → ℕ
free_count_at s = s + 4

abbrev pub next_at : ℕ → ℕ
next_at s = s + 8

abbrev pub cache_at : ℕ → ℕ
cache_at s = s + 16

abbrev pub freelist_at : ℕ → ℕ
freelist_at s = s + 24

abbrev pub slab_bytes : ℕ
slab_bytes = 32

abbrev pub slab_header_size : ℕ
slab_header_size = round_up slab_bytes

pub objs_per_slab_for : ℕ → ℕ
objs_per_slab_for size = (page_size - slab_header_size) / size

pub slab_of : ℕ → ℕ
slab_of p = p / page_size * page_size

pub record KmemCache : Type 0 where
  pub obj_size : ℕ
  pub objs_per_slab : ℕ
  pub slabs : ℕ
  pub total_objs : ℕ
  pub free_objs : ℕ

pub record Kmem : Type 0 where
  pub pmm : Pmm
  pub caches : ℕ → KmemCache
  pub registered : List ℕ

abbrev pub with_mem : Kmem → (ℕ → ℕ) → Kmem
with_mem k m = record k { pmm = record k.pmm { mem = m } }

abbrev pub with_cache : Kmem → ℕ → KmemCache → Kmem
with_cache k c v = record k { caches = write k.caches c v }

-- The loop of `grow_cache`, with the objects that are left, the last one first.
pub link_objs : ℕ → ℕ → ℕ → (ℕ → ℕ) → ℕ → ℕ
link_objs zero s size m = m
link_objs (suc i) s size m =
    let obj = s + slab_header_size + i * size in
    link_objs i s size (write (write m obj (m (freelist_at s))) (freelist_at s) obj)

-- The header that `grow_cache` writes, in its order.
abbrev pub header : ℕ → ℕ → KmemCache → (ℕ → ℕ) → ℕ → ℕ
header s c v m =
    let m1 = write m (magic_at s) slab_magic in
    let m2 = write m1 (cache_at s) c in
    let m3 = write m2 (next_at s) v.slabs in
    let m4 = write m3 (free_count_at s) v.objs_per_slab in write m4 (freelist_at s) 0

-- `grow_cache` once it has a page.
pub format_slab : ℕ → ℕ → Kmem → Kmem
format_slab s c k =
    let v = k.caches c in
    let m = link_objs v.objs_per_slab s v.obj_size (header s c v k.pmm.mem) in
    with_cache (with_mem k m) c (record v {
      slabs = s;
      total_objs = add64 v.total_objs v.objs_per_slab;
      free_objs = add64 v.free_objs v.objs_per_slab;
    })

-- `grow_cache` after `pmm_alloc`; `none` is NULL.
pub on_page : ℕ → Kmem → Option ℕ × Pmm → Option ℕ × Kmem
on_page c k (none, t) = (none, record k { pmm = t })
on_page c k (some s, t) = (some s, format_slab s c (record k { pmm = t }))

pub grow_cache : ℕ → Kmem → Option ℕ × Kmem
grow_cache c k = on_page c k (pmm_alloc k.pmm)

abbrev pub kmem_max_registered : ℕ
kmem_max_registered = 16

pub is_registered : ℕ → List ℕ → Bool
is_registered c [] = false
is_registered c (x ∷ xs) = x == c || is_registered c xs

pub kmem_register : ℕ → List ℕ → List ℕ
unfolding is_registered
kmem_register c rs =
    if is_registered c rs
    then rs
    else if ltb (length rs) kmem_max_registered
    then rs ++ c ∷ []
    else rs

-- The size that `kmem_cache_init` settles on.
pub cache_size : ℕ → ℕ
cache_size size = round_up (if ltb size 8 then 8 else size)

pub kmem_cache_init : ℕ → ℕ → Kmem → Kmem
unfolding objs_per_slab_for cache_size kmem_register is_registered
kmem_cache_init c size k =
    record (with_cache k c (record {
      obj_size = cache_size size;
      objs_per_slab = objs_per_slab_for (cache_size size);
      slabs = 0;
      total_objs = 0;
      free_objs = 0;
    })) { registered = kmem_register c k.registered }

-- The walk along `next`, on fuel.
pub count_slabs : ℕ → (ℕ → ℕ) → ℕ → ℕ
count_slabs zero m s = 0
count_slabs (suc f) m s =
    let rest = count_slabs f m (m (next_at s)) in if s == 0 then 0 else suc rest

pub kmem_cache_nslabs : ℕ → ℕ → Kmem → ℕ
unfolding count_slabs
kmem_cache_nslabs fuel c k = count_slabs fuel k.pmm.mem (k.caches c).slabs

pub kmem_num_caches : Kmem → ℕ
kmem_num_caches k = length k.registered

pub kmem_get_cache : Kmem → ℕ → Option ℕ
kmem_get_cache k i = get_elem? k.registered i

-- The search of `kmem_cache_alloc` for a slab with a free object, on fuel; 0 is the end of the list.
pub find_slab : ℕ → (ℕ → ℕ) → ℕ → ℕ
find_slab zero m s = 0
find_slab (suc f) m s =
    let rest = find_slab f m (m (next_at s)) in
    if s == 0 then 0 else if ltb 0 (m (free_count_at s)) then s else rest

-- The pop of `kmem_cache_alloc`, from slab `s`.
pub take_obj : ℕ → ℕ → Kmem → Option ℕ × Kmem
take_obj s c k =
    let m = k.pmm.mem in
    let p = m (freelist_at s) in
    let m1 = write m (freelist_at s) (m p) in
    let m2 = write m1 (free_count_at s) (sub32 (m1 (free_count_at s)) 1) in
    let v = k.caches c in
    (
      (if p == 0 then none else some p),
      with_cache (with_mem k m2) c (record v { free_objs = sub64 v.free_objs 1 }),
    )

-- `kmem_cache_alloc` after `grow_cache`.
pub from_new : ℕ → Option ℕ × Kmem → Option ℕ × Kmem
from_new c (none, k) = (none, k)
from_new c (some s, k) = take_obj s c k

pub kmem_cache_alloc : ℕ → ℕ → Kmem → Option ℕ × Kmem
unfolding find_slab
kmem_cache_alloc fuel c k =
    let s = find_slab fuel k.pmm.mem (k.caches c).slabs in
    if s == 0 then from_new c (grow_cache c k) else take_obj s c k

pub slab_free : ℕ → ℕ → Kmem → Kmem
slab_free s p k =
    let m = k.pmm.mem in
    let m1 = write m p (m (freelist_at s)) in
    let m2 = write m1 (freelist_at s) p in
    let m3 = write m2 (free_count_at s) (add32 (m2 (free_count_at s)) 1) in
    let c = m3 (cache_at s) in
    let v = k.caches c in
    with_cache (with_mem k m3) c (record v { free_objs = add64 v.free_objs 1 })

pub kmem_cache_free : ℕ → ℕ → Kmem → Kmem
kmem_cache_free c p k =
    if p == 0
    then k
    else let s = slab_of p in
      if not (k.pmm.mem (magic_at s) == slab_magic) || not (k.pmm.mem (cache_at s) == c)
      then k
      else slab_free s p k

pub kfree : ℕ → Kmem → Kmem
kfree p k =
    if p == 0
    then k
    else let s = slab_of p in
      if not (k.pmm.mem (magic_at s) == slab_magic) then k else slab_free s p k

-- `size_caches`: the size and the number of each cache.
abbrev pub size_caches : List (ℕ × ℕ)
size_caches =
    (16, 1) ∷ (32, 2) ∷ (64, 3) ∷ (128, 4) ∷ (256, 5) ∷ (512, 6) ∷ (1024, 7) ∷ (2048, 8) ∷ []

pub init_all : List (ℕ × ℕ) → Kmem → Kmem
init_all [] k = k
init_all ((size, c) ∷ r) k = init_all r (kmem_cache_init c size k)

pub kmem_init : Kmem → Kmem
unfolding init_all
kmem_init k = init_all size_caches k

-- The search of `kmalloc`: the first cache whose objects are large enough.
pub cache_for : ℕ → List (ℕ × ℕ) → Option ℕ
cache_for size [] = none
cache_for size ((n, c) ∷ r) = if leb size n then some c else cache_for size r

-- The end of `kmalloc`: an allocation from that cache, or NULL.
pub from_class : ℕ → Kmem → Option ℕ → Option ℕ × Kmem
from_class fuel k none = (none, k)
from_class fuel k (some c) = kmem_cache_alloc fuel c k

pub kmalloc : ℕ → ℕ → Kmem → Option ℕ × Kmem
kmalloc fuel size k =
    if size == 0 then (none, k) else from_class fuel k (cache_for size size_caches)

pub kmem_get_size_cache : ℕ → Option ℕ
kmem_get_size_cache i = elim (get_elem? size_caches i) [ none ↦ none | some (_, c) ↦ some c ]
