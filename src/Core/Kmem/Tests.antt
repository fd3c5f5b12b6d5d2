-- ===== src/Core/Kmem/Tests.antt =====
-- kmem.c on two free pages.
use kappara.Base.{
  ℕ, ◌*◌, ◌≤◌, ◌<◌, ◌≡◌, ◌≢◌, ◌%◌, refl, sym, subst, ◌⊎◌, some, List, [], ◌∷◌, arith, write,
}
use kappara.Core.Pmm.{Pmm, pmm_alloc, zero_page, zero_words}
use kappara.Core.Pmm.Chain.{HoldsFree}
use kappara.Core.Kmem.{
  Kmem, KmemCache, with_mem, kmem_init, kmem_cache_init, kmem_cache_alloc, kmalloc, kfree,
  from_class, from_new, grow_cache, on_page, format_slab, link_objs, take_obj, cache_for, init_all,
}
use kappara.Core.Kmem.Slabs.{IsFit}
use kappara.Core.Kmem.Cache.{IsCache}
use kappara.Core.Kmem.Refines.{Outcome, kmem_cache_alloc_refines}
use kappara.Core.Kmem.Clients.{Clients, Step, Reach, IsSound}
use kappara.Core.Kmem.History.{Clients-IsSound}
use kappara.Core.Kmem.Sizes.{
  shape_of, bucket, shape_of-IsFit, kmem_cache_init-IsCache, kmalloc_refines,
}
use kappara.Core.Kmem.Init.{kmem_init-IsCache}

-- Two pages, at 0x1000 and 0x2000, are free.
abbrev two_pages : Pmm
two_pages = record { mem = write (λ a. 0) 0x1000 0x2000; freelist = 0x1000; free_count = 2 }

two_pages-HoldsFree : HoldsFree two_pages (0x1000 ∷ 0x2000 ∷ [])
two_pages-HoldsFree = record {
  chain = (refl, omega arith, (refl, omega arith, refl));
  pages = omega arith;
  distinct = omega arith;
  count = refl;
  small = omega arith;
}

abbrev no_cache : KmemCache
no_cache = record { obj_size = 0; objs_per_slab = 0; slabs = 0; total_objs = 0; free_objs = 0 }

abbrev cold : Kmem
cold = record { pmm = two_pages; caches = λ c. no_cache; registered = [] }

registered_all : (kmem_init cold).registered ≡ 1 ∷ 2 ∷ 3 ∷ 4 ∷ 5 ∷ 6 ∷ 7 ∷ 8 ∷ []
unfolding kmem_init kmem_cache_init
registered_all = refl

first_object : (kmalloc 2 700 (kmem_init cold)).0 ≡ some 0x1020
unfolding kmalloc from_class kmem_cache_alloc from_new grow_cache on_page format_slab link_objs
    take_obj cache_for kmem_init kmem_cache_init init_all pmm_alloc zero_page zero_words
first_object = refl

abbrev pages : List ℕ
pages = 0x1000 ∷ 0x2000 ∷ []

abbrev booted : Kmem
booted = kmem_init cold

booted-HoldsFree : HoldsFree booted.pmm pages
booted-HoldsFree =
    subst (λ p. HoldsFree p pages) (sym (kmem_init-IsCache cold 1 (omega arith) (omega arith)).1)
      two_pages-HoldsFree

bucket-IsFit : IsFit (bucket 7)
bucket-IsFit = shape_of-IsFit 7 1024 (omega arith)

kmem_cache_init-IsCache_example :
    IsCache (shape_of 9 40) (kmem_cache_init 9 40 cold) []
    × IsFit (shape_of 9 40)
    × (40 ≤ (shape_of 9 40).size)
    × ((shape_of 9 40).size % 8 ≡ 0)
    × ((kmem_cache_init 9 40 cold).pmm ≡ cold.pmm)
    × ((d : ℕ) → 9 ≢ d → (kmem_cache_init 9 40 cold).caches d ≡ cold.caches d)
kmem_cache_init-IsCache_example = kmem_cache_init-IsCache 9 40 cold (omega arith)

kmem_cache_alloc_refines_example : Outcome (bucket 7) booted [] pages (kmem_cache_alloc 2 7 booted)
kmem_cache_alloc_refines_example =
    kmem_cache_alloc_refines (bucket 7) 2 booted [] pages bucket-IsFit
      (kmem_init-IsCache cold 7 (omega arith) (omega arith)).0 booted-HoldsFree (tt, (tt, tt))
      (omega arith) (omega arith)

kmalloc_refines_example :
    (c : ℕ) × (700 ≤ (bucket c).size)
    × ((c ≡ 1) ⊎ ((bucket c).size < 2 * 700))
    × Outcome (bucket c) booted [] pages (kmalloc 2 700 booted)
kmalloc_refines_example =
    kmalloc_refines 2 700 booted (λ c. []) pages (omega arith) (omega arith)
      (λ c lo hi. (kmem_init-IsCache cold c lo hi).0) booted-HoldsFree (λ c lo hi. (tt, (tt, tt)))
      (λ c lo hi. omega arith) (omega arith)

abbrev start : Clients
start = record { kmem = booted; held = [] }

start-IsSound : IsSound (bucket 7) 2 start
start-IsSound = record {
  slabs = [];
  free_pages = pages;
  cache = (kmem_init-IsCache cold 7 (omega arith) (omega arith)).0;
  pool = booted-HoldsFree;
  apart = (tt, (tt, tt));
  total = refl;
  placed = tt;
  in_use = tt;
  distinct = tt;
  all_objs = omega arith;
}

abbrev after_alloc : Clients
after_alloc = record { kmem = (kmem_cache_alloc 2 7 booted).1; held = 0x1020 ∷ [] }

-- An object of the cache of 1024 bytes is taken, written and given back.
history : Reach (bucket 7) 2 start (record {
  kmem = kfree 0x1020 (with_mem after_alloc.kmem (write after_alloc.kmem.pmm.mem 0x1028 9));
  held = [];
})
unfolding kmem_cache_alloc from_new grow_cache on_page format_slab link_objs take_obj kmem_init
    kmem_cache_init init_all pmm_alloc zero_page zero_words
history =
    Reach.next
      (Reach.next (Reach.next Reach.here (Step.alloc start 0x1020 after_alloc.kmem refl))
        (Step.store after_alloc 0 0x1020 0x1028 9 refl (omega arith)))
      (Step.free
        (record after_alloc {
          kmem = with_mem after_alloc.kmem (write after_alloc.kmem.pmm.mem 0x1028 9);
        })
        0 0x1020 refl)

Clients-IsSound_example : IsSound (bucket 7) 2 (record {
  kmem = kfree 0x1020 (with_mem after_alloc.kmem (write after_alloc.kmem.pmm.mem 0x1028 9));
  held = [];
})
Clients-IsSound_example = Clients-IsSound bucket-IsFit (omega arith) history start-IsSound
