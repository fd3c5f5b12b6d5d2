-- ===== src/Core/Kmem/Clients.antt =====
-- A cache and its clients over time: who holds which object.
use kappara.Base.{
  ℕ, ◌+◌, ◌*◌, ◌≡◌, some, List, ◌∷◌, length, get_elem?, erase_idx, All, Distinct, Apart, write,
}
use kappara.Core.Pmm.Chain.{HoldsFree}
use kappara.Core.Kmem.{Kmem, kmem_cache_alloc, kfree, with_mem}
use kappara.Core.Kmem.Slabs.{Shape, Slab, pages_of}
use kappara.Core.Kmem.Free.{InObj}
use kappara.Core.Kmem.Cache.{IsCache, free_total}
use kappara.Core.Kmem.Held.{Inside, InUse}

-- The allocator with the objects of the cache that clients hold, in no particular order.
pub record Clients : Type 0 where
  pub kmem : Kmem
  pub held : List ℕ

-- A client takes an object of the cache, gives back one that it holds with `kfree`, or writes into
-- one that it holds. The walk of an allocation may visit `n` slabs.
pub data Step (t : Shape) (n : ℕ) : Clients → Clients → Type 0 where
  alloc :
      (o : Clients) (p : ℕ) (k : Kmem)
      → kmem_cache_alloc n t.cache o.kmem ≡ (some p, k)
      → Step t n o (record { kmem = k; held = p ∷ o.held })
  free :
      (o : Clients) (i p : ℕ)
      → get_elem? o.held i ≡ some p
      → Step t n o (record { kmem = kfree p o.kmem; held = erase_idx o.held i })
  store :
      (o : Clients) (i p b v : ℕ)
      → get_elem? o.held i ≡ some p
      → InObj t p b
      → Step t n o (record o { kmem = with_mem o.kmem (write o.kmem.pmm.mem b v) })

pub data Reach (t : Shape) (n : ℕ) (o : Clients) : Clients → Type 0 where
  here : Reach t n o o
  next : {u v : Clients} → Reach t n o u → Step t n u v → Reach t n o v

-- The cache and the free pages are sound, with `n` pages in all; each object held is an object of a
-- slab, in no free list and held once; and every object of a slab is held or free.
pub record IsSound (t : Shape) (n : ℕ) (o : Clients) : Type 0 where
  pub slabs : List Slab
  pub free_pages : List ℕ
  pub cache : IsCache t o.kmem slabs
  pub pool : HoldsFree o.kmem.pmm free_pages
  pub apart : Apart free_pages (pages_of slabs)
  pub total : length free_pages + length slabs ≡ n
  pub placed : All (Inside t (pages_of slabs)) o.held
  pub in_use : All (InUse slabs) o.held
  pub distinct : Distinct o.held
  pub all_objs : length o.held + free_total slabs ≡ length slabs * t.count
