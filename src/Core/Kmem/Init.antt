-- ===== src/Core/Kmem/Init.antt =====
-- `kmem_init`: the eight size caches, empty, over the free pages as they were.
use kappara.Base.{ℕ, zero, suc, ◌≤◌, ◌≡◌, refl, ap, ◌∙◌, arith, []}
use kappara.Core.Kmem.{
  KmemCache, Kmem, cache_size, objs_per_slab_for, kmem_cache_init, init_all, kmem_init,
}
use kappara.Core.Kmem.Slabs.{Shape}
use kappara.Core.Kmem.Cache.{HasSlabs, IsCache}
use kappara.Core.Kmem.Sizes.{bucket}

empty-HasSlabs :
    (t : Shape) (v : KmemCache) (m : ℕ → ℕ)
    → v ≡ record {
      obj_size = t.size;
      objs_per_slab = t.count;
      slabs = 0;
      total_objs = 0;
      free_objs = 0;
    }
    → HasSlabs t v m []
empty-HasSlabs t v m e = record {
  size = λ i. (e i).obj_size;
  per_slab = λ i. (e i).objs_per_slab;
  slabs = λ i. (e i).slabs;
  distinct = tt;
  total = ap (λ (z : KmemCache). z.total_objs) e ∙ omega arith;
  free = λ i. (e i).free_objs;
  few = omega arith;
}

-- After `kmem_init` each of the size caches 1 to 8 is an empty cache of objects of 8 * 2^c bytes,
-- and the free pages are as they were.
pub kmem_init-IsCache :
    (k : Kmem) (c : ℕ)
    → 1 ≤ c
    → c ≤ 8
    → IsCache (bucket c) (kmem_init k) [] × ((kmem_init k).pmm ≡ k.pmm)
unfolding kmem_init kmem_cache_init init_all cache_size objs_per_slab_for
kmem_init-IsCache k zero lo hi = absurd (omega (arith, lo))
kmem_init-IsCache k (suc zero) lo hi = (empty-HasSlabs (bucket 1) _ k.pmm.mem refl, refl)
kmem_init-IsCache k (suc (suc zero)) lo hi = (empty-HasSlabs (bucket 2) _ k.pmm.mem refl, refl)
kmem_init-IsCache k (suc (suc (suc zero))) lo hi =
    (empty-HasSlabs (bucket 3) _ k.pmm.mem refl, refl)
kmem_init-IsCache k (suc (suc (suc (suc zero)))) lo hi =
    (empty-HasSlabs (bucket 4) _ k.pmm.mem refl, refl)
kmem_init-IsCache k (suc (suc (suc (suc (suc zero))))) lo hi =
    (empty-HasSlabs (bucket 5) _ k.pmm.mem refl, refl)
kmem_init-IsCache k (suc (suc (suc (suc (suc (suc zero)))))) lo hi =
    (empty-HasSlabs (bucket 6) _ k.pmm.mem refl, refl)
kmem_init-IsCache k (suc (suc (suc (suc (suc (suc (suc zero))))))) lo hi =
    (empty-HasSlabs (bucket 7) _ k.pmm.mem refl, refl)
kmem_init-IsCache k (suc (suc (suc (suc (suc (suc (suc (suc zero)))))))) lo hi =
    (empty-HasSlabs (bucket 8) _ k.pmm.mem refl, refl)
kmem_init-IsCache k (suc (suc (suc (suc (suc (suc (suc (suc (suc n))))))))) lo hi =
    absurd (omega (arith, hi))
