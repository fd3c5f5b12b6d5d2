-- ===== src/Core/Kmem/NewSlab.antt =====
-- `grow_cache` on a cache: one slab more, all of whose objects are free.
use kappara.Base.{
  ℕ, suc, ◌-◌, ◌^◌, ◌<◌, ◌≡◌, ◌≢◌, refl, sym, ap, ◌∙◌, subst, List, ◌∷◌, arith, length, Absent,
  write_self, write_ne, ◌≢◌, add64,
}
use kappara.Core.Pmm.Chain.{IsPage, HoldsFree}
use kappara.Core.Kmem.{KmemCache, Kmem, header, link_objs, format_slab}
use kappara.Core.Kmem.Slabs.{Shape, IsFit, Slab, Slabs, slot, OutOf, pages_of, Slabs-frame}
use kappara.Core.Kmem.Grow.{
  slots, length-slots, formatted, formatted-IsSlab, formatted_next, formatted_outside,
}
use kappara.Core.Kmem.Cache.{HasSlabs, IsCache, free_total_le, objs_small, HoldsFree-frame}

abbrev pub fresh : Shape → ℕ → Slab
fresh t s = record { page = s; free = slots t s 0 t.count }

formatted-HasSlabs :
    (t : Shape) (v : KmemCache) (m : ℕ → ℕ) (gs : List Slab) (s : ℕ)
    → IsFit t
    → HasSlabs t v m gs
    → IsPage s
    → Absent s (pages_of gs)
    → suc (length gs) < 2 ^ 50
    → HasSlabs t
        (record v {
          slabs = s;
          total_objs = add64 v.total_objs v.objs_per_slab;
          free_objs = add64 v.free_objs v.objs_per_slab;
        })
        (formatted t s v m)
        (fresh t s ∷ gs)
formatted-HasSlabs t v m gs s f w hp a l =
    let small = objs_small t (suc (length gs)) f (omega (arith, l)) in
    record {
      size = w.size;
      per_slab = w.per_slab;
      slabs = (
        refl,
        formatted-IsSlab t s v m f hp w.per_slab,
        subst (λ z. Slabs t (formatted t s v m) z gs) (sym (formatted_next t s v m))
            (Slabs-frame t m (formatted t s v m) s v.slabs gs f hp a
              (λ b o. formatted_outside t s v m b f o) w.slabs),
      );
      distinct = (a, w.distinct);
      total = omega (arith, w.total, w.per_slab, small);
      free = omega (
        arith,
        w.free,
        w.per_slab,
        length-slots t s 0 t.count,
        small,
        free_total_le t m v.slabs gs w.slabs,
      );
      few = l;
    }

-- `format_slab` reads the geometry from the cache's record.
pub format_slab-IsCache :
    (t : Shape) (k : Kmem) (gs : List Slab) (s : ℕ)
    → IsFit t
    → IsCache t k gs
    → IsPage s
    → Absent s (pages_of gs)
    → suc (length gs) < 2 ^ 50
    → IsCache t (format_slab s t.cache k) (fresh t s ∷ gs)
unfolding format_slab
format_slab-IsCache t k gs s f w hp a l =
    let v = k.caches t.cache in
    let m : (ℕ → ℕ) = header s t.cache v k.pmm.mem in
    subst (λ u. HasSlabs t u (link_objs v.objs_per_slab s v.obj_size m) (fresh t s ∷ gs))
      (sym (write_self k.caches t.cache _))
      (subst
        (λ z.
          HasSlabs t
            (record v {
              slabs = s;
              total_objs = add64 v.total_objs v.objs_per_slab;
              free_objs = add64 v.free_objs v.objs_per_slab;
            })
            z (fresh t s ∷ gs))
        (λ i. link_objs (sym w.per_slab i) s (sym w.size i) m)
        (formatted-HasSlabs t v k.pmm.mem gs s f w hp a l))

pub format_slab_outside :
    (t : Shape) (k : Kmem) (gs : List Slab) (s b : ℕ)
    → IsFit t
    → IsCache t k gs
    → OutOf s b
    → (format_slab s t.cache k).pmm.mem b ≡ k.pmm.mem b
unfolding format_slab
format_slab_outside t k gs s b f w o =
    let v = k.caches t.cache in
    ap (λ (z : ℕ → ℕ). z b)
      (λ i. link_objs (w.per_slab i) s (w.size i) (header s t.cache v k.pmm.mem))
    ∙ formatted_outside t s v k.pmm.mem b f o

-- The first object of a slab that is all free.
pub fresh-first :
    (t : Shape) (s : ℕ)
    → IsFit t
    → fresh t s ≡ record { page = s; free = slot t s 0 ∷ slots t s 1 (t.count - 1) }
fresh-first t s f i = record {
  page = s;
  free = ap (slots t s 0) {x = t.count} {y = suc (t.count - 1)} (omega (arith, f.some_fit)) i;
}

pub format_slab_others :
    (c s : ℕ) (k : Kmem) (d : ℕ) → c ≢ d → (format_slab s c k).caches d ≡ k.caches d
unfolding format_slab
format_slab_others c s k d h = write_ne k.caches c _ d h

pub format_slab-HoldsFree :
    (t : Shape) (k : Kmem) (gs : List Slab) (s : ℕ) (ys : List ℕ)
    → IsFit t
    → IsCache t k gs
    → IsPage s
    → Absent s ys
    → HoldsFree k.pmm ys
    → HoldsFree (format_slab s t.cache k).pmm ys
unfolding format_slab
format_slab-HoldsFree t k gs s ys f w hp a v =
    HoldsFree-frame k.pmm _ s ys hp a (λ b o. format_slab_outside t k gs s b f w o) v
