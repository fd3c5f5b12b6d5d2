-- ===== src/Core/Kmem/AllocSound.antt =====
-- The invariant of a cache and its clients after an allocation.
use kappara.Base.{
  ℕ, suc, ◌-◌, ◌*◌, ◌≡◌, ◌≢◌, refl, sym, ap, subst, some, List, [], ◌∷◌, arith, length, get_elem?,
  set, All, All-get_elem?, Absent, Distinct, Apart, Apart-cons,
}
use kappara.Core.Pmm.Chain.{IsPage, HoldsFree}
use kappara.Core.Kmem.{Kmem}
use kappara.Core.Kmem.Slabs.{
  Shape, IsFit, Slab, Slabs, slot, InSlab, pages_of, pages_of-set, pages_of-get_elem?,
  Slabs-get_elem?,
}
use kappara.Core.Kmem.Grow.{slots, slots-InSlab, slots-Distinct, length-slots}
use kappara.Core.Kmem.Cache.{IsCache, free_total-set, length-set}
use kappara.Core.Kmem.Held.{Inside, InUse, page-on, foreign, popped-InUse, InUse-set}
use kappara.Core.Kmem.Clients.{Clients, IsSound}

-- What no free list has is not `p`, if a free list has `p`.
InUse-ne :
    (gs : List Slab) (i s p : ℕ) (ps qs : List ℕ)
    → get_elem? gs i ≡ some (record { page = s; free = p ∷ ps })
    → All (InUse gs) qs
    → Absent p qs × All (λ q. Absent q ps) qs
InUse-ne gs i s p ps [] e v = (tt, tt)
InUse-ne gs i s p ps (q ∷ qs) e v =
    let a = All-get_elem? (λ (g : Slab). Absent q g.free) gs i _ v.0 e in
    let (r, rs) = InUse-ne gs i s p ps qs e v.1 in (((λ z. a.0 (sym z)), r), (a.1, rs))

pub cached-IsSound :
    {t : Shape} {n : ℕ} {o : Clients} (k : Kmem) (i s p : ℕ) (ps : List ℕ)
    → IsFit t
    → (v : IsSound t n o) → get_elem? v.slabs i ≡ some (record { page = s; free = p ∷ ps })
    → IsCache t k (set v.slabs i (record { page = s; free = ps }))
    → HoldsFree k.pmm v.free_pages
    → IsSound t n (record { kmem = k; held = p ∷ o.held })
cached-IsSound {t} {n} {o} k i s p ps f v e w h =
    let pages = pages_of-set v.slabs i _ (record { page = s; free = ps }) e refl in
    let slab =
      Slabs-get_elem? t o.kmem.pmm.mem (o.kmem.caches t.cache).slabs v.slabs i _ v.cache.slabs e in
    let (ne, rest) = InUse-ne v.slabs i s p ps o.held e v.in_use in
    record {
      slabs = set v.slabs i (record { page = s; free = ps });
      free_pages = v.free_pages;
      cache = w;
      pool = h;
      apart = subst (Apart v.free_pages) (sym pages) v.apart;
      total = omega (arith, v.total, length-set {0} v.slabs i (record { page = s; free = ps }));
      placed =
          subst (λ z. All (Inside t z) (p ∷ o.held)) (sym pages)
            ((i, s, pages_of-get_elem? v.slabs i _ e, slab.objs.0), v.placed);
      in_use = (
        popped-InUse t o.kmem.pmm.mem (o.kmem.caches t.cache).slabs v.slabs i s p ps f v.cache.slabs
            v.cache.distinct e,
        InUse-set v.slabs i _ o.held rest v.in_use,
      );
      distinct = (ne, v.distinct);
      all_objs = omega (
        arith,
        v.all_objs,
        free_total-set v.slabs i _ (record { page = s; free = ps }) e,
        ap (λ (z : ℕ). z * t.count) (length-set v.slabs i (record { page = s; free = ps })),
      );
    }

-- An object on another page than the new slab's.
Inside-foreign :
    (t : Shape) (m : ℕ → ℕ) (h : ℕ) (gs : List Slab) (s : ℕ) (xs qs : List ℕ)
    → IsFit t
    → Slabs t m h gs
    → IsPage s
    → Absent s (pages_of gs)
    → All (InSlab t s) xs
    → All (Inside t (pages_of gs)) qs
    → All (λ q. Absent q xs) qs
Inside-foreign t m h gs s xs [] f v hp a os i = tt
Inside-foreign t m h gs s xs (q ∷ qs) f v hp a os ((j, s', e, o), i) = (
  foreign t s' s q xs f (page-on t m h gs j s' v e) hp
      (λ z. All-get_elem? (λ y. s ≢ y) (pages_of gs) j s' a e (sym z)) o os,
  Inside-foreign t m h gs s xs qs f v hp a os i,
)

Inside-later :
    (t : Shape) (s : ℕ) (ps qs : List ℕ) → All (Inside t ps) qs → All (Inside t (s ∷ ps)) qs
Inside-later t s ps [] i = tt
Inside-later t s ps (q ∷ qs) ((j, s', e, o), i) = ((suc j, s', e, o), Inside-later t s ps qs i)

Absent-heads :
    (p : ℕ) (ps qs : List ℕ)
    → All (λ q. Absent q (p ∷ ps)) qs
    → Absent p qs × All (λ q. Absent q ps) qs
Absent-heads p ps [] h = (tt, tt)
Absent-heads p ps (q ∷ qs) h =
    let (r, rs) = Absent-heads p ps qs h.1 in (((λ e. h.0.0 (sym e)), r), (h.0.1, rs))

InUse-cons :
    (g : Slab) (gs : List Slab) (qs : List ℕ)
    → All (λ q. Absent q g.free) qs
    → All (InUse gs) qs
    → All (InUse (g ∷ gs)) qs
InUse-cons g gs [] h v = tt
InUse-cons g gs (q ∷ qs) h v = ((h.0, v.0), InUse-cons g gs qs h.1 v.1)

empty-InUse : (gs : List Slab) (p : ℕ) → All (λ g. g.free ≡ []) gs → InUse gs p
empty-InUse [] p e = tt
empty-InUse (g ∷ gs) p e = (subst (Absent p) (sym e.0) tt, empty-InUse gs p e.1)

pub grown-IsSound :
    {t : Shape} {n : ℕ} {o : Clients} (k : Kmem) (s : ℕ) (ys : List ℕ)
    → IsFit t
    → (v : IsSound t n o) → All (λ g. g.free ≡ []) v.slabs
    → v.free_pages ≡ s ∷ ys
    → IsCache t k (record { page = s; free = slots t s 1 (t.count - 1) } ∷ v.slabs)
    → HoldsFree k.pmm ys
    → IsSound t n (record { kmem = k; held = slot t s 0 ∷ o.held })
grown-IsSound {t} {n} {o} k s ys f v empty e w h =
    let hp = (subst (All IsPage) e v.pool.pages).0 in
    let away = subst (λ z. Apart z (pages_of v.slabs)) e v.apart in
    let rest : List ℕ = slots t s 1 (t.count - 1) in
    let objs = (slots-InSlab t s 1 (t.count - 1) (omega (arith, f.some_fit))) in
    let first : InSlab t s (slot t s 0) = (0, f.some_fit, refl) in
    let others =
      Inside-foreign t o.kmem.pmm.mem (o.kmem.caches t.cache).slabs v.slabs s (slot t s 0 ∷ rest)
        o.held f v.cache.slabs hp away.0 (first, objs) v.placed in
    let (ne, held) = Absent-heads (slot t s 0) rest o.held others in
    record {
      slabs = record { page = s; free = rest } ∷ v.slabs;
      free_pages = ys;
      cache = w;
      pool = h;
      apart = Apart-cons s ys (pages_of v.slabs) (subst Distinct e v.pool.distinct).0 away.1;
      total = omega (arith, v.total, ap length e);
      placed = ((0, s, refl, first), Inside-later t s (pages_of v.slabs) o.held v.placed);
      in_use = (
        ((slots-Distinct t s 0 (suc (t.count - 1)) f).0, empty-InUse v.slabs _ empty),
        InUse-cons (record { page = s; free = rest }) v.slabs o.held held v.in_use,
      );
      distinct = (ne, v.distinct);
      all_objs = omega (arith, v.all_objs, length-slots t s 1 (t.count - 1), f.some_fit);
    }
