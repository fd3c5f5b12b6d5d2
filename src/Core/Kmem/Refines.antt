-- ===== src/Core/Kmem/Refines.antt =====
-- What one call of `kmem_cache_alloc` does to a cache and to the free pages.
use kappara.Base.{
  ℕ, suc, ◌-◌, ◌^◌, ◌≤◌, ◌<◌, ◌≡◌, ◌≢◌, refl, sym, ap, ◌∙◌, inl, inr, subst, Option, none, some,
  List, [], ◌∷◌, arith, length, get_elem?, set, All, Absent, Distinct, Apart, Apart-get_elem?, ◌==◌,
  if_true, if_false, write_ne,
}
use kappara.Core.Pmm.{Pmm, pmm_alloc}
use kappara.Core.Pmm.Chain.{IsPage, HoldsFree}
use kappara.Core.Pmm.Steps.{Allocated, pmm_alloc_refines}
use kappara.Core.Kmem.{
  Kmem, format_slab, on_page, from_new, grow_cache, find_slab, take_obj, kmem_cache_alloc,
}
use kappara.Core.Kmem.Slabs.{
  Shape, IsFit, Slab, slot, OutOf, pages_of, pages_of-get_elem?, Slabs-frame, Slabs-get_elem?,
}
use kappara.Core.Kmem.Grow.{slots}
use kappara.Core.Kmem.Alloc.{none_free, at_slab, find_slab-Found}
use kappara.Core.Kmem.Cache.{
  IsCache, HoldsFree-frame, take_obj-IsCache, take_obj-some, take_obj_outside,
}
use kappara.Core.Kmem.NewSlab.{
  fresh-first, format_slab-IsCache, format_slab_outside, format_slab_others, format_slab-HoldsFree,
}

alloc_cached :
    (f c : ℕ) (k : Kmem)
    → find_slab f k.pmm.mem (k.caches c).slabs ≢ 0
    → kmem_cache_alloc f c k ≡ take_obj (find_slab f k.pmm.mem (k.caches c).slabs) c k
unfolding kmem_cache_alloc
alloc_cached f c k h =
    if_false (find_slab f k.pmm.mem (k.caches c).slabs == 0) _ _ (ground (arith, h))

alloc_new :
    (f c : ℕ) (k : Kmem)
    → find_slab f k.pmm.mem (k.caches c).slabs ≡ 0
    → kmem_cache_alloc f c k ≡ from_new c (on_page c k (pmm_alloc k.pmm))
unfolding kmem_cache_alloc grow_cache
alloc_new f c k h = if_true (find_slab f k.pmm.mem (k.caches c).slabs == 0) _ _ (ground (arith, h))

-- Nothing changes outside the page `s`, and no other cache's record.
abbrev pub Elsewhere : Shape → ℕ → Kmem → Kmem → Type 0
Elsewhere t s k l =
    ((b : ℕ) → OutOf s b → l.pmm.mem b ≡ k.pmm.mem b)
    × ((c : ℕ) → t.cache ≢ c → l.caches c ≡ k.caches c)

-- The outcomes of an allocation: an object from a slab of the cache, the first object of a new
-- slab, or NULL.
pub data Outcome (t : Shape) (k : Kmem) (gs : List Slab) (xs : List ℕ) (r : Option ℕ × Kmem)
    : Type 0 where
  cached :
      (i s p : ℕ) (ps : List ℕ)
      → get_elem? gs i ≡ some (record { page = s; free = p ∷ ps })
      → r.0 ≡ some p
      → IsCache t r.1 (set gs i (record { page = s; free = ps }))
      → HoldsFree r.1.pmm xs
      → Elsewhere t s k r.1
      → Outcome t k gs xs r
  grown :
      (s : ℕ) (ys : List ℕ)
      → All (λ g. g.free ≡ []) gs
      → xs ≡ s ∷ ys
      → r.0 ≡ some (slot t s 0)
      → IsCache t r.1 (record { page = s; free = slots t s 1 (t.count - 1) } ∷ gs)
      → HoldsFree r.1.pmm ys
      → Elsewhere t s k r.1
      → Outcome t k gs xs r
  refused : All (λ g. g.free ≡ []) gs → xs ≡ [] → r ≡ (none, k) → Outcome t k gs xs r

take_obj_others : (c s : ℕ) (k : Kmem) (d : ℕ) → c ≢ d → (take_obj s c k).1.caches d ≡ k.caches d
unfolding take_obj
take_obj_others c s k d h = write_ne k.caches c _ d h

take_obj-HoldsFree :
    (c s : ℕ) (k : Kmem) (xs : List ℕ)
    → IsPage s
    → Absent s xs
    → HoldsFree k.pmm xs
    → HoldsFree (take_obj s c k).1.pmm xs
unfolding take_obj
take_obj-HoldsFree c s k xs hp a v =
    HoldsFree-frame k.pmm _ s xs hp a (λ b o. take_obj_outside c s k b o) v

cached-Outcome :
    (t : Shape) (k : Kmem) (gs : List Slab) (xs : List ℕ) (i s p : ℕ) (ps : List ℕ)
    → IsFit t
    → IsCache t k gs
    → HoldsFree k.pmm xs
    → Apart xs (pages_of gs)
    → get_elem? gs i ≡ some (record { page = s; free = p ∷ ps })
    → Outcome t k gs xs (take_obj s t.cache k)
cached-Outcome t k gs xs i s p ps f w v a e =
    let hp = (Slabs-get_elem? t k.pmm.mem (k.caches t.cache).slabs gs i _ w.slabs e).at_page in
    cached i s p ps e (take_obj-some t k gs i s p ps w e) (take_obj-IsCache t k gs i s p ps f w e)
      (take_obj-HoldsFree t.cache s k xs hp
        (Apart-get_elem? xs (pages_of gs) i s a (pages_of-get_elem? gs i _ e)) v)
      (take_obj_outside t.cache s k, take_obj_others t.cache s k)

-- The allocator after `pmm_alloc` still holds the cache.
paged-IsCache :
    (t : Shape) (k : Kmem) (gs : List Slab) (s : ℕ) (ys : List ℕ) (p : Pmm)
    → IsFit t
    → IsCache t k gs
    → IsPage s
    → Absent s (pages_of gs)
    → Allocated k.pmm s ys p
    → IsCache t (record k { pmm = p }) gs
paged-IsCache t k gs s ys p f w hp a d = record {
  size = w.size;
  per_slab = w.per_slab;
  slabs =
      Slabs-frame t k.pmm.mem p.mem s (k.caches t.cache).slabs gs f hp a (λ b o. d.elsewhere b o)
        w.slabs;
  distinct = w.distinct;
  total = w.total;
  free = w.free;
  few = w.few;
}

grown-Outcome :
    (t : Shape) (k : Kmem) (gs : List Slab) (xs : List ℕ) (s : ℕ) (ys : List ℕ) (p : Pmm)
    → IsFit t
    → IsCache t k gs
    → HoldsFree k.pmm xs
    → Apart xs (pages_of gs)
    → suc (length gs) < 2 ^ 50
    → All (λ g. g.free ≡ []) gs
    → xs ≡ s ∷ ys
    → Allocated k.pmm s ys p
    → Outcome t k gs xs (take_obj s t.cache (format_slab s t.cache (record k { pmm = p })))
grown-Outcome t k gs xs s ys p f w v a l empty e d =
    grown s ys empty e (take_obj-some t k2 (first ∷ gs) 0 s (slot t s 0) rest w2 refl)
      (take_obj-IsCache t k2 (first ∷ gs) 0 s (slot t s 0) rest f w2 refl)
      (take_obj-HoldsFree t.cache s k2 ys hp gone
        (format_slab-HoldsFree t k1 gs s ys f w1 hp gone d.held))
      (
        (λ b o.
            take_obj_outside t.cache s k2 b o
            ∙ format_slab_outside t k1 gs s b f w1 o
            ∙ d.elsewhere b o),
        (λ c n. take_obj_others t.cache s k2 c n ∙ format_slab_others t.cache s k1 c n),
      )
  where
    k1 : Kmem
    k1 = record k { pmm = p }

    k2 : Kmem
    k2 = format_slab s t.cache k1

    rest : List ℕ
    rest = slots t s 1 (t.count - 1)

    first : Slab
    first = record { page = s; free = slot t s 0 ∷ rest }

    hp : IsPage s
    hp = (subst (All IsPage) e v.pages).0

    gone : Absent s ys
    gone = (subst Distinct e v.distinct).0

    apart : Absent s (pages_of gs)
    apart = (subst (λ zs. Apart zs (pages_of gs)) e a).0

    w1 : IsCache t k1 gs
    w1 = paged-IsCache t k gs s ys p f w hp apart d

    w2 : IsCache t k2 (first ∷ gs)
    w2 =
        subst (λ g. IsCache t k2 (g ∷ gs)) (fresh-first t s f)
          (format_slab-IsCache t k1 gs s f w1 hp apart l)

-- `kmem_cache_alloc`, whose walk has a round for each slab, pops the first free object of a slab of
-- the cache; if all its objects are in use it takes the first free page, makes it a slab and
-- returns its first object; and it returns NULL, with nothing changed, exactly if there is no free
-- page either. No word outside the page of that object changes, and no other cache's record.
pub kmem_cache_alloc_refines :
    (t : Shape) (f : ℕ) (k : Kmem) (gs : List Slab) (xs : List ℕ)
    → IsFit t
    → IsCache t k gs
    → HoldsFree k.pmm xs
    → Apart xs (pages_of gs)
    → length gs ≤ f
    → suc (length gs) < 2 ^ 50
    → Outcome t k gs xs (kmem_cache_alloc f t.cache k)
unfolding from_new on_page
kmem_cache_alloc_refines t f k gs xs fit w v a enough l =
    elim (find_slab-Found t k.pmm.mem (k.caches t.cache).slabs gs f enough w.slabs) [
      | none_free z empty ↦
          subst (Outcome t k gs xs) (sym (alloc_new f t.cache k z))
            (elim (pmm_alloc_refines k.pmm xs v) [
              | inl (e, r) ↦ refused empty e (ap (λ q. from_new t.cache (on_page t.cache k q)) r)
              | inr (s, ys, p, e, r, d) ↦
                  subst (λ q. Outcome t k gs xs (from_new t.cache (on_page t.cache k q))) (sym r)
                    (grown-Outcome t k gs xs s ys p fit w v a l empty e d)
            ])
      | at_slab i p ps n e ↦
          subst (Outcome t k gs xs) (sym (alloc_cached f t.cache k n))
            (cached-Outcome t k gs xs i _ p ps fit w v a e)
    ]
