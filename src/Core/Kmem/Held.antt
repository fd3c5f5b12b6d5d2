-- ===== src/Core/Kmem/Held.antt =====
-- Objects in use: where they lie, and that no free list has them.
use kappara.Base.{
  ℕ, zero, suc, ◌≡◌, ◌≢◌, sym, ap, ◌∙◌, subst, some, List, [], ◌∷◌, arith, get_elem?, set, All,
  All-get_elem?, Absent, Distinct, ◌==◌, not, if_false, if◌then◌else◌, ◌||◌,
}
use mathlib.Core.Option.{some-injective}
use kappara.Core.Pmm.Chain.{IsPage}
use kappara.Core.Kmem.{
  Kmem, slab_magic, magic_at, cache_at, next_at, slab_of, slab_free, kfree, kmem_cache_free,
}
use kappara.Core.Kmem.Slabs.{
  Shape, IsFit, Slab, IsSlab, Slabs, InSlab, InSlab-bounds, pages_of, pages_of-get_elem?,
  Slabs-get_elem?,
}

-- The address is an object on one of the pages.
abbrev pub Inside : Shape → List ℕ → ℕ → Type 0
Inside t ps q = (j : ℕ) × (s : ℕ) × (get_elem? ps j ≡ some s) × InSlab t s q

-- No free list has it.
abbrev pub InUse : List Slab → ℕ → Type 0
InUse gs q = All (λ g. Absent q g.free) gs

pub slab_on :
    (gs : List Slab) (j s : ℕ)
    → get_elem? (pages_of gs) j ≡ some s
    → (xs : List ℕ) × (get_elem? gs j ≡ some (record { page = s; free = xs }))
slab_on [] j s e = cc
slab_on (g ∷ gs) zero s e =
    (g.free, λ i. some (record { page = some-injective g.page s e i; free = g.free }))
slab_on (g ∷ gs) (suc j) s e = slab_on gs j s e

pub page-on :
    (t : Shape) (m : ℕ → ℕ) (h : ℕ) (gs : List Slab) (j s : ℕ)
    → Slabs t m h gs
    → get_elem? (pages_of gs) j ≡ some s
    → IsPage s
page-on t m h gs j s v e =
    let (xs, e') = slab_on gs j s e in (Slabs-get_elem? t m h gs j _ v e').at_page

-- Objects of different pages differ.
pub foreign :
    (t : Shape) (s s' p : ℕ) (xs : List ℕ)
    → IsFit t
    → IsPage s
    → IsPage s'
    → s ≢ s'
    → InSlab t s p
    → All (InSlab t s') xs
    → Absent p xs
foreign t s s' p [] f hp hp' ne o os = tt
foreign t s s' p (x ∷ xs) f hp hp' ne o os =
    let (lo, hi) = InSlab-bounds t s p f o in
    let (lo', hi') = InSlab-bounds t s' x f os.0 in
    (
      (λ e. ne (omega (arith, e, lo, hi, lo', hi', hp.1, hp'.1, f.least))),
      foreign t s s' p xs f hp hp' ne o os.1,
    )

foreign-InUse :
    (t : Shape) (m : ℕ → ℕ) (h : ℕ) (gs : List Slab) (s p : ℕ)
    → IsFit t
    → Slabs t m h gs
    → Absent s (pages_of gs)
    → IsPage s
    → InSlab t s p
    → InUse gs p
foreign-InUse t m h [] s p f v a hp o = tt
foreign-InUse t m h (g ∷ gs) s p f v a hp o = (
  foreign t s g.page p g.free f hp v.1.at_page a.0 o v.1.objs,
  foreign-InUse t m (m (next_at g.page)) gs s p f v.2 a.1 hp o,
)

-- The object that is popped is in no free list any more.
pub popped-InUse :
    (t : Shape) (m : ℕ → ℕ) (h : ℕ) (gs : List Slab) (i s p : ℕ) (ps : List ℕ)
    → IsFit t
    → Slabs t m h gs
    → Distinct (pages_of gs)
    → get_elem? gs i ≡ some (record { page = s; free = p ∷ ps })
    → InUse (set gs i (record { page = s; free = ps })) p
popped-InUse t m h [] i s p ps f v d e = cc
popped-InUse t m h (g ∷ gs) zero s p ps f v d e =
    let w : IsSlab t m (record { page = s; free = p ∷ ps }) =
      subst (IsSlab t m) (some-injective g _ e) v.1 in
    let same : g.page ≡ s = ap (λ (y : Slab). y.page) (some-injective g _ e) in
    (
      w.distinct.0,
      foreign-InUse t m (m (next_at g.page)) gs s p f v.2
          (subst (λ z. Absent z (pages_of gs)) same d.0) w.at_page w.objs.0,
    )
popped-InUse t m h (g ∷ gs) (suc i) s p ps f v d e =
    let w = Slabs-get_elem? t m (m (next_at g.page)) gs i _ v.2 e in
    let ne : s ≢ g.page =
      λ z. All-get_elem? _ (pages_of gs) i s d.0 (pages_of-get_elem? gs i _ e) (sym z) in
    (
      foreign t s g.page p g.free f w.at_page v.1.at_page ne w.objs.0 v.1.objs,
      popped-InUse t m (m (next_at g.page)) gs i s p ps f v.2 d.1 e,
    )

pub InUse-set :
    (gs : List Slab) (i : ℕ) (g : Slab) (qs : List ℕ)
    → All (λ q. Absent q g.free) qs
    → All (InUse gs) qs
    → All (InUse (set gs i g)) qs
InUse-set gs i g [] h v = tt
InUse-set gs i g (q ∷ qs) h v = (All-set gs i g q h.0 v.0, InUse-set gs i g qs h.1 v.1)
  where
    All-set :
        (gs : List Slab) (i : ℕ) (g : Slab) (q : ℕ)
        → Absent q g.free
        → InUse gs q
        → InUse (set gs i g) q
    All-set [] i g q a u = tt
    All-set (x ∷ gs) zero g q a u = (a, u.1)
    All-set (x ∷ gs) (suc i) g q a u = (u.0, All-set gs i g q a u.1)

pub slab_of-InSlab : (t : Shape) (s p : ℕ) → IsFit t → IsPage s → InSlab t s p → slab_of p ≡ s
unfolding slab_of
slab_of-InSlab t s p f hp o =
    let (lo, hi) = InSlab-bounds t s p f o in omega (arith, lo, hi, hp.1, f.least)

-- `kfree` finds the slab of an object from its address.
pub kfree-slab_free :
    (t : Shape) (k : Kmem) (s p : ℕ) (xs : List ℕ)
    → IsFit t
    → IsSlab t k.pmm.mem (record { page = s; free = xs })
    → InSlab t s p
    → kfree p k ≡ slab_free s p k
unfolding kfree
kfree-slab_free t k s p xs f v o =
    let (lo, hi) = InSlab-bounds t s p f o in
    if_false (p == 0) k _ (ground (arith, lo))
    ∙ ap (λ z. if not (k.pmm.mem (magic_at z) == slab_magic) then k else slab_free z p k)
        (slab_of-InSlab t s p f v.at_page o)
    ∙ if_false (not (k.pmm.mem (magic_at s) == slab_magic)) k _ (ground (arith, v.magic))

-- `kmem_cache_free` of an object: to its own cache what `kfree` does, to any other cache nothing.
pub kmem_cache_free_own :
    (t : Shape) (k : Kmem) (c s p : ℕ) (xs : List ℕ)
    → IsFit t
    → IsSlab t k.pmm.mem (record { page = s; free = xs })
    → InSlab t s p
    → kmem_cache_free c p k ≡ (if c == t.cache then kfree p k else k)
unfolding kmem_cache_free
kmem_cache_free_own t k c s p xs f v o =
    let (lo, hi) = InSlab-bounds t s p f o in
    if_false (p == 0) k _ (ground (arith, lo))
    ∙ ap
        (λ z.
          if not (k.pmm.mem (magic_at z) == slab_magic) || not (k.pmm.mem (cache_at z) == c)
          then k
          else slab_free z p k)
        (slab_of-InSlab t s p f v.at_page o)
    ∙ ground (arith, v.magic, v.cache, kfree-slab_free t k s p xs f v o)
