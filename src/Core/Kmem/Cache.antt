-- ===== src/Core/Kmem/Cache.antt =====
-- A cache as a whole: the list of its slabs, its counters, and the page allocator below it.
use kappara.Base.{
  ℕ, zero, suc, ◌+◌, ◌*◌, ◌^◌, ◌≤◌, ◌<◌, ◌≡◌, refl, sym, ap, ◌∙◌, subst, some, List, [], ◌∷◌, arith,
  length, get_elem?, set, All, Absent, Distinct, write, write_self, add64, sub64,
}
use native.Mathlib.Nat.{mul-le-mul_right}
use mathlib.Core.Option.{some-injective}
use kappara.Core.Pmm.{Pmm}
use kappara.Core.Pmm.Chain.{IsPage, Chain-frame, HoldsFree}
use kappara.Core.Kmem.{KmemCache, Kmem, next_at, take_obj, slab_free}
use kappara.Core.Kmem.Slabs.{
  Shape, IsFit, Slab, Slabs, InSlab, InSlab-bounds, OutOf, OutOf-page, pages_of, pages_of-set,
  Slabs-set, Slabs-get_elem?,
}
use kappara.Core.Kmem.Alloc.{length-free_le, count_small, popped, popped-IsSlab, popped_outside}
use kappara.Core.Kmem.Free.{pushed, pushed-IsSlab, pushed_outside}

abbrev pub free_total : List Slab → ℕ
free_total [] = 0
free_total (g ∷ gs) = length g.free + free_total gs

-- The record of the cache and the memory stand for the slabs `gs`.
pub record HasSlabs (t : Shape) (v : KmemCache) (m : ℕ → ℕ) (gs : List Slab) : Type 0 where
  pub size : v.obj_size ≡ t.size
  pub per_slab : v.objs_per_slab ≡ t.count
  pub slabs : Slabs t m v.slabs gs
  pub distinct : Distinct (pages_of gs)
  pub total : v.total_objs ≡ length gs * t.count
  pub free : v.free_objs ≡ free_total gs
  pub few : length gs < 2 ^ 50

abbrev pub IsCache : Shape → Kmem → List Slab → Type 0
IsCache t k gs = HasSlabs t (k.caches t.cache) k.pmm.mem gs

pub free_total_le :
    (t : Shape) (m : ℕ → ℕ) (h : ℕ) (gs : List Slab)
    → Slabs t m h gs
    → free_total gs ≤ length gs * t.count
free_total_le t m h [] v = omega arith
free_total_le t m h (g ∷ gs) v =
    omega (arith, length-free_le t m g v.1, free_total_le t m (m (next_at g.page)) gs v.2)

pub objs_small : (t : Shape) (n : ℕ) → IsFit t → n ≤ 2 ^ 50 → n * t.count < 2 ^ 63
objs_small t n f h = omega (arith, mul-le-mul_right t.count h, count_small t f)

pub free_total-set :
    (gs : List Slab) (i : ℕ) (g g' : Slab)
    → get_elem? gs i ≡ some g
    → free_total (set gs i g') + length g.free ≡ free_total gs + length g'.free
free_total-set [] i g g' e = cc
free_total-set (x ∷ gs) zero g g' e =
    omega (arith, ap (λ (y : Slab). length y.free) (some-injective x g e))
free_total-set (x ∷ gs) (suc i) g g' e = omega (arith, free_total-set gs i g g' e)

pub length-set {ℓ} : {A : Type ℓ} (xs : List A) (i : ℕ) (v : A) → length (set xs i v) ≡ length xs
length-set [] i v = refl
length-set (x ∷ xs) zero v = refl
length-set (x ∷ xs) (suc i) v = ap suc (length-set xs i v)

-- The free pages are untouched by a change in a page that is none of them.
pages_same :
    (m m' : ℕ → ℕ) (s : ℕ) (xs : List ℕ)
    → IsPage s
    → ((b : ℕ) → OutOf s b → m' b ≡ m b)
    → All IsPage xs
    → Absent s xs
    → All (λ x. m' x ≡ m x) xs
pages_same m m' s [] hp o h a = tt
pages_same m m' s (x ∷ xs) hp o h a = (
  o x (OutOf-page s x x hp h.0 a.0 (omega arith, omega arith)),
  pages_same m m' s xs hp o h.1 a.1,
)

pub HoldsFree-frame :
    (p : Pmm) (m : ℕ → ℕ) (s : ℕ) (xs : List ℕ)
    → IsPage s
    → Absent s xs
    → ((b : ℕ) → OutOf s b → m b ≡ p.mem b)
    → HoldsFree p xs
    → HoldsFree (record p { mem = m }) xs
HoldsFree-frame p m s xs hp a o v = record {
  chain = Chain-frame p.mem m p.freelist xs (pages_same p.mem m s xs hp o v.pages a) v.chain;
  pages = v.pages;
  distinct = v.distinct;
  count = v.count;
  small = v.small;
}

-- The cache after the pop of `take_obj`.
taken-HasSlabs :
    (t : Shape) (v : KmemCache) (m : ℕ → ℕ) (gs : List Slab) (i s p : ℕ) (ps : List ℕ)
    → IsFit t
    → HasSlabs t v m gs
    → get_elem? gs i ≡ some (record { page = s; free = p ∷ ps })
    → HasSlabs t
        (record v { free_objs = sub64 v.free_objs 1 })
        (popped m s)
        (set gs i (record { page = s; free = ps }))
taken-HasSlabs t v m gs i s p ps f w e = record {
  size = w.size;
  per_slab = w.per_slab;
  slabs =
      Slabs-set t m (popped m s) v.slabs gs i old new f w.slabs w.distinct e (popped_outside m s)
        refl (ground arith)
        (popped-IsSlab t m s p ps f (Slabs-get_elem? t m v.slabs gs i old w.slabs e));
  distinct = subst Distinct (sym (pages_of-set gs i old new e refl)) w.distinct;
  total = w.total ∙ ap (λ n. n * t.count) (sym (length-set gs i new));
  free = omega (
    arith,
    w.free,
    free_total-set gs i old new e,
    free_total_le t m v.slabs gs w.slabs,
    objs_small t (length gs) f (omega (arith, w.few)),
  );
  few = omega (arith, w.few, length-set {0} gs i new);
}
  where
    old : Slab
    old = record { page = s; free = p ∷ ps }

    new : Slab
    new = record { page = s; free = ps }

pub take_obj-IsCache :
    (t : Shape) (k : Kmem) (gs : List Slab) (i s p : ℕ) (ps : List ℕ)
    → IsFit t
    → IsCache t k gs
    → get_elem? gs i ≡ some (record { page = s; free = p ∷ ps })
    → IsCache t (take_obj s t.cache k).1 (set gs i (record { page = s; free = ps }))
unfolding take_obj
take_obj-IsCache t k gs i s p ps f w e =
    subst (λ v. HasSlabs t v (popped k.pmm.mem s) (set gs i (record { page = s; free = ps })))
      (sym (write_self k.caches t.cache _))
      (taken-HasSlabs t (k.caches t.cache) k.pmm.mem gs i s p ps f w e)

pub take_obj-some :
    (t : Shape) (k : Kmem) (gs : List Slab) (i s p : ℕ) (ps : List ℕ)
    → IsCache t k gs
    → get_elem? gs i ≡ some (record { page = s; free = p ∷ ps })
    → (take_obj s t.cache k).0 ≡ some p
unfolding take_obj
take_obj-some t k gs i s p ps w e =
    let v = Slabs-get_elem? t k.pmm.mem (k.caches t.cache).slabs gs i _ w.slabs e in
    let head : k.pmm.mem (s + 24) ≡ p = v.chain.0 in ground (arith, head, v.chain.1)

pub take_obj_outside :
    (c s : ℕ) (k : Kmem) (b : ℕ) → OutOf s b → (take_obj s c k).1.pmm.mem b ≡ k.pmm.mem b
unfolding take_obj
take_obj_outside c s k b h = popped_outside k.pmm.mem s b h

-- The cache after `slab_free`.
freed-HasSlabs :
    (t : Shape) (v : KmemCache) (m : ℕ → ℕ) (gs : List Slab) (i s p : ℕ) (xs : List ℕ)
    → IsFit t
    → HasSlabs t v m gs
    → get_elem? gs i ≡ some (record { page = s; free = xs })
    → InSlab t s p
    → Absent p xs
    → HasSlabs t
        (record v { free_objs = add64 v.free_objs 1 })
        (pushed m s p)
        (set gs i (record { page = s; free = p ∷ xs }))
freed-HasSlabs t v m gs i s p xs f w e o a = record {
  size = w.size;
  per_slab = w.per_slab;
  slabs =
      Slabs-set t m (pushed m s p) v.slabs gs i old new f w.slabs w.distinct e
        (λ b h. pushed_outside t m s p b f o h) refl
        (let lo = (InSlab-bounds t s p f o).0 in ground (arith, lo))
        (pushed-IsSlab t m s p xs f (Slabs-get_elem? t m v.slabs gs i old w.slabs e) o a);
  distinct = subst Distinct (sym (pages_of-set gs i old new e refl)) w.distinct;
  total = w.total ∙ ap (λ n. n * t.count) (sym (length-set gs i new));
  free = omega (
    arith,
    w.free,
    free_total-set gs i old new e,
    free_total_le t m v.slabs gs w.slabs,
    objs_small t (length gs) f (omega (arith, w.few)),
  );
  few = omega (arith, w.few, length-set {0} gs i new);
}
  where
    old : Slab
    old = record { page = s; free = xs }

    new : Slab
    new = record { page = s; free = p ∷ xs }

pub slab_free-IsCache :
    (t : Shape) (k : Kmem) (gs : List Slab) (i s p : ℕ) (xs : List ℕ)
    → IsFit t
    → IsCache t k gs
    → get_elem? gs i ≡ some (record { page = s; free = xs })
    → InSlab t s p
    → Absent p xs
    → IsCache t (slab_free s p k) (set gs i (record { page = s; free = p ∷ xs }))
unfolding slab_free
slab_free-IsCache t k gs i s p xs f w e o a =
    let slab = Slabs-get_elem? t k.pmm.mem (k.caches t.cache).slabs gs i _ w.slabs e in
    subst
      (λ c.
        HasSlabs t
          (write k.caches c (record (k.caches c) { free_objs = add64 (k.caches c).free_objs 1 })
            t.cache)
          (pushed k.pmm.mem s p) (set gs i (record { page = s; free = p ∷ xs })))
      (sym (pushed-IsSlab t k.pmm.mem s p xs f slab o a).cache)
      (subst
        (λ v. HasSlabs t v (pushed k.pmm.mem s p) (set gs i (record { page = s; free = p ∷ xs })))
        (sym (write_self k.caches t.cache _))
        (freed-HasSlabs t (k.caches t.cache) k.pmm.mem gs i s p xs f w e o a))

pub slab_free_outside :
    (t : Shape) (s p : ℕ) (k : Kmem) (b : ℕ)
    → IsFit t
    → InSlab t s p
    → OutOf s b
    → (slab_free s p k).pmm.mem b ≡ k.pmm.mem b
unfolding slab_free
slab_free_outside t s p k b f o h = pushed_outside t k.pmm.mem s p b f o h
