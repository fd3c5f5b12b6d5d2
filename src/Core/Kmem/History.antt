-- ===== src/Core/Kmem/History.antt =====
-- The invariant of a cache and its clients holds in every history.
use kappara.Base.{
  ℕ, zero, suc, ◌*◌, ◌^◌, ◌<◌, ◌≡◌, refl, sym, ap, subst, some, List, [], ◌∷◌, arith, get_elem?,
  set, erase_idx, All, All-get_elem?, All-erase_idx, Absent, Distinct-erase_idx, length-erase_idx,
  Apart, Apart-get_elem?, write,
}
use mathlib.Core.Option.{some-injective}
use kappara.Core.Pmm.Chain.{IsPage, HoldsFree}
use kappara.Core.Kmem.{Kmem, slab_free, with_mem}
use kappara.Core.Kmem.Slabs.{
  Shape, IsFit, Slab, Slabs, InSlab, InSlab-bounds, OutOf, pages_of, pages_of-set,
  pages_of-get_elem?, Slabs-get_elem?, Slabs-set,
}
use kappara.Core.Kmem.Free.{InObj, stored-IsSlab, stored_outside}
use kappara.Core.Kmem.Cache.{
  free_total-set, length-set, slab_free-IsCache, slab_free_outside, HoldsFree-frame,
}
use kappara.Core.Kmem.Refines.{Outcome, cached, grown, refused, kmem_cache_alloc_refines}
use kappara.Core.Kmem.Held.{Inside, InUse, slab_on, InUse-set, kfree-slab_free}
use kappara.Core.Kmem.Clients.{Clients, Step, alloc, free, store, Reach, here, next, IsSound}
use kappara.Core.Kmem.AllocSound.{cached-IsSound, grown-IsSound}

set_same {ℓ} :
    {A : Type ℓ} (xs : List A) (i : ℕ) (x : A) → get_elem? xs i ≡ some x → set xs i x ≡ xs
set_same [] i x e = refl
set_same (y ∷ xs) zero x e = ap (λ z. z ∷ xs) (sym (some-injective y x e))
set_same (y ∷ xs) (suc i) x e = ap (◌∷◌ y) (set_same xs i x e)

All-both {ℓ κ} :
    {A : Type ℓ} (P Q : A → Type κ) (xs : List A) → All P xs → All Q xs → All (λ x. P x × Q x) xs
All-both P Q [] p q = tt
All-both P Q (x ∷ xs) p q = ((p.0, q.0), All-both P Q xs p.1 q.1)

slab_free-HoldsFree :
    (t : Shape) (k : Kmem) (s p : ℕ) (xs : List ℕ)
    → IsFit t
    → InSlab t s p
    → IsPage s
    → Absent s xs
    → HoldsFree k.pmm xs
    → HoldsFree (slab_free s p k).pmm xs
unfolding slab_free
slab_free-HoldsFree t k s p xs f o hp a v =
    HoldsFree-frame k.pmm _ s xs hp a (λ b h. slab_free_outside t s p k b f o h) v

held_cons :
    (qs xs : List ℕ) (p : ℕ)
    → Absent p qs
    → All (λ q. Absent q xs) qs
    → All (λ q. Absent q (p ∷ xs)) qs
held_cons [] xs p a h = tt
held_cons (q ∷ qs) xs p a h = (((λ e. a.0 (sym e)), h.0), held_cons qs xs p a.1 h.1)

held_away :
    (gs : List Slab) (j : ℕ) (g : Slab) (qs : List ℕ)
    → get_elem? gs j ≡ some g
    → All (InUse gs) qs
    → All (λ q. Absent q g.free) qs
held_away gs j g [] e v = tt
held_away gs j g (q ∷ qs) e v =
    (All-get_elem? (λ (x : Slab). Absent q x.free) gs j g v.0 e, held_away gs j g qs e v.1)

freed-IsSound :
    {t : Shape} {n : ℕ} {o : Clients} (i p j s : ℕ) (xs : List ℕ)
    → IsFit t
    → (v : IsSound t n o) → get_elem? o.held i ≡ some p
    → get_elem? v.slabs j ≡ some (record { page = s; free = xs })
    → InSlab t s p
    → IsSound t n (record { kmem = slab_free s p o.kmem; held = erase_idx o.held i })
freed-IsSound {t} {n} {o} i p j s xs f v e g k =
    let new : Slab = record { page = s; free = p ∷ xs } in
    let pages = pages_of-set v.slabs j _ new g refl in
    let slab =
      Slabs-get_elem? t o.kmem.pmm.mem (o.kmem.caches t.cache).slabs v.slabs j _ v.cache.slabs g in
    let used = All-get_elem? (InUse v.slabs) o.held i p v.in_use e in
    let gone = All-get_elem? (λ (x : Slab). Absent p x.free) v.slabs j _ used g in
    let (distinct, others) = Distinct-erase_idx o.held i p v.distinct e in
    let kept = All-erase_idx (InUse v.slabs) o.held i v.in_use in
    let on = pages_of-get_elem? v.slabs j _ g in
    record {
      slabs = set v.slabs j new;
      free_pages = v.free_pages;
      cache = slab_free-IsCache t o.kmem v.slabs j s p xs f v.cache g k gone;
      pool =
          slab_free-HoldsFree t o.kmem s p v.free_pages f k slab.at_page
            (Apart-get_elem? v.free_pages (pages_of v.slabs) j s v.apart on) v.pool;
      apart = subst (Apart v.free_pages) (sym pages) v.apart;
      total = omega (arith, v.total, length-set {0} v.slabs j new);
      placed =
          subst (λ z. All (Inside t z) (erase_idx o.held i)) (sym pages)
            (All-erase_idx (Inside t (pages_of v.slabs)) o.held i v.placed);
      in_use =
          InUse-set v.slabs j new (erase_idx o.held i)
            (held_cons (erase_idx o.held i) xs p others
              (held_away v.slabs j _ (erase_idx o.held i) g kept))
            kept;
      distinct = distinct;
      all_objs = omega (
        arith,
        v.all_objs,
        free_total-set v.slabs j _ new g,
        ap (λ (z : ℕ). z * t.count) (length-set v.slabs j new),
        length-erase_idx {0} o.held i p e,
      );
    }

stored-IsSound :
    {t : Shape} {n : ℕ} {o : Clients} (p b w j s : ℕ) (xs : List ℕ)
    → IsFit t
    → (v : IsSound t n o) → Absent p xs
    → get_elem? v.slabs j ≡ some (record { page = s; free = xs })
    → InSlab t s p
    → InObj t p b
    → IsSound t n (record o { kmem = with_mem o.kmem (write o.kmem.pmm.mem b w) })
stored-IsSound {t} {n} {o} p b w j s xs f v a g k h =
    let m : (ℕ → ℕ) = o.kmem.pmm.mem in
    let list : ℕ = (o.kmem.caches t.cache).slabs in
    let slab = Slabs-get_elem? t m list v.slabs j _ v.cache.slabs g in
    let on = pages_of-get_elem? v.slabs j _ g in
    let out : ((c : ℕ) → OutOf s c → write m b w c ≡ m c) =
      λ c q. stored_outside t m s p b w c f k h q in
    record {
      slabs = v.slabs;
      free_pages = v.free_pages;
      cache = record {
        size = v.cache.size;
        per_slab = v.cache.per_slab;
        slabs = subst (Slabs t (write m b w) list) (set_same v.slabs j _ g) (
            Slabs-set t m (write m b w) list v.slabs j _ _ f v.cache.slabs v.cache.distinct g out
              refl (let lo = (InSlab-bounds t s p f k).0 in ground (arith, lo, h.0))
              (stored-IsSlab t m s p b w xs f slab k a h));
        distinct = v.cache.distinct;
        total = v.cache.total;
        free = v.cache.free;
        few = v.cache.few;
      };
      pool =
          HoldsFree-frame o.kmem.pmm (write m b w) s v.free_pages slab.at_page
            (Apart-get_elem? v.free_pages (pages_of v.slabs) j s v.apart on) out v.pool;
      apart = v.apart;
      total = v.total;
      placed = v.placed;
      in_use = v.in_use;
      distinct = v.distinct;
      all_objs = v.all_objs;
    }

alloc-IsSound :
    {t : Shape} {n : ℕ} {o : Clients} (p : ℕ) (k : Kmem)
    → IsFit t
    → (v : IsSound t n o) → Outcome t o.kmem v.slabs v.free_pages (some p, k)
    → IsSound t n (record { kmem = k; held = p ∷ o.held })
alloc-IsSound {t} {n} {o} p k f v (cached i s q ps e r w h _) =
    subst (λ z. IsSound t n (record { kmem = k; held = z ∷ o.held })) (sym (some-injective p q r))
      (cached-IsSound k i s q ps f v e w h)
alloc-IsSound {t} {n} {o} p k f v (grown s ys empty e r w h _) =
    subst (λ z. IsSound t n (record { kmem = k; held = z ∷ o.held })) (sym (some-injective p _ r))
      (grown-IsSound k s ys f v empty e w h)
alloc-IsSound p k f v (refused _ _ r) = let no = ap (λ z. z.0) r in cc

pub Step-IsSound :
    {t : Shape} {n : ℕ} {o u : Clients}
    → IsFit t
    → n < 2 ^ 49
    → Step t n o u
    → IsSound t n o
    → IsSound t n u
Step-IsSound {t} {n} f small (alloc o p k e) v = alloc-IsSound p k f v (
    subst (Outcome t o.kmem v.slabs v.free_pages) e (
      kmem_cache_alloc_refines t n o.kmem v.slabs v.free_pages f v.cache v.pool v.apart
        (omega (arith, v.total)) (omega (arith, v.total, small))))
Step-IsSound {t} {n} f small (free o i p e) v =
    let (j, s, at, k) = All-get_elem? (Inside t (pages_of v.slabs)) o.held i p v.placed e in
    let (xs, g) = slab_on v.slabs j s at in
    let slab =
      Slabs-get_elem? t o.kmem.pmm.mem (o.kmem.caches t.cache).slabs v.slabs j _ v.cache.slabs g in
    subst (λ z. IsSound t n (record { kmem = z; held = erase_idx o.held i }))
      (sym (kfree-slab_free t o.kmem s p xs f slab k)) (freed-IsSound i p j s xs f v e g k)
Step-IsSound {t} {n} f small (store o i p b w e h) v =
    let (j, s, at, k) = All-get_elem? (Inside t (pages_of v.slabs)) o.held i p v.placed e in
    let (xs, g) = slab_on v.slabs j s at in
    let used = All-get_elem? (InUse v.slabs) o.held i p v.in_use e in
    stored-IsSound p b w j s xs f v
      (All-get_elem? (λ (x : Slab). Absent p x.free) v.slabs j _ used g) g k h

-- In every history of allocations from a cache, of `kfree` of objects that are held and of writes
-- into objects that are held, from a sound start with fewer than 2^49 pages: no object is held
-- twice or held while free, each lies in its slot of a slab, the slabs' headers and free lists and
-- the free pages are intact, `free_objs`, `total_objs` and each `free_count` are right, every
-- object of a slab is held or free, and the free pages and the slabs stay `n` in number.
pub Clients-IsSound :
    {t : Shape} {n : ℕ} {o u : Clients}
    → IsFit t
    → n < 2 ^ 49
    → Reach t n o u
    → IsSound t n o
    → IsSound t n u
Clients-IsSound f small here v = v
Clients-IsSound f small (next r st) v = Step-IsSound f small st (Clients-IsSound f small r v)
