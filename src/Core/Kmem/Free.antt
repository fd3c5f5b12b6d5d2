-- ===== src/Core/Kmem/Free.antt =====
-- `slab_free` on one slab, and a client's write into an object that it holds.
use kappara.Base.{
  ℕ, ◌+◌, ◌≤◌, ◌<◌, ◌≡◌, inl, inr, subst, List, [], ◌∷◌, arith, All, Absent, write, write_ne, add32,
  pigeonhole,
}
use kappara.Core.Pmm.Chain.{Chain, Chain-frame}
use kappara.Core.Kmem.{free_count_at, freelist_at}
use kappara.Core.Kmem.Slabs.{Shape, IsFit, IsSlab, slot, InSlab, InSlab-bounds, InSlab-apart, OutOf}
use kappara.Core.Kmem.Alloc.{count_small}

-- The memory after the push.
abbrev pub pushed : (ℕ → ℕ) → ℕ → ℕ → ℕ → ℕ
pushed m s p =
    let m2 = write (write m p (m (freelist_at s))) (freelist_at s) p in
    write m2 (free_count_at s) (add32 (m2 (free_count_at s)) 1)

pushed_same :
    (t : Shape) (m : ℕ → ℕ) (s p : ℕ) (xs : List ℕ)
    → IsFit t
    → All (InSlab t s) xs
    → Absent p xs
    → All (λ x. pushed m s p x ≡ m x) xs
pushed_same t m s p [] f o a = tt
pushed_same t m s p (x ∷ xs) f o a =
    let lo = (InSlab-bounds t s x f o.0).0 in
    (ground (arith, lo, a.0), pushed_same t m s p xs f o.1 a.1)

pub pushed-IsSlab :
    (t : Shape) (m : ℕ → ℕ) (s p : ℕ) (xs : List ℕ)
    → IsFit t
    → IsSlab t m (record { page = s; free = xs })
    → InSlab t s p
    → Absent p xs
    → IsSlab t (pushed m s p) (record { page = s; free = p ∷ xs })
pushed-IsSlab t m s p xs f v o a =
    let lo = (InSlab-bounds t s p f o).0 in
    let few = pigeonhole (slot t s) t.count (p ∷ xs) (a, v.distinct) (o, v.objs) in
    record {
      at_page = v.at_page;
      magic = ground (arith, v.magic, lo);
      cache = ground (arith, v.cache, lo);
      count = ground (arith, v.count, lo, few, count_small t f);
      chain = (
        ground (arith, lo),
        (λ e. omega (arith, e, lo)),
        subst (λ h. Chain (pushed m s p) h xs) {x = m (freelist_at s)} {y = pushed m s p p}
            (ground (arith, lo))
            (Chain-frame m (pushed m s p) (m (freelist_at s)) xs (pushed_same t m s p xs f v.objs a)
              v.chain),
      );
      objs = (o, v.objs);
      distinct = (a, v.distinct);
    }

pub pushed_outside :
    (t : Shape) (m : ℕ → ℕ) (s p b : ℕ) → IsFit t → InSlab t s p → OutOf s b → pushed m s p b ≡ m b
pushed_outside t m s p b f o h =
    let (lo, hi) = InSlab-bounds t s p f o in ground (arith, h, lo, hi, f.least)

-- An address inside an object.
abbrev pub InObj : Shape → ℕ → ℕ → Type 0
InObj t p b = (p ≤ b) × (b < p + t.size)

stored_same :
    (t : Shape) (m : ℕ → ℕ) (s p b w : ℕ) (xs : List ℕ)
    → IsFit t
    → InSlab t s p
    → InObj t p b
    → All (InSlab t s) xs
    → Absent p xs
    → All (λ x. write m b w x ≡ m x) xs
stored_same t m s p b w [] f o k os a = tt
stored_same t m s p b w (x ∷ xs) f o k os a = (
  write_ne m b w x (elim (InSlab-apart t s p x o os.0) [
    | inl e ↦ absurd (a.0 e)
    | inr (inl l) ↦ (λ e. omega (arith, e, l, k.1))
    | inr (inr l) ↦ (λ e. omega (arith, e, l, k.0, f.least))
  ]),
  stored_same t m s p b w xs f o k os.1 a.1,
)

pub stored-IsSlab :
    (t : Shape) (m : ℕ → ℕ) (s p b w : ℕ) (xs : List ℕ)
    → IsFit t
    → IsSlab t m (record { page = s; free = xs })
    → InSlab t s p
    → Absent p xs
    → InObj t p b
    → IsSlab t (write m b w) (record { page = s; free = xs })
stored-IsSlab t m s p b w xs f v o a k =
    let lo = (InSlab-bounds t s p f o).0 in
    record {
      at_page = v.at_page;
      magic = ground (arith, v.magic, lo, k.0);
      cache = ground (arith, v.cache, lo, k.0);
      count = ground (arith, v.count, lo, k.0);
      chain =
          subst (λ h. Chain (write m b w) h xs) {x = m (freelist_at s)}
            {y = write m b w (freelist_at s)} (ground (arith, lo, k.0))
            (Chain-frame m (write m b w) (m (freelist_at s)) xs
              (stored_same t m s p b w xs f o k v.objs a) v.chain);
      objs = v.objs;
      distinct = v.distinct;
    }

pub stored_outside :
    (t : Shape) (m : ℕ → ℕ) (s p b w c : ℕ)
    → IsFit t
    → InSlab t s p
    → InObj t p b
    → OutOf s c
    → write m b w c ≡ m c
stored_outside t m s p b w c f o k h =
    let (lo, hi) = InSlab-bounds t s p f o in ground (arith, h, lo, hi, k.0, k.1)
