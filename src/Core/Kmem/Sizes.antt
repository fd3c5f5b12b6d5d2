-- ===== src/Core/Kmem/Sizes.antt =====
-- `kmem_cache_init` and the size caches: the geometry of a cache, and what `kmalloc` picks.
use kappara.Base.{
  ℕ, ◌*◌, ◌%◌, ◌^◌, ◌≤◌, ◌<◌, ◌≡◌, ◌≢◌, refl, sym, ap, ◌∙◌, ◌⊎◌, inl, inr, subst, some, List, [],
  arith, length, if_false, ◌==◌, write_self, write_ne, Apart,
}
use native.Mathlib.Nat.{div-mul-le_self, le-div_iff_mul-le}
use kappara.Core.Pmm.Chain.{HoldsFree}
use kappara.Core.Kmem.{
  Kmem, objs_per_slab_for, cache_size, kmem_cache_init, size_caches, cache_for, kmem_cache_alloc,
  from_class, kmalloc,
}
use kappara.Core.Kmem.Slabs.{Shape, IsFit, Slab, pages_of}
use kappara.Core.Kmem.Cache.{HasSlabs, IsCache}
use kappara.Core.Kmem.Refines.{Outcome, kmem_cache_alloc_refines}

-- What `kmem_cache_init` makes of an object size.
abbrev pub shape_of : ℕ → ℕ → Shape
shape_of c size = record {
  cache = c;
  size = cache_size size;
  count = objs_per_slab_for (cache_size size);
}

cache_size_bounds :
    (size : ℕ)
    → size ≤ 4064
    → (size ≤ cache_size size)
      × (8 ≤ cache_size size)
      × (cache_size size ≤ 4064)
      × (cache_size size % 8 ≡ 0)
unfolding cache_size
cache_size_bounds size h = ground (arith, h)

objs_fit : (n : ℕ) → 8 ≤ n → n ≤ 4064 → (objs_per_slab_for n * n ≤ 4064) × (0 < objs_per_slab_for n)
unfolding objs_per_slab_for
objs_fit n h l = (
  div-mul-le_self 4064 n,
  (le-div_iff_mul-le {k = n} {x = 1} {y = 4064} (omega (arith, h))).1 (omega (arith, l)),
)

pub shape_of-IsFit : (c size : ℕ) → size ≤ 4064 → IsFit (shape_of c size)
shape_of-IsFit c size h =
    let (_, lo, hi, _) = cache_size_bounds size h in
    let (fits, some_fit) = objs_fit (cache_size size) lo hi in
    record { least = lo; fits = omega (arith, fits); some_fit = some_fit }

-- `kmem_cache_init` makes an empty cache. For a size of at most 4064 bytes its objects are at least
-- that large and a multiple of 8 bytes, at least one fits into a slab, and all of a slab's objects
-- fit behind its header; memory, the free pages and every other cache stay as they are.
pub kmem_cache_init-IsCache :
    (c size : ℕ) (k : Kmem)
    → size ≤ 4064
    → IsCache (shape_of c size) (kmem_cache_init c size k) []
      × IsFit (shape_of c size)
      × (size ≤ (shape_of c size).size)
      × ((shape_of c size).size % 8 ≡ 0)
      × ((kmem_cache_init c size k).pmm ≡ k.pmm)
      × ((d : ℕ) → c ≢ d → (kmem_cache_init c size k).caches d ≡ k.caches d)
unfolding kmem_cache_init
kmem_cache_init-IsCache c size k h =
    let (wide, _, _, aligned) = cache_size_bounds size h in
    (
      subst (λ v. HasSlabs (shape_of c size) v k.pmm.mem []) (sym (write_self k.caches c _))
          (record {
            size = refl;
            per_slab = refl;
            slabs = refl;
            distinct = tt;
            total = omega arith;
            free = refl;
            few = omega arith;
          }),
      shape_of-IsFit c size h,
      wide,
      aligned,
      refl,
      λ d n. write_ne k.caches c _ d n,
    )

-- The size cache number `c`.
abbrev pub bucket : ℕ → Shape
bucket c = shape_of c (8 * 2 ^ c)

-- The class that a size falls into: the smallest that is large enough.
abbrev IsClass : ℕ → ℕ → Type 0
IsClass size c =
    (1 ≤ c)
    × (c ≤ 8)
    × (cache_for size size_caches ≡ some c)
    × (size ≤ 8 * 2 ^ c)
    × ((c ≡ 1) ⊎ (8 * 2 ^ c < 2 * size))
    × (8 * 2 ^ c ≤ 2048)

le_or_lt : (a b : ℕ) → (a ≤ b) ⊎ (b < a)
le_or_lt a b = ground arith

larger : (size : ℕ) → 64 < size → size ≤ 2048 → (c : ℕ) × IsClass size c
unfolding cache_for
larger size low h = elim (le_or_lt size 128) [
  | inl a ↦
      (4, (omega arith, omega arith, ground arith, omega arith, inr (omega arith), omega arith))
  | inr a ↦ elim (le_or_lt size 256) [
    | inl b ↦
        (5, (omega arith, omega arith, ground arith, omega arith, inr (omega arith), omega arith))
    | inr b ↦ elim (le_or_lt size 512) [
      | inl d ↦
          (6, (omega arith, omega arith, ground arith, omega arith, inr (omega arith), omega arith))
      | inr d ↦ elim (le_or_lt size 1024) [
        | inl e ↦ (
          7,
          (omega arith, omega arith, ground arith, omega arith, inr (omega arith), omega arith),
        )
        | inr e ↦ (
          8,
          (omega arith, omega arith, ground arith, omega arith, inr (omega arith), omega arith),
        )
      ]
    ]
  ]
]

smallest_fit : (size : ℕ) → size ≤ 2048 → (c : ℕ) × IsClass size c
unfolding cache_for
smallest_fit size h = elim (le_or_lt size 16) [
  | inl a ↦ (1, (omega arith, omega arith, ground arith, omega arith, inl refl, omega arith))
  | inr a ↦ elim (le_or_lt size 32) [
    | inl b ↦
        (2, (omega arith, omega arith, ground arith, omega arith, inr (omega arith), omega arith))
    | inr b ↦ elim (le_or_lt size 64) [
      | inl d ↦
          (3, (omega arith, omega arith, ground arith, omega arith, inr (omega arith), omega arith))
      | inr d ↦ larger size d h
    ]
  ]
]

kmalloc_class :
    (f size c : ℕ) (k : Kmem)
    → 0 < size
    → cache_for size size_caches ≡ some c
    → kmalloc f size k ≡ kmem_cache_alloc f c k
unfolding kmalloc from_class
kmalloc_class f size c k h e = if_false (size == 0) _ _ (ground (arith, h)) ∙ ap (from_class f k) e

cache_size_self : (x : ℕ) → 1 ≤ x → cache_size (8 * x) ≡ 8 * x
unfolding cache_size
cache_size_self x h = ground (arith, h)

-- `kmalloc` of 1 to 2048 bytes is an allocation from the size cache whose objects are large enough
-- and, unless it is the cache of 16 bytes, less than twice the size.
pub kmalloc_refines :
    (f size : ℕ) (k : Kmem) (slabs : ℕ → List Slab) (xs : List ℕ)
    → 0 < size
    → size ≤ 2048
    → ((c : ℕ) → 1 ≤ c → c ≤ 8 → IsCache (bucket c) k (slabs c))
    → HoldsFree k.pmm xs
    → ((c : ℕ) → 1 ≤ c → c ≤ 8 → Apart xs (pages_of (slabs c)))
    → ((c : ℕ) → 1 ≤ c → c ≤ 8 → length (slabs c) ≤ f)
    → f < 2 ^ 49
    → (c : ℕ) × (size ≤ (bucket c).size)
      × ((c ≡ 1) ⊎ ((bucket c).size < 2 * size))
      × Outcome (bucket c) k (slabs c) xs (kmalloc f size k)
kmalloc_refines f size k slabs xs pos h caches v apart few small =
    let (c, (lo, hi, e, fits, tight, least)) = smallest_fit size h in
    let exact : cache_size (8 * 2 ^ c) ≡ 8 * 2 ^ c =
      cache_size_self (2 ^ c) (omega (arith, fits, pos)) in
    (
      c,
      subst (λ n. size ≤ n) (sym exact) fits,
      subst (λ n. (c ≡ 1) ⊎ (n < 2 * size)) (sym exact) tight,
      subst (Outcome (bucket c) k (slabs c) xs) (sym (kmalloc_class f size c k pos e)) (
          kmem_cache_alloc_refines (bucket c) f k (slabs c) xs
            (shape_of-IsFit c (8 * 2 ^ c) (omega (arith, least))) (caches c lo hi) v (apart c lo hi)
            (few c lo hi) (omega (arith, few c lo hi, small))),
    )
