-- ===== src/Core/Kmem/Slabs.antt =====
-- The slabs of one cache as a list, and the part of the invariant of kmem.c that stands in memory.
use kappara.Base.{
  ℕ, zero, suc, ◌+◌, ◌*◌, ◌≤◌, ◌<◌, ◌≡◌, ◌≢◌, refl, sym, ap, ◌∙◌, ◌⊎◌, inl, inr, subst, some, List,
  [], ◌∷◌, arith, length, get_elem?, set, All, All-get_elem?, Absent, Distinct,
}
use native.Mathlib.Nat.{mul-le-mul_right}
use mathlib.Core.Option.{some-injective}
use kappara.Core.Pmm.{page_size}
use kappara.Core.Pmm.Chain.{IsPage, Chain, Chain-frame}
use kappara.Core.Pmm.Owners.{InPage}
use kappara.Core.Kmem.{
  slab_magic, slab_header_size, magic_at, free_count_at, next_at, cache_at, freelist_at,
}

-- A cache's number, the size of its objects, and how many a slab holds.
pub record Shape : Type 0 where
  pub cache : ℕ
  pub size : ℕ
  pub count : ℕ

pub record IsFit (t : Shape) : Type 0 where
  pub least : 8 ≤ t.size
  pub fits : t.count * t.size + slab_header_size ≤ page_size
  pub some_fit : 0 < t.count

-- A slab: its page, and its free objects in the order of its list.
pub record Slab : Type 0 where
  pub page : ℕ
  pub free : List ℕ

abbrev pub slot : Shape → ℕ → ℕ → ℕ
slot t s i = s + slab_header_size + i * t.size

-- The address is one of the slab's objects.
abbrev pub InSlab : Shape → ℕ → ℕ → Type 0
InSlab t s p = (i : ℕ) × (i < t.count) × (p ≡ slot t s i)

pub record IsSlab (t : Shape) (m : ℕ → ℕ) (g : Slab) : Type 0 where
  pub at_page : IsPage g.page
  pub magic : m (magic_at g.page) ≡ slab_magic
  pub cache : m (cache_at g.page) ≡ t.cache
  pub count : m (free_count_at g.page) ≡ length g.free
  pub chain : Chain m (m (freelist_at g.page)) g.free
  pub objs : All (InSlab t g.page) g.free
  pub distinct : Distinct g.free

-- The list of slabs that starts at address `h`.
abbrev pub Slabs : Shape → (ℕ → ℕ) → ℕ → List Slab → Type 0
Slabs t m h [] = h ≡ 0
Slabs t m h (g ∷ gs) = (h ≡ g.page) × IsSlab t m g × Slabs t m (m (next_at g.page)) gs

abbrev pub pages_of : List Slab → List ℕ
pages_of [] = []
pages_of (g ∷ gs) = g.page ∷ pages_of gs

abbrev pub OutOf : ℕ → ℕ → Type 0
OutOf s b = (b < s) ⊎ (s + page_size ≤ b)

pub InSlab-bounds :
    (t : Shape) (s p : ℕ)
    → IsFit t
    → InSlab t s p
    → (s + slab_header_size ≤ p) × (p + t.size ≤ s + page_size)
InSlab-bounds t s p f (i, h, e) = (omega (arith, e), omega (arith, e, f.fits, step))
  where
    step : suc i * t.size ≤ t.count * t.size
    step = mul-le-mul_right t.size h

lt-trichotomy : (i j : ℕ) → (i < j) ⊎ (i ≡ j) ⊎ (j < i)
lt-trichotomy i j = ground arith

slots_apart : {i j : ℕ} (k : ℕ) → i < j → i * k + k ≤ j * k
slots_apart k h = omega (arith, mul-le-mul_right k h)

-- Two objects of a slab do not overlap.
pub InSlab-apart :
    (t : Shape) (s p q : ℕ)
    → InSlab t s p
    → InSlab t s q
    → (p ≡ q) ⊎ (p + t.size ≤ q) ⊎ (q + t.size ≤ p)
InSlab-apart t s p q (i, h, e) (j, k, e') = elim (lt-trichotomy i j) [
  | inl l ↦ inr (inl (omega (arith, e, e', slots_apart t.size l)))
  | inr (inl same) ↦ inl (e ∙ ap (slot t s) same ∙ sym e')
  | inr (inr l) ↦ inr (inr (omega (arith, e, e', slots_apart t.size l)))
]

objs_same :
    (t : Shape) (m m' : ℕ → ℕ) (s : ℕ) (xs : List ℕ)
    → IsFit t
    → ((b : ℕ) → InPage s b → m' b ≡ m b)
    → All (InSlab t s) xs
    → All (λ x. m' x ≡ m x) xs
objs_same t m m' s [] f e o = tt
objs_same t m m' s (x ∷ xs) f e o =
    let (lo, hi) = InSlab-bounds t s x f o.0 in
    (e x (omega (arith, lo), omega (arith, hi, f.least)), objs_same t m m' s xs f e o.1)

-- A slab depends only on the words of its page.
pub IsSlab-frame :
    (t : Shape) (m m' : ℕ → ℕ) (g : Slab)
    → IsFit t
    → ((b : ℕ) → InPage g.page b → m' b ≡ m b)
    → IsSlab t m g
    → IsSlab t m' g
IsSlab-frame t m m' g f e v = record {
  at_page = v.at_page;
  magic = e (magic_at g.page) (omega arith) ∙ v.magic;
  cache = e (cache_at g.page) (omega arith) ∙ v.cache;
  count = e (free_count_at g.page) (omega arith) ∙ v.count;
  chain =
      subst (λ h. Chain m' h g.free) (sym (e (freelist_at g.page) (omega arith)))
        (Chain-frame m m' (m (freelist_at g.page)) g.free
          (objs_same t m m' g.page g.free f e v.objs) v.chain);
  objs = v.objs;
  distinct = v.distinct;
}

pub OutOf-page : (p q b : ℕ) → IsPage p → IsPage q → p ≢ q → InPage q b → OutOf p b
OutOf-page p q b hp hq ne k = ground (arith, hp.1, hq.1, ne)

-- Nor do the slabs of a cache on any other page.
pub Slabs-frame :
    (t : Shape) (m m' : ℕ → ℕ) (p h : ℕ) (gs : List Slab)
    → IsFit t
    → IsPage p
    → Absent p (pages_of gs)
    → ((b : ℕ) → OutOf p b → m' b ≡ m b)
    → Slabs t m h gs
    → Slabs t m' h gs
Slabs-frame t m m' p h [] f hp a e v = v
Slabs-frame t m m' p h (g ∷ gs) f hp a e v = (
  v.0,
  IsSlab-frame t m m' g f (λ b k. e b (OutOf-page p g.page b hp v.1.at_page a.0 k)) v.1,
  subst (λ z. Slabs t m' z gs)
      (sym (e (next_at g.page) (OutOf-page p g.page _ hp v.1.at_page a.0 (omega arith))))
      (Slabs-frame t m m' p (m (next_at g.page)) gs f hp a.1 e v.2),
)

pub Slabs-get_elem? :
    (t : Shape) (m : ℕ → ℕ) (h : ℕ) (gs : List Slab) (i : ℕ) (g : Slab)
    → Slabs t m h gs
    → get_elem? gs i ≡ some g
    → IsSlab t m g
Slabs-get_elem? t m h [] i g v e = cc
Slabs-get_elem? t m h (x ∷ gs) zero g v e = subst (IsSlab t m) (some-injective x g e) v.1
Slabs-get_elem? t m h (x ∷ gs) (suc i) g v e = Slabs-get_elem? t m (m (next_at x.page)) gs i g v.2 e

pub pages_of-get_elem? :
    (gs : List Slab) (i : ℕ) (g : Slab)
    → get_elem? gs i ≡ some g
    → get_elem? (pages_of gs) i ≡ some g.page
pages_of-get_elem? [] i g e = cc
pages_of-get_elem? (x ∷ gs) zero g e = ap (λ (y : Slab). some y.page) (some-injective x g e)
pages_of-get_elem? (x ∷ gs) (suc i) g e = pages_of-get_elem? gs i g e

pub pages_of-set :
    (gs : List Slab) (i : ℕ) (g g' : Slab)
    → get_elem? gs i ≡ some g
    → g'.page ≡ g.page
    → pages_of (set gs i g') ≡ pages_of gs
pages_of-set [] i g g' e k = refl
pages_of-set (x ∷ gs) zero g g' e k =
    ap (λ z. z ∷ pages_of gs) (k ∙ ap (λ (y : Slab). y.page) (sym (some-injective x g e)))
pages_of-set (x ∷ gs) (suc i) g g' e k = ap (◌∷◌ x.page) (pages_of-set gs i g g' e k)

-- A change inside one slab's page that keeps its `next` leaves the list with that slab replaced.
pub Slabs-set :
    (t : Shape) (m m' : ℕ → ℕ) (h : ℕ) (gs : List Slab) (i : ℕ) (g g' : Slab)
    → IsFit t
    → Slabs t m h gs
    → Distinct (pages_of gs)
    → get_elem? gs i ≡ some g
    → ((b : ℕ) → OutOf g.page b → m' b ≡ m b)
    → g'.page ≡ g.page
    → m' (next_at g.page) ≡ m (next_at g.page)
    → IsSlab t m' g'
    → Slabs t m' h (set gs i g')
Slabs-set t m m' h [] i g g' f v d e o q n w = cc
Slabs-set t m m' h (x ∷ gs) zero g g' f v d e o q n w =
    let same : x.page ≡ g.page = ap (λ (y : Slab). y.page) (some-injective x g e) in
    (
      v.0 ∙ same ∙ sym q,
      w,
      subst (λ z. Slabs t m' z gs)
          (ap (λ z. m (next_at z)) same ∙ sym n ∙ ap (λ z. m' (next_at z)) (sym q))
          (Slabs-frame t m m' g.page (m (next_at x.page)) gs f (subst IsPage same v.1.at_page)
            (subst (λ z. Absent z (pages_of gs)) same d.0) o v.2),
    )
Slabs-set t m m' h (x ∷ gs) (suc i) g g' f v d e o q n w =
    let ne : g.page ≢ x.page =
      λ z. All-get_elem? _ (pages_of gs) i g.page d.0 (pages_of-get_elem? gs i g e) (sym z) in
    let at : IsPage g.page = (Slabs-get_elem? t m (m (next_at x.page)) gs i g v.2 e).at_page in
    (
      v.0,
      IsSlab-frame t m m' x f (λ b k. o b (OutOf-page g.page x.page b at v.1.at_page ne k)) v.1,
      subst (λ z. Slabs t m' z (set gs i g'))
          (sym (o (next_at x.page) (OutOf-page g.page x.page _ at v.1.at_page ne (omega arith))))
          (Slabs-set t m m' (m (next_at x.page)) gs i g g' f v.2 d.1 e o q n w),
    )
