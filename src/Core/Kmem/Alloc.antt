-- ===== src/Core/Kmem/Alloc.antt =====
-- `kmem_cache_alloc` on the slabs of a cache: the search, and the pop from the slab that it finds.
use kappara.Base.{
  ℕ, zero, suc, ◌+◌, ◌≤◌, ◌<◌, ◌≡◌, ◌≢◌, refl, sym, ap, ◌∙◌, ◌⊎◌, inl, inr, subst, some, List, [],
  ◌∷◌, arith, length, get_elem?, All, write, sub32, pigeonhole,
}
use native.Mathlib.Nat.{le-mul_of_pos_right}
use kappara.Core.Pmm.{page_size}
use kappara.Core.Pmm.Chain.{Chain, Chain-frame}
use kappara.Core.Kmem.{
  slab_header_size, free_count_at, next_at, freelist_at, find_slab, count_slabs,
}
use kappara.Core.Kmem.Slabs.{Shape, IsFit, Slab, IsSlab, Slabs, slot, InSlab, InSlab-bounds, OutOf}

-- A slab has at most as many free objects as objects, fewer than 2^32.
pub length-free_le : (t : Shape) (m : ℕ → ℕ) (g : Slab) → IsSlab t m g → length g.free ≤ t.count
length-free_le t m g v = pigeonhole (slot t g.page) t.count g.free v.distinct v.objs

pub count_small : (t : Shape) → IsFit t → t.count ≤ page_size
count_small t f =
    omega (arith, f.fits, le-mul_of_pos_right {m = t.size} t.count (omega (arith, f.least)))

list-cases : (xs : List ℕ) → (xs ≡ []) ⊎ ((p : ℕ) × (ps : List ℕ) × (xs ≡ p ∷ ps))
list-cases [] = inl refl
list-cases (p ∷ ps) = inr (p, ps, refl)

free-cases :
    (g : Slab)
    → (g.free ≡ []) ⊎ ((p : ℕ) × (ps : List ℕ) × (g ≡ record { page = g.page; free = p ∷ ps }))
free-cases g = elim (list-cases g.free) [
  | inl e ↦ inl e
  | inr (p, ps, e) ↦ inr (p, ps, λ i. record { page = g.page; free = e i })
]

-- Where a search finds a slab: the first that has a free object.
pub data Found (t : Shape) (gs : List Slab) (s : ℕ) : Type 0 where
  none_free : s ≡ 0 → All (λ g. g.free ≡ []) gs → Found t gs s
  at_slab :
      (i p : ℕ) (ps : List ℕ)
      → s ≢ 0
      → get_elem? gs i ≡ some (record { page = s; free = p ∷ ps })
      → Found t gs s

find_slab-zero : (f : ℕ) (m : ℕ → ℕ) → find_slab f m 0 ≡ 0
unfolding find_slab
find_slab-zero zero m = refl
find_slab-zero (suc f) m = refl

find_slab-free :
    (f : ℕ) (m : ℕ → ℕ) (s : ℕ) → s ≢ 0 → 0 < m (free_count_at s) → find_slab (suc f) m s ≡ s
unfolding find_slab
find_slab-free f m s h k = ground (arith, h, k)

find_slab-next :
    (f : ℕ) (m : ℕ → ℕ) (s : ℕ)
    → s ≢ 0
    → m (free_count_at s) ≡ 0
    → find_slab (suc f) m s ≡ find_slab f m (m (next_at s))
unfolding find_slab
find_slab-next f m s h k = ground (arith, h, k)

Found-later :
    (t : Shape) (g : Slab) (gs : List Slab) (s : ℕ)
    → g.free ≡ []
    → Found t gs s
    → Found t (g ∷ gs) s
Found-later t g gs s e (none_free z a) = none_free z (e, a)
Found-later t g gs s e (at_slab i p ps n k) = at_slab (suc i) p ps n k

pub find_slab-Found :
    (t : Shape) (m : ℕ → ℕ) (h : ℕ) (gs : List Slab) (f : ℕ)
    → length gs ≤ f
    → Slabs t m h gs
    → Found t gs (find_slab f m h)
find_slab-Found t m h [] f l v = none_free (ap (find_slab f m) v ∙ find_slab-zero f m) tt
find_slab-Found t m h (g ∷ gs) zero l v = absurd (omega (arith, l))
find_slab-Found t m h (g ∷ gs) (suc f) l v =
    let at = v.1.at_page.0 in
    subst (λ z. Found t (g ∷ gs) (find_slab (suc f) m z)) (sym v.0)
      (elim (free-cases g) [
        | inl e ↦
            subst (Found t (g ∷ gs)) (sym (find_slab-next f m g.page at (v.1.count ∙ ap length e)))
              (Found-later t g gs _ e
                (find_slab-Found t m (m (next_at g.page)) gs f (omega (arith, l)) v.2))
        | inr (p, ps, e) ↦
            subst (Found t (g ∷ gs))
              (sym (
                find_slab-free f m g.page at
                  (omega (arith, v.1.count, ap (λ (x : Slab). length x.free) e))))
              (at_slab 0 p ps at (ap some e))
      ])

-- The memory after the pop.
abbrev pub popped : (ℕ → ℕ) → ℕ → ℕ → ℕ
popped m s =
    let m1 = write m (freelist_at s) (m (m (freelist_at s))) in
    write m1 (free_count_at s) (sub32 (m1 (free_count_at s)) 1)

below_header :
    (t : Shape) (m m' : ℕ → ℕ) (s : ℕ) (xs : List ℕ)
    → IsFit t
    → All (InSlab t s) xs
    → ((b : ℕ) → s + slab_header_size ≤ b → m' b ≡ m b)
    → All (λ x. m' x ≡ m x) xs
below_header t m m' s [] f o e = tt
below_header t m m' s (x ∷ xs) f o e =
    (e x (InSlab-bounds t s x f o.0).0, below_header t m m' s xs f o.1 e)

pub popped-IsSlab :
    (t : Shape) (m : ℕ → ℕ) (s p : ℕ) (ps : List ℕ)
    → IsFit t
    → IsSlab t m (record { page = s; free = p ∷ ps })
    → IsSlab t (popped m s) (record { page = s; free = ps })
popped-IsSlab t m s p ps f v = record {
  at_page = v.at_page;
  magic = ground (arith, v.magic);
  cache = ground (arith, v.cache);
  count = ground (arith, v.count, length-free_le t m _ v, count_small t f);
  chain =
      subst (λ h. Chain (popped m s) h ps) (sym (ap m v.chain.0) ∙ ground arith)
        (Chain-frame m (popped m s) (m p) ps
          (below_header t m (popped m s) s ps f v.objs.1 (λ b h. ground (arith, h))) v.chain.2);
  objs = v.objs.1;
  distinct = v.distinct.1;
}

pub popped_outside : (m : ℕ → ℕ) (s b : ℕ) → OutOf s b → popped m s b ≡ m b
popped_outside m s b h = ground (arith, h)

-- `kmem_cache_nslabs` counts the slabs.
pub count_slabs-length :
    (t : Shape) (m : ℕ → ℕ) (h : ℕ) (gs : List Slab) (f : ℕ)
    → length gs ≤ f
    → Slabs t m h gs
    → count_slabs f m h ≡ length gs
unfolding count_slabs
count_slabs-length t m h [] zero l v = refl
count_slabs-length t m h [] (suc f) l v = ground (arith, v)
count_slabs-length t m h (g ∷ gs) zero l v = absurd (omega (arith, l))
count_slabs-length t m h (g ∷ gs) (suc f) l v =
    let rest = count_slabs-length t m (m (next_at g.page)) gs f (omega (arith, l)) v.2 in
    subst (λ z. count_slabs (suc f) m z ≡ suc (length gs)) (sym v.0)
      (ground (arith, v.1.at_page.0, rest))
