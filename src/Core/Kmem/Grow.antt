-- ===== src/Core/Kmem/Grow.antt =====
-- `grow_cache`: the page that it formats, and the free list that it builds there.
use kappara.Base.{
  ℕ, zero, suc, ◌+◌, ◌*◌, ◌≤◌, ◌<◌, ◌≡◌, ◌≢◌, refl, sym, ap, ◌∙◌, subst, List, [], ◌∷◌, arith,
  length, All, Absent, Distinct, write, write_ne, write_self,
}
use kappara.Core.Pmm.Chain.{IsPage, Chain, Chain-frame}
use kappara.Core.Kmem.{
  KmemCache, slab_header_size, header, link_objs, magic_at, free_count_at, next_at, cache_at,
  freelist_at,
}
use kappara.Core.Kmem.Slabs.{Shape, IsFit, IsSlab, slot, InSlab, InSlab-bounds, OutOf}

-- `k` objects of a slab from the `i`-th on.
abbrev pub slots : Shape → ℕ → ℕ → ℕ → List ℕ
slots t s i zero = []
slots t s i (suc k) = slot t s i ∷ slots t s (suc i) k

pub length-slots : (t : Shape) (s i k : ℕ) → length (slots t s i k) ≡ k
length-slots t s i zero = refl
length-slots t s i (suc k) = ap suc (length-slots t s (suc i) k)

slot_lt : (t : Shape) (s i : ℕ) → IsFit t → slot t s i < slot t s (suc i)
slot_lt t s i f = omega (arith, f.least)

slots_from : (t : Shape) (s i k p : ℕ) → IsFit t → p ≤ slot t s i → All (λ x. p ≤ x) (slots t s i k)
slots_from t s i zero p f h = tt
slots_from t s i (suc k) p f h =
    (h, slots_from t s (suc i) k p f (omega (arith, h, slot_lt t s i f)))

le-Absent : (p : ℕ) (xs : List ℕ) → All (λ x. suc p ≤ x) xs → Absent p xs
le-Absent p [] h = tt
le-Absent p (x ∷ xs) h = ((λ e. omega (arith, e, h.0)), le-Absent p xs h.1)

pub slots-Distinct : (t : Shape) (s i k : ℕ) → IsFit t → Distinct (slots t s i k)
slots-Distinct t s i zero f = tt
slots-Distinct t s i (suc k) f = (
  le-Absent (slot t s i) (slots t s (suc i) k)
      (slots_from t s (suc i) k (suc (slot t s i)) f (omega (arith, slot_lt t s i f))),
  slots-Distinct t s (suc i) k f,
)

pub slots-InSlab : (t : Shape) (s i k : ℕ) → i + k ≤ t.count → All (InSlab t s) (slots t s i k)
slots-InSlab t s i zero h = tt
slots-InSlab t s i (suc k) h =
    ((i, omega (arith, h), refl), slots-InSlab t s (suc i) k (omega (arith, h)))

-- The loop writes objects and the head of the free list, nothing else of the header.
link-header :
    (i s size : ℕ) (m : ℕ → ℕ) (b : ℕ)
    → b < s + slab_header_size
    → b ≢ freelist_at s
    → link_objs i s size m b ≡ m b
unfolding link_objs
link-header zero s size m b h ne = refl
link-header (suc i) s size m b h ne =
    let obj : ℕ = s + slab_header_size + i * size in
    let m1 : (ℕ → ℕ) = write m obj (m (freelist_at s)) in
    link-header i s size (write m1 (freelist_at s) obj) b h ne
    ∙ write_ne m1 (freelist_at s) obj b (λ e. ne (sym e))
    ∙ write_ne m obj (m (freelist_at s)) b (λ e. omega (arith, e, h))

-- Nor anything outside the page.
link_outside :
    (t : Shape) (i s : ℕ) (m : ℕ → ℕ) (b : ℕ)
    → IsFit t
    → i ≤ t.count
    → OutOf s b
    → link_objs i s t.size m b ≡ m b
unfolding link_objs
link_outside t zero s m b f l o = refl
link_outside t (suc i) s m b f l o =
    let m1 : (ℕ → ℕ) = write m (slot t s i) (m (freelist_at s)) in
    let (lo, hi) = InSlab-bounds t s (slot t s i) f (i, l, refl) in
    link_outside t i s (write m1 (freelist_at s) (slot t s i)) b f (omega (arith, l)) o
    ∙ write_ne m1 (freelist_at s) (slot t s i) b (λ e. omega (arith, e, o))
    ∙ write_ne m (slot t s i) (m (freelist_at s)) b (λ e. omega (arith, e, o, lo, hi, f.least))

write-above :
    (m : ℕ → ℕ) (a v : ℕ) (xs : List ℕ)
    → All (λ x. suc a ≤ x) xs
    → All (λ x. write m a v x ≡ m x) xs
write-above m a v [] h = tt
write-above m a v (x ∷ xs) h =
    (write_ne m a v x (λ e. omega (arith, e, h.0)), write-above m a v xs h.1)

-- One round puts object `i` in front of the list.
link-step :
    (t : Shape) (i s k : ℕ) (m : ℕ → ℕ)
    → IsFit t
    → Chain m (m (freelist_at s)) (slots t s (suc i) k)
    → Chain
        (write (write m (slot t s i) (m (freelist_at s))) (freelist_at s) (slot t s i))
        (write
          (write m (slot t s i) (m (freelist_at s)))
          (freelist_at s)
          (slot t s i)
          (freelist_at s))
        (slots t s i (suc k))
link-step t i s k m f v = (
  write_self m1 (freelist_at s) (slot t s i),
  (λ e. omega (arith, e)),
  subst (λ z. Chain m2 z rest) (sym at_obj)
      (Chain-frame m1 m2 (m (freelist_at s)) rest
        (write-above m1 (freelist_at s) (slot t s i) rest
          (slots_from t s (suc i) k (suc (freelist_at s)) f (omega arith)))
        (Chain-frame m m1 (m (freelist_at s)) rest
          (write-above m (slot t s i) (m (freelist_at s)) rest
            (slots_from t s (suc i) k (suc (slot t s i)) f (omega (arith, slot_lt t s i f))))
          v)),
)
  where
    rest : List ℕ
    rest = slots t s (suc i) k

    m1 : ℕ → ℕ
    m1 = write m (slot t s i) (m (freelist_at s))

    m2 : ℕ → ℕ
    m2 = write m1 (freelist_at s) (slot t s i)

    at_obj : m2 (slot t s i) ≡ m (freelist_at s)
    at_obj =
        write_ne m1 (freelist_at s) (slot t s i) (slot t s i) (λ e. omega (arith, e))
        ∙ write_self m (slot t s i) (m (freelist_at s))

link-Chain :
    (t : Shape) (i k j s : ℕ) (m : ℕ → ℕ)
    → IsFit t
    → j ≡ i + k
    → Chain m (m (freelist_at s)) (slots t s i k)
    → Chain (link_objs i s t.size m) (link_objs i s t.size m (freelist_at s)) (slots t s 0 j)
unfolding link_objs
link-Chain t zero k j s m f e v =
    subst (λ z. Chain m (m (freelist_at s)) (slots t s 0 z)) {x = k} {y = j} (omega (arith, e)) v
link-Chain t (suc i) k j s m f e v =
    link-Chain t i (suc k) j s
      (write (write m (slot t s i) (m (freelist_at s))) (freelist_at s) (slot t s i)) f
      (omega (arith, e)) (link-step t i s k m f v)

abbrev pub formatted : Shape → ℕ → KmemCache → (ℕ → ℕ) → ℕ → ℕ
formatted t s v m = link_objs t.count s t.size (header s t.cache v m)

-- The page that `grow_cache` formats is a slab all of whose objects are free, first to last.
pub formatted-IsSlab :
    (t : Shape) (s : ℕ) (v : KmemCache) (m : ℕ → ℕ)
    → IsFit t
    → IsPage s
    → v.objs_per_slab ≡ t.count
    → IsSlab t (formatted t s v m) (record { page = s; free = slots t s 0 t.count })
formatted-IsSlab t s v m f hp e = record {
  at_page = hp;
  magic = kept (magic_at s) (omega arith) (λ z. omega (arith, z)) ∙ ground arith;
  cache = kept (cache_at s) (omega arith) (λ z. omega (arith, z)) ∙ ground arith;
  count =
      kept (free_count_at s) (omega arith) (λ z. omega (arith, z))
      ∙ ground arith
      ∙ e
      ∙ sym (length-slots t s 0 t.count);
  chain = link-Chain t t.count 0 t.count s (header s t.cache v m) f (omega arith) (ground arith);
  objs = slots-InSlab t s 0 t.count (omega arith);
  distinct = slots-Distinct t s 0 t.count f;
}
  where
    kept :
        (b : ℕ)
        → b < s + slab_header_size
        → b ≢ freelist_at s
        → formatted t s v m b ≡ header s t.cache v m b
    kept b h ne = link-header t.count s t.size (header s t.cache v m) b h ne

pub formatted_next :
    (t : Shape) (s : ℕ) (v : KmemCache) (m : ℕ → ℕ) → formatted t s v m (next_at s) ≡ v.slabs
formatted_next t s v m =
    link-header t.count s t.size (header s t.cache v m) (next_at s) (omega arith)
      (λ z. omega (arith, z))
    ∙ ground arith

pub formatted_outside :
    (t : Shape) (s : ℕ) (v : KmemCache) (m : ℕ → ℕ) (b : ℕ)
    → IsFit t
    → OutOf s b
    → formatted t s v m b ≡ m b
formatted_outside t s v m b f o =
    link_outside t t.count s (header s t.cache v m) b f (omega arith) o ∙ ground (arith, o)
