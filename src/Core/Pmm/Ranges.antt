-- ===== src/Core/Pmm/Ranges.antt =====
-- `pmm_add_range`: which pages it enrols, and in which order they come back.
use kappara.Base.{
  ℕ, zero, suc, ◌+◌, ◌-◌, ◌*◌, ◌/◌, ◌%◌, ◌^◌, ◌≤◌, ◌<◌, ◌≡◌, refl, ap, ◌∙◌, ◌⊎◌, List, [], ◌∷◌,
  ◌++◌, arith, length, All, Absent, subst, leb, Bool-cases, inl, inr, leb→le,
}
use kappara.Core.Pmm.{Pmm, page_size, align_dn, align_up, pmm_free, free_down, pmm_add_range}
use kappara.Core.Pmm.Chain.{HoldsFree}
use kappara.Core.Pmm.Steps.{pmm_free_refines}

-- The `n` pages from `start` on, lowest first.
abbrev pub pages_from : ℕ → ℕ → List ℕ
pages_from start zero = []
pages_from start (suc n) = start ∷ pages_from (start + page_size) n

pages_from-last :
    (start n : ℕ) (xs : List ℕ)
    → pages_from start n ++ (start + n * page_size) ∷ xs ≡ pages_from start (suc n) ++ xs
pages_from-last start zero xs = ap (λ z. z ∷ xs) (omega arith)
pages_from-last start (suc n) xs = ap (◌∷◌ start) (
    ap (λ z. pages_from (start + page_size) n ++ z ∷ xs) (omega arith)
    ∙ pages_from-last (start + page_size) n xs)

-- No page of the range is on the list already.
abbrev pub Outside : ℕ → ℕ → List ℕ → Type 0
Outside start end = All (λ x. (x < start) ⊎ (end ≤ x))

Outside-Absent :
    (start end p : ℕ) (xs : List ℕ) → Outside start end xs → start ≤ p → p < end → Absent p xs
Outside-Absent start end p [] h lo hi = tt
Outside-Absent start end p (x ∷ xs) h lo hi =
    ((λ e. omega (arith, h.0)), Outside-Absent start end p xs h.1 lo hi)

Outside-mono :
    (start end end' : ℕ) (xs : List ℕ) → end' ≤ end → Outside start end xs → Outside start end' xs
Outside-mono start end end' [] h o = tt
Outside-mono start end end' (x ∷ xs) h o =
    (omega (arith, o.0), Outside-mono start end end' xs h o.1)

free_down-next :
    (f start pa : ℕ) (s : Pmm)
    → start < pa
    → free_down (suc f) start pa s
      ≡ free_down f start (pa - page_size) (pmm_free s (pa - page_size))
unfolding free_down
free_down-next f start pa s h = ground arith

free_down-done : (f start pa : ℕ) (s : Pmm) → pa ≤ start → free_down f start pa s ≡ s
unfolding free_down
free_down-done zero start pa s h = refl
free_down-done (suc f) start pa s h = ground arith

-- The loop frees the `n` pages from `start` to `end`, if its fuel allows.
free_down-HoldsFree :
    (f n start end : ℕ) (s : Pmm) (xs : List ℕ)
    → end ≡ start + n * page_size
    → n ≤ f
    → 0 < start
    → start % page_size ≡ 0
    → HoldsFree s xs
    → Outside start end xs
    → n + length xs < 2 ^ 52
    → HoldsFree (free_down f start end s) (pages_from start n ++ xs)
free_down-HoldsFree f zero start end s xs e hf hs ha v o l =
    rw (free_down-done f start end s (omega arith)) v
free_down-HoldsFree zero (suc n) start end s xs e hf hs ha v o l = absurd (omega arith)
free_down-HoldsFree (suc f) (suc n) start end s xs e hf hs ha v o l =
    rw (free_down-next f start end s (omega arith)) (
      subst (HoldsFree (free_down f start p (pmm_free s p)))
        (ap (λ z. pages_from start n ++ z ∷ xs) at_end ∙ pages_from-last start n xs)
        (free_down-HoldsFree f n start p (pmm_free s p) (p ∷ xs) at_end (omega arith) hs ha freed
          (inr (omega arith), Outside-mono start end p xs (omega (arith, at_end)) o) (omega arith)))
  where
    p : ℕ
    p = end - page_size

    at_end : p ≡ start + n * page_size
    at_end = omega (arith, e)

    freed : HoldsFree (pmm_free s p) (p ∷ xs)
    freed =
        (pmm_free_refines s p xs v ((λ z. omega (arith, at_end)), omega (arith, at_end))
          (Outside-Absent start end p xs o (omega arith) (omega arith)) (omega arith)).0

-- The whole pages of [start, end): the first begins at `lo`, and there are `n` of them.
pub record WholePages (start end lo n : ℕ) : Type 0 where
  pub aligned : lo % page_size ≡ 0
  pub from : start ≤ lo
  pub first : lo < start + page_size
  pub within : (n ≡ 0) ⊎ (lo + n * page_size ≤ end)
  pub no_more : end < lo + suc n * page_size

Outside-narrow :
    (start end lo hi : ℕ) (xs : List ℕ)
    → start ≤ lo
    → hi ≤ end
    → Outside start end xs
    → Outside lo hi xs
Outside-narrow start end lo hi [] h k o = tt
Outside-narrow start end lo hi (x ∷ xs) h k o =
    (omega (arith, o.0), Outside-narrow start end lo hi xs h k o.1)

module _ (start end : ℕ) (ht : start + page_size < 2 ^ 64) where
  align_up-none : align_dn end ≤ align_up start → WholePages start end (align_up start) 0
  unfolding align_up align_dn
  align_up-none h = record {
    aligned = omega arith;
    from = omega arith;
    first = omega arith;
    within = inl refl;
    no_more = omega arith;
  }

  align_up-some :
      align_up start < align_dn end
      → WholePages start end (align_up start) ((align_dn end - align_up start) / page_size)
  unfolding align_up align_dn
  align_up-some h = record {
    aligned = omega arith;
    from = omega arith;
    first = omega arith;
    within = inr (omega arith);
    no_more = omega arith;
  }

  align_dn-pages :
      align_up start < align_dn end
      → (align_dn end ≡ align_up start + (align_dn end - align_up start) / page_size * page_size)
        × ((align_dn end - align_up start) / page_size ≤ end / page_size)
        × (align_dn end ≤ end)
  unfolding align_up align_dn
  align_dn-pages h = (omega arith, omega arith, omega arith)

-- `pmm_add_range` puts exactly the whole pages of [start, end), in ascending order, in front of the
-- free list, for a range above address 0 that does not end at the top of the address space and
-- holds no page of the list.
pub pmm_add_range_refines :
    (s : Pmm) (start end : ℕ) (xs : List ℕ)
    → HoldsFree s xs
    → 0 < start
    → start + page_size < 2 ^ 64
    → end / page_size + length xs < 2 ^ 52
    → Outside start end xs
    → (lo n : ℕ) × WholePages start end lo n
      × HoldsFree (pmm_add_range s start end) (pages_from lo n ++ xs)
unfolding pmm_add_range
pmm_add_range_refines s start end xs v hs ht l o = elim (Bool-cases (leb hi lo)) [
  | inl empty ↦ (lo, 0, align_up-none start end ht (leb→le hi lo empty), rw empty v)
  | inr full ↦
      let h : lo < hi = ground arith in
      let pages = align_up-some start end ht h in
      let (whole, few, inside) = align_dn-pages start end ht h in
      (
        lo,
        (hi - lo) / page_size,
        pages,
        rw full (
            free_down-HoldsFree (end / page_size) ((hi - lo) / page_size) lo hi s xs whole few
              (omega (arith, pages.from)) pages.aligned v
              (Outside-narrow start end lo hi xs pages.from inside o) (omega (arith, few))),
      )
]
  where
    lo : ℕ
    lo = align_up start

    hi : ℕ
    hi = align_dn end
