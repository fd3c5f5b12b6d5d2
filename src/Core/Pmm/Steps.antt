-- ===== src/Core/Pmm/Steps.antt =====
-- What one call of `pmm_alloc` or `pmm_free` does to the free list.
use kappara.Base.{
  ℕ, suc, ◌+◌, ◌*◌, ◌^◌, ◌≤◌, ◌<◌, ◌≡◌, refl, sym, ◌≢◌, ◌⊎◌, inl, inr, none, some, List, [], ◌∷◌,
  arith, length, Absent, write, write_self, write_ne, subst, add64, sub64,
}
use kappara.Core.Pmm.{Pmm, page_size, zero_page, pmm_alloc, pmm_free}
use kappara.Core.Pmm.Chain.{
  IsPage, Chain, HoldsFree, Chain-frame, write-Absent, zero_words_outside, zero_words_inside,
  zero_page-Absent,
}

-- What `pmm_alloc` leaves behind: the page that it returns and the words around it.
pub record Allocated (s : Pmm) (x : ℕ) (xs : List ℕ) (t : Pmm) : Type 0 where
  pub held : HoldsFree t xs
  pub zeroed : (i : ℕ) → i < 512 → t.mem (x + 8 * i) ≡ 0
  pub elsewhere : (b : ℕ) → (b < x) ⊎ (x + page_size ≤ b) → t.mem b ≡ s.mem b

abbrev taken : Pmm → ℕ → Pmm
taken s x = record {
  mem = zero_page x s.mem;
  freelist = s.mem x;
  free_count = sub64 s.free_count 1;
}

abbrev given : Pmm → ℕ → Pmm
given s p = record {
  mem = write s.mem p s.freelist;
  freelist = p;
  free_count = add64 s.free_count 1;
}

pmm_alloc-some : (s : Pmm) (x : ℕ) → s.freelist ≡ x → x ≢ 0 → pmm_alloc s ≡ (some x, taken s x)
unfolding pmm_alloc
pmm_alloc-some s x e h = ground arith

pmm_free-ne-zero : (s : Pmm) (p : ℕ) → p ≢ 0 → pmm_free s p ≡ given s p
unfolding pmm_free
pmm_free-ne-zero s p h = ground arith

taken-Allocated :
    (s : Pmm) (x : ℕ) (ys : List ℕ) → HoldsFree s (x ∷ ys) → Allocated s x ys (taken s x)
unfolding zero_page
taken-Allocated s x ys v = record {
  held = record {
    chain =
        Chain-frame s.mem (zero_page x s.mem) (s.mem x) ys
          (zero_page-Absent s.mem x ys v.pages.0 v.pages.1 v.distinct.0) v.chain.2;
    pages = v.pages.1;
    distinct = v.distinct.1;
    count = omega (arith, v.count, v.small);
    small = omega (arith, v.small);
  };
  zeroed = λ i h. zero_words_inside 512 x s.mem i h;
  elsewhere = λ b h. zero_words_outside 512 x s.mem b h;
}

-- `pmm_alloc` on an empty list returns NULL and changes nothing; on any other it returns the first
-- page of the list, all of its 512 words zero, keeps the rest of the list, and changes no word
-- outside that page.
pub pmm_alloc_refines :
    (s : Pmm) (xs : List ℕ)
    → HoldsFree s xs
    → ((xs ≡ []) × (pmm_alloc s ≡ (none, s)))
      ⊎ ((x : ℕ) × (ys : List ℕ) × (t : Pmm) × (xs ≡ x ∷ ys)
          × (pmm_alloc s ≡ (some x, t))
          × Allocated s x ys t)
pmm_alloc_refines s [] v = inl (refl, unfold pmm_alloc in ground arith)
pmm_alloc_refines s (x ∷ ys) v =
    inr (x, ys, taken s x, refl, pmm_alloc-some s x v.chain.0 v.chain.1, taken-Allocated s x ys v)

given-HoldsFree :
    (s : Pmm) (p : ℕ) (xs : List ℕ)
    → HoldsFree s xs
    → IsPage p
    → Absent p xs
    → suc (length xs) < 2 ^ 52
    → HoldsFree (given s p) (p ∷ xs)
given-HoldsFree s p xs v hp h n = record {
  chain = (
    refl,
    hp.0,
    Chain-frame s.mem (write s.mem p s.freelist) _ xs (write-Absent s.mem p s.freelist xs h)
        (subst (λ z. Chain s.mem z xs) (sym (write_self s.mem p s.freelist)) v.chain),
  );
  pages = (hp, v.pages);
  distinct = (h, v.distinct);
  count = omega (arith, v.count);
  small = n;
}

-- `pmm_free` of a page that is not on the list puts it in front, and writes no word but the page's
-- first.
pub pmm_free_refines :
    (s : Pmm) (p : ℕ) (xs : List ℕ)
    → HoldsFree s xs
    → IsPage p
    → Absent p xs
    → suc (length xs) < 2 ^ 52
    → HoldsFree (pmm_free s p) (p ∷ xs) × ((b : ℕ) → p ≢ b → (pmm_free s p).mem b ≡ s.mem b)
pmm_free_refines s p xs v hp h n =
    subst (λ t. HoldsFree t (p ∷ xs) × ((b : ℕ) → p ≢ b → t.mem b ≡ s.mem b))
      (sym (pmm_free-ne-zero s p hp.0))
      (given-HoldsFree s p xs v hp h n, λ b ne. write_ne s.mem p s.freelist b ne)
