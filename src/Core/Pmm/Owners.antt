-- ===== src/Core/Pmm/Owners.antt =====
-- The allocator and its clients over time: who owns which page.
use kappara.Base.{
  ℕ, ◌+◌, ◌^◌, ◌≤◌, ◌<◌, ◌≡◌, sym, ap, ◌∙◌, inl, inr, some, List, [], ◌∷◌, arith, length, All,
  Absent, Distinct, Apart, write, subst, get_elem?, erase_idx, All-erase_idx, All-get_elem?,
  Distinct-erase_idx, length-erase_idx, Apart-erase_idx, Apart-get_elem?, Apart-cons,
}
use mathlib.Core.Option.{some-injective}
use kappara.Core.Pmm.{Pmm, page_size, pmm_alloc, pmm_free}
use kappara.Core.Pmm.Chain.{IsPage, HoldsFree, Chain-frame, write-Absent}
use kappara.Core.Pmm.Steps.{pmm_alloc_refines, pmm_free_refines}

-- The allocator with the pages that its clients hold, in no particular order.
pub record Owners : Type 0 where
  pub pmm : Pmm
  pub held : List ℕ

-- The address lies in the page.
abbrev pub InPage : ℕ → ℕ → Type 0
InPage p b = (p ≤ b) × (b < p + page_size)

-- A client takes a page, gives back one that it holds, or writes into one that it holds.
pub data Step : Owners → Owners → Type 0 where
  alloc :
      (o : Owners) (p : ℕ) (t : Pmm)
      → pmm_alloc o.pmm ≡ (some p, t)
      → Step o (record { pmm = t; held = p ∷ o.held })
  free :
      (o : Owners) (i p : ℕ)
      → get_elem? o.held i ≡ some p
      → Step o (record { pmm = pmm_free o.pmm p; held = erase_idx o.held i })
  store :
      (o : Owners) (i p b v : ℕ)
      → get_elem? o.held i ≡ some p
      → InPage p b
      → Step o (record o { pmm = record o.pmm { mem = write o.pmm.mem b v } })

pub data Reach (o : Owners) : Owners → Type 0 where
  here : Reach o o
  next : {t u : Owners} → Reach o t → Step t u → Reach o u

-- The free list is sound, with `n` pages in all, and no page is held twice or held while free.
pub record IsSound (n : ℕ) (o : Owners) : Type 0 where
  pub free_pages : List ℕ
  pub free_list : HoldsFree o.pmm free_pages
  pub pages : All IsPage o.held
  pub distinct : Distinct o.held
  pub apart : Apart free_pages o.held
  pub total : length free_pages + length o.held ≡ n

alloc-IsSound :
    {n : ℕ} {o : Owners} (v : IsSound n o) (p : ℕ) (t : Pmm) (ys : List ℕ)
    → v.free_pages ≡ p ∷ ys
    → HoldsFree t ys
    → IsSound n (record { pmm = t; held = p ∷ o.held })
alloc-IsSound {n} {o} v p t ys e h = record {
  free_pages = ys;
  free_list = h;
  pages = ((subst (All IsPage) e v.free_list.pages).0, v.pages);
  distinct = ((subst (λ xs. Apart xs o.held) e v.apart).0, v.distinct);
  apart =
      Apart-cons p ys o.held (subst Distinct e v.free_list.distinct).0
        (subst (λ xs. Apart xs o.held) e v.apart).1;
  total = omega (arith, ap length e, v.total);
}

InPage-Absent :
    (p b : ℕ) (xs : List ℕ) → InPage p b → IsPage p → All IsPage xs → Absent p xs → Absent b xs
InPage-Absent p b [] k hp hx a = tt
InPage-Absent p b (x ∷ xs) k hp hx a =
    ((λ e. a.0 (omega (arith, e, hp.1, hx.0.1))), InPage-Absent p b xs k hp hx.1 a.1)

pub Step-IsSound : {n : ℕ} {o u : Owners} → n < 2 ^ 52 → Step o u → IsSound n o → IsSound n u
Step-IsSound small (alloc o p t e) v = elim (pmm_alloc_refines o.pmm v.free_pages v.free_list) [
  | inl (_, e') ↦ cc
  | inr (x, ys, t', split, e', done) ↦
      let same = sym e ∙ e' in
      let page : p ≡ x = some-injective p x (ap (λ r. r.0) same) in
      let state : t ≡ t' = ap (λ r. r.1) same in
      alloc-IsSound v p t ys (rw page split) (rw state done.held)
]
Step-IsSound small (free o i p e) v = record {
  free_pages = p ∷ v.free_pages;
  free_list =
      (pmm_free_refines o.pmm p v.free_pages v.free_list (All-get_elem? IsPage o.held i p v.pages e)
        (Apart-get_elem? v.free_pages o.held i p v.apart e)
        (omega (arith, v.total, length-erase_idx o.held i p e))).0;
  pages = All-erase_idx IsPage o.held i v.pages;
  distinct = (Distinct-erase_idx o.held i p v.distinct e).0;
  apart = (
    (Distinct-erase_idx o.held i p v.distinct e).1,
    Apart-erase_idx v.free_pages o.held i v.apart,
  );
  total = omega (arith, v.total, length-erase_idx o.held i p e);
}
Step-IsSound small (store o i p b w e k) v = record {
  free_pages = v.free_pages;
  free_list = record {
    chain =
        Chain-frame o.pmm.mem (write o.pmm.mem b w) o.pmm.freelist v.free_pages
          (write-Absent o.pmm.mem b w v.free_pages (
            InPage-Absent p b v.free_pages k (All-get_elem? IsPage o.held i p v.pages e)
              v.free_list.pages (Apart-get_elem? v.free_pages o.held i p v.apart e)))
          v.free_list.chain;
    pages = v.free_list.pages;
    distinct = v.free_list.distinct;
    count = v.free_list.count;
    small = v.free_list.small;
  };
  pages = v.pages;
  distinct = v.distinct;
  apart = v.apart;
  total = v.total;
}

-- In every history of allocations, of frees of held pages and of writes into held pages, from a
-- sound start with fewer than 2^52 pages: no page is held twice, no held page is on the free list,
-- the list is intact, and the free and the held pages stay `n` in number.
pub Reach-IsSound : {n : ℕ} {o u : Owners} → n < 2 ^ 52 → Reach o u → IsSound n o → IsSound n u
Reach-IsSound small here v = v
Reach-IsSound small (next r st) v = Step-IsSound small st (Reach-IsSound small r v)
