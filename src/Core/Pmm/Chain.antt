-- ===== src/Core/Pmm/Chain.antt =====
-- The free list as a list of pages, and the invariant of pmm.c.
use kappara.Base.{
  ℕ, zero, suc, ◌+◌, ◌*◌, ◌%◌, ◌^◌, ◌≤◌, ◌<◌, ◌≡◌, refl, sym, ap, ◌≢◌, ◌∙◌, ◌⊎◌, inl, List, [], ◌∷◌,
  arith, length, All, Absent, Distinct, write, write_ne, subst,
}
use kappara.Core.Pmm.{Pmm, page_size, zero_words, zero_page}

abbrev pub IsPage : ℕ → Type 0
IsPage p = (p ≢ 0) × (p % page_size ≡ 0)

-- The pages that the list at address `h` runs through.
abbrev pub Chain : (ℕ → ℕ) → ℕ → List ℕ → Type 0
Chain m h [] = h ≡ 0
Chain m h (x ∷ xs) = (h ≡ x) × (x ≢ 0) × Chain m (m x) xs

-- The free list holds the pages `xs`, first to last: each is a page, none is there twice, and
-- `free_count` is their number.
pub record HoldsFree (s : Pmm) (xs : List ℕ) : Type 0 where
  pub chain : Chain s.mem s.freelist xs
  pub pages : All IsPage xs
  pub distinct : Distinct xs
  pub count : s.free_count ≡ length xs
  pub small : length xs < 2 ^ 52

-- A chain depends only on the words of its pages.
pub Chain-frame :
    (m m' : ℕ → ℕ) (h : ℕ) (xs : List ℕ) → All (λ x. m' x ≡ m x) xs → Chain m h xs → Chain m' h xs
Chain-frame m m' h [] e c = c
Chain-frame m m' h (x ∷ xs) e c =
    (c.0, c.1, subst (λ z. Chain m' z xs) (sym e.0) (Chain-frame m m' (m x) xs e.1 c.2))

pub write-Absent :
    (m : ℕ → ℕ) (p v : ℕ) (xs : List ℕ) → Absent p xs → All (λ x. write m p v x ≡ m x) xs
write-Absent m p v [] h = tt
write-Absent m p v (x ∷ xs) h = (write_ne m p v x h.0, write-Absent m p v xs h.1)

pub zero_words_outside :
    (n a : ℕ) (m : ℕ → ℕ) (b : ℕ) → (b < a) ⊎ (a + 8 * n ≤ b) → zero_words n a m b ≡ m b
unfolding zero_words
zero_words_outside zero a m b h = refl
zero_words_outside (suc n) a m b h =
    zero_words_outside n (a + 8) (write m a 0) b (omega arith) ∙ write_ne m a 0 b (omega arith)

pub zero_words_inside : (n a : ℕ) (m : ℕ → ℕ) (i : ℕ) → i < n → zero_words n a m (a + 8 * i) ≡ 0
unfolding zero_words
zero_words_inside zero a m i h = absurd (omega arith)
zero_words_inside (suc n) a m zero h =
    zero_words_outside n (a + 8) (write m a 0) (a + 8 * 0) (inl (omega arith)) ∙ ground arith
zero_words_inside (suc n) a m (suc i) h =
    ap (zero_words n (a + 8) (write m a 0)) (omega arith)
    ∙ zero_words_inside n (a + 8) (write m a 0) i (omega arith)

pub zero_page-Absent :
    (m : ℕ → ℕ) (p : ℕ) (xs : List ℕ)
    → IsPage p
    → All IsPage xs
    → Absent p xs
    → All (λ x. zero_page p m x ≡ m x) xs
unfolding zero_page
zero_page-Absent m p [] hp hx h = tt
zero_page-Absent m p (x ∷ xs) hp hx h =
    (zero_words_outside 512 p m x (grind arith), zero_page-Absent m p xs hp hx.1 h.1)
