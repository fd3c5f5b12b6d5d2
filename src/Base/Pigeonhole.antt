-- ===== src/Base/Pigeonhole.antt =====
-- How long a list of distinct numbers can be.
use Prim.Native.Nat.{ℕ, zero, suc, ◌≤◌, ◌<◌}
use mathlib.Core.Path.{◌≡◌, refl, ap, sym, ◌∙◌}
use mathlib.Core.Logic.{◌⊎◌, inl, inr}
use mathlib.Core.List.{List, [], ◌∷◌}
use mathlib.Core.Option.{some}
use native.Mathlib.Omega.{arith}
use kappara.Base.Tests.{◌==◌, Bool-cases}
use kappara.Base.Lists.{All, length, get_elem?}
use kappara.Base.Repeats.{Absent, Distinct, erase_idx, All-erase_idx, Distinct-erase_idx}

pub length-erase_idx {ℓ} :
    {A : Type ℓ} (xs : List A) (i : ℕ) (x : A)
    → get_elem? xs i ≡ some x
    → suc (length (erase_idx xs i)) ≡ length xs
length-erase_idx [] i x e = cc
length-erase_idx (y ∷ xs) zero x e = refl
length-erase_idx (y ∷ xs) (suc i) x e = ap suc (length-erase_idx xs i x e)

pub Absent-or_at : (x : ℕ) (xs : List ℕ) → Absent x xs ⊎ ((i : ℕ) × (get_elem? xs i ≡ some x))
Absent-or_at x [] = inl tt
Absent-or_at x (y ∷ xs) = elim (Bool-cases (y == x)) [
  | inl same ↦ inr (0, ap some {x = y} {y = x} (ground (arith, same)))
  | inr other ↦ elim (Absent-or_at x xs) [
    | inl a ↦ inl ((λ e. ground (arith, e, other)), a)
    | inr (i, e) ↦ inr (suc i, e)
  ]
]

-- Every entry is one of the first `n` values of `f`.
abbrev pub Among : (ℕ → ℕ) → ℕ → List ℕ → Type 0
Among f n = All (λ x. (i : ℕ) × (i < n) × (x ≡ f i))

Among-narrow :
    (f : ℕ → ℕ) (n : ℕ) (xs : List ℕ) → Absent (f n) xs → Among f (suc n) xs → Among f n xs
Among-narrow f n [] a h = tt
Among-narrow f n (x ∷ xs) a ((i, l, e), h) =
    ((i, ground (arith, l, λ (q : i ≡ n). a.0 (sym (e ∙ ap f q))), e), Among-narrow f n xs a.1 h)

pub pigeonhole : (f : ℕ → ℕ) (n : ℕ) (xs : List ℕ) → Distinct xs → Among f n xs → length xs ≤ n
pigeonhole f zero [] d h = omega arith
pigeonhole f zero (x ∷ xs) d ((i, l, e), h) = absurd (omega (arith, l))
pigeonhole f (suc n) xs d h = elim (Absent-or_at (f n) xs) [
  | inl a ↦ omega (arith, pigeonhole f n xs d (Among-narrow f n xs a h))
  | inr (k, e) ↦
      let (rest, gone) = Distinct-erase_idx xs k (f n) d e in
      let few =
        pigeonhole f n (erase_idx xs k) rest
          (Among-narrow f n (erase_idx xs k) gone (All-erase_idx _ xs k h)) in
      omega (arith, few, length-erase_idx {0} xs k (f n) e)
]
