-- ===== src/Base/Repeats.antt =====
-- Lists of numbers with no entry twice.
use Prim.Native.Nat.{ℕ, zero, suc}
use mathlib.Core.Path.{◌≡◌, sym, subst}
use mathlib.Core.Logic.{◌≢◌}
use mathlib.Core.List.{List, [], ◌∷◌}
use mathlib.Core.Option.{some, some-injective}
use kappara.Base.Lists.{All, get_elem?}

abbrev pub Absent : ℕ → List ℕ → Type 0
Absent x = All (λ y. x ≢ y)

abbrev pub Distinct : List ℕ → Type 0
Distinct [] = Unit {0}
Distinct (x ∷ xs) = Absent x xs × Distinct xs

-- No entry of the one is an entry of the other.
abbrev pub Apart : List ℕ → List ℕ → Type 0
Apart xs ys = All (λ x. Absent x ys) xs

pub Absent-sym : (x : ℕ) (ys : List ℕ) → Absent x ys → All (λ y. y ≢ x) ys
Absent-sym x [] h = tt
Absent-sym x (y ∷ ys) h = ((λ e. h.0 (sym e)), Absent-sym x ys h.1)

pub Apart-cons : (x : ℕ) (xs ys : List ℕ) → Absent x xs → Apart xs ys → Apart xs (x ∷ ys)
Apart-cons x [] ys h a = tt
Apart-cons x (z ∷ xs) ys h a = (((λ e. h.0 (sym e)), a.0), Apart-cons x xs ys h.1 a.1)

pub Apart-tail : (y : ℕ) (xs ys : List ℕ) → Apart xs (y ∷ ys) → Apart xs ys
Apart-tail y [] ys h = tt
Apart-tail y (x ∷ xs) ys h = (h.0.1, Apart-tail y xs ys h.1)

pub Apart-head : (y : ℕ) (xs ys : List ℕ) → Apart xs (y ∷ ys) → Absent y xs
Apart-head y [] ys h = tt
Apart-head y (x ∷ xs) ys h = ((λ e. h.0.0 (sym e)), Apart-head y xs ys h.1)

-- The list without its `i`-th entry.
abbrev pub erase_idx {ℓ} : {A : Type ℓ} → List A → ℕ → List A
erase_idx [] i = []
erase_idx (x ∷ xs) zero = xs
erase_idx (x ∷ xs) (suc i) = x ∷ erase_idx xs i

pub All-erase_idx {ℓ κ} :
    {A : Type ℓ} (P : A → Type κ) (xs : List A) (i : ℕ) → All P xs → All P (erase_idx xs i)
All-erase_idx P [] i h = h
All-erase_idx P (x ∷ xs) zero h = h.1
All-erase_idx P (x ∷ xs) (suc i) h = (h.0, All-erase_idx P xs i h.1)

pub All-get_elem? {ℓ κ} :
    {A : Type ℓ} (P : A → Type κ) (xs : List A) (i : ℕ) (x : A)
    → All P xs
    → get_elem? xs i ≡ some x
    → P x
All-get_elem? P [] i x h e = cc
All-get_elem? P (y ∷ xs) zero x h e = subst P (some-injective y x e) h.0
All-get_elem? P (y ∷ xs) (suc i) x h e = All-get_elem? P xs i x h.1 e

pub Distinct-erase_idx :
    (xs : List ℕ) (i x : ℕ)
    → Distinct xs
    → get_elem? xs i ≡ some x
    → Distinct (erase_idx xs i) × Absent x (erase_idx xs i)
Distinct-erase_idx [] i x d e = cc
Distinct-erase_idx (y ∷ xs) zero x d e = (d.1, subst (λ z. Absent z xs) (some-injective y x e) d.0)
Distinct-erase_idx (y ∷ xs) (suc i) x d e =
    let (rest, gone) = Distinct-erase_idx xs i x d.1 e in
    (
      (All-erase_idx (λ z. y ≢ z) xs i d.0, rest),
      ((λ q. All-get_elem? (λ z. y ≢ z) xs i x d.0 e (sym q)), gone),
    )

pub Apart-erase_idx : (xs ys : List ℕ) (i : ℕ) → Apart xs ys → Apart xs (erase_idx ys i)
Apart-erase_idx [] ys i h = tt
Apart-erase_idx (x ∷ xs) ys i h = (All-erase_idx (λ z. x ≢ z) ys i h.0, Apart-erase_idx xs ys i h.1)

pub Apart-get_elem? :
    (xs ys : List ℕ) (i y : ℕ) → Apart xs ys → get_elem? ys i ≡ some y → Absent y xs
Apart-get_elem? [] ys i y h e = tt
Apart-get_elem? (x ∷ xs) ys i y h e =
    ((λ q. All-get_elem? (λ z. x ≢ z) ys i y h.0 e (sym q)), Apart-get_elem? xs ys i y h.1 e)
