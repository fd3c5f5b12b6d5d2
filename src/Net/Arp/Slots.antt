-- ===== src/Net/Arp/Slots.antt =====
-- arp.c: which slot of a table is chosen for an address, and what a write to it leaves.
use kappara.Base.{
  ℕ, zero, suc, ◌≡◌, ◌≢◌, ◌⊎◌, inl, inr, refl, sym, subst, Bool, some, List, [], ◌∷◌, arith, ◌==◌,
  get_elem?, set, find, All,
}

module _ {ℓ} {A : Type ℓ} (ip_of : A → ℕ) where
  abbrev pub has : ℕ → A → Bool
  has ip e = ip_of e == ip

  -- No entry has the address.
  abbrev pub Lacks : ℕ → List A → Type 0
  Lacks ip es = All (λ e. ip_of e ≢ ip) es

  -- No address but 0, which marks a free slot, is there twice.
  abbrev pub Once : List A → Type 0
  Once [] = Unit
  Once (e ∷ es) = ((ip_of e ≡ 0) ⊎ Lacks (ip_of e) es) × Once es

  -- The slot is the first one of the address, or the address has none.
  abbrev pub Place : ℕ → List A → ℕ → Type 0
  Place ip [] k = ⊥
  Place ip (e ∷ es) zero = (ip_of e ≡ ip) ⊎ Lacks ip (e ∷ es)
  Place ip (e ∷ es) (suc k) = (ip_of e ≢ ip) × Place ip es k

  pub find-set_self :
      (ip k : ℕ) (xs : List A) (v : A)
      → ip_of v ≡ ip
      → Place ip xs k
      → find (has ip) (set xs k v) ≡ some v
  unfolding find
  find-set_self ip k [] v e h = absurd h
  find-set_self ip zero (x ∷ xs) v e h = ground (arith, e)
  find-set_self ip (suc k) (x ∷ xs) v e h = ground (arith, h.0, find-set_self ip k xs v e h.1)

  pub find-set_ne :
      (q k : ℕ) (xs : List A) (v old : A)
      → get_elem? xs k ≡ some old
      → ip_of v ≢ q
      → ip_of old ≢ q
      → find (has q) (set xs k v) ≡ find (has q) xs
  unfolding find
  find-set_ne q k [] v old g a b = refl
  find-set_ne q zero (x ∷ xs) v old g a b = ground (arith, g, a, b)
  find-set_ne q (suc k) (x ∷ xs) v old g a b = ground (arith, find-set_ne q k xs v old g a b)

  pub Lacks-set : (q k : ℕ) (xs : List A) (v : A) → Lacks q xs → ip_of v ≢ q → Lacks q (set xs k v)
  Lacks-set q k [] v l n = tt
  Lacks-set q zero (x ∷ xs) v l n = (n, l.1)
  Lacks-set q (suc k) (x ∷ xs) v l n = (l.0, Lacks-set q k xs v l.1 n)

  once_head :
      (x v : A) (xs : List A)
      → (ip_of x ≡ 0) ⊎ Lacks (ip_of x) xs
      → (ip_of x ≡ ip_of v) ⊎ Lacks (ip_of v) (x ∷ xs)
      → (ip_of v ≡ 0) ⊎ Lacks (ip_of v) xs
  once_head x v xs o (inl e) = subst (λ i. (i ≡ 0) ⊎ Lacks i xs) e o
  once_head x v xs o (inr l) = inr l.1

  once_tail :
      (k : ℕ) (x v : A) (xs : List A)
      → (ip_of x ≡ 0) ⊎ Lacks (ip_of x) xs
      → ip_of x ≢ ip_of v
      → (ip_of x ≡ 0) ⊎ Lacks (ip_of x) (set xs k v)
  once_tail k x v xs (inl e) n = inl e
  once_tail k x v xs (inr l) n = inr (Lacks-set (ip_of x) k xs v l (λ e. n (sym e)))

  pub Once-set : (k : ℕ) (xs : List A) (v : A) → Once xs → Place (ip_of v) xs k → Once (set xs k v)
  Once-set k [] v o p = tt
  Once-set zero (x ∷ xs) v o p = (once_head x v xs o.0 p, o.1)
  Once-set (suc k) (x ∷ xs) v o p = (once_tail k x v xs o.0 p.0, Once-set k xs v o.1 p.1)

  pub Lacks-Place :
      (ip k : ℕ) (xs : List A) (x : A) → Lacks ip xs → get_elem? xs k ≡ some x → Place ip xs k
  Lacks-Place ip k [] x l g = absurd (ground (arith, g))
  Lacks-Place ip zero (y ∷ ys) x l g = inr l
  Lacks-Place ip (suc k) (y ∷ ys) x l g = (l.0, Lacks-Place ip k ys x l.1 g)
