-- ===== src/Net/Arp/Choice.antt =====
-- arp.c: the loop that chooses a slot ends with the address's own, a free one or the oldest.
use kappara.Base.{
  ℕ, suc, ◌+◌, ◌≤◌, ◌≡◌, ◌≢◌, ◌⊎◌, inl, inr, refl, sym, subst, Bool, Option, none, some, List, [],
  ◌∷◌, arith, ltb, ◌==◌, not, ◌&&◌, if◌then◌else◌, if-elim, Bool-cases, get_elem?, All,
}
use kappara.Net.Arp.{choose, choose_slot}
use kappara.Net.Arp.Slots.{Lacks, Place, Lacks-Place}

module _ {ℓ} {A : Type ℓ} (ip_of stamp_of : A → ℕ) where
  -- The stamp is not later than any in the list.
  abbrev pub Oldest : ℕ → List A → Type 0
  Oldest t es = All (λ e. t ≤ stamp_of e) es

  -- What the loop ends with: from index `i` on, with the loop's variables as they are.
  data Outcome (ip i : ℕ) (es : List A) (slot : Option ℕ) (old st r : ℕ) : Type ℓ where
    hit :
        (j : ℕ) (x : A)
        → r ≡ i + j
        → get_elem? es j ≡ some x
        → ip_of x ≡ ip
        → Place ip_of ip es j
        → Outcome ip i es slot old st r
    kept : Lacks ip_of ip es → slot ≡ some r → Outcome ip i es slot old st r
    free :
        (j : ℕ) (x : A)
        → Lacks ip_of ip es
        → slot ≡ none
        → r ≡ i + j
        → get_elem? es j ≡ some x
        → ip_of x ≡ 0
        → Outcome ip i es slot old st r
    same_oldest :
        Lacks ip_of ip es
        → slot ≡ none
        → Lacks ip_of 0 es
        → r ≡ old
        → Oldest st es
        → Outcome ip i es slot old st r
    new_oldest :
        (j : ℕ) (x : A)
        → Lacks ip_of ip es
        → slot ≡ none
        → Lacks ip_of 0 es
        → r ≡ i + j
        → get_elem? es j ≡ some x
        → stamp_of x ≤ st
        → Oldest (stamp_of x) es
        → Outcome ip i es slot old st r

  -- The oldest slot so far, after an entry that is not free.
  age :
      (ip i r : ℕ) (e : A) (es : List A) (old st : ℕ)
      → let older = not (ip_of e == 0) && ltb (stamp_of e) st in
        Lacks ip_of ip (e ∷ es)
        → Lacks ip_of 0 (e ∷ es)
        → r ≡ (if older then i else old)
        → Oldest (if older then stamp_of e else st) es
        → Outcome ip i (e ∷ es) none old st r
  age ip i r e es old st l z q o =
      let younger = λ (u : Bool). Oldest (if u then stamp_of e else st) es in
      elim (Bool-cases (not (ip_of e == 0) && ltb (stamp_of e) st)) [
        | inl t ↦
            new_oldest 0 e l refl z (ground (arith, t, q)) refl (ground (arith, t))
              (omega arith, subst younger t o)
        | inr t ↦
            same_oldest l refl z (ground (arith, t, q)) (ground (arith, t, z.0), subst younger t o)
      ]

  -- One round of the loop, for an entry that has another address.
  round :
      (ip i r : ℕ) (e : A) (es : List A) (slot : Option ℕ) (old st : ℕ)
      → ip_of e ≢ ip
      → let first : Option ℕ = elim slot [
        | none ↦ if ip_of e == 0 then some i else none
        | some k ↦ some k
      ] in
        Outcome ip
          (i + 1)
          es
          first
          (if not (ip_of e == 0) && ltb (stamp_of e) st then i else old)
          (if not (ip_of e == 0) && ltb (stamp_of e) st then stamp_of e else st)
          r
        → Outcome ip i (e ∷ es) slot old st r
  round ip i r e es slot old st n (hit j x p g h q) = hit (suc j) x (omega (arith, p)) g h (n, q)
  round ip i r e es (some k) old st n (kept l p) = kept (n, l) p
  round ip i r e es none old st n (kept l p) =
      free 0 e (n, l) refl (ground (arith, p)) refl (ground (arith, p))
  round ip i r e es (some k) old st n (free j x l p q g h) = absurd (ground (arith, p))
  round ip i r e es none old st n (free j x l p q g h) =
      free (suc j) x (n, l) refl (omega (arith, q)) g h
  round ip i r e es (some k) old st n (same_oldest l p z q o) = absurd (ground (arith, p))
  round ip i r e es none old st n (same_oldest l p z q o) =
      age ip i r e es old st (n, l) (ground (arith, p), z) q o
  round ip i r e es (some k) old st n (new_oldest j x l p z q g m o) = absurd (ground (arith, p))
  round ip i r e es none old st n (new_oldest j x l p z q g m o) =
      new_oldest (suc j) x (n, l) refl (ground (arith, p), z) (omega (arith, q)) g
        (ground (arith, m)) (ground (arith, m, p), o)

  choose-Outcome :
      (ip i : ℕ) (es : List A) (slot : Option ℕ) (old st : ℕ)
      → Outcome ip i es slot old st (choose ip_of stamp_of ip i es slot old st)
  unfolding choose
  choose-Outcome ip i [] none old st = same_oldest tt refl tt refl tt
  choose-Outcome ip i [] (some k) old st = kept tt refl
  choose-Outcome ip i (e ∷ es) slot old st =
      let first : Option ℕ = elim slot [
        | none ↦ if ip_of e == 0 then some i else none
        | some k ↦ some k
      ] in
      let older = not (ip_of e == 0) && ltb (stamp_of e) st in
      let next = if older then i else old in
      let stamp = if older then stamp_of e else st in
      let rest = choose ip_of stamp_of ip (i + 1) es first next stamp in
      if-elim (Outcome ip i (e ∷ es) slot old st) (ip_of e == ip)
        (λ same.
          let p : ip_of e ≡ ip = ground (arith, same) in hit 0 e (omega arith) refl p (inl p))
        (λ other.
          round ip i rest e es slot old st (ground (arith, other))
            (choose-Outcome ip (i + 1) es first next stamp))

  -- The chosen slot: the one of the address; else a free one; else, where all are taken, the oldest.
  abbrev pub Chosen : ℕ → List A → ℕ → Type ℓ
  Chosen ip xs k =
      (x : A) × (get_elem? xs k ≡ some x)
      × Place ip_of ip xs k
      × ((ip_of x ≡ ip)
          ⊎ (Lacks ip_of ip xs × ((ip_of x ≡ 0) ⊎ (Lacks ip_of 0 xs × Oldest (stamp_of x) xs))))

  Outcome-Chosen :
      (ip k : ℕ) (e : A) (es : List A)
      → Outcome ip 0 (e ∷ es) none 0 (stamp_of e) k
      → Chosen ip (e ∷ es) k
  Outcome-Chosen ip k e es (hit j x p g h q) =
      subst (Chosen ip (e ∷ es)) (omega (arith, p)) (x, g, q, inl h)
  Outcome-Chosen ip k e es (kept l p) = absurd (ground (arith, p))
  Outcome-Chosen ip k e es (free j x l p q g h) =
      subst (Chosen ip (e ∷ es)) (omega (arith, q))
        (x, g, Lacks-Place ip_of ip j (e ∷ es) x l g, inr (l, inl h))
  Outcome-Chosen ip k e es (same_oldest l p z q o) =
      subst (Chosen ip (e ∷ es)) (sym q) (e, refl, inr l, inr (l, inr (z, o)))
  Outcome-Chosen ip k e es (new_oldest j x l p z q g m o) =
      subst (Chosen ip (e ∷ es)) (omega (arith, q))
        (x, g, Lacks-Place ip_of ip j (e ∷ es) x l g, inr (l, inr (z, o)))

  pub choose_slot-Chosen :
      (ip : ℕ) (xs : List A) → xs ≢ [] → Chosen ip xs (choose_slot ip_of stamp_of ip xs)
  unfolding choose_slot
  choose_slot-Chosen ip [] h = absurd (h refl)
  choose_slot-Chosen ip (e ∷ es) h =
      Outcome-Chosen ip (choose ip_of stamp_of ip 0 (e ∷ es) none 0 (stamp_of e)) e es
        (choose-Outcome ip 0 (e ∷ es) none 0 (stamp_of e))
