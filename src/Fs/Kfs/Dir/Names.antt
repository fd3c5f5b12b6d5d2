-- ===== src/Fs/Kfs/Dir/Names.antt =====
-- The names of a directory block: the two comparisons agree, and what a search finds.
use kappara.Base.{
  ℕ, zero, suc, ◌+◌, ◌≤◌, ◌<◌, ◌≡◌, refl, sym, ap, ◌∙◌, ◌⊎◌, inl, inr, subst, Option, none, some,
  Bool, true, false, not, ◌&&◌, arith, ◌==◌, Bool-cases, if_true, if_false,
}
use mathlib.Core.Option.{some-injective}
use kappara.Fs.Kfs.{DiskBlock}
use kappara.Fs.Kfs.Dir.{kfs_name_max, is_empty, is_dup, keep_first, slot_loop, is_named, named_loop}

-- The comparison for a duplicate is the comparison of the search.
pub is_dup-named :
    (n : ℕ) (dir : DiskBlock) (i : ℕ) (name : ℕ → ℕ) (k : ℕ)
    → is_dup n dir i name k ≡ is_named n dir i name k
unfolding is_dup is_named
is_dup-named zero dir i name k = refl
is_dup-named (suc n) dir i name k = ground (arith, is_dup-named n dir i name (k + 1))

-- Entry `i` has the name.
abbrev pub has_name : DiskBlock → (ℕ → ℕ) → ℕ → Bool
has_name dir name i = not (is_empty dir i) && is_named kfs_name_max dir i name 0

-- No entry from `i` on, of `n`, has the name.
abbrev pub Unnamed : ℕ → DiskBlock → (ℕ → ℕ) → ℕ → Type 0
Unnamed n dir name i = (j : ℕ) → i ≤ j → j < i + n → has_name dir name j ≡ false

Unnamed-cons :
    (n : ℕ) (dir : DiskBlock) (name : ℕ → ℕ) (i : ℕ)
    → has_name dir name i ≡ false
    → Unnamed n dir name (i + 1)
    → Unnamed (suc n) dir name i
Unnamed-cons n dir name i h rest j lo hi = elim (Bool-cases (i == j)) [
  | inl same ↦ subst (λ z. has_name dir name z ≡ false) {x = i} {y = j} (ground (arith, same)) h
  | inr other ↦ rest j (ground (arith, lo, other)) (omega (arith, hi))
]

keep_cases : (slot : Option ℕ) (i s : ℕ) → keep_first slot i ≡ some s → (slot ≡ some s) ⊎ (i ≡ s)
unfolding keep_first
keep_cases none i s e = inr (some-injective i s e)
keep_cases (some x) i s e = inl e

pub slot_loop_empty :
    (n : ℕ) (dir : DiskBlock) (name : ℕ → ℕ) (i : ℕ) (slot : Option ℕ)
    → is_empty dir i ≡ true
    → slot_loop (suc n) dir name i slot ≡ slot_loop n dir name (i + 1) (keep_first slot i)
unfolding slot_loop
slot_loop_empty n dir name i slot h =
    if_true (is_empty dir i) _ _ h
    ∙ ap (slot_loop n dir name (i + 1)) (if_true (is_empty dir i) (keep_first slot i) slot h)

pub slot_loop_full :
    (n : ℕ) (dir : DiskBlock) (name : ℕ → ℕ) (i : ℕ) (slot : Option ℕ)
    → is_empty dir i ≡ false
    → is_dup kfs_name_max dir i name 0 ≡ false
    → slot_loop (suc n) dir name i slot ≡ slot_loop n dir name (i + 1) slot
unfolding slot_loop
slot_loop_full n dir name i slot h k =
    if_false (is_empty dir i) _ _ h
    ∙ if_false (is_dup kfs_name_max dir i name 0) none _ k
    ∙ ap (slot_loop n dir name (i + 1)) (if_false (is_empty dir i) (keep_first slot i) slot h)

-- A search that comes back with a slot met no entry of that name, and the slot is an empty one
-- unless it was given.
pub slot_loop-free :
    (n : ℕ) (dir : DiskBlock) (name : ℕ → ℕ) (i : ℕ) (slot : Option ℕ) (s : ℕ)
    → slot_loop n dir name i slot ≡ some s
    → Unnamed n dir name i × ((slot ≡ some s) ⊎ ((i ≤ s) × (s < i + n) × (is_empty dir s ≡ true)))
unfolding slot_loop
slot_loop-free zero dir name i slot s e = ((λ j lo hi. absurd (omega (arith, lo, hi))), inl e)
slot_loop-free (suc n) dir name i slot s e = elim (Bool-cases (is_empty dir i)) [
  | inl empty ↦
      let (unnamed, at) =
        slot_loop-free n dir name (i + 1) (keep_first slot i) s
          (sym (slot_loop_empty n dir name i slot empty) ∙ e) in
      (
        Unnamed-cons n dir name i (ground (arith, empty)) unnamed,
        elim at [
          | inr (lo, hi, k) ↦ inr (omega (arith, lo), omega (arith, hi), k)
          | inl k ↦ elim (keep_cases slot i s k) [
            | inl given ↦ inl given
            | inr here ↦ inr (
              omega (arith, here),
              omega (arith, here),
              subst (λ z. is_empty dir z ≡ true) here empty,
            )
          ]
        ],
      )
  | inr full ↦ elim (Bool-cases (is_dup kfs_name_max dir i name 0)) [
    | inl dup ↦
        let no =
          sym e
          ∙ if_false (is_empty dir i) _ _ full
          ∙ if_true (is_dup kfs_name_max dir i name 0) _ _ dup in
        cc
    | inr other ↦
        let (unnamed, at) =
          slot_loop-free n dir name (i + 1) slot s
            (sym (slot_loop_full n dir name i slot full other) ∙ e) in
        let differs = sym (is_dup-named kfs_name_max dir i name 0) ∙ other in
        (
          Unnamed-cons n dir name i (ground (arith, differs)) unnamed,
          elim at [
            | inl given ↦ inl given
            | inr (lo, hi, k) ↦ inr (omega (arith, lo), omega (arith, hi), k)
          ],
        )
  ]
]

pub named_loop-first :
    (n : ℕ) (dir : DiskBlock) (name : ℕ → ℕ) (i s : ℕ)
    → i ≤ s
    → s < i + n
    → has_name dir name s ≡ true
    → ((j : ℕ) → i ≤ j → j < s → has_name dir name j ≡ false)
    → named_loop n dir name i ≡ some s
unfolding named_loop
named_loop-first zero dir name i s lo hi h before = absurd (omega (arith, lo, hi))
named_loop-first (suc n) dir name i s lo hi h before = elim (Bool-cases (i == s)) [
  | inl same ↦
      let here : i ≡ s = ground (arith, same) in
      let it : has_name dir name i ≡ true = subst (λ z. has_name dir name z ≡ true) (sym here) h in
      if_false (is_empty dir i) _ _ (ground (arith, it))
      ∙ if_true (is_named kfs_name_max dir i name 0) _ _ (ground (arith, it))
      ∙ ap some here
  | inr other ↦
      let low : i < s = ground (arith, lo, other) in
      let rest =
        named_loop-first n dir name (i + 1) s (omega (arith, low)) (omega (arith, hi)) h
          (λ j l k. before j (omega (arith, l)) k) in
      ground (arith, before i (omega arith) low, rest)
]
