-- ===== src/Fs/Kfs/Dir/Refusals.antt =====
-- Why `kfs_dir_find_slot` finds no slot, in the bytes of the directory block.
use kappara.Base.{
  ℕ, zero, suc, ◌+◌, ◌≤◌, ◌<◌, ◌≡◌, ◌≢◌, sym, ◌∙◌, ◌⊎◌, inl, inr, subst, Option, none, some, true,
  false, arith, ◌==◌, Bool-cases, if_true,
}
use kappara.Fs.Kfs.{DiskBlock}
use kappara.Fs.Kfs.Dir.{
  kfs_name_max, kfs_dirents, name_at, is_empty, name_fits, is_dup, keep_first, slot_loop,
  kfs_dir_find_slot,
}
use kappara.Fs.Kfs.Dir.Names.{slot_loop_empty, slot_loop_full}

-- From byte `k` on, entry `i` holds the bytes of the name up to its NUL, which is one of `n`.
abbrev pub Spells : DiskBlock → ℕ → (ℕ → ℕ) → ℕ → ℕ → Type 0
Spells dir i name k n =
    (m : ℕ) × (k ≤ m)
    × (m < k + n)
    × (name m ≡ 0)
    × ((j : ℕ) → k ≤ j → j ≤ m → dir (name_at i j) ≡ name j)

is_dup-Spells :
    (n : ℕ) (dir : DiskBlock) (i : ℕ) (name : ℕ → ℕ) (k : ℕ)
    → is_dup n dir i name k ≡ true
    → Spells dir i name k n
unfolding is_dup
is_dup-Spells zero dir i name k e = cc
is_dup-Spells (suc n) dir i name k e =
    let here : dir (name_at i k) ≡ name k = ground (arith, e) in
    let at : ((j : ℕ) → k ≤ j → j ≤ k → dir (name_at i j) ≡ name j) =
      λ j lo hi. subst (λ z. dir (name_at i z) ≡ name z) {x = k} (omega (arith, lo, hi)) here in
    elim (Bool-cases (name k == 0)) [
      | inl ends ↦ (k, omega arith, omega arith, ground (arith, ends), at)
      | inr more ↦
          let (m, lo, hi, nul, same) =
            is_dup-Spells n dir i name (k + 1) (ground (arith, e, more)) in
          (
            m,
            omega (arith, lo),
            omega (arith, hi),
            nul,
            λ j l h. elim (Bool-cases (k == j)) [
              | inl first ↦ at j l (ground (arith, first))
              | inr later ↦ same j (ground (arith, l, later)) h
            ],
          )
    ]

-- An entry from `i` on, of `n`, is in use and has the name.
abbrev pub Taken : ℕ → DiskBlock → (ℕ → ℕ) → ℕ → Type 0
Taken n dir name i =
    (e : ℕ) × (i ≤ e) × (e < i + n) × (dir (name_at e 0) ≢ 0) × Spells dir e name 0 kfs_name_max

-- All of them are in use.
abbrev pub AllUsed : ℕ → DiskBlock → ℕ → Type 0
AllUsed n dir i = (e : ℕ) → i ≤ e → e < i + n → dir (name_at e 0) ≢ 0

kept : (slot : Option ℕ) (i : ℕ) → keep_first slot i ≢ none
unfolding keep_first
kept none i e = cc
kept (some s) i e = cc

in_use : (dir : DiskBlock) (i : ℕ) → is_empty dir i ≡ false → dir (name_at i 0) ≢ 0
unfolding is_empty
in_use dir i h e = ground (arith, h, e)

AllUsed-cons :
    (n : ℕ) (dir : DiskBlock) (i : ℕ)
    → dir (name_at i 0) ≢ 0
    → AllUsed n dir (i + 1)
    → AllUsed (suc n) dir i
AllUsed-cons n dir i h rest e lo hi = elim (Bool-cases (i == e)) [
  | inl same ↦ subst (λ z. dir (name_at z 0) ≢ 0) {x = i} (ground (arith, same)) h
  | inr other ↦ rest e (ground (arith, lo, other)) (omega (arith, hi))
]

Taken-later :
    (n : ℕ) (dir : DiskBlock) (name : ℕ → ℕ) (i : ℕ)
    → Taken n dir name (i + 1)
    → Taken (suc n) dir name i
Taken-later n dir name i (e, lo, hi, used, spells) =
    (e, omega (arith, lo), omega (arith, hi), used, spells)

-- A search that comes back with nothing has met the name, or had no slot and met no free entry.
slot_loop-none :
    (n : ℕ) (dir : DiskBlock) (name : ℕ → ℕ) (i : ℕ) (slot : Option ℕ)
    → slot_loop n dir name i slot ≡ none
    → Taken n dir name i ⊎ ((slot ≡ none) × AllUsed n dir i)
unfolding slot_loop
slot_loop-none zero dir name i slot h = inr (h, λ e lo hi. absurd (omega (arith, lo, hi)))
slot_loop-none (suc n) dir name i slot h = elim (Bool-cases (is_empty dir i)) [
  | inl empty ↦
      elim (slot_loop-none n dir name (i + 1) (keep_first slot i)
        (sym (slot_loop_empty n dir name i slot empty) ∙ h)) [
          | inl taken ↦ inl (Taken-later n dir name i taken)
          | inr (lost, used) ↦ absurd (kept slot i lost)
        ]
  | inr full ↦ elim (Bool-cases (is_dup kfs_name_max dir i name 0)) [
    | inl dup ↦ inl (
      i,
      omega arith,
      omega arith,
      in_use dir i full,
      is_dup-Spells kfs_name_max dir i name 0 dup,
    )
    | inr other ↦
        elim (slot_loop-none n dir name (i + 1) slot
          (sym (slot_loop_full n dir name i slot full other) ∙ h)) [
            | inl taken ↦ inl (Taken-later n dir name i taken)
            | inr (missing, used) ↦ inr (missing, AllUsed-cons n dir i (in_use dir i full) used)
          ]
  ]
]

name_fits-long :
    (n : ℕ) (name : ℕ → ℕ) (k : ℕ)
    → name_fits n name k ≡ false
    → (j : ℕ) → k ≤ j
    → j < k + n
    → name j ≢ 0
unfolding name_fits
name_fits-long zero name k h j lo hi e = absurd (omega (arith, lo, hi))
name_fits-long (suc n) name k h j lo hi e = elim (Bool-cases (k == j)) [
  | inl same ↦
      let here : name k ≡ 0 = subst (λ z. name z ≡ 0) {x = j} (ground (arith, same)) e in
      ground (arith, h, here)
  | inr other ↦
      name_fits-long n name (k + 1) (ground (arith, h)) j (ground (arith, lo, other))
        (omega (arith, hi)) e
]

-- Why a directory takes no entry of a name: the name has more than 10 bytes, an entry has it, or all
-- entries are in use.
pub data Refusal (dir : DiskBlock) (name : ℕ → ℕ) : Type 0 where
  too_long : ((k : ℕ) → k < kfs_name_max → name k ≢ 0) → Refusal dir name
  taken : Taken kfs_dirents dir name 0 → Refusal dir name
  all_used : AllUsed kfs_dirents dir 0 → Refusal dir name

pub find_slot-Refusal :
    (dir : DiskBlock) (name : ℕ → ℕ) → kfs_dir_find_slot dir name ≡ none → Refusal dir name
unfolding kfs_dir_find_slot
find_slot-Refusal dir name h = elim (Bool-cases (name_fits kfs_name_max name 0)) [
  | inr long ↦
      too_long (λ k l. name_fits-long kfs_name_max name 0 long k (omega arith) (omega (arith, l)))
  | inl fits ↦
      elim (slot_loop-none kfs_dirents dir name 0 none
        (sym (if_true (name_fits kfs_name_max name 0) _ none fits) ∙ h)) [
          | inl t ↦ taken t
          | inr (_, used) ↦ all_used used
        ]
]
