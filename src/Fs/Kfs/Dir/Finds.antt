-- ===== src/Fs/Kfs/Dir/Finds.antt =====
-- An entry that is filled in at the slot of `kfs_dir_find_slot` is found by its name.
use kappara.Base.{
  ℕ, suc, ◌+◌, ◌*◌, ◌%◌, ◌^◌, ◌≤◌, ◌<◌, ◌≡◌, ◌≢◌, refl, sym, ap, ◌∙◌, inl, inr, none, some, true,
  arith, leb, Bool-cases, if_true, if_false, zero,
}
use kappara.Fs.Kfs.{DiskBlock}
use kappara.Fs.Kfs.Dir.{
  kfs_name_max, kfs_dirents, kfs_de_dir_bit, name_at, kfs_de_start, kfs_de_isdir, is_empty,
  name_fits, kfs_dir_find_slot, is_named, named_loop, kfs_dir_find_named, put_entry,
}
use kappara.Fs.Kfs.Dir.Names.{has_name, Unnamed, slot_loop-free, named_loop-first}
use kappara.Fs.Kfs.Dir.Entries.{is_named-frame, word_at-start, put_entry_outside, put_entry-named}

-- A slot that is free for the name: the name fits, the slot is an empty entry, and no entry has the
-- name.
pub record IsFree (dir : DiskBlock) (name : ℕ → ℕ) (s : ℕ) : Type 0 where
  pub fits : name_fits kfs_name_max name 0 ≡ true
  pub low : s < kfs_dirents
  pub empty : is_empty dir s ≡ true
  pub unnamed : Unnamed kfs_dirents dir name 0

pub find_slot-IsFree :
    (dir : DiskBlock) (name : ℕ → ℕ) (s : ℕ)
    → kfs_dir_find_slot dir name ≡ some s
    → IsFree dir name s
unfolding kfs_dir_find_slot
find_slot-IsFree dir name s e = elim (Bool-cases (name_fits kfs_name_max name 0)) [
  | inr long ↦ let no = sym e ∙ if_false (name_fits kfs_name_max name 0) _ none long in cc
  | inl fits ↦
      let (unnamed, at) =
        slot_loop-free kfs_dirents dir name 0 none s
          (sym (if_true (name_fits kfs_name_max name 0) _ none fits) ∙ e) in
      elim at [
        | inl given ↦ cc
        | inr (lo, hi, k) ↦ record { fits = fits; low = hi; empty = k; unnamed = unnamed }
      ]
]

named_loop-none :
    (n : ℕ) (dir : DiskBlock) (name : ℕ → ℕ) (i : ℕ)
    → Unnamed n dir name i
    → named_loop n dir name i ≡ none
unfolding named_loop
named_loop-none zero dir name i h = refl
named_loop-none (suc n) dir name i h = ground (
  arith,
  h i (omega arith) (omega arith),
  named_loop-none n dir name (i + 1) (λ j lo hi. h j (omega (arith, lo)) (omega (arith, hi))),
)

pub free-unnamed :
    (dir : DiskBlock) (name : ℕ → ℕ) (s : ℕ)
    → IsFree dir name s
    → kfs_dir_find_named dir name ≡ none
unfolding kfs_dir_find_named
free-unnamed dir name s v = named_loop-none kfs_dirents dir name 0 v.unnamed

-- An entry is the same in two blocks that have the same bytes there.
has_name-frame :
    (dir dir' : DiskBlock) (name : ℕ → ℕ) (i : ℕ)
    → ((pos : ℕ) → i * 19 ≤ pos → pos < i * 19 + 19 → dir' pos ≡ dir pos)
    → has_name dir' name i ≡ has_name dir name i
unfolding is_empty
has_name-frame dir dir' name i h = ground (
  arith,
  h (name_at i 0) (omega arith) (omega arith),
  is_named-frame kfs_name_max dir dir' i name 0
      (λ j lo hi. h (name_at i j) (omega arith) (omega (arith, hi))),
)

named-nonempty :
    (n : ℕ) (dir : DiskBlock) (i : ℕ) (name : ℕ → ℕ) (k : ℕ)
    → name k ≢ 0
    → is_named (suc n) dir i name k ≡ true
    → dir (name_at i k) ≢ 0
unfolding is_named
named-nonempty n dir i name k h e z = ground (arith, h, e, z)

named_first :
    (dir : DiskBlock) (i : ℕ) (name : ℕ → ℕ)
    → name 0 ≢ 0
    → is_named kfs_name_max dir i name 0 ≡ true
    → has_name dir name i ≡ true
unfolding is_empty
named_first dir i name h e = ground (arith, e, named-nonempty 10 dir i name 0 h e)

pub put_entry-found :
    (dir : DiskBlock) (name : ℕ → ℕ) (s start : ℕ)
    → IsFree dir name s
    → name 0 ≢ 0
    → kfs_dir_find_named (put_entry dir s name start) name ≡ some s
unfolding kfs_dir_find_named
put_entry-found dir name s start v h =
    named_loop-first kfs_dirents (put_entry dir s name start) name 0 s (omega arith) v.low
      (named_first (put_entry dir s name start) s name h (put_entry-named dir s name start v.fits))
      (λ j lo hi.
        has_name-frame dir (put_entry dir s name start) name j
          (λ pos l k. put_entry_outside dir s name start pos (inl (omega (arith, k, hi))))
        ∙ v.unnamed j lo (omega (arith, hi, v.low)))

pub put_entry-start :
    (dir : DiskBlock) (i : ℕ) (name : ℕ → ℕ) (start : ℕ)
    → start < 2 ^ 32
    → (kfs_de_start (put_entry dir i name start) i ≡ start % kfs_de_dir_bit)
      × (kfs_de_isdir (put_entry dir i name start) i ≡ leb kfs_de_dir_bit start)
unfolding kfs_de_start kfs_de_isdir put_entry
put_entry-start dir i name start h =
    let e = word_at-start _ i start 0 h in
    (ap (λ v. v % kfs_de_dir_bit) e, ap (leb kfs_de_dir_bit) e)
