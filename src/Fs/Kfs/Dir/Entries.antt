-- ===== src/Fs/Kfs/Dir/Entries.antt =====
-- What filling in or clearing an entry of a directory block does to its bytes.
use kappara.Base.{
  ℕ, zero, suc, ◌+◌, ◌-◌, ◌*◌, ◌^◌, ◌≤◌, ◌<◌, ◌≡◌, refl, sym, ap, ◌∙◌, ◌⊎◌, inl, inr, true, ◌&&◌,
  arith, ltb, leb, ◌==◌, Bool-cases, if_true, if_false, if-elim, write, write_ne, write_self,
}
use kappara.Fs.Kfs.{DiskBlock}
use kappara.Fs.Kfs.File.{kmemcpy, le32}
use kappara.Fs.Kfs.Dir.{
  kfs_name_max, name_at, start_at, length_at, word_at, is_empty, name_fits, is_named, clear_name,
  copy_name, set_start, put_entry, drop_entry,
}

-- The place is not in the `n` places of entry `i` from `k` on.
abbrev pub ApartFrom : ℕ → ℕ → ℕ → ℕ → Type 0
ApartFrom i k n pos = (pos < name_at i k) ⊎ (name_at i (k + n) ≤ pos)

kmemcpy_outside :
    (b : DiskBlock) (off : ℕ) (src : ℕ → ℕ) (n pos : ℕ)
    → (pos < off) ⊎ (off + n ≤ pos)
    → kmemcpy b off src 0 n pos ≡ b pos
unfolding kmemcpy
kmemcpy_outside b off src n pos h = ground (arith, h)

kmemcpy_inside :
    (b : DiskBlock) (off : ℕ) (src : ℕ → ℕ) (n j : ℕ)
    → j < n
    → kmemcpy b off src 0 n (off + j) ≡ src j
unfolding kmemcpy
kmemcpy_inside b off src n j h =
    if_true (leb off (off + j) && ltb (off + j) (off + n)) _ _ (ground (arith, h))
    ∙ ap src {x = 0 + (off + j - off)} {y = j} (omega arith)

clear_name_outside :
    (n : ℕ) (dir : DiskBlock) (i k pos : ℕ)
    → ApartFrom i k n pos
    → clear_name n dir i k pos ≡ dir pos
unfolding clear_name
clear_name_outside zero dir i k pos h = refl
clear_name_outside (suc n) dir i k pos h =
    clear_name_outside n (write dir (name_at i k) 0) i (k + 1) pos (omega (arith, h))
    ∙ write_ne dir (name_at i k) 0 pos (λ e. omega (arith, e, h))

clear_name_inside :
    (n : ℕ) (dir : DiskBlock) (i k j : ℕ)
    → k ≤ j
    → j < k + n
    → clear_name n dir i k (name_at i j) ≡ 0
unfolding clear_name
clear_name_inside zero dir i k j lo hi = absurd (omega (arith, lo, hi))
clear_name_inside (suc n) dir i k j lo hi = elim (Bool-cases (k == j)) [
  | inl same ↦
      let here : k ≡ j = ground (arith, same) in
      clear_name_outside n (write dir (name_at i k) 0) i (k + 1) (name_at i j)
        (inl (omega (arith, here)))
      ∙ ap (λ z. write dir (name_at i k) 0 (name_at i z)) (sym here)
      ∙ write_self dir (name_at i k) 0
  | inr other ↦
      clear_name_inside n (write dir (name_at i k) 0) i (k + 1) j (ground (arith, lo, other))
        (omega (arith, hi))
]

copy_name_outside :
    (n : ℕ) (dir : DiskBlock) (i : ℕ) (name : ℕ → ℕ) (k pos : ℕ)
    → ApartFrom i k n pos
    → copy_name n dir i name k pos ≡ dir pos
unfolding copy_name
copy_name_outside zero dir i name k pos h = refl
copy_name_outside (suc n) dir i name k pos h =
    if-elim (λ (b : DiskBlock). b pos ≡ dir pos) (name k == 0) (λ e. refl)
      (λ e.
        copy_name_outside n (write dir (name_at i k) (name k)) i name (k + 1) pos (omega (arith, h))
        ∙ write_ne dir (name_at i k) (name k) pos (λ z. omega (arith, z, h)))

-- A name that fits and is copied into a cleared field is the name of the entry.
copy_name-named :
    (n : ℕ) (dir : DiskBlock) (i : ℕ) (name : ℕ → ℕ) (k : ℕ)
    → name_fits (suc n) name k ≡ true
    → ((j : ℕ) → k ≤ j → j ≤ k + n → dir (name_at i j) ≡ 0)
    → is_named (suc n) (copy_name n dir i name k) i name k ≡ true
unfolding copy_name name_fits is_named
copy_name-named zero dir i name k h c = ground (arith, h, c k (omega arith) (omega arith))
copy_name-named (suc n) dir i name k h c = elim (Bool-cases (name k == 0)) [
  | inl end ↦ ground (arith, end, c k (omega arith) (omega arith))
  | inr more ↦
      let next : DiskBlock = write dir (name_at i k) (name k) in
      let rest = copy_name-named n next i name (k + 1) (ground (arith, h, more)) (λ j lo hi.
        write_ne dir (name_at i k) (name k) (name_at i j) (λ e. omega (arith, e, lo))
        ∙ c j (omega (arith, lo)) (omega (arith, hi))) in
      let byte : copy_name n next i name (k + 1) (name_at i k) ≡ name k =
        copy_name_outside n next i name (k + 1) (name_at i k) (inl (omega arith))
        ∙ write_self dir (name_at i k) (name k) in
      ap (λ b. is_named (suc (suc n)) b i name k) (if_false (name k == 0) dir _ more)
      ∙ ground (arith, rest, byte, more)
]

-- The comparison reads the entry's name alone.
pub is_named-frame :
    (n : ℕ) (dir dir' : DiskBlock) (i : ℕ) (name : ℕ → ℕ) (k : ℕ)
    → ((j : ℕ) → k ≤ j → j < k + n → dir' (name_at i j) ≡ dir (name_at i j))
    → is_named n dir' i name k ≡ is_named n dir i name k
unfolding is_named
is_named-frame zero dir dir' i name k h = refl
is_named-frame (suc n) dir dir' i name k h = ground (
  arith,
  h k (omega arith) (omega arith),
  is_named-frame n dir dir' i name (k + 1) (λ j lo hi. h j (omega (arith, lo)) (omega (arith, hi))),
)

set_start_outside :
    (dir : DiskBlock) (i start size pos : ℕ)
    → (pos < start_at i) ⊎ (i * 19 + 19 ≤ pos)
    → set_start dir i start size pos ≡ dir pos
unfolding set_start
set_start_outside dir i start size pos h =
    kmemcpy_outside (kmemcpy dir (start_at i) (le32 start) 0 4) (length_at i) (le32 size) 4 pos
      (omega (arith, h))
    ∙ kmemcpy_outside dir (start_at i) (le32 start) 4 pos (omega (arith, h))

le32-word_at :
    (v : ℕ) → v < 2 ^ 32 → le32 v 0 + 256 * le32 v 1 + 65536 * le32 v 2 + 16777216 * le32 v 3 ≡ v
unfolding le32
le32-word_at v h = omega (arith, h)

-- The words of an entry, as they are read.
pub word_at-start :
    (dir : DiskBlock) (i start size : ℕ)
    → start < 2 ^ 32
    → word_at (set_start dir i start size) (start_at i) ≡ start
unfolding set_start
word_at-start dir i start size h =
    let b : DiskBlock = kmemcpy dir (start_at i) (le32 start) 0 4 in
    let at = λ (j : ℕ) (l : j < 4).
      kmemcpy_outside b (length_at i) (le32 size) 4 (start_at i + j) (inl (omega (arith, l)))
      ∙ kmemcpy_inside dir (start_at i) (le32 start) 4 j l in
    let zeroth : start_at i ≡ start_at i + 0 = omega arith in
    (λ k.
      (ap (kmemcpy b (length_at i) (le32 size) 0 4) zeroth ∙ at 0 (omega arith)) k
      + 256 * at 1 (omega arith) k
      + 65536 * at 2 (omega arith) k
      + 16777216 * at 3 (omega arith) k)
    ∙ le32-word_at start h

-- Filling in an entry leaves every byte of the others.
pub put_entry_outside :
    (dir : DiskBlock) (i : ℕ) (name : ℕ → ℕ) (start pos : ℕ)
    → (pos < i * 19) ⊎ (i * 19 + 19 ≤ pos)
    → put_entry dir i name start pos ≡ dir pos
unfolding put_entry
put_entry_outside dir i name start pos h =
    set_start_outside _ i start 0 pos (omega (arith, h))
    ∙ copy_name_outside 10 (clear_name 11 dir i 0) i name 0 pos (omega (arith, h))
    ∙ clear_name_outside 11 dir i 0 pos (omega (arith, h))

pub put_entry-named :
    (dir : DiskBlock) (i : ℕ) (name : ℕ → ℕ) (start : ℕ)
    → name_fits kfs_name_max name 0 ≡ true
    → is_named kfs_name_max (put_entry dir i name start) i name 0 ≡ true
unfolding put_entry
put_entry-named dir i name start h =
    is_named-frame 11 _ _ i name 0
      (λ j lo hi. set_start_outside _ i start 0 (name_at i j) (inl (omega (arith, hi))))
    ∙ copy_name-named 10 (clear_name 11 dir i 0) i name 0 h
        (λ j lo hi. clear_name_inside 11 dir i 0 j lo (omega (arith, hi)))

-- Nor does clearing one, which is empty afterwards.
pub drop_entry_outside :
    (dir : DiskBlock) (i pos : ℕ)
    → (pos < i * 19) ⊎ (i * 19 + 19 ≤ pos)
    → drop_entry dir i pos ≡ dir pos
unfolding drop_entry
drop_entry_outside dir i pos h =
    set_start_outside _ i 0 0 pos (omega (arith, h))
    ∙ clear_name_outside 11 dir i 0 pos (omega (arith, h))

pub drop_entry-empty : (dir : DiskBlock) (i : ℕ) → is_empty (drop_entry dir i) i ≡ true
unfolding drop_entry is_empty
drop_entry-empty dir i = ground (
  arith,
  set_start_outside (clear_name 11 dir i 0) i 0 0 (name_at i 0) (inl (omega arith)),
  clear_name_inside 11 dir i 0 0 (omega arith) (omega arith),
)
