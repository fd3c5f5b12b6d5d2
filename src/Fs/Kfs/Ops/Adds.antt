-- ===== src/Fs/Kfs/Ops/Adds.antt =====
-- Adding an entry to a directory on a device that does not fail: what `kfs_dir_creat` and
-- `kfs_dir_mkdir` have in common.
use kappara.Base.{
  ℕ, ◌+◌, ◌≤◌, ◌<◌, ◌≡◌, ◌≢◌, refl, sym, ap, ◌∙◌, ◌⊎◌, inl, inr, subst, Option, none, some, true,
  false, arith, ◌==◌, if◌then◌else◌, Bool-cases, Option-cases, if_true, if_false,
}
use kappara.Fs.Kfs.{DiskBlock, BlockIo, Kfs, kfs_bitmap_block, kfs_root_block, kfs_bit_get}
use kappara.Fs.Kfs.Bitmap.{InRun, in_run, Blocked, Fits}
use kappara.Fs.Kfs.Io.{IsCoherent, IsReliable}
use kappara.Fs.Kfs.Runs.{Allocation, took, leaked, full, kfs_alloc_block_zero-Allocation}
use kappara.Fs.Kfs.Dir.{kfs_dir_find_slot, put_entry}
use kappara.Fs.Kfs.Dir.Finds.{IsFree, find_slot-IsFree}
use kappara.Fs.Kfs.Ops.{with_disk, write_entry, into_slot, into_dir, add_entry}

-- The block of the directory is in use and is not the bitmap's.
abbrev pub IsDirBlock : {D : Type 0} → ℕ → Kfs D → Type 0
IsDirBlock d s = (d ≢ kfs_bitmap_block) × (kfs_bit_get s.bitmap d ≡ true)

module _ {D : Type 0} (io : BlockIo D) (content : D → ℕ → DiskBlock) (co : IsCoherent io content)
    (rel : IsReliable io) where
  -- What adding an entry to the directory block `d` does.
  pub data Addition (d : ℕ) (name : ℕ → ℕ) (bit count : ℕ) (s : Kfs D) (r : Option (ℕ × ℕ) × Kfs D)
      : Type 0 where
    added :
        (slot start : ℕ)
        → r.0 ≡ some (slot, start)
        → IsFree (content s.disk d) name slot
        → content r.1.disk d ≡ put_entry (content s.disk d) slot name (start + bit)
        → kfs_root_block < start
        → Fits s.nblocks (start + count)
        → ((c : ℕ) → InRun start count c → kfs_bit_get s.bitmap c ≡ false)
        → ((c : ℕ)
            → kfs_bit_get r.1.bitmap c
              ≡ (if in_run start count c then true else kfs_bit_get s.bitmap c))
        → ((c : ℕ)
            → c ≢ kfs_bitmap_block
            → c ≢ d
            → (c < start) ⊎ (start + count ≤ c)
            → content r.1.disk c ≡ content s.disk c)
        → Addition d name bit count s r
    no_slot :
        r.0 ≡ none
        → kfs_dir_find_slot (content s.disk d) name ≡ none
        → r.1.bitmap ≡ s.bitmap
        → ((c : ℕ) → content r.1.disk c ≡ content s.disk c)
        → Addition d name bit count s r
    no_room :
        r.0 ≡ none
        → ((x : ℕ) → kfs_root_block < x → Fits s.nblocks (x + count) → Blocked s.bitmap x count)
        → r.1.bitmap ≡ s.bitmap
        → ((c : ℕ) → content r.1.disk c ≡ content s.disk c)
        → Addition d name bit count s r

  outside_run :
      (start count d : ℕ) (s : Kfs D)
      → ((c : ℕ) → InRun start count c → kfs_bit_get s.bitmap c ≡ false)
      → kfs_bit_get s.bitmap d ≡ true
      → (d < start) ⊎ (start + count ≤ d)
  outside_run start count d s clear h = elim (Bool-cases (in_run start count d)) [
    | inl inside ↦ let no = clear d (ground (arith, inside), ground (arith, inside)) in cc
    | inr out ↦ ground (arith, out)
  ]

  write_entry-Addition :
      (d : ℕ) (name : ℕ → ℕ) (bit count slot : ℕ) (s : Kfs D) (r : ℕ × Kfs D)
      → IsDirBlock d s
      → IsFree (content s.disk d) name slot
      → Allocation io content co count s r
      → Addition d name bit count s (write_entry io d name bit (content s.disk d) slot r)
  unfolding write_entry
  write_entry-Addition d name bit count slot s (start, t) at v
        (took n lo hi clear first bits zeros others) =
      let ok = rel.writes t.disk d (put_entry (content s.disk d) slot name (start + bit)) in
      subst (Addition d name bit count s)
        (sym (if_false (start == 0) (none, t) _ (ground (arith, n))))
        (added slot start (if_true _ _ none ok) v (co.write_done t.disk d _ ok) lo hi clear bits
          (λ c m k o. co.write_other t.disk d _ c (λ e. k (sym e)) ∙ others c m o))
  write_entry-Addition d name bit count slot s (start, t) at v (leaked x e broken clear bits) =
      absurd (broken rel)
  write_entry-Addition d name bit count slot s (start, t) at v (full e absent) =
      subst (λ r. Addition d name bit count s (write_entry io d name bit (content s.disk d) slot r))
        (sym e) (no_room refl absent refl (λ c. refl))

  -- What was read does not change what the device holds.
  Addition-read :
      (d : ℕ) (name : ℕ → ℕ) (bit count : ℕ) (s : Kfs D) (e : D) (r : Option (ℕ × ℕ) × Kfs D)
      → ((c : ℕ) → content e c ≡ content s.disk c)
      → Addition d name bit count (with_disk s e) r
      → Addition d name bit count s r
  Addition-read d name bit count s e r same (added slot start q v entry lo hi clear bits others) =
      added slot start q (subst (λ z. IsFree z name slot) (same d) v)
        (entry ∙ ap (λ z. put_entry z slot name (start + bit)) (same d)) lo hi clear bits
        (λ c m k o. others c m k o ∙ same c)
  Addition-read d name bit count s e r same (no_slot q v b others) =
      no_slot q (ap (λ z. kfs_dir_find_slot z name) (sym (same d)) ∙ v) b (λ c. others c ∙ same c)
  Addition-read d name bit count s e r same (no_room q v b others) =
      no_room q v b (λ c. others c ∙ same c)

  into_slot-Addition :
      (d : ℕ) (name : ℕ → ℕ) (bit count : ℕ) (s : Kfs D)
      → 0 < count
      → IsDirBlock d s
      → Addition d name bit count s (
          into_slot io d name bit count s
            (content s.disk d)
            (kfs_dir_find_slot (content s.disk d) name))
  unfolding into_slot
  into_slot-Addition d name bit count s pos at =
      elim (Option-cases (kfs_dir_find_slot (content s.disk d) name)) [
        | inl missing ↦
            subst
              (λ o.
                Addition d name bit count s (into_slot io d name bit count s (content s.disk d) o))
              (sym missing) (no_slot refl missing refl (λ c. refl))
        | inr (slot, found) ↦
            subst
              (λ o.
                Addition d name bit count s (into_slot io d name bit count s (content s.disk d) o))
              (sym found)
              (write_entry-Addition d name bit count slot s _ at
                (find_slot-IsFree (content s.disk d) name slot found)
                (kfs_alloc_block_zero-Allocation io content co count s pos))
      ]

  pub add_entry-Addition :
      (d : ℕ) (name : ℕ → ℕ) (bit count : ℕ) (s : Kfs D)
      → 0 < count
      → IsDirBlock d s
      → Addition d name bit count s (add_entry io d name bit count s)
  unfolding add_entry into_dir
  add_entry-Addition d name bit count s pos at =
      let (x, got) = rel.reads s.disk d in
      let e : D = (io.bread s.disk d).1 in
      let same : ((c : ℕ) → content e c ≡ content s.disk c) = λ c. co.read_same s.disk d c in
      let read : io.bread s.disk d ≡ (some (content e d), e) =
        λ i. ((got ∙ ap some (co.read_some s.disk d x got ∙ sym (same d))) i, e) in
      subst (λ r. Addition d name bit count s (into_dir io d name bit count s r)) (sym read)
        (Addition-read d name bit count s e _ same
          (into_slot-Addition d name bit count (with_disk s e) pos at))
