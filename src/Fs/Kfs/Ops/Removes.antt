-- ===== src/Fs/Kfs/Ops/Removes.antt =====
-- `kfs_dir_unlink` on a device that does not fail.
use kappara.Base.{
  ℕ, ◌+◌, ◌*◌, ◌≤◌, ◌<◌, ◌≡◌, ◌≢◌, refl, sym, ap, ◌∙◌, ◌⊎◌, inl, inr, subst, none, some, Bool, true,
  false, not, ◌&&◌, arith, ◌==◌, if◌then◌else◌, Option-cases, if_true, if-elim,
}
use kappara.Fs.Kfs.{
  DiskBlock, BlockIo, Kfs, kfs_bitmap_block, kfs_blocks_per_file, kfs_bit_get, set_run,
  kfs_bitmap_save, kfs_free_blocks,
}
use kappara.Fs.Kfs.Bitmap.{in_run, bit_get-set_run}
use kappara.Fs.Kfs.Io.{IsCoherent, IsReliable}
use kappara.Fs.Kfs.Dir.{kfs_de_start, kfs_de_isdir, is_empty, kfs_dir_find_named, drop_entry}
use kappara.Fs.Kfs.Dir.Entries.{drop_entry_outside, drop_entry-empty}
use kappara.Fs.Kfs.Ops.{with_disk, clear_entry, unlink_slot, unlink_in, kfs_dir_unlink}

module _ {D : Type 0} (io : BlockIo D) (content : D → ℕ → DiskBlock) (co : IsCoherent io content)
    (rel : IsReliable io) where
  -- The entry is cleared, and its blocks, if it has any, are given back.
  pub record Cleared (d count slot : ℕ) (s t : Kfs D) : Type 0 where
    pub empty : is_empty (content t.disk d) slot ≡ true
    pub entries :
        (pos : ℕ)
        → (pos < slot * 19) ⊎ (slot * 19 + 19 ≤ pos)
        → content t.disk d pos ≡ content s.disk d pos
    pub bits :
        (c : ℕ)
        → kfs_bit_get t.bitmap c ≡ (
            if not (kfs_de_start (content s.disk d) slot == 0)
              && in_run (kfs_de_start (content s.disk d) slot) count c
            then false
            else kfs_bit_get s.bitmap c)
    pub others : (c : ℕ) → c ≢ kfs_bitmap_block → c ≢ d → content t.disk c ≡ content s.disk c

  -- The outcomes of `kfs_dir_unlink`.
  pub data Removal (d : ℕ) (name : ℕ → ℕ) (s : Kfs D) (r : Bool × Kfs D) : Type 0 where
    removed :
        (slot : ℕ)
        → r.0 ≡ true
        → kfs_dir_find_named (content s.disk d) name ≡ some slot
        → kfs_de_isdir (content s.disk d) slot ≡ false
        → Cleared d kfs_blocks_per_file slot s r.1
        → Removal d name s r
    kept :
        r.0 ≡ false
        → (kfs_dir_find_named (content s.disk d) name ≡ none)
          ⊎ ((slot : ℕ) × (kfs_dir_find_named (content s.disk d) name ≡ some slot)
              × (kfs_de_isdir (content s.disk d) slot ≡ true))
        → r.1.bitmap ≡ s.bitmap
        → ((c : ℕ) → content r.1.disk c ≡ content s.disk c)
        → Removal d name s r

  clear_entry-Cleared :
      (d count slot : ℕ) (s : Kfs D)
      → d ≢ kfs_bitmap_block
      → ((clear_entry io d count (content s.disk d) slot s).0 ≡ true)
        × Cleared d count slot s (clear_entry io d count (content s.disk d) slot s).1
  unfolding clear_entry kfs_free_blocks kfs_bitmap_save
  clear_entry-Cleared d count slot s n =
      let x : DiskBlock = content s.disk d in
      let w = io.bwrite s.disk d (drop_entry x slot) in
      let ok = rel.writes s.disk d (drop_entry x slot) in
      let t : Kfs D = with_disk s w.1 in
      let start : ℕ = kfs_de_start x slot in
      let here : content w.1 d ≡ drop_entry x slot = co.write_done s.disk d _ ok in
      subst (λ (r : Bool × Kfs D). (r.0 ≡ true) × Cleared d count slot s r.1)
        (sym (
          if_true w.0 (true, if start == 0 then t else kfs_free_blocks io start count t) (false, t)
            ok))
        (
          refl,
          if-elim (Cleared d count slot s) (start == 0)
              (λ zero. record {
                empty = ap (λ z. is_empty z slot) here ∙ drop_entry-empty x slot;
                entries =
                    λ pos o. ap (λ (z : DiskBlock). z pos) here ∙ drop_entry_outside x slot pos o;
                bits = λ c. ground (arith, zero);
                others = λ c m k. co.write_other s.disk d _ c (λ e. k (sym e));
              })
              (λ some_run.
                let saved : DiskBlock = set_run s.bitmap start count false in
                let kept = λ (c : ℕ) (m : c ≢ kfs_bitmap_block).
                  co.write_other w.1 kfs_bitmap_block saved c (λ e. m (sym e)) in
                record {
                  empty = ap (λ z. is_empty z slot) (kept d n ∙ here) ∙ drop_entry-empty x slot;
                  entries = λ pos o.
                      ap (λ (z : DiskBlock). z pos) (kept d n ∙ here)
                      ∙ drop_entry_outside x slot pos o;
                  bits =
                      λ c. bit_get-set_run s.bitmap start count c false ∙ ground (arith, some_run);
                  others = λ c m k. kept c m ∙ co.write_other s.disk d _ c (λ e. k (sym e));
                }),
        )

  unlink_slot-Removal :
      (d : ℕ) (name : ℕ → ℕ) (s : Kfs D)
      → d ≢ kfs_bitmap_block
      → Removal d name s
          (unlink_slot io d s (content s.disk d) (kfs_dir_find_named (content s.disk d) name))
  unfolding unlink_slot
  unlink_slot-Removal d name s n =
      elim (Option-cases (kfs_dir_find_named (content s.disk d) name)) [
        | inl missing ↦
            subst (λ o. Removal d name s (unlink_slot io d s (content s.disk d) o)) (sym missing)
              (kept refl (inl missing) refl (λ c. refl))
        | inr (slot, found) ↦
            subst (λ o. Removal d name s (unlink_slot io d s (content s.disk d) o)) (sym found)
              (if-elim (Removal d name s) (kfs_de_isdir (content s.disk d) slot)
                (λ dir. kept refl (inr (slot, found, dir)) refl (λ c. refl))
                (λ file.
                  let (done, cleared) = clear_entry-Cleared d kfs_blocks_per_file slot s n in
                  removed slot done found file cleared))
      ]

  Cleared-read :
      (d count slot : ℕ) (s t : Kfs D) (e : D)
      → ((c : ℕ) → content e c ≡ content s.disk c)
      → Cleared d count slot (with_disk s e) t
      → Cleared d count slot s t
  Cleared-read d count slot s t e same v = record {
    empty = v.empty;
    entries = λ pos o. v.entries pos o ∙ ap (λ (z : DiskBlock). z pos) (same d);
    bits = λ c.
        v.bits c
        ∙ ap
            (λ (z : DiskBlock).
              if not (kfs_de_start z slot == 0) && in_run (kfs_de_start z slot) count c
              then false
              else kfs_bit_get s.bitmap c)
            (same d);
    others = λ c m k. v.others c m k ∙ same c;
  }

  Removal-read :
      (d : ℕ) (name : ℕ → ℕ) (s : Kfs D) (e : D) (r : Bool × Kfs D)
      → ((c : ℕ) → content e c ≡ content s.disk c)
      → Removal d name (with_disk s e) r
      → Removal d name s r
  Removal-read d name s e r same (removed slot ok found file v) =
      removed slot ok (ap (λ z. kfs_dir_find_named z name) (sym (same d)) ∙ found)
        (ap (λ z. kfs_de_isdir z slot) (sym (same d)) ∙ file)
        (Cleared-read d kfs_blocks_per_file slot s r.1 e same v)
  Removal-read d name s e r same (kept ok (inl missing) b others) =
      kept ok (inl (ap (λ z. kfs_dir_find_named z name) (sym (same d)) ∙ missing)) b
        (λ c. others c ∙ same c)
  Removal-read d name s e r same (kept ok (inr (slot, found, dir)) b others) =
      kept ok
        (inr (
          slot,
          ap (λ z. kfs_dir_find_named z name) (sym (same d)) ∙ found,
          ap (λ z. kfs_de_isdir z slot) (sym (same d)) ∙ dir,
        ))
        b (λ c. others c ∙ same c)

  -- `kfs_dir_unlink` on a device that does not fail refuses, with nothing changed, a name that is
  -- not there or is a directory's; otherwise it clears the entry that a search for the name finds,
  -- gives back its 64 blocks, and leaves every other entry, bit and block, but for the bitmap's.
  pub kfs_dir_unlink-Removal :
      (d : ℕ) (name : ℕ → ℕ) (s : Kfs D)
      → d ≢ kfs_bitmap_block
      → Removal d name s (kfs_dir_unlink io d name s)
  unfolding kfs_dir_unlink unlink_in
  kfs_dir_unlink-Removal d name s n =
      let (x, got) = rel.reads s.disk d in
      let e : D = (io.bread s.disk d).1 in
      let same : ((c : ℕ) → content e c ≡ content s.disk c) = λ c. co.read_same s.disk d c in
      let read : io.bread s.disk d ≡ (some (content e d), e) =
        λ i. ((got ∙ ap some (co.read_some s.disk d x got ∙ sym (same d))) i, e) in
      subst (λ r. Removal d name s (unlink_in io d name s r)) (sym read)
        (Removal-read d name s e _ same (unlink_slot-Removal d name (with_disk s e) n))
