-- ===== src/Fs/Kfs/Runs.antt =====
-- `kfs_alloc_block_zero` and `kfs_free_blocks`: the bits of a run and its blocks.
use kappara.Base.{
  ℕ, zero, suc, ◌+◌, ◌≤◌, ◌<◌, ◌≡◌, ◌≢◌, refl, sym, ap, ◌∙◌, ◌⊎◌, inl, inr, subst, Bool, true,
  false, arith, ◌==◌, if◌then◌else◌, Bool-cases, if_true, if_false,
}
use kappara.Fs.Kfs.{
  DiskBlock, BlockIo, Kfs, kfs_bitmap_block, kfs_root_block, kfs_bit_get, run_free, set_run,
  kfs_bitmap_save, zero_run, take_run, from_run, kfs_alloc_block_zero, capacity,
}
use kappara.Fs.Kfs.Bitmap.{
  InRun, in_run, Blocked, Fits, run_free-Blocked, capacity-Fits, Fits-capacity, run_free-bits,
  bit_get-set_run,
}
use kappara.Fs.Kfs.Io.{IsCoherent, IsReliable}
use kappara.Fs.Kfs.Search.{found, missing, find_run-Search}

module _ {D : Type 0} (io : BlockIo D) (content : D → ℕ → DiskBlock)
    (co : IsCoherent io content) where
  zero_run_outside :
      (n b : ℕ) (d : D) (c : ℕ)
      → (c < b) ⊎ (b + n ≤ c)
      → content (zero_run io n b d).1 c ≡ content d c
  unfolding zero_run
  zero_run_outside zero b d c h = refl
  zero_run_outside (suc n) b d c h = elim (Bool-cases (io.bwrite d b (λ i. 0)).0) [
    | inl done ↦
        ap (λ (z : Bool × D). content z.1 c) (if_true (io.bwrite d b (λ i. 0)).0 _ _ done)
        ∙ zero_run_outside n (b + 1) (io.bwrite d b (λ i. 0)).1 c (omega (arith, h))
        ∙ co.write_other d b (λ i. 0) c (λ e. omega (arith, e, h))
    | inr failed ↦
        ap (λ (z : Bool × D). content z.1 c) (if_false (io.bwrite d b (λ i. 0)).0 _ _ failed)
        ∙ co.write_other d b (λ i. 0) c (λ e. omega (arith, e, h))
  ]

  zero_run_inside :
      (n b : ℕ) (d : D) (c : ℕ)
      → (zero_run io n b d).0 ≡ true
      → InRun b n c
      → content (zero_run io n b d).1 c ≡ (λ i. 0)
  unfolding zero_run
  zero_run_inside zero b d c e h = absurd (omega (arith, h))
  zero_run_inside (suc n) b d c e h = elim (Bool-cases (io.bwrite d b (λ i. 0)).0) [
    | inr failed ↦
        let no =
          sym e ∙ ap (λ (z : Bool × D). z.0) (if_false (io.bwrite d b (λ i. 0)).0 _ _ failed) in
        cc
    | inl done ↦
        let step =
          if_true (io.bwrite d b (λ i. 0)).0 (zero_run io n (b + 1) (io.bwrite d b (λ i. 0)).1)
            (false, (io.bwrite d b (λ i. 0)).1) done in
        ap (λ (z : Bool × D). content z.1 c) step ∙ elim (Bool-cases (b == c)) [
          | inl same ↦
              let here : b ≡ c = ground (arith, same) in
              zero_run_outside n (b + 1) (io.bwrite d b (λ i. 0)).1 c (inl (omega (arith, here)))
              ∙ ap (content (io.bwrite d b (λ i. 0)).1) (sym here)
              ∙ co.write_done d b (λ i. 0) done
          | inr other ↦
              zero_run_inside n (b + 1) (io.bwrite d b (λ i. 0)).1 c
                (sym (ap (λ (z : Bool × D). z.0) step) ∙ e)
                (ground (arith, h, other), omega (arith, h))
        ]
  ]

  zero_run_done : (n b : ℕ) (d : D) → IsReliable io → (zero_run io n b d).0 ≡ true
  unfolding zero_run
  zero_run_done zero b d rel = refl
  zero_run_done (suc n) b d rel =
      ap (λ (z : Bool × D). z.0) (if_true (io.bwrite d b (λ i. 0)).0 _ _ (rel.writes d b (λ i. 0)))
      ∙ zero_run_done n (b + 1) _ rel

  -- What an allocation of `count` blocks does.
  pub data Allocation (count : ℕ) (s : Kfs D) (r : ℕ × Kfs D) : Type 0 where
    took :
        r.0 ≢ 0
        → kfs_root_block < r.0
        → Fits s.nblocks (r.0 + count)
        → ((c : ℕ) → InRun r.0 count c → kfs_bit_get s.bitmap c ≡ false)
        → ((x : ℕ) → kfs_root_block < x → x < r.0 → Blocked s.bitmap x count)
        → ((c : ℕ)
            → kfs_bit_get r.1.bitmap c
              ≡ (if in_run r.0 count c then true else kfs_bit_get s.bitmap c))
        → ((c : ℕ) → InRun r.0 count c → content r.1.disk c ≡ (λ i. 0))
        → ((c : ℕ)
            → c ≢ kfs_bitmap_block
            → (c < r.0) ⊎ (r.0 + count ≤ c)
            → content r.1.disk c ≡ content s.disk c)
        → Allocation count s r
    leaked :
        (start : ℕ)
        → r.0 ≡ 0
        → ¬ IsReliable io
        → ((c : ℕ) → InRun start count c → kfs_bit_get s.bitmap c ≡ false)
        → ((c : ℕ)
            → kfs_bit_get r.1.bitmap c
              ≡ (if in_run start count c then true else kfs_bit_get s.bitmap c))
        → Allocation count s r
    full :
        r ≡ (0, s)
        → ((x : ℕ) → kfs_root_block < x → Fits s.nblocks (x + count) → Blocked s.bitmap x count)
        → Allocation count s r

  take_run-Allocation :
      (start count : ℕ) (s : Kfs D)
      → kfs_root_block < start
      → start + count ≤ capacity s.nblocks
      → run_free s.bitmap start count ≡ true
      → ((x : ℕ) → kfs_root_block < x → x < start → run_free s.bitmap x count ≡ false)
      → Allocation count s (take_run io start count s)
  unfolding take_run kfs_bitmap_save
  take_run-Allocation start count s lo hi free first = elim (Bool-cases wrote) [
    | inl ok ↦
        let e = if_true wrote start 0 ok in
        subst (λ z. Allocation count s (z, end)) (sym e)
          (took (λ q. omega (arith, q, lo)) lo (capacity-Fits s.nblocks (start + count) hi) clear
            (λ x l h. run_free-Blocked s.bitmap x count (first x l h)) bits
            (λ c k. zero_run_inside count start _ c ok k)
            (λ c n o.
              zero_run_outside count start _ c o
              ∙ co.write_other s.disk kfs_bitmap_block _ c (λ q. n (sym q))))
    | inr broke ↦
        leaked start (if_false wrote start 0 broke)
          (λ rel.
            let done : wrote ≡ true =
              zero_run_done count start (io.bwrite s.disk kfs_bitmap_block marked).1 rel in
            ground (arith, broke, done))
          clear bits
  ]
    where
      marked : DiskBlock
      marked = set_run s.bitmap start count true

      zeroed : Bool × D
      zeroed = zero_run io count start (io.bwrite s.disk kfs_bitmap_block marked).1

      wrote : Bool
      wrote = zeroed.0

      end : Kfs D
      end = record s { bitmap = marked; disk = zeroed.1 }

      clear : (c : ℕ) → InRun start count c → kfs_bit_get s.bitmap c ≡ false
      clear c k = run_free-bits s.bitmap start count c free k

      bits :
          (c : ℕ)
          → kfs_bit_get marked c ≡ (if in_run start count c then true else kfs_bit_get s.bitmap c)
      bits c = bit_get-set_run s.bitmap start count c true

  -- `kfs_alloc_block_zero` takes the first run of that many free blocks above the root directory
  -- and below the end of the device and of the bitmap: the run was free, its bits are set and no
  -- other bit changes, its blocks hold zeros, and no block besides but the bitmap's changes. It
  -- returns 0 with nothing changed exactly if there is no such run, and 0 with the run marked if a
  -- write of zeros fails.
  pub kfs_alloc_block_zero-Allocation :
      (count : ℕ) (s : Kfs D) → 0 < count → Allocation count s (kfs_alloc_block_zero io count s)
  unfolding kfs_alloc_block_zero from_run
  kfs_alloc_block_zero-Allocation count s pos =
      elim (find_run-Search (capacity s.nblocks) s.bitmap (kfs_root_block + 1) count
        (capacity s.nblocks) pos (omega arith)) [
          | found x e lo hi free first ↦
              subst (λ z. Allocation count s (from_run io count s z)) (sym e)
                (take_run-Allocation x count s (omega (arith, lo)) hi free
                  (λ y l h. first y (omega (arith, l)) h))
          | missing e absent ↦
              subst (λ z. Allocation count s (from_run io count s z)) (sym e)
                (full refl (λ y l h.
                  run_free-Blocked s.bitmap y count
                    (absent y (omega (arith, l)) (Fits-capacity s.nblocks (y + count) h))))
        ]
