-- ===== src/Fs/Kfs/History.antt =====
-- No block is given out twice.
use kappara.Base.{
  ℕ, ◌+◌, ◌≤◌, ◌<◌, ◌≡◌, ◌≢◌, refl, sym, ap, ◌∙◌, ◌⊎◌, inl, inr, subst, some, Bool, true, false,
  List, [], ◌∷◌, arith, if◌then◌else◌, if_true, if_false, get_elem?, erase_idx, All, All-get_elem?,
  All-erase_idx,
}
use kappara.Fs.Kfs.{
  DiskBlock, BlockIo, Kfs, kfs_root_block, kfs_bit_get, set_run, kfs_bitmap_save, kfs_free_blocks,
}
use kappara.Fs.Kfs.Bitmap.{InRun, in_run, bit_get-set_run}
use kappara.Fs.Kfs.Io.{IsCoherent}
use kappara.Fs.Kfs.Runs.{Allocation, took, leaked, full, kfs_alloc_block_zero-Allocation}
use kappara.Fs.Kfs.Owners.{
  Owners, Away, IsHeld, IsSound, AllAway-erase_idx, Step, alloc, fail, free, Reach, here, next,
}

in_run-true : (start n c : ℕ) → InRun start n c → in_run start n c ≡ true
in_run-true start n c h = ground (arith, h)

in_run-false : (start n c : ℕ) → (c < start) ⊎ (start + n ≤ c) → in_run start n c ≡ false
in_run-false start n c h = ground (arith, h)

le_or_lt : (a b : ℕ) → (a ≤ b) ⊎ (b < a)
le_or_lt a b = ground arith

-- A run that was free has no block of a run that is held.
free-Away :
    (m : DiskBlock) (start n : ℕ) (rs : List (ℕ × ℕ))
    → 0 < n
    → ((c : ℕ) → InRun start n c → kfs_bit_get m c ≡ false)
    → All (IsHeld m) rs
    → All (Away (start, n)) rs
free-Away m start n [] pos f h = tt
free-Away m start n (q ∷ rs) pos f h = (
  elim (le_or_lt start q.0) [
    | inl l ↦ elim (le_or_lt (start + n) q.0) [
      | inl away ↦ inl away
      | inr over ↦
          let set = h.0.2 q.0 (omega arith, omega (arith, h.0.0)) in
          let clear = f q.0 (omega (arith, l), omega (arith, over)) in cc
    ]
    | inr l ↦ elim (le_or_lt (q.0 + q.1) start) [
      | inl away ↦ inr away
      | inr over ↦
          let set = h.0.2 start (omega (arith, l), omega (arith, over)) in
          let clear = f start (omega arith, omega (arith, pos)) in cc
    ]
  ],
  free-Away m start n rs pos f h.1,
)

module _ (m m' : DiskBlock) (start n : ℕ) (v : Bool)
    (bits : (c : ℕ) → kfs_bit_get m' c ≡ (if in_run start n c then v else kfs_bit_get m c)) where
  bit_outside : (c : ℕ) → (c < start) ⊎ (start + n ≤ c) → kfs_bit_get m' c ≡ kfs_bit_get m c
  bit_outside c h = bits c ∙ if_false (in_run start n c) v _ (in_run-false start n c h)

  -- Runs away from the one that changes keep their bits.
  IsHeld-kept :
      (rs : List (ℕ × ℕ)) → All (Away (start, n)) rs → All (IsHeld m) rs → All (IsHeld m') rs
  IsHeld-kept [] a h = tt
  IsHeld-kept (q ∷ rs) a h = (
    (h.0.0, h.0.1, λ c k. bit_outside c (omega (arith, a.0, k)) ∙ h.0.2 c k),
    IsHeld-kept rs a.1 h.1,
  )

  -- So do the blocks below the first run.
  reserved-kept :
      ((c : ℕ) → c ≤ kfs_root_block → kfs_bit_get m c ≡ true)
      → (v ≡ true) ⊎ (kfs_root_block < start)
      → (c : ℕ) → c ≤ kfs_root_block
      → kfs_bit_get m' c ≡ true
  reserved-kept h (inl e) c l = ground (arith, bits c, e, h c l)
  reserved-kept h (inr k) c l = bit_outside c (inl (omega (arith, k, l))) ∙ h c l

full-Sound :
    {D : Type 0} (o : Owners D) (r : ℕ × Kfs D)
    → r ≡ (0, o.kfs)
    → IsSound o
    → IsSound (record o { kfs = r.1 })
full-Sound o r e v = subst (λ z. IsSound (record o { kfs = z })) (sym (ap (λ z. z.1) e)) v

module _ {D : Type 0} (io : BlockIo D) (content : D → ℕ → DiskBlock)
    (co : IsCoherent io content) where
  alloc-IsSound :
      (o : Owners D) (count : ℕ) (r : ℕ × Kfs D)
      → 0 < count
      → r.0 ≢ 0
      → Allocation io content co count o.kfs r
      → IsSound o
      → IsSound (record { kfs = r.1; runs = (r.0, count) ∷ o.runs })
  alloc-IsSound o count r pos n (took _ lo hi clear first bits zeros others) v =
      let away = free-Away o.kfs.bitmap r.0 count o.runs pos clear v.held in
      record {
        held = (
          (
            pos,
            lo,
            λ c k. bits c ∙ if_true (in_run r.0 count c) true _ (in_run-true r.0 count c k),
          ),
          IsHeld-kept o.kfs.bitmap r.1.bitmap r.0 count true bits o.runs away v.held,
        );
        apart = (away, v.apart);
        reserved = reserved-kept o.kfs.bitmap r.1.bitmap r.0 count true bits v.reserved (inl refl);
      }
  alloc-IsSound o count r pos n (leaked start e broken clear bits) v = absurd (n e)
  alloc-IsSound o count r pos n (full e absent) v = absurd (n (ap (λ z. z.0) e))

  fail-IsSound :
      (o : Owners D) (count : ℕ) (r : ℕ × Kfs D)
      → 0 < count
      → r.0 ≡ 0
      → Allocation io content co count o.kfs r
      → IsSound o
      → IsSound (record o { kfs = r.1 })
  fail-IsSound o count r pos z (took n lo hi clear first bits zeros others) v = absurd (n z)
  fail-IsSound o count r pos z (leaked start e broken clear bits) v = record {
    held =
        IsHeld-kept o.kfs.bitmap r.1.bitmap start count true bits o.runs
          (free-Away o.kfs.bitmap start count o.runs pos clear v.held) v.held;
    apart = v.apart;
    reserved = reserved-kept o.kfs.bitmap r.1.bitmap start count true bits v.reserved (inl refl);
  }
  fail-IsSound o count r pos z (full e absent) v = full-Sound o r e v

  free-IsSound :
      (o : Owners D) (i start count : ℕ)
      → get_elem? o.runs i ≡ some (start, count)
      → IsSound o
      → IsSound (record { kfs = kfs_free_blocks io start count o.kfs; runs = erase_idx o.runs i })
  unfolding kfs_free_blocks kfs_bitmap_save
  free-IsSound o i start count e v =
      let m : DiskBlock = o.kfs.bitmap in
      let m' : DiskBlock = set_run m start count false in
      let bits = λ (c : ℕ). bit_get-set_run m start count c false in
      let own = All-get_elem? (IsHeld m) o.runs i _ v.held e in
      let (rest, gone) = AllAway-erase_idx o.runs i _ v.apart e in
      record {
        held =
            IsHeld-kept m m' start count false bits (erase_idx o.runs i) gone
              (All-erase_idx (IsHeld m) o.runs i v.held);
        apart = rest;
        reserved = reserved-kept m m' start count false bits v.reserved (inr own.1);
      }

  Step-IsSound : {o u : Owners D} → Step io o u → IsSound o → IsSound u
  Step-IsSound (alloc o count pos n) v =
      alloc-IsSound o count _ pos n (kfs_alloc_block_zero-Allocation io content co count o.kfs pos)
        v
  Step-IsSound (fail o count pos z) v =
      fail-IsSound o count _ pos z (kfs_alloc_block_zero-Allocation io content co count o.kfs pos) v
  Step-IsSound (free o i start count e) v = free-IsSound o i start count e v

  -- In every history of runs that are taken and given back, and of attempts that fail, each run in
  -- use lies above the root directory with the bits of all its blocks set, no two runs in use have
  -- a block in common, and the superblock, the bitmap and the root directory stay marked.
  pub Owners-IsSound : {o u : Owners D} → Reach io o u → IsSound o → IsSound u
  Owners-IsSound here v = v
  Owners-IsSound (next r st) v = Step-IsSound st (Owners-IsSound r v)
