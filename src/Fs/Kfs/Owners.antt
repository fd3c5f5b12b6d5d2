-- ===== src/Fs/Kfs/Owners.antt =====
-- The runs of blocks that files and directories hold, over time.
use kappara.Base.{
  ℕ, zero, suc, ◌+◌, ◌≤◌, ◌<◌, ◌≡◌, ◌≢◌, ◌⊎◌, inl, inr, subst, some, true, List, [], ◌∷◌, get_elem?,
  erase_idx, All, All-get_elem?, All-erase_idx,
}
use mathlib.Core.Option.{some-injective}
use kappara.Fs.Kfs.{
  DiskBlock, BlockIo, Kfs, kfs_root_block, kfs_bit_get, kfs_alloc_block_zero, kfs_free_blocks,
}
use kappara.Fs.Kfs.Bitmap.{InRun}

-- The file system with the runs that are in use: the first block and the number of blocks of each.
pub record Owners (D : Type 0) : Type 0 where
  pub kfs : Kfs D
  pub runs : List (ℕ × ℕ)

-- Two runs have no block in common.
abbrev pub Away : ℕ × ℕ → ℕ × ℕ → Type 0
Away r q = (r.0 + r.1 ≤ q.0) ⊎ (q.0 + q.1 ≤ r.0)

abbrev pub AllAway : List (ℕ × ℕ) → Type 0
AllAway [] = Unit {0}
AllAway (r ∷ rs) = All (Away r) rs × AllAway rs

-- A run of at least one block, above the root directory, all of whose bits are set.
abbrev pub IsHeld : DiskBlock → ℕ × ℕ → Type 0
IsHeld m r =
    (0 < r.1) × (kfs_root_block < r.0) × ((c : ℕ) → InRun r.0 r.1 c → kfs_bit_get m c ≡ true)

pub record IsSound {D : Type 0} (o : Owners D) : Type 0 where
  pub held : All (IsHeld o.kfs.bitmap) o.runs
  pub apart : AllAway o.runs
  pub reserved : (c : ℕ) → c ≤ kfs_root_block → kfs_bit_get o.kfs.bitmap c ≡ true

Away-sym : (r q : ℕ × ℕ) → Away r q → Away q r
Away-sym r q (inl h) = inr h
Away-sym r q (inr h) = inl h

pub AllAway-erase_idx :
    (rs : List (ℕ × ℕ)) (i : ℕ) (r : ℕ × ℕ)
    → AllAway rs
    → get_elem? rs i ≡ some r
    → AllAway (erase_idx rs i) × All (Away r) (erase_idx rs i)
AllAway-erase_idx [] i r d e = cc
AllAway-erase_idx (q ∷ rs) zero r d e =
    (d.1, subst (λ z. All (Away z) rs) (some-injective q r e) d.0)
AllAway-erase_idx (q ∷ rs) (suc i) r d e =
    let (rest, gone) = AllAway-erase_idx rs i r d.1 e in
    (
      (All-erase_idx (Away q) rs i d.0, rest),
      (Away-sym q r (All-get_elem? (Away q) rs i r d.0 e), gone),
    )

module _ {D : Type 0} (io : BlockIo D) where
  -- A run is taken, an attempt to take one fails, or a run that is in use is given back.
  pub data Step : Owners D → Owners D → Type 0 where
    alloc :
        (o : Owners D) (count : ℕ)
        → 0 < count
        → (kfs_alloc_block_zero io count o.kfs).0 ≢ 0
        → Step o (record {
          kfs = (kfs_alloc_block_zero io count o.kfs).1;
          runs = ((kfs_alloc_block_zero io count o.kfs).0, count) ∷ o.runs;
        })
    fail :
        (o : Owners D) (count : ℕ)
        → 0 < count
        → (kfs_alloc_block_zero io count o.kfs).0 ≡ 0
        → Step o (record o { kfs = (kfs_alloc_block_zero io count o.kfs).1 })
    free :
        (o : Owners D) (i start count : ℕ)
        → get_elem? o.runs i ≡ some (start, count)
        → Step o (record { kfs = kfs_free_blocks io start count o.kfs; runs = erase_idx o.runs i })

  pub data Reach (o : Owners D) : Owners D → Type 0 where
    here : Reach o o
    next : {t u : Owners D} → Reach o t → Step t u → Reach o u
