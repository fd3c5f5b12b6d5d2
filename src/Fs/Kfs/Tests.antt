-- ===== src/Fs/Kfs/Tests.antt =====
-- The bitmap of kfs.c on a ramdisk of 128 blocks.
use kappara.Base.{ℕ, ◌≡◌, refl, arith, ◌==◌, if◌then◌else◌, test_bit}
use kappara.Fs.Kfs.{
  DiskBlock, Kfs, capacity, kfs_bit_get, run_free, find_run, zero_run, take_run, from_run,
  kfs_alloc_block_zero,
}
use kappara.Fs.Kfs.Io.{ram, held_at, ram-IsCoherent}
use kappara.Fs.Kfs.Runs.{Allocation, kfs_alloc_block_zero-Allocation}

-- The superblock, the bitmap and the root directory are in use.
abbrev pub blank : Kfs (ℕ → DiskBlock)
blank = record { disk = λ b i. 0; nblocks = 128; bitmap = λ i. if i == 0 then 7 else 0 }

kfs_alloc_block_zero-Allocation_example :
    Allocation ram held_at ram-IsCoherent 4 blank (kfs_alloc_block_zero ram 4 blank)
kfs_alloc_block_zero-Allocation_example =
    kfs_alloc_block_zero-Allocation ram held_at ram-IsCoherent 4 blank (omega arith)

first_run : (kfs_alloc_block_zero ram 4 blank).0 ≡ 3
unfolding kfs_alloc_block_zero from_run take_run find_run run_free kfs_bit_get test_bit zero_run
    capacity
first_run = refl
