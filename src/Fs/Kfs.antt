-- ===== src/Fs/Kfs.antt =====
-- uts/os/fs/kfs.c: the file system of the ramdisks. This file has one mounted device: its blocks,
-- which the buffer cache of uts/os/io/buf.c reads and writes, and the free-block bitmap in memory.
-- A block is a function from the byte's place to the byte.
pub mod Bitmap
pub mod Io
pub mod Search
pub mod Runs
pub mod Owners
pub mod History
pub mod File
pub mod Dir
pub mod Ops
pub mod Image
mod Tests
use kappara.Base.{
  ℕ, zero, suc, ◌+◌, ◌-◌, ◌*◌, ◌/◌, ◌%◌, ◌^◌, Option, none, some, Bool, true, false, not, ◌||◌,
  ◌&&◌, ltb, leb, if◌then◌else◌, write, min, test_bit, bitwise,
}

abbrev pub blk_size : ℕ
blk_size = 512

abbrev pub kfs_super_block : ℕ
kfs_super_block = 0

abbrev pub kfs_bitmap_block : ℕ
kfs_bitmap_block = 1

abbrev pub kfs_root_block : ℕ
kfs_root_block = 2

abbrev pub kfs_blocks_per_file : ℕ
kfs_blocks_per_file = 64

abbrev pub DiskBlock : Type 0
DiskBlock = ℕ → ℕ

-- The calls of the buffer cache that kfs.c makes, over a state `D` of the cache and the device: a
-- block read with `bread`, copied and released, or NULL; and a block that is filled and written
-- with `bwrite`, with whether that succeeded.
pub record BlockIo (D : Type 0) : Type 0 where
  pub bread : D → ℕ → Option DiskBlock × D
  pub bwrite : D → ℕ → DiskBlock → Bool × D

-- `struct kfs_mnt` with its device.
pub record Kfs (D : Type 0) : Type 0 where
  pub disk : D
  pub nblocks : ℕ
  pub bitmap : DiskBlock

-- `|` and `& ~` of `uint8_t`.
pub or8 : ℕ → ℕ → ℕ
or8 a b = bitwise ◌||◌ 8 a b

pub and_not8 : ℕ → ℕ → ℕ
and_not8 a b = bitwise (λ x y. x && not y) 8 a b

pub kfs_bit_get : DiskBlock → ℕ → Bool
kfs_bit_get m blk = test_bit (m (blk / 8)) (blk % 8)

pub kfs_bit_set : DiskBlock → ℕ → Bool → DiskBlock
kfs_bit_set m blk val =
    write m (blk / 8)
      (if val then or8 (m (blk / 8)) (2 ^ (blk % 8)) else and_not8 (m (blk / 8)) (2 ^ (blk % 8)))

-- The inner loop of the search: no block of the run is in use.
pub run_free : DiskBlock → ℕ → ℕ → Bool
run_free m start zero = true
run_free m start (suc n) =
    let rest = run_free m (start + 1) n in if kfs_bit_get m start then false else rest

-- The loops that mark or clear a run.
pub set_run : DiskBlock → ℕ → ℕ → Bool → DiskBlock
set_run m start zero val = m
set_run m start (suc n) val = set_run (kfs_bit_set m start val) (start + 1) n val

-- The search from block `start` on, on fuel.
pub find_run : ℕ → DiskBlock → ℕ → ℕ → ℕ → Option ℕ
find_run zero m start count total = none
find_run (suc f) m start count total =
    let rest = find_run f m (start + 1) count total in
    if leb (start + count) total
    then (if run_free m start count then some start else rest)
    else none

-- The blocks that the bitmap can stand for.
pub capacity : ℕ → ℕ
capacity n = if ltb (blk_size * 8) n then blk_size * 8 else n

module _ {D : Type 0} (io : BlockIo D) where
  -- The result of the write is not looked at.
  pub kfs_bitmap_save : Kfs D → Kfs D
  kfs_bitmap_save s = record s { disk = (io.bwrite s.disk kfs_bitmap_block s.bitmap).1 }

  -- The loop that writes zeros, with the blocks that are left; it ends at the first failure.
  pub zero_run : ℕ → ℕ → D → Bool × D
  zero_run zero b d = (true, d)
  zero_run (suc n) b d =
      let done = io.bwrite d b (λ i. 0) in
      let rest = zero_run n (b + 1) done.1 in if done.0 then rest else (false, done.1)

  -- `kfs_alloc_block_zero` once a run is found.
  pub take_run : ℕ → ℕ → Kfs D → ℕ × Kfs D
  take_run start count s =
      let t = kfs_bitmap_save (record s { bitmap = set_run s.bitmap start count true }) in
      let (ok, d) = zero_run count start t.disk in
      ((if ok then start else 0), record t { disk = d })

  pub from_run : ℕ → Kfs D → Option ℕ → ℕ × Kfs D
  from_run count s none = (0, s)
  from_run count s (some start) = take_run start count s

  pub kfs_alloc_block_zero : ℕ → Kfs D → ℕ × Kfs D
  kfs_alloc_block_zero count s =
      let total = capacity s.nblocks in
      from_run count s (find_run total s.bitmap (kfs_root_block + 1) count total)

  pub kfs_free_blocks : ℕ → ℕ → Kfs D → Kfs D
  kfs_free_blocks start count s =
      kfs_bitmap_save (record s { bitmap = set_run s.bitmap start count false })
