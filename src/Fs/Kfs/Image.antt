-- ===== src/Fs/Kfs/Image.antt =====
-- `kfs_mkimage` of kfs.c: a fresh file system with its files, and that it is a sound start.
mod Tests
use kappara.Base.{
  ℕ, zero, suc, ◌+◌, ◌-◌, ◌*◌, ◌≤◌, ◌<◌, ◌≡◌, ◌≢◌, refl, sym, ap, ◌∙◌, ◌⊎◌, inl, inr, subst, Bool,
  true, false, List, [], ◌∷◌, arith, min, length, All, write, ltb, leb, ◌==◌, ◌&&◌, if◌then◌else◌,
  if_true, if_false,
}
use kappara.Fs.Kfs.{
  DiskBlock, BlockIo, Kfs, blk_size, kfs_super_block, kfs_bitmap_block, kfs_root_block,
  kfs_blocks_per_file, kfs_bit_get, kfs_bit_set, set_run,
}
use kappara.Fs.Kfs.Bitmap.{InRun, in_run, bit_get-set, bit_get-set_run}
use kappara.Fs.Kfs.Io.{IsCoherent}
use kappara.Fs.Kfs.File.{kmemcpy, le32}
use kappara.Fs.Kfs.Dir.{kfs_name_max, kfs_dirents, name_at, copy_name, set_start}
use kappara.Fs.Kfs.Owners.{Owners, AllAway, Away, IsHeld, IsSound, Reach}
use kappara.Fs.Kfs.History.{Owners-IsSound}

abbrev pub kfs_magic : ℕ
kfs_magic = 0x024b4653

-- `struct kfs_payload`: a file of the image.
pub record KfsPayload : Type 0 where
  pub name : ℕ → ℕ
  pub bytes : ℕ → ℕ
  pub size : ℕ

abbrev zeros : DiskBlock
zeros i = 0

-- The superblock: the magic number and the number of files.
pub super_block : ℕ → DiskBlock
super_block n = kmemcpy (kmemcpy zeros 0 (le32 kfs_magic) 0 4) 4 (le32 n) 0 4

-- The entry of file `i`.
pub image_entry : DiskBlock → ℕ → KfsPayload → ℕ → DiskBlock
image_entry dir i p start = set_start (copy_name (kfs_name_max - 1) dir i p.name 0) i start p.size

-- The bitmap with the superblock, the bitmap and the root directory in use.
pub reserved_map : DiskBlock
reserved_map =
    kfs_bit_set (kfs_bit_set (kfs_bit_set zeros kfs_super_block true) kfs_bitmap_block true)
      kfs_root_block true

module _ {D : Type 0} (io : BlockIo D) where
  -- The loop over the blocks of a file, with the blocks left, the next block, the place in the file
  -- and the bytes that remain.
  pub fill_blocks : ℕ → ℕ → (ℕ → ℕ) → ℕ → ℕ → Kfs D → Kfs D
  fill_blocks zero blk src off rem s = s
  fill_blocks (suc k) blk src off rem s =
      let n = min rem blk_size in
      fill_blocks k (blk + 1) src (off + n) (rem - n) (record s {
        disk = (io.bwrite s.disk blk (kmemcpy zeros 0 src off n)).1;
        bitmap = kfs_bit_set s.bitmap blk true;
      })

  -- The loop over the files, with the entries left, the next entry and the next block.
  pub image_files : ℕ → List KfsPayload → ℕ → ℕ → DiskBlock → Kfs D → DiskBlock × Kfs D
  image_files zero ps i cur dir s = (dir, s)
  image_files (suc k) [] i cur dir s = (dir, s)
  image_files (suc k) (p ∷ ps) i cur dir s =
      image_files k ps (i + 1) (cur + kfs_blocks_per_file) (image_entry dir i p cur)
        (fill_blocks kfs_blocks_per_file cur p.bytes 0 p.size s)

  -- No write's result is looked at.
  pub kfs_mkimage : List KfsPayload → Kfs D → Kfs D
  kfs_mkimage ps s =
      let d0 = (io.bwrite s.disk kfs_super_block (super_block (length ps))).1 in
      let (dir, t) =
        image_files kfs_dirents ps 0 (kfs_root_block + 1) zeros
          (record s { disk = d0; bitmap = reserved_map }) in
      let d1 = (io.bwrite t.disk kfs_root_block dir).1 in
      record t { disk = (io.bwrite d1 kfs_bitmap_block t.bitmap).1 }

-- The runs of the files.
pub image_runs : ℕ → List KfsPayload → ℕ → List (ℕ × ℕ)
image_runs zero ps cur = []
image_runs (suc k) [] cur = []
image_runs (suc k) (p ∷ ps) cur =
    (cur, kfs_blocks_per_file) ∷ image_runs k ps (cur + kfs_blocks_per_file)

-- All of them start at `low` or later.
abbrev FromOn : ℕ → List (ℕ × ℕ) → Type 0
FromOn low = All (λ r. low ≤ r.0)

image_runs-FromOn :
    (k : ℕ) (ps : List KfsPayload) (cur low : ℕ) → low ≤ cur → FromOn low (image_runs k ps cur)
unfolding image_runs
image_runs-FromOn zero ps cur low h = tt
image_runs-FromOn (suc k) [] cur low h = tt
image_runs-FromOn (suc k) (p ∷ ps) cur low h =
    (h, image_runs-FromOn k ps (cur + kfs_blocks_per_file) low (omega (arith, h)))

FromOn-Away : (start n : ℕ) (rs : List (ℕ × ℕ)) → FromOn (start + n) rs → All (Away (start, n)) rs
FromOn-Away start n [] h = tt
FromOn-Away start n (r ∷ rs) h = (inl h.0, FromOn-Away start n rs h.1)

image_runs-AllAway : (k : ℕ) (ps : List KfsPayload) (cur : ℕ) → AllAway (image_runs k ps cur)
unfolding image_runs
image_runs-AllAway zero ps cur = tt
image_runs-AllAway (suc k) [] cur = tt
image_runs-AllAway (suc k) (p ∷ ps) cur = (
  FromOn-Away cur kfs_blocks_per_file (image_runs k ps (cur + kfs_blocks_per_file)) (
      image_runs-FromOn k ps (cur + kfs_blocks_per_file) (cur + kfs_blocks_per_file) (omega arith)),
  image_runs-AllAway k ps (cur + kfs_blocks_per_file),
)

module _ {D : Type 0} (io : BlockIo D) where
  fill_blocks-set_run :
      (k blk : ℕ) (src : ℕ → ℕ) (off rem : ℕ) (s : Kfs D)
      → (fill_blocks io k blk src off rem s).bitmap ≡ set_run s.bitmap blk k true
  unfolding fill_blocks set_run
  fill_blocks-set_run zero blk src off rem s = refl
  fill_blocks-set_run (suc k) blk src off rem s =
      fill_blocks-set_run k (blk + 1) src (off + min rem blk_size) (rem - min rem blk_size)
        (record s {
          disk = (io.bwrite s.disk blk (kmemcpy zeros 0 src off (min rem blk_size))).1;
          bitmap = kfs_bit_set s.bitmap blk true;
        })

  -- So the bits of a file's blocks are set, and no bit is cleared.
  file_bits :
      (cur : ℕ) (p : KfsPayload) (s : Kfs D) (c : ℕ)
      → (InRun cur kfs_blocks_per_file c) ⊎ (kfs_bit_get s.bitmap c ≡ true)
      → kfs_bit_get (fill_blocks io kfs_blocks_per_file cur p.bytes 0 p.size s).bitmap c ≡ true
  file_bits cur p s c h =
      ap (λ m. kfs_bit_get m c) (fill_blocks-set_run kfs_blocks_per_file cur p.bytes 0 p.size s)
      ∙ bit_get-set_run s.bitmap cur kfs_blocks_per_file c true
      ∙ ground (arith, h)

  -- The bits that are set stay set.
  image_files_keep :
      (k : ℕ) (ps : List KfsPayload) (i cur : ℕ) (dir : DiskBlock) (s : Kfs D) (c : ℕ)
      → kfs_bit_get s.bitmap c ≡ true
      → kfs_bit_get (image_files io k ps i cur dir s).1.bitmap c ≡ true
  unfolding image_files
  image_files_keep zero ps i cur dir s c h = h
  image_files_keep (suc k) [] i cur dir s c h = h
  image_files_keep (suc k) (p ∷ ps) i cur dir s c h =
      image_files_keep k ps (i + 1) (cur + kfs_blocks_per_file) (image_entry dir i p cur)
        (fill_blocks io kfs_blocks_per_file cur p.bytes 0 p.size s) c (file_bits cur p s c (inr h))

  image_files-IsHeld :
      (k : ℕ) (ps : List KfsPayload) (i cur : ℕ) (dir : DiskBlock) (s : Kfs D)
      → kfs_root_block < cur
      → All (IsHeld (image_files io k ps i cur dir s).1.bitmap) (image_runs k ps cur)
  unfolding image_files image_runs
  image_files-IsHeld zero ps i cur dir s h = tt
  image_files-IsHeld (suc k) [] i cur dir s h = tt
  image_files-IsHeld (suc k) (p ∷ ps) i cur dir s h = (
    (
      omega arith,
      h,
      λ c r.
          image_files_keep k ps (i + 1) (cur + kfs_blocks_per_file) (image_entry dir i p cur)
            (fill_blocks io kfs_blocks_per_file cur p.bytes 0 p.size s) c
            (file_bits cur p s c (inl r)),
    ),
    image_files-IsHeld k ps (i + 1) (cur + kfs_blocks_per_file) (image_entry dir i p cur)
        (fill_blocks io kfs_blocks_per_file cur p.bytes 0 p.size s) (omega (arith, h)),
  )

  reserved_bits : (c : ℕ) → c ≤ kfs_root_block → kfs_bit_get reserved_map c ≡ true
  unfolding reserved_map
  reserved_bits c h =
      bit_get-set _ kfs_root_block c true
      ∙ ap (λ z. if kfs_root_block == c then true else z)
          (bit_get-set _ kfs_bitmap_block c true
            ∙ ap (λ z. if kfs_bitmap_block == c then true else z)
                (bit_get-set zeros kfs_super_block c true))
      ∙ ground (arith, h)

  -- The image with the runs of its files.
  abbrev pub image : List KfsPayload → Kfs D → Owners D
  image ps s = record {
    kfs = kfs_mkimage io ps s;
    runs = image_runs kfs_dirents ps (kfs_root_block + 1);
  }

  kfs_mkimage-IsSound : (ps : List KfsPayload) (s : Kfs D) → IsSound (image ps s)
  unfolding kfs_mkimage
  kfs_mkimage-IsSound ps s = record {
    held = image_files-IsHeld kfs_dirents ps 0 (kfs_root_block + 1) zeros _ (omega arith);
    apart = image_runs-AllAway kfs_dirents ps (kfs_root_block + 1);
    reserved =
        λ c h. image_files_keep kfs_dirents ps 0 (kfs_root_block + 1) zeros _ c (reserved_bits c h);
  }

  -- From an image that `kfs_mkimage` has formatted, with whatever files and whatever writes fail, in
  -- every history of runs that are taken and given back, and of attempts that fail: each run in use,
  -- those of the image's files included, lies above the root directory with the bits of all its
  -- blocks set, no two runs in use have a block in common, and the superblock, the bitmap and the
  -- root directory stay marked.
  pub image-IsSound :
      (content : D → ℕ → DiskBlock) (co : IsCoherent io content) (ps : List KfsPayload) (s : Kfs D)
      (u : Owners D)
      → Reach io (image ps s) u
      → IsSound u
  image-IsSound content co ps s u r = Owners-IsSound io content co r (kfs_mkimage-IsSound ps s)
