-- ===== src/Fs/Kfs/Ops/Creates.antt =====
-- `kfs_dir_creat` on a device that does not fail: the entry, its blocks, and the refusals.
use kappara.Base.{
  ℕ, ◌+◌, ◌*◌, ◌≤◌, ◌<◌, ◌≡◌, ◌≢◌, refl, ap, ◌∙◌, ◌⊎◌, inl, inr, Option, none, some, true, false,
  arith, if◌then◌else◌,
}
use kappara.Fs.Kfs.{
  DiskBlock, BlockIo, Kfs, kfs_bitmap_block, kfs_root_block, kfs_blocks_per_file, kfs_bit_get,
}
use kappara.Fs.Kfs.Bitmap.{InRun, in_run, Blocked, Fits}
use kappara.Fs.Kfs.Io.{IsCoherent, IsReliable}
use kappara.Fs.Kfs.File.{KfsFile}
use kappara.Fs.Kfs.Dir.{kfs_de_start, kfs_de_isdir, kfs_dir_find_named, put_entry}
use kappara.Fs.Kfs.Dir.Entries.{put_entry_outside}
use kappara.Fs.Kfs.Dir.Finds.{IsFree, free-unnamed, put_entry-found, put_entry-start}
use kappara.Fs.Kfs.Dir.Refusals.{Refusal, find_slot-Refusal}
use kappara.Fs.Kfs.Ops.{new_file, kfs_dir_creat}
use kappara.Fs.Kfs.Ops.Adds.{added, no_slot, no_room, IsDirBlock, add_entry-Addition}

module _ {D : Type 0} (io : BlockIo D) (content : D → ℕ → DiskBlock) (co : IsCoherent io content)
    (rel : IsReliable io) where
  -- What `kfs_dir_creat` hands to vfs.c, and what it leaves on the device.
  pub record Created (d : ℕ) (name : ℕ → ℕ) (s : Kfs D) (kf : KfsFile) (t : Kfs D) : Type 0 where
    pub new : kfs_dir_find_named (content s.disk d) name ≡ none
    pub found : kfs_dir_find_named (content t.disk d) name ≡ some kf.dirent_idx
    pub start : kfs_de_start (content t.disk d) kf.dirent_idx ≡ kf.start_block
    pub regular : kfs_de_isdir (content t.disk d) kf.dirent_idx ≡ false
    pub entries :
        (pos : ℕ)
        → (pos < kf.dirent_idx * 19) ⊎ (kf.dirent_idx * 19 + 19 ≤ pos)
        → content t.disk d pos ≡ content s.disk d pos
    pub file : (kf.size_bytes ≡ 0) × (kf.alloc_blocks ≡ kfs_blocks_per_file) × (kf.dir_block ≡ d)
    pub above : kfs_root_block < kf.start_block
    pub clear : (c : ℕ) → InRun kf.start_block kf.alloc_blocks c → kfs_bit_get s.bitmap c ≡ false
    pub bits :
        (c : ℕ)
        → kfs_bit_get t.bitmap c
          ≡ (if in_run kf.start_block kf.alloc_blocks c then true else kfs_bit_get s.bitmap c)
    pub others :
        (c : ℕ)
        → c ≢ kfs_bitmap_block
        → c ≢ d
        → (c < kf.start_block) ⊎ (kf.start_block + kf.alloc_blocks ≤ c)
        → content t.disk c ≡ content s.disk c

  -- The outcomes of `kfs_dir_creat`.
  pub data Creation (d : ℕ) (name : ℕ → ℕ) (s : Kfs D) (r : Option KfsFile × Kfs D) : Type 0 where
    created : (kf : KfsFile) → r.0 ≡ some kf → Created d name s kf r.1 → Creation d name s r
    refused :
        r.0 ≡ none
        → Refusal (content s.disk d) name
          ⊎ ((x : ℕ)
              → kfs_root_block < x
              → Fits s.nblocks (x + kfs_blocks_per_file)
              → Blocked s.bitmap x kfs_blocks_per_file)
        → r.1.bitmap ≡ s.bitmap
        → ((c : ℕ) → content r.1.disk c ≡ content s.disk c)
        → Creation d name s r

  file-Created :
      (d : ℕ) (name : ℕ → ℕ) (s t : Kfs D) (slot start : ℕ)
      → name 0 ≢ 0
      → IsFree (content s.disk d) name slot
      → content t.disk d ≡ put_entry (content s.disk d) slot name (start + 0)
      → kfs_root_block < start
      → Fits s.nblocks (start + kfs_blocks_per_file)
      → ((c : ℕ) → InRun start kfs_blocks_per_file c → kfs_bit_get s.bitmap c ≡ false)
      → ((c : ℕ)
          → kfs_bit_get t.bitmap c
            ≡ (if in_run start kfs_blocks_per_file c then true else kfs_bit_get s.bitmap c))
      → ((c : ℕ)
          → c ≢ kfs_bitmap_block
          → c ≢ d
          → (c < start) ⊎ (start + kfs_blocks_per_file ≤ c)
          → content t.disk c ≡ content s.disk c)
      → Created d name s
          (record {
            start_block = start;
            size_bytes = 0;
            alloc_blocks = kfs_blocks_per_file;
            dir_block = d;
            dirent_idx = slot;
          })
          t
  file-Created d name s t slot start h v entry lo hi clear bits others =
      let x : DiskBlock = content s.disk d in
      let (first, kind) = put_entry-start x slot name (start + 0) (omega (arith, hi)) in
      record {
        new = free-unnamed x name slot v;
        found =
            ap (λ z. kfs_dir_find_named z name) entry ∙ put_entry-found x name slot (start + 0) v h;
        start = ap (λ z. kfs_de_start z slot) entry ∙ first ∙ omega (arith, hi);
        regular = ap (λ z. kfs_de_isdir z slot) entry ∙ kind ∙ ground (arith, hi);
        entries = λ pos o.
            ap (λ (z : DiskBlock). z pos) entry ∙ put_entry_outside x slot name (start + 0) pos o;
        file = (refl, refl, refl);
        above = lo;
        clear = clear;
        bits = bits;
        others = others;
      }

  -- `kfs_dir_creat` of a name that is not empty, where memory is there and the device does not
  -- fail, in a directory whose block is in use: it refuses only where the name has more than 10
  -- bytes, an entry of the directory has it already, all 26 entries are in use or no run of 64 blocks
  -- is free, and then nothing is changed; otherwise the name was new, a search for it now finds the entry of the file, which says that it
  -- is a file and where it starts, the 64 blocks from there on were free and are in use, and every
  -- other entry, bit and block is as before, but for the blocks of the file and of the bitmap.
  pub kfs_dir_creat-Creation :
      (d : ℕ) (name : ℕ → ℕ) (s : Kfs D)
      → name 0 ≢ 0
      → IsDirBlock d s
      → Creation d name s (kfs_dir_creat io d name true s)
  unfolding kfs_dir_creat new_file
  kfs_dir_creat-Creation d name s h at =
      elim (add_entry-Addition io content co rel d name 0 kfs_blocks_per_file s (omega arith) at) [
        | added slot start q v entry lo hi clear bits others ↦
            created _ (ap (new_file d true) q)
              (file-Created d name s _ slot start h v entry lo hi clear bits others)
        | no_slot q v b others ↦
            refused (ap (new_file d true) q) (inl (find_slot-Refusal (content s.disk d) name v)) b
              others
        | no_room q v b others ↦ refused (ap (new_file d true) q) (inr v) b others
      ]
