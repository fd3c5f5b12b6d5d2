-- ===== src/Fs/Kfs/Ops.antt =====
-- The operations of `kfs_dir_fops` in kfs.c on a directory block `d`. `got` says whether the calls
-- of kmalloc succeed, and what the operations hand to vfs.c is their result.
pub mod Adds
pub mod Creates
pub mod Removes
pub mod Cycle
mod Tests
use kappara.Base.{ℕ, ◌+◌, ◌*◌, ◌^◌, Option, none, some, Bool, true, false, ◌==◌, if◌then◌else◌}
use kappara.Fs.Kfs.{
  DiskBlock, BlockIo, Kfs, kfs_blocks_per_file, kfs_alloc_block_zero, kfs_free_blocks,
}
use kappara.Fs.Kfs.File.{KfsFile}
use kappara.Fs.Kfs.Dir.{
  kfs_dirents, kfs_de_dir_bit, kfs_de_start, kfs_de_isdir, kfs_dir_find_slot, kfs_dir_find_named,
  put_entry, drop_entry, all_empty,
}

abbrev pub with_disk : {D : Type 0} → Kfs D → D → Kfs D
with_disk s d = record s { disk = d }

-- The file that is handed to `vfs_mknod_regfile`; `none` is -1.
pub new_file : ℕ → Bool → Option (ℕ × ℕ) → Option KfsFile
new_file d got none = none
new_file d got (some (slot, start)) =
    if got
    then some (record {
      start_block = start;
      size_bytes = 0;
      alloc_blocks = kfs_blocks_per_file;
      dir_block = d;
      dirent_idx = slot;
    })
    else none

-- The block of the directory that is handed to `vfs_mkdir`.
pub new_dir : Bool → Option (ℕ × ℕ) → Option ℕ
new_dir got none = none
new_dir got (some (slot, start)) = if got then some start else none

module _ {D : Type 0} (io : BlockIo D) where
  -- `kfs_dir_creat` and `kfs_dir_mkdir` from the entry's start to its write: the slot and the first
  -- block. The directory bit is or-ed to a block number below it, which adds it.
  pub write_entry : ℕ → (ℕ → ℕ) → ℕ → DiskBlock → ℕ → ℕ × Kfs D → Option (ℕ × ℕ) × Kfs D
  write_entry d name bit dir slot (start, s) =
      let done = io.bwrite s.disk d (put_entry dir slot name (start + bit)) in
      if start == 0
      then (none, s)
      else ((if done.0 then some (slot, start) else none), with_disk s done.1)

  pub into_slot : ℕ → (ℕ → ℕ) → ℕ → ℕ → Kfs D → DiskBlock → Option ℕ → Option (ℕ × ℕ) × Kfs D
  into_slot d name bit count s dir none = (none, s)
  into_slot d name bit count s dir (some slot) =
      write_entry d name bit dir slot (kfs_alloc_block_zero io count s)

  pub into_dir : ℕ → (ℕ → ℕ) → ℕ → ℕ → Kfs D → Option DiskBlock × D → Option (ℕ × ℕ) × Kfs D
  into_dir d name bit count s (none, e) = (none, with_disk s e)
  into_dir d name bit count s (some dir, e) =
      into_slot d name bit count (with_disk s e) dir (kfs_dir_find_slot dir name)

  pub add_entry : ℕ → (ℕ → ℕ) → ℕ → ℕ → Kfs D → Option (ℕ × ℕ) × Kfs D
  add_entry d name bit count s = into_dir d name bit count s (io.bread s.disk d)

  pub kfs_dir_creat : ℕ → (ℕ → ℕ) → Bool → Kfs D → Option KfsFile × Kfs D
  kfs_dir_creat d name got s =
      let r = add_entry d name 0 kfs_blocks_per_file s in (new_file d got r.0, r.1)

  pub kfs_dir_mkdir : ℕ → (ℕ → ℕ) → Bool → Kfs D → Option ℕ × Kfs D
  kfs_dir_mkdir d name got s = let r = add_entry d name kfs_de_dir_bit 1 s in (new_dir got r.0, r.1)

  -- The write of the cleared entry and what follows it; `false` is -1.
  pub clear_entry : ℕ → ℕ → DiskBlock → ℕ → Kfs D → Bool × Kfs D
  clear_entry d count dir slot s =
      let start = kfs_de_start dir slot in
      let done = io.bwrite s.disk d (drop_entry dir slot) in
      let t = with_disk s done.1 in
      if done.0
      then (true, if start == 0 then t else kfs_free_blocks io start count t)
      else (false, t)

  pub unlink_slot : ℕ → Kfs D → DiskBlock → Option ℕ → Bool × Kfs D
  unlink_slot d s dir none = (false, s)
  unlink_slot d s dir (some slot) =
      if kfs_de_isdir dir slot then (false, s) else clear_entry d kfs_blocks_per_file dir slot s

  pub unlink_in : ℕ → (ℕ → ℕ) → Kfs D → Option DiskBlock × D → Bool × Kfs D
  unlink_in d name s (none, e) = (false, with_disk s e)
  unlink_in d name s (some dir, e) = unlink_slot d (with_disk s e) dir (kfs_dir_find_named dir name)

  pub kfs_dir_unlink : ℕ → (ℕ → ℕ) → Kfs D → Bool × Kfs D
  kfs_dir_unlink d name s = unlink_in d name s (io.bread s.disk d)

  -- `kfs_dir_rmdir` once the block of the directory to remove is read. Its first
  -- block is not tested.
  pub rmdir_block : ℕ → Kfs D → DiskBlock → ℕ → Option DiskBlock × D → Bool × Kfs D
  rmdir_block d s dir slot (none, e) = (false, with_disk s e)
  rmdir_block d s dir slot (some sub, e) =
      let t = with_disk s e in
      let done = io.bwrite e d (drop_entry dir slot) in
      if all_empty kfs_dirents sub 0
      then (if done.0
          then (true, kfs_free_blocks io (kfs_de_start dir slot) 1 (with_disk s done.1))
          else (false, with_disk s done.1))
      else (false, t)

  pub rmdir_slot : ℕ → Kfs D → DiskBlock → Option ℕ → Bool × Kfs D
  rmdir_slot d s dir none = (false, s)
  rmdir_slot d s dir (some slot) =
      if kfs_de_isdir dir slot
      then rmdir_block d s dir slot (io.bread s.disk (kfs_de_start dir slot))
      else (false, s)

  pub rmdir_in : ℕ → (ℕ → ℕ) → Kfs D → Option DiskBlock × D → Bool × Kfs D
  rmdir_in d name s (none, e) = (false, with_disk s e)
  rmdir_in d name s (some dir, e) = rmdir_slot d (with_disk s e) dir (kfs_dir_find_named dir name)

  pub kfs_dir_rmdir : ℕ → (ℕ → ℕ) → Kfs D → Bool × Kfs D
  kfs_dir_rmdir d name s = rmdir_in d name s (io.bread s.disk d)
