-- ===== src/Fs/Kfs/Ops/Tests.antt =====
-- The directories of kfs.c on a ramdisk.
use kappara.Base.{
  ℕ, ◌+◌, ◌*◌, ◌≤◌, ◌<◌, ◌≡◌, refl, ◌⊎◌, some, true, arith, ◌==◌, if◌then◌else◌, test_bit,
}
use kappara.Fs.Kfs.{
  DiskBlock, Kfs, kfs_bit_get, kfs_alloc_block_zero, from_run, take_run, find_run, run_free,
  zero_run, capacity,
}
use kappara.Fs.Kfs.Io.{ram, held_at, ram-IsCoherent, ram-IsReliable}
use kappara.Fs.Kfs.Dir.{is_empty, kfs_dir_find_slot, name_fits, slot_loop, is_dup, keep_first}
use kappara.Fs.Kfs.File.{KfsFile}
use kappara.Fs.Kfs.Ops.{
  kfs_dir_creat, kfs_dir_unlink, add_entry, into_dir, into_slot, write_entry, new_file,
}
use kappara.Fs.Kfs.Ops.Adds.{IsDirBlock}
use kappara.Fs.Kfs.Ops.Creates.{Creation, kfs_dir_creat-Creation}
use kappara.Fs.Kfs.Ops.Cycle.{creat-unlink}

abbrev blank : Kfs (ℕ → DiskBlock)
blank = record { disk = λ b i. 0; nblocks = 128; bitmap = λ i. if i == 0 then 7 else 0 }

-- The name `a`.
abbrev name : ℕ → ℕ
name i = if i == 0 then 97 else 0

root-IsDirBlock : IsDirBlock 2 blank
unfolding kfs_bit_get test_bit
root-IsDirBlock = (omega arith, refl)

kfs_dir_creat-Creation_example :
    Creation ram held_at ram-IsCoherent ram-IsReliable 2 name blank
      (kfs_dir_creat ram 2 name true blank)
kfs_dir_creat-Creation_example =
    kfs_dir_creat-Creation ram held_at ram-IsCoherent ram-IsReliable 2 name blank (omega arith)
      root-IsDirBlock

abbrev created : Kfs (ℕ → DiskBlock)
created = (kfs_dir_creat ram 2 name true blank).1

abbrev file : KfsFile
file = record { start_block = 3; size_bytes = 0; alloc_blocks = 64; dir_block = 2; dirent_idx = 0 }

is_created : (kfs_dir_creat ram 2 name true blank).0 ≡ some file
unfolding kfs_dir_creat add_entry into_dir into_slot write_entry new_file kfs_dir_find_slot
    name_fits slot_loop is_empty is_dup keep_first kfs_alloc_block_zero from_run take_run find_run
    run_free kfs_bit_get test_bit zero_run capacity
is_created = refl

creat-unlink_example :
    let u = kfs_dir_unlink ram 2 name created in
    (u.0 ≡ true)
    × ((c : ℕ) → kfs_bit_get u.1.bitmap c ≡ kfs_bit_get blank.bitmap c)
    × (is_empty (u.1.disk 2) 0 ≡ true)
    × ((pos : ℕ) → (pos < 0 * 19) ⊎ (0 * 19 + 19 ≤ pos) → u.1.disk 2 pos ≡ blank.disk 2 pos)
creat-unlink_example =
    creat-unlink ram held_at ram-IsCoherent ram-IsReliable 2 name blank file (omega arith)
      root-IsDirBlock is_created
