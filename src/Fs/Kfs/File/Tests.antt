-- ===== src/Fs/Kfs/File/Tests.antt =====
-- The regular files of kfs.c on a ramdisk.
use kappara.Base.{ℕ, ◌+◌, ◌-◌, ◌%◌, ◌≡◌, refl, inl, inr, some, arith, min}
use kappara.Fs.Kfs.{DiskBlock}
use kappara.Fs.Kfs.Io.{ram, held_at, ram-IsCoherent, ram-IsReliable}
use kappara.Fs.Kfs.File.{
  KfsFile, OpenFile, regfile_read, regfile_write, kmemcpy, write_room, write_loop, write_round,
  write_block, after_write, push_size, push_block, le32,
}
use kappara.Fs.Kfs.File.Bytes.{IsPlaced, max_of}
use kappara.Fs.Kfs.File.Confined.{regfile_write_confined}
use kappara.Fs.Kfs.File.Written.{Written, regfile_write-Written}
use kappara.Fs.Kfs.File.Reads.{Reading, regfile_read-Reading, values, rewound, regfile_write-read}

-- An empty file of blocks 3 to 66, its cursor three bytes before the end of its first block.
abbrev notes : KfsFile
notes = record {
  start_block = 3;
  size_bytes = 600;
  alloc_blocks = 64;
  dir_block = 2;
  dirent_idx = 1;
}

abbrev open_notes : OpenFile (ℕ → DiskBlock)
open_notes = record { disk = λ b i. 0; kf = notes; pos = 509 }

notes-IsPlaced : IsPlaced notes
notes-IsPlaced = record { blocks = omega arith; bytes = omega arith }

abbrev letters : ℕ → ℕ
letters i = 97 + i

-- Five bytes go over the end of a block.
two_blocks : (regfile_write ram letters 5 open_notes).1.disk 4 1 ≡ 101
unfolding regfile_write write_room write_loop write_round write_block kmemcpy after_write push_size
    push_block le32
two_blocks = refl

regfile_write-Written_example :
    Written ram held_at ram-IsCoherent ram-IsReliable letters
      (min 5 (max_of notes - 509))
      open_notes
      (regfile_write ram letters 5 open_notes)
regfile_write-Written_example =
    regfile_write-Written ram held_at ram-IsCoherent ram-IsReliable letters 5 open_notes
      notes-IsPlaced (omega arith) (omega arith) (inl (omega arith))

regfile_write_confined_example : (regfile_write ram letters 5 open_notes).1.disk 90 ≡ (λ i. 0)
regfile_write_confined_example =
    regfile_write_confined ram held_at ram-IsCoherent letters 5 open_notes 90 notes-IsPlaced
      (omega arith) (inr (omega arith)) (omega arith)

regfile_read-Reading_example :
    Reading ram held_at ram-IsCoherent ram-IsReliable 20 open_notes (regfile_read ram 20 open_notes)
regfile_read-Reading_example =
    regfile_read-Reading ram held_at ram-IsCoherent ram-IsReliable 20 open_notes notes-IsPlaced
      (omega arith)

regfile_write-read_example :
    (regfile_read ram 5 (rewound ram held_at ram-IsCoherent ram-IsReliable letters 5 open_notes)).0
    ≡ some (values letters 0 (min 5 (512 - 509 % 512)))
regfile_write-read_example =
    regfile_write-read ram held_at ram-IsCoherent ram-IsReliable letters 5 5 open_notes
      notes-IsPlaced (omega arith) (omega arith) (omega arith) (inl (omega arith)) (omega arith)
