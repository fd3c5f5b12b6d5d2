-- ===== src/Fs/Kfs/Image/Tests.antt =====
-- An image of one file, which is removed and made again.
use kappara.Base.{ℕ, ◌≡◌, refl, [], ◌∷◌, ◌==◌, if◌then◌else◌}
use kappara.Fs.Kfs.{DiskBlock, Kfs, kfs_free_blocks}
use kappara.Fs.Kfs.File.{kmemcpy}
use kappara.Fs.Kfs.Io.{ram, held_at, ram-IsCoherent}
use kappara.Fs.Kfs.Owners.{Step, Reach, IsSound}
use kappara.Fs.Kfs.Image.{
  KfsPayload, kfs_mkimage, image, image_runs, image_files, fill_blocks, image-IsSound,
}

abbrev empty : Kfs (ℕ → DiskBlock)
empty = record { disk = λ b i. 9; nblocks = 128; bitmap = λ i. 0 }

-- A file `a` of 600 bytes.
abbrev payload : KfsPayload
payload = record { name = λ i. if i == 0 then 97 else 0; bytes = λ i. i; size = 600 }

second_block : (kfs_mkimage ram (payload ∷ []) empty).disk 4 87 ≡ 599
unfolding kfs_mkimage image_files fill_blocks kmemcpy
second_block = refl

history :
    Reach ram
      (image ram (payload ∷ []) empty)
      (record { kfs = kfs_free_blocks ram 3 64 (kfs_mkimage ram (payload ∷ []) empty); runs = [] })
unfolding image_runs
history = Reach.next Reach.here (Step.free (image ram (payload ∷ []) empty) 0 3 64 refl)

image-IsSound_example :
    IsSound
      (record { kfs = kfs_free_blocks ram 3 64 (kfs_mkimage ram (payload ∷ []) empty); runs = [] })
image-IsSound_example =
    image-IsSound ram held_at ram-IsCoherent (payload ∷ []) empty
      (record { kfs = kfs_free_blocks ram 3 64 (kfs_mkimage ram (payload ∷ []) empty); runs = [] })
      history
