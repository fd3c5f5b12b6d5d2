-- ===== src/Fs/Kfs/Ops/Cycle.antt =====
-- A file that is created and removed again.
use kappara.Base.{
  ℕ, ◌+◌, ◌*◌, ◌≤◌, ◌<◌, ◌≡◌, ◌≢◌, sym, ap, ◌∙◌, ◌⊎◌, inl, inr, subst, some, true, false, not, ◌&&◌,
  arith, ◌==◌, if◌then◌else◌, Bool-cases,
}
use mathlib.Core.Option.{some-injective}
use kappara.Fs.Kfs.{DiskBlock, BlockIo, Kfs, kfs_blocks_per_file, kfs_bit_get}
use kappara.Fs.Kfs.Bitmap.{in_run}
use kappara.Fs.Kfs.Io.{IsCoherent, IsReliable}
use kappara.Fs.Kfs.File.{KfsFile}
use kappara.Fs.Kfs.Dir.{kfs_de_isdir, is_empty}
use kappara.Fs.Kfs.Ops.{kfs_dir_creat, kfs_dir_unlink}
use kappara.Fs.Kfs.Ops.Adds.{IsDirBlock}
use kappara.Fs.Kfs.Ops.Creates.{Created, created, refused, kfs_dir_creat-Creation}
use kappara.Fs.Kfs.Ops.Removes.{Cleared, removed, kept, kfs_dir_unlink-Removal}

module _ {D : Type 0} (io : BlockIo D) (content : D → ℕ → DiskBlock) (co : IsCoherent io content)
    (rel : IsReliable io) where
  -- The bitmap after a file is created and removed.
  bits_back :
      (d : ℕ) (name : ℕ → ℕ) (s t u : Kfs D) (kf : KfsFile)
      → Created io content co rel d name s kf t
      → Cleared io content co rel d kfs_blocks_per_file kf.dirent_idx t u
      → (c : ℕ) → kfs_bit_get u.bitmap c ≡ kfs_bit_get s.bitmap c
  bits_back d name s t u kf v w c =
      let n : kf.start_block ≢ 0 = λ e. omega (arith, e, v.above) in
      let gone =
        w.bits c
        ∙ ap
            (λ z.
              if not (z == 0) && in_run z kfs_blocks_per_file c
              then false
              else kfs_bit_get t.bitmap c)
            v.start in
      let taken =
        v.bits c
        ∙ ap (λ z. if in_run kf.start_block z c then true else kfs_bit_get s.bitmap c) v.file.1 in
      elim (Bool-cases (in_run kf.start_block kfs_blocks_per_file c)) [
        | inl inside ↦
            let free = v.clear c (ground (arith, inside), ground (arith, inside, v.file.1)) in
            ground (arith, gone, free, inside, n)
        | inr out ↦ ground (arith, gone, taken, out)
      ]

  -- Where `kfs_dir_creat` has created a file, `kfs_dir_unlink` of its name removes it: every bit of
  -- the bitmap is what it was before the two, the entry is empty, and the rest of the directory's
  -- block is as before.
  pub creat-unlink :
      (d : ℕ) (name : ℕ → ℕ) (s : Kfs D) (kf : KfsFile)
      → name 0 ≢ 0
      → IsDirBlock d s
      → (kfs_dir_creat io d name true s).0 ≡ some kf
      → let u = kfs_dir_unlink io d name (kfs_dir_creat io d name true s).1 in
        (u.0 ≡ true)
        × ((c : ℕ) → kfs_bit_get u.1.bitmap c ≡ kfs_bit_get s.bitmap c)
        × (is_empty (content u.1.disk d) kf.dirent_idx ≡ true)
        × ((pos : ℕ)
            → (pos < kf.dirent_idx * 19) ⊎ (kf.dirent_idx * 19 + 19 ≤ pos)
            → content u.1.disk d pos ≡ content s.disk d pos)
  creat-unlink d name s kf h at e =
      let t : Kfs D = (kfs_dir_creat io d name true s).1 in
      elim (kfs_dir_creat-Creation io content co rel d name s h at) [
        | refused no_file _ _ _ ↦ cc
        | created kf' e' v' ↦
            let v : Created io content co rel d name s kf t =
              subst (λ z. Created io content co rel d name s z t)
                (some-injective kf' kf (sym e' ∙ e)) v' in
            elim (kfs_dir_unlink-Removal io content co rel d name t at.0) [
              | removed slot ok found file w' ↦
                  let same = some-injective slot kf.dirent_idx (sym found ∙ v.found) in
                  let w =
                    subst
                      (λ z.
                        Cleared io content co rel d kfs_blocks_per_file z t
                          (kfs_dir_unlink io d name t).1)
                      same w' in
                  (
                    ok,
                    bits_back d name s t _ kf v w,
                    w.empty,
                    λ pos o. w.entries pos o ∙ v.entries pos o,
                  )
              | kept ok (inl missing) _ _ ↦ let no_way = sym missing ∙ v.found in cc
              | kept ok (inr (slot, found, dir)) _ _ ↦
                  let same = some-injective slot kf.dirent_idx (sym found ∙ v.found) in
                  let no_way = sym dir ∙ ap (kfs_de_isdir (content t.disk d)) same ∙ v.regular in cc
            ]
      ]
