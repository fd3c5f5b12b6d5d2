-- ===== src/Fs/Kfs/File/Confined.antt =====
-- Which blocks `regfile_write` can change, whatever calls of the device fail.
use kappara.Base.{
  ℕ, zero, suc, ◌+◌, ◌-◌, ◌/◌, ◌%◌, ◌^◌, ◌≤◌, ◌<◌, ◌≡◌, ◌≢◌, refl, sym, ap, ◌∙◌, ◌⊎◌, Option, none,
  some, arith, ltb, leb, if◌then◌else◌, if-elim, add32, add64, min,
}
use kappara.Fs.Kfs.{DiskBlock, BlockIo, blk_size}
use kappara.Fs.Kfs.Io.{IsCoherent}
use kappara.Fs.Kfs.File.{
  KfsFile, OpenFile, push_block, push_size, write_round, write_loop, after_write, write_room,
  regfile_write,
}
use kappara.Fs.Kfs.File.Bytes.{IsPlaced, max_of, block_at, write_round_other}

-- The block is none of the file's.
abbrev pub Outside : KfsFile → ℕ → Type 0
Outside kf c = (c < kf.start_block) ⊎ (kf.start_block + kf.alloc_blocks ≤ c)

-- The bytes for which there is room, for a cursor in the file.
pub write_room-min :
    {D : Type 0} (f : OpenFile D) (len : ℕ)
    → IsPlaced f.kf
    → f.pos < max_of f.kf
    → f.pos + len < 2 ^ 64
    → write_room f len ≡ min len (max_of f.kf - f.pos)
unfolding write_room
write_room-min f len h l small =
    let exact : max_of f.kf % 2 ^ 32 ≡ max_of f.kf = omega (arith, h.bytes) in
    ap (λ m. if ltb m (add64 f.pos len) then m - f.pos else len) exact ∙ ground (arith, l, small)

module _ {D : Type 0} (io : BlockIo D) (content : D → ℕ → DiskBlock)
    (co : IsCoherent io content) where
  pub write_loop_other :
      (f : ℕ) (kf : KfsFile) (pos : ℕ) (src : ℕ → ℕ) (len written : ℕ) (d : D) (c : ℕ)
      → IsPlaced kf
      → pos + len ≤ max_of kf
      → Outside kf c
      → content (write_loop io f kf pos src len written d).1 c ≡ content d c
  unfolding write_loop
  write_loop_other zero kf pos src len written d c h fits o = refl
  write_loop_other (suc f) kf pos src len written d c h fits o =
      if-elim (λ (r : ℕ × D). content r.1 c ≡ content d c) (ltb written len)
        (λ more.
          let l : written < len = ground (arith, more) in
          let (at, within) = block_at kf (pos + written) h (omega (arith, fits, l)) in
          let total : add32 pos written ≡ pos + written = omega (arith, fits, l, h.bytes) in
          let step = write_round_other io content co kf pos src len written d c (λ e.
            let there = ap (λ z. add32 kf.start_block (z / blk_size)) (sym total) ∙ e in
            omega (arith, at, there, within, o)) in
          let round = write_round io kf pos src len written d in
          if-elim (λ (r : ℕ × D). content r.1 c ≡ content d c) round.0.1
            {x = write_loop io f kf pos src len round.0.0 round.1} {y = (round.0.0, round.1)}
            (λ ok. write_loop_other f kf pos src len round.0.0 round.1 c h fits o ∙ step)
            (λ failed. step))
        (λ end. refl)

  push_block_other :
      (kf : KfsFile) (size : ℕ) (r : Option DiskBlock × D) (c : ℕ)
      → kf.dir_block ≢ c
      → content (push_block io kf size r) c ≡ content r.1 c
  unfolding push_block
  push_block_other kf size (none, d) c n = refl
  push_block_other kf size (some x, d) c n = co.write_other d kf.dir_block _ c n

  pub push_size_other :
      (kf : KfsFile) (size : ℕ) (d : D) (c : ℕ)
      → kf.dir_block ≢ c
      → content (push_size io kf size d) c ≡ content d c
  unfolding push_size
  push_size_other kf size d c n =
      push_block_other kf size (io.bread d kf.dir_block) c n ∙ co.read_same d kf.dir_block c

  after_write_other :
      (f : OpenFile D) (r : ℕ × D) (c : ℕ)
      → f.kf.dir_block ≢ c
      → content (after_write io f r).1.disk c ≡ content r.1 c
  unfolding after_write
  after_write_other f (written, d) c n =
      if-elim (λ (g : OpenFile D). content g.disk c ≡ content d c)
        (ltb f.kf.size_bytes (add32 f.pos written))
        (λ grown. push_size_other f.kf (add32 f.pos written) d c n) (λ same. refl)

  -- `regfile_write` of any length that does not wrap, with any cursor and whatever calls of the
  -- device fail, changes no block but those of the file and the directory block that has its size.
  pub regfile_write_confined :
      (src : ℕ → ℕ) (len : ℕ) (f : OpenFile D) (c : ℕ)
      → IsPlaced f.kf
      → f.pos + len < 2 ^ 64
      → Outside f.kf c
      → f.kf.dir_block ≢ c
      → content (regfile_write io src len f).1.disk c ≡ content f.disk c
  unfolding regfile_write
  regfile_write_confined src len f c h small o n =
      if-elim (λ (r : Option ℕ × OpenFile D). content r.1.disk c ≡ content f.disk c)
        (leb (max_of f.kf % 2 ^ 32) f.pos) (λ full. refl)
        (λ fits.
          let l : f.pos < max_of f.kf = ground (arith, fits, h.bytes) in
          let few = write_room-min f len h l small in
          after_write_other f _ c n
          ∙ write_loop_other (write_room f len) f.kf f.pos src (write_room f len) 0 f.disk c h
              (omega (arith, few, l)) o)
