-- ===== src/Fs/Kfs/File/Written.antt =====
-- `regfile_write` on a device that does not fail: the bytes of the file afterwards.
use kappara.Base.{
  ℕ, zero, suc, ◌+◌, ◌-◌, ◌/◌, ◌%◌, ◌^◌, ◌≤◌, ◌<◌, ◌≡◌, refl, sym, ap, ◌∙◌, inl, inr, subst, Option,
  none, some, Bool, ◌&&◌, arith, ltb, leb, if◌then◌else◌, Bool-cases, if-elim, if_true, if_false,
  add32, min,
}
use kappara.Fs.Kfs.{DiskBlock, BlockIo, blk_size}
use kappara.Fs.Kfs.Io.{IsCoherent, IsReliable}
use kappara.Fs.Kfs.File.{
  KfsFile, OpenFile, kmemcpy, size_at, le32, push_block, push_size, write_round, write_loop,
  after_write, write_room, regfile_write,
}
use kappara.Fs.Kfs.File.Confined.{Outside, write_room-min, push_size_other, write_loop_other}
use kappara.Fs.Kfs.File.Bytes.{IsPlaced, max_of, file_at, write_round_bytes}

module _ {D : Type 0} (io : BlockIo D) (content : D → ℕ → DiskBlock) (co : IsCoherent io content)
    (rel : IsReliable io) where
  write_loop_bytes :
      (f : ℕ) (kf : KfsFile) (pos : ℕ) (src : ℕ → ℕ) (len written : ℕ) (d : D)
      → IsPlaced kf
      → pos + len ≤ max_of kf
      → written ≤ len
      → len ≤ written + f
      → ((write_loop io f kf pos src len written d).0 ≡ len)
        × ((p : ℕ)
            → p < max_of kf
            → file_at io content co kf (write_loop io f kf pos src len written d).1 p ≡ (
                if leb (pos + written) p && ltb p (pos + len)
                then src (p - pos)
                else file_at io content co kf d p))
  unfolding write_loop
  write_loop_bytes zero kf pos src len written d h fits l enough = (
    omega (arith, l, enough),
    λ p k.
        sym (if_false (leb (pos + written) p && ltb p (pos + len)) _ _ (ground (arith, l, enough))),
  )
  write_loop_bytes (suc f) kf pos src len written d h fits l enough =
      elim (Bool-cases (ltb written len)) [
        | inr end ↦
            let e =
              if_false (ltb written len)
                (let round = write_round io kf pos src len written d in
                  if round.0.1
                  then write_loop io f kf pos src len round.0.0 round.1
                  else (round.0.0, round.1))
                (written, d) end in
            (
              ap (λ (r : ℕ × D). r.0) e ∙ ground (arith, end, l),
              λ p k.
                  ap (λ (r : ℕ × D). file_at io content co kf r.1 p) e
                  ∙ sym (
                      if_false (leb (pos + written) p && ltb p (pos + len)) _ _
                        (ground (arith, end, l))),
            )
        | inl more ↦
            let lt : written < len = ground (arith, more) in
            let n : ℕ = min (blk_size - (pos + written) % blk_size) (len - written) in
            let round = write_round io kf pos src len written d in
            let (done, bytes) =
              write_round_bytes io content co rel kf pos src len written n d h fits lt refl in
            let e =
              if_true (ltb written len)
                (if round.0.1
                  then write_loop io f kf pos src len round.0.0 round.1
                  else (round.0.0, round.1))
                (written, d) more
              ∙ if_true round.0.1 _ (round.0.0, round.1) (ap (λ (r : ℕ × Bool). r.1) done)
              ∙ ap (λ z. write_loop io f kf pos src len z round.1)
                  (ap (λ (r : ℕ × Bool). r.0) done) in
            let (all, rest) =
              write_loop_bytes f kf pos src len (written + n) round.1 h fits (omega arith)
                (omega (arith, enough, lt)) in
            (
              ap (λ (r : ℕ × D). r.0) e ∙ all,
              λ p k.
                  ap (λ (r : ℕ × D). file_at io content co kf r.1 p) e
                  ∙ ground (arith, rest p k, bytes p k),
            )
      ]

  push_size_done :
      (kf : KfsFile) (size : ℕ) (d : D)
      → content (push_size io kf size d) kf.dir_block
        ≡ kmemcpy (content d kf.dir_block) (size_at kf.dirent_idx) (le32 size) 0 4
  unfolding push_size push_block
  push_size_done kf size d =
      let (x, e) = rel.reads d kf.dir_block in
      let d1 : D = (io.bread d kf.dir_block).1 in
      let got : io.bread d kf.dir_block ≡ (some x, d1) = λ i. (e i, d1) in
      ap (λ r. content (push_block io kf size r) kf.dir_block) got
      ∙ co.write_done d1 kf.dir_block _ (rel.writes d1 kf.dir_block _)
      ∙ ap (λ z. kmemcpy z (size_at kf.dirent_idx) (le32 size) 0 4)
          (co.read_some d kf.dir_block x e)

  -- What a write of `n` bytes leaves behind.
  pub record Written (src : ℕ → ℕ) (n : ℕ) (f : OpenFile D) (r : Option ℕ × OpenFile D)
      : Type 0 where
    pub returned : r.0 ≡ some n
    pub cursor : r.1.pos ≡ f.pos + n
    pub size :
        r.1.kf.size_bytes ≡ (if ltb f.kf.size_bytes (f.pos + n) then f.pos + n else f.kf.size_bytes)
    pub file : r.1.kf ≡ record f.kf { size_bytes = r.1.kf.size_bytes }
    pub bytes :
        (p : ℕ)
        → p < max_of f.kf
        → file_at io content co f.kf r.1.disk p ≡ (
            if leb f.pos p && ltb p (f.pos + n)
            then src (p - f.pos)
            else file_at io content co f.kf f.disk p)
    pub entry : content r.1.disk f.kf.dir_block ≡ (
        if ltb f.kf.size_bytes (f.pos + n)
        then kmemcpy
            (content f.disk f.kf.dir_block)
            (size_at f.kf.dirent_idx)
            (le32 (f.pos + n))
            0
            4
        else content f.disk f.kf.dir_block)

  pub after_write-Written :
      (src : ℕ → ℕ) (n : ℕ) (f : OpenFile D) (r : ℕ × D)
      → IsPlaced f.kf
      → f.pos + n ≤ max_of f.kf
      → Outside f.kf f.kf.dir_block
      → r.0 ≡ n
      → ((p : ℕ)
          → p < max_of f.kf
          → file_at io content co f.kf r.1 p ≡ (
              if leb f.pos p && ltb p (f.pos + n)
              then src (p - f.pos)
              else file_at io content co f.kf f.disk p))
      → content r.1 f.kf.dir_block ≡ content f.disk f.kf.dir_block
      → Written src n f (after_write io f r)
  unfolding after_write
  after_write-Written src n f (w, d) h fits o e bytes entry =
      let q : ℕ = f.pos + n in
      let at : add32 f.pos w ≡ q = omega (arith, e, fits, h.bytes) in
      subst (Written src n f)
        (λ i. (
          some (sym e i),
          if ltb f.kf.size_bytes (sym at i)
              then record {
                disk = push_size io f.kf (sym at i) d;
                kf = record f.kf { size_bytes = sym at i };
                pos = sym at i;
              }
              else record f { disk = d; pos = sym at i },
        ))
        (if-elim (λ (g : OpenFile D). Written src n f (some n, g)) (ltb f.kf.size_bytes q)
          (λ grown. record {
            returned = refl;
            cursor = refl;
            size = sym (if_true (ltb f.kf.size_bytes q) q f.kf.size_bytes grown);
            file = refl;
            bytes = λ p k.
                ap (λ (z : DiskBlock). z (p % blk_size))
                  (push_size_other io content co f.kf q d (f.kf.start_block + p / blk_size)
                    (λ z. omega (arith, z, k, o)))
                ∙ bytes p k;
            entry =
                push_size_done f.kf q d
                ∙ ap (λ z. kmemcpy z (size_at f.kf.dirent_idx) (le32 q) 0 4) entry
                ∙ sym (if_true (ltb f.kf.size_bytes q) _ (content f.disk f.kf.dir_block) grown);
          })
          (λ same. record {
            returned = refl;
            cursor = refl;
            size = sym (if_false (ltb f.kf.size_bytes q) q f.kf.size_bytes same);
            file = refl;
            bytes = bytes;
            entry =
                entry
                ∙ sym (if_false (ltb f.kf.size_bytes q) _ (content f.disk f.kf.dir_block) same);
          }))

  -- `regfile_write` on a device that does not fail, with the cursor inside the room of the file:
  -- the number that it returns is the length, or the room if that is less; the bytes of the file
  -- from the cursor on are those of the buffer and every other byte is as before; the cursor moves
  -- behind them; and the size is the larger of the old one and the cursor, in the directory entry
  -- on the device too.
  pub regfile_write-Written :
      (src : ℕ → ℕ) (len : ℕ) (f : OpenFile D)
      → IsPlaced f.kf
      → f.pos < max_of f.kf
      → f.pos + len < 2 ^ 64
      → Outside f.kf f.kf.dir_block
      → Written src (min len (max_of f.kf - f.pos)) f (regfile_write io src len f)
  unfolding regfile_write
  regfile_write-Written src len f h l small o =
      let n : ℕ = write_room f len in
      let few = write_room-min f len h l small in
      let fits : f.pos + n ≤ max_of f.kf = omega (arith, few, l) in
      let (all, bytes) =
        write_loop_bytes n f.kf f.pos src n 0 f.disk h fits (omega arith) (omega arith) in
      subst (λ z. Written src z f (regfile_write io src len f)) few
        (subst (Written src n f)
          (sym
            (if_false (leb (max_of f.kf % 2 ^ 32) f.pos) (none, f) _ (ground (arith, l, h.bytes))))
          (after_write-Written src n f (write_loop io n f.kf f.pos src n 0 f.disk) h fits o all
            (λ p k. bytes p k ∙ ground arith)
            (write_loop_other io content co n f.kf f.pos src n 0 f.disk f.kf.dir_block h fits o)))
