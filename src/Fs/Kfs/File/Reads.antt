-- ===== src/Fs/Kfs/File/Reads.antt =====
-- `regfile_read` and `regfile_seek`, and a write that is read back.
use kappara.Base.{
  ℕ, zero, suc, ◌+◌, ◌-◌, ◌/◌, ◌%◌, ◌^◌, ◌≤◌, ◌<◌, ◌≡◌, refl, sym, ap, ◌∙◌, ◌⊎◌, inl, inr, subst,
  Option, some, ◌&&◌, arith, ltb, leb, if-elim, if_true, min, List, [], ◌∷◌,
}
use kappara.Fs.Kfs.{DiskBlock, BlockIo, blk_size}
use kappara.Fs.Kfs.Io.{IsCoherent, IsReliable}
use kappara.Fs.Kfs.File.{
  KfsFile, OpenFile, forward, bytes_from, read_from, regfile_read, regfile_write, regfile_seek,
  seek_base, moved, move_to, move_from,
}
use kappara.Fs.Kfs.File.Confined.{Outside}
use kappara.Fs.Kfs.File.Bytes.{IsPlaced, max_of, block_at, file_at}
use kappara.Fs.Kfs.File.Written.{Written, regfile_write-Written}

-- `n` values of a function from `p` on.
abbrev pub values : (ℕ → ℕ) → ℕ → ℕ → List ℕ
values g p zero = []
values g p (suc n) = g p ∷ values g (p + 1) n

values-ext :
    (g h : ℕ → ℕ) (p q n : ℕ)
    → ((i : ℕ) → i < n → g (p + i) ≡ h (q + i))
    → values g p n ≡ values h q n
values-ext g h p q zero e = refl
values-ext g h p q (suc n) e = λ i.
    (ap g {x = p} {y = p + 0} (omega arith)
        ∙ e 0 (omega arith)
        ∙ ap h {x = q + 0} {y = q} (omega arith))
      i
    ∷ values-ext g h (p + 1) (q + 1) n
        (λ k l.
          ap g {x = p + 1 + k} {y = p + suc k} (omega arith)
          ∙ e (suc k) (omega (arith, l))
          ∙ ap h {x = q + suc k} {y = q + 1 + k} (omega arith))
        i

bytes_from-values : (tmp : DiskBlock) (off n : ℕ) → bytes_from tmp off n ≡ values tmp off n
unfolding bytes_from
bytes_from-values tmp off zero = refl
bytes_from-values tmp off (suc n) = ap (◌∷◌ (tmp off)) (bytes_from-values tmp (off + 1) n)

module _ {D : Type 0} (io : BlockIo D) (content : D → ℕ → DiskBlock) (co : IsCoherent io content)
    (rel : IsReliable io) where
  -- The bytes that a read of `len` hands over: to the end of the block and of the file at most.
  abbrev pub read_length : ℕ → OpenFile D → ℕ
  read_length len f = min (min len (blk_size - f.pos % blk_size)) (f.kf.size_bytes - f.pos)

  pub record Reading (len : ℕ) (f : OpenFile D) (r : Option (List ℕ) × OpenFile D) : Type 0 where
    pub returned : r.0 ≡ some (values (file_at io content co f.kf f.disk) f.pos (read_length len f))
    pub cursor : r.1.pos ≡ f.pos + read_length len f
    pub file : r.1.kf ≡ f.kf
    pub same : (c : ℕ) → content r.1.disk c ≡ content f.disk c
    pub progress : (len ≡ 0) ⊎ (f.kf.size_bytes ≤ f.pos) ⊎ (0 < read_length len f)

  end-Reading : (len : ℕ) (f : OpenFile D) → f.kf.size_bytes ≤ f.pos → Reading len f (some [], f)
  end-Reading len f eof =
      let nothing : 0 ≡ read_length len f = omega (arith, eof) in
      record {
        returned = ap (λ n. some (values (file_at io content co f.kf f.disk) f.pos n)) nothing;
        cursor = omega (arith, nothing);
        file = refl;
        same = λ c. refl;
        progress = inr (inl eof);
      }

  some-Reading :
      (len : ℕ) (f : OpenFile D) (x : DiskBlock) (d : D)
      → IsPlaced f.kf
      → f.pos < f.kf.size_bytes
      → f.kf.size_bytes ≤ max_of f.kf
      → x ≡ content f.disk (f.kf.start_block + f.pos / blk_size)
      → ((c : ℕ) → content d c ≡ content f.disk c)
      → Reading len f (read_from len f (some x, d))
  unfolding read_from
  some-Reading len f x d h l s e same =
      let n : ℕ = read_length len f in
      record {
        returned = ap some (
            bytes_from-values x (f.pos % blk_size) n
            ∙ values-ext x (file_at io content co f.kf f.disk) (f.pos % blk_size) f.pos n (λ i k.
              let block : f.pos / blk_size ≡ (f.pos + i) / blk_size = omega (arith, k) in
              let byte : f.pos % blk_size + i ≡ (f.pos + i) % blk_size = omega (arith, k) in
              ap (λ (z : DiskBlock). z (f.pos % blk_size + i)) e
              ∙ ap (content f.disk (f.kf.start_block + f.pos / blk_size)) byte
              ∙ ap (λ z. content f.disk (f.kf.start_block + z) ((f.pos + i) % blk_size)) block));
        cursor = omega (arith, l, s, h.bytes);
        file = refl;
        same = same;
        progress = ground (arith, l);
      }

  -- `regfile_read` on a device that does not fail gives the bytes of the file from the cursor on,
  -- to the end of the block and of the file at most, and moves the cursor behind them; at least one
  -- byte where one is asked for before the end of the file. The file stays as it is.
  pub regfile_read-Reading :
      (len : ℕ) (f : OpenFile D)
      → IsPlaced f.kf
      → f.kf.size_bytes ≤ max_of f.kf
      → Reading len f (regfile_read io len f)
  unfolding regfile_read
  regfile_read-Reading len f h s =
      if-elim (Reading len f) (leb f.kf.size_bytes f.pos)
        (λ eof. end-Reading len f (ground (arith, eof)))
        (λ more.
          let l : f.pos < f.kf.size_bytes = ground (arith, more) in
          let blk : ℕ = f.kf.start_block + f.pos / blk_size in
          let (x, e) = rel.reads f.disk blk in
          let d : D = (io.bread f.disk blk).1 in
          let got : io.bread f.disk blk ≡ (some x, d) = λ i. (e i, d) in
          subst (Reading len f)
            (sym (
              ap (λ z. read_from len f (io.bread f.disk z))
                (block_at f.kf f.pos h (omega (arith, l, s))).0
              ∙ ap (read_from len f) got))
            (some-Reading len f x d h l s (co.read_some f.disk blk x e)
              (λ c. co.read_same f.disk blk c)))

  -- The cursor after a write, moved back to where the write began.
  pub rewound : (ℕ → ℕ) → ℕ → OpenFile D → OpenFile D
  rewound src len f = (regfile_seek (forward f.pos) 0 (regfile_write io src len f).1).1

  rewound_lem :
      (src : ℕ → ℕ) (len : ℕ) (f : OpenFile D)
      → f.pos < 2 ^ 32
      → rewound src len f ≡ record (regfile_write io src len f).1 { pos = f.pos }
  unfolding rewound regfile_seek seek_base moved move_to move_from
  rewound_lem src len f h =
      ap (λ z. record (regfile_write io src len f).1 { pos = z }) {x = (0 + f.pos) % 2 ^ 32}
        {y = f.pos} (omega (arith, h))

  read_back :
      (src : ℕ → ℕ) (n len : ℕ) (f : OpenFile D) (r : Option ℕ × OpenFile D)
      → IsPlaced f.kf
      → Written io content co rel src n f r
      → f.pos + n ≤ max_of f.kf
      → f.kf.size_bytes ≤ max_of f.kf
      → len ≤ n
      → (regfile_read io len (record r.1 { pos = f.pos })).0
        ≡ some (values src 0 (min len (blk_size - f.pos % blk_size)))
  read_back src n len f r h w fits s l =
      let g : OpenFile D = record r.1 { pos = f.pos } in
      let start : r.1.kf.start_block ≡ f.kf.start_block =
        ap (λ (z : KfsFile). z.start_block) w.file in
      let alloc : r.1.kf.alloc_blocks ≡ f.kf.alloc_blocks =
        ap (λ (z : KfsFile). z.alloc_blocks) w.file in
      let placed : IsPlaced r.1.kf = record {
        blocks = omega (arith, start, alloc, h.blocks);
        bytes = omega (arith, alloc, h.bytes);
      } in
      let low : f.pos + n ≤ r.1.kf.size_bytes = ground (arith, w.size) in
      let high : r.1.kf.size_bytes ≤ max_of f.kf = ground (arith, w.size, fits, s) in
      let count : read_length len g ≡ min len (blk_size - f.pos % blk_size) =
        omega (arith, low, l) in
      (regfile_read-Reading len g placed (omega (arith, high, alloc))).returned
      ∙ ap (λ k. some (values (file_at io content co r.1.kf r.1.disk) f.pos k)) count
      ∙ ap some (
          values-ext _ src f.pos 0 (min len (blk_size - f.pos % blk_size)) (λ i k.
            ap (λ z. content r.1.disk (z + (f.pos + i) / blk_size) ((f.pos + i) % blk_size)) start
            ∙ w.bytes (f.pos + i) (omega (arith, k, l, fits))
            ∙ if_true (leb f.pos (f.pos + i) && ltb (f.pos + i) (f.pos + n)) _ _
                (ground (arith, k, l))
            ∙ ap src {x = f.pos + i - f.pos} {y = 0 + i} (omega arith)))

  -- What is written is read back: on a device that does not fail, a read of at most the bytes that
  -- a write has written, after a seek to where it began, gives the first bytes of the buffer, all
  -- that are asked for or those up to the end of the block.
  pub regfile_write-read :
      (src : ℕ → ℕ) (len back : ℕ) (f : OpenFile D)
      → IsPlaced f.kf
      → f.pos < max_of f.kf
      → f.pos + len < 2 ^ 64
      → f.kf.size_bytes ≤ max_of f.kf
      → Outside f.kf f.kf.dir_block
      → back ≤ min len (max_of f.kf - f.pos)
      → (regfile_read io back (rewound src len f)).0
        ≡ some (values src 0 (min back (blk_size - f.pos % blk_size)))
  regfile_write-read src len back f h l small s o b =
      ap (λ z. (regfile_read io back z).0) (rewound_lem src len f (omega (arith, l, h.bytes)))
      ∙ read_back src (min len (max_of f.kf - f.pos)) back f (regfile_write io src len f) h
          (regfile_write-Written io content co rel src len f h l small o) (omega (arith, l)) s b
