-- ===== src/Fs/Kfs/File/Bytes.antt =====
-- The bytes of a file on its device, and what one round of `regfile_write` does to them.
use kappara.Base.{
  ℕ, ◌+◌, ◌-◌, ◌*◌, ◌/◌, ◌%◌, ◌^◌, ◌≤◌, ◌<◌, ◌≡◌, ◌≢◌, refl, sym, ap, ◌∙◌, inl, inr, subst, Option,
  none, some, Bool, true, false, ◌&&◌, arith, ltb, leb, ◌==◌, if◌then◌else◌, Bool-cases, if_true,
  if_false, add32, min,
}
use kappara.Fs.Kfs.{DiskBlock, BlockIo, blk_size}
use kappara.Fs.Kfs.Io.{IsCoherent, IsReliable}
use kappara.Fs.Kfs.File.{KfsFile, kmemcpy, write_block, write_round}

-- The geometry of a file: its blocks and its bytes have numbers below 2^32.
pub record IsPlaced (kf : KfsFile) : Type 0 where
  pub blocks : kf.start_block + kf.alloc_blocks < 2 ^ 32
  pub bytes : kf.alloc_blocks * blk_size < 2 ^ 32

abbrev pub max_of : KfsFile → ℕ
max_of kf = kf.alloc_blocks * blk_size

pub block_at :
    (kf : KfsFile) (q : ℕ)
    → IsPlaced kf
    → q < max_of kf
    → (add32 kf.start_block (q / blk_size) ≡ kf.start_block + q / blk_size)
      × (q / blk_size < kf.alloc_blocks)
block_at kf q h l = (omega (arith, h.blocks, l), omega (arith, l))

-- A range that ends at the end of its first block at most, seen from that block.
range_away :
    (q n p e : ℕ)
    → n ≤ blk_size - q % blk_size
    → e ≡ q + n
    → (p / blk_size == q / blk_size) ≡ false
    → (leb q p && ltb p e) ≡ false
range_away q n p e l h away = ground (arith, l, h, away)

range_same :
    (q n p e : ℕ)
    → n ≤ blk_size - q % blk_size
    → e ≡ q + n
    → p / blk_size ≡ q / blk_size
    → (leb (q % blk_size) (p % blk_size) && ltb (p % blk_size) (q % blk_size + n))
      ≡ (leb q p && ltb p e)
range_same q n p e l h block = ground (arith, l, h, block)

range_offset :
    (pos written n p : ℕ)
    → p / blk_size ≡ (pos + written) / blk_size
    → (leb (pos + written) p && ltb p (pos + (written + n))) ≡ true
    → written + (p % blk_size - (pos + written) % blk_size) ≡ p - pos
range_offset pos written n p block t =
    let low : pos + written ≤ p = ground (arith, t) in omega (arith, block, low)

module _ {D : Type 0} (io : BlockIo D) (content : D → ℕ → DiskBlock)
    (co : IsCoherent io content) where
  -- Byte `p` of the file.
  abbrev pub file_at : KfsFile → D → ℕ → ℕ
  file_at kf d p = content d (kf.start_block + p / blk_size) (p % blk_size)

  -- A round changes one block at most.
  pub write_block_other :
      (blk : ℕ) (src : ℕ → ℕ) (off written n : ℕ) (r : Option DiskBlock × D) (c : ℕ)
      → blk ≢ c
      → content (write_block io blk src off written n r).1 c ≡ content r.1 c
  unfolding write_block
  write_block_other blk src off written n (none, d) c h = refl
  write_block_other blk src off written n (some x, d) c h = co.write_other d blk _ c h

  pub write_round_other :
      (kf : KfsFile) (pos : ℕ) (src : ℕ → ℕ) (len written : ℕ) (d : D) (c : ℕ)
      → add32 kf.start_block (add32 pos written / blk_size) ≢ c
      → content (write_round io kf pos src len written d).1 c ≡ content d c
  unfolding write_round
  write_round_other kf pos src len written d c h =
      write_block_other _ src _ written _ (io.bread d _) c h ∙ co.read_same d _ c

  module _ (rel : IsReliable io) where
    write_block_done :
        (blk : ℕ) (src : ℕ → ℕ) (off written n : ℕ) (d : D)
        → ((write_block io blk src off written n (io.bread d blk)).0 ≡ (written + n, true))
          × (content (write_block io blk src off written n (io.bread d blk)).1 blk
              ≡ kmemcpy (content d blk) off src written n)
    unfolding write_block
    write_block_done blk src off written n d =
        let (x, e) = rel.reads d blk in
        let d1 : D = (io.bread d blk).1 in
        let ok = rel.writes d1 blk (kmemcpy x off src written n) in
        let got : io.bread d blk ≡ (some x, d1) = λ i. (e i, d1) in
        subst
          (λ r.
            ((write_block io blk src off written n r).0 ≡ (written + n, true))
            × (content (write_block io blk src off written n r).1 blk
                ≡ kmemcpy (content d blk) off src written n))
          (sym got)
          (
            (λ i. (if_true _ (written + n) written ok i, ok i)),
            co.write_done d1 blk _ ok
                ∙ ap (λ z. kmemcpy z off src written n) (co.read_some d blk x e),
          )

    patched_bytes :
        (kf : KfsFile) (pos : ℕ) (src : ℕ → ℕ) (written n : ℕ) (d d' : D)
        → n ≤ blk_size - (pos + written) % blk_size
        → content d' (kf.start_block + (pos + written) / blk_size)
          ≡ kmemcpy
              (content d (kf.start_block + (pos + written) / blk_size))
              ((pos + written) % blk_size)
              src
              written
              n
        → ((c : ℕ) → kf.start_block + (pos + written) / blk_size ≢ c → content d' c ≡ content d c)
        → (p : ℕ)
        → file_at kf d' p ≡ (
            if leb (pos + written) p && ltb p (pos + (written + n))
            then src (p - pos)
            else file_at kf d p)
    unfolding kmemcpy
    patched_bytes kf pos src written n d d' l here other p =
        elim (Bool-cases (p / blk_size == (pos + written) / blk_size)) [
          | inr away ↦
              ap (λ (z : DiskBlock). z (p % blk_size))
                (other (kf.start_block + p / blk_size) (λ e. ground (arith, e, away)))
              ∙ sym (
                  if_false (leb (pos + written) p && ltb p (pos + (written + n))) _ _
                    (range_away (pos + written) n p (pos + (written + n)) l (omega arith) away))
          | inl same ↦
              let block : p / blk_size ≡ (pos + written) / blk_size = ground (arith, same) in
              let inside =
                range_same (pos + written) n p (pos + (written + n)) l (omega arith) block in
              ap (λ z. content d' (kf.start_block + z) (p % blk_size)) block
              ∙ ap (λ (z : DiskBlock). z (p % blk_size)) here
              ∙ elim (Bool-cases (leb (pos + written) p && ltb p (pos + (written + n)))) [
                | inl t ↦
                    if_true _ _ _ (inside ∙ t)
                    ∙ ap src (range_offset pos written n p block t)
                    ∙ sym (if_true (leb (pos + written) p && ltb p (pos + (written + n))) _ _ t)
                | inr t ↦
                    if_false _ _ _ (inside ∙ t)
                    ∙ ap (λ z. content d (kf.start_block + z) (p % blk_size)) (sym block)
                    ∙ sym (if_false (leb (pos + written) p && ltb p (pos + (written + n))) _ _ t)
              ]
        ]

    -- A round that starts at byte `q` of the file writes `n` bytes there, to the end of a block at
    -- most, and leaves every other byte.
    pub write_round_bytes :
        (kf : KfsFile) (pos : ℕ) (src : ℕ → ℕ) (len written n : ℕ) (d : D)
        → IsPlaced kf
        → pos + len ≤ max_of kf
        → written < len
        → n ≡ min (blk_size - (pos + written) % blk_size) (len - written)
        → ((write_round io kf pos src len written d).0 ≡ (written + n, true))
          × ((p : ℕ)
              → p < max_of kf
              → file_at kf (write_round io kf pos src len written d).1 p ≡ (
                  if leb (pos + written) p && ltb p (pos + (written + n))
                  then src (p - pos)
                  else file_at kf d p))
    unfolding write_round
    write_round_bytes kf pos src len written n d h fits l e =
        let q : ℕ = pos + written in
        let small : q < max_of kf = omega (arith, fits, l) in
        let blk : ℕ = kf.start_block + q / blk_size in
        let at : write_round io kf pos src len written d
            ≡ write_block io blk src (q % blk_size) written n (io.bread d blk) =
          ap
            (λ z.
              write_block io (add32 kf.start_block (z / blk_size)) src (z % blk_size) written
                (min (blk_size - z % blk_size) (len - written))
                (io.bread d (add32 kf.start_block (z / blk_size))))
            {x = add32 pos written} {y = q} (omega (arith, small, h.bytes))
          ∙ ap
              (λ z.
                write_block io z src (q % blk_size) written
                  (min (blk_size - q % blk_size) (len - written)) (io.bread d z))
              (block_at kf q h small).0
          ∙ ap (λ k. write_block io blk src (q % blk_size) written k (io.bread d blk)) (sym e) in
        let (ok, here) = write_block_done blk src (q % blk_size) written n d in
        (
          ap (λ (r : (ℕ × Bool) × D). r.0) at ∙ ok,
          λ p k.
              ap (λ (r : (ℕ × Bool) × D). file_at kf r.1 p) at
              ∙ patched_bytes kf pos src written n d _ (omega (arith, e)) here
                  (λ c ne.
                    write_block_other blk src _ written n (io.bread d blk) c ne
                    ∙ co.read_same d blk c)
                  p,
        )
