-- ===== src/Fs/Kfs/File.antt =====
-- Regular files of kfs.c: the operations of `regfile_fops` on one open file. `kf` is what all
-- cursors of the file share, `pos` is the cursor's. A buffer is a function from the byte's place.
pub mod Bytes
pub mod Confined
pub mod Written
pub mod Reads
mod Tests
use kappara.Base.{
  ℕ, zero, suc, ◌+◌, ◌-◌, ◌*◌, ◌/◌, ◌%◌, ◌^◌, Option, none, some, Bool, true, false, ◌&&◌, ltb, leb,
  ◌==◌, if◌then◌else◌, List, [], ◌∷◌, add32, add64, min,
}
use kappara.Fs.Kfs.{DiskBlock, BlockIo, blk_size}

-- `struct kfs_file` without the device.
pub record KfsFile : Type 0 where
  pub start_block : ℕ
  pub size_bytes : ℕ
  pub alloc_blocks : ℕ
  pub dir_block : ℕ
  pub dirent_idx : ℕ

pub record OpenFile (D : Type 0) : Type 0 where
  pub disk : D
  pub kf : KfsFile
  pub pos : ℕ

-- `kmemcpy` of `n` bytes from `src` at `k` into a block at `off`.
unfoldable pub kmemcpy : DiskBlock → ℕ → (ℕ → ℕ) → ℕ → ℕ → DiskBlock
kmemcpy tmp off src k n i = if leb off i && ltb i (off + n) then src (k + (i - off)) else tmp i

-- The bytes of a block that a read hands over.
pub bytes_from : DiskBlock → ℕ → ℕ → List ℕ
bytes_from tmp off zero = []
bytes_from tmp off (suc n) = tmp off ∷ bytes_from tmp (off + 1) n

-- The place of `size_bytes` in the entry of a directory block: 19 bytes an entry, with the name and
-- the first block, 15 bytes, before it.
abbrev pub size_at : ℕ → ℕ
size_at idx = idx * 19 + 15

-- The four bytes of a `uint32_t`, low byte first.
unfoldable pub le32 : ℕ → ℕ → ℕ
le32 v i = v / 256 ^ i % 256

-- The bytes that `regfile_write` has room for.
pub write_room : {D : Type 0} → OpenFile D → ℕ → ℕ
write_room f len =
    let max = f.kf.alloc_blocks * blk_size % 2 ^ 32 in
    if ltb max (add64 f.pos len) then max - f.pos else len

-- `regfile_read` once the block is read; `none` is -1.
pub read_from : {D : Type 0} → ℕ → OpenFile D → Option DiskBlock × D → Option (List ℕ) × OpenFile D
read_from len f (none, d) = (none, record f { disk = d })
read_from len f (some tmp, d) =
    let off = f.pos % blk_size in
    let n = min (min len (blk_size - off)) (f.kf.size_bytes - f.pos) in
    (some (bytes_from tmp off n), record f { disk = d; pos = add32 f.pos n })

-- A signed offset.
pub data Offset : Type 0 where
  forward : ℕ → Offset
  backward : ℕ → Offset

-- Where `whence`, 0, 1 or 2, counts from; others are refused.
pub seek_base : {D : Type 0} → ℕ → OpenFile D → Option ℕ
seek_base whence f =
    if whence == 0
    then some 0
    else if whence == 1
    then some f.pos
    else if whence == 2
    then some f.kf.size_bytes
    else none

pub moved : Offset → ℕ → Option ℕ
moved (forward n) base = some (base + n)
moved (backward n) base = if ltb base n then none else some (base - n)

-- The position that is returned is not cut to 32 bits, the cursor is; `none` is -1.
pub move_to : {D : Type 0} → OpenFile D → Option ℕ → Option ℕ × OpenFile D
move_to f none = (none, f)
move_to f (some pos) = (some pos, record f { pos = pos % 2 ^ 32 })

pub move_from : {D : Type 0} → Offset → OpenFile D → Option ℕ → Option ℕ × OpenFile D
move_from offset f none = (none, f)
move_from offset f (some base) = move_to f (moved offset base)

pub regfile_seek : {D : Type 0} → Offset → ℕ → OpenFile D → Option ℕ × OpenFile D
regfile_seek offset whence f = move_from offset f (seek_base whence f)

module _ {D : Type 0} (io : BlockIo D) where
  -- The size that is pushed back to the directory entry, if the directory block can be read.
  pub push_block : KfsFile → ℕ → Option DiskBlock × D → D
  push_block kf size (none, d) = d
  push_block kf size (some dir, d) =
      (io.bwrite d kf.dir_block (kmemcpy dir (size_at kf.dirent_idx) (le32 size) 0 4)).1

  pub push_size : KfsFile → ℕ → D → D
  push_size kf size d = push_block kf size (io.bread d kf.dir_block)

  -- `regfile_open` on a file once its cursor is allocated: `trunc` is O_TRUNC.
  pub regfile_open : Bool → KfsFile → D → OpenFile D
  regfile_open trunc kf d =
      if trunc
      then record { disk = push_size kf 0 d; kf = record kf { size_bytes = 0 }; pos = 0 }
      else record { disk = d; kf = kf; pos = 0 }

  pub regfile_read : ℕ → OpenFile D → Option (List ℕ) × OpenFile D
  regfile_read len f =
      if leb f.kf.size_bytes f.pos
      then (some [], f)
      else read_from len f (io.bread f.disk (add32 f.kf.start_block (f.pos / blk_size)))

  -- One round of the loop of `regfile_write`: the bytes that it has written and the device.
  pub write_block : ℕ → (ℕ → ℕ) → ℕ → ℕ → ℕ → Option DiskBlock × D → (ℕ × Bool) × D
  write_block blk src off written n (none, d) = ((written, false), d)
  write_block blk src off written n (some tmp, d) =
      let done = io.bwrite d blk (kmemcpy tmp off src written n) in
      ((if done.0 then written + n else written, done.0), done.1)

  pub write_round : KfsFile → ℕ → (ℕ → ℕ) → ℕ → ℕ → D → (ℕ × Bool) × D
  write_round kf pos src len written d =
      let total = add32 pos written in
      let blk = add32 kf.start_block (total / blk_size) in
      write_block blk src (total % blk_size) written
        (min (blk_size - total % blk_size) (len - written)) (io.bread d blk)

  -- The loop, on fuel.
  pub write_loop : ℕ → KfsFile → ℕ → (ℕ → ℕ) → ℕ → ℕ → D → ℕ × D
  write_loop zero kf pos src len written d = (written, d)
  write_loop (suc f) kf pos src len written d =
      let round = write_round kf pos src len written d in
      let rest = write_loop f kf pos src len round.0.0 round.1 in
      if ltb written len then (if round.0.1 then rest else (round.0.0, round.1)) else (written, d)

  -- `regfile_write` after the loop.
  pub after_write : OpenFile D → ℕ × D → Option ℕ × OpenFile D
  after_write f (written, d) =
      let pos = add32 f.pos written in
      (
        some written,
        if ltb f.kf.size_bytes pos
            then record {
              disk = push_size f.kf pos d;
              kf = record f.kf { size_bytes = pos };
              pos = pos;
            }
            else record f { disk = d; pos = pos },
      )

  -- `none` is -1.
  pub regfile_write : (ℕ → ℕ) → ℕ → OpenFile D → Option ℕ × OpenFile D
  regfile_write src len f =
      let max = f.kf.alloc_blocks * blk_size % 2 ^ 32 in
      let n = write_room f len in
      if leb max f.pos then (none, f) else after_write f (write_loop n f.kf f.pos src n 0 f.disk)
