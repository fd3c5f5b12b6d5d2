-- ===== src/Fs/Kfs/Io.antt =====
-- What kfs.c relies on in the buffer cache, and a device in memory that provides it.
use kappara.Base.{ℕ, ◌≡◌, ◌≢◌, refl, sym, some, true, write, write_self, write_ne}
use mathlib.Core.Option.{some-injective}
use kappara.Fs.Kfs.{DiskBlock, BlockIo}

-- `content d b` is what block `b` holds: a read that succeeds gives it, no read changes it, and a
-- write changes one block, to what was written if it succeeds.
pub record IsCoherent {D : Type 0} (io : BlockIo D) (content : D → ℕ → DiskBlock) : Type 0 where
  pub read_some : (d : D) (b : ℕ) (x : DiskBlock) → (io.bread d b).0 ≡ some x → x ≡ content d b
  pub read_same : (d : D) (b c : ℕ) → content (io.bread d b).1 c ≡ content d c
  pub write_done :
      (d : D) (b : ℕ) (x : DiskBlock)
      → (io.bwrite d b x).0 ≡ true
      → content (io.bwrite d b x).1 b ≡ x
  pub write_other :
      (d : D) (b : ℕ) (x : DiskBlock) (c : ℕ) → b ≢ c → content (io.bwrite d b x).1 c ≡ content d c

-- No call fails.
pub record IsReliable {D : Type 0} (io : BlockIo D) : Type 0 where
  pub reads : (d : D) (b : ℕ) → (x : DiskBlock) × ((io.bread d b).0 ≡ some x)
  pub writes : (d : D) (b : ℕ) (x : DiskBlock) → (io.bwrite d b x).0 ≡ true

-- A ramdisk whose calls all succeed.
abbrev pub ram : BlockIo (ℕ → DiskBlock)
ram = record { bread = λ d b. (some (d b), d); bwrite = λ d b x. (true, write d b x) }

abbrev pub held_at : (ℕ → DiskBlock) → ℕ → DiskBlock
held_at d b = d b

pub ram-IsCoherent : IsCoherent ram held_at
ram-IsCoherent = record {
  read_some = λ d b x e. sym (some-injective (d b) x e);
  read_same = λ d b c. refl;
  write_done = λ d b x h. write_self d b x;
  write_other = λ d b x c h. write_ne d b x c h;
}

pub ram-IsReliable : IsReliable ram
ram-IsReliable = record { reads = λ d b. (d b, refl); writes = λ d b x. refl }
