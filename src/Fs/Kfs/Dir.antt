-- ===== src/Fs/Kfs/Dir.antt =====
-- Directories of kfs.c: the directory block, 26 entries of 19 bytes, and the operations of
-- `kfs_dir_fops`. A name is a C string, a function from the byte's place. The calls of kmalloc and
-- of vfs.c come as their results: whether the allocations succeed, and what is handed to vfs.c.
pub mod Names
pub mod Entries
pub mod Finds
pub mod Refusals
use kappara.Base.{
  ℕ, zero, suc, ◌+◌, ◌-◌, ◌*◌, ◌/◌, ◌%◌, ◌^◌, Option, none, some, Bool, true, false, not, ◌&&◌,
  ◌||◌, ltb, leb, ◌==◌, if◌then◌else◌, write,
}
use kappara.Fs.Kfs.{
  DiskBlock, BlockIo, Kfs, kfs_blocks_per_file, kfs_alloc_block_zero, kfs_free_blocks,
}
use kappara.Fs.Kfs.File.{KfsFile, kmemcpy, le32}

abbrev pub kfs_name_max : ℕ
kfs_name_max = 11

abbrev pub kfs_dirents : ℕ
kfs_dirents = 26

abbrev pub kfs_de_dir_bit : ℕ
kfs_de_dir_bit = 2 ^ 31

-- The places of the fields of entry `i`.
abbrev pub name_at : ℕ → ℕ → ℕ
name_at i k = i * 19 + k

abbrev pub start_at : ℕ → ℕ
start_at i = i * 19 + 11

abbrev pub length_at : ℕ → ℕ
length_at i = i * 19 + 15

-- A `uint32_t` of four bytes, low byte first.
abbrev pub word_at : DiskBlock → ℕ → ℕ
word_at b a = b a + 256 * b (a + 1) + 65536 * b (a + 2) + 16777216 * b (a + 3)

-- For a word of 32 bits, clearing bit 31 is the remainder by 2^31.
pub kfs_de_start : DiskBlock → ℕ → ℕ
kfs_de_start dir i = word_at dir (start_at i) % kfs_de_dir_bit

pub kfs_de_isdir : DiskBlock → ℕ → Bool
kfs_de_isdir dir i = leb kfs_de_dir_bit (word_at dir (start_at i))

-- The entry's first byte is NUL.
unfoldable pub is_empty : DiskBlock → ℕ → Bool
is_empty dir i = dir (name_at i 0) == 0

-- The name ends within the places that are left, from `k` on.
unfoldable pub name_fits : ℕ → (ℕ → ℕ) → ℕ → Bool
name_fits zero name k = false
name_fits (suc n) name k = let rest = name_fits n name (k + 1) in if name k == 0 then true else rest

-- The comparison in `kfs_dir_find_slot`, with the places left and the next.
unfoldable pub is_dup : ℕ → DiskBlock → ℕ → (ℕ → ℕ) → ℕ → Bool
is_dup zero dir i name k = false
is_dup (suc n) dir i name k =
    let rest = is_dup n dir i name (k + 1) in
    if dir (name_at i k) == name k then (if name k == 0 then true else rest) else false

-- The slot that is kept: the first that is empty.
unfoldable pub keep_first : Option ℕ → ℕ → Option ℕ
keep_first none i = some i
keep_first (some s) i = some s

-- The loop of `kfs_dir_find_slot`, with the entries left, the next, and the slot found so far.
unfoldable pub slot_loop : ℕ → DiskBlock → (ℕ → ℕ) → ℕ → Option ℕ → Option ℕ
slot_loop zero dir name i slot = slot
slot_loop (suc n) dir name i slot =
    let rest = slot_loop n dir name (i + 1) (if is_empty dir i then keep_first slot i else slot) in
    if is_empty dir i then rest else if is_dup kfs_name_max dir i name 0 then none else rest

-- `none` is -1.
unfoldable pub kfs_dir_find_slot : DiskBlock → (ℕ → ℕ) → Option ℕ
kfs_dir_find_slot dir name =
    if name_fits kfs_name_max name 0 then slot_loop kfs_dirents dir name 0 none else none

-- The comparison in `kfs_dir_find_named`.
pub is_named : ℕ → DiskBlock → ℕ → (ℕ → ℕ) → ℕ → Bool
is_named zero dir i name k = false
is_named (suc n) dir i name k =
    let rest = is_named n dir i name (k + 1) in
    if (dir (name_at i k) == name k) && (not (name k == 0) && not (dir (name_at i k) == 0))
    then rest
    else (dir (name_at i k) == 0) && (name k == 0)

pub named_loop : ℕ → DiskBlock → (ℕ → ℕ) → ℕ → Option ℕ
named_loop zero dir name i = none
named_loop (suc n) dir name i =
    let rest = named_loop n dir name (i + 1) in
    if is_empty dir i then rest else if is_named kfs_name_max dir i name 0 then some i else rest

pub kfs_dir_find_named : DiskBlock → (ℕ → ℕ) → Option ℕ
kfs_dir_find_named dir name = named_loop kfs_dirents dir name 0

-- The loop that clears a name, with the places left and the next.
pub clear_name : ℕ → DiskBlock → ℕ → ℕ → DiskBlock
clear_name zero dir i k = dir
clear_name (suc n) dir i k = clear_name n (write dir (name_at i k) 0) i (k + 1)

-- The loop that copies a name up to its NUL.
pub copy_name : ℕ → DiskBlock → ℕ → (ℕ → ℕ) → ℕ → DiskBlock
copy_name zero dir i name k = dir
copy_name (suc n) dir i name k =
    let rest = copy_name n (write dir (name_at i k) (name k)) i name (k + 1) in
    if name k == 0 then dir else rest

-- The first block, with the directory bit, and the size of an entry.
pub set_start : DiskBlock → ℕ → ℕ → ℕ → DiskBlock
set_start dir i start size =
    kmemcpy (kmemcpy dir (start_at i) (le32 start) 0 4) (length_at i) (le32 size) 0 4

-- An entry filled in by `kfs_dir_creat` or `kfs_dir_mkdir`.
pub put_entry : DiskBlock → ℕ → (ℕ → ℕ) → ℕ → DiskBlock
put_entry dir i name start =
    set_start (copy_name (kfs_name_max - 1) (clear_name kfs_name_max dir i 0) i name 0) i start 0

-- An entry cleared by `kfs_dir_unlink` or `kfs_dir_rmdir`.
pub drop_entry : DiskBlock → ℕ → DiskBlock
drop_entry dir i = set_start (clear_name kfs_name_max dir i 0) i 0 0

-- The entries of a directory that `kfs_dir_rmdir` looks through.
pub all_empty : ℕ → DiskBlock → ℕ → Bool
all_empty zero dir i = true
all_empty (suc n) dir i =
    let rest = all_empty n dir (i + 1) in if is_empty dir i then rest else false
