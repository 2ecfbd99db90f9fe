-- ===== src/DiskFs/Layout.antt =====
-- The directory entries and the super block of kernel/diskfs.c, and their bytes on disk.
use fobos_os.Base.{
  ℕ, zero, suc, ◌+◌, ◌-◌, ◌*◌, ◌/◌, ◌%◌, ◌^◌, List, [], ◌∷◌, ◌++◌, length, take, drop, get_or,
  replicate, ◌==◌, if◌then◌else◌,
}

-- `struct dfs_entry`, as the 64 bytes of it that are kept on disk.
pub record Entry : Type 0 where
  pub name : List ℕ
  pub start_sector : ℕ
  pub size_bytes : ℕ
  pub used : ℕ
  pub reserved : List ℕ

-- `struct dfs_super`
pub record Super : Type 0 where
  pub magic : ℕ
  pub version : ℕ
  pub total_sectors : ℕ
  pub data_start : ℕ
  pub next_free : ℕ
  pub file_count : ℕ
  pub reserved : List ℕ

abbrev pub dfs_magic : ℕ
dfs_magic = 0x53465331

abbrev pub dfs_dir_sectors : ℕ
dfs_dir_sectors = 16

abbrev pub dfs_max_files : ℕ
dfs_max_files = 128

abbrev pub dfs_data_start : ℕ
dfs_data_start = 17

-- Four bytes in the processor's order, the lowest first.
abbrev pub word_bytes : ℕ → List ℕ
word_bytes v = v % 256 ∷ v / 256 % 256 ∷ v / 2 ^ 16 % 256 ∷ v / 2 ^ 24 % 256 ∷ []

abbrev pub word_at : ℕ → List ℕ → ℕ
word_at i p =
    get_or p i 0
    + get_or p (i + 1) 0 * 256
    + get_or p (i + 2) 0 * 2 ^ 16
    + get_or p (i + 3) 0 * 2 ^ 24

unfoldable pub entry_bytes : Entry → List ℕ
entry_bytes e =
    e.name
    ++ (word_bytes e.start_sector ++ word_bytes e.size_bytes ++ word_bytes e.used ++ e.reserved)

unfoldable pub dir_entry_at : List ℕ → Entry
dir_entry_at p = record {
  name = take 32 p;
  start_sector = word_at 0 (drop 32 p);
  size_bytes = word_at 4 (drop 32 p);
  used = word_at 8 (drop 32 p);
  reserved = take 20 (drop 44 p);
}

unfoldable pub super_bytes : Super → List ℕ
super_bytes s =
    word_bytes s.magic
    ++ word_bytes s.version
    ++ word_bytes s.total_sectors
    ++ word_bytes s.data_start
    ++ word_bytes s.next_free
    ++ word_bytes s.file_count
    ++ s.reserved

unfoldable pub super_at : List ℕ → Super
super_at p = record {
  magic = word_at 0 p;
  version = word_at 4 p;
  total_sectors = word_at 8 p;
  data_start = word_at 12 p;
  next_free = word_at 16 p;
  file_count = word_at 20 p;
  reserved = take 488 (drop 24 p);
}

-- `memset(e, 0, sizeof(*e))`
abbrev pub blank_entry : Entry
blank_entry = record {
  name = replicate 32 0;
  start_sector = 0;
  size_bytes = 0;
  used = 0;
  reserved = replicate 20 0;
}

-- A character array up to its first zero.
unfoldable pub c_string : List ℕ → List ℕ
c_string [] = []
c_string (c ∷ s) = let rest = c_string s in if c == 0 then [] else c ∷ rest

-- Sectors for so many bytes, on 32 bits.
abbrev pub sectors_for : ℕ → ℕ
sectors_for size = (size + 511) % 2 ^ 32 / 512

-- A sector's worth of bytes, with zeros behind them.
abbrev pub padded : List ℕ → List ℕ
padded bytes = bytes ++ replicate (512 - length bytes) 0

-- The bytes of the first `n` entries.
unfoldable pub entries_bytes : ℕ → List Entry → List ℕ
entries_bytes zero es = []
entries_bytes (suc n) [] = []
entries_bytes (suc n) (e ∷ es) = entry_bytes e ++ entries_bytes n es

unfoldable pub entries_at : ℕ → List ℕ → List Entry
entries_at zero p = []
entries_at (suc n) p = dir_entry_at p ∷ entries_at n (drop 64 p)
