-- ===== src/DiskFs/Files.antt =====
-- The operations of kernel/diskfs.c. Each gives whether it succeeded and the state it leaves; what a
-- failed operation has changed stays changed.
use fobos_os.Base.{
  ℕ, zero, suc, ◌+◌, ◌-◌, ◌%◌, ◌^◌, Bool, true, false, not, ◌&&◌, ◌||◌, Option, none, some, List,
  [], ◌∷◌, ◌++◌, length, take, drop, get_or, set, get_elem?, replicate, find_index, min, ltb, ◌==◌,
  if◌then◌else◌,
}
use fobos_os.Wire.{same_string}
use fobos_os.DiskFs.Device.{Device}
use fobos_os.DiskFs.Layout.{
  Entry, Super, dfs_magic, dfs_dir_sectors, dfs_max_files, dfs_data_start, super_bytes, super_at,
  blank_entry, c_string, sectors_for, padded, entries_bytes, entries_at,
}

abbrev pub is_file : List ℕ → Entry → Bool
is_file name e = not (e.used == 0) && same_string (c_string e.name) name

abbrev pub is_free : Entry → Bool
is_free e = e.used == 0

abbrev pub new_entry : List ℕ → ℕ → Entry
new_entry name start = record blank_entry {
  name = take 31 name ++ replicate (32 - length (take 31 name)) 0;
  used = 1;
  start_sector = start;
}

abbrev pub blank_super : ℕ → Super
blank_super total = record {
  magic = dfs_magic;
  version = 1;
  total_sectors = total;
  data_start = dfs_data_start;
  next_free = dfs_data_start;
  file_count = 0;
  reserved = replicate 488 0;
}

module _ (D : Device) where
  -- `g_super`, `g_dir`, `g_mounted` and the disk.
  pub record Dfs : Type 0 where
    pub super : Super
    pub dir : List Entry
    pub mounted : Bool
    pub disk : D.State

  -- `dfs_write_super`
  unfoldable pub dfs_write_super : Dfs → Bool × Dfs
  dfs_write_super d =
      let (ok, disk) = D.ata_write_sector 0 (super_bytes d.super) d.disk in
      (ok, record d { disk = disk })

  -- The loop of `dfs_save_dir` over `n` sectors from `sector` on, eight entries to a sector.
  unfoldable pub save_loop : ℕ → ℕ → List Entry → D.State → Bool × D.State
  save_loop zero sector es s = (true, s)
  save_loop (suc n) sector es s =
      let (ok, s') = D.ata_write_sector sector (padded (entries_bytes 8 es)) s in
      let later = save_loop n (sector + 1) (drop 8 es) s' in if ok then later else (false, s')

  unfoldable pub dfs_save_dir : Dfs → Bool × Dfs
  dfs_save_dir d =
      let (ok, disk) = save_loop dfs_dir_sectors 1 d.dir d.disk in (ok, record d { disk = disk })

  -- The loop of `dfs_load_dir`; the entries of a sector that cannot be read, and those behind it,
  -- stay as they were.
  abbrev pub load_sector : ℕ → List Entry → Bool × List Entry → Option (List ℕ) → Bool × List Entry
  load_sector n old later none = (false, old)
  load_sector n old later (some buf) = (later.0, entries_at 8 buf ++ later.1)

  unfoldable pub load_loop : ℕ → ℕ → List Entry → D.State → Bool × List Entry
  load_loop zero sector old s = (true, old)
  load_loop (suc n) sector old s =
      load_sector n old (load_loop n (sector + 1) (drop 8 old) s) (D.ata_read_sector sector s)

  unfoldable pub dfs_load_dir : Dfs → Bool × Dfs
  dfs_load_dir d =
      let (ok, dir) = load_loop dfs_dir_sectors 1 d.dir d.disk in (ok, record d { dir = dir })

  -- `dfs_save_dir() != 0`, then `dfs_write_super() != 0`: the first failure ends both.
  abbrev pub then_super : Bool × Dfs → Bool × Dfs
  then_super (ok, d) = if ok then dfs_write_super d else (false, d)

  abbrev pub save : Dfs → Bool × Dfs
  save d = then_super (dfs_save_dir d)

  unfoldable pub dfs_find : List ℕ → Dfs → Option ℕ
  dfs_find name d = find_index (is_file name) d.dir

  unfoldable pub dfs_find_free : Dfs → Option ℕ
  dfs_find_free d = find_index is_free d.dir

  abbrev pub then_dir : Bool × Dfs → Bool × Dfs
  then_dir (ok, d) = if ok then dfs_save_dir d else (false, d)

  abbrev pub then_mounted : Bool × Dfs → Bool × Dfs
  then_mounted (ok, d) = (ok, if ok then record d { mounted = true } else d)

  unfoldable pub dfs_format : Dfs → Bool × Dfs
  dfs_format d =
      let total = D.ata_sector_count d.disk in
      let d' = record d { super = blank_super total; dir = replicate dfs_max_files blank_entry } in
      if not (D.ata_available d.disk)
      then (false, d)
      else if ltb total (dfs_data_start + 8)
      then (false, d)
      else then_mounted (then_dir (dfs_write_super d'))

  abbrev pub mount_super : Dfs → Option (List ℕ) → Bool × Dfs
  mount_super d none = (false, d)
  mount_super d (some buf) =
      let d' = record d { super = super_at buf } in
      if not (d'.super.magic == dfs_magic) || not (d'.super.version == 1)
      then dfs_format d'
      else then_mounted (dfs_load_dir d')

  unfoldable pub dfs_mount : Dfs → Bool × Dfs
  dfs_mount d =
      if not (D.ata_available d.disk)
      then (false, d)
      else mount_super d (D.ata_read_sector 0 d.disk)

  -- The entries in use, which `dfs_list` counts and the calls with an index go through.
  unfoldable pub used_entries : List Entry → List Entry
  used_entries [] = []
  used_entries (e ∷ es) = let rest = used_entries es in if e.used == 0 then rest else e ∷ rest

  abbrev pub dfs_list : Dfs → ℕ
  dfs_list d = length (used_entries d.dir)

  abbrev pub dfs_entry : ℕ → Dfs → Option Entry
  dfs_entry idx d = get_elem? (used_entries d.dir) idx

  -- The loop of `dfs_read`: the bytes of the file from sector `lba` on, `left` of them.
  abbrev pub join_chunk : ℕ → Option (List ℕ) → Option (List ℕ) → Option (List ℕ)
  join_chunk chunk none later = none
  join_chunk chunk (some sec) none = none
  join_chunk chunk (some sec) (some bytes) = some (take chunk sec ++ bytes)

  unfoldable pub read_loop : ℕ → ℕ → ℕ → D.State → Option (List ℕ)
  read_loop zero lba left s = some []
  read_loop (suc fuel) lba left s =
      let chunk = min left 512 in
      let later = read_loop fuel (lba + 1) (left - chunk) s in
      if left == 0 then some [] else join_chunk chunk (D.ata_read_sector lba s) later

  -- The bytes read, and the size that is reported.
  abbrev pub with_size : ℕ → Option (List ℕ) → Option (List ℕ × ℕ)
  with_size size none = none
  with_size size (some bytes) = some (bytes, size)

  abbrev pub read_entry : ℕ → Dfs → Entry → Option (List ℕ × ℕ)
  read_entry max d e =
      let size = min e.size_bytes max in
      with_size e.size_bytes (read_loop size e.start_sector size d.disk)

  abbrev pub read_found : ℕ → Dfs → Option ℕ → Option (List ℕ × ℕ)
  read_found max d none = none
  read_found max d (some i) = read_entry max d (get_or d.dir i blank_entry)

  unfoldable pub dfs_read : List ℕ → ℕ → Dfs → Option (List ℕ × ℕ)
  dfs_read name max d = if not d.mounted then none else read_found max d (dfs_find name d)

  -- The loop of `dfs_write` over the bytes, sector by sector.
  unfoldable pub write_loop : ℕ → ℕ → List ℕ → D.State → Bool × D.State
  write_loop zero lba bytes s = (true, s)
  write_loop (suc fuel) lba bytes s =
      let (ok, s') = D.ata_write_sector lba (padded (take 512 bytes)) s in
      let later = write_loop fuel (lba + 1) (drop 512 bytes) s' in
      if length bytes == 0 then (true, s) else if ok then later else (false, s')

  -- Entry `i` with its new size, at sectors of its own: the ones it has, or new ones at the end of
  -- those given out when they are too few; `none` when there is no space for those.
  unfoldable pub allocate : ℕ → ℕ → Dfs → Option Dfs
  allocate i size d =
      let e = get_or d.dir i blank_entry in
      let needed = sectors_for size in
      let free_sectors = (d.super.total_sectors + (2 ^ 32 - d.super.next_free)) % 2 ^ 32 in
      if ltb (sectors_for e.size_bytes) needed
      then if ltb free_sectors needed
        then none
        else some (record d {
          dir = set d.dir i (record e { start_sector = d.super.next_free; size_bytes = size });
          super = record d.super { next_free = (d.super.next_free + needed) % 2 ^ 32 };
        })
      else some (record d { dir = set d.dir i (record e { size_bytes = size }) })

  abbrev pub then_save : Dfs → Bool × D.State → Bool × Dfs
  then_save d (ok, disk) =
      if ok then save (record d { disk = disk }) else (false, record d { disk = disk })

  abbrev pub store : ℕ → List ℕ → Dfs → Option Dfs → Bool × Dfs
  store i bytes d none = (false, d)
  store i bytes d (some d') =
      let e = get_or d'.dir i blank_entry in
      then_save d' (write_loop (length bytes) e.start_sector bytes d'.disk)

  -- `dfs_write` once the entry is there.
  abbrev pub write_at : ℕ → List ℕ → Dfs → Bool × Dfs
  write_at i bytes d = store i bytes d (allocate i (length bytes) d)

  abbrev pub create : List ℕ → List ℕ → Dfs → Option ℕ → Bool × Dfs
  create name bytes d none = (false, d)
  create name bytes d (some i) = write_at i bytes (record d {
    dir = set d.dir i (new_entry name d.super.next_free);
    super = record d.super { file_count = (d.super.file_count + 1) % 2 ^ 32 };
  })

  abbrev pub write_found : List ℕ → List ℕ → Dfs → Option ℕ → Bool × Dfs
  write_found name bytes d (some i) = write_at i bytes d
  write_found name bytes d none = create name bytes d (dfs_find_free d)

  unfoldable pub dfs_write : List ℕ → List ℕ → Dfs → Bool × Dfs
  dfs_write name bytes d =
      if not d.mounted
      then (false, d)
      else if ltb 31 (length name)
      then (false, d)
      else write_found name bytes d (dfs_find name d)

  abbrev pub remove_found : Dfs → Option ℕ → Bool × Dfs
  remove_found d none = (false, d)
  remove_found d (some i) = save (record d {
    dir = set d.dir i blank_entry;
    super = record d.super { file_count = (d.super.file_count + (2 ^ 32 - 1)) % 2 ^ 32 };
  })

  unfoldable pub dfs_remove : List ℕ → Dfs → Bool × Dfs
  dfs_remove name d = if not d.mounted then (false, d) else remove_found d (dfs_find name d)

  -- `dfs_sync`, which does both whatever the first one gives.
  unfoldable pub dfs_sync : Dfs → Dfs
  dfs_sync d = if not d.mounted then d else (dfs_write_super (dfs_save_dir d).1).1
