-- ===== src/DiskFs/Writing.antt =====
-- `dfs_write` and `dfs_remove` of kernel/diskfs.c seen through `dfs_read`: a file by its name.
use fobos_os.Base.{
  ℕ, ◌+◌, ◌-◌, ◌^◌, ◌<◌, ◌≤◌, ◌≡◌, ◌≢◌, refl, ◌⊎◌, inl, inr, Bool, true, false, none, some, List,
  [], length, get_elem?, get_elem?-set_self, min, arith, ap, ◌∙◌, find_index, find_index-set,
}
use fobos_os.DiskFs.Device.{Device, IsReliable}
use fobos_os.DiskFs.Layout.{Entry, sectors_for}
use fobos_os.DiskFs.Files.{
  Dfs, is_file, dfs_find, read_loop, read_entry, read_found, with_size, dfs_read,
}
use fobos_os.DiskFs.Sectors.{read_loop-Stored}
use fobos_os.DiskFs.Saving.{OnDisk}
use fobos_os.DiskFs.Volume.{get_or-get_elem?}
use fobos_os.DiskFs.ReadWrite.{IsVolume, Done, WriteAt, Sized-sectors_for}
use fobos_os.DiskFs.Reading.{is_file_other, dfs_read_mounted, dfs_read_other}

module _ (D : Device) (R : IsReliable D) where
  -- The file written is read back, however large the buffer is that holds it.
  pub dfs_read-Done :
      (i : ℕ) (e : Entry) (bytes name : List ℕ) (max : ℕ) (d : Dfs D) (r : Bool × Dfs D)
      → Done D R i e bytes d r
      → length d.dir ≡ 128
      → i < 128
      → length bytes + 511 < 2 ^ 32
      → length bytes ≤ max
      → is_file name e ≡ true
      → (dfs_find D name d ≡ some i) ⊎ (dfs_find D name d ≡ none)
      → dfs_read D name max r.1 ≡ some (bytes, length bytes)
  unfolding dfs_find
  dfs_read-Done i e bytes name max d r w size inside small m file f =
      let named : is_file name w.entry ≡ true = rw (w.same_used, w.same_name) file in
      let bound : i < length d.dir = omega (arith, size, inside) in
      let found : dfs_find D name r.1 ≡ some i =
        ap (find_index (is_file name)) w.dir_eq
        ∙ find_index-set (is_file name) d.dir i w.entry bound named f in
      let there : get_elem? r.1.dir i ≡ some w.entry =
        ap (λ es. get_elem? es i) w.dir_eq ∙ get_elem?-set_self d.dir i w.entry bound in
      let l = w.volume.layout in
      let n = sectors_for (length bytes) in
      let sectors : sectors_for w.entry.size_bytes ≡ n = ap sectors_for w.size_eq in
      let all : min (length bytes) max ≡ length bytes = omega (arith, m) in
      let read =
        read_loop-Stored D R (length bytes) n w.entry.start_sector bytes r.1.disk
          (Sized-sectors_for (length bytes) small) (omega (arith, small))
          (λ h.
            let p = l.placed i w.entry there (omega (arith, h, sectors, w.size_eq, small)) in
            omega (arith, p.1, sectors, l.free_to, w.volume.total_eq))
          w.stored in
      dfs_read_mounted D R name max r.1 w.volume.mounted_eq
      ∙ ap (read_found D max r.1) found
      ∙ ap (read_entry D max r.1) (get_or-get_elem? r.1.dir i w.entry there)
      ∙ ap (λ s. with_size D s (read_loop D (min s max) w.entry.start_sector (min s max) r.1.disk))
          w.size_eq
      ∙ ap (λ k. with_size D (length bytes) (read_loop D k w.entry.start_sector k r.1.disk)) all
      ∙ ap (with_size D (length bytes)) read

  -- What a write of a file does: the file reads as what was written and every other as before, and
  -- the directory and the super block stand on the disk.
  pub record Wrote (name bytes : List ℕ) (r : Bool × Dfs D) : Type 0 where
    pub ok : r.0 ≡ true
    pub read : (max : ℕ) → length bytes ≤ max → dfs_read D name max r.1 ≡ some (bytes, length bytes)
    pub on_disk : OnDisk D R r.1

  -- Every entry of the directory is in use.
  abbrev pub Full : Dfs D → Type 0
  Full d = (i : ℕ) (e : Entry) → get_elem? d.dir i ≡ some e → e.used ≢ 0

  -- The sectors that are left are too few for the bytes.
  abbrev pub TooFew : List ℕ → Dfs D → Type 0
  TooFew bytes d = d.super.total_sectors - d.super.next_free < sectors_for (length bytes)

  -- Nothing has happened, or the name, which was not there, is now that of an empty file.
  abbrev pub Unwritten : List ℕ → Dfs D → Bool × Dfs D → Type 0
  Unwritten name d r =
      (r.1 ≡ d)
      ⊎ ((dfs_find D name d ≡ none) × ((max : ℕ) → dfs_read D name max r.1 ≡ some ([], 0)))

  pub record Outcome (name bytes : List ℕ) (d : Dfs D) (r : Bool × Dfs D) : Type 0 where
    pub volume : IsVolume D R r.1
    pub others :
        (other : List ℕ) (max : ℕ)
        → other ≢ name
        → dfs_read D other max r.1 ≡ dfs_read D other max d
    pub result :
        Wrote name bytes r
        ⊎ ((r.0 ≡ false)
            × Unwritten name d r
            × ((31 < length name) ⊎ TooFew bytes d ⊎ ((dfs_find D name d ≡ none) × Full d)))

  pub failed :
      (name bytes : List ℕ) (d : Dfs D)
      → IsVolume D R d
      → (31 < length name) ⊎ TooFew bytes d ⊎ ((dfs_find D name d ≡ none) × Full d)
      → Outcome name bytes d (false, d)
  failed name bytes d v why = record {
    volume = v;
    others = λ other max ne. refl;
    result = inr (refl, inl refl, why);
  }

  module _ (i : ℕ) (e : Entry) (name bytes : List ℕ) (d : Dfs D) (r : Bool × Dfs D)
      (v : IsVolume D R d) (g : get_elem? d.dir i ≡ some e) (file : is_file name e ≡ true)
      (w : Done D R i e bytes d r) where
    pub others-Done :
        (other : List ℕ) (max : ℕ)
        → other ≢ name
        → dfs_read D other max r.1 ≡ dfs_read D other max d
    others-Done other max ne =
        let off = is_file_other name other e file ne in
        let off' : is_file other w.entry ≡ false = rw (w.same_used, w.same_name) off in
        dfs_read_other D R i w.entry e d r.1 other v w.dir_eq g off' off max w.volume.mounted_eq
          w.same_count w.others

    pub Wrote-Done :
        i < 128
        → length bytes + 511 < 2 ^ 32
        → (dfs_find D name d ≡ some i) ⊎ (dfs_find D name d ≡ none)
        → Wrote name bytes r
    Wrote-Done inside small f = record {
      ok = w.ok;
      read = λ max m. dfs_read-Done i e bytes name max d r w v.layout.entries inside small m file f;
      on_disk = w.on_disk;
    }

  -- Writing through the entry of that name.
  pub written :
      (i : ℕ) (e : Entry) (name bytes : List ℕ) (d : Dfs D) (r : Bool × Dfs D)
      → IsVolume D R d
      → length bytes + 511 < 2 ^ 32
      → i < 128
      → get_elem? d.dir i ≡ some e
      → is_file name e ≡ true
      → dfs_find D name d ≡ some i
      → WriteAt D R i e bytes d r
      → Outcome name bytes d r
  written i e name bytes d r v small inside g file f (inl (few, same)) =
      rw same (failed name bytes d v (inr (inl few)))
  written i e name bytes d r v small inside g file f (inr w) = record {
    volume = w.volume;
    others = others-Done i e name bytes d r v g file w;
    result = inl (Wrote-Done i e name bytes d r v g file w inside small (inl f));
  }
