-- ===== src/DiskFs/Mounting.antt =====
-- `dfs_format` of kernel/diskfs.c gives an empty volume, and a file written is there after the next
-- `dfs_mount`.
use fobos_os.Base.{
  ℕ, zero, suc, ◌+◌, ◌^◌, ◌<◌, ◌≤◌, ◌≡◌, refl, inl, inr, Bool, true, false, Option, none, some,
  List, length, get_elem?, replicate, arith, ap, ◌∙◌, sym, subst, ltb, find_index,
  all_fail-find_index,
}
use fobos_os.DiskFs.Device.{Device, IsReliable}
use fobos_os.DiskFs.Layout.{Entry, blank_entry, c_string, dfs_max_files}
use fobos_os.DiskFs.Files.{
  Dfs, blank_super, is_file, dfs_find, dfs_read, dfs_write, dfs_format, dfs_mount, dfs_write_super,
  then_dir, then_mounted,
}
use fobos_os.DiskFs.Saving.{OnDisk, Saved, then_dir-Saved, dfs_mount-OnDisk}
use fobos_os.DiskFs.Volume.{IsLayout}
use fobos_os.DiskFs.ReadWrite.{IsVolume}
use fobos_os.DiskFs.Creating.{dfs_write-Outcome}

abbrev blank_dir : List Entry
blank_dir = replicate dfs_max_files blank_entry

abbrev unwrap : Option Entry → Entry
unwrap none = blank_entry
unwrap (some e) = e

replicated :
    (n i : ℕ) (e : Entry) → get_elem? (replicate n blank_entry) i ≡ some e → e ≡ blank_entry
replicated zero i e g = ground (arith, g)
replicated (suc n) zero e g = ap unwrap (sym g)
replicated (suc n) (suc i) e g = replicated n i e g

IsLayout-blank : (total : ℕ) → 25 ≤ total → total < 2 ^ 32 → IsLayout (blank_super total) blank_dir
IsLayout-blank total large small = record {
  super_valid = record {
    magic_eq = refl;
    version_eq = refl;
    total_bound = small;
    data_bound = omega arith;
    free_bound = omega arith;
    count_bound = omega arith;
    reserved_length = refl;
  };
  entries = refl;
  valid = λ i e g. rw (replicated 128 i e g) (record {
    name_length = refl;
    start_bound = omega arith;
    size_bound = omega arith;
    used_bound = omega arith;
    reserved_length = refl;
  });
  free_from = omega arith;
  free_to = omega (arith, large);
  placed = λ i e g h. absurd (omega (arith, empty i e g h));
  apart = λ i j e f g g' ne h h'. absurd (omega (arith, empty i e g h));
  distinct = λ i j e f name g g' h h'. absurd (ground (arith, unused i e name g h));
}
  where
    empty : (i : ℕ) (e : Entry) → get_elem? blank_dir i ≡ some e → 1 ≤ e.size_bytes → 1 ≤ 0
    empty i e g h = rw (replicated 128 i e g) at h

    unused :
        (i : ℕ) (e : Entry) (name : List ℕ)
        → get_elem? blank_dir i ≡ some e
        → is_file name e ≡ true
        → false ≡ true
    unused i e name g h = rw (replicated 128 i e g) at h

module _ (D : Device) (R : IsReliable D) where
  -- A volume without files.
  pub record Formatted (d : Dfs D) (r : Bool × Dfs D) : Type 0 where
    pub ok : r.0 ≡ true
    pub volume : IsVolume D R r.1
    pub no_file : (name : List ℕ) → dfs_find D name r.1 ≡ none
    pub same_count : D.ata_sector_count r.1.disk ≡ D.ata_sector_count d.disk
    pub on_disk : OnDisk D R r.1

  abbrev blanked : Dfs D → Dfs D
  blanked d = record d { super = blank_super (D.ata_sector_count d.disk); dir = blank_dir }

  Formatted-Saved :
      (d : Dfs D) (x : Bool × Dfs D)
      → 25 ≤ D.ata_sector_count d.disk
      → D.ata_sector_count d.disk < 2 ^ 32
      → Saved D R (blanked d) x
      → Formatted d (then_mounted D x)
  unfolding dfs_find
  Formatted-Saved d x large small s = rw s.ok (record {
    ok = refl;
    volume = record {
      mounted_eq = refl;
      total_eq = ap (λ y. y.super.total_sectors) s.same ∙ sym s.same_count;
      layout =
          subst (λ y. IsLayout y.super y.dir) (sym s.same)
            (IsLayout-blank (D.ata_sector_count d.disk) large small);
    };
    no_file = λ name.
        ap (find_index (is_file name)) (ap (λ y. y.dir) s.same)
        ∙ all_fail-find_index (is_file name) blank_dir (λ i e g. rw (replicated 128 i e g) refl);
    same_count = s.same_count;
    on_disk = record { super_sector = s.on_disk.super_sector; dir_sectors = s.on_disk.dir_sectors };
  })

  pub dfs_format-Formatted :
      (d : Dfs D)
      → D.ata_available d.disk ≡ true
      → 25 ≤ D.ata_sector_count d.disk
      → D.ata_sector_count d.disk < 2 ^ 32
      → Formatted d (dfs_format D d)
  unfolding dfs_format
  dfs_format-Formatted d av large small =
      let fits : ltb (D.ata_sector_count d.disk) 25 ≡ false = ground (arith, large) in
      let s = then_dir-Saved D R (blanked d) refl (omega (arith, large)) in
      rw (av, fits) (Formatted-Saved d (then_dir D (dfs_write_super D (blanked d))) large small s)

  mounted_again :
      (x before : Dfs D)
      → IsVolume D R x
      → OnDisk D R x
      → before.disk ≡ x.disk
      → length before.dir ≡ 128
      → D.ata_available before.disk ≡ true
      → dfs_mount D before ≡ (true, x)
  mounted_again x before v o same size av =
      let l = v.layout in
      dfs_mount-OnDisk D R x before o l.super_valid l.valid l.entries size
        (omega (arith, l.free_from, l.free_to, v.total_eq)) same
        (ap D.ata_available (sym same) ∙ av)
      ∙ ap (λ b. (true, record x { mounted = b })) (sym v.mounted_eq)

  -- Over a disk that works and is available, a file that a successful `dfs_write` has written into a
  -- volume is read after a mount of the disk as it was left, by a kernel that has any directory of
  -- 128 entries in memory, when the buffer is large enough. The name is without zeros, and the size
  -- plus 511 fits 32 bits.
  pub dfs_read-dfs_mount :
      (name bytes : List ℕ) (d before : Dfs D) (max : ℕ)
      → IsVolume D R d
      → length bytes + 511 < 2 ^ 32
      → c_string name ≡ name
      → (dfs_write D name bytes d).0 ≡ true
      → before.disk ≡ (dfs_write D name bytes d).1.disk
      → length before.dir ≡ 128
      → D.ata_available before.disk ≡ true
      → length bytes ≤ max
      → ((dfs_mount D before).0 ≡ true)
        × (dfs_read D name max (dfs_mount D before).1 ≡ some (bytes, length bytes))
  dfs_read-dfs_mount name bytes d before max v small plain ok same size av m =
      let o = dfs_write-Outcome D R name bytes d v small plain in
      elim o.result [
        | inl w ↦
            let e =
              mounted_again (dfs_write D name bytes d).1 before o.volume w.on_disk same size av in
            (ap (λ r. r.0) e, ap (λ r. dfs_read D name max r.1) e ∙ w.read max m)
        | inr (failure, left, why) ↦ ground (arith, failure, ok)
      ]
