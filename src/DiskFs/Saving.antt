-- ===== src/DiskFs/Saving.antt =====
-- The directory and the super block of kernel/diskfs.c on disk: what is saved is loaded again.
use fobos_os.Base.{
  ℕ, zero, suc, ◌+◌, ◌-◌, ◌*◌, ◌≤◌, ◌≡◌, refl, inl, inr, Bool, true, List, [], ◌∷◌, ◌++◌, length,
  length-drop, take, drop, replicate, take-append-drop, arith, ap, ◌∙◌, ◌==◌,
}
use fobos_os.DiskFs.Device.{Device, IsReliable}
use fobos_os.DiskFs.Layout.{
  Entry, dfs_magic, super_bytes, super_at, padded, entries_bytes, entries_at,
}
use fobos_os.DiskFs.Files.{
  Dfs, save_loop, load_loop, dfs_write_super, dfs_save_dir, dfs_load_dir, dfs_mount, save, then_dir,
}
use fobos_os.DiskFs.Sectors.{Outside, same_sector, other_sector}
use fobos_os.DiskFs.Directory.{
  IsSuper, AllEntries, super_at-super_bytes, entries_at-entries_bytes, AllEntries-drop,
}

module _ (D : Device) (R : IsReliable D) where
  abbrev count : D.State → ℕ
  count s = D.ata_sector_count s

  -- `n` sectors from `sector` on hold the entries, eight to a sector.
  abbrev pub SavedDir : ℕ → ℕ → List Entry → D.State → Type 0
  SavedDir zero sector es s = length es ≡ 0
  SavedDir (suc n) sector es s =
      (R.contents s sector ≡ padded (entries_bytes 8 es)) × SavedDir n (sector + 1) (drop 8 es) s

  SavedDir_frame :
      (n sector : ℕ) (es : List Entry) (s s' : D.State)
      → ((j : ℕ) → sector ≤ j → R.contents s' j ≡ R.contents s j)
      → SavedDir n sector es s
      → SavedDir n sector es s'
  SavedDir_frame zero sector es s s' same h = h
  SavedDir_frame (suc n) sector es s s' same h = (
    same sector (omega arith) ∙ h.0,
    SavedDir_frame n (sector + 1) (drop 8 es) s s' (λ j lo. same j (omega (arith, lo))) h.1,
  )

  pub record SavedBy (n sector : ℕ) (es : List Entry) (s : D.State) (r : Bool × D.State)
      : Type 0 where
    pub ok : r.0 ≡ true
    pub same_count : D.ata_sector_count r.1 ≡ D.ata_sector_count s
    pub outside : Outside D R sector n s r.1
    pub saved : SavedDir n sector es r.1

  pub save_loop-SavedBy :
      (n sector : ℕ) (es : List Entry) (s : D.State)
      → length es ≡ n * 8
      → sector + n ≤ count s
      → SavedBy n sector es s (save_loop D n sector es s)
  unfolding save_loop
  save_loop-SavedBy zero sector es s size r = record {
    ok = refl;
    same_count = refl;
    outside = λ j h. refl;
    saved = omega (arith, size);
  }
  save_loop-SavedBy (suc n) sector es s size r =
      let bytes = padded (entries_bytes 8 es) in
      let w = R.write s sector bytes (omega (arith, r)) in
      let s' = (D.ata_write_sector sector bytes s).1 in
      let later =
        save_loop-SavedBy n (sector + 1) (drop 8 es) s' (omega (arith, size, length-drop 8 es))
          (omega (arith, r, w.1)) in
      rw w.0 (record {
        ok = later.ok;
        same_count = later.same_count ∙ w.1;
        outside = λ j h.
            later.outside j (ground (arith, h))
            ∙ other_sector D R s' s sector j bytes w.2 (ground (arith, h));
        saved = (
          later.outside sector (inl (omega arith)) ∙ same_sector D R s' s sector bytes w.2,
          later.saved,
        );
      })

  load_loop-SavedDir :
      (n sector : ℕ) (es old : List Entry) (s : D.State)
      → length es ≡ n * 8
      → sector + n ≤ count s
      → AllEntries es
      → SavedDir n sector es s
      → length old ≡ n * 8
      → load_loop D n sector old s ≡ (true, es)
  unfolding load_loop
  load_loop-SavedDir zero sector [] [] s size r v h o = refl
  load_loop-SavedDir zero sector [] (e ∷ old) s size r v h o = absurd (omega (arith, o))
  load_loop-SavedDir zero sector (e ∷ es) old s size r v h o = absurd (omega (arith, size))
  load_loop-SavedDir (suc n) sector es old s size r v h o =
      let sector_read = R.read s sector (omega (arith, r)) in
      let later =
        load_loop-SavedDir n (sector + 1) (drop 8 es) (drop 8 old) s
          (omega (arith, size, length-drop 8 es)) (omega (arith, r)) (AllEntries-drop 8 es v) h.1
          (omega (arith, o, length-drop 8 old)) in
      let loaded : entries_at 8 (R.contents s sector) ≡ take 8 es =
        ap (entries_at 8) h.0
        ∙ entries_at-entries_bytes 8 es (replicate (512 - length (entries_bytes 8 es)) 0)
            (omega (arith, size)) v in
      rw (sector_read, later)
        (ap (λ l. (true, l)) (ap (λ l. l ++ drop 8 es) loaded ∙ take-append-drop 8 es))

  -- The directory and the super block stand on the disk.
  pub record OnDisk (d : Dfs D) : Type 0 where
    pub super_sector : R.contents d.disk 0 ≡ super_bytes d.super
    pub dir_sectors : SavedDir 16 1 d.dir d.disk

  -- What saving leaves: all but the disk as it was, and of the disk all but the first 17 sectors.
  pub record Saved (d : Dfs D) (r : Bool × Dfs D) : Type 0 where
    pub ok : r.0 ≡ true
    pub same : r.1 ≡ record d { disk = r.1.disk }
    pub same_count : D.ata_sector_count r.1.disk ≡ D.ata_sector_count d.disk
    pub outside : (j : ℕ) → 17 ≤ j → R.contents r.1.disk j ≡ R.contents d.disk j
    pub on_disk : OnDisk r.1

  pub save-Saved : (d : Dfs D) → length d.dir ≡ 128 → 17 ≤ count d.disk → Saved d (save D d)
  unfolding dfs_save_dir dfs_write_super
  save-Saved d size r =
      let dir = save_loop-SavedBy 16 1 d.dir d.disk (omega (arith, size)) (omega (arith, r)) in
      let s = (save_loop D 16 1 d.dir d.disk).1 in
      let w = R.write s 0 (super_bytes d.super) (omega (arith, r, dir.same_count)) in
      let s' = (D.ata_write_sector 0 (super_bytes d.super) s).1 in
      rw dir.ok (record {
        ok = w.0;
        same = refl;
        same_count = w.1 ∙ dir.same_count;
        outside = λ j h.
            other_sector D R s' s 0 j (super_bytes d.super) w.2 (ground (arith, h))
            ∙ dir.outside j (inr (omega (arith, h)));
        on_disk = record {
          super_sector = same_sector D R s' s 0 (super_bytes d.super) w.2;
          dir_sectors =
              SavedDir_frame 16 1 d.dir s s'
                (λ j h. other_sector D R s' s 0 j (super_bytes d.super) w.2 (ground (arith, h)))
                dir.saved;
        };
      })

  -- The same of a format, which writes the super block first.
  pub then_dir-Saved :
      (d : Dfs D)
      → length d.dir ≡ 128
      → 17 ≤ count d.disk
      → Saved d (then_dir D (dfs_write_super D d))
  unfolding dfs_save_dir dfs_write_super
  then_dir-Saved d size r =
      let w = R.write d.disk 0 (super_bytes d.super) (omega (arith, r)) in
      let s = (D.ata_write_sector 0 (super_bytes d.super) d.disk).1 in
      let dir = save_loop-SavedBy 16 1 d.dir s (omega (arith, size)) (omega (arith, r, w.1)) in
      rw w.0 (record {
        ok = dir.ok;
        same = refl;
        same_count = dir.same_count ∙ w.1;
        outside = λ j h.
            dir.outside j (inr (omega (arith, h)))
            ∙ other_sector D R s d.disk 0 j (super_bytes d.super) w.2 (ground (arith, h));
        on_disk = record {
          super_sector =
              dir.outside 0 (inl (omega arith))
              ∙ same_sector D R s d.disk 0 (super_bytes d.super) w.2;
          dir_sectors = dir.saved;
        };
      })

  -- Mounting a disk on which a directory and a super block stand brings both back, from whatever
  -- the memory held before.
  pub dfs_mount-OnDisk :
      (d before : Dfs D)
      → OnDisk d
      → IsSuper d.super
      → AllEntries d.dir
      → length d.dir ≡ 128
      → length before.dir ≡ 128
      → 17 ≤ count d.disk
      → before.disk ≡ d.disk
      → D.ata_available d.disk ≡ true
      → dfs_mount D before ≡ (true, record d { mounted = true })
  unfolding dfs_mount dfs_load_dir
  dfs_mount-OnDisk d before o vs ve size old r e av =
      let first = R.read d.disk 0 (omega (arith, r)) in
      let super : super_at (R.contents d.disk 0) ≡ d.super =
        ap super_at o.super_sector ∙ super_at-super_bytes d.super vs in
      let dir =
        load_loop-SavedDir 16 1 d.dir before.dir d.disk (omega (arith, size)) (omega (arith, r)) ve
          o.dir_sectors (omega (arith, old)) in
      let magic : (d.super.magic == dfs_magic) ≡ true = ground (arith, vs.magic_eq) in
      let version : (d.super.version == 1) ≡ true = ground (arith, vs.version_eq) in
      rw (e, av, first, super, magic, version, dir) refl
