-- ===== src/DiskFs/Removing.antt =====
-- `dfs_remove` of kernel/diskfs.c seen through `dfs_read`.
use fobos_os.Base.{
  ℕ, ◌+◌, ◌-◌, ◌^◌, ◌%◌, ◌<◌, ◌≤◌, ◌≡◌, ◌≢◌, refl, ◌⊎◌, inl, inr, Bool, true, false, not, Option,
  none, some, List, length, length-set, set, get_elem?, arith, ap, ◌∙◌, sym, subst, if◌then◌else◌,
  Bool-cases, find_index, find_index_lem, all_fail-find_index,
}
use fobos_os.DiskFs.Device.{Device, IsReliable}
use fobos_os.DiskFs.Layout.{Entry, blank_entry, sectors_for}
use fobos_os.DiskFs.Files.{
  Dfs, is_file, dfs_find, read_found, dfs_read, save, dfs_remove, remove_found,
}
use fobos_os.DiskFs.Saving.{OnDisk, Saved, save-Saved}
use fobos_os.DiskFs.Volume.{IsLayout, IsLayout-set, set_cases}
use fobos_os.DiskFs.ReadWrite.{IsVolume}
use fobos_os.DiskFs.Reading.{is_file_other, dfs_read_mounted, dfs_read_other}

module _ (D : Device) (R : IsReliable D) where
  -- What a removal of a file leaves.
  pub record Gone (name : List ℕ) (d : Dfs D) (r : Bool × Dfs D) : Type 0 where
    pub ok : r.0 ≡ true
    pub volume : IsVolume D R r.1
    pub read : (max : ℕ) → dfs_read D name max r.1 ≡ none
    pub others :
        (other : List ℕ) (max : ℕ)
        → other ≢ name
        → dfs_read D other max r.1 ≡ dfs_read D other max d
    pub on_disk : OnDisk D R r.1

  module _ (i : ℕ) (e : Entry) (name : List ℕ) (d : Dfs D) (v : IsVolume D R d)
      (g : get_elem? d.dir i ≡ some e) (file : is_file name e ≡ true) (inside : i < 128) where
    abbrev cleared : Dfs D
    cleared = record d {
      dir = set d.dir i blank_entry;
      super = record d.super { file_count = (d.super.file_count + (2 ^ 32 - 1)) % 2 ^ 32 };
    }

    IsLayout-cleared : IsLayout cleared.super cleared.dir
    IsLayout-cleared =
        let l = v.layout in
        let sv = l.super_valid in
        IsLayout-set d.super cleared.super d.dir i blank_entry l (record {
          inside = inside;
          fits = record {
            name_length = refl;
            start_bound = omega arith;
            size_bound = omega arith;
            used_bound = omega arith;
            reserved_length = refl;
          };
          super_fits = record {
            magic_eq = sv.magic_eq;
            version_eq = sv.version_eq;
            total_bound = sv.total_bound;
            data_bound = sv.data_bound;
            free_bound = sv.free_bound;
            count_bound = omega arith;
            reserved_length = sv.reserved_length;
          };
          same_total = refl;
          grows = omega arith;
          within = l.free_to;
          in_range = λ h. absurd (omega (arith, h));
          away = λ j f ne gf hs hf. absurd (omega (arith, hs));
          named = λ j f nm ne gf t. ground (arith, t);
        })

    bound : i < length d.dir
    bound = omega (arith, v.layout.entries, inside)

    not_found : dfs_find D name cleared ≡ none
    unfolding dfs_find
    not_found = all_fail-find_index (is_file name) cleared.dir (λ j x gx. fails j x gx)
      where
        fails : (j : ℕ) (x : Entry) → get_elem? cleared.dir j ≡ some x → is_file name x ≡ false
        fails j x gx = elim (set_cases d.dir i j blank_entry x bound gx) [
          | inl (same, b) ↦ rw (← b) refl
          | inr (ne, gx') ↦ elim (Bool-cases (is_file name x)) [
            | inl k ↦ absurd (ne (v.layout.distinct i j e x name g gx' file k))
            | inr k ↦ k
          ]
        ]

    Gone-save : (r : Bool × Dfs D) → Saved D R cleared r → Gone name d r
    unfolding dfs_find
    Gone-save r s =
        let mounted : r.1.mounted ≡ true = ap (λ x. x.mounted) s.same ∙ v.mounted_eq in
        let dir : r.1.dir ≡ set d.dir i blank_entry = ap (λ x. x.dir) s.same in
        let none_left : dfs_find D name r.1 ≡ none =
          ap (find_index (is_file name)) dir ∙ not_found in
        record {
          ok = s.ok;
          volume = record {
            mounted_eq = mounted;
            total_eq = ap (λ x. x.super.total_sectors) s.same ∙ v.total_eq ∙ sym s.same_count;
            layout = subst (λ x. IsLayout x.super x.dir) (sym s.same) IsLayout-cleared;
          };
          read = λ max.
              dfs_read_mounted D R name max r.1 mounted ∙ ap (read_found D max r.1) none_left;
          others = λ other max ne.
              dfs_read_other D R i blank_entry e d r.1 other v dir g refl
                (is_file_other name other e file ne) max mounted s.same_count
                (λ j f ne' gf k lo hi. s.outside k (in_data j f k gf lo hi));
          on_disk = s.on_disk;
        }
      where
        in_data :
            (j : ℕ) (f : Entry) (k : ℕ)
            → get_elem? d.dir j ≡ some f
            → f.start_sector ≤ k
            → k < f.start_sector + sectors_for f.size_bytes
            → 17 ≤ k
        in_data j f k gf lo hi =
            let p = v.layout.placed j f gf (omega (arith, lo, hi)) in omega (arith, p.0, lo)

  -- A name that is not there, or a file that is gone.
  abbrev pub Removal : List ℕ → Dfs D → Bool × Dfs D → Type 0
  Removal name d r = ((dfs_find D name d ≡ none) × (r ≡ (false, d))) ⊎ Gone name d r

  removal :
      (name : List ℕ) (d : Dfs D) (o : Option ℕ)
      → IsVolume D R d
      → dfs_find D name d ≡ o
      → Removal name d (remove_found D d o)
  unfolding dfs_find
  removal name d none v f = inl (f, refl)
  removal name d (some i) v f =
      let (bound, (e, g, file)) = find_index_lem (is_file name) d.dir i f in
      let inside : i < 128 = omega (arith, bound, v.layout.entries) in
      let c = cleared i e name d v g file inside in
      let size : length c.dir ≡ 128 = length-set d.dir i blank_entry ∙ v.layout.entries in
      let l = v.layout in
      inr (
        Gone-save i e name d v g file inside (save D c)
          (save-Saved D R c size (omega (arith, l.free_from, l.free_to, v.total_eq))))

  -- dfs_remove fails and changes nothing when no file has the name; otherwise it succeeds on a disk
  -- that works, the name is not found any more, every other file is read as before, the volume
  -- keeps its invariant and stands on the disk.
  pub dfs_remove-Removal :
      (name : List ℕ) (d : Dfs D) → IsVolume D R d → Removal name d (dfs_remove D name d)
  unfolding dfs_remove
  dfs_remove-Removal name d v =
      subst (Removal name d)
        (sym (
          ap (λ b. if not b then (false, d) else remove_found D d (dfs_find D name d))
            v.mounted_eq))
        (removal name d (dfs_find D name d) v refl)
