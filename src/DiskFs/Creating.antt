-- ===== src/DiskFs/Creating.antt =====
-- `dfs_write` of kernel/diskfs.c when the name is new: a free entry is given the name and written.
use fobos_os.Base.{
  ℕ, ◌+◌, ◌-◌, ◌^◌, ◌%◌, ◌<◌, ◌≤◌, ◌≡◌, ◌≢◌, refl, inl, inr, Bool, true, false, not, Option, none,
  some, List, [], ◌++◌, length, length-append, length-take, length-replicate, set, get_elem?,
  get_elem?-set_self, take, take_all, replicate, min, arith, ap, ◌∙◌, sym, if◌then◌else◌,
  Bool-cases, find_index_lem, find_index-none, find_index-set, ltb,
}
use fobos_os.DiskFs.Device.{Device, IsReliable}
use fobos_os.DiskFs.Layout.{Entry, c_string}
use fobos_os.DiskFs.Files.{
  Dfs, is_file, is_free, new_entry, dfs_find, dfs_find_free, read_loop, read_entry, read_found,
  with_size, dfs_read, write_at, write_found, dfs_write, create,
}
use fobos_os.DiskFs.Volume.{get_or-get_elem?, IsLayout-set}
use fobos_os.DiskFs.ReadWrite.{IsVolume, WriteAt, write_at-WriteAt}
use fobos_os.Wire.Strings.{same_string_refl}
use fobos_os.DiskFs.Reading.{
  c_string-padded, is_file_name, is_file_other, dfs_read_mounted, dfs_read_other,
}
use fobos_os.DiskFs.Writing.{Outcome, failed, others-Done, Wrote-Done, written}

padded_length : (a : List ℕ) → length a ≤ 32 → length (a ++ replicate (32 - length a) 0) ≡ 32
padded_length a h = omega (
  arith,
  length-append a (replicate (32 - length a) 0),
  length-replicate {A = ℕ} (32 - length a) 0,
  h,
)

module _ (D : Device) (R : IsReliable D) where
  -- Writing through a free entry that has been given the name.
  module _ (i : ℕ) (b : Entry) (name bytes : List ℕ) (d : Dfs D) (v : IsVolume D R d)
      (g : get_elem? d.dir i ≡ some b) (free : is_free b ≡ true) (absent : dfs_find D name d ≡ none)
      (short : length name ≤ 31) (plain : c_string name ≡ name) where
    abbrev entered : Dfs D
    entered = record d {
      dir = set d.dir i (new_entry name d.super.next_free);
      super = record d.super { file_count = (d.super.file_count + 1) % 2 ^ 32 };
    }

    file_entered : is_file name (new_entry name d.super.next_free) ≡ true
    file_entered =
        let all = take_all 31 name short in
        let plain' = c_string-padded name (32 - length name) plain in
        rw (all, plain') (same_string_refl name)

    only_one :
        (j : ℕ) (f : Entry) (nm : List ℕ)
        → get_elem? d.dir j ≡ some f
        → is_file nm (new_entry name d.super.next_free) ≡ true
        → is_file nm f ≡ false
    unfolding dfs_find
    only_one j f nm gf t =
        let a = new_entry name d.super.next_free in
        let same : nm ≡ name = sym (is_file_name nm a t) ∙ is_file_name name a file_entered in
        rw same (find_index-none (is_file name) d.dir j f absent gf)

    IsVolume-entered : i < 128 → IsVolume D R entered
    IsVolume-entered inside =
        let l = v.layout in
        let sv = l.super_valid in
        record {
          mounted_eq = v.mounted_eq;
          total_eq = v.total_eq;
          layout =
              IsLayout-set d.super entered.super d.dir i (new_entry name d.super.next_free) l
                (record {
                  inside = inside;
                  fits = record {
                    name_length = padded_length (take 31 name) (omega (arith, length-take 31 name));
                    start_bound = sv.free_bound;
                    size_bound = omega arith;
                    used_bound = omega arith;
                    reserved_length = refl;
                  };
                  super_fits = record {
                    magic_eq = sv.magic_eq;
                    version_eq = sv.version_eq;
                    total_bound = sv.total_bound;
                    data_bound = sv.data_bound;
                    free_bound = sv.free_bound;
                    count_bound = omega arith;
                    reserved_length = sv.reserved_length;
                  };
                  same_total = refl;
                  grows = omega arith;
                  within = l.free_to;
                  in_range = λ h. absurd (omega (arith, h));
                  away = λ j f ne gf hs hf. absurd (omega (arith, hs));
                  named = λ j f nm ne gf t. only_one j f nm gf t;
                });
        }

    other_entered :
        (other : List ℕ) (max : ℕ)
        → other ≢ name
        → dfs_read D other max entered ≡ dfs_read D other max d
    other_entered other max ne =
        let off = is_file_other name other (new_entry name d.super.next_free) file_entered ne in
        let off' : is_file other b ≡ false = rw free refl in
        dfs_read_other D R i (new_entry name d.super.next_free) b d entered other v refl g off off'
          max v.mounted_eq refl (λ j f ne' gf k lo hi. refl)

    find_entered : i < 128 → dfs_find D name entered ≡ some i
    unfolding dfs_find
    find_entered inside =
        find_index-set (is_file name) d.dir i (new_entry name d.super.next_free)
          (omega (arith, v.layout.entries, inside)) file_entered (inr absent)

    read_entered : i < 128 → (max : ℕ) → dfs_read D name max entered ≡ some ([], 0)
    unfolding read_loop
    read_entered inside max =
        let a = new_entry name d.super.next_free in
        let there : get_elem? entered.dir i ≡ some a =
          get_elem?-set_self d.dir i a (omega (arith, v.layout.entries, inside)) in
        let none_yet : min 0 max ≡ 0 = omega arith in
        dfs_read_mounted D R name max entered v.mounted_eq
        ∙ ap (read_found D max entered) (find_entered inside)
        ∙ ap (read_entry D max entered) (get_or-get_elem? entered.dir i a there)
        ∙ ap (λ k. with_size D 0 (read_loop D k d.super.next_free k d.disk)) none_yet

    created :
        (r : Bool × Dfs D)
        → length bytes + 511 < 2 ^ 32
        → i < 128
        → WriteAt D R i (new_entry name d.super.next_free) bytes entered r
        → Outcome D R name bytes d r
    created r small inside (inl (few, same)) = rw same (record {
      volume = IsVolume-entered inside;
      others = other_entered;
      result = inr (refl, inr (absent, read_entered inside), inr (inl few));
    })
    created r small inside (inr w) =
        let v' = IsVolume-entered inside in
        let a = new_entry name d.super.next_free in
        let g' : get_elem? entered.dir i ≡ some a =
          get_elem?-set_self d.dir i a (omega (arith, v.layout.entries, inside)) in
        record {
          volume = w.volume;
          others = λ other max ne.
              others-Done D R i a name bytes entered r v' g' file_entered w other max ne
              ∙ other_entered other max ne;
          result = inl (
              Wrote-Done D R i a name bytes entered r v' g' file_entered w inside small
                (inl (find_entered inside)));
        }

  write_new :
      (name bytes : List ℕ) (d : Dfs D) (o : Option ℕ)
      → IsVolume D R d
      → length bytes + 511 < 2 ^ 32
      → length name ≤ 31
      → c_string name ≡ name
      → dfs_find D name d ≡ none
      → dfs_find_free D d ≡ o
      → Outcome D R name bytes d (create D name bytes d o)
  unfolding dfs_find_free
  write_new name bytes d none v small short plain f h = failed D R name bytes d v (
      inr (
        inr (
          f,
          λ i e g u. let busy = find_index-none is_free d.dir i e h g in ground (arith, busy, u),
        )))
  write_new name bytes d (some i) v small short plain f h =
      let (bound, (b, g, free)) = find_index_lem is_free d.dir i h in
      let inside : i < 128 = omega (arith, bound, v.layout.entries) in
      let a = new_entry name d.super.next_free in
      created i b name bytes d v g free f short plain
        (write_at D i bytes (entered i b name bytes d v g free f short plain)) small inside
        (write_at-WriteAt D R i a bytes (entered i b name bytes d v g free f short plain)
          (IsVolume-entered i b name bytes d v g free f short plain inside) small inside
          (get_elem?-set_self d.dir i a bound))

  write_by_name :
      (name bytes : List ℕ) (d : Dfs D) (o : Option ℕ)
      → IsVolume D R d
      → length bytes + 511 < 2 ^ 32
      → length name ≤ 31
      → c_string name ≡ name
      → dfs_find D name d ≡ o
      → Outcome D R name bytes d (write_found D name bytes d o)
  unfolding dfs_find
  write_by_name name bytes d none v small short plain f =
      write_new name bytes d (dfs_find_free D d) v small short plain f refl
  write_by_name name bytes d (some i) v small short plain f =
      let (bound, (e, g, file)) = find_index_lem (is_file name) d.dir i f in
      let inside : i < 128 = omega (arith, bound, v.layout.entries) in
      written D R i e name bytes d (write_at D i bytes d) v small inside g file f
        (write_at-WriteAt D R i e bytes d v small inside g)

  dfs_write_mounted :
      (name bytes : List ℕ) (d : Dfs D)
      → d.mounted ≡ true
      → dfs_write D name bytes d ≡ (
          if ltb 31 (length name)
          then (false, d)
          else write_found D name bytes d (dfs_find D name d))
  unfolding dfs_write
  dfs_write_mounted name bytes d m =
      ap
        (λ b.
          if not b
          then (false, d)
          else if ltb 31 (length name)
          then (false, d)
          else write_found D name bytes d (dfs_find D name d))
        m

  -- On a volume over a disk that works, dfs_write keeps the volume's invariant (files have sectors
  -- of their own and names of their own) and every other file as dfs_read sees it. When it
  -- succeeds, the name is read as the bytes written and the directory and the super block stand on
  -- the disk. When it fails, the name is too long, or too few sectors are left, or no file has the
  -- name and every entry of the directory is in use; and then nothing has changed, or the name,
  -- which was not there, is that of an empty file. Names are without zeros, and the size plus 511
  -- fits 32 bits.
  pub dfs_write-Outcome :
      (name bytes : List ℕ) (d : Dfs D)
      → IsVolume D R d
      → length bytes + 511 < 2 ^ 32
      → c_string name ≡ name
      → Outcome D R name bytes d (dfs_write D name bytes d)
  dfs_write-Outcome name bytes d v small plain =
      rw (dfs_write_mounted name bytes d v.mounted_eq) (elim (Bool-cases (ltb 31 (length name))) [
        | inl k ↦ rw k (failed D R name bytes d v (inl (ground (arith, k))))
        | inr k ↦
            rw k (
              write_by_name name bytes d (dfs_find D name d) v small (ground (arith, k)) plain refl)
      ])
