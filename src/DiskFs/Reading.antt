-- ===== src/DiskFs/Reading.antt =====
-- How `dfs_read` of kernel/diskfs.c sees the directory: names, and what a change of one entry leaves.
use fobos_os.Base.{
  ℕ, zero, suc, ◌+◌, ◌-◌, ◌*◌, ◌^◌, ◌<◌, ◌≤◌, ◌≡◌, ◌≢◌, refl, inl, inr, true, false, not, Option,
  none, some, List, [], ◌∷◌, ◌++◌, set, get_elem?, get_elem?-set_ne, replicate, min, arith, ap, ◌∙◌,
  sym, subst, ◌==◌, if◌then◌else◌, Bool-cases, find_index, find_index_lem, find_index-set_other,
}
use fobos_os.Wire.{same_string}
use fobos_os.Wire.Strings.{same_string_eq, same_string_ne}
use fobos_os.DiskFs.Device.{Device, IsReliable}
use fobos_os.DiskFs.Layout.{Entry, blank_entry, c_string, sectors_for}
use fobos_os.DiskFs.Files.{
  Dfs, is_file, dfs_find, read_loop, read_entry, with_size, dfs_read, read_found,
}
use fobos_os.DiskFs.Volume.{get_or-get_elem?}
use fobos_os.DiskFs.ReadWrite.{IsVolume, Kept}

abbrev unwrap : Option Entry → Entry
unwrap none = blank_entry
unwrap (some e) = e

abbrev tail : List ℕ → List ℕ
tail [] = []
tail (x ∷ xs) = xs

-- A name without a zero in it, with the zeros behind it that fill its place.
pub c_string-padded :
    (name : List ℕ) (k : ℕ) → c_string name ≡ name → c_string (name ++ replicate k 0) ≡ name
unfolding c_string
c_string-padded [] zero h = refl
c_string-padded [] (suc k) h = refl
c_string-padded (c ∷ name) k h = elim (Bool-cases (c == 0)) [
  | inl z ↦ let h' = rw z at h in ground (arith, h')
  | inr z ↦ let h' = rw z at h in rw z (ap (λ l. c ∷ l) (c_string-padded name k (ap tail h')))
]

pub is_file_name : (name : List ℕ) (e : Entry) → is_file name e ≡ true → c_string e.name ≡ name
is_file_name name e h = elim (Bool-cases (e.used == 0)) [
  | inl k ↦ let h' = rw k at h in ground (arith, h')
  | inr k ↦ same_string_eq (c_string e.name) name (rw k at h)
]

-- An entry is a file of one name only.
pub is_file_other :
    (name other : List ℕ) (e : Entry)
    → is_file name e ≡ true
    → other ≢ name
    → is_file other e ≡ false
is_file_other name other e h ne = elim (Bool-cases (e.used == 0)) [
  | inl k ↦ rw k refl
  | inr k ↦
      let same : same_string (c_string e.name) name ≡ true = rw k at h in
      let eq = same_string_eq (c_string e.name) name same in
      rw (k, eq) (same_string_ne name other (λ e'. ne (sym e')))
]

module _ (D : Device) (R : IsReliable D) where
  -- Bytes read from sectors that did not change.
  read_loop_frame :
      (fuel n lba left : ℕ) (s s' : D.State)
      → left ≤ n * 512
      → lba + n ≤ D.ata_sector_count s
      → D.ata_sector_count s' ≡ D.ata_sector_count s
      → ((k : ℕ) → lba ≤ k → k < lba + n → R.contents s' k ≡ R.contents s k)
      → read_loop D fuel lba left s' ≡ read_loop D fuel lba left s
  unfolding read_loop
  read_loop_frame zero n lba left s s' size r c same = refl
  read_loop_frame (suc fuel) n lba left s s' size r c same = elim (Bool-cases (left == 0)) [
    | inl k ↦ rw k refl
    | inr k ↦
        let some_left : 1 ≤ left = ground (arith, k) in
        let here = R.read s lba (omega (arith, r, size, some_left)) in
        let there = R.read s' lba (omega (arith, r, c, size, some_left)) in
        let contents = same lba (omega arith) (omega (arith, size, some_left)) in
        let later =
          read_loop_frame fuel (n - 1) (lba + 1) (left - min left 512) s s' (omega (arith, size))
            (omega (arith, r, size, some_left)) c
            (λ j lo hi. same j (omega (arith, lo)) (omega (arith, hi, size, some_left))) in
        rw (k, here, there, contents, later) refl
  ]

  read_entry_frame :
      (max : ℕ) (e : Entry) (d d' : Dfs D)
      → (1 ≤ e.size_bytes → e.start_sector + sectors_for e.size_bytes ≤ D.ata_sector_count d.disk)
      → e.size_bytes + 511 < 2 ^ 32
      → D.ata_sector_count d'.disk ≡ D.ata_sector_count d.disk
      → Kept D R e d d'
      → read_entry D max d' e ≡ read_entry D max d e
  unfolding read_loop
  read_entry_frame max e d d' r small c kept = elim (Bool-cases (e.size_bytes == 0)) [
    | inl k ↦ let empty : min e.size_bytes max ≡ 0 = ground (arith, k) in rw empty refl
    | inr k ↦
        let some_byte : 1 ≤ e.size_bytes = ground (arith, k) in
        ap (with_size D e.size_bytes) (
          read_loop_frame (min e.size_bytes max) (sectors_for e.size_bytes) e.start_sector
            (min e.size_bytes max) d.disk d'.disk (omega (arith, small)) (r some_byte) c kept)
  ]

  pub dfs_read_mounted :
      (name : List ℕ) (max : ℕ) (d : Dfs D)
      → d.mounted ≡ true
      → dfs_read D name max d ≡ read_found D max d (dfs_find D name d)
  unfolding dfs_read
  dfs_read_mounted name max d m =
      ap (λ b. if not b then none else read_found D max d (dfs_find D name d)) m

  module _ (i : ℕ) (a b : Entry) (d d' : Dfs D) (other : List ℕ) (v : IsVolume D R d)
      (dir_eq : d'.dir ≡ set d.dir i a) (g : get_elem? d.dir i ≡ some b)
      (not_new : is_file other a ≡ false) (not_old : is_file other b ≡ false) where
    find_other : dfs_find D other d' ≡ dfs_find D other d
    unfolding dfs_find
    find_other =
        ap (find_index (is_file other)) dir_eq
        ∙ find_index-set_other (is_file other) d.dir i a b g not_new not_old

    found_other :
        (max : ℕ) (o : Option ℕ)
        → dfs_find D other d ≡ o
        → D.ata_sector_count d'.disk ≡ D.ata_sector_count d.disk
        → ((j : ℕ) (f : Entry) → i ≢ j → get_elem? d.dir j ≡ some f → Kept D R f d d')
        → read_found D max d' o ≡ read_found D max d o
    unfolding dfs_find
    found_other max none e c kept = refl
    found_other max (some j) e c kept =
        let (inside, (x, gx, file)) = find_index_lem (is_file other) d.dir j e in
        let ne : i ≢ j = differs x j gx file in
        let there : get_elem? d'.dir j ≡ some x =
          ap (λ es. get_elem? es j) dir_eq ∙ get_elem?-set_ne d.dir a ne ∙ gx in
        let old = get_or-get_elem? d.dir j x gx in
        let new = get_or-get_elem? d'.dir j x there in
        let l = v.layout in
        ap (read_entry D max d') new
        ∙ read_entry_frame max x d d'
            (λ h. let p = l.placed j x gx h in omega (arith, p.1, l.free_to, v.total_eq))
            (l.valid j x gx).size_bound c (kept j x ne gx)
        ∙ ap (read_entry D max d) (sym old)
      where
        differs : (x : Entry) (j : ℕ) → get_elem? d.dir j ≡ some x → is_file other x ≡ true → i ≢ j
        differs x j gx file same =
            let gb : get_elem? d.dir j ≡ some b = subst (λ k. get_elem? d.dir k ≡ some b) same g in
            let eq : some x ≡ some b = sym gx ∙ gb in
            let x_b : x ≡ b = ap (λ o. unwrap o) eq in
            let off : is_file other x ≡ false = rw x_b not_old in ground (arith, file, off)

    -- A file of another name is read as before.
    pub dfs_read_other :
        (max : ℕ)
        → d'.mounted ≡ true
        → D.ata_sector_count d'.disk ≡ D.ata_sector_count d.disk
        → ((j : ℕ) (f : Entry) → i ≢ j → get_elem? d.dir j ≡ some f → Kept D R f d d')
        → dfs_read D other max d' ≡ dfs_read D other max d
    dfs_read_other max m c kept =
        dfs_read_mounted other max d' m
        ∙ ap (read_found D max d') find_other
        ∙ found_other max (dfs_find D other d) refl c kept
        ∙ sym (dfs_read_mounted other max d v.mounted_eq)
