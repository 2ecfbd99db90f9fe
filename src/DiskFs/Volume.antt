-- ===== src/DiskFs/Volume.antt =====
-- What kernel/diskfs.c keeps true of its directory: each file has sectors of its own.
use fobos_os.Base.{
  ℕ, zero, suc, ◌+◌, ◌<◌, ◌≤◌, ◌≡◌, ◌≢◌, ◌⊎◌, inl, inr, true, false, Option, none, some, List, [],
  ◌∷◌, length, length-set, set, get_elem?, get_or, get_elem?-set_self, get_elem?-set_ne, arith, ap,
  ◌∙◌, sym, subst, ◌==◌, Bool-cases,
}
use fobos_os.DiskFs.Layout.{Entry, Super, blank_entry, sectors_for}
use fobos_os.DiskFs.Files.{is_file}
use fobos_os.DiskFs.Directory.{IsEntry, IsSuper, AllEntries}

-- Two runs of sectors that do not meet.
abbrev pub Apart : Entry → Entry → Type 0
Apart e f =
    (e.start_sector + sectors_for e.size_bytes ≤ f.start_sector)
    ⊎ (f.start_sector + sectors_for f.size_bytes ≤ e.start_sector)

-- The sectors of an entry that has some lie between the directory and the first free one.
abbrev pub Placed : ℕ → Entry → Type 0
Placed next_free e =
    1 ≤ e.size_bytes
    → (17 ≤ e.start_sector) × (e.start_sector + sectors_for e.size_bytes ≤ next_free)

pub record IsLayout (super : Super) (dir : List Entry) : Type 0 where
  pub super_valid : IsSuper super
  pub entries : length dir ≡ 128
  pub valid : AllEntries dir
  pub free_from : 17 ≤ super.next_free
  pub free_to : super.next_free ≤ super.total_sectors
  pub placed : (i : ℕ) (e : Entry) → get_elem? dir i ≡ some e → Placed super.next_free e
  pub apart :
      (i j : ℕ) (e f : Entry)
      → get_elem? dir i ≡ some e
      → get_elem? dir j ≡ some f
      → i ≢ j
      → 1 ≤ e.size_bytes
      → 1 ≤ f.size_bytes
      → Apart e f
  -- a name is that of one entry at most
  pub distinct :
      (i j : ℕ) (e f : Entry) (name : List ℕ)
      → get_elem? dir i ≡ some e
      → get_elem? dir j ≡ some f
      → is_file name e ≡ true
      → is_file name f ≡ true
      → i ≡ j

abbrev unwrap : Option Entry → Entry
unwrap none = blank_entry
unwrap (some e) = e

-- An entry of a directory after a change of entry `i`.
pub set_cases :
    (dir : List Entry) (i j : ℕ) (a e : Entry)
    → i < length dir
    → get_elem? (set dir i a) j ≡ some e
    → ((i ≡ j) × (a ≡ e)) ⊎ ((i ≢ j) × (get_elem? dir j ≡ some e))
set_cases dir i j a e h g = elim (Bool-cases (i == j)) [
  | inl k ↦
      let same : i ≡ j = ground (arith, k) in
      let here : get_elem? (set dir i a) i ≡ some e =
        subst (λ k. get_elem? (set dir i a) k ≡ some e) (sym same) g in
      inl (same, ap unwrap (sym (get_elem?-set_self dir i a h) ∙ here))
  | inr k ↦
      let other : i ≢ j = λ e. ground (arith, k, e) in
      inr (other, sym (get_elem?-set_ne dir a other) ∙ g)
]

-- What a new entry `a` at `i` has to meet.
pub record Suits (super super' : Super) (dir : List Entry) (i : ℕ) (a : Entry) : Type 0 where
  pub inside : i < 128
  pub fits : IsEntry a
  pub super_fits : IsSuper super'
  pub same_total : super'.total_sectors ≡ super.total_sectors
  pub grows : super.next_free ≤ super'.next_free
  pub within : super'.next_free ≤ super.total_sectors
  pub in_range : Placed super'.next_free a
  pub away :
      (j : ℕ) (f : Entry)
      → i ≢ j
      → get_elem? dir j ≡ some f
      → 1 ≤ a.size_bytes
      → 1 ≤ f.size_bytes
      → Apart a f
  pub named :
      (j : ℕ) (f : Entry) (name : List ℕ)
      → i ≢ j
      → get_elem? dir j ≡ some f
      → is_file name a ≡ true
      → is_file name f ≡ false

swap-Apart : (e f : Entry) → Apart e f → Apart f e
swap-Apart e f (inl h) = inr h
swap-Apart e f (inr h) = inl h

module _ (super super' : Super) (dir : List Entry) (i : ℕ) (a : Entry) where
  pub IsLayout-set : IsLayout super dir → Suits super super' dir i a → IsLayout super' (set dir i a)
  IsLayout-set l c = record {
    super_valid = c.super_fits;
    entries = length-set dir i a ∙ l.entries;
    valid = λ j e g. elim (set_cases dir i j a e in_dir g) [
      | inl (same, e') ↦ rw (← e') c.fits
      | inr (other, g') ↦ l.valid j e g'
    ];
    free_from = omega (arith, l.free_from, c.grows);
    free_to = omega (arith, c.within, c.same_total);
    placed = λ j e g. elim (set_cases dir i j a e in_dir g) [
      | inl (same, e') ↦ rw (← e') c.in_range
      | inr (other, g') ↦ λ h. let p = l.placed j e g' h in (p.0, omega (arith, p.1, c.grows))
    ];
    apart = λ j k e f g g' ne he hf. elim (set_cases dir i j a e in_dir g) [
      | inl (same, e') ↦ elim (set_cases dir i k a f in_dir g') [
        | inl (same', f') ↦ absurd (ne (sym same ∙ same'))
        | inr (other', h') ↦ rw (← e') (c.away k f other' h' (rw (← e') at he) hf)
      ]
      | inr (other, h) ↦ elim (set_cases dir i k a f in_dir g') [
        | inl (same', f') ↦ rw (← f') (swap-Apart a e (c.away j e other h (rw (← f') at hf) he))
        | inr (other', h') ↦ l.apart j k e f h h' ne he hf
      ]
    ];
    distinct = λ j k e f name g g' te tf. elim (set_cases dir i j a e in_dir g) [
      | inl (same, e') ↦ elim (set_cases dir i k a f in_dir g') [
        | inl (same', f') ↦ sym same ∙ same'
        | inr (other', h') ↦
            let off = c.named k f name other' h' (rw (← e') at te) in ground (arith, off, tf)
      ]
      | inr (other, h) ↦ elim (set_cases dir i k a f in_dir g') [
        | inl (same', f') ↦
            let off = c.named j e name other h (rw (← f') at tf) in ground (arith, off, te)
        | inr (other', h') ↦ l.distinct j k e f name h h' te tf
      ]
    ];
  }
    where
      in_dir : i < length dir
      in_dir = omega (arith, l.entries, c.inside)

pub get_or-get_elem? :
    (dir : List Entry) (i : ℕ) (e : Entry) → get_elem? dir i ≡ some e → get_or dir i blank_entry ≡ e
get_or-get_elem? [] i e h = ground (arith, h)
get_or-get_elem? (x ∷ dir) zero e h = ap unwrap h
get_or-get_elem? (x ∷ dir) (suc i) e h = get_or-get_elem? dir i e h
