-- ===== src/DiskFs/ReadWrite.antt =====
-- Writing and reading files of kernel/diskfs.c: a file written is read back, and no other changes.
use fobos_os.Base.{
  ℕ, zero, suc, ◌+◌, ◌-◌, ◌^◌, ◌<◌, ◌≤◌, ◌≡◌, ◌≢◌, refl, ◌⊎◌, inl, inr, Bool, true, false, Option,
  none, some, List, length, length-set, set, get_elem?, get_or, get_elem?-set_self, arith, ap, ◌∙◌,
  sym, subst, ◌==◌, Bool-cases,
}
use fobos_os.DiskFs.Device.{Device, IsReliable}
use fobos_os.DiskFs.Layout.{Entry, blank_entry, sectors_for}
use fobos_os.DiskFs.Files.{Dfs, allocate, write_at, write_loop, store, save}
use fobos_os.DiskFs.Sectors.{Sized, Stored, Stored-frame, Written, write_loop-Written}
use fobos_os.DiskFs.Saving.{OnDisk, Saved, save-Saved}
use fobos_os.DiskFs.Volume.{IsLayout, IsLayout-set, get_or-get_elem?}
use fobos_os.DiskFs.Allocation.{Given, Allocated, Allocated-allocate}

pub Sized-sectors_for : (len : ℕ) → len + 511 < 2 ^ 32 → Sized (sectors_for len) len
Sized-sectors_for len h = record { enough = omega (arith, h); not_more = omega (arith, h) }

module _ (D : Device) (R : IsReliable D) where
  -- A mounted file system on a disk of the size that the super block says.
  pub record IsVolume (d : Dfs D) : Type 0 where
    pub mounted_eq : d.mounted ≡ true
    pub total_eq : d.super.total_sectors ≡ D.ata_sector_count d.disk
    pub layout : IsLayout d.super d.dir

  -- The sectors of entry `f` hold what they held.
  abbrev pub Kept : Entry → Dfs D → Dfs D → Type 0
  Kept f d d' =
      (k : ℕ)
      → f.start_sector ≤ k
      → k < f.start_sector + sectors_for f.size_bytes
      → R.contents d'.disk k ≡ R.contents d.disk k

  -- What a successful write through entry `e` at `i` leaves.
  pub record Done (i : ℕ) (e : Entry) (bytes : List ℕ) (d : Dfs D) (r : Bool × Dfs D) : Type 0 where
    pub ok : r.0 ≡ true
    pub volume : IsVolume r.1
    pub same_count : D.ata_sector_count r.1.disk ≡ D.ata_sector_count d.disk
    pub entry : Entry
    pub dir_eq : r.1.dir ≡ set d.dir i entry
    pub same_name : entry.name ≡ e.name
    pub same_used : entry.used ≡ e.used
    pub size_eq : entry.size_bytes ≡ length bytes
    pub stored : Stored D R (sectors_for (length bytes)) entry.start_sector bytes r.1.disk
    pub others : (j : ℕ) (f : Entry) → i ≢ j → get_elem? d.dir j ≡ some f → Kept f d r.1
    pub on_disk : OnDisk D R r.1

  -- Too few sectors are left, and nothing happens; or the write is done.
  abbrev pub WriteAt : ℕ → Entry → List ℕ → Dfs D → Bool × Dfs D → Type 0
  WriteAt i e bytes d r =
      ((d.super.total_sectors - d.super.next_free < sectors_for (length bytes)) × (r ≡ (false, d)))
      ⊎ Done i e bytes d r

  -- The entry's sectors are written, then the directory and the super block.
  module _ (i : ℕ) (e : Entry) (bytes : List ℕ) (d d' : Dfs D) (v : IsVolume d)
      (small : length bytes + 511 < 2 ^ 32) (given : Given D i (length bytes) e d d') where
    placed :
        1 ≤ sectors_for (length bytes)
        → (17 ≤ given.entry.start_sector)
          × (given.entry.start_sector + sectors_for (length bytes) ≤ d'.super.next_free)
    placed h =
        let c = given.suits in
        let size : sectors_for given.entry.size_bytes ≡ sectors_for (length bytes) =
          ap sectors_for given.size_eq in
        let p = c.in_range (omega (arith, h, size, given.size_eq, small)) in
        (p.0, omega (arith, p.1, size))

    IsVolume-after :
        (s2 : D.State) (r : Bool × Dfs D)
        → D.ata_sector_count s2 ≡ D.ata_sector_count d.disk
        → Saved D R (record d' { disk = s2 }) r
        → IsVolume r.1
    IsVolume-after s2 r same s = record {
      mounted_eq = ap (λ x. x.mounted) s.same ∙ given.same_mounted ∙ v.mounted_eq;
      total_eq =
          ap (λ x. x.super.total_sectors) s.same
          ∙ given.same_total
          ∙ v.total_eq
          ∙ sym same
          ∙ sym s.same_count;
      layout =
          let made = IsLayout-set d.super d'.super d.dir i given.entry v.layout given.suits in
          let moved : IsLayout d'.super d'.dir =
            subst (λ es. IsLayout d'.super es) (sym given.dir_eq) made in
          subst (λ x. IsLayout x.super x.dir) (sym s.same) moved;
    }

    -- A sector of another entry is none of those written.
    clear :
        (j : ℕ) (f : Entry) (k : ℕ)
        → i ≢ j
        → get_elem? d.dir j ≡ some f
        → 1 ≤ f.size_bytes
        → f.start_sector ≤ k
        → k < f.start_sector + sectors_for f.size_bytes
        → (k < given.entry.start_sector)
          ⊎ (given.entry.start_sector + sectors_for (length bytes) ≤ k)
    clear j f k ne g sized lo hi = elim (Bool-cases (sectors_for (length bytes) == 0)) [
      | inl e ↦ ground (arith, e)
      | inr e ↦
          let some_byte : 1 ≤ given.entry.size_bytes =
            nonempty (length bytes) given.entry.size_bytes given.size_eq e in
          let apart = given.suits.away j f ne g some_byte sized in
          let size : sectors_for given.entry.size_bytes ≡ sectors_for (length bytes) =
            ap sectors_for given.size_eq in
          ground (arith, apart, size, lo, hi)
    ]
      where
        nonempty : (a b : ℕ) → b ≡ a → (sectors_for a == 0) ≡ false → 1 ≤ b
        nonempty zero b e h = ground (arith, h)
        nonempty (suc a) b e h = omega (arith, e)

    done :
        (w : Bool × D.State) (r : Bool × Dfs D)
        → Written D R (sectors_for (length bytes)) given.entry.start_sector bytes d'.disk w
        → Saved D R (record d' { disk = w.1 }) r
        → Done i e bytes d r
    done w r wr s = record {
      ok = s.ok;
      volume = IsVolume-after w.1 r (wr.same_count ∙ ap D.ata_sector_count given.same_disk) s;
      same_count = s.same_count ∙ wr.same_count ∙ ap D.ata_sector_count given.same_disk;
      entry = given.entry;
      dir_eq = ap (λ x. x.dir) s.same ∙ given.dir_eq;
      same_name = given.same_name;
      same_used = given.same_used;
      size_eq = given.size_eq;
      stored =
          Stored-frame D R (sectors_for (length bytes)) given.entry.start_sector bytes w.1 r.1.disk
            (λ k lo hi.
              let p = placed (omega (arith, lo, hi)) in s.outside k (omega (arith, p.0, lo)))
            wr.stored;
      others = λ j f ne g k lo hi.
          let sized : 1 ≤ f.size_bytes = omega (arith, lo, hi) in
          let p = v.layout.placed j f g sized in
          let outside : (k < given.entry.start_sector)
              ⊎ (given.entry.start_sector + sectors_for (length bytes) ≤ k) =
            clear j f k ne g sized lo hi in
          s.outside k (omega (arith, p.0, lo))
          ∙ wr.outside k outside
          ∙ ap (λ x. R.contents x k) given.same_disk;
      on_disk = s.on_disk;
    }

    written_through :
        i < 128 → get_elem? d.dir i ≡ some e → Done i e bytes d (store D i bytes d (some d'))
    written_through inside g =
        let len = sectors_for (length bytes) in
        let start = given.entry.start_sector in
        let l = v.layout in
        let c = given.suits in
        let total : d'.super.total_sectors ≡ D.ata_sector_count d'.disk =
          given.same_total ∙ v.total_eq ∙ ap D.ata_sector_count (sym given.same_disk) in
        let here : get_elem? d'.dir i ≡ some given.entry =
          ap (λ es. get_elem? es i) given.dir_eq
          ∙ get_elem?-set_self d.dir i given.entry (omega (arith, l.entries, inside)) in
        let found : get_or d'.dir i blank_entry ≡ given.entry =
          get_or-get_elem? d'.dir i given.entry here in
        let w =
          write_loop-Written D R (length bytes) len start bytes d'.disk
            (Sized-sectors_for (length bytes) small) (omega (arith, small))
            (λ h. let p = placed h in omega (arith, p.1, c.within, c.same_total, total)) in
        let r = write_loop D (length bytes) start bytes d'.disk in
        let d2 : Dfs D = record d' { disk = r.1 } in
        let size : length d2.dir ≡ 128 =
          ap length given.dir_eq ∙ length-set d.dir i given.entry ∙ l.entries in
        let s =
          save-Saved D R d2 size
            (omega (arith, w.same_count, total, c.same_total, l.free_from, l.free_to)) in
        rw (found, w.ok) (done r (save D d2) w s)

  store-WriteAt :
      (i : ℕ) (e : Entry) (bytes : List ℕ) (d : Dfs D) (o : Option (Dfs D))
      → IsVolume d
      → length bytes + 511 < 2 ^ 32
      → i < 128
      → get_elem? d.dir i ≡ some e
      → Allocated D i (length bytes) e d o
      → WriteAt i e bytes d (store D i bytes d o)
  store-WriteAt i e bytes d none v small inside g a = inl (a, refl)
  store-WriteAt i e bytes d (some d') v small inside g a =
      inr (written_through i e bytes d d' v small a inside g)

  pub write_at-WriteAt :
      (i : ℕ) (e : Entry) (bytes : List ℕ) (d : Dfs D)
      → IsVolume d
      → length bytes + 511 < 2 ^ 32
      → i < 128
      → get_elem? d.dir i ≡ some e
      → WriteAt i e bytes d (write_at D i bytes d)
  write_at-WriteAt i e bytes d v small inside g =
      store-WriteAt i e bytes d (allocate D i (length bytes) d) v small inside g
        (Allocated-allocate D i (length bytes) e d v.layout g inside small)
