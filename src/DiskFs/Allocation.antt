-- ===== src/DiskFs/Allocation.antt =====
-- The sectors that `dfs_write` of kernel/diskfs.c gives a file.
use fobos_os.Base.{
  ℕ, ◌+◌, ◌-◌, ◌%◌, ◌^◌, ◌<◌, ◌≤◌, ◌≡◌, ◌≢◌, refl, inl, inr, true, false, Option, none, some, List,
  set, get_elem?, arith, ltb, Bool-cases,
}
use fobos_os.DiskFs.Device.{Device}
use fobos_os.DiskFs.Layout.{Entry, sectors_for}
use fobos_os.DiskFs.Files.{Dfs, allocate, is_file}
use fobos_os.DiskFs.Volume.{IsLayout, Suits, get_or-get_elem?}

module _ (D : Device) where
  -- What `allocate` gives for entry `e` at `i`: the state with an entry of the new size at sectors of
  -- its own, or nothing, and then the sectors left are too few.
  pub record Given (i size : ℕ) (e : Entry) (d d' : Dfs D) : Type 0 where
    pub entry : Entry
    pub dir_eq : d'.dir ≡ set d.dir i entry
    pub same_name : entry.name ≡ e.name
    pub same_used : entry.used ≡ e.used
    pub size_eq : entry.size_bytes ≡ size
    pub same_disk : d'.disk ≡ d.disk
    pub same_mounted : d'.mounted ≡ d.mounted
    pub same_total : d'.super.total_sectors ≡ d.super.total_sectors
    pub suits : Suits d.super d'.super d.dir i entry

  abbrev pub Allocated : ℕ → ℕ → Entry → Dfs D → Option (Dfs D) → Type 0
  Allocated i size e d none = d.super.total_sectors - d.super.next_free < sectors_for size
  Allocated i size e d (some d') = Given i size e d d'

  one_name :
      (d : Dfs D)
      → IsLayout d.super d.dir
      → (i j : ℕ) (e f : Entry) (name : List ℕ) → get_elem? d.dir i ≡ some e
      → get_elem? d.dir j ≡ some f
      → i ≢ j
      → is_file name e ≡ true
      → is_file name f ≡ false
  one_name d l i j e f name g gf ne te = elim (Bool-cases (is_file name f)) [
    | inl k ↦ absurd (ne (l.distinct i j e f name g gf te k))
    | inr k ↦ k
  ]

  pub Allocated-allocate :
      (i size : ℕ) (e : Entry) (d : Dfs D)
      → IsLayout d.super d.dir
      → get_elem? d.dir i ≡ some e
      → i < 128
      → size + 511 < 2 ^ 32
      → Allocated i size e d (allocate D i size d)
  unfolding allocate
  Allocated-allocate i size e d l g inside small =
      let old = get_or-get_elem? d.dir i e g in
      let v = l.valid i e g in
      let sv = l.super_valid in
      let free : (d.super.total_sectors + (2 ^ 32 - d.super.next_free)) % 2 ^ 32
          ≡ d.super.total_sectors - d.super.next_free =
        omega (arith, l.free_to, sv.total_bound) in
      elim (Bool-cases (ltb (sectors_for e.size_bytes) (sectors_for size))) [
        | inl k ↦
            elim (Bool-cases (ltb (d.super.total_sectors - d.super.next_free) (sectors_for size))) [
              | inl m ↦ rw (old, free, k, m) (ground (arith, m))
              | inr m ↦
                  let room : sectors_for size ≤ d.super.total_sectors - d.super.next_free =
                    ground (arith, m) in
                  let next : (d.super.next_free + sectors_for size) % 2 ^ 32
                      ≡ d.super.next_free + sectors_for size =
                    omega (arith, room, l.free_to, sv.total_bound) in
                  rw (old, free, k, m, next)
                    (record {
                      entry = record e { start_sector = d.super.next_free; size_bytes = size };
                      dir_eq = refl;
                      same_name = refl;
                      same_used = refl;
                      size_eq = refl;
                      same_disk = refl;
                      same_mounted = refl;
                      same_total = refl;
                      suits = record {
                        inside = inside;
                        fits = record {
                          name_length = v.name_length;
                          start_bound = sv.free_bound;
                          size_bound = small;
                          used_bound = v.used_bound;
                          reserved_length = v.reserved_length;
                        };
                        super_fits = record {
                          magic_eq = sv.magic_eq;
                          version_eq = sv.version_eq;
                          total_bound = sv.total_bound;
                          data_bound = sv.data_bound;
                          free_bound = omega (arith, room, l.free_to, sv.total_bound);
                          count_bound = sv.count_bound;
                          reserved_length = sv.reserved_length;
                        };
                        same_total = refl;
                        grows = omega arith;
                        within = omega (arith, room, l.free_to);
                        in_range = λ h. (l.free_from, omega arith);
                        away = λ j f ne gf hs hf. inr ((l.placed j f gf hf).1);
                        named = λ j f name ne gf. one_name d l i j e f name g gf ne;
                      };
                    })
            ]
        | inr k ↦
            let enough : sectors_for size ≤ sectors_for e.size_bytes = ground (arith, k) in
            rw (old, k)
              (record {
                entry = record e { size_bytes = size };
                dir_eq = refl;
                same_name = refl;
                same_used = refl;
                size_eq = refl;
                same_disk = refl;
                same_mounted = refl;
                same_total = refl;
                suits = record {
                  inside = inside;
                  fits = record {
                    name_length = v.name_length;
                    start_bound = v.start_bound;
                    size_bound = small;
                    used_bound = v.used_bound;
                    reserved_length = v.reserved_length;
                  };
                  super_fits = sv;
                  same_total = refl;
                  grows = omega arith;
                  within = l.free_to;
                  in_range = λ h.
                      let p = l.placed i e g (omega (arith, h, enough, small)) in
                      (p.0, omega (arith, p.1, enough));
                  away = λ j f ne gf hs hf.
                      let p = l.apart i j e f g gf ne (omega (arith, hs, enough, small)) hf in
                      ground (arith, p, enough);
                  named = λ j f name ne gf. one_name d l i j e f name g gf ne;
                };
              })
      ]
