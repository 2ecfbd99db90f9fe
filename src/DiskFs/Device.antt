-- ===== src/DiskFs/Device.antt =====
-- The disk as kernel/diskfs.c uses it: the calls of kernel/ata.h, and what they promise on a disk
-- without errors.
use fobos_os.Base.{
  ℕ, ◌<◌, ◌≡◌, refl, Bool, true, false, Option, none, some, List, ltb, ◌==◌, if◌then◌else◌, update,
  arith,
}

pub record Device : Type 1 where
  pub State : Type 0
  pub ata_available : State → Bool
  pub ata_sector_count : State → ℕ
  pub ata_read_sector : ℕ → State → Option (List ℕ)
  -- whether it succeeded, and the disk afterwards
  pub ata_write_sector : ℕ → List ℕ → State → Bool × State

-- Below the sector count every read and write succeeds, a sector written is read back, and no other
-- sector changes.
pub record IsReliable (D : Device) : Type 0 where
  pub contents : D.State → ℕ → List ℕ
  pub read :
      (s : D.State) (i : ℕ) → i < D.ata_sector_count s → D.ata_read_sector i s ≡ some (contents s i)
  pub write :
      (s : D.State) (i : ℕ) (sector : List ℕ)
      → i < D.ata_sector_count s
      → ((D.ata_write_sector i sector s).0 ≡ true)
        × (D.ata_sector_count (D.ata_write_sector i sector s).1 ≡ D.ata_sector_count s)
        × ((j : ℕ)
            → contents (D.ata_write_sector i sector s).1 j
              ≡ (if j == i then sector else contents s j))

-- A disk in memory: its sectors and their number.
abbrev pub memory_disk : Device
memory_disk = record {
  State = (ℕ → List ℕ) × ℕ;
  ata_available = λ s. true;
  ata_sector_count = λ s. s.1;
  ata_read_sector = λ i s. if ltb i s.1 then some (s.0 i) else none;
  ata_write_sector =
      λ i sector s. if ltb i s.1 then (true, (update s.0 i sector, s.1)) else (false, s);
}

pub memory_disk-IsReliable : IsReliable memory_disk
memory_disk-IsReliable = record {
  contents = λ s. s.0;
  read = λ s i h. let k : ltb i s.1 ≡ true = ground (arith, h) in rw k refl;
  write =
      λ s i sector h. let k : ltb i s.1 ≡ true = ground (arith, h) in rw k (refl, refl, λ j. refl);
}
