-- ===== src/DiskFs/History.antt =====
-- Sequences of calls into kernel/diskfs.c after a format.
use fobos_os.Base.{
  ℕ, suc, ◌+◌, ◌^◌, ◌<◌, ◌≤◌, ◌≡◌, refl, inl, inr, true, some, List, [], ◌∷◌, length, get_elem?,
}
use fobos_os.DiskFs.Device.{Device, IsReliable}
use fobos_os.DiskFs.Layout.{c_string}
use fobos_os.DiskFs.Files.{Dfs, dfs_format, dfs_write, dfs_remove}
use fobos_os.DiskFs.ReadWrite.{IsVolume}
use fobos_os.DiskFs.Creating.{dfs_write-Outcome}
use fobos_os.DiskFs.Removing.{dfs_remove-Removal}
use fobos_os.DiskFs.Mounting.{dfs_format-Formatted}

-- A call that changes the volume, with its arguments.
pub data Call : Type 0 where
  write : List ℕ → List ℕ → Call
  remove : List ℕ → Call

-- A name ends at its first zero, and a size has 32 bits.
abbrev pub IsCall : Call → Type 0
IsCall (write name bytes) = (c_string name ≡ name) × (length bytes + 511 < 2 ^ 32)
IsCall (remove name) = c_string name ≡ name

module _ (D : Device) where
  unfoldable pub run : List Call → Dfs D → Dfs D
  run [] d = d
  run (write name bytes ∷ calls) d = run calls (dfs_write D name bytes d).1
  run (remove name ∷ calls) d = run calls (dfs_remove D name d).1

  module _ (R : IsReliable D) where
    step_remove :
        (name : List ℕ) (d : Dfs D) → IsVolume D R d → IsVolume D R (dfs_remove D name d).1
    step_remove name d v = elim (dfs_remove-Removal D R name d v) [
      | inl (absent, same) ↦ rw same v
      | inr gone ↦ gone.volume
    ]

    -- Failed calls included.
    run-IsVolume :
        (calls : List Call) (d : Dfs D)
        → ((i : ℕ) (c : Call) → get_elem? calls i ≡ some c → IsCall c)
        → IsVolume D R d
        → IsVolume D R (run calls d)
    unfolding run
    run-IsVolume [] d h v = v
    run-IsVolume (write name bytes ∷ calls) d h v =
        let (plain, small) = h 0 (write name bytes) refl in
        let o = dfs_write-Outcome D R name bytes d v small plain in
        run-IsVolume calls (dfs_write D name bytes d).1 (λ i. h (suc i)) o.volume
    run-IsVolume (remove name ∷ calls) d h v =
        run-IsVolume calls (dfs_remove D name d).1 (λ i. h (suc i)) (step_remove name d v)

    -- After a format of a working disk of at least 25 and fewer than 2^32 sectors, any sequence of
    -- `dfs_write` and `dfs_remove`, failed calls included, leaves a volume, when the names written
    -- are without zeros and the sizes plus 511 fit 32 bits.
    pub run-dfs_format :
        (calls : List Call) (d : Dfs D)
        → ((i : ℕ) (c : Call) → get_elem? calls i ≡ some c → IsCall c)
        → D.ata_available d.disk ≡ true
        → 25 ≤ D.ata_sector_count d.disk
        → D.ata_sector_count d.disk < 2 ^ 32
        → IsVolume D R (run calls (dfs_format D d).1)
    run-dfs_format calls d h av large small =
        let f = dfs_format-Formatted D R d av large small in
        run-IsVolume calls (dfs_format D d).1 h f.volume
