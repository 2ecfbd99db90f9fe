-- ===== src/DiskFs/Tests.antt =====
-- A disk of 100 sectors with the file system of kernel/diskfs.c on it.
use fobos_os.Base.{
  none, ℕ, zero, suc, ap, subst, ◌≡◌, refl, true, false, some, none, Option, List, [], ◌∷◌,
  replicate, find_index, get_elem?, arith,
}
use fobos_os.DiskFs.Device.{memory_disk, memory_disk-IsReliable}
use fobos_os.DiskFs.Layout.{blank_entry, c_string}
use fobos_os.DiskFs.Files.{
  Dfs, blank_super, dfs_format, dfs_write, dfs_remove, dfs_read, dfs_mount, dfs_find, save_loop,
  dfs_write_super, dfs_save_dir, write_loop, allocate, dfs_find_free,
}
use fobos_os.DiskFs.ReadWrite.{IsVolume}
use fobos_os.DiskFs.Writing.{Outcome}
use fobos_os.DiskFs.Creating.{dfs_write-Outcome}
use fobos_os.DiskFs.Removing.{Removal, dfs_remove-Removal}
use fobos_os.DiskFs.Mounting.{Formatted, dfs_format-Formatted, dfs_read-dfs_mount}
use fobos_os.DiskFs.History.{Call, write, remove, IsCall, run, run-dfs_format}

-- The machine before the first mount, on a disk full of zeros.
abbrev raw : Dfs memory_disk
raw = record {
  super = blank_super 0;
  dir = replicate 128 blank_entry;
  mounted = false;
  disk = (λ j. replicate 512 0, 100);
}

abbrev empty_volume : Dfs memory_disk
empty_volume = (dfs_format memory_disk raw).1

abbrev file_name : List ℕ
file_name = 110 ∷ 49 ∷ []

Formatted-disk : Formatted memory_disk memory_disk-IsReliable raw (dfs_format memory_disk raw)
Formatted-disk =
    dfs_format-Formatted memory_disk memory_disk-IsReliable raw refl (omega arith) (omega arith)

empty_volume-IsVolume : IsVolume memory_disk memory_disk-IsReliable empty_volume
empty_volume-IsVolume =
    (dfs_format-Formatted memory_disk memory_disk-IsReliable raw refl (omega arith)
      (omega arith)).volume

plain_name : c_string file_name ≡ file_name
unfolding c_string
plain_name = refl

write_ok : (dfs_write memory_disk file_name (7 ∷ 8 ∷ 9 ∷ []) empty_volume).0 ≡ true
unfolding dfs_write dfs_format save_loop dfs_write_super dfs_save_dir write_loop allocate dfs_find
    dfs_find_free c_string find_index
write_ok = refl

dfs_write-Outcome_example :
    Outcome memory_disk memory_disk-IsReliable file_name
      (7 ∷ 8 ∷ 9 ∷ [])
      empty_volume
      (dfs_write memory_disk file_name (7 ∷ 8 ∷ 9 ∷ []) empty_volume)
dfs_write-Outcome_example =
    dfs_write-Outcome memory_disk memory_disk-IsReliable file_name (7 ∷ 8 ∷ 9 ∷ []) empty_volume
      empty_volume-IsVolume (omega arith) plain_name

abbrev written_volume : Dfs memory_disk
written_volume = (dfs_write memory_disk file_name (7 ∷ 8 ∷ 9 ∷ []) empty_volume).1

written_volume-IsVolume : IsVolume memory_disk memory_disk-IsReliable written_volume
written_volume-IsVolume =
    (dfs_write-Outcome memory_disk memory_disk-IsReliable file_name (7 ∷ 8 ∷ 9 ∷ []) empty_volume
      empty_volume-IsVolume (omega arith) plain_name).volume

dfs_remove-Removal_example :
    Removal memory_disk memory_disk-IsReliable file_name written_volume
      (dfs_remove memory_disk file_name written_volume)
dfs_remove-Removal_example =
    dfs_remove-Removal memory_disk memory_disk-IsReliable file_name written_volume
      written_volume-IsVolume

-- The next start, with nothing in memory and the disk as it was left.
abbrev rebooted : Dfs memory_disk
rebooted = record raw { disk = written_volume.disk }

dfs_read-dfs_mount_example :
    ((dfs_mount memory_disk rebooted).0 ≡ true)
    × (dfs_read memory_disk file_name 16 (dfs_mount memory_disk rebooted).1
        ≡ some (7 ∷ 8 ∷ 9 ∷ [], 3))
dfs_read-dfs_mount_example =
    dfs_read-dfs_mount memory_disk memory_disk-IsReliable file_name (7 ∷ 8 ∷ 9 ∷ []) empty_volume
      rebooted 16 empty_volume-IsVolume (omega arith) plain_name write_ok refl refl refl
      (omega arith)

abbrev call_of : Option Call → Call
call_of none = remove []
call_of (some c) = c

abbrev calls : List Call
calls = write file_name (1 ∷ []) ∷ remove file_name ∷ []

plain_calls : (i : ℕ) (c : Call) → get_elem? calls i ≡ some c → IsCall c
plain_calls zero c g = subst IsCall (ap call_of g) (plain_name, omega arith)
plain_calls (suc zero) c g = subst IsCall (ap call_of g) plain_name
plain_calls (suc (suc i)) c g = ground (arith, g)

run-dfs_format_example :
    IsVolume memory_disk memory_disk-IsReliable
      (run memory_disk calls (dfs_format memory_disk raw).1)
run-dfs_format_example =
    run-dfs_format memory_disk memory_disk-IsReliable calls raw plain_calls refl (omega arith)
      (omega arith)
