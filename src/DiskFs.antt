-- ===== src/DiskFs.antt =====
-- The file system on disk, kernel/diskfs.c: the disk it stands on as an interface (`Device`), the
-- directory and the super block as bytes (`Layout`) and the operations (`Files`). The theorems are on
-- runs of sectors (`Sectors`), the directory on disk (`Directory`, `Saving`), the sectors that each
-- file has to itself (`Volume`, `Allocation`), and on files by their names, as they are read
-- (`Reading`), written (`ReadWrite`, `Writing`, `Creating`), removed (`Removing`) and found again
-- after a mount (`Mounting`).
pub mod Device
pub mod Layout
pub mod Files
pub mod Sectors
pub mod Directory
pub mod Saving
pub mod Volume
pub mod Allocation
pub mod ReadWrite
pub mod Reading
pub mod Writing
pub mod Creating
pub mod Removing
pub mod Mounting
pub mod History
mod Tests
