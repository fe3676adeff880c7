-- ===== src/Disk.antt =====
-- src/istgt/istgt_lu_disk.c: the logical unit of type Storage.
pub mod Sense
pub mod Types
pub mod Tasks
pub mod Pr
pub mod Io
pub mod Exec
mod Tests
