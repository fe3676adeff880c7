-- ===== src/Disk/Pr.antt =====
-- Persistent reservations (src/istgt/istgt_lu_disk.c).
pub mod Keys
pub mod Params
pub mod TransportId
pub mod Register
pub mod Reserve
pub mod Preempt
pub mod Out
pub mod Check
pub mod Legacy
pub mod In
pub mod Valid
mod Tests
