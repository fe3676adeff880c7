-- ===== src/Lu.antt =====
-- src/istgt/istgt_lu.c: the session handles of a target, and who may use it.
pub mod Tsih
pub mod Access
pub mod SendTargets
mod Tests
