-- ===== src/Misc.antt =====
-- src/istgt/istgt_misc.h: the byte and bit field macros.
pub mod Bytes
pub mod Strings
