-- ===== src/Iscsi.antt =====
-- src/istgt/istgt_iscsi.c and src/istgt/istgt_iscsi_param.c: the text parameters of a connection
-- and a session, and their negotiation.
pub mod Param
pub mod Text
pub mod Conn
pub mod Value
pub mod Negotiate
pub mod DataIn
mod Tests
