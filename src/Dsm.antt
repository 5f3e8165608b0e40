-- ===== src/Dsm.antt =====
-- The Diameter Session Manager: diameter-session-manager.
pub mod Fsm
pub mod Timer
pub mod Hash
pub mod Ccdb
pub mod Sessions
pub mod Context
