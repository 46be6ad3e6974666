-- ===== src/Modes.antt =====
-- src/modes: the programs that clients start.
pub mod Assuan
pub mod Pinentry
