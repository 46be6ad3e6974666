-- ===== src/Fallback.antt =====
-- src/fallback: the built-in window that shows the sessions if no panel does.
pub mod Client
pub mod Prompt
pub mod Window
