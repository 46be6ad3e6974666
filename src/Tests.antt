-- ===== src/Tests.antt =====
-- The theorems at concrete inputs, and runs of the definitions.
mod Fixtures
mod Core
mod Providers
mod Daemon
mod Context
mod Fallback
mod Modes
mod Pinentry
mod Prompt
mod Server
mod Window
