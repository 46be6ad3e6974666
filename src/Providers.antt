-- ===== src/Providers.antt =====
-- src/core/providers: the manifests of UI providers, where they are found, and how one is launched.
pub mod Host
pub mod Manifest
pub mod Discovery
pub mod Launcher
