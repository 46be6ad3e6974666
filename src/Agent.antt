-- ===== src/Agent.antt =====
-- src/core/Agent.{hpp,cpp}, with the managers of requests and the polkit listener that act on it.
pub mod State
pub mod Sessions
pub mod Keyring
pub mod Pinentry
pub mod Polkit
pub mod Handlers
pub mod Respond
pub mod Messages
pub mod Frame
pub mod Stored
pub mod Sound
pub mod Loop
