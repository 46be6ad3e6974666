-- ===== src/Ipc.antt =====
-- src/core/ipc: the server on the daemon's socket.
pub mod Framing
pub mod Server
