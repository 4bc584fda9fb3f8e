-- ===== src/Vfs.antt =====
-- The VFS backend (src/vfs).
pub mod Rule
pub mod Protocol
pub mod BootGuard
pub mod Exec
