-- ===== src/Sys.antt =====
-- src/sys: the parts that are no system calls.
pub mod Journal
pub mod Mountinfo
