-- ===== src/Plan.antt =====
-- plan/mod.rs: the planner's choice of a backend, and its checks of the finished tree.
pub mod Modes
pub mod Checks
pub mod Builder
pub mod Entries
pub mod Process
pub mod Layers
pub mod Build
pub mod Register
