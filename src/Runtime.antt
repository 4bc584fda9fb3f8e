-- ===== src/Runtime.antt =====
-- The runtime (src/runtime): the rules and resources that a session owns.
pub mod Rules
pub mod Ledger
pub mod Transaction
pub mod Lifecycle
pub mod Boot
pub mod Policy
pub mod Hot
