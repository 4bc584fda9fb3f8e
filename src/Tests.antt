-- ===== src/Tests.antt =====
-- The theorems at concrete inputs.
mod Kernel
mod Rules
mod Hot
mod Protocol
mod Ledger
mod Journal
mod Trees
mod Planner
mod Guard
mod Plans
mod Admission
mod Boot
mod Snapshot
mod Actions
mod Phase
mod Stages
