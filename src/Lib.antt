-- ===== src/Lib.antt =====
-- Hybrid Mount: verification library.
--
-- Hybrid Mount mounts the files of Android modules over the system partitions, by OverlayFS, by
-- bind mounts or by a kernel VFS that redirects paths. The planner (src/plan/mod.rs) gives each
-- path of a module a backend, collects the targets in a tree (src/mount_tree.rs) and checks that no
-- backend hides another. src/vfs/rule.rs makes the rules of the kernel VFS from the tree, and
-- src/vfs/protocol.rs carries them over an ioctl. src/runtime/rules.rs replaces the rules of a
-- module in a transaction, and src/runtime/transaction.rs wraps it in one that also isolates UIDs
-- and records what the session owns in a ledger (src/runtime/ledger.rs). src/runtime/policy.rs says
-- which module a hot operation may load, src/runtime/hot.rs loads, reloads and unloads it,
-- src/runtime/boot.rs takes ownership at boot and gives it up before a soft reboot, and
-- src/vfs/boot_guard.rs keeps the VFS out of the boot after one that it crashed. src/pipeline.rs
-- takes a boot through its stages, among them the VFS phase over the batches of src/vfs/exec.rs, and
-- undoes a boot that fails by src/sys/transaction.rs, the journal of cleanups that it keeps.
--
-- Prelude: names of the libraries, Boolean tests, lists, searches, and ordered sets.
-- Errors: `Error` and `Result` of src/errors.rs. A constructor stands for one message.
-- Exec: code that takes `&mut` and may fail, with its state kept beside an error.
-- Text: strings and paths, as lists of bytes; `from_utf8_lossy`; splitting at `/`. Lines and Decimal
--   have what the boot guard's records use, Paths the components of a `Path`, Maps the insertion into
--   a `BTreeMap` that is a list in the order of its keys.
-- Config: the backends of src/config.rs and what the planner reads of the configuration.
-- MountTree: src/mount_tree.rs. A `BTreeMap` of children is a list in the order of the names; a
--   target's components lead to a node.
-- Planner (the folder Plan) of src/plan/mod.rs. Modes has `ModuleRulesView`, Register has
--   `PlanBuilder::register` on the table of assignments, and Checks the four `ensure_*` functions that
--   walk the finished tree. Entries has the two loops over the entries of a module and what they
--   skip, Process the plan of one module, Layers its OverlayFS layers, Builder the state that a plan
--   is made of and its end, and Build `build_plan` with the laws of the whole.
-- Scanner: the records that src/scanner.rs produces, and `mountable`.
-- Vfs/Rule: src/vfs/rule.rs, the rules that a tree gives rise to.
-- Sys/Journal: src/sys/transaction.rs. A cleanup is a state-passing call on any system.
-- Vfs/BootGuard: src/vfs/boot_guard.rs. The disk is the two markers; the argument `Faults` says which
--   calls of the file system fail, and `Platform` what is known of the running build. BootGuard/Files
--   has what reads and writes the markers, LkmGuard the guard around the kernel module.
-- Vfs/Protocol: src/vfs/protocol.rs. Encode has the requests, Decode the answers, Paginate the loop
--   over pages. A byte and a machine word are natural numbers; `to_le_bytes` is `u16_bytes` and
--   `u32_bytes`, a cast is `%`, and an `i32` status is its 32-bit pattern.
-- Runtime/Rules: src/runtime/rules.rs. The trait `RuleKernel` is a record of state-passing calls over
--   any state; Rules/Transaction has `preflight`, `reconcile` and `rollback`.
-- Runtime/Transaction: src/runtime/transaction.rs, with the trait `UidKernel` and the closure
--   `persist` as parameters. `Session` holds the kernel, what `persist` writes to, and the ledger.
-- Runtime/Ledger: the checks of src/runtime/ledger.rs and the release of owned resources.
-- Runtime/Lifecycle: src/runtime/lifecycle.rs.
-- Runtime/Boot: src/runtime/boot.rs. `stage_plan`, `start` and `finish` are functions on the ledger;
--   `finish_with` has the listings of the kernel as arguments, and `finish_without` is the branch that
--   does not open it. Boot/Release has `cleanup` over a record `Host` of the device's calls.
-- Runtime/Hot: `guard` and `apply` of src/runtime/hot.rs on a session, with what reads files and asks
--   the device in a record `HotHost`.
-- Runtime/Policy: src/runtime/policy.rs, with `Path::exists` as an argument.
-- Partitions: `logical_partition` and `map_target` of src/partitions.rs.
-- State: the module records of src/state.rs that the ledger holds; State/Modules has the list that is
--   made of them, and how it is merged with the snapshot of the running boot; State/Run has the state
--   of a boot and what it starts as.
-- Vfs/Exec: src/vfs/exec.rs. The calls of the trait `VfsKernel` are a record.
-- Sys/Mountinfo: the snapshot of the mounts in src/sys/mountinfo.rs; a listing is an argument.
-- Pipeline: `apply_vfs_phase` of src/pipeline.rs, over the calls of the boot guard and of a provider.
--   A detail, a text in the source, is the error that it describes; `registered` is what the cell that
--   the rollback shares with the phase holds. Pipeline/Startup has `run_pipeline` and the stages of
--   `run_mount_pipeline_impl` up to the planned state, with src/vfs/guard.rs and the choice of a
--   provider in src/vfs/mod.rs; Pipeline/Stages has the stages from the baseline to the commit, one
--   function for each, and Pipeline/Rollback what a stage does that fails. `execute_mount_phases`,
--   which mounts, is a call of `StageHost`; the other calls that leave the program are in `StartHost`,
--   `SessionHost` and `StateHost`. A stage works on a `Boot`, which holds the system, the state that
--   is written, the plan, the journal and the targets that were mounted.
-- Tests: the theorems at concrete inputs.
--
-- Loops: `parse_rules` has fuel, one more than the bytes of the body, and each round consumes a
-- header; `paginate_from` has fuel, and the cursor, a `u32`, grows in each round. Both are shown to
-- end before the fuel does. `has_ancestor_in` has the length of the path, and each parent is shorter;
-- `digits` has the number, and each quotient is smaller.
--
-- Not modelled: system calls, files and mounts; the parsing of configuration files, which a library
-- does; `parse_version`; logging; the discovery of partitions; the storage, and the OverlayFS and
-- Magic Mount phases of the pipeline, which are made of mounts.
pub mod Prelude
pub mod Errors
pub mod Exec
pub mod Text
pub mod Vfs
pub mod Config
pub mod MountTree
pub mod Partitions
pub mod Scanner
pub mod Plan
pub mod State
pub mod Sys
pub mod Runtime
pub mod Pipeline
pub mod Tests
