-- ===== src/Sys/Journal.antt =====
-- sys/transaction.rs: the cleanup journal of the mount pipeline. A cleanup is a closure over a state
-- of its own, the system that it cleans up.
pub mod Accounts
use meta_hybrid_mount.Prelude.{
  ℕ, ◌+◌, Bool, true, false, ◌&&◌, List, [], ◌∷◌, ◌++◌, reverse, if◌then◌else◌,
}
use meta_hybrid_mount.Text.{Text, is_empty}
use meta_hybrid_mount.Errors.{Error, Result, ok, err}
use meta_hybrid_mount.Exec.{Exec}

pub record CleanupFailure : Type 0 where
  pub label : Text
  pub error : Error

pub record RollbackReport : Type 0 where
  pub cleaned : ℕ
  pub retained : ℕ
  pub failures : List CleanupFailure

abbrev pub empty_report : RollbackReport
empty_report = record { cleaned = 0; retained = 0; failures = [] }

pub data ActionKind : Type 0 where
  cleanup retainable rollback_only : ActionKind

abbrev pub is_retainable : ActionKind → Bool
is_retainable retainable = true
is_retainable _ = false

pub record CleanupAction (W : Type 0) : Type 0 where
  pub label : Text
  pub kind : ActionKind
  pub run : Exec W (Unit {0})

pub record MountTransaction (W : Type 0) : Type 0 where
  pub actions : List (CleanupAction W)
  pub finished : Bool

-- What `commit` returns; the error prints the failures of the report.
pub data CommitResult : Type 0 where
  committed : CommitResult
  commit_failed : List CleanupFailure → CommitResult

-- Whether `commit` puts an action off, by its kind.
unfoldable pub is_deferred : Bool → ActionKind → Bool
is_deferred retain_resources rollback_only = true
is_deferred retain_resources retainable = retain_resources
is_deferred retain_resources cleanup = false

unfoldable pub record_outcome : Text → Result (Unit {0}) → RollbackReport → RollbackReport
record_outcome label (ok _) report = record report { cleaned = report.cleaned + 1 }
record_outcome label (err error) report = record report {
  failures = report.failures ++ record { label = label; error = error } ∷ [];
}

module _ {W : Type 0} where
  abbrev pub new_transaction : MountTransaction W
  new_transaction = record { actions = []; finished = false }

  unfoldable pub push :
      ActionKind → Text → Exec W (Unit {0}) → MountTransaction W → MountTransaction W
  push kind label run tx = record tx {
    actions = tx.actions ++ record { label = label; kind = kind; run = run } ∷ [];
  }

  unfoldable pub register : Text → Exec W (Unit {0}) → MountTransaction W → MountTransaction W
  register = push cleanup

  unfoldable pub register_retainable :
      Text → Exec W (Unit {0}) → MountTransaction W → MountTransaction W
  register_retainable = push retainable

  unfoldable pub register_rollback_only :
      Text → Exec W (Unit {0}) → MountTransaction W → MountTransaction W
  register_rollback_only = push rollback_only

  unfoldable pub run_action : CleanupAction W → RollbackReport × W → RollbackReport × W
  run_action action (report, w) =
      let (outcome, w') = action.run w in (record_outcome action.label outcome report, w')

  -- The loop that runs each action of a list.
  unfoldable pub run_actions : List (CleanupAction W) → RollbackReport × W → RollbackReport × W
  run_actions [] s = s
  run_actions (action ∷ rest) s = run_actions rest (run_action action s)

  -- The first loop of `commit`: the report and the system, and the actions that were put off.
  unfoldable pub commit_loop :
      Bool
      → List (CleanupAction W)
      → List (CleanupAction W)
      → RollbackReport × W
      → List (CleanupAction W) × (RollbackReport × W)
  commit_loop retain_resources [] deferred s = (deferred, s)
  commit_loop retain_resources (action ∷ rest) deferred s =
      if is_deferred retain_resources action.kind
      then commit_loop retain_resources rest (deferred ++ action ∷ []) s
      else commit_loop retain_resources rest deferred (run_action action s)

  -- The loop that counts what is retained.
  unfoldable pub count_retained : List (CleanupAction W) → RollbackReport → RollbackReport
  count_retained [] report = report
  count_retained (action ∷ rest) report =
      if is_retainable action.kind
      then count_retained rest (record report { retained = report.retained + 1 })
      else count_retained rest report

  unfoldable pub finish_commit :
      List (CleanupAction W) × (RollbackReport × W) → CommitResult × (RollbackReport × W)
  finish_commit (deferred, (report, w)) =
      if is_empty report.failures
      then (committed, (count_retained deferred report, w))
      else let (report', w') = run_actions deferred (report, w) in
        (commit_failed report'.failures, (report', w'))

  -- The report, which the source drops, is kept beside the result.
  unfoldable pub commit : Bool → MountTransaction W → W → CommitResult × (RollbackReport × W)
  commit retain_resources tx w =
      finish_commit (commit_loop retain_resources (reverse tx.actions) [] (empty_report, w))

  unfoldable pub run_all : MountTransaction W → W → RollbackReport × W
  run_all tx w = run_actions (reverse tx.actions) (empty_report, w)

  unfoldable pub rollback : MountTransaction W → W → RollbackReport × W
  rollback tx w = run_all tx w

  -- `Drop::drop`: a transaction that was neither committed nor rolled back is cleaned up.
  unfoldable pub drop_transaction : MountTransaction W → W → W
  drop_transaction tx w = if tx.finished then w else (run_all tx w).1
