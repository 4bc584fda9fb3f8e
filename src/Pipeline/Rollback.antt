-- ===== src/Pipeline/Rollback.antt =====
-- pipeline.rs: how a failed boot is rolled back and recorded.
use meta_hybrid_mount.Prelude.{
  ℕ, Bool, ◌&&◌, not, some, List, [], ◌∷◌, ◌++◌, filter, map, if◌then◌else◌,
}
use meta_hybrid_mount.Prelude.Sets.{to_set}
use meta_hybrid_mount.Text.{Text, bytes, text_lt, is_empty}
use meta_hybrid_mount.Errors.{Error, Result, ok, err}
use meta_hybrid_mount.Exec.{Exec}
use meta_hybrid_mount.Config.{Config}
use meta_hybrid_mount.Scanner.{ModuleRecord}
use meta_hybrid_mount.Plan.Builder.{MountPlan}
use meta_hybrid_mount.State.{AppModule}
use meta_hybrid_mount.State.Modules.{app_modules}
use meta_hybrid_mount.State.Run.{RunState, no_mounts, from_startup_failure}
use meta_hybrid_mount.Sys.Journal.{MountTransaction, rollback}
use meta_hybrid_mount.Sys.Mountinfo.{
  MountSnapshot, from_records, contains_point, subtree_ids, has_ids,
}

abbrev pub RollbackSummary : Type 0
RollbackSummary = Text × List Text

abbrev pub unverified : RollbackSummary
unverified = (bytes "unverified", [])

abbrev point_names : MountSnapshot → List Text
point_names points = map (λ (p : Text × List ℕ). p.0) points

-- What is mounted below a target and was not so before, and what was and is not.
unfoldable pub new_points : MountSnapshot → MountSnapshot → List Text → List Text
new_points before after [] = []
new_points before after (target ∷ rest) =
    point_names
      (filter (λ p. not (has_ids (subtree_ids before target) p)) (subtree_ids after target))
    ++ new_points before after rest

unfoldable pub lost_points : MountSnapshot → MountSnapshot → List Text → List Text
lost_points before after [] = []
lost_points before after (target ∷ rest) =
    point_names (
      filter (λ (p : Text × List ℕ). not (contains_point (subtree_ids after target) p.0))
        (subtree_ids before target))
    ++ lost_points before after rest

unfoldable pub mountinfo_mismatches :
    MountSnapshot → List Text → Result (List (Text × ℕ)) → Result (List Text × List Text)
mountinfo_mismatches baseline mounted (err e) = err e
mountinfo_mismatches baseline mounted (ok records) =
    let current = from_records records in
    ok (
      to_set text_lt (new_points baseline current mounted),
      to_set text_lt (lost_points baseline current mounted),
    )

-- The summary, from whether an action failed and the mismatches that are left.
abbrev pub summary_of : Bool → Result (List Text × List Text) → RollbackSummary
summary_of no_failure (err e) = unverified
summary_of no_failure (ok (leftover, missing)) =
    if no_failure && (is_empty leftover && is_empty missing)
    then (bytes "clean", [])
    else (bytes "incomplete", leftover)

-- What `persist_mount_failure_state` saves.
unfoldable pub failed_state : Text → Error → RollbackSummary → RunState → RunState
failed_state stage reason (status, leftover) state = record state {
  mount_point = [];
  active_mounts = [];
  overlay_active_mounts = [];
  magic_active_mounts = [];
  vfs_active_mounts = [];
  confirmed_active_mounts = [];
  mount_stats = record no_mounts { total_mounts = 1; failed_mounts = 1 };
  failed_stage = some stage;
  failure_reason = some reason;
  rollback_status = some status;
  leftover_mount_targets = leftover;
}

-- The calls that reach the system `W`: the listing of the mounts, the two files that are written, and
-- the modules that carry the marker of a failed mount, the time and the process.
pub record StateHost (W : Type 0) : Type 0 where
  pub read_mounts : Exec W (List (Text × ℕ))
  pub save_state : RunState → Exec W (Unit {0})
  pub write_scan_ret : List AppModule → Exec W (Unit {0})
  pub mount_error_modules : W → List Text
  pub now : W → ℕ
  pub pid : ℕ

-- What a boot works on: the system, the state, the plan, the journal, and the targets it has mounted.
pub record Boot (W : Type 0) : Type 0 where
  pub system : W
  pub state : RunState
  pub plan : MountPlan
  pub transaction : MountTransaction W
  pub mounted : List Text

module _ {W : Type 0} (host : StateHost W) where
  -- The outcomes of these calls are only logged.
  abbrev pub saving : RunState → W → W
  saving state w = (host.save_state state w).1

  abbrev pub listing : List AppModule → W → W
  listing modules w = (host.write_scan_ret modules w).1

  unfoldable pub persist_startup_failure_state : Text → Error → W → W
  persist_startup_failure_state stage e w =
      listing [] (saving (from_startup_failure (host.now w) host.pid stage e) w)

  -- `startup_phase`: a failure is recorded on the way out.
  abbrev pub startup_outcome : {A : Type 0} → Text → Result A × W → Result A × W
  startup_outcome stage (ok a, w) = (ok a, w)
  startup_outcome stage (err e, w) = (err e, persist_startup_failure_state stage e w)

  module _ (modules : List ModuleRecord) (config : Config) where
    unfoldable pub record_mount_failure : Text → Error → RollbackSummary → Boot W → Boot W
    record_mount_failure stage e summary b =
        let state = failed_state stage e summary b.state in
        let w = saving state b.system in
        record b {
          state = state;
          system = listing (app_modules modules config b.plan (host.mount_error_modules w) []) w;
        }

    unfoldable pub rollback_mount_pipeline : MountSnapshot → Boot W → RollbackSummary × W
    rollback_mount_pipeline baseline b =
        let (report, w) = rollback b.transaction b.system in
        let (records, w') = host.read_mounts w in
        (
          summary_of (is_empty report.failures) (mountinfo_mismatches baseline b.mounted records),
          w',
        )

    -- A failure behind the start of the transaction.
    unfoldable pub fail_stage : MountSnapshot → Text → Error → Boot W → Result (Unit {0}) × Boot W
    fail_stage baseline stage e b =
        let (summary, w) = rollback_mount_pipeline baseline b in
        (err e, record_mount_failure stage e summary (record b { system = w }))
