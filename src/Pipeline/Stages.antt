-- ===== src/Pipeline/Stages.antt =====
-- pipeline.rs: the stages of `run_mount_pipeline_impl` behind the planning, and what they record.
-- `execute_mount_phases`, which mounts, is an argument.
use meta_hybrid_mount.Prelude.{
  Option, ℕ, ◌+◌, none, some, List, [], ◌++◌, filter, map, length, if◌then◌else◌,
}
use meta_hybrid_mount.Text.{Text, bytes}
use meta_hybrid_mount.Errors.{Error, Result, ok, err, cleanup_actions_failed}
use meta_hybrid_mount.Exec.{Exec}
use meta_hybrid_mount.Config.{Config}
use meta_hybrid_mount.Scanner.{ModuleRecord}
use meta_hybrid_mount.Plan.Builder.{MountPlan}
use meta_hybrid_mount.State.Modules.{app_modules, mounted_module_ids_for_snapshot}
use meta_hybrid_mount.State.Run.{MountStatistics, RunState, reasons_of}
use meta_hybrid_mount.Sys.Journal.{
  CleanupFailure, CommitResult, committed, commit_failed, new_transaction, register_rollback_only,
  commit,
}
use meta_hybrid_mount.Sys.Mountinfo.{MountSnapshot, from_records, contains_point}
use meta_hybrid_mount.Vfs.Exec.{VfsExecStats}
use meta_hybrid_mount.Pipeline.{merge_active_mounts}
use meta_hybrid_mount.Pipeline.Rollback.{
  RollbackSummary, unverified, mountinfo_mismatches, StateHost, Boot, saving, startup_outcome,
  record_mount_failure, fail_stage,
}

pub record MagicMountStats : Type 0 where
  pub mounted_files : ℕ
  pub mounted_symlinks : ℕ
  pub mounted_dirs : ℕ
  pub ignored_files : ℕ
  pub active_mounts : List Text
  pub owned_mounts : List Text
  pub mounted_module_ids : List Text

pub record MountExecutionResult : Type 0 where
  pub overlay_dir_mounts : ℕ
  pub shallow_overlay_mounts : ℕ
  pub active_mounts : List Text
  pub magic_stats : MagicMountStats
  pub vfs_stats : VfsExecStats

pub record StageHost (W : Type 0) : Type 0 where
  pub files : StateHost W
  pub execute_mount_phases : Exec (Boot W) MountExecutionResult
  pub clear_unmount_list : Exec W (Unit {0})
  pub update_description : Text → ℕ → ℕ → ℕ → W → W

unfoldable pub pipeline_stats : ℕ → ℕ → ℕ → ℕ → ℕ → ℕ → MountStatistics
pipeline_stats overlay_dir_mounts shallow_overlay_mounts magic_files magic_symlinks ignored_entries
      magic_dirs =
    let successful =
      overlay_dir_mounts + shallow_overlay_mounts + magic_files + magic_symlinks + magic_dirs in
    record {
      total_mounts = successful;
      successful_mounts = successful;
      failed_mounts = 0;
      files_mounted = magic_files;
      symlinks_created = magic_symlinks;
      overlayfs_mounts = overlay_dir_mounts + shallow_overlay_mounts;
      ignored_entries = ignored_entries;
      magic_dirs = magic_dirs;
    }

unfoldable pub confirmed_mount_targets : List Text → MountSnapshot → List Text
confirmed_mount_targets targets snapshot = filter (contains_point snapshot) targets

-- What a boot that went well keeps of an error of the VFS phase.
abbrev pub with_vfs_failure : MountPlan → Option Error → RunState → RunState
with_vfs_failure plan none state = state
with_vfs_failure plan (some failure) state = record state {
  vfs_error = some failure;
  vfs_error_modules = plan.vfs_module_ids;
}

-- The state that is saved before the commit: what was mounted, as far as the listing confirms it.
unfoldable pub published_state :
    Config → MountPlan → MountExecutionResult → MountSnapshot → List Text → RunState → RunState
published_state config plan result snapshot mount_error_modules state =
    let overlay = confirmed_mount_targets result.active_mounts snapshot in
    let magic = confirmed_mount_targets result.magic_stats.active_mounts snapshot in
    let all = merge_active_mounts overlay magic result.vfs_stats.active_targets in
    with_vfs_failure plan result.vfs_stats.failure (record state {
      active_mounts = all;
      overlay_active_mounts = overlay;
      magic_active_mounts = magic;
      vfs_active_mounts = result.vfs_stats.active_targets;
      confirmed_active_mounts = all;
      mount_stats =
          pipeline_stats result.overlay_dir_mounts result.shallow_overlay_mounts
            result.magic_stats.mounted_files result.magic_stats.mounted_symlinks
            result.magic_stats.ignored_files result.magic_stats.mounted_dirs;
      mode_stats = record (state.mode_stats) { vfs = length result.vfs_stats.mounted_module_ids };
      mount_error_modules = mount_error_modules;
      mount_error_reasons = reasons_of mount_error_modules;
      failed_stage = none;
      rollback_status = some (bytes "pending_commit");
      leftover_mount_targets = [];
      mount_point = if config.disable_umount then state.mount_point else [];
    })

-- The modules that are listed as mounted.
unfoldable pub mounted_ids :
    List ModuleRecord → MountPlan → MountExecutionResult → MountSnapshot → List Text
mounted_ids modules plan result snapshot =
    mounted_module_ids_for_snapshot modules plan
      (confirmed_mount_targets result.active_mounts snapshot)
      (confirmed_mount_targets result.magic_stats.active_mounts snapshot)
    ++ (result.magic_stats.mounted_module_ids ++ result.vfs_stats.mounted_module_ids)

abbrev pub committed_state : RunState → RunState
committed_state state = record state {
  rollback_status = some (bytes "committed");
  failed_stage = none;
  leftover_mount_targets = [];
}

-- After a commit that failed the journal has run, so there is no clean end any more.
abbrev pub after_commit : Result (List Text × List Text) → RollbackSummary
after_commit (err e) = unverified
after_commit (ok (leftover, missing)) = (bytes "incomplete", leftover)

abbrev pub labels_of : List CleanupFailure → List Text
labels_of failures = map (λ (f : CleanupFailure). f.label) failures

module _ {W : Type 0} (host : StageHost W) (modules : List ModuleRecord) (config : Config) where
  abbrev pub Stage : Type 0
  Stage = Boot W → Result (Unit {0}) × Boot W

  unfoldable pub settle_commit : MountSnapshot → VfsExecStats → CommitResult → Stage
  settle_commit baseline stats committed b =
      let state = committed_state b.state in
      (
        ok tt,
        record b {
          state = state;
          system =
              host.update_description state.storage_mode (length b.plan.overlay_module_ids)
                (length b.plan.magic_module_ids) (length stats.mounted_module_ids)
                (saving host.files state b.system);
        },
      )
  settle_commit baseline stats (commit_failed failures) b =
      let (records, w) = host.files.read_mounts b.system in
      let e = cleanup_actions_failed (labels_of failures) in
      (
        err e,
        record_mount_failure host.files modules config (bytes "mount_transaction_commit") e
            (after_commit (mountinfo_mismatches baseline b.mounted records))
            (record b { system = w }),
      )

  unfoldable pub commit_stage : MountSnapshot → VfsExecStats → Stage
  commit_stage baseline stats b =
      let (result, (report, w)) = commit config.disable_umount b.transaction b.system in
      settle_commit baseline stats result (record b { system = w })

  abbrev pub after_save : MountSnapshot → VfsExecStats → Result (Unit {0}) → Stage
  after_save baseline stats (err e) b =
      fail_stage host.files modules config baseline (bytes "state_save") e b
  after_save baseline stats (ok _) b = commit_stage baseline stats b

  unfoldable pub save_stage : MountSnapshot → VfsExecStats → Stage
  save_stage baseline stats b =
      let (r, w) = host.files.save_state b.state b.system in
      after_save baseline stats r (record b { system = w })

  abbrev pub after_listing :
      MountSnapshot → MountExecutionResult → MountSnapshot → List Text → Result (Unit {0}) → Stage
  after_listing baseline result snapshot mount_errors (err e) b =
      fail_stage host.files modules config baseline (bytes "module_snapshot_save") e b
  after_listing baseline result snapshot mount_errors (ok _) b =
      save_stage baseline result.vfs_stats
        (record b { state = published_state config b.plan result snapshot mount_errors b.state })

  abbrev pub confirm_stage : MountSnapshot → MountExecutionResult → Result (List (Text × ℕ)) → Stage
  confirm_stage baseline result (err e) b =
      fail_stage host.files modules config baseline (bytes "mountinfo_confirm") e b
  confirm_stage baseline result (ok records) b =
      let snapshot = from_records records in
      let mount_errors = host.files.mount_error_modules b.system in
      let (r, w) =
        host.files.write_scan_ret
          (app_modules modules config b.plan mount_errors
            (mounted_ids modules b.plan result snapshot))
          b.system in
      after_listing baseline result snapshot mount_errors r (record b { system = w })

  abbrev pub executed : MountSnapshot → Result MountExecutionResult → Stage
  executed baseline (err e) b =
      fail_stage host.files modules config baseline (bytes "mount_execution") e b
  executed baseline (ok result) b =
      let (records, w) = host.files.read_mounts b.system in
      confirm_stage baseline result records (record b { system = w })

  -- The transaction starts with the list of paths that KernelSU is to unmount.
  unfoldable pub begin_stage : MountSnapshot → Stage
  begin_stage baseline b =
      let (r, b') = host.execute_mount_phases (record b {
        transaction =
            register_rollback_only (bytes "ksu_try_umount_list") host.clear_unmount_list
              new_transaction;
      }) in
      executed baseline r b'

  abbrev pub after_baseline : Result (List (Text × ℕ)) → Stage
  after_baseline (err e) b = (err e, b)
  after_baseline (ok records) b = begin_stage (from_records records) b

  unfoldable pub mount_stage : Stage
  mount_stage b =
      let (records, w) =
        startup_outcome host.files (bytes "baseline") (host.files.read_mounts b.system) in
      after_baseline records (record b { system = w })
