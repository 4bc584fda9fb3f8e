-- ===== src/State/Run.antt =====
-- state.rs: the boot snapshot `RunState`, and the snapshots that a boot starts from.
use meta_hybrid_mount.Prelude.{
  ℕ, Bool, false, ◌||◌, not, Option, none, some, List, [], map, filter, length,
}
use meta_hybrid_mount.Text.{Text, bytes, is_empty}
use meta_hybrid_mount.Errors.{Error}
use meta_hybrid_mount.Partitions.{PartitionDiagnostic, OperationDiagnostic}
use meta_hybrid_mount.Scanner.{ModuleRecord}
use meta_hybrid_mount.Plan.Builder.{MountPlan}

pub record MountStatistics : Type 0 where
  pub total_mounts : ℕ
  pub successful_mounts : ℕ
  pub failed_mounts : ℕ
  pub files_mounted : ℕ
  pub symlinks_created : ℕ
  pub overlayfs_mounts : ℕ
  pub ignored_entries : ℕ
  pub magic_dirs : ℕ

pub record ModeStats : Type 0 where
  pub overlayfs : ℕ
  pub magicmount : ℕ
  pub vfs : ℕ

pub data StateLoadKind : Type 0 where
  missing loaded corrupt io_error : StateLoadKind

pub record StateLoadInfo : Type 0 where
  pub kind : StateLoadKind
  pub detail : Option Text

-- The saved errors, texts in the source, are the errors that they describe.
pub record RunState : Type 0 where
  pub timestamp : ℕ
  pub pid : ℕ
  pub storage_mode : Text
  pub mount_point : Text
  pub overlay_modules : List Text
  pub magic_modules : List Text
  pub skip_mount_modules : List Text
  pub active_mounts : List Text
  pub overlay_active_mounts : List Text
  pub magic_active_mounts : List Text
  pub vfs_modules : List Text
  pub vfs_active_mounts : List Text
  pub vfs_provider : Option Text
  pub vfs_error : Option Error
  pub vfs_error_modules : List Text
  pub vfs_foreign_nomount : Bool
  pub confirmed_active_mounts : List Text
  pub degraded : Bool
  pub partition_errors : List PartitionDiagnostic
  pub operation_errors : List OperationDiagnostic
  pub mount_error_modules : List Text
  pub mount_error_reasons : List (Text × Text)
  pub mount_stats : MountStatistics
  pub mode_stats : ModeStats
  pub state_load : StateLoadInfo
  pub failed_stage : Option Text
  pub failure_reason : Option Error
  pub rollback_status : Option Text
  pub leftover_mount_targets : List Text

abbrev pub no_mounts : MountStatistics
no_mounts = record {
  total_mounts = 0;
  successful_mounts = 0;
  failed_mounts = 0;
  files_mounted = 0;
  symlinks_created = 0;
  overlayfs_mounts = 0;
  ignored_entries = 0;
  magic_dirs = 0;
}

abbrev pub reasons_of : List Text → List (Text × Text)
reasons_of modules = map (λ m. (m, bytes "mount_error marker present")) modules

-- `RunState::new` with no storage and no targets, at a time and in a process.
abbrev pub new_state : ℕ → ℕ → List Text → List Text → List Text → ModeStats → RunState
new_state timestamp pid overlay_modules magic_modules skip_mount_modules mode_stats = record {
  timestamp = timestamp;
  pid = pid;
  storage_mode = bytes "none";
  mount_point = [];
  overlay_modules = overlay_modules;
  magic_modules = magic_modules;
  skip_mount_modules = skip_mount_modules;
  active_mounts = [];
  overlay_active_mounts = [];
  magic_active_mounts = [];
  vfs_modules = [];
  vfs_active_mounts = [];
  vfs_provider = none;
  vfs_error = none;
  vfs_error_modules = [];
  vfs_foreign_nomount = false;
  confirmed_active_mounts = [];
  degraded = false;
  partition_errors = [];
  operation_errors = [];
  mount_error_modules = [];
  mount_error_reasons = [];
  mount_stats = no_mounts;
  mode_stats = mode_stats;
  state_load = record { kind = loaded; detail = none };
  failed_stage = none;
  failure_reason = none;
  rollback_status = none;
  leftover_mount_targets = [];
}

unfoldable pub from_plan : ℕ → ℕ → List ModuleRecord → MountPlan → List Text → RunState
from_plan timestamp pid modules plan mount_error_modules =
    record (new_state timestamp pid plan.overlay_module_ids plan.magic_module_ids
      (map (λ (m : ModuleRecord). m.id) (filter (λ (m : ModuleRecord). m.skip_mount) modules))
      record {
        overlayfs = length plan.overlay_module_ids;
        magicmount = length plan.magic_module_ids;
        vfs = length plan.vfs_module_ids;
      }) {
        vfs_modules = plan.vfs_module_ids;
        partition_errors = plan.partition_errors;
        operation_errors = plan.operation_errors;
        degraded = not (is_empty plan.partition_errors) || not (is_empty plan.operation_errors);
        mount_error_modules = mount_error_modules;
        mount_error_reasons = reasons_of mount_error_modules;
      }

unfoldable pub from_startup_failure : ℕ → ℕ → Text → Error → RunState
from_startup_failure timestamp pid stage reason =
    record (new_state timestamp pid [] [] [] record { overlayfs = 0; magicmount = 0; vfs = 0 }) {
      failed_stage = some stage;
      failure_reason = some reason;
      rollback_status = some (bytes "clean");
    }
