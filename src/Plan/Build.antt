-- ===== src/Plan/Build.antt =====
-- plan/mod.rs: `build_plan`, from the modules to the plan that passed its checks.
pub mod Keeps
pub mod Decisions
pub mod Joins
pub mod Contributors
pub mod Hidden
pub mod Protected
pub mod Steps
use meta_hybrid_mount.Prelude.{Bool, ◌||◌, not, none, List, [], ◌∷◌, if◌then◌else◌, any}
use meta_hybrid_mount.Prelude.Sorting.{sort_by}
use meta_hybrid_mount.Text.{Text, text_eq, text_lt}
use meta_hybrid_mount.Config.{Config}
use meta_hybrid_mount.Errors.{Result, ok, ◌>>=◌, ◌>>◌}
use meta_hybrid_mount.MountTree.{MountNode}
use meta_hybrid_mount.Partitions.{PartitionLayout}
use meta_hybrid_mount.Scanner.{ModuleRecord, mountable}
use meta_hybrid_mount.Plan.Modes.{new_view}
use meta_hybrid_mount.Plan.Checks.{
  ensure_replace_backend_consistency, ensure_vfs_not_shadowed, ensure_vfs_opaque_exclusive,
  ensure_whiteout_exclusive,
}
use meta_hybrid_mount.Plan.Builder.{MountPlan, PlanBuilder, empty_builder, finish}
use meta_hybrid_mount.Plan.Entries.{protected_targets}
use meta_hybrid_mount.Plan.Layers.{process_module}

pub record PlanInput : Type 0 where
  pub modules : List ModuleRecord
  pub config : Config
  pub layout : PartitionLayout
  pub vfs_available : Bool

unfoldable pub is_module_blacklisted : Config → Text → Bool
is_module_blacklisted config id = any (text_eq id) config.module_blacklist

abbrev pub id_lt : ModuleRecord → ModuleRecord → Bool
id_lt left right = text_lt left.id right.id

-- Whether a module is left out.
abbrev pub is_skipped : Config → ModuleRecord → Bool
is_skipped config m = not (mountable m) || is_module_blacklisted config m.id

unfoldable pub plan_modules : PlanInput → List ModuleRecord → PlanBuilder → Result PlanBuilder
plan_modules input [] b = ok b
plan_modules input (m ∷ rest) b =
    (if is_skipped input.config m
      then ok b
      else process_module m (new_view m.id input.config input.vfs_available) input.layout b)
    >>= plan_modules input rest

unfoldable pub check_tree : MountNode → Result (Unit {0})
check_tree tree = do
  ensure_replace_backend_consistency tree []
  ensure_vfs_not_shadowed tree [] none
  ensure_vfs_opaque_exclusive tree [] none
  ensure_whiteout_exclusive tree []

unfoldable pub build_plan : PlanInput → Result MountPlan
build_plan input = do
  b ← plan_modules input (sort_by id_lt input.modules) empty_builder
  check_tree b.tree
  ok (record (finish b) {
    partition_layout = input.layout;
    protected_targets = protected_targets input.layout;
  })
