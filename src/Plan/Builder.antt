-- ===== src/Plan/Builder.antt =====
-- plan/mod.rs: the plan, and the builder that gathers it. A `BTreeSet` of texts is a sorted list.
use meta_hybrid_mount.Text.Paths.{path_lt}
use meta_hybrid_mount.Prelude.{Bool, Option, none, some, List, [], ◌∷◌, map, if◌then◌else◌}
use meta_hybrid_mount.Prelude.Sets.{set_insert}
use meta_hybrid_mount.Text.{Text, text_eq, text_lt}
use meta_hybrid_mount.Text.Maps.{update, put}
use meta_hybrid_mount.Partitions.{PartitionDiagnostic, OperationDiagnostic, PartitionLayout}
use meta_hybrid_mount.MountTree.{MountNode, empty_tree}
use meta_hybrid_mount.Plan.Register.{Assignments}

pub record OverlayOperation : Type 0 where
  pub partition : Text
  pub target : Text
  pub lowerdirs : List Text

pub record MountPlan : Type 0 where
  pub tree : MountNode
  pub overlay_ops : List OverlayOperation
  pub overlay_files : List (Text × List Text)
  pub overlay_module_ids : List Text
  pub magic_module_ids : List Text
  pub vfs_module_ids : List Text
  pub partition_errors : List PartitionDiagnostic
  pub operation_errors : List OperationDiagnostic
  pub partition_layout : PartitionLayout
  pub protected_targets : List Text

-- A partition and its layers by module; a module and a file of it.
abbrev pub Layers : Type 0
Layers = Text × List (Text × Text)

pub record PlanBuilder : Type 0 where
  pub tree : MountNode
  pub overlay_by_target : List (Text × Layers)
  pub overlay_files_by_target : List (Text × List (Text × Text))
  pub overlay_module_ids : List Text
  pub magic_module_ids : List Text
  pub vfs_module_ids : List Text
  pub assignments : Assignments
  pub partition_errors : List (Text × PartitionDiagnostic)
  pub operation_errors : List OperationDiagnostic

abbrev pub empty_builder : PlanBuilder
empty_builder = record {
  tree = empty_tree;
  overlay_by_target = [];
  overlay_files_by_target = [];
  overlay_module_ids = [];
  magic_module_ids = [];
  vfs_module_ids = [];
  assignments = [];
  partition_errors = [];
  operation_errors = [];
}

abbrev pub layers_or : Text → Option Layers → Layers
layers_or partition none = (partition, [])
layers_or partition (some layers) = layers

unfoldable pub with_layer : Text → Text → Text → Option Layers → Layers
with_layer partition module_id source there =
    let layers = layers_or partition there in (layers.0, put module_id source layers.1)

unfoldable pub add_overlay_layer : Text → Text → Text → Text → PlanBuilder → PlanBuilder
add_overlay_layer partition target module_id source b = record b {
  overlay_by_target = update target (with_layer partition module_id source) b.overlay_by_target;
  overlay_module_ids = set_insert text_lt module_id b.overlay_module_ids;
}

abbrev pub file_lt : Text × Text → Text × Text → Bool
file_lt (id, source) (id', source') =
    if text_eq id id' then path_lt source source' else text_lt id id'

unfoldable pub with_file : Text × Text → Option (List (Text × Text)) → List (Text × Text)
with_file file none = file ∷ []
with_file file (some files) = set_insert file_lt file files

unfoldable pub add_overlay_file : Text → Text → Text → PlanBuilder → PlanBuilder
add_overlay_file target module_id source b = record b {
  overlay_files_by_target = update target (with_file (module_id, source)) b.overlay_files_by_target;
  overlay_module_ids = set_insert text_lt module_id b.overlay_module_ids;
}

abbrev pub operation_of : Text × Layers → OverlayOperation
operation_of (target, (partition, layers)) = record {
  partition = partition;
  target = target;
  lowerdirs = map (λ (l : Text × Text). l.1) layers;
}

abbrev pub files_of : Text × List (Text × Text) → Text × List Text
files_of (target, files) = (target, map (λ (f : Text × Text). f.1) files)

abbrev pub default_layout : PartitionLayout
default_layout = record { roots = []; identities = []; errors = []; mount_points = [] }

unfoldable pub finish : PlanBuilder → MountPlan
finish b = record {
  tree = b.tree;
  overlay_ops = map operation_of b.overlay_by_target;
  overlay_files = map files_of b.overlay_files_by_target;
  overlay_module_ids = b.overlay_module_ids;
  magic_module_ids = b.magic_module_ids;
  vfs_module_ids = b.vfs_module_ids;
  partition_errors = map (λ (e : Text × PartitionDiagnostic). e.1) b.partition_errors;
  operation_errors = b.operation_errors;
  partition_layout = default_layout;
  protected_targets = [];
}
