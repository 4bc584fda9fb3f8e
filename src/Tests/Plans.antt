-- ===== src/Tests/Plans.antt =====
-- A plan for three modules on a device without the kernel module.
use meta_hybrid_mount.Plan.Build.{is_module_blacklisted, plan_modules, check_tree, build_plan}
use meta_hybrid_mount.Plan.Layers.{
  partition_root_len, layer_at, file_at, whole_layer_in, whole_layer, each,
  add_whole_overlay_layers, partial_file, add_partial_layers, add_layers, process_module,
}
use meta_hybrid_mount.Plan.Process.Ancestors.{begins_with_folder, has_overlay_ancestor-any}
use meta_hybrid_mount.Plan.Process.{
  decide_in, decide, decide_all, join_relative, place, place_all, collect_magic, collect_vfs,
  parent_of, has_ancestor_in, has_overlay_ancestor,
}
use meta_hybrid_mount.Plan.Entries.{
  EntryDecision, covers_protected, protected_targets, block_mapped, block_entry, block_entries,
  is_promoted_partition_alias, is_redundant_partition_self_alias,
}
use meta_hybrid_mount.Plan.Builder.{
  with_layer, add_overlay_layer, with_file, add_overlay_file, finish,
}
use meta_hybrid_mount.Plan.Register.{
  assigned, assign, shareable_directories, check_assignments, register,
}
use meta_hybrid_mount.Plan.Modes.{
  is_same_or_below, normalize_rule_path, degrade, new_view, resolve_mode,
  has_whole_system_overlay_rule,
}
use meta_hybrid_mount.Plan.Checks.{
  first_descendant_source, first_of_kids, ensure_replace_backend_consistency, ensure_replace_kids,
  backend_of, ensure_vfs_not_shadowed, ensure_kids_not_shadowed, ensure_vfs_opaque_exclusive,
  ensure_kids_exclusive, ensure_whiteout_exclusive, ensure_whiteout_kids,
}
use meta_hybrid_mount.MountTree.{
  leaf, node, MountNode, MountSource, source_for, entry, pop_times, noted, note_structure,
  push_source, insert_at, insert,
}
use meta_hybrid_mount.Partitions.{
  get, partition_of, logical_partition, root_len, is_bad_component, is_valid_path, partition_root,
  target_below, map_target,
}
use meta_hybrid_mount.Scanner.{mountable}
use meta_hybrid_mount.Text.Maps.{update}
use meta_hybrid_mount.Text.Paths.{path_components, components_eq, components_lt, components_start}
use meta_hybrid_mount.Text.Trim.{trim_by, trim, trim_start_slashes, components_of, pop_path}
use meta_hybrid_mount.Text.Split.{split_slash, join_slash, ends_with_slash, path_join}
use meta_hybrid_mount.Prelude.Sets.{set_insert, to_set}
use meta_hybrid_mount.Prelude.Sorting.{insert_by, sort_by}
use meta_hybrid_mount.Vfs.Rule.{current_path}
use meta_hybrid_mount.Plan.Checks.Tree.{InTree, InKids, IsBelow}
use meta_hybrid_mount.Plan.Build.Contributors.{
  Contributes, build_plan-magic_module_ids, build_plan-vfs_module_ids, build_plan-without_vfs,
}
use meta_hybrid_mount.Plan.Build.Hidden.{hides, build_plan-hides}
use meta_hybrid_mount.Plan.Build.Protected.{decisions_of-covers}
use meta_hybrid_mount.Plan.Build.Decisions.{decisions_of}
use meta_hybrid_mount.Prelude.{
  any, refl, ◌↔◌, inr, In, inl, ◌≡◌, true, false, [], ◌∷◌, none, some, List,
}
use meta_hybrid_mount.Text.{Text, bytes}
use meta_hybrid_mount.Config.{overlay, magic, vfs, Config}
use meta_hybrid_mount.Errors.{Result, ok, err}
use meta_hybrid_mount.MountTree.{branch, NodeFileType, regular_file, directory}
use meta_hybrid_mount.Partitions.{PartitionLayout}
use meta_hybrid_mount.Scanner.{ModuleEntry, ModuleRecord}
use meta_hybrid_mount.Plan.Builder.{MountPlan, empty_builder}
use meta_hybrid_mount.Plan.Build.{PlanInput}

abbrev pub an_entry : Text → NodeFileType → ModuleEntry
an_entry relative file_type = record {
  relative = relative;
  file_type = file_type;
  replace = false;
  link_target = none;
  directory_remove = false;
  marker_error = none;
}

abbrev pub a_module : Text → List ModuleEntry → ModuleRecord
a_module id entries = record {
  id = id;
  name = id;
  version = bytes "1";
  author = bytes "a";
  description = [];
  disabled = false;
  skip_mount = false;
  has_mount_files = true;
  source_path = bytes "/m";
  entries = entries;
}

abbrev config : Config
config = record {
  default_mode = magic;
  rules =
      (bytes "b", record { default_mode = some overlay; paths = [] })
      ∷ (bytes "c", record { default_mode = some vfs; paths = [] })
      ∷ [];
  module_blacklist = bytes "d" ∷ [];
  vfs_isolate_uids = [];
  vfs_strict = false;
  disable_umount = false;
}

abbrev pub layout : PartitionLayout
layout = record {
  roots = (bytes "system", bytes "/system") ∷ [];
  identities = [];
  errors = [];
  mount_points = bytes "/system/v" ∷ [];
}

abbrev input : PlanInput
input = record {
  modules =
      a_module (bytes "c") (an_entry (bytes "system/l") directory ∷ [])
      ∷ a_module (bytes "b") (an_entry (bytes "system/p") directory ∷ [])
      ∷ a_module (bytes "a")
          (an_entry (bytes "system/e") directory ∷ an_entry (bytes "system/e/h") regular_file ∷ [])
      ∷ a_module (bytes "d") (an_entry (bytes "system/x") directory ∷ [])
      ∷ [];
  config = config;
  layout = layout;
  vfs_available = false;
}

plan_or : MountPlan → Result MountPlan → MountPlan
plan_or other (ok plan) = plan
plan_or other (err e) = other

the_plan : MountPlan
the_plan = plan_or (finish empty_builder) (build_plan input)

built : build_plan input ≡ ok the_plan
unfolding is_module_blacklisted plan_modules check_tree build_plan partition_root_len layer_at
    file_at whole_layer_in whole_layer each add_whole_overlay_layers partial_file add_partial_layers
    add_layers process_module decide_in decide decide_all join_relative place place_all
    collect_magic collect_vfs parent_of has_ancestor_in has_overlay_ancestor protected_targets
    block_mapped block_entry block_entries is_promoted_partition_alias
    is_redundant_partition_self_alias with_layer add_overlay_layer with_file add_overlay_file finish
    assigned assign shareable_directories check_assignments register is_same_or_below
    normalize_rule_path degrade new_view resolve_mode has_whole_system_overlay_rule
    first_descendant_source first_of_kids ensure_replace_backend_consistency ensure_replace_kids
    backend_of ensure_vfs_not_shadowed ensure_kids_not_shadowed ensure_vfs_opaque_exclusive
    ensure_kids_exclusive ensure_whiteout_exclusive ensure_whiteout_kids source_for entry pop_times
    noted note_structure push_source insert_at insert get partition_of logical_partition root_len
    is_bad_component is_valid_path partition_root target_below map_target mountable update
    path_components components_eq components_lt components_start trim_by trim trim_start_slashes
    components_of pop_path split_slash join_slash ends_with_slash path_join set_insert to_set
    insert_by sort_by current_path the_plan plan_or
built = refl

build_plan-magic_module_ids_example :
    In (bytes "a") the_plan.magic_module_ids ↔ Contributes input magic (bytes "a") input.modules
build_plan-magic_module_ids_example = build_plan-magic_module_ids input the_plan (bytes "a") built

build_plan-vfs_module_ids_example :
    In (bytes "c") the_plan.vfs_module_ids ↔ Contributes input vfs (bytes "c") input.modules
build_plan-vfs_module_ids_example = build_plan-vfs_module_ids input the_plan (bytes "c") built

build_plan-without_vfs_example : the_plan.vfs_module_ids ≡ []
build_plan-without_vfs_example = build_plan-without_vfs input the_plan refl built

-- The directory `/system/e` of the first module and the file in it.
abbrev etc_source : MountSource
etc_source = record {
  module_id = bytes "a";
  relative = bytes "system/e";
  source_path = bytes "/m/system/e";
  file_type = directory;
  replace = false;
  backend = magic;
}

abbrev hosts_source : MountSource
hosts_source = record {
  module_id = bytes "a";
  relative = bytes "system/e/h";
  source_path = bytes "/m/system/e/h";
  file_type = regular_file;
  replace = false;
  backend = magic;
}

abbrev hosts_node : MountNode
hosts_node = node (bytes "h") leaf (hosts_source ∷ []) []

abbrev etc_node : MountNode
etc_node =
    node (bytes "e") (branch (bytes "h") hosts_node leaf) (etc_source ∷ [])
      (record { module_id = bytes "a"; source_path = bytes "/m/system/e" } ∷ [])

etc-InTree : InTree etc_node the_plan.tree
unfolding is_module_blacklisted plan_modules check_tree build_plan partition_root_len layer_at
    file_at whole_layer_in whole_layer each add_whole_overlay_layers partial_file add_partial_layers
    add_layers process_module decide_in decide decide_all join_relative place place_all
    collect_magic collect_vfs parent_of has_ancestor_in has_overlay_ancestor protected_targets
    block_mapped block_entry block_entries is_promoted_partition_alias
    is_redundant_partition_self_alias with_layer add_overlay_layer with_file add_overlay_file finish
    assigned assign shareable_directories check_assignments register is_same_or_below
    normalize_rule_path degrade new_view resolve_mode has_whole_system_overlay_rule
    first_descendant_source first_of_kids ensure_replace_backend_consistency ensure_replace_kids
    backend_of ensure_vfs_not_shadowed ensure_kids_not_shadowed ensure_vfs_opaque_exclusive
    ensure_kids_exclusive ensure_whiteout_exclusive ensure_whiteout_kids source_for entry pop_times
    noted note_structure push_source insert_at insert get partition_of logical_partition root_len
    is_bad_component is_valid_path partition_root target_below map_target mountable update
    path_components components_eq components_lt components_start trim_by trim trim_start_slashes
    components_of pop_path split_slash join_slash ends_with_slash path_join set_insert to_set
    insert_by sort_by current_path the_plan plan_or InTree InKids
etc-InTree = inr (inl (inr (inl (inl refl))))

hosts-IsBelow : IsBelow hosts_node etc_node
unfolding InTree InKids
hosts-IsBelow = inl (inl refl)

build_plan-hides_example : hides etc_source hosts_source ≡ false
build_plan-hides_example =
    build_plan-hides input the_plan built etc_node hosts_node etc_source hosts_source etc-InTree
      (inl refl) hosts-IsBelow (inl refl)

abbrev first_module : ModuleRecord
first_module =
    a_module (bytes "a")
      (an_entry (bytes "system/e") directory ∷ an_entry (bytes "system/e/h") regular_file ∷ [])

abbrev decision : EntryDecision
decision = record { entry = an_entry (bytes "system/e") directory; mode = magic }

decided : In decision (decisions_of first_module (new_view (bytes "a") config false) layout)
unfolding is_module_blacklisted plan_modules check_tree build_plan partition_root_len layer_at
    file_at whole_layer_in whole_layer each add_whole_overlay_layers partial_file add_partial_layers
    add_layers process_module decide_in decide decide_all join_relative place place_all
    collect_magic collect_vfs parent_of has_ancestor_in has_overlay_ancestor protected_targets
    block_mapped block_entry block_entries is_promoted_partition_alias
    is_redundant_partition_self_alias with_layer add_overlay_layer with_file add_overlay_file finish
    assigned assign shareable_directories check_assignments register is_same_or_below
    normalize_rule_path degrade new_view resolve_mode has_whole_system_overlay_rule
    first_descendant_source first_of_kids ensure_replace_backend_consistency ensure_replace_kids
    backend_of ensure_vfs_not_shadowed ensure_kids_not_shadowed ensure_vfs_opaque_exclusive
    ensure_kids_exclusive ensure_whiteout_exclusive ensure_whiteout_kids source_for entry pop_times
    noted note_structure push_source insert_at insert get partition_of logical_partition root_len
    is_bad_component is_valid_path partition_root target_below map_target mountable update
    path_components components_eq components_lt components_start trim_by trim trim_start_slashes
    components_of pop_path split_slash join_slash ends_with_slash path_join set_insert to_set
    insert_by sort_by current_path
decided = inl refl

mapped : map_target layout (bytes "system/e") ≡ ok (bytes "system", bytes "/system/e")
unfolding is_module_blacklisted plan_modules check_tree build_plan partition_root_len layer_at
    file_at whole_layer_in whole_layer each add_whole_overlay_layers partial_file add_partial_layers
    add_layers process_module decide_in decide decide_all join_relative place place_all
    collect_magic collect_vfs parent_of has_ancestor_in has_overlay_ancestor protected_targets
    block_mapped block_entry block_entries is_promoted_partition_alias
    is_redundant_partition_self_alias with_layer add_overlay_layer with_file add_overlay_file finish
    assigned assign shareable_directories check_assignments register is_same_or_below
    normalize_rule_path degrade new_view resolve_mode has_whole_system_overlay_rule
    first_descendant_source first_of_kids ensure_replace_backend_consistency ensure_replace_kids
    backend_of ensure_vfs_not_shadowed ensure_kids_not_shadowed ensure_vfs_opaque_exclusive
    ensure_kids_exclusive ensure_whiteout_exclusive ensure_whiteout_kids source_for entry pop_times
    noted note_structure push_source insert_at insert get partition_of logical_partition root_len
    is_bad_component is_valid_path partition_root target_below map_target mountable update
    path_components components_eq components_lt components_start trim_by trim trim_start_slashes
    components_of pop_path split_slash join_slash ends_with_slash path_join set_insert to_set
    insert_by sort_by current_path
mapped = refl

decisions_of-covers_example :
    covers_protected (protected_targets layout) (bytes "/system/e") decision.entry ≡ false
decisions_of-covers_example =
    decisions_of-covers first_module (new_view (bytes "a") config false) layout decision
      (bytes "system") (bytes "/system/e") decided refl mapped

abbrev some_paths : List Text
some_paths = bytes "vendor" ∷ bytes "system/app" ∷ []

has_overlay_ancestor-any_example :
    has_overlay_ancestor (bytes "system/app/x/y") some_paths
    ≡ any (begins_with_folder (bytes "system/app/x/y")) some_paths
has_overlay_ancestor-any_example = has_overlay_ancestor-any (bytes "system/app/x/y") some_paths
