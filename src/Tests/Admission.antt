-- ===== src/Tests/Admission.antt =====
-- The admission of a module to a hot operation.
use meta_hybrid_mount.Plan.Build.{is_module_blacklisted, plan_modules, check_tree, build_plan}
use meta_hybrid_mount.Plan.Layers.{
  partition_root_len, layer_at, file_at, whole_layer_in, whole_layer, each,
  add_whole_overlay_layers, partial_file, add_partial_layers, add_layers, process_module,
}
use meta_hybrid_mount.Plan.Process.{
  decide_in, decide, decide_all, join_relative, place, place_all, collect_magic, collect_vfs,
  parent_of, has_ancestor_in, has_overlay_ancestor,
}
use meta_hybrid_mount.Plan.Entries.{
  protected_targets, block_mapped, block_entry, block_entries, is_promoted_partition_alias,
  is_redundant_partition_self_alias,
}
use meta_hybrid_mount.Plan.Builder.{
  with_layer, add_overlay_layer, with_file, add_overlay_file, finish, MountPlan, empty_builder,
}
use meta_hybrid_mount.Plan.Register.{
  assigned, assign, shareable_directories, check_assignments, register,
}
use meta_hybrid_mount.Plan.Modes.{
  is_same_or_below, normalize_rule_path, degrade, new_view, resolve_mode,
  has_whole_system_overlay_rule,
}
use meta_hybrid_mount.Plan.Checks.{
  first_descendant_source, first_of_kids, ensure_replace_backend_consistency, ensure_replace_kids,
  backend_of, ensure_vfs_not_shadowed, ensure_kids_not_shadowed, ensure_vfs_opaque_exclusive,
  ensure_kids_exclusive, ensure_whiteout_exclusive, ensure_whiteout_kids,
}
use meta_hybrid_mount.MountTree.{
  source_for, any_has_backend, entry, pop_times, noted, note_structure, push_source, insert_at,
  insert, regular_file,
}
use meta_hybrid_mount.Partitions.{
  PartitionLayout, get, partition_of, logical_partition, root_len, is_bad_component, is_valid_path,
  partition_root, target_below, map_target,
}
use meta_hybrid_mount.Scanner.{mountable, ModuleRecord}
use meta_hybrid_mount.Text.Maps.{update}
use meta_hybrid_mount.Text.Paths.{path_components, components_eq, components_lt, components_start}
use meta_hybrid_mount.Text.Trim.{trim_by, trim, trim_start_slashes, components_of, pop_path}
use meta_hybrid_mount.Text.Split.{split_slash, join_slash, ends_with_slash, path_join}
use meta_hybrid_mount.Prelude.Sets.{set_insert, to_set}
use meta_hybrid_mount.Prelude.Sorting.{insert_by, sort_by}
use meta_hybrid_mount.Vfs.Rule.{
  current_path, is_vfs_dir, owner_of, opaque_rules, typed_rules, file_rules, node_rules,
  collect_node, collect_kids, build_vfs_rules,
}
use meta_hybrid_mount.Runtime.Policy.{
  paths_overlap, same_subtree, foreign_subtree, is_unchanged, ensure_unchanged,
  ensure_layout_unchanged, relevant_partitions, partition_under, owned_partitions, check_targets,
  plan_hot_module,
}
use meta_hybrid_mount.Vfs.Protocol.Encode.{encode_rule}
use meta_hybrid_mount.Text.Utf8.{from_utf8_lossy}
use meta_hybrid_mount.Prelude.{◌≡◌, refl, Bool, true, false, [], ◌∷◌, none, some, any, all, ◌||◌}
use meta_hybrid_mount.Text.{Text, text_eq, bytes}
use meta_hybrid_mount.Config.{vfs, Config}
use meta_hybrid_mount.Errors.{Result, ok, err}
use meta_hybrid_mount.Runtime.Ledger.{Ledger, OwnedMount}
use meta_hybrid_mount.Runtime.Policy.Admitted.{is_clear_of, is_vfs_entry, plan_hot_module-Admitted}
use meta_hybrid_mount.Tests.Plans.{an_entry, a_module, layout}

abbrev pub config : Config
config = record {
  default_mode = vfs;
  rules = [];
  module_blacklist = [];
  vfs_isolate_uids = [];
  vfs_strict = false;
  disable_umount = false;
}

abbrev a_mount : OwnedMount
a_mount = record {
  target = bytes "/vendor/etc";
  id = 7;
  baseline_ids = [];
  device = bytes "0:1";
  fs_type = bytes "overlay";
  source = none;
}

abbrev saved : Ledger
saved = record {
  version = 1;
  boot_id = bytes "boot";
  namespace = bytes "ns";
  generation = 3;
  phase = bytes "ready";
  vfs_provider = some (bytes "hm");
  partition_layout = some layout;
  rules = [];
  pending_rules = [];
  mounts = a_mount ∷ [];
  ksu_unmounts = some [];
  non_vfs_modules = bytes "z" ∷ [];
  modules = [];
  isolated_uids = [];
  error = none;
}

abbrev the_module : ModuleRecord
the_module = a_module (bytes "a") (an_entry (bytes "system/h") regular_file ∷ [])

abbrev nothing_exists : Text → Bool
nothing_exists path = false

plan_or : MountPlan → Result MountPlan → MountPlan
plan_or other (ok plan) = plan
plan_or other (err e) = other

the_plan : MountPlan
the_plan =
    plan_or (finish empty_builder) (plan_hot_module nothing_exists the_module config layout saved)

admitted : plan_hot_module nothing_exists the_module config layout saved ≡ ok the_plan
unfolding is_module_blacklisted plan_modules check_tree build_plan partition_root_len layer_at
    file_at whole_layer_in whole_layer each add_whole_overlay_layers partial_file add_partial_layers
    add_layers process_module decide_in decide decide_all join_relative place place_all
    collect_magic collect_vfs parent_of has_ancestor_in has_overlay_ancestor protected_targets
    block_mapped block_entry block_entries is_promoted_partition_alias
    is_redundant_partition_self_alias with_layer add_overlay_layer with_file add_overlay_file finish
    assigned assign shareable_directories check_assignments register is_same_or_below
    normalize_rule_path degrade new_view resolve_mode has_whole_system_overlay_rule
    first_descendant_source first_of_kids ensure_replace_backend_consistency ensure_replace_kids
    backend_of ensure_vfs_not_shadowed ensure_kids_not_shadowed ensure_vfs_opaque_exclusive
    ensure_kids_exclusive ensure_whiteout_exclusive ensure_whiteout_kids source_for any_has_backend
    entry pop_times noted note_structure push_source insert_at insert get partition_of
    logical_partition root_len is_bad_component is_valid_path partition_root target_below map_target
    mountable update path_components components_eq components_lt components_start trim_by trim
    trim_start_slashes components_of pop_path split_slash join_slash ends_with_slash path_join
    set_insert to_set insert_by sort_by current_path is_vfs_dir owner_of opaque_rules typed_rules
    file_rules node_rules collect_node collect_kids build_vfs_rules paths_overlap same_subtree
    foreign_subtree is_unchanged ensure_unchanged ensure_layout_unchanged relevant_partitions
    partition_under owned_partitions check_targets plan_hot_module encode_rule from_utf8_lossy
    the_plan plan_or
admitted = refl

plan_hot_module-Admitted_example :
    (any (text_eq (bytes "a")) saved.non_vfs_modules ≡ false)
    × (the_module.skip_mount
          || (is_module_blacklisted config (bytes "a")
              || nothing_exists (path_join the_module.source_path (bytes "remove")))
        ≡ false)
    × (the_plan.magic_module_ids ≡ [])
    × (the_plan.overlay_module_ids ≡ [])
    × (all (λ rule. is_clear_of saved.mounts (encode_rule rule)) (build_vfs_rules the_plan.tree)
        ≡ true)
    × ((baseline : PartitionLayout) × (saved.partition_layout ≡ some baseline)
        × (all
              (is_vfs_entry
                (new_view (bytes "a") config true)
                layout
                (is_unchanged baseline layout saved.mounts))
              the_module.entries
            ≡ true))
plan_hot_module-Admitted_example =
    plan_hot_module-Admitted nothing_exists the_module config layout saved the_plan admitted
