-- ===== src/Tests/Trees.antt =====
-- A tree with two targets, and its rules.
use meta_hybrid_mount.Text.Split.{split_slash}
use meta_hybrid_mount.Text.Trim.{components_of, trim_start_slashes, trim, trim_by, pop_path}
use meta_hybrid_mount.Prelude.{◌≤◌, ◌≡◌, ◌≢◌, inl, refl, false, List, [], ◌∷◌, ◌++◌, length, In}
use meta_hybrid_mount.Prelude.Sorting.{insert_by, sort_by}
use meta_hybrid_mount.Text.{Text, bytes}
use meta_hybrid_mount.Config.{vfs, overlay}
use meta_hybrid_mount.MountTree.{
  insert_at, any_has_backend, entry, note_structure, push_source, noted, pop_times, source_for,
  MountSource, MountNode, regular_file, directory, empty_tree, source_lt, insert, target_components,
  module_ids_for, node_count,
}
use meta_hybrid_mount.MountTree.Insert.{IsWellFormed}
use meta_hybrid_mount.MountTree.Sources.{sources_at, insert-sources_at}
use meta_hybrid_mount.Vfs.Rule.{
  collect_node, node_rules, is_vfs_dir, opaque_rules, current_path, file_rules, owner_of,
  typed_rules, VfsRule, inject, build_vfs_rules,
}
use meta_hybrid_mount.Vfs.Rule.Owners.{build_vfs_rules-le, build_vfs_rules-In}

abbrev hosts : MountSource
hosts = record {
  module_id = bytes "m";
  relative = bytes "system/hosts";
  source_path = bytes "/data/m/system/hosts";
  file_type = regular_file;
  replace = false;
  backend = vfs;
}

abbrev fonts : MountSource
fonts = record {
  module_id = bytes "o";
  relative = bytes "system/fonts";
  source_path = bytes "/data/o/system/fonts";
  file_type = directory;
  replace = false;
  backend = overlay;
}

abbrev one_target : MountNode
unfolding insert
one_target = insert (bytes "/system/hosts") hosts empty_tree

empty-IsWellFormed : IsWellFormed empty_tree
unfolding IsWellFormed
empty-IsWellFormed = tt

insert-sources_at_example :
    IsWellFormed (insert (bytes "/system/hosts") hosts empty_tree)
    × (sources_at
          (target_components (bytes "/system/hosts"))
          (insert (bytes "/system/hosts") hosts empty_tree)
        ≡ sort_by source_lt
            (sources_at (target_components (bytes "/system/hosts")) empty_tree ++ hosts ∷ []))
    × ((others : List Text)
        → others ≢ target_components (bytes "/system/hosts")
        → sources_at others (insert (bytes "/system/hosts") hosts empty_tree)
          ≡ sources_at others empty_tree)
insert-sources_at_example =
    insert-sources_at (bytes "/system/hosts") hosts empty_tree empty-IsWellFormed

build_vfs_rules-le_example : length (build_vfs_rules one_target) ≤ node_count one_target
build_vfs_rules-le_example = build_vfs_rules-le one_target

abbrev hosts_rule : VfsRule
hosts_rule = record {
  action = inject (bytes "/system/hosts") (bytes "/data/m/system/hosts");
  module_id = bytes "m";
}

only_rule : build_vfs_rules one_target ≡ hosts_rule ∷ []
unfolding one_target build_vfs_rules insert sort_by collect_node node_rules is_vfs_dir opaque_rules
    current_path file_rules owner_of typed_rules insert_at any_has_backend entry note_structure
    push_source noted pop_times source_for components_of trim_start_slashes trim trim_by pop_path
    split_slash insert_by
only_rule = refl

hosts_rule-In : In hosts_rule (build_vfs_rules one_target)
hosts_rule-In = rw only_rule (inl refl)

build_vfs_rules-In_example : In (bytes "m") (module_ids_for vfs one_target)
build_vfs_rules-In_example = build_vfs_rules-In one_target hosts_rule hosts_rule-In
