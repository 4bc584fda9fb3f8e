-- ===== src/Plan/Layers.antt =====
-- plan/mod.rs: the overlay layers of a module, whole or in part, and `process_module` itself.
use meta_hybrid_mount.Prelude.{
  ℕ, ◌+◌, Bool, ◌&&◌, ◌||◌, not, Option, none, some, List, [], ◌∷◌, map, ◌==◌, ltb, if◌then◌else◌,
  length, take, filter,
}
use meta_hybrid_mount.Prelude.Sets.{to_set}
use meta_hybrid_mount.Text.{Text, text_lt}
use meta_hybrid_mount.Text.Split.{split_slash, join_slash}
use meta_hybrid_mount.Config.{overlay, mode_eq}
use meta_hybrid_mount.Errors.{Result, ok, ◌>>=◌}
use meta_hybrid_mount.MountTree.{is_directory}
use meta_hybrid_mount.Partitions.{PartitionLayout, root_len, map_target}
use meta_hybrid_mount.Scanner.{ModuleRecord}
use meta_hybrid_mount.Plan.Modes.{ModuleRulesView, has_whole_system_overlay_rule}
use meta_hybrid_mount.Plan.Builder.{PlanBuilder, add_overlay_layer, add_overlay_file}
use meta_hybrid_mount.Plan.Entries.{EntryDecision, protected_targets, block_entries}
use meta_hybrid_mount.Plan.Process.{
  decide_all, join_relative, place_all, has_mode, collect_magic, collect_vfs, parent_of,
  has_overlay_ancestor,
}

unfoldable pub partition_root_len : List Text → PartitionLayout → ℕ
partition_root_len components layout = root_len layout (join_slash components)

abbrev pub relative_of : EntryDecision → Text
relative_of d = d.entry.relative

abbrev pub replaces_root : PartitionLayout → EntryDecision → Bool
replaces_root layout d =
    d.entry.replace
    && length (split_slash d.entry.relative)
      == partition_root_len (split_slash d.entry.relative) layout

-- A layer for a path of the module.
unfoldable pub layer_at : ModuleRecord → PartitionLayout → Text → PlanBuilder → Result PlanBuilder
layer_at m layout relative b = map_target layout relative >>= λ mapped.
    ok (add_overlay_layer mapped.0 mapped.1 m.id (join_relative m.source_path relative) b)

-- A file below the target of its parent.
unfoldable pub file_at :
    ModuleRecord → PartitionLayout → Text → Text → PlanBuilder → Result PlanBuilder
file_at m layout parent relative b = map_target layout parent >>= λ mapped.
    ok (add_overlay_file mapped.1 m.id (join_relative m.source_path relative) b)

abbrev pub goes_below_root : ℕ → ℕ → Bool → Bool
goes_below_root count root is_dir = ltb (root + 1) count || (is_dir && count == root + 1)

-- The rest of a round, by the components of the path and the length of the partition's root.
unfoldable pub whole_layer_in :
    ModuleRecord
    → PartitionLayout
    → EntryDecision
    → List Text
    → ℕ
    → PlanBuilder
    → Result PlanBuilder
whole_layer_in m layout d components root b =
    if length components == root && d.entry.replace
    then layer_at m layout d.entry.relative b
    else if goes_below_root (length components) root (is_directory d.entry.file_type)
    then layer_at m layout (join_slash (take (root + 1) components)) b
    else if not (is_directory d.entry.file_type) && length components == root + 1
    then file_at m layout (join_slash (take root components)) d.entry.relative b
    else ok b

-- One round of `add_whole_overlay_layers`.
unfoldable pub whole_layer :
    ModuleRecord → PartitionLayout → List Text → EntryDecision → PlanBuilder → Result PlanBuilder
whole_layer m layout replaced_roots d b =
    if has_overlay_ancestor d.entry.relative replaced_roots
    then ok b
    else whole_layer_in m layout d (split_slash d.entry.relative)
        (partition_root_len (split_slash d.entry.relative) layout) b

-- A `for` loop whose rounds may fail.
unfoldable pub each :
    (EntryDecision → PlanBuilder → Result PlanBuilder)
    → List EntryDecision
    → PlanBuilder
    → Result PlanBuilder
each round [] b = ok b
each round (d ∷ rest) b = round d b >>= each round rest

unfoldable pub add_whole_overlay_layers :
    ModuleRecord → List EntryDecision → PartitionLayout → PlanBuilder → Result PlanBuilder
add_whole_overlay_layers m decisions layout =
    each
      (whole_layer m layout
        (to_set text_lt (map relative_of (filter (replaces_root layout) decisions))))
      decisions

abbrev pub is_overlay_root : List Text → EntryDecision → Bool
is_overlay_root overlay_rels d =
    has_mode overlay d
    && (is_directory d.entry.file_type && not (has_overlay_ancestor d.entry.relative overlay_rels))

abbrev pub file_below :
    ModuleRecord → PartitionLayout → Text → Option Text → PlanBuilder → Result PlanBuilder
file_below m layout relative none b = ok b
file_below m layout relative (some parent) b = file_at m layout parent relative b

-- One round of the loop over the files and the links of a partial overlay.
unfoldable pub partial_file :
    ModuleRecord → PartitionLayout → List Text → EntryDecision → PlanBuilder → Result PlanBuilder
partial_file m layout overlay_rels d b =
    if not (has_mode overlay d)
      || (is_directory d.entry.file_type || has_overlay_ancestor d.entry.relative overlay_rels)
    then ok b
    else file_below m layout d.entry.relative (parent_of d.entry.relative) b

abbrev pub overlay_paths : List EntryDecision → List Text
overlay_paths decisions = to_set text_lt (map relative_of (filter (has_mode overlay) decisions))

-- The directories first, then the files.
unfoldable pub add_partial_layers :
    ModuleRecord → List EntryDecision → PartitionLayout → PlanBuilder → Result PlanBuilder
add_partial_layers m decisions layout b =
    each (λ d. layer_at m layout d.entry.relative)
      (filter (is_overlay_root (overlay_paths decisions)) decisions) b
    >>= each (partial_file m layout (overlay_paths decisions)) decisions

abbrev pub collected : ModuleRecord → List EntryDecision → PlanBuilder → PlanBuilder
collected m decisions b = collect_vfs m decisions (collect_magic m decisions b)

abbrev pub is_whole_overlay : ModuleRulesView → List EntryDecision → Bool
is_whole_overlay rules decisions =
    length (filter (has_mode overlay) decisions) == length decisions
    && (mode_eq rules.default_mode overlay || has_whole_system_overlay_rule rules)

-- What follows the loop that fills the tree.
unfoldable pub add_layers :
    ModuleRecord
    → ModuleRulesView
    → PartitionLayout
    → List EntryDecision
    → PlanBuilder
    → Result PlanBuilder
add_layers m rules layout decisions b =
    if length (filter (has_mode overlay) decisions) == 0
    then ok (collected m decisions b)
    else if is_whole_overlay rules decisions
    then add_whole_overlay_layers m decisions layout b
    else (add_partial_layers m decisions layout b >>= λ b'. ok (collected m decisions b'))

unfoldable pub process_module :
    ModuleRecord → ModuleRulesView → PartitionLayout → PlanBuilder → Result PlanBuilder
process_module m rules layout b =
    let (blocked, operation_errors) =
      block_entries (protected_targets layout) m rules layout m.entries ([], b.operation_errors) in
    let (partition_errors, decisions) =
      decide_all blocked m rules layout m.entries (b.partition_errors, []) in
    place_all m layout decisions
      (record b { operation_errors = operation_errors; partition_errors = partition_errors })
    >>= add_layers m rules layout decisions
