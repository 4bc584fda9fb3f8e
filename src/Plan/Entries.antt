-- ===== src/Plan/Entries.antt =====
-- plan/mod.rs: which entries of a module the planner takes, and with which backend.
use meta_hybrid_mount.Prelude.{
  Bool, true, false, ◌&&◌, ◌||◌, not, Option, none, some, List, [], ◌∷◌, ◌++◌, ◌==◌, any,
  if◌then◌else◌, length,
}
use meta_hybrid_mount.Prelude.Sets.{to_set}
use meta_hybrid_mount.Text.{Text, bytes, text_eq}
use meta_hybrid_mount.Text.Split.{split_slash, path_join}
use meta_hybrid_mount.Text.Paths.{path_eq, path_lt, path_starts_with}
use meta_hybrid_mount.Config.{Mode, ignore, mode_eq}
use meta_hybrid_mount.Errors.{Result, ok, err}
use meta_hybrid_mount.MountTree.{NodeFileType, symlink, whiteout}
use meta_hybrid_mount.Partitions.{
  PartitionDiagnostic, OperationDiagnostic, PartitionLayout, get, contains_key, root_len,
  map_target,
}
use meta_hybrid_mount.Scanner.{ModuleEntry, ModuleRecord}
use meta_hybrid_mount.Plan.Modes.{ModuleRulesView, resolve_mode}

pub record EntryDecision : Type 0 where
  pub entry : ModuleEntry
  pub mode : Mode

abbrev pub is_ignored : ModuleRulesView → ModuleEntry → Bool
is_ignored rules e = mode_eq (resolve_mode rules e.relative) ignore

-- The paths that a rejected partition stands for.
abbrev pub rejected_paths : PartitionLayout → List (Text × PartitionDiagnostic) → List Text
rejected_paths layout [] = []
rejected_paths layout ((name, error) ∷ rest) =
    (if text_eq error.code (bytes "partition_missing")
      then []
      else path_join (bytes "/") name
        ∷ path_join (bytes "/system") name
        ∷ below (get (bytes "system") layout.roots))
    ++ rejected_paths layout rest
  where
    below : Option Text → List Text
    below none = []
    below (some system) = path_join system name ∷ []

unfoldable pub protected_targets : PartitionLayout → List Text
protected_targets layout =
    to_set path_lt (rejected_paths layout layout.errors ++ layout.mount_points)

abbrev pub is_whiteout : NodeFileType → Bool
is_whiteout whiteout = true
is_whiteout _ = false

abbrev pub is_symlink : NodeFileType → Bool
is_symlink symlink = true
is_symlink _ = false

abbrev pub target_of : Result (Text × Text) → Option Text
target_of (ok (partition, target)) = some target
target_of (err e) = none

abbrev pub diagnostic : ModuleRecord → ModuleEntry → Option Text → Text → Text → OperationDiagnostic
diagnostic m e target code reason = record {
  module_id = m.id;
  logical_path = e.relative;
  target = target;
  code = code;
  reason = reason;
}

-- The state of the first loop: the blocked subtrees and the errors.
abbrev pub Blocked : Type 0
Blocked = List Text × List OperationDiagnostic

abbrev pub marker_errors :
    ModuleRecord → ModuleEntry → PartitionLayout → Option Text → List OperationDiagnostic
marker_errors m e layout none = []
marker_errors m e layout (some reason) =
    diagnostic m e (target_of (map_target layout e.relative)) (bytes "invalid_remove_marker") reason
    ∷ []

abbrev pub is_root_removal : PartitionLayout → ModuleEntry → Bool
is_root_removal layout e =
    e.directory_remove && length (split_slash e.relative) == root_len layout e.relative

abbrev pub covers_protected : List Text → Text → ModuleEntry → Bool
covers_protected protected target e =
    (e.replace || (is_symlink e.file_type || is_whiteout e.file_type))
    && any (λ p. path_starts_with p target && (not (path_eq p target) || is_whiteout e.file_type))
        protected

unfoldable pub block_mapped :
    List Text → ModuleRecord → PartitionLayout → ModuleEntry → Option Text → Blocked → Blocked
block_mapped protected m layout e none s = s
block_mapped protected m layout e (some target) (blocked, errors) =
    if is_root_removal layout e
    then (
      blocked ++ e.relative ∷ [],
      errors
          ++ diagnostic m e (some target) (bytes "partition_root_remove")
              (bytes "directory .remove is not allowed at a partition root")
            ∷ [],
    )
    else if covers_protected protected target e
    then (
      blocked ++ e.relative ∷ [],
      errors
          ++ diagnostic m e (some target)
              (if e.directory_remove
                then bytes "protected_submount_remove"
                else bytes "protected_ancestor")
              (bytes
                "replacement or deletion would cover a rejected partition or an existing child mount")
            ∷ [],
    )
    else (blocked, errors)

-- One round of the first loop of `process_module`.
unfoldable pub block_entry :
    List Text → ModuleRecord → ModuleRulesView → PartitionLayout → ModuleEntry → Blocked → Blocked
block_entry protected m rules layout e (blocked, errors) =
    if is_ignored rules e
    then (blocked, errors)
    else block_mapped protected m layout e (target_of (map_target layout e.relative))
        (blocked, errors ++ marker_errors m e layout e.marker_error)

unfoldable pub block_entries :
    List Text
    → ModuleRecord
    → ModuleRulesView
    → PartitionLayout
    → List ModuleEntry
    → Blocked
    → Blocked
block_entries protected m rules layout [] s = s
block_entries protected m rules layout (e ∷ rest) s =
    block_entries protected m rules layout rest (block_entry protected m rules layout e s)

abbrev pub is_path : Option Text → Text → Bool
is_path none path = false
is_path (some target) path = path_eq target path

abbrev pub promoted : PartitionLayout → ModuleEntry → List Text → Bool
promoted layout e (first ∷ partition ∷ []) =
    text_eq first (bytes "system")
    && (contains_key partition layout.roots && is_path e.link_target (bytes "../" ++ partition))
promoted layout e _ = false

unfoldable pub is_promoted_partition_alias : ModuleEntry → PartitionLayout → Bool
is_promoted_partition_alias e layout =
    if is_symlink e.file_type then promoted layout e (split_slash e.relative) else false

abbrev pub self_alias : PartitionLayout → ModuleEntry → List Text → Bool
self_alias layout e (partition ∷ again ∷ []) =
    contains_key partition layout.roots
    && (text_eq again partition
        && (is_path e.link_target (bytes "./system/" ++ partition)
            || is_path e.link_target (bytes "system/" ++ partition)))
self_alias layout e _ = false

unfoldable pub is_redundant_partition_self_alias : ModuleEntry → PartitionLayout → Bool
is_redundant_partition_self_alias e layout =
    if is_symlink e.file_type then self_alias layout e (split_slash e.relative) else false
