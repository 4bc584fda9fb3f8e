-- ===== src/Runtime/Policy.antt =====
-- runtime/policy.rs: which module a hot operation may load, and against which layout.
pub mod Admitted
use meta_hybrid_mount.Prelude.{
  ℕ, Bool, true, false, ◌&&◌, ◌||◌, not, Option, none, some, List, [], ◌∷◌, ◌==◌, leb, any, filter,
  length, if◌then◌else◌,
}
use meta_hybrid_mount.Prelude.Sets.{set_insert}
use meta_hybrid_mount.Text.{Text, bytes, text_eq, text_lt, is_empty}
use meta_hybrid_mount.Text.Split.{path_join}
use meta_hybrid_mount.Text.Paths.{path_components, path_eq, path_starts_with}
use meta_hybrid_mount.Config.{Mode, vfs, ignore, mode_eq, Config}
use meta_hybrid_mount.Errors.{
  Result, ok, err, ◌>>=◌, ◌>>◌, forbid, layout_unknown, layout_changed, active_elsewhere,
  module_excluded, not_pure_vfs, mixed_backends, target_overlaps_mount,
}
use meta_hybrid_mount.Partitions.{
  PartitionDiagnostic, SubtreeEntry, PartitionIdentity, PartitionLayout, get, logical_partition,
}
use meta_hybrid_mount.Scanner.{ModuleEntry, ModuleRecord}
use meta_hybrid_mount.Plan.Modes.{ModuleRulesView, new_view, resolve_mode, is_same_or_below}
use meta_hybrid_mount.Plan.Builder.{MountPlan}
use meta_hybrid_mount.Plan.Build.{PlanInput, is_module_blacklisted, build_plan}
use meta_hybrid_mount.Vfs.Rule.{VfsRule, build_vfs_rules}
use meta_hybrid_mount.Vfs.Protocol.Encode.{EncodedRule, encode_rule}
use meta_hybrid_mount.Text.Utf8.{from_utf8_lossy}
use meta_hybrid_mount.Runtime.Rules.{SavedRule}
use meta_hybrid_mount.Runtime.Ledger.{Ledger, OwnedMount}

unfoldable pub paths_overlap : Text → Text → Bool
paths_overlap a b = is_same_or_below a b || is_same_or_below b a

abbrev pub same_error : Option PartitionDiagnostic → Option PartitionDiagnostic → Bool
same_error none none = true
same_error (some a) (some b) = text_eq a.code b.code && text_eq a.reason b.reason
same_error _ _ = false

abbrev pub same_root : Option Text → Option Text → Bool
same_root none none = true
same_root (some a) (some b) = path_eq a b
same_root _ _ = false

abbrev pub same_entry : Text × SubtreeEntry → Text × SubtreeEntry → Bool
same_entry (rel, a) (rel', b) =
    path_eq rel rel'
    && (a.dev == b.dev && (a.ino == b.ino && (text_eq a.majmin b.majmin && path_eq a.root b.root)))

unfoldable pub same_subtree : List (Text × SubtreeEntry) → List (Text × SubtreeEntry) → Bool
same_subtree [] [] = true
same_subtree (a ∷ more) (b ∷ others) = same_entry a b && same_subtree more others
same_subtree _ _ = false

-- The child mounts that are not the session's own.
unfoldable pub foreign_subtree : List OwnedMount → PartitionIdentity → List (Text × SubtreeEntry)
foreign_subtree mounts id =
    filter
      (λ (e : Text × SubtreeEntry).
        not (any (λ (m : OwnedMount). path_eq m.target (path_join id.canonical e.0)) mounts))
      id.subtree

abbrev pub same_identity :
    List OwnedMount → Option PartitionIdentity → Option PartitionIdentity → Bool
same_identity mounts none none = true
same_identity mounts (some a) (some b) =
    path_eq a.canonical b.canonical
    && (a.dev == b.dev
        && (a.ino == b.ino && same_subtree (foreign_subtree mounts a) (foreign_subtree mounts b)))
same_identity mounts _ _ = false

-- Whether a partition is what it was at boot.
unfoldable pub is_unchanged : PartitionLayout → PartitionLayout → List OwnedMount → Text → Bool
is_unchanged baseline current mounts name =
    same_root (get name baseline.roots) (get name current.roots)
    && (same_error (get name baseline.errors) (get name current.errors)
        && same_identity mounts (get name baseline.identities) (get name current.identities))

unfoldable pub ensure_unchanged :
    PartitionLayout → PartitionLayout → List OwnedMount → List Text → Result (Unit {0})
ensure_unchanged baseline current mounts [] = ok tt
ensure_unchanged baseline current mounts (name ∷ rest) =
    forbid (not (is_unchanged baseline current mounts name)) (layout_changed name)
    >> ensure_unchanged baseline current mounts rest

abbrev pub against_baseline :
    PartitionLayout → List OwnedMount → List Text → Option PartitionLayout → Result (Unit {0})
against_baseline current mounts relevant none = err layout_unknown
against_baseline current mounts relevant (some baseline) =
    ensure_unchanged baseline current mounts relevant

unfoldable pub ensure_layout_unchanged : PartitionLayout → Ledger → List Text → Result (Unit {0})
ensure_layout_unchanged current saved relevant =
    against_baseline current saved.mounts relevant saved.partition_layout

-- The loop over the entries: every one is ignored or for the VFS.
unfoldable pub relevant_partitions :
    ModuleRulesView → PartitionLayout → List ModuleEntry → List Text → Result (List Text)
relevant_partitions rules layout [] relevant = ok relevant
relevant_partitions rules layout (e ∷ rest) relevant =
    if mode_eq (resolve_mode rules e.relative) ignore
    then relevant_partitions rules layout rest relevant
    else (forbid (not (mode_eq (resolve_mode rules e.relative) vfs)) not_pure_vfs
        >> relevant_partitions rules layout rest
            (set_insert text_lt (logical_partition layout e.relative) relevant))

-- `max_by_key` on the number of components, which keeps the last of the longest.
abbrev pub longer_root : Option (Text × Text) → Text × Text → Option (Text × Text)
longer_root none root = some root
longer_root (some best) root =
    if leb (length (path_components best.1)) (length (path_components root.1))
    then some root
    else some best

unfoldable pub partition_under :
    Text → Option (Text × Text) → List (Text × Text) → Option (Text × Text)
partition_under path best [] = best
partition_under path best (root ∷ rest) =
    partition_under path (if path_starts_with path root.1 then longer_root best root else best) rest

abbrev pub add_partition : Option (Text × Text) → List Text → List Text
add_partition none relevant = relevant
add_partition (some (name, root)) relevant = set_insert text_lt name relevant

unfoldable pub owned_partitions : List (Text × Text) → Text → List SavedRule → List Text → List Text
owned_partitions roots id [] relevant = relevant
owned_partitions roots id (rule ∷ rest) relevant = owned_partitions roots id rest (
    if text_eq rule.module_id id
    then add_partition (partition_under rule.virtual_path none roots) relevant
    else relevant)

abbrev pub with_owned : Option PartitionLayout → Text → List SavedRule → List Text → List Text
with_owned none id rules relevant = relevant
with_owned (some baseline) id rules relevant = owned_partitions baseline.roots id rules relevant

unfoldable pub check_targets : List OwnedMount → List VfsRule → Result (Unit {0})
check_targets mounts [] = ok tt
check_targets mounts (rule ∷ rest) = encode_rule rule >>= λ encoded.
    (let target = from_utf8_lossy encoded.virtual_path in
      forbid (any (λ (m : OwnedMount). paths_overlap target m.target) mounts)
        (target_overlaps_mount target)
      >> check_targets mounts rest)

-- `exists` is `Path::exists`.
unfoldable pub plan_hot_module :
    (Text → Bool) → ModuleRecord → Config → PartitionLayout → Ledger → Result MountPlan
plan_hot_module exists m config layout saved = do
  forbid (any (text_eq m.id) saved.non_vfs_modules) active_elsewhere
  forbid
      (m.skip_mount
        || (is_module_blacklisted config m.id || exists (path_join m.source_path (bytes "remove"))))
      module_excluded
  relevant ← relevant_partitions (new_view m.id config true) layout m.entries []
  ensure_layout_unchanged layout saved (with_owned saved.partition_layout m.id saved.rules relevant)
  plan ← build_plan record {
    modules = record m { disabled = false } ∷ [];
    config = config;
    layout = layout;
    vfs_available = true;
  }
  forbid
      (not (is_empty plan.magic_module_ids)
        || (not (is_empty plan.overlay_module_ids) || is_empty plan.vfs_module_ids))
      mixed_backends
  check_targets saved.mounts (build_vfs_rules plan.tree)
  ok plan
