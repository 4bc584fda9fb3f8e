-- ===== src/Plan/Process.antt =====
-- plan/mod.rs: `process_module`, which plans the entries of one module.
pub mod Ancestors
use meta_hybrid_mount.Prelude.{
  ℕ, zero, suc, Bool, false, ◌||◌, Option, none, some, List, [], ◌∷◌, ◌++◌, ◌==◌, if◌then◌else◌,
  length, any,
}
use meta_hybrid_mount.Prelude.Sets.{set_insert}
use meta_hybrid_mount.Text.{Text, slash, text_eq, text_lt}
use meta_hybrid_mount.Text.Split.{split_slash, path_join}
use meta_hybrid_mount.Text.Maps.{update}
use meta_hybrid_mount.Config.{Mode, magic, vfs, ignore, mode_eq}
use meta_hybrid_mount.Errors.{Result, ok, ◌>>=◌}
use meta_hybrid_mount.MountTree.{MountSource, insert}
use meta_hybrid_mount.Partitions.{
  PartitionDiagnostic, PartitionLayout, get, logical_partition, map_target,
}
use meta_hybrid_mount.Scanner.{ModuleEntry, ModuleRecord}
use meta_hybrid_mount.Plan.Modes.{ModuleRulesView, resolve_mode, is_same_or_below}
use meta_hybrid_mount.Plan.Register.{register}
use meta_hybrid_mount.Plan.Builder.{PlanBuilder}
use meta_hybrid_mount.Plan.Entries.{
  EntryDecision, is_promoted_partition_alias, is_redundant_partition_self_alias,
}

abbrev pub add_module : Text → List Text → List Text
add_module id modules = if any (text_eq id) modules then modules else modules ++ id ∷ []

-- The diagnostic of a rejected partition, a copy of the layout's where there is none yet, with the
-- module among those that it names.
abbrev pub naming : Text → PartitionDiagnostic → Option PartitionDiagnostic → PartitionDiagnostic
naming id error none = record error { modules = add_module id error.modules }
naming id error (some there) = record there { modules = add_module id there.modules }

-- The state of the second loop.
abbrev pub Decided : Type 0
Decided = List (Text × PartitionDiagnostic) × List EntryDecision

abbrev pub report_partition :
    Text
    → Text
    → Mode
    → PartitionDiagnostic
    → List (Text × PartitionDiagnostic)
    → List (Text × PartitionDiagnostic)
report_partition id partition mode error errors =
    if mode_eq mode ignore then errors else update partition (naming id error) errors

unfoldable pub decide_in :
    Text
    → Text
    → Mode
    → PartitionLayout
    → ModuleEntry
    → Option PartitionDiagnostic
    → Decided
    → Decided
decide_in id partition mode layout e (some error) (errors, decisions) =
    (report_partition id partition mode error errors, decisions)
decide_in id partition mode layout e none (errors, decisions) =
    if is_promoted_partition_alias e layout || is_redundant_partition_self_alias e layout
    then (errors, decisions)
    else (errors, decisions ++ record { entry = e; mode = mode } ∷ [])

-- One round of the second loop.
unfoldable pub decide :
    List Text → ModuleRecord → ModuleRulesView → PartitionLayout → ModuleEntry → Decided → Decided
decide blocked m rules layout e s =
    if any (is_same_or_below e.relative) blocked
    then s
    else decide_in m.id (logical_partition layout e.relative) (resolve_mode rules e.relative) layout
        e (get (logical_partition layout e.relative) layout.errors) s

unfoldable pub decide_all :
    List Text
    → ModuleRecord
    → ModuleRulesView
    → PartitionLayout
    → List ModuleEntry
    → Decided
    → Decided
decide_all blocked m rules layout [] s = s
decide_all blocked m rules layout (e ∷ rest) s =
    decide_all blocked m rules layout rest (decide blocked m rules layout e s)

unfoldable pub join_relative : Text → Text → Text
join_relative root relative = join_parts root (split_slash relative)
  where
    join_parts : Text → List Text → Text
    join_parts path [] = path
    join_parts path (c ∷ cs) = join_parts (path_join path c) cs

abbrev pub source_of : ModuleRecord → EntryDecision → MountSource
source_of m d = record {
  module_id = m.id;
  relative = d.entry.relative;
  source_path = join_relative m.source_path d.entry.relative;
  file_type = d.entry.file_type;
  replace = d.entry.replace;
  backend = d.mode;
}

abbrev pub planted : ModuleRecord → EntryDecision → Text → PlanBuilder → PlanBuilder
planted m d target b = record b { tree = insert target (source_of m d) b.tree }

-- One round of the loop that fills the tree and looks for conflicts.
unfoldable pub place :
    ModuleRecord → PartitionLayout → EntryDecision → PlanBuilder → Result PlanBuilder
place m layout d b = map_target layout d.entry.relative >>= λ mapped.
    (let planted_builder = planted m d mapped.1 b in
      if mode_eq d.mode ignore
      then ok planted_builder
      else (register mapped.1 d.mode m.id d.entry.relative d.entry.file_type d.entry.replace
            b.assignments
          >>= λ assignments. ok (record planted_builder { assignments = assignments })))

unfoldable pub place_all :
    ModuleRecord → PartitionLayout → List EntryDecision → PlanBuilder → Result PlanBuilder
place_all m layout [] b = ok b
place_all m layout (d ∷ rest) b = place m layout d b >>= place_all m layout rest

abbrev pub has_mode : Mode → EntryDecision → Bool
has_mode mode d = mode_eq d.mode mode

unfoldable pub collect_magic : ModuleRecord → List EntryDecision → PlanBuilder → PlanBuilder
collect_magic m decisions b =
    if any (has_mode magic) decisions
    then record b { magic_module_ids = set_insert text_lt m.id b.magic_module_ids }
    else b

unfoldable pub collect_vfs : ModuleRecord → List EntryDecision → PlanBuilder → PlanBuilder
collect_vfs m decisions b =
    if any (has_mode vfs) decisions
    then record b { vfs_module_ids = set_insert text_lt m.id b.vfs_module_ids }
    else b

abbrev pub in_front : ℕ → Bool → Option Text → Option Text
in_front c is_last none = if is_last then some [] else none
in_front c is_last (some parent) = some (c ∷ parent)

-- What stands before the last `/`.
unfoldable pub parent_of : Text → Option Text
parent_of [] = none
parent_of (c ∷ s) = in_front c (c == slash) (parent_of s)

-- The rounds of the loop, from the longest parent; each is shorter than the one before.
unfoldable pub has_ancestor_in : ℕ → List Text → Option Text → Bool
has_ancestor_in fuel paths none = false
has_ancestor_in zero paths (some parent) = false
has_ancestor_in (suc fuel) paths (some parent) =
    any (text_eq parent) paths || has_ancestor_in fuel paths (parent_of parent)

unfoldable pub has_overlay_ancestor : Text → List Text → Bool
has_overlay_ancestor relative paths = has_ancestor_in (length relative) paths (parent_of relative)
