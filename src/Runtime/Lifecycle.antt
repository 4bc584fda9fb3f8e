-- ===== src/Runtime/Lifecycle.antt =====
-- runtime/lifecycle.rs: the pure checks of a boot and of a soft reboot.
pub mod Confirmed
use meta_hybrid_mount.Prelude.{
  ℕ, Bool, true, false, ◌&&◌, ◌||◌, not, Option, none, some, List, [], ◌∷◌, ◌++◌, ◌==◌, any, find,
  filter, map, if◌then◌else◌,
}
use meta_hybrid_mount.Prelude.Sets.{to_set}
use meta_hybrid_mount.Text.{Text, bytes, text_eq, text_lt, is_empty, strip_prefix}
use meta_hybrid_mount.Errors.{◌>>◌, Result, ok, err, unplanned_target, rule_changed_before_commit}
use meta_hybrid_mount.State.Run.{RunState}
use meta_hybrid_mount.Runtime.Rules.{SavedRule, semantic_equal}

pub record LegacyConflict : Type 0 where
  pub target : Text
  pub fs_type : Text
  pub source : Option Text

-- A live mount: its target, the type of its filesystem and its source.
pub record LiveMount : Type 0 where
  pub target : Text
  pub fs_type : Text
  pub source : Option Text

-- `defs::MANAGED_PARTITIONS` is an argument.
abbrev pub is_partition_path : List Text → Text → Bool
is_partition_path managed target =
    text_eq target (bytes "/system") || named (strip_prefix (bytes "/") target)
  where
    named : Option Text → Bool
    named none = false
    named (some name) = any (text_eq name) managed

abbrev pub is_block_device : Option Text → Bool
is_block_device none = false
is_block_device (some source) = starts (strip_prefix (bytes "/dev/block/") source)
  where
    starts : Option Text → Bool
    starts none = false
    starts (some rest) = true

unfoldable pub is_stock_partition : List Text → LiveMount → Bool
is_stock_partition managed mount =
    is_partition_path managed mount.target
    && ((text_eq mount.fs_type (bytes "ext4") || text_eq mount.fs_type (bytes "erofs"))
        && is_block_device mount.source)

unfoldable pub recorded_targets : RunState → List Text
recorded_targets state = to_set text_lt (
    (if is_empty state.mount_point then [] else state.mount_point ∷ [])
    ++ (state.overlay_active_mounts ++ (state.magic_active_mounts ++ state.leftover_mount_targets)))

abbrev pub conflict_of : LiveMount → LegacyConflict
conflict_of mount = record { target = mount.target; fs_type = mount.fs_type; source = mount.source }

unfoldable pub conflicts_at : List Text → List LiveMount → List Text → List LegacyConflict
conflicts_at managed live [] = []
conflicts_at managed live (target ∷ rest) =
    map conflict_of (
      filter (λ (m : LiveMount). text_eq m.target target && not (is_stock_partition managed m))
        live)
    ++ conflicts_at managed live rest

unfoldable pub legacy_mount_conflicts : List Text → RunState → List LiveMount → List LegacyConflict
legacy_mount_conflicts managed state live = conflicts_at managed live (recorded_targets state)

unfoldable pub legacy_snapshot_reachable : Option Text → Text → Bool
legacy_snapshot_reachable none current_boot_id = true
legacy_snapshot_reachable (some boot_id) current_boot_id = text_eq boot_id current_boot_id

abbrev pub contains_uid : List ℕ → ℕ → Bool
contains_uid uids uid = any (λ u. u == uid) uids

unfoldable pub owned_uids : List ℕ → List ℕ → List ℕ → List ℕ
owned_uids requested original observed =
    filter (λ uid. contains_uid requested uid && not (contains_uid original uid)) observed

abbrev pub confirm_target : List SavedRule → Text → Option SavedRule → Result (Unit {0})
confirm_target observed target none = err (unplanned_target target)
confirm_target observed target (some expected) =
    if any (semantic_equal expected) observed
    then ok tt
    else err (rule_changed_before_commit target)

unfoldable pub confirm_boot_rules : List SavedRule → List Text → List SavedRule → Result (Unit {0})
confirm_boot_rules planned [] observed = ok tt
confirm_boot_rules planned (target ∷ rest) observed =
    confirm_target observed target (find (λ (r : SavedRule). text_eq r.virtual_path target) planned)
    >> confirm_boot_rules planned rest observed
