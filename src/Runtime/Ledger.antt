-- ===== src/Runtime/Ledger.antt =====
-- runtime/ledger.rs: the boot-scoped record of what a session owns. The saved error, a text in the
-- source, is the error that the text describes.
pub mod Ownership
use meta_hybrid_mount.Prelude.{
  ℕ, ◌+◌, ◌%◌, Bool, true, false, ◌&&◌, ◌||◌, not, Option, none, some, List, [], ◌∷◌, ◌++◌, map,
  ◌==◌, if◌then◌else◌, any,
}
use meta_hybrid_mount.Prelude.Sets.{to_set}
use meta_hybrid_mount.Text.{Text, bytes, text_eq, text_lt, is_empty}
use meta_hybrid_mount.Errors.{
  Error, Result, ok, err, not_clean, not_ready, legacy_registrations, namespace_changed,
  unsupported_ledger, invalid_phase,
}
use meta_hybrid_mount.Exec.{Exec, pure, lift, ◌>>=◌, ◌>>◌}
use meta_hybrid_mount.Partitions.{PartitionLayout}
use meta_hybrid_mount.State.{AppModule}
use meta_hybrid_mount.Runtime.Rules.{SavedRule}

-- The `i32` mount ids are opaque bit patterns.
pub record OwnedMount : Type 0 where
  pub target : Text
  pub id : ℕ
  pub baseline_ids : List ℕ
  pub device : Text
  pub fs_type : Text
  pub source : Option Text

pub record Ledger : Type 0 where
  pub version : ℕ
  pub boot_id : Text
  pub namespace : Text
  pub generation : ℕ
  pub phase : Text
  pub vfs_provider : Option Text
  pub partition_layout : Option PartitionLayout
  pub rules : List SavedRule
  pub pending_rules : List SavedRule
  pub mounts : List OwnedMount
  pub ksu_unmounts : Option (List Text)
  pub non_vfs_modules : List Text
  pub modules : List AppModule
  pub isolated_uids : List ℕ
  pub error : Option Error

-- `generation += 1` on a `u64`, which wraps.
abbrev pub next_generation : ℕ → ℕ
next_generation generation = (generation + 1) % 18446744073709551616

-- Whether KernelSU registrations are recorded as owned.
abbrev has_registrations : Option (List Text) → Bool
has_registrations none = false
has_registrations (some paths) = not (is_empty paths)

unfoldable pub require_clean : Ledger → Result (Unit {0})
require_clean saved =
    if not (text_eq saved.phase (bytes "clean"))
      || (not (is_empty saved.pending_rules)
          || (not (is_empty saved.rules)
              || (not (is_empty saved.mounts)
                  || (not (is_empty saved.isolated_uids) || has_registrations saved.ksu_unmounts))))
    then err not_clean
    else ok tt

unfoldable pub require_ready : Ledger → Result (Unit {0})
require_ready saved =
    if not (text_eq saved.phase (bytes "ready")) then err (not_ready saved.phase) else ok tt

unfoldable pub owned_unmounts : Ledger → Result (List Text)
owned_unmounts saved = elim saved.ksu_unmounts [
  | some paths ↦ ok paths
  | none ↦ if is_empty saved.mounts then ok [] else err legacy_registrations
]

-- The state of the two closures, and the ledger beside it.
unfoldable pub release_mount_resources :
    {W : Type 0}
    → (List OwnedMount → Exec W (Unit {0}))
    → (List Text → Exec W (Unit {0}))
    → Exec (Ledger × W) (Unit {0})
release_mount_resources {W} detach release = do
  registrations ← λ s. (owned_unmounts s.0, s)
  λ s. let (r, w) = detach s.0.mounts s.1 in (r, (s.0, w))
  λ s. let (r, w) = release registrations s.1 in (r, (s.0, w))
  λ s. (ok tt, (record (s.0) { mounts = []; ksu_unmounts = some [] }, s.1))

unfoldable pub owned_module_ids : Ledger → List Text
owned_module_ids ledger =
    to_set text_lt
      (ledger.non_vfs_modules ++ map (λ (rule : SavedRule). rule.module_id) ledger.rules)

unfoldable pub is_known_phase : Text → Bool
is_known_phase phase = any (text_eq phase) (
    bytes "clean"
    ∷ bytes "applying"
    ∷ bytes "ready"
    ∷ bytes "syncing"
    ∷ bytes "cleaning"
    ∷ bytes "error"
    ∷ [])

-- `Ledger::default()` with the fields that a new boot sets.
unfoldable pub fresh_ledger : Text → Text → Ledger
fresh_ledger boot_id namespace = record {
  version = 1;
  boot_id = boot_id;
  namespace = namespace;
  generation = 0;
  phase = bytes "clean";
  vfs_provider = none;
  partition_layout = none;
  rules = [];
  pending_rules = [];
  mounts = [];
  ksu_unmounts = some [];
  non_vfs_modules = [];
  modules = [];
  isolated_uids = [];
  error = none;
}

-- The checks of a ledger that this boot wrote.
unfoldable pub reuse_ledger : Ledger → Text → Result Ledger
reuse_ledger saved namespace =
    if not (text_eq saved.namespace namespace)
    then err namespace_changed
    else if not (saved.version == 1)
    then err unsupported_ledger
    else if not (is_known_phase saved.phase)
    then err invalid_phase
    else ok saved

unfoldable pub ledger_for_boot : Option Ledger → Text → Text → Result Ledger
ledger_for_boot none boot_id namespace = ok (fresh_ledger boot_id namespace)
ledger_for_boot (some saved) boot_id namespace =
    if text_eq saved.boot_id boot_id
    then reuse_ledger saved namespace
    else ok (fresh_ledger boot_id namespace)
