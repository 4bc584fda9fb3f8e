-- ===== src/Tests/Boot.antt =====
-- A soft reboot and the end of a boot on a small kernel.
use meta_hybrid_mount.Runtime.Boot.Release.{
  cleanup, give_up, already_clean, settle_cleanup, cleanup_owned, release_rules, release_remaining,
  Host,
}
use meta_hybrid_mount.Runtime.Boot.{
  remaining_rules, finish_with, concluded, observed_ownership, captured, BootOutcome,
}
use meta_hybrid_mount.Runtime.Lifecycle.{owned_uids, confirm_boot_rules, contains_uid}
use meta_hybrid_mount.Runtime.Ledger.{
  release_mount_resources, owned_unmounts, require_clean, fresh_ledger, Ledger,
}
use meta_hybrid_mount.Runtime.Rules.{
  validate_unique, validate_unique_from, verify_present, semantic_equal, same_key, check_foreign,
  foreign_rules, check_foreign_rule, conflicts, derived_parent, ancestor, depth, explicit_rules,
  insert_ordered, ordered, precedes, remains, verify_gone, verify_result, validate_snapshot,
}
use meta_hybrid_mount.Vfs.Protocol.Encode.{without_derived, is_derived_parent}
use meta_hybrid_mount.Exec.{for_each}
use meta_hybrid_mount.Runtime.Rules.Transaction.{
  obsolete_rules, publish, replace_rules, settle, reconcile,
}
use meta_hybrid_mount.Prelude.{ℕ, ◌≡◌, ◌↔◌, refl, true, ◌&&◌, not, [], ◌∷◌, none, some, In, any}
use meta_hybrid_mount.Text.{bytes}
use meta_hybrid_mount.Errors.{ok}
use meta_hybrid_mount.Runtime.Lifecycle.Confirmed.{AreConfirmed, finish_with-ready}
use meta_hybrid_mount.Runtime.Boot.Cleanup.{cleanup-clean}
use meta_hybrid_mount.Tests.Kernel.{Tables, table_kernel, table_uids, old_rule, tables}

abbrev host : Host Tables
host = record {
  open_kernel = λ saved w. (ok tt, w);
  mount_entries = λ w. (ok tt, w);
  save = λ saved w. (ok tt, w);
  rules = table_kernel;
  isolation = table_uids;
  arm = λ w. (ok tt, w);
  drop_guard = λ w. w;
  report_untracked = λ w. (ok [], w);
  validate = λ mounts w. (ok tt, w);
  detach = λ mounts w. (ok tt, w);
  release_unmounts = λ paths w. (ok tt, w);
  remove_semaphore = λ w. (ok tt, w);
  refresh_snapshots = λ saved w. (ok tt, w);
}

abbrev ready : Ledger
ready = record {
  version = 1;
  boot_id = bytes "boot";
  namespace = bytes "ns";
  generation = 3;
  phase = bytes "ready";
  vfs_provider = some (bytes "hm");
  partition_layout = none;
  rules = old_rule ∷ [];
  pending_rules = [];
  mounts = [];
  ksu_unmounts = some (bytes "/system" ∷ []);
  non_vfs_modules = bytes "z" ∷ [];
  modules = [];
  isolated_uids = 5 ∷ [];
  error = none;
}

abbrev after_cleanup : Ledger
after_cleanup = record ready {
  phase = bytes "clean";
  vfs_provider = none;
  rules = [];
  ksu_unmounts = some [];
  non_vfs_modules = [];
  isolated_uids = [];
}

after_kernel : Tables
after_kernel = (cleanup host (ready, tables)).1.1

cleans : cleanup host (ready, tables) ≡ (ok tt, (after_cleanup, after_kernel))
unfolding fresh_ledger cleanup give_up already_clean settle_cleanup cleanup_owned release_rules
    release_remaining remaining_rules finish_with concluded observed_ownership captured owned_uids
    confirm_boot_rules release_mount_resources owned_unmounts require_clean validate_unique
    validate_unique_from verify_present semantic_equal same_key check_foreign foreign_rules
    check_foreign_rule conflicts derived_parent ancestor depth explicit_rules insert_ordered ordered
    precedes remains verify_gone verify_result validate_snapshot without_derived is_derived_parent
    for_each obsolete_rules publish replace_rules settle reconcile after_kernel
cleans = refl

cleanup-clean_example : require_clean after_cleanup ≡ ok tt
cleanup-clean_example = cleanup-clean host (ready, tables) (after_cleanup, after_kernel) cleans

abbrev outcome : BootOutcome
outcome = record {
  mounts = [];
  unmounts = [];
  vfs_active_mounts = old_rule.virtual_path ∷ [];
  original_uids = 4 ∷ [];
  successful = true;
  modules = [];
}

abbrev planned : Ledger
planned = record ready {
  phase = bytes "applying";
  rules = [];
  pending_rules = old_rule ∷ [];
  isolated_uids = 5 ∷ 4 ∷ [];
}

is_ready : (finish_with outcome (old_rule ∷ []) (4 ∷ 5 ∷ []) planned).1.phase ≡ bytes "ready"
unfolding fresh_ledger cleanup give_up already_clean settle_cleanup cleanup_owned release_rules
    release_remaining remaining_rules finish_with concluded observed_ownership captured owned_uids
    confirm_boot_rules release_mount_resources owned_unmounts require_clean validate_unique
    validate_unique_from verify_present semantic_equal same_key check_foreign foreign_rules
    check_foreign_rule conflicts derived_parent ancestor depth explicit_rules insert_ordered ordered
    precedes remains verify_gone verify_result validate_snapshot without_derived is_derived_parent
    for_each obsolete_rules publish replace_rules settle reconcile
is_ready = refl

abbrev five : ℕ
five = 5

finish_with-ready_example :
    (true ≡ true)
    × AreConfirmed
        (captured outcome planned).pending_rules
        (old_rule ∷ [])
        outcome.vfs_active_mounts
    × (In old_rule (finish_with outcome (old_rule ∷ []) (4 ∷ 5 ∷ []) planned).1.rules ↔ (
        In old_rule (captured outcome planned).pending_rules
        × (any (semantic_equal old_rule) (old_rule ∷ []) ≡ true)))
    × (In five (finish_with outcome (old_rule ∷ []) (4 ∷ 5 ∷ []) planned).1.isolated_uids ↔ (
        In five (4 ∷ 5 ∷ [])
        × (contains_uid (captured outcome planned).isolated_uids five
              && not (contains_uid outcome.original_uids five)
            ≡ true)))
finish_with-ready_example =
    finish_with-ready outcome (old_rule ∷ []) (4 ∷ 5 ∷ []) planned old_rule 5 is_ready
