-- ===== src/Tests/Actions.antt =====
-- A module that is unloaded, on a small kernel.
use meta_hybrid_mount.Runtime.Rules.Transaction
use meta_hybrid_mount.Runtime.Rules.{
  validate_snapshot, validate_unique, validate_unique_from, verify_present, semantic_equal,
  same_key, check_foreign, foreign_rules, check_foreign_rule, conflicts, derived_parent, ancestor,
  depth, explicit_rules, insert_ordered, ordered, precedes, remains, verify_gone, verify_result,
}
use meta_hybrid_mount.Runtime.Rules.Transaction.{
  preflight, introduced_rules, obsolete_rules, publish, replace_rules, restorable_rules, rollback,
  settle, verify_owned,
}
use meta_hybrid_mount.Vfs.Protocol.Encode.{without_derived, is_derived_parent}
use meta_hybrid_mount.Prelude.Sets.{set_insert, to_set}
use meta_hybrid_mount.Prelude.{ℕ, ◌≡◌, refl, false, ◌++◌, List, [], ◌∷◌}
use meta_hybrid_mount.Text.{bytes}
use meta_hybrid_mount.Errors.{ok}
use meta_hybrid_mount.Exec.{for_each}
use meta_hybrid_mount.Runtime.Ledger.{Ledger, fresh_ledger, require_ready, next_generation}
use meta_hybrid_mount.Runtime.Transaction.{
  checked_uids, verify_uids, apply_transaction, begin, conclude, desired_rules, fail, failed_ledger,
  intent, introduced_uids, recover, rules_recovered, run_transaction, shows_no_new, uids_recovered,
  withdraw_uids, Session, reconcile,
}
use meta_hybrid_mount.Vfs.BootGuard.{absent}
use meta_hybrid_mount.Runtime.Hot
use meta_hybrid_mount.Runtime.Hot.{Request, HotHost, unload, request, commit, apply_to}
use meta_hybrid_mount.Runtime.Hot.Replaced.{other_rules, IsRequested, apply-replaces}
use meta_hybrid_mount.Tests.Kernel.{Tables, table_kernel, table_uids, old_rule, other_rule, tables}
use meta_hybrid_mount.Tests.Plans.{layout}
use meta_hybrid_mount.Tests.Admission.{config}

-- What is saved is kept in a list, the last one in front.
abbrev host : HotHost Tables (List Ledger)
host = record {
  inspect = λ d. (ok absent, d);
  open_kernel = λ saved k. (ok (bytes "hm"), k);
  validate = λ mounts d. (ok tt, d);
  config_and_modules = λ d. (ok (config, []), d);
  detect = λ config d. (ok layout, d);
  exists = λ path. false;
  arm = λ d. (ok tt, d);
  drop_guard = λ d. d;
  save = λ ledger d. (ok tt, ledger ∷ d);
  refresh_snapshots = λ saved d. (ok tt, d);
  rules = table_kernel;
  isolation = table_uids;
}

abbrev session : Session Tables (List Ledger)
session = record {
  kernel = tables;
  disk = [];
  saved = record (fresh_ledger (bytes "boot") (bytes "ns")) {
    phase = bytes "ready";
    rules = old_rule ∷ other_rule ∷ [];
    isolated_uids = 5 ∷ [];
  };
}

unloaded_session : Session Tables (List Ledger)
unloaded_session = (Hot.apply host unload (bytes "m") session).1

abbrev one : ℕ
one = 1

unloads : Hot.apply host unload (bytes "m") session ≡ (ok one, unloaded_session)
unfolding unloaded_session Hot.apply apply_to commit request require_ready fresh_ledger reconcile
    Transaction.reconcile validate_snapshot validate_unique validate_unique_from verify_present
    semantic_equal same_key check_foreign foreign_rules check_foreign_rule conflicts derived_parent
    ancestor depth explicit_rules insert_ordered ordered precedes remains verify_gone verify_result
    preflight introduced_rules obsolete_rules publish replace_rules restorable_rules rollback settle
    verify_owned without_derived is_derived_parent for_each set_insert to_set checked_uids
    verify_uids apply_transaction begin conclude desired_rules fail failed_ledger intent
    introduced_uids recover rules_recovered run_transaction shows_no_new uids_recovered
    withdraw_uids
unloads = refl

apply-replaces_example :
    (r : Request) × IsRequested host unload (bytes "m") session.saved r
    × (unloaded_session.saved.rules ≡ other_rules (bytes "m") session.saved.rules ++ r.rules)
    × (one ≡ next_generation session.saved.generation)
    × (unloaded_session.saved.generation ≡ one)
    × (unloaded_session.saved.phase ≡ bytes "ready")
apply-replaces_example = apply-replaces host unload (bytes "m") session unloaded_session unloads
