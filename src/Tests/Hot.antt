-- ===== src/Tests/Hot.antt =====
-- The module transaction on a small kernel: one run that succeeds, and one that cannot isolate.
use meta_hybrid_mount.Runtime.Rules.Transaction
use meta_hybrid_mount.Runtime.Rules.{
  validate_snapshot, validate_unique, validate_unique_from, verify_present, semantic_equal,
  same_key, check_foreign, foreign_rules, check_foreign_rule, conflicts, derived_parent, ancestor,
  depth, explicit_rules, insert_ordered, ordered, precedes, remains, verify_gone, verify_result,
}
use meta_hybrid_mount.Runtime.Rules.Transaction.{
  preflight, introduced_rules, obsolete_rules, publish, replace_rules, restorable_rules, rollback,
  settle, verify_owned,
}
use meta_hybrid_mount.Vfs.Protocol.Encode.{without_derived, is_derived_parent}
use meta_hybrid_mount.Prelude.Sets.{set_insert, to_set}
use meta_hybrid_mount.Prelude.{ℕ, ℕ, ◌≡◌, ◌⊎◌, refl, true, List, [], ◌∷◌}
use meta_hybrid_mount.Text.{bytes}
use meta_hybrid_mount.Errors.{ok, err, os_error, hot_transaction_failed}
use meta_hybrid_mount.Exec.{for_each, Exec}
use meta_hybrid_mount.Runtime.Ledger.{Ledger, fresh_ledger}
use meta_hybrid_mount.Runtime.Transaction.{
  checked_uids, verify_uids, apply_transaction, begin, conclude, desired_rules, fail, failed_ledger,
  intent, introduced_uids, recover, rules_recovered, run_transaction, shows_no_new, uids_recovered,
  withdraw_uids, Session, contains, reconcile,
}
use meta_hybrid_mount.Runtime.Transaction.Commit.{IsCommitted, reconcile-IsCommitted}
use meta_hybrid_mount.Runtime.Transaction.Recovery.{Failure, reconcile-Failure}
use meta_hybrid_mount.Runtime.Transaction.Isolation.{IsRetained, IsWithdrawn, reconcile-Retained}
use meta_hybrid_mount.Tests.Kernel.{
  Tables, table_kernel, table_uids, failing_uids, old_rule, new_rule, tables,
}

-- What is saved is kept in a list, the last one in front.
abbrev persist : Ledger → Exec (List Ledger) (Unit {0})
persist ledger disk = (ok tt, ledger ∷ disk)

abbrev session : Session Tables (List Ledger)
session = record {
  kernel = tables;
  disk = [];
  saved = record (fresh_ledger (bytes "boot") (bytes "ns")) {
    phase = bytes "ready";
    rules = old_rule ∷ [];
    isolated_uids = 5 ∷ [];
  };
}

abbrev committed_session : Session Tables (List Ledger)
unfolding reconcile
committed_session =
    (reconcile table_kernel table_uids persist (old_rule ∷ []) (new_rule ∷ []) (7 ∷ []) session).1

committed_run :
    reconcile table_kernel table_uids persist (old_rule ∷ []) (new_rule ∷ []) (7 ∷ []) session
    ≡ (ok tt, committed_session)
unfolding committed_session fresh_ledger reconcile Transaction.reconcile validate_snapshot
    validate_unique validate_unique_from verify_present semantic_equal same_key check_foreign
    foreign_rules check_foreign_rule conflicts derived_parent ancestor depth explicit_rules
    insert_ordered ordered precedes remains verify_gone verify_result preflight introduced_rules
    obsolete_rules publish replace_rules restorable_rules rollback settle verify_owned
    without_derived is_derived_parent for_each set_insert to_set checked_uids verify_uids
    apply_transaction begin conclude desired_rules fail failed_ledger intent introduced_uids recover
    rules_recovered run_transaction shows_no_new uids_recovered withdraw_uids
committed_run = refl

reconcile-IsCommitted_example :
    IsCommitted table_kernel table_uids persist
      (old_rule ∷ [])
      (new_rule ∷ [])
      (7 ∷ [])
      session
      committed_session
reconcile-IsCommitted_example =
    reconcile-IsCommitted table_kernel table_uids persist (old_rule ∷ []) (new_rule ∷ []) (7 ∷ [])
      session committed_run

abbrev failed_session : Session Tables (List Ledger)
unfolding reconcile
failed_session =
    (reconcile table_kernel failing_uids persist (old_rule ∷ []) (new_rule ∷ []) (7 ∷ []) session).1

failed_run :
    reconcile table_kernel failing_uids persist (old_rule ∷ []) (new_rule ∷ []) (7 ∷ []) session
    ≡ (err (hot_transaction_failed (os_error 1) true), failed_session)
unfolding failed_session fresh_ledger reconcile Transaction.reconcile validate_snapshot
    validate_unique validate_unique_from verify_present semantic_equal same_key check_foreign
    foreign_rules check_foreign_rule conflicts derived_parent ancestor depth explicit_rules
    insert_ordered ordered precedes remains verify_gone verify_result preflight introduced_rules
    obsolete_rules publish replace_rules restorable_rules rollback settle verify_owned
    without_derived is_derived_parent for_each set_insert to_set checked_uids verify_uids
    apply_transaction begin conclude desired_rules fail failed_ledger intent introduced_uids recover
    rules_recovered run_transaction shows_no_new uids_recovered withdraw_uids
failed_run = refl

reconcile-Failure_example :
    Failure table_kernel failing_uids persist
      (old_rule ∷ [])
      (new_rule ∷ [])
      (7 ∷ [])
      session
      failed_session
reconcile-Failure_example =
    reconcile-Failure table_kernel failing_uids persist (old_rule ∷ []) (new_rule ∷ []) (7 ∷ [])
      session failed_run

-- That the UID 5 is isolated.
abbrev IsFiveIsolated : Tables → Type 0
IsFiveIsolated k = contains k.isolated 5 ≡ true

five-IsRetained : IsRetained table_kernel failing_uids IsFiveIsolated
five-IsRetained = record {
  list_keeps = λ k p. p;
  put_keeps = λ rs k p. p;
  delete_keeps = λ rs k p. p;
  uids_keeps = λ k p. p;
  add_uids_keeps = λ uids k p. p;
}

reconcile-Retained_example :
    IsFiveIsolated failed_session.kernel
    ⊎ ((original : List ℕ) × ((checked_uids table_kernel failing_uids
            (old_rule ∷ [])
            (new_rule ∷ [])
            session.saved
            session.kernel).0
          ≡ ok original)
        × IsWithdrawn table_kernel failing_uids IsFiveIsolated five-IsRetained
            (old_rule ∷ [])
            (old_rule ∷ [])
            (new_rule ∷ [])
            (introduced_uids (7 ∷ []) original)
            failed_session.kernel)
reconcile-Retained_example =
    reconcile-Retained table_kernel failing_uids IsFiveIsolated five-IsRetained persist
      (old_rule ∷ []) (new_rule ∷ []) (7 ∷ []) session refl failed_run
