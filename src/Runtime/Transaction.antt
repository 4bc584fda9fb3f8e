-- ===== src/Runtime/Transaction.antt =====
-- runtime/transaction.rs: one module transaction. The intent is saved first; then the new UIDs are
-- isolated, and only then the rules are replaced; a failure is rolled back in the reverse order.
pub mod Commit
pub mod Recovery
pub mod Isolation
use meta_hybrid_mount.Prelude.{
  ℕ, Bool, true, false, ◌&&◌, ◌||◌, not, List, [], ◌∷◌, ◌++◌, ◌==◌, ltb, some, none, if◌then◌else◌,
  any, all, filter,
}
use meta_hybrid_mount.Prelude.Sets.{to_set}
use meta_hybrid_mount.Text.{Text, bytes, text_eq, is_empty}
use meta_hybrid_mount.Errors.{
  is_ok_and, Error, Result, ok, err, is_ok, uid_missing, hot_transaction_failed,
}
use meta_hybrid_mount.Exec.{continue, Exec, pure, lift, ◌>>=◌, ◌>>◌, on_state, set_flag, for_each}
use meta_hybrid_mount.Runtime.Rules.{SavedRule, same_key, derived_parent}
use meta_hybrid_mount.Runtime.Rules.Transaction
use meta_hybrid_mount.Runtime.Rules.Transaction.{RuleKernel, preflight, verify_owned}
use meta_hybrid_mount.Runtime.Ledger.{Ledger}

-- `trait UidKernel`
pub record UidKernel (K : Type 0) : Type 0 where
  pub uids : Exec K (List ℕ)
  pub add_uids : List ℕ → Exec K (Unit {0})
  pub remove_uids : List ℕ → Exec K (Unit {0})

-- What the function works on: the kernel, what `persist` writes to, and `&mut Ledger`.
pub record Session (K D : Type 0) : Type 0 where
  pub kernel : K
  pub disk : D
  pub saved : Ledger

abbrev pub contains : List ℕ → ℕ → Bool
contains uids uid = any (λ u. u == uid) uids

unfoldable pub verify_uids : List ℕ → List ℕ → Result (Unit {0})
verify_uids actual [] = ok tt
verify_uids actual (uid ∷ rest) =
    if contains actual uid then verify_uids actual rest else err (uid_missing uid)

unfoldable pub introduced_uids : List ℕ → List ℕ → List ℕ
introduced_uids requested original =
    to_set ltb (filter (λ uid. not (contains original uid)) requested)

unfoldable pub desired_rules : Ledger → List SavedRule → List SavedRule → List SavedRule
desired_rules saved before after =
    filter
      (λ (rule : SavedRule).
        not (any (λ (old : SavedRule). text_eq old.module_id rule.module_id) before))
      saved.rules
    ++ after

-- The ledger that is saved before the kernel is touched.
unfoldable pub intent : Ledger → List SavedRule → List ℕ → Ledger
intent saved desired introduced = record saved {
  phase = bytes "applying";
  pending_rules = desired;
  isolated_uids = to_set ltb (saved.isolated_uids ++ introduced);
  error = none;
}

-- The ledger after a failure and its rollback.
unfoldable pub failed_ledger : Ledger → Ledger → Bool → Error → Ledger
failed_ledger original applying recovered failure = record applying {
  phase = if recovered then bytes "ready" else bytes "error";
  error = some failure;
  pending_rules = if recovered then [] else applying.pending_rules;
  isolated_uids = if recovered then original.isolated_uids else applying.isolated_uids;
}

-- Whether a listing shows none of the new rules but those that had an old one.
unfoldable pub shows_no_new : List SavedRule → List SavedRule → List SavedRule → Bool
shows_no_new before after actual =
    all (λ new. not (any (λ rule. same_key rule new && not (derived_parent rule)) actual))
      (filter (λ new. not (any (λ old. same_key old new) before)) after)

module _ {K : Type 0} (rules : RuleKernel K) (isolation : UidKernel K) where
  -- The closure `applied`; the flag that it captures is `rules_applied`.
  unfoldable pub apply_transaction :
      List SavedRule → List SavedRule → List ℕ → List ℕ → Exec (Bool × K) (Unit {0})
  apply_transaction before after introduced expected = do
    if is_empty introduced then pure tt else on_state (isolation.add_uids introduced)
    actual ← on_state isolation.uids
    lift (verify_uids actual expected)
    on_state (Transaction.reconcile rules before after)
    set_flag
    actual' ← on_state isolation.uids
    lift (verify_uids actual' expected)

  -- Whether the old rules are back and none of the new ones is live.
  unfoldable pub rules_recovered : List SavedRule → List SavedRule → List SavedRule → K → Bool × K
  rules_recovered owned before after k =
      let (verified, k1) = verify_owned rules owned k in
      if is_ok verified
      then (is_ok_and (shows_no_new before after) (rules.list k1).0, (rules.list k1).1)
      else (false, k1)

  unfoldable pub uids_recovered : List ℕ → List ℕ → K → Bool × K
  uids_recovered original introduced k = (
    is_ok_and
        (λ actual.
          all (contains actual) original && all (λ uid. not (contains actual uid)) introduced)
        (isolation.uids k).0,
    (isolation.uids k).1,
  )

  unfoldable pub withdraw_uids : List ℕ → K → K
  withdraw_uids introduced k = for_each (λ uid. isolation.remove_uids (uid ∷ [])) introduced k

  -- The rollback: whether it recovered, and the kernel that it leaves.
  unfoldable pub recover :
      List SavedRule → List SavedRule → List SavedRule → List ℕ → List ℕ → Bool → K → Bool × K
  recover owned before after original introduced rules_applied k =
      let k1 = if rules_applied then (Transaction.reconcile rules after before k).1 else k in
      let (restored, k2) = rules_recovered owned before after k1 in
      if restored
      then uids_recovered original introduced (withdraw_uids introduced k2)
      else (false, k2)

  unfoldable pub checked_uids : List SavedRule → List SavedRule → Ledger → Exec K (List ℕ)
  checked_uids before after saved = do
    preflight rules before after
    original_uids ← isolation.uids
    lift (verify_uids original_uids saved.isolated_uids)
    pure original_uids

  module _ {D : Type 0} (persist : Ledger → Exec D (Unit {0})) where
    -- `persist(saved)?` in front of what follows.
    abbrev pub persisted :
        Session K D → Exec (Session K D) (Unit {0}) → Result (Unit {0}) × Session K D
    persisted s next =
        let (r, d) = persist s.saved s.disk in continue r (λ _. next) (record s { disk = d })

    unfoldable pub fail : Ledger → Bool → Error → Session K D → Result (Unit {0}) × Session K D
    fail original recovered cause s =
        let failure = hot_transaction_failed cause recovered in
        persisted (record s { saved = failed_ledger original s.saved recovered failure })
          (λ s'. (err failure, s'))

    unfoldable pub conclude :
        List SavedRule
        → List SavedRule
        → List ℕ
        → List ℕ
        → Ledger
        → Result (Unit {0})
        → Bool
        → Session K D
        → Result (Unit {0}) × Session K D
    conclude before after uids introduced original (ok _) rules_applied s = (
      ok tt,
      record s {
        saved = record (s.saved) {
          rules = desired_rules original before after;
          pending_rules = [];
        };
      },
    )
    conclude before after uids introduced original (err cause) rules_applied s =
        let (recovered, k) =
          recover s.saved.rules before after uids introduced rules_applied s.kernel in
        fail original recovered cause (record s { kernel = k })

    unfoldable pub run_transaction :
        List SavedRule
        → List SavedRule
        → List ℕ
        → List ℕ
        → Ledger
        → Session K D
        → Result (Unit {0}) × Session K D
    run_transaction before after uids introduced original s =
        let (applied, state) =
          apply_transaction before after introduced (uids ++ introduced) (false, s.kernel) in
        conclude before after uids introduced original applied state.0
          (record s { kernel = state.1 })

    -- After the checks: the intent is saved, and then the kernel is changed.
    unfoldable pub begin :
        List SavedRule → List SavedRule → List ℕ → List ℕ → Exec (Session K D) (Unit {0})
    begin before after requested original_uids s =
        let introduced = introduced_uids requested original_uids in
        persisted
          (record s { saved = intent s.saved (desired_rules s.saved before after) introduced })
          (run_transaction before after original_uids introduced s.saved)

    unfoldable pub reconcile :
        List SavedRule → List SavedRule → List ℕ → Exec (Session K D) (Unit {0})
    reconcile before after requested s =
        let (checked, k) = checked_uids before after s.saved s.kernel in
        continue checked (begin before after requested) (record s { kernel = k })
