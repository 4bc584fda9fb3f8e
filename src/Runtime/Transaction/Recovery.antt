-- ===== src/Runtime/Transaction/Recovery.antt =====
-- runtime/transaction.rs: what the rollback of a transaction has established when it says that it is
-- clean, and what the ledger keeps when it is not.
use meta_hybrid_mount.Prelude.{
  ap, subst, sym, arith, [], if◌then◌else◌, not, inl, inr, Bool-cases, false, Bool, In, ℕ, List,
  ◌≡◌, refl, true, all, all-In, some, ◌&&◌, ◌++◌,
}
use meta_hybrid_mount.Text.{bytes}
use meta_hybrid_mount.Errors.{
  ok, err, Error, is_ok, is_ok-true, is_ok_and-true, Result-cases, hot_transaction_failed,
}
use meta_hybrid_mount.Exec.{Exec, continue-eq-ok, pair_of_parts, first_part, second_part}
use meta_hybrid_mount.Runtime.Rules.{SavedRule}
use meta_hybrid_mount.Runtime.Rules.Checks.{IsPresent, verify_present_sound}
use meta_hybrid_mount.Runtime.Rules.Transaction
use meta_hybrid_mount.Runtime.Rules.Transaction.{RuleKernel}
use meta_hybrid_mount.Runtime.Ledger.{Ledger}
use meta_hybrid_mount.Runtime.Transaction as HotTransaction
use meta_hybrid_mount.Runtime.Transaction.{
  introduced_uids, desired_rules, intent, checked_uids, UidKernel, Session, contains, shows_no_new,
  failed_ledger, rules_recovered, uids_recovered, withdraw_uids, recover, persisted, fail, conclude,
  run_transaction, begin, apply_transaction,
}

not-true : {b : Bool} → not b ≡ true → b ≡ false
not-true h = ground arith

module _ {K : Type 0} (rules : RuleKernel K) (isolation : UidKernel K) where
  -- A listing showed every owned rule, and a listing after it none of the new ones.
  pub record IsRulesRestored (owned before after : List SavedRule) (end : K) : Type 0 where
    pub before_owned : K
    pub owned_actual : List SavedRule
    pub before_new : K
    pub owned_listed : rules.list before_owned ≡ (ok owned_actual, before_new)
    pub owned_present : IsPresent owned_actual owned
    pub actual : List SavedRule
    pub listed : rules.list before_new ≡ (ok actual, end)
    pub none_new : shows_no_new before after actual ≡ true

  pub rules_recovered-IsRulesRestored :
      (owned before after : List SavedRule) (k : K)
      → (rules_recovered rules isolation owned before after k).0 ≡ true
      → IsRulesRestored owned before after (rules_recovered rules isolation owned before after k).1
  unfolding rules_recovered Transaction.verify_owned
  rules_recovered-IsRulesRestored owned before after k h =
      let verified = Transaction.verify_owned rules owned k in
      elim (Bool-cases (is_ok verified.0)) [
        | inr e ↦ cc (rw e at h)
        | inl e ↦
            let (_, v) = is_ok-true verified.0 e in
            let (owned_actual, read, h1) =
              continue-eq-ok (rules.list k).0 _ (rules.list k).1 (pair_of_parts v refl) in
            let (actual, list, none_new) =
              is_ok_and-true (shows_no_new before after) (rules.list verified.1).0 (rw e at h) in
            rw e (record {
              before_owned = k;
              owned_actual = owned_actual;
              before_new = verified.1;
              owned_listed = pair_of_parts read (second_part h1);
              owned_present = verify_present_sound owned_actual owned (first_part h1);
              actual = actual;
              listed = pair_of_parts list refl;
              none_new = none_new;
            })
      ]

  -- The rules were restored, the new UIDs were withdrawn one by one, and the last readback shows
  -- every UID that was isolated before and none of the new ones.
  pub record IsRecovered (owned before after : List SavedRule) (original introduced : List ℕ)
      (end : K) : Type 0 where
    pub restored : K
    pub rules_restored : IsRulesRestored owned before after restored
    pub actual : List ℕ
    pub readback :
        isolation.uids (withdraw_uids rules isolation introduced restored) ≡ (ok actual, end)
    pub still_isolated : (uid : ℕ) → In uid original → contains actual uid ≡ true
    pub withdrawn : (uid : ℕ) → In uid introduced → contains actual uid ≡ false

  pub recover-IsRecovered :
      (owned before after : List SavedRule) (original introduced : List ℕ) (flag : Bool) (k : K)
      → (recover rules isolation owned before after original introduced flag k).0 ≡ true
      → IsRecovered owned before after original introduced
          (recover rules isolation owned before after original introduced flag k).1
  unfolding recover uids_recovered
  recover-IsRecovered owned before after original introduced flag k h =
      let undone : K = if flag then (Transaction.reconcile rules after before k).1 else k in
      let restored = rules_recovered rules isolation owned before after undone in
      elim (Bool-cases restored.0) [
        | inr e ↦ cc (rw e at h)
        | inl e ↦
            let left = withdraw_uids rules isolation introduced restored.1 in
            let (actual, read, shown) =
              is_ok_and-true
                (λ actual.
                  all (contains actual) original
                  && all (λ uid. not (contains actual uid)) introduced)
                (isolation.uids left).0 (rw e at h) in
            rw e (record {
              restored = restored.1;
              rules_restored = rules_recovered-IsRulesRestored owned before after undone e;
              actual = actual;
              readback = pair_of_parts read refl;
              still_isolated = λ uid m. all-In (contains actual) original uid (ground arith) m;
              withdrawn = λ uid m.
                  not-true (all-In (λ u. not (contains actual u)) introduced uid (ground arith) m);
            })
      ]

  module _ {D : Type 0} (persist : Ledger → Exec D (Unit {0})) where
    -- How a call fails, and what the session then holds.
    pub data Failure (before after : List SavedRule) (requested : List ℕ) (s s' : Session K D)
        : Type 0 where
      -- a check failed: the ledger is untouched and nothing was saved
      unchecked : s'.saved ≡ s.saved → s'.disk ≡ s.disk → Failure before after requested s s'
      -- the intent could not be saved: the kernel has seen no call but those of the checks
      not_persisted :
          (original : List ℕ)
          → (checked_uids rules isolation before after s.saved s.kernel) ≡ (ok original, s'.kernel)
          → s'.saved
            ≡ intent s.saved
                (desired_rules s.saved before after)
                (introduced_uids requested original)
          → Failure before after requested s s'
      -- the rollback was confirmed: the ledger owns what it owned before
      rolled_back :
          (original : List ℕ) (cause : Error)
          → IsRecovered s.saved.rules before after original
              (introduced_uids requested original)
              s'.kernel
          → s'.saved ≡ record (s.saved) {
            phase = bytes "ready";
            pending_rules = [];
            error = some (hot_transaction_failed cause true);
          }
          → Failure before after requested s s'
      -- it was not: the ledger keeps the intent, and the phase refuses further transactions
      incomplete :
          (original : List ℕ) (cause : Error)
          → s'.saved
            ≡ record (intent s.saved
                (desired_rules s.saved before after)
                (introduced_uids requested original)) {
                  phase = bytes "error";
                  error = some (hot_transaction_failed cause false);
                }
          → Failure before after requested s s'

    pub fail-eq-err :
        (original : Ledger) (recovered : Bool) (cause : Error) (s : Session K D) {e : Error}
        {s' : Session K D}
        → fail rules isolation persist original recovered cause s ≡ (err e, s')
        → (s'.kernel ≡ s.kernel)
          × (s'.saved
              ≡ failed_ledger original s.saved recovered (hot_transaction_failed cause recovered))
    unfolding fail
    fail-eq-err original recovered cause s h =
        let failure = hot_transaction_failed cause recovered in
        let written = persist (failed_ledger original s.saved recovered failure) s.disk in
        elim (Result-cases written.0) [
          | inl (_, e) ↦
              let q = sym (second_part (rw e at h)) in
              (ap (λ (t : Session K D). t.kernel) q, ap (λ (t : Session K D). t.saved) q)
          | inr (_, e) ↦
              let q = sym (second_part (rw e at h)) in
              (ap (λ (t : Session K D). t.kernel) q, ap (λ (t : Session K D). t.saved) q)
        ]

    run_transaction-eq-err :
        (before after : List SavedRule) (original introduced : List ℕ) (saved : Ledger)
        (s : Session K D) {e : Error} {s' : Session K D}
        → run_transaction rules isolation persist before after original introduced saved s
          ≡ (err e, s')
        → (recovered : Bool) × (cause : Error) × (recovered ≡ true
            → IsRecovered s.saved.rules before after original introduced s'.kernel)
          × (s'.saved
              ≡ failed_ledger saved s.saved recovered (hot_transaction_failed cause recovered))
    unfolding run_transaction conclude
    run_transaction-eq-err before after original introduced saved s h =
        let applied =
          apply_transaction rules isolation before after introduced (original ++ introduced)
            (false, s.kernel) in
        elim (Result-cases applied.0) [
          | inl (_, e) ↦ cc (first_part (rw (e, conclude) at h))
          | inr (cause, e) ↦
              let undone =
                recover rules isolation s.saved.rules before after original introduced applied.1.0
                  applied.1.1 in
              let (kernel_kept, ledger) =
                fail-eq-err saved undone.0 cause (record s { kernel = undone.1 })
                  (rw (e, conclude) at h) in
              (
                undone.0,
                cause,
                λ b.
                    subst (IsRecovered s.saved.rules before after original introduced)
                      (sym kernel_kept)
                      (recover-IsRecovered s.saved.rules before after original introduced
                        applied.1.0 applied.1.1 b),
                ledger,
              )
        ]

    settled-Failure :
        (before after : List SavedRule) (requested original : List ℕ) (s s' : Session K D)
        (recovered : Bool) (cause : Error)
        → (recovered ≡ true
            → IsRecovered s.saved.rules before after original
                (introduced_uids requested original)
                s'.kernel)
        → s'.saved
          ≡ failed_ledger s.saved
              (intent s.saved
                (desired_rules s.saved before after)
                (introduced_uids requested original))
              recovered
              (hot_transaction_failed cause recovered)
        → Failure before after requested s s'
    unfolding failed_ledger intent
    settled-Failure before after requested original s s' true cause known ledger =
        rolled_back original cause (known refl) ledger
    settled-Failure before after requested original s s' false cause known ledger =
        incomplete original cause ledger

    -- A call that failed leaves the session in one of four ways: a check failed, and neither the ledger
    -- nor what is saved has changed; or the intent could not be saved, and the kernel has seen no call
    -- but those of the checks; or the rollback was confirmed by readbacks of the rules and the UIDs,
    -- and the ledger has its old rules and UIDs, nothing pending and the phase "ready"; or it was not,
    -- and the ledger keeps the intent, with the phase "error".
    pub reconcile-Failure :
        (before after : List SavedRule) (requested : List ℕ) (s : Session K D) {e : Error}
        {s' : Session K D}
        → HotTransaction.reconcile rules isolation persist before after requested s ≡ (err e, s')
        → Failure before after requested s s'
    unfolding HotTransaction.reconcile begin intent
    reconcile-Failure before after requested s h =
        let checked = checked_uids rules isolation before after s.saved s.kernel in
        elim (Result-cases checked.0) [
          | inr (_, e) ↦
              let q = sym (second_part (rw e at h)) in
              unchecked (ap (λ (t : Session K D). t.saved) q) (ap (λ (t : Session K D). t.disk) q)
          | inl (original, e) ↦
              let introduced = introduced_uids requested original in
              let marked = intent s.saved (desired_rules s.saved before after) introduced in
              let written = persist marked s.disk in
              elim (Result-cases written.0) [
                | inr (_, f) ↦
                    let q = sym (second_part (rw (e, begin, f) at h)) in
                    not_persisted original
                      (pair_of_parts e (sym (ap (λ (t : Session K D). t.kernel) q)))
                      (ap (λ (t : Session K D). t.saved) q)
                | inl (_, f) ↦
                    let (recovered, cause, known, ledger) =
                      run_transaction-eq-err before after original introduced s.saved
                        (record { kernel = checked.1; disk = written.1; saved = marked })
                        (rw (e, begin, f) at h) in
                    settled-Failure before after requested original s _ recovered cause known ledger
              ]
        ]
