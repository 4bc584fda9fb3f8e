-- ===== src/Runtime/Transaction/Isolation.antt =====
-- runtime/transaction.rs: a UID stays isolated while new rules may be live.
use meta_hybrid_mount.Prelude.{
  ap, sym, subst, refl, ℕ, ◌≡◌, ◌⊎◌, inl, inr, Bool, true, false, List, [], ◌∷◌, ◌++◌,
  if◌then◌else◌, Bool-cases,
}
use meta_hybrid_mount.Text.{is_empty}
use meta_hybrid_mount.Errors.{is_ok, Error, Result, ok, err, Result-cases}
use meta_hybrid_mount.Exec.{first_part, second_part, Exec, pure, ◌>>◌, on_state, set_flag, for_each}
use meta_hybrid_mount.Exec.Keeps.{Keeps, continue-Keeps, if-Keeps, for_each-Keeps}
use meta_hybrid_mount.Runtime.Rules.{SavedRule, ordered, verify_result, validate_snapshot}
use meta_hybrid_mount.Runtime.Rules.Transaction
use meta_hybrid_mount.Runtime.Rules.Transaction.{
  RuleKernel, obsolete_rules, introduced_rules, restorable_rules, preflight, publish, rollback,
  settle, replace_rules, verify_owned,
}
use meta_hybrid_mount.Runtime.Ledger.{Ledger}
use meta_hybrid_mount.Runtime.Transaction as HotTransaction
use meta_hybrid_mount.Runtime.Transaction.{
  introduced_uids, intent, desired_rules, verify_uids, UidKernel, Session, apply_transaction,
  rules_recovered, uids_recovered, withdraw_uids, recover, fail, conclude, run_transaction, begin,
  checked_uids,
}
use meta_hybrid_mount.Runtime.Transaction.Recovery.{
  fail-eq-err, IsRulesRestored, rules_recovered-IsRulesRestored,
}

module _ {K : Type 0} (rules : RuleKernel K) (isolation : UidKernel K) (P : K → Type 0) where
  -- A predicate that no call changes but the removal of UIDs: a UID stays isolated, for one.
  pub record IsRetained : Type 0 where
    pub list_keeps : Keeps P rules.list
    pub put_keeps : (rs : List SavedRule) → Keeps P (rules.put rs)
    pub delete_keeps : (rs : List SavedRule) → Keeps P (rules.delete rs)
    pub uids_keeps : Keeps P isolation.uids
    pub add_uids_keeps : (uids : List ℕ) → Keeps P (isolation.add_uids uids)

  module _ (kept : IsRetained) where
    verify_owned-Keeps : (owned : List SavedRule) → Keeps P (verify_owned rules owned)
    unfolding verify_owned
    verify_owned-Keeps owned k p =
        continue-Keeps P (rules.list k).0 _ (rules.list k).1 (kept.list_keeps k p) (λ _ s q. q)

    publish-Keeps :
        (before after foreign : List SavedRule)
        → Keeps (λ (s : Bool × K). P s.1) (publish rules before after foreign)
    unfolding publish
    publish-Keeps before after foreign (flag, k) p =
        let Q : Bool × K → Type 0 = λ s. P s.1 in
        let obsolete = obsolete_rules before after in
        let desired = ordered after false in
        let remove : Exec (Bool × K) (Unit {0}) =
          if is_empty obsolete then pure tt else on_state (rules.delete obsolete) in
        let write : Exec (Bool × K) (Unit {0}) =
          if is_empty desired then pure tt else (set_flag >> on_state (rules.put desired)) in
        let removed =
          if-Keeps Q (is_empty obsolete) (pure tt) (on_state (rules.delete obsolete)) (flag, k) p
            (kept.delete_keeps obsolete k p) in
        continue-Keeps Q (remove (flag, k)).0 _ (remove (flag, k)).1 removed (λ _ s q.
          let written =
            if-Keeps Q (is_empty desired) (pure tt) (set_flag >> on_state (rules.put desired)) s q
              (kept.put_keeps desired s.1 q) in
          continue-Keeps Q (write s).0 _ (write s).1 written (λ _ s' q'.
            continue-Keeps Q (rules.list s'.1).0 _ (s'.0, (rules.list s'.1).1)
              (kept.list_keeps s'.1 q')
              (λ current s'' q''.
                continue-Keeps Q (verify_result current after before) _ s'' q'' (λ _ t u. u))))

    rollback-Keeps :
        (before attempted foreign : List SavedRule)
        → Keeps P (rollback rules before attempted foreign)
    unfolding rollback
    rollback-Keeps before attempted foreign k p =
        continue-Keeps P (rules.list k).0 _ (rules.list k).1 (kept.list_keeps k p) (λ current k1 p1.
          let k2 =
            for_each (λ rule. rules.delete (rule ∷ [])) (introduced_rules attempted before current)
              k1 in
          let p2 : P k2 =
            for_each-Keeps P (λ rule. rules.delete (rule ∷ []))
              (λ rule. kept.delete_keeps (rule ∷ [])) _ k1 p1 in
          continue-Keeps P (rules.list k2).0 _ (rules.list k2).1 (kept.list_keeps k2 p2)
            (λ current' k3 p3.
              let k4 =
                for_each (λ rule. rules.put (rule ∷ []))
                  (restorable_rules before attempted current') k3 in
              let p4 : P k4 =
                for_each-Keeps P (λ rule. rules.put (rule ∷ []))
                  (λ rule. kept.put_keeps (rule ∷ [])) _ k3 p3 in
              continue-Keeps P (rules.list k4).0 _ (rules.list k4).1 (kept.list_keeps k4 p4)
                (λ current'' k5 p5.
                  continue-Keeps P (verify_result current'' before attempted) _ k5 p5
                    (λ _ t u. u))))

    settle-Keeps :
        (before after foreign : List SavedRule) (outcome : Result (Unit {0})) (attempted : Bool)
        → Keeps P (settle rules before after foreign outcome attempted)
    unfolding settle
    settle-Keeps before after foreign (ok _) attempted k p = p
    settle-Keeps before after foreign (err cause) attempted k p =
        rollback-Keeps before (if attempted then after else []) foreign k p

    reconcile-Keeps :
        (before after : List SavedRule) → Keeps P (Transaction.reconcile rules before after)
    unfolding Transaction.reconcile replace_rules
    reconcile-Keeps before after k p =
        continue-Keeps P (rules.list k).0 _ (rules.list k).1 (kept.list_keeps k p) (λ initial k1 p1.
          continue-Keeps P (validate_snapshot initial before after) _ k1 p1 (λ foreign k2 p2.
            let started = publish rules before after foreign (false, k2) in
            settle-Keeps before after foreign started.0 started.1.0 started.1.1
              (publish-Keeps before after foreign (false, k2) p2)))

    apply_transaction-Keeps :
        (before after : List SavedRule) (introduced expected : List ℕ)
        → Keeps
            (λ (s : Bool × K). P s.1)
            (apply_transaction rules isolation before after introduced expected)
    unfolding apply_transaction
    apply_transaction-Keeps before after introduced expected (flag, k) p =
        let Q : Bool × K → Type 0 = λ s. P s.1 in
        let isolate : Exec (Bool × K) (Unit {0}) =
          if is_empty introduced then pure tt else on_state (isolation.add_uids introduced) in
        let isolated =
          if-Keeps Q (is_empty introduced) (pure tt) (on_state (isolation.add_uids introduced))
            (flag, k) p (kept.add_uids_keeps introduced k p) in
        continue-Keeps Q (isolate (flag, k)).0 _ (isolate (flag, k)).1 isolated (λ _ s1 p1.
          continue-Keeps Q (isolation.uids s1.1).0 _ (s1.0, (isolation.uids s1.1).1)
            (kept.uids_keeps s1.1 p1)
            (λ actual s2 p2. continue-Keeps Q (verify_uids actual expected) _ s2 p2 (λ _ s3 p3.
              let replaced = Transaction.reconcile rules before after s3.1 in
              continue-Keeps Q replaced.0 _ (s3.0, replaced.1)
                (reconcile-Keeps before after s3.1 p3)
                (λ _ s4 p4.
                  continue-Keeps Q (isolation.uids s4.1).0 _ (true, (isolation.uids s4.1).1)
                    (kept.uids_keeps s4.1 p4) (λ _ s5 p5. p5)))))

    if-holds : (b : Bool) {k l : K} → P k → P l → P (if b then k else l)
    if-holds true p q = p
    if-holds false p q = q

    rules_recovered-Keeps :
        (owned before after : List SavedRule) (k : K)
        → P k
        → P (rules_recovered rules isolation owned before after k).1
    unfolding rules_recovered
    rules_recovered-Keeps owned before after k p =
        let verified = verify_owned rules owned k in
        let held = verify_owned-Keeps owned k p in
        elim (Bool-cases (is_ok verified.0)) [
          | inl e ↦ rw e (kept.list_keeps verified.1 held)
          | inr e ↦ rw e held
        ]

    -- The rollback reached a kernel where the predicate still held and whose last listings had the old
    -- rules and none of the new ones; only then the new UIDs were withdrawn and read back.
    abbrev pub IsWithdrawn : List SavedRule → List SavedRule → List SavedRule → List ℕ → K → Type 0
    IsWithdrawn owned before after introduced end =
        (restored : K) × P restored
        × IsRulesRestored rules isolation owned before after restored
        × (end ≡ (isolation.uids (withdraw_uids rules isolation introduced restored)).1)

    -- What the rollback leaves.
    recover-Retained :
        (owned before after : List SavedRule) (original introduced : List ℕ) (flag : Bool) (k : K)
        → P k
        → P (recover rules isolation owned before after original introduced flag k).1
          ⊎ IsWithdrawn owned before after introduced
              (recover rules isolation owned before after original introduced flag k).1
    unfolding recover uids_recovered
    recover-Retained owned before after original introduced flag k p =
        let undone : K = if flag then (Transaction.reconcile rules after before k).1 else k in
        let held : P undone = if-holds flag (reconcile-Keeps after before k p) p in
        let restored = rules_recovered rules isolation owned before after undone in
        elim (Bool-cases restored.0) [
          | inl e ↦ inr (
            restored.1,
            rules_recovered-Keeps owned before after undone held,
            rules_recovered-IsRulesRestored rules isolation owned before after undone e,
            rw e refl,
          )
          | inr e ↦ inl (rw e (rules_recovered-Keeps owned before after undone held))
        ]

    checked_uids-Keeps :
        (before after : List SavedRule) (saved : Ledger)
        → Keeps P (checked_uids rules isolation before after saved)
    unfolding checked_uids preflight
    checked_uids-Keeps before after saved k p =
        let checked = preflight rules before after k in
        continue-Keeps P checked.0 _ checked.1
          (continue-Keeps P (rules.list k).0 _ (rules.list k).1 (kept.list_keeps k p)
            (λ initial k1 p1.
              continue-Keeps P (validate_snapshot initial before after) _ k1 p1 (λ _ t u. u)))
          (λ _ k2 p2.
            continue-Keeps P (isolation.uids k2).0 _ (isolation.uids k2).1 (kept.uids_keeps k2 p2)
              (λ original k3 p3.
                continue-Keeps P (verify_uids original saved.isolated_uids) _ k3 p3 (λ _ t u. u)))

    module _ {D : Type 0} (persist : Ledger → Exec D (Unit {0})) where
      run_transaction-Retained :
          (before after : List SavedRule) (original introduced : List ℕ) (saved : Ledger)
          (s : Session K D) {e : Error} {s' : Session K D}
          → P s.kernel
          → run_transaction rules isolation persist before after original introduced saved s
            ≡ (err e, s')
          → P s'.kernel ⊎ IsWithdrawn s.saved.rules before after introduced s'.kernel
      unfolding run_transaction conclude
      run_transaction-Retained before after original introduced saved s p h =
          let applied =
            apply_transaction rules isolation before after introduced (original ++ introduced)
              (false, s.kernel) in
          elim (Result-cases applied.0) [
            | inl (_, e) ↦ cc (first_part (rw (e, conclude) at h))
            | inr (cause, e) ↦
                let held =
                  apply_transaction-Keeps before after introduced (original ++ introduced)
                    (false, s.kernel) p in
                let undone =
                  recover rules isolation s.saved.rules before after original introduced applied.1.0
                    applied.1.1 in
                let (kernel_kept, _) =
                  fail-eq-err rules isolation persist saved undone.0 cause
                    (record s { kernel = undone.1 }) (rw (e, conclude) at h) in
                elim (recover-Retained s.saved.rules before after original introduced applied.1.0
                  applied.1.1 held) [
                    | inl q ↦ inl (subst P (sym kernel_kept) q)
                    | inr r ↦ inr (
                        subst (IsWithdrawn s.saved.rules before after introduced) (sym kernel_kept)
                          r)
                  ]
          ]

      -- Take any predicate of the kernel that only a removal of UIDs can break, such as that a UID is
      -- isolated, and let it hold at the start. After a call that failed it still holds; or the rollback
      -- had come to a kernel where it held, whose last two listings had every owned rule and none of the
      -- new ones, and all that was done behind that was to withdraw the UIDs that the call had
      -- introduced, those requested that were not isolated at the start, and to read the UIDs.
      pub reconcile-Retained :
          (before after : List SavedRule) (requested : List ℕ) (s : Session K D) {e : Error}
          {s' : Session K D}
          → P s.kernel
          → HotTransaction.reconcile rules isolation persist before after requested s ≡ (err e, s')
          → P s'.kernel
            ⊎ ((original : List ℕ) × ((checked_uids rules isolation before after s.saved s.kernel).0
                  ≡ ok original)
                × IsWithdrawn s.saved.rules before after
                    (introduced_uids requested original)
                    s'.kernel)
      unfolding HotTransaction.reconcile begin intent
      reconcile-Retained before after requested s p h =
          let checked = checked_uids rules isolation before after s.saved s.kernel in
          let held = checked_uids-Keeps before after s.saved s.kernel p in
          elim (Result-cases checked.0) [
            | inr (_, e) ↦
                inl (subst P (ap (λ (t : Session K D). t.kernel) (second_part (rw e at h))) held)
            | inl (original, e) ↦
                let introduced = introduced_uids requested original in
                let marked = intent s.saved (desired_rules s.saved before after) introduced in
                let written = persist marked s.disk in
                elim (Result-cases written.0) [
                  | inr (_, f) ↦ inl (
                      subst P
                        (ap (λ (t : Session K D). t.kernel) (second_part (rw (e, begin, f) at h)))
                        held)
                  | inl (_, f) ↦
                      elim (run_transaction-Retained before after original introduced s.saved
                        (record { kernel = checked.1; disk = written.1; saved = marked }) held
                        (rw (e, begin, f) at h)) [ inl q ↦ inl q | inr r ↦ inr (original, e, r) ]
                ]
          ]
