-- ===== src/Runtime/Transaction/Commit.antt =====
-- runtime/transaction.rs: what a transaction that succeeds has established, and that the intent is
-- saved before the kernel is changed.

use meta_hybrid_mount.Prelude.{
  sym, ap, subst, ◌∙◌, Bool-cases, inr, if◌then◌else◌, false, ℕ, ◌≡◌, refl, true, Bool, inl, inr,
  List, [], ◌∷◌, ◌++◌, In, arith,
}
use meta_hybrid_mount.Text.{is_empty}
use meta_hybrid_mount.Errors.{hot_transaction_failed, ok-injective, Error, ok, Result-cases}
use meta_hybrid_mount.Exec.{
  Exec, pure, on_state, continue-eq-ok, pair_of_parts, first_part, second_part,
}
use meta_hybrid_mount.Runtime.Rules.{SavedRule}
use meta_hybrid_mount.Runtime.Rules.Transaction
use meta_hybrid_mount.Runtime.Rules.Transaction.{preflight, RuleKernel}
use meta_hybrid_mount.Runtime.Ledger.{Ledger}
use meta_hybrid_mount.Runtime.Transaction.{
  failed_ledger, UidKernel, Session, contains, verify_uids, introduced_uids, desired_rules, intent,
  apply_transaction, fail, conclude, run_transaction, begin, checked_uids, reconcile,
}

-- Every expected UID is isolated.
abbrev pub AreIsolated : List ℕ → List ℕ → Type 0
AreIsolated actual expected = (uid : ℕ) → In uid expected → contains actual uid ≡ true

pub verify_uids_sound :
    (actual expected : List ℕ) {u : Unit {0}}
    → verify_uids actual expected ≡ ok u
    → AreIsolated actual expected
unfolding verify_uids
verify_uids_sound actual [] h uid m = absurd m
verify_uids_sound actual (x ∷ rest) h uid (inl e) = rw (← e) (ground arith)
verify_uids_sound actual (x ∷ rest) h uid (inr m) =
    verify_uids_sound actual rest (ground arith) uid m

module _ {K : Type 0} (rules : RuleKernel K) (isolation : UidKernel K) where
  -- The rules were replaced while a readback showed every expected UID, and the last thing that was
  -- done is a readback that shows them again.
  pub record IsPublished (before after : List SavedRule) (introduced expected : List ℕ)
      (start end : K) : Type 0 where
    pub before_rules : K
    pub uids_added :
        (if is_empty introduced then (ok tt, start) else isolation.add_uids introduced start)
        ≡ (ok tt, before_rules)
    pub first_actual : List ℕ
    pub first_isolated : AreIsolated first_actual expected
    pub at_rules : K
    pub first_readback : isolation.uids before_rules ≡ (ok first_actual, at_rules)
    pub after_rules : K
    pub rules_replaced : Transaction.reconcile rules before after at_rules ≡ (ok tt, after_rules)
    pub last_actual : List ℕ
    pub last_isolated : AreIsolated last_actual expected
    pub last_readback : isolation.uids after_rules ≡ (ok last_actual, end)

  -- The isolation at the start of the transaction, seen on the kernel alone.
  isolation_step :
      (introduced : List ℕ) (k : K) {u : Unit {0}}
      → ((if is_empty introduced then pure tt else on_state (isolation.add_uids introduced))
          (false, k)).0
        ≡ ok u
      → (if is_empty introduced then (ok tt, k) else isolation.add_uids introduced k) ≡ (
        ok tt,
        ((if is_empty introduced then pure tt else on_state (isolation.add_uids introduced))
            (false, k)).1.1,
      )
  isolation_step introduced k h = elim (Bool-cases (is_empty introduced)) [
    | inl e ↦ rw e refl
    | inr e ↦ rw e (pair_of_parts (rw e at h) refl)
  ]

  pub apply_transaction-IsPublished :
      (before after : List SavedRule) (introduced expected : List ℕ) (k : K) {u : Unit {0}}
      {flag : Bool} {end : K}
      → apply_transaction rules isolation before after introduced expected (false, k)
        ≡ (ok u, (flag, end))
      → IsPublished before after introduced expected k end
  unfolding apply_transaction
  apply_transaction-IsPublished before after introduced expected k {flag = flag} h =
      let isolate : Exec (Bool × K) (Unit {0}) =
        if is_empty introduced then pure tt else on_state (isolation.add_uids introduced) in
      let s1 = (isolate (false, k)).1 in
      let (_, isolated, h1) = continue-eq-ok (isolate (false, k)).0 _ s1 h in
      let (first_actual, first, h2) =
        continue-eq-ok (isolation.uids s1.1).0 _ (s1.0, (isolation.uids s1.1).1) h1 in
      let at_rules = (isolation.uids s1.1).1 in
      let (_, all_first, h3) =
        continue-eq-ok (verify_uids first_actual expected) _ (s1.0, at_rules) h2 in
      let replaced = Transaction.reconcile rules before after at_rules in
      let (_, done, h4) = continue-eq-ok replaced.0 _ (s1.0, replaced.1) h3 in
      let (last_actual, last, h5) =
        continue-eq-ok (isolation.uids replaced.1).0 _ (true, (isolation.uids replaced.1).1) h4 in
      record {
        before_rules = s1.1;
        uids_added = isolation_step introduced k isolated;
        first_actual = first_actual;
        first_isolated = verify_uids_sound first_actual expected all_first;
        at_rules = at_rules;
        first_readback = pair_of_parts first refl;
        after_rules = replaced.1;
        rules_replaced = pair_of_parts done refl;
        last_actual = last_actual;
        last_isolated = verify_uids_sound last_actual expected (first_part h5);
        last_readback = pair_of_parts last (second_part (second_part h5));
      }

  checked_uids-isolated :
      (before after : List SavedRule) (saved : Ledger) (k : K) {original : List ℕ}
      → (checked_uids rules isolation before after saved k).0 ≡ ok original
      → (isolation.uids (preflight rules before after k).1
          ≡ (ok original, (checked_uids rules isolation before after saved k).1))
        × AreIsolated original saved.isolated_uids
  unfolding checked_uids
  checked_uids-isolated before after saved k h =
      let checked = preflight rules before after k in
      let (_, _, h1) = continue-eq-ok checked.0 _ checked.1 (pair_of_parts h refl) in
      let isolated = isolation.uids checked.1 in
      let (original, listed, h2) = continue-eq-ok isolated.0 _ isolated.1 h1 in
      let (_, valid, h3) =
        continue-eq-ok (verify_uids original saved.isolated_uids) _ isolated.1 h2 in
      let same = ok-injective (first_part h3) in
      (
        pair_of_parts (listed ∙ ap ok same) (second_part h3),
        subst (λ (o : List ℕ). AreIsolated o saved.isolated_uids) same
            (verify_uids_sound original saved.isolated_uids valid),
      )

  module _ {D : Type 0} (persist : Ledger → Exec D (Unit {0})) where
    -- What a session holds after a transaction that succeeded.
    pub record IsCommitted (before after : List SavedRule) (requested : List ℕ) (s s' : Session K D)
        : Type 0 where
      pub original : List ℕ
      pub start : K
      pub first_listed :
          isolation.uids (preflight rules before after s.kernel).1 ≡ (ok original, start)
      pub owned_isolated : AreIsolated original s.saved.isolated_uids
      pub persisted_intent :
          persist
            (intent s.saved
              (desired_rules s.saved before after)
              (introduced_uids requested original))
            s.disk
          ≡ (ok tt, s'.disk)
      pub ledger :
          s'.saved
          ≡ record (intent s.saved
              (desired_rules s.saved before after)
              (introduced_uids requested original)) {
                rules = desired_rules s.saved before after;
                pending_rules = [];
              }
      pub published :
          IsPublished before after
            (introduced_uids requested original)
            (original ++ introduced_uids requested original)
            start
            s'.kernel

    -- A failure is never returned as a success.
    fail-not_ok :
        (original : Ledger) (recovered : Bool) (cause : Error) (s : Session K D) {u : Unit {0}}
        {s' : Session K D}
        → fail rules isolation persist original recovered cause s ≡ (ok u, s')
        → ⊥
    unfolding fail
    fail-not_ok original recovered cause s h =
        let failure = hot_transaction_failed cause recovered in
        let written = persist (failed_ledger original s.saved recovered failure) s.disk in
        elim (Result-cases written.0) [
          | inl (_, e) ↦ cc (first_part (rw e at h))
          | inr (_, e) ↦ cc (first_part (rw e at h))
        ]

    run_transaction-IsPublished :
        (before after : List SavedRule) (original introduced : List ℕ) (saved : Ledger)
        (s : Session K D) {u : Unit {0}} {s' : Session K D}
        → run_transaction rules isolation persist before after original introduced saved s
          ≡ (ok u, s')
        → IsPublished before after introduced (original ++ introduced) s.kernel s'.kernel
          × (s'.disk ≡ s.disk)
          × (s'.saved
              ≡ record (s.saved) { rules = desired_rules saved before after; pending_rules = [] })
    unfolding run_transaction conclude
    run_transaction-IsPublished before after original introduced saved s h =
        let applied =
          apply_transaction rules isolation before after introduced (original ++ introduced)
            (false, s.kernel) in
        elim (Result-cases applied.0) [
          | inr (_, e) ↦ absurd (fail-not_ok _ _ _ _ (rw (e, conclude) at h))
          | inl (_, e) ↦
              let q = second_part (rw (e, conclude) at h) in
              (
                subst (IsPublished before after introduced (original ++ introduced) s.kernel)
                    (ap (λ (t : Session K D). t.kernel) q)
                    (apply_transaction-IsPublished before after introduced (original ++ introduced)
                      s.kernel (pair_of_parts e refl)),
                sym (ap (λ (t : Session K D). t.disk) q),
                sym (ap (λ (t : Session K D). t.saved) q),
              )
        ]

    -- After a call that succeeded: the kernel's own list of UIDs, read behind the check of the rules,
    -- has every UID that the ledger owned; the intent was saved with the requested UIDs that this list
    -- does not have, these alone were added from there, and the rules were replaced after a readback
    -- that showed them and the list; the last thing that was done is a readback that shows both again,
    -- and the ledger holds the desired rules and nothing pending.
    pub reconcile-IsCommitted :
        (before after : List SavedRule) (requested : List ℕ) (s : Session K D) {u : Unit {0}}
        {s' : Session K D}
        → reconcile rules isolation persist before after requested s ≡ (ok u, s')
        → IsCommitted before after requested s s'
    unfolding reconcile begin
    reconcile-IsCommitted before after requested s h =
        let checked = checked_uids rules isolation before after s.saved s.kernel in
        let ready : Session K D = record s { kernel = checked.1 } in
        let (original, e, h1) = continue-eq-ok checked.0 _ ready h in
        let introduced = introduced_uids requested original in
        let marked = intent s.saved (desired_rules s.saved before after) introduced in
        let written = persist marked s.disk in
        let start : Session K D = record { kernel = checked.1; disk = written.1; saved = marked } in
        let (_, f, h2) = continue-eq-ok written.0 _ start h1 in
        let (published, disk_kept, ledger) =
          run_transaction-IsPublished before after original introduced s.saved start h2 in
        let (listed, owned) = checked_uids-isolated before after s.saved s.kernel e in
        record {
          original = original;
          start = checked.1;
          first_listed = listed;
          owned_isolated = owned;
          persisted_intent = pair_of_parts f (sym disk_kept);
          ledger = ledger;
          published = published;
        }
