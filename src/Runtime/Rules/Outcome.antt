-- ===== src/Runtime/Rules/Outcome.antt =====
-- runtime/rules.rs: how a call of `reconcile` can end, over any kernel whatever it does.
use meta_hybrid_mount.Prelude.{
  ◌∷◌, ◌≡◌, ◌⊎◌, inl, inr, refl, Bool, true, false, List, [], if◌then◌else◌,
}
use meta_hybrid_mount.Text.{is_empty}
use meta_hybrid_mount.Errors.{
  Error, Result, ok, err, Result-cases, transaction_rolled_back, transaction_not_rolled_back,
}
use meta_hybrid_mount.Exec.{
  on_state, set_flag, Exec, pure, lift, ◌>>=◌, ◌>>◌, continue-eq-ok, for_each, pair_of_parts,
  first_part, second_part,
}
use meta_hybrid_mount.Runtime.Rules.{
  SavedRule, validate_snapshot, verify_present, verify_result, ordered, explicit_rules,
}
use meta_hybrid_mount.Runtime.Rules.Checks.{Shows, verify_result_sound}
use meta_hybrid_mount.Runtime.Rules.Transaction.{
  failure, RuleKernel, obsolete_rules, introduced_rules, restorable_rules, publish, rollback,
  settle, replace_rules, reconcile,
}

module _ {K : Type 0} (kernel : RuleKernel K) where
  -- The last thing that was done is a readback, and it shows `expected` in the place of `replaced`.
  pub record Confirmed (expected replaced foreign : List SavedRule) (end : K) : Type 0 where
    pub before_readback : K
    pub current : List SavedRule
    pub readback : kernel.list before_readback ≡ (ok current, end)
    pub shows : Shows current expected replaced foreign

  readback-Confirmed :
      (expected replaced foreign : List SavedRule) (k : K) {u : Unit {0}} {end : K}
      → (do
        current ← kernel.list
        lift (verify_result current expected replaced)
        lift (verify_present current (explicit_rules foreign)))
          k
        ≡ (ok u, end)
      → Confirmed expected replaced foreign end
  readback-Confirmed expected replaced foreign k {u} {end} h =
      let (current, read, h1) = continue-eq-ok (kernel.list k).0 _ (kernel.list k).1 h in
      let (_, result, h2) =
        continue-eq-ok (verify_result current expected replaced) _ (kernel.list k).1 h1 in
      record {
        before_readback = k;
        current = current;
        readback = pair_of_parts read (second_part h2);
        shows = verify_result_sound current expected replaced foreign result (first_part h2);
      }

  publish-Confirmed :
      (before after foreign : List SavedRule) (flag : Bool) (k : K) {u : Unit {0}} {flag' : Bool}
      {end : K}
      → publish kernel before after foreign (flag, k) ≡ (ok u, (flag', end))
      → Confirmed after before foreign end
  unfolding publish
  publish-Confirmed before after foreign flag k h =
      let obsolete = obsolete_rules before after in
      let desired = ordered after false in
      let remove : Exec (Bool × K) (Unit {0}) =
        if is_empty obsolete then pure tt else on_state (kernel.delete obsolete) in
      let write : Exec (Bool × K) (Unit {0}) =
        if is_empty desired then pure tt else (set_flag >> on_state (kernel.put desired)) in
      let s1 = (remove (flag, k)).1 in
      let s2 = (write s1).1 in
      let (_, _, h1) = continue-eq-ok (remove (flag, k)).0 _ s1 h in
      let (_, _, h2) = continue-eq-ok (write s1).0 _ s2 h1 in
      let (current, read, h3) =
        continue-eq-ok (kernel.list s2.1).0 _ (s2.0, (kernel.list s2.1).1) h2 in
      let (_, result, h4) =
        continue-eq-ok (verify_result current after before) _ (s2.0, (kernel.list s2.1).1) h3 in
      record {
        before_readback = s2.1;
        current = current;
        readback = pair_of_parts read (second_part (second_part h4));
        shows = verify_result_sound current after before foreign result (first_part h4);
      }

  rollback-Confirmed :
      (before attempted foreign : List SavedRule) (k : K) {u : Unit {0}} {end : K}
      → rollback kernel before attempted foreign k ≡ (ok u, end)
      → Confirmed before attempted foreign end
  unfolding rollback
  rollback-Confirmed before attempted foreign k h =
      let (c1, _, h1) = continue-eq-ok (kernel.list k).0 _ (kernel.list k).1 h in
      let k1 =
        for_each (λ rule. kernel.delete (rule ∷ [])) (introduced_rules attempted before c1)
          (kernel.list k).1 in
      let (c2, _, h2) = continue-eq-ok (kernel.list k1).0 _ (kernel.list k1).1 h1 in
      let k2 =
        for_each (λ rule. kernel.put (rule ∷ [])) (restorable_rules before attempted c2)
          (kernel.list k1).1 in
      readback-Confirmed before attempted foreign k2 h2

  -- How a call ends, and what is then known of the kernel.
  pub data Outcome (before after : List SavedRule) (k : K) : Result (Unit {0}) × K → Type 0 where
    -- the rules could not be listed; nothing was written
    unread :
        {e : Error} → (kernel.list k).0 ≡ err e → Outcome before after k (err e, (kernel.list k).1)
    -- the snapshot was refused; nothing was written
    refused :
        {initial : List SavedRule} {e : Error}
        → (kernel.list k).0 ≡ ok initial
        → validate_snapshot initial before after ≡ err e
        → Outcome before after k (err e, (kernel.list k).1)
    -- a readback at the end shows the new rules
    committed :
        {initial foreign : List SavedRule} {u : Unit {0}} {end : K}
        → (kernel.list k).0 ≡ ok initial
        → validate_snapshot initial before after ≡ ok foreign
        → Confirmed after before foreign end
        → Outcome before after k (ok u, end)
    -- a readback at the end shows the old rules
    restored :
        {initial foreign attempted : List SavedRule} {cause : Error} {end : K}
        → (kernel.list k).0 ≡ ok initial
        → validate_snapshot initial before after ≡ ok foreign
        → (attempted ≡ []) ⊎ (attempted ≡ after)
        → Confirmed before attempted foreign end
        → Outcome before after k (err (transaction_rolled_back cause), end)
    -- the old rules could not be confirmed, and the error says so
    unsettled :
        {initial foreign : List SavedRule} {cause recovery : Error} {end : K}
        → (kernel.list k).0 ≡ ok initial
        → validate_snapshot initial before after ≡ ok foreign
        → Outcome before after k (err (transaction_not_rolled_back cause recovery), end)

  module _ (before after : List SavedRule) (k : K) {initial foreign : List SavedRule}
      (read : (kernel.list k).0 ≡ ok initial)
      (valid : validate_snapshot initial before after ≡ ok foreign) where
    attempted_cases :
        (flag : Bool) → ((if flag then after else []) ≡ []) ⊎ ((if flag then after else []) ≡ after)
    attempted_cases true = inr refl
    attempted_cases false = inl refl

    rollback-Outcome :
        (cause : Error) (attempted : List SavedRule) (k' : K) (recovery : Result (Unit {0}))
        (end : K)
        → (attempted ≡ []) ⊎ (attempted ≡ after)
        → rollback kernel before attempted foreign k' ≡ (recovery, end)
        → Outcome before after k (err (failure cause recovery), end)
    rollback-Outcome cause attempted k' (ok u) end a h =
        restored read valid a (rollback-Confirmed before attempted foreign k' h)
    rollback-Outcome cause attempted k' (err e) end a h = unsettled read valid

    settle-Outcome :
        (outcome : Result (Unit {0})) (flag : Bool) (k' : K)
        → publish kernel before after foreign (false, (kernel.list k).1) ≡ (outcome, (flag, k'))
        → Outcome before after k (settle kernel before after foreign outcome flag k')
    unfolding settle
    settle-Outcome (ok u) flag k' h =
        committed read valid (publish-Confirmed before after foreign false (kernel.list k).1 h)
    settle-Outcome (err cause) flag k' h =
        let attempted : List SavedRule = if flag then after else [] in
        let recovery = rollback kernel before attempted foreign k' in
        rollback-Outcome cause attempted k' recovery.0 recovery.1 (attempted_cases flag) refl

  -- Every call of `reconcile` ends in one of five ways, over any kernel: the listing failed, or the
  -- snapshot was refused, and then nothing was written; or it succeeds, and the last readback shows
  -- each new rule, none of the replaced ones but derived parents, and every foreign explicit rule; or
  -- it fails with a clean rollback, and the last readback shows the old rules so; or it fails and
  -- says that the rollback is incomplete.
  pub reconcile-Outcome :
      (before after : List SavedRule) (k : K)
      → Outcome before after k (reconcile kernel before after k)
  unfolding reconcile replace_rules
  reconcile-Outcome before after k = elim (Result-cases (kernel.list k).0) [
    | inr (e, read) ↦ rw read (unread read)
    | inl (initial, read) ↦ elim (Result-cases (validate_snapshot initial before after)) [
      | inr (e, invalid) ↦ rw (read, invalid) (refused read invalid)
      | inl (foreign, valid) ↦
          let started = publish kernel before after foreign (false, (kernel.list k).1) in
          rw (read, valid)
            (settle-Outcome before after k read valid started.0 started.1.0 started.1.1 refl)
    ]
  ]
