-- ===== src/Runtime/Rules/Transaction.antt =====
-- runtime/rules.rs: `preflight`, `reconcile` and `rollback`, over any kernel.
use meta_hybrid_mount.Prelude.{
  Bool, true, false, ◌&&◌, ◌||◌, not, List, [], ◌∷◌, if◌then◌else◌, any, all, filter,
}
use meta_hybrid_mount.Text.{is_empty}
use meta_hybrid_mount.Errors.{
  Error, Result, ok, err, transaction_rolled_back, transaction_not_rolled_back,
}
use meta_hybrid_mount.Exec.{on_state, set_flag, Exec, pure, lift, ◌>>=◌, ◌>>◌, for_each}
use meta_hybrid_mount.Runtime.Rules.{
  SavedRule, same_key, semantic_equal, derived_parent, verify_present, verify_result,
  validate_snapshot, explicit_rules, ordered,
}

-- `trait RuleKernel`: the calls of the kernel, which may fail and may change it in any way.
pub record RuleKernel (K : Type 0) : Type 0 where
  pub list : Exec K (List SavedRule)
  pub put : List SavedRule → Exec K (Unit {0})
  pub delete : List SavedRule → Exec K (Unit {0})

-- The old rules that no new rule has the key of, deepest first.
unfoldable pub obsolete_rules : List SavedRule → List SavedRule → List SavedRule
obsolete_rules before after = ordered (filter (λ old. not (any (same_key old) after)) before) true

unfoldable pub introduced_rules : List SavedRule → List SavedRule → List SavedRule → List SavedRule
introduced_rules attempted before current =
    ordered
      (filter
        (λ new. not (any (λ old. same_key old new) before) && any (semantic_equal new) current)
        attempted)
      true

unfoldable pub restorable_rules : List SavedRule → List SavedRule → List SavedRule → List SavedRule
restorable_rules before attempted current =
    ordered
      (filter
        (λ old.
          not (any (semantic_equal old) current)
          && all
              (λ actual. derived_parent actual || any (λ new. semantic_equal new actual) attempted)
              (filter (same_key old) current))
        before)
      false

-- The error of a transaction that failed, after its rollback.
abbrev pub failure : Error → Result (Unit {0}) → Error
failure cause (ok _) = transaction_rolled_back cause
failure cause (err recovery) = transaction_not_rolled_back cause recovery

module _ {K : Type 0} (kernel : RuleKernel K) where
  unfoldable pub verify_owned : List SavedRule → Exec K (Unit {0})
  verify_owned before = do current ← kernel.list; lift (verify_present current before)

  unfoldable pub preflight : List SavedRule → List SavedRule → Exec K (Unit {0})
  preflight before after = do
    initial ← kernel.list
    _ ← lift (validate_snapshot initial before after)
    pure tt

  -- The closure `apply`; the flag that it captures is `put_attempted`.
  unfoldable pub publish :
      List SavedRule → List SavedRule → List SavedRule → Exec (Bool × K) (Unit {0})
  publish before after foreign = do
    let obsolete = obsolete_rules before after
    let desired = ordered after false
    if is_empty obsolete then pure tt else on_state (kernel.delete obsolete)
    if is_empty desired then pure tt else (do set_flag; on_state (kernel.put desired))
    current ← on_state kernel.list
    lift (verify_result current after before)
    lift (verify_present current (explicit_rules foreign))

  unfoldable pub rollback : List SavedRule → List SavedRule → List SavedRule → Exec K (Unit {0})
  rollback before attempted foreign = do
    current ← kernel.list
    λ k. (
      ok tt,
      for_each (λ rule. kernel.delete (rule ∷ [])) (introduced_rules attempted before current) k,
    )
    current' ← kernel.list
    λ k. (
      ok tt,
      for_each (λ rule. kernel.put (rule ∷ [])) (restorable_rules before attempted current') k,
    )
    current'' ← kernel.list
    lift (verify_result current'' before attempted)
    lift (verify_present current'' (explicit_rules foreign))

  -- What `reconcile` does with the outcome of its closure.
  unfoldable pub settle :
      List SavedRule
      → List SavedRule
      → List SavedRule
      → Result (Unit {0})
      → Bool
      → Exec K (Unit {0})
  settle before after foreign (ok _) attempted k = (ok tt, k)
  settle before after foreign (err cause) attempted k =
      let (recovery, k') = rollback before (if attempted then after else []) foreign k in
      (err (failure cause recovery), k')

  unfoldable pub replace_rules :
      List SavedRule → List SavedRule → List SavedRule → Exec K (Unit {0})
  replace_rules before after foreign k =
      let (outcome, state) = publish before after foreign (false, k) in
      settle before after foreign outcome state.0 state.1

  unfoldable pub reconcile : List SavedRule → List SavedRule → Exec K (Unit {0})
  reconcile before after = do
    initial ← kernel.list
    foreign ← lift (validate_snapshot initial before after)
    replace_rules before after foreign
