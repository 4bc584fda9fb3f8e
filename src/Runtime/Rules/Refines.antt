-- ===== src/Runtime/Rules/Refines.antt =====
-- runtime/rules.rs: over a kernel that keeps its contract, `reconcile` replaces the rules.
use meta_hybrid_mount.Prelude.{all, ◌≡◌, ◌⊎◌, Bool, true, false, List, if◌then◌else◌, any, In}
use meta_hybrid_mount.Text.{is_empty}
use meta_hybrid_mount.Errors.{ok}
use meta_hybrid_mount.Exec.{◌>>=◌, ◌>>◌}
use meta_hybrid_mount.Runtime.Rules.{SavedRule, same_key, semantic_equal, derived_parent, ordered}
use meta_hybrid_mount.Runtime.Rules.Unique.{HasUniqueKeys}
use meta_hybrid_mount.Runtime.Rules.Transaction.{RuleKernel, obsolete_rules}

-- The contract of a kernel that answers: a listing shows its rules and changes none. A batch of rules
-- that it accepts, which the protocol can carry and whose sources are there, is written, and where its
-- keys are distinct each rule of it is then listed, in the place of an earlier rule with its key. A
-- deletion of such rules removes them by their keys. Neither touches an explicit rule with another key.
-- Derived parents may come and go, and a written rule may come back with derived bits.
pub record KernelContract {K : Type 0} (kernel : RuleKernel K) : Type 0 where
  pub view : K → List SavedRule
  pub accepts : SavedRule → Bool
  pub list_view : (k : K) → kernel.list k ≡ (ok (view k), k)
  pub put_ok :
      (rs : List SavedRule) (k : K)
      → all accepts rs ≡ true
      → HasUniqueKeys rs
      → (kernel.put rs k).0 ≡ ok tt
  pub put_present :
      (rs : List SavedRule) (k : K) (a : SavedRule)
      → all accepts rs ≡ true
      → HasUniqueKeys rs
      → In a rs
      → any (semantic_equal a) (view (kernel.put rs k).1) ≡ true
  pub put_keeps :
      (rs : List SavedRule) (k : K) (a : SavedRule)
      → In a (view k)
      → derived_parent a ≡ false
      → any (same_key a) rs ≡ false
      → In a (view (kernel.put rs k).1)
  pub put_only :
      (rs : List SavedRule) (k : K) (a : SavedRule)
      → In a (view (kernel.put rs k).1)
      → derived_parent a ≡ false
      → In a (view k) ⊎ (any (same_key a) rs ≡ true)
  pub delete_ok :
      (rs : List SavedRule) (k : K) → all accepts rs ≡ true → (kernel.delete rs k).0 ≡ ok tt
  pub delete_keeps :
      (rs : List SavedRule) (k : K) (a : SavedRule)
      → In a (view k)
      → derived_parent a ≡ false
      → any (same_key a) rs ≡ false
      → In a (view (kernel.delete rs k).1)
  pub delete_only :
      (rs : List SavedRule) (k : K) (a : SavedRule)
      → all accepts rs ≡ true
      → In a (view (kernel.delete rs k).1)
      → derived_parent a ≡ false
      → In a (view k) × (any (same_key a) rs ≡ false)

module _ {K : Type 0} {kernel : RuleKernel K} (contract : KernelContract kernel)
    (before after : List SavedRule) (carried : all (KernelContract.accepts contract) before ≡ true)
    (written_carried : all (KernelContract.accepts contract) after ≡ true)
    (unique : HasUniqueKeys after) where
  open contract use {
    view, accepts, list_view, put_ok, put_present, put_keeps, put_only, delete_ok, delete_keeps,
    delete_only,
  }

  -- The kernel after the deletion, and after the write.
  removed : K → K
  removed k =
      if is_empty (obsolete_rules before after)
      then k
      else (kernel.delete (obsolete_rules before after) k).1

  written : K → K
  written k = if is_empty (ordered after false) then k else (kernel.put (ordered after false) k).1
