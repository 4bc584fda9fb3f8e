-- ===== src/Tests/Rules.antt =====
-- The rule transaction on a small kernel.
use meta_hybrid_mount.Prelude.{[], ◌∷◌}
use meta_hybrid_mount.Runtime.Rules.Transaction.{reconcile}
use meta_hybrid_mount.Runtime.Rules.Outcome.{Outcome, reconcile-Outcome}
use meta_hybrid_mount.Tests.Kernel.{table_kernel, old_rule, new_rule, tables}

reconcile-Outcome_example :
    Outcome table_kernel
      (old_rule ∷ [])
      (new_rule ∷ [])
      tables
      (reconcile table_kernel (old_rule ∷ []) (new_rule ∷ []) tables)
reconcile-Outcome_example = reconcile-Outcome table_kernel (old_rule ∷ []) (new_rule ∷ []) tables
