-- ===== src/Tests/Kernel.antt =====
-- A kernel that keeps its rules and its isolated UIDs in two lists, and that it keeps its contract.
use meta_hybrid_mount.Prelude.{
  ℕ, Bool, ◌≡◌, inl, inr, refl, true, false, not, List, [], ◌∷◌, ◌++◌, any, any-In, filter,
  In-filter, In-filter_of, In-append, In-append_left, In-append_right, arith,
}
use meta_hybrid_mount.Text.{Text, bytes, is_empty}
use meta_hybrid_mount.Errors.{ok, err, os_error}
use meta_hybrid_mount.Runtime.Rules.{SavedRule, same_key, semantic_equal}
use meta_hybrid_mount.Runtime.Rules.Checks.{same_key_refl, semantic_equal_refl}
use meta_hybrid_mount.Runtime.Rules.Transaction.{RuleKernel}
use meta_hybrid_mount.Runtime.Rules.Refines.{KernelContract}
use meta_hybrid_mount.Runtime.Transaction.{UidKernel, contains}

pub record Tables : Type 0 where
  pub rows : List SavedRule
  pub isolated : List ℕ

abbrev without : List SavedRule → List SavedRule → List SavedRule
without rs rows = filter (λ row. not (any (same_key row) rs)) rows

abbrev pub table_kernel : RuleKernel Tables
table_kernel = record {
  list = λ k. (ok k.rows, k);
  put = λ rs k. (ok tt, record k { rows = rs ++ without rs k.rows });
  delete = λ rs k. (ok tt, record k { rows = without rs k.rows });
}

abbrev pub table_uids : UidKernel Tables
table_uids = record {
  uids = λ k. (ok k.isolated, k);
  add_uids = λ uids k. (ok tt, record k { isolated = k.isolated ++ uids });
  remove_uids =
      λ uids k. (ok tt, record k { isolated = filter (λ uid. not (contains uids uid)) k.isolated });
}

-- A kernel that cannot isolate.
abbrev pub failing_uids : UidKernel Tables
failing_uids = record table_uids { add_uids = λ uids k. (err (os_error 1), k) }

pub not-false_of : {b : Bool} → b ≡ false → not b ≡ true
not-false_of h = ground arith

pub not-true_of : {b : Bool} → not b ≡ true → b ≡ false
not-true_of h = ground arith

unfoldable pub table_kernel-KernelContract : KernelContract table_kernel
table_kernel-KernelContract = record {
  view = λ k. k.rows;
  accepts = λ r. not (is_empty r.virtual_path);
  list_view = λ k. refl;
  put_ok = λ rs k c u. refl;
  put_present = λ rs k a c u m.
      any-In (semantic_equal a) (rs ++ without rs k.rows) a
        (In-append_left rs (without rs k.rows) a m) (semantic_equal_refl a);
  put_keeps = λ rs k a m d e.
      In-append_right rs (without rs k.rows) a
        (In-filter_of (λ row. not (any (same_key row) rs)) k.rows a m (not-false_of e));
  put_only = λ rs k a m d. elim (In-append rs (without rs k.rows) a m) [
    | inl q ↦ inr (any-In (same_key a) rs a q (same_key_refl a))
    | inr q ↦ inl (In-filter (λ row. not (any (same_key row) rs)) k.rows a q).0
  ];
  delete_ok = λ rs k c. refl;
  delete_keeps =
      λ rs k a m d e. In-filter_of (λ row. not (any (same_key row) rs)) k.rows a m (not-false_of e);
  delete_only = λ rs k a c m d.
      let (here, unlike) = In-filter (λ row. not (any (same_key row) rs)) k.rows a m in
      (here, not-true_of unlike);
}

abbrev pub rule_of : Text → Text → Text → SavedRule
rule_of id virtual real = record {
  module_id = id;
  virtual_path = virtual;
  real_path = real;
  flags = 0;
  uid = 0;
}

abbrev pub old_rule : SavedRule
old_rule = rule_of (bytes "m") (bytes "/system/etc/a") (bytes "/data/m/a")

abbrev pub new_rule : SavedRule
new_rule = rule_of (bytes "m") (bytes "/system/etc/b") (bytes "/data/m/b")

abbrev pub other_rule : SavedRule
other_rule = rule_of (bytes "o") (bytes "/system/lib/c") (bytes "/data/o/c")

-- The kernel shows the module's old rule and a rule that is not owned.
abbrev pub tables : Tables
tables = record { rows = old_rule ∷ other_rule ∷ []; isolated = 5 ∷ [] }
