-- ===== src/Sys/Journal/Accounts.antt =====
-- sys/transaction.rs: which cleanups a commit runs, and in which order.
use mathlib.Core.List.{reverse-cons}
use meta_hybrid_mount.Prelude.{
  ℕ, suc, ◌+◌, ◌≡◌, ◌≢◌, refl, Bool, true, false, not, List, [], ◌∷◌, ◌++◌, append-nil,
  append_assoc, ap, ◌∙◌, reverse, filter, length, length-append, Bool-cases, inl, inr, arith,
}
use meta_hybrid_mount.Text.{Text, is_empty}
use meta_hybrid_mount.Errors.{Result, ok, err}
use meta_hybrid_mount.Sys.Journal.{
  CleanupFailure, RollbackReport, empty_report, is_retainable, CleanupAction, MountTransaction,
  CommitResult, committed, commit_failed, is_deferred, record_outcome, run_action, run_actions,
  commit_loop, count_retained, finish_commit, commit,
}

module _ {W : Type 0} (retain_resources : Bool) where
  -- The actions that a commit runs at once, and those that it puts off.
  abbrev pub immediate : List (CleanupAction W) → List (CleanupAction W)
  immediate actions = filter (λ a. not (is_deferred retain_resources a.kind)) actions

  abbrev pub put_off : List (CleanupAction W) → List (CleanupAction W)
  put_off actions = filter (λ a. is_deferred retain_resources a.kind) actions

  commit_loop_lem :
      (actions deferred : List (CleanupAction W)) (s : RollbackReport × W)
      → commit_loop retain_resources actions deferred s
        ≡ (deferred ++ put_off actions, run_actions (immediate actions) s)
  unfolding commit_loop run_actions
  commit_loop_lem [] deferred s = rw (append-nil deferred) refl
  commit_loop_lem (a ∷ rest) deferred s = elim (Bool-cases (is_deferred retain_resources a.kind)) [
    | inl e ↦
        rw
          (
            e,
            commit_loop_lem rest (deferred ++ a ∷ []) s,
            append_assoc deferred (a ∷ []) (put_off rest),
          )
          refl
    | inr e ↦ rw (e, commit_loop_lem rest deferred (run_action a s)) refl
  ]

abbrev pub count_retainable : {W : Type 0} → List (CleanupAction W) → ℕ
count_retainable actions = length (filter (λ a. is_retainable a.kind) actions)

one_more : (n k : ℕ) → n + 1 + k ≡ n + suc k
one_more n k = omega arith

count_retained_lem :
    {W : Type 0} (actions : List (CleanupAction W)) (report : RollbackReport)
    → count_retained actions report
      ≡ record report { retained = report.retained + count_retainable actions }
unfolding count_retained
count_retained_lem [] report = λ i. record report { retained = none_more i }
  where
    none_more : report.retained ≡ report.retained + 0
    none_more = omega arith
count_retained_lem (a ∷ rest) report = elim (Bool-cases (is_retainable a.kind)) [
  | inl e ↦
      rw (e, count_retained_lem rest (record report { retained = report.retained + 1 }))
        (λ i. record report { retained = one_more (report.retained) (count_retainable rest) i })
  | inr e ↦ rw (e, count_retained_lem rest report) refl
]

-- How many actions a report accounts for.
abbrev pub accounted : RollbackReport → ℕ
accounted report = report.cleaned + length report.failures

accounted-record_outcome :
    (label : Text) (outcome : Result (Unit {0})) (report : RollbackReport)
    → accounted (record_outcome label outcome report) ≡ accounted report + 1
unfolding record_outcome
accounted-record_outcome label (ok _) report = omega arith
accounted-record_outcome label (err error) report =
    omega (arith, length-append report.failures (record { label = label; error = error } ∷ []))

retained-record_outcome :
    (label : Text) (outcome : Result (Unit {0})) (report : RollbackReport)
    → (record_outcome label outcome report).retained ≡ report.retained
unfolding record_outcome
retained-record_outcome label (ok _) report = refl
retained-record_outcome label (err error) report = refl

run_actions-accounted :
    {W : Type 0} (actions : List (CleanupAction W)) (report : RollbackReport) (w : W)
    → accounted (run_actions actions (report, w)).0 ≡ accounted report + length actions
unfolding run_actions run_action
run_actions-accounted [] report w = omega arith
run_actions-accounted (a ∷ rest) report w = omega (
  arith,
  run_actions-accounted rest (record_outcome a.label (a.run w).0 report) (a.run w).1,
  accounted-record_outcome a.label (a.run w).0 report,
)

run_actions-retained :
    {W : Type 0} (actions : List (CleanupAction W)) (report : RollbackReport) (w : W)
    → (run_actions actions (report, w)).0.retained ≡ report.retained
unfolding run_actions run_action
run_actions-retained [] report w = refl
run_actions-retained (a ∷ rest) report w =
    run_actions-retained rest (record_outcome a.label (a.run w).0 report) (a.run w).1
    ∙ retained-record_outcome a.label (a.run w).0 report

length-filters :
    {A : Type 0} (p : A → Bool) (xs : List A)
    → length (filter (λ a. not (p a)) xs) + length (filter p xs) ≡ length xs
length-filters p [] = refl
length-filters p (x ∷ xs) = elim (Bool-cases (p x)) [
  | inl e ↦ rw e (omega (arith, length-filters p xs))
  | inr e ↦ rw e (omega (arith, length-filters p xs))
]

length-reverse : {A : Type 0} (xs : List A) → length (reverse xs) ≡ length xs
length-reverse [] = refl
length-reverse (x ∷ xs) =
    rw (reverse-cons x xs) (omega (arith, length-append (reverse xs) (x ∷ []), length-reverse xs))

no_failures : (xs : List CleanupFailure) → is_empty xs ≡ true → xs ≡ []
no_failures [] e = refl
no_failures (x ∷ xs) e = cc

some_failure : (xs : List CleanupFailure) → is_empty xs ≡ false → xs ≢ []
some_failure [] e p = cc
some_failure (x ∷ xs) e p = cc

module _ {W : Type 0} (retain_resources : Bool) (tx : MountTransaction W) (w : W) where
  -- What a commit does at first: the actions that it does not put off, the last one first.
  abbrev pub first_run : RollbackReport × W
  first_run = run_actions (immediate retain_resources (reverse tx.actions)) (empty_report, w)

  -- What it does then, if one of these failed.
  abbrev pub second_run : RollbackReport × W
  second_run = run_actions (put_off retain_resources (reverse tx.actions)) first_run

  -- How a commit ends.
  pub data Outcome : CommitResult × (RollbackReport × W) → Type 0 where
    -- nothing failed: what was put off is not run, and the report counts what is retained
    clean :
        (report : RollbackReport) (end : W)
        → first_run ≡ (report, end)
        → report.failures ≡ []
        → report.cleaned + length (put_off retain_resources (reverse tx.actions))
          ≡ length tx.actions
        → Outcome (
          committed,
          (
            record report {
              retained = count_retainable (put_off retain_resources (reverse tx.actions));
            },
            end,
          ),
        )
    -- something failed: what was put off is run too, and each action is accounted for
    failed :
        (report : RollbackReport) (end : W)
        → first_run.0.failures ≢ []
        → second_run ≡ (report, end)
        → accounted report ≡ length tx.actions
        → Outcome (commit_failed report.failures, (report, end))

  -- Every commit ends so: the actions that are not put off are run, the last one first. If none of
  -- them failed, nothing else is run and the report counts the retained ones; otherwise those that
  -- were put off are run as well, and each registered action counts as cleaned or has its failure.
  pub commit-Outcome : Outcome (commit retain_resources tx w)
  unfolding commit finish_commit
  commit-Outcome =
      let order = reverse tx.actions in
      let now = immediate retain_resources order in
      let later = put_off retain_resources order in
      let all_parts : length now + length later ≡ length tx.actions =
        length-filters (λ a. is_deferred retain_resources a.kind) order
        ∙ length-reverse tx.actions in
      let ran : accounted first_run.0 ≡ length now =
        omega (arith, run_actions-accounted now empty_report w) in
      let counted : first_run.0.retained + count_retainable later ≡ count_retainable later =
        omega (arith, run_actions-retained now empty_report w) in
      rw (commit_loop_lem retain_resources order [] (empty_report, w))
        (elim (Bool-cases (is_empty first_run.0.failures)) [
          | inl e ↦
              let nothing = no_failures first_run.0.failures e in
              let none_failed : length first_run.0.failures ≡ 0 = ap length nothing in
              rw (e, count_retained_lem later first_run.0, counted)
                (clean first_run.0 first_run.1 refl nothing
                  (omega (arith, ran, none_failed, all_parts)))
          | inr e ↦ rw e (
              failed second_run.0 second_run.1 (some_failure first_run.0.failures e) refl (
                omega (arith, run_actions-accounted later first_run.0 first_run.1, ran, all_parts)))
        ])
