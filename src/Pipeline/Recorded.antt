-- ===== src/Pipeline/Recorded.antt =====
-- pipeline.rs: what a boot records of its mounts, whether it ends well or not.
pub mod Ends
use meta_hybrid_mount.Vfs.Exec.{VfsExecStats}
use meta_hybrid_mount.Plan.Builder.{MountPlan}
use meta_hybrid_mount.Prelude.{
  Option, subst, ℕ, ap, length, ◌≡◌, refl, Bool, true, none, some, List, [], ◌∷◌, all, filter,
  Bool-cases, inl, inr, ◌⊎◌,
}
use meta_hybrid_mount.Text.{Text, bytes, is_empty}
use meta_hybrid_mount.Errors.{cleanup_actions_failed, Error, Result, ok, err}
use meta_hybrid_mount.Config.{Config}
use meta_hybrid_mount.State.{AppModule}
use meta_hybrid_mount.Scanner.{ModuleRecord}
use meta_hybrid_mount.State.Run.{RunState}
use meta_hybrid_mount.State.Modules.{app_modules}
use meta_hybrid_mount.Sys.Journal.{
  new_transaction, register_rollback_only, CommitResult, commit_failed, CleanupFailure, committed,
  commit, rollback,
}
use meta_hybrid_mount.Sys.Mountinfo.{MountSnapshot, from_records, contains_point}
use meta_hybrid_mount.Pipeline.{merge_active_mounts}
use meta_hybrid_mount.Pipeline.Rollback.{
  saving, listing, startup_outcome, persist_startup_failure_state, failed_state,
  rollback_mount_pipeline, record_mount_failure, summary_of, fail_stage, mountinfo_mismatches, Boot,
}
use meta_hybrid_mount.Pipeline.Stages.{
  after_baseline, after_save, begin_stage, after_listing, mount_stage, executed, save_stage,
  labels_of, confirm_stage, commit_stage, after_commit, with_vfs_failure, MountExecutionResult,
  confirmed_mount_targets, published_state, settle_commit, StageHost,
}

is_empty-eq : {A : Type 0} (xs : List A) → is_empty xs ≡ true → xs ≡ []
is_empty-eq [] h = refl
is_empty-eq (x ∷ xs) h = cc

-- The three summaries, and what the clean one rests on.
summary_of-cases :
    (failures : List CleanupFailure) (m : Result (List Text × List Text))
    → ((summary_of (is_empty failures) m).0 ≡ bytes "unverified")
      ⊎ (((summary_of (is_empty failures) m).0 ≡ bytes "incomplete")
          ⊎ (((summary_of (is_empty failures) m).0 ≡ bytes "clean")
              × (failures ≡ [])
              × (m ≡ ok ([], []))))
summary_of-cases failures (err e) = inl refl
summary_of-cases [] (ok ([], [])) = inr (inr (refl, refl, refl))
summary_of-cases [] (ok ([], y ∷ ys)) = inr (inl refl)
summary_of-cases [] (ok (x ∷ xs, ys)) = inr (inl refl)
summary_of-cases (f ∷ fs) (ok (xs, ys)) = inr (inl refl)

mismatches-ok :
    (baseline : MountSnapshot) (mounted : List Text) (read : Result (List (Text × ℕ)))
    {m : List Text × List Text}
    → mountinfo_mismatches baseline mounted read ≡ ok m
    → (records : List (Text × ℕ)) × (read ≡ ok records)
unfolding mountinfo_mismatches
mismatches-ok baseline mounted (ok records) h = (records, refl)
mismatches-ok baseline mounted (err e) h = cc

after_commit-cases :
    (m : Result (List Text × List Text))
    → ((after_commit m).0 ≡ bytes "unverified") ⊎ ((after_commit m).0 ≡ bytes "incomplete")
after_commit-cases (err e) = inl refl
after_commit-cases (ok (leftover, missing)) = inr refl

-- No target is shown as active.
abbrev pub ShowsNoMount : RunState → Type 0
ShowsNoMount state =
    (state.active_mounts ≡ [])
    × (state.overlay_active_mounts ≡ [])
    × (state.magic_active_mounts ≡ [])
    × (state.vfs_active_mounts ≡ [])
    × (state.confirmed_active_mounts ≡ [])

module _ {W : Type 0} (host : StageHost W) (modules : List ModuleRecord) (config : Config) where
  -- What the mounting is given: the journal has the list of paths that KernelSU is to unmount.
  abbrev pub begun : Boot W → Boot W
  begun b = record b {
    transaction =
        register_rollback_only (bytes "ksu_try_umount_list") host.clear_unmount_list
          new_transaction;
  }

  -- Every action of the journal was undone, and after that a listing, which was read last, has each
  -- target that was mounted as it was at the start.
  abbrev pub IsUndone : MountSnapshot → Boot W → W → W → Type 0
  IsUndone baseline b failing before =
      (records : List (Text × ℕ)) × ((rollback b.transaction failing).0.failures ≡ [])
      × (host.files.read_mounts (rollback b.transaction failing).1 ≡ (ok records, before))
      × (mountinfo_mismatches baseline b.mounted (ok records) ≡ ok ([], []))

  -- The system with the state of a failed boot, and a list that shows no module as mounted.
  abbrev pub with_failure : Boot W → W → W
  with_failure b before =
      let saved = saving host.files b.state before in
      listing host.files
        (app_modules modules config b.plan (host.files.mount_error_modules saved) []) saved

  -- The plan, the journal and the targets are those that the mounting left.
  abbrev pub Follows : Boot W → Boot W → Type 0
  Follows start b =
      (b.plan ≡ (host.execute_mount_phases start).1.plan)
      × (b.transaction ≡ (host.execute_mount_phases start).1.transaction)
      × (b.mounted ≡ (host.execute_mount_phases start).1.mounted)

  -- Which call failed, before the journal was committed, and the system that it left: the mounting, the
  -- listing after it, the write of the modules, or that of the state.
  pub data FailedBy (start : Boot W) (stage : Text) (e : Error) (failing : W) : Type 0 where
    mounting_failed :
        stage ≡ bytes "mount_execution"
        → (host.execute_mount_phases start).0 ≡ err e
        → failing ≡ (host.execute_mount_phases start).1.system
        → FailedBy start stage e failing
    listing_failed :
        (result : MountExecutionResult)
        → stage ≡ bytes "mountinfo_confirm"
        → (host.execute_mount_phases start).0 ≡ ok result
        → host.files.read_mounts (host.execute_mount_phases start).1.system ≡ (err e, failing)
        → FailedBy start stage e failing
    modules_failed :
        (result : MountExecutionResult) (records : List (Text × ℕ)) (at : W)
        (shown : List AppModule)
        → stage ≡ bytes "module_snapshot_save"
        → (host.execute_mount_phases start).0 ≡ ok result
        → host.files.read_mounts (host.execute_mount_phases start).1.system ≡ (ok records, at)
        → host.files.write_scan_ret shown at ≡ (err e, failing)
        → FailedBy start stage e failing
    state_failed :
        (result : MountExecutionResult) (records : List (Text × ℕ)) (at saving_at : W)
        (state : RunState)
        → stage ≡ bytes "state_save"
        → (host.execute_mount_phases start).0 ≡ ok result
        → host.files.read_mounts (host.execute_mount_phases start).1.system ≡ (ok records, at)
        → host.files.save_state state saving_at ≡ (err e, failing)
        → FailedBy start stage e failing

  -- A call failed before the commit, and the journal was rolled back from the system that it left.
  abbrev pub IsRolledBack : Boot W → MountSnapshot → Boot W → Text → Error → Text → W → Type 0
  IsRolledBack start baseline b stage e status before =
      (failing : W) × FailedBy start stage e failing
      × (before ≡ (host.files.read_mounts (rollback b.transaction failing).1).1)
      × ((status ≡ bytes "unverified")
          ⊎ ((status ≡ bytes "incomplete")
              ⊎ ((status ≡ bytes "clean") × IsUndone baseline b failing before)))

  -- The commit failed, which has run the journal's actions itself; the end is never called clean.
  abbrev pub IsUncommitted : Boot W → Text → Error → Text → W → Type 0
  IsUncommitted b stage e status before =
      (w : W) × (failures : List CleanupFailure) × (stage ≡ bytes "mount_transaction_commit")
      × ((commit config.disable_umount b.transaction w).0 ≡ commit_failed failures)
      × (e ≡ cleanup_actions_failed (labels_of failures))
      × (before ≡ (host.files.read_mounts (commit config.disable_umount b.transaction w).1.1).1)
      × ((status ≡ bytes "unverified") ⊎ (status ≡ bytes "incomplete"))

  -- The boot failed in a stage behind its start, and the state that was written last says so.
  abbrev pub IsFailed : Boot W → MountSnapshot → Result (Unit {0}) → Boot W → Type 0
  IsFailed start baseline r b =
      (e : Error) × (stage : Text) × (status : Text) × (before : W) × (r ≡ err e)
      × Follows start b
      × (b.system ≡ with_failure b before)
      × (b.state.failed_stage ≡ some stage)
      × (b.state.failure_reason ≡ some e)
      × ShowsNoMount b.state
      × (b.state.rollback_status ≡ some status)
      × (IsRolledBack start baseline b stage e status before
          ⊎ IsUncommitted b stage e status before)

  -- The state shows the targets that were mounted, as far as a listing has them.
  abbrev pub IsConfirmedBy : MountExecutionResult → MountSnapshot → RunState → Type 0
  IsConfirmedBy result snapshot s =
      (s.overlay_active_mounts ≡ filter (contains_point snapshot) result.active_mounts)
      × (s.magic_active_mounts ≡ filter (contains_point snapshot) result.magic_stats.active_mounts)
      × (s.vfs_active_mounts ≡ result.vfs_stats.active_targets)
      × (s.active_mounts
          ≡ merge_active_mounts s.overlay_active_mounts s.magic_active_mounts s.vfs_active_mounts)

  -- The system with the state and the description of a boot that went well.
  abbrev pub with_success : MountExecutionResult → Boot W → W → W
  with_success result b w =
      host.update_description b.state.storage_mode (length b.plan.overlay_module_ids)
        (length b.plan.magic_module_ids) (length result.vfs_stats.mounted_module_ids)
        (saving host.files b.state w)

  -- The mounting went well, what is shown of it was in the listing after it, and the journal was
  -- committed before the state was written last.
  abbrev pub IsMounted : Boot W → Result (Unit {0}) → Boot W → Type 0
  IsMounted start r b =
      (result : MountExecutionResult) × (records : List (Text × ℕ)) × (w : W) × (r ≡ ok tt)
      × Follows start b
      × ((host.execute_mount_phases start).0 ≡ ok result)
      × ((host.files.read_mounts (host.execute_mount_phases start).1.system).0 ≡ ok records)
      × IsConfirmedBy result (from_records records) b.state
      × (b.state.rollback_status ≡ some (bytes "committed"))
      × (b.state.failed_stage ≡ none)
      × ((commit config.disable_umount b.transaction w).0 ≡ committed)
      × (b.system ≡ with_success result b (commit config.disable_umount b.transaction w).1.1)

  abbrev pub Ends : Boot W → MountSnapshot → Result (Unit {0}) × Boot W → Type 0
  Ends start baseline x = IsMounted start x.0 x.1 ⊎ IsFailed start baseline x.0 x.1

  pub fail_stage-IsFailed :
      (baseline : MountSnapshot) (stage : Text) (e : Error) (start b : Boot W)
      → Follows start b
      → FailedBy start stage e b.system
      → Ends start baseline (fail_stage host.files modules config baseline stage e b)
  unfolding fail_stage rollback_mount_pipeline record_mount_failure failed_state
  fail_stage-IsFailed baseline stage e start b follows why =
      let undone = rollback b.transaction b.system in
      let read = (host.files.read_mounts undone.1).0 in
      let before = (host.files.read_mounts undone.1).1 in
      let m = mountinfo_mismatches baseline b.mounted read in
      let status = (summary_of (is_empty undone.0.failures) m).0 in
      let verified : (status ≡ bytes "unverified")
          ⊎ ((status ≡ bytes "incomplete")
              ⊎ ((status ≡ bytes "clean") × IsUndone baseline b b.system before)) =
        elim (summary_of-cases undone.0.failures m) [
          | inl u ↦ inl u
          | inr (inl i) ↦ inr (inl i)
          | inr (inr (c, f, q)) ↦
              let (records, p) = mismatches-ok baseline b.mounted read q in
              inr (
                inr (
                  c,
                  (
                    records,
                    f,
                    ap (λ r. (r, before)) p,
                    subst
                        (λ (x : Result (List (Text × ℕ))).
                          mountinfo_mismatches baseline b.mounted x ≡ ok ([], []))
                        p q,
                  ),
                ))
        ] in
      inr (
        e,
        stage,
        status,
        before,
        refl,
        follows,
        refl,
        refl,
        refl,
        (refl, refl, refl, refl, refl),
        refl,
        inl (b.system, why, refl, verified),
      )

  pub commit_failed-IsFailed :
      (baseline : MountSnapshot) (stats : VfsExecStats) (failures : List CleanupFailure)
      (start b : Boot W) (w : W)
      → Follows start b
      → (commit config.disable_umount b.transaction w).0 ≡ commit_failed failures
      → b.system ≡ (commit config.disable_umount b.transaction w).1.1
      → Ends start baseline
          (settle_commit host modules config baseline stats (commit_failed failures) b)
  unfolding settle_commit record_mount_failure failed_state
  commit_failed-IsFailed baseline stats failures start b w follows q at =
      let m = mountinfo_mismatches baseline b.mounted (host.files.read_mounts b.system).0 in
      inr (
        cleanup_actions_failed (labels_of failures),
        bytes "mount_transaction_commit",
        (after_commit m).0,
        (host.files.read_mounts b.system).1,
        refl,
        follows,
        refl,
        refl,
        refl,
        (refl, refl, refl, refl, refl),
        refl,
        inr (
          w,
          failures,
          refl,
          q,
          refl,
          ap (λ x. (host.files.read_mounts x).1) at,
          after_commit-cases m,
        ),
      )
