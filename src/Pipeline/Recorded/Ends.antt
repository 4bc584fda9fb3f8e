-- ===== src/Pipeline/Recorded/Ends.antt =====
-- pipeline.rs: the three ways in which the stages of a boot end.

use meta_hybrid_mount.Plan.Builder.{MountPlan}
use meta_hybrid_mount.Prelude.{Option, ℕ, ◌≡◌, refl, ap, none, some, List, inl, inr, ◌⊎◌}
use meta_hybrid_mount.Text.{Text, bytes}
use meta_hybrid_mount.Errors.{Error, Result, ok, err}
use meta_hybrid_mount.Config.{Config}
use meta_hybrid_mount.State.{AppModule}
use meta_hybrid_mount.Exec.{first_part}
use meta_hybrid_mount.Scanner.{ModuleRecord}
use meta_hybrid_mount.State.Run.{RunState}
use meta_hybrid_mount.Sys.Journal.{CommitResult, commit_failed, committed, commit}
use meta_hybrid_mount.Sys.Mountinfo.{MountSnapshot, from_records}
use meta_hybrid_mount.Pipeline.Rollback.{startup_outcome, persist_startup_failure_state, Boot}
use meta_hybrid_mount.Pipeline.Stages.{
  committed_state, after_baseline, after_save, begin_stage, after_listing, mount_stage, executed,
  save_stage, confirm_stage, commit_stage, with_vfs_failure, MountExecutionResult,
  confirmed_mount_targets, published_state, settle_commit, StageHost,
}
use meta_hybrid_mount.Pipeline.Recorded.{
  IsFailed, IsMounted, Ends, IsConfirmedBy, begun, Follows, mounting_failed, listing_failed,
  modules_failed, state_failed, with_success, fail_stage-IsFailed, commit_failed-IsFailed,
}

module _ {W : Type 0} (host : StageHost W) (modules : List ModuleRecord) (config : Config) where
  with_vfs_failure-IsConfirmedBy :
      (plan : MountPlan) (failure : Option Error) (result : MountExecutionResult)
      (snapshot : MountSnapshot) (s : RunState)
      → IsConfirmedBy host modules config result snapshot s
      → IsConfirmedBy host modules config result snapshot (with_vfs_failure plan failure s)
  with_vfs_failure-IsConfirmedBy plan none result snapshot s h = h
  with_vfs_failure-IsConfirmedBy plan (some e) result snapshot s h = h

  published_state-IsConfirmedBy :
      (plan : MountPlan) (result : MountExecutionResult) (snapshot : MountSnapshot)
      (mount_errors : List Text) (state : RunState)
      → IsConfirmedBy host modules config result snapshot
          (published_state config plan result snapshot mount_errors state)
  unfolding published_state confirmed_mount_targets
  published_state-IsConfirmedBy plan result snapshot mount_errors state =
      with_vfs_failure-IsConfirmedBy plan result.vfs_stats.failure result snapshot _
        (refl, refl, refl, refl)

  module _ (start : Boot W) (baseline : MountSnapshot) (result : MountExecutionResult)
      (ran : (host.execute_mount_phases start).0 ≡ ok result) where
    module _ (records : List (Text × ℕ)) (at : W)
        (read : host.files.read_mounts (host.execute_mount_phases start).1.system
          ≡ (ok records, at)) where
      settle_commit-Ends :
          (outcome : CommitResult) (b : Boot W) (w : W)
          → Follows host modules config start b
          → (commit config.disable_umount b.transaction w).0 ≡ outcome
          → b.system ≡ (commit config.disable_umount b.transaction w).1.1
          → IsConfirmedBy host modules config result (from_records records) b.state
          → Ends host modules config start baseline
              (settle_commit host modules config baseline result.vfs_stats outcome b)
      unfolding settle_commit
      settle_commit-Ends committed b w follows q done c = inl (
        result,
        records,
        w,
        refl,
        follows,
        ran,
        first_part read,
        c,
        refl,
        refl,
        q,
        ap
            (λ x.
              with_success host modules config result (record b { state = committed_state b.state })
                x)
            done,
      )
      settle_commit-Ends (commit_failed failures) b w follows q done c =
          commit_failed-IsFailed host modules config baseline result.vfs_stats failures start b w
            follows q done

      after_save-Ends :
          (saved : Result (Unit {0})) (b : Boot W) (saving_at : W)
          → Follows host modules config start b
          → host.files.save_state b.state saving_at ≡ (saved, b.system)
          → IsConfirmedBy host modules config result (from_records records) b.state
          → Ends host modules config start baseline
              (after_save host modules config baseline result.vfs_stats saved b)
      unfolding commit_stage
      after_save-Ends (err e) b saving_at follows s c =
          fail_stage-IsFailed host modules config baseline (bytes "state_save") e start b follows
            (state_failed result records at saving_at b.state refl ran read s)
      after_save-Ends (ok _) b saving_at follows s c =
          let done = commit config.disable_umount b.transaction b.system in
          settle_commit-Ends done.0 (record b { system = done.1.1 }) b.system follows refl refl c

      after_listing-Ends :
          (mount_errors : List Text) (shown : List AppModule) (listed : Result (Unit {0}))
          (b : Boot W)
          → Follows host modules config start b
          → host.files.write_scan_ret shown at ≡ (listed, b.system)
          → Ends host modules config start baseline (
              after_listing host modules config baseline result
                (from_records records)
                mount_errors
                listed
                b)
      unfolding save_stage
      after_listing-Ends mount_errors shown (err e) b follows l =
          fail_stage-IsFailed host modules config baseline (bytes "module_snapshot_save") e start b
            follows (modules_failed result records at shown refl ran read l)
      after_listing-Ends mount_errors shown (ok _) b follows l =
          let state =
            published_state config b.plan result (from_records records) mount_errors b.state in
          after_save-Ends (host.files.save_state state b.system).0
            (record b { state = state; system = (host.files.save_state state b.system).1 }) b.system
            follows refl
            (published_state-IsConfirmedBy b.plan result (from_records records) mount_errors
              b.state)

    confirm_stage-Ends :
        (read : Result (List (Text × ℕ))) (b : Boot W)
        → Follows host modules config start b
        → host.files.read_mounts (host.execute_mount_phases start).1.system ≡ (read, b.system)
        → Ends host modules config start baseline
            (confirm_stage host modules config baseline result read b)
    confirm_stage-Ends (err e) b follows q =
        fail_stage-IsFailed host modules config baseline (bytes "mountinfo_confirm") e start b
          follows (listing_failed result refl ran q)
    confirm_stage-Ends (ok records) b follows q =
        after_listing-Ends records b.system q (host.files.mount_error_modules b.system) _ _ _
          follows refl

  executed-Ends :
      (start : Boot W) (baseline : MountSnapshot) (ran : Result MountExecutionResult)
      → (host.execute_mount_phases start).0 ≡ ran
      → Ends host modules config start baseline
          (executed host modules config baseline ran (host.execute_mount_phases start).1)
  executed-Ends start baseline (err e) q =
      fail_stage-IsFailed host modules config baseline (bytes "mount_execution") e start
        (host.execute_mount_phases start).1 (refl, refl, refl) (mounting_failed refl q refl)
  executed-Ends start baseline (ok result) q =
      confirm_stage-Ends start baseline result q _ _ (refl, refl, refl) refl

  -- The stages from the listing at the start.
  abbrev from_listing : Result (List (Text × ℕ)) → W → Boot W → Result (Unit {0}) × Boot W
  from_listing read w b =
      let (records, w') = startup_outcome host.files (bytes "baseline") (read, w) in
      after_baseline host modules config records (record b { system = w' })

  from_listing-Ends :
      (read : Result (List (Text × ℕ))) (w : W) (b : Boot W)
      → ((e : Error) × (read ≡ err e)
          × (from_listing read w b ≡ (
            err e,
            record b { system = persist_startup_failure_state host.files (bytes "baseline") e w },
          )))
        ⊎ ((records : List (Text × ℕ)) × (read ≡ ok records)
            × Ends host modules config
                (begun host modules config (record b { system = w }))
                (from_records records)
                (from_listing read w b))
  unfolding begin_stage
  from_listing-Ends (err e) w b = inl (e, refl, refl)
  from_listing-Ends (ok records) w b = inr (
    records,
    refl,
    executed-Ends (begun host modules config (record b { system = w })) (from_records records) _
        refl,
  )

  -- Whatever the mounting does and whichever call fails, the stages end in one of three ways. The
  -- mounts at the start could not be listed: then nothing was executed, and the failure was recorded.
  -- Or a later stage failed: then the state that was saved last names the stage of the call that
  -- failed and its error, which is returned, and shows no target as active, and the list of modules
  -- was written with none of them mounted. (That these two could not be written changes nothing
  -- else.) If the mounting, the listing after it, the write of the modules or that of the state
  -- failed, the journal that the mounting left was rolled back from there, and "clean" is recorded
  -- only where every action of it was undone and the listing after it has each target that the
  -- mounting registered as it was at the start; if the commit failed, "clean" is not recorded. Or all
  -- went well: then the mounting returned a result, the OverlayFS and Magic targets that the state
  -- shows are the targets of this result that the listing after it has, in their order, the VFS
  -- targets are those of the result, the active targets are the three joined, and the state was saved
  -- after the journal that the mounting left was committed.
  pub mount_stage-Ends :
      (b : Boot W)
      → ((e : Error) × ((host.files.read_mounts b.system).0 ≡ err e)
          × (mount_stage host modules config b ≡ (
            err e,
            record b {
              system =
                  persist_startup_failure_state host.files
                    (bytes "baseline")
                    e
                    (host.files.read_mounts b.system).1;
            },
          )))
        ⊎ ((records : List (Text × ℕ)) × ((host.files.read_mounts b.system).0 ≡ ok records)
            × (IsMounted host modules config
                  (begun host modules config
                    (record b { system = (host.files.read_mounts b.system).1 }))
                  (mount_stage host modules config b).0
                  (mount_stage host modules config b).1
                ⊎ IsFailed host modules config
                    (begun host modules config
                      (record b { system = (host.files.read_mounts b.system).1 }))
                    (from_records records)
                    (mount_stage host modules config b).0
                    (mount_stage host modules config b).1))
  unfolding mount_stage
  mount_stage-Ends b =
      from_listing-Ends (host.files.read_mounts b.system).0 (host.files.read_mounts b.system).1 b
