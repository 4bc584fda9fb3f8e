-- ===== src/Pipeline/Startup/Provider.antt =====
-- pipeline.rs and vfs/mod.rs: a boot beside a foreign provider.
use meta_hybrid_mount.Prelude.{◌≡◌, refl, ap, Bool, true, false, if◌then◌else◌}
use meta_hybrid_mount.Text.{bytes}
use meta_hybrid_mount.Errors.{ok}
use meta_hybrid_mount.Exec.{Exec, ◌>>=◌, ◌>>◌}
use meta_hybrid_mount.Pipeline.Startup.{
  plan_stage, unless_applied, finished, after_provider, ForeignNomountProbe, blocked, StartHost,
  ensure_loaded_for_plan_with_guard, provide_vfs, startup_phase, provider_stage, startup, mounting,
  run_mount_pipeline_impl, SessionHost, run_session, run_pipeline,
}

provide_vfs-same :
    {W : Type 0} (available : W → Bool × W) (load load' : Exec W (Unit {0}))
    (probe : ForeignNomountProbe) (w : W)
    → blocked probe ≡ true
    → provide_vfs available load probe w ≡ provide_vfs available load' probe w
unfolding provide_vfs ensure_loaded_for_plan_with_guard
provide_vfs-same available load load' probe w h = rw h refl

module _ {W B : Type 0} (host : StartHost W B) (load' : Exec W (Unit {0}))
    (foreign : (w : W) → blocked (host.detect_foreign_nomount w).0 ≡ true) where
  abbrev other : StartHost W B
  other = record host { load = load' }

  provider_stage-same : provider_stage host ≡ provider_stage other
  unfolding provider_stage plan_stage
  provider_stage-same = λ i config modules layout w.
      after_provider host config modules layout (host.detect_foreign_nomount w).0 (
        provide_vfs-same host.available host.load load' (host.detect_foreign_nomount w).0
          (host.detect_foreign_nomount w).1 (foreign w) i)

  startup-same : startup host ≡ startup other
  unfolding startup
  startup-same =
      ap
        (λ stage baseline w.
          (do
            config ← startup_phase host (bytes "config") host.load_config
            startup_phase host (bytes "config") (host.print_config config)
            layout ←
                startup_phase host (bytes "partition_layout")
                  (host.detect_with_mounts baseline config)
            modules ← startup_phase host (bytes "scan") (host.list_modules config layout)
            stage config modules layout)
            (host.prepare w))
        provider_stage-same

  run_mount_pipeline_impl-same : run_mount_pipeline_impl host ≡ run_mount_pipeline_impl other
  unfolding run_mount_pipeline_impl
  run_mount_pipeline_impl-same =
      ap (λ start baseline w. mounting host (start baseline w).0 (start baseline w).1) startup-same

  run_session-same :
      (session : SessionHost W B) → run_session session host ≡ run_session session other
  unfolding run_session
  run_session-same session =
      ap (λ run. do baseline ← session.start; λ w. finished session host baseline (run baseline w))
        run_mount_pipeline_impl-same

  unless_applied-same :
      (session : SessionHost W B) (applied : Bool)
      → unless_applied session host applied ≡ unless_applied session other applied
  unless_applied-same session true = refl
  unless_applied-same session false = run_session-same session

  -- Where a foreign provider answers, or where it is not known whether one does, a boot never loads the
  -- module of the program: with any other way to load it, the boot returns the same and leaves the same
  -- system.
  pub run_pipeline-same :
      (session : SessionHost W B)
      → run_pipeline session host ≡ run_pipeline session (record host { load = load' })
  unfolding run_pipeline
  run_pipeline-same session =
      ap {B = Bool → Exec W (Unit {0})}
        (λ (rest : Bool → Exec W (Unit {0})) boot_hook. do
          session.enter
          applied ← λ w. if boot_hook then session.already_applied w else (ok false, w)
          rest applied)
        (λ i applied. unless_applied-same session applied i)
