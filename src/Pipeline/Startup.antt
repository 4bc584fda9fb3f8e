-- ===== src/Pipeline/Startup.antt =====
-- pipeline.rs: the stages of a boot up to the planned state, and the whole of a boot; vfs/mod.rs and
-- config.rs: whether a VFS provider is loaded before the planning, and what its absence means.
pub mod Provider
use meta_hybrid_mount.Prelude.{
  ℕ, Bool, true, false, ◌&&◌, ◌||◌, not, Option, none, some, List, [], any, if◌then◌else◌,
}
use meta_hybrid_mount.Text.{Text, bytes}
use meta_hybrid_mount.Errors.{
  is_ok, Error, Result, ok, err, provider_conflict, provider_guard_failed, provider_missing,
  vfs_rules_skipped,
}
use meta_hybrid_mount.Exec.{Exec, ◌>>=◌, ◌>>◌, pure}
use meta_hybrid_mount.Config.{Mode, vfs, mode_eq, ModuleRule, Config}
use meta_hybrid_mount.Partitions.{PartitionLayout}
use meta_hybrid_mount.Scanner.{ModuleRecord}
use meta_hybrid_mount.Plan.Builder.{MountPlan}
use meta_hybrid_mount.Plan.Build.{build_plan}
use meta_hybrid_mount.State.Modules.{app_modules}
use meta_hybrid_mount.State.Run.{RunState, from_plan}
use meta_hybrid_mount.Sys.Journal.{new_transaction}
use meta_hybrid_mount.Pipeline.Rollback.{StateHost, startup_outcome}
use meta_hybrid_mount.Pipeline.Stages.{StageHost, mount_stage}

abbrev pub is_vfs_mode : Option Mode → Bool
is_vfs_mode none = false
is_vfs_mode (some mode) = mode_eq mode vfs

abbrev pub names_vfs : List ℕ × ModuleRule → Bool
names_vfs (id, rule) =
    is_vfs_mode rule.default_mode || any (λ (p : List ℕ × Mode). mode_eq p.1 vfs) rule.paths

unfoldable pub wants_vfs : Config → Bool
wants_vfs config = mode_eq config.default_mode vfs || any names_vfs config.rules

unfoldable pub unavailable_is_fatal : Bool → Bool → Bool → Bool
unavailable_is_fatal wants_vfs strict available = wants_vfs && (strict && not available)

pub record ForeignNomountProbe : Type 0 where
  pub present : Bool
  pub error : Option Error

abbrev pub has_error : Option Error → Bool
has_error none = false
has_error (some e) = true

abbrev pub blocked : ForeignNomountProbe → Bool
blocked probe = probe.present || has_error probe.error

-- Why a boot with `vfs_strict` fails.
abbrev pub failed_or_missing : Option Error → Error
failed_or_missing none = provider_missing
failed_or_missing (some e) = provider_guard_failed e

abbrev pub unavailable_reason : ForeignNomountProbe → Error
unavailable_reason probe =
    if probe.present then provider_conflict else failed_or_missing probe.error

-- What a boot without `vfs_strict` records.
abbrev pub failed_or_skipped : Option Error → Error
failed_or_skipped none = vfs_rules_skipped
failed_or_skipped (some e) = provider_guard_failed e

-- The calls of a boot up to the mounting. `prepare` is what is done before the configuration is read;
-- `print_config` is `to_toml`, which may fail; `available` and `load` are the probe of a provider and
-- `insmod`. `B` is the listing of the mounts at the start.
pub record StartHost (W B : Type 0) : Type 0 where
  pub stages : Config → List ModuleRecord → StageHost W
  pub files : StateHost W
  pub prepare : W → W
  pub load_config : Exec W Config
  pub print_config : Config → Exec W (Unit {0})
  pub detect_with_mounts : B → Config → Exec W PartitionLayout
  pub list_modules : Config → PartitionLayout → Exec W (List ModuleRecord)
  pub detect_foreign_nomount : W → ForeignNomountProbe × W
  pub available : W → Bool × W
  pub load : Exec W (Unit {0})
  pub stage_plan : MountPlan → List ℕ → Bool → Exec W (Unit {0})

module _ {W : Type 0} (available : W → Bool × W) (load : Exec W (Unit {0})) where
  abbrev pub unless_available : Bool × W → Bool × W
  unless_available (true, w) = (true, w)
  unless_available (false, w) = available (load w).1

  unfoldable pub ensure_loaded_for_plan_with_guard : Bool → W → Bool × W
  ensure_loaded_for_plan_with_guard true w = (false, w)
  ensure_loaded_for_plan_with_guard false w = unless_available (available w)

  -- The choice that a boot makes by the probe.
  unfoldable pub provide_vfs : ForeignNomountProbe → W → Bool × W
  provide_vfs probe w =
      if probe.present then available w else ensure_loaded_for_plan_with_guard (blocked probe) w

-- The planned state, with what is known of the provider.
abbrev pub with_provider : ForeignNomountProbe → Bool → RunState → RunState
with_provider probe vfs_available state =
    if probe.present && vfs_available
    then record state { vfs_provider = some (bytes "nomount") }
    else state

abbrev pub with_absence : Config → ForeignNomountProbe → Bool → MountPlan → RunState → RunState
with_absence config probe vfs_available plan state =
    if wants_vfs config && not vfs_available
    then record state {
      vfs_error = some (failed_or_skipped probe.error);
      vfs_error_modules = plan.vfs_module_ids;
    }
    else state

-- What the mounting starts from.
pub record Started : Type 0 where
  pub config : Config
  pub modules : List ModuleRecord
  pub plan : MountPlan
  pub state : RunState

module _ {W B : Type 0} (host : StartHost W B) where
  abbrev pub startup_phase : {A : Type 0} → Text → Exec W A → Exec W A
  startup_phase stage call w = startup_outcome host.files stage (call w)

  abbrev pub failing_if : Bool → Error → Exec W (Unit {0})
  failing_if b e w = (if b then err e else ok tt, w)

  -- The plan is recorded before anything is mounted.
  unfoldable pub plan_stage :
      Config → List ModuleRecord → ForeignNomountProbe → Bool → MountPlan → Exec W Started
  plan_stage config modules probe vfs_available plan = do
    host.stage_plan plan config.vfs_isolate_uids probe.present
    mount_errors ← λ w. (ok (host.files.mount_error_modules w), w)
    startup_phase (bytes "state")
        (host.files.write_scan_ret (app_modules modules config plan mount_errors []))
    state ← λ w. (
      ok (
          with_absence config probe vfs_available plan (
            with_provider probe vfs_available
              (from_plan (host.files.now w) host.files.pid modules plan mount_errors))),
      w,
    )
    startup_phase (bytes "state") (host.files.save_state state)
    pure record { config = config; modules = modules; plan = plan; state = state }

  -- With what the choice of the provider gave.
  abbrev pub after_provider :
      Config
      → List ModuleRecord
      → PartitionLayout
      → ForeignNomountProbe
      → Bool × W
      → Result Started × W
  after_provider config modules layout probe (vfs_available, w) =
      (do
        startup_phase (bytes "vfs") (
            failing_if (unavailable_is_fatal (wants_vfs config) config.vfs_strict vfs_available)
              (unavailable_reason probe))
        plan ← startup_phase (bytes "plan") (λ w'. (
          build_plan record {
            modules = modules;
            config = config;
            layout = layout;
            vfs_available = vfs_available;
          },
          w',
        ))
        plan_stage config modules probe vfs_available plan)
        w

  unfoldable pub provider_stage : Config → List ModuleRecord → PartitionLayout → Exec W Started
  provider_stage config modules layout w =
      let (probe, w') = host.detect_foreign_nomount w in
      after_provider config modules layout probe (provide_vfs host.available host.load probe w')

  unfoldable pub startup : B → Exec W Started
  startup baseline w =
      (do
        config ← startup_phase (bytes "config") host.load_config
        startup_phase (bytes "config") (host.print_config config)
        layout ← startup_phase (bytes "partition_layout") (host.detect_with_mounts baseline config)
        modules ← startup_phase (bytes "scan") (host.list_modules config layout)
        provider_stage config modules layout)
        (host.prepare w)

  -- `run_mount_pipeline_impl`: its result, the targets that it has mounted, and the system.
  abbrev pub mounting : Result Started → W → Result (Unit {0}) × (List Text × W)
  mounting (err e) w = (err e, ([], w))
  mounting (ok started) w =
      let (r, b) =
        mount_stage (host.stages started.config started.modules) started.modules started.config
          record {
            system = w;
            state = started.state;
            plan = started.plan;
            transaction = new_transaction;
            mounted = [];
          } in
      (r, (b.mounted, b.system))

  unfoldable pub run_mount_pipeline_impl : B → W → Result (Unit {0}) × (List Text × W)
  run_mount_pipeline_impl baseline w = let (r, w') = startup baseline w in mounting r w'

-- The calls around a boot: the namespace and the lock, whether the boot was applied already, and the
-- start and the end of the session, with the listing of the mounts between them.
pub record SessionHost (W B : Type 0) : Type 0 where
  pub enter : Exec W (Unit {0})
  pub already_applied : Exec W Bool
  pub start : Exec W B
  pub finish : B → Bool → List Text → Exec W (Unit {0})

-- The error of the mounting is returned before that of the end of the session.
abbrev pub first_error : Result (Unit {0}) → Result (Unit {0}) → Result (Unit {0})
first_error (err e) recorded = err e
first_error (ok _) recorded = recorded

module _ {W B : Type 0} (session : SessionHost W B) (host : StartHost W B) where
  abbrev pub finished : B → Result (Unit {0}) × (List Text × W) → Result (Unit {0}) × W
  finished baseline (outcome, (mounted, w)) =
      let (recorded, w') = session.finish baseline (is_ok outcome) mounted w in
      (first_error outcome recorded, w')

  unfoldable pub run_session : Exec W (Unit {0})
  run_session = do
    baseline ← session.start
    λ w. finished baseline (run_mount_pipeline_impl host baseline w)

  abbrev pub unless_applied : Bool → Exec W (Unit {0})
  unless_applied true w = (ok tt, w)
  unless_applied false w = run_session w

  unfoldable pub run_pipeline : Bool → Exec W (Unit {0})
  run_pipeline boot_hook = do
    session.enter
    applied ← λ w. if boot_hook then session.already_applied w else (ok false, w)
    unless_applied applied
