-- ===== src/Pipeline.antt =====
-- pipeline.rs: the VFS phase of the boot, and the mounts that a boot records.
pub mod Outcome
pub mod Rollback
pub mod Stages
pub mod Recorded
pub mod Startup
use meta_hybrid_mount.Prelude.{
  ℕ, Bool, true, false, ◌&&◌, not, Option, none, some, List, [], ◌∷◌, ◌++◌, ◌==◌, any,
  if◌then◌else◌,
}
use meta_hybrid_mount.Prelude.Sets.{to_set}
use meta_hybrid_mount.Text.{Text, bytes, text_eq, text_lt, is_empty}
use meta_hybrid_mount.Errors.{
  Error, Result, ok, err, forbid, boot_guard_present, guard_not_retired, provider_changed,
  nomount_collision, unknown_provider_error, readback_missing, apply_degraded, readback_failed,
  readback_cleanup_failed,
}
use meta_hybrid_mount.Exec.{Exec, lift, ◌>>=◌, ◌>>◌}
use meta_hybrid_mount.Config.{Config}
use meta_hybrid_mount.Plan.Builder.{MountPlan}
use meta_hybrid_mount.Vfs.BootGuard.{VfsGuardVerdict, absent, own, foreign, describe_record}
use meta_hybrid_mount.Vfs.Protocol.Encode.{
  RuleFormat, EncodedRule, is_derived_parent, build_add_rule_payloads_for,
}
use meta_hybrid_mount.Vfs.Protocol.Decode.{ListedRule}
use meta_hybrid_mount.Vfs.Exec.{
  VfsExecStats, VfsApplied, VfsPolicyOutcome, VfsKernel, no_stats, plan_rules, missing_rules,
  evaluate_readback, apply_rules_with_policy_diagnosed,
}

-- A provider that `open_active` finds: whether it is NoMount, its name and its record format.
pub record Attached : Type 0 where
  pub is_nomount : Bool
  pub provider : Text
  pub format : RuleFormat

-- The calls of the boot guard on the disk `D`, and those of the provider on the kernel `K`.
pub record PhaseHost (K D : Type 0) : Type 0 where
  pub inspect : D → Result VfsGuardVerdict
  pub clear_rule_guard : Exec D Bool
  pub arm : Exec D (Unit {0})
  pub drop_guard : D → D
  pub open_active : Exec K Attached
  pub kernel : VfsKernel K

-- The fields of `RunState` that the phase writes, and `applied.rules`: the rules that the registered
-- rollback removes, none before it is registered.
pub record Phase (K D : Type 0) : Type 0 where
  pub kernel : K
  pub disk : D
  pub vfs_provider : Option Text
  pub vfs_error : Option Error
  pub vfs_error_modules : List Text
  pub registered : List EncodedRule

unfoldable pub merge_active_mounts : List Text → List Text → List Text → List Text
merge_active_mounts overlay magic vfs = to_set text_lt (overlay ++ (magic ++ vfs))

abbrev pub vfs_failure_stats : Error → VfsExecStats
vfs_failure_stats detail = record no_stats { failure = some detail }

abbrev pub same_channel : Bool → Bool → Bool
same_channel true b = b
same_channel false b = not b

-- A rule of the provider at the place of a planned one, which is not a derived parent.
abbrev pub collides : List EncodedRule → ListedRule → Bool
collides planned rule =
    rule.uid == 0
    && (not (is_derived_parent rule.flags rule.real_path)
        && any (λ (p : EncodedRule). text_eq p.virtual_path rule.virtual_path) planned)

module _ {K D : Type 0} (host : PhaseHost K D) (config : Config) (plan : MountPlan) where
  abbrev pub Step : Type 0
  Step = Exec (Phase K D) VfsExecStats

  abbrev pub record_vfs_failure : Error → Phase K D → Phase K D
  record_vfs_failure e s = record s {
    vfs_provider = none;
    vfs_error = some e;
    vfs_error_modules = plan.vfs_module_ids;
  }

  -- The backend is skipped, and the boot goes on.
  abbrev pub degrade : Error → Step
  degrade e s = (ok (vfs_failure_stats e), record_vfs_failure e s)

  abbrev pub refuse : Error → Step
  refuse e s = (err e, record_vfs_failure e s)

  abbrev pub by_policy : Error → Step
  by_policy e = if config.vfs_strict then refuse e else degrade e

  abbrev pub on_kernel : {A : Type 0} → Exec K A → (Result A → Step) → Step
  on_kernel call next s = next (call s.kernel).0 (record s { kernel = (call s.kernel).1 })

  -- The rules were removed, so the rollback has nothing left to remove.
  abbrev pub unregister : Phase K D → Phase K D
  unregister s = record s { registered = [] }

  -- `evaluate_readback` where rules are missing; its `true` is for none missing.
  abbrev pub evaluated : List Text → VfsExecStats → Result Bool → Step
  evaluated missing stats (err e) s = refuse e s
  evaluated missing stats (ok true) s = (ok stats, s)
  evaluated missing stats (ok false) s = degrade (readback_missing missing) s

  abbrev pub missing_removed : List Text → VfsExecStats → Result (Unit {0}) → Step
  missing_removed missing stats (err cleanup) s =
      refuse (readback_cleanup_failed cleanup (readback_missing missing)) s
  missing_removed missing stats (ok _) s =
      evaluated missing stats (evaluate_readback missing config.vfs_strict) (unregister s)

  abbrev pub unread_removed : Error → Result (Unit {0}) → Step
  unread_removed e (err cleanup) s = refuse (readback_cleanup_failed cleanup e) s
  unread_removed e (ok _) s = by_policy (readback_failed e) (unregister s)

  abbrev pub confirm : List EncodedRule → VfsExecStats → List Text → Step
  confirm rules stats [] s = (ok stats, s)
  confirm rules stats (path ∷ more) s =
      on_kernel (host.kernel.remove_rules rules) (missing_removed (path ∷ more) stats) s

  -- What the listing after the apply says.
  abbrev pub read_back : List EncodedRule → VfsExecStats → Result (List ListedRule) → Step
  read_back rules stats (ok listed) s = confirm rules stats (missing_rules rules listed) s
  read_back rules stats (err e) s = on_kernel (host.kernel.remove_rules rules) (unread_removed e) s

  abbrev pub applied_by : Text → Phase K D → Phase K D
  applied_by provider s = record s {
    vfs_provider = some provider;
    vfs_error = none;
    vfs_error_modules = [];
  }

  abbrev pub cause_of : Option Error → Error
  cause_of none = unknown_provider_error
  cause_of (some e) = e

  abbrev pub reported : Attached → List EncodedRule → Option Error → Option VfsExecStats → Step
  reported a rules failure none s = degrade (apply_degraded (cause_of failure)) (unregister s)
  reported a rules failure (some stats) s =
      on_kernel host.kernel.list_rules (read_back rules stats) (applied_by a.provider s)

  abbrev pub after_apply : Attached → List EncodedRule → Result VfsPolicyOutcome → Step
  after_apply a rules (err e) s = refuse e s
  after_apply a rules (ok outcome) s = reported a rules outcome.failure outcome.stats s

  -- The rollback is registered before the kernel is changed.
  unfoldable pub apply_batch : Attached → VfsApplied → Step
  apply_batch a batch s =
      on_kernel
        (apply_rules_with_policy_diagnosed host.kernel batch config.vfs_isolate_uids
          config.vfs_strict)
        (after_apply a batch.rules) (record s { registered = batch.rules })

  abbrev pub after_preflight : Attached → VfsApplied → Result (Unit {0}) → Step
  after_preflight a batch (err e) s = by_policy e s
  after_preflight a batch (ok _) s = apply_batch a batch s

  -- NoMount cannot shadow a rule of another owner.
  unfoldable pub nomount_preflight : Attached → VfsApplied → Exec K (Unit {0})
  nomount_preflight a batch = do
    _ ← lift (build_add_rule_payloads_for batch.rules 0 a.format)
    existing ← host.kernel.list_rules
    lift (forbid (any (collides batch.rules) existing) nomount_collision)

  abbrev pub planned : Bool → Attached → Result VfsApplied → Step
  planned use_nomount a (err e) s = refuse e s
  planned use_nomount a (ok batch) s =
      if use_nomount
      then on_kernel (nomount_preflight a batch) (after_preflight a batch) s
      else apply_batch a batch s

  abbrev pub attached : Bool → Result Attached → Step
  attached use_nomount (err e) s = by_policy e s
  attached use_nomount (ok a) s =
      if same_channel a.is_nomount use_nomount
      then planned use_nomount a (plan_rules plan) s
      else by_policy provider_changed s

  -- The guard is dropped at the end, after an error too.
  abbrev pub armed : Bool → Result (Unit {0}) → Step
  armed use_nomount (err e) s = refuse e s
  armed use_nomount (ok _) s =
      let (r, s') = on_kernel host.open_active (attached use_nomount) s in
      (r, record s' { disk = host.drop_guard s'.disk })

  abbrev pub arm_guard : Bool → Step
  arm_guard use_nomount s =
      armed use_nomount (host.arm s.disk).0 (record s { disk = (host.arm s.disk).1 })

  abbrev pub guard_cleared : Bool → Result Bool → Step
  guard_cleared use_nomount (err e) s = degrade (guard_not_retired e) s
  guard_cleared use_nomount (ok was_there) s = arm_guard use_nomount s

  abbrev pub inspected : Bool → Result VfsGuardVerdict → Step
  inspected use_nomount (ok absent) s = arm_guard use_nomount s
  inspected use_nomount (ok (own r)) s = degrade (boot_guard_present (describe_record r)) s
  inspected use_nomount (ok (foreign r)) s =
      guard_cleared use_nomount (host.clear_rule_guard s.disk).0
        (record s { disk = (host.clear_rule_guard s.disk).1 })
  inspected use_nomount (err e) s = degrade e s

  unfoldable pub apply_vfs_phase : Bool → Step
  apply_vfs_phase use_nomount s =
      if is_empty plan.vfs_module_ids
      then (ok no_stats, s)
      else inspected use_nomount (host.inspect s.disk) s
