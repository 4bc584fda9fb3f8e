-- ===== src/Runtime/Hot.antt =====
-- runtime/hot.rs: `apply`, which loads, reloads or unloads the rules of one module. The session holds
-- the ledger that `apply` loads first; what reads files and asks the device is a record, `HotHost`.
pub mod Replaced
use meta_hybrid_mount.Prelude.{
  ℕ, Bool, true, false, ◌&&◌, not, Option, none, some, List, [], ◌∷◌, ◌++◌, map, any, filter, find,
  if◌then◌else◌,
}
use meta_hybrid_mount.Text.{Text, bytes, text_eq, is_empty}
use meta_hybrid_mount.Errors.{
  Result, ok, err, forbid, hot_guard_present, already_active, not_active, module_not_found,
  active_elsewhere,
}
use meta_hybrid_mount.Exec.{Exec, pure, lift, ◌>>=◌, ◌>>◌}
use meta_hybrid_mount.Config.{Config}
use meta_hybrid_mount.Partitions.{PartitionLayout}
use meta_hybrid_mount.Scanner.{ModuleRecord}
use meta_hybrid_mount.State.{AppModule}
use meta_hybrid_mount.State.Modules.{app_modules}
use meta_hybrid_mount.Plan.Build.{build_plan}
use meta_hybrid_mount.Vfs.BootGuard.{VfsGuardVerdict, absent, own, foreign, describe_record}
use meta_hybrid_mount.Runtime.Rules.{SavedRule}
use meta_hybrid_mount.Runtime.Rules.Transaction.{RuleKernel, preflight, verify_owned}
use meta_hybrid_mount.Runtime.Transaction
use meta_hybrid_mount.Runtime.Transaction.{UidKernel, Session}
use meta_hybrid_mount.Runtime.Ledger.{Ledger, OwnedMount, require_ready, next_generation}
use meta_hybrid_mount.Runtime.Boot.{planned_rules}
use meta_hybrid_mount.Runtime.Policy.{plan_hot_module}

pub data Action : Type 0 where
  load reload unload : Action

-- The calls on the kernel `K` and on the disk `D`; `open_kernel` answers the provider, and `arm` and
-- `drop_guard` are those of the boot guard.
pub record HotHost (K D : Type 0) : Type 0 where
  pub inspect : Exec D VfsGuardVerdict
  pub open_kernel : Ledger → Exec K Text
  pub validate : List OwnedMount → Exec D (Unit {0})
  pub config_and_modules : Exec D (Config × List ModuleRecord)
  pub detect : Config → Exec D PartitionLayout
  pub exists : Text → Bool
  pub arm : Exec D (Unit {0})
  pub drop_guard : D → D
  pub save : Ledger → Exec D (Unit {0})
  pub refresh_snapshots : Ledger → Exec D (Unit {0})
  pub rules : RuleKernel K
  pub isolation : UidKernel K

abbrev pub guard : VfsGuardVerdict → Result (Unit {0})
guard absent = ok tt
guard (foreign r) = ok tt
guard (own r) = err (hot_guard_present (describe_record r))

abbrev pub owned_rules : Text → Ledger → List SavedRule
owned_rules id saved = filter (λ (r : SavedRule). text_eq r.module_id id) saved.rules

abbrev pub check_action : Action → List SavedRule → Result (Unit {0})
check_action load before = forbid (not (is_empty before)) already_active
check_action _ before = forbid (is_empty before) not_active

-- What an action asks for: the rules, the UIDs to isolate, and the module's new entry.
pub record Request : Type 0 where
  pub rules : List SavedRule
  pub uids : List ℕ
  pub updated : Option AppModule

abbrev pub installed_module : Text → List ModuleRecord → Result ModuleRecord
installed_module id modules = found (find (λ (m : ModuleRecord). text_eq m.id id) modules)
  where
    found : Option ModuleRecord → Result ModuleRecord
    found none = err module_not_found
    found (some m) = ok m

-- `iter_mut().find`: the first module of the id.
unfoldable pub configured : Text → List ModuleRecord → List ModuleRecord
configured id [] = []
configured id (m ∷ rest) =
    let others = configured id rest in
    if text_eq m.id id then record m { disabled = false } ∷ rest else m ∷ others

abbrev pub first_of : List AppModule → Option AppModule
first_of [] = none
first_of (m ∷ rest) = some m

abbrev pub without_module : Text → List AppModule → List AppModule
without_module id modules = filter (λ (m : AppModule). not (text_eq m.id id)) modules

abbrev pub with_updated : Text → Option AppModule → List AppModule → List AppModule
with_updated id none modules = modules
with_updated id (some m) modules = without_module id modules ++ m ∷ []

abbrev pub mounted_flag : Ledger → AppModule → AppModule
mounted_flag saved m =
    if any (text_eq m.id) saved.non_vfs_modules
    then m
    else record m { is_mounted = any (λ (r : SavedRule). text_eq r.module_id m.id) saved.rules }

-- The ledger after a transaction, before the snapshots are written.
abbrev pub syncing : Text → Option AppModule → Ledger → Ledger
syncing id updated saved = record saved {
  generation = next_generation saved.generation;
  modules = map (mounted_flag saved) (with_updated id updated saved.modules);
  phase = bytes "syncing";
}

abbrev pub ready : Ledger → Ledger
ready saved = record saved { phase = bytes "ready" }

module _ {K D : Type 0} where
  abbrev pub on_kernel : {A : Type 0} → (Ledger → Exec K A) → Exec (Session K D) A
  on_kernel call s = ((call s.saved s.kernel).0, record s { kernel = (call s.saved s.kernel).1 })

  abbrev pub on_disk : {A : Type 0} → (Ledger → Exec D A) → Exec (Session K D) A
  on_disk call s = ((call s.saved s.disk).0, record s { disk = (call s.saved s.disk).1 })

  abbrev pub asking : {A : Type 0} → (Ledger → Result A) → Exec (Session K D) A
  asking f s = (f s.saved, s)

  abbrev pub change : (Ledger → Ledger) → Exec (Session K D) (Unit {0})
  change f s = (ok tt, record s { saved = f s.saved })

module _ {K D : Type 0} (host : HotHost K D) where
  unfoldable pub request_plan : Text → Ledger → Exec D Request
  request_plan id saved = do
    found ← host.config_and_modules
    m ← lift (installed_module id found.1)
    layout ← host.detect found.0
    whole ← lift (
        build_plan record {
          modules = configured id found.1;
          config = found.0;
          layout = layout;
          vfs_available = true;
        })
    plan ← lift (plan_hot_module host.exists m found.0 layout saved)
    rules ← lift (planned_rules plan)
    pure record {
      rules = rules;
      uids = found.0.vfs_isolate_uids;
      updated = first_of (app_modules (m ∷ []) found.0 plan [] (id ∷ []));
    }

  unfoldable pub request : Action → Text → Ledger → Exec D Request
  request unload id saved = pure record { rules = []; uids = []; updated = none }
  request load id saved = request_plan id saved
  request reload id saved = request_plan id saved

  unfoldable pub commit : Text → List SavedRule → Request → Exec (Session K D) ℕ
  commit id before r = do
    Transaction.reconcile host.rules host.isolation host.save before r.rules r.uids
    change (syncing id r.updated)
    on_disk host.save
    on_disk host.refresh_snapshots
    change ready
    on_disk host.save
    asking (λ saved. ok saved.generation)

  -- The guard is dropped at the end, after an error too.
  abbrev pub guarded : Exec (Session K D) ℕ → Exec (Session K D) ℕ
  guarded body s = ((body s).0, record ((body s).1) { disk = host.drop_guard (body s).1.disk })

  unfoldable pub apply_to : Action → Text → List SavedRule → Exec (Session K D) ℕ
  apply_to action id before = do
    asking (λ saved. check_action action before)
    r ← on_disk (request action id)
    on_kernel (λ saved. preflight host.rules before r.rules)
    on_disk (λ saved. host.arm)
    guarded (commit id before r)

  unfoldable pub apply : Action → Text → Exec (Session K D) ℕ
  apply action id = do
    asking require_ready
    verdict ← on_disk (λ saved. host.inspect)
    lift (guard verdict)
    provider ← on_kernel host.open_kernel
    change (λ saved. record saved { vfs_provider = some provider })
    on_kernel (λ saved. verify_owned host.rules saved.rules)
    on_disk (λ saved. host.validate saved.mounts)
    asking (λ saved. forbid (any (text_eq id) saved.non_vfs_modules) active_elsewhere)
    λ s. apply_to action id (owned_rules id s.saved) s
