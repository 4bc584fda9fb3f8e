-- ===== src/Runtime/Boot/Release.antt =====
-- runtime/boot.rs: `cleanup`, by which a soft reboot gives up what the session owns. The calls that
-- reach the device are a record, `Host`.
use meta_hybrid_mount.Prelude.{
  ℕ, Bool, false, ◌||◌, not, none, some, List, [], ◌==◌, map, if◌then◌else◌,
}
use meta_hybrid_mount.Text.{Text, bytes, text_eq, is_empty}
use meta_hybrid_mount.Errors.{Error, Result, ok, err, incomplete_operation}
use meta_hybrid_mount.Exec.{Exec, pure, ◌>>=◌, ◌>>◌}
use meta_hybrid_mount.State.{AppModule}
use meta_hybrid_mount.Runtime.Rules.{SavedRule}
use meta_hybrid_mount.Runtime.Rules.Transaction.{RuleKernel, reconcile}
use meta_hybrid_mount.Runtime.Transaction.{UidKernel}
use meta_hybrid_mount.Runtime.Ledger.{
  Ledger, OwnedMount, require_clean, owned_unmounts, release_mount_resources,
}
use meta_hybrid_mount.Runtime.Boot.{remaining_rules}

-- The calls that reach the device. `arm` stands for the boot guard, `drop_guard` for its `Drop`.
pub record Host (W : Type 0) : Type 0 where
  pub open_kernel : Ledger → Exec W (Unit {0})
  pub mount_entries : Exec W (Unit {0})
  pub save : Ledger → Exec W (Unit {0})
  pub rules : RuleKernel W
  pub isolation : UidKernel W
  pub arm : Exec W (Unit {0})
  pub drop_guard : W → W
  pub report_untracked : Exec W (List ℕ)
  pub validate : List OwnedMount → Exec W (Unit {0})
  pub detach : List OwnedMount → Exec W (Unit {0})
  pub release_unmounts : List Text → Exec W (Unit {0})
  pub remove_semaphore : Exec W (Unit {0})
  pub refresh_snapshots : Ledger → Exec W (Unit {0})

abbrev pub without_rules : Ledger → Ledger
without_rules saved = record saved { rules = []; isolated_uids = [] }

abbrev pub owns_rules : Ledger → Bool
owns_rules saved = not (is_empty saved.rules) || not (is_empty saved.isolated_uids)

abbrev pub cleaning : Ledger → Ledger
cleaning saved = record saved { phase = bytes "cleaning" }

abbrev pub unmounted : AppModule → AppModule
unmounted m = record m { is_mounted = false }

abbrev pub cleaned : Ledger → Ledger
cleaned saved = record saved {
  phase = bytes "clean";
  error = none;
  non_vfs_modules = [];
  pending_rules = [];
  vfs_provider = none;
  modules = map unmounted saved.modules;
}

abbrev pub failed : Error → Ledger → Ledger
failed e saved = record saved { error = some e }

abbrev pub is_incomplete : Ledger → Bool
is_incomplete saved = text_eq saved.phase (bytes "applying") || text_eq saved.phase (bytes "error")

module _ {W : Type 0} where
  -- A call on the device, with the ledger at hand.
  abbrev pub calling : {A : Type 0} → (Ledger → Exec W A) → Exec (Ledger × W) A
  calling call (saved, w) = ((call saved w).0, (saved, (call saved w).1))

  abbrev pub change : (Ledger → Ledger) → Exec (Ledger × W) (Unit {0})
  change f (saved, w) = (ok tt, (f saved, w))

  abbrev pub asking : {A : Type 0} → (Ledger → Result A) → Exec (Ledger × W) A
  asking f (saved, w) = (f saved, (saved, w))

module _ {W : Type 0} (host : Host W) where
  -- The guard is dropped at the end of its block, after an error too.
  abbrev pub guarded : Exec (Ledger × W) (Unit {0}) → Exec (Ledger × W) (Unit {0})
  guarded body s = ((body s).0, ((body s).1.0, host.drop_guard (body s).1.1))

  unfoldable pub release_remaining : List SavedRule → Exec (Ledger × W) (Unit {0})
  release_remaining remaining = do
    calling (λ saved. reconcile host.rules remaining [])
    calling (λ saved. host.isolation.remove_uids saved.isolated_uids)
    change without_rules
    calling host.save

  unfoldable pub release_rules : Exec (Ledger × W) (Unit {0})
  release_rules = do
    calling host.open_kernel
    current ← calling (λ saved. host.rules.list)
    remaining ← asking (λ saved. remaining_rules current saved.rules)
    calling (λ saved. host.arm)
    guarded (release_remaining remaining)

  unfoldable pub cleanup_owned : Exec (Ledger × W) (Unit {0})
  cleanup_owned = do
    λ s. if owns_rules s.0 then release_rules s else (ok tt, s)
    release_mount_resources host.detach host.release_unmounts
    calling host.save
    calling (λ saved. host.remove_semaphore)

  -- What `cleanup` does with the outcome of `cleanup_owned`.
  unfoldable pub settle_cleanup : Result (Unit {0}) → Exec (Ledger × W) (Unit {0})
  settle_cleanup (err e) = do change (failed e); calling host.save; λ s. (err e, s)
  settle_cleanup (ok _) = do change cleaned; calling host.save; calling host.refresh_snapshots

  unfoldable pub give_up : Exec (Ledger × W) (Unit {0})
  give_up = do
    asking owned_unmounts
    calling (λ saved. host.validate saved.mounts)
    change cleaning
    calling host.save
    λ s. settle_cleanup (cleanup_owned s).0 (cleanup_owned s).1

  unfoldable pub already_clean : Exec (Ledger × W) (Unit {0})
  already_clean = do
    asking require_clean
    calling (λ saved. if saved.generation == 0 then host.mount_entries else pure tt)
    calling (λ saved. host.report_untracked)
    calling host.refresh_snapshots

  -- `cleanup` from the ledger that it loads.
  unfoldable pub cleanup : Exec (Ledger × W) (Unit {0})
  cleanup s =
      if text_eq s.0.phase (bytes "clean")
      then already_clean s
      else if is_incomplete s.0
      then (err incomplete_operation, s)
      else give_up s
