-- ===== src/Tests/Ledger.antt =====
-- The ledger at small inputs.
use meta_hybrid_mount.Prelude.{ℕ, ◌≡◌, refl, ◌⊎◌, List, [], ◌∷◌, none, some}
use meta_hybrid_mount.Text.{Text, bytes}
use meta_hybrid_mount.Errors.{ok, err, os_error}
use meta_hybrid_mount.Exec.{Exec}
use meta_hybrid_mount.Runtime.Ledger.{
  is_known_phase, reuse_ledger, OwnedMount, Ledger, fresh_ledger, release_mount_resources,
  ledger_for_boot,
}
use meta_hybrid_mount.Runtime.Ledger.Ownership.{
  IsUsable, ledger_for_boot-IsUsable, IsReleased, IsKept, release_mount_resources-Released,
}

abbrev ready_ledger : Ledger
ready_ledger = record (fresh_ledger (bytes "boot") (bytes "ns")) {
  phase = bytes "ready";
  mounts =
      record {
        target = bytes "/system";
        id = 31;
        baseline_ids = 30 ∷ [];
        device = bytes "0:1";
        fs_type = bytes "overlay";
        source = none;
      }
      ∷ [];
  ksu_unmounts = some (bytes "/system" ∷ []);
}

reused : ledger_for_boot (some ready_ledger) (bytes "boot") (bytes "ns") ≡ ok ready_ledger
unfolding ledger_for_boot fresh_ledger reuse_ledger is_known_phase
reused = refl

ledger_for_boot-IsUsable_example :
    IsUsable (some ready_ledger) (bytes "boot") (bytes "ns") ready_ledger
ledger_for_boot-IsUsable_example =
    ledger_for_boot-IsUsable (some ready_ledger) (bytes "boot") (bytes "ns") reused

-- The mounts are detached, and the registrations cannot be released.
abbrev detach : List OwnedMount → Exec ℕ (Unit {0})
detach mounts w = (ok tt, 1)

abbrev release : List Text → Exec ℕ (Unit {0})
release paths w = (err (os_error 5), 2)

release_mount_resources-Released_example :
    IsReleased detach release ready_ledger 0
      (release_mount_resources detach release (ready_ledger, 0))
    ⊎ IsKept detach release ready_ledger 0
        (release_mount_resources detach release (ready_ledger, 0))
release_mount_resources-Released_example =
    release_mount_resources-Released detach release ready_ledger 0
