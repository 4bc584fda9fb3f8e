-- ===== src/Runtime/Ledger/Ownership.antt =====
-- runtime/ledger.rs: what a ledger that is accepted says, and that ownership survives a failed
-- release.
use meta_hybrid_mount.Prelude.{
  ap, ==_iff, ◌==◌, subst, ◌≡◌, ◌↔◌, ◌⊎◌, inl, inr, refl, true, Option, none, some, List, [],
  Bool-cases, arith,
}
use meta_hybrid_mount.Text.{Text, bytes, text_eq, text_eq→eq}
use meta_hybrid_mount.Errors.{Error, Result, ok, err, Result-cases, ok-injective}
use meta_hybrid_mount.Exec.{Exec, pair_of_parts}
use meta_hybrid_mount.Runtime.Ledger.{
  OwnedMount, Ledger, require_clean, owned_unmounts, release_mount_resources, is_known_phase,
  fresh_ledger, reuse_ledger, ledger_for_boot,
}

-- A ledger that this boot may use: its version, boot, namespace and phase are right, and it is the
-- saved one or owns nothing.
pub record IsUsable (saved : Option Ledger) (boot_id namespace : Text) (r : Ledger) : Type 0 where
  pub version : r.version ≡ 1
  pub boot : r.boot_id ≡ boot_id
  pub namespace_kept : r.namespace ≡ namespace
  pub phase_known : is_known_phase r.phase ≡ true
  pub origin : (saved ≡ some r) ⊎ (require_clean r ≡ ok tt)

fresh_ledger-IsUsable :
    (saved : Option Ledger) (boot_id namespace : Text)
    → IsUsable saved boot_id namespace (fresh_ledger boot_id namespace)
unfolding fresh_ledger require_clean is_known_phase
fresh_ledger-IsUsable saved boot_id namespace = record {
  version = refl;
  boot = refl;
  namespace_kept = refl;
  phase_known = refl;
  origin = inr refl;
}

reuse_ledger-IsUsable :
    (saved : Ledger) (boot_id namespace : Text) {r : Ledger}
    → text_eq saved.boot_id boot_id ≡ true
    → reuse_ledger saved namespace ≡ ok r
    → IsUsable (some saved) boot_id namespace r
unfolding reuse_ledger
reuse_ledger-IsUsable saved boot_id namespace {r} b h =
    elim (Bool-cases (text_eq saved.namespace namespace)) [
      | inr e ↦ cc (rw e at h)
      | inl e ↦ elim (Bool-cases (saved.version == 1)) [
        | inr f ↦ cc (rw (e, f) at h)
        | inl f ↦ elim (Bool-cases (is_known_phase saved.phase)) [
          | inr g ↦ cc (rw (e, f, g) at h)
          | inl g ↦
              subst (IsUsable (some saved) boot_id namespace) (ok-injective (rw (e, f, g) at h))
                (record {
                  version = (==_iff _ _).0 f;
                  boot = text_eq→eq _ _ b;
                  namespace_kept = text_eq→eq _ _ e;
                  phase_known = g;
                  origin = inl refl;
                })
        ]
      ]
    ]

-- A ledger that `ledger_for_boot` returns has version 1, the boot and the namespace that were asked
-- for and a known phase; it is the saved ledger, or one that owns nothing.
pub ledger_for_boot-IsUsable :
    (saved : Option Ledger) (boot_id namespace : Text) {r : Ledger}
    → ledger_for_boot saved boot_id namespace ≡ ok r
    → IsUsable saved boot_id namespace r
unfolding ledger_for_boot
ledger_for_boot-IsUsable none boot_id namespace h =
    subst (IsUsable none boot_id namespace) (ok-injective h)
      (fresh_ledger-IsUsable none boot_id namespace)
ledger_for_boot-IsUsable (some saved) boot_id namespace h =
    elim (Bool-cases (text_eq saved.boot_id boot_id)) [
      | inl e ↦ reuse_ledger-IsUsable saved boot_id namespace e (rw e at h)
      | inr e ↦
          subst (IsUsable (some saved) boot_id namespace) (ok-injective (rw e at h))
            (fresh_ledger-IsUsable (some saved) boot_id namespace)
    ]

module _ {W : Type 0} (detach : List OwnedMount → Exec W (Unit {0}))
    (release : List Text → Exec W (Unit {0})) (saved : Ledger) (w : W) where
  -- Both closures succeeded, the mounts first, and the ledger owns nothing of either kind.
  abbrev pub IsReleased : Result (Unit {0}) × (Ledger × W) → Type 0
  IsReleased x =
      (paths : List Text) × (detached : W) × (end : W) × (owned_unmounts saved ≡ ok paths)
      × (detach saved.mounts w ≡ (ok tt, detached))
      × (release paths detached ≡ (ok tt, end))
      × (x ≡ (ok tt, (record saved { mounts = []; ksu_unmounts = some [] }, end)))

  -- A step failed, and the ledger is as it was: the registrations are not known, or the mounts were
  -- not detached, or they were and the registrations were not released.
  abbrev pub IsKept : Result (Unit {0}) × (Ledger × W) → Type 0
  IsKept x =
      (e : Error) × (end : W) × (x ≡ (err e, (saved, end)))
      × (((owned_unmounts saved ≡ err e) × (end ≡ w))
          ⊎ ((detach saved.mounts w ≡ (err e, end))
              ⊎ ((paths : List Text) × (detached : W) × (detach saved.mounts w ≡ (ok tt, detached))
                  × (release paths detached ≡ (err e, end)))))

  -- Whatever the two closures do, a release ends in one of two ways. The closures both succeeded, the
  -- detaching of all owned mounts before the release of all owned registrations; then the ledger owns
  -- neither and has lost nothing else. Or a step failed, whose error is returned and behind which no
  -- other was done; then the ledger is unchanged, with its mounts and its registrations.
  pub release_mount_resources-Released :
      IsReleased (release_mount_resources detach release (saved, w))
      ⊎ IsKept (release_mount_resources detach release (saved, w))
  unfolding release_mount_resources
  release_mount_resources-Released = elim (Result-cases (owned_unmounts saved)) [
    | inr (e, q) ↦ inr (e, w, rw q refl, inl (q, refl))
    | inl (paths, q) ↦
        let detached = (detach saved.mounts w).1 in
        elim (Result-cases (detach saved.mounts w).0) [
          | inr (e, d) ↦ inr (e, detached, rw (q, d) refl, inr (inl (pair_of_parts d refl)))
          | inl (u, d) ↦
              let end = (release paths detached).1 in
              elim (Result-cases (release paths detached).0) [
                | inr (e, t) ↦ inr (
                  e,
                  end,
                  rw (q, d, t) refl,
                  inr (inr (paths, detached, pair_of_parts d refl, pair_of_parts t refl)),
                )
                | inl (v, t) ↦ inl (
                  paths,
                  detached,
                  end,
                  q,
                  pair_of_parts d refl,
                  pair_of_parts t refl,
                  rw (q, d, t) refl,
                )
              ]
        ]
  ]

  -- The ledger of a release that succeeded.
  pub release_mount_resources-eq-ok :
      {u : Unit {0}}
      → (release_mount_resources detach release (saved, w)).0 ≡ ok u
      → (release_mount_resources detach release (saved, w)).1.0
        ≡ record saved { mounts = []; ksu_unmounts = some [] }
  release_mount_resources-eq-ok h = elim release_mount_resources-Released [
    | inl (paths, detached, end, q, d, t, x) ↦
        ap (λ (y : Result (Unit {0}) × (Ledger × W)). y.1.0) x
    | inr (e, end, x, why) ↦
        let first = ap (λ (y : Result (Unit {0}) × (Ledger × W)). y.0) x in cc (first, h)
  ]

-- A ledger passes `require_clean` exactly when its phase is "clean" and it owns nothing and has
-- nothing pending.
pub require_clean_iff :
    (saved : Ledger)
    → (require_clean saved ≡ ok tt) ↔ (
        (text_eq saved.phase (bytes "clean") ≡ true)
        × (saved.rules ≡ [])
        × (saved.pending_rules ≡ [])
        × (saved.mounts ≡ [])
        × (saved.isolated_uids ≡ [])
        × ((saved.ksu_unmounts ≡ none) ⊎ (saved.ksu_unmounts ≡ some [])))
unfolding require_clean
require_clean_iff saved = (λ h. ground arith, λ h. ground arith)
