-- ===== src/Runtime/Boot/Cleanup.antt =====
-- runtime/boot.rs: a soft reboot leaves nothing owned.
use meta_hybrid_mount.Prelude.{
  ◌≡◌, refl, sym, ap, subst, false, ◌==◌, some, List, [], Bool-cases, inl, inr, arith,
  if◌then◌else◌,
}
use meta_hybrid_mount.Text.{is_empty-eq, bytes, text_eq}
use meta_hybrid_mount.Errors.{Result, ok, err}
use meta_hybrid_mount.Exec.{
  Exec, pure, continue-eq-ok, then-eq-ok, first_part, second_part, pair_of_parts,
}
use meta_hybrid_mount.Runtime.Rules.{SavedRule}
use meta_hybrid_mount.Runtime.Rules.Transaction.{reconcile}
use meta_hybrid_mount.Runtime.Ledger.{
  Ledger, require_clean, owned_unmounts, release_mount_resources,
}
use meta_hybrid_mount.Runtime.Ledger.Ownership.{release_mount_resources-eq-ok}
use meta_hybrid_mount.Runtime.Boot.{remaining_rules}
use meta_hybrid_mount.Runtime.Boot.Release.{
  Host, calling, asking, release_remaining, release_rules, owns_rules, cleanup_owned, cleaning,
  cleaned, failed, settle_cleanup, give_up, already_clean, is_incomplete, cleanup,
}

-- No rule and no UID is owned.
OwnsNoRules : Ledger → Type 0
OwnsNoRules saved = (saved.rules ≡ []) × (saved.isolated_uids ≡ [])

owns_rules-false : (saved : Ledger) → owns_rules saved ≡ false → OwnsNoRules saved
unfolding OwnsNoRules
owns_rules-false saved h =
    (is_empty-eq saved.rules (ground arith), is_empty-eq saved.isolated_uids (ground arith))

module _ {W : Type 0} (host : Host W) where
  release_remaining-OwnsNoRules :
      (remaining : List SavedRule) (s s' : Ledger × W)
      → release_remaining host remaining s ≡ (ok tt, s')
      → OwnsNoRules s'.0
  unfolding release_remaining OwnsNoRules
  release_remaining-OwnsNoRules remaining s s' h =
      let (u1, e1, k1) = then-eq-ok (calling (λ saved. reconcile host.rules remaining [])) _ s h in
      let (u2, e2, k2) =
        then-eq-ok (calling (λ saved. host.isolation.remove_uids saved.isolated_uids)) _ _ k1 in
      let kept = ap (λ (x : Ledger × W). x.0) (second_part k2) in
      (ap (λ (x : Ledger). x.rules) (sym kept), ap (λ (x : Ledger). x.isolated_uids) (sym kept))

  release_rules-OwnsNoRules :
      (s s' : Ledger × W) → release_rules host s ≡ (ok tt, s') → OwnsNoRules s'.0
  unfolding release_rules
  release_rules-OwnsNoRules s s' h =
      let (u1, e1, k1) = then-eq-ok (calling host.open_kernel) _ s h in
      let s1 = (calling host.open_kernel s).1 in
      let (current, e2, k2) = continue-eq-ok (calling (λ saved. host.rules.list) s1).0 _ _ k1 in
      let s2 = (calling (λ saved. host.rules.list) s1).1 in
      let (remaining, e3, k3) = continue-eq-ok (remaining_rules current s2.0.rules) _ s2 k2 in
      let (u4, e4, k4) = then-eq-ok (calling (λ saved. host.arm)) _ s2 k3 in
      let s4 = (calling (λ saved. host.arm) s2).1 in
      let last =
        release_remaining-OwnsNoRules remaining s4 (release_remaining host remaining s4).1
          (pair_of_parts (first_part k4) refl) in
      subst OwnsNoRules (ap (λ (x : Ledger × W). x.0) (second_part k4)) last

  -- Nothing is owned, neither rules nor mounts.
  abbrev OwnsNothing : Ledger → Type 0
  OwnsNothing saved =
      (saved.rules ≡ [])
      × (saved.isolated_uids ≡ [])
      × (saved.mounts ≡ [])
      × (saved.ksu_unmounts ≡ some [])

  cleanup_owned-OwnsNothing :
      (s s' : Ledger × W) → cleanup_owned host s ≡ (ok tt, s') → OwnsNothing s'.0
  unfolding cleanup_owned OwnsNoRules
  cleanup_owned-OwnsNothing s s' h =
      let first : Exec (Ledger × W) (Unit {0}) =
        λ t. if owns_rules t.0 then release_rules host t else (ok tt, t) in
      let (u1, e1, k1) = then-eq-ok first _ s h in
      let s1 = (first s).1 in
      let no_rules : OwnsNoRules s1.0 = elim (Bool-cases (owns_rules s.0)) [
        | inl q ↦
            rw q (
              release_rules-OwnsNoRules s (release_rules host s).1
                (pair_of_parts (rw q at e1) refl))
        | inr q ↦ rw q (owns_rules-false s.0 q)
      ] in
      let release = release_mount_resources host.detach host.release_unmounts in
      let (u2, e2, k2) = then-eq-ok release _ s1 k1 in
      let released = release_mount_resources-eq-ok host.detach host.release_unmounts s1.0 s1.1 e2 in
      let s2 = (release s1).1 in
      let (u3, e3, k3) = then-eq-ok (calling host.save) _ s2 k2 in
      let kept : s'.0 ≡ s2.0 = ap (λ (x : Ledger × W). x.0) (sym (second_part k3)) in
      rw (kept, released) (no_rules.0, no_rules.1, refl, refl)

  -- A cleanup that succeeds leaves a ledger that owns nothing, at which the next boot may start.
  settle_cleanup-clean :
      (r : Result (Unit {0})) (s s' : Ledger × W)
      → (r ≡ ok tt → OwnsNothing s.0)
      → settle_cleanup host r s ≡ (ok tt, s')
      → require_clean s'.0 ≡ ok tt
  unfolding settle_cleanup require_clean
  settle_cleanup-clean (err e) s s' owns h =
      let (u, q, k) = then-eq-ok (calling host.save) _ (failed e s.0, s.1) h in cc
  settle_cleanup-clean (ok u) s s' owns h =
      let (u1, q, k) = then-eq-ok (calling host.save) _ (cleaned s.0, s.1) h in
      let kept : s'.0 ≡ cleaned s.0 = ap (λ (x : Ledger × W). x.0) (sym (second_part k)) in
      let (r, i, m, n) = owns refl in rw kept (rw (r, i, m, n) refl)

  -- A soft reboot's cleanup that succeeds leaves a clean ledger that owns no rule, UID, mount or
  -- registration, whatever the ledger was before and whatever the device's calls do, so the next
  -- session may start.
  pub cleanup-clean :
      (s s' : Ledger × W) → cleanup host s ≡ (ok tt, s') → require_clean s'.0 ≡ ok tt
  unfolding cleanup already_clean give_up
  cleanup-clean s s' h = elim (Bool-cases (text_eq s.0.phase (bytes "clean"))) [
    | inl q ↦
        let (u1, e1, k1) = then-eq-ok (asking require_clean) _ s (rw q at h) in
        let (u2, e2, k2) =
          then-eq-ok
            (calling (λ saved. if saved.generation == 0 then host.mount_entries else pure tt)) _ s
            k1 in
        let s2 =
          (calling (λ saved. if saved.generation == 0 then host.mount_entries else pure tt) s).1 in
        let (u3, e3, k3) = then-eq-ok (calling (λ saved. host.report_untracked)) _ s2 k2 in
        rw (← ap (λ (x : Ledger × W). x.0) (second_part k3)) e1
    | inr q ↦ elim (Bool-cases (is_incomplete s.0)) [
      | inl i ↦ cc (rw (q, i) at h)
      | inr i ↦
          let (u1, e1, k1) = then-eq-ok (asking owned_unmounts) _ s (rw (q, i) at h) in
          let (u2, e2, k2) = then-eq-ok (calling (λ saved. host.validate saved.mounts)) _ s k1 in
          let s2 = (calling (λ saved. host.validate saved.mounts) s).1 in
          let s3 : Ledger × W = (cleaning s2.0, s2.1) in
          let (u4, e4, k4) = then-eq-ok (calling host.save) _ s3 k2 in
          let s4 = (calling host.save s3).1 in
          settle_cleanup-clean (cleanup_owned host s4).0 (cleanup_owned host s4).1 s'
            (λ o. cleanup_owned-OwnsNothing s4 (cleanup_owned host s4).1 (pair_of_parts o refl)) k4
    ]
  ]
