-- ===== src/Pipeline/Outcome.antt =====
-- pipeline.rs: how the VFS phase ends.
use meta_hybrid_mount.Prelude.{
  ap, ◌∙◌, ℕ, ◌≡◌, refl, Bool, true, false, Option, none, some, List, [], ◌∷◌, inl, inr, ◌⊎◌,
  Bool-cases,
}
use meta_hybrid_mount.Text.{Text, is_empty}
use meta_hybrid_mount.Errors.{ok-injective, Result-cases, guard_not_retired, Error, Result, ok, err}
use meta_hybrid_mount.Config.{Config}
use meta_hybrid_mount.Exec.{pair_of_parts}
use meta_hybrid_mount.Vfs.Protocol.Encode.{build_add_rule_payloads_for}
use meta_hybrid_mount.Plan.Builder.{MountPlan}
use meta_hybrid_mount.Vfs.BootGuard.{VfsGuardVerdict, absent, own, foreign}
use meta_hybrid_mount.Vfs.Protocol.Decode.{ListedRule}
use meta_hybrid_mount.Vfs.Exec.{
  under_policy, apply_rules, apply_rules_with_policy_diagnosed, VfsExecStats, VfsApplied,
  VfsPolicyOutcome, plan_rules, missing_rules, evaluate_readback,
}
use meta_hybrid_mount.Pipeline.{
  nomount_preflight, Attached, PhaseHost, Phase, vfs_failure_stats, same_channel, degrade, refuse,
  by_policy, unregister, missing_removed, unread_removed, confirm, read_back, reported, after_apply,
  apply_batch, after_preflight, planned, attached, armed, guard_cleared, inspected, apply_vfs_phase,
}

module _ {K D : Type 0} (host : PhaseHost K D) (config : Config) (plan : MountPlan) where
  -- The VFS is active: the kernel listed a rule at every planned rule's path last, and the rollback
  -- removes the planned rules.
  abbrev pub IsConfirmed : Result VfsExecStats → Phase K D → Type 0
  IsConfirmed r s' =
      (batch : VfsApplied) × (stats : VfsExecStats) × (provider : Text) × (listed : List ListedRule)
      × (k : K) × (r ≡ ok stats)
      × (plan_rules plan ≡ ok batch)
      × (host.kernel.list_rules k ≡ (ok listed, s'.kernel))
      × (missing_rules batch.rules listed ≡ [])
      × (s'.registered ≡ batch.rules)
      × (s'.vfs_provider ≡ some provider)
      × (s'.vfs_error ≡ none)

  -- No call that adds or removes a rule was made: the kernel is the first one, or that after the provider
  -- was opened, or that after its rules were listed as well.
  abbrev pub IsUntouched : K → K → Type 0
  IsUntouched first k =
      (k ≡ first)
      ⊎ ((k ≡ (host.open_active first).1)
          ⊎ (k ≡ (host.kernel.list_rules (host.open_active first).1).1))

  -- The last call was a removal of every planned rule, which succeeded.
  abbrev pub IsRemoved : K → Type 0
  IsRemoved k =
      (batch : VfsApplied) × (before : K) × (plan_rules plan ≡ ok batch)
      × (host.kernel.remove_rules batch.rules before ≡ (ok tt, k))

  -- No rollback is registered, and none is needed.
  abbrev pub IsClear : K → Phase K D → Type 0
  IsClear first s = (s.registered ≡ []) × (IsUntouched first s.kernel ⊎ IsRemoved s.kernel)

  -- A rollback of every planned rule is registered.
  abbrev pub IsRegistered : Phase K D → Type 0
  IsRegistered s =
      (batch : VfsApplied) × (plan_rules plan ≡ ok batch) × (s.registered ≡ batch.rules)

  -- The VFS is not active, which the boot's state says, and either the boot fails, with the rules
  -- removed, or never there, or registered for the rollback; or it goes on, and then none are left.
  abbrev pub IsInactive : K → Result VfsExecStats → Phase K D → Type 0
  IsInactive first r s' =
      (e : Error) × (s'.vfs_provider ≡ none)
      × (s'.vfs_error ≡ some e)
      × (s'.vfs_error_modules ≡ plan.vfs_module_ids)
      × (((r ≡ err e) × (IsClear first s' ⊎ IsRegistered s'))
          ⊎ ((r ≡ ok (vfs_failure_stats e)) × IsClear first s'))

  -- Where the policy goes on without statistics, it has removed the rules.
  diagnosed-removed :
      (batch : VfsApplied) (uids : List ℕ) (strict : Bool) (applied : Result VfsExecStats) (k : K)
      {outcome : VfsPolicyOutcome}
      → (under_policy host.kernel batch strict applied k).0 ≡ ok outcome
      → outcome.stats ≡ none
      → host.kernel.remove_rules batch.rules k
        ≡ (ok tt, (under_policy host.kernel batch strict applied k).1)
  diagnosed-removed batch uids strict (ok stats) k h n =
      let same = ap (λ (o : VfsPolicyOutcome). o.stats) (ok-injective h) in cc (same, n)
  diagnosed-removed batch uids strict (err e) k h n =
      elim (Result-cases (host.kernel.remove_rules batch.rules k).0) [
        | inl (_, q) ↦ pair_of_parts q refl
        | inr (c, q) ↦ cc (rw q at h)
      ]

  -- What the check of NoMount leaves.
  nomount_preflight-kernel :
      (a : Attached) (batch : VfsApplied) (k : K)
      → ((nomount_preflight host config plan a batch k).1 ≡ k)
        ⊎ ((nomount_preflight host config plan a batch k).1 ≡ (host.kernel.list_rules k).1)
  unfolding nomount_preflight
  nomount_preflight-kernel a batch k =
      elim (Result-cases (build_add_rule_payloads_for batch.rules 0 a.format)) [
        | inr (e, q) ↦ inl (rw q refl)
        | inl (p, q) ↦ elim (Result-cases (host.kernel.list_rules k).0) [
          | inr (e, r) ↦ inr (rw (q, r) refl)
          | inl (l, r) ↦ inr (rw (q, r) refl)
        ]
      ]

module _ {K D : Type 0} (host : PhaseHost K D) (config : Config) (plan : MountPlan)
    (first : K) where
  abbrev Ends : Result VfsExecStats × Phase K D → Type 0
  Ends x = IsConfirmed host config plan x.0 x.1 ⊎ IsInactive host config plan first x.0 x.1

  degrade-Ends :
      (e : Error) (s : Phase K D)
      → IsClear host config plan first s
      → Ends (degrade host config plan e s)
  degrade-Ends e s h = inr (e, refl, refl, refl, inr (refl, h))

  refuse-Ends :
      (e : Error) (s : Phase K D)
      → IsClear host config plan first s ⊎ IsRegistered host config plan s
      → Ends (refuse host config plan e s)
  refuse-Ends e s h = inr (e, refl, refl, refl, inl (refl, h))

  by_policy-Ends :
      (e : Error) (s : Phase K D)
      → IsClear host config plan first s
      → Ends (by_policy host config plan e s)
  by_policy-Ends e s h = elim (Bool-cases config.vfs_strict) [
    | inl b ↦ rw b (refuse-Ends e s (inl h))
    | inr b ↦ rw b (degrade-Ends e s h)
  ]

  module _ (batch : VfsApplied) (q : plan_rules plan ≡ ok batch) where
    missing_removed-Ends :
        (path : Text) (more : List Text) (stats : VfsExecStats) (removed : Result (Unit {0}))
        (before : K) (s : Phase K D)
        → host.kernel.remove_rules batch.rules before ≡ (removed, s.kernel)
        → s.registered ≡ batch.rules
        → Ends (missing_removed host config plan (path ∷ more) stats removed s)
    unfolding evaluate_readback
    missing_removed-Ends path more stats (err c) before s at r = refuse-Ends _ s (inr (batch, q, r))
    missing_removed-Ends path more stats (ok _) before s at r =
        let clear : IsClear host config plan first (unregister host config plan s) =
          (refl, inr (batch, before, q, at)) in
        elim (Bool-cases config.vfs_strict) [
          | inl b ↦ rw b (refuse-Ends _ (unregister host config plan s) (inl clear))
          | inr b ↦ rw b (degrade-Ends _ (unregister host config plan s) clear)
        ]

    unread_removed-Ends :
        (e : Error) (removed : Result (Unit {0})) (before : K) (s : Phase K D)
        → host.kernel.remove_rules batch.rules before ≡ (removed, s.kernel)
        → s.registered ≡ batch.rules
        → Ends (unread_removed host config plan e removed s)
    unread_removed-Ends e (err c) before s at r = refuse-Ends _ s (inr (batch, q, r))
    unread_removed-Ends e (ok _) before s at r =
        by_policy-Ends _ (unregister host config plan s) (refl, inr (batch, before, q, at))

    confirm-Ends :
        (stats : VfsExecStats) (provider : Text) (listed : List ListedRule) (k : K) (s : Phase K D)
        (missing : List Text)
        → missing_rules batch.rules listed ≡ missing
        → host.kernel.list_rules k ≡ (ok listed, s.kernel)
        → s.registered ≡ batch.rules
        → s.vfs_provider ≡ some provider
        → s.vfs_error ≡ none
        → Ends (confirm host config plan batch.rules stats missing s)
    confirm-Ends stats provider listed k s [] m l r p e =
        inl (batch, stats, provider, listed, k, refl, q, l, m, r, p, e)
    confirm-Ends stats provider listed k s (path ∷ more) m l r p e =
        missing_removed-Ends path more stats _ s.kernel _ refl r

    read_back-Ends :
        (stats : VfsExecStats) (provider : Text) (k : K) (s : Phase K D)
        (shown : Result (List ListedRule))
        → host.kernel.list_rules k ≡ (shown, s.kernel)
        → s.registered ≡ batch.rules
        → s.vfs_provider ≡ some provider
        → s.vfs_error ≡ none
        → Ends (read_back host config plan batch.rules stats shown s)
    read_back-Ends stats provider k s (ok listed) l r p e =
        confirm-Ends stats provider listed k s (missing_rules batch.rules listed) refl l r p e
    read_back-Ends stats provider k s (err e') l r p e = unread_removed-Ends e' _ s.kernel _ refl r

    reported-Ends :
        (a : Attached) (failure : Option Error) (stats : Option VfsExecStats) (s : Phase K D)
        → s.registered ≡ batch.rules
        → (stats ≡ none → IsRemoved host config plan s.kernel)
        → Ends (reported host config plan a batch.rules failure stats s)
    reported-Ends a failure none s r removed =
        degrade-Ends _ (unregister host config plan s) (refl, inr (removed refl))
    reported-Ends a failure (some stats) s r removed =
        read_back-Ends stats a.provider s.kernel _ _ refl r refl refl

    after_apply-Ends :
        (a : Attached) (outcome : Result VfsPolicyOutcome) (s : Phase K D)
        → s.registered ≡ batch.rules
        → ((o : VfsPolicyOutcome)
            → outcome ≡ ok o
            → o.stats ≡ none
            → IsRemoved host config plan s.kernel)
        → Ends (after_apply host config plan a batch.rules outcome s)
    after_apply-Ends a (err e) s r removed = refuse-Ends e s (inr (batch, q, r))
    after_apply-Ends a (ok outcome) s r removed =
        reported-Ends a outcome.failure outcome.stats s r (removed outcome refl)

    apply_batch-Ends :
        (a : Attached) (s : Phase K D) → Ends (apply_batch host config plan a batch s)
    unfolding apply_batch apply_rules_with_policy_diagnosed
    apply_batch-Ends a s =
        let applied = apply_rules host.kernel batch config.vfs_isolate_uids s.kernel in
        after_apply-Ends a _ _ refl (λ o h n. (
          batch,
          applied.1,
          q,
          diagnosed-removed host config plan batch config.vfs_isolate_uids config.vfs_strict
              applied.0 applied.1 h n,
        ))

    after_preflight-Ends :
        (a : Attached) (checked : Result (Unit {0})) (s : Phase K D)
        → IsClear host config plan first s
        → Ends (after_preflight host config plan a batch checked s)
    after_preflight-Ends a (err e) s h = by_policy-Ends e s h
    after_preflight-Ends a (ok _) s h = apply_batch-Ends a s

  -- The kernel after the provider was opened, and after the check of NoMount.
  opened :
      (s : Phase K D)
      → s.kernel ≡ (host.open_active first).1
      → s.registered ≡ []
      → IsClear host config plan first s
  opened s at h = (h, inl (inr (inl at)))

  checked-IsClear :
      (a : Attached) (batch : VfsApplied) (s : Phase K D)
      → s.kernel ≡ (host.open_active first).1
      → s.registered ≡ []
      → IsClear host config plan first
          (record s { kernel = (nomount_preflight host config plan a batch s.kernel).1 })
  checked-IsClear a batch s at h =
      elim (nomount_preflight-kernel host config plan a batch s.kernel) [
        | inl e ↦ (h, inl (inr (inl (e ∙ at))))
        | inr e ↦ (h, inl (inr (inr (e ∙ ap (λ k. (host.kernel.list_rules k).1) at))))
      ]

  planned-Ends :
      (use_nomount : Bool) (a : Attached) (batch : Result VfsApplied) (s : Phase K D)
      → plan_rules plan ≡ batch
      → s.kernel ≡ (host.open_active first).1
      → s.registered ≡ []
      → Ends (planned host config plan use_nomount a batch s)
  planned-Ends use_nomount a (err e) s q at h = refuse-Ends e s (inl (opened s at h))
  planned-Ends true a (ok batch) s q at h =
      after_preflight-Ends batch q a _ _ (checked-IsClear a batch s at h)
  planned-Ends false a (ok batch) s q at h = apply_batch-Ends batch q a s

  attached-Ends :
      (use_nomount : Bool) (a : Result Attached) (s : Phase K D)
      → s.kernel ≡ (host.open_active first).1
      → s.registered ≡ []
      → Ends (attached host config plan use_nomount a s)
  attached-Ends use_nomount (err e) s at h = by_policy-Ends e s (opened s at h)
  attached-Ends use_nomount (ok a) s at h =
      elim (Bool-cases (same_channel a.is_nomount use_nomount)) [
        | inl b ↦ rw b (planned-Ends use_nomount a (plan_rules plan) s refl at h)
        | inr b ↦ rw b (by_policy-Ends _ s (opened s at h))
      ]

  armed-Ends :
      (use_nomount : Bool) (guard : Result (Unit {0})) (s : Phase K D)
      → s.kernel ≡ first
      → s.registered ≡ []
      → Ends (armed host config plan use_nomount guard s)
  armed-Ends use_nomount (err e) s at h = refuse-Ends e s (inl (h, inl (inl at)))
  armed-Ends use_nomount (ok _) s at h =
      attached-Ends use_nomount _ _ (ap (λ k. (host.open_active k).1) at) h

  guard_cleared-Ends :
      (use_nomount : Bool) (cleared : Result Bool) (s : Phase K D)
      → s.kernel ≡ first
      → s.registered ≡ []
      → Ends (guard_cleared host config plan use_nomount cleared s)
  guard_cleared-Ends use_nomount (err e) s at h =
      degrade-Ends (guard_not_retired e) s (h, inl (inl at))
  guard_cleared-Ends use_nomount (ok b) s at h =
      armed-Ends use_nomount (host.arm s.disk).0 (record s { disk = (host.arm s.disk).1 }) at h

  inspected-Ends :
      (use_nomount : Bool) (verdict : Result VfsGuardVerdict) (s : Phase K D)
      → s.kernel ≡ first
      → s.registered ≡ []
      → Ends (inspected host config plan use_nomount verdict s)
  inspected-Ends use_nomount (ok absent) s at h = armed-Ends use_nomount _ _ at h
  inspected-Ends use_nomount (ok (own r)) s at h = degrade-Ends _ s (h, inl (inl at))
  inspected-Ends use_nomount (ok (foreign r)) s at h = guard_cleared-Ends use_nomount _ _ at h
  inspected-Ends use_nomount (err e) s at h = degrade-Ends e s (h, inl (inl at))

-- A plan that names modules for the VFS, and no rollback registered yet: the phase ends in one of two
-- ways. The kernel's last listing has a rule at the path of every planned rule, the rollback of all of
-- them is registered, and the provider is recorded. Or the error and the modules are recorded and no
-- provider: then the boot goes on without the VFS, with no rollback registered, and either no call that
-- adds or removes a rule was made, or the last call was a removal of every planned rule, which
-- succeeded; or the boot fails with that error, and the same holds, or the rollback of every planned
-- rule is registered.
pub apply_vfs_phase-Ends :
    {K D : Type 0} (host : PhaseHost K D) (config : Config) (plan : MountPlan) (use_nomount : Bool)
    (s : Phase K D)
    → is_empty plan.vfs_module_ids ≡ false
    → s.registered ≡ []
    → IsConfirmed host config plan
        (apply_vfs_phase host config plan use_nomount s).0
        (apply_vfs_phase host config plan use_nomount s).1
      ⊎ IsInactive host config plan s.kernel
          (apply_vfs_phase host config plan use_nomount s).0
          (apply_vfs_phase host config plan use_nomount s).1
unfolding apply_vfs_phase
apply_vfs_phase-Ends host config plan use_nomount s some_modules h =
    rw some_modules
      (inspected-Ends host config plan s.kernel use_nomount (host.inspect s.disk) s refl h)
