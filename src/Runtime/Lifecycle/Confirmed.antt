-- ===== src/Runtime/Lifecycle/Confirmed.antt =====
-- runtime/lifecycle.rs and runtime/boot.rs: what a boot that is confirmed owns.
use meta_hybrid_mount.Prelude.{
  ap, ◌≢◌, ℕ, ◌≡◌, true, ◌&&◌, not, List, [], ◌∷◌, In, In-filter, In-filter_of, any, find,
  find-some, Bool-cases, Option-cases, inl, inr, ◌↔◌, arith,
}
use meta_hybrid_mount.Text.{Text, bytes, text_eq, text_eq→eq}
use meta_hybrid_mount.Errors.{ok, is_ok, is_ok-true}
use meta_hybrid_mount.Runtime.Rules.{SavedRule, semantic_equal}
use meta_hybrid_mount.Runtime.Ledger.{Ledger}
use meta_hybrid_mount.Runtime.Lifecycle.{confirm_boot_rules, contains_uid, owned_uids}
use meta_hybrid_mount.Runtime.Boot.{
  BootOutcome, captured, observed_ownership, concluded, finish_with,
}

-- A target has a planned rule that the kernel shows unchanged.
abbrev pub Confirmed : List SavedRule → List SavedRule → Text → Type 0
Confirmed planned observed target =
    (r : SavedRule) × In r planned
    × (r.virtual_path ≡ target)
    × (any (semantic_equal r) observed ≡ true)

abbrev pub AreConfirmed : List SavedRule → List SavedRule → List Text → Type 0
AreConfirmed planned observed [] = Unit
AreConfirmed planned observed (target ∷ rest) =
    Confirmed planned observed target × AreConfirmed planned observed rest

confirm_boot_rules-AreConfirmed :
    (planned : List SavedRule) (targets : List Text) (observed : List SavedRule)
    → confirm_boot_rules planned targets observed ≡ ok tt
    → AreConfirmed planned observed targets
unfolding confirm_boot_rules
confirm_boot_rules-AreConfirmed planned [] observed h = tt
confirm_boot_rules-AreConfirmed planned (t ∷ rest) observed h =
    elim (Option-cases (find (λ (r : SavedRule). text_eq r.virtual_path t) planned)) [
      | inl e ↦ cc (rw e at h)
      | inr (r, e) ↦ elim (Bool-cases (any (semantic_equal r) observed)) [
        | inr g ↦ cc (rw (e, g) at h)
        | inl g ↦
            let (m, k) = find-some (λ (x : SavedRule). text_eq x.virtual_path t) planned r e in
            (
              (r, m, text_eq→eq r.virtual_path t k, g),
              confirm_boot_rules-AreConfirmed planned rest observed (rw (e, g) at h),
            )
      ]
    ]

error_or_ready : bytes "error" ≢ bytes "ready"
error_or_ready h = cc (ap (text_eq (bytes "error")) h)

-- A boot whose ledger is ready was successful, and every target that it advertises has a planned rule
-- that the kernel showed unchanged; it owns exactly the planned rules that the kernel showed, and of
-- the UIDs that it asked for those that are isolated now and were not before.
pub finish_with-ready :
    (outcome : BootOutcome) (current : List SavedRule) (uids : List ℕ) (loaded : Ledger)
    (rule : SavedRule) (uid : ℕ)
    → (finish_with outcome current uids loaded).1.phase ≡ bytes "ready"
    → (outcome.successful ≡ true)
      × AreConfirmed (captured outcome loaded).pending_rules current outcome.vfs_active_mounts
      × (In rule (finish_with outcome current uids loaded).1.rules ↔ (
          In rule (captured outcome loaded).pending_rules
          × (any (semantic_equal rule) current ≡ true)))
      × (In uid (finish_with outcome current uids loaded).1.isolated_uids ↔ (
          In uid uids
          × (contains_uid (captured outcome loaded).isolated_uids uid
                && not (contains_uid outcome.original_uids uid)
              ≡ true)))
unfolding finish_with concluded observed_ownership owned_uids
finish_with-ready outcome current uids loaded rule uid h =
    let saved = captured outcome loaded in
    let checked = confirm_boot_rules saved.pending_rules outcome.vfs_active_mounts current in
    elim (Bool-cases (outcome.successful && is_ok checked)) [
      | inr e ↦ absurd (error_or_ready (rw e at h))
      | inl e ↦
          let (u, k) = is_ok-true checked (ground arith) in
          (
            ground arith,
            confirm_boot_rules-AreConfirmed saved.pending_rules outcome.vfs_active_mounts current k,
            (
              In-filter (λ expected. any (semantic_equal expected) current) saved.pending_rules
                  rule,
              λ (m, t).
                  In-filter_of (λ expected. any (semantic_equal expected) current)
                    saved.pending_rules rule m t,
            ),
            (In-filter _ uids uid, λ (m, t). In-filter_of _ uids uid m t),
          )
    ]
