-- ===== src/Vfs/Exec.antt =====
-- vfs/exec.rs: a batch of rules, how it is applied, and what a listing shows of it.
use meta_hybrid_mount.Prelude.{
  List, ℕ, ◌+◌, Bool, true, false, not, Option, none, some, [], ◌∷◌, ◌==◌, any, filter, map,
  if◌then◌else◌,
}
use meta_hybrid_mount.Text.{Text, text_eq, is_empty}
use meta_hybrid_mount.Text.Utf8.{from_utf8_lossy}
use meta_hybrid_mount.Errors.{Error, Result, ok, err, ◌>>=◌, apply_cleanup_failed, readback_missing}
use meta_hybrid_mount.Exec.{Exec, continue}
use meta_hybrid_mount.Plan.Builder.{MountPlan}
use meta_hybrid_mount.Vfs.Rule.{VfsAction, inject, whiteout, opaque_dir, VfsRule, build_vfs_rules}
use meta_hybrid_mount.Vfs.Protocol.Encode.{EncodedRule, encode_rule}
use meta_hybrid_mount.Vfs.Protocol.Decode.{ListedRule}

pub record VfsExecStats : Type 0 where
  pub mounted_module_ids : List Text
  pub active_targets : List Text
  pub injected : ℕ
  pub whiteouts : ℕ
  pub opaque : ℕ
  pub failure : Option Error

pub record VfsApplied : Type 0 where
  pub stats : VfsExecStats
  pub rules : List EncodedRule

pub record VfsPolicyOutcome : Type 0 where
  pub stats : Option VfsExecStats
  pub failure : Option Error

-- The calls of `trait VfsKernel` that the boot uses.
pub record VfsKernel (K : Type 0) : Type 0 where
  pub apply_rules : List EncodedRule → Exec K (Unit {0})
  pub remove_rules : List EncodedRule → Exec K (Unit {0})
  pub add_uids : List ℕ → Exec K (Unit {0})
  pub list_rules : Exec K (List ListedRule)

abbrev pub no_stats : VfsExecStats
no_stats = record {
  mounted_module_ids = [];
  active_targets = [];
  injected = 0;
  whiteouts = 0;
  opaque = 0;
  failure = none;
}

-- A rule in front of the batch of the rules behind it.
abbrev pub counted : VfsAction → VfsExecStats → VfsExecStats
counted (inject virtual_path real_path) stats = record stats {
  injected = stats.injected + 1;
  active_targets = virtual_path ∷ stats.active_targets;
}
counted (whiteout virtual_path) stats = record stats {
  whiteouts = stats.whiteouts + 1;
  active_targets = virtual_path ∷ stats.active_targets;
}
counted (opaque_dir virtual_path) stats = record stats {
  opaque = stats.opaque + 1;
  active_targets = virtual_path ∷ stats.active_targets;
}

unfoldable pub plan_batch : VfsExecStats → List VfsRule → Result VfsApplied
plan_batch stats [] = ok record { stats = stats; rules = [] }
plan_batch stats (rule ∷ rest) = encode_rule rule >>= λ encoded.
    (plan_batch stats rest >>= λ batch.
    ok record { stats = counted rule.action batch.stats; rules = encoded ∷ batch.rules })

unfoldable pub plan_rules : MountPlan → Result VfsApplied
plan_rules plan =
    plan_batch (record no_stats { mounted_module_ids = plan.vfs_module_ids })
      (build_vfs_rules plan.tree)

-- The first occurrence of each UID, behind those that were seen.
unfoldable pub dedupe_uids : List ℕ → List ℕ → List ℕ
dedupe_uids seen [] = []
dedupe_uids seen (uid ∷ rest) =
    let fresh = dedupe_uids (uid ∷ seen) rest in
    let others = dedupe_uids seen rest in if any (λ u. u == uid) seen then others else uid ∷ fresh

-- The paths of the rules that a listing does not show.
unfoldable pub missing_rules : List EncodedRule → List ListedRule → List Text
missing_rules expected listed =
    filter (λ path. not (any (λ (rule : ListedRule). text_eq rule.virtual_path path) listed))
      (map (λ (rule : EncodedRule). from_utf8_lossy rule.virtual_path) expected)

unfoldable pub evaluate_readback : List Text → Bool → Result Bool
evaluate_readback missing strict =
    if is_empty missing
    then ok true
    else if strict
    then err (readback_missing missing)
    else ok false

module _ {K : Type 0} (kernel : VfsKernel K) where
  abbrev pub add_some_uids : List ℕ → Exec K (Unit {0})
  add_some_uids uids k = if is_empty uids then (ok tt, k) else kernel.add_uids uids k

  unfoldable pub apply_rules : VfsApplied → List ℕ → Exec K VfsExecStats
  apply_rules batch uids k =
      let (applied, k1) = kernel.apply_rules batch.rules k in
      continue applied
        (λ _ k.
          let (isolated, k2) = add_some_uids (dedupe_uids [] uids) k in
          continue isolated (λ _ k. (ok batch.stats, k)) k2)
        k1

  abbrev pub after_cleanup : Error → Bool → Result (Unit {0}) → Result VfsPolicyOutcome
  after_cleanup e strict (err cleanup) = err (apply_cleanup_failed cleanup e)
  after_cleanup e strict (ok _) =
      if strict then err e else ok record { stats = none; failure = some e }

  abbrev pub under_policy : VfsApplied → Bool → Result VfsExecStats → Exec K VfsPolicyOutcome
  under_policy batch strict (ok stats) k = (ok record { stats = some stats; failure = none }, k)
  under_policy batch strict (err e) k =
      let (cleanup, k') = kernel.remove_rules batch.rules k in (after_cleanup e strict cleanup, k')

  unfoldable pub apply_rules_with_policy_diagnosed :
      VfsApplied → List ℕ → Bool → Exec K VfsPolicyOutcome
  apply_rules_with_policy_diagnosed batch uids strict k =
      let (applied, k') = apply_rules batch uids k in under_policy batch strict applied k'
