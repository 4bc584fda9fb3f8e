-- ===== src/Runtime/Boot.antt =====
-- runtime/boot.rs: the ownership that a boot takes. Legacy reports only log and are left out.
pub mod Release
pub mod Cleanup
use meta_hybrid_mount.Prelude.{
  ℕ, ◌+◌, Bool, true, false, ◌&&◌, ◌||◌, not, Option, none, some, List, [], ◌∷◌, ◌++◌, ◌==◌, any,
  find, filter, map, if◌then◌else◌,
}
use meta_hybrid_mount.Text.{Text, bytes, text_eq, text_lt, is_empty}
use meta_hybrid_mount.Prelude.Sets.{to_set}
use meta_hybrid_mount.Text.Utf8.{is_utf8}
use meta_hybrid_mount.Errors.{
  Error, Result, ok, err, ◌>>=◌, ◌>>◌, is_ok, owned_rule_changed, incomplete_operation,
  boot_pipeline_failed, invalid_utf8,
}
use meta_hybrid_mount.Exec.{Exec, pure, lift, continue}
use meta_hybrid_mount.State.{AppModule}
use meta_hybrid_mount.Plan.Builder.{MountPlan}
use meta_hybrid_mount.Vfs.Rule.{VfsRule, build_vfs_rules}
use meta_hybrid_mount.Vfs.Protocol.Encode.{EncodedRule, encode_rule}
use meta_hybrid_mount.Runtime.Rules.{SavedRule, semantic_equal, same_key}
use meta_hybrid_mount.Runtime.Rules.Transaction.{RuleKernel, reconcile}
use meta_hybrid_mount.Runtime.Transaction.{UidKernel}
use meta_hybrid_mount.Runtime.Ledger.{
  Ledger, OwnedMount, next_generation, require_clean, owned_unmounts, release_mount_resources,
}
use meta_hybrid_mount.Runtime.Lifecycle.{confirm_boot_rules, owned_uids}

abbrev pub checked_text : List ℕ → Result Text
checked_text s = if is_utf8 s then ok s else err invalid_utf8

unfoldable pub planned_rule : VfsRule → Result SavedRule
planned_rule rule = encode_rule rule >>= λ encoded.
    (checked_text encoded.virtual_path >>= λ virtual_path.
    (checked_text encoded.real_path >>= λ real_path. ok record {
      module_id = rule.module_id;
      virtual_path = virtual_path;
      real_path = real_path;
      flags = encoded.flags;
      uid = 0;
    }))

unfoldable pub planned_from : List VfsRule → Result (List SavedRule)
planned_from [] = ok []
planned_from (rule ∷ rest) =
    planned_rule rule >>= λ saved. (planned_from rest >>= λ more. ok (saved ∷ more))

unfoldable pub planned_rules : MountPlan → Result (List SavedRule)
planned_rules plan = planned_from (build_vfs_rules plan.tree)

-- What `stage_plan` saves.
unfoldable pub staged : MountPlan → List SavedRule → List ℕ → Bool → Ledger → Ledger
staged plan rules requested_uids nomount saved = record saved {
  partition_layout = some plan.partition_layout;
  pending_rules = rules;
  vfs_provider =
      if is_empty rules then none else some (if nomount then bytes "nomount" else bytes "hm");
  isolated_uids = requested_uids;
  non_vfs_modules = to_set text_lt (plan.magic_module_ids ++ plan.overlay_module_ids);
}

unfoldable pub stage_plan : MountPlan → List ℕ → Bool → Ledger → Result Ledger
stage_plan plan requested_uids nomount saved =
    planned_rules plan >>= λ rules. ok (staged plan rules requested_uids nomount saved)

-- The ledger that `start` saves.
unfoldable pub started : Ledger → Result Ledger
started saved =
    require_clean saved
    >> ok (record saved {
      generation = next_generation saved.generation;
      phase = bytes "applying";
      error = none;
    })

-- The rule in the kernel at the place of an owned one, if it is there, must be the same.
abbrev pub checked_remaining :
    SavedRule → Option SavedRule → Result (List SavedRule) → Result (List SavedRule)
checked_remaining expected none rest = rest
checked_remaining expected (some actual) rest =
    if semantic_equal expected actual
    then (rest >>= λ more. ok (expected ∷ more))
    else err (owned_rule_changed expected.virtual_path)

unfoldable pub remaining_rules : List SavedRule → List SavedRule → Result (List SavedRule)
remaining_rules current [] = ok []
remaining_rules current (expected ∷ rest) =
    checked_remaining expected (find (λ actual. same_key expected actual) current)
      (remaining_rules current rest)

-- What `finish` reads of the boot's state, and the session.
pub record BootOutcome : Type 0 where
  pub mounts : List OwnedMount
  pub unmounts : List Text
  pub vfs_active_mounts : List Text
  pub original_uids : List ℕ
  pub successful : Bool
  pub modules : List AppModule

-- The ledger with the mounts of the boot; a NoMount batch that was rejected claims nothing.
abbrev pub is_nomount : Option Text → Bool
is_nomount none = false
is_nomount (some provider) = text_eq provider (bytes "nomount")

unfoldable pub captured : BootOutcome → Ledger → Ledger
captured outcome saved =
    let claimed = record saved { mounts = outcome.mounts; ksu_unmounts = some outcome.unmounts } in
    if is_nomount saved.vfs_provider && is_empty outcome.vfs_active_mounts
    then record claimed { pending_rules = []; isolated_uids = [] }
    else claimed

-- The rules and the UIDs that are owned, from what the kernel shows.
unfoldable pub observed_ownership : BootOutcome → List SavedRule → List ℕ → Ledger → Ledger
observed_ownership outcome current uids saved = record saved {
  rules = filter (λ expected. any (semantic_equal expected) current) saved.pending_rules;
  isolated_uids = owned_uids saved.isolated_uids outcome.original_uids uids;
}

abbrev pub final_error : Result (Unit {0}) → Bool → Option Error
final_error (err e) successful = some e
final_error (ok _) successful = if successful then none else some boot_pipeline_failed

unfoldable pub concluded : BootOutcome → Result (Unit {0}) → Ledger → Ledger
concluded outcome verification saved = record saved {
  modules = outcome.modules;
  pending_rules = if is_ok verification then [] else saved.pending_rules;
  phase = if outcome.successful && is_ok verification then bytes "ready" else bytes "error";
  error = final_error verification outcome.successful;
}

-- `finish` on the listings of the kernel: the result, and the ledger that it saves.
unfoldable pub finish_with :
    BootOutcome → List SavedRule → List ℕ → Ledger → Result (Unit {0}) × Ledger
finish_with outcome current uids loaded =
    let saved = captured outcome loaded in
    let verification = confirm_boot_rules saved.pending_rules outcome.vfs_active_mounts current in
    (verification, concluded outcome verification (observed_ownership outcome current uids saved))

-- The same where there are no planned rules and no kernel module.
unfoldable pub finish_without : BootOutcome → Ledger → Result (Unit {0}) × Ledger
finish_without outcome loaded =
    (ok tt, concluded outcome (ok tt) (record (captured outcome loaded) { isolated_uids = [] }))
