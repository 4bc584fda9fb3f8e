-- ===== src/Tests/Phase.antt =====
-- The VFS phase on a small provider.
use meta_hybrid_mount.Prelude.{
  ◌≡◌, refl, ◌⊎◌, Bool, true, false, List, [], ◌∷◌, ◌++◌, none, some, map,
}
use meta_hybrid_mount.Text.{bytes}
use meta_hybrid_mount.Errors.{ok}
use meta_hybrid_mount.Config.{vfs}
use meta_hybrid_mount.MountTree.{MountSource, MountNode, regular_file, node, leaf, branch}
use meta_hybrid_mount.Plan.Builder.{MountPlan}
use meta_hybrid_mount.Vfs.BootGuard.{absent}
use meta_hybrid_mount.Vfs.Protocol.Encode.{EncodedRule, hybrid_mount}
use meta_hybrid_mount.Vfs.Protocol.Decode.{ListedRule}
use meta_hybrid_mount.Vfs.Exec.{VfsKernel}
use meta_hybrid_mount.Pipeline.{PhaseHost, Phase, apply_vfs_phase, apply_batch}
use meta_hybrid_mount.Vfs.Exec.{
  plan_rules, plan_batch, missing_rules, dedupe_uids, apply_rules,
  apply_rules_with_policy_diagnosed,
}
use meta_hybrid_mount.Vfs.Protocol.Encode.{encode_rule}
use meta_hybrid_mount.Text.Utf8.{from_utf8_lossy}
use meta_hybrid_mount.MountTree.{source_for, any_has_backend}
use meta_hybrid_mount.Vfs.Rule.{
  current_path, is_vfs_dir, owner_of, opaque_rules, typed_rules, file_rules, node_rules,
  collect_node, collect_kids, build_vfs_rules,
}
use meta_hybrid_mount.Prelude.Sorting.{sort_by, insert_by}
use meta_hybrid_mount.Prelude.Sets.{set_insert, to_set}
use meta_hybrid_mount.Pipeline.Outcome.{IsConfirmed, IsInactive, apply_vfs_phase-Ends}
use meta_hybrid_mount.Tests.Plans.{layout}
use meta_hybrid_mount.Tests.Admission.{config}

abbrev as_listed : EncodedRule → ListedRule
as_listed rule = record {
  flags = rule.flags;
  uid = 0;
  virtual_path = rule.virtual_path;
  real_path = rule.real_path;
}

-- A provider that keeps what it is given.
abbrev provider : VfsKernel (List EncodedRule)
provider = record {
  apply_rules = λ rules k. (ok tt, rules ++ k);
  remove_rules = λ rules k. (ok tt, []);
  add_uids = λ uids k. (ok tt, k);
  list_rules = λ k. (ok (map as_listed k), k);
}

abbrev host : PhaseHost (List EncodedRule) Bool
host = record {
  inspect = λ d. ok absent;
  clear_rule_guard = λ d. (ok d, false);
  arm = λ d. (ok tt, true);
  drop_guard = λ d. false;
  open_active =
      λ k. (ok record { is_nomount = false; provider = bytes "hm"; format = hybrid_mount }, k);
  kernel = provider;
}

abbrev hosts : MountSource
hosts = record {
  module_id = bytes "a";
  relative = bytes "system/h";
  source_path = bytes "/m/h";
  file_type = regular_file;
  replace = false;
  backend = vfs;
}

abbrev tree : MountNode
tree = node [] (branch (bytes "h") (node (bytes "h") leaf (hosts ∷ []) []) leaf) [] []

abbrev plan : MountPlan
plan = record {
  tree = tree;
  overlay_ops = [];
  overlay_files = [];
  overlay_module_ids = [];
  magic_module_ids = [];
  vfs_module_ids = bytes "a" ∷ [];
  partition_errors = [];
  operation_errors = [];
  partition_layout = layout;
  protected_targets = [];
}

abbrev start : Phase (List EncodedRule) Bool
start = record {
  kernel = [];
  disk = false;
  vfs_provider = none;
  vfs_error = none;
  vfs_error_modules = [];
  registered = [];
}

is_confirmed : (apply_vfs_phase host config plan false start).1.vfs_provider ≡ some (bytes "hm")
unfolding apply_vfs_phase apply_batch plan_rules plan_batch missing_rules dedupe_uids apply_rules
    apply_rules_with_policy_diagnosed encode_rule from_utf8_lossy source_for any_has_backend
    current_path is_vfs_dir owner_of opaque_rules typed_rules file_rules node_rules collect_node
    collect_kids build_vfs_rules sort_by insert_by set_insert to_set
is_confirmed = refl

apply_vfs_phase-Ends_example :
    IsConfirmed host config plan
      (apply_vfs_phase host config plan false start).0
      (apply_vfs_phase host config plan false start).1
    ⊎ IsInactive host config plan start.kernel
        (apply_vfs_phase host config plan false start).0
        (apply_vfs_phase host config plan false start).1
apply_vfs_phase-Ends_example = apply_vfs_phase-Ends host config plan false start refl refl
