-- ===== src/Tests/Snapshot.antt =====
-- The snapshot of the modules, with an installed module and a removed one.

use meta_hybrid_mount.Prelude.Sorting.{insert_by, sort_by}
use meta_hybrid_mount.Prelude.{
  In, ◌≡◌, refl, ◌⊎◌, inl, inr, Bool, true, false, List, [], ◌∷◌, none, any,
}
use meta_hybrid_mount.Text.{Text, text_eq, bytes}
use meta_hybrid_mount.Text.Maps.{update}
use meta_hybrid_mount.Text.Utf8.{from_utf8_lossy}
use meta_hybrid_mount.Errors.{Result, ok, err}
use meta_hybrid_mount.MountTree.{source_for}
use meta_hybrid_mount.Partitions.{get}
use meta_hybrid_mount.Scanner.{mountable, ModuleRecord}
use meta_hybrid_mount.Plan.Checks.{
  first_of_kids, ensure_replace_backend_consistency, ensure_replace_kids, backend_of,
  ensure_vfs_not_shadowed, ensure_kids_not_shadowed, ensure_vfs_opaque_exclusive,
  ensure_kids_exclusive, ensure_whiteout_exclusive, ensure_whiteout_kids,
}
use meta_hybrid_mount.Plan.Builder.{finish}
use meta_hybrid_mount.Plan.Build.{is_module_blacklisted, plan_modules, check_tree, build_plan}
use meta_hybrid_mount.State.{AppModule}
use meta_hybrid_mount.State.Modules.{
  app_module_rules, shown_mode, app_module, app_modules, sync_app_module_rules, cache_into, without,
  merge_installed, merged_over, fallback_app_modules_with_layout, merge_module_snapshot_with_layout,
}
use meta_hybrid_mount.State.Merged.{WasListed, is_installed, merge_module_snapshot-lists}
use meta_hybrid_mount.Tests.Plans.{a_module, layout}
use meta_hybrid_mount.Tests.Admission.{config}

abbrev installed : List ModuleRecord
installed = record (a_module (bytes "a") []) { disabled = true } ∷ []

abbrev listed : Text → Bool → AppModule
listed id enabled = record {
  id = id;
  name = bytes "n";
  version = bytes "1";
  author = bytes "w";
  description = [];
  mode = bytes "vfs";
  is_mounted = true;
  enabled = enabled;
  blacklisted = false;
  source_path = bytes "/m";
  mount_error = none;
  suggest_ignore = false;
  rules = record { default_mode = none; paths = [] };
  partition_errors = [];
  operation_errors = [];
}

abbrev cached : List AppModule
cached = listed (bytes "a") true ∷ listed (bytes "gone") true ∷ listed (bytes "stale") true ∷ []

list_or_none : Result (List AppModule) → List AppModule
list_or_none (ok modules) = modules
list_or_none (err e) = []

merged : List AppModule
merged =
    list_or_none
      (merge_module_snapshot_with_layout true [] cached installed config (bytes "gone" ∷ []) layout)

merges :
    merge_module_snapshot_with_layout true [] cached installed config (bytes "gone" ∷ []) layout
    ≡ ok merged
unfolding merged list_or_none merge_module_snapshot_with_layout fallback_app_modules_with_layout
    build_plan plan_modules check_tree sort_by insert_by is_module_blacklisted mountable finish
    ensure_replace_backend_consistency ensure_replace_kids ensure_vfs_not_shadowed
    ensure_kids_not_shadowed ensure_vfs_opaque_exclusive ensure_kids_exclusive
    ensure_whiteout_exclusive ensure_whiteout_kids source_for first_of_kids backend_of
merges = refl

abbrev gone : AppModule
gone = listed (bytes "gone") false

gone-In : In gone merged
unfolding merged list_or_none merge_module_snapshot_with_layout fallback_app_modules_with_layout
    build_plan plan_modules check_tree sort_by insert_by is_module_blacklisted mountable finish
    ensure_replace_backend_consistency ensure_replace_kids ensure_vfs_not_shadowed
    ensure_kids_not_shadowed ensure_vfs_opaque_exclusive ensure_kids_exclusive
    ensure_whiteout_exclusive ensure_whiteout_kids source_for first_of_kids backend_of app_modules
    merged_over cache_into update merge_installed without sync_app_module_rules app_module get
    app_module_rules from_utf8_lossy shown_mode
gone-In = inr (inl refl)

merge_module_snapshot-lists_example :
    ((gone.is_mounted ≡ false) ⊎ WasListed cached gone)
    × ((is_installed installed gone.id ≡ true)
        ⊎ ((is_installed installed gone.id ≡ false)
            × (gone.is_mounted ≡ true)
            × (any (text_eq gone.id) (bytes "gone" ∷ []) ≡ true)
            × (gone.enabled ≡ false)))
merge_module_snapshot-lists_example =
    merge_module_snapshot-lists true [] cached installed config (bytes "gone" ∷ []) layout gone
      merges gone-In
