-- ===== src/State/Modules.antt =====
-- state.rs: what a session reports of the modules, and which of them it mounted.
use meta_hybrid_mount.Prelude.{
  Bool, false, ◌&&◌, not, Option, none, some, List, [], ◌∷◌, ◌++◌, map, any, filter, if◌then◌else◌,
}
use meta_hybrid_mount.Prelude.Sets.{to_set}
use meta_hybrid_mount.Text.{Text, bytes, text_eq, text_lt, is_empty}
use meta_hybrid_mount.Text.Maps.{put}
use meta_hybrid_mount.Text.Utf8.{from_utf8_lossy}
use meta_hybrid_mount.Errors.{Result, ok, ◌>>=◌}
use meta_hybrid_mount.Config.{Mode, overlay, magic, vfs, ignore, ModuleRule, Config}
use meta_hybrid_mount.MountTree.{module_ids_for_target, module_ids_for_subtree}
use meta_hybrid_mount.Partitions.{
  PartitionDiagnostic, OperationDiagnostic, PartitionLayout, get, contains_key,
}
use meta_hybrid_mount.Scanner.{ModuleRecord}
use meta_hybrid_mount.Plan.Builder.{MountPlan}
use meta_hybrid_mount.Plan.Build.{is_module_blacklisted, build_plan}
use meta_hybrid_mount.State.{AppModuleRules, AppModule}

abbrev pub mode_text : Mode → Text
mode_text overlay = bytes "overlay"
mode_text magic = bytes "magic"
mode_text vfs = bytes "vfs"
mode_text ignore = bytes "ignore"

abbrev pub option_text : Option Mode → Option Text
option_text none = none
option_text (some mode) = some (mode_text mode)

abbrev pub shown_rule : Option ModuleRule → AppModuleRules
shown_rule none = record { default_mode = none; paths = [] }
shown_rule (some rule) = record {
  default_mode = option_text rule.default_mode;
  paths = map (λ (e : Text × Mode). (e.0, mode_text e.1)) rule.paths;
}

unfoldable pub app_module_rules : Config → Text → AppModuleRules
app_module_rules config module_id = shown_rule (get module_id config.rules)

-- The backend that a module is listed with.
unfoldable pub shown_mode : Bool → MountPlan → Text → Mode
shown_mode blacklisted plan id =
    if blacklisted
    then ignore
    else if any (text_eq id) plan.overlay_module_ids
    then overlay
    else if any (text_eq id) plan.magic_module_ids
    then magic
    else if any (text_eq id) plan.vfs_module_ids
    then vfs
    else ignore

unfoldable pub app_module : Config → MountPlan → List Text → List Text → ModuleRecord → AppModule
app_module config plan mount_errors mounted_module_ids m =
    let blacklisted = is_module_blacklisted config m.id in
    let has_error = any (λ id. text_eq id m.id) mount_errors in
    record {
      id = m.id;
      name = m.name;
      version = m.version;
      author = m.author;
      description = m.description;
      mode = mode_text (shown_mode blacklisted plan m.id);
      is_mounted = not blacklisted && any (text_eq m.id) mounted_module_ids;
      enabled = not m.disabled && not blacklisted;
      blacklisted = blacklisted;
      source_path = from_utf8_lossy m.source_path;
      mount_error = if has_error then some (bytes "mount_error marker present") else none;
      suggest_ignore = has_error;
      rules = app_module_rules config m.id;
      partition_errors =
          filter (λ (e : PartitionDiagnostic). any (text_eq m.id) e.modules) plan.partition_errors;
      operation_errors =
          filter (λ (e : OperationDiagnostic). text_eq e.module_id m.id) plan.operation_errors;
    }

unfoldable pub app_modules :
    List ModuleRecord → Config → MountPlan → List Text → List Text → List AppModule
app_modules modules config plan mount_errors mounted_module_ids =
    map (app_module config plan mount_errors mounted_module_ids) modules

unfoldable pub overlay_ids : MountPlan → Text → List Text
overlay_ids plan target =
    if contains_key target plan.overlay_files
    then module_ids_for_subtree overlay target plan.tree
    else module_ids_for_target overlay target plan.tree

unfoldable pub ids_of_targets : (Text → List Text) → List Text → List Text
ids_of_targets ids [] = []
ids_of_targets ids (target ∷ rest) = ids target ++ ids_of_targets ids rest

unfoldable pub mounted_module_ids_for_snapshot :
    List ModuleRecord → MountPlan → List Text → List Text → List Text
mounted_module_ids_for_snapshot modules plan overlay_targets magic_targets =
    filter (λ id. any (λ (m : ModuleRecord). text_eq m.id id) modules)
      (to_set text_lt (
        ids_of_targets (overlay_ids plan) overlay_targets
        ++ ids_of_targets (λ target. module_ids_for_target magic target plan.tree) magic_targets))

abbrev pub sync_rules : Config → AppModule → AppModule
sync_rules config m =
    let blacklisted = is_module_blacklisted config m.id in
    record m {
      blacklisted = blacklisted;
      enabled = if blacklisted then false else m.enabled;
      rules = app_module_rules config m.id;
    }

unfoldable pub sync_app_module_rules : Config → List AppModule → List AppModule
sync_app_module_rules config modules = map (sync_rules config) modules

-- `collect` into a `BTreeMap`: a later entry of the same module replaces an earlier one.
abbrev pub Cache : Type 0
Cache = List (Text × AppModule)

unfoldable pub cache_into : Cache → List AppModule → Cache
cache_into cache [] = cache
cache_into cache (m ∷ rest) = cache_into (put m.id m cache) rest

unfoldable pub without : Text → Cache → Cache
without id cache = filter (λ (e : Text × AppModule). not (text_eq e.0 id)) cache

abbrev pub kept_errors {ℓ} : {A : Type ℓ} → List A → List A → List A
kept_errors previous own = if is_empty previous then own else previous

abbrev pub with_previous : Option AppModule → AppModule → AppModule
with_previous none m = m
with_previous (some previous) m = record m {
  mode = previous.mode;
  partition_errors = kept_errors previous.partition_errors m.partition_errors;
  operation_errors = kept_errors previous.operation_errors m.operation_errors;
  is_mounted = previous.is_mounted;
}

-- The loop over the installed modules; what it leaves of the cache are removed modules.
unfoldable pub merge_installed : List AppModule → Cache → List AppModule × Cache
merge_installed [] cache = ([], cache)
merge_installed (m ∷ rest) cache =
    let (merged, left) = merge_installed rest (without m.id cache) in
    (with_previous (get m.id cache) m ∷ merged, left)

abbrev pub is_retained : List Text → AppModule → Bool
is_retained boot_owned m = m.is_mounted && any (text_eq m.id) boot_owned

abbrev pub retained : List Text → Cache → List AppModule
retained boot_owned left =
    map (λ (m : AppModule). record m { enabled = false })
      (filter (is_retained boot_owned) (map (λ (e : Text × AppModule). e.1) left))

unfoldable pub merged_over : Config → List Text → List AppModule → List AppModule → List AppModule
merged_over config boot_owned cached fallback =
    let (merged, left) = merge_installed fallback (cache_into [] cached) in
    sync_app_module_rules config (merged ++ retained boot_owned left)

-- `vfs_available` is the probe of the kernel, `mount_errors` the modules that carry the marker of a
-- failed mount.
unfoldable pub fallback_app_modules_with_layout :
    Bool → List Text → List ModuleRecord → Config → PartitionLayout → Result (List AppModule)
fallback_app_modules_with_layout vfs_available mount_errors modules config layout =
    build_plan
      record { modules = modules; config = config; layout = layout; vfs_available = vfs_available }
    >>= λ plan. ok (app_modules modules config plan mount_errors [])

unfoldable pub merge_module_snapshot_with_layout :
    Bool
    → List Text
    → List AppModule
    → List ModuleRecord
    → Config
    → List Text
    → PartitionLayout
    → Result (List AppModule)
merge_module_snapshot_with_layout vfs_available mount_errors cached installed config boot_owned
      layout =
    fallback_app_modules_with_layout vfs_available mount_errors installed config layout
    >>= λ fallback. ok (merged_over config boot_owned cached fallback)

abbrev pub without_errors : AppModule → AppModule
without_errors m = record m { partition_errors = []; operation_errors = [] }

abbrev pub parsed_cache : Option (List AppModule) → List AppModule
parsed_cache none = []
parsed_cache (some modules) = map without_errors modules

-- `scan_ret` is the snapshot file, where it can be read and parsed.
unfoldable pub query_module_snapshot_with_layout :
    Bool
    → List Text
    → Option (List AppModule)
    → List ModuleRecord
    → Config
    → List Text
    → PartitionLayout
    → Result (List AppModule)
query_module_snapshot_with_layout vfs_available mount_errors scan_ret installed config boot_owned
      layout =
    merge_module_snapshot_with_layout vfs_available mount_errors (parsed_cache scan_ret) installed
      config boot_owned layout
