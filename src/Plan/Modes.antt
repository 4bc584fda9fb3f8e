-- ===== src/Plan/Modes.antt =====
-- plan/mod.rs: `ModuleRulesView`, the backend that a module's path is given.
pub mod Longest
use meta_hybrid_mount.Prelude.{
  ◌≡◌, ℕ, Bool, true, false, ◌&&◌, ◌||◌, not, Option, none, some, List, [], ◌∷◌, map, ◌==◌, ltb,
  if◌then◌else◌, length, find, any,
}
use meta_hybrid_mount.Prelude.Sorting.{sort_by}
use meta_hybrid_mount.Text.{Text, bytes, text_eq, text_lt, strip_prefix, starts_with_slash}
use meta_hybrid_mount.Text.Trim.{trim, trim_start_slashes}
use meta_hybrid_mount.Config.{Mode, overlay, vfs, ignore, mode_eq, ModuleRule, Config}

-- `is_same_or_below` of utils/mod.rs
unfoldable pub is_same_or_below : Text → Text → Bool
is_same_or_below path prefix =
    text_eq path prefix
    || elim (strip_prefix prefix path) [ none ↦ false | some rest ↦ starts_with_slash rest ]

unfoldable pub normalize_rule_path : Text → Text
normalize_rule_path key = trim_start_slashes (trim key)

-- Whether the comparison of the path rules puts the first one strictly before the other.
abbrev pub longer_first : Text × Mode → Text × Mode → Bool
longer_first (left, _) (right, _) =
    if length left == length right then text_lt left right else ltb (length right) (length left)

-- Without the kernel module a `vfs` rule is an `ignore` rule.
unfoldable pub degrade : Bool → Mode → Mode
degrade vfs_available mode = if mode_eq mode vfs && not vfs_available then ignore else mode

pub record ModuleRulesView : Type 0 where
  pub default_mode : Mode
  pub path_rules : List (Text × Mode)

abbrev pub rule_of_module : Text → List (Text × ModuleRule) → Option ModuleRule
rule_of_module id [] = none
rule_of_module id ((key, rule) ∷ rest) =
    if text_eq key id then some rule else rule_of_module id rest

abbrev pub default_of : Mode → Option ModuleRule → Mode
default_of global none = global
default_of global (some rule) = elim rule.default_mode [ none ↦ global | some mode ↦ mode ]

abbrev pub paths_of : Option ModuleRule → List (Text × Mode)
paths_of none = []
paths_of (some rule) = rule.paths

abbrev pub normalized : List (Text × Mode) → List (Text × Mode)
normalized paths = map (λ (rule : Text × Mode). (normalize_rule_path rule.0, rule.1)) paths

abbrev pub degraded : Bool → List (Text × Mode) → List (Text × Mode)
degraded vfs_available rules =
    map (λ (rule : Text × Mode). (rule.0, degrade vfs_available rule.1)) rules

unfoldable pub new_view : Text → Config → Bool → ModuleRulesView
new_view module_id config vfs_available =
    let module_rule = rule_of_module module_id config.rules in
    record {
      default_mode = degrade vfs_available (default_of config.default_mode module_rule);
      path_rules =
          degraded vfs_available (sort_by longer_first (normalized (paths_of module_rule)));
    }

abbrev pub mode_or : Mode → Option (Text × Mode) → Mode
mode_or default none = default
mode_or default (some rule) = rule.1

unfoldable pub resolve_mode : ModuleRulesView → Text → Mode
resolve_mode view relative =
    mode_or view.default_mode
      (find (λ (rule : Text × Mode). is_same_or_below relative rule.0) view.path_rules)

unfoldable pub has_whole_system_overlay_rule : ModuleRulesView → Bool
has_whole_system_overlay_rule view =
    any (λ (rule : Text × Mode). text_eq rule.0 (bytes "system") && mode_eq rule.1 overlay)
      view.path_rules
