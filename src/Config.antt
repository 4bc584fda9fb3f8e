-- ===== src/Config.antt =====
-- config.rs: the mount backends, and the rules that choose one.
use meta_hybrid_mount.Prelude.{ℕ, Bool, true, false, Option, List}

pub data Mode : Type 0 where
  overlay magic vfs ignore : Mode

abbrev pub mode_eq : Mode → Mode → Bool
mode_eq overlay overlay = true
mode_eq magic magic = true
mode_eq vfs vfs = true
mode_eq ignore ignore = true
mode_eq _ _ = false

-- A path, a text of bytes as in Text, which stands above this module.
pub record ModuleRule : Type 0 where
  pub default_mode : Option Mode
  pub paths : List (List ℕ × Mode)

-- The fields that the planner and the hot operations read.
pub record Config : Type 0 where
  pub default_mode : Mode
  pub rules : List (List ℕ × ModuleRule)
  pub module_blacklist : List (List ℕ)
  pub vfs_isolate_uids : List ℕ
  pub vfs_strict : Bool
  pub disable_umount : Bool
