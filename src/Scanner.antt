-- ===== src/Scanner.antt =====
-- scanner.rs: the records that a scan of the module directory produces.
use meta_hybrid_mount.Prelude.{Bool, ◌&&◌, not, Option, List}
use meta_hybrid_mount.Text.{Text}
use meta_hybrid_mount.MountTree.{NodeFileType}

pub record ModuleEntry : Type 0 where
  pub relative : Text
  pub file_type : NodeFileType
  pub replace : Bool
  pub link_target : Option Text
  pub directory_remove : Bool
  pub marker_error : Option Text

pub record ModuleRecord : Type 0 where
  pub id : Text
  pub name : Text
  pub version : Text
  pub author : Text
  pub description : Text
  pub disabled : Bool
  pub skip_mount : Bool
  pub has_mount_files : Bool
  pub source_path : Text
  pub entries : List ModuleEntry

unfoldable pub mountable : ModuleRecord → Bool
mountable m = m.has_mount_files && (not m.disabled && not m.skip_mount)
