-- ===== src/State.antt =====
-- state.rs: the snapshot of a module that a session records.
pub mod Modules
pub mod Run
pub mod Merged
use meta_hybrid_mount.Prelude.{Bool, Option, List}
use meta_hybrid_mount.Text.{Text}
use meta_hybrid_mount.Partitions.{PartitionDiagnostic, OperationDiagnostic}

pub record AppModuleRules : Type 0 where
  pub default_mode : Option Text
  pub paths : List (Text × Text)

pub record AppModule : Type 0 where
  pub id : Text
  pub name : Text
  pub version : Text
  pub author : Text
  pub description : Text
  pub mode : Text
  pub is_mounted : Bool
  pub enabled : Bool
  pub blacklisted : Bool
  pub source_path : Text
  pub mount_error : Option Text
  pub suggest_ignore : Bool
  pub rules : AppModuleRules
  pub partition_errors : List PartitionDiagnostic
  pub operation_errors : List OperationDiagnostic
