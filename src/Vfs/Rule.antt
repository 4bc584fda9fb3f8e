-- ===== src/Vfs/Rule.antt =====
-- vfs/rule.rs: the rules of a mount tree, one for a target at most.
pub mod Owners
use meta_hybrid_mount.Prelude.{
  Bool, true, false, ◌&&◌, ◌||◌, not, Option, none, some, List, [], ◌∷◌, ◌++◌, reverse,
  if◌then◌else◌, find,
}
use meta_hybrid_mount.Text.{Text, bytes, is_empty}
use meta_hybrid_mount.Config.{Mode, vfs, mode_eq}
use meta_hybrid_mount.MountTree.{
  NodeFileType, regular_file, directory, symlink, is_directory, MountSource, MountNode, Children,
  node, leaf, branch, source_for, any_has_backend,
}

pub data VfsAction : Type 0 where
  inject : Text → Text → VfsAction
  whiteout : Text → VfsAction
  opaque_dir : Text → VfsAction

pub record VfsRule : Type 0 where
  pub action : VfsAction
  pub module_id : Text

-- The virtual path of a node below `target`.
unfoldable pub current_path : Text → Text → Text
current_path target name = if is_empty name then target else target ++ (bytes "/" ++ name)

-- Whether the directory is one for the kernel.
unfoldable pub is_vfs_dir : Option MountSource → Children → Bool
is_vfs_dir none children = any_has_backend vfs children
is_vfs_dir (some source) children = is_directory source.file_type || any_has_backend vfs children

-- A `.replace` directory owns what is below it.
unfoldable pub owner_of : Option MountSource → Option Text → Option Text
owner_of none owner = owner
owner_of (some source) owner = if source.replace then some source.module_id else owner

unfoldable pub opaque_rules : Text → Option Text → List VfsRule
opaque_rules current none = []
opaque_rules current (some owner) = record { action = opaque_dir current; module_id = owner } ∷ []

abbrev pub is_vfs_file : MountSource → Bool
is_vfs_file source = mode_eq source.backend vfs && not (is_directory source.file_type)

-- The rule of a source by its type; `is_vfs_file` has left out the directories.
unfoldable pub typed_rules : Text → MountSource → NodeFileType → List VfsRule
typed_rules current source regular_file =
    record { action = inject current source.source_path; module_id = source.module_id } ∷ []
typed_rules current source symlink =
    record { action = inject current source.source_path; module_id = source.module_id } ∷ []
typed_rules current source NodeFileType.whiteout =
    record { action = whiteout current; module_id = source.module_id } ∷ []
typed_rules current source directory = []

unfoldable pub file_rules : Text → Option MountSource → List VfsRule
file_rules current none = []
file_rules current (some source) = typed_rules current source source.file_type

-- The rules of a node itself.
unfoldable pub node_rules :
    Text → Option Text → Option MountSource → Children → List MountSource → List VfsRule
node_rules current owner vfs_source children sources =
    if is_vfs_dir vfs_source children
    then opaque_rules current owner
    else file_rules current (find is_vfs_file (reverse sources))

unfoldable mutual
  pub collect_node : MountNode → Text → Option Text → List VfsRule
  collect_node (node name kids sources structural) target opaque_owner =
      let current = current_path target name in
      let vfs_source = find (λ (source : MountSource). mode_eq source.backend vfs) sources in
      let owner = owner_of vfs_source opaque_owner in
      node_rules current owner vfs_source kids sources ++ collect_kids kids current owner

  pub collect_kids : Children → Text → Option Text → List VfsRule
  collect_kids leaf current owner = []
  collect_kids (branch key n rest) current owner =
      collect_node n current owner ++ collect_kids rest current owner

unfoldable pub build_vfs_rules : MountNode → List VfsRule
build_vfs_rules root = collect_node root [] none
