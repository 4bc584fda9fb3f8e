-- ===== src/Plan/Checks.antt =====
-- plan/mod.rs: the checks of a finished tree, which refuse backends that would hide one another.
pub mod Tree
pub mod Sound
pub mod Hidden
use meta_hybrid_mount.Prelude.{
  Bool, true, false, ◌&&◌, ◌||◌, not, Option, none, some, List, [], ◌∷◌, ◌++◌, if◌then◌else◌, find,
}
use meta_hybrid_mount.Text.{Text, bytes}
use meta_hybrid_mount.Config.{Mode, overlay, magic, vfs, ignore, mode_eq}
use meta_hybrid_mount.Errors.{Error, Result, ok, err, ◌>>=◌, ◌>>◌, plan_conflict}
use meta_hybrid_mount.MountTree.{
  NodeFileType, whiteout, is_directory, MountSource, MountNode, Children, node, leaf, branch,
  source_for,
}
use meta_hybrid_mount.Vfs.Rule.{current_path}

-- How an error names a source, and one with a remark.
abbrev pub source_text : MountSource → Text
source_text s = s.module_id ++ (bytes ":" ++ s.relative)

abbrev pub remarked : MountSource → Text → Text
remarked s remark = source_text s ++ remark

-- `first.or(second)`, and a choice that goes on if there is none.
abbrev pub or {ℓ} : {A : Type ℓ} → Option A → Option A → Option A
or none second = second
or (some a) second = some a

unfoldable mutual
  pub first_descendant_source : MountNode → Mode → Option MountSource
  first_descendant_source (node name kids sources structural) backend = first_of_kids kids backend

  pub first_of_kids : Children → Mode → Option MountSource
  first_of_kids leaf backend = none
  first_of_kids (branch key n rest) backend =
      or (source_for backend n)
        (or (first_descendant_source n backend) (first_of_kids rest backend))

-- The error of a conflict, if there are two sources in one another's way.
abbrev pub no_conflict :
    Text → Option MountSource → Mode → Text → Option MountSource → Result (Unit {0})
no_conflict target (some first) first_backend remark (some second) =
    err (
      plan_conflict target first_backend (remarked first remark) second.backend
        (source_text second))
no_conflict target _ first_backend remark _ = ok tt

abbrev pub is_magic_replace : MountSource → Bool
is_magic_replace s = mode_eq s.backend magic && s.replace

abbrev pub is_vfs_replace : MountSource → Bool
is_vfs_replace s = mode_eq s.backend vfs && s.replace

abbrev pub is_vfs : MountSource → Bool
is_vfs s = mode_eq s.backend vfs

abbrev pub is_mount_directory : MountSource → Bool
is_mount_directory s =
    (mode_eq s.backend overlay || mode_eq s.backend magic)
    && (is_directory s.file_type || s.replace)

abbrev pub is_whiteout : NodeFileType → Bool
is_whiteout NodeFileType.whiteout = true
is_whiteout _ = false

abbrev pub is_removal : MountSource → Bool
is_removal s = is_whiteout s.file_type && not (mode_eq s.backend ignore)

abbrev pub is_kept : MountSource → Bool
is_kept s = not (is_whiteout s.file_type) && not (mode_eq s.backend ignore)

unfoldable mutual
  pub ensure_replace_backend_consistency : MountNode → Text → Result (Unit {0})
  ensure_replace_backend_consistency (node name kids sources structural) target =
      let current = current_path target name in
      no_conflict current (find is_magic_replace sources) magic (bytes " (.replace)")
        (first_of_kids kids overlay)
      >> ensure_replace_kids kids current

  pub ensure_replace_kids : Children → Text → Result (Unit {0})
  ensure_replace_kids leaf current = ok tt
  ensure_replace_kids (branch key n rest) current =
      ensure_replace_backend_consistency n current >> ensure_replace_kids rest current

-- The backend of an occupant is the one of its source.
unfoldable pub backend_of : Option MountSource → Mode
backend_of none = ignore
backend_of (some s) = s.backend

unfoldable mutual
  pub ensure_vfs_not_shadowed : MountNode → Text → Option MountSource → Result (Unit {0})
  ensure_vfs_not_shadowed (node name kids sources structural) target ancestor_mount =
      let current = current_path target name in
      no_conflict current ancestor_mount (backend_of ancestor_mount) [] (find is_vfs sources)
      >> ensure_kids_not_shadowed kids current (or (find is_mount_directory sources) ancestor_mount)

  pub ensure_kids_not_shadowed : Children → Text → Option MountSource → Result (Unit {0})
  ensure_kids_not_shadowed leaf current child_mount = ok tt
  ensure_kids_not_shadowed (branch key n rest) current child_mount =
      ensure_vfs_not_shadowed n current child_mount
      >> ensure_kids_not_shadowed rest current child_mount

unfoldable mutual
  pub ensure_vfs_opaque_exclusive : MountNode → Text → Option MountSource → Result (Unit {0})
  ensure_vfs_opaque_exclusive (node name kids sources structural) target opaque_owner =
      let current = current_path target name in
      let owner = or (find is_vfs_replace sources) opaque_owner in
      no_conflict current owner vfs (bytes " (.replace)") (find (λ s. not (is_vfs s)) sources)
      >> ensure_kids_exclusive kids current owner

  pub ensure_kids_exclusive : Children → Text → Option MountSource → Result (Unit {0})
  ensure_kids_exclusive leaf current owner = ok tt
  ensure_kids_exclusive (branch key n rest) current owner =
      ensure_vfs_opaque_exclusive n current owner >> ensure_kids_exclusive rest current owner

unfoldable mutual
  pub ensure_whiteout_exclusive : MountNode → Text → Result (Unit {0})
  ensure_whiteout_exclusive (node name kids sources structural) target =
      let current = current_path target name in
      let removal = find is_removal sources in
      no_conflict current removal (backend_of removal) (bytes " (whiteout)") (
        or (find is_kept sources) (
          or (first_of_kids kids overlay) (or (first_of_kids kids magic) (first_of_kids kids vfs))))
      >> ensure_whiteout_kids kids current

  pub ensure_whiteout_kids : Children → Text → Result (Unit {0})
  ensure_whiteout_kids leaf current = ok tt
  ensure_whiteout_kids (branch key n rest) current =
      ensure_whiteout_exclusive n current >> ensure_whiteout_kids rest current
