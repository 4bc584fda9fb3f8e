-- ===== src/Tests/Planner.antt =====
-- The planner's checks on small trees, and its choice of a backend.
use meta_hybrid_mount.Prelude.{◌≡◌, inl, inr, refl, Bool, true, false, [], ◌∷◌, some, In}
use meta_hybrid_mount.Text.{Text, bytes}
use meta_hybrid_mount.Config.{Mode, overlay, magic, vfs, ignore, Config}
use meta_hybrid_mount.Errors.{ok}
use meta_hybrid_mount.MountTree.{
  source_for, sources_of, MountSource, MountNode, NodeFileType, regular_file, directory, whiteout,
  node, leaf, branch,
}
use meta_hybrid_mount.Plan.Checks.{first_of_kids, ensure_whiteout_exclusive, is_kept}
use meta_hybrid_mount.Plan.Checks.Tree.{InTree, IsBelow}
use meta_hybrid_mount.Plan.Checks.Sound.{ensure_whiteout_exclusive_sound}
use meta_hybrid_mount.Plan.Modes.{new_view, resolve_mode}
use meta_hybrid_mount.Plan.Modes.Longest.{Chosen, rules_for, default_for, resolve_mode-Chosen}
use meta_hybrid_mount.Plan.Register.{
  assign, shareable_directories, check_assignments, TargetAssignment, Assignments, assigned,
  assignment_of, register,
}
use meta_hybrid_mount.Plan.Register.Compatible.{ArePairwise, Registered, register-Registered}

abbrev source : Mode → NodeFileType → Bool → Text → MountSource
source backend file_type replace relative = record {
  module_id = bytes "m";
  relative = relative;
  source_path = bytes "/data/m";
  file_type = file_type;
  replace = replace;
  backend = backend;
}

-- A directory `/d` with one source, and a file `/d/f` in it with one.
abbrev file_node : MountSource → MountNode
file_node below = node (bytes "f") leaf (below ∷ []) []

abbrev dir_node : MountSource → MountSource → MountNode
dir_node own below = node (bytes "d") (branch (bytes "f") (file_node below) leaf) (own ∷ []) []

abbrev root_node : MountSource → MountSource → MountNode
root_node own below = node [] (branch (bytes "d") (dir_node own below) leaf) [] []

abbrev removal : MountSource
removal = source overlay whiteout false (bytes "d")

abbrev ignored : MountSource
ignored = source ignore regular_file false (bytes "d/f")

dir-InTree : InTree (dir_node removal ignored) (root_node removal ignored)
unfolding InTree
dir-InTree = inr (inl (inl refl))

whiteout_passes : ensure_whiteout_exclusive (root_node removal ignored) [] ≡ ok tt
unfolding ensure_whiteout_exclusive first_of_kids source_for
whiteout_passes = refl

ensure_whiteout_exclusive_sound_example :
    ((s : MountSource) → In s (removal ∷ []) → is_kept s ≡ false)
    × ((m : MountNode) (s : MountSource)
        → IsBelow m (dir_node removal ignored)
        → In s (sources_of m)
        → s.backend ≡ ignore)
ensure_whiteout_exclusive_sound_example =
    ensure_whiteout_exclusive_sound (root_node removal ignored) [] whiteout_passes
      (dir_node removal ignored) removal dir-InTree (inl refl) refl

abbrev config : Config
config = record {
  default_mode = overlay;
  rules =
      (
        bytes "m",
        record {
          default_mode = some magic;
          paths = (bytes "system", overlay) ∷ (bytes "/system/app", vfs) ∷ [];
        },
      )
      ∷ [];
  module_blacklist = [];
  vfs_isolate_uids = [];
  vfs_strict = false;
  disable_umount = false;
}

resolve_mode-Chosen_example :
    Chosen
      (rules_for (bytes "m") config true)
      (default_for (bytes "m") config true)
      (bytes "system/app/x.apk")
      (resolve_mode (new_view (bytes "m") config true) (bytes "system/app/x.apk"))
resolve_mode-Chosen_example = resolve_mode-Chosen (bytes "m") config true (bytes "system/app/x.apk")

abbrev shared_dir : TargetAssignment
shared_dir = assignment_of overlay (bytes "o") (bytes "d") directory false

abbrev one_assignment : Assignments
one_assignment = (bytes "/d", shared_dir ∷ []) ∷ []

abbrev both_assigned : Assignments
both_assigned =
    (bytes "/d", shared_dir ∷ assignment_of magic (bytes "m") (bytes "d") directory false ∷ []) ∷ []

shared_registered :
    register (bytes "/d") magic (bytes "m") (bytes "d") directory false one_assignment
    ≡ ok both_assigned
unfolding register check_assignments assigned shareable_directories assign
shared_registered = refl

one_pairwise : ArePairwise (assigned (bytes "/d") one_assignment)
unfolding assigned
one_pairwise = ((λ new m. absurd m), tt)

register-Registered_example :
    Registered
      (bytes "/d")
      (assignment_of magic (bytes "m") (bytes "d") directory false)
      one_assignment
      both_assigned
register-Registered_example =
    register-Registered (bytes "/d") magic (bytes "m") (bytes "d") directory false one_assignment
      one_pairwise shared_registered
