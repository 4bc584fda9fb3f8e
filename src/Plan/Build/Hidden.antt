-- ===== src/Plan/Build/Hidden.antt =====
-- plan/mod.rs: in a finished plan no backend hides what another one puts below it.
use meta_hybrid_mount.Prelude.{ap, [], ◌≡◌, refl, Bool, true, false, ◌&&◌, ◌||◌, not, none, In, inr}
use meta_hybrid_mount.Config.{Mode, overlay, ignore, mode_eq}
use meta_hybrid_mount.Errors.{ok, >>=-eq-ok}
use meta_hybrid_mount.MountTree.{MountSource, MountNode, node, sources_of}
use meta_hybrid_mount.Plan.Checks.{
  is_magic_replace, is_vfs_replace, is_vfs, is_mount_directory, is_removal,
  ensure_replace_backend_consistency, ensure_vfs_not_shadowed, ensure_vfs_opaque_exclusive,
}
use meta_hybrid_mount.Plan.Checks.Tree.{InTree, IsBelow}
use meta_hybrid_mount.Plan.Checks.Sound.{
  ensure_replace_backend_consistency_sound, ensure_whiteout_exclusive_sound,
}
use meta_hybrid_mount.Plan.Checks.Hidden.{
  ensure_vfs_not_shadowed_sound, ensure_vfs_opaque_exclusive_sound,
}
use meta_hybrid_mount.Plan.Builder.{MountPlan, finish}
use meta_hybrid_mount.Plan.Build.{[], PlanInput, check_tree, build_plan}
use meta_hybrid_mount.Plan.Build.Contributors.{build_plan-eq-ok}

-- Whether a source would hide another that stands strictly below it: a Magic replacement an overlay
-- contribution, a mounted directory a VFS rule, an opaque VFS directory anything that is not for the
-- VFS, a removal anything that is not ignored.
abbrev pub hides : MountSource → MountSource → Bool
hides above below =
    (is_magic_replace above && mode_eq below.backend overlay)
    || ((is_mount_directory above && is_vfs below)
        || ((is_vfs_replace above && not (is_vfs below))
            || (is_removal above && not (mode_eq below.backend ignore))))

and-false : (a b : Bool) → (a ≡ true → b ≡ false) → (a && b) ≡ false
and-false true b h = h refl
and-false false b h = refl

at_or_below : (m n : MountNode) → IsBelow m n → InTree m n
unfolding InTree
at_or_below m (node name kids sources structural) j = inr j

ignored : (mode : Mode) → mode ≡ ignore → not (mode_eq mode ignore) ≡ false
ignored mode h = rw h refl

check_tree-Clear :
    (tree : MountNode)
    → check_tree tree ≡ ok tt
    → (n m : MountNode) (above below : MountSource) → InTree n tree
    → In above (sources_of n)
    → IsBelow m n
    → In below (sources_of m)
    → hides above below ≡ false
unfolding check_tree
check_tree-Clear tree h n m above below i a j b =
    let (u1, h1, k1) = >>=-eq-ok (ensure_replace_backend_consistency tree []) _ h in
    let (u2, h2, k2) = >>=-eq-ok (ensure_vfs_not_shadowed tree [] none) _ k1 in
    let (u3, h3, h4) = >>=-eq-ok (ensure_vfs_opaque_exclusive tree [] none) _ k2 in
    let magic_clear =
      and-false (is_magic_replace above) (mode_eq below.backend overlay)
        (λ t. ensure_replace_backend_consistency_sound tree [] h1 n above i a t m below j b) in
    let shadow_clear =
      and-false (is_mount_directory above) (is_vfs below)
        (λ t. ensure_vfs_not_shadowed_sound tree [] h2 n above i a t m below j b) in
    let opaque_clear = and-false (is_vfs_replace above) (not (is_vfs below)) (λ t.
      ap not (
        ensure_vfs_opaque_exclusive_sound tree [] h3 n above i a t m below (at_or_below m n j)
          b)) in
    let removal_clear = and-false (is_removal above) (not (mode_eq below.backend ignore)) (λ t.
      ignored below.backend
        ((ensure_whiteout_exclusive_sound tree [] h4 n above i a t).1 m below j b)) in
    rw (magic_clear, shadow_clear, opaque_clear, removal_clear) refl

-- In the tree of a plan no contribution hides one strictly below it: nothing of OverlayFS is below a
-- Magic replacement, nothing of the VFS below a mounted directory, only what is of the VFS below an
-- opaque VFS directory, and only ignored entries below a removal.
pub build_plan-hides :
    (input : PlanInput) (plan : MountPlan)
    → build_plan input ≡ ok plan
    → (n m : MountNode) (above below : MountSource) → InTree n plan.tree
    → In above (sources_of n)
    → IsBelow m n
    → In below (sources_of m)
    → hides above below ≡ false
unfolding finish
build_plan-hides input plan h n m above below i =
    let (b, e, c, p) = build_plan-eq-ok input plan h in
    check_tree-Clear b.tree c n m above below (rw p at i)
