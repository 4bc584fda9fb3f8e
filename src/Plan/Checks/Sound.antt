-- ===== src/Plan/Checks/Sound.antt =====
-- plan/mod.rs: a tree that passes the checks has no backend hidden by another.
use meta_hybrid_mount.Prelude.{find-none, ◌≡◌, inl, inr, refl, true, false, none, find, In}
use meta_hybrid_mount.Text.{Text, bytes}
use meta_hybrid_mount.Config.{Mode, overlay, magic, vfs, ignore, mode_eq}
use meta_hybrid_mount.Errors.{ok, >>=-eq-ok}
use meta_hybrid_mount.MountTree.{
  MountSource, MountNode, Children, node, leaf, branch, sources_of, children_of,
}
use meta_hybrid_mount.Vfs.Rule.{current_path}
use meta_hybrid_mount.Plan.Checks.{
  or, first_of_kids, no_conflict, backend_of, is_magic_replace, is_removal, is_kept,
  ensure_replace_backend_consistency, ensure_replace_kids, ensure_whiteout_exclusive,
  ensure_whiteout_kids,
}
use meta_hybrid_mount.Plan.Checks.Tree.{
  InTree, InKids, IsBelow, or-none, is_some-find, no_conflict-ok, first_of_kids-none,
}

-- A check that passed at the root has passed at every node.
mutual
  unfolding ensure_replace_backend_consistency ensure_replace_kids InTree InKids

  replace_visited :
      (root : MountNode) (target : Text) {u : Unit {0}}
      → ensure_replace_backend_consistency root target ≡ ok u
      → (n : MountNode) → InTree n root
      → (t : Text) × (ensure_replace_backend_consistency n t ≡ ok tt)
  replace_visited (node name kids sources structural) target h n (inl e) = (target, rw (← e) h)
  replace_visited (node name kids sources structural) target h n (inr q) =
      let (_, _, h1) =
        >>=-eq-ok
          (no_conflict (current_path target name) (find is_magic_replace sources) magic
            (bytes " (.replace)") (first_of_kids kids overlay))
          _ h in
      replace_visited_kids kids (current_path target name) h1 n q

  replace_visited_kids :
      (kids : Children) (current : Text) {u : Unit {0}}
      → ensure_replace_kids kids current ≡ ok u
      → (n : MountNode) → InKids n kids
      → (t : Text) × (ensure_replace_backend_consistency n t ≡ ok tt)
  replace_visited_kids leaf current h n q = absurd q
  replace_visited_kids (branch key k rest) current h n (inl q) =
      let (_, h0, _) = >>=-eq-ok (ensure_replace_backend_consistency k current) _ h in
      replace_visited k current h0 n q
  replace_visited_kids (branch key k rest) current h n (inr q) =
      let (_, _, h1) = >>=-eq-ok (ensure_replace_backend_consistency k current) _ h in
      replace_visited_kids rest current h1 n q

replace_at :
    (n : MountNode) (t : Text) {u : Unit {0}}
    → ensure_replace_backend_consistency n t ≡ ok u
    → (r : MountSource) → In r (sources_of n)
    → is_magic_replace r ≡ true
    → first_of_kids (children_of n) overlay ≡ none
unfolding ensure_replace_backend_consistency
replace_at (node name kids sources structural) t h r i b =
    let (_, h0, _) =
      >>=-eq-ok
        (no_conflict (current_path t name) (find is_magic_replace sources) magic
          (bytes " (.replace)") (first_of_kids kids overlay))
        _ h in
    no_conflict-ok (current_path t name) (find is_magic_replace sources) magic (bytes " (.replace)")
      (first_of_kids kids overlay) h0 (is_some-find is_magic_replace sources r i b)

-- In a tree that passes `ensure_replace_backend_consistency`, no source strictly below a directory
-- that a bind mount replaces is for OverlayFS.
pub ensure_replace_backend_consistency_sound :
    (root : MountNode) (target : Text)
    → ensure_replace_backend_consistency root target ≡ ok tt
    → (n : MountNode) (r : MountSource) → InTree n root
    → In r (sources_of n)
    → is_magic_replace r ≡ true
    → (m : MountNode) (s : MountSource) → IsBelow m n
    → In s (sources_of m)
    → mode_eq s.backend overlay ≡ false
ensure_replace_backend_consistency_sound root target h n r q i b m s below j =
    let (t, here) = replace_visited root target h n q in
    first_of_kids-none (children_of n) overlay (replace_at n t here r i b) m s below j

mutual
  unfolding ensure_whiteout_exclusive ensure_whiteout_kids InTree InKids

  whiteout_visited :
      (root : MountNode) (target : Text) {u : Unit {0}}
      → ensure_whiteout_exclusive root target ≡ ok u
      → (n : MountNode) → InTree n root
      → (t : Text) × (ensure_whiteout_exclusive n t ≡ ok tt)
  whiteout_visited (node name kids sources structural) target h n (inl e) = (target, rw (← e) h)
  whiteout_visited (node name kids sources structural) target h n (inr q) =
      let (_, _, h1) =
        >>=-eq-ok
          (no_conflict (current_path target name) (find is_removal sources)
            (backend_of (find is_removal sources)) (bytes " (whiteout)")
            (or (find is_kept sources) (
              or (first_of_kids kids overlay)
                (or (first_of_kids kids magic) (first_of_kids kids vfs)))))
          _ h in
      whiteout_visited_kids kids (current_path target name) h1 n q

  whiteout_visited_kids :
      (kids : Children) (current : Text) {u : Unit {0}}
      → ensure_whiteout_kids kids current ≡ ok u
      → (n : MountNode) → InKids n kids
      → (t : Text) × (ensure_whiteout_exclusive n t ≡ ok tt)
  whiteout_visited_kids leaf current h n q = absurd q
  whiteout_visited_kids (branch key k rest) current h n (inl q) =
      let (_, h0, _) = >>=-eq-ok (ensure_whiteout_exclusive k current) _ h in
      whiteout_visited k current h0 n q
  whiteout_visited_kids (branch key k rest) current h n (inr q) =
      let (_, _, h1) = >>=-eq-ok (ensure_whiteout_exclusive k current) _ h in
      whiteout_visited_kids rest current h1 n q

whiteout_at :
    (n : MountNode) (t : Text) {u : Unit {0}}
    → ensure_whiteout_exclusive n t ≡ ok u
    → (r : MountSource) → In r (sources_of n)
    → is_removal r ≡ true
    → or (find is_kept (sources_of n)) (
        or
          (first_of_kids (children_of n) overlay)
          (or (first_of_kids (children_of n) magic) (first_of_kids (children_of n) vfs)))
      ≡ none
unfolding ensure_whiteout_exclusive
whiteout_at (node name kids sources structural) t h r i b =
    let removal = find is_removal sources in
    let other =
      or (find is_kept sources) (
        or (first_of_kids kids overlay) (or (first_of_kids kids magic) (first_of_kids kids vfs))) in
    let (_, h0, _) =
      >>=-eq-ok
        (no_conflict (current_path t name) removal (backend_of removal) (bytes " (whiteout)") other)
        _ h in
    no_conflict-ok (current_path t name) removal (backend_of removal) (bytes " (whiteout)") other h0
      (is_some-find is_removal sources r i b)

ignored_of :
    (m : Mode)
    → mode_eq m overlay ≡ false
    → mode_eq m magic ≡ false
    → mode_eq m vfs ≡ false
    → m ≡ ignore
ignored_of overlay a b c = cc
ignored_of magic a b c = cc
ignored_of vfs a b c = cc
ignored_of ignore a b c = refl

-- In a tree that passes `ensure_whiteout_exclusive`, a target with a whiteout that is not ignored has
-- no source of another type that is not ignored, and every source strictly below it is ignored.
pub ensure_whiteout_exclusive_sound :
    (root : MountNode) (target : Text)
    → ensure_whiteout_exclusive root target ≡ ok tt
    → (n : MountNode) (r : MountSource) → InTree n root
    → In r (sources_of n)
    → is_removal r ≡ true
    → ((s : MountSource) → In s (sources_of n) → is_kept s ≡ false)
      × ((m : MountNode) (s : MountSource) → IsBelow m n → In s (sources_of m) → s.backend ≡ ignore)
ensure_whiteout_exclusive_sound root target h n r q i b =
    let (t, here) = whiteout_visited root target h n q in
    let kids = children_of n in
    let (own, h1) =
      or-none (find is_kept (sources_of n))
        (or (first_of_kids kids overlay) (or (first_of_kids kids magic) (first_of_kids kids vfs)))
        (whiteout_at n t here r i b) in
    let (no_overlay, h2) =
      or-none (first_of_kids kids overlay) (or (first_of_kids kids magic) (first_of_kids kids vfs))
        h1 in
    let (no_magic, no_vfs) = or-none (first_of_kids kids magic) (first_of_kids kids vfs) h2 in
    (
      λ s j. find-none is_kept (sources_of n) s own j,
      λ m s below j.
          ignored_of s.backend (first_of_kids-none kids overlay no_overlay m s below j)
            (first_of_kids-none kids magic no_magic m s below j)
            (first_of_kids-none kids vfs no_vfs m s below j),
    )
