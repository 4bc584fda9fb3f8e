-- ===== src/Plan/Checks/Hidden.antt =====
-- plan/mod.rs: in a tree that passes the checks, what the kernel VFS injects is not hidden by a mount,
-- and a directory that it replaces holds nothing of another backend.
use meta_hybrid_mount.Prelude.{
  find-none, ◌≡◌, inl, inr, true, false, not, Option, none, [], find, In, arith,
}
use meta_hybrid_mount.Text.{Text, bytes}
use meta_hybrid_mount.Config.{vfs, mode_eq}
use meta_hybrid_mount.Errors.{ok, >>=-eq-ok}
use meta_hybrid_mount.MountTree.{
  MountSource, MountNode, Children, node, leaf, branch, sources_of, children_of, is_some,
}
use meta_hybrid_mount.Vfs.Rule.{current_path}
use meta_hybrid_mount.Plan.Checks.{
  or, no_conflict, backend_of, is_vfs_replace, is_vfs, is_mount_directory, ensure_vfs_not_shadowed,
  ensure_kids_not_shadowed, ensure_vfs_opaque_exclusive, ensure_kids_exclusive,
}
use meta_hybrid_mount.Plan.Checks.Tree.{
  InTree, InKids, IsBelow, is_some-or, is_some-or_left, is_some-find, no_conflict-ok,
}

-- Below an owner every source is the kernel's.
mutual
  unfolding ensure_vfs_opaque_exclusive ensure_kids_exclusive InTree InKids

  owned_all_vfs :
      (n : MountNode) (target : Text) (owner : Option MountSource) {u : Unit {0}}
      → ensure_vfs_opaque_exclusive n target owner ≡ ok u
      → is_some (or (find is_vfs_replace (sources_of n)) owner) ≡ true
      → (m : MountNode) (s : MountSource) → InTree m n
      → In s (sources_of m)
      → is_vfs s ≡ true
  owned_all_vfs (node name kids sources structural) target owner h some_owner m s q i =
      let current = current_path target name in
      let owner' = or (find is_vfs_replace sources) owner in
      let (_, h0, h1) =
        >>=-eq-ok
          (no_conflict current owner' vfs (bytes " (.replace)")
            (find (λ t. not (is_vfs t)) sources))
          _ h in
      let no_other =
        no_conflict-ok current owner' vfs (bytes " (.replace)") (find (λ t. not (is_vfs t)) sources)
          h0 some_owner in
      elim q [
        | inl e ↦
            let only : not (is_vfs s) ≡ false =
              find-none (λ (t : MountSource). not (is_vfs t)) sources s no_other (rw (← e) at i) in
            ground arith
        | inr below ↦ owned_kids_vfs kids current owner' h1 some_owner m s below i
      ]

  owned_kids_vfs :
      (kids : Children) (current : Text) (owner : Option MountSource) {u : Unit {0}}
      → ensure_kids_exclusive kids current owner ≡ ok u
      → is_some owner ≡ true
      → (m : MountNode) (s : MountSource) → InKids m kids
      → In s (sources_of m)
      → is_vfs s ≡ true
  owned_kids_vfs leaf current owner h o m s q i = absurd q
  owned_kids_vfs (branch key k rest) current owner h o m s (inl q) i =
      let (_, h0, _) = >>=-eq-ok (ensure_vfs_opaque_exclusive k current owner) _ h in
      owned_all_vfs k current owner h0 (is_some-or (find is_vfs_replace (sources_of k)) owner o) m s
        q i
  owned_kids_vfs (branch key k rest) current owner h o m s (inr q) i =
      let (_, _, h1) = >>=-eq-ok (ensure_vfs_opaque_exclusive k current owner) _ h in
      owned_kids_vfs rest current owner h1 o m s q i

mutual
  unfolding ensure_vfs_opaque_exclusive ensure_kids_exclusive InTree InKids

  opaque_visited :
      (root : MountNode) (target : Text) (owner : Option MountSource) {u : Unit {0}}
      → ensure_vfs_opaque_exclusive root target owner ≡ ok u
      → (n : MountNode) → InTree n root
      → (t : Text) × (o : Option MountSource) × (ensure_vfs_opaque_exclusive n t o ≡ ok tt)
  opaque_visited (node name kids sources structural) target owner h n (inl e) =
      (target, owner, rw (← e) h)
  opaque_visited (node name kids sources structural) target owner h n (inr q) =
      let current = current_path target name in
      let owner' = or (find is_vfs_replace sources) owner in
      let (_, _, h1) =
        >>=-eq-ok
          (no_conflict current owner' vfs (bytes " (.replace)")
            (find (λ t. not (is_vfs t)) sources))
          _ h in
      opaque_visited_kids kids current owner' h1 n q

  opaque_visited_kids :
      (kids : Children) (current : Text) (owner : Option MountSource) {u : Unit {0}}
      → ensure_kids_exclusive kids current owner ≡ ok u
      → (n : MountNode) → InKids n kids
      → (t : Text) × (o : Option MountSource) × (ensure_vfs_opaque_exclusive n t o ≡ ok tt)
  opaque_visited_kids leaf current owner h n q = absurd q
  opaque_visited_kids (branch key k rest) current owner h n (inl q) =
      let (_, h0, _) = >>=-eq-ok (ensure_vfs_opaque_exclusive k current owner) _ h in
      opaque_visited k current owner h0 n q
  opaque_visited_kids (branch key k rest) current owner h n (inr q) =
      let (_, _, h1) = >>=-eq-ok (ensure_vfs_opaque_exclusive k current owner) _ h in
      opaque_visited_kids rest current owner h1 n q

-- In a tree that passes `ensure_vfs_opaque_exclusive`, every source at or below a directory that the
-- kernel VFS replaces is for the kernel VFS.
pub ensure_vfs_opaque_exclusive_sound :
    (root : MountNode) (target : Text)
    → ensure_vfs_opaque_exclusive root target none ≡ ok tt
    → (n : MountNode) (r : MountSource) → InTree n root
    → In r (sources_of n)
    → is_vfs_replace r ≡ true
    → (m : MountNode) (s : MountSource) → InTree m n
    → In s (sources_of m)
    → mode_eq s.backend vfs ≡ true
ensure_vfs_opaque_exclusive_sound root target h n r q i b m s below j =
    let (t, owner, here) = opaque_visited root target none h n q in
    owned_all_vfs n t owner here
      (is_some-or_left (find is_vfs_replace (sources_of n)) owner
        (is_some-find is_vfs_replace (sources_of n) r i b))
      m s below j

-- Below a mount no source is the kernel's.
mutual
  unfolding ensure_vfs_not_shadowed ensure_kids_not_shadowed InTree InKids

  shadowed_no_vfs :
      (n : MountNode) (target : Text) (mount : Option MountSource) {u : Unit {0}}
      → ensure_vfs_not_shadowed n target mount ≡ ok u
      → is_some mount ≡ true
      → (m : MountNode) (s : MountSource) → InTree m n
      → In s (sources_of m)
      → is_vfs s ≡ false
  shadowed_no_vfs (node name kids sources structural) target mount h some_mount m s q i =
      let current = current_path target name in
      let (_, h0, h1) =
        >>=-eq-ok (no_conflict current mount (backend_of mount) [] (find is_vfs sources)) _ h in
      elim q [
        | inl e ↦
            find-none is_vfs sources s
              (no_conflict-ok current mount (backend_of mount) [] (find is_vfs sources) h0
                some_mount)
              (rw (← e) at i)
        | inr below ↦
            shadowed_kids_no_vfs kids current (or (find is_mount_directory sources) mount) h1
              (is_some-or (find is_mount_directory sources) mount some_mount) m s below i
      ]

  shadowed_kids_no_vfs :
      (kids : Children) (current : Text) (mount : Option MountSource) {u : Unit {0}}
      → ensure_kids_not_shadowed kids current mount ≡ ok u
      → is_some mount ≡ true
      → (m : MountNode) (s : MountSource) → InKids m kids
      → In s (sources_of m)
      → is_vfs s ≡ false
  shadowed_kids_no_vfs leaf current mount h o m s q i = absurd q
  shadowed_kids_no_vfs (branch key k rest) current mount h o m s (inl q) i =
      let (_, h0, _) = >>=-eq-ok (ensure_vfs_not_shadowed k current mount) _ h in
      shadowed_no_vfs k current mount h0 o m s q i
  shadowed_kids_no_vfs (branch key k rest) current mount h o m s (inr q) i =
      let (_, _, h1) = >>=-eq-ok (ensure_vfs_not_shadowed k current mount) _ h in
      shadowed_kids_no_vfs rest current mount h1 o m s q i

mutual
  unfolding ensure_vfs_not_shadowed ensure_kids_not_shadowed InTree InKids

  shadow_visited :
      (root : MountNode) (target : Text) (mount : Option MountSource) {u : Unit {0}}
      → ensure_vfs_not_shadowed root target mount ≡ ok u
      → (n : MountNode) → InTree n root
      → (t : Text) × (o : Option MountSource) × (ensure_kids_not_shadowed
            (children_of n)
            t
            (or (find is_mount_directory (sources_of n)) o)
          ≡ ok tt)
  shadow_visited (node name kids sources structural) target mount h n q =
      let current = current_path target name in
      let (_, _, h1) =
        >>=-eq-ok (no_conflict current mount (backend_of mount) [] (find is_vfs sources)) _ h in
      elim q [
        | inl e ↦ (current, mount, rw (← e) h1)
        | inr below ↦
            shadow_visited_kids kids current (or (find is_mount_directory sources) mount) h1 n below
      ]

  shadow_visited_kids :
      (kids : Children) (current : Text) (mount : Option MountSource) {u : Unit {0}}
      → ensure_kids_not_shadowed kids current mount ≡ ok u
      → (n : MountNode) → InKids n kids
      → (t : Text) × (o : Option MountSource) × (ensure_kids_not_shadowed
            (children_of n)
            t
            (or (find is_mount_directory (sources_of n)) o)
          ≡ ok tt)
  shadow_visited_kids leaf current mount h n q = absurd q
  shadow_visited_kids (branch key k rest) current mount h n (inl q) =
      let (_, h0, _) = >>=-eq-ok (ensure_vfs_not_shadowed k current mount) _ h in
      shadow_visited k current mount h0 n q
  shadow_visited_kids (branch key k rest) current mount h n (inr q) =
      let (_, _, h1) = >>=-eq-ok (ensure_vfs_not_shadowed k current mount) _ h in
      shadow_visited_kids rest current mount h1 n q

-- In a tree that passes `ensure_vfs_not_shadowed`, no source strictly below a directory that
-- OverlayFS or a bind mount occupies is for the kernel VFS.
pub ensure_vfs_not_shadowed_sound :
    (root : MountNode) (target : Text)
    → ensure_vfs_not_shadowed root target none ≡ ok tt
    → (n : MountNode) (r : MountSource) → InTree n root
    → In r (sources_of n)
    → is_mount_directory r ≡ true
    → (m : MountNode) (s : MountSource) → IsBelow m n
    → In s (sources_of m)
    → mode_eq s.backend vfs ≡ false
ensure_vfs_not_shadowed_sound root target h n r q i b m s below j =
    let (t, mount, here) = shadow_visited root target none h n q in
    shadowed_kids_no_vfs (children_of n) t (or (find is_mount_directory (sources_of n)) mount) here
      (is_some-or_left (find is_mount_directory (sources_of n)) mount
        (is_some-find is_mount_directory (sources_of n) r i b))
      m s below j
