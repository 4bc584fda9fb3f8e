-- ===== src/Vfs/Rule/Owners.antt =====
-- vfs/rule.rs: each node has one rule at most, and each rule belongs to a module that contributes to
-- the kernel VFS.
use mathlib.Core.List.{reverse-cons}
use mathlib.Core.Option.{some-injective}
use meta_hybrid_mount.Text.{text_eq, text_eq→eq, text_lt}
use meta_hybrid_mount.Text.Order.{text_lt_linear}
use meta_hybrid_mount.Prelude.Sets.{to_set, to_set-In}
use meta_hybrid_mount.Prelude.{
  In-map, ap, subst, reverse, In-filter_of, ◌≤◌, ◌≡◌, ◌⊎◌, inl, inr, Bool, true, false, Option,
  none, some, List, [], ◌∷◌, ◌++◌, length, length-append, filter, find, find-some, Bool-cases,
  Option-cases, In, In-append, In-append_left, In-append_right, arith,
}
use meta_hybrid_mount.Text.{Text}
use meta_hybrid_mount.Config.{vfs, mode_eq}
use meta_hybrid_mount.MountTree.{
  children_of, NodeFileType, regular_file, symlink, directory, sources_of, MountSource, MountNode,
  Children, node, leaf, branch, own_ids, collect_backend_ids, collect_children, module_ids_for,
  node_count, count_children,
}
use meta_hybrid_mount.Vfs.Rule.{
  VfsRule, current_path, is_vfs_dir, owner_of, opaque_rules, is_vfs_file, typed_rules, file_rules,
  node_rules, collect_node, collect_kids, build_vfs_rules,
}

opaque_rules-le : (current : Text) (owner : Option Text) → length (opaque_rules current owner) ≤ 1
unfolding opaque_rules
opaque_rules-le current none = omega arith
opaque_rules-le current (some owner) = omega arith

typed_rules-le :
    (current : Text) (source : MountSource) (file_type : NodeFileType)
    → length (typed_rules current source file_type) ≤ 1
unfolding typed_rules
typed_rules-le current source regular_file = omega arith
typed_rules-le current source symlink = omega arith
typed_rules-le current source NodeFileType.whiteout = omega arith
typed_rules-le current source directory = omega arith

node_rules-le :
    (current : Text) (owner : Option Text) (source : Option MountSource) (kids : Children)
    (sources : List MountSource)
    → length (node_rules current owner source kids sources) ≤ 1
unfolding node_rules file_rules
node_rules-le current owner source kids sources = elim (Bool-cases (is_vfs_dir source kids)) [
  | inl e ↦ rw e (opaque_rules-le current owner)
  | inr e ↦ elim (Option-cases (find is_vfs_file (reverse sources))) [
    | inl f ↦ rw (e, f) (omega arith)
    | inr (s, f) ↦ rw (e, f) (typed_rules-le current s s.file_type)
  ]
]

mutual
  unfolding collect_node collect_kids node_count count_children

  collect_node-le :
      (n : MountNode) (target : Text) (owner : Option Text)
      → length (collect_node n target owner) ≤ node_count n
  collect_node-le (node name kids sources structural) target owner =
      let current = current_path target name in
      let vfs_source = find (λ (source : MountSource). mode_eq source.backend vfs) sources in
      let mine = node_rules current (owner_of vfs_source owner) vfs_source kids sources in
      let below = collect_kids kids current (owner_of vfs_source owner) in
      omega (
        arith,
        length-append mine below,
        node_rules-le current (owner_of vfs_source owner) vfs_source kids sources,
        collect_kids-le kids current (owner_of vfs_source owner),
      )

  collect_kids-le :
      (kids : Children) (current : Text) (owner : Option Text)
      → length (collect_kids kids current owner) ≤ count_children kids
  collect_kids-le leaf current owner = omega arith
  collect_kids-le (branch key n rest) current owner = omega (
    arith,
    length-append (collect_node n current owner) (collect_kids rest current owner),
    collect_node-le n current owner,
    collect_kids-le rest current owner,
  )

-- There are at most as many rules as targets in the tree.
pub build_vfs_rules-le : (root : MountNode) → length (build_vfs_rules root) ≤ node_count root
unfolding build_vfs_rules
build_vfs_rules-le root = collect_node-le root [] none

In-reverse : {A : Type 0} (xs : List A) (a : A) → In a (reverse xs) → In a xs
In-reverse [] a m = m
In-reverse (x ∷ xs) a m = elim (In-append (reverse xs) (x ∷ []) a (rw reverse-cons at m)) [
  | inl q ↦ inr (In-reverse xs a q)
  | inr (inl q) ↦ inl q
  | inr (inr q) ↦ absurd q
]

text_linear : (s t : Text) → text_lt s t ≡ false → text_lt t s ≡ false → s ≡ t
text_linear s t p q = elim (Bool-cases (text_eq s t)) [
  | inl e ↦ text_eq→eq s t e
  | inr e ↦ cc (text_lt_linear s t e p)
]

-- A source of the backend is among those that a node contributes itself.
own_ids-In :
    (n : MountNode) (s : MountSource)
    → In s (sources_of n)
    → mode_eq s.backend vfs ≡ true
    → In s.module_id (own_ids vfs n)
own_ids-In n s m e =
    In-map (λ (source : MountSource). source.module_id)
      (filter (λ (source : MountSource). mode_eq source.backend vfs) (sources_of n)) s
      (In-filter_of (λ (source : MountSource). mode_eq source.backend vfs) (sources_of n) s m e)

-- The rule's module contributes to the node itself, or it is the owner from above.
abbrev IsOwned : List Text → Option Text → Text → Type 0
IsOwned ids owner id = In id ids ⊎ (owner ≡ some id)

owner_of-IsOwned :
    (n : MountNode) (owner : Option Text) (id : Text)
    → owner_of (find (λ (source : MountSource). mode_eq source.backend vfs) (sources_of n)) owner
      ≡ some id
    → IsOwned (own_ids vfs n) owner id
unfolding owner_of
owner_of-IsOwned n owner id h =
    let p : MountSource → Bool = λ source. mode_eq source.backend vfs in
    elim (Option-cases (find p (sources_of n))) [
      | inl e ↦ inr (rw e at h)
      | inr (s, e) ↦ elim (Bool-cases s.replace) [
        | inr f ↦ inr (rw (e, f) at h)
        | inl f ↦
            let (m, t) = find-some p (sources_of n) s e in
            let same : some s.module_id ≡ some id = rw (e, f) at h in
            inl (
              subst (λ (x : Text). In x (own_ids vfs n)) (some-injective s.module_id id same)
                (own_ids-In n s m t))
      ]
    ]

typed_rules-owner :
    (current : Text) (source : MountSource) (file_type : NodeFileType) (rule : VfsRule)
    → In rule (typed_rules current source file_type)
    → source.module_id ≡ rule.module_id
unfolding typed_rules
typed_rules-owner current source regular_file rule (inl e) = ap (λ (r : VfsRule). r.module_id) e
typed_rules-owner current source regular_file rule (inr m) = absurd m
typed_rules-owner current source symlink rule (inl e) = ap (λ (r : VfsRule). r.module_id) e
typed_rules-owner current source symlink rule (inr m) = absurd m
typed_rules-owner current source NodeFileType.whiteout rule (inl e) =
    ap (λ (r : VfsRule). r.module_id) e
typed_rules-owner current source NodeFileType.whiteout rule (inr m) = absurd m
typed_rules-owner current source directory rule m = absurd m

opaque_rules-owner :
    (current : Text) (owner : Option Text) (rule : VfsRule)
    → In rule (opaque_rules current owner)
    → owner ≡ some rule.module_id
unfolding opaque_rules
opaque_rules-owner current none rule m = absurd m
opaque_rules-owner current (some owner) rule (inl e) = ap (λ (r : VfsRule). some r.module_id) e
opaque_rules-owner current (some owner) rule (inr m) = absurd m

-- A rule of the node itself.
node_rules-IsOwned :
    (n : MountNode) (current : Text) (owner : Option Text) (source : Option MountSource)
    (rule : VfsRule)
    → In rule (node_rules current owner source (children_of n) (sources_of n))
    → IsOwned (own_ids vfs n) owner rule.module_id
unfolding node_rules file_rules
node_rules-IsOwned n current owner source rule m =
    elim (Bool-cases (is_vfs_dir source (children_of n))) [
      | inl e ↦ inr (opaque_rules-owner current owner rule (rw e at m))
      | inr e ↦ elim (Option-cases (find is_vfs_file (reverse (sources_of n)))) [
        | inl f ↦ absurd (rw (e, f) at m)
        | inr (s, f) ↦
            let (q, t) = find-some is_vfs_file (reverse (sources_of n)) s f in
            inl (
              subst (λ (x : Text). In x (own_ids vfs n))
                (typed_rules-owner current s s.file_type rule (rw (e, f) at m))
                (own_ids-In n s (In-reverse (sources_of n) s q) (ground arith)))
      ]
    ]

-- What is known through an owner that a node may have set is known from above, or of the node.
through_owner :
    (n : MountNode) (below : List Text) (owner : Option Text) (id : Text)
    → IsOwned below
        (owner_of
          (find (λ (source : MountSource). mode_eq source.backend vfs) (sources_of n))
          owner)
        id
    → IsOwned (own_ids vfs n ++ below) owner id
through_owner n below owner id (inl m) = inl (In-append_right (own_ids vfs n) below id m)
through_owner n below owner id (inr e) = elim (owner_of-IsOwned n owner id e) [
  | inl m ↦ inl (In-append_left (own_ids vfs n) below id m)
  | inr q ↦ inr q
]

collected :
    (ids : List Text) (owner : Option Text) (id : Text)
    → IsOwned ids owner id
    → IsOwned (to_set text_lt ids) owner id
collected ids owner id (inl m) = inl (to_set-In text_lt text_linear ids id m)
collected ids owner id (inr e) = inr e

own_part :
    (own below : List Text) (owner : Option Text) (id : Text)
    → IsOwned own owner id
    → IsOwned (own ++ below) owner id
own_part own below owner id (inl m) = inl (In-append_left own below id m)
own_part own below owner id (inr e) = inr e

mutual
  unfolding collect_node collect_kids collect_backend_ids collect_children

  collect_node-IsOwned :
      (n : MountNode) (target : Text) (owner : Option Text) (rule : VfsRule)
      → In rule (collect_node n target owner)
      → IsOwned (collect_backend_ids n vfs) owner rule.module_id
  collect_node-IsOwned (node name kids sources structural) target owner rule m =
      let n = node name kids sources structural in
      let current = current_path target name in
      let source = find (λ (source : MountSource). mode_eq source.backend vfs) sources in
      let owner' = owner_of source owner in
      let own = own_ids vfs n in
      let below = collect_children kids vfs in
      collected (own ++ below) owner rule.module_id
        (elim (In-append (node_rules current owner' source kids sources)
          (collect_kids kids current owner') rule m) [
            | inr q ↦
                through_owner n below owner rule.module_id
                  (collect_kids-IsOwned kids current owner' rule q)
            | inl q ↦ elim (node_rules-IsOwned n current owner' source rule q) [
              | inl k ↦ inl (In-append_left own below rule.module_id k)
              | inr e ↦
                  own_part own below owner rule.module_id
                    (owner_of-IsOwned n owner rule.module_id e)
            ]
          ])

  collect_kids-IsOwned :
      (kids : Children) (current : Text) (owner : Option Text) (rule : VfsRule)
      → In rule (collect_kids kids current owner)
      → IsOwned (collect_children kids vfs) owner rule.module_id
  collect_kids-IsOwned leaf current owner rule m = absurd m
  collect_kids-IsOwned (branch key n rest) current owner rule m =
      elim (In-append (collect_node n current owner) (collect_kids rest current owner) rule m) [
        | inl q ↦
            own_part (collect_backend_ids n vfs) (collect_children rest vfs) owner rule.module_id
              (collect_node-IsOwned n current owner rule q)
        | inr q ↦ elim (collect_kids-IsOwned rest current owner rule q) [
          | inl k ↦ inl (
              In-append_right (collect_backend_ids n vfs) (collect_children rest vfs) rule.module_id
                k)
          | inr e ↦ inr e
        ]
      ]

-- Each rule belongs to a module that contributes to the kernel VFS somewhere in the tree.
pub build_vfs_rules-In :
    (root : MountNode) (rule : VfsRule)
    → In rule (build_vfs_rules root)
    → In rule.module_id (module_ids_for vfs root)
unfolding build_vfs_rules module_ids_for
build_vfs_rules-In root rule m = elim (collect_node-IsOwned root [] none rule m) [
  | inl q ↦ q
  | inr e ↦ cc
]
