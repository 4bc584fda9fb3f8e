-- ===== src/MountTree/Backends.antt =====
-- mount_tree.rs: which backends and modules a tree has after an insertion.
use meta_hybrid_mount.Prelude.{
  ℕ, suc, ◌-◌, ◌≡◌, refl, sym, ◌∙◌, ap, Bool, ◌||◌, List, [], ◌∷◌, ◌++◌, length, Bool-cases, inl,
  inr, arith, any, find, In, any-In, any-true, any-false_of, any-false,
}
use meta_hybrid_mount.Prelude.Sorting.{sort_by, In-sort_by, sort_by-In}
use meta_hybrid_mount.Text.{Text, text_eq, text_lt}
use meta_hybrid_mount.Text.Trim.{components_of}
use meta_hybrid_mount.Config.{Mode, mode_eq}
use meta_hybrid_mount.MountTree.{
  MountSource, MountNode, Children, node, leaf, branch, new_node, entry, source_lt, is_some,
  source_for, has_backend, any_has_backend, note_structure, push_source, insert_at, insert,
  target_components,
}

is_some-find : {A : Type 0} (p : A → Bool) (xs : List A) → is_some (find p xs) ≡ any p xs
is_some-find p [] = refl
is_some-find p (x ∷ xs) = elim (Bool-cases (p x)) [
  | inl e ↦ rw e refl
  | inr e ↦ rw e (is_some-find p xs)
]

-- Two lists with the same members answer alike.
any-eq :
    {A : Type 0} (p : A → Bool) (xs ys : List A)
    → ((a : A) → In a xs → In a ys)
    → ((a : A) → In a ys → In a xs)
    → any p xs ≡ any p ys
any-eq p xs ys to from = elim (Bool-cases (any p ys)) [
  | inl e ↦ let (a, m, t) = any-true p ys e in any-In p xs a (from a m) t ∙ sym e
  | inr e ↦ any-false_of p xs (λ a m. any-false p ys a e (to a m)) ∙ sym e
]

any-append :
    {A : Type 0} (p : A → Bool) (xs ys : List A) → any p (xs ++ ys) ≡ (any p xs || any p ys)
any-append p [] ys = refl
any-append p (x ∷ xs) ys = ground (arith, any-append p xs ys)

module _ (backend : Mode) (source : MountSource) where
  -- Whether the source is the backend's.
  abbrev pub gained : Bool
  gained = mode_eq source.backend backend

  has_backend-push_source :
      (n : MountNode)
      → has_backend backend (push_source source n) ≡ (has_backend backend n || gained)
  unfolding has_backend push_source source_for
  has_backend-push_source (node name kids sources structural) =
      let p : MountSource → Bool = λ s. mode_eq s.backend backend in
      let all_of = sources ++ source ∷ [] in
      let sorted : any p (sort_by source_lt all_of) ≡ any p all_of =
        any-eq p (sort_by source_lt all_of) all_of (In-sort_by source_lt all_of)
          (sort_by-In source_lt all_of) in
      rw (is_some-find, is_some-find, sorted, any-append p sources (source ∷ [])) (ground arith)

  any_has_backend-entry :
      (name : Text) (change : MountNode → MountNode) (kids : Children)
      → ((n : MountNode) → has_backend backend (change n) ≡ (has_backend backend n || gained))
      → any_has_backend backend (entry name change kids) ≡ (any_has_backend backend kids || gained)
  unfolding any_has_backend has_backend entry
  any_has_backend-entry name change leaf law = rw (law (new_node name)) (ground arith)
  any_has_backend-entry name change (branch key n rest) law = elim (Bool-cases (text_eq key name)) [
    | inl e ↦ rw (e, law n) (ground arith)
    | inr e ↦ elim (Bool-cases (text_lt name key)) [
      | inl f ↦ rw (e, f, law (new_node name)) (ground arith)
      | inr f ↦ rw (e, f, any_has_backend-entry name change rest law) (ground arith)
    ]
  ]

  has_backend-note_structure :
      (relative_len kept : ℕ) (n : MountNode)
      → has_backend backend (note_structure source relative_len kept n) ≡ has_backend backend n
  unfolding has_backend note_structure source_for
  has_backend-note_structure relative_len kept (node name kids sources structural) = refl

  has_backend-insert_at :
      (relative_len kept : ℕ) (cs : List Text) (n : MountNode)
      → has_backend backend (insert_at source relative_len kept cs n)
        ≡ (has_backend backend n || gained)
  unfolding insert_at has_backend any_has_backend source_for
  has_backend-insert_at relative_len kept [] n = has_backend-push_source n
  has_backend-insert_at relative_len kept (c ∷ cs) (node name kids sources structural) =
      let below : MountNode → MountNode = λ m.
        insert_at source relative_len (suc kept) cs
          (note_structure source relative_len (suc kept) m) in
      let law : (m : MountNode)
          → has_backend backend (below m) ≡ (has_backend backend m || gained) =
        λ m.
          has_backend-insert_at relative_len (suc kept) cs
            (note_structure source relative_len (suc kept) m)
          ∙ ap (λ b. b || gained) (has_backend-note_structure relative_len (suc kept) m) in
      rw (any_has_backend-entry c below kids law) (ground arith)

-- After an insertion a tree has a backend exactly when it had it before or the source is for it.
pub has_backend-insert :
    (backend : Mode) (target : Text) (source : MountSource) (root : MountNode)
    → has_backend backend (insert target source root)
      ≡ (has_backend backend root || mode_eq source.backend backend)
unfolding insert
has_backend-insert backend target source root =
    let cs = target_components target in
    let len = length (components_of source.relative) in
    has_backend-insert_at backend source len (len - length cs) cs root
