-- ===== src/MountTree/Sources.antt =====
-- mount_tree.rs: an insertion keeps the order of the children, adds its source at its target, and
-- changes the sources of no other target.
use meta_hybrid_mount.Text.Trim.{components_of}
use meta_hybrid_mount.Prelude.{
  subst, ℕ, suc, ◌-◌, ◌≡◌, ◌≢◌, refl, ◌∙◌, ap, Option, none, some, List, [], ◌∷◌, ◌++◌, length,
  Bool-cases, inl, inr,
}
use meta_hybrid_mount.Prelude.Sorting.{sort_by}
use meta_hybrid_mount.Text.{Text, text_eq, text_eq→eq}
use meta_hybrid_mount.MountTree.{
  leaf, branch, components_of, MountSource, MountNode, Children, node, sources_of, new_node,
  source_lt, note_structure, push_source, insert_at, insert, get_child, find_from, and_then,
  target_components,
}
use meta_hybrid_mount.MountTree.Insert.{
  IsWellFormed, AreOrdered, or_new, entry-AreOrdered, get_child-entry, get_child-entry_other,
}

-- The sources of the target that some components lead to.
abbrev sources_or_none : Option MountNode → List MountSource
sources_or_none none = []
sources_or_none (some n) = sources_of n

abbrev pub sources_at : List Text → MountNode → List MountSource
sources_at cs n = sources_or_none (find_from cs n)

sources_at-new_node : (name : Text) (cs : List Text) → sources_at cs (new_node name) ≡ []
unfolding find_from get_child
sources_at-new_node name [] = refl
sources_at-new_node name (c ∷ cs) = refl

sources_at-or_new :
    (name : Text) (cs : List Text) (o : Option MountNode)
    → sources_at cs (or_new name o) ≡ sources_or_none (and_then o (find_from cs))
sources_at-or_new name cs none = sources_at-new_node name cs
sources_at-or_new name cs (some n) = refl

or_new-IsWellFormed :
    (name : Text) (kids : Children)
    → AreOrdered kids
    → IsWellFormed (or_new name (get_child name kids))
unfolding get_child AreOrdered IsWellFormed
or_new-IsWellFormed name leaf o = tt
or_new-IsWellFormed name (branch key n rest) (a, w, o) = elim (Bool-cases (text_eq key name)) [
  | inl e ↦ rw e w
  | inr e ↦ rw e (or_new-IsWellFormed name rest o)
]

module _ (source : MountSource) (relative_len : ℕ) where
  note_structure-IsWellFormed :
      (kept : ℕ) (n : MountNode)
      → IsWellFormed n
      → IsWellFormed (note_structure source relative_len kept n)
  unfolding note_structure IsWellFormed
  note_structure-IsWellFormed kept (node name children sources structural) w = w

  sources_at-note_structure :
      (kept : ℕ) (cs : List Text) (n : MountNode)
      → sources_at cs (note_structure source relative_len kept n) ≡ sources_at cs n
  unfolding note_structure find_from
  sources_at-note_structure kept [] (node name children sources structural) = refl
  sources_at-note_structure kept (c ∷ cs) (node name children sources structural) = refl

  insert_at-IsWellFormed :
      (kept : ℕ) (cs : List Text) (n : MountNode)
      → IsWellFormed n
      → IsWellFormed (insert_at source relative_len kept cs n)
  unfolding insert_at push_source IsWellFormed
  insert_at-IsWellFormed kept [] (node name children sources structural) w = w
  insert_at-IsWellFormed kept (c ∷ cs) (node name children sources structural) w =
      entry-AreOrdered c _ children
        (λ m v.
          insert_at-IsWellFormed (suc kept) cs (note_structure source relative_len (suc kept) m)
            (note_structure-IsWellFormed (suc kept) m v))
        w

  sources_at-insert_at :
      (kept : ℕ) (cs : List Text) (n : MountNode)
      → IsWellFormed n
      → sources_at cs (insert_at source relative_len kept cs n)
        ≡ sort_by source_lt (sources_at cs n ++ source ∷ [])
  unfolding insert_at push_source find_from IsWellFormed
  sources_at-insert_at kept [] (node name children sources structural) w = refl
  sources_at-insert_at kept (c ∷ cs) (node name children sources structural) w =
      let below : MountNode → MountNode = λ m.
        insert_at source relative_len (suc kept) cs
          (note_structure source relative_len (suc kept) m) in
      let here = or_new c (get_child c children) in
      let step : sources_at cs (below here)
          ≡ sort_by source_lt (sources_at cs here ++ source ∷ []) =
        sources_at-insert_at (suc kept) cs (note_structure source relative_len (suc kept) here)
          (note_structure-IsWellFormed (suc kept) here (or_new-IsWellFormed c children w))
        ∙ ap (λ (xs : List MountSource). sort_by source_lt (xs ++ source ∷ []))
            (sources_at-note_structure (suc kept) cs here) in
      rw (get_child-entry c below children w) (
        step
        ∙ ap (λ (xs : List MountSource). sort_by source_lt (xs ++ source ∷ []))
            (sources_at-or_new c cs (get_child c children)))

  -- A target on another way keeps its sources.
  sources_at-insert_at_other :
      (kept : ℕ) (cs others : List Text) (n : MountNode)
      → IsWellFormed n
      → others ≢ cs
      → sources_at others (insert_at source relative_len kept cs n) ≡ sources_at others n
  unfolding insert_at push_source find_from IsWellFormed
  sources_at-insert_at_other kept [] [] n w d = absurd (d refl)
  sources_at-insert_at_other kept [] (o ∷ os) (node name children sources structural) w d = refl
  sources_at-insert_at_other kept (c ∷ cs) [] (node name children sources structural) w d = refl
  sources_at-insert_at_other kept (c ∷ cs) (o ∷ os) (node name children sources structural) w d =
      let below : MountNode → MountNode = λ m.
        insert_at source relative_len (suc kept) cs
          (note_structure source relative_len (suc kept) m) in
      elim (Bool-cases (text_eq c o)) [
        | inr e ↦ rw (get_child-entry_other c below o children e) refl
        | inl e ↦
            let same = text_eq→eq c o e in
            let here = or_new c (get_child c children) in
            let apart : os ≢ cs = λ q. d (rw (same, q) refl) in
            let step : sources_at os (below here) ≡ sources_at os here =
              sources_at-insert_at_other (suc kept) cs os
                (note_structure source relative_len (suc kept) here)
                (note_structure-IsWellFormed (suc kept) here (or_new-IsWellFormed c children w))
                apart
              ∙ sources_at-note_structure (suc kept) os here in
            subst
              (λ (t : Text).
                sources_at (t ∷ os) (
                  insert_at source relative_len kept (c ∷ cs)
                    (node name children sources structural))
                ≡ sources_at (t ∷ os) (node name children sources structural))
              same
              (rw (get_child-entry c below children w)
                (step ∙ sources_at-or_new c os (get_child c children)))
      ]

-- Inserting a source into a tree whose children are in order keeps them in order; the source joins
-- the sources of its own target, in the order of the modules and paths, and every other target keeps
-- the sources that it had.
pub insert-sources_at :
    (target : Text) (source : MountSource) (root : MountNode)
    → IsWellFormed root
    → IsWellFormed (insert target source root)
      × (sources_at (target_components target) (insert target source root)
          ≡ sort_by source_lt (sources_at (target_components target) root ++ source ∷ []))
      × ((others : List Text)
          → others ≢ target_components target
          → sources_at others (insert target source root) ≡ sources_at others root)
unfolding insert
insert-sources_at target source root w =
    let cs = target_components target in
    let len = length (components_of source.relative) in
    (
      insert_at-IsWellFormed source len (len - length cs) cs root w,
      sources_at-insert_at source len (len - length cs) cs root w,
      λ others d. sources_at-insert_at_other source len (len - length cs) cs others root w d,
    )
