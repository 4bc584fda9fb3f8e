-- ===== src/MountTree/Insert.antt =====
-- mount_tree.rs: what an insertion changes, and the order of the children that it keeps.
use meta_hybrid_mount.Prelude.{
  ◌≡◌, refl, ◌∙◌, true, false, Option, none, some, Bool-cases, inl, inr,
}
use meta_hybrid_mount.Text.{Text, text_eq, text_lt, text_eq_sym, text_eq→eq, text_eq_refl}
use meta_hybrid_mount.Text.Order.{text_lt_trans, text_lt_linear, text_lt-false}
use meta_hybrid_mount.MountTree.{
  MountNode, Children, node, leaf, branch, new_node, entry, get_child,
}

-- Every name is behind `key`.
abbrev pub IsAbove : Text → Children → Type 0
IsAbove key leaf = Unit
IsAbove key (branch k n rest) = (text_lt key k ≡ true) × IsAbove key rest

-- The children of every node are in the order of their names, none of them twice.
unfoldable mutual
  pub IsWellFormed : MountNode → Type 0
  IsWellFormed (node name children sources structural) = AreOrdered children

  pub AreOrdered : Children → Type 0
  AreOrdered leaf = Unit
  AreOrdered (branch key n rest) = IsAbove key rest × IsWellFormed n × AreOrdered rest

IsAbove-trans :
    (low key : Text) (children : Children)
    → text_lt low key ≡ true
    → IsAbove key children
    → IsAbove low children
IsAbove-trans low key leaf p a = tt
IsAbove-trans low key (branch k n rest) p (q, a) =
    (text_lt_trans low key k p q, IsAbove-trans low key rest p a)

entry-IsAbove :
    (low name : Text) (change : MountNode → MountNode) (children : Children)
    → text_lt low name ≡ true
    → IsAbove low children
    → IsAbove low (entry name change children)
unfolding entry
entry-IsAbove low name change leaf p a = (p, tt)
entry-IsAbove low name change (branch key n rest) p (q, a) = elim (Bool-cases (text_eq key name)) [
  | inl e ↦ rw e (q, a)
  | inr e ↦ elim (Bool-cases (text_lt name key)) [
    | inl f ↦ rw (e, f) (p, (q, a))
    | inr f ↦ rw (e, f) (q, entry-IsAbove low name change rest p a)
  ]
]

-- A name in front of all others is not among them.
get_child-IsAbove :
    (name : Text) (children : Children) → IsAbove name children → get_child name children ≡ none
unfolding get_child
get_child-IsAbove name leaf a = refl
get_child-IsAbove name (branch key n rest) (q, a) =
    let apart : text_eq key name ≡ false = text_eq_sym key name ∙ text_lt-false name key q in
    rw apart (get_child-IsAbove name rest a)

abbrev pub or_new : Text → Option MountNode → MountNode
or_new name none = new_node name
or_new name (some n) = n

module _ (name : Text) (change : MountNode → MountNode) where
  pub entry-AreOrdered :
      (children : Children)
      → ((n : MountNode) → IsWellFormed n → IsWellFormed (change n))
      → AreOrdered children
      → AreOrdered (entry name change children)
  unfolding entry AreOrdered IsWellFormed
  entry-AreOrdered leaf keeps o = (tt, keeps (new_node name) tt, tt)
  entry-AreOrdered (branch key n rest) keeps (a, w, o) = elim (Bool-cases (text_eq key name)) [
    | inl e ↦ rw e (a, keeps n w, o)
    | inr e ↦ elim (Bool-cases (text_lt name key)) [
      | inl f ↦
          rw (e, f) ((f, IsAbove-trans name key rest f a), keeps (new_node name) tt, (a, w, o))
      | inr f ↦
          let behind = text_lt_linear name key (text_eq_sym name key ∙ e) f in
          rw (e, f) (entry-IsAbove key name change rest behind a, w, entry-AreOrdered rest keeps o)
    ]
  ]

  pub get_child-entry :
      (children : Children)
      → AreOrdered children
      → get_child name (entry name change children)
        ≡ some (change (or_new name (get_child name children)))
  unfolding entry get_child AreOrdered
  get_child-entry leaf o = rw (text_eq_refl name) refl
  get_child-entry (branch key n rest) (a, w, o) = elim (Bool-cases (text_eq key name)) [
    | inl e ↦ rw (e, get_child) (rw (e, get_child) refl)
    | inr e ↦ elim (Bool-cases (text_lt name key)) [
      | inl f ↦
          let absent = get_child-IsAbove name rest (IsAbove-trans name key rest f a) in
          rw (e, f, get_child) (rw (text_eq_refl name, absent) refl)
      | inr f ↦ rw (e, f, get_child) (rw (e, get_child) (get_child-entry rest o))
    ]
  ]

  pub get_child-entry_other :
      (other : Text) (children : Children)
      → text_eq name other ≡ false
      → get_child other (entry name change children) ≡ get_child other children
  unfolding entry get_child
  get_child-entry_other other leaf d = rw d refl
  get_child-entry_other other (branch key n rest) d = elim (Bool-cases (text_eq key name)) [
    | inl e ↦
        let apart : text_eq key other ≡ false = rw (text_eq→eq key name e) d in
        rw (e, get_child) (rw (apart, get_child) refl)
    | inr e ↦ elim (Bool-cases (text_lt name key)) [
      | inl f ↦ rw (e, f, get_child) (rw d refl)
      | inr f ↦ elim (Bool-cases (text_eq key other)) [
        | inl g ↦ rw (e, f, get_child) (rw (g, get_child) refl)
        | inr g ↦ rw (e, f, get_child) (rw (g, get_child) (get_child-entry_other other rest d))
      ]
    ]
  ]
