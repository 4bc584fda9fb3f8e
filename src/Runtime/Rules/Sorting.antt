-- ===== src/Runtime/Rules/Sorting.antt =====
-- runtime/rules.rs: `ordered` keeps the rules that it is given, and sorts them by depth.
use meta_hybrid_mount.Prelude.{inl, inr, Bool, List, [], ◌∷◌, In, Bool-cases}
use meta_hybrid_mount.Runtime.Rules.{SavedRule, precedes, insert_ordered, ordered}

module _ (deepest_first : Bool) where
  In-insert_ordered :
      (rule : SavedRule) (rs : List SavedRule) (a : SavedRule)
      → In a (insert_ordered deepest_first rule rs)
      → In a (rule ∷ rs)
  unfolding insert_ordered
  In-insert_ordered rule [] a m = m
  In-insert_ordered rule (r ∷ rs) a m = elim (Bool-cases (precedes deepest_first r rule)) [
    | inr e ↦ rw e at m
    | inl e ↦ elim (rw e at m) [
      | inl q ↦ inr (inl q)
      | inr q ↦ elim (In-insert_ordered rule rs a q) [ inl t ↦ inl t | inr t ↦ inr (inr t) ]
    ]
  ]

  insert_ordered-In :
      (rule : SavedRule) (rs : List SavedRule) (a : SavedRule)
      → In a (rule ∷ rs)
      → In a (insert_ordered deepest_first rule rs)
  unfolding insert_ordered
  insert_ordered-In rule [] a m = m
  insert_ordered-In rule (r ∷ rs) a m = elim (Bool-cases (precedes deepest_first r rule)) [
    | inr e ↦ rw e m
    | inl e ↦ rw e (elim m [
      | inl q ↦ inr (insert_ordered-In rule rs a (inl q))
      | inr (inl q) ↦ inl q
      | inr (inr q) ↦ inr (insert_ordered-In rule rs a (inr q))
    ])
  ]

  pub In-ordered : (rs : List SavedRule) (a : SavedRule) → In a (ordered rs deepest_first) → In a rs
  unfolding ordered
  In-ordered [] a m = m
  In-ordered (r ∷ rs) a m = elim (In-insert_ordered r (ordered rs deepest_first) a m) [
    | inl q ↦ inl q
    | inr q ↦ inr (In-ordered rs a q)
  ]

  pub ordered-In : (rs : List SavedRule) (a : SavedRule) → In a rs → In a (ordered rs deepest_first)
  unfolding ordered
  ordered-In [] a m = m
  ordered-In (r ∷ rs) a (inl q) = insert_ordered-In r (ordered rs deepest_first) a (inl q)
  ordered-In (r ∷ rs) a (inr q) =
      insert_ordered-In r (ordered rs deepest_first) a (inr (ordered-In rs a q))
