-- ===== src/Prelude/Sorting.antt =====
-- `sort_by`, which is stable, over a strict order test.

use mathlib.Core.Path.{◌≡◌, subst}
use mathlib.Core.Logic.{inl, inr}
use mathlib.Core.Bool.{Bool, true, false}
use mathlib.Core.List.{List, [], ◌∷◌}
use meta_hybrid_mount.Prelude.Tests.{if◌then◌else◌, Bool-cases}
use meta_hybrid_mount.Prelude.Search.{In}

module _ {A : Type 0} (lt : A → A → Bool) where
  unfoldable pub insert_by : A → List A → List A
  insert_by x [] = x ∷ []
  insert_by x (y ∷ ys) = let rest = insert_by x ys in if lt y x then y ∷ rest else x ∷ y ∷ ys

  unfoldable pub sort_by : List A → List A
  sort_by [] = []
  sort_by (x ∷ xs) = insert_by x (sort_by xs)

  -- Sorting keeps what is in the list.
  In-insert_by : (x : A) (ys : List A) (a : A) → In a (insert_by x ys) → In a (x ∷ ys)
  unfolding insert_by
  In-insert_by x [] a m = m
  In-insert_by x (y ∷ ys) a m = elim (Bool-cases (lt y x)) [
    | inr e ↦ rw e at m
    | inl e ↦ elim (rw e at m) [
      | inl q ↦ inr (inl q)
      | inr q ↦ elim (In-insert_by x ys a q) [ inl t ↦ inl t | inr t ↦ inr (inr t) ]
    ]
  ]

  insert_by-In : (x : A) (ys : List A) (a : A) → In a (x ∷ ys) → In a (insert_by x ys)
  unfolding insert_by
  insert_by-In x [] a m = m
  insert_by-In x (y ∷ ys) a m = elim (Bool-cases (lt y x)) [
    | inr e ↦ rw e m
    | inl e ↦ rw e (elim m [
      | inl q ↦ inr (insert_by-In x ys a (inl q))
      | inr (inl q) ↦ inl q
      | inr (inr q) ↦ inr (insert_by-In x ys a (inr q))
    ])
  ]

  pub In-sort_by : (xs : List A) (a : A) → In a (sort_by xs) → In a xs
  unfolding sort_by
  In-sort_by [] a m = m
  In-sort_by (x ∷ xs) a m = elim (In-insert_by x (sort_by xs) a m) [
    | inl q ↦ inl q
    | inr q ↦ inr (In-sort_by xs a q)
  ]

  pub sort_by-In : (xs : List A) (a : A) → In a xs → In a (sort_by xs)
  unfolding sort_by
  sort_by-In [] a m = m
  sort_by-In (x ∷ xs) a (inl q) = insert_by-In x (sort_by xs) a (inl q)
  sort_by-In (x ∷ xs) a (inr q) = insert_by-In x (sort_by xs) a (inr (sort_by-In xs a q))

  -- Each member is related to those behind it.
  abbrev pub IsSortedBy : (A → A → Type 0) → List A → Type 0
  IsSortedBy R [] = Unit
  IsSortedBy R (x ∷ xs) = ((y : A) → In y xs → R x y) × IsSortedBy R xs

  module _ (R : A → A → Type 0) (before : (x y : A) → lt x y ≡ true → R x y)
      (after : (x y : A) → lt x y ≡ false → R y x)
      (trans : (x y z : A) → R x y → R y z → R x z) where
    insert_by-IsSortedBy : (x : A) (ys : List A) → IsSortedBy R ys → IsSortedBy R (insert_by x ys)
    unfolding insert_by
    insert_by-IsSortedBy x [] s = ((λ y m. absurd m), tt)
    insert_by-IsSortedBy x (y ∷ ys) (h, s) = elim (Bool-cases (lt y x)) [
      | inl e ↦ rw e (
        (λ z m. elim (In-insert_by x ys z m) [
          | inl q ↦ subst (R y) q (before y x e)
          | inr q ↦ h z q
        ]),
        insert_by-IsSortedBy x ys s,
      )
      | inr e ↦ rw e (
        (λ z m. elim m [
          | inl q ↦ subst (R x) q (after y x e)
          | inr q ↦ trans x y z (after y x e) (h z q)
        ]),
        (h, s),
      )
    ]

    pub sort_by-IsSortedBy : (xs : List A) → IsSortedBy R (sort_by xs)
    unfolding sort_by
    sort_by-IsSortedBy [] = tt
    sort_by-IsSortedBy (x ∷ xs) = insert_by-IsSortedBy x (sort_by xs) (sort_by-IsSortedBy xs)
