-- ===== src/Prelude/Sets.antt =====
-- Ordered sets as sorted lists without duplicates, over a strict order test: what `BTreeSet` keeps.
use mathlib.Core.Path.{◌≡◌, sym, ◌∙◌}
use mathlib.Core.Logic.{inl, inr}
use mathlib.Core.Bool.{Bool, false}
use mathlib.Core.List.{List, [], ◌∷◌}
use meta_hybrid_mount.Prelude.Tests.{if◌then◌else◌, Bool-cases}
use meta_hybrid_mount.Prelude.Search.{In}

module _ {A : Type 0} (lt : A → A → Bool) where
  unfoldable pub set_insert : A → List A → List A
  set_insert x [] = x ∷ []
  set_insert x (y ∷ ys) =
      if lt x y then x ∷ y ∷ ys else if lt y x then y ∷ set_insert x ys else y ∷ ys

  unfoldable pub to_set : List A → List A
  to_set [] = []
  to_set (x ∷ xs) = set_insert x (to_set xs)

  pub In-set_insert : (x : A) (ys : List A) (a : A) → In a (set_insert x ys) → In a (x ∷ ys)
  unfolding set_insert
  In-set_insert x [] a m = m
  In-set_insert x (y ∷ ys) a m = elim (Bool-cases (lt x y)) [
    | inl e ↦ rw e at m
    | inr e ↦ elim (Bool-cases (lt y x)) [
      | inr f ↦ inr (rw (e, f) at m)
      | inl f ↦ elim (rw (e, f) at m) [
        | inl q ↦ inr (inl q)
        | inr q ↦ elim (In-set_insert x ys a q) [ inl t ↦ inl t | inr t ↦ inr (inr t) ]
      ]
    ]
  ]

  pub In-to_set : (xs : List A) (a : A) → In a (to_set xs) → In a xs
  unfolding to_set
  In-to_set [] a m = m
  In-to_set (x ∷ xs) a m = elim (In-set_insert x (to_set xs) a m) [
    | inl q ↦ inl q
    | inr q ↦ inr (In-to_set xs a q)
  ]

  -- The order must tell any two values apart.
  module _ (linear : (x y : A) → lt x y ≡ false → lt y x ≡ false → x ≡ y) where
    pub set_insert-In : (x : A) (ys : List A) (a : A) → In a (x ∷ ys) → In a (set_insert x ys)
    unfolding set_insert
    set_insert-In x [] a m = m
    set_insert-In x (y ∷ ys) a m = elim (Bool-cases (lt x y)) [
      | inl e ↦ rw e m
      | inr e ↦ elim (Bool-cases (lt y x)) [
        | inl f ↦
            rw (e, f)
              (elim m [
                | inl q ↦ inr (set_insert-In x ys a (inl q))
                | inr (inl q) ↦ inl q
                | inr (inr q) ↦ inr (set_insert-In x ys a (inr q))
              ])
        | inr f ↦ rw (e, f) (elim m [ inl q ↦ inl (sym (linear x y e f) ∙ q) | inr q ↦ q ])
      ]
    ]

    pub to_set-In : (xs : List A) (a : A) → In a xs → In a (to_set xs)
    unfolding to_set
    to_set-In [] a m = m
    to_set-In (x ∷ xs) a (inl q) = set_insert-In x (to_set xs) a (inl q)
    to_set-In (x ∷ xs) a (inr q) = set_insert-In x (to_set xs) a (inr (to_set-In xs a q))
