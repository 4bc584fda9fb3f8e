-- ===== src/Prelude/Search.antt =====
-- Searches through a list by a Boolean test, as the iterator methods `any`, `all`, `find` and
-- `filter` make them, with the predicate `All` that they are read by.
use mathlib.Core.Path.{◌≡◌, refl, ap}
use mathlib.Core.Logic.{◌⊎◌, inl, inr}
use mathlib.Core.Bool.{Bool, true, false, ◌&&◌, ◌||◌}
use mathlib.Core.Option.{Option, none, some}
use mathlib.Core.List.{List, [], ◌∷◌, ◌++◌, map}
use native.Mathlib.Omega.{arith}
use meta_hybrid_mount.Prelude.Tests.{if◌then◌else◌, Bool-cases}

module _ {ℓ} {A : Type ℓ} where
  abbrev pub any : (A → Bool) → List A → Bool
  any p [] = false
  any p (x ∷ xs) = p x || any p xs

  abbrev pub all : (A → Bool) → List A → Bool
  all p [] = true
  all p (x ∷ xs) = p x && all p xs

  abbrev pub find : (A → Bool) → List A → Option A
  find p [] = none
  find p (x ∷ xs) = if p x then some x else find p xs

  abbrev pub filter : (A → Bool) → List A → List A
  filter p [] = []
  filter p (x ∷ xs) = let rest = filter p xs in if p x then x ∷ rest else rest

  abbrev pub All {κ} : (A → Type κ) → List A → Type κ
  All P [] = Unit
  All P (x ∷ xs) = P x × All P xs

module _ {A : Type 0} where
  -- Membership by recursion: the positions of a value.
  abbrev pub In : A → List A → Type 0
  In a [] = ⊥
  In a (x ∷ xs) = (x ≡ a) ⊎ In a xs

module _ {A : Type 0} (p : A → Bool) where
  pub any-true : (xs : List A) → any p xs ≡ true → (a : A) × In a xs × (p a ≡ true)
  any-true [] h = cc
  any-true (x ∷ xs) h = elim (Bool-cases (p x)) [
    | inl e ↦ (x, inl refl, e)
    | inr e ↦ let (a, m, q) = any-true xs (rw e at h) in (a, inr m, q)
  ]

  pub any-In : (xs : List A) (a : A) → In a xs → p a ≡ true → any p xs ≡ true
  any-In [] a m h = absurd m
  any-In (x ∷ xs) a (inl e) h = rw (e, h)
  any-In (x ∷ xs) a (inr m) h = rw (any-In xs a m h) (ground arith)

  pub any-false : (xs : List A) (a : A) → any p xs ≡ false → In a xs → p a ≡ false
  any-false [] a h m = absurd m
  any-false (x ∷ xs) a h (inl e) = ground arith
  any-false (x ∷ xs) a h (inr m) = any-false xs a (ground arith) m

  pub any-false_of : (xs : List A) → ((a : A) → In a xs → p a ≡ false) → any p xs ≡ false
  any-false_of [] h = refl
  any-false_of (x ∷ xs) h = rw (h x (inl refl)) (any-false_of xs (λ a m. h a (inr m)))

  pub any_subset :
      (xs ys : List A) → ((a : A) → In a xs → In a ys) → any p ys ≡ false → any p xs ≡ false
  any_subset xs ys sub h = any-false_of xs (λ a m. any-false ys a h (sub a m))

  pub all-In : (xs : List A) (a : A) → all p xs ≡ true → In a xs → p a ≡ true
  all-In [] a h m = absurd m
  all-In (x ∷ xs) a h (inl e) = ground arith
  all-In (x ∷ xs) a h (inr m) = all-In xs a (ground arith) m

  pub all_of_In : (xs : List A) → ((a : A) → In a xs → p a ≡ true) → all p xs ≡ true
  all_of_In [] h = refl
  all_of_In (x ∷ xs) h = rw (h x (inl refl)) (all_of_In xs (λ a m. h a (inr m)))

  pub find-some : (xs : List A) (a : A) → find p xs ≡ some a → In a xs × (p a ≡ true)
  find-some [] a h = cc
  find-some (x ∷ xs) a h = elim (Bool-cases (p x)) [
    | inl e ↦ (inl (ground arith), ground arith)
    | inr e ↦ let (m, q) = find-some xs a (rw e at h) in (inr m, q)
  ]

  pub find-none : (xs : List A) (a : A) → find p xs ≡ none → In a xs → p a ≡ false
  find-none [] a h m = absurd m
  find-none (x ∷ xs) a h (inl e) = ground arith
  find-none (x ∷ xs) a h (inr m) = find-none xs a (ground arith) m

  pub In-filter : (xs : List A) (a : A) → In a (filter p xs) → In a xs × (p a ≡ true)
  In-filter [] a m = absurd m
  In-filter (x ∷ xs) a m = elim (Bool-cases (p x)) [
    | inl e ↦ elim (rw e at m) [
      | inl q ↦ (inl q, rw (← q) e)
      | inr q ↦ let (k, t) = In-filter xs a q in (inr k, t)
    ]
    | inr e ↦ let (k, t) = In-filter xs a (rw e at m) in (inr k, t)
  ]

  pub In-filter_of : (xs : List A) (a : A) → In a xs → p a ≡ true → In a (filter p xs)
  In-filter_of [] a m h = absurd m
  In-filter_of (x ∷ xs) a (inl e) h = rw (e, h) (inl refl)
  In-filter_of (x ∷ xs) a (inr m) h = elim (Bool-cases (p x)) [
    | inl e ↦ rw e (inr (In-filter_of xs a m h))
    | inr e ↦ rw e (In-filter_of xs a m h)
  ]

module _ {A : Type 0} where
  pub In-append : (xs ys : List A) (a : A) → In a (xs ++ ys) → In a xs ⊎ In a ys
  In-append [] ys a m = inr m
  In-append (x ∷ xs) ys a (inl e) = inl (inl e)
  In-append (x ∷ xs) ys a (inr m) = elim (In-append xs ys a m) [
    | inl q ↦ inl (inr q)
    | inr q ↦ inr q
  ]

  pub In-append_left : (xs ys : List A) (a : A) → In a xs → In a (xs ++ ys)
  In-append_left [] ys a m = absurd m
  In-append_left (x ∷ xs) ys a (inl e) = inl e
  In-append_left (x ∷ xs) ys a (inr m) = inr (In-append_left xs ys a m)

  pub In-append_right : (xs ys : List A) (a : A) → In a ys → In a (xs ++ ys)
  In-append_right [] ys a m = m
  In-append_right (x ∷ xs) ys a m = inr (In-append_right xs ys a m)

module _ {A B : Type 0} (f : A → B) where
  pub In-map : (xs : List A) (a : A) → In a xs → In (f a) (map f xs)
  In-map [] a m = absurd m
  In-map (x ∷ xs) a (inl e) = inl (ap f e)
  In-map (x ∷ xs) a (inr m) = inr (In-map xs a m)

  -- What stands in the image comes from the list.
  pub In-map_from : (xs : List A) (b : B) → In b (map f xs) → (a : A) × In a xs × (f a ≡ b)
  In-map_from [] b m = absurd m
  In-map_from (x ∷ xs) b (inl e) = (x, inl refl, e)
  In-map_from (x ∷ xs) b (inr m) = let (a, q, e) = In-map_from xs b m in (a, inr q, e)
