-- ===== src/Plan/Checks/Tree.antt =====
-- plan/mod.rs: what stands in a tree and below a node, and what a search below a node has found.
use meta_hybrid_mount.Prelude.{
  ◌≡◌, ◌⊎◌, inl, inr, refl, Bool, true, false, Option, none, some, List, find, find-none, In,
  Option-cases,
}
use meta_hybrid_mount.Text.{Text}
use meta_hybrid_mount.Config.{Mode, mode_eq}
use meta_hybrid_mount.Errors.{ok}
use meta_hybrid_mount.MountTree.{
  MountSource, MountNode, Children, node, leaf, branch, sources_of, children_of, is_some,
  source_for,
}
use meta_hybrid_mount.Plan.Checks.{or, first_descendant_source, first_of_kids, no_conflict}

-- A node of a tree, and a node strictly below another.
unfoldable mutual
  pub InTree : MountNode → MountNode → Type 0
  InTree m (node name kids sources structural) =
      (node name kids sources structural ≡ m) ⊎ InKids m kids

  pub InKids : MountNode → Children → Type 0
  InKids m leaf = ⊥
  InKids m (branch key n rest) = InTree m n ⊎ InKids m rest

abbrev pub IsBelow : MountNode → MountNode → Type 0
IsBelow m n = InKids m (children_of n)

pub or-none : {A : Type 0} (a b : Option A) → or a b ≡ none → (a ≡ none) × (b ≡ none)
or-none none b h = (refl, h)
or-none (some a) b h = cc

pub is_some-or : {A : Type 0} (a b : Option A) → is_some b ≡ true → is_some (or a b) ≡ true
is_some-or none b h = h
is_some-or (some a) b h = refl

pub is_some-find :
    {A : Type 0} (p : A → Bool) (xs : List A) (a : A)
    → In a xs
    → p a ≡ true
    → is_some (find p xs) ≡ true
is_some-find p xs a m t = elim (Option-cases (find p xs)) [
  | inl e ↦ cc (find-none p xs a e m, t)
  | inr (b, e) ↦ rw e refl
]

pub is_some-or_left : {A : Type 0} (a b : Option A) → is_some a ≡ true → is_some (or a b) ≡ true
is_some-or_left none b h = cc
is_some-or_left (some a) b h = refl

-- Without a conflict one of the two is missing.
pub no_conflict-ok :
    (target : Text) (first : Option MountSource) (backend : Mode) (remark : Text)
    (second : Option MountSource) {u : Unit {0}}
    → no_conflict target first backend remark second ≡ ok u
    → is_some first ≡ true
    → second ≡ none
no_conflict-ok target none backend remark second h t = cc
no_conflict-ok target (some a) backend remark none h t = refl
no_conflict-ok target (some a) backend remark (some b) h t = cc

mutual
  unfolding first_descendant_source first_of_kids InTree InKids source_for

  first_descendant_source-none :
      (n : MountNode) (backend : Mode)
      → source_for backend n ≡ none
      → first_descendant_source n backend ≡ none
      → (m : MountNode) (s : MountSource) → InTree m n
      → In s (sources_of m)
      → mode_eq s.backend backend ≡ false
  first_descendant_source-none (node name kids sources structural) backend own below m s (inl e) i =
      find-none (λ (t : MountSource). mode_eq t.backend backend) sources s own (rw (← e) at i)
  first_descendant_source-none (node name kids sources structural) backend own below m s (inr q) i =
      first_of_kids-none kids backend below m s q i

  pub first_of_kids-none :
      (kids : Children) (backend : Mode)
      → first_of_kids kids backend ≡ none
      → (m : MountNode) (s : MountSource) → InKids m kids
      → In s (sources_of m)
      → mode_eq s.backend backend ≡ false
  first_of_kids-none leaf backend h m s q i = absurd q
  first_of_kids-none (branch key n rest) backend h m s (inl q) i =
      let (own, h1) =
        or-none (source_for backend n)
          (or (first_descendant_source n backend) (first_of_kids rest backend)) h in
      let (below, _) =
        or-none (first_descendant_source n backend) (first_of_kids rest backend) h1 in
      first_descendant_source-none n backend own below m s q i
  first_of_kids-none (branch key n rest) backend h m s (inr q) i =
      let (_, h1) =
        or-none (source_for backend n)
          (or (first_descendant_source n backend) (first_of_kids rest backend)) h in
      let (_, behind) =
        or-none (first_descendant_source n backend) (first_of_kids rest backend) h1 in
      first_of_kids-none rest backend behind m s q i
