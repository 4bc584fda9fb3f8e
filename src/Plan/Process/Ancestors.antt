-- ===== src/Plan/Process/Ancestors.antt =====
-- plan/mod.rs: what `has_overlay_ancestor` finds, and that its rounds are enough.
use meta_hybrid_mount.Prelude.{
  ap, ◌≤◌, ℕ, zero, suc, ◌<◌, ◌≡◌, refl, sym, ◌∙◌, Bool, true, false, ◌&&◌, ◌||◌, Option, none,
  some, List, [], ◌∷◌, ◌==◌, any, length, arith, Bool-cases, inl, inr,
}
use meta_hybrid_mount.Text.{Text, slash, text_eq}
use meta_hybrid_mount.Plan.Process.{in_front, parent_of, has_ancestor_in, has_overlay_ancestor}

-- Whether a path begins with the text `p` and a `/`.
abbrev pub begins_with_folder : Text → Text → Bool
begins_with_folder [] p = false
begins_with_folder (c ∷ s) [] = c == slash
begins_with_folder (c ∷ s) (d ∷ p) = c == d && begins_with_folder s p

abbrev at_or_below : Option Text → Text → Bool
at_or_below none p = false
at_or_below (some q) p = text_eq q p || begins_with_folder q p

in_front-below :
    (c : ℕ) (s p : Text) (parent : Option Text)
    → ((p : Text) → begins_with_folder s p ≡ at_or_below parent p)
    → begins_with_folder (c ∷ s) p ≡ at_or_below (in_front c (c == slash) parent) p
in_front-below c s [] (some q) h = refl
in_front-below c s (d ∷ p) (some q) h = rw (h p) (ground arith)
in_front-below c s [] none h = elim (Bool-cases (c == slash)) [
  | inl e ↦ rw e refl
  | inr e ↦ rw e refl
]
in_front-below c s (d ∷ p) none h = elim (Bool-cases (c == slash)) [
  | inl e ↦ rw (h p, e) (ground arith)
  | inr e ↦ rw (h p, e) (ground arith)
]

below-parent : (s p : Text) → begins_with_folder s p ≡ at_or_below (parent_of s) p
unfolding parent_of
below-parent [] p = refl
below-parent (c ∷ s) p = in_front-below c s p (parent_of s) (below-parent s)

any-or : (f g : Text → Bool) (xs : List Text) → any f xs || any g xs ≡ any (λ x. f x || g x) xs
any-or f g [] = refl
any-or f g (x ∷ xs) = rw (← any-or f g xs) (ground arith)

any-same : (f g : Text → Bool) (xs : List Text) → ((x : Text) → f x ≡ g x) → any f xs ≡ any g xs
any-same f g [] h = refl
any-same f g (x ∷ xs) h = rw (h x, any-same f g xs h) refl

-- A parent with fewer bytes than there are rounds left.
abbrev Fits : ℕ → Option Text → Type 0
Fits fuel none = Unit {0}
Fits fuel (some q) = length q < fuel

Fits-in_front :
    (c : ℕ) (is_slash : Bool) (n : ℕ) (parent : Option Text)
    → Fits n parent
    → Fits (suc n) (in_front c is_slash parent)
Fits-in_front c true n none h = omega arith
Fits-in_front c false n none h = tt
Fits-in_front c is_slash n (some q) h = omega arith

Fits-parent_of : (s : Text) → Fits (length s) (parent_of s)
unfolding parent_of
Fits-parent_of [] = tt
Fits-parent_of (c ∷ s) = Fits-in_front c (c == slash) (length s) (parent_of s) (Fits-parent_of s)

Fits-le : (n m : ℕ) (parent : Option Text) → n ≤ m → Fits n parent → Fits m parent
Fits-le n m none l h = tt
Fits-le n m (some q) l h = omega arith

any-none : (xs : List Text) → any (at_or_below none) xs ≡ false
any-none [] = refl
any-none (x ∷ xs) = any-none xs

has_ancestor_in-any :
    (fuel : ℕ) (paths : List Text) (parent : Option Text)
    → Fits fuel parent
    → has_ancestor_in fuel paths parent ≡ any (at_or_below parent) paths
unfolding has_ancestor_in
has_ancestor_in-any fuel paths none h = sym (any-none paths)
has_ancestor_in-any zero paths (some q) h = absurd (omega arith)
has_ancestor_in-any (suc fuel) paths (some q) h =
    let rest =
      has_ancestor_in-any fuel paths (parent_of q)
        (Fits-le (length q) fuel (parent_of q) (omega arith) (Fits-parent_of q)) in
    let below : any (at_or_below (parent_of q)) paths ≡ any (begins_with_folder q) paths =
      any-same _ _ paths (λ p. sym (below-parent q p)) in
    ap (λ b. any (text_eq q) paths || b) (rest ∙ below)
    ∙ any-or (text_eq q) (begins_with_folder q) paths

-- `has_overlay_ancestor` finds exactly whether the path begins with one of the given paths and a `/`
-- behind it, which is the end or not. Its rounds are enough for every path.
pub has_overlay_ancestor-any :
    (relative : Text) (paths : List Text)
    → has_overlay_ancestor relative paths ≡ any (begins_with_folder relative) paths
unfolding has_overlay_ancestor
has_overlay_ancestor-any relative paths =
    has_ancestor_in-any (length relative) paths (parent_of relative) (Fits-parent_of relative)
    ∙ any-same _ _ paths (λ p. sym (below-parent relative p))
