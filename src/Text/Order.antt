-- ===== src/Text/Order.antt =====
-- The order of `str` is strict and linear.
use meta_hybrid_mount.Prelude.{arith, ◌≡◌, refl, true, false, [], ◌∷◌, Bool-cases, inl, inr}
use meta_hybrid_mount.Text.{Text, text_eq, text_eq→eq, text_lt}

pub text_lt_irrefl : (s : Text) → text_lt s s ≡ false
text_lt_irrefl [] = refl
text_lt_irrefl (x ∷ xs) = ground (arith, text_lt_irrefl xs)

pub text_lt_trans : (s t u : Text) → text_lt s t ≡ true → text_lt t u ≡ true → text_lt s u ≡ true
text_lt_trans [] [] u p q = cc
text_lt_trans [] (y ∷ ys) [] p q = cc
text_lt_trans [] (y ∷ ys) (z ∷ zs) p q = refl
text_lt_trans (x ∷ xs) [] u p q = cc
text_lt_trans (x ∷ xs) (y ∷ ys) [] p q = cc
text_lt_trans (x ∷ xs) (y ∷ ys) (z ∷ zs) p q = ground (arith, text_lt_trans xs ys zs)

pub text_lt_linear : (s t : Text) → text_eq s t ≡ false → text_lt s t ≡ false → text_lt t s ≡ true
text_lt_linear [] [] p q = cc
text_lt_linear [] (y ∷ ys) p q = cc
text_lt_linear (x ∷ xs) [] p q = refl
text_lt_linear (x ∷ xs) (y ∷ ys) p q = ground (arith, text_lt_linear xs ys)

pub text_lt-false : (s t : Text) → text_lt s t ≡ true → text_eq s t ≡ false
text_lt-false [] [] p = cc
text_lt-false [] (y ∷ ys) p = refl
text_lt-false (x ∷ xs) [] p = cc
text_lt-false (x ∷ xs) (y ∷ ys) p = ground (arith, text_lt-false xs ys)

pub text_lt_total : (x y : Text) → text_lt x y ≡ false → text_lt y x ≡ false → x ≡ y
text_lt_total x y p q = elim (Bool-cases (text_eq x y)) [
  | inl e ↦ text_eq→eq x y e
  | inr e ↦ cc (text_lt_linear x y e p, q)
]
