-- ===== src/Text.antt =====
-- Text as the bytes of its UTF-8 form, which is what a Rust `str` compares, searches and slices.
-- The functions are those of the standard library that the program uses.
pub mod Utf8
pub mod Split
pub mod Trim
pub mod Order
pub mod Lines
pub mod Decimal
pub mod Graphic
pub mod Maps
pub mod Paths
use Prim.Native.Char.{code}
use Prim.Native.String.{String}
use meta_hybrid_mount.Prelude.{
  ℕ, ◌≡◌, ◌≢◌, ◌↔◌, refl, ap, Bool, true, false, ◌&&◌, not, Option, none, some, List, [], ◌∷◌, ◌++◌,
  arith, ◌==◌, ltb, if◌then◌else◌, length, any, filter,
}

abbrev pub Text : Type 0
Text = List ℕ

-- A literal; the program's literals are ASCII, so a character is a byte.
abbrev pub bytes : String → Text
bytes String.[] = []
bytes (String.◌∷◌ c s) = code c ∷ bytes s

abbrev pub slash : ℕ
slash = b'/'

abbrev pub text_eq : Text → Text → Bool
text_eq [] [] = true
text_eq (x ∷ xs) (y ∷ ys) = x == y && text_eq xs ys
text_eq _ _ = false

pub text_eq→eq : (s t : Text) → text_eq s t ≡ true → s ≡ t
text_eq→eq [] [] h = refl
text_eq→eq [] (y ∷ ys) h = cc
text_eq→eq (x ∷ xs) [] h = cc
text_eq→eq (x ∷ xs) (y ∷ ys) h = ground (arith, text_eq→eq xs ys)

pub text_eq_refl : (s : Text) → text_eq s s ≡ true
text_eq_refl [] = refl
text_eq_refl (x ∷ xs) = ground (arith, text_eq_refl xs)

pub text_eq_iff : (s t : Text) → (text_eq s t ≡ true) ↔ (s ≡ t)
text_eq_iff s t = (text_eq→eq s t, λ e. rw e (text_eq_refl t))

pub text_eq_sym : (s t : Text) → text_eq s t ≡ text_eq t s
text_eq_sym [] [] = refl
text_eq_sym [] (y ∷ ys) = refl
text_eq_sym (x ∷ xs) [] = refl
text_eq_sym (x ∷ xs) (y ∷ ys) = ground (arith, text_eq_sym xs ys)

-- `Ord for str`: the lexicographic order of the bytes; `text_lt s t` is `s.cmp(t) == Less`.
abbrev pub text_lt : Text → Text → Bool
text_lt [] [] = false
text_lt [] (y ∷ ys) = true
text_lt (x ∷ xs) [] = false
text_lt (x ∷ xs) (y ∷ ys) = if x == y then text_lt xs ys else ltb x y

-- `str::strip_prefix`
abbrev pub strip_prefix : Text → Text → Option Text
strip_prefix [] s = some s
strip_prefix (p ∷ ps) [] = none
strip_prefix (p ∷ ps) (x ∷ xs) = if p == x then strip_prefix ps xs else none

-- `str::starts_with('/')`
abbrev pub starts_with_slash : Text → Bool
starts_with_slash [] = false
starts_with_slash (x ∷ xs) = x == slash

abbrev pub is_empty {ℓ} : {A : Type ℓ} → List A → Bool
is_empty [] = true
is_empty (x ∷ xs) = false

pub is_empty-eq : {A : Type 0} (xs : List A) → not (is_empty xs) ≡ false → xs ≡ []
is_empty-eq [] h = refl
is_empty-eq (x ∷ xs) h = cc
