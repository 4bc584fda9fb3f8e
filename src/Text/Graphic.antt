-- ===== src/Text/Graphic.antt =====
-- Texts of printable ASCII characters that are no spaces: trimming keeps them, and they are one line.
use meta_hybrid_mount.Prelude.{
  ℕ, zero, suc, ◌<◌, ◌≡◌, refl, false, Option, none, some, [], ◌∷◌, ◌++◌, All, reverse, length,
  reverse-append, reverse-reverse, arith, ◌==◌,
}
use meta_hybrid_mount.Text.{Text, is_empty}
use meta_hybrid_mount.Text.Trim.{trim, trim_by, space_front, space_back}
use meta_hybrid_mount.Text.Lines.{newline}

-- A printable ASCII character that is no space.
abbrev pub IsGraphic : ℕ → Type 0
IsGraphic c = (32 < c) × (c < 127)

-- A value as versions, sizes with times and boot identities are.
abbrev pub IsPlain : Text → Type 0
IsPlain s = All IsGraphic s × (is_empty s ≡ false)

abbrev pub IsPlainOption : Option Text → Type 0
IsPlainOption none = Unit
IsPlainOption (some s) = IsPlain s

space_front_none : (s : Text) → All IsGraphic s → space_front s ≡ 0
space_front_none [] h = refl
space_front_none (a ∷ []) h = ground arith
space_front_none (a ∷ b ∷ []) h = ground arith
space_front_none (a ∷ b ∷ c ∷ s) h = ground arith

space_back_none : (s : Text) → All IsGraphic s → space_back s ≡ 0
space_back_none [] h = refl
space_back_none (a ∷ []) h = ground arith
space_back_none (a ∷ b ∷ []) h = ground arith
space_back_none (a ∷ b ∷ c ∷ s) h = ground arith

trim_by_none : (space : Text → ℕ) (fuel : ℕ) (s : Text) → space s ≡ 0 → trim_by space fuel s ≡ s
unfolding trim_by
trim_by_none space zero s h = refl
trim_by_none space (suc fuel) s h = rw (h, trim_by) refl

module _ (P : ℕ → Type 0) where
  pub All-append : (s t : Text) → All P s → All P t → All P (s ++ t)
  All-append [] t h k = k
  All-append (c ∷ s) t (h, hs) k = (h, All-append s t hs k)

  All-reverse : (s : Text) → All P s → All P (reverse s)
  All-reverse [] h = h
  All-reverse (c ∷ s) (h, hs) =
      rw (reverse-append (c ∷ []) s) (All-append (reverse s) (c ∷ []) (All-reverse s hs) (h, tt))

pub trim_graphic : (s : Text) → All IsGraphic s → trim s ≡ s
unfolding trim
trim_graphic s h =
    let front = trim_by_none space_front (length s) s (space_front_none s h) in
    let back =
      trim_by_none space_back (length s) (reverse s)
        (space_back_none (reverse s) (All-reverse IsGraphic s h)) in
    rw (front, back) (reverse-reverse s)

-- Neither a line feed nor a carriage return.
abbrev pub IsOneLine : ℕ → Type 0
IsOneLine c = (c == newline ≡ false) × (c == 13 ≡ false)

pub one_line : (s : Text) → All IsGraphic s → All IsOneLine s
one_line [] h = h
one_line (c ∷ s) (h, hs) = ((ground arith, ground arith), one_line s hs)
