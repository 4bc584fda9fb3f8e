-- ===== src/Text/Lines.antt =====
-- `str::lines`, `split_once('=')` and joining with a separator, on the bytes of a text.
use meta_hybrid_mount.Prelude.{
  ℕ, ◌≡◌, refl, Bool, false, ◌&&◌, Option, none, some, List, [], ◌∷◌, ◌++◌, ◌==◌, if◌then◌else◌,
  All,
}
use meta_hybrid_mount.Text.{Text}

abbrev pub newline : ℕ
newline = 10

abbrev pub equals_sign : ℕ
equals_sign = b'='

-- One more byte in front of the first line.
abbrev onto_line : ℕ → List Text → List Text
onto_line c [] = (c ∷ []) ∷ []
onto_line c (l ∷ ls) = (c ∷ l) ∷ ls

abbrev starts_with_newline : Text → Bool
starts_with_newline [] = false
starts_with_newline (c ∷ s) = c == newline

-- A carriage return before a line feed belongs to the line's end.
unfoldable pub lines : Text → List Text
lines [] = []
lines (c ∷ s) =
    let rest = lines s in
    if c == newline
    then [] ∷ rest
    else if c == 13 && starts_with_newline s
    then rest
    else onto_line c rest

abbrev in_front : ℕ → Option (Text × Text) → Option (Text × Text)
in_front c none = none
in_front c (some (key, value)) = some (c ∷ key, value)

-- `split_once('=')`
unfoldable pub split_equals : Text → Option (Text × Text)
split_equals [] = none
split_equals (c ∷ s) =
    let rest = split_equals s in if c == equals_sign then some ([], s) else in_front c rest

-- `parts.join(separator)`
unfoldable pub join_with : Text → List Text → Text
join_with separator [] = []
join_with separator (part ∷ []) = part
join_with separator (part ∷ next ∷ parts) =
    part ++ (separator ++ join_with separator (next ∷ parts))

-- A line without line breaks is read back from the front of a text.
pub lines-append :
    (line rest : Text)
    → All (λ c. (c == newline ≡ false) × (c == 13 ≡ false)) line
    → lines (line ++ (newline ∷ rest)) ≡ line ∷ lines rest
unfolding lines
lines-append [] rest h = refl
lines-append (c ∷ line) rest (h, hs) = rw (h.0, h.1, lines-append line rest hs) refl

pub split_equals-append :
    (key value : Text)
    → All (λ c. c == equals_sign ≡ false) key
    → split_equals (key ++ (equals_sign ∷ value)) ≡ some (key, value)
unfolding split_equals
split_equals-append [] value h = refl
split_equals-append (c ∷ key) value (h, hs) = rw (h, split_equals-append key value hs) refl
