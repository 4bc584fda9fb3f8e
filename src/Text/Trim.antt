-- ===== src/Text/Trim.antt =====
-- `str::trim`, `str::trim_start_matches('/')` and the components of a path.
use meta_hybrid_mount.Prelude.{
  ℕ, zero, suc, Bool, true, false, ◌&&◌, ◌||◌, not, List, [], ◌∷◌, ◌==◌, leb, if◌then◌else◌, length,
  drop, reverse, filter,
}
use meta_hybrid_mount.Text.{Text, slash, is_empty}
use meta_hybrid_mount.Text.Split.{split_slash}

-- The characters with the property White_Space, in UTF-8, of one, two and three bytes.
abbrev is_space1 : ℕ → Bool
is_space1 a = (leb 9 a && leb a 13) || a == 32

abbrev is_space2 : ℕ → ℕ → Bool
is_space2 a b = a == 0xC2 && (b == 0x85 || b == 0xA0)

abbrev is_space3 : ℕ → ℕ → ℕ → Bool
is_space3 a b c =
    (a == 0xE1 && (b == 0x9A && c == 0x80))
    || ((a == 0xE2
          && ((b == 0x80 && ((leb 0x80 c && leb c 0x8A) || (c == 0xA8 || (c == 0xA9 || c == 0xAF))))
              || (b == 0x81 && c == 0x9F)))
        || (a == 0xE3 && (b == 0x80 && c == 0x80)))

-- How many bytes a white space at the front takes, 0 for none; in the reversed text, at the end.
abbrev pub space_front : Text → ℕ
space_front [] = 0
space_front (a ∷ []) = if is_space1 a then 1 else 0
space_front (a ∷ b ∷ []) = if is_space1 a then 1 else if is_space2 a b then 2 else 0
space_front (a ∷ b ∷ c ∷ s) =
    if is_space1 a then 1 else if is_space2 a b then 2 else if is_space3 a b c then 3 else 0

abbrev pub space_back : Text → ℕ
space_back [] = 0
space_back (a ∷ []) = if is_space1 a then 1 else 0
space_back (a ∷ b ∷ []) = if is_space1 a then 1 else if is_space2 b a then 2 else 0
space_back (a ∷ b ∷ c ∷ s) =
    if is_space1 a then 1 else if is_space2 b a then 2 else if is_space3 c b a then 3 else 0

-- Each round drops a byte at least, so the length of the text is enough fuel.
unfoldable pub trim_by : (Text → ℕ) → ℕ → Text → Text
trim_by space zero s = s
trim_by space (suc fuel) s = elim (space s == 0) [
  | true ↦ s
  | false ↦ trim_by space fuel (drop (space s) s)
]

unfoldable pub trim : Text → Text
trim s =
    let front = trim_by space_front (length s) s in
    reverse (trim_by space_back (length front) (reverse front))

unfoldable pub trim_start_slashes : Text → Text
trim_start_slashes [] = []
trim_start_slashes (c ∷ s) = let rest = trim_start_slashes s in if c == slash then rest else c ∷ s

-- The components that are not empty.
unfoldable pub components_of : Text → List Text
components_of s = filter (λ c. not (is_empty c)) (split_slash s)

-- `PathBuf::pop` on a path without `.` components: the text before the last component.
abbrev drop_slashes : Text → Text
drop_slashes [] = []
drop_slashes (c ∷ s) = let rest = drop_slashes s in if c == slash then rest else c ∷ s

abbrev drop_component : Text → Text
drop_component [] = []
drop_component (c ∷ s) = let rest = drop_component s in if c == slash then c ∷ s else rest

-- What is left of a reversed path when it is behind a root.
abbrev keep_root : Text → Text → Text
keep_root [] [] = []
keep_root (c ∷ s) [] = slash ∷ []
keep_root _ rest = rest

unfoldable pub pop_path : Text → Text
pop_path path =
    let before = drop_component (drop_slashes (reverse path)) in
    let parent = reverse (keep_root before (drop_slashes before)) in
    if is_empty (drop_slashes (reverse path)) then path else parent
