-- ===== src/Text/Paths.antt =====
-- `std::path`: paths compared by their components, as `Path` and `PathBuf` are.
use meta_hybrid_mount.Prelude.{
  ℕ, Bool, true, false, ◌&&◌, ◌||◌, not, List, [], ◌∷◌, ◌++◌, ◌==◌, ltb, if◌then◌else◌, filter,
}
use meta_hybrid_mount.Text.{Text, bytes, text_eq, text_lt, is_empty, starts_with_slash}
use meta_hybrid_mount.Text.Split.{split_slash}

abbrev is_kept_component : Text → Bool
is_kept_component c = not (is_empty c || text_eq c (bytes "."))

-- A leading `.` is a component of a relative path; elsewhere it is dropped.
abbrev leading : List Text → List Text
leading [] = []
leading (c ∷ cs) = if text_eq c (bytes ".") then c ∷ [] else []

-- `Path::components`; the root is the component `/`.
unfoldable pub path_components : Text → List Text
path_components path =
    let parts = split_slash path in
    let normal = filter is_kept_component parts in
    if starts_with_slash path then bytes "/" ∷ normal else leading parts ++ normal

-- The root, `.`, `..` and the names, in this order.
abbrev rank : Text → ℕ
rank c =
    if text_eq c (bytes "/")
    then 0
    else if text_eq c (bytes ".")
    then 1
    else if text_eq c (bytes "..")
    then 2
    else 3

abbrev component_lt : Text → Text → Bool
component_lt a b = if rank a == rank b then text_lt a b else ltb (rank a) (rank b)

unfoldable pub components_eq : List Text → List Text → Bool
components_eq [] [] = true
components_eq (a ∷ more) (b ∷ others) = text_eq a b && components_eq more others
components_eq _ _ = false

unfoldable pub components_lt : List Text → List Text → Bool
components_lt [] [] = false
components_lt [] (b ∷ others) = true
components_lt (a ∷ more) [] = false
components_lt (a ∷ more) (b ∷ others) =
    if text_eq a b then components_lt more others else component_lt a b

unfoldable pub components_start : List Text → List Text → Bool
components_start [] path = true
components_start (a ∷ more) [] = false
components_start (a ∷ more) (b ∷ others) = text_eq a b && components_start more others

abbrev pub path_eq : Text → Text → Bool
path_eq a b = components_eq (path_components a) (path_components b)

abbrev pub path_lt : Text → Text → Bool
path_lt a b = components_lt (path_components a) (path_components b)

-- `path.starts_with(prefix)`
abbrev pub path_starts_with : Text → Text → Bool
path_starts_with path prefix = components_start (path_components prefix) (path_components path)
