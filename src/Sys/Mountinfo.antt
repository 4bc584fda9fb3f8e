-- ===== src/Sys/Mountinfo.antt =====
-- sys/mountinfo.rs: the mount points of a listing, with the ids of the mounts that are stacked there.
use meta_hybrid_mount.Prelude.{
  ℕ, Bool, true, false, ◌&&◌, List, [], ◌∷◌, ◌==◌, ltb, any, filter, if◌then◌else◌,
}
use meta_hybrid_mount.Prelude.Sets.{set_insert}
use meta_hybrid_mount.Text.{Text}
use meta_hybrid_mount.Text.Paths.{path_eq, path_lt, path_starts_with}

-- The `i32` ids are bit patterns. Points in the order of their paths, each with its ids.
abbrev pub MountSnapshot : Type 0
MountSnapshot = List (Text × List ℕ)

unfoldable pub add_record : Text × ℕ → MountSnapshot → MountSnapshot
add_record (path, mnt_id) [] = (path, mnt_id ∷ []) ∷ []
add_record (path, mnt_id) ((p, ids) ∷ rest) =
    let behind = add_record (path, mnt_id) rest in
    if path_eq p path
    then (p, set_insert ltb mnt_id ids) ∷ rest
    else if path_lt path p
    then (path, mnt_id ∷ []) ∷ (p, ids) ∷ rest
    else (p, ids) ∷ behind

unfoldable pub records_into : List (Text × ℕ) → MountSnapshot → MountSnapshot
records_into [] snapshot = snapshot
records_into (r ∷ rest) snapshot = records_into rest (add_record r snapshot)

unfoldable pub from_records : List (Text × ℕ) → MountSnapshot
from_records records = records_into records []

unfoldable pub contains_point : MountSnapshot → Text → Bool
contains_point snapshot path = any (λ (p : Text × List ℕ). path_eq p.0 path) snapshot

unfoldable pub subtree_ids : MountSnapshot → Text → MountSnapshot
subtree_ids snapshot root = filter (λ (p : Text × List ℕ). path_starts_with p.0 root) snapshot

abbrev pub same_ids : List ℕ → List ℕ → Bool
same_ids [] [] = true
same_ids (a ∷ more) (b ∷ others) = a == b && same_ids more others
same_ids _ _ = false

-- Whether a snapshot has the point with exactly these ids.
unfoldable pub has_ids : MountSnapshot → Text × List ℕ → Bool
has_ids snapshot (path, ids) =
    any (λ (p : Text × List ℕ). path_eq p.0 path && same_ids p.1 ids) snapshot
