-- ===== src/Partitions.antt =====
-- partitions.rs: where the paths of a module go. A `BTreeMap` is an association list; only lookups
-- are made in it here.
use meta_hybrid_mount.Prelude.{
  ℕ, Bool, true, false, ◌&&◌, ◌||◌, not, Option, none, some, List, [], ◌∷◌, ◌==◌, if◌then◌else◌,
  any, drop,
}
use meta_hybrid_mount.Text.{Text, bytes, text_eq, strip_prefix, is_empty}
use meta_hybrid_mount.Text.Split.{split_slash, join_slash, path_join}
use meta_hybrid_mount.Errors.{Result, ok, err, invalid_module_path, partition_skipped}

pub record PartitionDiagnostic : Type 0 where
  pub partition : Text
  pub code : Text
  pub reason : Text
  pub modules : List Text

pub record OperationDiagnostic : Type 0 where
  pub module_id : Text
  pub logical_path : Text
  pub target : Option Text
  pub code : Text
  pub reason : Text

-- A child mount below a partition: device, inode, `major:minor` and filesystem root.
pub record SubtreeEntry : Type 0 where
  pub dev : ℕ
  pub ino : ℕ
  pub majmin : Text
  pub root : Text

pub record PartitionIdentity : Type 0 where
  pub canonical : Text
  pub dev : ℕ
  pub ino : ℕ
  pub subtree : List (Text × SubtreeEntry)

pub record PartitionLayout : Type 0 where
  pub roots : List (Text × Text)
  pub identities : List (Text × PartitionIdentity)
  pub errors : List (Text × PartitionDiagnostic)
  pub mount_points : List Text

module _ {V : Type 0} where
  -- `BTreeMap::get` and `contains_key`
  unfoldable pub get : Text → List (Text × V) → Option V
  get k [] = none
  get k ((j, v) ∷ m) = if text_eq j k then some v else get k m

  abbrev pub contains_key : Text → List (Text × V) → Bool
  contains_key k m = elim (get k m) [ none ↦ false | some _ ↦ true ]

abbrev pub system : Text
system = bytes "system"

-- The partition that the components of a path name.
unfoldable pub partition_of : PartitionLayout → List Text → Text
partition_of layout [] = system
partition_of layout (first ∷ []) = first
partition_of layout (first ∷ name ∷ rest) =
    if text_eq first system
      && (not (text_eq name system)
          && (contains_key name layout.roots || contains_key name layout.errors))
    then name
    else first

unfoldable pub logical_partition : PartitionLayout → Text → Text
logical_partition layout relative = partition_of layout (split_slash relative)

unfoldable pub root_len : PartitionLayout → Text → ℕ
root_len layout relative =
    if elim (strip_prefix (bytes "system/") relative) [ none ↦ false | some _ ↦ true ]
      && not (text_eq (logical_partition layout relative) system)
    then 2
    else 1

-- A component that no module path may have.
unfoldable pub is_bad_component : Text → Bool
is_bad_component c =
    is_empty c
    || ((text_eq c (bytes ".") || text_eq c (bytes ".."))
        || any (λ b. b == b'\\' || (b == 0 || b == b':')) c)

-- Without such components a path is relative and has only `Component::Normal` ones, so the second
-- test of the source, on `Path::components`, refuses nothing more.
unfoldable pub is_valid_path : Text → Bool
is_valid_path relative = not (is_empty relative || any is_bad_component (split_slash relative))

-- The root of a partition: the discovered one, or `/<partition>`.
unfoldable pub partition_root : PartitionLayout → Text → Text
partition_root layout partition = elim (get partition layout.roots) [
  | none ↦ path_join (bytes "/") partition
  | some root ↦ root
]

-- The target under a root: the components behind the partition's own, joined below it.
unfoldable pub target_below : Text → List Text → Text
target_below root components =
    let suffix = join_slash components in if is_empty suffix then root else path_join root suffix

unfoldable pub map_target : PartitionLayout → Text → Result (Text × Text)
map_target layout relative =
    let partition = logical_partition layout relative in
    if not (is_valid_path relative)
    then err (invalid_module_path relative)
    else elim (get partition layout.errors) [
      | some error ↦ err (partition_skipped partition error.reason)
      | none ↦ ok (
        partition,
        target_below (partition_root layout partition)
            (drop (root_len layout relative) (split_slash relative)),
      )
    ]
