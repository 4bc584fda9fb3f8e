-- ===== src/MountTree.antt =====
-- mount_tree.rs: the tree of mount targets, with what each module contributes to a target. The
-- children of a node, a `BTreeMap`, are a list in the order of the names.
pub mod Insert
pub mod Sources
pub mod Backends
use meta_hybrid_mount.Prelude.{
  ℕ, zero, suc, ◌+◌, ◌-◌, Bool, true, false, ◌&&◌, ◌||◌, not, Option, none, some, List, [], ◌∷◌,
  ◌++◌, map, ltb, if◌then◌else◌, length, any, find, filter,
}
use meta_hybrid_mount.Prelude.Sets.{set_insert, to_set}
use meta_hybrid_mount.Prelude.Sorting.{sort_by}
use meta_hybrid_mount.Text.Paths.{path_eq, path_lt}
use meta_hybrid_mount.Text.{Text, text_eq, text_lt}
use meta_hybrid_mount.Text.Trim.{trim, trim_start_slashes, components_of, pop_path}
use meta_hybrid_mount.Config.{Mode, mode_eq}

pub data NodeFileType : Type 0 where
  regular_file directory symlink whiteout : NodeFileType

abbrev pub is_directory : NodeFileType → Bool
is_directory directory = true
is_directory _ = false

pub record MountSource : Type 0 where
  pub module_id : Text
  pub relative : Text
  pub source_path : Text
  pub file_type : NodeFileType
  pub replace : Bool
  pub backend : Mode

pub record StructuralSource : Type 0 where
  pub module_id : Text
  pub source_path : Text

mutual
  pub data MountNode : Type 0 where
    node : Text → Children → List MountSource → List StructuralSource → MountNode

  pub data Children : Type 0 where
    leaf : Children
    branch : Text → MountNode → Children → Children

abbrev pub name_of : MountNode → Text
name_of (node name _ _ _) = name

abbrev pub children_of : MountNode → Children
children_of (node _ children _ _) = children

abbrev pub sources_of : MountNode → List MountSource
sources_of (node _ _ sources _) = sources

abbrev pub structural_of : MountNode → List StructuralSource
structural_of (node _ _ _ structural) = structural

abbrev pub new_node : Text → MountNode
new_node name = node name leaf [] []

abbrev pub empty_tree : MountNode
empty_tree = new_node []

unfoldable pub source_for : Mode → MountNode → Option MountSource
source_for backend n =
    find (λ (source : MountSource). mode_eq source.backend backend) (sources_of n)

abbrev pub is_some {ℓ} : {A : Type ℓ} → Option A → Bool
is_some none = false
is_some (some a) = true

unfoldable mutual
  unfolding source_for

  pub has_backend : Mode → MountNode → Bool
  has_backend backend (node name children sources structural) =
      is_some (source_for backend (node name children sources structural))
      || any_has_backend backend children

  pub any_has_backend : Mode → Children → Bool
  any_has_backend backend leaf = false
  any_has_backend backend (branch name n rest) =
      has_backend backend n || any_has_backend backend rest

-- The path of the first directory source, or else of the first structural one.
unfoldable pub structural_path : MountNode → Option Text
structural_path n =
    elim (find (λ (source : MountSource). is_directory source.file_type) (sources_of n)) [
      | some source ↦ some source.source_path
      | none ↦ elim (structural_of n) [ [] ↦ none | source ∷ _ ↦ some source.source_path ]
    ]

unfoldable pub file_type_for : Mode → MountNode → Option NodeFileType
file_type_for backend n = elim (source_for backend n) [
  | some source ↦ some source.file_type
  | none ↦ if any_has_backend backend (children_of n) then some directory else none
]

unfoldable pub module_path_for : Mode → MountNode → Option Text
module_path_for backend n = elim (source_for backend n) [
  | some source ↦ some source.source_path
  | none ↦ structural_path n
]

unfoldable pub replace_for : Mode → MountNode → Bool
replace_for backend n = elim (source_for backend n) [ some source ↦ source.replace | none ↦ false ]

-- `entry(name).or_insert_with(..)` and the change of the node that is there then.
unfoldable pub entry : Text → (MountNode → MountNode) → Children → Children
entry name change leaf = branch name (change (new_node name)) leaf
entry name change (branch key n rest) =
    let behind = entry name change rest in
    if text_eq key name
    then branch key (change n) rest
    else if text_lt name key
    then branch name (change (new_node name)) (branch key n rest)
    else branch key n behind

abbrev structural_lt : StructuralSource → StructuralSource → Bool
structural_lt left right =
    if text_eq left.module_id right.module_id
    then path_lt left.source_path right.source_path
    else text_lt left.module_id right.module_id

abbrev pub source_lt : MountSource → MountSource → Bool
source_lt left right =
    if text_eq left.module_id right.module_id
    then text_lt left.relative right.relative
    else text_lt left.module_id right.module_id

unfoldable pub pop_times : ℕ → Text → Text
pop_times zero path = path
pop_times (suc n) path = pop_times n (pop_path path)

-- The directory of the source that a node on the way stands for is noted once.
unfoldable pub noted : MountSource → ℕ → ℕ → List StructuralSource → List StructuralSource
noted source relative_len kept structural =
    let path = pop_times (relative_len - kept) source.source_path in
    let known =
      any
        (λ (s : StructuralSource).
          text_eq s.module_id source.module_id && path_eq s.source_path path)
        structural in
    if (ltb kept relative_len || is_directory source.file_type) && not known
    then sort_by structural_lt
        (structural ++ record { module_id = source.module_id; source_path = path } ∷ [])
    else structural

unfoldable pub note_structure : MountSource → ℕ → ℕ → MountNode → MountNode
note_structure source relative_len kept (node name children sources structural) =
    node name children sources (noted source relative_len kept structural)

unfoldable pub push_source : MountSource → MountNode → MountNode
push_source source (node name children sources structural) =
    node name children (sort_by source_lt (sources ++ source ∷ [])) structural

abbrev pub on_children : (Children → Children) → MountNode → MountNode
on_children change (node name children sources structural) =
    node name (change children) sources structural

-- The rounds over the components of the target; `kept` counts those of the source that are kept.
unfoldable pub insert_at : MountSource → ℕ → ℕ → List Text → MountNode → MountNode
insert_at source relative_len kept [] n = push_source source n
insert_at source relative_len kept (c ∷ cs) n =
    on_children
      (entry c (λ m.
        insert_at source relative_len (suc kept) cs
          (note_structure source relative_len (suc kept) m)))
      n

abbrev pub target_components : Text → List Text
target_components target = components_of (trim_start_slashes (trim target))

unfoldable pub insert : Text → MountSource → MountNode → MountNode
insert target source root =
    let components = target_components target in
    let relative_len = length (components_of source.relative) in
    insert_at source relative_len (relative_len - length components) components root

unfoldable pub get_child : Text → Children → Option MountNode
get_child name leaf = none
get_child name (branch key n rest) =
    let behind = get_child name rest in if text_eq key name then some n else behind

-- The rest of a lookup under `?`.
abbrev pub and_then {ℓ κ} : {A : Type ℓ} {B : Type κ} → Option A → (A → Option B) → Option B
and_then none next = none
and_then (some a) next = next a

unfoldable pub find_from : List Text → MountNode → Option MountNode
find_from [] n = some n
find_from (c ∷ cs) n = and_then (get_child c (children_of n)) (find_from cs)

unfoldable pub find_target : Text → MountNode → Option MountNode
find_target target root = find_from (target_components target) root

-- The modules that contribute to a node itself.
abbrev pub own_ids : Mode → MountNode → List Text
own_ids backend n =
    map (λ (source : MountSource). source.module_id)
      (filter (λ (source : MountSource). mode_eq source.backend backend) (sources_of n))

unfoldable mutual
  pub collect_backend_ids : MountNode → Mode → List Text
  collect_backend_ids (node name children sources structural) backend =
      to_set text_lt (
        own_ids backend (node name children sources structural)
        ++ collect_children children backend)

  pub collect_children : Children → Mode → List Text
  collect_children leaf backend = []
  collect_children (branch name n rest) backend =
      collect_backend_ids n backend ++ collect_children rest backend

unfoldable pub module_ids_for_target : Mode → Text → MountNode → List Text
module_ids_for_target backend target root = elim (find_target target root) [
  | none ↦ []
  | some n ↦ to_set text_lt (own_ids backend n)
]

unfoldable pub module_ids_for_subtree : Mode → Text → MountNode → List Text
module_ids_for_subtree backend target root = elim (find_target target root) [
  | none ↦ []
  | some n ↦ collect_backend_ids n backend
]

unfoldable pub module_ids_for : Mode → MountNode → List Text
module_ids_for backend root = collect_backend_ids root backend

unfoldable mutual
  pub node_count : MountNode → ℕ
  node_count (node name children sources structural) = 1 + count_children children

  pub count_children : Children → ℕ
  count_children leaf = 0
  count_children (branch name n rest) = node_count n + count_children rest
