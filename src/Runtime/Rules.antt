-- ===== src/Runtime/Rules.antt =====
-- runtime/rules.rs: the rules that a session owns in the kernel, their checks, and the transaction
-- that replaces some rules by others.
pub mod Sorting
pub mod Checks
pub mod Transaction
pub mod Outcome
pub mod Refines
pub mod Unique
use Prim.Native.Nat.{bit_and}
use meta_hybrid_mount.Prelude.{
  ℕ, suc, ◌+◌, Bool, true, false, ◌&&◌, ◌||◌, not, Option, none, some, List, [], ◌∷◌, ◌++◌, ◌==◌,
  ltb, if◌then◌else◌, any, filter,
}
use meta_hybrid_mount.Text.{Text, bytes, slash, text_eq, text_lt, strip_prefix, starts_with_slash}
use meta_hybrid_mount.Errors.{
  Error, Result, ok, err, ◌>>=◌, ◌>>◌, owned_rule_missing, duplicate_rule, obsolete_remains,
  foreign_conflicts,
}
use meta_hybrid_mount.Vfs.Protocol.Encode.{without_derived, is_derived_parent}

pub record SavedRule : Type 0 where
  pub module_id : Text
  pub virtual_path : Text
  pub real_path : Text
  pub flags : ℕ
  pub uid : ℕ

unfoldable pub same_key : SavedRule → SavedRule → Bool
same_key left right = left.uid == right.uid && text_eq left.virtual_path right.virtual_path

unfoldable pub semantic_equal : SavedRule → SavedRule → Bool
semantic_equal expected actual =
    same_key expected actual
    && (text_eq expected.real_path actual.real_path
        && without_derived expected.flags == without_derived actual.flags)

unfoldable pub derived_parent : SavedRule → Bool
derived_parent rule = is_derived_parent rule.flags rule.real_path

unfoldable pub ancestor : Text → Text → Bool
ancestor parent child = not (text_eq parent child) && elim (strip_prefix parent child) [
  | none ↦ false
  | some suffix ↦ text_eq parent (bytes "/") || starts_with_slash suffix
]

unfoldable pub verify_present : List SavedRule → List SavedRule → Result (Unit {0})
verify_present current [] = ok tt
verify_present current (rule ∷ rest) =
    if any (semantic_equal rule) current
    then verify_present current rest
    else err (owned_rule_missing rule.virtual_path rule.uid)

-- The set of keys seen so far is the list of the rules that have them.
unfoldable pub validate_unique_from : List SavedRule → List SavedRule → Result (Unit {0})
validate_unique_from seen [] = ok tt
validate_unique_from seen (rule ∷ rest) =
    if any (same_key rule) seen
    then err (duplicate_rule rule.virtual_path rule.uid)
    else validate_unique_from (rule ∷ seen) rest

unfoldable pub validate_unique : List SavedRule → Result (Unit {0})
validate_unique rules = validate_unique_from [] rules

-- Whether a rule that should be gone is still there.
unfoldable pub remains : List SavedRule → List SavedRule → SavedRule → Bool
remains current expected old =
    not (any (λ rule. same_key rule old) expected)
    && any (λ rule. same_key rule old && not (derived_parent rule)) current

unfoldable pub verify_gone : List SavedRule → List SavedRule → List SavedRule → Result (Unit {0})
verify_gone current expected [] = ok tt
verify_gone current expected (old ∷ rest) =
    if remains current expected old
    then err (obsolete_remains old.virtual_path old.uid)
    else verify_gone current expected rest

unfoldable pub verify_result : List SavedRule → List SavedRule → List SavedRule → Result (Unit {0})
verify_result current expected obsolete = do
  verify_present current expected
  verify_gone current expected obsolete

-- How many `/` a path has.
unfoldable pub depth : Text → ℕ
depth [] = 0
depth (c ∷ s) = if c == slash then suc (depth s) else depth s

-- Whether the comparison of `ordered` puts `a` strictly before `b`.
unfoldable pub precedes : Bool → SavedRule → SavedRule → Bool
precedes deepest_first a b =
    if depth a.virtual_path == depth b.virtual_path
    then (if text_eq a.virtual_path b.virtual_path
        then ltb a.uid b.uid
        else text_lt a.virtual_path b.virtual_path)
    else if deepest_first
    then ltb (depth b.virtual_path) (depth a.virtual_path)
    else ltb (depth a.virtual_path) (depth b.virtual_path)

-- `sort_by` is stable: a rule goes in front of those that are not strictly before it.
unfoldable pub insert_ordered : Bool → SavedRule → List SavedRule → List SavedRule
insert_ordered deepest_first rule [] = rule ∷ []
insert_ordered deepest_first rule (r ∷ rest) =
    if precedes deepest_first r rule
    then r ∷ insert_ordered deepest_first rule rest
    else rule ∷ r ∷ rest

unfoldable pub ordered : List SavedRule → Bool → List SavedRule
ordered [] deepest_first = []
ordered (rule ∷ rest) deepest_first = insert_ordered deepest_first rule (ordered rest deepest_first)

-- Whether a foreign rule stands in the way of an owned one.
unfoldable pub conflicts : SavedRule → SavedRule → Bool
conflicts actual owned =
    if (actual.uid == 0 || actual.uid == owned.uid)
      && (derived_parent actual && ancestor actual.virtual_path owned.virtual_path)
    then false
    else text_eq actual.virtual_path owned.virtual_path
      || (ancestor actual.virtual_path owned.virtual_path
          || ancestor owned.virtual_path actual.virtual_path)

unfoldable pub check_foreign_rule : SavedRule → List SavedRule → Result (Unit {0})
check_foreign_rule actual [] = ok tt
check_foreign_rule actual (owned ∷ rest) =
    if conflicts actual owned
    then err (foreign_conflicts owned.virtual_path actual.virtual_path actual.uid)
    else check_foreign_rule actual rest

unfoldable pub check_foreign : List SavedRule → List SavedRule → Result (Unit {0})
check_foreign [] owned = ok tt
check_foreign (actual ∷ rest) owned = check_foreign_rule actual owned >> check_foreign rest owned

unfoldable pub foreign_rules : List SavedRule → List SavedRule → List SavedRule
foreign_rules initial before =
    filter (λ actual. not (any (λ owned. same_key owned actual) before)) initial

unfoldable pub validate_snapshot :
    List SavedRule → List SavedRule → List SavedRule → Result (List SavedRule)
validate_snapshot initial before after = do
  validate_unique before
  validate_unique after
  verify_present initial before
  let foreign = foreign_rules initial before
  check_foreign foreign (before ++ after)
  ok foreign

-- The foreign rules that a transaction must find again: the kernel did not derive them.
unfoldable pub explicit_rules : List SavedRule → List SavedRule
explicit_rules foreign = filter (λ rule. not (derived_parent rule)) foreign
