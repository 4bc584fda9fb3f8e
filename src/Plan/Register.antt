-- ===== src/Plan/Register.antt =====
-- plan/mod.rs: `PlanBuilder::register`, which refuses two backends on one target. A failure ends the
-- planning, so what it leaves behind is not kept.
pub mod Compatible
use meta_hybrid_mount.Prelude.{
  Bool, true, false, ◌&&◌, not, Option, none, some, List, [], ◌∷◌, ◌++◌, if◌then◌else◌,
}
use meta_hybrid_mount.Text.{Text, bytes, text_eq}
use meta_hybrid_mount.Config.{Mode, mode_eq}
use meta_hybrid_mount.Errors.{Error, Result, ok, err, ◌>>=◌, ◌>>◌, plan_conflict}
use meta_hybrid_mount.MountTree.{NodeFileType, is_directory}

pub record TargetAssignment : Type 0 where
  pub mode : Mode
  pub source : Text
  pub file_type : NodeFileType
  pub replace : Bool

abbrev pub Assignments : Type 0
Assignments = List (Text × List TargetAssignment)

-- What is assigned to a target, nothing if it is not there.
unfoldable pub assigned : Text → Assignments → List TargetAssignment
assigned target [] = []
assigned target ((key, existing) ∷ rest) =
    let behind = assigned target rest in if text_eq key target then existing else behind

unfoldable pub assign : Text → List TargetAssignment → Assignments → Assignments
assign target value [] = (target, value) ∷ []
assign target value ((key, existing) ∷ rest) =
    let behind = assign target value rest in
    if text_eq key target then (key, value) ∷ rest else (key, existing) ∷ behind

unfoldable pub shareable_directories : TargetAssignment → TargetAssignment → Bool
shareable_directories existing new =
    is_directory existing.file_type
    && (is_directory new.file_type && (not existing.replace && not new.replace))

-- Whether two assignments may share a target.
abbrev pub is_compatible : TargetAssignment → TargetAssignment → Bool
is_compatible existing new =
    not (not (mode_eq existing.mode new.mode) && not (shareable_directories existing new))

-- The loop over what is assigned already.
unfoldable pub check_assignments :
    Text → TargetAssignment → List TargetAssignment → Result (Unit {0})
check_assignments target new [] = ok tt
check_assignments target new (existing ∷ rest) =
    if is_compatible existing new
    then check_assignments target new rest
    else err (plan_conflict target existing.mode existing.source new.mode new.source)

abbrev pub assignment_of : Mode → Text → Text → NodeFileType → Bool → TargetAssignment
assignment_of mode module_id relative file_type replace = record {
  mode = mode;
  source = module_id ++ (bytes ":" ++ (relative ++ (if replace then bytes " (.replace)" else [])));
  file_type = file_type;
  replace = replace;
}

unfoldable pub register :
    Text → Mode → Text → Text → NodeFileType → Bool → Assignments → Result Assignments
register target mode module_id relative file_type replace assignments = do
  let new = assignment_of mode module_id relative file_type replace
  let existing = assigned target assignments
  check_assignments target new existing
  ok (assign target (existing ++ new ∷ []) assignments)
