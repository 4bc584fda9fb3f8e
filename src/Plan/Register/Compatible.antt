-- ===== src/Plan/Register/Compatible.antt =====
-- plan/mod.rs: what is assigned to one target stays compatible.
use meta_hybrid_mount.Prelude.{
  ap, ◌∙◌, subst, sym, ◌≡◌, inl, inr, refl, Bool, true, false, List, [], ◌∷◌, ◌++◌, all, In,
  In-append, Bool-cases, arith,
}
use meta_hybrid_mount.Text.{Text, text_eq, text_eq_refl, text_eq→eq}
use meta_hybrid_mount.Config.{Mode}
use meta_hybrid_mount.Errors.{Result-cases, ok, is_ok, >>=-eq-ok, ok-injective}
use meta_hybrid_mount.MountTree.{NodeFileType}
use meta_hybrid_mount.Plan.Register.{
  TargetAssignment, Assignments, assigned, assign, is_compatible, check_assignments, assignment_of,
  register,
}

check_assignments-ok :
    (target : Text) (new : TargetAssignment) (existing : List TargetAssignment)
    → is_ok (check_assignments target new existing) ≡ all (λ old. is_compatible old new) existing
unfolding check_assignments
check_assignments-ok target new [] = refl
check_assignments-ok target new (old ∷ rest) = elim (Bool-cases (is_compatible old new)) [
  | inl e ↦ rw e (check_assignments-ok target new rest)
  | inr e ↦ rw e refl
]

assigned-assign :
    (target : Text) (value : List TargetAssignment) (assignments : Assignments)
    → assigned target (assign target value assignments) ≡ value
unfolding assigned assign
assigned-assign target value [] = rw (text_eq_refl target) refl
assigned-assign target value ((key, old) ∷ rest) = elim (Bool-cases (text_eq key target)) [
  | inl e ↦ rw (e, assigned) (rw (e, assigned) refl)
  | inr e ↦ rw (e, assigned) (rw (e, assigned) (assigned-assign target value rest))
]

assigned-assign_other :
    (target other : Text) (value : List TargetAssignment) (assignments : Assignments)
    → text_eq target other ≡ false
    → assigned other (assign target value assignments) ≡ assigned other assignments
unfolding assigned assign
assigned-assign_other target other value [] d = rw d refl
assigned-assign_other target other value ((key, old) ∷ rest) d =
    elim (Bool-cases (text_eq key target)) [
      | inl e ↦
          let apart : text_eq key other ≡ false = rw (text_eq→eq key target e) d in
          rw (e, assigned) (rw (apart, assigned) refl)
      | inr e ↦ elim (Bool-cases (text_eq key other)) [
        | inl g ↦ rw (e, assigned) (rw (g, assigned) refl)
        | inr g ↦
            rw (e, assigned) (rw (g, assigned) (assigned-assign_other target other value rest d))
      ]
    ]

-- Each assignment of a list goes with those before it.
abbrev pub ArePairwise : List TargetAssignment → Type 0
ArePairwise [] = Unit
ArePairwise (old ∷ rest) =
    ((new : TargetAssignment) → In new rest → is_compatible old new ≡ true) × ArePairwise rest

ArePairwise-append :
    (olds : List TargetAssignment) (new : TargetAssignment)
    → ArePairwise olds
    → all (λ old. is_compatible old new) olds ≡ true
    → ArePairwise (olds ++ new ∷ [])
ArePairwise-append [] new p a = ((λ x m. absurd m), tt)
ArePairwise-append (old ∷ rest) new (h, p) a = (
  λ x m. elim (In-append rest (new ∷ []) x m) [
    | inl q ↦ h x q
    | inr (inl q) ↦ subst (λ (y : TargetAssignment). is_compatible old y ≡ true) q (ground arith)
    | inr (inr q) ↦ absurd q
  ],
  ArePairwise-append rest new p (ground arith),
)

-- Two sources share a target when they have one backend, or both are plain directories.
pub data Registered (target : Text) (new : TargetAssignment) (before after : Assignments)
    : Type 0 where
  registered :
      assigned target after ≡ assigned target before ++ new ∷ []
      → ArePairwise (assigned target after)
      → ((other : Text)
          → text_eq target other ≡ false
          → assigned other after ≡ assigned other before)
      → Registered target new before after

-- If the assignments of a target are compatible, a registration that succeeds adds its own to them,
-- they stay compatible, and no other target is touched.
pub register-Registered :
    (target : Text) (mode : Mode) (module_id relative : Text) (file_type : NodeFileType)
    (replace : Bool) (before : Assignments) {after : Assignments}
    → ArePairwise (assigned target before)
    → register target mode module_id relative file_type replace before ≡ ok after
    → Registered target (assignment_of mode module_id relative file_type replace) before after
unfolding register
register-Registered target mode module_id relative file_type replace before p h =
    let new = assignment_of mode module_id relative file_type replace in
    let existing = assigned target before in
    let (_, checked, h1) = >>=-eq-ok (check_assignments target new existing) _ h in
    let compatible : all (λ old. is_compatible old new) existing ≡ true =
      sym (check_assignments-ok target new existing) ∙ ap is_ok checked in
    let here = assigned-assign target (existing ++ new ∷ []) before in
    subst (Registered target new before) (ok-injective h1) (
      registered here (subst ArePairwise (sym here) (ArePairwise-append existing new p compatible))
        (λ other d. assigned-assign_other target other (existing ++ new ∷ []) before d))

-- A registration succeeds exactly when each assignment of the target goes with the new one: it has
-- the same backend, or both are directories and neither replaces.
pub register-is_ok :
    (target : Text) (mode : Mode) (module_id relative : Text) (file_type : NodeFileType)
    (replace : Bool) (before : Assignments)
    → is_ok (register target mode module_id relative file_type replace before)
      ≡ all
          (λ old. is_compatible old (assignment_of mode module_id relative file_type replace))
          (assigned target before)
unfolding register
register-is_ok target mode module_id relative file_type replace before =
    let new = assignment_of mode module_id relative file_type replace in
    let existing = assigned target before in
    elim (Result-cases (check_assignments target new existing)) [
      | inl (_, e) ↦ rw e (ap is_ok (sym e) ∙ check_assignments-ok target new existing)
      | inr (x, e) ↦ rw e (ap is_ok (sym e) ∙ check_assignments-ok target new existing)
    ]
