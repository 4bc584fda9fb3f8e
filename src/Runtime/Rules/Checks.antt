-- ===== src/Runtime/Rules/Checks.antt =====
-- runtime/rules.rs: what the checks of a readback establish.
use meta_hybrid_mount.Prelude.{
  sym, ◌++◌, any-false_of, ◌≡◌, refl, Bool, true, false, ◌&&◌, not, List, [], ◌∷◌, ==_refl, arith,
  any, In, any-false, In-filter, In-filter_of, Bool-cases, inl, inr,
}
use meta_hybrid_mount.Text.{text_eq_sym, text_eq_refl, text_eq_iff}
use meta_hybrid_mount.Errors.{ok-injective, ok, >>=-eq-ok}
use meta_hybrid_mount.Runtime.Rules.{
  validate_unique, check_foreign_rule, foreign_rules, check_foreign, conflicts, validate_snapshot,
  SavedRule, same_key, semantic_equal, derived_parent, verify_present, remains, verify_gone,
  verify_result, explicit_rules,
}

pub same_key_refl : (r : SavedRule) → same_key r r ≡ true
unfolding same_key
same_key_refl r = rw (==_refl, text_eq_refl)

pub same_key_sym : (a b : SavedRule) → same_key a b ≡ same_key b a
unfolding same_key
same_key_sym a b = ground (arith, text_eq_sym a.virtual_path b.virtual_path)

pub semantic_equal_refl : (r : SavedRule) → semantic_equal r r ≡ true
unfolding semantic_equal
semantic_equal_refl r = rw (same_key_refl, text_eq_refl, ==_refl) refl

-- Every expected rule is there, up to the bits that the kernel derives.
abbrev pub IsPresent : List SavedRule → List SavedRule → Type 0
IsPresent current expected = (r : SavedRule) → In r expected → any (semantic_equal r) current ≡ true

module _ (current : List SavedRule) where
  pub verify_present_sound :
      (expected : List SavedRule) {u : Unit {0}}
      → verify_present current expected ≡ ok u
      → IsPresent current expected
  unfolding verify_present
  verify_present_sound [] h r m = absurd m
  verify_present_sound (rule ∷ rest) h r (inl e) = rw (← e) (ground arith)
  verify_present_sound (rule ∷ rest) h r (inr m) = verify_present_sound rest (ground arith) r m

  pub verify_present_complete :
      (expected : List SavedRule)
      → IsPresent current expected
      → verify_present current expected ≡ ok tt
  unfolding verify_present
  verify_present_complete [] h = refl
  verify_present_complete (rule ∷ rest) h =
      rw (h rule (inl refl)) (verify_present_complete rest (λ r m. h r (inr m)))

module _ (current expected : List SavedRule) where
  pub verify_gone_sound :
      (obsolete : List SavedRule) {u : Unit {0}}
      → verify_gone current expected obsolete ≡ ok u
      → (old : SavedRule) → In old obsolete
      → remains current expected old ≡ false
  unfolding verify_gone
  verify_gone_sound [] h old m = absurd m
  verify_gone_sound (o ∷ rest) h old (inl e) = rw (← e) (ground arith)
  verify_gone_sound (o ∷ rest) h old (inr m) = verify_gone_sound rest (ground arith) old m

  pub verify_gone_complete :
      (obsolete : List SavedRule)
      → ((old : SavedRule) → In old obsolete → remains current expected old ≡ false)
      → verify_gone current expected obsolete ≡ ok tt
  unfolding verify_gone
  verify_gone_complete [] h = refl
  verify_gone_complete (o ∷ rest) h =
      rw (h o (inl refl)) (verify_gone_complete rest (λ r m. h r (inr m)))

-- What a readback must show once `expected` has taken the place of `replaced`, with the rules of
-- `foreign` left alone. Of a rule that is gone, a parent directory that the kernel derives may stay.
pub record Shows (current expected replaced foreign : List SavedRule) : Type 0 where
  pub present : IsPresent current expected
  pub gone :
      (old : SavedRule)
      → In old replaced
      → any (λ rule. same_key rule old) expected ≡ false
      → (a : SavedRule) → In a current
      → same_key a old ≡ true
      → derived_parent a ≡ true
  pub preserved :
      (f : SavedRule)
      → In f foreign
      → derived_parent f ≡ false
      → any (semantic_equal f) current ≡ true

implies_test : (x y : Bool) → (x ≡ true → y ≡ true) → (x && not y) ≡ false
implies_test true y h = rw (h refl) refl
implies_test false y h = refl

module _ (current expected : List SavedRule) where
  gone_of_remains :
      (old : SavedRule)
      → remains current expected old ≡ false
      → any (λ rule. same_key rule old) expected ≡ false
      → (a : SavedRule) → In a current
      → same_key a old ≡ true
      → derived_parent a ≡ true
  unfolding remains
  gone_of_remains old h e a m k =
      let none_left =
        any-false (λ rule. same_key rule old && not (derived_parent rule)) current a (rw e at h)
          m in
      ground arith

  remains_of_gone :
      (old : SavedRule)
      → (any (λ rule. same_key rule old) expected ≡ false
          → (a : SavedRule) → In a current
          → same_key a old ≡ true
          → derived_parent a ≡ true)
      → remains current expected old ≡ false
  unfolding remains
  remains_of_gone old h = elim (Bool-cases (any (λ rule. same_key rule old) expected)) [
    | inl e ↦ rw e refl
    | inr e ↦ rw e (
        any-false_of (λ rule. same_key rule old && not (derived_parent rule)) current
          (λ a m. implies_test (same_key a old) (derived_parent a) (h e a m)))
  ]

  pub verify_result_sound :
      (replaced foreign : List SavedRule) {u v : Unit {0}}
      → verify_result current expected replaced ≡ ok u
      → verify_present current (explicit_rules foreign) ≡ ok v
      → Shows current expected replaced foreign
  unfolding verify_result explicit_rules
  verify_result_sound replaced foreign h g =
      let (_, p, q) = >>=-eq-ok (verify_present current expected) _ h in
      record {
        present = verify_present_sound current expected p;
        gone = λ old m. gone_of_remains old (verify_gone_sound current expected replaced q old m);
        preserved = λ f m d.
            verify_present_sound current (explicit_rules foreign) g f
              (In-filter_of (λ rule. not (derived_parent rule)) foreign f m (rw d refl));
      }

  pub verify_result_complete :
      (replaced foreign : List SavedRule)
      → Shows current expected replaced foreign
      → (verify_result current expected replaced ≡ ok tt)
        × (verify_present current (explicit_rules foreign) ≡ ok tt)
  unfolding verify_result explicit_rules
  verify_result_complete replaced foreign s = (
    rw (verify_present_complete current expected s.present) (
        verify_gone_complete current expected replaced
          (λ old m. remains_of_gone old (s.gone old m))),
    verify_present_complete current (explicit_rules foreign) (λ f m.
        let (here, explicit) = In-filter (λ rule. not (derived_parent rule)) foreign f m in
        s.preserved f here (ground arith)),
  )

pub same_key_trans :
    (a b c : SavedRule) → same_key a b ≡ true → same_key b c ≡ true → same_key a c ≡ true
unfolding same_key
same_key_trans a b c h k = ground (
  arith,
  text_eq_iff a.virtual_path b.virtual_path,
  text_eq_iff b.virtual_path c.virtual_path,
  text_eq_iff a.virtual_path c.virtual_path,
)

check_foreign_rule_sound :
    (f : SavedRule) (owned : List SavedRule) {u : Unit {0}}
    → check_foreign_rule f owned ≡ ok u
    → (o : SavedRule) → In o owned
    → conflicts f o ≡ false
unfolding check_foreign_rule
check_foreign_rule_sound f [] h o m = absurd m
check_foreign_rule_sound f (x ∷ rest) h o (inl e) = rw (← e) (ground arith)
check_foreign_rule_sound f (x ∷ rest) h o (inr m) =
    check_foreign_rule_sound f rest (ground arith) o m

check_foreign_sound :
    (foreign owned : List SavedRule) {u : Unit {0}}
    → check_foreign foreign owned ≡ ok u
    → (f o : SavedRule) → In f foreign
    → In o owned
    → conflicts f o ≡ false
unfolding check_foreign
check_foreign_sound [] owned h f o m n = absurd m
check_foreign_sound (x ∷ rest) owned h f o m n =
    let (_, p, q) = >>=-eq-ok (check_foreign_rule x owned) _ h in
    elim m [
      | inl e ↦ check_foreign_rule_sound f owned (rw e at p) o n
      | inr t ↦ check_foreign_sound rest owned q f o t n
    ]

-- What `validate_snapshot` establishes of the snapshot that it accepts.
pub record IsValidated (initial before after foreign : List SavedRule) : Type 0 where
  pub owned_present : IsPresent initial before
  pub is_foreign : foreign ≡ foreign_rules initial before
  pub apart : (f o : SavedRule) → In f foreign → In o (before ++ after) → conflicts f o ≡ false

pub validate_snapshot-IsValidated :
    (initial before after : List SavedRule) {foreign : List SavedRule}
    → validate_snapshot initial before after ≡ ok foreign
    → IsValidated initial before after foreign
unfolding validate_snapshot
validate_snapshot-IsValidated initial before after {foreign} h =
    let (_, _, h1) = >>=-eq-ok (validate_unique before) _ h in
    let (_, _, h2) = >>=-eq-ok (validate_unique after) _ h1 in
    let (_, present, h3) = >>=-eq-ok (verify_present initial before) _ h2 in
    let (_, checked, h4) =
      >>=-eq-ok (check_foreign (foreign_rules initial before) (before ++ after)) _ h3 in
    let same : foreign_rules initial before ≡ foreign = ok-injective h4 in
    record {
      owned_present = verify_present_sound initial before present;
      is_foreign = sym same;
      apart = check_foreign_sound foreign (before ++ after) (rw same at checked);
    }

-- An explicit foreign rule has the key of no owned rule.
pub explicit_apart :
    (f o : SavedRule) → derived_parent f ≡ false → conflicts f o ≡ false → same_key f o ≡ false
unfolding conflicts same_key
explicit_apart f o d h = ground arith
