-- ===== src/Runtime/Rules/Unique.antt =====
-- runtime/rules.rs: `validate_unique` finds two rules under one key.
use meta_hybrid_mount.Prelude.{
  refl, ◌≡◌, ◌∙◌, sym, true, false, List, [], ◌∷◌, any, any-false, In, inl, inr, Bool-cases, arith,
}
use meta_hybrid_mount.Errors.{ok, >>=-eq-ok}
use meta_hybrid_mount.Runtime.Rules.{
  SavedRule, same_key, validate_unique, validate_unique_from, validate_snapshot,
}
use meta_hybrid_mount.Runtime.Rules.Checks.{same_key_sym}

-- Rules with one key are one rule.
abbrev pub HasUniqueKeys : List SavedRule → Type 0
HasUniqueKeys rules = (a b : SavedRule) → In a rules → In b rules → same_key a b ≡ true → a ≡ b

validate_unique_from-unseen :
    (seen rules : List SavedRule) (a : SavedRule)
    → validate_unique_from seen rules ≡ ok tt
    → In a rules
    → any (same_key a) seen ≡ false
unfolding validate_unique_from
validate_unique_from-unseen seen [] a h m = absurd m
validate_unique_from-unseen seen (x ∷ rest) a h m = elim (Bool-cases (any (same_key x) seen)) [
  | inl e ↦ cc (rw e at h)
  | inr e ↦ elim m [
    | inl q ↦ rw (← q) e
    | inr n ↦ let more = validate_unique_from-unseen (x ∷ seen) rest a (rw e at h) n in ground arith
  ]
]

validate_unique_from-HasUniqueKeys :
    (seen rules : List SavedRule) → validate_unique_from seen rules ≡ ok tt → HasUniqueKeys rules
unfolding validate_unique_from
validate_unique_from-HasUniqueKeys seen [] h a b m n s = absurd m
validate_unique_from-HasUniqueKeys seen (x ∷ rest) h a b m n s =
    elim (Bool-cases (any (same_key x) seen)) [
      | inl e ↦ cc (rw e at h)
      | inr e ↦
          let tail = rw e at h in
          let apart = λ (c : SavedRule) (i : In c rest).
            any-false (same_key c) (x ∷ seen) x
              (validate_unique_from-unseen (x ∷ seen) rest c tail i) (inl refl) in
          elim m [
            | inl p ↦ elim n [
              | inl q ↦ sym p ∙ q
              | inr j ↦ let t = same_key_sym x b ∙ apart b j in cc (t, rw (← p) at s)
            ]
            | inr i ↦ elim n [
              | inl q ↦ let t = apart a i in cc (t, rw (← q) at s)
              | inr j ↦ validate_unique_from-HasUniqueKeys (x ∷ seen) rest tail a b i j s
            ]
          ]
    ]

pub validate_snapshot-HasUniqueKeys :
    (initial before after : List SavedRule) {foreign : List SavedRule}
    → validate_snapshot initial before after ≡ ok foreign
    → HasUniqueKeys before × HasUniqueKeys after
unfolding validate_snapshot validate_unique
validate_snapshot-HasUniqueKeys initial before after h =
    let (_, old, h1) = >>=-eq-ok (validate_unique before) _ h in
    let (_, new, _) = >>=-eq-ok (validate_unique after) _ h1 in
    (
      validate_unique_from-HasUniqueKeys [] before old,
      validate_unique_from-HasUniqueKeys [] after new,
    )
