-- ===== src/Plan/Modes/Longest.antt =====
-- plan/mod.rs: the longest path rule that covers a path decides.
use mathlib.Core.Option.{some-injective}
use meta_hybrid_mount.Prelude.{
  In-map, In-map_from, ◌≡◌, ◌≤◌, inl, inr, refl, subst, Bool, true, false, some, Option-cases, List,
  [], ◌∷◌, length, find, find-some, find-none, In, arith, Bool-cases,
}
use meta_hybrid_mount.Prelude.Sorting.{
  sort_by, In-sort_by, sort_by-In, IsSortedBy, sort_by-IsSortedBy,
}
use meta_hybrid_mount.Text.{Text}
use meta_hybrid_mount.Config.{overlay, magic, ignore, Mode, vfs, mode_eq, Config}
use meta_hybrid_mount.Plan.Modes.{
  is_same_or_below, longer_first, degrade, rule_of_module, default_of, paths_of, normalized,
  degraded, new_view, resolve_mode,
}

-- The first of two path rules is not shorter.
abbrev IsLonger : Text × Mode → Text × Mode → Type 0
IsLonger x y = length y.0 ≤ length x.0

rules_sorted :
    (rules : List (Text × Mode)) → IsSortedBy longer_first IsLonger (sort_by longer_first rules)
rules_sorted rules =
    sort_by-IsSortedBy longer_first IsLonger (λ x y h. ground arith) (λ x y h. ground arith)
      (λ x y z p q. omega arith) rules

degraded-IsSorted :
    (available : Bool) (rules : List (Text × Mode))
    → IsSortedBy longer_first IsLonger rules
    → IsSortedBy longer_first IsLonger (degraded available rules)
degraded-IsSorted available [] s = tt
degraded-IsSorted available (r ∷ rules) (h, s) = (
  λ y m.
      let (x, q, e) =
        In-map_from (λ (rule : Text × Mode). (rule.0, degrade available rule.1)) rules y m in
      subst (λ (z : Text × Mode). length z.0 ≤ length r.0) e (h x q),
  degraded-IsSorted available rules s,
)

-- What a search in sorted rules finds is not shorter than any other that would do.
find_longest :
    (p : Text × Mode → Bool) (rules : List (Text × Mode)) (found : Text × Mode)
    → IsSortedBy longer_first IsLonger rules
    → find p rules ≡ some found
    → (other : Text × Mode) → In other rules
    → p other ≡ true
    → length other.0 ≤ length found.0
find_longest p [] found s h other m t = absurd m
find_longest p (r ∷ rules) found (k, s) h other m t = elim (Bool-cases (p r)) [
  | inr e ↦ elim m [
    | inl q ↦ cc (rw q at e, t)
    | inr q ↦ find_longest p rules found s (rw e at h) other q t
  ]
  | inl e ↦
      let first : r ≡ found = some-injective r found (rw e at h) in
      subst (λ (f : Text × Mode). length other.0 ≤ length f.0) first
        (elim m [
          | inl q ↦ subst (λ (o : Text × Mode). length o.0 ≤ length r.0) q (omega arith)
          | inr q ↦ k other q
        ])
]

-- How the backend of a path is chosen among some rules.
pub data Chosen (rules : List (Text × Mode)) (default : Mode) (relative : Text)
    : Mode → Type 0 where
  by_rule :
      (rule : Text × Mode)
      → In rule rules
      → is_same_or_below relative rule.0 ≡ true
      → ((other : Text × Mode)
          → In other rules
          → is_same_or_below relative other.0 ≡ true
          → length other.0 ≤ length rule.0)
      → Chosen rules default relative rule.1
  by_default :
      ((other : Text × Mode) → In other rules → is_same_or_below relative other.0 ≡ false)
      → Chosen rules default relative default

-- The rules of a module and its default, as the view takes them.
abbrev pub rules_for : Text → Config → Bool → List (Text × Mode)
rules_for module_id config available =
    degraded available (normalized (paths_of (rule_of_module module_id config.rules)))

abbrev pub default_for : Text → Config → Bool → Mode
default_for module_id config available =
    degrade available (default_of config.default_mode (rule_of_module module_id config.rules))

module _ (available : Bool) (rules : List (Text × Mode)) where
  sorted_rules-In :
      (r : Text × Mode)
      → In r (degraded available (sort_by longer_first rules))
      → In r (degraded available rules)
  sorted_rules-In r m =
      let change : Text × Mode → Text × Mode = λ rule. (rule.0, degrade available rule.1) in
      let (x, q, e) = In-map_from change (sort_by longer_first rules) r m in
      subst (λ (z : Text × Mode). In z (degraded available rules)) e
        (In-map change rules x (In-sort_by longer_first rules x q))

  In-sorted_rules :
      (r : Text × Mode)
      → In r (degraded available rules)
      → In r (degraded available (sort_by longer_first rules))
  In-sorted_rules r m =
      let change : Text × Mode → Text × Mode = λ rule. (rule.0, degrade available rule.1) in
      let (x, q, e) = In-map_from change rules r m in
      subst (λ (z : Text × Mode). In z (degraded available (sort_by longer_first rules))) e
        (In-map change (sort_by longer_first rules) x (sort_by-In longer_first rules x q))

-- The backend of a path is that of a configured rule that covers it, where no longer rule covers it;
-- if none covers it, it is the module's default, or else the global one.
pub resolve_mode-Chosen :
    (module_id : Text) (config : Config) (available : Bool) (relative : Text)
    → Chosen
        (rules_for module_id config available)
        (default_for module_id config available)
        relative
        (resolve_mode (new_view module_id config available) relative)
unfolding new_view resolve_mode
resolve_mode-Chosen module_id config available relative =
    let rules = normalized (paths_of (rule_of_module module_id config.rules)) in
    let sorted = degraded available (sort_by longer_first rules) in
    let covers : Text × Mode → Bool = λ rule. is_same_or_below relative rule.0 in
    elim (Option-cases (find covers sorted)) [
      | inl e ↦ rw e (
          by_default
            (λ other m. find-none covers sorted other e (In-sorted_rules available rules other m)))
      | inr (rule, e) ↦
          let (m, t) = find-some covers sorted rule e in
          let s = degraded-IsSorted available (sort_by longer_first rules) (rules_sorted rules) in
          rw e (
            by_rule rule (sorted_rules-In available rules rule m) t (λ other q c.
              find_longest covers sorted rule s e other (In-sorted_rules available rules other q)
                c))
    ]

degrade-not_vfs : (mode : Mode) → mode_eq (degrade false mode) vfs ≡ false
unfolding degrade
degrade-not_vfs overlay = refl
degrade-not_vfs magic = refl
degrade-not_vfs vfs = refl
degrade-not_vfs ignore = refl

-- Without the kernel module no path is given to the kernel VFS.
pub resolve_mode-not_vfs :
    (module_id : Text) (config : Config) (relative : Text)
    → mode_eq (resolve_mode (new_view module_id config false) relative) vfs ≡ false
unfolding new_view resolve_mode
resolve_mode-not_vfs module_id config relative =
    let rules = normalized (paths_of (rule_of_module module_id config.rules)) in
    let change : Text × Mode → Text × Mode = λ rule. (rule.0, degrade false rule.1) in
    let sorted = degraded false (sort_by longer_first rules) in
    let covers : Text × Mode → Bool = λ rule. is_same_or_below relative rule.0 in
    elim (Option-cases (find covers sorted)) [
      | inl e ↦
          rw e (
            degrade-not_vfs
              (default_of config.default_mode (rule_of_module module_id config.rules)))
      | inr (rule, e) ↦
          let (m, _) = find-some covers sorted rule e in
          let (x, _, q) = In-map_from change (sort_by longer_first rules) rule m in
          rw e (subst (λ (r : Text × Mode). mode_eq r.1 vfs ≡ false) q (degrade-not_vfs x.1))
    ]
