-- ===== src/Plan/Build/Joins.antt =====
-- plan/mod.rs: what a module that was processed adds to the lists of the backends Magic and VFS.

use meta_hybrid_mount.Plan.Build.Keeps.{add_partial_layers-Keeps, add_whole_overlay_layers-Keeps}
use meta_hybrid_mount.Plan.Build.Decisions.{decided_eq, decisions_of}
use meta_hybrid_mount.Plan.Modes.{ModuleRulesView}
use meta_hybrid_mount.Plan.Layers.{
  add_partial_layers, collected, is_whole_overlay, process_module, add_layers,
}
use meta_hybrid_mount.Prelude.Sets.{set_insert}
use meta_hybrid_mount.Prelude.{
  all-In, any-false_of, ==_iff, ◌==◌, any, ap, if◌then◌else◌, ◌≢◌, ◌≡◌, refl, ◌∙◌, inl, inr, Bool,
  true, false, List, [], ◌∷◌, all, Bool-cases, filter, length, arith, ◌≤◌,
}
use meta_hybrid_mount.Text.{text_lt, Text}
use meta_hybrid_mount.Config.{Mode, overlay, magic, vfs, ignore, mode_eq}
use meta_hybrid_mount.Errors.{ok, >>=-eq-ok, ok-injective}
use meta_hybrid_mount.Partitions.{PartitionLayout, map_target}
use meta_hybrid_mount.Scanner.{ModuleRecord}
use meta_hybrid_mount.Plan.Register.{register}
use meta_hybrid_mount.Plan.Builder.{PlanBuilder, add_overlay_layer, add_overlay_file}
use meta_hybrid_mount.Plan.Entries.{protected_targets, block_entries, EntryDecision}
use meta_hybrid_mount.Plan.Process.{
  decide_all, collect_vfs, has_mode, collect_magic, place, place_all,
}

-- The module lists of the two backends are untouched.
SameIds : PlanBuilder → PlanBuilder → Type 0
SameIds a b = (b.magic_module_ids ≡ a.magic_module_ids) × (b.vfs_module_ids ≡ a.vfs_module_ids)

add_layer-SameIds :
    (a : PlanBuilder) (partition target id source : Text) (b : PlanBuilder)
    → SameIds a b
    → SameIds a (add_overlay_layer partition target id source b)
unfolding SameIds add_overlay_layer
add_layer-SameIds a partition target id source b h = h

add_file-SameIds :
    (a : PlanBuilder) (target id source : Text) (b : PlanBuilder)
    → SameIds a b
    → SameIds a (add_overlay_file target id source b)
unfolding SameIds add_overlay_file
add_file-SameIds a target id source b h = h

place-SameIds :
    (m : ModuleRecord) (layout : PartitionLayout) (d : EntryDecision) (b b' : PlanBuilder)
    → place m layout d b ≡ ok b'
    → SameIds b b'
unfolding SameIds place
place-SameIds m layout d b b' h =
    let (mapped, e, k) = >>=-eq-ok (map_target layout d.entry.relative) _ h in
    elim (Bool-cases (mode_eq d.mode ignore)) [
      | inl g ↦ rw (← ok-injective (rw g at k)) (refl, refl)
      | inr g ↦
          let (assignments, e2, k2) =
            >>=-eq-ok
              (register mapped.1 d.mode m.id d.entry.relative d.entry.file_type d.entry.replace
                b.assignments)
              _ (rw g at k) in
          rw (← ok-injective k2) (refl, refl)
    ]

place_all-SameIds :
    (m : ModuleRecord) (layout : PartitionLayout) (decisions : List EntryDecision)
    (b b' : PlanBuilder)
    → place_all m layout decisions b ≡ ok b'
    → SameIds b b'
unfolding SameIds place_all
place_all-SameIds m layout [] b b' h = rw (← ok-injective h) (refl, refl)
place_all-SameIds m layout (d ∷ rest) b b' h =
    let (b1, e, k) = >>=-eq-ok (place m layout d b) _ h in
    let first = place-SameIds m layout d b b1 e in
    let behind = place_all-SameIds m layout rest b1 b' k in (behind.0 ∙ first.0, behind.1 ∙ first.1)

length-filter : {A : Type 0} (p : A → Bool) (xs : List A) → length (filter p xs) ≤ length xs
length-filter p [] = omega arith
length-filter p (x ∷ xs) = elim (Bool-cases (p x)) [
  | inl h ↦ rw h (omega (arith, length-filter p xs))
  | inr h ↦ rw h (omega (arith, length-filter p xs))
]

all-length :
    {A : Type 0} (p : A → Bool) (xs : List A) → length (filter p xs) ≡ length xs → all p xs ≡ true
all-length p [] h = refl
all-length p (x ∷ xs) h = elim (Bool-cases (p x)) [
  | inl e ↦ rw e (all-length p xs (let k = rw e at h in omega arith))
  | inr e ↦ let k = rw e at h in absurd (omega (arith, length-filter p xs))
]

overlay_excludes :
    (mode other : Mode) → mode_eq mode overlay ≡ true → other ≢ overlay → mode_eq mode other ≡ false
overlay_excludes overlay overlay h n = absurd (n refl)
overlay_excludes overlay magic h n = refl
overlay_excludes overlay vfs h n = refl
overlay_excludes overlay ignore h n = refl
overlay_excludes magic other h n = cc
overlay_excludes vfs other h n = cc
overlay_excludes ignore other h n = cc

is_whole_overlay-none :
    (rules : ModuleRulesView) (decisions : List EntryDecision) (other : Mode)
    → is_whole_overlay rules decisions ≡ true
    → other ≢ overlay
    → any (has_mode other) decisions ≡ false
is_whole_overlay-none rules decisions other h n =
    let every = all-length (has_mode overlay) decisions ((==_iff _ _).0 (ground arith)) in
    any-false_of (has_mode other) decisions
      (λ d i. overlay_excludes d.mode other (all-In (has_mode overlay) decisions d every i) n)

-- A module joins a list when one of its entries has the backend.
abbrev pub joined : Mode → Text → List EntryDecision → List Text → List Text
joined mode id decisions ids =
    if any (has_mode mode) decisions then set_insert text_lt id ids else ids

abbrev pub Joins : ModuleRecord → List EntryDecision → PlanBuilder → PlanBuilder → Type 0
Joins m decisions b b' =
    (b'.magic_module_ids ≡ joined magic m.id decisions b.magic_module_ids)
    × (b'.vfs_module_ids ≡ joined vfs m.id decisions b.vfs_module_ids)

collected-Joins :
    (m : ModuleRecord) (decisions : List EntryDecision) (b : PlanBuilder)
    → Joins m decisions b (collected m decisions b)
unfolding collect_magic collect_vfs
collected-Joins m decisions b = elim (Bool-cases (any (has_mode magic) decisions)) [
  | inl e ↦ elim (Bool-cases (any (has_mode vfs) decisions)) [
    | inl g ↦ rw (e, g) (refl, refl)
    | inr g ↦ rw (e, g) (refl, refl)
  ]
  | inr e ↦ elim (Bool-cases (any (has_mode vfs) decisions)) [
    | inl g ↦ rw (e, g) (refl, refl)
    | inr g ↦ rw (e, g) (refl, refl)
  ]
]

whole-Joins :
    (m : ModuleRecord) (rules : ModuleRulesView) (decisions : List EntryDecision)
    (b b' : PlanBuilder)
    → is_whole_overlay rules decisions ≡ true
    → SameIds b b'
    → Joins m decisions b b'
unfolding SameIds
whole-Joins m rules decisions b b' h same =
    rw
      (
        is_whole_overlay-none rules decisions magic h (λ e. cc),
        is_whole_overlay-none rules decisions vfs h (λ e. cc),
      )
      same

rebased-Joins :
    (m : ModuleRecord) (decisions : List EntryDecision) (b b1 b2 : PlanBuilder)
    → SameIds b b1
    → Joins m decisions b1 b2
    → Joins m decisions b b2
unfolding SameIds
rebased-Joins m decisions b b1 b2 (p, q) (r, s) =
    (r ∙ ap (joined magic m.id decisions) p, s ∙ ap (joined vfs m.id decisions) q)

add_layers-Joins :
    (m : ModuleRecord) (rules : ModuleRulesView) (layout : PartitionLayout)
    (decisions : List EntryDecision) (b b' : PlanBuilder)
    → add_layers m rules layout decisions b ≡ ok b'
    → Joins m decisions b b'
unfolding add_layers SameIds
add_layers-Joins m rules layout decisions b b' h =
    elim (Bool-cases (length (filter (has_mode overlay) decisions) == 0)) [
      | inl e ↦ rw (← ok-injective (rw e at h)) (collected-Joins m decisions b)
      | inr e ↦ elim (Bool-cases (is_whole_overlay rules decisions)) [
        | inl g ↦ whole-Joins m rules decisions b b' g (
            add_whole_overlay_layers-Keeps (SameIds b) (add_layer-SameIds b) (add_file-SameIds b) m
              layout decisions b b' (rw (e, g) at h) (refl, refl))
        | inr g ↦
            let (b1, k, l) =
              >>=-eq-ok (add_partial_layers m decisions layout b) _ (rw (e, g) at h) in
            let same =
              add_partial_layers-Keeps (SameIds b) (add_layer-SameIds b) (add_file-SameIds b) m
                layout decisions b b1 k (refl, refl) in
            rw (← ok-injective l) (
              rebased-Joins m decisions b b1 (collected m decisions b1) same
                (collected-Joins m decisions b1))
      ]
    ]

pub process_module-Joins :
    (m : ModuleRecord) (rules : ModuleRulesView) (layout : PartitionLayout) (b b' : PlanBuilder)
    → process_module m rules layout b ≡ ok b'
    → Joins m (decisions_of m rules layout) b b'
unfolding process_module SameIds
process_module-Joins m rules layout b b' h =
    let blocked =
      (block_entries (protected_targets layout) m rules layout m.entries
        ([], b.operation_errors)) in
    let decided = decide_all blocked.0 m rules layout m.entries (b.partition_errors, []) in
    let b0 = record b { operation_errors = blocked.1; partition_errors = decided.0 } in
    let (b1, e, k) = >>=-eq-ok (place_all m layout decided.1 b0) _ h in
    rw (← decided_eq m rules layout b) (
      rebased-Joins m decided.1 b b1 b' (place_all-SameIds m layout decided.1 b0 b1 e)
        (add_layers-Joins m rules layout decided.1 b1 b' k))
