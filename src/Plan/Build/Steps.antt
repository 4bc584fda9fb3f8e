-- ===== src/Plan/Build/Steps.antt =====
-- plan/mod.rs: what every step of the planning keeps, a plan has.
use meta_hybrid_mount.Prelude.{
  any, ◌≡◌, refl, List, [], ◌∷◌, Bool-cases, inl, inr, filter, length, ◌==◌,
}
use meta_hybrid_mount.Text.{Text}
use meta_hybrid_mount.Config.{overlay, magic, vfs, ignore, mode_eq}
use meta_hybrid_mount.Errors.{ok, >>=-eq-ok, ok-injective}
use meta_hybrid_mount.Partitions.{PartitionLayout, map_target}
use meta_hybrid_mount.Scanner.{ModuleRecord}
use meta_hybrid_mount.Plan.Register.{register}
use meta_hybrid_mount.Plan.Modes.{ModuleRulesView, new_view}
use meta_hybrid_mount.Plan.Builder.{PlanBuilder, add_overlay_layer, add_overlay_file}
use meta_hybrid_mount.Plan.Entries.{EntryDecision}
use meta_hybrid_mount.Plan.Process.{place, place_all, has_mode, collect_magic, collect_vfs}
use meta_hybrid_mount.Plan.Layers.{
  collected, is_whole_overlay, add_layers, process_module, add_partial_layers,
}
use meta_hybrid_mount.Plan.Build.{any, PlanInput, is_skipped, plan_modules}
use meta_hybrid_mount.Plan.Build.Keeps.{add_whole_overlay_layers-Keeps, add_partial_layers-Keeps}

-- A predicate on the builder that every step of the planning keeps.
module _ (P : PlanBuilder → Type 0)
    (layer : (partition target id source : Text) (b : PlanBuilder)
      → P b
      → P (add_overlay_layer partition target id source b))
    (file : (target id source : Text) (b : PlanBuilder)
      → P b
      → P (add_overlay_file target id source b))
    (other : (a b : PlanBuilder) → b.overlay_by_target ≡ a.overlay_by_target → P a → P b) where
  place-Keeps :
      (m : ModuleRecord) (layout : PartitionLayout) (d : EntryDecision) (b b' : PlanBuilder)
      → place m layout d b ≡ ok b'
      → P b
      → P b'
  unfolding place
  place-Keeps m layout d b b' h p =
      let (mapped, e, k) = >>=-eq-ok (map_target layout d.entry.relative) _ h in
      elim (Bool-cases (mode_eq d.mode ignore)) [
        | inl g ↦ rw (← ok-injective (rw g at k)) (other b _ refl p)
        | inr g ↦
            let (assignments, e2, k2) =
              >>=-eq-ok
                (register mapped.1 d.mode m.id d.entry.relative d.entry.file_type d.entry.replace
                  b.assignments)
                _ (rw g at k) in
            rw (← ok-injective k2) (other b _ refl p)
      ]

  place_all-Keeps :
      (m : ModuleRecord) (layout : PartitionLayout) (decisions : List EntryDecision)
      (b b' : PlanBuilder)
      → place_all m layout decisions b ≡ ok b'
      → P b
      → P b'
  unfolding place_all
  place_all-Keeps m layout [] b b' h p = rw (← ok-injective h) p
  place_all-Keeps m layout (d ∷ rest) b b' h p =
      let (b1, e, k) = >>=-eq-ok (place m layout d b) _ h in
      place_all-Keeps m layout rest b1 b' k (place-Keeps m layout d b b1 e p)

  collected-Keeps :
      (m : ModuleRecord) (decisions : List EntryDecision) (b : PlanBuilder)
      → P b
      → P (collected m decisions b)
  unfolding collect_magic collect_vfs
  collected-Keeps m decisions b p = elim (Bool-cases (any (has_mode magic) decisions)) [
    | inl e ↦ elim (Bool-cases (any (has_mode vfs) decisions)) [
      | inl g ↦ rw (e, g) (other b _ refl p)
      | inr g ↦ rw (e, g) (other b _ refl p)
    ]
    | inr e ↦ elim (Bool-cases (any (has_mode vfs) decisions)) [
      | inl g ↦ rw (e, g) (other b _ refl p)
      | inr g ↦ rw (e, g) p
    ]
  ]

  add_layers-Keeps :
      (m : ModuleRecord) (rules : ModuleRulesView) (layout : PartitionLayout)
      (decisions : List EntryDecision) (b b' : PlanBuilder)
      → add_layers m rules layout decisions b ≡ ok b'
      → P b
      → P b'
  unfolding add_layers
  add_layers-Keeps m rules layout decisions b b' h p =
      elim (Bool-cases (length (filter (has_mode overlay) decisions) == 0)) [
        | inl e ↦ rw (← ok-injective (rw e at h)) (collected-Keeps m decisions b p)
        | inr e ↦ elim (Bool-cases (is_whole_overlay rules decisions)) [
          | inl g ↦
              add_whole_overlay_layers-Keeps P layer file m layout decisions b b' (rw (e, g) at h) p
          | inr g ↦
              let (b1, k, l) =
                >>=-eq-ok (add_partial_layers m decisions layout b) _ (rw (e, g) at h) in
              rw (← ok-injective l) (
                collected-Keeps m decisions b1
                  (add_partial_layers-Keeps P layer file m layout decisions b b1 k p))
        ]
      ]

  pub plan_modules-Keeps :
      (input : PlanInput) (modules : List ModuleRecord) (b b' : PlanBuilder)
      → plan_modules input modules b ≡ ok b'
      → P b
      → P b'
  unfolding plan_modules process_module
  plan_modules-Keeps input [] b b' h p = rw (← ok-injective h) p
  plan_modules-Keeps input (m ∷ rest) b b' h p = elim (Bool-cases (is_skipped input.config m)) [
    | inl e ↦ plan_modules-Keeps input rest b b' (rw e at h) p
    | inr e ↦
        let rules = new_view m.id input.config input.vfs_available in
        let (b1, k, l) = >>=-eq-ok (process_module m rules input.layout b) _ (rw e at h) in
        let (b2, k2, l2) = >>=-eq-ok _ _ k in
        plan_modules-Keeps input rest b1 b' l (
          add_layers-Keeps m rules input.layout _ b2 b1 l2
            (place_all-Keeps m input.layout _ _ b2 k2 (other b _ refl p)))
  ]
