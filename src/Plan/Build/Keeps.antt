-- ===== src/Plan/Build/Keeps.antt =====
-- plan/mod.rs: what the loops over the entries of a module keep.
use meta_hybrid_mount.Prelude.{
  ◌≡◌, List, [], ◌∷◌, Option, none, some, Bool-cases, inl, inr, ◌==◌, ◌+◌, ◌&&◌, length, not, ◌||◌,
}
use meta_hybrid_mount.Text.{Text}
use meta_hybrid_mount.Text.Split.{split_slash}
use meta_hybrid_mount.Config.{overlay}
use meta_hybrid_mount.Errors.{Result, ok, >>=-eq-ok, ok-injective}
use meta_hybrid_mount.MountTree.{is_directory}
use meta_hybrid_mount.Partitions.{PartitionLayout, map_target}
use meta_hybrid_mount.Scanner.{ModuleRecord}
use meta_hybrid_mount.Plan.Builder.{PlanBuilder, add_overlay_layer, add_overlay_file}
use meta_hybrid_mount.Plan.Entries.{EntryDecision}
use meta_hybrid_mount.Plan.Process.{has_mode, parent_of, has_overlay_ancestor}
use meta_hybrid_mount.Plan.Layers.{
  layer_at, file_at, file_below, whole_layer, whole_layer_in, goes_below_root, partition_root_len,
  each, add_whole_overlay_layers, partial_file, add_partial_layers,
}

-- A predicate that survives a layer and a file more.
module _ (P : PlanBuilder → Type 0)
    (layer : (partition target id source : Text) (b : PlanBuilder)
      → P b
      → P (add_overlay_layer partition target id source b))
    (file : (target id source : Text) (b : PlanBuilder)
      → P b
      → P (add_overlay_file target id source b))
    (m : ModuleRecord) (layout : PartitionLayout) where
  each-Keeps :
      (round : EntryDecision → PlanBuilder → Result PlanBuilder)
      → ((d : EntryDecision) (b b' : PlanBuilder) → round d b ≡ ok b' → P b → P b')
      → (decisions : List EntryDecision) (b b' : PlanBuilder) → each round decisions b ≡ ok b'
      → P b
      → P b'
  unfolding each
  each-Keeps round keep [] b b' h p = rw (← ok-injective h) p
  each-Keeps round keep (d ∷ rest) b b' h p =
      let (b1, e, k) = >>=-eq-ok (round d b) _ h in
      each-Keeps round keep rest b1 b' k (keep d b b1 e p)

  layer_at-Keeps :
      (relative : Text) (b b' : PlanBuilder) → layer_at m layout relative b ≡ ok b' → P b → P b'
  unfolding layer_at
  layer_at-Keeps relative b b' h p =
      let (mapped, e, k) = >>=-eq-ok (map_target layout relative) _ h in
      rw (← ok-injective k) (layer mapped.0 mapped.1 m.id _ b p)

  file_at-Keeps :
      (parent relative : Text) (b b' : PlanBuilder)
      → file_at m layout parent relative b ≡ ok b'
      → P b
      → P b'
  unfolding file_at
  file_at-Keeps parent relative b b' h p =
      let (mapped, e, k) = >>=-eq-ok (map_target layout parent) _ h in
      rw (← ok-injective k) (file mapped.1 m.id _ b p)

  whole_layer-Keeps :
      (roots : List Text) (d : EntryDecision) (b b' : PlanBuilder)
      → whole_layer m layout roots d b ≡ ok b'
      → P b
      → P b'
  unfolding whole_layer whole_layer_in
  whole_layer-Keeps roots d b b' h p =
      let components = split_slash d.entry.relative in
      let root = partition_root_len components layout in
      elim (Bool-cases (has_overlay_ancestor d.entry.relative roots)) [
        | inl e ↦ rw (← ok-injective (rw e at h)) p
        | inr e ↦ elim (Bool-cases (length components == root && d.entry.replace)) [
          | inl f ↦ layer_at-Keeps _ b b' (rw (e, f) at h) p
          | inr f ↦
              elim (Bool-cases
                (goes_below_root (length components) root (is_directory d.entry.file_type))) [
                  | inl g ↦ layer_at-Keeps _ b b' (rw (e, f, g) at h) p
                  | inr g ↦
                      elim (Bool-cases
                        (not (is_directory d.entry.file_type) && length components == root + 1)) [
                          | inl i ↦ file_at-Keeps _ _ b b' (rw (e, f, g, i) at h) p
                          | inr i ↦ rw (← ok-injective (rw (e, f, g, i) at h)) p
                        ]
                ]
        ]
      ]

  file_below-Keeps :
      (relative : Text) (parent : Option Text) (b b' : PlanBuilder)
      → file_below m layout relative parent b ≡ ok b'
      → P b
      → P b'
  file_below-Keeps relative none b b' h p = rw (← ok-injective h) p
  file_below-Keeps relative (some parent) b b' h p = file_at-Keeps parent relative b b' h p

  partial_file-Keeps :
      (paths : List Text) (d : EntryDecision) (b b' : PlanBuilder)
      → partial_file m layout paths d b ≡ ok b'
      → P b
      → P b'
  unfolding partial_file
  partial_file-Keeps paths d b b' h p =
      elim (Bool-cases (
        not (has_mode overlay d)
        || (is_directory d.entry.file_type || has_overlay_ancestor d.entry.relative paths))) [
          | inl e ↦ rw (← ok-injective (rw e at h)) p
          | inr e ↦
              file_below-Keeps d.entry.relative (parent_of d.entry.relative) b b' (rw e at h) p
        ]

  pub add_whole_overlay_layers-Keeps :
      (decisions : List EntryDecision) (b b' : PlanBuilder)
      → add_whole_overlay_layers m decisions layout b ≡ ok b'
      → P b
      → P b'
  unfolding add_whole_overlay_layers
  add_whole_overlay_layers-Keeps decisions b b' = each-Keeps _ (whole_layer-Keeps _) decisions b b'

  pub add_partial_layers-Keeps :
      (decisions : List EntryDecision) (b b' : PlanBuilder)
      → add_partial_layers m decisions layout b ≡ ok b'
      → P b
      → P b'
  unfolding add_partial_layers
  add_partial_layers-Keeps decisions b b' h p =
      let (b1, e, k) = >>=-eq-ok _ _ h in
      each-Keeps _ (partial_file-Keeps _) decisions b1 b' k
        (each-Keeps _ (λ d. layer_at-Keeps d.entry.relative) _ b b1 e p)
