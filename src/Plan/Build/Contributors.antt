-- ===== src/Plan/Build/Contributors.antt =====
-- plan/mod.rs: which modules a plan names for the backends Magic and VFS.
use meta_hybrid_mount.Plan.Modes.Longest.{resolve_mode-not_vfs}
use meta_hybrid_mount.Plan.Build.{
  check_tree, id_lt, empty_builder, build_plan, MountPlan, finish, new_view, plan_modules,
  is_skipped, PlanInput,
}
use meta_hybrid_mount.Plan.Build.Decisions.{decisions_of-mode, decisions_of}
use meta_hybrid_mount.Plan.Modes.{new_view, ModuleRulesView}
use meta_hybrid_mount.Plan.Layers.{process_module}
use meta_hybrid_mount.Plan.Build.Joins.{joined, process_module-Joins}
use meta_hybrid_mount.Text.Order.{text_lt_total}
use meta_hybrid_mount.Prelude.Sets.{In-set_insert, set_insert-In}
use meta_hybrid_mount.Prelude.Sorting.{sort_by, In-sort_by, sort_by-In}
use meta_hybrid_mount.Prelude.{
  sym, any-true, subst, ◌⊎◌, ◌↔◌, In, any, ap, ◌≡◌, refl, ◌∙◌, inl, inr, true, false, List, [], ◌∷◌,
  Bool-cases,
}
use meta_hybrid_mount.Text.{text_lt, Text}
use meta_hybrid_mount.Config.{Mode, magic, vfs}
use meta_hybrid_mount.Errors.{ok, >>=-eq-ok, ok-injective}
use meta_hybrid_mount.Partitions.{PartitionLayout}
use meta_hybrid_mount.Scanner.{ModuleRecord}
use meta_hybrid_mount.Plan.Builder.{MountPlan, finish, empty_builder, PlanBuilder}
use meta_hybrid_mount.Plan.Entries.{protected_targets, EntryDecision}
use meta_hybrid_mount.Plan.Process.{has_mode}

In-joined :
    (mode : Mode) (id : Text) (decisions : List EntryDecision) (ids : List Text) (a : Text)
    → In a (joined mode id decisions ids)
      ↔ (((any (has_mode mode) decisions ≡ true) × (id ≡ a)) ⊎ In a ids)
In-joined mode id decisions ids a = elim (Bool-cases (any (has_mode mode) decisions)) [
  | inr e ↦ rw e (λ i. inr i, λ s. elim s [ inl (t, q) ↦ cc | inr i ↦ i ])
  | inl e ↦ rw e (
    λ i. elim (In-set_insert text_lt id ids a i) [ inl q ↦ inl (refl, q) | inr q ↦ inr q ],
    λ s. elim s [
      | inl (t, q) ↦ set_insert-In text_lt text_lt_total id ids a (inl q)
      | inr i ↦ set_insert-In text_lt text_lt_total id ids a (inr i)
    ],
  )
]

-- A module that takes part and gives an entry to the backend.
abbrev pub Contributes : PlanInput → Mode → Text → List ModuleRecord → Type 0
Contributes input mode id modules =
    (m : ModuleRecord) × In m modules
    × (is_skipped input.config m ≡ false)
    × (any (has_mode mode)
          (decisions_of m (new_view m.id input.config input.vfs_available) input.layout)
        ≡ true)
    × (m.id ≡ id)

module _ (input : PlanInput) (mode : Mode) (ids : PlanBuilder → List Text)
    (joins : (m : ModuleRecord) (rules : ModuleRulesView) (layout : PartitionLayout)
        (b b' : PlanBuilder)
      → process_module m rules layout b ≡ ok b'
      → ids b' ≡ joined mode m.id (decisions_of m rules layout) (ids b)) where
  plan_modules-ids :
      (modules : List ModuleRecord) (b b' : PlanBuilder) (id : Text)
      → plan_modules input modules b ≡ ok b'
      → In id (ids b') ↔ (Contributes input mode id modules ⊎ In id (ids b))
  unfolding plan_modules
  plan_modules-ids [] b b' id h =
      rw (← ok-injective h) (λ i. inr i, λ s. elim s [ inl (m, i, u, t, r) ↦ absurd i | inr i ↦ i ])
  plan_modules-ids (m ∷ rest) b b' id h = elim (Bool-cases (is_skipped input.config m)) [
    | inl e ↦
        let ih = plan_modules-ids rest b b' id (rw e at h) in
        (
          λ i. elim (ih.0 i) [ inl (x, k, u, t, r) ↦ inl (x, inr k, u, t, r) | inr k ↦ inr k ],
          λ s. elim s [
            | inl (x, inl q, u, t, r) ↦ cc (rw (← q) at u, e)
            | inl (x, inr k, u, t, r) ↦ ih.1 (inl (x, k, u, t, r))
            | inr k ↦ ih.1 (inr k)
          ],
        )
    | inr e ↦
        let rules = new_view m.id input.config input.vfs_available in
        let (b1, k, l) = >>=-eq-ok (process_module m rules input.layout b) _ (rw e at h) in
        let ih = plan_modules-ids rest b1 b' id l in
        let own = In-joined mode m.id (decisions_of m rules input.layout) (ids b) id in
        let step = joins m rules input.layout b b1 k in
        (
          λ i. elim (ih.0 i) [
            | inl (x, k, u, t, r) ↦ inl (x, inr k, u, t, r)
            | inr k ↦ elim (own.0 (subst (In id) step k)) [
              | inl (t, q) ↦ inl (m, inl refl, e, t, q)
              | inr q ↦ inr q
            ]
          ],
          λ s. elim s [
            | inl (x, inl q, u, t, r) ↦
                ih.1 (
                  inr
                    (subst (In id) (sym step) (own.1 (inl (rw (← q) at t, ap (λ y. y.id) q ∙ r)))))
            | inl (x, inr k, u, t, r) ↦ ih.1 (inl (x, k, u, t, r))
            | inr k ↦ ih.1 (inr (subst (In id) (sym step) (own.1 (inr k))))
          ],
        )
  ]

built_ids :
    (input : PlanInput) (mode : Mode) (ids : PlanBuilder → List Text) (b : PlanBuilder) (id : Text)
    → ((m : ModuleRecord) (rules : ModuleRulesView) (layout : PartitionLayout) (b b' : PlanBuilder)
        → process_module m rules layout b ≡ ok b'
        → ids b' ≡ joined mode m.id (decisions_of m rules layout) (ids b))
    → ids empty_builder ≡ []
    → plan_modules input (sort_by id_lt input.modules) empty_builder ≡ ok b
    → In id (ids b) ↔ Contributes input mode id input.modules
built_ids input mode ids b id joins none_yet h =
    let all_ids =
      plan_modules-ids input mode ids joins (sort_by id_lt input.modules) empty_builder b id h in
    (
      λ i. elim (all_ids.0 i) [
        | inl (m, k, u, t, r) ↦ (m, In-sort_by id_lt input.modules m k, u, t, r)
        | inr k ↦ absurd (subst (In id) none_yet k)
      ],
      λ (m, k, u, t, r). all_ids.1 (inl (m, sort_by-In id_lt input.modules m k, u, t, r)),
    )

-- What a plan was built from.
pub build_plan-eq-ok :
    (input : PlanInput) (plan : MountPlan)
    → build_plan input ≡ ok plan
    → (b : PlanBuilder) × (plan_modules input (sort_by id_lt input.modules) empty_builder ≡ ok b)
      × (check_tree b.tree ≡ ok tt)
      × (plan ≡ record (finish b) {
        partition_layout = input.layout;
        protected_targets = protected_targets input.layout;
      })
unfolding build_plan
build_plan-eq-ok input plan h =
    let (b, e, k) =
      >>=-eq-ok (plan_modules input (sort_by id_lt input.modules) empty_builder) _ h in
    let (u, c, l) = >>=-eq-ok (check_tree b.tree) _ k in (b, e, c, sym (ok-injective l))

-- A plan names for Magic Mount exactly the modules that take part, being neither disabled, skipped,
-- empty nor blacklisted, and of which an entry that was not left out has that backend.
pub build_plan-magic_module_ids :
    (input : PlanInput) (plan : MountPlan) (id : Text)
    → build_plan input ≡ ok plan
    → In id plan.magic_module_ids ↔ Contributes input magic id input.modules
unfolding finish
build_plan-magic_module_ids input plan id h =
    let (b, e, c, p) = build_plan-eq-ok input plan h in
    rw p (
      built_ids input magic (λ x. x.magic_module_ids) b id
        (λ m rules layout b b' k. (process_module-Joins m rules layout b b' k).0) refl e)

-- A plan names for the kernel VFS exactly the modules that take part and of which an entry that was
-- not left out has that backend.
pub build_plan-vfs_module_ids :
    (input : PlanInput) (plan : MountPlan) (id : Text)
    → build_plan input ≡ ok plan
    → In id plan.vfs_module_ids ↔ Contributes input vfs id input.modules
unfolding finish
build_plan-vfs_module_ids input plan id h =
    let (b, e, c, p) = build_plan-eq-ok input plan h in
    rw p (
      built_ids input vfs (λ x. x.vfs_module_ids) b id
        (λ m rules layout b b' k. (process_module-Joins m rules layout b b' k).1) refl e)

empty_of : (xs : List Text) → ((x : Text) → In x xs → ⊥) → xs ≡ []
empty_of [] h = refl
empty_of (x ∷ xs) h = absurd (h x (inl refl))

-- Without the kernel module a plan names no module for the VFS, whatever the configuration says.
pub build_plan-without_vfs :
    (input : PlanInput) (plan : MountPlan)
    → input.vfs_available ≡ false
    → build_plan input ≡ ok plan
    → plan.vfs_module_ids ≡ []
build_plan-without_vfs input plan off h = empty_of plan.vfs_module_ids (λ id i.
    let (m, k, u, t, r) = (build_plan-vfs_module_ids input plan id h).0 i in
    let rules = new_view m.id input.config input.vfs_available in
    let (d, k2, v) = any-true (has_mode vfs) (decisions_of m rules input.layout) t in
    let never = resolve_mode-not_vfs m.id input.config d.entry.relative in
    let mode = decisions_of-mode m rules input.layout d k2 in cc (v, rw (mode, off) at v, never))
