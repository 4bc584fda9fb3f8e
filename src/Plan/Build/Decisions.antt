-- ===== src/Plan/Build/Decisions.antt =====
-- plan/mod.rs: the entries that are left of a module, and their backends.
use meta_hybrid_mount.Plan.Builder.{PlanBuilder}
use meta_hybrid_mount.Prelude.{
  sym, In-append, ap, ◌∙◌, ◌||◌, any, ◌⊎◌, In, ◌≡◌, refl, inl, inr, List, [], ◌∷◌, Option, none,
  some, Bool-cases,
}
use meta_hybrid_mount.Text.{Text}
use meta_hybrid_mount.Config.{Mode}
use meta_hybrid_mount.Partitions.{PartitionDiagnostic, OperationDiagnostic, PartitionLayout}
use meta_hybrid_mount.Scanner.{ModuleEntry, ModuleRecord}
use meta_hybrid_mount.Plan.Modes.{is_same_or_below, resolve_mode, ModuleRulesView}
use meta_hybrid_mount.Plan.Entries.{
  is_redundant_partition_self_alias, is_promoted_partition_alias, EntryDecision, Blocked,
  protected_targets, is_ignored, is_root_removal, covers_protected, block_mapped, block_entry,
  block_entries,
}
use meta_hybrid_mount.Plan.Process.{Decided, decide, decide_in, decide_all}

-- The subtrees that a module loses, and the entries that are left with their backends.
abbrev pub blocked_of : ModuleRecord → ModuleRulesView → PartitionLayout → List Text
blocked_of m rules layout =
    (block_entries (protected_targets layout) m rules layout m.entries ([], [])).0

abbrev pub decisions_of : ModuleRecord → ModuleRulesView → PartitionLayout → List EntryDecision
decisions_of m rules layout =
    (decide_all (blocked_of m rules layout) m rules layout m.entries ([], [])).1

-- The errors gathered so far have no influence on either.
block_mapped_first :
    (protected : List Text) (m : ModuleRecord) (layout : PartitionLayout) (e : ModuleEntry)
    (target : Option Text) (blocked : List Text) (errors others : List OperationDiagnostic)
    → (block_mapped protected m layout e target (blocked, errors)).0
      ≡ (block_mapped protected m layout e target (blocked, others)).0
unfolding block_mapped
block_mapped_first protected m layout e none blocked errors others = refl
block_mapped_first protected m layout e (some target) blocked errors others =
    elim (Bool-cases (is_root_removal layout e)) [
      | inl h ↦ rw h refl
      | inr h ↦ elim (Bool-cases (covers_protected protected target e)) [
        | inl g ↦ rw (h, g) refl
        | inr g ↦ rw (h, g) refl
      ]
    ]

block_entry_first :
    (protected : List Text) (m : ModuleRecord) (rules : ModuleRulesView) (layout : PartitionLayout)
    (e : ModuleEntry) (blocked : List Text) (errors others : List OperationDiagnostic)
    → (block_entry protected m rules layout e (blocked, errors)).0
      ≡ (block_entry protected m rules layout e (blocked, others)).0
unfolding block_entry
block_entry_first protected m rules layout e blocked errors others =
    elim (Bool-cases (is_ignored rules e)) [
      | inl h ↦ rw h refl
      | inr h ↦ rw h (block_mapped_first protected m layout e _ blocked _ _)
    ]

block_entries_first :
    (protected : List Text) (m : ModuleRecord) (rules : ModuleRulesView) (layout : PartitionLayout)
    (entries : List ModuleEntry) (s t : Blocked)
    → s.0 ≡ t.0
    → (block_entries protected m rules layout entries s).0
      ≡ (block_entries protected m rules layout entries t).0
unfolding block_entries
block_entries_first protected m rules layout [] s t h = h
block_entries_first protected m rules layout (e ∷ rest) s t h =
    block_entries_first protected m rules layout rest _ _
      (rw h (block_entry_first protected m rules layout e t.0 s.1 t.1))

decide_in_second :
    (id partition : Text) (mode : Mode) (layout : PartitionLayout) (e : ModuleEntry)
    (error : Option PartitionDiagnostic) (errors others : List (Text × PartitionDiagnostic))
    (decisions : List EntryDecision)
    → (decide_in id partition mode layout e error (errors, decisions)).1
      ≡ (decide_in id partition mode layout e error (others, decisions)).1
unfolding decide_in
decide_in_second id partition mode layout e (some error) errors others decisions = refl
decide_in_second id partition mode layout e none errors others decisions =
    elim (Bool-cases
      (is_promoted_partition_alias e layout || is_redundant_partition_self_alias e layout)) [
        | inl h ↦ rw h refl
        | inr h ↦ rw h refl
      ]

decide_second :
    (blocked : List Text) (m : ModuleRecord) (rules : ModuleRulesView) (layout : PartitionLayout)
    (e : ModuleEntry) (s t : Decided)
    → s.1 ≡ t.1
    → (decide blocked m rules layout e s).1 ≡ (decide blocked m rules layout e t).1
unfolding decide
decide_second blocked m rules layout e s t h =
    elim (Bool-cases (any (is_same_or_below e.relative) blocked)) [
      | inl g ↦ rw g h
      | inr g ↦ rw (g, h) (decide_in_second m.id _ _ layout e _ s.0 t.0 t.1)
    ]

decide_all_second :
    (blocked : List Text) (m : ModuleRecord) (rules : ModuleRulesView) (layout : PartitionLayout)
    (entries : List ModuleEntry) (s t : Decided)
    → s.1 ≡ t.1
    → (decide_all blocked m rules layout entries s).1
      ≡ (decide_all blocked m rules layout entries t).1
unfolding decide_all
decide_all_second blocked m rules layout [] s t h = h
decide_all_second blocked m rules layout (e ∷ rest) s t h =
    decide_all_second blocked m rules layout rest _ _ (decide_second blocked m rules layout e s t h)

-- What `process_module` decides, whatever was gathered before.
pub decided_eq :
    (m : ModuleRecord) (rules : ModuleRulesView) (layout : PartitionLayout) (b : PlanBuilder)
    → (decide_all
        (block_entries
          (protected_targets layout)
          m
          rules
          layout
          m.entries
          ([], b.operation_errors)).0
        m
        rules
        layout
        m.entries
        (b.partition_errors, [])).1
      ≡ decisions_of m rules layout
decided_eq m rules layout b =
    rw
      (block_entries_first (protected_targets layout) m rules layout m.entries
        ([], b.operation_errors) ([], []) refl)
      (decide_all_second _ m rules layout m.entries (b.partition_errors, []) ([], []) refl)

decide_in-mode :
    (id partition : Text) (mode : Mode) (layout : PartitionLayout) (e : ModuleEntry)
    (error : Option PartitionDiagnostic) (s : Decided) (d : EntryDecision)
    → In d (decide_in id partition mode layout e error s).1
    → In d s.1 ⊎ ((d.entry ≡ e) × (d.mode ≡ mode))
unfolding decide_in
decide_in-mode id partition mode layout e (some error) s d i = inl i
decide_in-mode id partition mode layout e none s d i =
    elim (Bool-cases
      (is_promoted_partition_alias e layout || is_redundant_partition_self_alias e layout)) [
        | inl h ↦ inl (rw h at i)
        | inr h ↦ elim (In-append s.1 _ d (rw h at i)) [
          | inl q ↦ inl q
          | inr (inl q) ↦ inr (ap (λ x. x.entry) (sym q), ap (λ x. x.mode) (sym q))
          | inr (inr q) ↦ absurd q
        ]
      ]

decide_all-mode :
    (blocked : List Text) (m : ModuleRecord) (rules : ModuleRulesView) (layout : PartitionLayout)
    (entries : List ModuleEntry) (s : Decided) (d : EntryDecision)
    → In d (decide_all blocked m rules layout entries s).1
    → In d s.1 ⊎ (d.mode ≡ resolve_mode rules d.entry.relative)
unfolding decide_all decide
decide_all-mode blocked m rules layout [] s d i = inl i
decide_all-mode blocked m rules layout (e ∷ rest) s d i =
    elim (decide_all-mode blocked m rules layout rest (decide blocked m rules layout e s) d i) [
      | inr q ↦ inr q
      | inl q ↦ elim (Bool-cases (any (is_same_or_below e.relative) blocked)) [
        | inl g ↦ inl (rw g at q)
        | inr g ↦ elim (decide_in-mode m.id _ _ layout e _ s d (rw g at q)) [
          | inl k ↦ inl k
          | inr (k, l) ↦ inr (l ∙ ap (λ x. resolve_mode rules x.relative) (sym k))
        ]
      ]
    ]

-- An entry goes to the backend that the rules give its path.
pub decisions_of-mode :
    (m : ModuleRecord) (rules : ModuleRulesView) (layout : PartitionLayout) (d : EntryDecision)
    → In d (decisions_of m rules layout)
    → d.mode ≡ resolve_mode rules d.entry.relative
decisions_of-mode m rules layout d i =
    elim (decide_all-mode (blocked_of m rules layout) m rules layout m.entries ([], []) d i) [
      | inl q ↦ absurd q
      | inr q ↦ q
    ]
