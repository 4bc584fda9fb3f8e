-- ===== src/Plan/Build/Protected.antt =====
-- plan/mod.rs: no entry that is planned replaces or removes what stands above a protected target.
use meta_hybrid_mount.Prelude.{
  ◌≡◌, refl, sym, ap, ◌⊎◌, inl, inr, true, false, ◌||◌, Option, none, some, List, [], ◌∷◌, In,
  In-append, In-append_left, In-append_right, any, any-false, Bool-cases, subst,
}
use meta_hybrid_mount.Text.{Text, text_eq_refl}
use meta_hybrid_mount.Config.{Mode, ignore, mode_eq}
use meta_hybrid_mount.Errors.{ok}
use meta_hybrid_mount.Partitions.{PartitionDiagnostic, PartitionLayout, map_target}
use meta_hybrid_mount.Scanner.{ModuleEntry, ModuleRecord}
use meta_hybrid_mount.Plan.Modes.{ModuleRulesView, is_same_or_below}
use meta_hybrid_mount.Plan.Entries.{
  EntryDecision, Blocked, protected_targets, is_ignored, is_root_removal, covers_protected,
  block_mapped, block_entry, block_entries, is_promoted_partition_alias,
  is_redundant_partition_self_alias,
}
use meta_hybrid_mount.Plan.Process.{Decided, decide_in, decide, decide_all}
use meta_hybrid_mount.Plan.Build.Decisions.{blocked_of, decisions_of, decisions_of-mode}

module _ (protected : List Text) (m : ModuleRecord) (rules : ModuleRulesView)
    (layout : PartitionLayout) where
  -- What is blocked stays blocked.
  block_mapped-In :
      (e : ModuleEntry) (target : Option Text) (s : Blocked) (path : Text)
      → In path s.0
      → In path (block_mapped protected m layout e target s).0
  unfolding block_mapped
  block_mapped-In e none s path i = i
  block_mapped-In e (some target) s path i = elim (Bool-cases (is_root_removal layout e)) [
    | inl h ↦ rw h (In-append_left s.0 _ path i)
    | inr h ↦ elim (Bool-cases (covers_protected protected target e)) [
      | inl g ↦ rw (h, g) (In-append_left s.0 _ path i)
      | inr g ↦ rw (h, g) i
    ]
  ]

  block_entry-In :
      (e : ModuleEntry) (s : Blocked) (path : Text)
      → In path s.0
      → In path (block_entry protected m rules layout e s).0
  unfolding block_entry
  block_entry-In e s path i = elim (Bool-cases (is_ignored rules e)) [
    | inl h ↦ rw h i
    | inr h ↦ rw h (block_mapped-In e _ (s.0, _) path i)
  ]

  block_entries-In :
      (entries : List ModuleEntry) (s : Blocked) (path : Text)
      → In path s.0
      → In path (block_entries protected m rules layout entries s).0
  unfolding block_entries
  block_entries-In [] s path i = i
  block_entries-In (e ∷ rest) s path i = block_entries-In rest _ path (block_entry-In e s path i)

  -- A covering entry is blocked in its round.
  block_entry-covers :
      (e : ModuleEntry) (s : Blocked) (partition target : Text)
      → is_ignored rules e ≡ false
      → map_target layout e.relative ≡ ok (partition, target)
      → covers_protected protected target e ≡ true
      → In e.relative (block_entry protected m rules layout e s).0
  unfolding block_entry block_mapped
  block_entry-covers e s partition target h t c = elim (Bool-cases (is_root_removal layout e)) [
    | inl g ↦ rw (h, t, g) (In-append_right s.0 _ e.relative (inl refl))
    | inr g ↦ rw (h, t, g, c) (In-append_right s.0 _ e.relative (inl refl))
  ]

  block_entries-covers :
      (entries : List ModuleEntry) (s : Blocked) (e : ModuleEntry) (partition target : Text)
      → In e entries
      → is_ignored rules e ≡ false
      → map_target layout e.relative ≡ ok (partition, target)
      → covers_protected protected target e ≡ true
      → In e.relative (block_entries protected m rules layout entries s).0
  unfolding block_entries
  block_entries-covers [] s e partition target i h t c = absurd i
  block_entries-covers (x ∷ rest) s e partition target (inl q) h t c =
      block_entries-In rest _ e.relative (
        subst (λ (y : ModuleEntry). In e.relative (block_entry protected m rules layout y s).0)
          (sym q) (block_entry-covers e s partition target h t c))
  block_entries-covers (x ∷ rest) s e partition target (inr i) h t c =
      block_entries-covers rest _ e partition target i h t c

module _ (blocked : List Text) (m : ModuleRecord) (rules : ModuleRulesView)
    (layout : PartitionLayout) where
  -- A decision is made for an entry that is not blocked.
  decide_in-Free :
      (id partition : Text) (mode : Mode) (e : ModuleEntry) (error : Option PartitionDiagnostic)
      (s : Decided) (d : EntryDecision)
      → In d (decide_in id partition mode layout e error s).1
      → In d s.1 ⊎ (d.entry ≡ e)
  unfolding decide_in
  decide_in-Free id partition mode e (some error) s d i = inl i
  decide_in-Free id partition mode e none s d i =
      elim (Bool-cases
        (is_promoted_partition_alias e layout || is_redundant_partition_self_alias e layout)) [
          | inl h ↦ inl (rw h at i)
          | inr h ↦ elim (In-append s.1 _ d (rw h at i)) [
            | inl q ↦ inl q
            | inr (inl q) ↦ inr (ap (λ x. x.entry) (sym q))
            | inr (inr q) ↦ absurd q
          ]
        ]

  decide_all-Free :
      (entries : List ModuleEntry) (s : Decided) (d : EntryDecision)
      → In d (decide_all blocked m rules layout entries s).1
      → In d s.1 ⊎ (In d.entry entries × (any (is_same_or_below d.entry.relative) blocked ≡ false))
  unfolding decide_all decide
  decide_all-Free [] s d i = inl i
  decide_all-Free (e ∷ rest) s d i =
      elim (decide_all-Free rest (decide blocked m rules layout e s) d i) [
        | inr (k, f) ↦ inr (inr k, f)
        | inl q ↦ elim (Bool-cases (any (is_same_or_below e.relative) blocked)) [
          | inl g ↦ inl (rw g at q)
          | inr g ↦ elim (decide_in-Free m.id _ _ e _ s d (rw g at q)) [
            | inl k ↦ inl k
            | inr k ↦ inr (inl (sym k), rw k g)
          ]
        ]
      ]

same_path : (path : Text) → is_same_or_below path path ≡ true
unfolding is_same_or_below
same_path path = rw (text_eq_refl path) refl

-- An entry that is planned with a backend does not replace, link over or remove a directory above a
-- protected target, which is a mount point or the place of a rejected partition, nor remove one.
pub decisions_of-covers :
    (m : ModuleRecord) (rules : ModuleRulesView) (layout : PartitionLayout) (d : EntryDecision)
    (partition target : Text)
    → In d (decisions_of m rules layout)
    → mode_eq d.mode ignore ≡ false
    → map_target layout d.entry.relative ≡ ok (partition, target)
    → covers_protected (protected_targets layout) target d.entry ≡ false
decisions_of-covers m rules layout d partition target i h t =
    elim (decide_all-Free (blocked_of m rules layout) m rules layout m.entries ([], []) d i) [
      | inl q ↦ absurd q
      | inr (k, free) ↦
          elim (Bool-cases (covers_protected (protected_targets layout) target d.entry)) [
            | inr c ↦ c
            | inl c ↦
                let taken : is_ignored rules d.entry ≡ false =
                  rw (← decisions_of-mode m rules layout d i) h in
                let there =
                  block_entries-covers (protected_targets layout) m rules layout m.entries ([], [])
                    d.entry partition target k taken t c in
                cc (
                  any-false (is_same_or_below d.entry.relative) (blocked_of m rules layout)
                      d.entry.relative free there,
                  same_path d.entry.relative,
                )
          ]
    ]
