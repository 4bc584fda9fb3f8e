-- ===== src/Runtime/Policy/Admitted.antt =====
-- runtime/policy.rs: what is known of a module that a hot operation may load.
use meta_hybrid_mount.Plan.Modes.{ModuleRulesView, new_view, resolve_mode}
use meta_hybrid_mount.Plan.Build.{is_module_blacklisted, build_plan}
use meta_hybrid_mount.Text.{bytes, text_eq, is_empty, is_empty-eq, Text, text_lt}
use meta_hybrid_mount.Text.Split.{path_join}
use meta_hybrid_mount.Config.{Config, vfs, ignore, mode_eq}
use meta_hybrid_mount.Plan.Builder.{MountPlan}
use meta_hybrid_mount.Scanner.{ModuleRecord, ModuleEntry}
use meta_hybrid_mount.Runtime.Ledger.{Ledger, OwnedMount}
use meta_hybrid_mount.Vfs.Rule.{build_vfs_rules, VfsRule}
use meta_hybrid_mount.Errors.{
  Result, err, active_elsewhere, module_excluded, mixed_backends, ok, >>=-eq-ok, ok-injective,
  forbid, forbid-ok, layout_changed, not_pure_vfs, target_overlaps_mount,
}
use meta_hybrid_mount.Prelude.{
  ◌&&◌, ◌||◌, not, ◌≡◌, Bool, true, false, Option, none, some, List, [], ◌∷◌, In, any, all, refl,
  Bool-cases, inl, inr, arith, if◌then◌else◌,
}
use meta_hybrid_mount.Runtime.Policy.{
  plan_hot_module, against_baseline, ensure_layout_unchanged, with_owned, build_vfs_rules,
  MountPlan, ModuleRecord, paths_overlap, is_unchanged, ensure_unchanged, relevant_partitions,
  partition_under, add_partition, owned_partitions, check_targets,
}
use meta_hybrid_mount.Prelude.Sets.{set_insert, set_insert-In}
use meta_hybrid_mount.Text.Utf8.{from_utf8_lossy}
use meta_hybrid_mount.Text.Order.{text_lt_total}
use meta_hybrid_mount.Partitions.{PartitionLayout, logical_partition}
use meta_hybrid_mount.Vfs.Protocol.Encode.{EncodedRule, encode_rule}
use meta_hybrid_mount.Runtime.Rules.{SavedRule}

set_insert_more :
    (name : Text) (names : List Text) (a : Text) → In a names → In a (set_insert text_lt name names)
set_insert_more name names a i = set_insert-In text_lt text_lt_total name names a (inr i)

relevant_partitions-keeps :
    (rules : ModuleRulesView) (layout : PartitionLayout) (entries : List ModuleEntry)
    (before after : List Text) (a : Text)
    → relevant_partitions rules layout entries before ≡ ok after
    → In a before
    → In a after
unfolding relevant_partitions
relevant_partitions-keeps rules layout [] before after a h i = rw (← ok-injective h) i
relevant_partitions-keeps rules layout (e ∷ rest) before after a h i =
    elim (Bool-cases (mode_eq (resolve_mode rules e.relative) ignore)) [
      | inl g ↦ relevant_partitions-keeps rules layout rest before after a (rw g at h) i
      | inr g ↦
          let (u, k, l) =
            >>=-eq-ok (forbid (not (mode_eq (resolve_mode rules e.relative) vfs)) not_pure_vfs) _
              (rw g at h) in
          relevant_partitions-keeps rules layout rest _ after a l (set_insert_more _ before a i)
    ]

-- What the loop has found of every entry.
abbrev pub is_vfs_entry : ModuleRulesView → PartitionLayout → (Text → Bool) → ModuleEntry → Bool
is_vfs_entry rules layout holds e =
    mode_eq (resolve_mode rules e.relative) ignore
    || (mode_eq (resolve_mode rules e.relative) vfs && holds (logical_partition layout e.relative))

relevant_partitions-all :
    (rules : ModuleRulesView) (layout : PartitionLayout) (entries : List ModuleEntry)
    (before after : List Text) (holds : Text → Bool)
    → relevant_partitions rules layout entries before ≡ ok after
    → ((name : Text) → In name after → holds name ≡ true)
    → all (is_vfs_entry rules layout holds) entries ≡ true
unfolding relevant_partitions
relevant_partitions-all rules layout [] before after holds h each = refl
relevant_partitions-all rules layout (e ∷ rest) before after holds h each =
    elim (Bool-cases (mode_eq (resolve_mode rules e.relative) ignore)) [
      | inl g ↦
          let more =
            relevant_partitions-all rules layout rest before after holds (rw g at h) each in
          rw (g, more) refl
      | inr g ↦
          let (u, k, l) =
            >>=-eq-ok (forbid (not (mode_eq (resolve_mode rules e.relative) vfs)) not_pure_vfs) _
              (rw g at h) in
          let more = relevant_partitions-all rules layout rest _ after holds l each in
          let here = each (logical_partition layout e.relative) (
            relevant_partitions-keeps rules layout rest _ after _ l (
              set_insert-In text_lt text_lt_total (logical_partition layout e.relative) before _
                (inl refl))) in
          let for_vfs = forbid-ok _ _ k in rw (g, here, more) (ground arith)
    ]

owned_partitions-keeps :
    (roots : List (Text × Text)) (id : Text) (rules : List SavedRule) (before : List Text)
    (a : Text)
    → In a before
    → In a (owned_partitions roots id rules before)
unfolding owned_partitions
owned_partitions-keeps roots id [] before a i = i
owned_partitions-keeps roots id (rule ∷ rest) before a i =
    owned_partitions-keeps roots id rest _ a
      (step (text_eq rule.module_id id) (partition_under rule.virtual_path none roots))
  where
    step :
        (own : Bool) (found : Option (Text × Text))
        → In a (if own then add_partition found before else before)
    step false found = i
    step true none = i
    step true (some (name, root)) = set_insert_more name before a i

ensure_unchanged-In :
    (baseline current : PartitionLayout) (mounts : List OwnedMount) (names : List Text)
    (name : Text)
    → ensure_unchanged baseline current mounts names ≡ ok tt
    → In name names
    → is_unchanged baseline current mounts name ≡ true
unfolding ensure_unchanged
ensure_unchanged-In baseline current mounts [] name h i = absurd i
ensure_unchanged-In baseline current mounts (x ∷ rest) name h i =
    let (u, k, l) =
      >>=-eq-ok (forbid (not (is_unchanged baseline current mounts x)) (layout_changed x)) _ h in
    elim i [
      | inl q ↦ rw (← q) (let f = forbid-ok _ _ k in ground arith)
      | inr j ↦ ensure_unchanged-In baseline current mounts rest name l j
    ]

-- Whether a rule's target has a record of the protocol, and lies apart from every mount.
abbrev pub is_clear_of : List OwnedMount → Result EncodedRule → Bool
is_clear_of mounts (err e) = false
is_clear_of mounts (ok encoded) =
    not (
      any (λ (m : OwnedMount). paths_overlap (from_utf8_lossy encoded.virtual_path) m.target)
        mounts)

check_targets-all :
    (mounts : List OwnedMount) (rules : List VfsRule)
    → check_targets mounts rules ≡ ok tt
    → all (λ rule. is_clear_of mounts (encode_rule rule)) rules ≡ true
unfolding check_targets
check_targets-all mounts [] h = refl
check_targets-all mounts (x ∷ rest) h =
    let (encoded, k, l) = >>=-eq-ok (encode_rule x) _ h in
    let target = from_utf8_lossy encoded.virtual_path in
    let (u, k2, l2) =
      >>=-eq-ok
        (forbid (any (λ (y : OwnedMount). paths_overlap target y.target) mounts)
          (target_overlaps_mount target))
        _ l in
    rw (k, forbid-ok _ _ k2, check_targets-all mounts rest l2) refl

with_owned-keeps :
    (baseline : Option PartitionLayout) (id : Text) (rules : List SavedRule) (before : List Text)
    (a : Text)
    → In a before
    → In a (with_owned baseline id rules before)
with_owned-keeps none id rules before a i = i
with_owned-keeps (some b) id rules before a i = owned_partitions-keeps b.roots id rules before a i

-- The session knows its layout.
against_baseline-known :
    (layout : PartitionLayout) (mounts : List OwnedMount) (names : List Text)
    (recorded : Option PartitionLayout)
    → against_baseline layout mounts names recorded ≡ ok tt
    → (baseline : PartitionLayout) × (recorded ≡ some baseline)
      × (ensure_unchanged baseline layout mounts names ≡ ok tt)
against_baseline-known layout mounts names none h = cc
against_baseline-known layout mounts names (some baseline) h = (baseline, refl, h)

-- A module that a hot operation may load: it has no active mount of another backend; it is not
-- skipped, blacklisted or marked for removal; its plan is for the VFS alone; each of its entries is
-- ignored, or is for the VFS and in a partition whose root, error and identity are those of the layout
-- that the session recorded, where child mounts at a target of the session's own mounts do not count;
-- and every rule of the plan has a record whose target neither contains a mount that the session owns
-- nor lies in one. None of this needs the session to own a mount.
pub plan_hot_module-Admitted :
    (exists : Text → Bool) (m : ModuleRecord) (config : Config) (layout : PartitionLayout)
    (saved : Ledger) (plan : MountPlan)
    → plan_hot_module exists m config layout saved ≡ ok plan
    → (any (text_eq m.id) saved.non_vfs_modules ≡ false)
      × (m.skip_mount
            || (is_module_blacklisted config m.id
                || exists (path_join m.source_path (bytes "remove")))
          ≡ false)
      × (plan.magic_module_ids ≡ [])
      × (plan.overlay_module_ids ≡ [])
      × (all (λ rule. is_clear_of saved.mounts (encode_rule rule)) (build_vfs_rules plan.tree)
          ≡ true)
      × ((baseline : PartitionLayout) × (saved.partition_layout ≡ some baseline)
          × (all
                (is_vfs_entry
                  (new_view m.id config true)
                  layout
                  (is_unchanged baseline layout saved.mounts))
                m.entries
              ≡ true))
unfolding plan_hot_module ensure_layout_unchanged
plan_hot_module-Admitted exists m config layout saved plan h =
    let (u1, e1, h1) =
      >>=-eq-ok (forbid (any (text_eq m.id) saved.non_vfs_modules) active_elsewhere) _ h in
    let (u2, e2, h2) =
      >>=-eq-ok
        (forbid
          (m.skip_mount
            || (is_module_blacklisted config m.id
                || exists (path_join m.source_path (bytes "remove"))))
          module_excluded)
        _ h1 in
    let rules = new_view m.id config true in
    let (relevant, e3, h3) = >>=-eq-ok (relevant_partitions rules layout m.entries []) _ h2 in
    let names = with_owned saved.partition_layout m.id saved.rules relevant in
    let (u4, e4, h4) = >>=-eq-ok (ensure_layout_unchanged layout saved names) _ h3 in
    let (plan', e5, h5) =
      >>=-eq-ok
        (build_plan record {
          modules = record m { disabled = false } ∷ [];
          config = config;
          layout = layout;
          vfs_available = true;
        })
        _ h4 in
    let mixed =
      not (is_empty plan'.magic_module_ids)
      || (not (is_empty plan'.overlay_module_ids) || is_empty plan'.vfs_module_ids) in
    let (u6, e6, h6) = >>=-eq-ok (forbid mixed mixed_backends) _ h5 in
    let (u7, e7, h7) = >>=-eq-ok (check_targets saved.mounts (build_vfs_rules plan'.tree)) _ h6 in
    let same : plan' ≡ plan = ok-injective h7 in
    let pure_vfs = forbid-ok mixed mixed_backends e6 in
    let (baseline, known, unchanged) =
      against_baseline-known layout saved.mounts names saved.partition_layout e4 in
    (
      forbid-ok _ _ e1,
      forbid-ok _ _ e2,
      rw (← same) (is_empty-eq plan'.magic_module_ids (ground arith)),
      rw (← same) (is_empty-eq plan'.overlay_module_ids (ground arith)),
      rw (← same) (check_targets-all saved.mounts (build_vfs_rules plan'.tree) e7),
      (
        baseline,
        known,
        relevant_partitions-all rules layout m.entries [] relevant _ e3 (λ name i.
            ensure_unchanged-In baseline layout saved.mounts names name unchanged
              (with_owned-keeps saved.partition_layout m.id saved.rules relevant name i)),
      ),
    )
