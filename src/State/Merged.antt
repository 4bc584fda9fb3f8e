-- ===== src/State/Merged.antt =====
-- state.rs: which modules a snapshot lists, and as what.
use meta_hybrid_mount.Plan.Builder.{MountPlan}
use meta_hybrid_mount.Config.{Config}
use meta_hybrid_mount.Prelude.{
  In-append, In-map_from, subst, ◌≡◌, refl, sym, ap, ◌∙◌, Bool, true, false, Option, none, some,
  List, [], ◌∷◌, any, inl, inr, Bool-cases, In, In-filter, any-In, arith, ◌⊎◌,
}
use meta_hybrid_mount.Plan.Build.{build_plan}
use meta_hybrid_mount.Errors.{ok, >>=-eq-ok, ok-injective}
use meta_hybrid_mount.Text.{Text, text_eq, text_eq→eq, text_eq_refl, text_eq_sym, text_lt}
use meta_hybrid_mount.Text.Maps.{update, put}
use meta_hybrid_mount.Partitions.{PartitionLayout, get}
use meta_hybrid_mount.Scanner.{ModuleRecord}
use meta_hybrid_mount.State.{AppModule}
use meta_hybrid_mount.State.Modules.{
  fallback_app_modules_with_layout, app_module, app_modules, retained,
  merge_module_snapshot_with_layout, is_retained, sync_rules, sync_app_module_rules, merged_over,
  Cache, cache_into, without, with_previous, merge_installed,
}

module _ {V : Type 0} where
  In-put :
      (key : Text) (value : V) (m : List (Text × V)) (e : Text × V)
      → In e (put key value m)
      → ((e.0 ≡ key) × (e.1 ≡ value)) ⊎ In e m
  unfolding update
  In-put key value [] e (inl q) =
      inl (ap (λ (p : Text × V). p.0) (sym q), ap (λ (p : Text × V). p.1) (sym q))
  In-put key value [] e (inr i) = absurd i
  In-put key value ((k, v) ∷ m) e i = elim (Bool-cases (text_eq k key)) [
    | inl f ↦ elim (rw f at i) [
      | inl q ↦ inl (
        ap (λ (p : Text × V). p.0) (sym q) ∙ text_eq→eq k key f,
        ap (λ (p : Text × V). p.1) (sym q),
      )
      | inr q ↦ inr (inr q)
    ]
    | inr f ↦ elim (Bool-cases (text_lt key k)) [
      | inl g ↦ elim (rw (f, g) at i) [
        | inl q ↦ inl (ap (λ (p : Text × V). p.0) (sym q), ap (λ (p : Text × V). p.1) (sym q))
        | inr q ↦ inr q
      ]
      | inr g ↦ elim (rw (f, g) at i) [
        | inl q ↦ inr (inl q)
        | inr q ↦ elim (In-put key value m e q) [ inl t ↦ inl t | inr t ↦ inr (inr t) ]
      ]
    ]
  ]

  abbrev value_or : V → Option V → V
  value_or d none = d
  value_or d (some v) = v

  In-get : (key : Text) (m : List (Text × V)) {v : V} → get key m ≡ some v → In (key, v) m
  unfolding get
  In-get key [] h = cc
  In-get key ((k, w) ∷ m) {v} h = elim (Bool-cases (text_eq k key)) [
    | inl f ↦
        let same : w ≡ v = ap (value_or w) (rw f at h) in inl (λ i. (text_eq→eq k key f i, same i))
    | inr f ↦ inr (In-get key m (rw f at h))
  ]

-- What the cache holds under a key is a cached module of that id.
abbrev IsCache : List AppModule → Cache → Type 0
IsCache cached cache = (e : Text × AppModule) → In e cache → (e.0 ≡ e.1.id) × In e.1 cached

cache_into-IsCache :
    (cached modules : List AppModule) (cache : Cache)
    → IsCache cached cache
    → ((m : AppModule) → In m modules → In m cached)
    → IsCache cached (cache_into cache modules)
unfolding cache_into
cache_into-IsCache cached [] cache h k = h
cache_into-IsCache cached (m ∷ rest) cache h k =
    cache_into-IsCache cached rest (put m.id m cache)
      (λ e i. elim (In-put m.id m cache e i) [
        | inl (p, q) ↦ (
          p ∙ ap (λ (x : AppModule). x.id) (sym q),
          subst (λ (x : AppModule). In x cached) (sym q) (k m (inl refl)),
        )
        | inr j ↦ h e j
      ])
      (λ n j. k n (inr j))

-- A cached entry of the same module with the same flag.
abbrev pub WasListed : List AppModule → AppModule → Type 0
WasListed cached m = (c : AppModule) × In c cached × (c.id ≡ m.id) × (c.is_mounted ≡ m.is_mounted)

abbrev pub lists : List AppModule → Text → Bool
lists modules id = any (λ (m : AppModule). text_eq m.id id) modules

module _ (cached : List AppModule) where
  abbrev IsKnown : AppModule → Type 0
  IsKnown m = (m.is_mounted ≡ false) ⊎ WasListed cached m

  with_previous-IsKnown :
      (previous : Option AppModule) (cache : Cache) (m : AppModule)
      → IsCache cached cache
      → get m.id cache ≡ previous
      → m.is_mounted ≡ false
      → ((with_previous previous m).id ≡ m.id) × IsKnown (with_previous previous m)
  with_previous-IsKnown none cache m h q unmounted = (refl, inl unmounted)
  with_previous-IsKnown (some c) cache m h q unmounted =
      let (same, there) = h (m.id, c) (In-get m.id cache q) in
      (refl, inr (c, there, sym same, refl))

  without-IsCache :
      (id : Text) (cache : Cache) → IsCache cached cache → IsCache cached (without id cache)
  unfolding without
  without-IsCache id cache h e i = h e (In-filter _ cache e i).0

  merged-IsKnown :
      (fallback : List AppModule) (cache : Cache) (m : AppModule)
      → IsCache cached cache
      → ((f : AppModule) → In f fallback → f.is_mounted ≡ false)
      → In m (merge_installed fallback cache).0
      → (lists fallback m.id ≡ true) × IsKnown m
  unfolding merge_installed
  merged-IsKnown [] cache m h unmounted i = absurd i
  merged-IsKnown (f ∷ rest) cache m h unmounted (inl q) =
      let (same, known) =
        with_previous-IsKnown (get f.id cache) cache f h refl (unmounted f (inl refl)) in
      let id : f.id ≡ m.id = sym same ∙ ap (λ (x : AppModule). x.id) q in
      (
        any-In (λ (x : AppModule). text_eq x.id m.id) (f ∷ rest) f (inl refl)
            (rw id (text_eq_refl m.id)),
        subst IsKnown q known,
      )
  merged-IsKnown (f ∷ rest) cache m h unmounted (inr i) =
      let (listed, known) =
        merged-IsKnown rest (without f.id cache) m (without-IsCache f.id cache h)
          (λ g j. unmounted g (inr j)) i in
      (rw listed (ground arith), known)

  left-not_installed :
      (fallback : List AppModule) (cache : Cache) (e : Text × AppModule)
      → In e (merge_installed fallback cache).1
      → In e cache × (lists fallback e.0 ≡ false)
  unfolding merge_installed without
  left-not_installed [] cache e i = (i, refl)
  left-not_installed (f ∷ rest) cache e i =
      let (there, absent) = left-not_installed rest (without f.id cache) e i in
      let (kept, differs) = In-filter _ cache e there in
      (kept, rw (text_eq_sym f.id e.0, absent) (ground arith))

  -- A removed module that stays in the list.
  abbrev IsRetained : List Text → AppModule → Type 0
  IsRetained boot_owned m =
      (m.is_mounted ≡ true) × (any (text_eq m.id) boot_owned ≡ true) × (m.enabled ≡ false)

  retained-IsRetained :
      (boot_owned : List Text) (fallback : List AppModule) (cache : Cache) (n : AppModule)
      → IsCache cached cache
      → In n (retained boot_owned (merge_installed fallback cache).1)
      → IsKnown n × (lists fallback n.id ≡ false) × IsRetained boot_owned n
  retained-IsRetained boot_owned fallback cache n h k =
      let (r, l, p) = In-map_from (λ (x : AppModule). record x { enabled = false }) _ n k in
      let (inside, t) = In-filter (is_retained boot_owned) _ r l in
      let (e, there, v) = In-map_from (λ (x : Text × AppModule). x.1) _ r inside in
      let (kept, absent) = left-not_installed fallback cache e there in
      let (key, known) = h e kept in
      let id : e.0 ≡ r.id = key ∙ ap (λ (x : AppModule). x.id) v in
      let mounted : r.is_mounted ≡ true = ground arith in
      let owned : any (text_eq r.id) boot_owned ≡ true = ground arith in
      subst (λ (x : AppModule). IsKnown x × (lists fallback x.id ≡ false) × IsRetained boot_owned x)
        p
        (
          inr (r, subst (λ (x : AppModule). In x cached) v known, refl, refl),
          subst (λ (x : Text). lists fallback x ≡ false) id absent,
          (mounted, owned, refl),
        )

  -- What is said of a module of the merged list: whether it is mounted comes from the cache, and
  -- it is installed or a removed one that stays.
  abbrev IsMerged : List Text → List AppModule → AppModule → Type 0
  IsMerged boot_owned fallback m =
      IsKnown m
      × ((lists fallback m.id ≡ true) ⊎ ((lists fallback m.id ≡ false) × IsRetained boot_owned m))

  sync_rules-IsMerged :
      (config : Config) (boot_owned : List Text) (fallback : List AppModule) (n : AppModule)
      → IsMerged boot_owned fallback n
      → IsMerged boot_owned fallback (sync_rules config n)
  sync_rules-IsMerged config boot_owned fallback n (known, inl listed) = (known, inl listed)
  sync_rules-IsMerged config boot_owned fallback n (known, inr (absent, (mounted, owned, off))) =
      (known, inr (absent, (mounted, owned, rw off (ground arith))))

  merged_over-IsMerged :
      (config : Config) (boot_owned : List Text) (fallback : List AppModule) (m : AppModule)
      → ((f : AppModule) → In f fallback → f.is_mounted ≡ false)
      → In m (merged_over config boot_owned cached fallback)
      → IsMerged boot_owned fallback m
  unfolding merged_over sync_app_module_rules
  merged_over-IsMerged config boot_owned fallback m unmounted i =
      let cache = cache_into [] cached in
      let cache_ok = cache_into-IsCache cached cached [] (λ e j. absurd j) (λ n j. j) in
      let (n, j, q) = In-map_from (sync_rules config) _ m i in
      subst (IsMerged boot_owned fallback) q (
        sync_rules-IsMerged config boot_owned fallback n
          (elim (In-append (merge_installed fallback cache).0 _ n j) [
            | inl k ↦
                let (listed, known) = merged-IsKnown fallback cache n cache_ok unmounted k in
                (known, inl listed)
            | inr k ↦
                let (known, absent, there) =
                  retained-IsRetained boot_owned fallback cache n cache_ok k in
                (known, inr (absent, there))
          ]))

-- The scanned modules that have the id.
abbrev pub is_installed : List ModuleRecord → Text → Bool
is_installed installed id = any (λ (r : ModuleRecord). text_eq r.id id) installed

lists-app_modules :
    (installed : List ModuleRecord) (config : Config) (plan : MountPlan) (errors : List Text)
    (id : Text)
    → lists (app_modules installed config plan errors []) id ≡ is_installed installed id
unfolding app_modules app_module
lists-app_modules [] config plan errors id = refl
lists-app_modules (r ∷ rest) config plan errors id =
    rw (lists-app_modules rest config plan errors id) refl

unmounted-app_modules :
    (installed : List ModuleRecord) (config : Config) (plan : MountPlan) (errors : List Text)
    (f : AppModule)
    → In f (app_modules installed config plan errors [])
    → f.is_mounted ≡ false
unfolding app_modules app_module
unmounted-app_modules installed config plan errors f i =
    let (r, j, q) = In-map_from (app_module config plan errors []) installed f i in
    rw (← q) (ground arith)

fallback-app_modules :
    (vfs_available : Bool) (mount_errors : List Text) (installed : List ModuleRecord)
    (config : Config) (layout : PartitionLayout) {fallback : List AppModule}
    → fallback_app_modules_with_layout vfs_available mount_errors installed config layout
      ≡ ok fallback
    → (plan : MountPlan) × (app_modules installed config plan mount_errors [] ≡ fallback)
unfolding fallback_app_modules_with_layout
fallback-app_modules vfs_available mount_errors installed config layout h =
    let (plan, _, q) =
      >>=-eq-ok
        (build_plan record {
          modules = installed;
          config = config;
          layout = layout;
          vfs_available = vfs_available;
        })
        (λ plan. ok (app_modules installed config plan mount_errors [])) h in
    (plan, ok-injective q)

-- A module of the list is shown as mounted only where the cached list shows it as mounted, and it is
-- installed, or else it is one that the boot owns and that was mounted, and it is not enabled.
pub merge_module_snapshot-lists :
    (vfs_available : Bool) (mount_errors : List Text) (cached : List AppModule)
    (installed : List ModuleRecord) (config : Config) (boot_owned : List Text)
    (layout : PartitionLayout) {merged : List AppModule} (m : AppModule)
    → merge_module_snapshot_with_layout vfs_available mount_errors cached installed config
        boot_owned layout
      ≡ ok merged
    → In m merged
    → ((m.is_mounted ≡ false) ⊎ WasListed cached m)
      × ((is_installed installed m.id ≡ true)
          ⊎ ((is_installed installed m.id ≡ false)
              × (m.is_mounted ≡ true)
              × (any (text_eq m.id) boot_owned ≡ true)
              × (m.enabled ≡ false)))
unfolding merge_module_snapshot_with_layout
merge_module_snapshot-lists vfs_available mount_errors cached installed config boot_owned layout m h
      i =
    let (fallback, f, g) =
      >>=-eq-ok
        (fallback_app_modules_with_layout vfs_available mount_errors installed config layout) _ h in
    let (plan, shown) = fallback-app_modules vfs_available mount_errors installed config layout f in
    let (known, which) =
      merged_over-IsMerged cached config boot_owned fallback m
        (λ x j.
          unmounted-app_modules installed config plan mount_errors x (subst (In x) (sym shown) j))
        (subst (In m) (sym (ok-injective g)) i) in
    let same : lists fallback m.id ≡ is_installed installed m.id =
      ap (λ (l : List AppModule). lists l m.id) (sym shown)
      ∙ lists-app_modules installed config plan mount_errors m.id in
    (
      known,
      elim which [
        | inl l ↦ inl (sym same ∙ l)
        | inr (l, rest) ↦ inr (sym same ∙ l, rest.0, rest.1, rest.2)
      ],
    )
