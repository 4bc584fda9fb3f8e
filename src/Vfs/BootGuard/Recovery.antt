-- ===== src/Vfs/BootGuard/Recovery.antt =====
-- vfs/boot_guard.rs: how a build gets past a marker, and what a failed arming leaves.
use meta_hybrid_mount.Text.{bytes}
use meta_hybrid_mount.Prelude.{
  ℕ, ◌≡◌, refl, ap, Bool, true, false, Option, none, some, Option-cases, Bool-cases, inl, inr, List,
  [], sym, ◌∙◌, ◌⊎◌,
}
use meta_hybrid_mount.Text.Utf8.{from_utf8_lossy}
use meta_hybrid_mount.Errors.{ok, err, ok-injective, >>=-eq-ok, guard_context, os_error}
use meta_hybrid_mount.Exec.{continue-eq-ok, first_part, second_part, pair_of_parts}
use meta_hybrid_mount.Vfs.BootGuard.{
  path_text, bytes, VfsMutationSource, GuardIdentity, Platform, current, GuardRecord,
  VfsGuardVerdict, absent, own, foreign, marker_payload, MarkerPath, rule_marker, lkm_marker, Disk,
  file_at, put_file, Faults, no_faults, decoded, verdict_of, verdict_of_record, parse, matches,
  inspect, inspect_at, read_marker,
}
use meta_hybrid_mount.Vfs.BootGuard.Files.{
  write_marker, arm_at, arm, drop_guard, clear_at, clear_rule_guard, arm_for_mutation,
}
use meta_hybrid_mount.Vfs.BootGuard.LkmGuard.{add_cleared, clear_guards}
use meta_hybrid_mount.Vfs.BootGuard.RoundTrip.{
  record_for, IsPlainPlatform, current-IsPlain, verdict_of-marker_payload,
}
use meta_hybrid_mount.Vfs.BootGuard.Crash.{Stands, Attempts, Attempts-Stands}

arm_empty :
    (p : Platform) (source : VfsMutationSource) (d : Disk)
    → arm p no_faults source (put_file rule_marker none d)
      ≡ (ok rule_marker, put_file rule_marker (some (marker_payload p source (current p))) d)
unfolding arm arm_at write_marker
arm_empty p source d = refl

unmarked : (d : Disk) → d.rule_file ≡ none → put_file rule_marker none d ≡ d
unmarked d q = λ i. record d { rule_file = sym q i }

verdict-cases :
    (v : VfsGuardVerdict)
    → ((r : GuardRecord) × (v ≡ own r))
      ⊎ ((v ≡ absent) ⊎ ((r : Option GuardRecord) × (v ≡ foreign r)))
verdict-cases absent = inr (inl refl)
verdict-cases (own r) = inl (r, refl)
verdict-cases (foreign r) = inr (inr (r, refl))

pub verdict_of-absent :
    (build : GuardIdentity) (file : Option (List ℕ))
    → verdict_of build (decoded file) ≡ absent
    → file ≡ none
unfolding verdict_of verdict_of_record decoded
verdict_of-absent build none h = refl
verdict_of-absent build (some body) h = elim (Option-cases (parse (from_utf8_lossy body))) [
  | inl e ↦ cc (rw (e, verdict_of_record) at h)
  | inr (r, e) ↦ elim (Bool-cases (matches r build)) [
    | inl m ↦ cc (rw (e, verdict_of_record, m) at h)
    | inr m ↦ cc (rw (e, verdict_of_record, m) at h)
  ]
]

-- Where the marker on the disk is not the build's own and no call fails, a mutation is armed,
-- the marker then is what this build writes, and dropping the guard leaves no rule marker and the
-- other marker as it was.
pub arm_for_mutation-Armed :
    (p : Platform) (source : VfsMutationSource) (d : Disk)
    → ¬ Stands (current p) d
    → (arm_for_mutation p no_faults source d
        ≡ (ok rule_marker, put_file rule_marker (some (marker_payload p source (current p))) d))
      × (drop_guard no_faults rule_marker (arm_for_mutation p no_faults source d).1
          ≡ put_file rule_marker none d)
unfolding arm_for_mutation inspect inspect_at read_marker clear_rule_guard clear_at drop_guard
arm_for_mutation-Armed p source d h =
    let a = arms in (a, ap (λ x. drop_guard no_faults rule_marker x.1) a)
  where
    arms :
        arm_for_mutation p no_faults source d
        ≡ (ok rule_marker, put_file rule_marker (some (marker_payload p source (current p))) d)
    arms = elim (verdict-cases (verdict_of (current p) (decoded d.rule_file))) [
      | inl own_marker ↦ absurd (h own_marker)
      | inr (inl e) ↦
          let q = verdict_of-absent (current p) d.rule_file e in
          rw (e) (rw (← unmarked d q) (arm_empty p source d))
      | inr (inr (r, e)) ↦ elim (Option-cases d.rule_file) [
        | inl q ↦ rw (e, q) (arm_empty p source d)
        | inr (body, q) ↦ rw (e, q) (arm_empty p source d)
      ]
    ]

-- Whether a marker is there.
abbrev pub is_there : Option (List ℕ) → Bool
is_there none = false
is_there (some body) = true

pub clear_at-eq-ok :
    (f : Faults) (path : MarkerPath) (d d' : Disk) (was_there : Bool)
    → clear_at f path d ≡ (ok was_there, d')
    → (was_there ≡ is_there (file_at path d)) × (d' ≡ put_file path none d)
unfolding clear_at
clear_at-eq-ok f path d d' was_there h = elim (Option-cases f.remove) [
  | inr (code, e) ↦ cc (rw e at h)
  | inl e ↦ elim (Option-cases (file_at path d)) [
    | inl q ↦
        let k = rw (e, q) at h in (rw q (sym (ok-injective (first_part k))), sym (second_part k))
    | inr (body, q) ↦
        let k = rw (e, q) at h in (rw q (sym (ok-injective (first_part k))), sym (second_part k))
  ]
]

-- When clearing both guards succeeds, the paths it returns are those of the markers that were
-- there, none is left, and any build's next mutation is armed if no call of it fails.
pub clear_guards-Clears :
    (f g : Faults) (d d' : Disk) (paths : List MarkerPath) (p : Platform)
    (source : VfsMutationSource)
    → clear_guards f g d ≡ (ok paths, d')
    → (paths
        ≡ add_cleared rule_marker
            (is_there d.rule_file)
            (add_cleared lkm_marker (is_there d.lkm_file) []))
      × (d' ≡ record { rule_file = none; lkm_file = none })
      × ((arm_for_mutation p no_faults source d').0 ≡ ok rule_marker)
unfolding clear_guards arm_for_mutation inspect inspect_at read_marker decoded verdict_of arm arm_at
    write_marker
clear_guards-Clears f g d d' paths p source h =
    let (was_first, e, k) =
      continue-eq-ok (clear_at f rule_marker d).0 _ (clear_at f rule_marker d).1 h in
    let (b, q) =
      clear_at-eq-ok f rule_marker d (clear_at f rule_marker d).1 was_first
        (pair_of_parts e refl) in
    let d1 = (clear_at f rule_marker d).1 in
    let (was_second, e2, k2) = >>=-eq-ok (clear_at g lkm_marker d1).0 _ (first_part k) in
    let (b2, q2) =
      clear_at-eq-ok g lkm_marker d1 (clear_at g lkm_marker d1).1 was_second
        (pair_of_parts e2 refl) in
    let gone : d' ≡ record { rule_file = none; lkm_file = none } =
      sym (second_part k) ∙ q2 ∙ ap (put_file lkm_marker none) q in
    (
      sym (ok-injective k2) ∙ rw (b, b2, q) refl,
      gone,
      rw gone (first_part (arm_empty p source (record { rule_file = none; lkm_file = none }))),
    )

-- Arming that fails after the file was written, because the file cannot be synced, leaves the
-- marker of this build: no later attempt of the build goes on to the kernel, although no mutation
-- ever did; the build's version and the boot identity are printable ASCII without spaces.
pub unsynced_blocks :
    (p : Platform) (source : VfsMutationSource) (d : Disk) (code n : ℕ) (after : Disk)
    → IsPlainPlatform p
    → d.rule_file ≡ none
    → Attempts
        (current p)
        (arm_for_mutation p (record no_faults { sync = some code }) source d).1
        n
        after
    → ((arm_for_mutation p (record no_faults { sync = some code }) source d).0
        ≡ err
            (guard_context (bytes "write vfs boot guard") (path_text rule_marker) (os_error code)))
      × (n ≡ 0)
unfolding arm_for_mutation inspect inspect_at read_marker decoded verdict_of arm arm_at write_marker
unsynced_blocks p source d code n after plain e attempts =
    let f = record no_faults { sync = some code } in
    let left : arm_for_mutation p f source d ≡ (
      err (guard_context (bytes "write vfs boot guard") (path_text rule_marker) (os_error code)),
      put_file rule_marker (some (marker_payload p source (current p))) d,
    ) =
      rw (e, decoded) refl in
    (
      first_part left,
      (Attempts-Stands
          (
            record_for p source (current p),
            rw left
                (verdict_of-marker_payload p source (current p) (current-IsPlain p plain) plain.1),
          )
          attempts).0,
    )
