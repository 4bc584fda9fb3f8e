-- ===== src/Vfs/BootGuard/Crash.antt =====
-- vfs/boot_guard.rs: a mutation that did not return keeps its build away from the kernel.
use meta_hybrid_mount.Vfs.BootGuard.RoundTrip.{
  current-IsPlain, verdict_of-marker_payload, record_for, IsPlainPlatform,
}
use meta_hybrid_mount.Prelude.{
  ℕ, Option-cases, inl, inr, ◌+◌, ◌≡◌, refl, Option, none, some, List, sym, ◌∙◌, subst, arith,
}
use meta_hybrid_mount.Text.{Text, bytes}
use meta_hybrid_mount.Errors.{
  os_error, guard_context, guard_standing, Result, Error, ok-injective, ok, err, ◌>>◌,
}
use meta_hybrid_mount.Exec.{continue-eq-ok, continue, Exec, first_part, second_part, pair_of_parts}
use meta_hybrid_mount.Vfs.BootGuard.{
  foreign, path_text, VfsGuardVerdict, absent, describe_record, marker_payload, VfsMutationSource,
  GuardIdentity, Platform, current, GuardRecord, own, MarkerPath, rule_marker, Disk, file_at,
  put_file, Faults, or_fault, decoded, verdict_of, in_context, read_marker, inspect_at, inspect,
}
use meta_hybrid_mount.Vfs.BootGuard.Files.{
  retire_for_mutation, clear_at, clear_rule_guard, arm_at, write_marker, not_there, write_all, arm,
  drop_guard, arm_for_mutation,
}

-- The rule marker is the build's own.
abbrev pub Stands : GuardIdentity → Disk → Type 0
Stands build d = (r : GuardRecord) × (verdict_of build (decoded (file_at rule_marker d)) ≡ own r)

-- What the parts of a mutation can do to the disk, with the number of times that the mutation
-- goes on to the kernel. The platform's boot identity, the faults and the source may differ from
-- one to the next; the build is the same.
pub data Attempt (build : GuardIdentity) : Disk → ℕ → Disk → Type 0 where
  refused :
      {d d' : Disk} {e : Error} (p : Platform) (f : Faults) (source : VfsMutationSource)
      → current p ≡ build
      → arm_for_mutation p f source d ≡ (err e, d')
      → Attempt build d 0 d'
  returned :
      {d d' : Disk} {guard : MarkerPath} (p : Platform) (f g : Faults) (source : VfsMutationSource)
      → current p ≡ build
      → arm_for_mutation p f source d ≡ (ok guard, d')
      → Attempt build d 1 (drop_guard g guard d')
  interrupted :
      {d d' : Disk} {guard : MarkerPath} (p : Platform) (f : Faults) (source : VfsMutationSource)
      → current p ≡ build
      → arm_for_mutation p f source d ≡ (ok guard, d')
      → Attempt build d 1 d'

pub data Attempts (build : GuardIdentity) (d : Disk) : ℕ → Disk → Type 0 where
  none_yet : Attempts build d 0 d
  then_one :
      {n k : ℕ} {u v : Disk}
      → Attempts build d n u
      → Attempt build u k v
      → Attempts build d (n + k) v

standing_refuses :
    (p : Platform) (f : Faults) (source : VfsMutationSource) (d : Disk)
    → Stands (current p) d
    → (e : Error) × (arm_for_mutation p f source d ≡ (err e, d))
unfolding arm_for_mutation inspect inspect_at read_marker
standing_refuses p f source d (r, s) = elim (Option-cases f.read) [
  | inl e ↦ (guard_standing (describe_record r), rw (e, s) refl)
  | inr (code, e) ↦ (
    guard_context (bytes "read vfs boot guard") (path_text rule_marker) (os_error code),
    rw e refl,
  )
]

Stands-refuses :
    (build : GuardIdentity) (p : Platform) (f : Faults) (source : VfsMutationSource) (d : Disk)
    → current p ≡ build
    → Stands build d
    → (e : Error) × (arm_for_mutation p f source d ≡ (err e, d))
Stands-refuses build p f source d q (r, s) = standing_refuses p f source d (r, rw q s)

Attempt-Stands :
    {build : GuardIdentity} {d : Disk} {n : ℕ} {d' : Disk}
    → Stands build d
    → Attempt build d n d'
    → (n ≡ 0) × (d' ≡ d)
Attempt-Stands {build} {d} s (refused p f source q h) =
    let (e, r) = Stands-refuses build p f source d q s in (refl, second_part (sym h ∙ r))
Attempt-Stands {build} {d} s (returned p f g source q h) =
    let (e, r) = Stands-refuses build p f source d q s in cc
Attempt-Stands {build} {d} s (interrupted p f source q h) =
    let (e, r) = Stands-refuses build p f source d q s in cc

pub Attempts-Stands :
    {build : GuardIdentity} {d : Disk} {n : ℕ} {d' : Disk}
    → Stands build d
    → Attempts build d n d'
    → (n ≡ 0) × (d' ≡ d)
Attempts-Stands s none_yet = (refl, refl)
Attempts-Stands {build} {d} s (then_one more last) =
    let (a, q) = Attempts-Stands s more in
    let (b, r) = Attempt-Stands (subst (λ x. Stands build x) (sym q) s) last in (omega arith, r ∙ q)

-- The closure of `arm_at` on the answers of its calls.
steps :
    Option ℕ
    → Option (List ℕ)
    → Option (ℕ × ℕ)
    → Option ℕ
    → Option ℕ
    → MarkerPath
    → Text
    → Exec Disk (Unit {0})
steps create there write sync parent path payload d =
    continue (or_fault create tt >> not_there there)
      (λ _ d.
        continue (write_all write path payload d).0
          (λ _ d. (or_fault sync tt >> or_fault parent tt, d)) (write_all write path payload d).1)
      d

steps-eq-ok :
    (create : Option ℕ) (there : Option (List ℕ)) (write : Option (ℕ × ℕ)) (sync parent : Option ℕ)
    (path : MarkerPath) (payload : Text) (d d' : Disk)
    → steps create there write sync parent path payload d ≡ (ok tt, d')
    → (there ≡ none) × (d' ≡ put_file path (some payload) d)
unfolding steps
steps-eq-ok none none none none none path payload d d' h = (refl, sym (second_part h))
steps-eq-ok none none none none (some c) path payload d d' h = cc
steps-eq-ok none none none (some c) parent path payload d d' h = cc
steps-eq-ok none none (some (n, c)) sync parent path payload d d' h = cc
steps-eq-ok none (some b) write sync parent path payload d d' h = cc
steps-eq-ok (some c) there write sync parent path payload d d' h = cc

pub write_marker-eq-ok :
    (f : Faults) (path : MarkerPath) (payload : Text) (d d' : Disk)
    → write_marker f path payload d ≡ (ok tt, d')
    → (file_at path d ≡ none) × (d' ≡ put_file path (some payload) d)
unfolding write_marker steps
write_marker-eq-ok f path payload d d' =
    steps-eq-ok f.create (file_at path d) f.write f.sync f.sync_parent path payload d d'

in_context-eq-ok :
    (operation : Text) (path : MarkerPath) (r : Result (Unit {0})) (guard : MarkerPath)
    → in_context operation path (r >> ok path) ≡ ok guard
    → (r ≡ ok tt) × (guard ≡ path)
in_context-eq-ok operation path (ok tt) guard h = (refl, sym (ok-injective h))
in_context-eq-ok operation path (err e) guard h = cc

-- What arming leaves on the disk when it succeeds.
pub arm-eq-ok :
    (p : Platform) (f : Faults) (source : VfsMutationSource) (d d' : Disk) (guard : MarkerPath)
    → arm p f source d ≡ (ok guard, d')
    → (d.rule_file ≡ none)
      × (guard ≡ rule_marker)
      × (d' ≡ put_file rule_marker (some (marker_payload p source (current p))) d)
unfolding arm arm_at
arm-eq-ok p f source d d' guard h =
    let m = write_marker f rule_marker (marker_payload p source (current p)) d in
    let (r, g) = in_context-eq-ok _ rule_marker m.0 guard (first_part h) in
    let (t, q) = write_marker-eq-ok f rule_marker _ d d' (pair_of_parts r (second_part h)) in
    (t, g, q)

-- The mutation after the match on what was found.
retired-eq-ok :
    (p : Platform) (f : Faults) (source : VfsMutationSource) (verdict : VfsGuardVerdict)
    (remove : Option ℕ) (d d' : Disk) (guard : MarkerPath)
    → f.remove ≡ remove
    → continue
        (retire_for_mutation f verdict d).0
        (λ _. arm p f source)
        (retire_for_mutation f verdict d).1
      ≡ (ok guard, d')
    → (guard ≡ rule_marker)
      × (d' ≡ put_file rule_marker (some (marker_payload p source (current p))) d)
unfolding clear_rule_guard clear_at arm arm_at write_marker
retired-eq-ok p f source absent remove d d' guard e h =
    let (t, g, q) = arm-eq-ok p f source d d' guard h in (g, q)
retired-eq-ok p f source (own r) remove d d' guard e h = cc
retired-eq-ok p f source (foreign r) (some code) d d' guard e h = cc (rw e at h)
retired-eq-ok p f source (foreign r) none d d' guard e h =
    let d1 = put_file rule_marker none d in
    elim (Option-cases d.rule_file) [
      | inl q ↦ let (t, g, r) = arm-eq-ok p f source d1 d' guard (rw (e, q) at h) in (g, r)
      | inr (body, q) ↦ let (t, g, r) = arm-eq-ok p f source d1 d' guard (rw (e, q) at h) in (g, r)
    ]

pub arm_for_mutation-eq-ok :
    (p : Platform) (f : Faults) (source : VfsMutationSource) (d d' : Disk) (guard : MarkerPath)
    → arm_for_mutation p f source d ≡ (ok guard, d')
    → (guard ≡ rule_marker)
      × (d' ≡ put_file rule_marker (some (marker_payload p source (current p))) d)
unfolding arm_for_mutation
arm_for_mutation-eq-ok p f source d d' guard h =
    let (verdict, e, k) = continue-eq-ok (inspect p f d) _ d h in
    retired-eq-ok p f source verdict f.remove d d' guard refl k

armed-Stands :
    (p : Platform) (f : Faults) (source : VfsMutationSource) (d d' : Disk) (guard : MarkerPath)
    → IsPlainPlatform p
    → arm_for_mutation p f source d ≡ (ok guard, d')
    → Stands (current p) d'
armed-Stands p f source d d' guard plain h =
    let (g, e) = arm_for_mutation-eq-ok p f source d d' guard h in
    (
      record_for p source (current p),
      rw e (verdict_of-marker_payload p source (current p) (current-IsPlain p plain) plain.1),
    )

-- Once a mutation of a build was armed and did not return, no later attempt of that build goes on
-- to the kernel and none changes the markers, however many there are and whatever fails on the
-- way, as long as no one clears the marker and no other build runs; the build's version and the
-- boot identity are printable ASCII without spaces.
pub interrupted_blocks :
    (p : Platform) (f : Faults) (source : VfsMutationSource) (d d' : Disk) (guard : MarkerPath)
    → IsPlainPlatform p
    → arm_for_mutation p f source d ≡ (ok guard, d')
    → (n : ℕ) (after : Disk) → Attempts (current p) d' n after
    → (n ≡ 0) × (after ≡ d')
interrupted_blocks p f source d d' guard plain h n after attempts =
    Attempts-Stands (armed-Stands p f source d d' guard plain h) attempts
