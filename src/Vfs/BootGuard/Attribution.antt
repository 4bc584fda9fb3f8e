-- ===== src/Vfs/BootGuard/Attribution.antt =====
-- vfs/boot_guard.rs: a marker speaks for the build, and for the kernel object, that it names.
use meta_hybrid_mount.Prelude.{
  ◌≡◌, refl, ap, true, Option, none, some, Option-cases, Bool-cases, inl, inr, List, sym, ◌∙◌, ◌↔◌,
  any-In, In,
}
use meta_hybrid_mount.Text.{Text, bytes, text_eq_refl}
use meta_hybrid_mount.Errors.{Result-cases, ok, err, lkm_attempt_incomplete, ok-injective}
use meta_hybrid_mount.Exec.{first_part, second_part, pair_of_parts}
use meta_hybrid_mount.Vfs.BootGuard.{
  kernel_module, GuardIdentity, Platform, current, for_object, file_identity, GuardRecord,
  describe_record, VfsGuardVerdict, absent, own, foreign, lkm_marker, Disk, put_file, Faults,
  no_faults, decoded, lkm_attempt_payload, verdict_of, inspect_at, read_marker, VfsGuardState,
  parse, matches, verdict_of_record,
}
use meta_hybrid_mount.Vfs.BootGuard.Files.{retired, clear_at, rule_verdict, rule_guard}
use meta_hybrid_mount.Vfs.BootGuard.LkmGuard.{
  is_text, blames_packaged_object, retire_lkm_guard, prepare_lkm_guard_at, prepare_lkm_guard,
}
use meta_hybrid_mount.Vfs.BootGuard.RoundTrip.{
  record_for, IsPlainPlatform, verdict_of-lkm_attempt_payload,
}
use meta_hybrid_mount.Vfs.BootGuard.Recovery.{clear_at-eq-ok, verdict_of-absent}
use meta_hybrid_mount.Vfs.BootGuard.Crash.{Stands}
use meta_hybrid_mount.Text.Graphic.{IsPlain}

-- The module load marker is the build's own, and names an object that a candidate still is.
abbrev pub BlocksLoad : Platform → List Text → Disk → Type 0
BlocksLoad p candidates d =
    (r : GuardRecord) × (verdict_of (current p) (decoded d.lkm_file) ≡ own r)
    × (blames_packaged_object p r candidates ≡ true)

recorded : GuardRecord → VfsGuardVerdict → GuardRecord
recorded r absent = r
recorded r (own s) = s
recorded r (foreign s) = r

own-injective : {r s : GuardRecord} → own r ≡ own s → r ≡ s
unfolding recorded
own-injective {r} h = ap (recorded r) h

cleared_marker :
    (f : Faults) (d d' : Disk)
    → (retired (clear_at f lkm_marker d).0 ≡ ok tt)
    → (clear_at f lkm_marker d).1 ≡ d'
    → d' ≡ put_file lkm_marker none d
cleared_marker f d d' h k = elim (Result-cases (clear_at f lkm_marker d).0) [
  | inl (b, e) ↦ (clear_at-eq-ok f lkm_marker d d' b (pair_of_parts e k)).1
  | inr (error, e) ↦ cc (rw e at h)
]

retire_lkm_guard-eq-ok :
    (p : Platform) (f : Faults) (candidates : List Text) (verdict : VfsGuardVerdict) (d d' : Disk)
    → (verdict ≡ absent → d.lkm_file ≡ none)
    → retire_lkm_guard p f lkm_marker candidates verdict d ≡ (ok tt, d')
    → (d' ≡ put_file lkm_marker none d)
      × ¬ ((r : GuardRecord) × (verdict ≡ own r) × (blames_packaged_object p r candidates ≡ true))
unfolding retire_lkm_guard
retire_lkm_guard-eq-ok p f candidates absent d d' a h =
    (sym (second_part h) ∙ (λ i. record d { lkm_file = a refl i }), λ (r, e, b). cc)
retire_lkm_guard-eq-ok p f candidates (foreign r) d d' a h =
    (cleared_marker f d d' (first_part h) (second_part h), λ (r, e, b). cc)
retire_lkm_guard-eq-ok p f candidates (own r) d d' a h =
    elim (Bool-cases (blames_packaged_object p r candidates)) [
      | inl e ↦ cc (rw e at h)
      | inr e ↦ (
        cleared_marker f d d' (first_part (rw e at h)) (second_part (rw e at h)),
        λ (s, q, b). let same : r ≡ s = own-injective q in cc (rw (← same, e) at b),
      )
    ]

-- Where a search for a module may go on, whatever failed on the way, the module load marker is
-- gone and the rule marker is as it was, and the marker that was there, if it was the build's own,
-- blamed no object that is still among the candidates.
pub prepare_lkm_guard-Clear :
    (p : Platform) (f : Faults) (candidates : List Text) (d d' : Disk)
    → prepare_lkm_guard p f candidates d ≡ (ok tt, d')
    → (d' ≡ put_file lkm_marker none d) × ¬ BlocksLoad p candidates d
unfolding prepare_lkm_guard prepare_lkm_guard_at inspect_at read_marker retire_lkm_guard clear_at
prepare_lkm_guard-Clear p f candidates d d' h = elim (Option-cases f.read) [
  | inr (code, e) ↦ cc (rw e at h)
  | inl e ↦
      retire_lkm_guard-eq-ok p f candidates (verdict_of (current p) (decoded d.lkm_file)) d d'
        (verdict_of-absent (current p) d.lkm_file) (rw e at h)
]

rule_verdict-own :
    (build : GuardIdentity) (text : Option Text)
    → (rule_verdict build text ≡ bytes "own")
      ↔ ((r : GuardRecord) × (verdict_of build text ≡ own r))
unfolding verdict_of verdict_of_record
rule_verdict-own build none = (λ h. cc, λ (r, h). cc)
rule_verdict-own build (some text) = elim (Option-cases (parse text)) [
  | inl e ↦ rw e (λ h. cc, λ (r, h). cc)
  | inr (r, e) ↦ elim (Bool-cases (matches r build)) [
    | inl m ↦ rw e (rw m (λ h. (r, refl), λ h. refl))
    | inr m ↦ rw e (rw m (λ h. cc, λ (s, h). cc))
  ]
]

-- What `hybrid-mount vfs guard` reports as `own` is the rule marker at which the build's mutations
-- are refused, where the report is made.
pub rule_guard-Stands :
    (p : Platform) (f : Faults) (d : Disk) (state : VfsGuardState)
    → rule_guard p f d ≡ ok state
    → (state.verdict ≡ bytes "own") ↔ Stands (current p) d
unfolding rule_guard read_marker
rule_guard-Stands p f d state h = elim (Option-cases f.read) [
  | inr (code, e) ↦ cc (rw e at h)
  | inl e ↦
      let reported : rule_verdict (current p) (decoded d.rule_file) ≡ state.verdict =
        ap (λ s. s.verdict) (ok-injective (rw e at h)) in
      rw (← reported) (rule_verdict-own (current p) (decoded d.rule_file))
]

attempt_blames :
    (p q : Platform) (candidate : Text) (candidates : List Text)
    → file_identity q candidate ≡ file_identity p candidate
    → In candidate candidates
    → blames_packaged_object q
        (record_for p kernel_module (for_object p (file_identity p candidate)))
        candidates
      ≡ true
unfolding blames_packaged_object for_object
attempt_blames p q candidate candidates e m = elim (Option-cases (file_identity p candidate)) [
  | inl o ↦ rw o refl
  | inr (object, o) ↦ rw o (
      any-In (λ c. is_text (file_identity q c) object) candidates candidate m
        (rw (e, o) (text_eq_refl object)))
]

-- An attempt to load a module that did not return leaves a marker at which the same build later
-- refuses to search for a module, and leaves the disk as it is, while the object of the attempt is
-- still among the candidates; the build's version, the boot identity and the candidate's path are
-- printable ASCII without spaces.
pub interrupted_load-Refused :
    (p q : Platform) (candidate : Text) (candidates : List Text) (d : Disk)
    → IsPlainPlatform p
    → IsPlain candidate
    → d.lkm_file ≡ some (lkm_attempt_payload p candidate)
    → current q ≡ current p
    → file_identity q candidate ≡ file_identity p candidate
    → In candidate candidates
    → prepare_lkm_guard q no_faults candidates d ≡ (
      err (
          lkm_attempt_incomplete (
            describe_record
              (record_for p kernel_module (for_object p (file_identity p candidate))))),
      d,
    )
unfolding prepare_lkm_guard prepare_lkm_guard_at inspect_at read_marker retire_lkm_guard
interrupted_load-Refused p q candidate candidates d plain c file same object m =
    rw (file, same, verdict_of-lkm_attempt_payload p candidate plain c)
      (rw (attempt_blames p q candidate candidates object m) refl)
