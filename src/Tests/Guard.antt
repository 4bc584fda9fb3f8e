-- ===== src/Tests/Guard.antt =====
-- Runs and instances for the boot guards.
use meta_hybrid_mount.Text.Trim.{trim_by, trim}
use meta_hybrid_mount.Text.Lines.{join_with, split_equals, lines}
use meta_hybrid_mount.Text.Decimal.{digits, decimal}
use meta_hybrid_mount.Text.Utf8.{from_utf8_lossy}
use meta_hybrid_mount.Prelude.{ℕ, ◌≡◌, refl, none, some, [], ◌∷◌, arith, inl}
use meta_hybrid_mount.Text.{bytes}
use meta_hybrid_mount.Errors.{
  guard_standing, ok, err, guard_context, os_error, lkm_attempt_incomplete,
}
use meta_hybrid_mount.Vfs.BootGuard.{
  foreign, inspect, inspect_at, read_marker, verdict_of_record, parse, known, is_unset, read_lines,
  read_line, set_key, matches, same_part, stat_identity, Platform, VfsGuardState, Metadata, boot,
  cleanup, runtime, Disk, Faults, no_faults, rule_marker, lkm_marker, put_file, current, own,
  verdict_of, decoded, marker_payload, lkm_attempt_payload, path_text, file_identity, for_object,
  kernel_module, describe_record,
}
use meta_hybrid_mount.Vfs.BootGuard.Files.{
  clear_at, write_marker, arm_at, arm, arm_for_mutation, drop_guard, rule_guard,
}
use meta_hybrid_mount.Vfs.BootGuard.LkmGuard.{
  prepare_lkm_guard_at, retire_lkm_guard, blames_packaged_object, clear_guards, prepare_lkm_guard,
}
use meta_hybrid_mount.Vfs.BootGuard.RoundTrip.{
  record_for, IsPlainPlatform, current-IsPlain, verdict_of-marker_payload,
}
use meta_hybrid_mount.Vfs.BootGuard.Crash.{
  Stands, Attempts, none_yet, then_one, refused, interrupted_blocks,
}
use meta_hybrid_mount.Vfs.BootGuard.Recovery.{
  arm_for_mutation-Armed, clear_guards-Clears, unsynced_blocks,
}
use meta_hybrid_mount.Vfs.BootGuard.Attribution.{interrupted_load-Refused}

abbrev object : Metadata
object = record { len = 4096; modified = some 1700000000 }

abbrev build : Platform
build = record {
  package_version = bytes "6.0.1";
  executable = some (record { len = 123; modified = some 45 });
  boot_id = some (bytes "0f-12");
  metadata = λ path. some object;
}

abbrev no_runs : ℕ
no_runs = 0

abbrev fresh : Disk
fresh = record { rule_file = none; lkm_file = none }

abbrev marked : Disk
marked = put_file rule_marker (some (marker_payload build boot (current build))) fresh

build-IsPlainPlatform : IsPlainPlatform build
build-IsPlainPlatform = ((omega arith, refl), (omega arith, refl))

verdict_of-marker_payload_example :
    verdict_of (current build) (decoded (some (marker_payload build boot (current build))))
    ≡ own (record_for build boot (current build))
verdict_of-marker_payload_example =
    verdict_of-marker_payload build boot (current build)
      (current-IsPlain build build-IsPlainPlatform) (omega arith, refl)

arms_fresh : arm_for_mutation build no_faults boot fresh ≡ (ok rule_marker, marked)
unfolding arm_for_mutation inspect inspect_at read_marker verdict_of decoded arm arm_at write_marker
arms_fresh = refl

-- A later attempt of the same build is refused.
refuses :
    arm_for_mutation build no_faults runtime marked
    ≡ (err (guard_standing (describe_record (record_for build boot (current build)))), marked)
unfolding arm_for_mutation prepare_lkm_guard prepare_lkm_guard_at retire_lkm_guard
    blames_packaged_object inspect inspect_at read_marker decoded from_utf8_lossy verdict_of
    verdict_of_record parse known is_unset lines read_lines read_line split_equals trim trim_by
    set_key matches same_part current for_object file_identity stat_identity decimal digits
    marker_payload lkm_attempt_payload describe_record join_with clear_at
refuses = refl

later : Attempts (current build) marked 0 marked
later = then_one none_yet (refused build no_faults runtime refl refuses)

interrupted_blocks_example : (no_runs ≡ 0) × (marked ≡ marked)
interrupted_blocks_example =
    interrupted_blocks build no_faults boot fresh marked rule_marker build-IsPlainPlatform
      arms_fresh 0 marked later

-- The legacy marker of one byte.
abbrev legacy : Disk
legacy = put_file rule_marker (some (49 ∷ [])) fresh

legacy_verdict : verdict_of (current build) (decoded legacy.rule_file) ≡ foreign none
unfolding arm_for_mutation prepare_lkm_guard prepare_lkm_guard_at retire_lkm_guard
    blames_packaged_object inspect inspect_at read_marker decoded from_utf8_lossy verdict_of
    verdict_of_record parse known is_unset lines read_lines read_line split_equals trim trim_by
    set_key matches same_part current for_object file_identity stat_identity decimal digits
    marker_payload lkm_attempt_payload describe_record join_with clear_at
legacy_verdict = refl

legacy_is_foreign : ¬ Stands (current build) legacy
legacy_is_foreign (r, e) = cc (legacy_verdict)

arm_for_mutation-Armed_example :
    (arm_for_mutation build no_faults cleanup legacy ≡ (
      ok rule_marker,
      put_file rule_marker (some (marker_payload build cleanup (current build))) legacy,
    ))
    × (drop_guard no_faults rule_marker (arm_for_mutation build no_faults cleanup legacy).1 ≡ fresh)
arm_for_mutation-Armed_example = arm_for_mutation-Armed build cleanup legacy legacy_is_foreign

clears : clear_guards no_faults no_faults marked ≡ (ok (rule_marker ∷ []), fresh)
unfolding clear_guards clear_at
clears = refl

clear_guards-Clears_example :
    (rule_marker ∷ [] ≡ rule_marker ∷ [])
    × (fresh ≡ fresh)
    × ((arm_for_mutation build no_faults runtime fresh).0 ≡ ok rule_marker)
clear_guards-Clears_example =
    clear_guards-Clears no_faults no_faults marked fresh (rule_marker ∷ []) build runtime clears

abbrev unsynced : Faults
unsynced = record no_faults { sync = some 5 }

unsynced_leaves : arm_for_mutation build unsynced boot fresh ≡ (
  err (guard_context (bytes "write vfs boot guard") (path_text rule_marker) (os_error 5)),
  marked,
)
unfolding arm_for_mutation inspect inspect_at read_marker verdict_of decoded arm arm_at write_marker
unsynced_leaves = refl

unsynced_later : Attempts (current build) (arm_for_mutation build unsynced boot fresh).1 0 marked
unfolding arm_for_mutation inspect inspect_at read_marker verdict_of decoded arm arm_at write_marker
unsynced_later = later

unsynced_blocks_example :
    ((arm_for_mutation build unsynced boot fresh).0
      ≡ err (guard_context (bytes "write vfs boot guard") (path_text rule_marker) (os_error 5)))
    × (no_runs ≡ 0)
unsynced_blocks_example =
    unsynced_blocks build boot fresh 5 0 marked build-IsPlainPlatform refl unsynced_later

abbrev loading : Disk
loading = put_file lkm_marker (some (lkm_attempt_payload build (bytes "/a.ko"))) fresh

interrupted_load-Refused_example :
    prepare_lkm_guard build no_faults (bytes "/a.ko" ∷ []) loading ≡ (
      err (
          lkm_attempt_incomplete (
            describe_record (
              record_for build kernel_module
                (for_object build (file_identity build (bytes "/a.ko")))))),
      loading,
    )
interrupted_load-Refused_example =
    interrupted_load-Refused build build (bytes "/a.ko") (bytes "/a.ko" ∷ []) loading
      build-IsPlainPlatform (omega arith, refl) refl refl refl (inl refl)

-- The package holds no candidate any more, so the marker is retired.
retires : prepare_lkm_guard build no_faults [] loading ≡ (ok tt, fresh)
unfolding arm_for_mutation prepare_lkm_guard prepare_lkm_guard_at retire_lkm_guard
    blames_packaged_object inspect inspect_at read_marker decoded from_utf8_lossy verdict_of
    verdict_of_record parse known is_unset lines read_lines read_line split_equals trim trim_by
    set_key matches same_part current for_object file_identity stat_identity decimal digits
    marker_payload lkm_attempt_payload describe_record join_with clear_at
retires = refl

abbrev report : VfsGuardState
report = record {
  name = bytes "rules";
  path = path_text rule_marker;
  verdict = bytes "own";
  contents = some (marker_payload build boot (current build));
}

reports : rule_guard build no_faults marked ≡ ok report
unfolding rule_guard read_marker decoded parse marker_payload from_utf8_lossy known current is_unset
    stat_identity read_lines decimal lines read_line split_equals trim trim_by set_key matches
    same_part
reports = refl
