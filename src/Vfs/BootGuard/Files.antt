-- ===== src/Vfs/BootGuard/Files.antt =====
-- vfs/boot_guard.rs: arming, retiring and reporting the markers.
use meta_hybrid_mount.Prelude.{ℕ, Bool, true, false, Option, none, some, List, take, if◌then◌else◌}
use meta_hybrid_mount.Text.{Text, bytes}
use meta_hybrid_mount.Errors.{os_error, guard_standing, Result, ok, err, ◌>>◌, ◌>>=◌}
use meta_hybrid_mount.Exec.{Exec, continue}
use meta_hybrid_mount.Vfs.BootGuard.{
  VfsMutationSource, GuardIdentity, Platform, current, GuardRecord, parse, matches, describe_record,
  VfsGuardVerdict, absent, own, foreign, marker_payload, VfsGuardState, MarkerPath, rule_marker,
  path_text, Disk, file_at, put_file, Faults, in_context, or_fault, read_marker, inspect,
}

-- `create_new(true)`: the call fails where the file is there.
abbrev pub not_there : Option (List ℕ) → Result (Unit {0})
not_there none = ok tt
not_there (some body) = err (os_error 17)

abbrev pub write_all : Option (ℕ × ℕ) → MarkerPath → Text → Exec Disk (Unit {0})
write_all none path payload d = (ok tt, put_file path (some payload) d)
write_all (some (n, code)) path payload d =
    (err (os_error code), put_file path (some (take n payload)) d)

-- The closure of `arm_at`. What a failed call leaves on the disk stays there.
unfoldable pub write_marker : Faults → MarkerPath → Text → Exec Disk (Unit {0})
write_marker f path payload d =
    continue (or_fault f.create tt >> not_there (file_at path d))
      (λ _ d.
        continue (write_all f.write path payload d).0
          (λ _ d. (or_fault f.sync tt >> or_fault f.sync_parent tt, d))
          (write_all f.write path payload d).1)
      d

unfoldable pub arm_at :
    Platform → Faults → MarkerPath → VfsMutationSource → GuardIdentity → Exec Disk MarkerPath
arm_at p f path source identity d =
    let (r, d') = write_marker f path (marker_payload p source identity) d in
    (in_context (bytes "write vfs boot guard") path (r >> ok path), d')

unfoldable pub arm : Platform → Faults → VfsMutationSource → Exec Disk MarkerPath
arm p f source = arm_at p f rule_marker source (current p)

-- `fs::remove_file`
pub data Removal : Type 0 where
  removed not_found : Removal
  not_removed : ℕ → Removal

abbrev pub removal : Option ℕ → Option (List ℕ) → Removal
removal none none = not_found
removal none (some body) = removed
removal (some code) body = not_removed code

abbrev pub after_removal : Option ℕ → MarkerPath → Disk → Disk
after_removal none path d = put_file path none d
after_removal (some code) path d = d

abbrev pub remove_file : Faults → MarkerPath → Disk → Removal × Disk
remove_file f path d = (removal f.remove (file_at path d), after_removal f.remove path d)

-- `Drop::drop` of the guard: a failure is only logged.
unfoldable pub drop_guard : Faults → MarkerPath → Disk → Disk
drop_guard f path d = (remove_file f path d).1

abbrev pub cleared : MarkerPath → Removal → Result Bool
cleared path removed = ok true
cleared path not_found = ok false
cleared path (not_removed code) =
    in_context (bytes "remove vfs boot guard") path (err (os_error code))

unfoldable pub clear_at : Faults → MarkerPath → Exec Disk Bool
clear_at f path d = let (r, d') = remove_file f path d in (cleared path r, d')

unfoldable pub clear_rule_guard : Faults → Exec Disk Bool
clear_rule_guard f = clear_at f rule_marker

abbrev pub retired : Result Bool → Result (Unit {0})
retired (ok was_there) = ok tt
retired (err e) = err e

-- The match of `arm_for_mutation`, before `arm`.
abbrev pub retire_for_mutation : Faults → VfsGuardVerdict → Exec Disk (Unit {0})
retire_for_mutation f absent d = (ok tt, d)
retire_for_mutation f (foreign r) d = let (c, d') = clear_rule_guard f d in (retired c, d')
retire_for_mutation f (own r) d = (err (guard_standing (describe_record r)), d)

unfoldable pub arm_for_mutation : Platform → Faults → VfsMutationSource → Exec Disk MarkerPath
arm_for_mutation p f source d =
    continue (inspect p f d)
      (λ verdict d.
        let (r, d') = retire_for_mutation f verdict d in continue r (λ _. arm p f source) d')
      d

abbrev pub rule_verdict_of : GuardIdentity → Option GuardRecord → Text
rule_verdict_of identity none = bytes "foreign"
rule_verdict_of identity (some r) = if matches r identity then bytes "own" else bytes "foreign"

abbrev pub rule_verdict : GuardIdentity → Option Text → Text
rule_verdict identity none = bytes "absent"
rule_verdict identity (some text) = rule_verdict_of identity (parse text)

unfoldable pub rule_guard : Platform → Faults → Disk → Result VfsGuardState
rule_guard p f d = do
  contents ← read_marker f rule_marker d
  ok record {
    name = bytes "rules";
    path = path_text rule_marker;
    verdict = rule_verdict (current p) contents;
    contents = contents;
  }
