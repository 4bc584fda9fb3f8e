-- ===== src/Vfs/BootGuard/LkmGuard.antt =====
-- vfs/boot_guard.rs: the marker of a module load attempt, and clearing both markers.
use meta_hybrid_mount.Prelude.{
  Bool, true, false, Option, none, some, List, [], ◌∷◌, any, if◌then◌else◌,
}
use meta_hybrid_mount.Text.{Text, bytes, text_eq}
use meta_hybrid_mount.Errors.{lkm_attempt_incomplete, Result, ok, err, ◌>>=◌}
use meta_hybrid_mount.Exec.{Exec, continue}
use meta_hybrid_mount.Vfs.BootGuard.{
  GuardIdentity, Platform, file_identity, current, GuardRecord, parse, matches, describe_record,
  VfsGuardVerdict, absent, own, foreign, VfsGuardState, MarkerPath, rule_marker, lkm_marker,
  path_text, Disk, Faults, read_marker, inspect_at,
}
use meta_hybrid_mount.Vfs.BootGuard.Files.{clear_at, retired}

abbrev pub is_text : Option Text → Text → Bool
is_text none s = false
is_text (some t) s = text_eq t s

unfoldable pub blames_packaged_object : Platform → GuardRecord → List Text → Bool
blames_packaged_object p r candidates = blames r.object
  where
    blames : Option Text → Bool
    blames none = true
    blames (some object) = any (λ candidate. is_text (file_identity p candidate) object) candidates

unfoldable pub retire_lkm_guard :
    Platform → Faults → MarkerPath → List Text → VfsGuardVerdict → Exec Disk (Unit {0})
retire_lkm_guard p f path candidates absent d = (ok tt, d)
retire_lkm_guard p f path candidates (own r) d =
    if blames_packaged_object p r candidates
    then (err (lkm_attempt_incomplete (describe_record r)), d)
    else (let (c, d') = clear_at f path d in (retired c, d'))
retire_lkm_guard p f path candidates (foreign r) d =
    let (c, d') = clear_at f path d in (retired c, d')

unfoldable pub prepare_lkm_guard_at :
    Platform → Faults → MarkerPath → List Text → Exec Disk (Unit {0})
prepare_lkm_guard_at p f path candidates d =
    continue (inspect_at f path (current p) d) (retire_lkm_guard p f path candidates) d

unfoldable pub prepare_lkm_guard : Platform → Faults → List Text → Exec Disk (Unit {0})
prepare_lkm_guard p f candidates = prepare_lkm_guard_at p f lkm_marker candidates

abbrev pub lkm_verdict_of : GuardIdentity → Option GuardRecord → Text
lkm_verdict_of identity none = bytes "unattributed"
lkm_verdict_of identity (some r) = if matches r identity then bytes "own" else bytes "stale"

abbrev pub lkm_verdict : GuardIdentity → Option Text → Text
lkm_verdict identity none = bytes "absent"
lkm_verdict identity (some text) = lkm_verdict_of identity (parse text)

unfoldable pub lkm_guard_at : Platform → Faults → MarkerPath → Disk → Result VfsGuardState
lkm_guard_at p f path d = do
  contents ← read_marker f path d
  ok record {
    name = bytes "lkm";
    path = path_text lkm_marker;
    verdict = lkm_verdict (current p) contents;
    contents = contents;
  }

unfoldable pub lkm_guard : Platform → Faults → Disk → Result VfsGuardState
lkm_guard p f d = lkm_guard_at p f lkm_marker d

abbrev pub add_cleared : MarkerPath → Bool → List MarkerPath → List MarkerPath
add_cleared path was_there paths = if was_there then path ∷ paths else paths

-- The loop over the two paths.
unfoldable pub clear_guards : Faults → Faults → Exec Disk (List MarkerPath)
clear_guards f g d =
    let (first, d') = clear_at f rule_marker d in
    continue first
      (λ was_first d.
        let (second, d') = clear_at g lkm_marker d in
        (
          second >>= (λ was_second.
              ok (add_cleared rule_marker was_first (add_cleared lkm_marker was_second []))),
          d',
        ))
      d'
