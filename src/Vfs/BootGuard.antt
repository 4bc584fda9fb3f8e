-- ===== src/Vfs/BootGuard.antt =====
-- vfs/boot_guard.rs: the markers that a VFS mutation leaves behind when it does not return, on a
-- disk that holds the two of them. What the calls of `std::fs` answer is an argument, `Faults`;
-- what the platform reports about the running build is `Platform`. Log lines are left out.
pub mod Files
pub mod LkmGuard
pub mod Parse
pub mod RoundTrip
pub mod Crash
pub mod Recovery
pub mod Attribution
use meta_hybrid_mount.Prelude.{
  ℕ, Bool, true, false, ◌&&◌, Option, none, some, List, [], ◌∷◌, ◌++◌, take, map, any,
  if◌then◌else◌,
}
use meta_hybrid_mount.Text.{Text, bytes, text_eq, is_empty}
use meta_hybrid_mount.Text.Utf8.{from_utf8_lossy}
use meta_hybrid_mount.Text.Trim.{trim}
use meta_hybrid_mount.Text.Lines.{newline, lines, split_equals, join_with}
use meta_hybrid_mount.Text.Decimal.{decimal}
use meta_hybrid_mount.Errors.{Error, os_error, guard_context, Result, ok, err, ◌>>=◌}

pub data VfsMutationSource : Type 0 where
  boot cleanup runtime kernel_module : VfsMutationSource

abbrev pub source_text : VfsMutationSource → Text
source_text boot = bytes "boot"
source_text cleanup = bytes "cleanup"
source_text runtime = bytes "runtime"
source_text kernel_module = bytes "module"

pub record GuardIdentity : Type 0 where
  pub version : Text
  pub binary : Option Text
  pub object : Option Text

-- The size, and the seconds of the modification time where it can be read.
pub record Metadata : Type 0 where
  pub len : ℕ
  pub modified : Option ℕ

-- The version the build was packaged with, its executable, the boot identity, and `fs::metadata`.
pub record Platform : Type 0 where
  pub package_version : Text
  pub executable : Option Metadata
  pub boot_id : Option Text
  pub metadata : Text → Option Metadata

abbrev pub with_seconds : ℕ → Option ℕ → Option Text
with_seconds len none = none
with_seconds len (some seconds) = some (decimal len ++ (b':' ∷ decimal seconds))

unfoldable pub stat_identity : Metadata → Option Text
stat_identity metadata = with_seconds metadata.len metadata.modified

abbrev pub identity_of : Option Metadata → Option Text
identity_of none = none
identity_of (some metadata) = stat_identity metadata

unfoldable pub file_identity : Platform → Text → Option Text
file_identity p path = identity_of (p.metadata path)

unfoldable pub current : Platform → GuardIdentity
current p = record { version = p.package_version; binary = identity_of p.executable; object = none }

unfoldable pub for_object : Platform → Option Text → GuardIdentity
for_object p object = record (current p) { object = object }

pub record GuardRecord : Type 0 where
  pub version : Option Text
  pub binary : Option Text
  pub object : Option Text
  pub boot_id : Option Text
  pub source : Option Text

abbrev pub no_record : GuardRecord
no_record = record { version = none; binary = none; object = none; boot_id = none; source = none }

-- The body of the `match` on a key.
unfoldable pub set_key : Text → Text → GuardRecord → GuardRecord
set_key key value r =
    if text_eq key (bytes "version")
    then record r { version = some value }
    else if text_eq key (bytes "binary")
    then record r { binary = some value }
    else if text_eq key (bytes "object")
    then record r { object = some value }
    else if text_eq key (bytes "boot")
    then record r { boot_id = some value }
    else if text_eq key (bytes "source")
    then record r { source = some value }
    else r

abbrev pub read_pair : Option (Text × Text) → GuardRecord → GuardRecord
read_pair none r = r
read_pair (some (key, value)) r =
    if is_empty (trim value) then r else set_key (trim key) (trim value) r

-- One round of the loop of `parse`.
unfoldable pub read_line : Text → GuardRecord → GuardRecord
read_line line r = read_pair (split_equals (trim line)) r

unfoldable pub read_lines : List Text → GuardRecord → GuardRecord
read_lines [] r = r
read_lines (line ∷ rest) r = read_lines rest (read_line line r)

unfoldable pub is_unset : Option Text → Bool
is_unset none = true
is_unset (some _) = false

unfoldable pub known : GuardRecord → Option GuardRecord
known r =
    if is_unset r.version
      && (is_unset r.binary && (is_unset r.object && (is_unset r.boot_id && is_unset r.source)))
    then none
    else some r

unfoldable pub parse : Text → Option GuardRecord
parse text = known (read_lines (lines text) no_record)

-- A recorded identity against the running one, which may be unreadable.
unfoldable pub same_part : Option Text → Option Text → Bool
same_part recorded none = true
same_part (some recorded) (some here) = text_eq recorded here
same_part none (some here) = false

abbrev pub same_version : Option Text → Text → Bool
same_version none version = false
same_version (some recorded) version = text_eq recorded version

unfoldable pub matches : GuardRecord → GuardIdentity → Bool
matches r identity =
    if same_version r.version identity.version
    then same_part r.binary identity.binary && same_part r.object identity.object
    else false

abbrev pub or_unknown : Option Text → Text
or_unknown none = bytes "unknown"
or_unknown (some value) = value

abbrev pub part : Text → Option Text → List Text
part key none = []
part key (some value) = (key ++ value) ∷ []

unfoldable pub describe_record : GuardRecord → Text
describe_record r = join_with (bytes ", ") (
    (bytes "version=" ++ or_unknown r.version)
    ∷ (part (bytes "binary=") r.binary
        ++ (part (bytes "object=") r.object
            ++ (part (bytes "boot=") r.boot_id ++ part (bytes "source=") r.source))))

pub data VfsGuardVerdict : Type 0 where
  absent : VfsGuardVerdict
  own : GuardRecord → VfsGuardVerdict
  foreign : Option GuardRecord → VfsGuardVerdict

abbrev pub key_line : Text → Option Text → Text
key_line key none = []
key_line key (some value) = key ++ (value ++ (newline ∷ []))

unfoldable pub marker_payload : Platform → VfsMutationSource → GuardIdentity → Text
marker_payload p source identity =
    key_line (bytes "version=") (some identity.version)
    ++ (key_line (bytes "binary=") identity.binary
        ++ (key_line (bytes "object=") identity.object
            ++ (key_line (bytes "boot=") p.boot_id
                ++ key_line (bytes "source=") (some (source_text source)))))

unfoldable pub lkm_attempt_payload : Platform → Text → Text
lkm_attempt_payload p candidate =
    marker_payload p kernel_module (for_object p (file_identity p candidate))
    ++ key_line (bytes "lkm=") (some candidate)

pub record VfsGuardState : Type 0 where
  pub name : Text
  pub path : Text
  pub verdict : Text
  pub contents : Option Text

-- The two markers, at `defs::VFS_BOOT_GUARD_PATH` and `defs::VFS_LKM_BOOT_GUARD_PATH`.
pub data MarkerPath : Type 0 where
  rule_marker lkm_marker : MarkerPath

abbrev pub path_text : MarkerPath → Text
path_text rule_marker = bytes "/data/adb/hybrid-mount/vfs_boot_guard"
path_text lkm_marker = bytes "/data/adb/hybrid-mount/vfs_lkm_boot_guard"

pub record Disk : Type 0 where
  pub rule_file : Option (List ℕ)
  pub lkm_file : Option (List ℕ)

abbrev pub file_at : MarkerPath → Disk → Option (List ℕ)
file_at rule_marker d = d.rule_file
file_at lkm_marker d = d.lkm_file

abbrev pub put_file : MarkerPath → Option (List ℕ) → Disk → Disk
put_file rule_marker body d = record d { rule_file = body }
put_file lkm_marker body d = record d { lkm_file = body }

-- The error with which a call fails, if it does; `write_all` may leave a part of the bytes.
pub record Faults : Type 0 where
  pub read : Option ℕ
  pub remove : Option ℕ
  pub create : Option ℕ
  pub write : Option (ℕ × ℕ)
  pub sync : Option ℕ
  pub sync_parent : Option ℕ

abbrev pub no_faults : Faults
no_faults = record {
  read = none;
  remove = none;
  create = none;
  write = none;
  sync = none;
  sync_parent = none;
}

unfoldable pub decoded : Option (List ℕ) → Option Text
decoded none = none
decoded (some body) = some (from_utf8_lossy body)

abbrev pub in_context : {A : Type 0} → Text → MarkerPath → Result A → Result A
in_context operation path (ok a) = ok a
in_context operation path (err e) = err (guard_context operation (path_text path) e)

abbrev pub or_fault : {A : Type 0} → Option ℕ → A → Result A
or_fault none a = ok a
or_fault (some code) a = err (os_error code)

unfoldable pub read_marker : Faults → MarkerPath → Disk → Result (Option Text)
read_marker f path d =
    in_context (bytes "read vfs boot guard") path (or_fault f.read (decoded (file_at path d)))

unfoldable pub verdict_of_record : GuardIdentity → Option GuardRecord → VfsGuardVerdict
verdict_of_record identity none = foreign none
verdict_of_record identity (some r) = if matches r identity then own r else foreign (some r)

unfoldable pub verdict_of : GuardIdentity → Option Text → VfsGuardVerdict
verdict_of identity none = absent
verdict_of identity (some text) = verdict_of_record identity (parse text)

unfoldable pub inspect_at : Faults → MarkerPath → GuardIdentity → Disk → Result VfsGuardVerdict
inspect_at f path identity d = read_marker f path d >>= λ text. ok (verdict_of identity text)

unfoldable pub inspect : Platform → Faults → Disk → Result VfsGuardVerdict
inspect p f d = inspect_at f rule_marker (current p) d
