-- ===== src/Vfs/BootGuard/RoundTrip.antt =====
-- vfs/boot_guard.rs: what a build writes into a marker, it reads back as its own.
use meta_hybrid_mount.Text.Utf8.{is_utf8_ascii, from_utf8_lossy_valid}
use meta_hybrid_mount.Text.Decimal.{All-digits, decimal}
use meta_hybrid_mount.Prelude.{
  false, ◌∷◌, ◌<◌, suc, All, [], true, append-nil, ℕ, ◌≡◌, refl, ap, Option, none, some, ◌++◌,
  arith, append_assoc, ◌∙◌, sym,
}
use meta_hybrid_mount.Text.{is_empty, text_eq_refl, Text, bytes}
use meta_hybrid_mount.Text.Lines.{lines}
use meta_hybrid_mount.Text.Graphic.{All-append, IsGraphic, IsPlain, IsPlainOption}
use meta_hybrid_mount.Vfs.BootGuard.{
  lkm_attempt_payload, own, verdict_of_record, decoded, verdict_of, with_seconds, identity_of,
  is_unset, Metadata, file_identity, known, matches, for_object, parse, stat_identity, same_part,
  current, decimal, VfsMutationSource, boot, cleanup, runtime, kernel_module, source_text,
  GuardIdentity, Platform, GuardRecord, no_record, set_key, read_lines, key_line, marker_payload,
}
use meta_hybrid_mount.Vfs.BootGuard.Parse.{literal-IsKey, set_option, read_lines-key_line}

-- The record of what a mutation writes.
abbrev pub record_for : Platform → VfsMutationSource → GuardIdentity → GuardRecord
record_for p source identity = record {
  version = some identity.version;
  binary = identity.binary;
  object = identity.object;
  boot_id = p.boot_id;
  source = some (source_text source);
}

abbrev pub IsPlainIdentity : GuardIdentity → Type 0
IsPlainIdentity identity =
    IsPlain identity.version × IsPlainOption identity.binary × IsPlainOption identity.object

-- The version and the boot identity hold no space, no line break and no byte beyond ASCII.
abbrev pub IsPlainPlatform : Platform → Type 0
IsPlainPlatform p = IsPlain p.package_version × IsPlainOption p.boot_id

source_text-IsPlain : (source : VfsMutationSource) → IsPlain (source_text source)
source_text-IsPlain boot = (omega arith, refl)
source_text-IsPlain cleanup = (omega arith, refl)
source_text-IsPlain runtime = (omega arith, refl)
source_text-IsPlain kernel_module = (omega arith, refl)

-- The settings that the lines of a payload make, one after the other.
set_all : Text → Option Text → Option Text → Option Text → Text → GuardRecord
set_all version binary object boot_id source = set_option (bytes "source") (some source) (
    set_option (bytes "boot") boot_id (
      set_option (bytes "object") object (
        set_option (bytes "binary") binary
          (set_option (bytes "version") (some version) no_record))))

set_all-eq :
    (version : Text) (binary object boot_id : Option Text) (source : Text)
    → set_all version binary object boot_id source ≡ record {
      version = some version;
      binary = binary;
      object = object;
      boot_id = boot_id;
      source = some source;
    }
unfolding set_all set_key
set_all-eq version none none none source = refl
set_all-eq version none none (some x) source = refl
set_all-eq version none (some o) none source = refl
set_all-eq version none (some o) (some x) source = refl
set_all-eq version (some b) none none source = refl
set_all-eq version (some b) none (some x) source = refl
set_all-eq version (some b) (some o) none source = refl
set_all-eq version (some b) (some o) (some x) source = refl

-- The lines of a payload, with what follows them.
read_lines-payload :
    (p : Platform) (source : VfsMutationSource) (identity : GuardIdentity) (rest : Text)
    → IsPlainIdentity identity
    → IsPlainOption p.boot_id
    → read_lines (lines (marker_payload p source identity ++ rest)) no_record
      ≡ read_lines (lines rest) (record_for p source identity)
unfolding marker_payload set_all
read_lines-payload p source identity rest h b =
    let v = key_line (bytes "version=") (some identity.version) in
    let n = key_line (bytes "binary=") identity.binary in
    let o = key_line (bytes "object=") identity.object in
    let t = key_line (bytes "boot=") p.boot_id in
    let s = key_line (bytes "source=") (some (source_text source)) in
    rw (append_assoc v (n ++ (o ++ (t ++ s))) rest) (
      rw (append_assoc n (o ++ (t ++ s)) rest) (
        rw (append_assoc o (t ++ s) rest) (
          rw (append_assoc t s rest) (
            read_lines-key_line (bytes "version") (some identity.version) _ _
              (literal-IsKey (bytes "version") refl) h.0
            ∙ read_lines-key_line (bytes "binary") identity.binary _ _
                (literal-IsKey (bytes "binary") refl) h.1
            ∙ read_lines-key_line (bytes "object") identity.object _ _
                (literal-IsKey (bytes "object") refl) h.2
            ∙ read_lines-key_line (bytes "boot") p.boot_id _ _ (literal-IsKey (bytes "boot") refl) b
            ∙ read_lines-key_line (bytes "source") (some (source_text source)) rest _
                (literal-IsKey (bytes "source") refl) (source_text-IsPlain source)
            ∙ ap (λ r. read_lines (lines rest) r)
                (set_all-eq identity.version identity.binary identity.object p.boot_id
                  (source_text source))))))

-- The record of what was written is read back, whatever other lines come behind it.
known_record :
    (p : Platform) (source : VfsMutationSource) (identity : GuardIdentity)
    → known (record_for p source identity) ≡ some (record_for p source identity)
unfolding known is_unset
known_record p source identity = refl

pub parse-marker_payload :
    (p : Platform) (source : VfsMutationSource) (identity : GuardIdentity)
    → IsPlainIdentity identity
    → IsPlainOption p.boot_id
    → parse (marker_payload p source identity) ≡ some (record_for p source identity)
unfolding parse lines read_lines
parse-marker_payload p source identity h b =
    rw (← append-nil (marker_payload p source identity))
      (rw (read_lines-payload p source identity [] h b) (known_record p source identity))

with_seconds-IsPlain : (len : ℕ) (modified : Option ℕ) → IsPlainOption (with_seconds len modified)
unfolding decimal
with_seconds-IsPlain len none = tt
with_seconds-IsPlain len (some seconds) = (
  All-append IsGraphic (decimal len) _ (graphic len) ((omega arith, omega arith), graphic seconds),
  not_empty (decimal len) _ _,
)
  where
    graphic : (n : ℕ) → All IsGraphic (decimal n)
    graphic n = All-digits IsGraphic (λ k h. (omega arith, omega arith)) (suc n) n [] tt

    not_empty : (s : Text) (c : ℕ) (t : Text) → is_empty (s ++ (c ∷ t)) ≡ false
    not_empty [] c t = refl
    not_empty (x ∷ s) c t = refl

pub identity_of-IsPlain : (m : Option Metadata) → IsPlainOption (identity_of m)
unfolding stat_identity
identity_of-IsPlain none = tt
identity_of-IsPlain (some m) = with_seconds-IsPlain m.len m.modified

pub for_object-IsPlain :
    (p : Platform) (path : Text)
    → IsPlainPlatform p
    → IsPlainIdentity (for_object p (file_identity p path))
unfolding for_object current file_identity
for_object-IsPlain p path h =
    (h.0, identity_of-IsPlain p.executable, identity_of-IsPlain (p.metadata path))

pub current-IsPlain : (p : Platform) → IsPlainPlatform p → IsPlainIdentity (current p)
unfolding current
current-IsPlain p h = (h.0, identity_of-IsPlain p.executable, tt)

pub same_part_refl : (o : Option Text) → same_part o o ≡ true
unfolding same_part
same_part_refl none = refl
same_part_refl (some s) = text_eq_refl s

pub matches-record_for :
    (p : Platform) (source : VfsMutationSource) (identity : GuardIdentity)
    → matches (record_for p source identity) identity ≡ true
unfolding matches
matches-record_for p source identity =
    rw (text_eq_refl identity.version)
      (rw (same_part_refl identity.binary) (same_part_refl identity.object))

IsAscii : Text → Type 0
IsAscii s = All (λ c. c < 0x80) s

graphic-IsAscii : (s : Text) → All IsGraphic s → IsAscii s
unfolding IsAscii
graphic-IsAscii [] h = h
graphic-IsAscii (c ∷ s) (h, hs) = (omega arith, graphic-IsAscii s hs)

key_line-IsAscii :
    (k : Text) (o : Option Text) → IsAscii k → IsPlainOption o → IsAscii (key_line k o)
unfolding IsAscii
key_line-IsAscii k none a h = tt
key_line-IsAscii k (some s) a h =
    All-append _ k _ a (All-append _ s _ (graphic-IsAscii s h.0) (omega arith, tt))

payload-IsAscii :
    (p : Platform) (source : VfsMutationSource) (identity : GuardIdentity)
    → IsPlainIdentity identity
    → IsPlainOption p.boot_id
    → IsAscii (marker_payload p source identity)
unfolding marker_payload IsAscii
payload-IsAscii p source identity h b =
    All-append _ (key_line (bytes "version=") (some identity.version)) _
      (key_line-IsAscii (bytes "version=") (some identity.version) (omega arith) h.0)
      (All-append _ (key_line (bytes "binary=") identity.binary) _
        (key_line-IsAscii (bytes "binary=") identity.binary (omega arith) h.1)
        (All-append _ (key_line (bytes "object=") identity.object) _
          (key_line-IsAscii (bytes "object=") identity.object (omega arith) h.2)
          (All-append _ (key_line (bytes "boot=") p.boot_id) _
            (key_line-IsAscii (bytes "boot=") p.boot_id (omega arith) b)
            (key_line-IsAscii (bytes "source=") (some (source_text source)) (omega arith)
              (source_text-IsPlain source)))))

decoded-payload :
    (p : Platform) (source : VfsMutationSource) (identity : GuardIdentity)
    → IsPlainIdentity identity
    → IsPlainOption p.boot_id
    → decoded (some (marker_payload p source identity)) ≡ some (marker_payload p source identity)
unfolding decoded IsAscii
decoded-payload p source identity h b =
    ap some (from_utf8_lossy_valid _ (is_utf8_ascii _ (payload-IsAscii p source identity h b)))

-- The module load marker: the same record, behind which the candidate's line is ignored.
pub verdict_of-lkm_attempt_payload :
    (p : Platform) (candidate : Text)
    → IsPlainPlatform p
    → IsPlain candidate
    → verdict_of (current p) (decoded (some (lkm_attempt_payload p candidate)))
      ≡ own (record_for p kernel_module (for_object p (file_identity p candidate)))
unfolding verdict_of verdict_of_record decoded lkm_attempt_payload parse known is_unset matches
    lines read_lines current for_object set_key same_part IsAscii
verdict_of-lkm_attempt_payload p candidate plain c =
    let identity = for_object p (file_identity p candidate) in
    let line = key_line (bytes "lkm=") (some candidate) in
    let payload = marker_payload p kernel_module identity in
    let h = for_object-IsPlain p candidate plain in
    let ascii =
      All-append _ payload line (payload-IsAscii p kernel_module identity h plain.1)
        (key_line-IsAscii (bytes "lkm=") (some candidate) (omega arith) c) in
    let last : read_lines (lines line) (record_for p kernel_module identity)
        ≡ record_for p kernel_module identity =
      ap (λ t. read_lines (lines t) (record_for p kernel_module identity)) (sym (append-nil line))
      ∙ (read_lines-key_line (bytes "lkm") (some candidate) [] _ (literal-IsKey (bytes "lkm") refl)
          c) in
    rw (from_utf8_lossy_valid (payload ++ line) (is_utf8_ascii _ ascii)) (
      rw (read_lines-payload p kernel_module identity line h plain.1) (
        rw last (
          rw (text_eq_refl p.package_version)
            (rw (same_part_refl (identity_of p.executable)) refl))))

-- A marker that a build writes, read back from the disk, is that build's own with every fact that
-- was written, where its version, its identities and the boot identity are printable ASCII
-- without spaces.
pub verdict_of-marker_payload :
    (p : Platform) (source : VfsMutationSource) (identity : GuardIdentity)
    → IsPlainIdentity identity
    → IsPlainOption p.boot_id
    → verdict_of identity (decoded (some (marker_payload p source identity)))
      ≡ own (record_for p source identity)
unfolding verdict_of verdict_of_record
verdict_of-marker_payload p source identity h b = rw (decoded-payload p source identity h b) (
    rw (parse-marker_payload p source identity h b)
      (rw (matches-record_for p source identity) refl))
