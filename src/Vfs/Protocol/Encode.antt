-- ===== src/Vfs/Protocol/Encode.antt =====
-- vfs/protocol.rs: the requests. A byte and a `u32` are numbers; a cast `as u16`, `as u32` is `%`.
use Prim.Native.Nat.{bit_and}
use meta_hybrid_mount.Prelude.{
  ℕ, ◌+◌, ◌%◌, ◌^◌, Bool, true, false, ◌&&◌, not, ◌||◌, List, [], ◌∷◌, ◌++◌, ltb, ◌==◌,
  if◌then◌else◌, length, replicate,
}
use meta_hybrid_mount.Text.{Text, is_empty}
use meta_hybrid_mount.Text.Utf8.{from_utf8_lossy}
use meta_hybrid_mount.Errors.{
  Result, ok, err, ◌>>=◌, ◌>>◌, require, buffer_exceeds, opaque_needs_provider, single_rule_needs,
  single_del_rule_needs,
}
use meta_hybrid_mount.Vfs.Rule.{VfsAction, inject, whiteout, opaque_dir, VfsRule}
use meta_hybrid_mount.Vfs.Protocol.Words.{u16_bytes, u32_bytes, copy_at}

-- `MAGIC.to_le_bytes()` of the 64-bit signature 0x4859_4252_4944_4D4F
abbrev pub magic_bytes : List ℕ
magic_bytes = 0x4F ∷ 0x4D ∷ 0x44 ∷ 0x49 ∷ 0x52 ∷ 0x42 ∷ 0x59 ∷ 0x48 ∷ []

pub data RuleFormat : Type 0 where
  hybrid_mount nomount_legacy nomount22 : RuleFormat

abbrev pub is_hybrid_mount : RuleFormat → Bool
is_hybrid_mount hybrid_mount = true
is_hybrid_mount _ = false

unfoldable pub extra_bytes : RuleFormat → ℕ
extra_bytes nomount22 = 12
extra_bytes _ = 0

-- What `write_uid_range` appends to its buffer.
unfoldable pub uid_range : RuleFormat → ℕ → List ℕ
uid_range nomount22 uid = u32_bytes uid ++ replicate 8 0
uid_range _ uid = []

abbrev pub payload_len : ℕ
payload_len = 4096

abbrev pub buffer_len : ℕ
buffer_len = 4068

abbrev pub rule_header_len : ℕ
rule_header_len = 12

abbrev pub del_header_len : ℕ
del_header_len = 6

abbrev pub flag_virtual_dir : ℕ
flag_virtual_dir = 2

abbrev pub flag_whiteout : ℕ
flag_whiteout = 4

abbrev pub flag_opaque : ℕ
flag_opaque = 8

-- `flags & !(1 | FLAG_VIRTUAL_DIR)` clears the two low bits of a `u32`.
unfoldable pub without_derived : ℕ → ℕ
without_derived flags = bit_and flags 0xFFFF_FFFC

unfoldable pub is_derived_parent : ℕ → Text → Bool
unfolding without_derived
is_derived_parent flags real_path =
    not (bit_and flags flag_virtual_dir == 0) && (without_derived flags == 0 && is_empty real_path)

pub data NmCommand : Type 0 where
  get_version add_rule del_rule add_uid del_uid clear_all clear_rules clear_uids : NmCommand
  get_list get_uids : NmCommand

unfoldable pub command_number : NmCommand → ℕ
command_number get_version = 1
command_number add_rule = 2
command_number del_rule = 3
command_number add_uid = 4
command_number del_uid = 5
command_number clear_all = 6
command_number clear_rules = 7
command_number clear_uids = 8
command_number get_list = 9
command_number get_uids = 10

pub record EncodedRule : Type 0 where
  pub flags : ℕ
  pub virtual_path : List ℕ
  pub real_path : List ℕ

unfoldable pub record_len : EncodedRule → ℕ
record_len r = rule_header_len + length r.virtual_path + length r.real_path

-- What `write_record` appends to its buffer.
unfoldable pub write_record : EncodedRule → ℕ → RuleFormat → List ℕ
unfolding uid_range
write_record r uid format =
    u32_bytes r.flags
    ++ (u32_bytes uid
        ++ (uid_range format uid
            ++ (u16_bytes (length r.virtual_path % 2 ^ 16)
                ++ (u16_bytes (length r.real_path % 2 ^ 16) ++ (r.virtual_path ++ r.real_path)))))

encode_action : VfsAction → EncodedRule
encode_action (inject virtual_path real_path) = record {
  flags = 0;
  virtual_path = virtual_path;
  real_path = from_utf8_lossy real_path;
}
encode_action (whiteout virtual_path) = record {
  flags = flag_whiteout;
  virtual_path = virtual_path;
  real_path = [];
}
encode_action (opaque_dir virtual_path) = record {
  flags = flag_opaque;
  virtual_path = virtual_path;
  real_path = [];
}

unfoldable pub encode_rule : VfsRule → Result EncodedRule
unfolding encode_action
encode_rule rule = ok (encode_action rule.action)

-- The status word starts as -1, whose bit pattern is 2^32 - 1.
unfoldable pub build_payload : NmCommand → ℕ → List ℕ → Result (List ℕ)
unfolding copy_at command_number
build_payload cmd target_uid buffer =
    if ltb buffer_len (length buffer)
    then err (buffer_exceeds (length buffer))
    else let page0 = replicate payload_len 0 in
      let page1 = copy_at page0 0 magic_bytes in
      let page2 = copy_at page1 8 (u32_bytes (command_number cmd)) in
      let page3 = copy_at page2 12 (u32_bytes target_uid) in
      let page4 = copy_at page3 16 (u32_bytes 0xFFFF_FFFF) in
      let page5 = copy_at page4 24 (u32_bytes (length buffer % 2 ^ 32)) in
      ok (copy_at page5 28 buffer)

-- The payloads so far and the buffer, once a record of `len` bytes has room in the buffer.
unfoldable pub flush_for :
    NmCommand → ℕ → ℕ → List (List ℕ) → List ℕ → Result (List (List ℕ) × List ℕ)
flush_for cmd uid len payloads buffer =
    if ltb buffer_len (length buffer + len)
    then (do p ← build_payload cmd uid buffer; ok (payloads ++ p ∷ [], []))
    else ok (payloads, buffer)

unfoldable pub flush_last : NmCommand → ℕ → List (List ℕ) → List ℕ → Result (List (List ℕ))
flush_last cmd uid payloads buffer =
    if is_empty buffer
    then ok payloads
    else (do p ← build_payload cmd uid buffer; ok (payloads ++ p ∷ []))

-- The rounds of the loop over `rules`.
unfoldable pub add_rules_from :
    ℕ → RuleFormat → List EncodedRule → List (List ℕ) → List ℕ → Result (List (List ℕ))
add_rules_from uid format [] payloads buffer = flush_last add_rule uid payloads buffer
add_rules_from uid format (rule ∷ rules) payloads buffer = do
  require (is_hybrid_mount format || bit_and rule.flags flag_opaque == 0) opaque_needs_provider
  let len = record_len rule + extra_bytes format
  require (not (ltb buffer_len len)) (single_rule_needs len)
  (payloads', buffer') ← flush_for add_rule uid len payloads buffer
  add_rules_from uid format rules payloads' (buffer' ++ write_record rule uid format)

unfoldable pub build_add_rule_payloads_for :
    List EncodedRule → ℕ → RuleFormat → Result (List (List ℕ))
build_add_rule_payloads_for rules uid format = add_rules_from uid format rules [] []

-- What one round of `build_del_rule_payloads_for` appends to the buffer.
unfoldable pub write_del_record : List ℕ → ℕ → RuleFormat → List ℕ
unfolding uid_range
write_del_record path uid format =
    u32_bytes uid ++ (uid_range format uid ++ (u16_bytes (length path % 2 ^ 16) ++ path))

unfoldable pub del_rules_from :
    ℕ → RuleFormat → List (List ℕ) → List (List ℕ) → List ℕ → Result (List (List ℕ))
del_rules_from uid format [] payloads buffer = flush_last del_rule uid payloads buffer
del_rules_from uid format (path ∷ paths) payloads buffer = do
  let len = del_header_len + extra_bytes format + length path
  require (not (ltb buffer_len len)) (single_del_rule_needs len)
  (payloads', buffer') ← flush_for del_rule uid len payloads buffer
  del_rules_from uid format paths payloads' (buffer' ++ write_del_record path uid format)

unfoldable pub build_del_rule_payloads_for : List (List ℕ) → ℕ → RuleFormat → Result (List (List ℕ))
build_del_rule_payloads_for paths uid format = del_rules_from uid format paths [] []
