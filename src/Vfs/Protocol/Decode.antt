-- ===== src/Vfs/Protocol/Decode.antt =====
-- vfs/protocol.rs: the kernel's answers. An `i32` status is its 32-bit pattern, negative from 2^31 on.
use meta_hybrid_mount.Prelude.{
  ℕ, zero, suc, ◌+◌, ◌%◌, Bool, true, false, ◌&&◌, not, ◌||◌, Option, none, some, List, [], ◌∷◌,
  ◌++◌, ltb, leb, ◌==◌, if◌then◌else◌, length, take, drop, replicate, any,
}
use meta_hybrid_mount.Text.{Text, bytes, text_eq}
use meta_hybrid_mount.Text.Utf8.{from_utf8_lossy}
use meta_hybrid_mount.Errors.{
  Error, Result, ok, err, ◌>>=◌, ◌>>◌, require, response_short, kernel_status, kernel_status_at,
  cursor_short, response_claims, response_body_short, truncated_header, truncated_paths,
  uid_batch_ragged,
}
use meta_hybrid_mount.Vfs.Protocol.Words.{from_le_bytes, slice, copy_at, u32_bytes}
use meta_hybrid_mount.Vfs.Protocol.Encode.{
  RuleFormat, nomount22, extra_bytes, buffer_len, rule_header_len, NmCommand, build_payload,
}

-- A part of a slice, or the error for a part that is not there.
abbrev pub ok_or {ℓ} : {A : Type ℓ} → Option A → Error → Result A
ok_or none e = err e
ok_or (some a) e = ok a

unfoldable pub field : List ℕ → ℕ → ℕ → Text → Result (List ℕ)
field payload offset n name =
    ok_or (slice payload offset n) (response_short (length payload) (offset + n) name)

abbrev word_at : List ℕ → ℕ → ℕ → Text → Result ℕ
word_at payload offset n name = do raw ← field payload offset n name; ok (from_le_bytes raw)

unfoldable pub read_status : List ℕ → Result ℕ
read_status payload = word_at payload 16 4 (bytes "status")

unfoldable pub read_arg1 : List ℕ → Result ℕ
read_arg1 payload = word_at payload 20 4 (bytes "arg1")

unfoldable pub read_data_size : List ℕ → Result ℕ
read_data_size payload = word_at payload 24 4 (bytes "data_size")

abbrev pub is_negative : ℕ → Bool
is_negative status = leb 0x8000_0000 status

abbrev pub kernel_enoent : ℕ
kernel_enoent = 0xFFFF_FFFE

abbrev pub kernel_eexist : ℕ
kernel_eexist = 0xFFFF_FFEF

unfoldable pub ensure_status_allowing : List ℕ → List ℕ → Result (Unit {0})
ensure_status_allowing payload allowed = do
  status ← read_status payload
  require (not (is_negative status && not (any (λ a. a == status) allowed))) (kernel_status status)

unfoldable pub ensure_status : List ℕ → Result (Unit {0})
ensure_status payload = ensure_status_allowing payload []

unfoldable pub ensure_full_cursor : List ℕ → Result (Unit {0})
ensure_full_cursor payload = do
  arg1 ← read_arg1 payload
  data_size ← read_data_size payload
  require (arg1 == data_size) (cursor_short arg1 data_size)

unfoldable pub ensure_status_allow_enoent : List ℕ → Result (Unit {0})
unfolding ensure_status_allowing ensure_full_cursor
ensure_status_allow_enoent payload = do
  ensure_status_allowing payload (kernel_enoent ∷ [])
  ensure_full_cursor payload

unfoldable pub ensure_status_allow_eexist : List ℕ → Result (Unit {0})
unfolding ensure_status_allowing
ensure_status_allow_eexist payload = ensure_status_allowing payload (kernel_eexist ∷ [])

unfoldable pub ensure_consumed : List ℕ → Result (Unit {0})
unfolding ensure_full_cursor
ensure_consumed payload = do
  status ← read_status payload
  if is_negative status
      then (do arg1 ← read_arg1 payload; err (kernel_status_at status arg1))
      else ensure_full_cursor payload

pub record ListedRule : Type 0 where
  pub flags : ℕ
  pub uid : ℕ
  pub virtual_path : Text
  pub real_path : Text

unfoldable pub build_list_payload : NmCommand → ℕ → Result (List ℕ)
unfolding copy_at
build_list_payload cmd cursor = do
  page ← build_payload cmd 0 []
  ok (copy_at page 20 (u32_bytes cursor))

unfoldable pub response_body : List ℕ → Result (List ℕ)
response_body payload = do
  len ← read_data_size payload
  require (not (ltb buffer_len len)) (response_claims len)
  ok_or (slice payload 28 len) (response_body_short len)

-- Whether a record holds for a range of UIDs or excludes some: only `Nomount22` writes such ones.
unfoldable pub is_ranged : RuleFormat → List ℕ → ℕ → Result Bool
is_ranged nomount22 header uid = do
  uid_end ← word_at header 8 4 (bytes "rule uid_end")
  ok (not (uid_end == uid) || not (text_eq (take 8 (drop 12 header)) (replicate 8 0)))
is_ranged _ header uid = ok false

-- One round of the loop of `parse_list_for`: the rule, unless it is passed over, and the new `pos`.
unfoldable pub read_record : RuleFormat → List ℕ → ℕ → Result (Option ListedRule × ℕ)
read_record format body pos = do
  let extra = extra_bytes format
  let header_len = rule_header_len + extra
  header ← ok_or (slice body pos header_len) (truncated_header pos)
  flags ← word_at header 0 4 (bytes "rule flags")
  uid ← word_at header 4 4 (bytes "rule uid")
  v_len ← word_at header (8 + extra) 2 (bytes "rule v_len")
  r_len ← word_at header (10 + extra) 2 (bytes "rule r_len")
  let start = pos + header_len
  paths ← ok_or (slice body start (v_len + r_len)) (truncated_paths start (v_len + r_len))
  ranged ← is_ranged format header uid
  let rule : ListedRule = record {
    flags = flags;
    uid = uid;
    virtual_path = from_utf8_lossy (take v_len paths);
    real_path = from_utf8_lossy (drop v_len paths);
  }
  ok (if ranged then none else some rule, start + (v_len + r_len))

abbrev pub push_some {ℓ} : {A : Type ℓ} → List A → Option A → List A
push_some xs none = xs
push_some xs (some a) = xs ++ a ∷ []

-- The loop, with fuel; `none` means that the fuel ran out.
unfoldable pub parse_rules :
    ℕ → RuleFormat → List ℕ → ℕ → List ListedRule → Option (Result (List ListedRule))
parse_rules zero format body pos rules = none
parse_rules (suc fuel) format body pos rules = elim (ltb pos (length body)) [
  | false ↦ some (ok rules)
  | true ↦ elim (read_record format body pos) [
    | err e ↦ some (err e)
    | ok (rule, next) ↦ parse_rules fuel format body next (push_some rules rule)
  ]
]

abbrev with_arg1 {ℓ} : {A : Type ℓ} → List ℕ → Result A → Result (A × ℕ)
with_arg1 payload r = do a ← r; arg1 ← read_arg1 payload; ok (a, arg1)

-- A round consumes a header at least, so one round more than the bytes of the body is enough.
unfoldable pub parse_body : RuleFormat → List ℕ → List ℕ → Option (Result (List ListedRule × ℕ))
parse_body format payload body = elim (parse_rules (suc (length body)) format body 0 []) [
  | none ↦ none
  | some r ↦ some (with_arg1 payload r)
]

unfoldable pub parse_list_for : List ℕ → RuleFormat → Option (Result (List ListedRule × ℕ))
parse_list_for payload format = elim (ensure_status payload >> response_body payload) [
  | err e ↦ some (err e)
  | ok body ↦ parse_body format payload body
]

-- `as_chunks::<4>` of a body whose length is a multiple of 4.
chunks_of_four : List ℕ → List ℕ
chunks_of_four (a ∷ b ∷ c ∷ d ∷ r) = from_le_bytes (a ∷ b ∷ c ∷ d ∷ []) ∷ chunks_of_four r
chunks_of_four _ = []

unfoldable pub parse_uids : List ℕ → Result (List ℕ × ℕ)
unfolding ensure_status response_body chunks_of_four
parse_uids payload = do
  ensure_status payload
  body ← response_body payload
  require (length body % 4 == 0) (uid_batch_ragged (length body))
  arg1 ← read_arg1 payload
  ok (chunks_of_four body, arg1)
