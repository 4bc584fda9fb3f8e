-- ===== src/Vfs/Protocol/RoundTrip.antt =====
-- `parse_list_for` reads what `write_record` writes.
use meta_hybrid_mount.Prelude.{
  ==_refl, ℕ, zero, suc, ◌+◌, ◌%◌, ◌^◌, ◌≤◌, ◌<◌, ◌≡◌, refl, ap, List, [], ◌∷◌, ◌++◌, arith, tests,
  ltb, length, replicate, true, false, append_assoc, append-nil, length-append, take-append,
  drop-append, All, map, some,
}
use meta_hybrid_mount.Text.{bytes, Text}
use meta_hybrid_mount.Errors.{ok}
use meta_hybrid_mount.Text.Utf8.{is_utf8, from_utf8_lossy_valid}
use meta_hybrid_mount.Vfs.Protocol.Words.{
  slice, u16_bytes, u32_bytes, slice-append, from_le_bytes, from_le_bytes-u32, from_le_bytes-u16,
}
use meta_hybrid_mount.Vfs.Protocol.Encode.{
  RuleFormat, hybrid_mount, nomount_legacy, nomount22, extra_bytes, uid_range, rule_header_len,
  EncodedRule, record_len, write_record,
}
use meta_hybrid_mount.Vfs.Protocol.Decode.{is_ranged, ListedRule, read_record, parse_rules, field}

-- A rule whose words fit their fields and whose paths are UTF-8.
pub record IsWritable (r : EncodedRule) : Type 0 where
  pub flags_fit : r.flags < 2 ^ 32
  pub virtual_fits : length r.virtual_path < 2 ^ 16
  pub real_fits : length r.real_path < 2 ^ 16
  pub virtual_utf8 : is_utf8 r.virtual_path ≡ true
  pub real_utf8 : is_utf8 r.real_path ≡ true

abbrev pub listed : ℕ → EncodedRule → ListedRule
listed uid r = record {
  flags = r.flags;
  uid = uid;
  virtual_path = r.virtual_path;
  real_path = r.real_path;
}

abbrev header_of : EncodedRule → ℕ → RuleFormat → List ℕ
header_of r uid format =
    u32_bytes r.flags
    ++ (u32_bytes uid
        ++ (uid_range format uid
            ++ (u16_bytes (length r.virtual_path % 2 ^ 16)
                ++ u16_bytes (length r.real_path % 2 ^ 16))))

module _ (r : EncodedRule) (uid : ℕ) where
  write_record-header :
      (format : RuleFormat) (post : List ℕ)
      → write_record r uid format ++ post
        ≡ header_of r uid format ++ ((r.virtual_path ++ r.real_path) ++ post)
  unfolding write_record u32_bytes u16_bytes replicate
  write_record-header hybrid_mount post = refl
  write_record-header nomount_legacy post = refl
  write_record-header nomount22 post = refl

  length-header :
      (format : RuleFormat) → rule_header_len + extra_bytes format ≡ length (header_of r uid format)
  unfolding extra_bytes uid_range u32_bytes u16_bytes replicate
  length-header hybrid_mount = refl
  length-header nomount_legacy = refl
  length-header nomount22 = refl

  pub length-write_record :
      (format : RuleFormat) → length (write_record r uid format) ≡ record_len r + extra_bytes format
  unfolding write_record record_len extra_bytes uid_range u32_bytes u16_bytes replicate
  length-write_record hybrid_mount = omega (arith, length-append r.virtual_path r.real_path)
  length-write_record nomount_legacy = omega (arith, length-append r.virtual_path r.real_path)
  length-write_record nomount22 = omega (arith, length-append r.virtual_path r.real_path)

module _ (r : EncodedRule) (uid : ℕ) (name : Text) where
  flags_field :
      (format : RuleFormat) → field (header_of r uid format) 0 4 name ≡ ok (u32_bytes r.flags)
  unfolding field slice uid_range u32_bytes u16_bytes replicate
  flags_field hybrid_mount = refl
  flags_field nomount_legacy = refl
  flags_field nomount22 = refl

  uid_field : (format : RuleFormat) → field (header_of r uid format) 4 4 name ≡ ok (u32_bytes uid)
  unfolding field slice uid_range u32_bytes u16_bytes replicate
  uid_field hybrid_mount = refl
  uid_field nomount_legacy = refl
  uid_field nomount22 = refl

  v_len_field :
      (format : RuleFormat)
      → field (header_of r uid format) (8 + extra_bytes format) 2 name
        ≡ ok (u16_bytes (length r.virtual_path % 2 ^ 16))
  unfolding field slice extra_bytes uid_range u32_bytes u16_bytes replicate
  v_len_field hybrid_mount = refl
  v_len_field nomount_legacy = refl
  v_len_field nomount22 = refl

  r_len_field :
      (format : RuleFormat)
      → field (header_of r uid format) (10 + extra_bytes format) 2 name
        ≡ ok (u16_bytes (length r.real_path % 2 ^ 16))
  unfolding field slice extra_bytes uid_range u32_bytes u16_bytes replicate
  r_len_field hybrid_mount = refl
  r_len_field nomount_legacy = refl
  r_len_field nomount22 = refl

  -- A written record names one uid, so it is never passed over.
  not_ranged :
      (format : RuleFormat)
      → uid < 2 ^ 32
      → is_ranged format (header_of r uid format) uid ≡ ok false
  unfolding is_ranged field slice uid_range u32_bytes u16_bytes replicate
  not_ranged hybrid_mount u = refl
  not_ranged nomount_legacy u = refl
  not_ranged nomount22 u =
      let back : from_le_bytes (u32_bytes uid) ≡ uid = from_le_bytes-u32 uid u in
      rw (back, ==_refl) refl

record_len_lem : (r : EncodedRule) → record_len r ≡ 12 + length r.virtual_path + length r.real_path
unfolding record_len
record_len_lem r = refl

header-le-record_len : (r : EncodedRule) → 12 ≤ record_len r
unfolding record_len
header-le-record_len r = omega arith

module _ (r : EncodedRule) (uid : ℕ) (u : uid < 2 ^ 32) (w : IsWritable r) (pre post : List ℕ) where
  read_record-write_record :
      (format : RuleFormat)
      → read_record format (pre ++ (write_record r uid format ++ post)) (length pre)
        ≡ ok (some (listed uid r), length (pre ++ write_record r uid format))
  unfolding read_record
  read_record-write_record format =
      let h = header_of r uid format in
      let v = length r.virtual_path in
      let n = length r.real_path in
      let paths = r.virtual_path ++ r.real_path in
      let hl = length-header r uid format in
      let start : length pre + (rule_header_len + extra_bytes format) ≡ length (pre ++ h) =
        omega (arith, length-append pre h) in
      let lv : from_le_bytes (u16_bytes (v % 2 ^ 16)) ≡ v =
        omega (arith, from_le_bytes-u16 (v % 2 ^ 16) (omega arith), w.virtual_fits) in
      let lr : from_le_bytes (u16_bytes (n % 2 ^ 16)) ≡ n =
        omega (arith, from_le_bytes-u16 (n % 2 ^ 16) (omega arith), w.real_fits) in
      let cut =
        slice-append (pre ++ h) paths post (length pre + (rule_header_len + extra_bytes format))
          (v + n) start (omega (arith, length-append r.virtual_path r.real_path)) in
      let vp = take-append r.virtual_path r.real_path v refl in
      let rp = drop-append r.virtual_path r.real_path v 0 (omega arith) in
      rw
        (
          write_record-header r uid format post,
          slice-append pre h (paths ++ post) (length pre) (rule_header_len + extra_bytes format)
              refl hl,
          flags_field r uid _ format,
          uid_field r uid _ format,
          v_len_field r uid _ format,
          r_len_field r uid _ format,
          from_le_bytes-u32 r.flags w.flags_fit,
          from_le_bytes-u32 uid u,
          lv,
          lr,
          ← append_assoc pre h (paths ++ post),
          cut,
          not_ranged r uid (bytes "") format u,
          vp,
          rp,
          from_utf8_lossy_valid r.virtual_path w.virtual_utf8,
          from_utf8_lossy_valid r.real_path w.real_utf8,
        )
        (ap (λ k. ok (some (listed uid r), k))
          (omega (
            arith,
            length-append pre (write_record r uid format),
            length-write_record r uid format,
            record_len_lem r,
          )))

module _ (format : RuleFormat) (uid : ℕ) where
  -- The body of a listing of some rules.
  abbrev pub records : List EncodedRule → List ℕ
  records [] = []
  records (r ∷ rs) = write_record r uid format ++ records rs

  pub length-records : (rs : List EncodedRule) → length rs ≤ length (records rs)
  length-records [] = omega arith
  length-records (r ∷ rs) = omega (
    arith,
    length-records rs,
    length-append (write_record r uid format) (records rs),
    length-write_record r uid format,
    header-le-record_len r,
  )

  pub parse_rules-records :
      uid < 2 ^ 32
      → (rs : List EncodedRule) (pre : List ℕ) (fuel : ℕ) (found : List ListedRule)
      → length rs < fuel
      → All IsWritable rs
      → parse_rules fuel format (pre ++ records rs) (length pre) found
        ≡ some (ok (found ++ map (listed uid) rs))
  unfolding parse_rules
  parse_rules-records u [] pre zero found l w = absurd (omega arith)
  parse_rules-records u [] pre (suc fuel) found l w =
      let done : ltb (length pre) (length (pre ++ [])) ≡ false =
        rw (append-nil pre) (ground arith) in
      rw (done, parse_rules) (rw (append-nil found))
  parse_rules-records u (r ∷ rs) pre zero found l w = absurd (omega arith)
  parse_rules-records u (r ∷ rs) pre (suc fuel) found l w =
      let more : ltb (length pre) (length (pre ++ (write_record r uid format ++ records rs)))
          ≡ true =
        omega (
          tests,
          length-append pre (write_record r uid format ++ records rs),
          length-append (write_record r uid format) (records rs),
          length-write_record r uid format,
          header-le-record_len r,
        ) in
      let step = read_record-write_record r uid u w.0 pre (records rs) format in
      rw (more, step, parse_rules)
        (rw
          (
            ← append_assoc pre (write_record r uid format) (records rs),
            parse_rules-records u rs (pre ++ write_record r uid format) fuel
                (found ++ listed uid r ∷ []) (omega arith) w.1,
          )
          (ap (λ l. some (ok l)) (append_assoc found (listed uid r ∷ []) (map (listed uid) rs))))
