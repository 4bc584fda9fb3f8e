-- ===== src/Tests/Protocol.antt =====
-- The protocol at small requests and answers.
use meta_hybrid_mount.Text.Utf8.{is_utf8}
use meta_hybrid_mount.Prelude.{
  replicate, ◌≤◌, ℕ, ◌+◌, ◌%◌, ◌^◌, ◌<◌, ◌≡◌, ◌≢◌, refl, List, [], ◌∷◌, ◌++◌, none, some, length,
  map, all, arith,
}
use meta_hybrid_mount.Text.{bytes}
use meta_hybrid_mount.Errors.{Result, ok, is_ok, ◌>>=◌}
use meta_hybrid_mount.Vfs.Protocol.Words.{from_le_bytes, u16_bytes, slice, u32_bytes}
use meta_hybrid_mount.Vfs.Protocol.Encode.{
  flush_last, flush_for, extra_bytes, command_number, record_len, add_rules_from, write_record,
  EncodedRule, hybrid_mount, nomount22, magic_bytes, build_payload, add_rule,
  build_add_rule_payloads_for,
}
use meta_hybrid_mount.Vfs.Protocol.Decode.{
  read_data_size, field, read_arg1, response_body, read_status, parse_list_for, parse_uids,
}
use meta_hybrid_mount.Vfs.Protocol.Layout.{
  ReadsBack, page_of, build_payload-page_of, build_payload-ReadsBack,
}
use meta_hybrid_mount.Vfs.Protocol.RoundTrip.{records, listed, IsWritable}
use meta_hybrid_mount.Vfs.Protocol.Listing.{parse_list_for-total, parse_list_for-records}
use meta_hybrid_mount.Vfs.Protocol.Paginate.{paginate_from, paginate-total}
use meta_hybrid_mount.Vfs.Protocol.Batches.{Delivered, build_add_rule_payloads-Delivered}
use meta_hybrid_mount.Vfs.Protocol.Batches.Accepts.{
  is_accepted, build_add_rule_payloads-is_accepted,
}

abbrev injected : EncodedRule
injected = record { flags = 0; virtual_path = bytes "/a"; real_path = bytes "/data/a" }

abbrev hidden : EncodedRule
hidden = record { flags = 4; virtual_path = bytes "/b"; real_path = [] }

abbrev two_rules : List EncodedRule
two_rules = injected ∷ hidden ∷ []

-- A page of the kernel: its status is 0 and it leaves the cursor 2.
abbrev answer : List ℕ
unfolding u32_bytes
answer =
    magic_bytes
    ++ (u32_bytes 9
        ++ (u32_bytes 0
            ++ (u32_bytes 0
                ++ (u32_bytes 2
                    ++ (u32_bytes (length (records nomount22 5 two_rules))
                        ++ records nomount22 5 two_rules)))))

injected-IsWritable : IsWritable injected
unfolding is_utf8
injected-IsWritable = record {
  flags_fit = omega arith;
  virtual_fits = omega arith;
  real_fits = omega arith;
  virtual_utf8 = refl;
  real_utf8 = refl;
}

hidden-IsWritable : IsWritable hidden
unfolding is_utf8
hidden-IsWritable = record {
  flags_fit = omega arith;
  virtual_fits = omega arith;
  real_fits = omega arith;
  virtual_utf8 = refl;
  real_utf8 = refl;
}

answer_status : read_status answer ≡ ok 0
unfolding answer read_status field slice write_record replicate u16_bytes from_le_bytes
answer_status = refl

answer_body : response_body answer ≡ ok (records nomount22 5 two_rules)
unfolding answer response_body read_data_size field slice write_record replicate u16_bytes
    from_le_bytes
answer_body = refl

answer_arg1 : read_arg1 answer ≡ ok 2
unfolding answer read_arg1 field slice write_record replicate u16_bytes from_le_bytes
answer_arg1 = refl

parse_list_for-records_example :
    parse_list_for answer nomount22 ≡ some (ok (map (listed 5) two_rules, 2))
parse_list_for-records_example =
    parse_list_for-records nomount22 5 two_rules answer 0 2 (omega arith)
      (injected-IsWritable, (hidden-IsWritable, tt)) answer_status refl answer_body answer_arg1

parse_list_for-total_example : parse_list_for answer hybrid_mount ≢ none
parse_list_for-total_example = parse_list_for-total answer hybrid_mount

-- The cursor of a page is a `u32`.
abbrev uids_of : List ℕ → Result (List ℕ × ℕ)
uids_of page = do (uids, next) ← parse_uids page; ok (uids, next % 2 ^ 32)

uids_of_bounded : (page batch : List ℕ) (next : ℕ) → uids_of page ≡ ok (batch, next) → next < 2 ^ 32
uids_of_bounded page batch next h = ground arith

paginate-total_example :
    paginate_from (λ cursor (s : ℕ). (ok answer, s)) uids_of (2 ^ 32 + 1) 0 [] 0 ≢ none
paginate-total_example =
    paginate-total (λ cursor (s : ℕ). (ok answer, s)) uids_of (2 ^ 32) uids_of_bounded (2 ^ 32 + 1)
      0 [] 0 (omega arith)

one_page :
    build_add_rule_payloads_for two_rules 5 hybrid_mount
    ≡ ok (page_of add_rule 5 (records hybrid_mount 5 two_rules) ∷ [])
unfolding build_add_rule_payloads_for add_rules_from u32_bytes record_len command_number replicate
    extra_bytes write_record flush_for u16_bytes flush_last
one_page = rw build_payload-page_of refl

build_add_rule_payloads-Delivered_example :
    Delivered 5 hybrid_mount two_rules (page_of add_rule 5 (records hybrid_mount 5 two_rules) ∷ [])
build_add_rule_payloads-Delivered_example =
    build_add_rule_payloads-Delivered two_rules 5 hybrid_mount
      (page_of add_rule 5 (records hybrid_mount 5 two_rules) ∷ []) one_page

build_add_rule_payloads-is_accepted_example :
    is_ok (build_add_rule_payloads_for two_rules 5 nomount22)
    ≡ all (is_accepted nomount22) two_rules
build_add_rule_payloads-is_accepted_example =
    build_add_rule_payloads-is_accepted two_rules 5 nomount22

three_bytes : build_payload add_rule 5 (1 ∷ 2 ∷ 3 ∷ []) ≡ ok (page_of add_rule 5 (1 ∷ 2 ∷ 3 ∷ []))
three_bytes = rw build_payload-page_of refl

build_payload-ReadsBack_example :
    (length {A = ℕ} (1 ∷ 2 ∷ 3 ∷ []) ≤ 4068)
    × ReadsBack (page_of add_rule 5 (1 ∷ 2 ∷ 3 ∷ [])) add_rule 5 (1 ∷ 2 ∷ 3 ∷ [])
build_payload-ReadsBack_example = build_payload-ReadsBack add_rule 5 (1 ∷ 2 ∷ 3 ∷ []) three_bytes
