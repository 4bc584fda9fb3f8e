-- ===== src/Vfs/Protocol/Listing.antt =====
-- The listing of the installed rules: `parse_list_for` ends on every answer, and returns the rules
-- that the kernel wrote.
use meta_hybrid_mount.Prelude.{
  ◌-◌, ℕ, zero, suc, ◌^◌, ◌<◌, ◌≡◌, ◌≢◌, refl, List, [], arith, tests, ltb, length, false,
  Bool-cases, inl, inr, All, map, Option, none, some,
}
use meta_hybrid_mount.Errors.{ok, ◌>>◌, Result-cases}
use meta_hybrid_mount.Vfs.Protocol.Encode.{RuleFormat, EncodedRule}
use meta_hybrid_mount.Vfs.Protocol.Decode.{
  ListedRule, is_negative, read_status, read_arg1, response_body, ensure_status,
  ensure_status_allowing, read_record, parse_rules, push_some, parse_body, parse_list_for,
}
use meta_hybrid_mount.Vfs.Protocol.RoundTrip.{
  IsWritable, listed, records, length-records, parse_rules-records,
}

-- A round moves past a header.
read_record_advances :
    (format : RuleFormat) (body : List ℕ) (pos : ℕ) (rule : Option ListedRule) (next : ℕ)
    → read_record format body pos ≡ ok (rule, next)
    → pos < next
unfolding read_record
read_record_advances format body pos rule next h = ground arith

parse_rules-total :
    (fuel : ℕ) (format : RuleFormat) (body : List ℕ) (pos : ℕ) (found : List ListedRule)
    → length body - pos < fuel
    → parse_rules fuel format body pos found ≢ none
unfolding parse_rules
parse_rules-total zero format body pos found h = absurd (omega arith)
parse_rules-total (suc fuel) format body pos found h = elim (Bool-cases (ltb pos (length body))) [
  | inr e ↦ rw (e, parse_rules) (λ p. cc)
  | inl e ↦ elim (Result-cases (read_record format body pos)) [
    | inr (x, q) ↦ rw (e, q, parse_rules) (λ p. cc)
    | inl ((rule, next), q) ↦
        rw (e, q, parse_rules)
          (parse_rules-total fuel format body next (push_some found rule)
            (omega (tests, e, read_record_advances format body pos rule next q)))
  ]
]

parse_body-total :
    (format : RuleFormat) (payload body : List ℕ) → parse_body format payload body ≢ none
unfolding parse_body
parse_body-total format payload body =
    ground (arith, parse_rules-total (suc (length body)) format body 0 [])

-- The loop of `parse_list_for` ends on every answer of the kernel, whatever its bytes: each round
-- moves past a header, so there are fewer rounds than bytes.
pub parse_list_for-total :
    (payload : List ℕ) (format : RuleFormat) → parse_list_for payload format ≢ none
unfolding parse_list_for
parse_list_for-total payload format =
    elim (Result-cases (ensure_status payload >> response_body payload)) [
      | inr (x, q) ↦ rw (q, parse_list_for) (λ p. cc)
      | inl (body, q) ↦ rw (q, parse_list_for) (parse_body-total format payload body)
    ]

-- A listing that the kernel answers with a status that is not negative, for rules whose words fit
-- their fields and whose paths are UTF-8, each written with the same uid, is parsed to exactly those
-- rules in their order, and to the cursor that the kernel left in `arg1`.
pub parse_list_for-records :
    (format : RuleFormat) (uid : ℕ) (rs : List EncodedRule) (payload : List ℕ) (status next : ℕ)
    → uid < 2 ^ 32
    → All IsWritable rs
    → read_status payload ≡ ok status
    → is_negative status ≡ false
    → response_body payload ≡ ok (records format uid rs)
    → read_arg1 payload ≡ ok next
    → parse_list_for payload format ≡ some (ok (map (listed uid) rs, next))
unfolding parse_list_for parse_body ensure_status ensure_status_allowing
parse_list_for-records format uid rs payload status next u w s positive b a =
    let loop =
      parse_rules-records format uid u rs [] (suc (length (records format uid rs))) []
        (omega (arith, length-records format uid rs)) w in
    let accepted : (ensure_status payload >> response_body payload) ≡ ok (records format uid rs) =
      rw (s, positive) b in
    rw (accepted, parse_list_for) (rw (loop, parse_body) (rw a refl))
