-- ===== src/Vfs/Protocol/Batches/Accepts.antt =====
-- Which rules `build_add_rule_payloads_for` accepts.
use Prim.Native.Nat.{bit_and}
use meta_hybrid_mount.Prelude.{
  ℕ, ◌+◌, ◌≤◌, ◌≡◌, refl, List, [], ◌∷◌, ◌++◌, arith, ltb, ◌==◌, length, length-append, Bool, false,
  ◌&&◌, ◌||◌, not, Bool-cases, inl, inr, all,
}
use meta_hybrid_mount.Text.{is_empty}
use meta_hybrid_mount.Errors.{is_ok, ok}
use meta_hybrid_mount.Vfs.Protocol.Encode.{
  RuleFormat, is_hybrid_mount, extra_bytes, buffer_len, flag_opaque, add_rule, EncodedRule,
  record_len, write_record, build_payload, flush_for, flush_last, add_rules_from,
  build_add_rule_payloads_for,
}
use meta_hybrid_mount.Vfs.Protocol.Layout.{build_payload-page_of, page_of}
use meta_hybrid_mount.Vfs.Protocol.RoundTrip.{length-write_record}

-- Whether the kernel's format and its page have room for a rule.
abbrev pub is_accepted : RuleFormat → EncodedRule → Bool
is_accepted format rule =
    (is_hybrid_mount format || bit_and rule.flags flag_opaque == 0)
    && not (ltb buffer_len (record_len rule + extra_bytes format))

module _ (uid : ℕ) (format : RuleFormat) where
  build_payload_fits :
      (buffer : List ℕ)
      → length buffer ≤ buffer_len
      → build_payload add_rule uid buffer ≡ ok (page_of add_rule uid buffer)
  build_payload_fits buffer h =
      let fits : ltb buffer_len (length buffer) ≡ false = ground arith in
      rw (build_payload-page_of, fits) refl

  flush_for_fits :
      (len : ℕ) (payloads : List (List ℕ)) (buffer : List ℕ)
      → length buffer ≤ buffer_len
      → len ≤ buffer_len
      → (ps : List (List ℕ)) × (b : List ℕ) × (flush_for add_rule uid len payloads buffer
          ≡ ok (ps, b))
        × (length b + len ≤ buffer_len)
  unfolding flush_for
  flush_for_fits len payloads buffer h l =
      elim (Bool-cases (ltb buffer_len (length buffer + len))) [
        | inr q ↦ (payloads, buffer, rw q refl, ground arith)
        | inl q ↦ (
          payloads ++ page_of add_rule uid buffer ∷ [],
          [],
          rw (q, build_payload_fits buffer h) refl,
          omega (arith, l),
        )
      ]

  is_ok-add_rules_from :
      (rules : List EncodedRule) (payloads : List (List ℕ)) (buffer : List ℕ)
      → length buffer ≤ buffer_len
      → is_ok (add_rules_from uid format rules payloads buffer) ≡ all (is_accepted format) rules
  unfolding add_rules_from flush_last
  is_ok-add_rules_from [] payloads buffer h = elim (Bool-cases (is_empty buffer)) [
    | inl q ↦ rw q refl
    | inr q ↦ rw (q, build_payload_fits buffer h) refl
  ]
  is_ok-add_rules_from (rule ∷ rules) payloads buffer h =
      let len = record_len rule + extra_bytes format in
      elim (Bool-cases (is_hybrid_mount format || bit_and rule.flags flag_opaque == 0)) [
        | inr q ↦ rw q refl
        | inl q ↦ elim (Bool-cases (ltb buffer_len len)) [
          | inl t ↦ rw (q, t) refl
          | inr t ↦
              let (ps, b, flushed, fits) = flush_for_fits len payloads buffer h (ground arith) in
              rw (q, t, flushed)
                (is_ok-add_rules_from rules ps (b ++ write_record rule uid format) (
                  omega (
                    arith,
                    fits,
                    length-append b (write_record rule uid format),
                    length-write_record rule uid format,
                  )))
        ]
      ]

-- The rules are accepted exactly when the format can express each of them and each fits a page of
-- its own; otherwise the whole call fails.
pub build_add_rule_payloads-is_accepted :
    (rules : List EncodedRule) (uid : ℕ) (format : RuleFormat)
    → is_ok (build_add_rule_payloads_for rules uid format) ≡ all (is_accepted format) rules
unfolding build_add_rule_payloads_for
build_add_rule_payloads-is_accepted rules uid format =
    is_ok-add_rules_from uid format rules [] [] (omega arith)
