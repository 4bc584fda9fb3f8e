-- ===== src/Vfs/Protocol/Batches.antt =====
-- The batches of `build_add_rule_payloads_for`: the pages carry the records of all rules, in order,
-- none of them split over two pages.
pub mod Accepts
use Prim.Native.Nat.{bit_and}
use meta_hybrid_mount.Prelude.{
  subst, ℕ, ◌+◌, ◌≤◌, ◌<◌, ◌≡◌, refl, sym, ap, ◌∙◌, List, [], ◌∷◌, ◌++◌, append_assoc, append-nil,
  arith, tests, ltb, ◌==◌, length, length-append, Bool, true, false, ◌&&◌, ◌||◌, not, Bool-cases,
  inl, inr, all,
}
use meta_hybrid_mount.Text.{is_empty}
use meta_hybrid_mount.Errors.{
  is_ok, ok, require, Result-cases, >>=-eq-ok, ok-injective, opaque_needs_provider,
  single_rule_needs,
}
use meta_hybrid_mount.Vfs.Protocol.Encode.{
  RuleFormat, is_hybrid_mount, extra_bytes, buffer_len, flag_opaque, add_rule, EncodedRule,
  record_len, write_record, build_payload, flush_for, flush_last, add_rules_from,
  build_add_rule_payloads_for,
}
use meta_hybrid_mount.Vfs.Protocol.Words.{u32_bytes}
use meta_hybrid_mount.Vfs.Protocol.Layout.{
  ReadsBack, build_payload-ReadsBack, build_payload-page_of, page_of,
}
use meta_hybrid_mount.Vfs.Protocol.RoundTrip.{records, length-write_record}

module _ (uid : ℕ) (format : RuleFormat) where
  -- Page by page, the rules that a page carries: at least one, and its body is their records.
  abbrev pub Carries : List (List EncodedRule) → List (List ℕ) → Type 0
  Carries [] [] = Unit
  Carries (g ∷ gs) (p ∷ ps) =
      (is_empty g ≡ false) × ReadsBack p add_rule uid (records format uid g) × Carries gs ps
  Carries _ _ = ⊥

  abbrev pub flatten : List (List EncodedRule) → List EncodedRule
  flatten [] = []
  flatten (g ∷ gs) = g ++ flatten gs

  records-append :
      (xs ys : List EncodedRule)
      → records format uid (xs ++ ys) ≡ records format uid xs ++ records format uid ys
  records-append [] ys = refl
  records-append (x ∷ xs) ys = rw (records-append xs ys) (
      sym
        (append_assoc (write_record x uid format) (records format uid xs) (records format uid ys)))

  -- What the loop holds: the pages so far carry some groups of rules, and the buffer the rest.
  record Holds (payloads : List (List ℕ)) (buffer : List ℕ) (seen : List EncodedRule) : Type 0 where
    groups : List (List EncodedRule)
    pending : List EncodedRule
    carries : Carries groups payloads
    split : seen ≡ flatten groups ++ pending
    holds : buffer ≡ records format uid pending
    fits : length buffer ≤ buffer_len

  Carries-append :
      (gs : List (List EncodedRule)) (ps : List (List ℕ)) (g : List EncodedRule) (p : List ℕ)
      → Carries gs ps
      → is_empty g ≡ false
      → ReadsBack p add_rule uid (records format uid g)
      → Carries (gs ++ g ∷ []) (ps ++ p ∷ [])
  Carries-append [] [] g p c e r = (e, r, tt)
  Carries-append [] (q ∷ ps) g p c e r = absurd c
  Carries-append (h ∷ gs) [] g p c e r = absurd c
  Carries-append (h ∷ gs) (q ∷ ps) g p c e r = (c.0, c.1, Carries-append gs ps g p c.2 e r)

  flatten-append :
      (gs : List (List EncodedRule)) (g : List EncodedRule)
      → flatten (gs ++ g ∷ []) ≡ flatten gs ++ g
  flatten-append [] g = append-nil g
  flatten-append (h ∷ gs) g = rw (flatten-append gs g) (sym (append_assoc h (flatten gs) g))

  nonempty_of_records :
      (g : List EncodedRule) → is_empty (records format uid g) ≡ false → is_empty g ≡ false
  nonempty_of_records [] h = h
  nonempty_of_records (x ∷ xs) h = refl

  empty_of_records : (g : List EncodedRule) → is_empty (records format uid g) ≡ true → g ≡ []
  unfolding write_record u32_bytes
  empty_of_records [] h = refl
  empty_of_records (x ∷ xs) h = cc

  -- A buffer that is sent becomes a page of its own.
  Holds-send :
      {payloads : List (List ℕ)} {buffer : List ℕ} {seen : List EncodedRule} {p : List ℕ}
      → Holds payloads buffer seen
      → is_empty buffer ≡ false
      → build_payload add_rule uid buffer ≡ ok p
      → Holds (payloads ++ p ∷ []) [] seen
  Holds-send {payloads} {buffer} {seen} {p} h nonempty built = record {
    groups = h.groups ++ h.pending ∷ [];
    pending = [];
    carries =
        Carries-append h.groups payloads h.pending p h.carries
          (nonempty_of_records h.pending (rw h.holds at nonempty))
          (subst (λ b. ReadsBack p add_rule uid b) h.holds
            (build_payload-ReadsBack add_rule uid buffer built).1);
    split =
        h.split
        ∙ sym
            (append-nil (flatten (h.groups ++ h.pending ∷ [])) ∙ flatten-append h.groups h.pending);
    holds = refl;
    fits = omega arith;
  }

  require_room :
      (len : ℕ) {u : Unit {0}}
      → require (not (ltb buffer_len len)) (single_rule_needs len) ≡ ok u
      → len ≤ buffer_len
  require_room len h = ground arith

  nonempty_of_length : (b : List ℕ) → 0 < length b → is_empty b ≡ false
  nonempty_of_length [] h = absurd (omega arith)
  nonempty_of_length (x ∷ xs) h = refl

  Holds-flush_for :
      (payloads : List (List ℕ)) (buffer : List ℕ) {seen : List EncodedRule} (len : ℕ)
      (payloads' : List (List ℕ)) (buffer' : List ℕ)
      → Holds payloads buffer seen
      → len ≤ buffer_len
      → flush_for add_rule uid len payloads buffer ≡ ok (payloads', buffer')
      → Holds payloads' buffer' seen × (length buffer' + len ≤ buffer_len)
  unfolding flush_for
  Holds-flush_for payloads buffer {seen} len payloads' buffer' h l e =
      let Ready : List (List ℕ) × List ℕ → Type 0 =
        λ x. Holds x.0 x.1 seen × (length x.1 + len ≤ buffer_len) in
      elim (Bool-cases (ltb buffer_len (length buffer + len))) [
        | inr q ↦ subst Ready (ok-injective (rw q at e)) (h, ground arith)
        | inl q ↦ elim (Result-cases (build_payload add_rule uid buffer)) [
          | inr (x, b) ↦ cc (rw (q, b) at e)
          | inl (p, b) ↦
              subst Ready (ok-injective (rw (q, b) at e))
                (Holds-send h (nonempty_of_length buffer (omega (tests, q))) b, omega (arith, l))
        ]
      ]

  Holds-push :
      {payloads : List (List ℕ)} {buffer : List ℕ} {seen : List EncodedRule} (rule : EncodedRule)
      → Holds payloads buffer seen
      → length buffer + (record_len rule + extra_bytes format) ≤ buffer_len
      → Holds payloads (buffer ++ write_record rule uid format) (seen ++ rule ∷ [])
  Holds-push {payloads} {buffer} {seen} rule h l = record {
    groups = h.groups;
    pending = h.pending ++ rule ∷ [];
    carries = h.carries;
    split =
        ap (λ x. x ++ rule ∷ []) h.split ∙ append_assoc (flatten h.groups) h.pending (rule ∷ []);
    holds =
        ap (λ b. b ++ write_record rule uid format) h.holds
        ∙ sym (
            records-append h.pending (rule ∷ [])
            ∙ ap (λ w. records format uid h.pending ++ w)
                (append-nil (write_record rule uid format)));
    fits = omega (
      arith,
      l,
      length-append buffer (write_record rule uid format),
      length-write_record rule uid format,
    );
  }

  -- The pages, taken together: some groups of rules that they carry, which make up `all_rules`.
  pub record Delivered (all_rules : List EncodedRule) (pages : List (List ℕ)) : Type 0 where
    pub groups : List (List EncodedRule)
    pub carries : Carries groups pages
    pub complete : flatten groups ≡ all_rules

  Delivered-flush_last :
      (payloads : List (List ℕ)) (buffer : List ℕ) (seen : List EncodedRule) (pages : List (List ℕ))
      → Holds payloads buffer seen
      → flush_last add_rule uid payloads buffer ≡ ok pages
      → Delivered seen pages
  unfolding flush_last Holds-send
  Delivered-flush_last payloads buffer seen pages h e = elim (Bool-cases (is_empty buffer)) [
    | inl q ↦
        let nothing : h.pending ≡ [] = empty_of_records h.pending (rw h.holds at q) in
        subst (Delivered seen) (ok-injective (rw q at e)) (record {
          groups = h.groups;
          carries = h.carries;
          complete =
              sym
                (h.split ∙ ap (λ x. flatten h.groups ++ x) nothing ∙ append-nil (flatten h.groups));
        })
    | inr q ↦ elim (Result-cases (build_payload add_rule uid buffer)) [
      | inr (x, b) ↦ cc (rw (q, b) at e)
      | inl (p, b) ↦
          let sent = Holds-send h q b in
          subst (Delivered seen) (ok-injective (rw (q, b) at e)) (record {
            groups = sent.groups;
            carries = sent.carries;
            complete = sym (sent.split ∙ append-nil (flatten sent.groups));
          })
    ]
  ]

  add_rules_from-Delivered :
      (rules : List EncodedRule) (payloads : List (List ℕ)) (buffer : List ℕ)
      (seen : List EncodedRule) (pages : List (List ℕ))
      → Holds payloads buffer seen
      → add_rules_from uid format rules payloads buffer ≡ ok pages
      → Delivered (seen ++ rules) pages
  unfolding add_rules_from
  add_rules_from-Delivered [] payloads buffer seen pages h e =
      rw (append-nil seen) (Delivered-flush_last payloads buffer seen pages h e)
  add_rules_from-Delivered (rule ∷ rules) payloads buffer seen pages h e =
      let len = record_len rule + extra_bytes format in
      let (_, _, e1) =
        >>=-eq-ok
          (require (is_hybrid_mount format || bit_and rule.flags flag_opaque == 0)
            opaque_needs_provider)
          _ e in
      let (_, room, e2) =
        >>=-eq-ok (require (not (ltb buffer_len len)) (single_rule_needs len)) _ e1 in
      let ((ps, buf), flushed, e3) = >>=-eq-ok (flush_for add_rule uid len payloads buffer) _ e2 in
      let (ready, fits) =
        Holds-flush_for payloads buffer len ps buf h (require_room len room) flushed in
      rw (← append_assoc seen (rule ∷ []) rules) (
        add_rules_from-Delivered rules ps (buf ++ write_record rule uid format) (seen ++ rule ∷ [])
          pages (Holds-push rule ready fits) e3)

-- The pages that are returned carry the records of all the rules in their order: the rules fall into
-- groups, none of them empty, one group to a page, and each page is a well-formed ADD_RULE request
-- whose body is the records of its group, whole.
pub build_add_rule_payloads-Delivered :
    (rules : List EncodedRule) (uid : ℕ) (format : RuleFormat) (pages : List (List ℕ))
    → build_add_rule_payloads_for rules uid format ≡ ok pages
    → Delivered uid format rules pages
unfolding build_add_rule_payloads_for
build_add_rule_payloads-Delivered rules uid format pages h =
    add_rules_from-Delivered uid format rules [] [] [] pages
      (record {
        groups = [];
        pending = [];
        carries = tt;
        split = refl;
        holds = refl;
        fits = omega arith;
      })
      h
