-- ===== src/Runtime/Hot/Replaced.antt =====
-- runtime/hot.rs: what an action that succeeds leaves in the ledger.
use meta_hybrid_mount.Prelude.{
  ℕ, ◌≡◌, refl, sym, ap, subst, ◌∙◌, Bool, true, not, some, List, [], ◌∷◌, ◌++◌, any, filter, inl,
  inr, Bool-cases, In, any-true, any-In, In-filter, In-filter_of,
}
use meta_hybrid_mount.Text.{Text, bytes, text_eq, text_eq→eq, text_eq_refl}
use meta_hybrid_mount.Errors.{ok, ok-injective, forbid, active_elsewhere}
use meta_hybrid_mount.Exec.{
  Exec, ◌>>◌, then-eq-ok, continue-eq-ok, first_part, second_part, pair_of_parts,
}
use meta_hybrid_mount.Runtime.Rules.{SavedRule}
use meta_hybrid_mount.Runtime.Ledger.{Ledger, next_generation, require_ready}
use meta_hybrid_mount.Runtime.Transaction
use meta_hybrid_mount.Runtime.Transaction.{Session, desired_rules, intent}
use meta_hybrid_mount.Runtime.Transaction.Commit.{reconcile-IsCommitted}
use meta_hybrid_mount.Runtime.Rules.Transaction.{preflight, verify_owned}
use meta_hybrid_mount.Runtime.Hot.{
  Action, HotHost, Request, owned_rules, guard, check_action, syncing, ready, on_kernel, on_disk,
  asking, change, request, commit, guarded, apply_to, apply,
}

-- The rules of the other modules.
abbrev pub other_rules : Text → List SavedRule → List SavedRule
other_rules id rules = filter (λ (r : SavedRule). not (text_eq r.module_id id)) rules

filter_same :
    {A : Type 0} (p q : A → Bool) (xs : List A)
    → ((a : A) → In a xs → p a ≡ q a)
    → filter p xs ≡ filter q xs
filter_same p q [] h = refl
filter_same p q (x ∷ xs) h = rw (h x (inl refl), filter_same p q xs (λ a i. h a (inr i))) refl

any-owned :
    (id : Text) (rules : List SavedRule) (rule : SavedRule)
    → In rule rules
    → any
        (λ (old : SavedRule). text_eq old.module_id rule.module_id)
        (filter (λ (r : SavedRule). text_eq r.module_id id) rules)
      ≡ text_eq rule.module_id id
any-owned id rules rule i = elim (Bool-cases (text_eq rule.module_id id)) [
  | inl e ↦
      any-In (λ (old : SavedRule). text_eq old.module_id rule.module_id) _ rule
        (In-filter_of (λ (r : SavedRule). text_eq r.module_id id) rules rule i e)
        (text_eq_refl rule.module_id)
      ∙ sym e
  | inr e ↦
      elim (Bool-cases (
        any (λ (old : SavedRule). text_eq old.module_id rule.module_id)
          (filter (λ (r : SavedRule). text_eq r.module_id id) rules))) [
            | inr f ↦ f ∙ sym e
            | inl f ↦
                let (old, j, same) = any-true _ _ f in
                let (_, mine) = In-filter (λ (r : SavedRule). text_eq r.module_id id) rules old j in
                f
                ∙ sym (
                    subst (λ (t : Text). text_eq t id ≡ true)
                      (text_eq→eq old.module_id rule.module_id same) mine)
          ]
]

desired_rules-owned :
    (id : Text) (saved : Ledger) (after : List SavedRule)
    → desired_rules saved (owned_rules id saved) after ≡ other_rules id saved.rules ++ after
unfolding desired_rules
desired_rules-owned id saved after =
    ap (λ (kept : List SavedRule). kept ++ after)
      (filter_same _ _ saved.rules (λ rule i. ap not (any-owned id saved.rules rule i)))

module _ {K D : Type 0} (host : HotHost K D) where
  -- The ledger after a commit.
  abbrev IsSettled : Ledger → List SavedRule → ℕ → Ledger → Type 0
  IsSettled saved desired generation saved' =
      (generation ≡ next_generation saved.generation)
      × (saved'.generation ≡ generation)
      × (saved'.phase ≡ bytes "ready")
      × (saved'.rules ≡ desired)

  commit-IsSettled :
      (id : Text) (before : List SavedRule) (r : Request) (s s' : Session K D) {generation : ℕ}
      → commit host id before r s ≡ (ok generation, s')
      → IsSettled s.saved (desired_rules s.saved before r.rules) generation s'.saved
  unfolding commit intent
  commit-IsSettled id before r s s' {generation} h =
      let last : Exec (Session K D) ℕ = asking (λ saved. ok saved.generation) in
      let replace =
        Transaction.reconcile host.rules host.isolation host.save before r.rules r.uids in
      let saving : Exec (Session K D) (Unit {0}) = on_disk host.save in
      let refreshing : Exec (Session K D) (Unit {0}) = on_disk host.refresh_snapshots in
      let finish = change ready >> (saving >> last) in
      let publish = saving >> (refreshing >> finish) in
      let (_, e1, k1) = then-eq-ok replace (change (syncing id r.updated) >> publish) s h in
      let s1 = (replace s).1 in
      let s2 = (change (syncing id r.updated) s1).1 in
      let (_, e2, k2) = then-eq-ok saving (refreshing >> finish) s2 k1 in
      let s3 = (saving s2).1 in
      let (_, e3, k3) = then-eq-ok refreshing finish s3 k2 in
      let s4 = (change ready (refreshing s3).1).1 in
      let (_, e4, k4) = then-eq-ok saving last s4 k3 in
      let ledger =
        (reconcile-IsCommitted host.rules host.isolation host.save before r.rules r.uids s
          (pair_of_parts e1 refl)).ledger in
      let kept : ready (syncing id r.updated s1.saved) ≡ s'.saved =
        ap (λ (t : Session K D). t.saved) (second_part k4) in
      let result : next_generation s1.saved.generation ≡ generation =
        ok-injective (first_part k4) in
      (
        sym result ∙ ap (λ (l : Ledger). next_generation l.generation) ledger,
        sym (ap (λ (l : Ledger). l.generation) kept) ∙ result,
        sym (ap (λ (l : Ledger). l.phase) kept),
        sym (ap (λ (l : Ledger). l.rules) kept) ∙ ap (λ (l : Ledger). l.rules) ledger,
      )

  -- What the action asks for, from some state of the disk, where the kernel answers its provider.
  abbrev pub IsRequested : Action → Text → Ledger → Request → Type 0
  IsRequested action id saved r =
      (provider : Text) × (d : D) × (d' : D) × (request host action id
          (record saved { vfs_provider = some provider }) d
        ≡ (ok r, d'))

  apply_to-IsSettled :
      (action : Action) (id : Text) (before : List SavedRule) (s s' : Session K D) {generation : ℕ}
      → apply_to host action id before s ≡ (ok generation, s')
      → (r : Request) × (d' : D) × (request host action id s.saved s.disk ≡ (ok r, d'))
        × IsSettled s.saved (desired_rules s.saved before r.rules) generation s'.saved
  unfolding apply_to
  apply_to-IsSettled action id before s s' {generation} h =
      let (_, e1, k1) = continue-eq-ok (check_action action before) _ s h in
      let s1 = (on_disk (request host action id) s).1 in
      let (r, e2, k2) = continue-eq-ok (request host action id s.saved s.disk).0 _ s1 k1 in
      let checking : Exec (Session K D) (Unit {0}) =
        on_kernel (λ saved. preflight host.rules before r.rules) in
      let arming : Exec (Session K D) (Unit {0}) = on_disk (λ saved. host.arm) in
      let body = guarded host (commit host id before r) in
      let (_, e3, k3) = then-eq-ok checking (arming >> body) s1 k2 in
      let s2 = (checking s1).1 in
      let (_, e4, k4) = then-eq-ok arming body s2 k3 in
      let s3 = (arming s2).1 in
      let settled =
        commit-IsSettled id before r s3 (commit host id before r s3).1
          (pair_of_parts (first_part k4) refl) in
      let kept : (commit host id before r s3).1.saved ≡ s'.saved =
        ap (λ (t : Session K D). t.saved) (second_part k4) in
      (
        r,
        (request host action id s.saved s.disk).1,
        pair_of_parts e2 refl,
        subst (IsSettled s.saved (desired_rules s.saved before r.rules) generation) kept settled,
      )

  -- An action that succeeds leaves in the ledger the rules of the other modules as they were and,
  -- behind them, those that the action asked for; the phase is ready, and the generation that is
  -- returned is the next one.
  pub apply-replaces :
      (action : Action) (id : Text) (s s' : Session K D) {generation : ℕ}
      → apply host action id s ≡ (ok generation, s')
      → (r : Request) × IsRequested action id s.saved r
        × (s'.saved.rules ≡ other_rules id s.saved.rules ++ r.rules)
        × (generation ≡ next_generation s.saved.generation)
        × (s'.saved.generation ≡ generation)
        × (s'.saved.phase ≡ bytes "ready")
  unfolding apply
  apply-replaces action id s s' {generation} h =
      let (_, e1, k1) = continue-eq-ok (require_ready s.saved) _ s h in
      let s1 = (on_disk (λ saved. host.inspect) s).1 in
      let (verdict, e2, k2) = continue-eq-ok (host.inspect s.disk).0 _ s1 k1 in
      let (_, e3, k3) = continue-eq-ok (guard verdict) _ s1 k2 in
      let s2 = (on_kernel host.open_kernel s1).1 in
      let (provider, e4, k4) = continue-eq-ok (host.open_kernel s.saved s1.kernel).0 _ s2 k3 in
      let entry : Ledger = record (s.saved) { vfs_provider = some provider } in
      let s3 : Session K D = record s2 { saved = entry } in
      let verifying : Exec (Session K D) (Unit {0}) =
        on_kernel (λ saved. verify_owned host.rules saved.rules) in
      let validating : Exec (Session K D) (Unit {0}) =
        on_disk (λ saved. host.validate saved.mounts) in
      let last : Exec (Session K D) ℕ =
        asking (λ saved. forbid (any (text_eq id) saved.non_vfs_modules) active_elsewhere)
        >> (λ s. apply_to host action id (owned_rules id s.saved) s) in
      let (_, e5, k5) = then-eq-ok verifying (validating >> last) s3 k4 in
      let s4 = (verifying s3).1 in
      let (_, e6, k6) = then-eq-ok validating last s4 k5 in
      let s5 = (validating s4).1 in
      let (_, e7, k7) =
        continue-eq-ok (forbid (any (text_eq id) s5.saved.non_vfs_modules) active_elsewhere) _ s5
          k6 in
      let (r, d', asked, (next, same, phase, rules)) =
        apply_to-IsSettled action id (owned_rules id entry) s5 s' k7 in
      (
        r,
        (provider, s5.disk, d', asked),
        rules ∙ desired_rules-owned id entry r.rules,
        next,
        same,
        phase,
      )
