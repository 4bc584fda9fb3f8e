-- ===== src/Errors.antt =====
-- errors.rs: `Error` and `Result`, and the state passing of code that takes `&mut` and may fail.
-- A constructor stands for the variant with one message format; its arguments are the values that
-- the message prints.
use meta_hybrid_mount.Prelude.{
  List, if◌then◌else◌, inr, inl, ◌⊎◌, ap, ℕ, ◌≡◌, refl, Bool, true, false,
}
use meta_hybrid_mount.Config.{Mode}
use meta_hybrid_mount.Text.{Text}

pub data Error : Type 0 where
  -- an error that came from outside: an I/O call, an ioctl, a closure that the caller gave
  os_error : ℕ → Error
  invalid_module_id : Text → Error
  -- vfs/protocol.rs
  buffer_exceeds : ℕ → Error
  opaque_needs_provider : Error
  single_rule_needs : ℕ → Error
  single_del_rule_needs : ℕ → Error
  response_short : ℕ → ℕ → Text → Error
  kernel_status : ℕ → Error
  kernel_status_at : ℕ → ℕ → Error
  cursor_short : ℕ → ℕ → Error
  response_claims : ℕ → Error
  response_body_short : ℕ → Error
  truncated_header : ℕ → Error
  truncated_paths : ℕ → ℕ → Error
  uid_batch_ragged : ℕ → Error
  cursor_stuck : ℕ → ℕ → ℕ → Error
  -- vfs/boot_guard.rs: the operation, the path and the cause; what a standing marker says
  guard_context : Text → Text → Error → Error
  guard_standing : Text → Error
  lkm_attempt_incomplete : Text → Error
  -- runtime/rules.rs
  owned_rule_missing : Text → ℕ → Error
  duplicate_rule : Text → ℕ → Error
  obsolete_remains : Text → ℕ → Error
  foreign_conflicts : Text → Text → ℕ → Error
  transaction_rolled_back : Error → Error
  transaction_not_rolled_back : Error → Error → Error
  -- partitions.rs
  invalid_module_path : Text → Error
  partition_skipped : Text → Text → Error
  -- runtime/ledger.rs
  not_clean : Error
  not_ready : Text → Error
  legacy_registrations : Error
  namespace_changed : Error
  unsupported_ledger : Error
  invalid_phase : Error
  -- runtime/lifecycle.rs and runtime/boot.rs
  unplanned_target : Text → Error
  rule_changed_before_commit : Text → Error
  owned_rule_changed : Text → Error
  incomplete_operation : Error
  boot_pipeline_failed : Error
  invalid_utf8 : Error
  -- runtime/policy.rs
  layout_unknown : Error
  layout_changed : Text → Error
  active_elsewhere : Error
  module_excluded : Error
  not_pure_vfs : Error
  mixed_backends : Error
  target_overlaps_mount : Text → Error
  -- vfs/exec.rs: the cause of the failed cleanup and that of the apply; the paths that are missing
  apply_cleanup_failed : Error → Error → Error
  readback_missing : List Text → Error
  -- sys/transaction.rs: the labels of the actions that failed
  cleanup_actions_failed : List Text → Error
  -- pipeline.rs
  provider_conflict : Error
  provider_guard_failed : Error → Error
  provider_missing : Error
  vfs_rules_skipped : Error
  boot_guard_present : Text → Error
  guard_not_retired : Error → Error
  provider_changed : Error
  nomount_collision : Error
  unknown_provider_error : Error
  apply_degraded : Error → Error
  readback_failed : Error → Error
  readback_cleanup_failed : Error → Error → Error
  -- runtime/hot.rs
  hot_guard_present : Text → Error
  already_active : Error
  not_active : Error
  module_not_found : Error
  -- runtime/transaction.rs: the cause, and whether the rollback was clean
  uid_missing : ℕ → Error
  hot_transaction_failed : Error → Bool → Error
  -- plan/mod.rs: the target, and the backend and the source on either side
  plan_conflict : Text → Mode → Text → Mode → Text → Error

pub data Result {ℓ} (T : Type ℓ) : Type ℓ where
  ok : T → Result T
  err : Error → Result T

-- The operator `?`: an error ends the sequence.
infixl 5 ◌>>=◌ ◌>>◌
abbrev pub ◌>>=◌ {ℓ κ} : {T : Type ℓ} {U : Type κ} → Result T → (T → Result U) → Result U
ok value >>= next = next value
err error >>= next = err error

abbrev pub ◌>>◌ {ℓ} : {U : Type ℓ} → Result (Unit {0}) → Result U → Result U
check >> next = check >>= λ _. next

-- `if !b { return Err(error) }`
abbrev pub require : Bool → Error → Result (Unit {0})
require b error = elim b [ true ↦ ok tt | false ↦ err error ]

abbrev pub is_ok {ℓ} : {A : Type ℓ} → Result A → Bool
is_ok (ok a) = true
is_ok (err e) = false

abbrev pub is_ok_and {ℓ} : {A : Type ℓ} → (A → Bool) → Result A → Bool
is_ok_and p (ok a) = p a
is_ok_and p (err e) = false

pub is_ok_and-true {ℓ} :
    {A : Type ℓ} (p : A → Bool) (r : Result A)
    → is_ok_and p r ≡ true
    → (a : A) × (r ≡ ok a) × (p a ≡ true)
is_ok_and-true p (ok a) h = (a, refl, h)
is_ok_and-true p (err e) h = cc

pub is_ok-true {ℓ} : {A : Type ℓ} (r : Result A) → is_ok r ≡ true → (a : A) × (r ≡ ok a)
is_ok-true (ok a) h = (a, refl)
is_ok-true (err e) h = cc

pub >>=-eq-ok {ℓ κ} :
    {T : Type ℓ} {U : Type κ} (r : Result T) (next : T → Result U) {u : U}
    → (r >>= next) ≡ ok u
    → (value : T) × (r ≡ ok value) × (next value ≡ ok u)
>>=-eq-ok (err error) next h = cc
>>=-eq-ok (ok value) next h = (value, refl, h)

abbrev from_ok {ℓ} : {A : Type ℓ} → A → Result A → A
from_ok d (ok a) = a
from_ok d (err e) = d

pub ok-injective {ℓ} : {A : Type ℓ} {a b : A} → ok a ≡ ok b → a ≡ b
ok-injective {a = a} h = ap (from_ok a) h

pub Result-cases {ℓ} :
    {A : Type ℓ} (r : Result A) → ((a : A) × (r ≡ ok a)) ⊎ ((e : Error) × (r ≡ err e))
Result-cases (ok a) = inl (a, refl)
Result-cases (err e) = inr (e, refl)

-- `if b { return Err(error) }`
abbrev pub forbid : Bool → Error → Result (Unit {0})
forbid b error = if b then err error else ok tt

pub forbid-ok : (b : Bool) (error : Error) {u : Unit {0}} → forbid b error ≡ ok u → b ≡ false
forbid-ok true error h = cc
forbid-ok false error h = refl
