-- ===== src/Tests/Journal.antt =====
-- The cleanup journal with three actions, one of which fails.
use meta_hybrid_mount.Prelude.{false, ℕ, ◌+◌, true, [], ◌∷◌}
use meta_hybrid_mount.Text.{bytes}
use meta_hybrid_mount.Errors.{ok, err, os_error}
use meta_hybrid_mount.Sys.Journal.{MountTransaction, cleanup, retainable, rollback_only, commit}
use meta_hybrid_mount.Sys.Journal.Accounts.{Outcome, commit-Outcome}

-- The system counts the calls.
abbrev journal : MountTransaction ℕ
journal = record {
  actions =
      record { label = bytes "storage"; kind = retainable; run = λ w. (ok tt, w + 1) }
      ∷ record { label = bytes "mount"; kind = rollback_only; run = λ w. (ok tt, w + 1) }
      ∷ record { label = bytes "staging"; kind = cleanup; run = λ w. (err (os_error 16), w + 1) }
      ∷ [];
  finished = false;
}

commit-Outcome_example : Outcome true journal 0 (commit true journal 0)
commit-Outcome_example = commit-Outcome true journal 0
