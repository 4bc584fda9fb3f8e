-- ===== src/Tests/Stages.antt =====
-- The stages of a boot on a small system.
use meta_hybrid_mount.Prelude.{
  some, some, ◌≡◌, refl, ◌⊎◌, Bool, true, false, ℕ, List, [], ◌∷◌, none,
}
use meta_hybrid_mount.Text.{Text, bytes}
use meta_hybrid_mount.Errors.{Error, Result, ok, err, provider_missing}
use meta_hybrid_mount.Plan.Builder.{empty_builder, finish}
use meta_hybrid_mount.State.Run.{new_state}
use meta_hybrid_mount.Sys.Journal.{
  is_deferred, push, register_rollback_only, commit_loop, finish_commit, commit, new_transaction,
}
use meta_hybrid_mount.Sys.Mountinfo.{from_records}
use meta_hybrid_mount.Pipeline.Rollback.{StateHost, Boot, persist_startup_failure_state}
use meta_hybrid_mount.Pipeline.Stages.{
  settle_commit, commit_stage, save_stage, begin_stage, StageHost, MountExecutionResult,
  mount_stage,
}
use meta_hybrid_mount.Pipeline.Recorded.{IsFailed, IsMounted, begun}
use meta_hybrid_mount.Pipeline.Recorded.Ends.{mount_stage-Ends}
use meta_hybrid_mount.Pipeline.Startup.{StartHost, SessionHost, run_pipeline}
use meta_hybrid_mount.Pipeline.Startup.Provider.{run_pipeline-same}
use meta_hybrid_mount.Tests.Admission.{config}
use meta_hybrid_mount.Tests.Plans.{layout}

-- The system is the list of the mounts, with their identifiers.
abbrev Mounts : Type 0
Mounts = List (Text × ℕ)

abbrev files : StateHost Mounts
files = record {
  read_mounts = λ w. (ok w, w);
  save_state = λ state w. (ok tt, w);
  write_scan_ret = λ modules w. (ok tt, w);
  mount_error_modules = λ w. [];
  now = λ w. 5;
  pid = 1;
}

abbrev target : Text
target = bytes "/system/etc"

abbrev one_overlay : MountExecutionResult
one_overlay = record {
  overlay_dir_mounts = 1;
  shallow_overlay_mounts = 0;
  active_mounts = target ∷ [];
  magic_stats = record {
    mounted_files = 0;
    mounted_symlinks = 0;
    mounted_dirs = 0;
    ignored_files = 0;
    active_mounts = [];
    owned_mounts = [];
    mounted_module_ids = [];
  };
  vfs_stats = record {
    active_targets = [];
    mounted_module_ids = [];
    injected = 0;
    whiteouts = 0;
    opaque = 0;
    failure = none;
  };
}

-- The mounting adds one mount and registers it.
abbrev host : StageHost Mounts
host = record {
  files = files;
  execute_mount_phases =
      λ b. (ok one_overlay, record b { system = (target, 9) ∷ b.system; mounted = target ∷ [] });
  clear_unmount_list = λ w. (ok tt, w);
  update_description = λ mode overlay magic vfs w. w;
}

abbrev boot : Boot Mounts
boot = record {
  system = (bytes "/", 1) ∷ [];
  state = new_state 5 1 [] [] [] record { overlayfs = 0; magicmount = 0; vfs = 0 };
  plan = finish empty_builder;
  transaction = new_transaction;
  mounted = [];
}

is_committed : (mount_stage host [] config boot).1.state.rollback_status ≡ some (bytes "committed")
unfolding mount_stage begin_stage save_stage commit_stage settle_commit commit finish_commit
    commit_loop register_rollback_only push is_deferred
is_committed = refl

mount_stage-Ends_example :
    ((e : Error) × ((host.files.read_mounts boot.system).0 ≡ err e)
      × (mount_stage host [] config boot ≡ (
        err e,
        record boot {
          system =
              persist_startup_failure_state host.files
                (bytes "baseline")
                e
                (host.files.read_mounts boot.system).1;
        },
      )))
    ⊎ ((records : List (Text × ℕ)) × ((host.files.read_mounts boot.system).0 ≡ ok records)
        × (IsMounted host [] config
              (begun host [] config
                (record boot { system = (host.files.read_mounts boot.system).1 }))
              (mount_stage host [] config boot).0
              (mount_stage host [] config boot).1
            ⊎ IsFailed host [] config
                (begun host [] config
                  (record boot { system = (host.files.read_mounts boot.system).1 }))
                (from_records records)
                (mount_stage host [] config boot).0
                (mount_stage host [] config boot).1))
mount_stage-Ends_example = mount_stage-Ends host [] config boot

-- A provider of another program answers; loading would add a mount.
abbrev start_host : StartHost Mounts Bool
start_host = record {
  stages = λ config modules. host;
  files = files;
  prepare = λ w. w;
  load_config = λ w. (ok config, w);
  print_config = λ config w. (ok tt, w);
  detect_with_mounts = λ baseline config w. (ok layout, w);
  list_modules = λ config layout w. (ok [], w);
  detect_foreign_nomount = λ w. (record { present = true; error = none }, w);
  available = λ w. (true, w);
  load = λ w. (ok tt, (bytes "/module", 3) ∷ w);
  stage_plan = λ plan uids present w. (ok tt, w);
}

abbrev session : SessionHost Mounts Bool
session = record {
  enter = λ w. (ok tt, w);
  already_applied = λ w. (ok false, w);
  start = λ w. (ok true, w);
  finish = λ baseline ok_ mounted w. (ok tt, w);
}

abbrev failing_load : Mounts → Result (Unit {0}) × Mounts
failing_load w = (err provider_missing, w)

run_pipeline-same_example :
    run_pipeline session start_host
    ≡ run_pipeline session (record start_host { load = failing_load })
run_pipeline-same_example = run_pipeline-same start_host failing_load (λ w. refl) session
