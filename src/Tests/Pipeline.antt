-- ===== src/Tests/Pipeline.antt =====
-- The pipeline and its report at fixed inputs.
use cursedelete.Base.{
  ◌↔◌, ◌≡◌, refl, Bool, true, false, none, List, [], ◌∷◌, arith, ltb, length, codes,
}
use cursedelete.Tests.Worlds.{literal_globs, lockable, locked_failure}
use cursedelete.Failure.{DeleteFailure}
use cursedelete.Options.{DeleteOptions, normal, auto, modified}
use cursedelete.Metrics.{no_metrics}
use cursedelete.ExitCode.{completed_with_failures}
use cursedelete.Engine.{deleted, directory_complete}
use cursedelete.Filter.{FilterSet}
use cursedelete.Tracker.{ReadyDirectory}
use cursedelete.Tracker
use cursedelete.Pipeline.Delete
use cursedelete.Pipeline.Tally.{Tally, Calls, Counted, process_one-Counted}
use cursedelete.Pipeline.Delete.{FileWorkItem, Ran, ran, base_delete, process_one}
use cursedelete.Pipeline.Retries.{HasRoom, IsHonest, process_one-IsHonest}
use cursedelete.Pipeline.Log.{push_all, empty_log, take, max_stored_failures, push_all-empty_log}
use cursedelete.Pipeline.Files.{Run, Mode, handle_event, coordinator_loop, file_worker_step}
use cursedelete.Pipeline.Dirs.{DirMode}
use cursedelete.Pipeline.Single.{FileMetadata, Single}
use cursedelete.Pipeline.DryRun.{Untouched, coordinator_loop-Untouched}
use cursedelete.Pipeline.Outcomes.{Records, file_worker_step-Records}
use cursedelete.Report.{Summary, exit_code}
use cursedelete.Report.Explains.{Explains, exit_code_iff}

abbrev kill : DeleteOptions
kill = record { allow_remediation = false; kill_locks = true; close_remote_locks = false }

abbrev plain : DeleteOptions
plain = record { allow_remediation = false; kill_locks = false; close_remote_locks = false }

abbrev item : FileWorkItem
item = record { path = codes "/x/a"; parent_dir_id = 0; size = 5; dispatch_as_dir = false }

-- The locked file is freed and deleted at the second try.
process_one_kills_lock : (process_one lockable item kill no_metrics true).attempt.outcome ≡ deleted
unfolding process_one Delete.delete_with_remediation Delete.with_local_locks
    Delete.with_remote_locks base_delete
process_one_kills_lock = refl

no_metrics-HasRoom : HasRoom no_metrics
no_metrics-HasRoom = omega arith

process_one-Counted_example :
    (t : Tally) × Calls lockable item kill true t
      (process_one lockable item kill no_metrics true).world
    × Counted t no_metrics (process_one lockable item kill no_metrics true).metrics
process_one-Counted_example =
    process_one-Counted lockable item kill no_metrics true no_metrics-HasRoom

process_one-IsHonest_example :
    IsHonest lockable item kill (process_one lockable item kill no_metrics true).attempt
process_one-IsHonest_example = process_one-IsHonest lockable item kill no_metrics true

abbrev failures : List DeleteFailure
failures = locked_failure (codes "/x/a") ∷ []

push_all-empty_log_example :
    ((push_all failures empty_log).failures ≡ take max_stored_failures failures)
    × ((push_all failures empty_log).truncated ≡ ltb max_stored_failures (length failures))
push_all-empty_log_example = push_all-empty_log failures

abbrev first_run : Run Bool
first_run = record {
  tracker = Tracker.register_directory 0 none (codes "/x") Tracker.new;
  metrics = no_metrics;
  sampler = record { completed = 0; errors = 0; window_start = 0 };
  log = empty_log;
  world = true;
  file_queue = [];
  root_done = 0;
}

file_worker_step-Records_example :
    Records item
      (process_one lockable item kill no_metrics true).attempt.outcome
      first_run
      (file_worker_step lockable kill item first_run)
file_worker_step-Records_example =
    file_worker_step-Records lockable kill item first_run no_metrics-HasRoom

abbrev everything : FilterSet literal_globs
everything = record {
  include = none;
  exclude = none;
  min_size = none;
  max_size = none;
  age = none;
  age_basis = modified;
  reference_time = 0;
}

abbrev rehearsal : Mode literal_globs
rehearsal = record { filters = everything; dry_run = true; cancelled = false; connected = true }

abbrev root_ready : ReadyDirectory
root_ready = record { dir_id = 0; parent = none; path = codes "/x"; simulated_non_empty = false }

abbrev rehearsed : Run Bool
rehearsed = record first_run { tracker = Tracker.mark_enumeration_done 0 first_run.tracker }

coordinator_loop-Untouched_example : Untouched first_run rehearsed
coordinator_loop-Untouched_example =
    coordinator_loop-Untouched rehearsal (directory_complete 0 ∷ []) first_run rehearsed refl
      (unfold coordinator_loop handle_event in refl)

abbrev dir_mode : DirMode
dir_mode = record { opts = plain; dry_run = true; preserve_root = false; cancelled = false }

abbrev one_file : FileMetadata
one_file = record {
  is_dir = false;
  len = 5;
  times = record { modified = none; created = none; accessed = none };
  readonly = false;
}

abbrev single : Single literal_globs lockable
single = record { metrics = no_metrics; log = empty_log; world = true }

abbrev one_failure : Summary
one_failure = record {
  target = codes "/x";
  mode = normal;
  dry_run = false;
  workers_requested = auto;
  workers_final = 4;
  metrics = no_metrics;
  elapsed = 0;
  failures = failures;
  failures_truncated = false;
  was_interrupted = false;
  acl_repair_enabled = false;
  kill_locks_enabled = false;
  remote_locks_enabled = false;
}

exit_code_iff_example :
    (exit_code one_failure ≡ completed_with_failures) ↔ Explains one_failure completed_with_failures
exit_code_iff_example = exit_code_iff one_failure completed_with_failures
