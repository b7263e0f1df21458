-- ===== src/Report.antt =====
-- crates/cursdel-core/src/report.rs: the summary of a run and its exit code, and `build_summary` of
-- pipeline.rs.
pub mod Explains
pub mod Rendering
use cursedelete.Base.{
  ℕ, Bool, not, ◌&&◌, ◌||◌, List, ltb, ◌==◌, if◌then◌else◌, is_empty, any, FilePath,
}
use cursedelete.Entry.{Duration}
use cursedelete.Failure.{
  FailureCategory, remote_lock_failed, remote_lock_unsupported, local_lock_unresolved, category_eq,
  DeleteFailure,
}
use cursedelete.ExitCode.{
  ExitCode, success, completed_with_failures, privilege_requirement_not_satisfied,
  lock_resolution_failed, remote_lock_handling_failed, interrupted,
}
use cursedelete.Options.{
  Mode, allows_remediation, WorkerPolicy, OperationOptions, effective_kill_locks,
}
use cursedelete.Metrics.{Metrics}
use cursedelete.Pipeline.Log.{FailureLog}

pub record Summary : Type 0 where
  pub target : FilePath
  pub mode : Mode
  pub dry_run : Bool
  pub workers_requested : WorkerPolicy
  pub workers_final : ℕ
  pub metrics : Metrics
  pub elapsed : Duration
  pub failures : List DeleteFailure
  pub failures_truncated : Bool
  pub was_interrupted : Bool  -- `interrupted`
  pub acl_repair_enabled : Bool
  pub kill_locks_enabled : Bool
  pub remote_locks_enabled : Bool

unfoldable pub build_summary :
    OperationOptions → Metrics → FailureLog → Duration → ℕ → Bool → Summary
build_summary o m l elapsed workers_final was_interrupted = record {
  target = o.target;
  mode = o.mode;
  dry_run = o.dry_run;
  workers_requested = o.workers;
  workers_final = workers_final;
  metrics = m;
  elapsed = elapsed;
  failures = l.failures;
  failures_truncated = l.truncated;
  was_interrupted = was_interrupted;
  acl_repair_enabled = allows_remediation o.mode;
  kill_locks_enabled = effective_kill_locks o;
  remote_locks_enabled = o.close_remote_locks;
}

abbrev pub is_remote_lock : DeleteFailure → Bool
is_remote_lock f =
    category_eq f.category remote_lock_failed || category_eq f.category remote_lock_unsupported

abbrev pub is_local_lock : DeleteFailure → Bool
is_local_lock f = category_eq f.category local_lock_unresolved

unfoldable pub exit_code : Summary → ExitCode
exit_code s =
    if s.was_interrupted
    then interrupted
    else if not (is_empty s.failures)
    then (if any is_remote_lock s.failures && s.remote_locks_enabled
        then remote_lock_handling_failed
        else if any is_local_lock s.failures && s.kill_locks_enabled
        then lock_resolution_failed
        else if s.acl_repair_enabled
            && ltb 0 s.metrics.remediation_attempts
            && (s.metrics.remediation_successes == 0)
        then privilege_requirement_not_satisfied
        else completed_with_failures)
    else success
