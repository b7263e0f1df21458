-- ===== src/Pipeline/Delete.antt =====
-- One deletion with its remediation and its retries: pipeline.rs, `base_delete` to `process_one`.
use cursedelete.Base.{ℕ, Bool, ◌&&◌, ◌||◌, Option, none, some, if◌then◌else◌, Text, FilePath, add64}
use cursedelete.Entry.{DirId}
use cursedelete.Failure.{
  FailureCategory, access_denied, sharing_violation, reparse_point_refused, remote_lock_unsupported,
  remote_lock_failed, category_eq, DeleteFailure,
}
use cursedelete.Options.{DeleteOptions}
use cursedelete.Metrics.{Metrics}
use cursedelete.Engine.{
  PlatformEngine, DeleteOutcome, deleted, already_gone, DeleteAttempt, failed_attempt,
  RemediationOutcome, applied, not_applicable, LockResolution, resolved, unsupported,
}

pub record FileWorkItem : Type 0 where
  pub path : FilePath
  pub parent_dir_id : DirId
  pub size : ℕ
  pub dispatch_as_dir : Bool

abbrev pub is_remediable : FailureCategory → Bool
is_remediable c = category_eq c access_denied || category_eq c reparse_point_refused

-- The failure of an attempt, for the `if let`s on it.
abbrev pub failure_of : DeleteOutcome → Option DeleteFailure
failure_of deleted = none
failure_of already_gone = none
failure_of (DeleteOutcome.failed f) = some f

module _ (E : PlatformEngine) where
  -- An attempt, with the counters and the world after it.
  pub record Ran : Type 0 where
    pub attempt : DeleteAttempt
    pub metrics : Metrics
    pub world : E.World

  unfoldable pub base_delete : FilePath → Bool → DeleteOptions → E.World → DeleteAttempt × E.World
  base_delete path dispatch_as_dir opts w =
      if dispatch_as_dir then E.delete_dir path opts w else E.delete_file path opts w

  abbrev pub ran : Metrics → DeleteAttempt × E.World → Ran
  ran m (a, w) = record { attempt = a; metrics = m; world = w }

  abbrev pub count_attempt : Metrics → Metrics
  count_attempt m = record m { remediation_attempts = add64 m.remediation_attempts 1 }

  abbrev pub count_success : Metrics → Metrics
  count_success m = record m {
    remediation_successes = add64 m.remediation_successes 1;
    retries = add64 m.retries 1;
  }

  -- What follows the call of `remediate`: one retry if it was applied.
  abbrev pub after_remediation :
      FilePath → Bool → DeleteOptions → Ran → RemediationOutcome × E.World → Ran
  after_remediation path as_dir opts r (applied, w) =
      ran (count_success r.metrics) (base_delete path as_dir opts w)
  after_remediation path as_dir opts r (not_applicable, w) = record r { world = w }
  after_remediation path as_dir opts r (RemediationOutcome.failed msg, w) = record r { world = w }

  abbrev pub remediate_failure : FilePath → Bool → DeleteOptions → Ran → Option DeleteFailure → Ran
  remediate_failure path as_dir opts r none = r
  remediate_failure path as_dir opts r (some f) =
      if opts.allow_remediation && is_remediable f.category
      then after_remediation path as_dir opts (record r { metrics = count_attempt r.metrics })
          (E.remediate path as_dir f opts r.world)
      else r

  unfoldable pub delete_with_remediation : FilePath → Bool → DeleteOptions → Metrics → E.World → Ran
  delete_with_remediation path as_dir opts m w =
      let r = ran m (base_delete path as_dir opts w) in
      remediate_failure path as_dir opts r (failure_of r.attempt.outcome)

  abbrev pub count_local : Metrics → Metrics
  count_local m = record m {
    local_locks_resolved = add64 m.local_locks_resolved 1;
    retries = add64 m.retries 1;
  }

  abbrev pub after_local : FileWorkItem → DeleteOptions → Ran → LockResolution × E.World → Ran
  after_local item opts r (resolved, w) =
      ran (count_local r.metrics) (base_delete item.path item.dispatch_as_dir opts w)
  after_local item opts r (unsupported msg, w) = record r { world = w }
  after_local item opts r (LockResolution.failed msg, w) = record r { world = w }

  -- `--kill-locks`, tried on a sharing violation.
  abbrev pub local_locks : FileWorkItem → DeleteOptions → Ran → Option DeleteFailure → Ran
  local_locks item opts r none = r
  local_locks item opts r (some f) =
      if category_eq f.category sharing_violation && opts.kill_locks
      then after_local item opts r (E.resolve_local_lock item.path opts r.world)
      else r

  abbrev pub count_remote : Metrics → Metrics
  count_remote m = record m {
    remote_locks_resolved = add64 m.remote_locks_resolved 1;
    retries = add64 m.retries 1;
  }

  abbrev pub remote_failure : FileWorkItem → FailureCategory → Text → DeleteAttempt
  remote_failure item c msg = failed_attempt (record {
    path = item.path;
    is_directory = item.dispatch_as_dir;
    category = c;
    message = msg;
    os_error_code = none;
  })

  abbrev pub after_remote : FileWorkItem → DeleteOptions → Ran → LockResolution × E.World → Ran
  after_remote item opts r (resolved, w) =
      ran (count_remote r.metrics) (base_delete item.path item.dispatch_as_dir opts w)
  after_remote item opts r (unsupported msg, w) = record r {
    attempt = remote_failure item remote_lock_unsupported msg;
    world = w;
  }
  after_remote item opts r (LockResolution.failed msg, w) = record r {
    attempt = remote_failure item remote_lock_failed msg;
    world = w;
  }

  -- `--close-remote-locks`, tried on a sharing violation that is still there.
  abbrev pub remote_locks : FileWorkItem → DeleteOptions → Ran → Option DeleteFailure → Ran
  remote_locks item opts r none = r
  remote_locks item opts r (some f) =
      if category_eq f.category sharing_violation && opts.close_remote_locks
      then after_remote item opts r (E.resolve_remote_lock item.path opts r.world)
      else r

  unfoldable pub with_local_locks : FileWorkItem → DeleteOptions → Ran → Ran
  with_local_locks item opts r = local_locks item opts r (failure_of r.attempt.outcome)

  unfoldable pub with_remote_locks : FileWorkItem → DeleteOptions → Ran → Ran
  with_remote_locks item opts r = remote_locks item opts r (failure_of r.attempt.outcome)

  unfoldable pub process_one : FileWorkItem → DeleteOptions → Metrics → E.World → Ran
  process_one item opts m w =
      with_remote_locks item opts (
        with_local_locks item opts
          (delete_with_remediation item.path item.dispatch_as_dir opts m w))
