-- ===== src/Pipeline/Outcomes.antt =====
-- Every outcome is counted once, and every failure is logged.
use cursedelete.Base.{◌≡◌, refl, ◌⊎◌, inl, inr, true, false, arith, add64}
use cursedelete.Options.{DeleteOptions}
use cursedelete.Failure.{DeleteFailure}
use cursedelete.Metrics.{Metrics}
use cursedelete.Engine.{PlatformEngine, DeleteOutcome, deleted, already_gone, outcome_is_success}
use cursedelete.Tracker.{complete_child}
use cursedelete.Pipeline.Delete.{FileWorkItem, process_one}
use cursedelete.Pipeline.Retries.{HasRoom, Accounts, process_one-Accounts}
use cursedelete.Pipeline.Log.{push}
use cursedelete.Pipeline.Files.{Run, settle, file_worker_step}

-- A file came out deleted: it is counted with its size, its parent learns that it is gone, and
-- no failure is recorded.
pub record Deleted {W : Type 0} (item : FileWorkItem) (r s : Run W) : Type 0 where
  pub counted : s.metrics.files_deleted ≡ add64 r.metrics.files_deleted 1
  pub weighed : s.metrics.bytes_deleted ≡ add64 r.metrics.bytes_deleted item.size
  pub no_failure : s.metrics.failures ≡ r.metrics.failures
  pub same_log : s.log ≡ r.log
  pub gone : s.tracker ≡ complete_child item.parent_dir_id false r.tracker

-- A file stayed: the failure is counted and logged, its parent learns that it is still there, and
-- no deletion is recorded.
pub record Kept {W : Type 0} (item : FileWorkItem) (f : DeleteFailure) (r s : Run W) : Type 0 where
  pub counted : s.metrics.failures ≡ add64 r.metrics.failures 1
  pub logged : s.log ≡ push f r.log
  pub not_deleted : s.metrics.files_deleted ≡ r.metrics.files_deleted
  pub not_weighed : s.metrics.bytes_deleted ≡ r.metrics.bytes_deleted
  pub still_there : s.tracker ≡ complete_child item.parent_dir_id true r.tracker

-- The two results, by the outcome of the deletion.
abbrev pub Records : {W : Type 0} → FileWorkItem → DeleteOutcome → Run W → Run W → Type 0
Records item o r s =
    ((outcome_is_success o ≡ true) × Deleted item r s)
    ⊎ ((f : DeleteFailure) × (o ≡ DeleteOutcome.failed f) × Kept item f r s)

settle-Records :
    {W : Type 0} (item : FileWorkItem) (o : DeleteOutcome) (m : Metrics) (w : W) (r : Run W)
    → Accounts r.metrics m
    → Records item o r (settle item o (record r { metrics = m; world = w }))
settle-Records item deleted m w r a = inl (refl, ground arith)
settle-Records item already_gone m w r a = inl (refl, ground arith)
settle-Records item (DeleteOutcome.failed f) m w r a = inr (f, refl, ground arith)

module _ (E : PlatformEngine) where
  -- Where no counter is about to wrap, a worker's round on a file has one of two results, by the
  -- outcome of the deletion: the file is recorded as deleted, or the very failure of the deletion
  -- is recorded.
  pub file_worker_step-Records :
      (opts : DeleteOptions) (item : FileWorkItem) (r : Run E.World)
      → HasRoom r.metrics
      → Records item
          (process_one E item opts r.metrics r.world).attempt.outcome
          r
          (file_worker_step E opts item r)
  unfolding file_worker_step
  file_worker_step-Records opts item r h =
      let p = process_one E item opts r.metrics r.world in
      settle-Records item p.attempt.outcome p.metrics p.world r
        (process_one-Accounts E item opts r.metrics r.world h)
