-- ===== src/Pipeline/Tally.antt =====
-- The counters of one deletion, against the calls of the engine that it makes.
use cursedelete.Base.{ℕ, ◌+◌, ◌≤◌, ◌≡◌, refl, ◌&&◌, Option, none, some, arith, if-elim}
use cursedelete.Failure.{sharing_violation, category_eq, DeleteFailure}
use cursedelete.Options.{DeleteOptions}
use cursedelete.Metrics.{Metrics}
use cursedelete.Engine.{
  PlatformEngine, RemediationOutcome, applied, not_applicable, LockResolution, resolved,
  unsupported,
}
use cursedelete.Pipeline.Delete.{
  FileWorkItem, is_remediable, failure_of, Ran, base_delete, count_attempt, after_remediation,
  remediate_failure, after_local, local_locks, after_remote, remote_locks, delete_with_remediation,
  with_local_locks, with_remote_locks, process_one,
}
use cursedelete.Pipeline.Retries.{HasRoom}

-- How many calls were made: delete calls, remediations and how many of them were applied, and local
-- and remote locks that were resolved.
pub record Tally : Type 0 where
  pub deletes : ℕ
  pub attempts : ℕ
  pub applications : ℕ
  pub local : ℕ
  pub remote : ℕ

abbrev pub no_calls : Tally
no_calls = record { deletes = 0; attempts = 0; applications = 0; local = 0; remote = 0 }

abbrev pub with_delete : Tally → Tally
with_delete t = record t { deletes = t.deletes + 1 }

abbrev pub with_remediation : RemediationOutcome → Tally → Tally
with_remediation applied t = record t {
  attempts = t.attempts + 1;
  applications = t.applications + 1;
}
with_remediation not_applicable t = record t { attempts = t.attempts + 1 }
with_remediation (RemediationOutcome.failed msg) t = record t { attempts = t.attempts + 1 }

abbrev pub with_local : LockResolution → Tally → Tally
with_local resolved t = record t { local = t.local + 1 }
with_local (unsupported msg) t = t
with_local (LockResolution.failed msg) t = t

abbrev pub with_remote : LockResolution → Tally → Tally
with_remote resolved t = record t { remote = t.remote + 1 }
with_remote (unsupported msg) t = t
with_remote (LockResolution.failed msg) t = t

-- From the counters `m` to `n`: these calls, each remedy used at most once, are what was counted,
-- with one retry for each remedy that worked; each retry is a delete call after the first; and
-- nothing else was counted.
pub record Counted (t : Tally) (m n : Metrics) : Type 0 where
  pub attempts_are : n.remediation_attempts ≡ m.remediation_attempts + t.attempts
  pub successes_are : n.remediation_successes ≡ m.remediation_successes + t.applications
  pub local_are : n.local_locks_resolved ≡ m.local_locks_resolved + t.local
  pub remote_are : n.remote_locks_resolved ≡ m.remote_locks_resolved + t.remote
  pub retries_are : n.retries ≡ m.retries + (t.applications + t.local + t.remote)
  pub deletes_are : t.deletes ≡ 1 + (t.applications + t.local + t.remote)
  pub once : (t.attempts ≤ 1) × (t.applications ≤ t.attempts) × (t.local ≤ 1) × (t.remote ≤ 1)
  pub same_files : (n.files_scanned ≡ m.files_scanned) × (n.dirs_scanned ≡ m.dirs_scanned)
  pub same_deleted : (n.files_deleted ≡ m.files_deleted) × (n.dirs_deleted ≡ m.dirs_deleted)
  pub same_retained : (n.files_retained ≡ m.files_retained) × (n.dirs_retained ≡ m.dirs_retained)
  pub same_rest : (n.bytes_deleted ≡ m.bytes_deleted) × (n.failures ≡ m.failures)

module _ (E : PlatformEngine) (item : FileWorkItem) (opts : DeleteOptions) where
  -- The calls that lead from one state of the world to another, with their tally.
  pub data Calls (w : E.World) : Tally → E.World → Type 0 where
    begins : Calls w no_calls w
    deletes :
        {t : Tally} {v : E.World}
        → Calls w t v
        → Calls w (with_delete t) (base_delete E item.path item.dispatch_as_dir opts v).1
    remediates :
        {t : Tally} {v : E.World} (f : DeleteFailure)
        → Calls w t v
        → Calls w
            (with_remediation (E.remediate item.path item.dispatch_as_dir f opts v).0 t)
            (E.remediate item.path item.dispatch_as_dir f opts v).1
    unlocks :
        {t : Tally} {v : E.World}
        → Calls w t v
        → Calls w
            (with_local (E.resolve_local_lock item.path opts v).0 t)
            (E.resolve_local_lock item.path opts v).1
    closes :
        {t : Tally} {v : E.World}
        → Calls w t v
        → Calls w
            (with_remote (E.resolve_remote_lock item.path opts v).0 t)
            (E.resolve_remote_lock item.path opts v).1

  -- What is known after a stage: the calls so far are counted, and no lock of a later stage was
  -- resolved yet.
  abbrev Stage : (Tally → Type 0) → Metrics → E.World → Ran E → Type 0
  Stage P m w r = (t : Tally) × Calls w t r.world × Counted t m r.metrics × P t

  abbrev NoLocks : Tally → Type 0
  NoLocks t = (t.local ≡ 0) × (t.remote ≡ 0)

  abbrev NoRemote : Tally → Type 0
  NoRemote t = t.remote ≡ 0

  after_remediation-Stage :
      (m : Metrics) (w : E.World) (r : Ran E) (p : RemediationOutcome × E.World)
      → HasRoom m
      → r.metrics ≡ m
      → Calls w (with_remediation p.0 (with_delete no_calls)) p.1
      → Stage NoLocks m w (
          after_remediation E item.path item.dispatch_as_dir opts
            (record r { metrics = count_attempt E r.metrics })
            p)
  after_remediation-Stage m w r (applied, v) h e c = (
    with_delete (with_remediation applied (with_delete no_calls)),
    deletes c,
    ground arith,
    ground arith,
  )
  after_remediation-Stage m w r (not_applicable, v) h e c =
      (with_remediation not_applicable (with_delete no_calls), c, ground arith, ground arith)
  after_remediation-Stage m w r (RemediationOutcome.failed msg, v) h e c = (
    with_remediation (RemediationOutcome.failed msg) (with_delete no_calls),
    c,
    ground arith,
    ground arith,
  )

  after_local-Stage :
      (m : Metrics) (w : E.World) (r : Ran E) (t : Tally) (p : LockResolution × E.World)
      → HasRoom m
      → Counted t m r.metrics
      → NoLocks t
      → Calls w (with_local p.0 t) p.1
      → Stage NoRemote m w (after_local E item opts r p)
  after_local-Stage m w r t (resolved, v) h k z c =
      (with_delete (with_local resolved t), deletes c, ground arith, ground arith)
  after_local-Stage m w r t (unsupported msg, v) h k z c = (t, c, k, z.1)
  after_local-Stage m w r t (LockResolution.failed msg, v) h k z c = (t, c, k, z.1)

  after_remote-Stage :
      (m : Metrics) (w : E.World) (r : Ran E) (t : Tally) (p : LockResolution × E.World)
      → HasRoom m
      → Counted t m r.metrics
      → NoRemote t
      → Calls w (with_remote p.0 t) p.1
      → Stage (λ t. Unit) m w (after_remote E item opts r p)
  after_remote-Stage m w r t (resolved, v) h k z c =
      (with_delete (with_remote resolved t), deletes c, ground arith, tt)
  after_remote-Stage m w r t (unsupported msg, v) h k z c = (t, c, k, tt)
  after_remote-Stage m w r t (LockResolution.failed msg, v) h k z c = (t, c, k, tt)

  remediate_failure-Stage :
      (m : Metrics) (w : E.World) (r : Ran E) (o : Option DeleteFailure)
      → HasRoom m
      → r.metrics ≡ m
      → Calls w (with_delete no_calls) r.world
      → Stage NoLocks m w (remediate_failure E item.path item.dispatch_as_dir opts r o)
  remediate_failure-Stage m w r none h e c = (with_delete no_calls, c, ground arith, ground arith)
  remediate_failure-Stage m w r (some f) h e c =
      if-elim (Stage NoLocks m w) (opts.allow_remediation && is_remediable f.category) _ _
        (after_remediation-Stage m w r _ h e (remediates f c))
        (with_delete no_calls, c, ground arith, ground arith)

  local_locks-Stage :
      (m : Metrics) (w : E.World) (r : Ran E) (o : Option DeleteFailure)
      → HasRoom m
      → Stage NoLocks m w r
      → Stage NoRemote m w (local_locks E item opts r o)
  local_locks-Stage m w r none h (t, c, k, z) = (t, c, k, z.1)
  local_locks-Stage m w r (some f) h (t, c, k, z) =
      if-elim (Stage NoRemote m w) (category_eq f.category sharing_violation && opts.kill_locks) _ _
        (after_local-Stage m w r t _ h k z (unlocks c)) (t, c, k, z.1)

  remote_locks-Stage :
      (m : Metrics) (w : E.World) (r : Ran E) (o : Option DeleteFailure)
      → HasRoom m
      → Stage NoRemote m w r
      → Stage (λ t. Unit) m w (remote_locks E item opts r o)
  remote_locks-Stage m w r none h (t, c, k, z) = (t, c, k, tt)
  remote_locks-Stage m w r (some f) h (t, c, k, z) =
      if-elim (Stage (λ t. Unit) m w)
        (category_eq f.category sharing_violation && opts.close_remote_locks) _ _
        (after_remote-Stage m w r t _ h k z (closes c)) (t, c, k, tt)

  -- Where no counter is about to wrap, one deletion counts exactly the remedies that its calls of the
  -- engine were: each remediation that was tried, each that was applied and each lock that was
  -- resolved, none of them more than once, and one retry, which is one more delete call, for each that
  -- worked. The counters of files, directories, bytes and failures stay.
  pub process_one-Counted :
      (m : Metrics) (w : E.World)
      → HasRoom m
      → (t : Tally) × Calls w t (process_one E item opts m w).world
        × Counted t m (process_one E item opts m w).metrics
  unfolding process_one delete_with_remediation with_local_locks with_remote_locks
  process_one-Counted m w h =
      let r1 = delete_with_remediation E item.path item.dispatch_as_dir opts m w in
      let r2 = with_local_locks E item opts r1 in
      let (t, c, k, z) = remote_locks-Stage m w r2 (failure_of r2.attempt.outcome) h (
        local_locks-Stage m w r1 (failure_of r1.attempt.outcome) h
          (remediate_failure-Stage m w _ _ h refl (deletes begins))) in
      (t, c, k)
