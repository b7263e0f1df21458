-- ===== src/Pipeline/Retries.antt =====
-- What one deletion may do beyond the native call: bounded, counted and only as the options allow.
use cursedelete.Base.{
  ◌+◌, ◌≤◌, ◌<◌, ◌≡◌, refl, ◌⊎◌, inl, inr, Bool, false, ◌&&◌, Option, none, some, arith, if-elim,
  Text, FilePath, u64_mod,
}
use cursedelete.Failure.{
  sharing_violation, remote_lock_unsupported, remote_lock_failed, category_eq, DeleteFailure,
}
use cursedelete.Options.{DeleteOptions}
use cursedelete.Metrics.{Metrics}
use cursedelete.Engine.{
  PlatformEngine, DeleteAttempt, RemediationOutcome, applied, not_applicable, LockResolution,
  resolved, unsupported,
}
use cursedelete.Pipeline.Delete.{
  FileWorkItem, is_remediable, failure_of, Ran, base_delete, ran, count_attempt, after_remediation,
  remediate_failure, after_local, local_locks, after_remote, remote_locks, remote_failure,
  delete_with_remediation, with_local_locks, with_remote_locks, process_one,
}

-- The counters of a run that no single deletion can make wrap.
pub record HasRoom (m : Metrics) : Type 0 where
  pub attempts_room : m.remediation_attempts + 1 < u64_mod
  pub successes_room : m.remediation_successes + 1 < u64_mod
  pub local_room : m.local_locks_resolved + 1 < u64_mod
  pub remote_room : m.remote_locks_resolved + 1 < u64_mod
  pub retries_room : m.retries + 3 < u64_mod

-- From the counters `m` to `n`: each remedy was used at most once, each use was one retry, and
-- nothing else was counted.
pub record Accounts (m n : Metrics) : Type 0 where
  pub attempts :
      (m.remediation_attempts ≤ n.remediation_attempts)
      × (n.remediation_attempts ≤ m.remediation_attempts + 1)
  pub successes :
      (m.remediation_successes ≤ n.remediation_successes)
      × (n.remediation_successes + m.remediation_attempts
          ≤ m.remediation_successes + n.remediation_attempts)
  pub local :
      (m.local_locks_resolved ≤ n.local_locks_resolved)
      × (n.local_locks_resolved ≤ m.local_locks_resolved + 1)
  pub remote :
      (m.remote_locks_resolved ≤ n.remote_locks_resolved)
      × (n.remote_locks_resolved ≤ m.remote_locks_resolved + 1)
  pub retries :
      n.retries + m.remediation_successes + m.local_locks_resolved + m.remote_locks_resolved
      ≡ m.retries + n.remediation_successes + n.local_locks_resolved + n.remote_locks_resolved
  pub same_files : n.files_scanned ≡ m.files_scanned
  pub same_deleted : (n.files_deleted ≡ m.files_deleted) × (n.dirs_deleted ≡ m.dirs_deleted)
  pub same_retained : (n.files_retained ≡ m.files_retained) × (n.dirs_retained ≡ m.dirs_retained)
  pub same_rest :
      (n.bytes_deleted ≡ m.bytes_deleted)
      × (n.failures ≡ m.failures)
      × (n.dirs_scanned ≡ m.dirs_scanned)

module _ (E : PlatformEngine) where
  delete_with_remediation-Accounts :
      (path : FilePath) (as_dir : Bool) (opts : DeleteOptions) (m : Metrics) (w : E.World)
      → HasRoom m
      → let n = (delete_with_remediation E path as_dir opts m w).metrics in
        Accounts m n
        × (n.local_locks_resolved ≡ m.local_locks_resolved)
        × (n.remote_locks_resolved ≡ m.remote_locks_resolved)
  unfolding delete_with_remediation
  delete_with_remediation-Accounts path as_dir opts m w h = ground arith

  with_local_locks-counts :
      (item : FileWorkItem) (opts : DeleteOptions) (r : Ran E)
      → r.metrics.local_locks_resolved + 1 < u64_mod
      → r.metrics.retries + 1 < u64_mod
      → let n = (with_local_locks E item opts r).metrics in
        (n ≡ r.metrics)
        ⊎ (n ≡ record r.metrics {
          local_locks_resolved = r.metrics.local_locks_resolved + 1;
          retries = r.metrics.retries + 1;
        })
  unfolding with_local_locks
  with_local_locks-counts item opts r h k = ground arith

  with_remote_locks-counts :
      (item : FileWorkItem) (opts : DeleteOptions) (r : Ran E)
      → r.metrics.remote_locks_resolved + 1 < u64_mod
      → r.metrics.retries + 1 < u64_mod
      → let n = (with_remote_locks E item opts r).metrics in
        (n ≡ r.metrics)
        ⊎ (n ≡ record r.metrics {
          remote_locks_resolved = r.metrics.remote_locks_resolved + 1;
          retries = r.metrics.retries + 1;
        })
  unfolding with_remote_locks
  with_remote_locks-counts item opts r h k = ground arith

  -- Where no counter is about to wrap, one deletion counts each of the three remedies at most once,
  -- a success of the remediation never without its attempt, and exactly one retry for each remedy
  -- that worked, so three at most. The counters of files, directories, bytes and failures stay.
  pub process_one-Accounts :
      (item : FileWorkItem) (opts : DeleteOptions) (m : Metrics) (w : E.World)
      → HasRoom m
      → Accounts m (process_one E item opts m w).metrics
  unfolding process_one
  process_one-Accounts item opts m w h =
      let r1 = delete_with_remediation E item.path item.dispatch_as_dir opts m w in
      let r2 = with_local_locks E item opts r1 in
      let (a, l, k) = delete_with_remediation-Accounts item.path item.dispatch_as_dir opts m w h in
      let local = with_local_locks-counts item opts r1 (omega arith) (omega arith) in
      ground (
        arith,
        local,
        with_remote_locks-counts item opts r2 (ground (arith, local)) (ground (arith, local)),
      )

  -- The result of a native delete call on the item, in some world.
  abbrev pub FromCall : FileWorkItem → DeleteOptions → DeleteAttempt → Type 0
  FromCall item opts a =
      (v : E.World) × ((base_delete E item.path item.dispatch_as_dir opts v).0 ≡ a)

  -- Or the report that the remote lock stayed.
  abbrev pub FromLock : FileWorkItem → DeleteAttempt → Type 0
  FromLock item a =
      (msg : Text) × ((a ≡ remote_failure E item remote_lock_unsupported msg)
        ⊎ (a ≡ remote_failure E item remote_lock_failed msg))

  abbrev pub IsHonest : FileWorkItem → DeleteOptions → DeleteAttempt → Type 0
  IsHonest item opts a = FromCall item opts a ⊎ FromLock item a

  after_remediation-IsHonest :
      (item : FileWorkItem) (opts : DeleteOptions) (r : Ran E) (p : RemediationOutcome × E.World)
      → FromCall item opts r.attempt
      → FromCall item opts (after_remediation E item.path item.dispatch_as_dir opts r p).attempt
  after_remediation-IsHonest item opts r (applied, w) c = (w, refl)
  after_remediation-IsHonest item opts r (not_applicable, w) c = c
  after_remediation-IsHonest item opts r (RemediationOutcome.failed msg, w) c = c

  remediate_failure-IsHonest :
      (item : FileWorkItem) (opts : DeleteOptions) (r : Ran E) (o : Option DeleteFailure)
      → FromCall item opts r.attempt
      → FromCall item opts (remediate_failure E item.path item.dispatch_as_dir opts r o).attempt
  remediate_failure-IsHonest item opts r none c = c
  remediate_failure-IsHonest item opts r (some f) c =
      if-elim (λ (q : Ran E). FromCall item opts q.attempt)
        (opts.allow_remediation && is_remediable f.category) _ _
        (after_remediation-IsHonest item opts (record r { metrics = count_attempt E r.metrics })
          (E.remediate item.path item.dispatch_as_dir f opts r.world) c)
        c

  after_local-IsHonest :
      (item : FileWorkItem) (opts : DeleteOptions) (r : Ran E) (p : LockResolution × E.World)
      → FromCall item opts r.attempt
      → FromCall item opts (after_local E item opts r p).attempt
  after_local-IsHonest item opts r (resolved, w) c = (w, refl)
  after_local-IsHonest item opts r (unsupported msg, w) c = c
  after_local-IsHonest item opts r (LockResolution.failed msg, w) c = c

  local_locks-IsHonest :
      (item : FileWorkItem) (opts : DeleteOptions) (r : Ran E) (o : Option DeleteFailure)
      → FromCall item opts r.attempt
      → FromCall item opts (local_locks E item opts r o).attempt
  local_locks-IsHonest item opts r none c = c
  local_locks-IsHonest item opts r (some f) c =
      if-elim (λ (q : Ran E). FromCall item opts q.attempt)
        (category_eq f.category sharing_violation && opts.kill_locks) _ _
        (after_local-IsHonest item opts r _ c) c

  after_remote-IsHonest :
      (item : FileWorkItem) (opts : DeleteOptions) (r : Ran E) (p : LockResolution × E.World)
      → IsHonest item opts (after_remote E item opts r p).attempt
  after_remote-IsHonest item opts r (resolved, w) = inl (w, refl)
  after_remote-IsHonest item opts r (unsupported msg, w) = inr (msg, inl refl)
  after_remote-IsHonest item opts r (LockResolution.failed msg, w) = inr (msg, inr refl)

  remote_locks-IsHonest :
      (item : FileWorkItem) (opts : DeleteOptions) (r : Ran E) (o : Option DeleteFailure)
      → FromCall item opts r.attempt
      → IsHonest item opts (remote_locks E item opts r o).attempt
  remote_locks-IsHonest item opts r none c = inl c
  remote_locks-IsHonest item opts r (some f) c =
      if-elim (λ (q : Ran E). IsHonest item opts q.attempt)
        (category_eq f.category sharing_violation && opts.close_remote_locks) _ _
        (after_remote-IsHonest item opts r _) (inl c)

  -- The outcome of a deletion is the outcome of a native delete call on that very path, or the
  -- failure of a remote lock.
  pub process_one-IsHonest :
      (item : FileWorkItem) (opts : DeleteOptions) (m : Metrics) (w : E.World)
      → IsHonest item opts (process_one E item opts m w).attempt
  unfolding process_one delete_with_remediation with_local_locks with_remote_locks
  process_one-IsHonest item opts m w =
      let r0 = ran E m (base_delete E item.path item.dispatch_as_dir opts w) in
      let r1 = delete_with_remediation E item.path item.dispatch_as_dir opts m w in
      let r2 = with_local_locks E item opts r1 in
      let c1 : FromCall item opts r1.attempt =
        remediate_failure-IsHonest item opts r0 (failure_of r0.attempt.outcome) (w, refl) in
      let c2 : FromCall item opts r2.attempt =
        local_locks-IsHonest item opts r1 (failure_of r1.attempt.outcome) c1 in
      remote_locks-IsHonest item opts r2 (failure_of r2.attempt.outcome) c2

  -- With no option on, a deletion is one native call and counts nothing.
  pub process_one_plain :
      (item : FileWorkItem) (opts : DeleteOptions) (m : Metrics) (w : E.World)
      → opts.allow_remediation ≡ false
      → opts.kill_locks ≡ false
      → opts.close_remote_locks ≡ false
      → process_one E item opts m w ≡ ran E m (base_delete E item.path item.dispatch_as_dir opts w)
  unfolding process_one delete_with_remediation with_local_locks with_remote_locks
  process_one_plain item opts m w a k c = ground arith
