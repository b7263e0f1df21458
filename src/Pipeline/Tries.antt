-- ===== src/Pipeline/Tries.antt =====
-- The calls of the engine that one deletion makes, in order.
use cursedelete.Base.{◌≡◌, refl, true, ◌&&◌, Option, none, some, arith, if-split}
use cursedelete.Failure.{sharing_violation, category_eq, DeleteFailure}
use cursedelete.Options.{DeleteOptions}
use cursedelete.Metrics.{Metrics}
use cursedelete.Engine.{
  PlatformEngine, RemediationOutcome, applied, not_applicable, LockResolution, resolved,
  unsupported,
}
use cursedelete.Pipeline.Delete.{
  FileWorkItem, is_remediable, failure_of, Ran, base_delete, ran, count_attempt, count_success,
  count_local, count_remote, after_remediation, remediate_failure, after_local, local_locks,
  after_remote, remote_locks, delete_with_remediation, with_local_locks, with_remote_locks,
  process_one,
}

module _ (E : PlatformEngine) (item : FileWorkItem) (opts : DeleteOptions) where
  -- Failed delete calls on the item, and the remedies that the options allow.
  pub data Tries (w : E.World) : E.World → Type 0 where
    begins : Tries w w
    fails :
        {v : E.World} (f : DeleteFailure)
        → Tries w v
        → failure_of (base_delete E item.path item.dispatch_as_dir opts v).0.outcome ≡ some f
        → Tries w (base_delete E item.path item.dispatch_as_dir opts v).1
    remedies :
        {v : E.World} (f : DeleteFailure)
        → Tries w v
        → opts.allow_remediation ≡ true
        → Tries w (E.remediate item.path item.dispatch_as_dir f opts v).1
    unlocks :
        {v : E.World}
        → Tries w v
        → opts.kill_locks ≡ true
        → Tries w (E.resolve_local_lock item.path opts v).1
    closes :
        {v : E.World}
        → Tries w v
        → opts.close_remote_locks ≡ true
        → Tries w (E.resolve_remote_lock item.path opts v).1

  -- A failure comes after such calls, and a success is that of a delete call after such calls, which
  -- is the last.
  abbrev IsSequence : E.World → Ran E → Type 0
  IsSequence w r =
      ((f : DeleteFailure) → failure_of r.attempt.outcome ≡ some f → Tries w r.world)
      × (failure_of r.attempt.outcome ≡ none
          → (v : E.World) × Tries w v
            × (base_delete E item.path item.dispatch_as_dir opts v ≡ (r.attempt, r.world)))

  base_delete-IsSequence :
      (m : Metrics) (w v : E.World)
      → Tries w v
      → IsSequence w (ran E m (base_delete E item.path item.dispatch_as_dir opts v))
  base_delete-IsSequence m w v t = (λ f e. fails f t e, λ e. (v, t, refl))

  -- An attempt that failed stays, with the world after a further call.
  failed-IsSequence :
      (w : E.World) (r : Ran E) (f : DeleteFailure)
      → failure_of r.attempt.outcome ≡ some f
      → Tries w r.world
      → IsSequence w r
  failed-IsSequence w r f e t = (λ g d. t, λ d. absurd (ground (arith, d, e)))

  after_remediation-IsSequence :
      (w : E.World) (r : Ran E) (f : DeleteFailure) (p : RemediationOutcome × E.World)
      → failure_of r.attempt.outcome ≡ some f
      → Tries w p.1
      → IsSequence w (after_remediation E item.path item.dispatch_as_dir opts r p)
  after_remediation-IsSequence w r f (applied, v) e t =
      base_delete-IsSequence (count_success E r.metrics) w v t
  after_remediation-IsSequence w r f (not_applicable, v) e t =
      failed-IsSequence w (record r { world = v }) f e t
  after_remediation-IsSequence w r f (RemediationOutcome.failed msg, v) e t =
      failed-IsSequence w (record r { world = v }) f e t

  after_local-IsSequence :
      (w : E.World) (r : Ran E) (f : DeleteFailure) (p : LockResolution × E.World)
      → failure_of r.attempt.outcome ≡ some f
      → Tries w p.1
      → IsSequence w (after_local E item opts r p)
  after_local-IsSequence w r f (resolved, v) e t =
      base_delete-IsSequence (count_local E r.metrics) w v t
  after_local-IsSequence w r f (unsupported msg, v) e t =
      failed-IsSequence w (record r { world = v }) f e t
  after_local-IsSequence w r f (LockResolution.failed msg, v) e t =
      failed-IsSequence w (record r { world = v }) f e t

  after_remote-IsSequence :
      (w : E.World) (r : Ran E) (p : LockResolution × E.World)
      → Tries w p.1
      → IsSequence w (after_remote E item opts r p)
  after_remote-IsSequence w r (resolved, v) t =
      base_delete-IsSequence (count_remote E r.metrics) w v t
  after_remote-IsSequence w r (unsupported msg, v) t =
      failed-IsSequence w (after_remote E item opts r (unsupported msg, v)) _ refl t
  after_remote-IsSequence w r (LockResolution.failed msg, v) t =
      failed-IsSequence w (after_remote E item opts r (LockResolution.failed msg, v)) _ refl t

  -- A remedy is tried on a failure only, and only as the options allow.
  remediate_failure-IsSequence :
      (w : E.World) (r : Ran E) (o : Option DeleteFailure)
      → failure_of r.attempt.outcome ≡ o
      → IsSequence w r
      → IsSequence w (remediate_failure E item.path item.dispatch_as_dir opts r o)
  remediate_failure-IsSequence w r none e s = s
  remediate_failure-IsSequence w r (some f) e s =
      if-split (λ (q : Ran E). IsSequence w q) (opts.allow_remediation && is_remediable f.category)
        _ _
        (λ y.
          after_remediation-IsSequence w (record r { metrics = count_attempt E r.metrics }) f _ e
            (remedies f (s.0 f e) (ground (arith, y))))
        (λ n. s)

  local_locks-IsSequence :
      (w : E.World) (r : Ran E) (o : Option DeleteFailure)
      → failure_of r.attempt.outcome ≡ o
      → IsSequence w r
      → IsSequence w (local_locks E item opts r o)
  local_locks-IsSequence w r none e s = s
  local_locks-IsSequence w r (some f) e s =
      if-split (λ (q : Ran E). IsSequence w q)
        (category_eq f.category sharing_violation && opts.kill_locks) _ _
        (λ y. after_local-IsSequence w r f _ e (unlocks (s.0 f e) (ground (arith, y)))) (λ n. s)

  remote_locks-IsSequence :
      (w : E.World) (r : Ran E) (o : Option DeleteFailure)
      → failure_of r.attempt.outcome ≡ o
      → IsSequence w r
      → IsSequence w (remote_locks E item opts r o)
  remote_locks-IsSequence w r none e s = s
  remote_locks-IsSequence w r (some f) e s =
      if-split (λ (q : Ran E). IsSequence w q)
        (category_eq f.category sharing_violation && opts.close_remote_locks) _ _
        (λ y. after_remote-IsSequence w r _ (closes (s.0 f e) (ground (arith, y)))) (λ n. s)

  -- A deletion is a sequence of calls: failed delete calls on the item and remedies that the options
  -- allow, and at the end, if it succeeds, the delete call whose outcome it has.
  pub process_one-IsSequence :
      (m : Metrics) (w : E.World) → IsSequence w (process_one E item opts m w)
  unfolding process_one delete_with_remediation with_local_locks with_remote_locks
  process_one-IsSequence m w =
      let r1 = delete_with_remediation E item.path item.dispatch_as_dir opts m w in
      let r2 = with_local_locks E item opts r1 in
      remote_locks-IsSequence w r2 _ refl (
        local_locks-IsSequence w r1 _ refl
          (remediate_failure-IsSequence w _ _ refl (base_delete-IsSequence m w w begins)))
