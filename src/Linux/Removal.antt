-- ===== src/Linux/Removal.antt =====
-- A deletion with its retries on Linux: `process_one` of crates/cursdel-core/src/pipeline.rs over
-- the engine of crates/cursdel-linux.
use cursedelete.Base.{◌≡◌, refl, sym, ap, ◌∙◌, subst, Bool, true, false, FilePath}
use cursedelete.Options.{DeleteOptions}
use cursedelete.Metrics.{Metrics}
use cursedelete.Engine.{deleted}
use cursedelete.Pipeline.Delete.{FileWorkItem, failure_of, base_delete, process_one}
use cursedelete.Pipeline.Tries.{Tries, process_one-IsSequence}
use cursedelete.Linux.{linux_engine}
use cursedelete.Linux.Kernel.{Kernel}
use cursedelete.Linux.Ops.{unlink_leaf, delete_file, delete_dir}
use cursedelete.Linux.Deletion.{Removes, unlink_leaf_iff}

module _ (K : Kernel) where
  base_delete-linux_engine :
      (path : FilePath) (as_dir : Bool) (opts : DeleteOptions) (w : K.World)
      → base_delete (linux_engine K) path as_dir opts w ≡ unlink_leaf K path as_dir w
  unfolding base_delete delete_file delete_dir
  base_delete-linux_engine path true opts w = refl
  base_delete-linux_engine path false opts w = refl

  -- When a deletion, remedies and retries included, reports the object as deleted on Linux, then its
  -- last call made the kernel remove the name of that very path, and the calls before it were failed
  -- delete calls on the path and remedies that the options allow.
  pub process_one-Removes :
      (item : FileWorkItem) (opts : DeleteOptions) (m : Metrics) (w : K.World)
      → (process_one (linux_engine K) item opts m w).attempt.outcome ≡ deleted
      → (v : K.World) × Tries (linux_engine K) item opts w v
        × Removes K item.path item.dispatch_as_dir v
            (process_one (linux_engine K) item opts m w).world
  process_one-Removes item opts m w h =
      let r = process_one (linux_engine K) item opts m w in
      let (v, t, e) =
        (process_one-IsSequence (linux_engine K) item opts m w).1 (ap (λ o. failure_of o) h) in
      let call : unlink_leaf K item.path item.dispatch_as_dir v ≡ (r.attempt, r.world) =
        sym (base_delete-linux_engine item.path item.dispatch_as_dir opts v) ∙ e in
      (
        v,
        t,
        subst (λ u. Removes K item.path item.dispatch_as_dir v u) (ap (λ o. o.1) call)
            ((unlink_leaf_iff K item.path item.dispatch_as_dir v).0
              (ap (λ o. o.0.outcome) call ∙ h)),
      )
