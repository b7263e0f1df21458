-- ===== src/Pipeline/System/Stepping.antt =====
-- The workers' rounds keep the invariant too, and so does every sequence of rounds.
use cursedelete.Base.{
  ℕ, ◌+◌, ◌≡◌, subst, Bool, true, false, ◌&&◌, ◌||◌, Option, none, some, List, ◌++◌, arith, if-elim,
  if-split, is_none, length,
}
use cursedelete.Entry.{DirId}
use cursedelete.Options.{DeleteOptions}
use cursedelete.Engine.{PlatformEngine, DeleteOutcome, deleted, already_gone}
use cursedelete.Filter.{Globs}
use cursedelete.Tracker.{DirectoryTracker, ReadyDirectory, forget}
use cursedelete.Failure.{category_eq, not_empty}
use cursedelete.Pipeline.Delete.{FileWorkItem, process_one, delete_with_remediation}
use cursedelete.Pipeline.Files.{Run, settle, file_worker_step}
use cursedelete.Pipeline.Dirs.{
  DirMode, dir_worker_step, settle_dir, simulate_dir, remove_dir, report_up, resolve_dir,
}
use cursedelete.Pipeline.System.{
  System, taken, received, Step, coordinates, deletes, removes, Reach, start, next,
}
use cursedelete.Pipeline.System.Invariant.{Inv, complete_child-Inv}
use cursedelete.Pipeline.System.Moves.{taken-Inv}
use cursedelete.Pipeline.System.Removal.{ending, forgotten-Inv}
use cursedelete.Pipeline.System.Keeping.{Good, Holds, handle_event-Holds}

module _ {W : Type 0} where
  settle-Good :
      (opens : List DirId) (bound : DirId) (left : ℕ) (item : FileWorkItem) (o : DeleteOutcome)
      (r : Run W)
      → Inv opens bound left (some item.parent_dir_id) r.tracker r.file_queue r.root_done
      → Good opens bound left (settle item o r)
  settle-Good opens bound left item deleted r v =
      complete_child-Inv opens bound left r.file_queue r.root_done item.parent_dir_id false
        r.tracker v
  settle-Good opens bound left item already_gone r v =
      complete_child-Inv opens bound left r.file_queue r.root_done item.parent_dir_id false
        r.tracker v
  settle-Good opens bound left item (DeleteOutcome.failed f) r v =
      complete_child-Inv opens bound left r.file_queue r.root_done item.parent_dir_id true r.tracker
        v

  report_up-Good :
      (opens : List DirId) (bound : DirId) (left : ℕ) (o : Option DirId) (b : Bool) (r : Run W)
      → Inv opens bound left o r.tracker r.file_queue (r.root_done + ending o)
      → Good opens bound left (report_up o b r)
  report_up-Good opens bound left none b r v = v
  report_up-Good opens bound left (some p) b r v =
      complete_child-Inv opens bound left r.file_queue r.root_done p b r.tracker
        (subst (Inv opens bound left (some p) r.tracker r.file_queue) (omega arith) v)

  resolve_dir-Good :
      (opens : List DirId) (bound : DirId) (left : ℕ) (d : ReadyDirectory) (p : Run W × Bool)
      → Inv opens bound left d.parent
          (forget d.dir_id p.0.tracker)
          p.0.file_queue
          (p.0.root_done + ending d.parent)
      → Good opens bound left (resolve_dir d p)
  resolve_dir-Good opens bound left d (r, b) v =
      report_up-Good opens bound left d.parent b (record r { tracker = forget d.dir_id r.tracker })
        v

  -- A directory was forgotten, and its parent is still to be told.
  abbrev pub Untold : List DirId → DirId → ℕ → ReadyDirectory → Run W → Type 0
  Untold opens bound left d r =
      Inv opens bound left d.parent (forget d.dir_id r.tracker) r.file_queue
        (r.root_done + ending d.parent)

  settle_dir-Untold :
      (opens : List DirId) (bound : DirId) (left : ℕ) (d : ReadyDirectory) (μ : DirMode)
      (o : DeleteOutcome) (r : Run W)
      → Untold opens bound left d r
      → Untold opens bound left d (settle_dir μ o r).0
  settle_dir-Untold opens bound left d μ deleted r v = v
  settle_dir-Untold opens bound left d μ already_gone r v = v
  settle_dir-Untold opens bound left d μ (DeleteOutcome.failed f) r v =
      if-elim (λ (p : Run W × Bool). Untold opens bound left d p.0)
        (category_eq f.category not_empty && (μ.preserve_root || μ.cancelled)) _ _ v v

preserved-Inv :
    (opens : List DirId) (bound : DirId) (left : ℕ) (o : Option DirId) (b : Bool)
    (t : DirectoryTracker) (q : List FileWorkItem) (n : ℕ)
    → (is_none o && b) ≡ true
    → Inv opens bound left o t q (n + ending o)
    → Inv opens bound left none t q (n + 1)
preserved-Inv opens bound left none b t q n y v = v
preserved-Inv opens bound left (some p) b t q n y v = absurd (ground arith)

module _ (E : PlatformEngine) where
  dir_worker_step-Good :
      (opens : List DirId) (bound : DirId) (left : ℕ) (μ : DirMode) (d : ReadyDirectory)
      (r : Run E.World)
      → Untold opens bound left d r
      → Good opens bound left (dir_worker_step E μ d r)
  unfolding dir_worker_step
  dir_worker_step-Good opens bound left μ d r v =
      let P : Run E.World × Bool → Type 0 = λ p. Untold opens bound left d p.0 in
      let p = delete_with_remediation E d.path true μ.opts r.metrics r.world in
      if-split (Good opens bound left) (is_none d.parent && μ.preserve_root) _ _
        (λ y.
          preserved-Inv opens bound left d.parent μ.preserve_root (forget d.dir_id r.tracker)
            r.file_queue r.root_done y v)
        (λ y. resolve_dir-Good opens bound left d _ (
          if-elim P μ.dry_run (simulate_dir d r) (remove_dir E μ d r)
            (if-elim P d.simulated_non_empty _ _ v v)
            (settle_dir-Untold opens bound left d μ p.attempt.outcome
              (record r { metrics = p.metrics; world = p.world }) v)))

module _ (G : Globs) (E : PlatformEngine) (opts : DeleteOptions) where
  -- Every round of every thread keeps the invariant.
  Step-Holds : (S T : System E.World) → Step G E opts S T → Holds S → Holds T
  unfolding file_worker_step forget
  Step-Holds S _ (coordinates μ e es r h k) v =
      handle_event-Holds μ e es S.run r k
        (subst (λ x. Holds (record { events = x; run = S.run })) h v)
  Step-Holds S _ (deletes item before after h) (opens, bound, v, rest) =
      let p = process_one E item opts S.run.metrics S.run.world in
      (
        opens,
        bound,
        settle-Good opens bound (length S.events) item p.attempt.outcome
            (record (taken (before ++ after) S.run) { metrics = p.metrics; world = p.world })
            (taken-Inv opens bound (length S.events) before after S.run.root_done item S.run.tracker
              (subst (λ q. Inv opens bound (length S.events) none S.run.tracker q S.run.root_done) h
                v)),
        rest,
      )
  Step-Holds S _ (removes μ d before after h) (opens, bound, v, rest) = (
    opens,
    bound,
    dir_worker_step-Good E opens bound (length S.events) μ d (received (before ++ after) S.run) (
        forgotten-Inv opens bound (length S.events) S.run.file_queue S.run.root_done d before after
          S.run.tracker h v),
    rest,
  )

  pub Reach-Holds : (S T : System E.World) → Reach G E opts S T → Holds S → Holds T
  Reach-Holds S _ start v = v
  Reach-Holds S U (next {T = T} h st) v = Step-Holds T U st (Reach-Holds S T h v)
