-- ===== src/Pipeline/System/Rounds.antt =====
-- Every interleaving of the rounds comes to an end.
use cursedelete.Base.{
  ℕ, suc, ◌+◌, ◌*◌, ◌≤◌, ◌<◌, ◌≡◌, refl, ap, Bool, true, false, ◌&&◌, Option, none, some, List, [],
  ◌∷◌, ◌++◌, arith, if◌then◌else◌, if-elim, is_none, length, length-append, Result, ok,
}
use cursedelete.Entry.{DirId, DiscoveredEntry, is_dir}
use cursedelete.Options.{DeleteOptions}
use cursedelete.Engine.{
  PlatformEngine, EnumEvent, entry, directory_complete, error, DeleteOutcome, deleted, already_gone,
}
use cursedelete.Filter.{Globs}
use cursedelete.Tracker.{ReadyDirectory, forget, register_leaf_child}
use cursedelete.Tracker.Load.{
  load, load-mark_enumeration_done, load-complete_child, load-register_leaf_child,
  load-register_directory, load-forget,
}
use cursedelete.Pipeline.Delete.{FileWorkItem, delete_with_remediation, process_one}
use cursedelete.Pipeline.Files
use cursedelete.Pipeline.Files.{
  Violation, Run, Mode, handle_entry, handle_leaf, handle_directory, handle_event, settle,
  file_worker_step, count_leaf, retain_leaf, dispatch_leaf, decide_leaf,
}
use cursedelete.Pipeline.Dirs.{
  DirMode, dir_worker_step, settle_dir, simulate_dir, remove_dir, report_up, resolve_dir,
}
use cursedelete.Pipeline.System.{
  System, taken, received, Step, coordinates, deletes, removes, Reach, start, next, rounds,
}

length-middle :
    {A : Type 0} (before after : List A) (x : A)
    → length (before ++ (x ∷ after)) ≡ suc (length (before ++ after))
length-middle before after x =
    omega (arith, length-append before (x ∷ after), length-append before after)

module _ {W : Type 0} where
  -- The work at hand: files in the queue, and directories to hand over or remove.
  abbrev pub work : Run W → ℕ
  work r = length r.file_queue + load r.tracker

  -- An event stands for two rounds at most: its own, and that of what it leads to.
  abbrev pub measure : System W → ℕ
  measure S = 2 * length S.events + work S.run

  abbrev AddsOne : Run W → Run W → Type 0
  AddsOne r s = work s ≤ suc (work r)

  handle_leaf-work :
      {G : Globs} (μ : Mode G) (e : DiscoveredEntry) (p : Option DirId) (r s : Run W)
      → handle_leaf μ e p r ≡ ok s
      → AddsOne r s
  handle_leaf-work μ e none r s h = cc
  handle_leaf-work μ e (some p) r s h = ground (
    arith,
    load-register_leaf_child p r.tracker,
    load-complete_child p true (register_leaf_child p r.tracker),
    load-complete_child p false (register_leaf_child p r.tracker),
    length-append r.file_queue (Files.item_of e p ∷ []),
  )

  handle_directory-work :
      (e : DiscoveredEntry) (d : Option DirId) (r s : Run W)
      → handle_directory e d r ≡ ok s
      → AddsOne r s
  handle_directory-work e none r s h = cc
  handle_directory-work e (some d) r s h =
      ground (arith, load-register_directory d e.parent_dir_id e.path r.tracker)

  handle_event-work :
      {G : Globs} (μ : Mode G) (e : EnumEvent) (r s : Run W)
      → handle_event μ e r ≡ ok s
      → AddsOne r s
  unfolding handle_event handle_entry
  handle_event-work μ (entry e) r s h =
      if-elim (λ (x : Result (Run W) Violation). x ≡ ok s → AddsOne r s) (is_dir e) _ _
        (handle_directory-work e e.dir_id r s) (handle_leaf-work μ e e.parent_dir_id r s) h
  handle_event-work μ (directory_complete d) r s h =
      ground (arith, load-mark_enumeration_done d r.tracker)
  handle_event-work μ (error path message) r s h = ground arith

  settle-work :
      (item : FileWorkItem) (o : DeleteOutcome) (r : Run W) → work (settle item o r) ≡ work r
  settle-work item deleted r = omega (arith, load-complete_child item.parent_dir_id false r.tracker)
  settle-work item already_gone r =
      omega (arith, load-complete_child item.parent_dir_id false r.tracker)
  settle-work item (DeleteOutcome.failed f) r =
      omega (arith, load-complete_child item.parent_dir_id true r.tracker)

  report_up-work : (p : Option DirId) (b : Bool) (r : Run W) → work (report_up p b r) ≡ work r
  report_up-work none b r = refl
  report_up-work (some p) b r = omega (arith, load-complete_child p b r.tracker)

  simulate_dir-work : (d : ReadyDirectory) (r : Run W) → work (simulate_dir d r).0 ≡ work r
  simulate_dir-work d r = ground arith

  settle_dir-work :
      (μ : DirMode) (o : DeleteOutcome) (r : Run W) → work (settle_dir μ o r).0 ≡ work r
  settle_dir-work μ deleted r = refl
  settle_dir-work μ already_gone r = refl
  settle_dir-work μ (DeleteOutcome.failed f) r = ground arith

  resolve_dir-work : (d : ReadyDirectory) (q : Run W × Bool) → work (resolve_dir d q) ≤ work q.0
  resolve_dir-work d (r, b) = omega (
    arith,
    report_up-work d.parent b (record r { tracker = forget d.dir_id r.tracker }),
    load-forget d.dir_id r.tracker,
  )

module _ (E : PlatformEngine) where
  file_worker_step-work :
      (opts : DeleteOptions) (item : FileWorkItem) (r : Run E.World)
      → work (file_worker_step E opts item r) ≡ work r
  unfolding file_worker_step
  file_worker_step-work opts item r =
      let p = process_one E item opts r.metrics r.world in
      settle-work item p.attempt.outcome (record r { metrics = p.metrics; world = p.world })

  remove_dir-work :
      (μ : DirMode) (d : ReadyDirectory) (r : Run E.World) → work (remove_dir E μ d r).0 ≡ work r
  remove_dir-work μ d r =
      let p = delete_with_remediation E d.path true μ.opts r.metrics r.world in
      settle_dir-work μ p.attempt.outcome (record r { metrics = p.metrics; world = p.world })

  dir_worker_step-work :
      (μ : DirMode) (d : ReadyDirectory) (r : Run E.World) → work (dir_worker_step E μ d r) ≤ work r
  unfolding dir_worker_step
  dir_worker_step-work μ d r =
      if-elim (λ (s : Run E.World). work s ≤ work r) (is_none d.parent && μ.preserve_root) _ _
        (omega (arith, load-forget d.dir_id r.tracker))
        (ground (
          arith,
          resolve_dir-work d (if μ.dry_run then simulate_dir d r else remove_dir E μ d r),
          simulate_dir-work d r,
          remove_dir-work μ d r,
        ))

module _ (G : Globs) (E : PlatformEngine) (opts : DeleteOptions) where
  -- Every round of every thread, whatever it finds, leaves less to do.
  pub Step-measure : (S T : System E.World) → Step G E opts S T → measure T < measure S
  Step-measure S _ (coordinates μ e es r h k) =
      omega (arith, ap length h, handle_event-work μ e S.run r k)
  Step-measure S _ (deletes item before after h) =
      let r = taken (before ++ after) S.run in
      omega
        (arith, ap length h, length-middle before after item, file_worker_step-work E opts item r)
  Step-measure S _ (removes μ d before after h) =
      let r = received (before ++ after) S.run in
      omega (arith, ap length h, length-middle before after d, dir_worker_step-work E μ d r)

  -- However the threads take turns, the rounds of a run are at most two for each event that is to
  -- come, one for each file in the queue, and one for each directory that is registered or waits
  -- in the channel and was not received.
  pub rounds-le-measure :
      (S T : System E.World) (h : Reach G E opts S T) → rounds G E opts h + measure T ≤ measure S
  rounds-le-measure S _ start = omega arith
  rounds-le-measure S U (next {T = T} h st) =
      omega (arith, rounds-le-measure S T h, Step-measure T U st)
