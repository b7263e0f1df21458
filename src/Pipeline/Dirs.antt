-- ===== src/Pipeline/Dirs.antt =====
-- The directory workers of pipeline.rs.
use cursedelete.Base.{
  ◌+◌, Bool, true, false, ◌&&◌, ◌||◌, Option, none, some, if◌then◌else◌, is_none, add64,
}
use cursedelete.Entry.{DirId}
use cursedelete.Failure.{not_empty, category_eq}
use cursedelete.Options.{DeleteOptions}
use cursedelete.Metrics.{Metrics}
use cursedelete.Engine.{PlatformEngine, DeleteOutcome, deleted, already_gone}
use cursedelete.Tracker.{ReadyDirectory, complete_child, forget}
use cursedelete.Pipeline.Delete.{delete_with_remediation}
use cursedelete.Pipeline.Log.{push}
use cursedelete.Pipeline.Files.{Run, count_failure}

-- What a directory worker is told.
pub record DirMode : Type 0 where
  pub opts : DeleteOptions
  pub dry_run : Bool
  pub preserve_root : Bool
  pub cancelled : Bool

abbrev pub count_dir_retained : Metrics → Metrics
count_dir_retained m = record m { dirs_retained = add64 m.dirs_retained 1 }

abbrev pub count_dir_deleted : Metrics → Metrics
count_dir_deleted m = record m { dirs_deleted = add64 m.dirs_deleted 1 }

module _ {W : Type 0} where
  -- The outcome of a real removal, and whether the directory is still there.
  abbrev pub settle_dir : DirMode → DeleteOutcome → Run W → Run W × Bool
  settle_dir μ deleted r = (record r { metrics = count_dir_deleted r.metrics }, false)
  settle_dir μ already_gone r = (record r { metrics = count_dir_deleted r.metrics }, false)
  settle_dir μ (DeleteOutcome.failed f) r =
      if category_eq f.category not_empty && (μ.preserve_root || μ.cancelled)
      then (record r { metrics = count_dir_retained r.metrics }, true)
      else (record r { metrics = count_failure r.metrics; log = push f r.log }, true)

  -- A dry run only counts, by the simulated content.
  abbrev pub simulate_dir : ReadyDirectory → Run W → Run W × Bool
  simulate_dir d r =
      if d.simulated_non_empty
      then (record r { metrics = count_dir_retained r.metrics }, true)
      else (record r { metrics = count_dir_deleted r.metrics }, false)

  -- The parent learns of it, or the operation ends.
  abbrev pub report_up : Option DirId → Bool → Run W → Run W
  report_up none still_present r = record r { root_done = r.root_done + 1 }
  report_up (some p) still_present r = record r {
    tracker = complete_child p still_present r.tracker;
  }

  abbrev pub resolve_dir : ReadyDirectory → Run W × Bool → Run W
  resolve_dir d (r, still_present) =
      report_up d.parent still_present (record r { tracker = forget d.dir_id r.tracker })

module _ (E : PlatformEngine) where
  abbrev pub remove_dir : DirMode → ReadyDirectory → Run E.World → Run E.World × Bool
  remove_dir μ d r =
      let p = delete_with_remediation E d.path true μ.opts r.metrics r.world in
      settle_dir μ p.attempt.outcome (record r { metrics = p.metrics; world = p.world })

  -- One round of `dir_worker_loop`, on a directory that was received.
  unfoldable pub dir_worker_step : DirMode → ReadyDirectory → Run E.World → Run E.World
  dir_worker_step μ d r =
      if is_none d.parent && μ.preserve_root
      then record r { tracker = forget d.dir_id r.tracker; root_done = r.root_done + 1 }
      else resolve_dir d (if μ.dry_run then simulate_dir d r else remove_dir μ d r)
