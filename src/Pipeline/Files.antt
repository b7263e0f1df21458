-- ===== src/Pipeline/Files.antt =====
-- The coordinator and the file workers of pipeline.rs. A run's shared state is one record; the
-- ready channel is part of the tracker, and the file channel a list, oldest first.
use cursedelete.Base.{
  ℕ, Bool, true, false, Option, none, some, List, [], ◌∷◌, ◌++◌, if◌then◌else◌, Text, FilePath,
  add64, Result, ok, err, ◌>>=◌,
}
use cursedelete.Entry.{DirId, DiscoveredEntry, EntryKind, symlink, is_dir}
use cursedelete.Failure.{DeleteFailure, io}
use cursedelete.Options.{DeleteOptions}
use cursedelete.Metrics.{Metrics, WindowSampler, record_success, record_error}
use cursedelete.Engine.{
  PlatformEngine, DeleteOutcome, deleted, already_gone, EnumEvent, entry, directory_complete, error,
}
use cursedelete.Filter.{Globs, FilterSet, FilterDecision, delete, retain, evaluate_file}
use cursedelete.Tracker.{
  DirectoryTracker, register_directory, register_leaf_child, mark_enumeration_done, complete_child,
}
use cursedelete.Pipeline.Delete.{FileWorkItem, process_one}
use cursedelete.Pipeline.Log.{FailureLog, push}

-- A failed `expect` of the source.
pub data Violation : Type 0 where
  directory_without_id leaf_without_parent : Violation

pub record Run (W : Type 0) : Type 0 where
  pub tracker : DirectoryTracker
  pub metrics : Metrics
  pub sampler : WindowSampler
  pub log : FailureLog
  pub world : W
  pub file_queue : List FileWorkItem
  pub root_done : ℕ  -- messages in the channel that ends the operation

abbrev pub count_retained : Metrics → Metrics
count_retained m = record m { files_retained = add64 m.files_retained 1 }

abbrev pub count_deleted : ℕ → Metrics → Metrics
count_deleted size m = record m {
  files_deleted = add64 m.files_deleted 1;
  bytes_deleted = add64 m.bytes_deleted size;
}

abbrev pub count_failure : Metrics → Metrics
count_failure m = record m { failures = add64 m.failures 1 }

abbrev pub is_dir_link : EntryKind → Bool
is_dir_link (symlink reparse_is_dir) = reparse_is_dir
is_dir_link _ = false

-- What a run is told: `connected` says whether the file channel still has a receiver.
pub record Mode (G : Globs) : Type 0 where
  pub filters : FilterSet G
  pub dry_run : Bool
  pub cancelled : Bool
  pub connected : Bool

abbrev pub item_of : DiscoveredEntry → DirId → FileWorkItem
item_of e parent = record {
  path = e.path;
  parent_dir_id = parent;
  size = e.size;
  dispatch_as_dir = is_dir_link e.kind;
}

abbrev pub listing_failure : FilePath → Text → DeleteFailure
listing_failure path message = record {
  path = path;
  is_directory = true;
  category = io;
  message = message;
  os_error_code = none;
}

module _ {W : Type 0} where
  abbrev pub retain_leaf : DirId → Run W → Run W
  retain_leaf parent r = record r {
    metrics = count_retained r.metrics;
    tracker = complete_child parent true r.tracker;
  }

  -- A leaf that passed the filters.
  abbrev pub dispatch_leaf : Bool → Bool → DiscoveredEntry → DirId → Run W → Run W
  dispatch_leaf true connected e parent r = record r {
    metrics = count_deleted e.size r.metrics;
    tracker = complete_child parent false r.tracker;
  }
  dispatch_leaf false true e parent r = record r {
    file_queue = r.file_queue ++ (item_of e parent ∷ []);
  }
  dispatch_leaf false false e parent r = record r { tracker = complete_child parent true r.tracker }

  abbrev pub count_leaf : DirId → Run W → Run W
  count_leaf parent r = record r {
    tracker = register_leaf_child parent r.tracker;
    metrics = record r.metrics { files_scanned = add64 r.metrics.files_scanned 1 };
  }

  abbrev pub decide_leaf :
      {G : Globs} → Mode G → DiscoveredEntry → DirId → FilterDecision → Run W → Run W
  decide_leaf μ e parent (retain reason) r = retain_leaf parent r
  decide_leaf μ e parent delete r = dispatch_leaf μ.dry_run μ.connected e parent r

  abbrev pub handle_leaf :
      {G : Globs} → Mode G → DiscoveredEntry → Option DirId → Run W → Result (Run W) Violation
  handle_leaf μ e none r = err leaf_without_parent
  handle_leaf {G} μ e (some parent) r =
      let counted = count_leaf parent r in
      ok (
        if μ.cancelled
        then retain_leaf parent counted
        else decide_leaf μ e parent (evaluate_file G μ.filters e) counted)

  abbrev pub handle_directory : DiscoveredEntry → Option DirId → Run W → Result (Run W) Violation
  handle_directory e none r = err directory_without_id
  handle_directory e (some d) r = ok (record r {
    metrics = record r.metrics { dirs_scanned = add64 r.metrics.dirs_scanned 1 };
    tracker = register_directory d e.parent_dir_id e.path r.tracker;
  })

  unfoldable pub handle_entry :
      {G : Globs} → Mode G → DiscoveredEntry → Run W → Result (Run W) Violation
  handle_entry μ e r =
      if is_dir e then handle_directory e e.dir_id r else handle_leaf μ e e.parent_dir_id r

  -- One round of `coordinator_loop`.
  unfoldable pub handle_event : {G : Globs} → Mode G → EnumEvent → Run W → Result (Run W) Violation
  unfolding handle_entry
  handle_event μ (entry e) r = handle_entry μ e r
  handle_event μ (directory_complete d) r =
      ok (record r { tracker = mark_enumeration_done d r.tracker })
  handle_event μ (error path message) r = ok (record r {
    metrics = count_failure r.metrics;
    log = push (listing_failure path message) r.log;
  })

  unfoldable pub coordinator_loop :
      {G : Globs} → Mode G → List EnumEvent → Run W → Result (Run W) Violation
  unfolding handle_event
  coordinator_loop μ [] r = ok r
  coordinator_loop μ (e ∷ es) r = handle_event μ e r >>= λ s. coordinator_loop μ es s

  -- What a file worker does with the outcome of an item.
  abbrev pub settle : FileWorkItem → DeleteOutcome → Run W → Run W
  settle item deleted r = record r {
    metrics = count_deleted item.size r.metrics;
    sampler = record_success r.sampler;
    tracker = complete_child item.parent_dir_id false r.tracker;
  }
  settle item already_gone r = record r {
    metrics = count_deleted item.size r.metrics;
    sampler = record_success r.sampler;
    tracker = complete_child item.parent_dir_id false r.tracker;
  }
  settle item (DeleteOutcome.failed f) r = record r {
    metrics = count_failure r.metrics;
    sampler = record_error r.sampler;
    log = push f r.log;
    tracker = complete_child item.parent_dir_id true r.tracker;
  }

-- One round of `file_worker_loop`, on an item that was received.
unfoldable pub file_worker_step :
    (E : PlatformEngine) → DeleteOptions → FileWorkItem → Run E.World → Run E.World
file_worker_step E opts item r =
    let p = process_one E item opts r.metrics r.world in
    settle item p.attempt.outcome (record r { metrics = p.metrics; world = p.world })
