-- ===== src/Pipeline/Single.antt =====
-- An operation on one object that is no directory: `run_single_object` of pipeline.rs.
use cursedelete.Base.{
  ℕ, Bool, true, false, none, if◌then◌else◌, Text, FilePath, add64, Result, ok, err,
}
use cursedelete.Entry.{DiscoveredEntry, EntryTimes, file}
use cursedelete.Failure.{DeleteFailure}
use cursedelete.Failure
use cursedelete.Options.{DeleteOptions}
use cursedelete.Metrics.{Metrics}
use cursedelete.Engine.{PlatformEngine, DeleteOutcome, deleted, already_gone}
use cursedelete.Filter.{Globs, FilterSet, FilterDecision, delete, retain, evaluate_file}
use cursedelete.Pipeline.Delete.{FileWorkItem, process_one}
use cursedelete.Pipeline.Log.{FailureLog, push}
use cursedelete.Pipeline.Files.{count_retained, count_deleted, count_failure}

-- `std::fs::Metadata`, as far as the function reads it.
pub record FileMetadata : Type 0 where
  pub is_dir : Bool
  pub len : ℕ
  pub times : EntryTimes
  pub readonly : Bool

abbrev pub missing_failure : FilePath → Text → DeleteFailure
missing_failure path message = record {
  path = path;
  is_directory = false;
  category = Failure.FailureCategory.not_found;
  message = message;
  os_error_code = none;
}

abbrev pub size_of : FileMetadata → ℕ
size_of meta = if meta.is_dir then 0 else meta.len

abbrev pub single_entry : FilePath → FileMetadata → DiscoveredEntry
single_entry path meta = record {
  path = path;
  dir_id = none;
  parent_dir_id = none;
  kind = file;
  size = size_of meta;
  times = meta.times;
  readonly = meta.readonly;
}

abbrev pub single_item : FilePath → FileMetadata → FileWorkItem
single_item path meta = record {
  path = path;
  parent_dir_id = 0;
  size = size_of meta;
  dispatch_as_dir = meta.is_dir;
}

module _ (G : Globs) (E : PlatformEngine) where
  -- The counters, the log and the world of the operation.
  pub record Single : Type 0 where
    pub metrics : Metrics
    pub log : FailureLog
    pub world : E.World

  abbrev pub settle_single : ℕ → DeleteOutcome → Single → Single
  settle_single size deleted s = record s { metrics = count_deleted size s.metrics }
  settle_single size already_gone s = record s { metrics = count_deleted size s.metrics }
  settle_single size (DeleteOutcome.failed f) s = record s {
    metrics = count_failure s.metrics;
    log = push f s.log;
  }

  abbrev pub delete_single : FilePath → FileMetadata → DeleteOptions → Single → Single
  delete_single path meta opts s =
      let p = process_one E (single_item path meta) opts s.metrics s.world in
      settle_single (size_of meta) p.attempt.outcome
        (record s { metrics = p.metrics; world = p.world })

  abbrev pub decide_single :
      FilterDecision → FilePath → FileMetadata → Bool → DeleteOptions → Single → Single
  decide_single (retain reason) path meta dry_run opts s = record s {
    metrics = count_retained s.metrics;
  }
  decide_single delete path meta true opts s = record s {
    metrics = count_deleted (size_of meta) s.metrics;
  }
  decide_single delete path meta false opts s = delete_single path meta opts s

  abbrev pub count_single : Single → Single
  count_single s = record s {
    metrics = record s.metrics { files_scanned = add64 s.metrics.files_scanned 1 };
  }

  unfoldable pub run_single_object :
      FilterSet G → FilePath → Result FileMetadata Text → Bool → DeleteOptions → Single → Single
  run_single_object filters path (err e) dry_run opts s = record s {
    metrics = count_failure s.metrics;
    log = push (missing_failure path e) s.log;
  }
  run_single_object filters path (ok meta) dry_run opts s =
      decide_single (evaluate_file G filters (single_entry path meta)) path meta dry_run opts
        (count_single s)
