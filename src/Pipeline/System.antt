-- ===== src/Pipeline/System.antt =====
-- A whole run of pipeline.rs: the coordinator, the file workers and the directory workers take turns
-- in any order, each with a whole round. The events are those that the enumerator still sends.
pub mod Rounds
pub mod Invariant
pub mod Moves
pub mod Listing
pub mod Removal
pub mod Keeping
pub mod Stepping
pub mod Progress
use cursedelete.Base.{[], none, FilePath, ℕ, suc, ◌≡◌, List, ◌∷◌, ◌++◌, ok}
use cursedelete.Entry.{DirId, DiscoveredEntry}
use cursedelete.Options.{DeleteOptions}
use cursedelete.Engine.{PlatformEngine, EnumEvent, entry, directory_complete, error}
use cursedelete.Filter.{Globs}
use cursedelete.Metrics.{WindowSampler, no_metrics}
use cursedelete.Pipeline.Log.{empty_log}
use cursedelete.Tracker
use cursedelete.Tracker.{DirectoryTracker, ReadyDirectory}
use cursedelete.Pipeline.Delete.{FileWorkItem}
use cursedelete.Pipeline.Files.{Run, Mode, handle_event, file_worker_step}
use cursedelete.Pipeline.Dirs.{DirMode, dir_worker_step}

pub record System (W : Type 0) : Type 0 where
  pub events : List EnumEvent
  pub run : Run W

-- How `run` sets out: the root is registered and counted.
abbrev pub launched : {W : Type 0} → FilePath → WindowSampler → W → List EnumEvent → System W
launched root sampler w es = record {
  events = es;
  run = record {
    tracker = Tracker.register_directory 0 none root Tracker.new;
    metrics = record no_metrics { dirs_scanned = 1 };
    sampler = sampler;
    log = empty_log;
    world = w;
    file_queue = [];
    root_done = 0;
  };
}

-- The queue without an item that a file worker took from it.
abbrev pub taken : {W : Type 0} → List FileWorkItem → Run W → Run W
taken q r = record r { file_queue = q }

-- The channel of ready directories without one that a directory worker took from it.
abbrev pub received : {W : Type 0} → List ReadyDirectory → Run W → Run W
received ds r = record r { tracker = record r.tracker { ready = ds } }

module _ (G : Globs) (E : PlatformEngine) (opts : DeleteOptions) where
  -- One round of some thread. Each round may see the operation cancelled, or not; an item may
  -- overtake those before it, since the workers that took them are not done.
  pub data Step (S : System E.World) : System E.World → Type 1 where
    coordinates :
        (μ : Mode G) (e : EnumEvent) (es : List EnumEvent) (r : Run E.World)
        → S.events ≡ e ∷ es
        → handle_event μ e S.run ≡ ok r
        → Step S (record { events = es; run = r })
    deletes :
        (item : FileWorkItem) (before after : List FileWorkItem)
        → S.run.file_queue ≡ before ++ (item ∷ after)
        → Step S (record S { run = file_worker_step E opts item (taken (before ++ after) S.run) })
    removes :
        (μ : DirMode) (d : ReadyDirectory) (before after : List ReadyDirectory)
        → S.run.tracker.ready ≡ before ++ (d ∷ after)
        → Step S (record S { run = dir_worker_step E μ d (received (before ++ after) S.run) })

  pub data Reach (S : System E.World) : System E.World → Type 1 where
    start : Reach S S
    next : {T U : System E.World} → Reach S T → Step T U → Reach S U

  abbrev pub rounds : {S T : System E.World} → Reach S T → ℕ
  rounds start = 0
  rounds (next h st) = suc (rounds h)
