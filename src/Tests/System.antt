-- ===== src/Tests/System.antt =====
-- A whole run on a directory with one file.
use cursedelete.Base.{
  ◌+◌, ◌≤◌, ◌≡◌, refl, inr, Bool, true, false, none, some, List, [], ◌∷◌, arith, codes, ok,
}
use cursedelete.Entry.{DiscoveredEntry, file}
use cursedelete.Options.{DeleteOptions, modified}
use cursedelete.Metrics.{WindowSampler}
use cursedelete.Engine.{EnumEvent, entry, directory_complete}
use cursedelete.Filter.{evaluate_file}
use cursedelete.Tests.Worlds.{literal_globs, lockable}
use cursedelete.Tracker
use cursedelete.Tracker.{ReadyDirectory}
use cursedelete.Base.Dict
use cursedelete.Pipeline.Delete
use cursedelete.Pipeline.Files.{
  Run, Mode, handle_event, handle_entry, file_worker_step, count_leaf, item_of,
}
use cursedelete.Pipeline.Dirs.{DirMode, dir_worker_step}
use cursedelete.Pipeline.System.{
  System, launched, taken, received, Reach, start, next, coordinates, deletes, removes, rounds,
}
use cursedelete.Pipeline.System.Rounds.{measure, rounds-le-measure}
use cursedelete.Pipeline.System.Listing
use cursedelete.Pipeline.System.Keeping.{Protocol}
use cursedelete.Pipeline.System.Progress.{run_ends}

abbrev no_options : DeleteOptions
no_options = record { allow_remediation = false; kill_locks = false; close_remote_locks = false }

abbrev sampler : WindowSampler
sampler = record { completed = 0; errors = 0; window_start = 0 }

abbrev one_file : DiscoveredEntry
one_file = record {
  path = codes "/x/a";
  dir_id = none;
  parent_dir_id = some 0;
  kind = file;
  size = 5;
  times = record { modified = none; created = none; accessed = none };
  readonly = false;
}

abbrev events : List EnumEvent
events = entry one_file ∷ directory_complete 0 ∷ []

abbrev all_files : Mode literal_globs
all_files = record {
  filters = record {
    include = none;
    exclude = none;
    min_size = none;
    max_size = none;
    age = none;
    age_basis = modified;
    reference_time = 0;
  };
  dry_run = false;
  cancelled = false;
  connected = true;
}

abbrev for_real : DirMode
for_real = record { opts = no_options; dry_run = false; preserve_root = false; cancelled = false }

abbrev set_out : System Bool
set_out = launched (codes "/x") sampler false events

abbrev found : Run Bool
found = record (count_leaf 0 set_out.run) { file_queue = item_of one_file 0 ∷ [] }

abbrev listed : Run Bool
listed = record found { tracker = Tracker.mark_enumeration_done 0 found.tracker }

abbrev emptied : Run Bool
emptied = file_worker_step lockable no_options (item_of one_file 0) (taken [] listed)

abbrev root_ready : ReadyDirectory
root_ready = record { dir_id = 0; parent = none; path = codes "/x"; simulated_non_empty = false }

abbrev ended : System Bool
ended = record {
  events = [];
  run = dir_worker_step lockable for_real root_ready (received [] emptied);
}

finds_file : handle_event all_files (entry one_file) set_out.run ≡ ok found
unfolding handle_event handle_entry evaluate_file
finds_file = refl

lists_root : handle_event all_files (directory_complete 0) found ≡ ok listed
unfolding handle_event
lists_root = refl

hands_over_root : emptied.tracker.ready ≡ root_ready ∷ []
unfolding file_worker_step Delete.process_one Delete.delete_with_remediation Delete.with_local_locks
    Delete.with_remote_locks Delete.base_delete Tracker.complete_child Tracker.complete_child_entry
    Tracker.mark_enumeration_done Tracker.mark_enumeration_done_entry Tracker.try_finalise
    Tracker.register_leaf_child Tracker.add_pending Tracker.register_directory Dict.lookup
    Dict.insert Dict.modify
hands_over_root = refl

reaches_end : Reach literal_globs lockable no_options set_out ended
reaches_end =
    next
      (next
        (next
          (next start (
            coordinates all_files (entry one_file) (directory_complete 0 ∷ []) found refl
              finds_file))
          (coordinates all_files (directory_complete 0) [] listed refl lists_root))
        (deletes (item_of one_file 0) [] [] refl))
      (removes for_real root_ready [] [] hands_over_root)

keeps_Protocol : Protocol (0 ∷ []) 1 events
unfolding Listing.without
keeps_Protocol = inr (0, refl, refl, refl, (refl, refl))

nothing_ready : ended.run.tracker.ready ≡ []
unfolding dir_worker_step Delete.delete_with_remediation Delete.base_delete Tracker.forget
    file_worker_step Delete.process_one Delete.with_remote_locks Delete.with_local_locks
nothing_ready = refl

nothing_queued : ended.run.file_queue ≡ []
unfolding dir_worker_step file_worker_step Delete.delete_with_remediation Delete.base_delete
    Delete.process_one Delete.with_remote_locks Delete.with_local_locks
nothing_queued = refl

run_ends_example : (ended.run.tracker.state ≡ []) × (ended.run.root_done ≡ 1)
run_ends_example =
    run_ends lockable no_options (codes "/x") sampler false events ended keeps_Protocol
      (omega arith) reaches_end refl nothing_queued nothing_ready

rounds-le-measure_example :
    rounds literal_globs lockable no_options reaches_end + measure ended ≤ measure set_out
rounds-le-measure_example =
    rounds-le-measure literal_globs lockable no_options set_out ended reaches_end
