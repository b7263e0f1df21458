-- ===== src/Pipeline/DryRun.antt =====
-- A dry run touches nothing.
use cursedelete.Base.{
  ◌≡◌, refl, ◌∙◌, true, List, [], ◌∷◌, arith, Text, FilePath, Result, ok, err, >>=-eq-ok,
}
use cursedelete.Options.{DeleteOptions}
use cursedelete.Engine.{PlatformEngine, EnumEvent, entry, directory_complete, error}
use cursedelete.Filter.{Globs, FilterSet}
use cursedelete.Tracker.{ReadyDirectory}
use cursedelete.Pipeline.Files.{Run, Mode, handle_entry, handle_event, coordinator_loop}
use cursedelete.Pipeline.Dirs.{DirMode, dir_worker_step}
use cursedelete.Pipeline.Single.{FileMetadata, Single, run_single_object}

module _ {W : Type 0} where
  -- The world is as it was and no work was handed to the file workers.
  abbrev pub Untouched : Run W → Run W → Type 0
  Untouched r s = (s.world ≡ r.world) × (s.file_queue ≡ r.file_queue)

  handle_event-Untouched :
      {G : Globs} (μ : Mode G) (e : EnumEvent) (r s : Run W)
      → μ.dry_run ≡ true
      → handle_event μ e r ≡ ok s
      → Untouched r s
  unfolding handle_event handle_entry
  handle_event-Untouched μ (entry e) r s d h = ground arith
  handle_event-Untouched μ (directory_complete i) r s d h = ground arith
  handle_event-Untouched μ (error p m) r s d h = ground arith

  -- In a dry run the coordinator, over any events, changes nothing in the world and queues no file
  -- for deletion.
  pub coordinator_loop-Untouched :
      {G : Globs} (μ : Mode G) (es : List EnumEvent) (r s : Run W)
      → μ.dry_run ≡ true
      → coordinator_loop μ es r ≡ ok s
      → Untouched r s
  unfolding coordinator_loop
  coordinator_loop-Untouched μ [] r s d h = ground arith
  coordinator_loop-Untouched μ (e ∷ es) r s d h =
      let (t, first, rest) = >>=-eq-ok (handle_event μ e r) (λ t. coordinator_loop μ es t) h in
      let (w, q) = handle_event-Untouched μ e r t d first in
      let (w', q') = coordinator_loop-Untouched μ es t s d rest in (w' ∙ w, q' ∙ q)

-- In a dry run a directory worker changes nothing in the world, queues no file and logs no
-- failure, whatever the platform does.
pub dir_worker_step-Untouched :
    (E : PlatformEngine) (μ : DirMode) (d : ReadyDirectory) (r : Run E.World)
    → μ.dry_run ≡ true
    → Untouched r (dir_worker_step E μ d r) × ((dir_worker_step E μ d r).log ≡ r.log)
unfolding dir_worker_step
dir_worker_step-Untouched E μ d r h = ground arith

-- A dry run on a single object leaves the world as it was.
pub run_single_object-dry :
    (G : Globs) (E : PlatformEngine) (filters : FilterSet G) (path : FilePath)
    (meta : Result FileMetadata Text) (opts : DeleteOptions) (s : Single G E)
    → (run_single_object G E filters path meta true opts s).world ≡ s.world
unfolding run_single_object
run_single_object-dry G E filters path (err e) opts s = refl
run_single_object-dry G E filters path (ok meta) opts s = ground arith
