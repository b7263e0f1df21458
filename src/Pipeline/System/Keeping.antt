-- ===== src/Pipeline/System/Keeping.antt =====
-- What an enumerator may send, and that the coordinator's rounds keep the invariant.
use cursedelete.Base.{
  ℕ, suc, ◌≤◌, ◌<◌, ◌≡◌, refl, subst, ◌⊎◌, inl, inr, Bool, true, false, none, some, List, [], ◌∷◌,
  arith, if◌then◌else◌, if-elim, length, add64, Result, ok,
}
use cursedelete.Entry.{DirId, DiscoveredEntry, is_dir}
use cursedelete.Engine.{EnumEvent, entry, directory_complete, error}
use cursedelete.Filter.{Globs, FilterDecision, delete, retain, evaluate_file}
use cursedelete.Tracker.{
  DirState, DirectoryTracker, ReadyDirectory, forget, register_leaf_child, complete_child,
}
use cursedelete.Tracker
use cursedelete.Pipeline.Files.{
  Violation, Run, Mode, handle_entry, handle_leaf, handle_directory, handle_event, count_leaf,
  retain_leaf, dispatch_leaf, decide_leaf, item_of,
}
use cursedelete.Pipeline.System.{System}
use cursedelete.Pipeline.System.Invariant.{is_open, Inv, complete_child-Inv}
use cursedelete.Pipeline.System.Moves.{register_leaf_child-Inv, queued-Inv}
use cursedelete.Pipeline.System.Listing.{without, mark_enumeration_done-Inv, register_directory-Inv}

-- The events that an enumerator may send while the directories `opens` are being listed and the ids
-- from `bound` on are unused: whatever it finds lies in an open directory, a new directory has a
-- new and larger id, and each directory is listed to its end.
abbrev pub Protocol : List DirId → DirId → List EnumEvent → Type 0
Protocol opens bound [] = opens ≡ []
Protocol opens bound (entry e ∷ es) =
    ((d : DirId) × (p : DirId) × (is_dir e ≡ true)
      × (e.dir_id ≡ some d)
      × (e.parent_dir_id ≡ some p)
      × (is_open p opens ≡ true)
      × (bound ≤ d)
      × (p < d)
      × Protocol (d ∷ opens) (suc d) es)
    ⊎ ((p : DirId) × (is_dir e ≡ false)
        × (e.parent_dir_id ≡ some p)
        × (is_open p opens ≡ true)
        × Protocol opens bound es)
Protocol opens bound (directory_complete d ∷ es) =
    (is_open d opens ≡ true) × Protocol (without d opens) bound es
Protocol opens bound (error path message ∷ es) = Protocol opens bound es

module _ {W : Type 0} where
  abbrev pub Good : List DirId → DirId → ℕ → Run W → Type 0
  Good opens bound left r = Inv opens bound left none r.tracker r.file_queue r.root_done

  -- The invariant of a run, with the events that are to come.
  abbrev pub Holds : System W → Type 0
  Holds S =
      (opens : List DirId) × (bound : DirId) × Good opens bound (length S.events) S.run
      × Protocol opens bound S.events

  fewer-Inv :
      (opens : List DirId) (bound : DirId) (left : ℕ) (r : Run W)
      → Good opens bound (suc left) r
      → Good opens bound left r
  fewer-Inv opens bound left r v = record {
    unique = v.unique;
    entries = v.entries;
    room = λ d. omega (arith, v.room d);
    registered = v.registered;
    root = v.root;
  }

  module _ {G : Globs} (μ : Mode G) (opens : List DirId) (bound : DirId) (left : ℕ) (r : Run W)
      (v : Good opens bound (suc left) r) where
    retained-Good :
        (p : DirId) (b : Bool)
        → is_open p opens ≡ true
        → Inv opens bound left none
            (complete_child p b (register_leaf_child p r.tracker))
            r.file_queue
            r.root_done
    retained-Good p b op =
        complete_child-Inv opens bound left r.file_queue r.root_done p b
          (register_leaf_child p r.tracker)
          (register_leaf_child-Inv opens bound left r.file_queue r.root_done p r.tracker op v)

    dispatch_leaf-Good :
        (dry connected : Bool) (e : DiscoveredEntry) (p : DirId)
        → is_open p opens ≡ true
        → Good opens bound left (dispatch_leaf dry connected e p (count_leaf p r))
    dispatch_leaf-Good true connected e p op = retained-Good p false op
    dispatch_leaf-Good false false e p op = retained-Good p true op
    dispatch_leaf-Good false true e p op =
        queued-Inv opens bound left r.file_queue r.root_done (item_of e p)
          (register_leaf_child p r.tracker)
          (register_leaf_child-Inv opens bound left r.file_queue r.root_done p r.tracker op v)

    decide_leaf-Good :
        (x : FilterDecision) (e : DiscoveredEntry) (p : DirId)
        → is_open p opens ≡ true
        → Good opens bound left (decide_leaf μ e p x (count_leaf p r))
    decide_leaf-Good (retain reason) e p op = retained-Good p true op
    decide_leaf-Good delete e p op = dispatch_leaf-Good μ.dry_run μ.connected e p op

    leaf-Good :
        (e : DiscoveredEntry) (p : DirId)
        → is_open p opens ≡ true
        → Good opens bound left (
            if μ.cancelled
            then retain_leaf p (count_leaf p r)
            else decide_leaf μ e p (evaluate_file G μ.filters e) (count_leaf p r))
    leaf-Good e p op =
        if-elim (Good opens bound left) μ.cancelled _ _ (retained-Good p true op)
          (decide_leaf-Good (evaluate_file G μ.filters e) e p op)

  same_run : {r s : Run W} (x : Result (Run W) Violation) → x ≡ ok r → x ≡ ok s → r ≡ s
  same_run x h k = cc

  registers :
      (e : DiscoveredEntry) (r : Run W) (d p : DirId) {G : Globs} (μ : Mode G)
      → is_dir e ≡ true
      → e.dir_id ≡ some d
      → e.parent_dir_id ≡ some p
      → (if is_dir e then handle_directory e e.dir_id r else handle_leaf μ e e.parent_dir_id r)
        ≡ ok (record r {
          metrics = record r.metrics { dirs_scanned = add64 r.metrics.dirs_scanned 1 };
          tracker = Tracker.register_directory d (some p) e.path r.tracker;
        })
  registers e r d p μ y di pa = rw y (rw di (rw pa refl))

  finds_leaf :
      {G : Globs} (μ : Mode G) (e : DiscoveredEntry) (r : Run W) (p : DirId)
      → is_dir e ≡ false
      → e.parent_dir_id ≡ some p
      → (if is_dir e then handle_directory e e.dir_id r else handle_leaf μ e e.parent_dir_id r)
        ≡ ok (
            if μ.cancelled
            then retain_leaf p (count_leaf p r)
            else decide_leaf μ e p (evaluate_file G μ.filters e) (count_leaf p r))
  finds_leaf μ e r p y pa = rw y (rw pa refl)

  -- Every round of the coordinator keeps the invariant.
  pub handle_event-Holds :
      {G : Globs} (μ : Mode G) (e : EnumEvent) (es : List EnumEvent) (r s : Run W)
      → handle_event μ e r ≡ ok s
      → Holds (record { events = e ∷ es; run = r })
      → Holds (record { events = es; run = s })
  unfolding handle_event handle_entry
  handle_event-Holds {G} μ (entry e) es r s h
        (opens, bound, v, inl (d, p, y, di, pa, op, le, lt, rest)) =
      (
        d ∷ opens,
        suc d,
        subst (Good (d ∷ opens) (suc d) (length es)) (same_run _ (registers e r d p μ y di pa) h) (
            register_directory-Inv opens bound (length es) r.file_queue r.root_done d p e.path
              r.tracker op le lt v),
        rest,
      )
  handle_event-Holds {G} μ (entry e) es r s h (opens, bound, v, inr (p, y, pa, op, rest)) = (
    opens,
    bound,
    subst (Good opens bound (length es)) (same_run _ (finds_leaf μ e r p y pa) h)
        (leaf-Good μ opens bound (length es) r v e p op),
    rest,
  )
  handle_event-Holds μ (directory_complete d) es r s h (opens, bound, v, (op, rest)) = (
    without d opens,
    bound,
    subst (Good (without d opens) bound (length es)) (same_run _ refl h) (
        mark_enumeration_done-Inv opens bound (length es) r.file_queue r.root_done d r.tracker op
          v),
    rest,
  )
  handle_event-Holds μ (error path message) es r s h (opens, bound, v, rest) = (
    opens,
    bound,
    subst (Good opens bound (length es)) (same_run _ refl h)
        (fewer-Inv opens bound (length es) r v),
    rest,
  )
