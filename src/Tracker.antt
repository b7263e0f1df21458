-- ===== src/Tracker.antt =====
-- crates/cursdel-core/src/directory_tracker.rs: when a directory may be deleted. The map is a
-- dictionary, the channel of ready directories a list, newest last. Each access to an entry is
-- atomic; `mark_enumeration_done` and `complete_child` end with a call of `try_finalise`, which
-- other threads may delay: the `_entry` functions are the parts before that call.
pub mod Once
pub mod Counts
pub mod Load
pub mod Handing
use cursedelete.Base.{
  ℕ, Bool, true, false, not, ◌&&◌, Option, none, some, List, [], ◌∷◌, ◌++◌, ◌==◌, if◌then◌else◌,
  length, FilePath, add64, sub64, i64_nonpos,
}
use cursedelete.Base.Dict.{Dict, lookup, insert, erase, modify}
use cursedelete.Entry.{DirId}

-- `pending` and `still_present` are `i64`.
pub record DirState : Type 0 where
  pub parent : Option DirId
  pub path : FilePath
  pub pending : ℕ
  pub still_present : ℕ
  pub enumeration_done : Bool
  pub finalised : Bool

pub record ReadyDirectory : Type 0 where
  pub dir_id : DirId
  pub parent : Option DirId
  pub path : FilePath
  pub simulated_non_empty : Bool

pub record DirectoryTracker : Type 0 where
  pub state : Dict DirState
  pub ready : List ReadyDirectory

abbrev pub new : DirectoryTracker
new = record { state = []; ready = [] }

abbrev pub bump_pending : ℕ → DirState → DirState
bump_pending delta s = record s { pending = add64 s.pending delta }

unfoldable pub add_pending : DirId → ℕ → DirectoryTracker → DirectoryTracker
add_pending d delta t = record t { state = modify d (bump_pending delta) t.state }

abbrev pub fresh_dir : Option DirId → FilePath → DirState
fresh_dir parent path = record {
  parent = parent;
  path = path;
  pending = 0;
  still_present = 0;
  enumeration_done = false;
  finalised = false;
}

abbrev pub count_in : Option DirId → DirectoryTracker → DirectoryTracker
count_in none t = t
count_in (some p) t = add_pending p 1 t

unfoldable pub register_directory :
    DirId → Option DirId → FilePath → DirectoryTracker → DirectoryTracker
register_directory d parent path t =
    count_in parent (record t { state = insert d (fresh_dir parent path) t.state })

unfoldable pub register_leaf_child : DirId → DirectoryTracker → DirectoryTracker
register_leaf_child parent t = add_pending parent 1 t

abbrev pub ready_of : DirId → DirState → ReadyDirectory
ready_of d s = record {
  dir_id = d;
  parent = s.parent;
  path = s.path;
  simulated_non_empty = not (i64_nonpos s.still_present);
}

abbrev pub finalise_entry : DirId → Option DirState → DirectoryTracker → DirectoryTracker
finalise_entry d none t = t
finalise_entry d (some s) t = if s.finalised then t else record t {
  state = modify d (λ e. record e { finalised = true }) t.state;
  ready = t.ready ++ (ready_of d s ∷ []);
}

unfoldable pub try_finalise : DirId → DirectoryTracker → DirectoryTracker
try_finalise d t = finalise_entry d (lookup d t.state) t

-- The entry after its enumeration has ended, and whether that made the directory ready.
abbrev pub mark_done : DirState → DirState
mark_done s = record s { enumeration_done = true }

abbrev pub is_ready_marked : Option DirState → Bool
is_ready_marked none = false
is_ready_marked (some s) = (s.pending == 0) && not s.finalised

-- `mark_enumeration_done` up to the call of `try_finalise`, and whether it makes that call.
unfoldable pub mark_enumeration_done_entry : DirId → DirectoryTracker → DirectoryTracker × Bool
mark_enumeration_done_entry d t =
    (record t { state = modify d mark_done t.state }, is_ready_marked (lookup d t.state))

abbrev pub then_finalise : DirId → DirectoryTracker × Bool → DirectoryTracker
then_finalise d (t, ready) = if ready then try_finalise d t else t

unfoldable pub mark_enumeration_done : DirId → DirectoryTracker → DirectoryTracker
mark_enumeration_done d t = then_finalise d (mark_enumeration_done_entry d t)

abbrev pub resolve_child : Bool → DirState → DirState
resolve_child still_present s = record s {
  pending = sub64 s.pending 1;
  still_present = if still_present then add64 s.still_present 1 else s.still_present;
}

abbrev pub is_ready_resolved : Option DirState → Bool
is_ready_resolved none = false
is_ready_resolved (some s) = s.enumeration_done && i64_nonpos s.pending && not s.finalised

-- `complete_child` up to the call of `try_finalise`, and whether it makes that call.
unfoldable pub complete_child_entry : DirId → Bool → DirectoryTracker → DirectoryTracker × Bool
complete_child_entry parent still_present t =
    let state = modify parent (resolve_child still_present) t.state in
    (record t { state = state }, is_ready_resolved (lookup parent state))

unfoldable pub complete_child : DirId → Bool → DirectoryTracker → DirectoryTracker
complete_child parent still_present t =
    then_finalise parent (complete_child_entry parent still_present t)

unfoldable pub forget : DirId → DirectoryTracker → DirectoryTracker
forget d t = record t { state = erase d t.state }

unfoldable pub in_flight_directories : DirectoryTracker → ℕ
in_flight_directories t = length t.state
