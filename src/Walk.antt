-- ===== src/Walk.antt =====
-- crates/cursdel-core/src/walk.rs: the enumerator that every platform shares, with the sending half
-- of the event channel (`EnumSink` of engine.rs). What it calls is the parameter `Host`.
pub mod Opens
pub mod Rounds
pub mod Protocol
pub mod Ends
pub mod Links
use cursedelete.Base.{
  reverse, ℕ, zero, suc, Bool, true, false, not, ◌&&◌, Option, none, some, List, [], ◌∷◌, ◌++◌,
  if◌then◌else◌, length, Text, FilePath, Result, ok, err, ◌>>=◌,
}
use cursedelete.Entry.{DirId, EntryTimes, EntryKind, file, directory, symlink, DiscoveredEntry}
use cursedelete.Engine.{
  DirIdAllocator, new_allocator, next_dir_id, EnumEvent, entry, directory_complete, error,
  EnumError, cancelled, channel_closed,
}
use cursedelete.Paths.{join}

pub record RawChild : Type 0 where
  pub name : Text
  pub is_dir : Bool
  pub is_reparse_point : Bool
  pub size : ℕ
  pub times : EntryTimes
  pub readonly : Bool

pub record OpenDir : Type 0 where
  pub dir_id : DirId
  pub path : FilePath

-- What the walk finds outside: the listing of a directory and the cancel flag in the n-th round of
-- its loop, and whether the channel still has a receiver when n events were sent.
pub record Host : Type 0 where
  pub list_children : ℕ → FilePath → Result (List RawChild) Text
  pub is_cancelled : ℕ → Bool
  pub receives : ℕ → Bool

-- The events that were sent, oldest first, the id allocator, and the stack, its top first.
pub record Walk : Type 0 where
  pub events : List EnumEvent
  pub dir_ids : DirIdAllocator
  pub stack : List OpenDir

-- Each `?` may end the walk, with what was sent until then.
abbrev pub Walked : Type 0
Walked = Result Walk (EnumError × Walk)

abbrev pub subdirectory : OpenDir → RawChild → DirId → DiscoveredEntry
subdirectory current child d = record {
  path = join current.path child.name;
  dir_id = some d;
  parent_dir_id = some current.dir_id;
  kind = directory;
  size = 0;
  times = child.times;
  readonly = child.readonly;
}

abbrev pub kind_of : RawChild → EntryKind
kind_of child = if child.is_reparse_point then symlink child.is_dir else file

abbrev pub leaf : OpenDir → RawChild → DiscoveredEntry
leaf current child = record {
  path = join current.path child.name;
  dir_id = none;
  parent_dir_id = some current.dir_id;
  kind = kind_of child;
  size = child.size;
  times = child.times;
  readonly = child.readonly;
}

abbrev pub push_open : OpenDir → Walk → Walk
push_open o s = record s { stack = o ∷ s.stack }

abbrev pub recurses : RawChild → Bool
recurses child = child.is_dir && not child.is_reparse_point

module _ (H : Host) where
  unfoldable pub send : EnumEvent → Walk → Walked
  send event s =
      if H.receives (length s.events)
      then ok (record s { events = s.events ++ (event ∷ []) })
      else err (channel_closed, s)

  abbrev pub enter : OpenDir → RawChild → DirId × DirIdAllocator → Walk → Walked
  enter current child (d, ids) s =
      send (entry (subdirectory current child d)) (record s { dir_ids = ids }) >>= λ t.
      ok (push_open (record { dir_id = d; path = join current.path child.name }) t)

  unfoldable pub visit_child : OpenDir → RawChild → Walk → Walked
  visit_child current child s =
      if recurses child
      then enter current child (next_dir_id s.dir_ids) s
      else send (entry (leaf current child)) s

  unfoldable pub visit_children : OpenDir → List RawChild → Walk → Walked
  visit_children current [] s = ok s
  visit_children current (child ∷ children) s =
      visit_child current child s >>= λ t. visit_children current children t

  abbrev pub handle_listing : OpenDir → Result (List RawChild) Text → Walk → Walked
  handle_listing current (ok children) s = visit_children current children s
  handle_listing current (err message) s = send (error current.path message) s

  -- One round of the loop, on the directory that was popped.
  unfoldable pub visit : ℕ → OpenDir → Walk → Walked
  visit n current s = handle_listing current (H.list_children n current.path) s >>= λ t.
      send (directory_complete current.dir_id) t

  -- The completion of what is still open, the oldest first.
  unfoldable pub flush : List OpenDir → Walk → Walked
  flush [] s = err (cancelled, s)
  flush (o ∷ os) s = send (directory_complete o.dir_id) s >>= λ t. flush os t

  -- The loop, with fuel for its rounds.
  unfoldable pub stream : ℕ → ℕ → Walk → Option Walked
  stream zero n s = none
  stream (suc f) n s = elim s.stack [
    | [] ↦ some (ok s)
    | current ∷ rest ↦ elim (H.is_cancelled n) [
      | true ↦ some (flush (reverse (current ∷ rest)) s)
      | false ↦ elim (visit n current (record s { stack = rest })) [
        | err e ↦ some (err e)
        | ok t ↦ stream f (suc n) t
      ]
    ]
  ]

  unfoldable pub stream_tree : ℕ → FilePath → Option Walked
  stream_tree fuel root = stream fuel 0 (record {
    events = [];
    dir_ids = new_allocator;
    stack = record { dir_id = 0; path = root } ∷ [];
  })
