-- ===== src/Entry.antt =====
-- crates/cursdel-core/src/entry.rs: one object found while walking a tree.
use cursedelete.Base.{ℕ, Bool, true, false, not, Option, FilePath}

-- `DirId`; 0 is the root of the operation.
abbrev pub DirId : Type 0
DirId = ℕ

-- An instant, in nanoseconds since the earliest one that can be represented.
abbrev pub SystemTime : Type 0
SystemTime = ℕ

-- A duration in nanoseconds.
abbrev pub Duration : Type 0
Duration = ℕ

pub record EntryTimes : Type 0 where
  pub modified : Option SystemTime
  pub created : Option SystemTime
  pub accessed : Option SystemTime

-- `symlink` carries `reparse_is_dir`.
pub data EntryKind : Type 0 where
  file : EntryKind
  directory : EntryKind
  symlink : Bool → EntryKind
  other : EntryKind

pub record DiscoveredEntry : Type 0 where
  pub path : FilePath
  pub dir_id : Option DirId
  pub parent_dir_id : Option DirId
  pub kind : EntryKind
  pub size : ℕ
  pub times : EntryTimes
  pub readonly : Bool

abbrev pub kind_is_dir : EntryKind → Bool
kind_is_dir directory = true
kind_is_dir _ = false

abbrev pub is_dir : DiscoveredEntry → Bool
is_dir e = kind_is_dir e.kind

abbrev pub is_leaf : DiscoveredEntry → Bool
is_leaf e = not (is_dir e)
