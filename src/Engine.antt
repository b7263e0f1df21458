-- ===== src/Engine.antt =====
-- crates/cursdel-core/src/engine.rs: the contract of a platform engine. An engine acts on a world,
-- which holds the file system and the other processes; each call returns the next world.
use cursedelete.Base.{ℕ, Bool, true, false, Text, FilePath, add64}
use cursedelete.Entry.{DirId, DiscoveredEntry}
use cursedelete.Failure.{DeleteFailure}
use cursedelete.Options.{DeleteOptions}

-- `DirIdAllocator`: the counter that the next id is taken from.
abbrev pub DirIdAllocator : Type 0
DirIdAllocator = ℕ

abbrev pub new_allocator : DirIdAllocator
new_allocator = 1

abbrev pub next_dir_id : DirIdAllocator → DirId × DirIdAllocator
next_dir_id a = (a, add64 a 1)

pub data EnumEvent : Type 0 where
  entry : DiscoveredEntry → EnumEvent
  directory_complete : DirId → EnumEvent
  error : FilePath → Text → EnumEvent

pub data EnumError : Type 0 where
  cancelled channel_closed : EnumError

pub data DeleteOutcome : Type 0 where
  deleted : DeleteOutcome
  already_gone : DeleteOutcome
  failed : DeleteFailure → DeleteOutcome

pub record DeleteAttempt : Type 0 where
  pub outcome : DeleteOutcome
  pub bytes : ℕ

-- `DeleteAttempt::failed`
abbrev pub failed_attempt : DeleteFailure → DeleteAttempt
failed_attempt f = record { outcome = failed f; bytes = 0 }

abbrev pub outcome_is_success : DeleteOutcome → Bool
outcome_is_success deleted = true
outcome_is_success already_gone = true
outcome_is_success (failed f) = false

abbrev pub is_success : DeleteAttempt → Bool
is_success a = outcome_is_success a.outcome

pub data RemediationOutcome : Type 0 where
  applied : RemediationOutcome
  not_applicable : RemediationOutcome
  failed : Text → RemediationOutcome

pub data LockResolution : Type 0 where
  resolved : LockResolution
  unsupported : Text → LockResolution
  failed : Text → LockResolution

-- The trait, but for `enumerate`, whose events are an argument of the coordinator.
pub record PlatformEngine : Type 1 where
  pub World : Type 0
  pub delete_file : FilePath → DeleteOptions → World → DeleteAttempt × World
  pub delete_dir : FilePath → DeleteOptions → World → DeleteAttempt × World
  pub remediate :
      FilePath → Bool → DeleteFailure → DeleteOptions → World → RemediationOutcome × World
  pub resolve_local_lock : FilePath → DeleteOptions → World → LockResolution × World
  pub resolve_remote_lock : FilePath → DeleteOptions → World → LockResolution × World
