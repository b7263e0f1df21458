-- ===== src/Linux.antt =====
-- crates/cursdel-linux/src/lib.rs: the engine of Linux, an instance of the platform's contract.
pub mod Kernel
pub mod Ops
pub mod Lock
pub mod Listing
pub mod Deletion
pub mod Descriptors
pub mod Signals
pub mod ProcStat
pub mod Children
pub mod Removal
pub mod Holders
pub mod Matching
pub mod Metadata
use cursedelete.Base.{ℕ, Bool, FilePath, map_err}
use cursedelete.Engine.{PlatformEngine}
use cursedelete.Walk.{Host}
use cursedelete.Linux.Kernel
use cursedelete.Linux.Kernel.{error_text}
use cursedelete.Linux.Ops.{delete_file, delete_dir, remediate}
use cursedelete.Linux.Lock.{resolve_local_lock, resolve_remote_lock}
use cursedelete.Linux.Listing.{list_children}

-- `LinuxEngine`, but for `enumerate`.
abbrev pub linux_engine : Kernel.Kernel → PlatformEngine
linux_engine K = record {
  World = K.World;
  delete_file = delete_file K;
  delete_dir = delete_dir K;
  remediate = λ path is_dir failure opts. remediate K path is_dir failure;
  resolve_local_lock = resolve_local_lock K;
  resolve_remote_lock = resolve_remote_lock K;
}

-- What `enumerate` hands to the walk, where the world is `worlds n` in the n-th round.
abbrev pub linux_host : (K : Kernel.Kernel) → (ℕ → K.World) → (ℕ → Bool) → (ℕ → Bool) → Host
linux_host K worlds is_cancelled receives = record {
  list_children = λ n dir. map_err (error_text K) (list_children K dir (worlds n)).0;
  is_cancelled = is_cancelled;
  receives = receives;
}
