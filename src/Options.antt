-- ===== src/Options.antt =====
-- crates/cursdel-core/src/options.rs: the resolved options of one operation.
use cursedelete.Base.{ℕ, Bool, true, false, not, ◌&&◌, ◌||◌, Option, is_none, Text, FilePath, codes}
use cursedelete.Entry.{Duration}

pub data Mode : Type 0 where
  normal force destroy : Mode

abbrev pub allows_remediation : Mode → Bool
allows_remediation force = true
allows_remediation destroy = true
allows_remediation normal = false

abbrev pub implies_kill_locks : Mode → Bool
implies_kill_locks destroy = true
implies_kill_locks _ = false

-- `Mode::as_str`
abbrev pub as_str : Mode → Text
as_str normal = codes "normal"
as_str force = codes "force"
as_str destroy = codes "destroy"

pub data WorkerPolicy : Type 0 where
  auto : WorkerPolicy
  fixed : ℕ → WorkerPolicy

pub data AgeBasis : Type 0 where
  modified created accessed : AgeBasis

-- The patterns are still text here; `Filter` compiles them.
pub record FilterSpec : Type 0 where
  pub include : Option Text
  pub exclude : Option Text
  pub min_size : Option ℕ
  pub max_size : Option ℕ
  pub age : Option Duration
  pub age_basis : AgeBasis

abbrev pub spec_is_noop : FilterSpec → Bool
spec_is_noop s =
    is_none s.include
    && is_none s.exclude
    && is_none s.min_size
    && is_none s.max_size
    && is_none s.age

pub record OperationOptions : Type 0 where
  pub target : FilePath
  pub mode : Mode
  pub workers : WorkerPolicy
  pub dry_run : Bool
  pub kill_locks : Bool
  pub close_remote_locks : Bool
  pub filters : FilterSpec
  pub json : Bool
  pub quiet : Bool
  pub verbose : Bool
  pub log_path : Option FilePath

-- `DeleteOptions` of engine.rs.
pub record DeleteOptions : Type 0 where
  pub allow_remediation : Bool
  pub kill_locks : Bool
  pub close_remote_locks : Bool

abbrev pub preserve_root : OperationOptions → Bool
preserve_root o = not (spec_is_noop o.filters)

abbrev pub effective_kill_locks : OperationOptions → Bool
effective_kill_locks o = o.kill_locks || implies_kill_locks o.mode

abbrev pub delete_options : OperationOptions → DeleteOptions
delete_options o = record {
  allow_remediation = allows_remediation o.mode;
  kill_locks = effective_kill_locks o;
  close_remote_locks = o.close_remote_locks;
}
