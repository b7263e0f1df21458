-- ===== src/Tests/Linux.antt =====
-- A kernel with one open file, held by process 42, and a directory with a child.
use cursedelete.Base.{
  ℕ, suc, ◌-◌, ◌≡◌, refl, ◌↔◌, true, false, Option, none, some, List, [], ◌∷◌, arith, if◌then◌else◌,
  Text, FilePath, codes, text_eq, Result, ok, err,
}
use cursedelete.Failure.{DeleteFailure, io}
use cursedelete.Options.{DeleteOptions}
use cursedelete.Engine.{deleted}
use cursedelete.Walk.{RawChild}
use cursedelete.Linux.Kernel.{Kernel, Timestamp, pos, has_nul}
use cursedelete.Linux.Ops.{unlink_leaf, delete_file, delete_dir, remediate}
use cursedelete.Linux.Lock.{is_kernel_stat, resolve_local_lock}
use cursedelete.Linux.Listing.{
  list_children, list_entries, list_entry, lookup_metadata, from_statx, systime_from, plain_dir,
  unix_epoch,
}
use cursedelete.Engine.{resolved}
use cursedelete.Base.{strip_prefix}
use cursedelete.Base.Decimal
use cursedelete.Paths.{join, components}
use cursedelete.Linux.Lock.{find_holding_pids, holders, holds, terminate, parse_pid, path_eq}
use cursedelete.Linux.Kernel.{open_dir_nofollow}
use cursedelete.Pipeline.Delete
use cursedelete.Paths
use cursedelete.Linux.Ops
use cursedelete.Linux.Kernel.{categorize}
use cursedelete.Metrics.{no_metrics}
use cursedelete.Pipeline.Delete.{FileWorkItem, process_one}
use cursedelete.Pipeline.Tries.{Tries}
use cursedelete.Linux.{linux_engine}
use cursedelete.Linux.Removal.{process_one-Removes}
use cursedelete.Base.{ltb, if◌then◌else◌, ◌+◌}
use cursedelete.Linux.Deletion.{Removes, unlink_leaf_iff}
use cursedelete.Linux.Descriptors.{Counts, calls-count}
use cursedelete.Linux.Holders.{Member}
use cursedelete.Linux.Signals.{IsVictim, Tells, signal_all, resolve_local_lock-Tells}
use cursedelete.Linux.ProcStat.{stat_line, is_kernel_stat-stat_line}
use cursedelete.Linux.Children.{Lists, list_children_iff}

abbrev epoch : Timestamp
epoch = record { tv_sec = pos 0; tv_nsec = pos 0 }

abbrev listing : FilePath → Result (List Text) Text
listing p =
    if text_eq p (codes "/proc")
    then ok (codes "self" ∷ codes "1" ∷ codes "42" ∷ [])
    else if text_eq p (codes "/proc/42/fd")
    then ok (codes "3" ∷ [])
    else err (codes "no such directory")

-- The state is the number of open descriptors.
abbrev one_holder : Kernel
one_holder = record {
  World = ℕ;
  Fd = FilePath;
  open_dir = λ p w. (ok p, suc w);
  close = λ fd w. w - 1;
  unlinkat = λ fd name as_dir w. (none, w);
  fchmodat = λ fd name mode w. (true, w);
  chmod = λ p mode w. (none, w);
  kill = λ pid w. (true, w);
  sleep = λ t w. w;
  fdopendir = λ w fd. none;
  readdir = λ w fd. ((codes ".", 4) ∷ (codes "d", 4) ∷ (codes "f", 8) ∷ [], none);
  statx = λ w fd name. ok (record {
    stx_mask = 2048;
    stx_mode = 33188;
    stx_size = 5;
    stx_btime = epoch;
    stx_mtime = epoch;
    stx_atime = epoch;
  });
  fstatat = λ w fd name. err 38;
  canonicalize = λ w p. some p;
  read_dir = λ w p. listing p;
  read_to_string = λ w p. none;
  read_link =
      λ w p. if text_eq p (codes "/proc/42/fd/3") then some (codes "/x/f (deleted)") else none;
  process_id = 7;
  strerror = λ n. codes "error";
  eacces = 13;
  eperm = 1;
  ebusy = 16;
  etxtbsy = 26;
  enoent = 2;
  enotempty = 39;
  enametoolong = 36;
  eloop = 40;
  enosys = 38;
  dt_dir = 4;
}

abbrev kill_locks : DeleteOptions
kill_locks = record { allow_remediation = false; kill_locks = true; close_remote_locks = false }

abbrev some_failure : DeleteFailure
some_failure = record {
  path = codes "/x/f";
  is_directory = false;
  category = io;
  message = [];
  os_error_code = none;
}

unlink_leaf_iff_example :
    ((unlink_leaf one_holder (codes "/x/f") false 0).0.outcome ≡ deleted)
    ↔ Removes one_holder (codes "/x/f") false 0 (unlink_leaf one_holder (codes "/x/f") false 0).1
unlink_leaf_iff_example = unlink_leaf_iff one_holder (codes "/x/f") false 0

one_holder-Counts : Counts one_holder (λ w. w)
one_holder-Counts = record {
  open_dir = λ p w. refl;
  close = λ fd w. refl;
  unlinkat = λ fd name as_dir w. refl;
  fchmodat = λ fd name mode w. refl;
  chmod = λ p mode w. refl;
  kill = λ pid w. refl;
  sleep = λ t w. refl;
}

calls-count_example :
    ((delete_file one_holder (codes "/x/f") kill_locks 0).1 ≡ 0)
    × ((delete_dir one_holder (codes "/x/f") kill_locks 0).1 ≡ 0)
    × ((remediate one_holder (codes "/x/f") false some_failure 0).1 ≡ 0)
    × ((resolve_local_lock one_holder (codes "/x/f") kill_locks 0).1 ≡ 0)
    × ((list_children one_holder (codes "/x/f") 0).1 ≡ 0)
calls-count_example =
    calls-count one_holder (λ w. w) one_holder-Counts (codes "/x/f") false some_failure kill_locks 0

resolve_local_lock-Tells_example :
    (ps : List ℕ) × ((pid : ℕ)
      → Member pid ps ↔ IsVictim one_holder (codes "/x/f") kill_locks 0 pid)
    × Tells one_holder
        (resolve_local_lock one_holder (codes "/x/f") kill_locks 0)
        (signal_all one_holder ps 0)
resolve_local_lock-Tells_example = resolve_local_lock-Tells one_holder (codes "/x/f") kill_locks 0

-- A process with a closing parenthesis in its name, whose parent is process 2.
is_kernel_stat-stat_line_example :
    is_kernel_stat (stat_line 42 (codes "a) b") (codes "S") 2 (codes "0 0")) ≡ true
is_kernel_stat-stat_line_example =
    is_kernel_stat-stat_line 42 (codes "a) b") (codes "S") 2 (codes "0 0") (refl, (refl, tt))
      (refl, tt) (refl, (refl, (refl, tt))) (omega arith)

abbrev two_children : List RawChild
two_children =
    plain_dir (codes "d")
    ∷ record {
      name = codes "f";
      is_dir = false;
      is_reparse_point = false;
      size = 5;
      times = record {
        modified = some unix_epoch;
        created = some unix_epoch;
        accessed = some unix_epoch;
      };
      readonly = false;
    }
    ∷ []

lists_two_children : (list_children one_holder (codes "/x") 0).0 ≡ ok two_children
unfolding list_children open_dir_nofollow list_entries list_entry text_eq lookup_metadata from_statx
    systime_from
lists_two_children = refl

-- Only process 42 holds the file open, and it is signalled.
finds_holder : find_holding_pids one_holder 0 (codes "/x/f") ≡ ok (42 ∷ [])
unfolding find_holding_pids text_eq holders parse_pid Decimal.parse_u64 Decimal.parse_digits holds
    Decimal.digits join path_eq strip_prefix components
finds_holder = refl

resolves_lock : (resolve_local_lock one_holder (codes "/x/f") kill_locks 0).0 ≡ resolved
unfolding resolve_local_lock find_holding_pids text_eq holders parse_pid Decimal.parse_u64
    Decimal.parse_digits holds Decimal.digits join path_eq strip_prefix components terminate
resolves_lock = refl

list_children_iff_example : ((list_children one_holder (codes "/x") 0).0 ≡ ok two_children) ↔ (
    (fd : FilePath) × (v : ℕ) × (has_nul (codes "/x") ≡ false)
    × (◌≡◌ {A = Result FilePath ℕ × ℕ} (ok (codes "/x"), 1) (ok fd, v))
    × (◌≡◌ {A = Option ℕ} none none)
    × (◌≡◌ {A = Option ℕ} none none)
    × Lists one_holder v fd ((codes ".", 4) ∷ (codes "d", 4) ∷ (codes "f", 8) ∷ []) two_children)
list_children_iff_example = list_children_iff one_holder (codes "/x") 0 two_children

-- A file is busy until its holder is killed.
abbrev busy : Kernel
busy = record one_holder {
  unlinkat = λ fd name as_dir w. (if ltb w 100 then some 16 else none, w);
  kill = λ pid w. (true, w + 100);
}

abbrev busy_file : FileWorkItem
busy_file = record { path = codes "/x/f"; parent_dir_id = 0; size = 5; dispatch_as_dir = false }

busy_file_deleted :
    (process_one (linux_engine busy) busy_file kill_locks no_metrics 0).attempt.outcome ≡ deleted
unfolding process_one Delete.with_remote_locks Delete.with_local_locks
    Delete.delete_with_remediation Delete.base_delete delete_file unlink_leaf Ops.unlink_relative
    Paths.parent Paths.file_name open_dir_nofollow categorize resolve_local_lock find_holding_pids
    holders parse_pid Decimal.parse_u64 Decimal.parse_digits strip_prefix text_eq Decimal.digits
    holds path_eq terminate components join
busy_file_deleted = refl

process_one-Removes_example :
    (v : ℕ) × Tries (linux_engine busy) busy_file kill_locks 0 v
    × Removes busy
        (codes "/x/f")
        false
        v
        (process_one (linux_engine busy) busy_file kill_locks no_metrics 0).world
process_one-Removes_example =
    process_one-Removes busy busy_file kill_locks no_metrics 0 busy_file_deleted
