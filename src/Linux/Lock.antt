-- ===== src/Linux/Lock.antt =====
-- crates/cursdel-linux/src/lock.rs: the processes that hold a file open, found in /proc, and their
-- termination. A scan sees the world as it is when it starts.
use cursedelete.Base.{
  ℕ, Bool, true, false, not, ◌&&◌, ◌||◌, Option, none, some, List, [], ◌∷◌, ◌++◌, leb, ltb, ◌==◌,
  if◌then◌else◌, is_empty, any, is_some_and, Text, FilePath, codes, text_eq, split, join_with,
  strip_prefix, Result, ok, err,
}
use mathlib.Core.List.{reverse}
use cursedelete.Base.Decimal.{is_digit, digits, parse_u64}
use cursedelete.Ages.{is_whitespace, trim_start}
use cursedelete.Paths.{components, starts_with_slash, join}
use cursedelete.Options.{DeleteOptions}
use cursedelete.Engine.{LockResolution, resolved, unsupported}
use cursedelete.Linux.Kernel.{Kernel}

-- `str::split_whitespace`
abbrev pub without_empty : List Text → List Text
without_empty [] = []
without_empty (w ∷ ws) = let rest = without_empty ws in if is_empty w then rest else w ∷ rest

abbrev pub words : Text → List Text
words s = without_empty (split is_whitespace s)

-- What stands behind the last such character, as `rfind` finds it.
unfoldable pub after_last : ℕ → Text → Option Text
after_last c [] = none
after_last c (x ∷ s) = elim (after_last c s) [
  | some r ↦ some r
  | none ↦ if x == c then some s else none
]

-- A numeral that an `i32` parser reads as this number, which is not negative.
abbrev pub reads_as : ℕ → Text → Bool
reads_as n s = is_some_and (λ m. m == n) (parse_u64 s)

abbrev pub second_is_two : List Text → Bool
second_is_two [] = false
second_is_two (w ∷ []) = false
second_is_two (w ∷ v ∷ ws) = reads_as 2 v

-- The parent process that a text of /proc/[pid]/stat names is `kthreadd`.
unfoldable pub is_kernel_stat : Text → Bool
is_kernel_stat stat = is_some_and (λ r. second_is_two (words (trim_start r))) (after_last b')' stat)

abbrev pub all_digits : Text → Bool
all_digits [] = true
all_digits (c ∷ s) = is_digit c && all_digits s

abbrev pub i32_limit : ℕ
i32_limit = 2147483648

abbrev pub in_i32 : Option ℕ → Option ℕ
in_i32 none = none
in_i32 (some n) = if ltb n i32_limit then some n else none

unfoldable pub parse_pid : Text → Option ℕ
parse_pid s = if is_empty s || not (all_digits s) then none else in_i32 (parse_u64 s)

abbrev pub unmarked : FilePath → Option Text → FilePath
unmarked t none = t
unmarked t (some r) = reverse r

-- `strip_suffix(b" (deleted)")`, where there is such a suffix.
abbrev pub strip_deleted : FilePath → FilePath
strip_deleted t = unmarked t (strip_prefix (reverse (codes " (deleted)")) (reverse t))

abbrev pub texts_eq : List Text → List Text → Bool
texts_eq [] [] = true
texts_eq (s ∷ ss) (t ∷ ts) = text_eq s t && texts_eq ss ts
texts_eq _ _ = false

abbrev pub same_bool : Bool → Bool → Bool
same_bool true b = b
same_bool false b = not b

-- `==` on paths
unfoldable pub path_eq : FilePath → FilePath → Bool
path_eq p q =
    same_bool (starts_with_slash p) (starts_with_slash q) && texts_eq (components p) (components q)

abbrev pub fd_target_matches : FilePath → FilePath → Bool
fd_target_matches target canonical = path_eq (strip_deleted target) canonical

abbrev pub proc_path : ℕ → Text → FilePath
proc_path pid file = codes "/proc/" ++ digits pid ++ file

abbrev pub numerals : List ℕ → List Text
numerals [] = []
numerals (n ∷ ns) = digits n ∷ numerals ns

-- `{pids:?}`
abbrev pub debug_pids : List ℕ → Text
debug_pids pids = codes "[" ++ join_with (codes ", ") (numerals pids) ++ codes "]"

module _ (K : Kernel) where
  abbrev pub is_kernel_thread : K.World → ℕ → Bool
  is_kernel_thread w pid =
      is_some_and is_kernel_stat (K.read_to_string w (proc_path pid (codes "/stat")))

  -- The loop over the descriptors of one process, with its `break`.
  abbrev pub some_fd_matches : K.World → FilePath → FilePath → List Text → Bool
  some_fd_matches w target folder names =
      any (λ n. is_some_and (λ t. fd_target_matches t target) (K.read_link w (join folder n))) names

  abbrev pub fds_match : K.World → FilePath → FilePath → Result (List Text) Text → Bool
  fds_match w target folder (err e) = false
  fds_match w target folder (ok names) = some_fd_matches w target folder names

  unfoldable pub holds : K.World → FilePath → ℕ → Bool
  holds w target pid =
      let folder = proc_path pid (codes "/fd") in
      not (is_kernel_thread w pid) && fds_match w target folder (K.read_dir w folder)

  abbrev pub holder_of : K.World → FilePath → Option ℕ → Option ℕ
  holder_of w target none = none
  holder_of w target (some pid) = if holds w target pid then some pid else none

  unfoldable pub holders : K.World → FilePath → List Text → List ℕ
  holders w target [] = []
  holders w target (name ∷ names) = elim (holder_of w target (parse_pid name)) [
    | some pid ↦ pid ∷ holders w target names
    | none ↦ holders w target names
  ]

  -- `canonicalize(path).unwrap_or_else(..)`
  abbrev pub canonical_target : K.World → FilePath → FilePath
  canonical_target w path = elim (K.canonicalize w path) [ some p ↦ p | none ↦ path ]

  abbrev pub found : K.World → FilePath → Result (List Text) Text → Result (List ℕ) Text
  found w target (err e) = err (codes "could not read /proc to identify lock holders: " ++ e)
  found w target (ok names) = ok (holders w target names)

  unfoldable pub find_holding_pids : K.World → FilePath → Result (List ℕ) Text
  find_holding_pids w path = found w (canonical_target w path) (K.read_dir w (codes "/proc"))

  abbrev pub is_protected_pid : ℕ → Bool
  is_protected_pid pid = leb pid 2 || (pid == K.process_id)

  -- The two flags of the loop that terminates, and the world.
  pub record Sweep : Type 0 where
    pub terminated_any : Bool
    pub all_protected : Bool
    pub world : K.World

  abbrev pub after_kill : Sweep → Bool × K.World → Sweep
  after_kill s (done, w) = record {
    terminated_any = s.terminated_any || done;
    all_protected = false;
    world = w;
  }

  unfoldable pub terminate : List ℕ → Sweep → Sweep
  terminate [] s = s
  terminate (pid ∷ pids) s =
      terminate pids (if is_protected_pid pid then s else after_kill s (K.kill pid s.world))

  abbrev pub swept : List ℕ → Sweep → LockResolution × K.World
  swept pids s =
      if s.all_protected
      then (
        LockResolution.failed (
            codes "file is held open only by protected processes ("
            ++ debug_pids pids
            ++ codes "); refusing to terminate"),
        s.world,
      )
      else if not s.terminated_any
      then (
        LockResolution.failed (
            codes "failed to terminate any process holding the file open ("
            ++ debug_pids pids
            ++ codes ")"),
        s.world,
      )
      else (resolved, K.sleep 200000000 s.world)

  abbrev pub resolve_found : Result (List ℕ) Text → K.World → LockResolution × K.World
  resolve_found (err msg) w = (unsupported msg, w)
  resolve_found (ok pids) w =
      if is_empty pids
      then (
        LockResolution.failed (
            codes
              "delete failed with a sharing/busy error but no process could be identified as holding the file open"),
        w,
      )
      else swept pids
          (terminate pids (record { terminated_any = false; all_protected = true; world = w }))

  unfoldable pub resolve_local_lock : FilePath → DeleteOptions → K.World → LockResolution × K.World
  resolve_local_lock path opts w =
      if not opts.kill_locks
      then (unsupported (codes "--kill-locks was not enabled"), w)
      else resolve_found (find_holding_pids w path) w

  abbrev pub resolve_remote_lock : FilePath → DeleteOptions → K.World → LockResolution × K.World
  resolve_remote_lock path opts w = (
    unsupported (
        codes
          "remote SMB open administration is only implemented for supported Windows file servers"),
    w,
  )
