-- ===== src/Tests/Worlds.antt =====
-- Stand-ins for what the development takes as parameters: a glob engine, floating point numbers, a
-- platform engine and a file system.
use cursedelete.Base.{
  ℕ, ◌-◌, ◌*◌, ◌/◌, Bool, true, false, some, ltb, leb, if◌then◌else◌, is_empty, Text, FilePath,
  codes, text_eq, ok, err,
}
use cursedelete.Failure.{DeleteFailure, sharing_violation}
use cursedelete.Engine.{
  PlatformEngine, DeleteAttempt, deleted, failed_attempt, applied, not_applicable, resolved,
}
use cursedelete.Engine
use cursedelete.Filter.{Globs}
use cursedelete.Adaptive.{Floats}
use cursedelete.Target.Validate.{Fs}

-- A pattern matches itself; the empty pattern does not compile.
abbrev pub literal_globs : Globs
literal_globs = record {
  Matcher = Text;
  Error = Text;
  compile = λ p. if is_empty p then err p else ok p;
  is_match = λ m n. text_eq m n;
}

-- Hundredths, rounded down.
abbrev pub hundredths : Floats
hundredths = record {
  F = ℕ;
  of_u64 = λ n. n;
  as_secs = λ d. d / 1_000_000_000;
  fdiv = λ a b. a * 100 / b;
  fsub = λ a b. a - b;
  fle = λ a b. leb a b;
  flt = λ a b. ltb a b;
  zero_f = 0;
  epsilon = 0;
  improve_threshold = 5;
  minus_improve_threshold = 0;
  error_rate_backoff = 15;
}

abbrev pub locked_failure : FilePath → DeleteFailure
locked_failure path = record {
  path = path;
  is_directory = false;
  category = sharing_violation;
  message = codes "locked";
  os_error_code = some 16;
}

abbrev attempt_on : Bool → FilePath → DeleteAttempt
attempt_on true path = failed_attempt (locked_failure path)
attempt_on false path = record { outcome = deleted; bytes = 0 }

-- Everything is locked until the local lock is resolved.
abbrev pub lockable : PlatformEngine
lockable = record {
  World = Bool;
  delete_file = λ path opts w. (attempt_on w path, w);
  delete_dir = λ path opts w. (attempt_on w path, w);
  remediate = λ path is_dir f opts w. (not_applicable, w);
  resolve_local_lock = λ path opts w. (resolved, false);
  resolve_remote_lock = λ path opts w. (Engine.LockResolution.unsupported (codes "no"), w);
}

-- Every path is a directory that is its own canonical path.
abbrev pub plain_fs : Fs
plain_fs = record {
  windows = false;
  current_dir = ok (codes "/home");
  symlink_metadata = λ p. ok (record { is_symlink = false; is_dir = true; file_attributes = 16 });
  canonical_path = λ p. ok p;
}
