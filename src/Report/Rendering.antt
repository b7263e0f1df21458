-- ===== src/Report/Rendering.antt =====
-- crates/cursdel-core/src/report.rs: how a summary is written as text, and as the record behind
-- `--json`. `f64` is the parameter `ReportFloats`.
use cursedelete.Base.{
  ℕ, ◌/◌, ◌%◌, ◌≡◌, refl, ◌≢◌, Bool, true, false, not, ◌&&◌, ◌||◌, List, [], ◌∷◌, ◌++◌, arith, ltb,
  ◌==◌, if◌then◌else◌, if-split, length, is_empty, All, Text, codes, u64_mod,
}
use cursedelete.Base.Decimal.{digits, IsDigit, digits-IsDigit}
use cursedelete.Entry.{Duration}
use cursedelete.Options.{as_str, WorkerPolicy, auto, fixed}
use cursedelete.Metrics.{Metrics}
use cursedelete.Failure.{DeleteFailure}
use cursedelete.ExitCode.{code}
use cursedelete.Report.{Summary, exit_code}

-- `one_place` is the format `{:.1}`, `round_u64` is `round` followed by the cast.
pub record ReportFloats : Type 1 where
  pub F : Type 0
  pub of_u64 : ℕ → F
  pub as_secs : Duration → F
  pub div : F → F → F
  pub le_zero : F → Bool
  pub le : F → F → Bool
  pub one_place : F → Text
  pub round_u64 : F → ℕ

abbrev pub comma_before : Bool → ℕ → Bool
comma_before first remaining = not first && (remaining % 3 == 0)

-- The digits from some position on, with the separators before them.
unfoldable pub grouped : Bool → Text → Text
grouped first [] = []
grouped first (c ∷ s) =
    let rest = c ∷ grouped false s in
    if comma_before first (length (c ∷ s)) then b',' ∷ rest else rest

unfoldable pub format_count : ℕ → Text
format_count n = grouped true (digits n)

-- `{:02}`
abbrev pub two_digits : ℕ → Text
two_digits n = if ltb n 10 then b'0' ∷ digits n else digits n

abbrev pub nanos : ℕ
nanos = 1000000000

unfoldable pub format_elapsed : Duration → Text
format_elapsed d =
    let total = d / nanos in
    two_digits (total / 3600)
    ++ (b':' ∷ (two_digits (total % 3600 / 60) ++ (b':' ∷ two_digits (total % 60))))

abbrev pub enabled_str : Bool → Text
enabled_str true = codes "enabled"
enabled_str false = codes "disabled"

abbrev pub format_workers : WorkerPolicy → ℕ → Text
format_workers auto actual = codes "auto -> " ++ digits actual
format_workers (fixed n) actual = digits n

abbrev line : Text → Text → Text
line label value = label ++ value ++ codes "\n"

abbrev when : Bool → Text → Text
when true t = t
when false t = []

module _ (Φ : ReportFloats) where
  abbrev in_units : ℕ → ℕ → Text → Text
  in_units bytes threshold name =
      Φ.one_place (Φ.div (Φ.of_u64 bytes) (Φ.of_u64 threshold)) ++ (b' ' ∷ name)

  abbrev reaches : ℕ → ℕ → Bool
  reaches bytes threshold = Φ.le (Φ.of_u64 threshold) (Φ.of_u64 bytes)

  unfoldable pub format_bytes_human : ℕ → Text
  format_bytes_human bytes =
      if reaches bytes 1099511627776
      then in_units bytes 1099511627776 (codes "TB")
      else if reaches bytes 1073741824
      then in_units bytes 1073741824 (codes "GB")
      else if reaches bytes 1048576
      then in_units bytes 1048576 (codes "MB")
      else if reaches bytes 1024
      then in_units bytes 1024 (codes "KB")
      else in_units bytes 1 (codes "B")

  unfoldable pub format_rate : ℕ → Duration → Text
  format_rate files elapsed =
      if Φ.le_zero (Φ.as_secs elapsed)
      then codes "n/a"
      else format_count (Φ.round_u64 (Φ.div (Φ.of_u64 files) (Φ.as_secs elapsed)))
        ++ codes " files/sec"

  abbrev heading : Summary → Text
  heading s =
      codes "CurseDelete 2\n\n"
      ++ line (codes "Target:       ") s.target
      ++ line (codes "Mode:         ") (as_str s.mode ++ when s.dry_run (codes " (dry-run)"))
      ++ line (codes "Workers:      ") (format_workers s.workers_requested s.workers_final)
      ++ line (codes "ACL repair:   ") (enabled_str s.acl_repair_enabled)
      ++ line (codes "Kill locks:   ") (enabled_str s.kill_locks_enabled)
      ++ line (codes "Remote locks: ") (enabled_str s.remote_locks_enabled)
      ++ codes "\n"

  abbrev dry_run_text : Summary → Text
  dry_run_text s =
      line (codes "Files scanned:       ") (format_count s.metrics.files_scanned)
      ++ line (codes "Directories scanned: ") (format_count s.metrics.dirs_scanned)
      ++ codes "\nWould delete:\n"
      ++ line (codes "  Files:             ") (format_count s.metrics.files_deleted)
      ++ line (codes "  Directories:       ") (format_count s.metrics.dirs_deleted)
      ++ line (codes "  Data:              ") (format_bytes_human s.metrics.bytes_deleted)
      ++ codes "\nWould retain:\n"
      ++ line (codes "  Files:             ") (format_count s.metrics.files_retained)
      ++ line (codes "  Directories:       ") (format_count s.metrics.dirs_retained)
      ++ codes "\n"
      ++ when (not (is_empty s.failures))
          (codes "Scan failures:       " ++ format_count (length s.failures) ++ codes "\n\n")
      ++ codes "No files were modified.\n"

  abbrev retained_line : Metrics → Text
  retained_line m =
      codes "Retained:       "
      ++ format_count m.files_retained
      ++ codes " files, "
      ++ format_count m.dirs_retained
      ++ codes " directories\n"

  abbrev closing : Summary → Text
  closing s =
      if s.was_interrupted
      then codes "Interrupted -- partial results reported above.\n"
      else if not (is_empty s.failures)
      then codes "Completed with failures.\n"
      else codes "Complete.\n"

  abbrev results_text : Summary → Text
  results_text s =
      line (codes "Files:          ") (format_count s.metrics.files_deleted)
      ++ line (codes "Directories:    ") (format_count s.metrics.dirs_deleted)
      ++ when (ltb 0 s.metrics.files_retained || ltb 0 s.metrics.dirs_retained)
          (retained_line s.metrics)
      ++ line (codes "Deleted:        ") (format_bytes_human s.metrics.bytes_deleted)
      ++ line (codes "Failures:       ") (
          format_count s.metrics.failures
          ++ when s.failures_truncated (codes " (detail truncated, see --log)"))
      ++ line (codes "Elapsed:        ") (format_elapsed s.elapsed)
      ++ line (codes "Rate:           ") (format_rate s.metrics.files_deleted s.elapsed)
      ++ codes "\n"
      ++ closing s

  -- `to_text`; the target is shown as it is.
  unfoldable pub to_text : Summary → Text
  to_text s = heading s ++ (if s.dry_run then dry_run_text s else results_text s)

pub record JsonReport : Type 0 where
  pub schema_version : ℕ
  pub target : Text
  pub mode : Text
  pub dry_run : Bool
  pub workers_requested : Text
  pub workers_final : ℕ
  pub acl_repair_enabled : Bool
  pub kill_locks_enabled : Bool
  pub remote_locks_enabled : Bool
  pub elapsed_ms : ℕ
  pub was_interrupted : Bool
  pub metrics : Metrics
  pub failures : List DeleteFailure
  pub failures_truncated : Bool
  pub exit_code : ℕ

abbrev requested : WorkerPolicy → Text
requested auto = codes "auto"
requested (fixed n) = digits n

unfoldable pub to_json : Summary → JsonReport
unfolding exit_code
to_json s = record {
  schema_version = 1;
  target = s.target;
  mode = as_str s.mode;
  dry_run = s.dry_run;
  workers_requested = requested s.workers_requested;
  workers_final = s.workers_final;
  acl_repair_enabled = s.acl_repair_enabled;
  kill_locks_enabled = s.kill_locks_enabled;
  remote_locks_enabled = s.remote_locks_enabled;
  elapsed_ms = s.elapsed / 1000000 % u64_mod;
  was_interrupted = s.was_interrupted;
  metrics = s.metrics;
  failures = s.failures;
  failures_truncated = s.failures_truncated;
  exit_code = code (exit_code s);
}

-- The text less its commas.
unfoldable pub without_commas : Text → Text
without_commas [] = []
without_commas (c ∷ s) = let rest = without_commas s in if c == b',' then rest else c ∷ rest

-- Behind every comma the number of digits is a multiple of three.
abbrev pub InThrees : Text → Type 0
InThrees [] = Unit
InThrees (c ∷ s) = (c ≡ b',' → length (without_commas s) % 3 ≡ 0) × InThrees s

without_commas-grouped :
    (first : Bool) (s : Text) → All IsDigit s → without_commas (grouped first s) ≡ s
unfolding without_commas grouped
without_commas-grouped first [] h = refl
without_commas-grouped first (c ∷ s) (d, ds) = ground (arith, without_commas-grouped false s ds, d)

without_commas-digit :
    (c : ℕ) (s : Text)
    → IsDigit c
    → without_commas (c ∷ grouped false s) ≡ c ∷ without_commas (grouped false s)
unfolding without_commas
without_commas-digit c s d = ground (arith, d)

grouped-InThrees : (first : Bool) (s : Text) → All IsDigit s → InThrees (grouped first s)
unfolding grouped
grouped-InThrees first [] h = tt
grouped-InThrees first (c ∷ s) (d, ds) =
    let rest = grouped-InThrees false s ds in
    let digit : c ≢ b',' = λ e. ground (arith, d) in
    if-split InThrees (comma_before first (length (c ∷ s))) _ _
      (λ b. (
        (λ e.
            rw (without_commas-digit c s d)
              (rw (without_commas-grouped false s ds) (ground (arith, b)))),
        ((λ e. absurd (digit e)), rest),
      ))
      (λ b. ((λ e. absurd (digit e)), rest))

-- A count is written with the digits of its numeral, in order, and behind every comma the number of
-- digits is a multiple of three.
format_count-InThrees :
    (n : ℕ) → (without_commas (format_count n) ≡ digits n) × InThrees (format_count n)
unfolding format_count
format_count-InThrees n = (
  without_commas-grouped true (digits n) (digits-IsDigit n),
  grouped-InThrees true (digits n) (digits-IsDigit n),
)
