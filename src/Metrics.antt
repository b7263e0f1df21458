-- ===== src/Metrics.antt =====
-- crates/cursdel-core/src/metrics.rs: the counters of a run. Each is a `u64` that wraps.
use cursedelete.Base.{ℕ, ◌-◌, max, add64}
use cursedelete.Entry.{Duration, SystemTime}

-- `OperationMetrics`, and the `OperationMetricsSnapshot` that is taken of it at the end.
pub record Metrics : Type 0 where
  pub files_scanned : ℕ
  pub dirs_scanned : ℕ
  pub files_deleted : ℕ
  pub dirs_deleted : ℕ
  pub files_retained : ℕ
  pub dirs_retained : ℕ
  pub bytes_deleted : ℕ
  pub failures : ℕ
  pub remediation_attempts : ℕ
  pub remediation_successes : ℕ
  pub local_locks_resolved : ℕ
  pub remote_locks_resolved : ℕ
  pub retries : ℕ

abbrev pub no_metrics : Metrics
no_metrics = record {
  files_scanned = 0;
  dirs_scanned = 0;
  files_deleted = 0;
  dirs_deleted = 0;
  files_retained = 0;
  dirs_retained = 0;
  bytes_deleted = 0;
  failures = 0;
  remediation_attempts = 0;
  remediation_successes = 0;
  local_locks_resolved = 0;
  remote_locks_resolved = 0;
  retries = 0;
}

-- `WindowSampler`: the counters of one sampling window.
pub record WindowSampler : Type 0 where
  pub completed : ℕ
  pub errors : ℕ
  pub window_start : SystemTime

pub record WindowStats : Type 0 where
  pub completed : ℕ
  pub errors : ℕ
  pub wall_elapsed : Duration

abbrev pub record_success : WindowSampler → WindowSampler
record_success w = record w { completed = add64 w.completed 1 }

abbrev pub record_error : WindowSampler → WindowSampler
record_error w = record w { errors = add64 w.errors 1 }

-- `take_window` at the instant `now`: the counters are drained and the window restarts.
abbrev pub take_window : SystemTime → WindowSampler → WindowStats × WindowSampler
take_window now w = (
  record {
    completed = w.completed;
    errors = w.errors;
    wall_elapsed = max (now - w.window_start) 1_000_000;
  },
  record { completed = 0; errors = 0; window_start = now },
)
