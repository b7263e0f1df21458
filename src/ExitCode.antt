-- ===== src/ExitCode.antt =====
-- crates/cursdel-core/src/exit_code.rs: the numeric contract of the process.
use cursedelete.Base.{ℕ, ◌≡◌, arith}

pub data ExitCode : Type 0 where
  success : ExitCode
  invalid_args_or_target : ExitCode
  completed_with_failures : ExitCode
  privilege_requirement_not_satisfied : ExitCode
  lock_resolution_failed : ExitCode
  remote_lock_handling_failed : ExitCode
  interrupted : ExitCode
  license_required : ExitCode
  cli_usage_error : ExitCode
  unexpected_fatal : ExitCode

unfoldable pub code : ExitCode → ℕ
code success = 0
code invalid_args_or_target = 1
code completed_with_failures = 2
code privilege_requirement_not_satisfied = 3
code lock_resolution_failed = 4
code remote_lock_handling_failed = 5
code interrupted = 6
code license_required = 7
code cli_usage_error = 64
code unexpected_fatal = 99

-- Two exit codes with the same number are the same exit code.
pub code-injective : (a b : ExitCode) → code a ≡ code b → a ≡ b
unfolding code
code-injective a b h = ground arith
