-- ===== src/CommandLine.antt =====
-- crates/cursdel-cli/src/main.rs, `run_delete`, with `Cli` of args.rs: from the arguments to the
-- exit code. Messages are left out. `launch` stands for the call of `pipeline::run`.
pub mod Arguments
pub mod Ready
use cursedelete.Base.{
  ℕ, Bool, true, false, not, ◌&&◌, Option, none, some, if◌then◌else◌, Text, FilePath, Result, ok,
  err, ◌>>=◌, ◌>>◌, map_err,
}
use cursedelete.Entry.{Duration, SystemTime}
use cursedelete.Failure.{TargetError}
use cursedelete.ExitCode.{ExitCode, invalid_args_or_target, license_required, cli_usage_error}
use cursedelete.Options.{Mode, normal, force, destroy, FilterSpec, OperationOptions}
use cursedelete.Workers.{parse_policy}
use cursedelete.Ages.{AgeError, AgePanic, AgeFloats, parse_age}
use cursedelete.Sizes.{SizeError, SizeFloats, parse_size}
use cursedelete.Filter.{Globs, FilterSet, parse_age_basis, build_with_reference_time}
use cursedelete.Report.{Summary, exit_code}
use cursedelete.License.Editions.{Edition}
use cursedelete.Policy
use cursedelete.Policy.{is_enabled}

-- `Cli`, without a subcommand; `license_file` is an argument of the edition.
pub record Cli : Type 0 where
  pub target : Option FilePath
  pub force : Bool
  pub destroy : Bool
  pub workers : Text
  pub age : Option Text
  pub age_by : Text
  pub include : Option Text
  pub exclude : Option Text
  pub min_size : Option Text
  pub max_size : Option Text
  pub kill_locks : Bool
  pub close_remote_locks : Bool
  pub dry_run : Bool
  pub json : Bool
  pub quiet : Bool
  pub verbose : Bool
  pub log : Option FilePath

-- Why no operation is started: an early return, or the panic of a parser.
pub data Stop : Type 0 where
  exits : ExitCode → Stop
  panics : AgePanic → Stop

abbrev pub usage_error {ℓ} : {E : Type ℓ} → E → Stop
usage_error e = exits cli_usage_error

abbrev pub target_of : Option FilePath → Result FilePath Stop
target_of none = err (exits cli_usage_error)
target_of (some t) = ok t

abbrev pub mode_of : Cli → Mode
mode_of cli = if cli.destroy then destroy else if cli.force then force else normal

abbrev pub checked_age : Result (Result Duration AgeError) AgePanic → Result (Option Duration) Stop
checked_age (ok (ok d)) = ok (some d)
checked_age (ok (err e)) = err (exits cli_usage_error)
checked_age (err p) = err (panics p)

abbrev pub age_of : AgeFloats → Option Text → Result (Option Duration) Stop
age_of Φ none = ok none
age_of Φ (some s) = checked_age (parse_age Φ s)

abbrev pub checked_size : Result ℕ SizeError → Result (Option ℕ) Stop
checked_size (ok n) = ok (some n)
checked_size (err e) = err (exits cli_usage_error)

abbrev pub size_of : SizeFloats → Option Text → Result (Option ℕ) Stop
size_of Ψ none = ok none
size_of Ψ (some s) = checked_size (parse_size Ψ s)

abbrev pub check_feature : Bool → Edition → Result (Unit {0}) Stop
check_feature close_remote_locks edition =
    if close_remote_locks && not (is_enabled Policy.close_remote_locks edition)
    then err (exits license_required)
    else ok tt

module _ (Φ : AgeFloats) (Ψ : SizeFloats) (G : Globs) where
  -- All of `run_delete` up to the call of `pipeline::run`, at the instant `now`.
  unfoldable pub prepare : Cli → Edition → SystemTime → Result (OperationOptions × FilterSet G) Stop
  prepare cli edition now = do
    target ← target_of cli.target
    workers ← map_err usage_error (parse_policy cli.workers)
    age ← age_of Φ cli.age
    age_basis ← map_err usage_error (parse_age_basis cli.age_by)
    min_size ← size_of Ψ cli.min_size
    max_size ← size_of Ψ cli.max_size
    check_feature cli.close_remote_locks edition
    let spec : FilterSpec = record {
      include = cli.include;
      exclude = cli.exclude;
      min_size = min_size;
      max_size = max_size;
      age = age;
      age_basis = age_basis;
    }
    filters ← map_err usage_error (build_with_reference_time G spec now)
    let options : OperationOptions = record {
      target = target;
      mode = mode_of cli;
      workers = workers;
      dry_run = cli.dry_run;
      kill_locks = cli.kill_locks;
      close_remote_locks = cli.close_remote_locks;
      filters = spec;
      json = cli.json;
      quiet = cli.quiet;
      verbose = cli.verbose;
      log_path = cli.log;
    }
    ok (options, filters)

  abbrev pub finished : Result Summary TargetError → ExitCode
  finished (ok summary) = exit_code summary
  finished (err e) = invalid_args_or_target

  abbrev pub launched :
      (OperationOptions → FilterSet G → Result Summary TargetError)
      → Result (OperationOptions × FilterSet G) Stop
      → Result ExitCode AgePanic
  launched launch (ok (options, filters)) = ok (finished (launch options filters))
  launched launch (err (exits code)) = ok code
  launched launch (err (panics p)) = err p

  unfoldable pub run_delete :
      (OperationOptions → FilterSet G → Result Summary TargetError)
      → Cli
      → Edition
      → SystemTime
      → Result ExitCode AgePanic
  run_delete launch cli edition now = launched launch (prepare cli edition now)
