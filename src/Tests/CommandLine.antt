-- ===== src/Tests/CommandLine.antt =====
-- Command lines of `cursdel /t` with a few options, with and without a licence.
use cursedelete.Base.{
  ◌*◌, ◌≡◌, refl, ◌↔◌, true, false, none, some, [], ◌∷◌, codes, ok, err, text_eq,
}
use cursedelete.Ages.{
  nanos, parse_age, trim_end, trim_start, unit_part, number_part, seconds_per_unit,
}
use cursedelete.Sizes.{parse_size, bytes_per_unit}
use cursedelete.Workers.{parse_policy}
use cursedelete.Base.Decimal
use cursedelete.Policy.{is_enabled}
use cursedelete.Failure.{empty_path}
use cursedelete.Options.{force, fixed, modified, OperationOptions}
use cursedelete.Filter.{FilterSet, build_with_reference_time, parse_age_basis}
use cursedelete.License.Editions.{business}
use cursedelete.License.Resolve.{resolve, edition}
use cursedelete.CommandLine.{Cli, prepare, run_delete}
use cursedelete.CommandLine.Ready.{IsReady, prepare_iff, IsRefused, run_delete-IsRefused}
use cursedelete.Tests.Worlds.{literal_globs}
use cursedelete.Tests.Numbers
use cursedelete.Tests.Sizes
use cursedelete.Tests.License.{toy, local, business_file}
use cursedelete.Tests.Store.{this_policy, this_policy_built}

abbrev forced : Cli
forced = record {
  target = some (codes "/t");
  force = true;
  destroy = false;
  workers = codes "4";
  age = some (codes "2h");
  age_by = codes "modified";
  include = none;
  exclude = none;
  min_size = some (codes "3k");
  max_size = none;
  kill_locks = false;
  close_remote_locks = true;
  dry_run = true;
  json = false;
  quiet = false;
  verbose = false;
  log = none;
}

abbrev forced_options : OperationOptions
forced_options = record {
  target = codes "/t";
  mode = force;
  workers = fixed 4;
  dry_run = true;
  kill_locks = false;
  close_remote_locks = true;
  filters = record {
    include = none;
    exclude = none;
    min_size = some 3072;
    max_size = none;
    age = some (7200 * nanos);
    age_basis = modified;
  };
  json = false;
  quiet = false;
  verbose = false;
  log_path = none;
}

abbrev forced_filters : FilterSet literal_globs
forced_filters = record {
  include = none;
  exclude = none;
  min_size = some 3072;
  max_size = none;
  age = some (7200 * nanos);
  age_basis = modified;
  reference_time = 9;
}

-- A Business licence starts the operation, and no licence ends it.
forced_business :
    prepare Numbers.whole Sizes.whole literal_globs forced business 9
    ≡ ok (forced_options, forced_filters)
unfolding prepare parse_policy text_eq Decimal.parse_u64 Decimal.parse_digits parse_age trim_end
    trim_start unit_part number_part seconds_per_unit parse_age_basis parse_size bytes_per_unit
    is_enabled build_with_reference_time
forced_business = refl

prepare_iff_example :
    (prepare Numbers.whole Sizes.whole literal_globs forced business 9
      ≡ ok (forced_options, forced_filters))
    ↔ IsReady Numbers.whole Sizes.whole literal_globs forced business 9 forced_options
        forced_filters
prepare_iff_example =
    prepare_iff Numbers.whole Sizes.whole literal_globs forced business 9 forced_options
      forced_filters

run_delete-IsRefused_example : IsRefused (
    run_delete Numbers.whole Sizes.whole literal_globs
      (λ o f. err empty_path)
      forced
      (edition toy (resolve toy this_policy local 20 (business_file ∷ [])))
      9)
run_delete-IsRefused_example =
    run_delete-IsRefused Numbers.whole Sizes.whole literal_globs toy 2 this_policy local 20
      (business_file ∷ []) (λ o f. err empty_path) forced 9 this_policy_built refl
