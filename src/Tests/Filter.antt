-- ===== src/Tests/Filter.antt =====
-- The filters at fixed inputs.
use cursedelete.Base.{◌≤◌, ◌≡◌, refl, ◌↔◌, false, none, some, codes, text_eq}
use cursedelete.Tests.Worlds.{literal_globs}
use cursedelete.Entry.{DiscoveredEntry, file}
use cursedelete.Options.{FilterSpec, modified}
use cursedelete.Filter.{FilterSet, RetainReason, too_small, retain, delete, evaluate_file}
use cursedelete.Paths.{file_name}
use cursedelete.Filter.Laws.{Violates, rank, evaluate_file-retain_iff, evaluate_file-delete}

abbrev small_log : DiscoveredEntry
small_log = record {
  path = codes "/var/a.log";
  dir_id = none;
  parent_dir_id = some 0;
  kind = file;
  size = 10;
  times = record { modified = some 90; created = none; accessed = none };
  readonly = false;
}

abbrev two_criteria : FilterSet literal_globs
two_criteria = record {
  include = none;
  exclude = some (codes "b.log");
  min_size = some 20;
  max_size = none;
  age = some 30;
  age_basis = modified;
  reference_time = 100;
}

small_log_too_small : evaluate_file literal_globs two_criteria small_log ≡ retain too_small
unfolding evaluate_file file_name text_eq
small_log_too_small = refl

evaluate_file-delete_example :
    (evaluate_file literal_globs two_criteria small_log ≡ delete)
    ↔ ((r : RetainReason) → ¬ Violates literal_globs two_criteria small_log r)
evaluate_file-delete_example = evaluate_file-delete literal_globs two_criteria small_log

abbrev no_criteria : FilterSpec
no_criteria = record {
  include = none;
  exclude = none;
  min_size = none;
  max_size = none;
  age = none;
  age_basis = modified;
}

evaluate_file-retain_iff_example :
    (evaluate_file literal_globs two_criteria small_log ≡ retain too_small) ↔ (
      Violates literal_globs two_criteria small_log too_small
      × ((q : RetainReason)
          → Violates literal_globs two_criteria small_log q
          → rank literal_globs too_small ≤ rank literal_globs q))
evaluate_file-retain_iff_example =
    evaluate_file-retain_iff literal_globs two_criteria small_log too_small
