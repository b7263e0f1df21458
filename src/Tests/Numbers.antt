-- ===== src/Tests/Numbers.antt =====
-- Policies and ages that are printed and read, at fixed inputs.
use cursedelete.Base.{
  ℕ, ◌*◌, ◌≡◌, refl, true, false, none, some, arith, ltb, leb, ◌==◌, if◌then◌else◌, codes, text_eq,
  u64_mod, ok,
}
use cursedelete.Base.Decimal
use cursedelete.Base.Decimal.{digits, parse_u64, parse_u64-digits}
use cursedelete.Options.{auto, fixed}
use cursedelete.Workers.{Workers, parse_policy, workers_of}
use cursedelete.Ages.{AgeFloats, trim_start, trim_end, parse_age, nanos, display_age}
use cursedelete.Ages.RoundTrip.{IsExact, parse_age-display_age}

reads_64 : parse_policy (codes "64") ≡ ok (fixed 64)
unfolding parse_policy parse_u64 Decimal.parse_digits text_eq
reads_64 = refl

abbrev eight_cores : Workers
eight_cores = workers_of 8 auto

-- Whole numbers for floats: exact, and out of range from 2 ^ 64 on.
abbrev pub whole : AgeFloats
whole = record {
  F = ℕ;
  parse = parse_u64;
  literal = λ n. n;
  is_nan = λ n. false;
  le_zero = λ n. n == 0;
  mul = λ a b. a * b;
  is_finite = λ n. true;
  above_max = λ n. leb u64_mod n;
  from_secs = λ n. if ltb n u64_mod then some (n * nanos) else none;
}

whole-IsExact : IsExact whole
whole-IsExact = record {
  reads = λ n h. parse_u64-digits n (omega arith);
  a_number = λ n h. refl;
  positive = λ n p h. ground arith;
  product = λ m n h. refl;
  finite = λ n h. refl;
  in_range = λ n h. ground arith;
  converts = λ n h. ground arith;
}

parse_age-display_age_example :
    parse_age whole (display_age (2880 * 60 * nanos)) ≡ ok (ok (2880 * 60 * nanos))
parse_age-display_age_example =
    parse_age-display_age whole whole-IsExact 2880 (omega arith) (omega arith)

-- Two days are printed as such.
prints_two_days : display_age (2880 * 60 * nanos) ≡ codes "2d"
unfolding display_age digits Decimal.digits_on
prints_two_days = refl

trimmed_two : trim_end (trim_start (codes " 2 ")) ≡ codes "2"
unfolding trim_start trim_end
trimmed_two = refl
