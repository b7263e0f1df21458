-- ===== src/Tests/Sizes.antt =====
-- Sizes and counts as they are read and printed, at fixed inputs.
use cursedelete.Base.{
  ℕ, ◌*◌, ◌/◌, ◌≡◌, refl, some, [], ◌∷◌, ◌++◌, arith, codes, text_eq, ascii_lower, ok,
}
use cursedelete.Base.Decimal.{digits, parse_u64, parse_u64-digits}
use cursedelete.Base.Decimal
use cursedelete.Sizes.{SizeFloats, bytes_per_unit, parse_size, kib}
use cursedelete.Sizes.RoundTrip.{IsExactSize, parse_size-unit}
use cursedelete.Report.Rendering.{format_count, grouped}

-- Whole numbers in place of floats.
abbrev pub whole : SizeFloats
whole = record {
  F = ℕ;
  parse = parse_u64;
  literal = λ n. n;
  of_u64 = λ n. n;
  mul = λ m n. m * n;
  div = λ m n. m / n;
  to_u64 = λ n. n;
  two_places = digits;
}

whole-IsExactSize : IsExactSize whole
whole-IsExactSize = record {
  reads = λ n h. parse_u64-digits n (omega arith);
  product = λ m n h. refl;
  rounds = λ n h. refl;
}

letter_k : bytes_per_unit (ascii_lower b'K' ∷ []) ≡ some kib
unfolding bytes_per_unit text_eq
letter_k = refl

reads_64k : parse_size whole (digits 64 ++ (b'K' ∷ [])) ≡ ok (64 * 1024)
reads_64k =
    parse_size-unit whole whole-IsExactSize b'K' 64 1024 (refl, refl) letter_k (omega arith)
      (omega arith)

counted : format_count 4821992 ≡ codes "4,821,992"
unfolding format_count grouped digits Decimal.digits_on
counted = refl
