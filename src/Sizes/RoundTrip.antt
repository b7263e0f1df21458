-- ===== src/Sizes/RoundTrip.antt =====
-- Sizes that are written as a whole number of a unit.
use cursedelete.Base.{
  ℕ, ◌*◌, ◌<◌, ◌≡◌, ap, ◌∙◌, false, some, [], ◌∷◌, ◌++◌, arith, is_empty, All, Text, ascii_lower,
  ok,
}
use cursedelete.Base.Decimal.{digits, IsDigit, digits-IsDigit, is_empty-digits, is_empty-snoc}
use cursedelete.Ages.{trim, trim_end}
use cursedelete.Ages.RoundTrip.{
  exact_limit, IsLetter, trim_start-snoc, trim_end-snoc, number_part-snoc, unit_part-snoc,
}
use cursedelete.Sizes.{SizeFloats, starts_with_minus, bytes_per_unit, parse_size}

-- The floats are exact on whole numbers below 2 ^ 53.
pub record IsExactSize (Φ : SizeFloats) : Type 0 where
  pub reads : (n : ℕ) → n < exact_limit → Φ.parse (digits n) ≡ some (Φ.literal n)
  pub product :
      (m n : ℕ) → m * n < exact_limit → Φ.mul (Φ.literal m) (Φ.literal n) ≡ Φ.literal (m * n)
  pub rounds : (n : ℕ) → n < exact_limit → Φ.to_u64 (Φ.literal n) ≡ n

no_minus : (s t : Text) → All IsDigit s → is_empty s ≡ false → starts_with_minus (s ++ t) ≡ false
no_minus [] t h e = cc
no_minus (c ∷ s) t (d, ds) e = ground arith

-- Where the floats are exact, a whole number followed by the letter of a unit is read as so many of that
-- unit, if the bytes are below 2^53.
pub parse_size-unit :
    (Φ : SizeFloats) (x : IsExactSize Φ) (u n k : ℕ)
    → IsLetter u
    → bytes_per_unit (ascii_lower u ∷ []) ≡ some k
    → n < exact_limit
    → n * k < exact_limit
    → parse_size Φ (digits n ++ (u ∷ [])) ≡ ok (n * k)
unfolding parse_size
parse_size-unit Φ x u n k letter unit small h =
    let d = digits-IsDigit n in
    let e = is_empty-digits n in
    let trimmed : trim (digits n ++ (u ∷ [])) ≡ digits n ++ (u ∷ []) =
      ap trim_end (trim_start-snoc u letter (digits n) d e) ∙ trim_end-snoc u letter (digits n) d in
    rw trimmed (
      rw (is_empty-snoc (digits n) u) (
        rw (no_minus (digits n) (u ∷ []) d e) (
          rw (number_part-snoc u letter (digits n) d) (
            rw e (
              rw (x.reads n small) (
                rw (unit_part-snoc u letter (digits n) d)
                  (rw unit (rw (x.product n k h) (ap ok (x.rounds (n * k) h))))))))))
