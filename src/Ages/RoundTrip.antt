-- ===== src/Ages/RoundTrip.antt =====
-- Ages that are printed and read again.
use cursedelete.Base.{
  ℕ, ◌*◌, ◌/◌, ◌%◌, ◌≤◌, ◌<◌, ◌≡◌, refl, ap, ◌∙◌, true, false, not, ◌&&◌, some, [], ◌∷◌, ◌++◌,
  arith, ◌==◌, if-split, is_empty, All, Text, text_eq, ascii_lower, ok, err,
}
use cursedelete.Base.Decimal.{digits, IsDigit, digits-IsDigit, is_empty-digits, is_empty-snoc}
use cursedelete.Ages.{
  AgeFloats, missing_unit, is_whitespace, trim_start, trim_end, trim, is_number_char, number_part,
  unit_part, seconds_per_unit, with_value, parse_age, nanos, display_secs, display_age,
}

-- A character that neither separates nor belongs to a number.
abbrev pub IsLetter : ℕ → Type 0
IsLetter c = (is_whitespace c ≡ false) × (is_number_char c ≡ false)

module _ (u : ℕ) (letter : IsLetter u) where
  pub trim_end-snoc : (s : Text) → All IsDigit s → trim_end (s ++ (u ∷ [])) ≡ s ++ (u ∷ [])
  unfolding trim_end
  trim_end-snoc [] h = ground (arith, letter)
  trim_end-snoc (c ∷ s) (d, ds) = rw (trim_end-snoc s ds) (ground arith)

  pub trim_start-snoc :
      (s : Text) → All IsDigit s → is_empty s ≡ false → trim_start (s ++ (u ∷ [])) ≡ s ++ (u ∷ [])
  unfolding trim_start
  trim_start-snoc [] h e = cc
  trim_start-snoc (c ∷ s) (d, ds) e = ground arith

  pub number_part-snoc : (s : Text) → All IsDigit s → number_part (s ++ (u ∷ [])) ≡ s
  unfolding number_part
  number_part-snoc [] h = ground (arith, letter)
  number_part-snoc (c ∷ s) (d, ds) = rw (number_part-snoc s ds) (ground arith)

  pub unit_part-snoc : (s : Text) → All IsDigit s → unit_part (s ++ (u ∷ [])) ≡ u ∷ []
  unfolding unit_part
  unit_part-snoc [] h = ground (arith, letter)
  unit_part-snoc (c ∷ s) (d, ds) = rw (unit_part-snoc s ds) (ground arith)

unit_part-number : (s : Text) → All (λ c. is_number_char c ≡ true) s → unit_part s ≡ []
unfolding unit_part
unit_part-number [] h = refl
unit_part-number (c ∷ s) (d, ds) = rw d (unit_part-number s ds)

-- A bare number, digits and points only, is refused for want of a unit, whatever number it is.
pub parse_age-bare :
    (Φ : AgeFloats) (s : Text)
    → is_empty (trim s) ≡ false
    → All (λ c. is_number_char c ≡ true) (trim s)
    → parse_age Φ s ≡ ok (err (missing_unit (trim s)))
unfolding parse_age
parse_age-bare Φ s e h = rw e (rw (unit_part-number (trim s) h) refl)

-- The floats are exact on whole numbers below 2 ^ 53, as IEEE 754 has it, and all of these fit a
-- duration.
abbrev pub exact_limit : ℕ
exact_limit = 9007199254740992

pub record IsExact (Φ : AgeFloats) : Type 0 where
  pub reads : (n : ℕ) → n < exact_limit → Φ.parse (digits n) ≡ some (Φ.literal n)
  pub a_number : (n : ℕ) → n < exact_limit → Φ.is_nan (Φ.literal n) ≡ false
  pub positive : (n : ℕ) → 0 < n → n < exact_limit → Φ.le_zero (Φ.literal n) ≡ false
  pub product :
      (m n : ℕ) → m * n < exact_limit → Φ.mul (Φ.literal m) (Φ.literal n) ≡ Φ.literal (m * n)
  pub finite : (n : ℕ) → n < exact_limit → Φ.is_finite (Φ.literal n) ≡ true
  pub in_range : (n : ℕ) → n < exact_limit → Φ.above_max (Φ.literal n) ≡ false
  pub converts : (n : ℕ) → n < exact_limit → Φ.from_secs (Φ.literal n) ≡ some (n * nanos)

module _ (Φ : AgeFloats) (x : IsExact Φ) where
  with_value-literal :
      (t : Text) (u n k : ℕ)
      → unit_part t ≡ u ∷ []
      → seconds_per_unit (ascii_lower u ∷ []) ≡ some k
      → 0 < n
      → n < exact_limit
      → n * k < exact_limit
      → with_value Φ t (some (Φ.literal n)) ≡ ok (ok ((n * k) * nanos))
  with_value-literal t u n k unit seconds pos small h = rw unit (
      rw seconds (
        rw (x.a_number n small) (
          rw (x.positive n pos small) (
            rw (x.product n k h) (
              rw (x.finite (n * k) h)
                (rw (x.in_range (n * k) h) (rw (x.converts (n * k) h) refl)))))))

  -- A whole number of a unit is read as so many seconds.
  parse_age-numeral :
      (u n k : ℕ)
      → IsLetter u
      → seconds_per_unit (ascii_lower u ∷ []) ≡ some k
      → 0 < n
      → n < exact_limit
      → n * k < exact_limit
      → parse_age Φ (digits n ++ (u ∷ [])) ≡ ok (ok ((n * k) * nanos))
  unfolding parse_age
  parse_age-numeral u n k letter unit pos small h =
      let d = digits-IsDigit n in
      let e = is_empty-digits n in
      let trimmed : trim (digits n ++ (u ∷ [])) ≡ digits n ++ (u ∷ []) =
        ap trim_end (trim_start-snoc u letter (digits n) d e)
        ∙ trim_end-snoc u letter (digits n) d in
      rw trimmed (
        rw (number_part-snoc u letter (digits n) d) (
          rw (unit_part-snoc u letter (digits n) d) (
            rw (is_empty-snoc (digits n) u) (
              rw e (
                rw (x.reads n small) (
                  with_value-literal (digits n ++ (u ∷ [])) u n k
                    (unit_part-snoc u letter (digits n) d) unit pos small h))))))

  -- The same from the seconds, for a unit that divides them.
  parse_age-unit :
      (u secs k n : ℕ)
      → IsLetter u
      → seconds_per_unit (ascii_lower u ∷ []) ≡ some k
      → n * k ≡ secs
      → 0 < n
      → n ≤ secs
      → secs < exact_limit
      → parse_age Φ (digits n ++ (u ∷ [])) ≡ ok (ok (secs * nanos))
  parse_age-unit u secs k n letter unit e pos le h =
      parse_age-numeral u n k letter unit pos (omega arith) (rw e h)
      ∙ ap (λ m. ok (ok (m * nanos))) e

  parse_age-display_secs :
      (secs : ℕ)
      → 0 < secs
      → secs % 60 ≡ 0
      → secs < exact_limit
      → parse_age Φ (display_secs secs) ≡ ok (ok (secs * nanos))
  unfolding seconds_per_unit text_eq
  parse_age-display_secs secs pos whole h =
      let Reads : Text → Type 0 = λ s. parse_age Φ s ≡ ok (ok (secs * nanos)) in
      if-split Reads ((secs % 604800 == 0) && not (secs == 0)) _ _
        (λ e.
          parse_age-unit b'w' secs 604800 (secs / 604800) (refl, refl) refl (ground arith)
            (ground arith) (ground arith) h)
        (λ e.
          if-split Reads ((secs % 86400 == 0) && not (secs == 0)) _ _
            (λ e.
              parse_age-unit b'd' secs 86400 (secs / 86400) (refl, refl) refl (ground arith)
                (ground arith) (ground arith) h)
            (λ e.
              if-split Reads ((secs % 3600 == 0) && not (secs == 0)) _ _
                (λ e.
                  parse_age-unit b'h' secs 3600 (secs / 3600) (refl, refl) refl (ground arith)
                    (ground arith) (ground arith) h)
                (λ e.
                  if-split Reads (secs % 60 == 0) _ _
                    (λ e.
                      parse_age-unit b'm' secs 60 (secs / 60) (refl, refl) refl (ground arith)
                        (ground arith) (ground arith) h)
                    (λ e. absurd (ground arith)))))

  -- Where the floats are exact, an age that is a whole number of minutes, at least one and below
  -- 2 ^ 53 seconds, reads back as itself from what is printed for it.
  pub parse_age-display_age :
      (minutes : ℕ)
      → 0 < minutes
      → minutes * 60 < exact_limit
      → parse_age Φ (display_age (minutes * 60 * nanos)) ≡ ok (ok (minutes * 60 * nanos))
  unfolding display_age
  parse_age-display_age minutes pos h =
      let secs : minutes * 60 * nanos / nanos ≡ minutes * 60 = omega arith in
      rw secs (parse_age-display_secs (minutes * 60) (omega arith) (omega arith) h)
