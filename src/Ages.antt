-- ===== src/Ages.antt =====
-- crates/cursdel-core/src/duration.rs: the ages of `--age`. A text is its list of code points, since
-- the source looks at whole characters. The operations of `f64` are the parameter `AgeFloats`.
pub mod RoundTrip
use cursedelete.Base.{
  ℕ, ◌/◌, ◌%◌, min, Bool, not, ◌&&◌, ◌||◌, Option, none, some, List, [], ◌∷◌, ◌++◌, leb, ◌==◌,
  if◌then◌else◌, is_empty, any, Text, codes, text_eq, ascii_lower, Result, ok, err,
}
use cursedelete.Base.Decimal.{is_digit, digits}
use cursedelete.Entry.{Duration}

pub data AgeError : Type 0 where
  missing_unit invalid_number not_positive too_large : Text → AgeError
  unknown_unit : Text → Text → AgeError  -- the value and its unit
  empty : AgeError

-- `Duration::from_secs_f64` panics on what a duration cannot hold.
pub data AgePanic : Type 0 where
  from_secs_out_of_range : AgePanic

pub record AgeFloats : Type 1 where
  pub F : Type 0
  pub parse : Text → Option F
  pub literal : ℕ → F  -- a whole number that is a literal of the source
  pub is_nan : F → Bool
  pub le_zero : F → Bool  -- `<= 0.0`
  pub mul : F → F → F
  pub is_finite : F → Bool
  pub above_max : F → Bool  -- `> Duration::MAX.as_secs_f64()`
  pub from_secs : F → Option Duration  -- `none` where it panics

abbrev one_of : List Text → Text → Bool
one_of names s = any (text_eq s) names

-- The property White_Space of Unicode, which `str::trim` goes by.
abbrev pub is_whitespace : ℕ → Bool
is_whitespace c =
    (leb 9 c && leb c 13)
    || (c == 32)
    || (c == 133)
    || (c == 160)
    || (c == 5760)
    || (leb 8192 c && leb c 8202)
    || (c == 8232)
    || (c == 8233)
    || (c == 8239)
    || (c == 8287)
    || (c == 12288)

unfoldable pub trim_start : Text → Text
trim_start [] = []
trim_start (c ∷ s) = let rest = trim_start s in if is_whitespace c then rest else c ∷ s

unfoldable pub trim_end : Text → Text
trim_end [] = []
trim_end (c ∷ s) =
    let rest = trim_end s in if is_whitespace c && is_empty rest then [] else c ∷ rest

abbrev pub trim : Text → Text
trim s = trim_end (trim_start s)

abbrev pub is_number_char : ℕ → Bool
is_number_char c = is_digit c || (c == b'.')

-- The two parts of `split_at(unit_start)`; the unit is empty when there is no `unit_start`.
unfoldable pub number_part : Text → Text
number_part [] = []
number_part (c ∷ s) = let rest = number_part s in if is_number_char c then c ∷ rest else []

unfoldable pub unit_part : Text → Text
unit_part [] = []
unit_part (c ∷ s) = let rest = unit_part s in if is_number_char c then rest else c ∷ s

abbrev pub to_lower : Text → Text
to_lower [] = []
to_lower (c ∷ s) = ascii_lower c ∷ to_lower s

unfoldable pub seconds_per_unit : Text → Option ℕ
seconds_per_unit unit =
    if one_of (codes "m" ∷ codes "min" ∷ codes "mins" ∷ codes "minute" ∷ codes "minutes" ∷ []) unit
    then some 60
    else if one_of (codes "h" ∷ codes "hr" ∷ codes "hrs" ∷ codes "hour" ∷ codes "hours" ∷ []) unit
    then some 3600
    else if one_of (codes "d" ∷ codes "day" ∷ codes "days" ∷ []) unit
    then some 86400
    else if one_of (codes "w" ∷ codes "wk" ∷ codes "wks" ∷ codes "week" ∷ codes "weeks" ∷ []) unit
    then some 604800
    else none

module _ (Φ : AgeFloats) where
  -- The conversion at the end, with its panic.
  abbrev pub duration_of : Option Duration → Result (Result Duration AgeError) AgePanic
  duration_of none = err from_secs_out_of_range
  duration_of (some d) = ok (ok d)

  abbrev pub checked_duration : Text → Φ.F → Result (Result Duration AgeError) AgePanic
  checked_duration trimmed total_seconds =
      if not (Φ.is_finite total_seconds) || Φ.above_max total_seconds
      then ok (err (too_large trimmed))
      else duration_of (Φ.from_secs total_seconds)

  abbrev pub scaled : Text → Text → Φ.F → Option ℕ → Result (Result Duration AgeError) AgePanic
  scaled trimmed unit value none = ok (err (unknown_unit trimmed unit))
  scaled trimmed unit value (some k) = checked_duration trimmed (Φ.mul value (Φ.literal k))

  abbrev pub with_value : Text → Option Φ.F → Result (Result Duration AgeError) AgePanic
  with_value trimmed none = ok (err (invalid_number trimmed))
  with_value trimmed (some value) =
      let unit = to_lower (unit_part trimmed) in
      if Φ.is_nan value || Φ.le_zero value
      then ok (err (not_positive trimmed))
      else scaled trimmed unit value (seconds_per_unit unit)

  -- `AgeDuration::from_str`: the outer result is a panic.
  unfoldable pub parse_age : Text → Result (Result Duration AgeError) AgePanic
  parse_age s =
      let trimmed = trim s in
      if is_empty trimmed
      then ok (err empty)
      else if is_empty (unit_part trimmed)
      then ok (err (missing_unit trimmed))
      else if is_empty (number_part trimmed)
      then ok (err (invalid_number trimmed))
      else with_value trimmed (Φ.parse (number_part trimmed))

abbrev pub nanos : ℕ
nanos = 1000000000

abbrev pub display_secs : ℕ → Text
display_secs secs =
    if (secs % 604800 == 0) && not (secs == 0)
    then digits (secs / 604800) ++ codes "w"
    else if (secs % 86400 == 0) && not (secs == 0)
    then digits (secs / 86400) ++ codes "d"
    else if (secs % 3600 == 0) && not (secs == 0)
    then digits (secs / 3600) ++ codes "h"
    else if secs % 60 == 0
    then digits (secs / 60) ++ codes "m"
    else digits secs ++ codes "s"

-- `Display for AgeDuration`
unfoldable pub display_age : Duration → Text
display_age d = display_secs (d / nanos)
