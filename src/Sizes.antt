-- ===== src/Sizes.antt =====
-- crates/cursdel-core/src/size.rs: sizes in bytes, read and printed. `f64` is the parameter
-- `SizeFloats`.
pub mod RoundTrip
use cursedelete.Base.{
  ℕ, Bool, false, Option, none, some, List, [], ◌∷◌, ◌++◌, leb, ◌==◌, if◌then◌else◌, is_empty, any,
  Text, codes, text_eq, Result, ok, err,
}
use cursedelete.Base.Decimal.{digits}
use cursedelete.Ages.{trim, number_part, unit_part, to_lower}

pub data SizeError : Type 0 where
  empty : SizeError
  invalid_number : Text → SizeError
  unknown_unit : Text → Text → SizeError
  negative : Text → SizeError

-- `literal` is a whole number below 2^53 as an `f64`; `to_u64` is `round` followed by the cast, which
-- saturates; `two_places` is the format `{:.2}`.
pub record SizeFloats : Type 1 where
  pub F : Type 0
  pub parse : Text → Option F
  pub literal : ℕ → F
  pub of_u64 : ℕ → F
  pub mul : F → F → F
  pub div : F → F → F
  pub to_u64 : F → ℕ
  pub two_places : F → Text

abbrev pub starts_with_minus : Text → Bool
starts_with_minus [] = false
starts_with_minus (c ∷ s) = c == b'-'

abbrev pub one_of : List Text → Text → Bool
one_of names unit = any (text_eq unit) names

abbrev pub kib : ℕ
kib = 1024

abbrev pub mib : ℕ
mib = 1048576

abbrev pub gib : ℕ
gib = 1073741824

abbrev pub tib : ℕ
tib = 1099511627776

unfoldable pub bytes_per_unit : Text → Option ℕ
bytes_per_unit unit =
    if one_of ([] ∷ codes "b" ∷ []) unit
    then some 1
    else if one_of (codes "k" ∷ codes "kb" ∷ codes "kib" ∷ []) unit
    then some kib
    else if one_of (codes "m" ∷ codes "mb" ∷ codes "mib" ∷ []) unit
    then some mib
    else if one_of (codes "g" ∷ codes "gb" ∷ codes "gib" ∷ []) unit
    then some gib
    else if one_of (codes "t" ∷ codes "tb" ∷ codes "tib" ∷ []) unit
    then some tib
    else none

module _ (Φ : SizeFloats) where
  abbrev pub scaled : Text → Φ.F → Text → Option ℕ → Result ℕ SizeError
  scaled trimmed value unit none = err (unknown_unit trimmed unit)
  scaled trimmed value unit (some k) = ok (Φ.to_u64 (Φ.mul value (Φ.literal k)))

  abbrev pub with_value : Text → Option Φ.F → Result ℕ SizeError
  with_value trimmed none = err (invalid_number trimmed)
  with_value trimmed (some value) =
      let unit = to_lower (unit_part trimmed) in scaled trimmed value unit (bytes_per_unit unit)

  -- `ByteSize::from_str`
  unfoldable pub parse_size : Text → Result ℕ SizeError
  parse_size s =
      let trimmed = trim s in
      if is_empty trimmed
      then err empty
      else if starts_with_minus trimmed
      then err (negative trimmed)
      else if is_empty (number_part trimmed)
      then err (invalid_number trimmed)
      else with_value trimmed (Φ.parse (number_part trimmed))

  abbrev pub in_units : ℕ → ℕ → Text → Text
  in_units bytes threshold name =
      Φ.two_places (Φ.div (Φ.of_u64 bytes) (Φ.of_u64 threshold)) ++ (b' ' ∷ name)

  -- `Display for ByteSize`
  unfoldable pub display_size : ℕ → Text
  display_size bytes =
      if leb tib bytes
      then in_units bytes tib (codes "TiB")
      else if leb gib bytes
      then in_units bytes gib (codes "GiB")
      else if leb mib bytes
      then in_units bytes mib (codes "MiB")
      else if leb kib bytes
      then in_units bytes kib (codes "KiB")
      else digits bytes ++ codes " B"
