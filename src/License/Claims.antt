-- ===== src/License/Claims.antt =====
-- crates/cursdel-license/src/claims.rs: the claims of a licence and of an activation certificate.
pub mod Fields
pub mod Rules
pub mod Certificates
use cursedelete.Base.{
  ℕ, suc, Bool, true, false, not, ◌&&◌, Option, none, some, ◌++◌, ltb, leb, ◌==◌, if◌then◌else◌,
  is_empty, Text, codes, Result, ok, err, ◌>>=◌, ◌>>◌, map_err,
}
use cursedelete.Base.Decimal.{digits}
use cursedelete.Ages.{trim}
use cursedelete.License.Formats.{Formats, Bytes, RawLicense, RawActivation}
use cursedelete.License.Keys.{ok_or}
use cursedelete.License.Editions
use cursedelete.License.Editions.{Edition, business, is_business, display_name}

abbrev pub schema_version : ℕ
schema_version = 1

pub data ClaimsError : Type 0 where
  unsupported_schema : ℕ → ClaimsError
  malformed : Text → ClaimsError

unfoldable pub display_error : ClaimsError → Text
display_error (unsupported_schema v) = codes "unsupported schema version " ++ digits v
display_error (malformed m) = m

abbrev pub invalid_claims : Text → ClaimsError
invalid_claims e = malformed (codes "invalid claims: " ++ e)

abbrev pub not_json : Text → ClaimsError
not_json e = malformed (codes "claims are not valid JSON: " ++ e)

unfoldable pub non_empty : Text → Text → Result Text ClaimsError
non_empty name value =
    if is_empty (trim value)
    then err (malformed (codes "'" ++ name ++ codes "' must not be empty"))
    else ok value

unfoldable pub optional_non_empty : Text → Option Text → Result (Option Text) ClaimsError
unfolding non_empty
optional_non_empty name none = ok none
optional_non_empty name (some v) = non_empty name v >>= λ w. ok (some w)

-- The activation allowance that an edition must or must not have.
unfoldable pub check_activations : Edition → Option ℕ → Result (Unit {0}) ClaimsError
check_activations business (some (suc n)) = ok tt
check_activations business _ =
    err (malformed (codes "Business licences must have 'maxActivations' of at least 1"))
check_activations e (some n) = err (
    malformed (
      display_name e
      ++ codes " licences have no activation limit; 'maxActivations' is not allowed"))
check_activations e none = ok tt

module _ (F : Formats) where
  pub data Term : Type 0 where
    perpetual : Term
    subscription : F.Instant → Term

  abbrev pub is_perpetual : Term → Bool
  is_perpetual perpetual = true
  is_perpetual (subscription t) = false

  pub record LicenseClaims : Type 0 where
    pub license_id : Text
    pub customer_id : Text
    pub product_id : Text
    pub major_version : ℕ
    pub edition : Edition
    pub organisation : Option Text
    pub customer_name : Option Text
    pub issued_at : F.Instant
    pub term : Term
    pub max_activations : Option ℕ

  pub record ActivationClaims : Type 0 where
    pub activation_id : Text
    pub license_id : Text
    pub product_id : Text
    pub major_version : ℕ
    pub device_id : Text
    pub issued_at : F.Instant
    pub expires_at : Option F.Instant

  abbrev pub with_schema : F.Value → Option ℕ → Result F.Value ClaimsError
  with_schema v none = err (malformed (codes "claims are missing a numeric 'schemaVersion'"))
  with_schema v (some n) = if n == schema_version then ok v else err (unsupported_schema n)

  unfoldable pub checked_value : Bytes → Result F.Value ClaimsError
  checked_value payload = do
    v ← map_err not_json (F.read_value payload)
    with_schema v (F.schema_version v)

  abbrev pub known_edition : Text → Result Edition ClaimsError
  known_edition s =
      ok_or (malformed (codes "unknown edition '" ++ s ++ codes "'")) (Editions.from_id s)

  -- `perpetual` and `expiresAt` together.
  unfoldable pub term_of : F.Instant → Bool → Option F.Instant → Result Term ClaimsError
  term_of issued true none = ok perpetual
  term_of issued false (some e) =
      if ltb (F.at issued) (F.at e)
      then ok (subscription e)
      else err (malformed (codes "'expiresAt' must be after 'issuedAt'"))
  term_of issued true (some e) =
      err (malformed (codes "a perpetual licence must not have 'expiresAt'"))
  term_of issued false none =
      err (malformed (codes "a non-perpetual licence must have 'expiresAt'"))

  abbrev pub check_term : Edition → Term → Result (Unit {0}) ClaimsError
  check_term e t =
      if not (is_business e) && not (is_perpetual t)
      then err (malformed (display_name e ++ codes " licences are always perpetual"))
      else ok tt

  abbrev pub raw_license : Bytes → Result (RawLicense F.Instant) ClaimsError
  raw_license payload = checked_value payload >>= λ v. map_err invalid_claims (F.license_of v)

  -- What `parse_license` makes of the fields.
  unfoldable pub claims_of : RawLicense F.Instant → Result LicenseClaims ClaimsError
  claims_of raw = do
    edition ← known_edition raw.edition
    term ← term_of raw.issued_at raw.perpetual raw.expires_at
    check_term edition term
    check_activations edition raw.max_activations
    license_id ← non_empty (codes "licenseId") raw.license_id
    customer_id ← non_empty (codes "customerId") raw.customer_id
    product_id ← non_empty (codes "productId") raw.product_id
    organisation ← optional_non_empty (codes "organisation") raw.organisation
    customer_name ← optional_non_empty (codes "customerName") raw.customer_name
    ok (record {
      license_id = license_id;
      customer_id = customer_id;
      product_id = product_id;
      major_version = raw.major_version;
      edition = edition;
      organisation = organisation;
      customer_name = customer_name;
      issued_at = raw.issued_at;
      term = term;
      max_activations = raw.max_activations;
    })

  unfoldable pub parse_license : Bytes → Result LicenseClaims ClaimsError
  parse_license payload = raw_license payload >>= λ raw. claims_of raw

  abbrev pub raw_activation : Bytes → Result (RawActivation F.Instant) ClaimsError
  raw_activation payload = checked_value payload >>= λ v. map_err invalid_claims (F.activation_of v)

  abbrev pub check_expiry : F.Instant → Option F.Instant → Result (Unit {0}) ClaimsError
  check_expiry issued none = ok tt
  check_expiry issued (some e) =
      if leb (F.at e) (F.at issued)
      then err (malformed (codes "'expiresAt' must be after 'issuedAt'"))
      else ok tt

  unfoldable pub certificate_of : RawActivation F.Instant → Result ActivationClaims ClaimsError
  certificate_of raw = do
    check_expiry raw.issued_at raw.expires_at
    activation_id ← non_empty (codes "activationId") raw.activation_id
    license_id ← non_empty (codes "licenseId") raw.license_id
    product_id ← non_empty (codes "productId") raw.product_id
    device_id ← non_empty (codes "deviceId") raw.device_id
    ok (record {
      activation_id = activation_id;
      license_id = license_id;
      product_id = product_id;
      major_version = raw.major_version;
      device_id = device_id;
      issued_at = raw.issued_at;
      expires_at = raw.expires_at;
    })

  unfoldable pub parse_activation : Bytes → Result ActivationClaims ClaimsError
  parse_activation payload = raw_activation payload >>= λ raw. certificate_of raw
