-- ===== src/License/Validate.antt =====
-- crates/cursdel-license/src/validate.rs: what makes a licence or a certificate usable here.
pub mod Entitlement
use cursedelete.Base.{
  ◌>>=◌, ◌>>◌, lowered, join_with, ℕ, not, Option, none, some, List, ◌++◌, leb, ◌==◌, if◌then◌else◌,
  Text, codes, text_eq, Result, ok, err, map_err,
}
use cursedelete.Base.Decimal.{digits}
use cursedelete.License.Formats.{Formats}
use cursedelete.License.Algorithms.{SignatureAlgorithm}
use cursedelete.License.Keys.{TrustedKeySet}
use cursedelete.License.Envelope
use cursedelete.License.Envelope.{
  EnvelopeError, VerifiedSignature, open_envelope, license, activation,
}
use cursedelete.License.Claims
use cursedelete.License.Claims.{
  ClaimsError, Term, perpetual, subscription, LicenseClaims, ActivationClaims, parse_license,
  parse_activation,
}

pub record ProductIdentity : Type 0 where
  pub product_id : Text
  pub major_version : ℕ

module _ (F : Formats) where
  pub data Rejection : Type 0 where
    malformed unsupported_format : Text → Rejection
    unsupported_schema : ℕ → Rejection
    unsupported_signature_algorithm disallowed_signature_algorithm unsupported_signing_key :
        List Text → Rejection
    invalid_signature : Text → Rejection
    wrong_product : Text → Text → Rejection  -- expected, found
    wrong_major_version : ℕ → ℕ → Rejection  -- expected, found
    expired : F.Instant → Rejection
    revoked activation_required : Rejection
    activation_invalid : Text → Rejection

  -- The text that `thiserror` makes of a rejection.
  unfoldable pub display_rejection : Rejection → Text
  display_rejection (malformed m) = codes "not a valid licence file: " ++ m
  display_rejection (unsupported_format f) = codes "unsupported licence format '" ++ f ++ codes "'"
  display_rejection (unsupported_schema v) =
      codes "licence schema version "
      ++ digits v
      ++ codes " is not supported by this version of the application"
  display_rejection (unsupported_signature_algorithm a) =
      codes "licence is signed only with unsupported algorithm(s): " ++ join_with (codes ", ") a
  display_rejection (disallowed_signature_algorithm a) =
      codes "licence is signed only with algorithm(s) this application does not permit: "
      ++ join_with (codes ", ") a
  display_rejection (unsupported_signing_key k) =
      codes "licence is signed by key(s) this build does not trust: " ++ join_with (codes ", ") k
  display_rejection (invalid_signature k) =
      codes "licence signature is invalid (key '"
      ++ k
      ++ codes "'); the file may have been modified"
  display_rejection (wrong_product expected found) =
      codes "licence is for product '" ++ found ++ codes "', not '" ++ expected ++ codes "'"
  display_rejection (wrong_major_version expected found) =
      codes "licence is for major version "
      ++ digits found
      ++ codes ", but this is version "
      ++ digits expected
  display_rejection (expired t) = codes "licence expired at " ++ F.show_instant t
  display_rejection revoked = codes "licence has been revoked"
  display_rejection activation_required = codes "Business licence is not activated on this device"
  display_rejection (activation_invalid m) = codes "activation certificate is not valid: " ++ m

  -- `From<EnvelopeError>` and `From<ClaimsError>`
  unfoldable pub from_envelope : EnvelopeError → Rejection
  from_envelope (Envelope.malformed m) = malformed m
  from_envelope (Envelope.unsupported_format f) = unsupported_format f
  from_envelope (Envelope.unsupported_algorithm a) = unsupported_signature_algorithm a
  from_envelope (Envelope.disallowed_algorithm a) = disallowed_signature_algorithm a
  from_envelope (Envelope.untrusted_key k) = unsupported_signing_key k
  from_envelope (Envelope.invalid_signature k) = invalid_signature k

  unfoldable pub from_claims : ClaimsError → Rejection
  from_claims (Claims.unsupported_schema v) = unsupported_schema v
  from_claims (Claims.malformed m) = malformed m

  pub record VerifiedLicense : Type 0 where
    pub claims : LicenseClaims F
    pub signed_by : List VerifiedSignature

  pub record LicensePolicy : Type 0 where
    pub product : ProductIdentity
    pub trusted_keys : TrustedKeySet F
    pub allowed_algorithms : List SignatureAlgorithm
    pub business_offline_limit : Option F.Duration

  unfoldable pub check_identity : LicensePolicy → Text → ℕ → Result (Unit {0}) Rejection
  check_identity policy product version =
      if not (text_eq product policy.product.product_id)
      then err (wrong_product policy.product.product_id product)
      else if not (version == policy.product.major_version)
      then err (wrong_major_version policy.product.major_version version)
      else ok tt

  unfoldable pub verify_license_identity : LicensePolicy → Text → Result VerifiedLicense Rejection
  verify_license_identity policy text = do
    opened ←
        map_err from_envelope
          (open_envelope F text license policy.trusted_keys policy.allowed_algorithms)
    claims ← map_err from_claims (parse_license F opened.payload)
    check_identity policy claims.product_id claims.major_version
    ok (record { claims = claims; signed_by = opened.verified_by })

  abbrev pub check_not_expired : F.Instant → Term F → Result (Unit {0}) Rejection
  check_not_expired now perpetual = ok tt
  check_not_expired now (subscription e) =
      if leb (F.at e) (F.at now) then err (expired e) else ok tt

  unfoldable pub verify_license :
      LicensePolicy → Text → F.Instant → Result VerifiedLicense Rejection
  verify_license policy text now = do
    verified ← verify_license_identity policy text
    check_not_expired now verified.claims.term
    ok verified

  abbrev pub invalid_envelope : EnvelopeError → Rejection
  invalid_envelope e = activation_invalid (Envelope.display_error e)

  abbrev pub invalid_claims : ClaimsError → Rejection
  invalid_claims e = activation_invalid (Claims.display_error e)

  abbrev pub invalid_identity : Rejection → Rejection
  invalid_identity e = activation_invalid (display_rejection e)

  abbrev pub check_license_id : ActivationClaims F → LicenseClaims F → Result (Unit {0}) Rejection
  check_license_id cert l =
      if text_eq cert.license_id l.license_id
      then ok tt
      else err (
          activation_invalid (
            codes "it activates licence '"
            ++ cert.license_id
            ++ codes "', not '"
            ++ l.license_id
            ++ codes "'"))

  -- The comparison ignores the case of ASCII letters.
  abbrev pub check_device : ActivationClaims F → Text → Result (Unit {0}) Rejection
  check_device cert device =
      if text_eq (lowered cert.device_id) (lowered device)
      then ok tt
      else err (activation_invalid (codes "it was issued for a different device"))

  abbrev pub check_cert_expiry : F.Instant → Option F.Instant → Result (Unit {0}) Rejection
  check_cert_expiry now none = ok tt
  check_cert_expiry now (some e) =
      if leb (F.at e) (F.at now)
      then err (
          activation_invalid
            (codes "it expired at " ++ F.show_instant e ++ codes "; run renew to refresh it"))
      else ok tt

  abbrev pub check_offline : F.Instant → F.Instant → Option F.Duration → Result (Unit {0}) Rejection
  check_offline now issued none = ok tt
  check_offline now issued (some limit) =
      if leb (F.at (F.plus issued limit)) (F.at now)
      then err (activation_invalid (codes "it has not been refreshed recently enough; run renew"))
      else ok tt

  unfoldable pub verify_activation :
      LicensePolicy
      → Text
      → LicenseClaims F
      → Text
      → F.Instant
      → Result (ActivationClaims F) Rejection
  verify_activation policy text l device now = do
    opened ←
        map_err invalid_envelope
          (open_envelope F text activation policy.trusted_keys policy.allowed_algorithms)
    cert ← map_err invalid_claims (parse_activation F opened.payload)
    map_err invalid_identity (check_identity policy cert.product_id cert.major_version)
    check_license_id cert l
    check_device cert device
    check_cert_expiry now cert.expires_at
    check_offline now cert.issued_at policy.business_offline_limit
    ok cert
