-- ===== src/Tests/License.antt =====
-- The licence library at fixed inputs: two files and a certificate, signed by a key whose signatures
-- are its bytes followed by the message.
use cursedelete.Base.{
  utf8_len, has_text, ℕ, ◌+◌, ◌≡◌, refl, ◌↔◌, true, false, none, some, [], ◌∷◌, ◌==◌, if◌then◌else◌,
  Text, codes, text_eq, Result, ok, err,
}
use cursedelete.Base.Decimal.{digits}
use cursedelete.License.Formats.{Formats, Bytes, RawEnvelope, RawLicense}
use cursedelete.License.Algorithms.{SignatureAlgorithm, ed25519, from_id}
use cursedelete.License.Algorithms
use cursedelete.License.Editions
use cursedelete.License.Editions.{Edition, business, community, enterprise}
use cursedelete.License.Keys.{TrustedKeySet, ed25519_key, verify_with}
use cursedelete.License.Envelope.{
  EnvelopeKind, license, activation, format_of, VerifiedPayload, signed_message, open_envelope,
  first_duplicate, use_key, check_signature, check_signatures, verdict,
}
use cursedelete.License.Envelope.Opening.{Opens, open_envelope_iff}
use cursedelete.License.Claims.{
  LicenseClaims, ActivationClaims, perpetual, parse_license, parse_activation, checked_value,
  term_of, claims_of, certificate_of, non_empty, optional_non_empty, check_activations,
}
use cursedelete.License.Claims.Rules.{Describes, IsLawful, parse_license_iff}
use cursedelete.License.Claims.Fields.{ReadsAs}
use cursedelete.License.Validate.{
  LicensePolicy, VerifiedLicense, verify_license, verify_activation, verify_license_identity,
  check_identity,
}
use cursedelete.License.Validate.Entitlement.{
  Identifies, InTerm, IsSigned, Activates, verify_license_iff, verify_activation_iff,
}
use cursedelete.License.Resolve.{
  Candidate, LocalState, ActiveLicense, resolve, sort_candidates, pick, judge, first_valid,
}
use cursedelete.License.Resolve.Effect.{InEffect, resolve_active_iff}
use cursedelete.Ages.{trim_start, trim_end}

abbrev sealed : EnvelopeKind → Text → RawEnvelope
sealed kind payload = record {
  format = format_of kind;
  payload = payload;
  signatures =
      record {
        signature_algorithm = codes "Ed25519";
        key_id = codes "k";
        signature = b'K' ∷ signed_message kind payload;
      }
      ∷ [];
}

-- The files are told apart by their first letter.
abbrev file_of : Text → Result RawEnvelope Text
file_of [] = err (codes "EOF")
file_of (c ∷ s) =
    if c == b'B'
    then ok (sealed license (codes "b"))
    else if c == b'E'
    then ok (sealed license (codes "e"))
    else if c == b'A'
    then ok (sealed activation (codes "a"))
    else err (codes "expected value")

abbrev head : Bytes → Result ℕ Text
head [] = err (codes "EOF")
head (c ∷ s) = ok c

abbrev license_fields : ℕ → Result (RawLicense ℕ) Text
license_fields v = ok (record {
  schema_version = 1;
  license_id = codes "lic";
  customer_id = codes "cus";
  product_id = codes "cursedelete";
  major_version = 1;
  edition = if v == b'b' then codes "business" else codes "enterprise";
  organisation = none;
  customer_name = none;
  issued_at = 10;
  perpetual = true;
  expires_at = none;
  max_activations = if v == b'b' then some 2 else none;
})

abbrev pub toy : Formats
toy = record {
  Instant = ℕ;
  Duration = ℕ;
  at = λ t. t;
  show_instant = digits;
  plus = λ t d. t + d;
  Value = ℕ;
  read_envelope = file_of;
  read_value = head;
  schema_version = λ v. some 1;
  license_of = license_fields;
  activation_of = λ v. ok (record {
    schema_version = 1;
    activation_id = codes "act";
    license_id = codes "lic";
    product_id = codes "cursedelete";
    major_version = 1;
    device_id = codes "DEV";
    issued_at = 10;
    expires_at = some 100;
  });
  decode64 = λ s. some s;
  Ed25519Key = ℕ;
  P256Key = ℕ;
  MlDsaKey = ℕ;
  Ed25519Signature = Bytes;
  P256Signature = Bytes;
  MlDsaSignature = Bytes;
  ed25519_from_bytes = λ s. some b'K';
  p256_from_sec1_bytes = λ s. none;
  ml_dsa_decode = λ s. none;
  ed25519_signature = λ s. some s;
  p256_signature = λ s. none;
  ml_dsa_signature = λ s. none;
  ed25519_verify_strict = λ k m s. text_eq s (k ∷ m);
  p256_verify = λ k m s. false;
  ml_dsa_verify = λ k m s. false;
}

abbrev keys : TrustedKeySet toy
keys = record { id = codes "k"; algorithm = ed25519; key = ed25519_key b'K' } ∷ []

abbrev pub policy : LicensePolicy toy
policy = record {
  product = record { product_id = codes "cursedelete"; major_version = 1 };
  trusted_keys = keys;
  allowed_algorithms = ed25519 ∷ [];
  business_offline_limit = some 50;
}

abbrev opened_b : VerifiedPayload
opened_b = record {
  payload = codes "b";
  verified_by = record { key_id = codes "k"; algorithm = ed25519 } ∷ [];
}

open_envelope_iff_example :
    (open_envelope toy (codes "B") license keys (ed25519 ∷ []) ≡ ok opened_b)
    ↔ Opens toy keys (ed25519 ∷ []) (codes "B") license opened_b
open_envelope_iff_example = open_envelope_iff toy keys (ed25519 ∷ []) (codes "B") license opened_b

abbrev business_claims : LicenseClaims toy
business_claims = record {
  license_id = codes "lic";
  customer_id = codes "cus";
  product_id = codes "cursedelete";
  major_version = 1;
  edition = business;
  organisation = none;
  customer_name = none;
  issued_at = 10;
  term = perpetual;
  max_activations = some 2;
}

business_claims_parsed : parse_license toy (codes "b") ≡ ok business_claims
unfolding parse_license checked_value claims_of Editions.from_id Editions.id text_eq term_of
    non_empty optional_non_empty check_activations trim_start trim_end
business_claims_parsed = refl

parse_license_iff_example : (parse_license toy (codes "b") ≡ ok business_claims) ↔ (
    (raw : RawLicense ℕ) × ReadsAs toy toy.license_of (codes "b") raw
    × Describes toy raw business_claims
    × IsLawful toy business_claims)
parse_license_iff_example = parse_license_iff toy (codes "b") business_claims

abbrev certificate : ActivationClaims toy
certificate = record {
  activation_id = codes "act";
  license_id = codes "lic";
  product_id = codes "cursedelete";
  major_version = 1;
  device_id = codes "DEV";
  issued_at = 10;
  expires_at = some 100;
}

abbrev business_license : VerifiedLicense toy
business_license = record {
  claims = business_claims;
  signed_by = record { key_id = codes "k"; algorithm = ed25519 } ∷ [];
}

verify_license_iff_example :
    (verify_license toy policy (codes "B") 20 ≡ ok business_license)
    ↔ (Identifies toy policy (codes "B") business_license × InTerm toy 20 perpetual)
verify_license_iff_example = verify_license_iff toy policy (codes "B") 20 business_license

-- The device's id is compared without regard to case.
certificate_accepted :
    verify_activation toy policy (codes "A") business_claims (codes "dev") 20 ≡ ok certificate
unfolding verify_activation open_envelope utf8_len text_eq first_duplicate has_text check_signatures
    check_signature use_key verify_with verdict format_of signed_message from_id Algorithms.id
    parse_activation checked_value certificate_of non_empty check_identity trim_start trim_end
certificate_accepted = refl

verify_activation_iff_example :
    (verify_activation toy policy (codes "A") business_claims (codes "dev") 20 ≡ ok certificate) ↔ (
      IsSigned toy policy (codes "A") certificate
      × Activates toy policy business_claims (codes "dev") 20 certificate)
verify_activation_iff_example =
    verify_activation_iff toy policy (codes "A") business_claims (codes "dev") 20 certificate

abbrev pub local : LocalState
local = record {
  activation_certificates = codes "x" ∷ codes "A" ∷ [];
  revoked_license_ids = [];
  device_id = codes "dev";
}

abbrev pub business_file : Candidate
business_file = record { source = codes "/etc/b"; contents = ok (codes "B") }

abbrev unreadable : Candidate
unreadable = record { source = codes "/etc/u"; contents = err (codes "EACCES") }

abbrev business_active : ActiveLicense toy
business_active = record {
  source = codes "/etc/b";
  license = business_license;
  activation = some certificate;
}

business_in_effect :
    (resolve toy policy local 20 (unreadable ∷ business_file ∷ [])).active ≡ some business_active
unfolding resolve sort_candidates judge pick verify_license verify_license_identity first_valid
    verify_activation open_envelope utf8_len text_eq first_duplicate has_text check_signatures
    check_signature use_key verify_with verdict format_of signed_message from_id Algorithms.id
    parse_activation parse_license claims_of Editions.from_id Editions.id term_of optional_non_empty
    check_activations checked_value certificate_of non_empty check_identity trim_start trim_end
business_in_effect = refl

resolve_active_iff_example :
    ((resolve toy policy local 20 (unreadable ∷ business_file ∷ [])).active ≡ some business_active)
    ↔ InEffect toy policy local 20 (unreadable ∷ business_file ∷ []) business_active
resolve_active_iff_example =
    resolve_active_iff toy policy local 20 (unreadable ∷ business_file ∷ []) business_active
