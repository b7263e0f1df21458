-- ===== src/License/Formats.antt =====
-- What the crate crates/cursdel-license takes from others, as the parameter `Formats`: JSON
-- (serde_json), base64url, signatures (ed25519_dalek, p256, ml_dsa) and dates (time). The records
-- that serde fills are those of envelope.rs and claims.rs.
use cursedelete.Base.{ℕ, Bool, Option, List, Text, Result}

abbrev pub Bytes : Type 0
Bytes = List ℕ

pub record RawSignature : Type 0 where
  pub signature_algorithm : Text
  pub key_id : Text
  pub signature : Text

pub record RawEnvelope : Type 0 where
  pub format : Text
  pub payload : Text
  pub signatures : List RawSignature

-- `Instant` is `time::OffsetDateTime`.
pub record RawLicense (Instant : Type 0) : Type 0 where
  pub schema_version : ℕ
  pub license_id : Text
  pub customer_id : Text
  pub product_id : Text
  pub major_version : ℕ
  pub edition : Text
  pub organisation : Option Text
  pub customer_name : Option Text
  pub issued_at : Instant
  pub perpetual : Bool
  pub expires_at : Option Instant
  pub max_activations : Option ℕ

pub record RawActivation (Instant : Type 0) : Type 0 where
  pub schema_version : ℕ
  pub activation_id : Text
  pub license_id : Text
  pub product_id : Text
  pub major_version : ℕ
  pub device_id : Text
  pub issued_at : Instant
  pub expires_at : Option Instant

pub record Formats : Type 1 where
  -- Dates: their order on a time line, their text, and a date so much later.
  pub Instant : Type 0
  pub Duration : Type 0
  pub at : Instant → ℕ
  pub show_instant : Instant → Text
  pub plus : Instant → Duration → Instant
  -- JSON: errors are their text; `license_of` and `activation_of` are strict on fields.
  pub Value : Type 0
  pub read_envelope : Text → Result RawEnvelope Text
  pub read_value : Bytes → Result Value Text
  pub schema_version : Value → Option ℕ
  pub license_of : Value → Result (RawLicense Instant) Text
  pub activation_of : Value → Result (RawActivation Instant) Text
  -- `URL_SAFE_NO_PAD.decode`
  pub decode64 : Text → Option Bytes
  -- Public keys and signatures, and the three checks.
  pub Ed25519Key : Type 0
  pub P256Key : Type 0
  pub MlDsaKey : Type 0
  pub Ed25519Signature : Type 0
  pub P256Signature : Type 0
  pub MlDsaSignature : Type 0
  pub ed25519_from_bytes : Bytes → Option Ed25519Key
  pub p256_from_sec1_bytes : Bytes → Option P256Key
  pub ml_dsa_decode : Bytes → Option MlDsaKey
  pub ed25519_signature : Bytes → Option Ed25519Signature
  pub p256_signature : Bytes → Option P256Signature
  pub ml_dsa_signature : Bytes → Option MlDsaSignature
  pub ed25519_verify_strict : Ed25519Key → Bytes → Ed25519Signature → Bool
  pub p256_verify : P256Key → Bytes → P256Signature → Bool
  pub ml_dsa_verify : MlDsaKey → Bytes → MlDsaSignature → Bool
