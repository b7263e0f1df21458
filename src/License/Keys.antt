-- ===== src/License/Keys.antt =====
-- crates/cursdel-license/src/keys.rs: the public keys that a build trusts.
use cursedelete.Base.{
  has_text, find, Bool, false, Option, none, some, List, [], ◌∷◌, ◌==◌, if◌then◌else◌, length, Text,
  text_eq, Result, ok, err, ◌>>=◌,
}
use cursedelete.Ages.{trim}
use cursedelete.License.Formats.{Formats, Bytes}
use cursedelete.License.Algorithms.{SignatureAlgorithm, ed25519, ecdsa_p256_sha256, ml_dsa_65}

pub data KeyError : Type 0 where
  encoding : Text → KeyError
  invalid : Text → SignatureAlgorithm → KeyError
  duplicate_id : Text → KeyError

-- `Result::is_ok_and` on a signature that was read.
abbrev pub is_ok_and {ℓ} : {A : Type ℓ} → (A → Bool) → Option A → Bool
is_ok_and p none = false
is_ok_and p (some a) = p a

abbrev pub ok_or {ℓ κ} : {A : Type ℓ} {E : Type κ} → E → Option A → Result A E
ok_or e none = err e
ok_or e (some a) = ok a

module _ (F : Formats) where
  pub data PublicKey : Type 0 where
    ed25519_key : F.Ed25519Key → PublicKey
    ecdsa_p256_key : F.P256Key → PublicKey
    ml_dsa_65_key : F.MlDsaKey → PublicKey

  abbrev key_map {ℓ} : {K : Type ℓ} → (K → PublicKey) → Option K → Option PublicKey
  key_map f none = none
  key_map f (some k) = some (f k)

  -- `PublicKey::decode`
  unfoldable pub decode : SignatureAlgorithm → Bytes → Option PublicKey
  decode ed25519 bytes =
      if length bytes == 32 then key_map ed25519_key (F.ed25519_from_bytes bytes) else none
  decode ecdsa_p256_sha256 bytes = key_map ecdsa_p256_key (F.p256_from_sec1_bytes bytes)
  decode ml_dsa_65 bytes = key_map ml_dsa_65_key (F.ml_dsa_decode bytes)

  -- `PublicKey::verify`
  unfoldable pub verify_with : PublicKey → Bytes → Bytes → Bool
  verify_with (ed25519_key k) message signature =
      is_ok_and (F.ed25519_verify_strict k message) (F.ed25519_signature signature)
  verify_with (ecdsa_p256_key k) message signature =
      is_ok_and (F.p256_verify k message) (F.p256_signature signature)
  verify_with (ml_dsa_65_key k) message signature =
      is_ok_and (F.ml_dsa_verify k message) (F.ml_dsa_signature signature)

  pub record TrustedKey : Type 0 where
    pub id : Text
    pub algorithm : SignatureAlgorithm
    pub key : PublicKey

  -- `TrustedKey::verify`
  abbrev pub verify : TrustedKey → Bytes → Bytes → Bool
  verify k message signature = verify_with k.key message signature

  -- `TrustedKey::new`
  unfoldable pub new_key : Text → SignatureAlgorithm → Bytes → Result TrustedKey KeyError
  new_key name a bytes = ok_or (invalid name a) (decode a bytes) >>= λ k.
      ok (record { id = name; algorithm = a; key = k })

  unfoldable pub from_base64url : Text → SignatureAlgorithm → Text → Result TrustedKey KeyError
  from_base64url name a text =
      ok_or (encoding name) (F.decode64 (trim text)) >>= λ bytes. new_key name a bytes

  abbrev pub TrustedKeySet : Type 0
  TrustedKeySet = List TrustedKey

  -- The loop of `TrustedKeySet::new`, with the ids it has seen.
  unfoldable pub check_ids : List Text → List TrustedKey → Result (Unit {0}) KeyError
  check_ids seen [] = ok tt
  check_ids seen (k ∷ ks) =
      let rest = check_ids (k.id ∷ seen) ks in
      if has_text k.id seen then err (duplicate_id k.id) else rest

  -- `TrustedKeySet::new`
  unfoldable pub new_set : List TrustedKey → Result TrustedKeySet KeyError
  new_set keys = check_ids [] keys >>= λ _. ok keys

  -- `TrustedKeySet::get`
  abbrev pub get : TrustedKeySet → Text → Option TrustedKey
  get keys name = find (λ (k : TrustedKey). text_eq k.id name) keys
