-- ===== src/Policy.antt =====
-- crates/cursdel-policy/src/lib.rs: what this application trusts, where its licences lie, and which
-- features the editions have.
pub mod Gates
use cursedelete.Base.{
  ℕ, Bool, true, false, Option, none, some, List, [], ◌∷◌, if◌then◌else◌, is_empty, Text, FilePath,
  codes, Result, ok, ◌>>=◌, ◌>>◌,
}
use cursedelete.Ages.{trim}
use cursedelete.License.Formats.{Formats}
use cursedelete.License.Algorithms.{SignatureAlgorithm, ed25519, ecdsa_p256_sha256, ml_dsa_65}
use cursedelete.License.Editions
use cursedelete.License.Editions.{Edition, community, education, business, enterprise}
use cursedelete.License.Keys.{KeyError, TrustedKey, TrustedKeySet, from_base64url, new_set}
use cursedelete.License.Validate.{ProductIdentity, LicensePolicy}
use cursedelete.License.Store.{StorageNames, LicenseLocations, for_app}
use cursedelete.License.Service.{LicenseService, unconfigured_service}
use cursedelete.License.Http.{Http, base_url, http_service}

abbrev pub product_id : Text
product_id = codes "cursedelete"

abbrev pub allowed_algorithms : List SignatureAlgorithm
allowed_algorithms = ed25519 ∷ ecdsa_p256_sha256 ∷ ml_dsa_65 ∷ []

-- The keys of this build: id, algorithm, and public key in base64url. There is none yet.
abbrev pub embedded_keys : List (Text × SignatureAlgorithm × Text)
embedded_keys = []

abbrev pub storage : StorageNames
storage = record {
  vendor = codes "RePassCloud";
  app = codes "CurseDelete";
  unix_app = codes "cursedelete";
  license_file_env = codes "CURSDEL_LICENSE_FILE";
  license_dir_env = codes "CURSDEL_LICENSE_DIR";
}

abbrev pub non_blank : Option Text → Option Text
non_blank none = none
non_blank (some u) = if is_empty (trim u) then none else some u

-- The address of the server: that of the environment, else that of the build, each unless blank.
unfoldable pub server_url : Option Text → Option Text → Option Text
server_url env built = elim (non_blank env) [ some u ↦ some u | none ↦ non_blank built ]

abbrev pub service_at : (H : Http) → Option Text → Result LicenseService Text
service_at H none = ok unconfigured_service
service_at H (some url) = base_url url >>= λ base. ok (http_service H base)

-- `service`; the error is the address that was refused.
unfoldable pub service : (H : Http) → Option Text → Option Text → Result LicenseService Text
service H env built = service_at H (server_url env built)

pub data Feature : Type 0 where
  close_remote_locks : Feature

abbrev pub all_features : List Feature
all_features = close_remote_locks ∷ []

abbrev pub feature_name : Feature → Text
feature_name close_remote_locks = codes "--close-remote-locks"

unfoldable pub is_enabled : Feature → Edition → Bool
is_enabled close_remote_locks business = true
is_enabled close_remote_locks enterprise = true
is_enabled close_remote_locks _ = false

unfoldable pub enabled_among : Feature → List Edition → List Edition
enabled_among f [] = []
enabled_among f (e ∷ es) =
    let rest = enabled_among f es in if is_enabled f e then e ∷ rest else rest

abbrev pub editions : Feature → List Edition
editions f = enabled_among f Editions.all

module _ (F : Formats) (major_version : ℕ) where
  unfoldable pub read_keys :
      List (Text × SignatureAlgorithm × Text) → Result (List (TrustedKey F)) KeyError
  read_keys [] = ok []
  read_keys ((id, a, key) ∷ ks) =
      from_base64url F id a key >>= λ k. read_keys ks >>= λ rest. ok (k ∷ rest)

  -- `trusted_keys`; an error is a panic.
  unfoldable pub trusted_keys : Result (TrustedKeySet F) KeyError
  trusted_keys = read_keys embedded_keys >>= λ keys. new_set F keys

  abbrev pub product : ProductIdentity
  product = record { product_id = product_id; major_version = major_version }

  unfoldable pub license_policy : Result (LicensePolicy F) KeyError
  license_policy = trusted_keys >>= λ keys. ok (record {
    product = product;
    trusted_keys = keys;
    allowed_algorithms = allowed_algorithms;
    business_offline_limit = none;
  })

  abbrev pub locations : (Text → Option Text) → Option FilePath → LicenseLocations
  locations env config_dir = for_app env config_dir storage major_version
