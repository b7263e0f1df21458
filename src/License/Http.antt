-- ===== src/License/Http.antt =====
-- crates/cursdel-license/src/http.rs: the licensing service over HTTPS. The HTTP client and JSON
-- are the parameter `Http`.
pub mod Urls
use cursedelete.Base.{
  strip_prefix, is_some_and, ℕ, Bool, true, not, ◌&&◌, ◌||◌, Option, none, some, List, [], ◌∷◌,
  ◌++◌, leb, ◌==◌, if◌then◌else◌, is_empty, any, Text, codes, text_eq, Result, ok, err, ◌>>=◌, ◌>>◌,
  map_err,
}
use cursedelete.Base.Decimal.{digits}
use cursedelete.Ages.{trim}
use cursedelete.License.Keys.{ok_or}
use cursedelete.License.Service.{
  Grant, Product, ActivationRef, ActivateRequest, RenewRequest, ServiceError, unavailable, revoked,
  rejected, protocol, LicenseService,
}

-- `trim_end_matches('/')`
unfoldable pub trim_slashes : Text → Text
trim_slashes [] = []
trim_slashes (c ∷ s) =
    let rest = trim_slashes s in if (c == b'/') && is_empty rest then [] else c ∷ rest

abbrev pub ends_host : Text → Bool
ends_host [] = true
ends_host (c ∷ s) = (c == b':') || (c == b'/')

abbrev pub loopback_hosts : List Text
loopback_hosts = codes "localhost" ∷ codes "127.0.0.1" ∷ codes "[::1]" ∷ []

abbrev pub is_loopback : Text → Bool
is_loopback rest = any (λ host. is_some_and ends_host (strip_prefix host rest)) loopback_hosts

abbrev pub not_empty : Text → Bool
not_empty s = not (is_empty s)

unfoldable pub is_acceptable_url : Text → Bool
is_acceptable_url url =
    is_some_and not_empty (strip_prefix (codes "https://") url)
    || is_some_and is_loopback (strip_prefix (codes "http://") url)

-- `InsecureUrl` is the text that was refused.
unfoldable pub base_url : Text → Result Text Text
base_url given =
    let url = trim_slashes (trim given) in if is_acceptable_url url then ok url else err url

abbrev pub is_segment_char : ℕ → Bool
is_segment_char b =
    (leb b'0' b && leb b b'9')
    || (leb b'A' b && leb b b'Z')
    || (leb b'a' b && leb b b'z')
    || (b == b'-')
    || (b == b'_')
    || (b == b'.')

abbrev pub all_chars : (ℕ → Bool) → Text → Bool
all_chars p [] = true
all_chars p (c ∷ s) = p c && all_chars p s

unfoldable pub path_segment : Text → Result Text ServiceError
path_segment id =
    if not (is_empty id) && all_chars is_segment_char id
    then ok id
    else err (protocol (codes "identifier '" ++ id ++ codes "' is not URL-safe"))

pub record ErrorBody : Type 0 where
  pub error : Option Text
  pub message : Option Text

abbrev pub no_error_body : ErrorBody
no_error_body = record { error = none; message = none }

-- The bodies that are sent.
pub record ActivationBody : Type 0 where
  pub activation_id : Text
  pub device_id : Text
  pub client_secret : Text

pub data Body : Type 0 where
  activate_body : Text → ℕ → Text → Text → Text → Body
  renew_body : Text → ℕ → Option ActivationBody → Body
  deactivate_body : Text → ℕ → Text → Text → Body

abbrev pub body_of : ActivationRef → ActivationBody
body_of a = record {
  activation_id = a.activation_id;
  device_id = a.device_id;
  client_secret = a.client_secret;
}

abbrev pub body_of_option : Option ActivationRef → Option ActivationBody
body_of_option none = none
body_of_option (some a) = some (body_of a)

-- What comes back: a success with its status and its JSON, an error status with what could be read
-- of its body, or no response.
pub data Reply (Json : Type 0) : Type 0 where
  answered : ℕ → Result Json Text → Reply Json
  refused : ℕ → Option ErrorBody → Reply Json
  no_response : Text → Reply Json

pub record Http : Type 1 where
  pub Json : Type 0
  pub null : Json
  pub is_null : Json → Bool
  pub is_object : Json → Bool
  pub member : Text → Json → Option Json
  pub pretty : Json → Result Text Text
  pub send_json : Text → Body → Reply Json

abbrev pub or_else : Option Text → Text → Text
or_else none d = d
or_else (some t) d = t

abbrev pub body_or_default : Option ErrorBody → ErrorBody
body_or_default none = no_error_body
body_or_default (some b) = b

-- The error that a status stands for.
unfoldable pub error_of : ℕ → ErrorBody → ServiceError
unfolding text_eq
error_of status problem =
    let message = or_else problem.message (codes "HTTP " ++ digits status) in
    let code = or_else problem.error (codes "http_" ++ digits status) in
    if leb 500 status || (status == 429)
    then unavailable message
    else if text_eq code (codes "revoked")
    then revoked message
    else rejected code message

module _ (H : Http) where
  abbrev pub value_of : Reply H.Json → Result H.Json ServiceError
  value_of (answered status body) =
      if status == 204
      then ok H.null
      else map_err (λ e. protocol (codes "invalid JSON response: " ++ e)) body
  value_of (refused status body) = err (error_of status (body_or_default body))
  value_of (no_response e) = err (unavailable e)

  unfoldable pub post : Text → Text → Body → Result H.Json ServiceError
  post base path body = value_of (H.send_json (base ++ path) body)

  abbrev pub envelope : H.Json → Result Text ServiceError
  envelope v =
      if H.is_object v
      then map_err protocol (H.pretty v)
      else err (protocol (codes "expected a signed envelope object"))

  abbrev pub optional_envelope : Option H.Json → Result (Option Text) ServiceError
  optional_envelope none = ok none
  optional_envelope (some v) = if H.is_null v then ok none else (envelope v >>= λ t. ok (some t))

  unfoldable pub parse_grant : H.Json → Result Grant ServiceError
  parse_grant value = do
    found ← ok_or (protocol (codes "response has no 'license'")) (H.member (codes "license") value)
    license ← envelope found
    activation ← optional_envelope (H.member (codes "activation") value)
    ok (record { license = license; activation = activation })

  abbrev pub http_activate : Text → ActivateRequest → Result Grant ServiceError
  http_activate base r =
      post base (codes "/v1/activations") (
        activate_body r.product.product_id r.product.major_version r.activation_key r.device_id
          r.client_secret)
      >>= parse_grant

  abbrev pub http_renew : Text → RenewRequest → Result Grant ServiceError
  http_renew base r = path_segment r.license_id >>= λ segment.
      post base (codes "/v1/licenses/" ++ segment ++ codes "/renew")
        (renew_body r.product.product_id r.product.major_version (body_of_option r.activation))
      >>= parse_grant

  abbrev pub http_deactivate : Text → Product → ActivationRef → Result (Unit {0}) ServiceError
  http_deactivate base product a = path_segment a.activation_id >>= λ segment.
      post base (codes "/v1/activations/" ++ segment ++ codes "/deactivate")
        (deactivate_body product.product_id product.major_version a.device_id a.client_secret)
      >>= λ v. ok tt

  -- `HttpLicenseService` at its base URL
  abbrev pub http_service : Text → LicenseService
  http_service base = record {
    activate = http_activate base;
    renew = http_renew base;
    deactivate = http_deactivate base;
  }
