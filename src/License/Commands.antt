-- ===== src/License/Commands.antt =====
-- crates/cursdel-cli/src/license_cmd.rs: the commands `cursdel license install`, `activate`,
-- `deactivate` and `renew`, less what they print. The server is the parameter `LicenseService`.
pub mod Changes
pub mod Found
pub mod Honest
pub mod Unreachable
use cursedelete.Base.{
  Bool, true, false, Option, none, some, List, [], ◌∷◌, if◌then◌else◌, Text, FilePath, text_eq,
  Result, ok, err,
}
use cursedelete.ExitCode.{ExitCode, success, cli_usage_error, license_required, unexpected_fatal}
use cursedelete.License.Formats.{Formats}
use cursedelete.License.Editions.{Edition, requires_activation}
use cursedelete.License.Claims.{LicenseClaims, ActivationClaims}
use cursedelete.License.Validate.{
  VerifiedLicense, LicensePolicy, verify_license, verify_license_identity, verify_activation,
  Rejection,
}
use cursedelete.License.Resolve.{Candidate, LocalState, Resolution, resolve, edition}
use cursedelete.License.Disk.{Disk, IoError}
use cursedelete.License.Store.{
  LicenseLocations, Scope, user, system, StoredActivation, ActivationCredentials, StateFormat,
}
use cursedelete.License.Store.Files.{
  candidates, candidates_in, activation_certificates, revoked_license_ids, read_credentials,
  write_license, write_activation, remove_activation, record_revocation, clear_revocation,
}
use cursedelete.License.Service.{
  Grant, Product, ActivationRef, ServiceError, revoked, rejected, LicenseService,
  code_activation_inactive,
}

-- `LicenseAction`, with the scope it acts on; `Status` changes nothing.
pub data LicenseAction : Type 0 where
  status : LicenseAction
  install_file : FilePath → Scope → LicenseAction
  activate_key : Text → Scope → LicenseAction
  deactivate_seat : Scope → LicenseAction
  renew_license : Scope → LicenseAction

abbrev pub ok_of {ℓ κ} : {A : Type ℓ} {E : Type κ} → Result A E → Option A
ok_of (ok a) = some a
ok_of (err e) = none

-- `Iterator::find_map`
unfoldable pub find_map {ℓ} : {A : Type ℓ} → (Text → Option A) → List Text → Option A
find_map f [] = none
find_map f (t ∷ ts) = elim (f t) [ some a ↦ some a | none ↦ find_map f ts ]

abbrev pub certificates_of : List StoredActivation → List Text
certificates_of [] = []
certificates_of (a ∷ rest) = a.certificate ∷ certificates_of rest

abbrev pub readable : List Candidate → List Text
readable [] = []
readable (c ∷ cs) = let rest = readable cs in elim c.contents [ ok t ↦ t ∷ rest | err e ↦ rest ]

-- `read_credentials(scope).ok().flatten()`
abbrev pub flattened {ℓ κ} : {A : Type ℓ} {E : Type κ} → Result (Option A) E → Option A
flattened (ok o) = o
flattened (err e) = none

-- The error says that the activation is inactive on the server.
abbrev pub is_inactive : Text → Bool
is_inactive code = text_eq code code_activation_inactive

module _ (F : Formats) (D : Disk) (J : StateFormat) where
  -- `client_secret` is what `generate_client_secret` returns.
  pub record Context : Type 0 where
    pub policy : LicensePolicy F
    pub locations : LicenseLocations
    pub device_id : Text
    pub now : F.Instant
    pub client_secret : Text

  module _ (ctx : Context) where
    -- `Context::resolve`
    abbrev pub resolve_context : D.World → Resolution F
    resolve_context w =
        resolve F ctx.policy
          (record {
            activation_certificates = certificates_of (activation_certificates D ctx.locations w);
            revoked_license_ids = revoked_license_ids D ctx.locations J w;
            device_id = ctx.device_id;
          })
          ctx.now (candidates D ctx.locations w)

    -- `current_edition`
    abbrev pub current_edition : D.World → Edition
    current_edition w = edition F (resolve_context w)

    abbrev pub product : Product
    product = record {
      product_id = ctx.policy.product.product_id;
      major_version = ctx.policy.product.major_version;
    }

    abbrev pub Outcome : Type 0
    Outcome = D.World × ExitCode

    abbrev pub written : D.World × Result (Unit {0}) IoError → Outcome
    written (w, ok u) = (w, success)
    written (w, err e) = (w, unexpected_fatal)

    abbrev pub install_verified :
        Scope → Text → Result (VerifiedLicense F) (Rejection F) → D.World → Outcome
    install_verified s text (err reason) w = (w, license_required)
    install_verified s text (ok v) w = written (write_license D ctx.locations s text w)

    -- `install`, given what reading the file gave.
    unfoldable pub install : Result Text IoError → Scope → D.World → Outcome
    install (err e) s w = (w, cli_usage_error)
    install (ok text) s w = install_verified s text (verify_license F ctx.policy text ctx.now) w

    -- The last steps of `activate` and `renew`; a failure to clear a revocation is ignored.
    abbrev pub cleared : Scope → Text → D.World × Result (Unit {0}) IoError → Outcome
    cleared s id (w, err e) = (w, unexpected_fatal)
    cleared s id (w, ok u) = ((clear_revocation D ctx.locations J s id w).0, success)

    unfoldable pub keep_license : Scope → Text → Text → D.World → Outcome
    keep_license s text id w = cleared s id (write_license D ctx.locations s text w)

    abbrev pub then_license : Scope → Text → Text → D.World × Result (Unit {0}) IoError → Outcome
    then_license s text id (w, err e) = (w, unexpected_fatal)
    then_license s text id (w, ok u) = keep_license s text id w

    -- The certificate that was granted, then the licence, once both are found good.
    unfoldable pub keep_activation :
        Scope → Text → Text → Text → Text → ActivationClaims F → D.World → Outcome
    keep_activation s text id cert secret a w = then_license s text id (
        write_activation D ctx.locations J s cert
          (record { activation_id = a.activation_id; client_secret = secret }) w)

    abbrev pub with_certificate :
        Scope
        → Text
        → LicenseClaims F
        → Text
        → Text
        → Result (ActivationClaims F) (Rejection F)
        → D.World
        → Outcome
    with_certificate s text c cert secret (err r) w = (w, license_required)
    with_certificate s text c cert secret (ok a) w =
        keep_activation s text c.license_id cert secret a w

    abbrev pub check_certificate : Scope → Text → LicenseClaims F → Text → Text → D.World → Outcome
    check_certificate s text c cert secret w =
        with_certificate s text c cert secret
          (verify_activation F ctx.policy cert c ctx.device_id ctx.now) w

    -- What `activate` does with a licence that was found good.
    abbrev pub activate_licensed :
        Scope → Grant → LicenseClaims F → Bool → Option Text → D.World → Outcome
    activate_licensed s g c false cert w = keep_license s g.license c.license_id w
    activate_licensed s g c true none w = (w, license_required)
    activate_licensed s g c true (some cert) w =
        check_certificate s g.license c cert ctx.client_secret w

    abbrev pub activate_verified :
        Scope → Grant → Result (VerifiedLicense F) (Rejection F) → D.World → Outcome
    activate_verified s g (err r) w = (w, license_required)
    activate_verified s g (ok v) w =
        activate_licensed s g v.claims (requires_activation v.claims.edition) g.activation w

    abbrev pub activate_granted : Scope → Result Grant ServiceError → D.World → Outcome
    activate_granted s (err e) w = (w, license_required)
    activate_granted s (ok g) w =
        activate_verified s g (verify_license F ctx.policy g.license ctx.now) w

    unfoldable pub activate : LicenseService → Text → Scope → D.World → Outcome
    activate service key s w =
        activate_granted s
          (service.activate (record {
            product = product;
            activation_key = key;
            device_id = ctx.device_id;
            client_secret = ctx.client_secret;
          }))
          w

    abbrev pub removed : D.World × Result (Unit {0}) IoError → ExitCode → Outcome
    removed (w, err e) code = (w, unexpected_fatal)
    removed (w, ok u) code = (w, code)

    abbrev pub reference : ActivationCredentials → ActivationRef
    reference c = record {
      activation_id = c.activation_id;
      device_id = ctx.device_id;
      client_secret = c.client_secret;
    }

    -- A seat that the server no longer knows counts as released.
    abbrev pub deactivate_answered : Scope → Result (Unit {0}) ServiceError → D.World → Outcome
    deactivate_answered s (ok u) w = removed (remove_activation D ctx.locations s w) success
    deactivate_answered s (err (rejected code message)) w =
        if is_inactive code
        then removed (remove_activation D ctx.locations s w) success
        else (w, license_required)
    deactivate_answered s (err (revoked message)) w =
        removed (remove_activation D ctx.locations s w) success
    deactivate_answered s (err _) w = (w, license_required)

    abbrev pub deactivate_stored :
        LicenseService → Scope → Result (Option ActivationCredentials) IoError → D.World → Outcome
    deactivate_stored service s (err e) w = (w, unexpected_fatal)
    deactivate_stored service s (ok none) w = (w, success)
    deactivate_stored service s (ok (some c)) w =
        deactivate_answered s (service.deactivate product (reference c)) w

    unfoldable pub deactivate : LicenseService → Scope → D.World → Outcome
    deactivate service s w = deactivate_stored service s (read_credentials D ctx.locations J s w) w

    abbrev pub or_else {ℓ} : {A : Type ℓ} → Option A → Option A → Option A
    or_else none other = other
    or_else (some a) other = some a

    -- A licence that is valid now, else one of this product, in term or not.
    unfoldable pub renewable : Scope → D.World → Option (VerifiedLicense F)
    renewable s w =
        let texts = readable (candidates_in D ctx.locations s w) in
        or_else (find_map (λ t. ok_of (verify_license F ctx.policy t ctx.now)) texts)
          (find_map (λ t. ok_of (verify_license_identity F ctx.policy t)) texts)

    -- The certificate of a renewal is used where there are credentials for it.
    abbrev pub renew_licensed :
        Scope
        → Grant
        → LicenseClaims F
        → Option Text
        → Option ActivationCredentials
        → D.World
        → Outcome
    renew_licensed s g c (some cert) (some creds) w =
        check_certificate s g.license c cert creds.client_secret w
    renew_licensed s g c _ _ w = keep_license s g.license c.license_id w

    abbrev pub renew_verified :
        Scope
        → Grant
        → Option ActivationCredentials
        → Result (VerifiedLicense F) (Rejection F)
        → D.World
        → Outcome
    renew_verified s g creds (err r) w = (w, license_required)
    renew_verified s g creds (ok v) w = renew_licensed s g v.claims g.activation creds w

    abbrev pub renew_answered :
        Scope → Text → Option ActivationCredentials → Result Grant ServiceError → D.World → Outcome
    renew_answered s id creds (ok g) w =
        renew_verified s g creds (verify_license F ctx.policy g.license ctx.now) w
    renew_answered s id creds (err (revoked message)) w =
        removed (record_revocation D ctx.locations J s id w) license_required
    renew_answered s id creds (err (rejected code message)) w =
        if is_inactive code
        then removed (remove_activation D ctx.locations s w) license_required
        else (w, license_required)
    renew_answered s id creds (err _) w = (w, license_required)

    abbrev pub credentials_for : LicenseClaims F → Scope → D.World → Option ActivationCredentials
    credentials_for c s w =
        if requires_activation c.edition
        then flattened (read_credentials D ctx.locations J s w)
        else none

    abbrev pub reference_of : Option ActivationCredentials → Option ActivationRef
    reference_of none = none
    reference_of (some c) = some (reference c)

    abbrev pub renew_current :
        LicenseService → Scope → Option (VerifiedLicense F) → D.World → Outcome
    renew_current service s none w = (w, license_required)
    renew_current service s (some v) w =
        let creds = credentials_for v.claims s w in
        renew_answered s v.claims.license_id creds
          (service.renew (record {
            product = product;
            license_id = v.claims.license_id;
            activation = reference_of creds;
          }))
          w

    unfoldable pub renew : LicenseService → Scope → D.World → Outcome
    renew service s w = renew_current service s (renewable s w) w

    -- `run`, with the service that is configured, or the address that was refused.
    unfoldable pub run : LicenseAction → Result LicenseService Text → D.World → Outcome
    run status service w = (w, success)
    run (install_file path s) service w = install (D.read_to_string w path) s w
    run (activate_key key s) (ok service) w = activate service key s w
    run (deactivate_seat s) (ok service) w = deactivate service s w
    run (renew_license s) (ok service) w = renew service s w
    run _ (err url) w = (w, license_required)
