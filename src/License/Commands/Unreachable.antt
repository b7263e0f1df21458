-- ===== src/License/Commands/Unreachable.antt =====
-- A call that fails without an answer changes nothing.
use cursedelete.Base.{◌≡◌, refl, false, Option, none, some, Text, Result, ok, err}
use cursedelete.License.Formats.{Formats}
use cursedelete.License.Validate.{VerifiedLicense}
use cursedelete.License.Disk.{Disk, IoError}
use cursedelete.License.Store.{Scope, ActivationCredentials, StateFormat}
use cursedelete.License.Store.Files.{read_credentials}
use cursedelete.License.Service.{
  Product, ActivationRef, ActivateRequest, RenewRequest, ServiceError, not_configured, unavailable,
  protocol, revoked, rejected, LicenseService,
}
use cursedelete.License.Commands.{
  LicenseAction, status, install_file, activate_key, deactivate_seat, renew_license, is_inactive,
  Context, product, activate, reference, deactivate_answered, deactivate_stored, deactivate,
  renewable, renew_answered, credentials_for, reference_of, renew_current, renew, run,
}

-- An error by which the server does not say that an activation or a licence is gone.
abbrev pub NoAnswer : ServiceError → Type 0
NoAnswer (rejected code message) = is_inactive code ≡ false
NoAnswer (revoked message) = ⊥
NoAnswer _ = Unit

-- Every call fails, and none says that something is gone.
pub record IsUnreachable (service : LicenseService) : Type 0 where
  pub activate_fails : (q : ActivateRequest) → (e : ServiceError) × (service.activate q ≡ err e)
  pub renew_fails : (q : RenewRequest) → (e : ServiceError) × (service.renew q ≡ err e) × NoAnswer e
  pub deactivate_fails :
      (p : Product) (a : ActivationRef)
      → (e : ServiceError) × (service.deactivate p a ≡ err e) × NoAnswer e

abbrev pub GoesOnline : LicenseAction → Type 0
GoesOnline (install_file path s) = ⊥
GoesOnline _ = Unit

module _ (F : Formats) (D : Disk) (J : StateFormat) (ctx : Context F D J) where
  deactivate_answered-same :
      (s : Scope) (e : ServiceError) (w : D.World)
      → NoAnswer e
      → (deactivate_answered F D J ctx s (err e) w).0 ≡ w
  deactivate_answered-same s not_configured w n = refl
  deactivate_answered-same s (unavailable m) w n = refl
  deactivate_answered-same s (protocol m) w n = refl
  deactivate_answered-same s (revoked m) w n = absurd n
  deactivate_answered-same s (rejected code m) w n = rw n refl

  renew_answered-same :
      (s : Scope) (id : Text) (creds : Option ActivationCredentials) (e : ServiceError)
      (w : D.World)
      → NoAnswer e
      → (renew_answered F D J ctx s id creds (err e) w).0 ≡ w
  renew_answered-same s id creds not_configured w n = refl
  renew_answered-same s id creds (unavailable m) w n = refl
  renew_answered-same s id creds (protocol m) w n = refl
  renew_answered-same s id creds (revoked m) w n = absurd n
  renew_answered-same s id creds (rejected code m) w n = rw n refl

  module _ (service : LicenseService) (x : IsUnreachable service) where
    deactivate_stored-same :
        (s : Scope) (r : Result (Option ActivationCredentials) IoError) (w : D.World)
        → (deactivate_stored F D J ctx service s r w).0 ≡ w
    deactivate_stored-same s (err e) w = refl
    deactivate_stored-same s (ok none) w = refl
    deactivate_stored-same s (ok (some c)) w =
        let (e, h, n) = x.deactivate_fails (product F D J ctx) (reference F D J ctx c) in
        rw h (deactivate_answered-same s e w n)

    renew_current-same :
        (s : Scope) (o : Option (VerifiedLicense F)) (w : D.World)
        → (renew_current F D J ctx service s o w).0 ≡ w
    renew_current-same s none w = refl
    renew_current-same s (some v) w =
        let creds = credentials_for F D J ctx v.claims s w in
        let (e, h, n) = x.renew_fails (record {
          product = product F D J ctx;
          license_id = v.claims.license_id;
          activation = reference_of F D J ctx creds;
        }) in
        rw h (renew_answered-same s v.claims.license_id creds e w n)

    -- A command that needs the server changes nothing when its calls fail and none of the errors says
    -- that an activation is inactive or a licence revoked.
    pub run-unreachable :
        (action : LicenseAction) (w : D.World)
        → GoesOnline action
        → (run F D J ctx action (ok service) w).0 ≡ w
    unfolding run activate deactivate renew
    run-unreachable status w g = refl
    run-unreachable (install_file path s) w g = absurd g
    run-unreachable (activate_key key s) w g =
        let (e, h) = x.activate_fails (record {
          product = product F D J ctx;
          activation_key = key;
          device_id = ctx.device_id;
          client_secret = ctx.client_secret;
        }) in
        rw h refl
    run-unreachable (deactivate_seat s) w g =
        deactivate_stored-same s (read_credentials D ctx.locations J s w) w
    run-unreachable (renew_license s) w g = renew_current-same s (renewable F D J ctx s w) w
