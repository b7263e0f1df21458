-- ===== src/License/Service.antt =====
-- crates/cursdel-license/src/service.rs: what an application and the licensing server say to each
-- other. `LicenseService` is the trait of that name.
use cursedelete.Base.{ℕ, Option, Text, codes, Result, err}

-- A licence and perhaps a certificate, both still unverified.
pub record Grant : Type 0 where
  pub license : Text
  pub activation : Option Text

pub record Product : Type 0 where
  pub product_id : Text
  pub major_version : ℕ

pub record ActivationRef : Type 0 where
  pub activation_id : Text
  pub device_id : Text
  pub client_secret : Text

pub record ActivateRequest : Type 0 where
  pub product : Product
  pub activation_key : Text
  pub device_id : Text
  pub client_secret : Text

pub record RenewRequest : Type 0 where
  pub product : Product
  pub license_id : Text
  pub activation : Option ActivationRef

pub data ServiceError : Type 0 where
  not_configured : ServiceError
  unavailable : Text → ServiceError
  revoked : Text → ServiceError
  rejected : Text → Text → ServiceError  -- code, message
  protocol : Text → ServiceError

abbrev pub code_activation_inactive : Text
code_activation_inactive = codes "activation_inactive"

pub record LicenseService : Type 0 where
  pub activate : ActivateRequest → Result Grant ServiceError
  pub renew : RenewRequest → Result Grant ServiceError
  pub deactivate : Product → ActivationRef → Result (Unit {0}) ServiceError

-- `UnconfiguredService`
abbrev pub unconfigured_service : LicenseService
unconfigured_service = record {
  activate = λ r. err not_configured;
  renew = λ r. err not_configured;
  deactivate = λ p a. err not_configured;
}
