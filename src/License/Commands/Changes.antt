-- ===== src/License/Commands/Changes.antt =====
-- The changes that the licence commands may make, each with what entitles them to it.
use cursedelete.Base.{◌≡◌, ◌⊎◌, true, none, some, List, [], ◌∷◌, Text, Result, ok, err}
use cursedelete.License.Formats.{Formats}
use cursedelete.License.Claims.{ActivationClaims}
use cursedelete.License.Validate.{
  VerifiedLicense, verify_license, verify_license_identity, verify_activation,
}
use cursedelete.License.Disk.{Disk}
use cursedelete.License.Resolve.{Candidate}
use cursedelete.License.Store.{Scope, StateFormat, ActivationCredentials}
use cursedelete.License.Store.Files.{
  write_license, write_activation, remove_activation, record_revocation, clear_revocation,
  read_credentials, candidates_in,
}
use cursedelete.License.Service.{
  ActivationRef, RenewRequest, ServiceError, revoked, rejected, LicenseService,
}
use cursedelete.License.Commands.{
  is_inactive, Context, product, LicenseAction, status, install_file, activate_key, deactivate_seat,
  renew_license,
}

-- Some element of a list.
abbrev pub Some : {A : Type 0} → (A → Type 0) → List A → Type 0
Some P [] = ⊥
Some P (x ∷ xs) = P x ⊎ Some P xs

-- What the commands may do in a scope.
module _ (F : Formats) (D : Disk) (J : StateFormat) (ctx : Context F D J) (service : LicenseService)
    (s : Scope) where
  -- The server's answer to a call releases an activation: the seat is released or no longer known, or
  -- the licence is revoked.
  abbrev pub Inactive : ServiceError → Type 0
  Inactive e =
      (code : Text) × (message : Text) × (e ≡ rejected code message) × (is_inactive code ≡ true)

  abbrev pub Revoked : ServiceError → Type 0
  Revoked e = (message : Text) × (e ≡ revoked message)

  abbrev pub Released : Result (Unit {0}) ServiceError → Type 0
  Released r = (r ≡ ok tt) ⊎ ((e : ServiceError) × (r ≡ err e) × (Inactive e ⊎ Revoked e))

  -- The secret is the one that an activation sends, or the one that is stored in the scope.
  abbrev pub OwnSecret : Text → D.World → Type 0
  OwnSecret secret w =
      (secret ≡ ctx.client_secret)
      ⊎ ((c : ActivationCredentials) × (read_credentials D ctx.locations J s w ≡ ok (some c))
          × (secret ≡ c.client_secret))

  -- The reference to the activation whose credentials are stored in the scope.
  abbrev pub Stored : ActivationRef → D.World → Type 0
  Stored a w =
      (c : ActivationCredentials) × (read_credentials D ctx.locations J s w ≡ ok (some c))
      × (a ≡ record {
        activation_id = c.activation_id;
        device_id = ctx.device_id;
        client_secret = c.client_secret;
      })

  -- The licence is that of a file of the scope: it is valid now, or at least one of this product.
  abbrev pub Installed : VerifiedLicense F → D.World → Type 0
  Installed v w =
      Some
        (λ (c : Candidate).
          (text : Text) × (c.contents ≡ ok text)
          × ((verify_license F ctx.policy text ctx.now ≡ ok v)
              ⊎ (verify_license_identity F ctx.policy text ≡ ok v)))
        (candidates_in D ctx.locations s w)

  -- The request is for this product and a licence of the scope, with the activation that is stored
  -- there or with none.
  abbrev pub Asks : RenewRequest → D.World → Type 0
  Asks q w =
      (q.product ≡ product F D J ctx)
      × ((v : VerifiedLicense F) × Installed v w × (q.license_id ≡ v.claims.license_id))
      × ((q.activation ≡ none) ⊎ ((a : ActivationRef) × (q.activation ≡ some a) × Stored a w))

  -- One change of what is stored in the scope, with its reason.
  pub data Change : D.World → D.World → Type 0 where
    license_kept :
        (text : Text) (v : VerifiedLicense F) (w : D.World)
        → verify_license F ctx.policy text ctx.now ≡ ok v
        → Change w (write_license D ctx.locations s text w).0
    activation_kept :
        (cert : Text) (text : Text) (v : VerifiedLicense F) (a : ActivationClaims F) (secret : Text)
        (w : D.World)
        → verify_license F ctx.policy text ctx.now ≡ ok v
        → verify_activation F ctx.policy cert v.claims ctx.device_id ctx.now ≡ ok a
        → OwnSecret secret w
        → Change w
            (write_activation D ctx.locations J s cert
              (record { activation_id = a.activation_id; client_secret = secret })
              w).0
    revocation_cleared :
        (text : Text) (v : VerifiedLicense F) (w : D.World)
        → verify_license F ctx.policy text ctx.now ≡ ok v
        → Change w (clear_revocation D ctx.locations J s v.claims.license_id w).0
    seat_released :
        (a : ActivationRef) (w : D.World)
        → Stored a w
        → Released (service.deactivate (product F D J ctx) a)
        → Change w (remove_activation D ctx.locations s w).0
    seat_lost :
        (q : RenewRequest) (e : ServiceError) (w : D.World)
        → Asks q w
        → service.renew q ≡ err e
        → Inactive e
        → Change w (remove_activation D ctx.locations s w).0
    revocation_recorded :
        (q : RenewRequest) (e : ServiceError) (w : D.World)
        → Asks q w
        → service.renew q ≡ err e
        → Revoked e
        → Change w (record_revocation D ctx.locations J s q.license_id w).0

  pub data Changes : D.World → D.World → Type 0 where
    none_made : (w : D.World) → Changes w w
    one_more : {u v w : D.World} → Change u v → Changes v w → Changes u w

  abbrev pub one : {u v : D.World} → Change u v → Changes u v
  one c = one_more c (none_made _)

-- What a command may do: nothing, or such changes in the scope that it names.
abbrev pub Does :
    (F : Formats) (D : Disk) (J : StateFormat)
    → Context F D J
    → LicenseService
    → LicenseAction
    → D.World
    → D.World
    → Type 0
Does F D J ctx service status w v = w ≡ v
Does F D J ctx service (install_file path s) w v = Changes F D J ctx service s w v
Does F D J ctx service (activate_key key s) w v = Changes F D J ctx service s w v
Does F D J ctx service (deactivate_seat s) w v = Changes F D J ctx service s w v
Does F D J ctx service (renew_license s) w v = Changes F D J ctx service s w v
