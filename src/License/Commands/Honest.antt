-- ===== src/License/Commands/Honest.antt =====
-- The licence commands change only what they are entitled to change.
use cursedelete.Base.{
  ◌≡◌, refl, ◌∙◌, ◌⊎◌, arith, inl, inr, Bool, true, false, Option, none, some, if-split,
  if◌then◌else◌, Text, Result, ok, err,
}
use cursedelete.ExitCode.{ExitCode, success, license_required}
use cursedelete.License.Formats.{Formats}
use cursedelete.License.Editions.{requires_activation}
use cursedelete.License.Claims.{LicenseClaims, ActivationClaims}
use cursedelete.License.Validate.{VerifiedLicense, verify_license, verify_activation, Rejection}
use cursedelete.License.Disk.{Disk, IoError}
use cursedelete.License.Store.{Scope, ActivationCredentials, StateFormat}
use cursedelete.License.Store.Files.{
  read_credentials, write_license, write_activation, remove_activation, record_revocation,
}
use cursedelete.License.Service.{
  Grant, ActivationRef, RenewRequest, ServiceError, not_configured, unavailable, protocol, revoked,
  rejected, LicenseService,
}
use cursedelete.License.Commands.{
  flattened, LicenseAction, status, install_file, activate_key, deactivate_seat, renew_license,
  is_inactive, Context, product, install, install_verified, written, cleared, keep_license,
  then_license, keep_activation, with_certificate, check_certificate, activate_licensed,
  activate_verified, activate_granted, activate, removed, reference, deactivate_answered,
  deactivate_stored, deactivate, renewable, renew_licensed, renew_verified, renew_answered,
  credentials_for, reference_of, renew_current, renew, run,
}
use cursedelete.License.Commands.Changes.{
  Change, license_kept, activation_kept, revocation_cleared, seat_released, seat_lost,
  revocation_recorded, Changes, none_made, one_more, one, OwnSecret, Stored, Asks, Does,
}
use cursedelete.License.Commands.Found.{renewable-Installed}

module _ (F : Formats) (D : Disk) (J : StateFormat) (ctx : Context F D J) (service : LicenseService)
    (s : Scope) where
  abbrev Allowed : D.World → D.World → Type 0
  Allowed = Changes F D J ctx service s

  abbrev AllowedOnce : D.World → D.World → Type 0
  AllowedOnce = Change F D J ctx service s

  written-Allowed :
      (w : D.World) (o : D.World × Result (Unit {0}) IoError)
      → AllowedOnce w o.0
      → Allowed w (written F D J ctx o).0
  written-Allowed w (v, ok u) c = one F D J ctx service s c
  written-Allowed w (v, err e) c = one F D J ctx service s c

  removed-Allowed :
      (w : D.World) (o : D.World × Result (Unit {0}) IoError) (code : ExitCode)
      → AllowedOnce w o.0
      → Allowed w (removed F D J ctx o code).0
  removed-Allowed w (v, ok u) code c = one F D J ctx service s c
  removed-Allowed w (v, err e) code c = one F D J ctx service s c

  module _ (text : Text) (v : VerifiedLicense F)
      (good : verify_license F ctx.policy text ctx.now ≡ ok v) where
    cleared-Allowed :
        (w : D.World) (o : D.World × Result (Unit {0}) IoError)
        → AllowedOnce w o.0
        → Allowed w (cleared F D J ctx s v.claims.license_id o).0
    cleared-Allowed w (u, err e) c = one F D J ctx service s c
    cleared-Allowed w (u, ok x) c =
        one_more c (one F D J ctx service s (revocation_cleared text v u good))

    keep_license-Allowed :
        (w : D.World) → Allowed w (keep_license F D J ctx s text v.claims.license_id w).0
    unfolding keep_license
    keep_license-Allowed w =
        cleared-Allowed w (write_license D ctx.locations s text w) (license_kept text v w good)

    then_license-Allowed :
        (w : D.World) (o : D.World × Result (Unit {0}) IoError)
        → AllowedOnce w o.0
        → Allowed w (then_license F D J ctx s text v.claims.license_id o).0
    then_license-Allowed w (u, err e) c = one F D J ctx service s c
    then_license-Allowed w (u, ok x) c = one_more c (keep_license-Allowed u)

    with_certificate-Allowed :
        (cert secret : Text) (r : Result (ActivationClaims F) (Rejection F)) (w : D.World)
        → verify_activation F ctx.policy cert v.claims ctx.device_id ctx.now ≡ r
        → OwnSecret F D J ctx service s secret w
        → Allowed w (with_certificate F D J ctx s text v.claims cert secret r w).0
    unfolding keep_activation
    with_certificate-Allowed cert secret (err e) w h own = none_made w
    with_certificate-Allowed cert secret (ok a) w h own =
        then_license-Allowed w
          (write_activation D ctx.locations J s cert
            (record { activation_id = a.activation_id; client_secret = secret }) w)
          (activation_kept cert text v a secret w good h own)

    check_certificate-Allowed :
        (cert secret : Text) (w : D.World)
        → OwnSecret F D J ctx service s secret w
        → Allowed w (check_certificate F D J ctx s text v.claims cert secret w).0
    check_certificate-Allowed cert secret w own =
        with_certificate-Allowed cert secret
          (verify_activation F ctx.policy cert v.claims ctx.device_id ctx.now) w refl own

  install_verified-Allowed :
      (text : Text) (r : Result (VerifiedLicense F) (Rejection F)) (w : D.World)
      → verify_license F ctx.policy text ctx.now ≡ r
      → Allowed w (install_verified F D J ctx s text r w).0
  install_verified-Allowed text (err e) w h = none_made w
  install_verified-Allowed text (ok v) w h =
      written-Allowed w (write_license D ctx.locations s text w) (license_kept text v w h)

  install-Allowed : (r : Result Text IoError) (w : D.World) → Allowed w (install F D J ctx r s w).0
  unfolding install
  install-Allowed (err e) w = none_made w
  install-Allowed (ok text) w =
      install_verified-Allowed text (verify_license F ctx.policy text ctx.now) w refl

  activate_licensed-Allowed :
      (g : Grant) (v : VerifiedLicense F) (b : Bool) (cert : Option Text) (w : D.World)
      → verify_license F ctx.policy g.license ctx.now ≡ ok v
      → Allowed w (activate_licensed F D J ctx s g v.claims b cert w).0
  activate_licensed-Allowed g v false cert w h = keep_license-Allowed g.license v h w
  activate_licensed-Allowed g v true none w h = none_made w
  activate_licensed-Allowed g v true (some cert) w h =
      check_certificate-Allowed g.license v h cert ctx.client_secret w (inl refl)

  activate_verified-Allowed :
      (g : Grant) (r : Result (VerifiedLicense F) (Rejection F)) (w : D.World)
      → verify_license F ctx.policy g.license ctx.now ≡ r
      → Allowed w (activate_verified F D J ctx s g r w).0
  activate_verified-Allowed g (err e) w h = none_made w
  activate_verified-Allowed g (ok v) w h =
      activate_licensed-Allowed g v (requires_activation v.claims.edition) g.activation w h

  activate_granted-Allowed :
      (r : Result Grant ServiceError) (w : D.World) → Allowed w (activate_granted F D J ctx s r w).0
  activate_granted-Allowed (err e) w = none_made w
  activate_granted-Allowed (ok g) w =
      activate_verified-Allowed g (verify_license F ctx.policy g.license ctx.now) w refl

  deactivate_answered-Allowed :
      (a : ActivationRef) (r : Result (Unit {0}) ServiceError) (w : D.World)
      → Stored F D J ctx service s a w
      → service.deactivate (product F D J ctx) a ≡ r
      → Allowed w (deactivate_answered F D J ctx s r w).0
  deactivate_answered-Allowed a (ok u) w kept h =
      removed-Allowed w (remove_activation D ctx.locations s w) success
        (seat_released a w kept (inl h))
  deactivate_answered-Allowed a (err (rejected code message)) w kept h =
      if-split (λ (o : D.World × ExitCode). Allowed w o.0) (is_inactive code) _ _
        (λ b.
          removed-Allowed w (remove_activation D ctx.locations s w) success
            (seat_released a w kept (inr (rejected code message, h, inl (code, message, refl, b)))))
        (λ b. none_made w)
  deactivate_answered-Allowed a (err (revoked message)) w kept h =
      removed-Allowed w (remove_activation D ctx.locations s w) success
        (seat_released a w kept (inr (revoked message, h, inr (message, refl))))
  deactivate_answered-Allowed a (err not_configured) w kept h = none_made w
  deactivate_answered-Allowed a (err (unavailable m)) w kept h = none_made w
  deactivate_answered-Allowed a (err (protocol m)) w kept h = none_made w

  deactivate_stored-Allowed :
      (r : Result (Option ActivationCredentials) IoError) (w : D.World)
      → read_credentials D ctx.locations J s w ≡ r
      → Allowed w (deactivate_stored F D J ctx service s r w).0
  deactivate_stored-Allowed (err e) w e' = none_made w
  deactivate_stored-Allowed (ok none) w e = none_made w
  deactivate_stored-Allowed (ok (some c)) w e =
      deactivate_answered-Allowed (reference F D J ctx c)
        (service.deactivate (product F D J ctx) (reference F D J ctx c)) w (c, e, refl) refl

  -- The credentials that are presented are those stored in the scope.
  abbrev Held : Option ActivationCredentials → D.World → Type 0
  Held o w =
      (c : ActivationCredentials)
      → o ≡ some c
      → read_credentials D ctx.locations J s w ≡ ok (some c)

  renew_licensed-Allowed :
      (g : Grant) (v : VerifiedLicense F) (cert : Option Text)
      (creds : Option ActivationCredentials) (w : D.World)
      → verify_license F ctx.policy g.license ctx.now ≡ ok v
      → Held creds w
      → Allowed w (renew_licensed F D J ctx s g v.claims cert creds w).0
  renew_licensed-Allowed g v none creds w h held = keep_license-Allowed g.license v h w
  renew_licensed-Allowed g v (some cert) none w h held = keep_license-Allowed g.license v h w
  renew_licensed-Allowed g v (some cert) (some c) w h held =
      check_certificate-Allowed g.license v h cert c.client_secret w (inr (c, held c refl, refl))

  renew_verified-Allowed :
      (g : Grant) (creds : Option ActivationCredentials)
      (r : Result (VerifiedLicense F) (Rejection F)) (w : D.World)
      → verify_license F ctx.policy g.license ctx.now ≡ r
      → Held creds w
      → Allowed w (renew_verified F D J ctx s g creds r w).0
  renew_verified-Allowed g creds (err e) w h held = none_made w
  renew_verified-Allowed g creds (ok v) w h held =
      renew_licensed-Allowed g v g.activation creds w h held

  renew_answered-Allowed :
      (q : RenewRequest) (creds : Option ActivationCredentials) (r : Result Grant ServiceError)
      (w : D.World)
      → Asks F D J ctx service s q w
      → Held creds w
      → service.renew q ≡ r
      → Allowed w (renew_answered F D J ctx s q.license_id creds r w).0
  renew_answered-Allowed q creds (ok g) w asks held h =
      renew_verified-Allowed g creds (verify_license F ctx.policy g.license ctx.now) w refl held
  renew_answered-Allowed q creds (err (revoked message)) w asks held h =
      removed-Allowed w (record_revocation D ctx.locations J s q.license_id w) license_required
        (revocation_recorded q (revoked message) w asks h (message, refl))
  renew_answered-Allowed q creds (err (rejected code message)) w asks held h =
      if-split (λ (o : D.World × ExitCode). Allowed w o.0) (is_inactive code) _ _
        (λ b.
          removed-Allowed w (remove_activation D ctx.locations s w) license_required
            (seat_lost q (rejected code message) w asks h (code, message, refl, b)))
        (λ b. none_made w)
  renew_answered-Allowed q creds (err not_configured) w asks held h = none_made w
  renew_answered-Allowed q creds (err (unavailable m)) w asks held h = none_made w
  renew_answered-Allowed q creds (err (protocol m)) w asks held h = none_made w

  credentials_for-Held :
      (c : LicenseClaims F) (w : D.World) → Held (credentials_for F D J ctx c s w) w
  credentials_for-Held c w creds h =
      by_edition (requires_activation c.edition) (read_credentials D ctx.locations J s w) refl h
    where
      by_edition :
          (b : Bool) (r : Result (Option ActivationCredentials) IoError)
          → read_credentials D ctx.locations J s w ≡ r
          → (if b then flattened r else none) ≡ some creds
          → read_credentials D ctx.locations J s w ≡ ok (some creds)
      by_edition true (ok (some d)) e k = e ∙ ground (arith, k)
      by_edition true (ok none) e k = cc
      by_edition true (err m) e k = cc
      by_edition false r e k = cc

  reference_of-Stored :
      (o : Option ActivationCredentials) (w : D.World)
      → Held o w
      → (reference_of F D J ctx o ≡ none)
        ⊎ ((a : ActivationRef) × (reference_of F D J ctx o ≡ some a)
            × Stored F D J ctx service s a w)
  reference_of-Stored none w held = inl refl
  reference_of-Stored (some c) w held = inr (reference F D J ctx c, refl, (c, held c refl, refl))

  renew_current-Allowed :
      (o : Option (VerifiedLicense F)) (w : D.World)
      → renewable F D J ctx s w ≡ o
      → Allowed w (renew_current F D J ctx service s o w).0
  renew_current-Allowed none w e = none_made w
  renew_current-Allowed (some v) w e =
      let creds = credentials_for F D J ctx v.claims s w in
      let held = credentials_for-Held v.claims w in
      renew_answered-Allowed
        (record {
          product = product F D J ctx;
          license_id = v.claims.license_id;
          activation = reference_of F D J ctx creds;
        })
        creds _ w
        (
          refl,
          (v, renewable-Installed F D J ctx service s w v e, refl),
          reference_of-Stored creds w held,
        )
        held refl

module _ (F : Formats) (D : Disk) (J : StateFormat) (ctx : Context F D J)
    (service : LicenseService) where
  -- Whatever the server answers, a command makes only such changes to the scope that it names as
  -- these, in some order: it keeps a licence that is valid now; keeps a
  -- certificate that activates a valid licence on this device, with the secret that was sent or stored;
  -- clears the revocation of a valid licence; removes the activation stored there after the server was
  -- asked about that very activation and said that it is released, no longer active or revoked, or
  -- after a request to renew a licence of the scope was refused because its activation is no longer
  -- active; and records the revocation of a licence of the scope that the server says is revoked.
  pub run-Changes :
      (action : LicenseAction) (w : D.World)
      → Does F D J ctx service action w (run F D J ctx action (ok service) w).0
  unfolding run activate deactivate renew
  run-Changes status w = refl
  run-Changes (install_file path s) w =
      install-Allowed F D J ctx service s (D.read_to_string w path) w
  run-Changes (activate_key key s) w = activate_granted-Allowed F D J ctx service s _ w
  run-Changes (deactivate_seat s) w =
      deactivate_stored-Allowed F D J ctx service s (read_credentials D ctx.locations J s w) w refl
  run-Changes (renew_license s) w =
      renew_current-Allowed F D J ctx service s (renewable F D J ctx s w) w refl
