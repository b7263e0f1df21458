-- ===== src/License/Validate/Entitlement.antt =====
-- Which licences and certificates entitle, from the file to the dates.
use cursedelete.Base.{
  lowered, ℕ, ◌<◌, ◌≡◌, refl, subst, ◌↔◌, Option, none, some, arith, Text, text_eq_iff, Result, ok,
  >>=-elim, ok-injective, map_err_iff, >>=-ok, map_err,
}
use cursedelete.License.Formats.{Formats, Bytes, RawLicense, RawActivation}
use cursedelete.License.Envelope.{
  EnvelopeKind, EnvelopeError, VerifiedPayload, open_envelope, license, activation,
}
use cursedelete.License.Envelope.Opening.{Opens, open_envelope_iff}
use cursedelete.License.Claims.{
  Term, perpetual, subscription, LicenseClaims, ActivationClaims, parse_license, parse_activation,
}
use cursedelete.License.Claims.Fields.{ReadsAs}
use cursedelete.License.Claims.Rules.{Describes, IsLawful, parse_license_iff}
use cursedelete.License.Claims.Certificates.{Certifies, IsCertificate, parse_activation_iff}
use cursedelete.License.Validate.{
  Rejection, LicensePolicy, VerifiedLicense, from_envelope, from_claims, check_identity,
  verify_license_identity, check_not_expired, verify_license, invalid_envelope, invalid_claims,
  invalid_identity, check_license_id, check_device, check_cert_expiry, check_offline,
  verify_activation,
}

module _ (F : Formats) where
  -- Not yet at the instant, if there is one.
  abbrev pub Before : F.Instant → Option F.Instant → Type 0
  Before now none = Unit
  Before now (some e) = F.at now < F.at e

  abbrev pub InTerm : F.Instant → Term F → Type 0
  InTerm now perpetual = Unit
  InTerm now (subscription e) = F.at now < F.at e

  abbrev pub RefreshedSince : F.Instant → F.Instant → Option F.Duration → Type 0
  RefreshedSince now issued none = Unit
  RefreshedSince now issued (some limit) = F.at now < F.at (F.plus issued limit)

  abbrev pub IsFor : LicensePolicy F → Text → ℕ → Type 0
  IsFor policy product version =
      (product ≡ policy.product.product_id) × (version ≡ policy.product.major_version)

  check_identity_iff :
      (policy : LicensePolicy F) (product : Text) (version : ℕ)
      → (check_identity F policy product version ≡ ok tt) ↔ IsFor policy product version
  unfolding check_identity
  check_identity_iff policy product version =
      ground (arith, text_eq_iff product policy.product.product_id)

  check_not_expired_iff :
      (now : F.Instant) (t : Term F) → (check_not_expired F now t ≡ ok tt) ↔ InTerm now t
  check_not_expired_iff now perpetual = ground arith
  check_not_expired_iff now (subscription e) = ground arith

  check_license_id_iff :
      (c : ActivationClaims F) (l : LicenseClaims F)
      → (check_license_id F c l ≡ ok tt) ↔ (c.license_id ≡ l.license_id)
  check_license_id_iff c l = ground (arith, text_eq_iff c.license_id l.license_id)

  check_device_iff :
      (c : ActivationClaims F) (d : Text)
      → (check_device F c d ≡ ok tt) ↔ (lowered c.device_id ≡ lowered d)
  check_device_iff c d = ground (arith, text_eq_iff (lowered c.device_id) (lowered d))

  check_cert_expiry_iff :
      (now : F.Instant) (x : Option F.Instant) → (check_cert_expiry F now x ≡ ok tt) ↔ Before now x
  check_cert_expiry_iff now none = ground arith
  check_cert_expiry_iff now (some e) = ground arith

  check_offline_iff :
      (now issued : F.Instant) (x : Option F.Duration)
      → (check_offline F now issued x ≡ ok tt) ↔ RefreshedSince now issued x
  check_offline_iff now issued none = ground arith
  check_offline_iff now issued (some e) = ground arith

  module _ (policy : LicensePolicy F) where
    abbrev opening : EnvelopeKind → Text → Result VerifiedPayload EnvelopeError
    opening kind text = open_envelope F text kind policy.trusted_keys policy.allowed_algorithms

    abbrev pub OpensAs : EnvelopeKind → Text → VerifiedPayload → Type 0
    OpensAs kind text p = Opens F policy.trusted_keys policy.allowed_algorithms text kind p

    opened_iff :
        (f : EnvelopeError → Rejection F) (kind : EnvelopeKind) (text : Text) (p : VerifiedPayload)
        → (map_err f (opening kind text) ≡ ok p) ↔ OpensAs kind text p
    opened_iff f kind text p =
        let o = open_envelope_iff F policy.trusted_keys policy.allowed_algorithms text kind p in
        let e = map_err_iff f (opening kind text) p in (λ h. o.0 (e.0 h), λ h. e.1 (o.1 h))

    -- A licence that is signed, lawful, and for this product and version.
    abbrev pub Identifies : Text → VerifiedLicense F → Type 0
    Identifies text v =
        (payload : Bytes) × OpensAs license text
          (record { payload = payload; verified_by = v.signed_by })
        × ((raw : RawLicense F.Instant) × ReadsAs F F.license_of payload raw
            × Describes F raw v.claims
            × IsLawful F v.claims)
        × IsFor policy v.claims.product_id v.claims.major_version

    verify_license_identity-Identifies :
        (text : Text) (v : VerifiedLicense F)
        → verify_license_identity F policy text ≡ ok v
        → Identifies text v
    unfolding verify_license_identity
    verify_license_identity-Identifies text v h =
        >>=-elim (map_err (from_envelope F) (opening license text)) _ h λ p opened h1.
          >>=-elim (map_err (from_claims F) (parse_license F p.payload)) _ h1 λ c parsed h2.
            >>=-elim (check_identity F policy c.product_id c.major_version) _ h2 λ u same h3.
              subst (Identifies text) (ok-injective h3) (
                p.payload,
                (opened_iff (from_envelope F) license text p).0 opened,
                (parse_license_iff F p.payload c).0
                    ((map_err_iff (from_claims F) (parse_license F p.payload) c).0 parsed),
                (check_identity_iff policy c.product_id c.major_version).0 same,
              )

    Identifies-verify_license_identity :
        (text : Text) (v : VerifiedLicense F)
        → Identifies text v
        → verify_license_identity F policy text ≡ ok v
    unfolding verify_license_identity
    Identifies-verify_license_identity text v (payload, opened, parsed, same) =
        >>=-ok (map_err (from_envelope F) (opening license text)) _
          (record { payload = payload; verified_by = v.signed_by })
          ((opened_iff (from_envelope F) license text _).1 opened)
          (>>=-ok (map_err (from_claims F) (parse_license F payload)) _ v.claims
            ((map_err_iff (from_claims F) (parse_license F payload) v.claims).1
              ((parse_license_iff F payload v.claims).1 parsed))
            (>>=-ok (check_identity F policy v.claims.product_id v.claims.major_version) _ tt
              ((check_identity_iff policy v.claims.product_id v.claims.major_version).1 same) refl))

    -- A file is accepted as a licence exactly when it opens as one, its claims are lawful, they name this
    -- product and version, and the licence has not expired; the result is these claims, with the
    -- signatures that count.
    pub verify_license_iff :
        (text : Text) (now : F.Instant) (v : VerifiedLicense F)
        → (verify_license F policy text now ≡ ok v) ↔ (Identifies text v × InTerm now v.claims.term)
    unfolding verify_license
    verify_license_iff text now v = (
      λ h. >>=-elim (verify_license_identity F policy text) _ h λ w identified h1.
          >>=-elim (check_not_expired F now w.claims.term) _ h1 λ u fresh h2.
            subst (λ v. Identifies text v × InTerm now v.claims.term) (ok-injective h2)
              (
                verify_license_identity-Identifies text w identified,
                (check_not_expired_iff now w.claims.term).0 fresh,
              ),
      λ (identified, fresh).
          >>=-ok (verify_license_identity F policy text) _ v
            (Identifies-verify_license_identity text v identified)
            (>>=-ok (check_not_expired F now v.claims.term) _ tt
              ((check_not_expired_iff now v.claims.term).1 fresh) refl),
    )

    -- A certificate that is signed and well formed.
    abbrev pub IsSigned : Text → ActivationClaims F → Type 0
    IsSigned text c =
        (p : VerifiedPayload) × OpensAs activation text p
        × ((raw : RawActivation F.Instant) × ReadsAs F F.activation_of p.payload raw
            × Certifies F raw c
            × IsCertificate F c)

    -- It activates this licence of this product on this device, and is still good.
    pub record Activates (l : LicenseClaims F) (device : Text) (now : F.Instant)
        (c : ActivationClaims F) : Type 0 where
      pub for_product : IsFor policy c.product_id c.major_version
      pub for_license : c.license_id ≡ l.license_id
      pub for_device : lowered c.device_id ≡ lowered device
      pub not_expired : Before now c.expires_at
      pub refreshed : RefreshedSince now c.issued_at policy.business_offline_limit

    verify_activation-Activates :
        (text : Text) (l : LicenseClaims F) (device : Text) (now : F.Instant)
        (c : ActivationClaims F)
        → verify_activation F policy text l device now ≡ ok c
        → IsSigned text c × Activates l device now c
    unfolding verify_activation
    verify_activation-Activates text l device now c h =
        >>=-elim (map_err (invalid_envelope F) (opening activation text)) _ h λ p opened h1.
          >>=-elim (map_err (invalid_claims F) (parse_activation F p.payload)) _ h1 λ d parsed h2.
            >>=-elim
              (map_err (invalid_identity F) (check_identity F policy d.product_id d.major_version))
              _ h2
              λ u1 product h3. >>=-elim (check_license_id F d l) _ h3 λ u2 same h4.
                >>=-elim (check_device F d device) _ h4 λ u3 here h5.
                  >>=-elim (check_cert_expiry F now d.expires_at) _ h5 λ u4 fresh h6.
                    >>=-elim (check_offline F now d.issued_at policy.business_offline_limit) _ h6
                      λ u5 refreshed h7.
                        subst (λ c. IsSigned text c × Activates l device now c) (ok-injective h7)
                          (
                            (
                              p,
                              (opened_iff (invalid_envelope F) activation text p).0 opened,
                              (parse_activation_iff F p.payload d).0 (
                                  (map_err_iff (invalid_claims F) (parse_activation F p.payload)
                                      d).0
                                    parsed),
                            ),
                            record {
                              for_product =
                                  (check_identity_iff policy d.product_id d.major_version).0 (
                                    (map_err_iff (invalid_identity F)
                                        (check_identity F policy d.product_id d.major_version) tt).0
                                      product);
                              for_license = (check_license_id_iff d l).0 same;
                              for_device = (check_device_iff d device).0 here;
                              not_expired = (check_cert_expiry_iff now d.expires_at).0 fresh;
                              refreshed =
                                  (check_offline_iff now d.issued_at
                                      policy.business_offline_limit).0
                                    refreshed;
                            },
                          )

    Activates-verify_activation :
        (text : Text) (l : LicenseClaims F) (device : Text) (now : F.Instant)
        (c : ActivationClaims F)
        → IsSigned text c
        → Activates l device now c
        → verify_activation F policy text l device now ≡ ok c
    unfolding verify_activation
    Activates-verify_activation text l device now c (p, opened, parsed) a =
        >>=-ok (map_err (invalid_envelope F) (opening activation text)) _ p
          ((opened_iff (invalid_envelope F) activation text p).1 opened)
          (>>=-ok (map_err (invalid_claims F) (parse_activation F p.payload)) _ c
            ((map_err_iff (invalid_claims F) (parse_activation F p.payload) c).1
              ((parse_activation_iff F p.payload c).1 parsed))
            (>>=-ok
              (map_err (invalid_identity F) (check_identity F policy c.product_id c.major_version))
              _ tt
              ((map_err_iff (invalid_identity F)
                  (check_identity F policy c.product_id c.major_version) tt).1
                ((check_identity_iff policy c.product_id c.major_version).1 a.for_product))
              (>>=-ok (check_license_id F c l) _ tt ((check_license_id_iff c l).1 a.for_license) (
                >>=-ok (check_device F c device) _ tt ((check_device_iff c device).1 a.for_device) (
                  >>=-ok (check_cert_expiry F now c.expires_at) _ tt
                    ((check_cert_expiry_iff now c.expires_at).1 a.not_expired)
                    (>>=-ok (check_offline F now c.issued_at policy.business_offline_limit) _ tt
                      ((check_offline_iff now c.issued_at policy.business_offline_limit).1
                        a.refreshed)
                      refl))))))

    -- A certificate is accepted for a licence exactly when it opens as one, is well formed, and is for
    -- this product, version, licence and device, has not expired and was issued within the limit.
    pub verify_activation_iff :
        (text : Text) (l : LicenseClaims F) (device : Text) (now : F.Instant)
        (c : ActivationClaims F)
        → (verify_activation F policy text l device now ≡ ok c)
          ↔ (IsSigned text c × Activates l device now c)
    verify_activation_iff text l device now c = (
      verify_activation-Activates text l device now c,
      λ (s, a). Activates-verify_activation text l device now c s a,
    )
