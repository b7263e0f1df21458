-- ===== src/License/Claims/Certificates.antt =====
-- Which activation certificates are accepted: the rules, field by field.
use cursedelete.Base.{
  ◌<◌, ◌≡◌, refl, subst, ◌↔◌, Option, none, some, arith, codes, ok, >>=-elim, ok-injective, >>=-ok,
}
use cursedelete.License.Formats.{Formats, Bytes, RawActivation}
use cursedelete.License.Claims.{
  non_empty, ActivationClaims, raw_activation, check_expiry, certificate_of, parse_activation,
}
use cursedelete.License.Claims.Fields.{Filled, non_empty_iff, ReadsAs, fields-ReadsAs}

module _ (F : Formats) where
  pub record Certifies (raw : RawActivation F.Instant) (c : ActivationClaims F) : Type 0 where
    pub same_activation : raw.activation_id ≡ c.activation_id
    pub same_license : raw.license_id ≡ c.license_id
    pub same_product : raw.product_id ≡ c.product_id
    pub same_version : raw.major_version ≡ c.major_version
    pub same_device : raw.device_id ≡ c.device_id
    pub same_issue : raw.issued_at ≡ c.issued_at
    pub same_expiry : raw.expires_at ≡ c.expires_at

  abbrev pub ExpiresAfter : F.Instant → Option F.Instant → Type 0
  ExpiresAfter issued none = Unit
  ExpiresAfter issued (some e) = F.at issued < F.at e

  pub record IsCertificate (c : ActivationClaims F) : Type 0 where
    pub has_activation : Filled c.activation_id
    pub has_license : Filled c.license_id
    pub has_product : Filled c.product_id
    pub has_device : Filled c.device_id
    pub expires_after : ExpiresAfter c.issued_at c.expires_at

  check_expiry_iff :
      (issued : F.Instant) (x : Option F.Instant)
      → (check_expiry F issued x ≡ ok tt) ↔ ExpiresAfter issued x
  check_expiry_iff issued none = ground arith
  check_expiry_iff issued (some e) = ground arith

  certificate_of-IsCertificate :
      (raw : RawActivation F.Instant) (c : ActivationClaims F)
      → certificate_of F raw ≡ ok c
      → Certifies raw c × IsCertificate c
  unfolding certificate_of
  certificate_of-IsCertificate raw c h =
      >>=-elim (check_expiry F raw.issued_at raw.expires_at) _ h λ u expiry h1.
        >>=-elim (non_empty (codes "activationId") raw.activation_id) _ h1 λ a activation h2.
          >>=-elim (non_empty (codes "licenseId") raw.license_id) _ h2 λ l license h3.
            >>=-elim (non_empty (codes "productId") raw.product_id) _ h3 λ p product h4.
              >>=-elim (non_empty (codes "deviceId") raw.device_id) _ h4 λ d device h5.
                let (a1, a2) = (non_empty_iff _ raw.activation_id a).0 activation in
                let (l1, l2) = (non_empty_iff _ raw.license_id l).0 license in
                let (p1, p2) = (non_empty_iff _ raw.product_id p).0 product in
                let (d1, d2) = (non_empty_iff _ raw.device_id d).0 device in
                subst (λ c. Certifies raw c × IsCertificate c) (ok-injective h5)
                  (
                    record {
                      same_activation = a1;
                      same_license = l1;
                      same_product = p1;
                      same_version = refl;
                      same_device = d1;
                      same_issue = refl;
                      same_expiry = refl;
                    },
                    record {
                      has_activation = a2;
                      has_license = l2;
                      has_product = p2;
                      has_device = d2;
                      expires_after = (check_expiry_iff raw.issued_at raw.expires_at).0 expiry;
                    },
                  )

  IsCertificate-certificate_of :
      (raw : RawActivation F.Instant) (c : ActivationClaims F)
      → Certifies raw c
      → IsCertificate c
      → certificate_of F raw ≡ ok c
  unfolding certificate_of
  IsCertificate-certificate_of raw c d l =
      >>=-ok (check_expiry F raw.issued_at raw.expires_at) _ tt
        ((check_expiry_iff raw.issued_at raw.expires_at).1
          (rw d.same_issue (rw d.same_expiry l.expires_after)))
        (>>=-ok (non_empty _ raw.activation_id) _ c.activation_id
          ((non_empty_iff _ raw.activation_id c.activation_id).1
            (d.same_activation, l.has_activation))
          (>>=-ok (non_empty _ raw.license_id) _ c.license_id
            ((non_empty_iff _ raw.license_id c.license_id).1 (d.same_license, l.has_license))
            (>>=-ok (non_empty _ raw.product_id) _ c.product_id
              ((non_empty_iff _ raw.product_id c.product_id).1 (d.same_product, l.has_product))
              (>>=-ok (non_empty _ raw.device_id) _ c.device_id
                ((non_empty_iff _ raw.device_id c.device_id).1 (d.same_device, l.has_device))
                (rw d.same_version (rw d.same_issue (rw d.same_expiry refl)))))))

  -- A payload is accepted as the claims of a certificate exactly when it is a document of the
  -- supported schema whose fields say what the claims say, the names are filled in, and it expires,
  -- if ever, after it was issued.
  pub parse_activation_iff :
      (payload : Bytes) (c : ActivationClaims F)
      → (parse_activation F payload ≡ ok c) ↔ (
          (raw : RawActivation F.Instant) × ReadsAs F F.activation_of payload raw
          × Certifies raw c
          × IsCertificate c)
  unfolding parse_activation
  parse_activation_iff payload c = (
    λ h. >>=-elim (raw_activation F payload) _ h λ raw read fields.
        let (d, l) = certificate_of-IsCertificate raw c fields in
        (raw, (fields-ReadsAs F F.activation_of payload raw).0 read, d, l),
    λ (raw, read, d, l).
        >>=-ok (raw_activation F payload) _ raw
          ((fields-ReadsAs F F.activation_of payload raw).1 read)
          (IsCertificate-certificate_of raw c d l),
  )
