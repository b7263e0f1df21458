-- ===== src/License/Claims/Rules.antt =====
-- Which licences are accepted: the rules, field by field.
use cursedelete.Base.{
  ℕ, zero, suc, ◌≤◌, ◌<◌, ◌≡◌, refl, sym, subst, ◌↔◌, Bool, Option, none, some, arith, Text, codes,
  ok, >>=-elim, ok-injective, >>=-ok,
}
use cursedelete.License.Formats.{Formats, Bytes, RawLicense}
use cursedelete.License.Editions
use cursedelete.License.Editions.{
  Edition, community, education, business, enterprise, is_business, from_id_iff, display_name,
}
use cursedelete.License.Claims.{
  non_empty, optional_non_empty, check_activations, Term, perpetual, subscription, is_perpetual,
  LicenseClaims, known_edition, term_of, check_term, raw_license, claims_of, parse_license,
}
use cursedelete.License.Claims.Fields.{
  Filled, OptionFilled, non_empty_iff, optional_non_empty_iff, ReadsAs, fields-ReadsAs,
}

module _ (F : Formats) where
  abbrev pub expiry_of : Term F → Option F.Instant
  expiry_of perpetual = none
  expiry_of (subscription e) = some e

  -- A subscription ends after it was issued.
  abbrev pub Lasts : F.Instant → Term F → Type 0
  Lasts issued perpetual = Unit
  Lasts issued (subscription e) = F.at issued < F.at e

  -- Business licences are for at least one device; all others are perpetual, for any number.
  abbrev pub Allowed : Edition → Term F → Option ℕ → Type 0
  Allowed business t m = (n : ℕ) × (m ≡ some n) × (1 ≤ n)
  Allowed _ t m = (t ≡ perpetual) × (m ≡ none)

  term_of_iff :
      (issued : F.Instant) (p : Bool) (x : Option F.Instant) (t : Term F)
      → (term_of F issued p x ≡ ok t)
        ↔ ((p ≡ is_perpetual F t) × (x ≡ expiry_of t) × Lasts issued t)
  unfolding term_of
  term_of_iff issued p x perpetual = ground arith
  term_of_iff issued p x (subscription e) = ground arith

  Allowed-iff :
      (e : Edition) (t : Term F) (m : Option ℕ)
      → ((check_term F e t ≡ ok tt) × (check_activations e m ≡ ok tt)) ↔ Allowed e t m
  unfolding check_activations
  Allowed-iff business t none = ground arith
  Allowed-iff business t (some zero) = ground arith
  Allowed-iff business t (some (suc n)) = ground arith
  Allowed-iff community t m = ground arith
  Allowed-iff education t m = ground arith
  Allowed-iff enterprise t m = ground arith

  known_edition_iff : (s : Text) (e : Edition) → (known_edition F s ≡ ok e) ↔ (s ≡ Editions.id e)
  known_edition_iff s e = ground (arith, from_id_iff s e)

  -- The claims say what the fields of the document say.
  pub record Describes (raw : RawLicense F.Instant) (c : LicenseClaims F) : Type 0 where
    pub same_license : raw.license_id ≡ c.license_id
    pub same_customer : raw.customer_id ≡ c.customer_id
    pub same_product : raw.product_id ≡ c.product_id
    pub same_version : raw.major_version ≡ c.major_version
    pub same_edition : raw.edition ≡ Editions.id c.edition
    pub same_organisation : raw.organisation ≡ c.organisation
    pub same_name : raw.customer_name ≡ c.customer_name
    pub same_issue : raw.issued_at ≡ c.issued_at
    pub same_perpetual : raw.perpetual ≡ is_perpetual F c.term
    pub same_expiry : raw.expires_at ≡ expiry_of c.term
    pub same_allowance : raw.max_activations ≡ c.max_activations

  -- The rules that every licence obeys.
  pub record IsLawful (c : LicenseClaims F) : Type 0 where
    pub has_license : Filled c.license_id
    pub has_customer : Filled c.customer_id
    pub has_product : Filled c.product_id
    pub has_organisation : OptionFilled c.organisation
    pub has_name : OptionFilled c.customer_name
    pub lasts : Lasts c.issued_at c.term
    pub allowed : Allowed c.edition c.term c.max_activations

  claims_of-IsLawful :
      (raw : RawLicense F.Instant) (c : LicenseClaims F)
      → claims_of F raw ≡ ok c
      → Describes raw c × IsLawful c
  unfolding claims_of
  claims_of-IsLawful raw c h = >>=-elim (known_edition F raw.edition) _ h λ e known h1.
      >>=-elim (term_of F raw.issued_at raw.perpetual raw.expires_at) _ h1 λ t term h2.
        >>=-elim (check_term F e t) _ h2 λ u1 term_fits h3.
          >>=-elim (check_activations e raw.max_activations) _ h3 λ u2 allowance h4.
            >>=-elim (non_empty (codes "licenseId") raw.license_id) _ h4 λ l license h5.
              >>=-elim (non_empty (codes "customerId") raw.customer_id) _ h5 λ cu customer h6.
                >>=-elim (non_empty (codes "productId") raw.product_id) _ h6 λ p product h7.
                  >>=-elim (optional_non_empty (codes "organisation") raw.organisation) _ h7
                    λ o organisation h8.
                      >>=-elim (optional_non_empty (codes "customerName") raw.customer_name) _ h8
                        λ n name h9.
                          let k = (known_edition_iff raw.edition e).0 known in
                          let (tp, tx, tl) =
                            (term_of_iff raw.issued_at raw.perpetual raw.expires_at t).0 term in
                          let a = (Allowed-iff e t raw.max_activations).0 (term_fits, allowance) in
                          let (l1, l2) = (non_empty_iff _ raw.license_id l).0 license in
                          let (c1, c2) = (non_empty_iff _ raw.customer_id cu).0 customer in
                          let (p1, p2) = (non_empty_iff _ raw.product_id p).0 product in
                          let (o1, o2) =
                            (optional_non_empty_iff _ raw.organisation o).0 organisation in
                          let (n1, n2) = (optional_non_empty_iff _ raw.customer_name n).0 name in
                          subst (λ c. Describes raw c × IsLawful c) (ok-injective h9)
                            (
                              record {
                                same_license = l1;
                                same_customer = c1;
                                same_product = p1;
                                same_version = refl;
                                same_edition = k;
                                same_organisation = o1;
                                same_name = n1;
                                same_issue = refl;
                                same_perpetual = tp;
                                same_expiry = tx;
                                same_allowance = refl;
                              },
                              record {
                                has_license = l2;
                                has_customer = c2;
                                has_product = p2;
                                has_organisation = o2;
                                has_name = n2;
                                lasts = tl;
                                allowed = a;
                              },
                            )

  IsLawful-claims_of :
      (raw : RawLicense F.Instant) (c : LicenseClaims F)
      → Describes raw c
      → IsLawful c
      → claims_of F raw ≡ ok c
  unfolding claims_of
  IsLawful-claims_of raw c d l =
      let fits =
        (Allowed-iff c.edition c.term raw.max_activations).1
          (subst (Allowed c.edition c.term) (sym d.same_allowance) l.allowed) in
      >>=-ok (known_edition F raw.edition) _ c.edition
        ((known_edition_iff raw.edition c.edition).1 d.same_edition)
        (>>=-ok (term_of F raw.issued_at raw.perpetual raw.expires_at) _ c.term
          ((term_of_iff raw.issued_at raw.perpetual raw.expires_at c.term).1 (
            d.same_perpetual,
            d.same_expiry,
            subst (λ i. Lasts i c.term) (sym d.same_issue) l.lasts,
          ))
          (>>=-ok (check_term F c.edition c.term) _ tt fits.0 (
            >>=-ok (check_activations c.edition raw.max_activations) _ tt fits.1 (
              >>=-ok (non_empty _ raw.license_id) _ c.license_id
                ((non_empty_iff _ raw.license_id c.license_id).1 (d.same_license, l.has_license))
                (>>=-ok (non_empty _ raw.customer_id) _ c.customer_id
                  ((non_empty_iff _ raw.customer_id c.customer_id).1
                    (d.same_customer, l.has_customer))
                  (>>=-ok (non_empty _ raw.product_id) _ c.product_id
                    ((non_empty_iff _ raw.product_id c.product_id).1
                      (d.same_product, l.has_product))
                    (>>=-ok (optional_non_empty _ raw.organisation) _ c.organisation
                      ((optional_non_empty_iff _ raw.organisation c.organisation).1
                        (d.same_organisation, l.has_organisation))
                      (>>=-ok (optional_non_empty _ raw.customer_name) _ c.customer_name
                        ((optional_non_empty_iff _ raw.customer_name c.customer_name).1
                          (d.same_name, l.has_name))
                        (rw d.same_version (rw d.same_issue (rw d.same_allowance refl)))))))))))

  -- A payload is accepted as the claims of a licence exactly when it is a document of the supported
  -- schema whose fields say what the claims say, and the claims obey the rules of their edition.
  pub parse_license_iff :
      (payload : Bytes) (c : LicenseClaims F)
      → (parse_license F payload ≡ ok c) ↔ (
          (raw : RawLicense F.Instant) × ReadsAs F F.license_of payload raw
          × Describes raw c
          × IsLawful c)
  unfolding parse_license
  parse_license_iff payload c = (
    λ h. >>=-elim (raw_license F payload) _ h λ raw read fields.
        let (d, l) = claims_of-IsLawful raw c fields in
        (raw, (fields-ReadsAs F F.license_of payload raw).0 read, d, l),
    λ (raw, read, d, l).
        >>=-ok (raw_license F payload) _ raw ((fields-ReadsAs F F.license_of payload raw).1 read)
          (IsLawful-claims_of raw c d l),
  )
