-- ===== src/License/Resolve/Grounds.antt =====
-- On what grounds a candidate is accepted.
use cursedelete.Base.{
  has_text, ℕ, suc, ◌≡◌, refl, ap, subst, ◌≢◌, ◌↔◌, inl, inr, Bool, true, false, Option, none, some,
  List, [], ◌∷◌, ◌++◌, arith, ◌==◌, if◌then◌else◌, All, All-map, Text, text_eq_iff, Result, ok, err,
  >>=-elim, ok-injective, map_err_iff, >>=-ok, map_err, Result-cases,
}
use mathlib.Core.Option.{some-injective}
use cursedelete.License.Formats.{Formats}
use cursedelete.License.Editions.{business, requires_activation, is_business_iff}
use cursedelete.License.Claims.{ActivationClaims}
use cursedelete.License.Validate.{
  Rejection, malformed, activation_required, VerifiedLicense, LicensePolicy, verify_license,
  verify_activation,
}
use cursedelete.License.Validate.Entitlement.{
  Identifies, InTerm, IsSigned, Activates, verify_license_iff, verify_activation_iff,
}
use cursedelete.License.Resolve.{
  Candidate, LocalState, first_valid, activate_if, check_revoked, judge,
}

has_text_iff : (s : Text) (ts : List Text) → (has_text s ts ≡ false) ↔ All (λ t. s ≢ t) ts
unfolding has_text
has_text_iff s [] = (λ h. tt, λ h. refl)
has_text_iff s (t ∷ ts) = ground (arith, text_eq_iff s t, has_text_iff s ts)

module _ (F : Formats) where
  module _ (check : Text → Result (ActivationClaims F) (Rejection F)) where
    -- The certificate is that of the first text that passes the check.
    abbrev pub IsFirstValid : List Text → ActivationClaims F → Type 0
    IsFirstValid ts c =
        (before : List Text) × (t : Text) × (after : List Text) × (ts ≡ before ++ (t ∷ after))
        × (check t ≡ ok c)
        × All (λ s. (d : ActivationClaims F) → check s ≢ ok d) before

    first_valid-IsFirstValid :
        (e : Rejection F) (i : ℕ) (ts : List Text) (c : ActivationClaims F)
        → first_valid F check e i ts ≡ ok c
        → IsFirstValid ts c
    unfolding first_valid
    first_valid-IsFirstValid e i [] c h = absurd (ground arith)
    first_valid-IsFirstValid e i (t ∷ ts) c h = elim (Result-cases (check t)) [
      | inl (d, k) ↦ ([], t, ts, refl, ground arith, tt)
      | inr (f, k) ↦
          let (before, u, after, same, passes, none_before) =
            first_valid-IsFirstValid (if i == 0 then f else e) (suc i) ts c
              (ground (arith, h, k)) in
          (
            t ∷ before,
            u,
            after,
            ap (λ xs. t ∷ xs) same,
            passes,
            ((λ d p. ground (arith, k, p)), none_before),
          )
    ]

    IsFirstValid-first_valid :
        (e : Rejection F) (i : ℕ) (before : List Text) (t : Text) (after : List Text)
        (c : ActivationClaims F)
        → check t ≡ ok c
        → All (λ s. (d : ActivationClaims F) → check s ≢ ok d) before
        → first_valid F check e i (before ++ (t ∷ after)) ≡ ok c
    unfolding first_valid
    IsFirstValid-first_valid e i [] t after c p h = rw p refl
    IsFirstValid-first_valid e i (s ∷ before) t after c p (here, rest) =
        elim (Result-cases (check s)) [
          | inl (d, k) ↦ absurd (here d k)
          | inr (f, k) ↦
              rw k
                (IsFirstValid-first_valid (if i == 0 then f else e) (suc i) before t after c p rest)
        ]

    pub first_valid_iff :
        (e : Rejection F) (i : ℕ) (ts : List Text) (c : ActivationClaims F)
        → (first_valid F check e i ts ≡ ok c) ↔ IsFirstValid ts c
    first_valid_iff e i ts c = (
      first_valid-IsFirstValid e i ts c,
      λ (before, t, after, same, passes, h).
          rw same (IsFirstValid-first_valid e i before t after c passes h),
    )

    later_error :
        (e : Rejection F) (i : ℕ) (ts : List Text) (f : Rejection F)
        → first_valid F check e (suc i) ts ≡ err f
        → e ≡ f
    unfolding first_valid
    later_error e i [] f h = cc
    later_error e i (t ∷ ts) f h = elim (Result-cases (check t)) [
      | inl (d, k) ↦ absurd (ground arith)
      | inr (g, k) ↦ later_error e (suc i) ts f (ground (arith, h, k))
    ]

    -- The error that is reported: that of the first certificate, if there is any.
    abbrev pub FirstError : List Text → Rejection F → Type 0
    FirstError [] f = activation_required ≡ f
    FirstError (t ∷ ts) f = check t ≡ err f

    pub first_valid-FirstError :
        (ts : List Text) (f : Rejection F)
        → first_valid F check activation_required 0 ts ≡ err f
        → FirstError ts f
    unfolding first_valid
    first_valid-FirstError [] f h = cc
    first_valid-FirstError (t ∷ ts) f h = elim (Result-cases (check t)) [
      | inl (d, k) ↦ absurd (ground arith)
      | inr (g, k) ↦ ground (arith, later_error g 0 ts f)
    ]

  module _ (policy : LicensePolicy F) (local : LocalState) (now : F.Instant) where
    abbrev check_cert : VerifiedLicense F → Text → Result (ActivationClaims F) (Rejection F)
    check_cert v cert = verify_activation F policy cert v.claims local.device_id now

    -- A Business licence needs a certificate, the first that activates it; no other has one.
    abbrev pub Certified : VerifiedLicense F → ActivationClaims F → Type 0
    Certified v c =
        (before : List Text) × (t : Text) × (after : List Text) × (local.activation_certificates
          ≡ before ++ (t ∷ after))
        × IsSigned F policy t c
        × Activates F policy v.claims local.device_id now c
        × All
            (λ s.
              (d : ActivationClaims F)
              → IsSigned F policy s d
              → ¬ Activates F policy v.claims local.device_id now d)
            before

    abbrev pub Backed : VerifiedLicense F → Option (ActivationClaims F) → Type 0
    Backed v none = v.claims.edition ≢ business
    Backed v (some c) = (v.claims.edition ≡ business) × Certified v c

    abbrev pub Entitled : Candidate → VerifiedLicense F → Option (ActivationClaims F) → Type 0
    Entitled c v x =
        (text : Text) × (c.contents ≡ ok text)
        × Identifies F policy text v
        × InTerm F now v.claims.term
        × All (λ t. v.claims.license_id ≢ t) local.revoked_license_ids
        × Backed v x

    check_revoked_iff :
        (v : VerifiedLicense F)
        → (check_revoked F policy local now v ≡ ok tt)
          ↔ All (λ t. v.claims.license_id ≢ t) local.revoked_license_ids
    check_revoked_iff v = ground (arith, has_text_iff v.claims.license_id local.revoked_license_ids)

    Certified-iff :
        (v : VerifiedLicense F) (c : ActivationClaims F)
        → IsFirstValid (check_cert v) local.activation_certificates c ↔ Certified v c
    Certified-iff v c = (
      λ (before, t, after, same, passes, none_before).
          let (signed, active) =
            (verify_activation_iff F policy t v.claims local.device_id now c).0 passes in
          (
            before,
            t,
            after,
            same,
            signed,
            active,
            All-map before
                (λ s n d signed active. n d (
                  (verify_activation_iff F policy s v.claims local.device_id now d).1
                    (signed, active)))
                none_before,
          ),
      λ (before, t, after, same, signed, active, none_before). (
        before,
        t,
        after,
        same,
        (verify_activation_iff F policy t v.claims local.device_id now c).1 (signed, active),
        All-map before
            (λ s n d p.
              let (signed, active) =
                (verify_activation_iff F policy s v.claims local.device_id now d).0 p in
              n d signed active)
            none_before,
      ),
    )

    activate_if_iff :
        (b : Bool) (v w : VerifiedLicense F) (x : Option (ActivationClaims F))
        → requires_activation v.claims.edition ≡ b
        → (activate_if F policy local now b v ≡ ok (w, x)) ↔ ((v ≡ w) × Backed v x)
    activate_if_iff false v w none e = (
      λ h. (ground (arith, h), λ t. ground (arith, (is_business_iff v.claims.edition).1 t)),
      λ (same, b). rw same refl,
    )
    activate_if_iff false v w (some c) e = (
      λ h. absurd (ground (arith, h)),
      λ (same, (b, c)). absurd (ground (arith, (is_business_iff v.claims.edition).1 b)),
    )
    activate_if_iff true v w none e = (
      λ h.
          >>=-elim
            (first_valid F (check_cert v) activation_required 0 local.activation_certificates) _ h
            λ d found h1. absurd (ground (arith, h1)),
      λ (same, b). absurd (b ((is_business_iff v.claims.edition).0 e)),
    )
    activate_if_iff true v w (some c) e = (
      λ h.
          >>=-elim
            (first_valid F (check_cert v) activation_required 0 local.activation_certificates) _ h
            λ d found h1.
              let chosen = (Certified-iff v d).0 (
                (first_valid_iff (check_cert v) activation_required 0 local.activation_certificates
                    d).0
                  found) in
              let same = ok-injective h1 in
              (
                ap (λ (o : VerifiedLicense F × Option (ActivationClaims F)). o.0) same,
                (
                  (is_business_iff v.claims.edition).0 e,
                  subst (Certified v)
                      (some-injective d c
                        (ap (λ (o : VerifiedLicense F × Option (ActivationClaims F)). o.1) same))
                      chosen,
                ),
              ),
      λ (same, (b, chosen)).
          >>=-ok (first_valid F (check_cert v) activation_required 0 local.activation_certificates)
            _ c
            ((first_valid_iff (check_cert v) activation_required 0 local.activation_certificates
                c).1
              ((Certified-iff v c).1 chosen))
            (rw same refl),
    )

    -- A candidate is accepted exactly when it is entitled: its file is a licence for this product that is
    -- in term and not revoked, and, for a Business licence, one of the certificates activates it here.
    pub judge_iff :
        (c : Candidate) (v : VerifiedLicense F) (x : Option (ActivationClaims F))
        → (judge F policy local now c ≡ ok (v, x)) ↔ Entitled c v x
    unfolding judge
    judge_iff c v x = (
      λ h. >>=-elim (map_err malformed c.contents) _ h λ text read h1.
          >>=-elim (verify_license F policy text now) _ h1 λ w verified h2.
            >>=-elim (check_revoked F policy local now w) _ h2 λ u kept h3.
              let (same, backed) =
                (activate_if_iff (requires_activation w.claims.edition) w v x refl).0 h3 in
              let (identified, fresh) = (verify_license_iff F policy text now w).0 verified in
              subst (λ v. Entitled c v x) same
                (
                  text,
                  (map_err_iff malformed c.contents text).0 read,
                  identified,
                  fresh,
                  (check_revoked_iff w).0 kept,
                  backed,
                ),
      λ (text, read, identified, fresh, kept, backed).
          >>=-ok (map_err malformed c.contents) _ text
            ((map_err_iff malformed c.contents text).1 read)
            (>>=-ok (verify_license F policy text now) _ v
              ((verify_license_iff F policy text now v).1 (identified, fresh))
              (>>=-ok (check_revoked F policy local now v) _ tt ((check_revoked_iff v).1 kept) (
                (activate_if_iff (requires_activation v.claims.edition) v v x refl).1
                  (refl, backed)))),
    )
