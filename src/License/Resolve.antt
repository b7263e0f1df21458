-- ===== src/License/Resolve.antt =====
-- crates/cursdel-license/src/resolve.rs: which installed licence is in effect.
pub mod Choice
pub mod Grounds
pub mod Effect
use cursedelete.Base.{
  has_text, ℕ, suc, Bool, true, false, Option, none, some, List, [], ◌∷◌, ltb, ◌==◌, if◌then◌else◌,
  is_some, Text, FilePath, Result, ok, err, ◌>>=◌, ◌>>◌, map_err,
}
use cursedelete.License.Formats.{Formats}
use cursedelete.License.Editions
use cursedelete.License.Editions.{Edition, community, requires_activation}
use cursedelete.License.Claims.{LicenseClaims, ActivationClaims}
use cursedelete.License.Validate.{
  Rejection, malformed, revoked, activation_required, VerifiedLicense, LicensePolicy,
  verify_license, verify_activation,
}

-- The file's text, or why it could not be read.
pub record Candidate : Type 0 where
  pub source : FilePath
  pub contents : Result Text Text

-- The device id is a value here: the code computes it when a certificate is first checked.
pub record LocalState : Type 0 where
  pub activation_certificates : List Text
  pub revoked_license_ids : List Text
  pub device_id : Text

module _ (F : Formats) where
  pub record ActiveLicense : Type 0 where
    pub source : FilePath
    pub license : VerifiedLicense F
    pub activation : Option (ActivationClaims F)

  abbrev pub edition_of : ActiveLicense → Edition
  edition_of a = a.license.claims.edition

  pub record RejectedCandidate : Type 0 where
    pub source : FilePath
    pub reason : Rejection F

  pub record Resolution : Type 0 where
    pub active : Option ActiveLicense
    pub rejected : List RejectedCandidate

  -- `Resolution::edition`
  abbrev pub edition : Resolution → Edition
  edition r = elim r.active [ none ↦ community | some a ↦ edition_of a ]

  abbrev pub is_registered : Resolution → Bool
  is_registered r = is_some r.active

  -- The loop over the certificates, from the i-th on: the first error is the one kept.
  unfoldable pub first_valid :
      (Text → Result (ActivationClaims F) (Rejection F))
      → Rejection F
      → ℕ
      → List Text
      → Result (ActivationClaims F) (Rejection F)
  first_valid check first_error i [] = err first_error
  first_valid check first_error i (cert ∷ certs) = elim (check cert) [
    | ok c ↦ ok c
    | err e ↦ first_valid check (if i == 0 then e else first_error) (suc i) certs
  ]

  abbrev pub sort_one :
      Candidate
      → Result (VerifiedLicense F × Option (ActivationClaims F)) (Rejection F)
      → List ActiveLicense × List RejectedCandidate
      → List ActiveLicense × List RejectedCandidate
  sort_one c (ok (l, x)) (valid, rejected) =
      (record { source = c.source; license = l; activation = x } ∷ valid, rejected)
  sort_one c (err reason) (valid, rejected) =
      (valid, record { source = c.source; reason = reason } ∷ rejected)

  abbrev pub beats : ActiveLicense → Option ActiveLicense → Bool
  beats l none = true
  beats l (some best) = ltb (Editions.rank (edition_of best)) (Editions.rank (edition_of l))

  -- The choice of the best, after those seen.
  unfoldable pub pick : Option ActiveLicense → List ActiveLicense → Option ActiveLicense
  pick best [] = best
  pick best (l ∷ ls) = pick (if beats l best then some l else best) ls

  module _ (policy : LicensePolicy F) (local : LocalState) (now : F.Instant) where
    -- The certificate of a licence, where it needs one.
    abbrev pub activate_if :
        Bool
        → VerifiedLicense F
        → Result (VerifiedLicense F × Option (ActivationClaims F)) (Rejection F)
    activate_if false l = ok (l, none)
    activate_if true l =
        first_valid (λ cert. verify_activation F policy cert l.claims local.device_id now)
          activation_required 0 local.activation_certificates
        >>= λ c. ok (l, some c)

    abbrev pub activate :
        VerifiedLicense F → Result (VerifiedLicense F × Option (ActivationClaims F)) (Rejection F)
    activate l = activate_if (requires_activation l.claims.edition) l

    abbrev pub check_revoked : VerifiedLicense F → Result (Unit {0}) (Rejection F)
    check_revoked l =
        if has_text l.claims.license_id local.revoked_license_ids then err revoked else ok tt

    -- The outcome of one candidate.
    unfoldable pub judge :
        Candidate → Result (VerifiedLicense F × Option (ActivationClaims F)) (Rejection F)
    judge c = do
      text ← map_err malformed c.contents
      l ← verify_license F policy text now
      check_revoked l
      activate l

    -- The valid and the rejected candidates, each in order.
    unfoldable pub sort_candidates : List Candidate → List ActiveLicense × List RejectedCandidate
    sort_candidates [] = ([], [])
    sort_candidates (c ∷ cs) = sort_one c (judge c) (sort_candidates cs)

    unfoldable pub resolve : List Candidate → Resolution
    resolve cs =
        let (valid, rejected) = sort_candidates cs in
        record { active = pick none valid; rejected = rejected }
