-- ===== src/Policy/Gates.antt =====
-- What the policy of this build amounts to.
use cursedelete.Base.{
  ℕ, ◌≡◌, refl, ap, ◌∙◌, ◌↔◌, ◌⊎◌, true, false, Option, none, List, [], ◌∷◌, arith, All, ok,
}
use cursedelete.License.Formats.{Formats, RawSignature}
use cursedelete.License.Editions.{Edition, community, business, enterprise}
use cursedelete.License.Algorithms.{SignatureAlgorithm}
use cursedelete.License.Keys.{TrustedKeySet, new_set, check_ids}
use cursedelete.License.Envelope.Loop.{signers, usable}
use cursedelete.License.Validate.{LicensePolicy, VerifiedLicense}
use cursedelete.License.Claims.{ActivationClaims}
use cursedelete.License.Resolve.{Candidate, LocalState, resolve, edition}
use cursedelete.License.Resolve.Grounds.{Entitled}
use cursedelete.License.Resolve.Effect.{resolve_unregistered_iff}
use cursedelete.Policy.{
  Feature, close_remote_locks, is_enabled, license_policy, trusted_keys, read_keys,
}

is_enabled-community : (f : Feature) → is_enabled f community ≡ false
unfolding is_enabled
is_enabled-community close_remote_locks = refl

module _ (F : Formats) where
  usable-nil :
      (allowed : List SignatureAlgorithm) (sig : RawSignature) → usable F [] allowed sig ≡ none
  usable-nil allowed sig = ground arith

  -- Without a trusted key no signature counts.
  signers-nil :
      (allowed : List SignatureAlgorithm) (sigs : List RawSignature)
      → signers F [] allowed sigs ≡ []
  unfolding signers
  signers-nil allowed [] = refl
  signers-nil allowed (sig ∷ sigs) = rw (usable-nil allowed sig) (signers-nil allowed sigs)

  nothing-Entitled :
      (policy : LicensePolicy F) (local : LocalState) (now : F.Instant) (c : Candidate)
      (v : VerifiedLicense F) (x : Option (ActivationClaims F))
      → policy.trusted_keys ≡ []
      → ¬ Entitled F policy local now c v x
  nothing-Entitled policy local now c v x e
        (
          text,
          read,
          (
            payload,
            (size, raw, reads, format, decoded, count, ids, holds, by, some_signer),
            fields,
            for_us,
          ),
          fresh,
          kept,
          backed,
        ) =
      some_signer (
        by
        ∙ ap (λ (k : TrustedKeySet F). signers F k policy.allowed_algorithms raw.signatures) e
        ∙ signers-nil policy.allowed_algorithms raw.signatures)

  license_policy-keys :
      (major : ℕ) (policy : LicensePolicy F)
      → license_policy F major ≡ ok policy
      → policy.trusted_keys ≡ []
  unfolding license_policy trusted_keys read_keys new_set check_ids
  license_policy-keys major policy h = ground arith

  -- With the policy of this build, which trusts no key yet, every installed file is refused, the
  -- edition is Community, and no gated feature is enabled.
  pub license_policy-community :
      (major : ℕ) (policy : LicensePolicy F) (local : LocalState) (now : F.Instant)
      (cs : List Candidate)
      → license_policy F major ≡ ok policy
      → ((resolve F policy local now cs).active ≡ none)
        × (edition F (resolve F policy local now cs) ≡ community)
        × ((f : Feature) → is_enabled f (edition F (resolve F policy local now cs)) ≡ false)
  license_policy-community major policy local now cs h =
      let none_active = (resolve_unregistered_iff F policy local now cs).1 (every cs) in
      let e : edition F (resolve F policy local now cs) ≡ community = rw none_active refl in
      (none_active, e, λ f. ap (is_enabled f) e ∙ is_enabled-community f)
    where
      every :
          (cs : List Candidate)
          → All
              (λ c.
                (v : VerifiedLicense F) (x : Option (ActivationClaims F))
                → ¬ Entitled F policy local now c v x)
              cs
      every [] = tt
      every (c ∷ cs) = (
        (λ v x. nothing-Entitled policy local now c v x (license_policy-keys major policy h)),
        every cs,
      )

-- The gated feature is that of Business and Enterprise.
pub is_enabled_iff :
    (e : Edition) → (is_enabled close_remote_locks e ≡ true) ↔ ((e ≡ business) ⊎ (e ≡ enterprise))
unfolding is_enabled
is_enabled_iff e = ground arith
