-- ===== src/License/Resolve/Effect.antt =====
-- Which licence is in effect, from the files that are installed to the edition.
use cursedelete.Base.{
  ◌≤◌, ◌<◌, ◌≡◌, refl, ◌↔◌, inl, inr, Option, none, some, List, ◌∷◌, ◌++◌, arith, All, All-map,
  Result-cases,
}
use cursedelete.License.Formats.{Formats}
use cursedelete.License.Editions.{rank}
use cursedelete.License.Claims.{ActivationClaims}
use cursedelete.License.Validate.{VerifiedLicense, LicensePolicy}
use cursedelete.License.Resolve.{Candidate, LocalState, ActiveLicense, edition_of, judge, resolve}
use cursedelete.License.Resolve.Choice.{resolve_first_iff, resolve-none_iff}
use cursedelete.License.Resolve.Grounds.{Entitled, judge_iff}

module _ (F : Formats) (policy : LicensePolicy F) (local : LocalState) (now : F.Instant) where
  -- Whatever licence the candidate is entitled to, its edition is below that of the licence, or no higher.
  abbrev pub EntitledLower : ActiveLicense F → Candidate → Type 0
  EntitledLower a c =
      (v : VerifiedLicense F) (x : Option (ActivationClaims F))
      → Entitled F policy local now c v x
      → rank v.claims.edition < rank (edition_of F a)

  abbrev pub EntitledNoHigher : ActiveLicense F → Candidate → Type 0
  EntitledNoHigher a c =
      (v : VerifiedLicense F) (x : Option (ActivationClaims F))
      → Entitled F policy local now c v x
      → rank v.claims.edition ≤ rank (edition_of F a)

  -- The licence is that of the first among the highest of the entitled candidates.
  abbrev pub InEffect : List Candidate → ActiveLicense F → Type 0
  InEffect cs a =
      (before : List Candidate) × (c : Candidate) × (after : List Candidate) × (cs
        ≡ before ++ (c ∷ after))
      × (c.source ≡ a.source)
      × Entitled F policy local now c a.license a.activation
      × All (EntitledLower a) before
      × All (EntitledNoHigher a) after

  -- A licence is in effect exactly when it is that of the first, among the candidates that are entitled,
  -- whose edition none of the others exceeds.
  pub resolve_active_iff :
      (cs : List Candidate) (a : ActiveLicense F)
      → ((resolve F policy local now cs).active ≡ some a) ↔ InEffect cs a
  resolve_active_iff cs a = (
    λ h.
        let (before, c, after, same, (source, judged), lows, highs) =
          (resolve_first_iff F policy local now cs a).0 h in
        (
          before,
          c,
          after,
          same,
          source,
          (judge_iff F policy local now c a.license a.activation).0 judged,
          All-map before
              (λ d low v x en.
                low (as_active d v x) (refl, (judge_iff F policy local now d v x).1 en))
              lows,
          All-map after
              (λ d high v x en.
                high (as_active d v x) (refl, (judge_iff F policy local now d v x).1 en))
              highs,
        ),
    λ (before, c, after, same, source, en, lows, highs).
        (resolve_first_iff F policy local now cs a).1 (
          before,
          c,
          after,
          same,
          (source, (judge_iff F policy local now c a.license a.activation).1 en),
          All-map before
              (λ d low b (s, j).
                low b.license b.activation
                  ((judge_iff F policy local now d b.license b.activation).0 j))
              lows,
          All-map after
              (λ d high b (s, j).
                high b.license b.activation
                  ((judge_iff F policy local now d b.license b.activation).0 j))
              highs,
        ),
  )
    where
      as_active : Candidate → VerifiedLicense F → Option (ActivationClaims F) → ActiveLicense F
      as_active d v x = record { source = d.source; license = v; activation = x }

  -- No licence is in effect exactly when no candidate is entitled; the edition is Community then.
  pub resolve_unregistered_iff :
      (cs : List Candidate)
      → ((resolve F policy local now cs).active ≡ none)
        ↔ All
            (λ c.
              (v : VerifiedLicense F) (x : Option (ActivationClaims F))
              → ¬ Entitled F policy local now c v x)
            cs
  resolve_unregistered_iff cs = (
    λ h.
        All-map cs
          (λ c (e, j) v x en. absurd (ground (arith, (judge_iff F policy local now c v x).1 en, j)))
          ((resolve-none_iff F policy local now cs).0 h),
    λ h. (resolve-none_iff F policy local now cs).1 (
        All-map cs
          (λ c n. elim (Result-cases (judge F policy local now c)) [
            | inl (o, j) ↦ absurd (n o.0 o.1 ((judge_iff F policy local now c o.0 o.1).0 j))
            | inr r ↦ r
          ])
          h),
  )
