-- ===== src/License/Envelope/Opening.antt =====
-- Which envelopes open, and what they open to, stated without the loop over the signatures.
use cursedelete.Base.{
  utf8_len, has_text, ℕ, zero, suc, ◌≤◌, ◌≡◌, refl, sym, ap, ◌∙◌, subst, ◌≢◌, ◌↔◌, false, none,
  some, List, [], ◌∷◌, ◌++◌, arith, eq-false, length, is_empty, is_empty_iff, All, Text, codes,
  text_eq, text_eq_iff, ok, err, >>=-elim, >>=-ok, map_err,
}
use mathlib.Core.List.{append_cancel_left}
use cursedelete.License.Formats.{Formats, Bytes, RawSignature, RawEnvelope}
use cursedelete.License.Algorithms.{SignatureAlgorithm}
use cursedelete.License.Keys.{TrustedKeySet, ok_or}
use cursedelete.License.Envelope.{
  max_envelope_bytes, max_signatures, EnvelopeKind, license, activation, format_of,
  unsupported_format, VerifiedPayload, signed_message, first_duplicate, Tally, no_tally,
  check_signatures, verdict, open_envelope, check_size, check_format, check_count, check_duplicates,
  not_an_envelope,
}
use cursedelete.License.Envelope.Loop.{
  Holds, signers, check_signatures-Holds, Holds-check_signatures,
}

-- No two signatures name the same key.
abbrev pub Distinct : List RawSignature → Type 0
Distinct [] = Unit
Distinct (s ∷ ss) = All (λ (r : RawSignature). r.key_id ≢ s.key_id) ss × Distinct ss

abbrev Unseen : List Text → RawSignature → Type 0
Unseen seen s = has_text s.key_id seen ≡ false

All-Unseen :
    (k : Text) (seen : List Text) (ss : List RawSignature)
    → All (Unseen (k ∷ seen)) ss
      ↔ (All (λ (r : RawSignature). r.key_id ≢ k) ss × All (Unseen seen) ss)
unfolding has_text
All-Unseen k seen [] = (λ h. (tt, tt), λ h. tt)
All-Unseen k seen (s ∷ ss) = ground (arith, All-Unseen k seen ss, text_eq_iff s.key_id k)

first_duplicate_iff :
    (seen : List Text) (ss : List RawSignature)
    → (first_duplicate seen ss ≡ none) ↔ (All (Unseen seen) ss × Distinct ss)
unfolding first_duplicate
first_duplicate_iff seen [] = (λ h. (tt, tt), λ h. refl)
first_duplicate_iff seen (s ∷ ss) =
    ground (arith, first_duplicate_iff (s.key_id ∷ seen) ss, All-Unseen s.key_id seen ss)

first_duplicate-none : (ss : List RawSignature) → (first_duplicate [] ss ≡ none) ↔ Distinct ss
unfolding has_text
first_duplicate-none ss = ground (arith, first_duplicate_iff [] ss, all_unseen ss)
  where
    all_unseen : (ss : List RawSignature) → All (Unseen []) ss
    all_unseen [] = tt
    all_unseen (s ∷ ss) = (refl, all_unseen ss)

-- The code at an index, where there is one.
abbrev code_at : ℕ → Bytes → ℕ
code_at n [] = 0
code_at zero (c ∷ s) = c
code_at (suc n) (c ∷ s) = code_at n s

-- What is signed determines the kind of the envelope and its payload.
pub signed_message-injective :
    (a b : EnvelopeKind) (p q : Bytes) → signed_message a p ≡ signed_message b q → (a ≡ b) × (p ≡ q)
unfolding signed_message format_of
signed_message-injective license license p q h =
    (refl, append_cancel_left (codes "repass-license-v1\n") p q h)
signed_message-injective license activation p q h = absurd (omega (arith, ap (code_at 7) h))
signed_message-injective activation license p q h = absurd (omega (arith, ap (code_at 7) h))
signed_message-injective activation activation p q h =
    (refl, append_cancel_left (codes "repass-activation-v1\n") p q h)

format_of-injective : (a b : EnvelopeKind) → format_of a ≡ format_of b → a ≡ b
unfolding signed_message
format_of-injective a b h = (signed_message-injective a b [] [] (ap (λ f. f ++ (b'\n' ∷ [])) h)).0

verdict_iff :
    (payload : Bytes) (t : Tally) (p : VerifiedPayload)
    → (verdict payload t ≡ ok p)
      ↔ ((p.payload ≡ payload) × (p.verified_by ≡ t.verified) × (p.verified_by ≢ []))
unfolding verdict
verdict_iff payload t p = ground (arith, is_empty_iff t.verified)

module _ (F : Formats) (keys : TrustedKeySet F) (allowed : List SignatureAlgorithm) where
  -- What it takes to open an envelope.
  abbrev pub Opens : Text → EnvelopeKind → VerifiedPayload → Type 0
  Opens text kind p =
      (utf8_len text ≤ max_envelope_bytes)
      × (raw : RawEnvelope) × (F.read_envelope text ≡ ok raw)
      × (raw.format ≡ format_of kind)
      × (F.decode64 raw.payload ≡ some p.payload)
      × (length raw.signatures ≤ max_signatures)
      × Distinct raw.signatures
      × All (Holds F keys allowed (signed_message kind p.payload)) raw.signatures
      × (p.verified_by ≡ signers F keys allowed raw.signatures)
      × (p.verified_by ≢ [])

  signers-nonempty :
      (sigs : List RawSignature) → signers F keys allowed sigs ≢ [] → is_empty sigs ≡ false
  unfolding signers
  signers-nonempty [] h = absurd (h refl)
  signers-nonempty (sig ∷ sigs) h = refl

  open_envelope-Opens :
      (text : Text) (kind : EnvelopeKind) (p : VerifiedPayload)
      → open_envelope F text kind keys allowed ≡ ok p
      → Opens text kind p
  unfolding open_envelope
  open_envelope-Opens text kind p h = >>=-elim (check_size text) _ h λ u1 size h1.
      >>=-elim (map_err not_an_envelope (F.read_envelope text)) _ h1 λ raw read h2.
        >>=-elim (check_format kind raw) _ h2 λ u2 format h3.
          >>=-elim (ok_or _ (F.decode64 raw.payload)) _ h3 λ payload decoded h4.
            >>=-elim (check_count raw) _ h4 λ u3 count h5.
              >>=-elim (check_duplicates raw) _ h5 λ u4 dup h6.
                >>=-elim
                  (check_signatures F keys allowed (signed_message kind payload) raw.signatures
                    no_tally)
                  _ h6
                  λ t checked h7.
                    let (same_payload, by, some_signer) = (verdict_iff payload t p).0 h7 in
                    let (holds, all_signers) =
                      check_signatures-Holds F keys allowed (signed_message kind payload)
                        raw.signatures no_tally t checked in
                    (
                      ground arith,
                      raw,
                      ground arith,
                      (text_eq_iff raw.format (format_of kind)).0 (ground arith),
                      ground arith,
                      ground arith,
                      (first_duplicate-none raw.signatures).0 (ground arith),
                      subst (λ q. All (Holds F keys allowed (signed_message kind q)) raw.signatures)
                          (sym same_payload) holds,
                      by ∙ all_signers,
                      some_signer,
                    )

  Opens-open_envelope :
      (text : Text) (kind : EnvelopeKind) (p : VerifiedPayload)
      → Opens text kind p
      → open_envelope F text kind keys allowed ≡ ok p
  unfolding open_envelope
  Opens-open_envelope text kind p
        (size, raw, read, format, decoded, count, distinct, holds, by, some_signer) =
      let (t, checked, all_signers) =
        Holds-check_signatures F keys allowed (signed_message kind p.payload) raw.signatures
          no_tally holds in
      >>=-ok (check_size text) _ tt (ground arith) (
        >>=-ok (map_err not_an_envelope (F.read_envelope text)) _ raw (ground arith) (
          >>=-ok (check_format kind raw) _ tt
            (ground (arith, (text_eq_iff raw.format (format_of kind)).1 format))
            (>>=-ok (ok_or _ (F.decode64 raw.payload)) _ p.payload (ground arith) (
              >>=-ok (check_count raw) _ tt
                (ground (arith, signers-nonempty raw.signatures (λ e. some_signer (by ∙ e))))
                (>>=-ok (check_duplicates raw) _ tt
                  (ground (arith, (first_duplicate-none raw.signatures).1 distinct))
                  (>>=-ok
                    (check_signatures F keys allowed (signed_message kind p.payload) raw.signatures
                      no_tally)
                    _ t checked
                    ((verdict_iff p.payload t p).1 (refl, by ∙ sym all_signers, some_signer))))))))

  -- An envelope opens exactly when it is small enough, of the kind asked for, with one to eight
  -- signatures by different keys, each signature by a trusted key with a permitted algorithm holds,
  -- and there is such a signature; the result is its payload with all such signatures, in order.
  pub open_envelope_iff :
      (text : Text) (kind : EnvelopeKind) (p : VerifiedPayload)
      → (open_envelope F text kind keys allowed ≡ ok p) ↔ Opens text kind p
  open_envelope_iff text kind p = (open_envelope-Opens text kind p, Opens-open_envelope text kind p)

  -- An envelope that opens as one kind is refused as any other, for its format.
  open_envelope_other :
      (text : Text) (kind other : EnvelopeKind) (p : VerifiedPayload)
      → open_envelope F text kind keys allowed ≡ ok p
      → other ≢ kind
      → open_envelope F text other keys allowed ≡ err (unsupported_format (format_of kind))
  unfolding open_envelope
  open_envelope_other text kind other p h distinct =
      let (size, raw, read, format, decoded, count, ids, holds, by, some_signer) =
        open_envelope-Opens text kind p h in
      let differs : text_eq raw.format (format_of other) ≡ false = eq-false _ (λ e. distinct (
        format_of-injective other kind
          (sym ((text_eq_iff raw.format (format_of other)).0 e) ∙ format))) in
      ground (arith, differs)
