-- ===== src/License/Envelope/Loop.antt =====
-- The loop over the signatures of an envelope, against the list of those that count.
use cursedelete.Base.{
  ◌≡◌, refl, sym, ap, ◌∙◌, ◌⊎◌, inl, inr, true, false, Option, none, some, List, [], ◌∷◌, ◌++◌,
  arith, Bool-cases, Option-cases, All, ok, >>=-eq-ok,
}
use mathlib.Core.List.{append-nil, append_assoc}
use cursedelete.License.Formats.{Formats, Bytes, RawSignature}
use cursedelete.License.Algorithms
use cursedelete.License.Algorithms.{SignatureAlgorithm, permits, same, same_iff}
use cursedelete.License.Keys.{TrustedKey, TrustedKeySet, get, verify}
use cursedelete.License.Envelope.{
  VerifiedSignature, Tally, use_key, with_algorithm, check_signature, check_signatures,
}

module _ (F : Formats) (keys : TrustedKeySet F) (allowed : List SignatureAlgorithm) where
  abbrev key_of :
      RawSignature → Option SignatureAlgorithm → Option (TrustedKey F × SignatureAlgorithm)
  key_of sig none = none
  key_of sig (some a) = elim (permits allowed a) [
    | false ↦ none
    | true ↦ elim (get F keys sig.key_id) [ none ↦ none | some key ↦ some (key, a) ]
  ]

  -- The trusted key of a signature with a permitted algorithm.
  abbrev pub usable : RawSignature → Option (TrustedKey F × SignatureAlgorithm)
  usable sig = key_of sig (Algorithms.from_id sig.signature_algorithm)

  abbrev signer :
      RawSignature
      → Option (TrustedKey F × SignatureAlgorithm)
      → List VerifiedSignature
      → List VerifiedSignature
  signer sig none vs = vs
  signer sig (some (key, a)) vs = record { key_id = sig.key_id; algorithm = a } ∷ vs

  signer-append :
      (sig : RawSignature) (o : Option (TrustedKey F × SignatureAlgorithm))
      (xs ys : List VerifiedSignature)
      → (xs ++ signer sig o []) ++ ys ≡ xs ++ signer sig o ys
  signer-append sig none xs ys = ap (λ zs. zs ++ ys) (append-nil xs)
  signer-append sig (some (key, a)) xs ys = append_assoc xs _ ys

  -- The usable signatures, in order.
  unfoldable pub signers : List RawSignature → List VerifiedSignature
  signers [] = []
  signers (sig ∷ sigs) = signer sig (usable sig) (signers sigs)

  module _ (message : Bytes) where
    -- The key is one for the algorithm, and the signature by it covers the message.
    abbrev pub Verifies : RawSignature → TrustedKey F → SignatureAlgorithm → Type 0
    Verifies sig key a =
        (key.algorithm ≡ a)
        × (s : Bytes) × (F.decode64 sig.signature ≡ some s)
        × (verify F key message s ≡ true)

    abbrev pub Holds : RawSignature → Type 0
    Holds sig =
        (key : TrustedKey F) (a : SignatureAlgorithm)
        → usable sig ≡ some (key, a)
        → Verifies sig key a

    use_key-Verifies :
        (sig : RawSignature) (a : SignatureAlgorithm) (key : TrustedKey F) (t u : Tally)
        → use_key F message sig a key t ≡ ok u
        → Verifies sig key a
          × (u.verified ≡ t.verified ++ (record { key_id = sig.key_id; algorithm = a } ∷ []))
    unfolding use_key
    use_key-Verifies sig a key t u h =
        ground (arith, same_iff key.algorithm a, Option-cases (F.decode64 sig.signature))

    Verifies-use_key :
        (sig : RawSignature) (a : SignatureAlgorithm) (key : TrustedKey F) (t : Tally)
        → Verifies sig key a
        → use_key F message sig a key t
          ≡ ok (record t {
            verified = t.verified ++ (record { key_id = sig.key_id; algorithm = a } ∷ []);
          })
    unfolding use_key
    Verifies-use_key sig a key t (e, s, d, v) = ground (arith, same_iff key.algorithm a)

    -- A round of the loop: a usable signature is checked, any other is passed over.
    with_algorithm-cases :
        (sig : RawSignature) (o : Option SignatureAlgorithm) (t : Tally)
        → ((key : TrustedKey F) × (a : SignatureAlgorithm) × (key_of sig o ≡ some (key, a))
            × (with_algorithm F keys allowed message sig o t ≡ use_key F message sig a key t))
          ⊎ ((key_of sig o ≡ none)
              × (u : Tally) × (with_algorithm F keys allowed message sig o t ≡ ok u)
              × (u.verified ≡ t.verified))
    with_algorithm-cases sig none t = inr (refl, _, refl, refl)
    with_algorithm-cases sig (some a) t = elim (Bool-cases (permits allowed a)) [
      | inl p ↦ elim (Option-cases (get F keys sig.key_id)) [
        | inl g ↦ inr (
          ground arith,
          record t { untrusted = t.untrusted ++ (sig.key_id ∷ []) },
          ground arith,
          refl,
        )
        | inr (key, g) ↦ inl (key, a, ground arith, ground arith)
      ]
      | inr p ↦ inr (
        ground arith,
        record t { disallowed = t.disallowed ++ (Algorithms.id a ∷ []) },
        ground arith,
        refl,
      )
    ]

    check_signature-Holds :
        (sig : RawSignature) (t u : Tally)
        → check_signature F keys allowed message sig t ≡ ok u
        → Holds sig × (u.verified ≡ t.verified ++ signer sig (usable sig) [])
    unfolding check_signature
    check_signature-Holds sig t u h =
        elim (with_algorithm-cases sig (Algorithms.from_id sig.signature_algorithm) t) [
          | inl (key, a, k, e) ↦
              let (v, w) = use_key-Verifies sig a key t u (sym e ∙ h) in
              (λ key' a' k'. ground (arith, v), rw k w)
          | inr (k, u', e, w) ↦ (λ key' a' k'. cc, rw k (ground (arith, w, append-nil t.verified)))
        ]

    Holds-check_signature :
        (sig : RawSignature) (t : Tally)
        → Holds sig
        → (u : Tally) × (check_signature F keys allowed message sig t ≡ ok u)
          × (u.verified ≡ t.verified ++ signer sig (usable sig) [])
    unfolding check_signature
    Holds-check_signature sig t h =
        elim (with_algorithm-cases sig (Algorithms.from_id sig.signature_algorithm) t) [
          | inl (key, a, k, e) ↦ (_, e ∙ Verifies-use_key sig a key t (h key a k), rw k refl)
          | inr (k, u, e, w) ↦ (u, e, rw k (w ∙ sym (append-nil t.verified)))
        ]

    pub check_signatures-Holds :
        (sigs : List RawSignature) (t u : Tally)
        → check_signatures F keys allowed message sigs t ≡ ok u
        → All Holds sigs × (u.verified ≡ t.verified ++ signers sigs)
    unfolding check_signatures signers
    check_signatures-Holds [] t u h = (tt, ground (arith, append-nil t.verified))
    check_signatures-Holds (sig ∷ sigs) t u h =
        let (m, e, k) = >>=-eq-ok (check_signature F keys allowed message sig t) _ h in
        let (here, v) = check_signature-Holds sig t m e in
        let (rest, w) = check_signatures-Holds sigs m u k in
        (
          (here, rest),
          w
              ∙ ap (λ vs. vs ++ signers sigs) v
              ∙ signer-append sig (usable sig) t.verified (signers sigs),
        )

    pub Holds-check_signatures :
        (sigs : List RawSignature) (t : Tally)
        → All Holds sigs
        → (u : Tally) × (check_signatures F keys allowed message sigs t ≡ ok u)
          × (u.verified ≡ t.verified ++ signers sigs)
    unfolding check_signatures signers
    Holds-check_signatures [] t h = (t, refl, sym (append-nil t.verified))
    Holds-check_signatures (sig ∷ sigs) t (here, rest) =
        let (m, e, v) = Holds-check_signature sig t here in
        let (u, k, w) = Holds-check_signatures sigs m rest in
        (
          u,
          rw e k,
          w
              ∙ ap (λ vs. vs ++ signers sigs) v
              ∙ signer-append sig (usable sig) t.verified (signers sigs),
        )
