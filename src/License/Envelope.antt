-- ===== src/License/Envelope.antt =====
-- crates/cursdel-license/src/envelope.rs: the signed envelope, and how it is opened.
pub mod Loop
pub mod Opening
use cursedelete.Base.{
  utf8_len, has_text, join_with, ℕ, not, ◌||◌, Option, none, some, List, [], ◌∷◌, ◌++◌, ltb,
  if◌then◌else◌, length, is_empty, Text, codes, text_eq, Result, ok, err, ◌>>=◌, ◌>>◌, map_err,
}
use cursedelete.Base.Decimal.{digits}
use cursedelete.License.Formats.{Formats, Bytes, RawSignature, RawEnvelope}
use cursedelete.License.Algorithms
use cursedelete.License.Algorithms.{SignatureAlgorithm, permits, same}
use cursedelete.License.Keys.{TrustedKey, TrustedKeySet, get, verify, ok_or}

abbrev pub max_envelope_bytes : ℕ
max_envelope_bytes = 65536

abbrev pub max_signatures : ℕ
max_signatures = 8

pub data EnvelopeKind : Type 0 where
  license activation : EnvelopeKind

unfoldable pub format_of : EnvelopeKind → Text
format_of license = codes "repass-license-v1"
format_of activation = codes "repass-activation-v1"

pub data EnvelopeError : Type 0 where
  malformed unsupported_format : Text → EnvelopeError
  unsupported_algorithm disallowed_algorithm untrusted_key : List Text → EnvelopeError
  invalid_signature : Text → EnvelopeError

-- What `thiserror` makes of the error's text.
unfoldable pub display_error : EnvelopeError → Text
display_error (malformed m) = m
display_error (unsupported_format f) = codes "unsupported format '" ++ f ++ codes "'"
display_error (unsupported_algorithm a) =
    codes "signed only with unsupported algorithm(s): " ++ join_with (codes ", ") a
display_error (disallowed_algorithm a) =
    codes "signed only with algorithm(s) this application does not permit: "
    ++ join_with (codes ", ") a
display_error (untrusted_key k) =
    codes "signed only by key(s) this build does not trust: " ++ join_with (codes ", ") k
display_error (invalid_signature k) = codes "signature by key '" ++ k ++ codes "' is invalid"

pub record VerifiedSignature : Type 0 where
  pub key_id : Text
  pub algorithm : SignatureAlgorithm

pub record VerifiedPayload : Type 0 where
  pub payload : Bytes
  pub verified_by : List VerifiedSignature

unfoldable pub signed_message : EnvelopeKind → Bytes → Bytes
signed_message kind payload = format_of kind ++ (b'\n' ∷ payload)

-- The first signature whose key id occurred before, with the ids that were inserted.
unfoldable pub first_duplicate : List Text → List RawSignature → Option RawSignature
first_duplicate seen [] = none
first_duplicate seen (s ∷ ss) =
    let rest = first_duplicate (s.key_id ∷ seen) ss in
    if has_text s.key_id seen then some s else rest

-- The four lists that the loop over the signatures fills.
pub record Tally : Type 0 where
  pub verified : List VerifiedSignature
  pub unsupported : List Text
  pub disallowed : List Text
  pub untrusted : List Text

abbrev pub no_tally : Tally
no_tally = record { verified = []; unsupported = []; disallowed = []; untrusted = [] }

abbrev pub check_size : Text → Result (Unit {0}) EnvelopeError
check_size text =
    if ltb max_envelope_bytes (utf8_len text)
    then err (malformed (codes "file is larger than 65536 bytes"))
    else ok tt

abbrev pub check_format : EnvelopeKind → RawEnvelope → Result (Unit {0}) EnvelopeError
check_format kind raw =
    if text_eq raw.format (format_of kind) then ok tt else err (unsupported_format raw.format)

abbrev pub check_count : RawEnvelope → Result (Unit {0}) EnvelopeError
check_count raw =
    if is_empty raw.signatures || ltb max_signatures (length raw.signatures)
    then err (malformed (codes "envelope must carry between 1 and 8 signatures"))
    else ok tt

abbrev pub check_duplicates : RawEnvelope → Result (Unit {0}) EnvelopeError
check_duplicates raw = elim (first_duplicate [] raw.signatures) [
  | none ↦ ok tt
  | some dup ↦
      err (malformed (codes "key '" ++ dup.key_id ++ codes "' signs the envelope more than once"))
]

unfoldable pub verdict : Bytes → Tally → Result VerifiedPayload EnvelopeError
verdict payload t =
    if not (is_empty t.verified)
    then ok (record { payload = payload; verified_by = t.verified })
    else if not (is_empty t.untrusted)
    then err (untrusted_key t.untrusted)
    else if not (is_empty t.disallowed)
    then err (disallowed_algorithm t.disallowed)
    else err (unsupported_algorithm t.unsupported)

abbrev pub not_an_envelope : Text → EnvelopeError
not_an_envelope e = malformed (codes "not a signed licence envelope: " ++ e)

module _ (F : Formats) where
  abbrev pub mismatch : TrustedKey F → SignatureAlgorithm → EnvelopeError
  mismatch key a = malformed (
      codes "signature claims key '"
      ++ key.id
      ++ codes "' is "
      ++ Algorithms.id a
      ++ codes ", but that key is "
      ++ Algorithms.id key.algorithm)

  -- What the loop does with a signature of a trusted key and a permitted algorithm.
  unfoldable pub use_key :
      Bytes → RawSignature → SignatureAlgorithm → TrustedKey F → Tally → Result Tally EnvelopeError
  use_key message sig a key t =
      if not (same key.algorithm a)
      then err (mismatch key a)
      else ok_or (malformed (codes "signature is not valid base64url")) (F.decode64 sig.signature)
        >>= λ signature.
            if verify F key message signature
            then ok (record t {
              verified = t.verified ++ (record { key_id = sig.key_id; algorithm = a } ∷ []);
            })
            else err (invalid_signature sig.key_id)

  abbrev pub with_key :
      Bytes
      → RawSignature
      → SignatureAlgorithm
      → Option (TrustedKey F)
      → Tally
      → Result Tally EnvelopeError
  with_key message sig a none t = ok (record t { untrusted = t.untrusted ++ (sig.key_id ∷ []) })
  with_key message sig a (some key) t = use_key message sig a key t

  abbrev pub with_algorithm :
      TrustedKeySet F
      → List SignatureAlgorithm
      → Bytes
      → RawSignature
      → Option SignatureAlgorithm
      → Tally
      → Result Tally EnvelopeError
  with_algorithm keys allowed message sig none t =
      ok (record t { unsupported = t.unsupported ++ (sig.signature_algorithm ∷ []) })
  with_algorithm keys allowed message sig (some a) t =
      if permits allowed a
      then with_key message sig a (get F keys sig.key_id) t
      else ok (record t { disallowed = t.disallowed ++ (Algorithms.id a ∷ []) })

  -- One round of the loop over the signatures.
  unfoldable pub check_signature :
      TrustedKeySet F
      → List SignatureAlgorithm
      → Bytes
      → RawSignature
      → Tally
      → Result Tally EnvelopeError
  check_signature keys allowed message sig t =
      with_algorithm keys allowed message sig (Algorithms.from_id sig.signature_algorithm) t

  unfoldable pub check_signatures :
      TrustedKeySet F
      → List SignatureAlgorithm
      → Bytes
      → List RawSignature
      → Tally
      → Result Tally EnvelopeError
  check_signatures keys allowed message [] t = ok t
  check_signatures keys allowed message (sig ∷ sigs) t =
      check_signature keys allowed message sig t >>= λ u.
      check_signatures keys allowed message sigs u

  unfoldable pub open_envelope :
      Text
      → EnvelopeKind
      → TrustedKeySet F
      → List SignatureAlgorithm
      → Result VerifiedPayload EnvelopeError
  open_envelope text kind keys allowed = do
    check_size text
    raw ← map_err not_an_envelope (F.read_envelope text)
    check_format kind raw
    payload ← ok_or (malformed (codes "payload is not valid base64url")) (F.decode64 raw.payload)
    check_count raw
    check_duplicates raw
    t ← check_signatures keys allowed (signed_message kind payload) raw.signatures no_tally
    verdict payload t
