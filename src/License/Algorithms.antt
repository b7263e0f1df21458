-- ===== src/License/Algorithms.antt =====
-- crates/cursdel-license/src/algorithm.rs: the signature algorithms.
use cursedelete.Base.{
  find-eq-some, find, ◌≡◌, refl, sym, ap, ◌∙◌, ◌↔◌, Bool, true, false, Option, some, List, [], ◌∷◌,
  arith, any, Text, codes, text_eq, text_eq_iff,
}

pub data SignatureAlgorithm : Type 0 where
  ed25519 ecdsa_p256_sha256 ml_dsa_65 : SignatureAlgorithm

abbrev pub all : List SignatureAlgorithm
all = ed25519 ∷ ecdsa_p256_sha256 ∷ ml_dsa_65 ∷ []

-- The identifier in an envelope; it is also what is displayed.
unfoldable pub id : SignatureAlgorithm → Text
id ed25519 = codes "Ed25519"
id ecdsa_p256_sha256 = codes "ECDSA-P256-SHA256"
id ml_dsa_65 = codes "ML-DSA-65"

-- The match is exact and case-sensitive.
unfoldable pub from_id : Text → Option SignatureAlgorithm
from_id s = find (λ a. text_eq (id a) s) all

abbrev pub same : SignatureAlgorithm → SignatureAlgorithm → Bool
same ed25519 ed25519 = true
same ecdsa_p256_sha256 ecdsa_p256_sha256 = true
same ml_dsa_65 ml_dsa_65 = true
same _ _ = false

-- `[SignatureAlgorithm]::contains`
abbrev pub permits : List SignatureAlgorithm → SignatureAlgorithm → Bool
permits allowed a = any (same a) allowed

pub same_iff : (a b : SignatureAlgorithm) → (same a b ≡ true) ↔ (a ≡ b)
same_iff a b = ground arith

pub from_id-id : (a : SignatureAlgorithm) → from_id (id a) ≡ some a
unfolding from_id id text_eq
from_id-id ed25519 = refl
from_id-id ecdsa_p256_sha256 = refl
from_id-id ml_dsa_65 = refl

-- An algorithm is read from exactly its own id.
pub from_id_iff : (s : Text) (a : SignatureAlgorithm) → (from_id s ≡ some a) ↔ (s ≡ id a)
unfolding from_id
from_id_iff s a = (
  λ h. sym ((text_eq_iff (id a) s).0 (find-eq-some (λ x. text_eq (id x) s) all a h)),
  λ h. ap from_id h ∙ from_id-id a,
)
