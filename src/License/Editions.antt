-- ===== src/License/Editions.antt =====
-- crates/cursdel-license/src/edition.rs: the four editions.
use cursedelete.Base.{
  find-eq-some, find, ℕ, ◌≡◌, refl, sym, ap, ◌∙◌, ◌↔◌, Bool, true, false, Option, some, List, [],
  ◌∷◌, arith, Text, codes, text_eq, text_eq_iff,
}

pub data Edition : Type 0 where
  community education business enterprise : Edition

-- `Edition::ALL`, in the order of precedence.
abbrev pub all : List Edition
all = community ∷ education ∷ business ∷ enterprise ∷ []

unfoldable pub id : Edition → Text
id community = codes "community"
id education = codes "education"
id business = codes "business"
id enterprise = codes "enterprise"

-- The match is exact.
unfoldable pub from_id : Text → Option Edition
from_id s = find (λ e. text_eq (id e) s) all

unfoldable pub display_name : Edition → Text
display_name community = codes "Community"
display_name education = codes "Education"
display_name business = codes "Business"
display_name enterprise = codes "Enterprise"

abbrev pub is_business : Edition → Bool
is_business business = true
is_business _ = false

abbrev pub requires_activation : Edition → Bool
requires_activation e = is_business e

-- The order that is derived from the order of declaration.
abbrev pub rank : Edition → ℕ
rank community = 0
rank education = 1
rank business = 2
rank enterprise = 3

pub is_business_iff : (e : Edition) → (is_business e ≡ true) ↔ (e ≡ business)
is_business_iff e = ground arith

pub from_id-id : (e : Edition) → from_id (id e) ≡ some e
unfolding from_id id text_eq
from_id-id community = refl
from_id-id education = refl
from_id-id business = refl
from_id-id enterprise = refl

-- An edition is read from exactly its own id.
pub from_id_iff : (s : Text) (e : Edition) → (from_id s ≡ some e) ↔ (s ≡ id e)
unfolding from_id
from_id_iff s e = (
  λ h. sym ((text_eq_iff (id e) s).0 (find-eq-some (λ x. text_eq (id x) s) all e h)),
  λ h. ap from_id h ∙ from_id-id e,
)
