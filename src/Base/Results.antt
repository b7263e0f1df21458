-- ===== src/Base/Results.antt =====
-- `Result<A, E>`, with the `?` operator as bind.
use native.Mathlib.Omega.{arith}
use mathlib.Core.Path.{◌≡◌, refl}
use mathlib.Core.Logic.{◌↔◌, ◌⊎◌, inl, inr}

pub data Result {ℓ κ} (A : Type ℓ) (E : Type κ) : Type (ℓ ⊔ κ) where
  ok : A → Result A E
  err : E → Result A E

module _ {ℓ κ μ} {A : Type ℓ} {B : Type κ} {E : Type μ} where
  infixl 5 ◌>>=◌ ◌>>◌
  abbrev pub ◌>>=◌ : Result A E → (A → Result B E) → Result B E
  err failure >>= k = err failure
  ok value >>= k = k value

  abbrev pub ◌>>◌ : Result A E → Result B E → Result B E
  m >> k = m >>= λ _. k

  -- A successful chain had a successful first step.
  pub >>=-eq-ok :
      {b : B} (first : Result A E) (k : A → Result B E)
      → (first >>= k) ≡ ok b
      → (value : A) × (first ≡ ok value) × (k value ≡ ok b)
  >>=-eq-ok (err failure) k e = cc
  >>=-eq-ok (ok value) k e = (value, refl, e)

  pub >>=-ok :
      {b : B} (first : Result A E) (k : A → Result B E) (a : A)
      → first ≡ ok a
      → k a ≡ ok b
      → (first >>= k) ≡ ok b
  >>=-ok (err failure) k a e h = cc
  >>=-ok (ok value) k a e h = cc

  -- What follows from both steps of a chain follows from its success.
  pub >>=-elim {ν} :
      {P : Type ν} {b : B} (first : Result A E) (k : A → Result B E)
      → (first >>= k) ≡ ok b
      → ((value : A) → first ≡ ok value → k value ≡ ok b → P)
      → P
  >>=-elim (err failure) k e use_it = absurd (ground arith)
  >>=-elim (ok value) k e use_it = use_it value refl e

module _ {ℓ κ μ} {A : Type ℓ} {E : Type κ} {F : Type μ} where
  abbrev pub map_err : (E → F) → Result A E → Result A F
  map_err f (ok a) = ok a
  map_err f (err e) = err (f e)

module _ {ℓ κ} {A : Type ℓ} {E : Type κ} where
  pub Result-cases : (r : Result A E) → ((a : A) × (r ≡ ok a)) ⊎ ((e : E) × (r ≡ err e))
  Result-cases (ok a) = inl (a, refl)
  Result-cases (err e) = inr (e, refl)

  pub ok-injective : {a b : A} → ◌≡◌ {A = Result A E} (ok a) (ok b) → a ≡ b
  ok-injective h = cc

  pub err-injective : {d e : E} → ◌≡◌ {A = Result A E} (err d) (err e) → d ≡ e
  err-injective h = cc

module _ {ℓ κ μ} {A : Type ℓ} {E : Type κ} {F : Type μ} where
  pub map_err_iff : (f : E → F) (r : Result A E) (a : A) → (map_err f r ≡ ok a) ↔ (r ≡ ok a)
  map_err_iff f (ok b) a = (λ h. cc, λ h. cc)
  map_err_iff f (err e) a = (λ h. cc, λ h. cc)
