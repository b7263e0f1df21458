-- ===== src/License/Claims/Fields.antt =====
-- The fields of a claims document: what it takes to read them.
use cursedelete.Base.{
  ℕ, ◌≡◌, refl, subst, ◌↔◌, false, Option, none, some, arith, is_empty, Text, Result, ok, ◌>>=◌,
  >>=-elim, map_err_iff, >>=-ok, map_err,
}
use cursedelete.Ages.{trim}
use cursedelete.License.Formats.{Formats, Bytes}
use cursedelete.License.Claims.{
  not_json, invalid_claims, non_empty, optional_non_empty, with_schema, checked_value,
  schema_version,
}

-- More than white space.
abbrev pub Filled : Text → Type 0
Filled s = is_empty (trim s) ≡ false

abbrev pub OptionFilled : Option Text → Type 0
OptionFilled none = Unit
OptionFilled (some s) = Filled s

pub non_empty_iff : (name v w : Text) → (non_empty name v ≡ ok w) ↔ ((v ≡ w) × Filled w)
unfolding non_empty
non_empty_iff name v w = ground arith

pub optional_non_empty_iff :
    (name : Text) (v w : Option Text)
    → (optional_non_empty name v ≡ ok w) ↔ ((v ≡ w) × OptionFilled w)
unfolding optional_non_empty
optional_non_empty_iff name none none = ground arith
optional_non_empty_iff name none (some w) = ground arith
optional_non_empty_iff name (some v) none = ground arith
optional_non_empty_iff name (some v) (some w) = ground arith

module _ (F : Formats) where
  with_schema_iff :
      (v w : F.Value) (o : Option ℕ)
      → (with_schema F v o ≡ ok w) ↔ ((v ≡ w) × (o ≡ some schema_version))
  with_schema_iff v w none = ground arith
  with_schema_iff v w (some n) = ground arith

  checked_value-eq-ok :
      (payload : Bytes) (v : F.Value)
      → checked_value F payload ≡ ok v
      → (F.read_value payload ≡ ok v) × (F.schema_version v ≡ some schema_version)
  unfolding checked_value
  checked_value-eq-ok payload v h =
      >>=-elim (map_err not_json (F.read_value payload)) _ h λ w read h1.
        let (e, schema) = (with_schema_iff w v (F.schema_version w)).0 h1 in
        subst (λ x. (F.read_value payload ≡ ok x) × (F.schema_version x ≡ some schema_version)) e
          ((map_err_iff not_json (F.read_value payload) w).0 read, schema)

  checked_value-ok :
      (payload : Bytes) (v : F.Value)
      → F.read_value payload ≡ ok v
      → F.schema_version v ≡ some schema_version
      → checked_value F payload ≡ ok v
  unfolding checked_value
  checked_value-ok payload v h e =
      >>=-ok (map_err not_json (F.read_value payload)) _ v
        ((map_err_iff not_json (F.read_value payload) v).1 h)
        ((with_schema_iff v v (F.schema_version v)).1 (refl, e))

  -- The payload is a JSON document of the supported schema, with these fields.
  abbrev pub ReadsAs {ℓ} : {R : Type ℓ} → (F.Value → Result R Text) → Bytes → R → Type ℓ
  ReadsAs fields_of payload raw =
      (v : F.Value) × (F.read_value payload ≡ ok v)
      × (F.schema_version v ≡ some schema_version)
      × (fields_of v ≡ ok raw)

  pub fields-ReadsAs :
      {R : Type 0} (fields_of : F.Value → Result R Text) (payload : Bytes) (raw : R)
      → ((checked_value F payload >>= λ v. map_err invalid_claims (fields_of v)) ≡ ok raw)
        ↔ ReadsAs fields_of payload raw
  fields-ReadsAs fields_of payload raw = (
    λ h. >>=-elim (checked_value F payload) _ h λ v checked fields.
        let (read, schema) = checked_value-eq-ok payload v checked in
        (v, read, schema, (map_err_iff invalid_claims (fields_of v) raw).0 fields),
    λ (v, read, schema, fields).
        >>=-ok (checked_value F payload) _ v (checked_value-ok payload v read schema)
          ((map_err_iff invalid_claims (fields_of v) raw).1 fields),
  )
