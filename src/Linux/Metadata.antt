-- ===== src/Linux/Metadata.antt =====
-- What a lookup of metadata on Linux finds, against what the kernel says.
use cursedelete.Base.{
  ℕ, ◌≡◌, refl, sym, ap, ◌∙◌, subst, ◌≢◌, ◌↔◌, ◌⊎◌, inl, inr, false, arith, ◌==◌, Bool-cases,
  Result-cases, Text, codes, Result, ok, err, ==_iff,
}
use cursedelete.Linux.Kernel.{Kernel, Statx, Stat, OsError, invalid_input, has_nul}
use cursedelete.Linux.Listing.{RawMeta, from_statx, from_stat, os_result, lookup_metadata}

module _ (K : Kernel) (w : K.World) (fd : K.Fd) where
  -- What the kernel answers about a name, not following links: through `statx`, or through `fstatat`
  -- where the kernel has no `statx`.
  abbrev pub Answers : Text → Result RawMeta ℕ → Type 0
  Answers name r =
      (has_nul name ≡ false)
      × (((s : Statx) × (K.statx w fd name ≡ ok s) × (r ≡ ok (from_statx s)))
          ⊎ ((n : ℕ) × (K.statx w fd name ≡ err n) × (n ≢ K.enosys) × (r ≡ err n))
          ⊎ ((K.statx w fd name ≡ err K.enosys)
              × (((s : Stat) × (K.fstatat w fd name ≡ ok s) × (r ≡ ok (from_stat s)))
                  ⊎ ((n : ℕ) × (K.fstatat w fd name ≡ err n) × (r ≡ err n)))))

  -- The errors of the system among those of the crate.
  abbrev pub lifted : Result RawMeta ℕ → Result RawMeta OsError
  lifted r = os_result K (λ m. m) r

  pub lifted-injective : (r s : Result RawMeta ℕ) → lifted r ≡ lifted s → r ≡ s
  lifted-injective (ok m) (ok n) h = cc
  lifted-injective (ok m) (err n) h = cc
  lifted-injective (err m) (ok n) h = cc
  lifted-injective (err m) (err n) h = cc

  -- Each name that is a C string has an answer, and it is what the lookup gives.
  pub lookup_metadata-Answers :
      (name : Text)
      → has_nul name ≡ false
      → (r : Result RawMeta ℕ) × Answers name r × (lookup_metadata K w fd name ≡ lifted r)
  unfolding lookup_metadata
  lookup_metadata-Answers name fine = elim (Result-cases (K.statx w fd name)) [
    | inl (s, e) ↦ (ok (from_statx s), (fine, inl (s, e, refl)), rw fine (rw e refl))
    | inr (n, e) ↦ elim (Bool-cases (n == K.enosys)) [
      | inl y ↦
          let gone : K.statx w fd name ≡ err K.enosys = e ∙ ap err ((==_iff n K.enosys).0 y) in
          elim (Result-cases (K.fstatat w fd name)) [
            | inl (s, f) ↦ (
              ok (from_stat s),
              (fine, inr (inr (gone, inl (s, f, refl)))),
              rw fine (rw e (rw y (rw fine (rw f refl)))),
            )
            | inr (m, f) ↦ (
              err m,
              (fine, inr (inr (gone, inr (m, f, refl)))),
              rw fine (rw e (rw y (rw fine (rw f refl)))),
            )
          ]
      | inr other ↦ (
        err n,
        (fine, inr (inl (n, e, (λ same. absurd (ground (arith, other, same))), refl))),
        rw fine (rw e (rw other refl)),
      )
    ]
  ]

  pub Answers-unique :
      (name : Text) (r s : Result RawMeta ℕ) → Answers name r → Answers name s → r ≡ s
  Answers-unique name r s (f, a) (g, b) = ground arith

  pub lookup_metadata_iff :
      (name : Text) (r : Result RawMeta ℕ)
      → (lookup_metadata K w fd name ≡ lifted r) ↔ Answers name r
  unfolding lookup_metadata
  lookup_metadata_iff name r = (
    (λ h. elim (Bool-cases (has_nul name)) [
      | inl nul ↦ absurd (impossible r (rw nul at h))
      | inr fine ↦
          let (s, a, e) = lookup_metadata-Answers name fine in
          subst (Answers name) (lifted-injective s r (sym e ∙ h)) a
    ]),
    λ a.
        let (s, b, e) = lookup_metadata-Answers name a.0 in
        e ∙ ap lifted (Answers-unique name s r b a),
  )
    where
      impossible :
          (r : Result RawMeta ℕ)
          → ◌≡◌ {A = Result RawMeta OsError}
              (err (invalid_input (codes "name contains a NUL byte")))
              (lifted r)
          → ⊥
      impossible (ok m) h = cc
      impossible (err n) h = cc
