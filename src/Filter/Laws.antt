-- ===== src/Filter/Laws.antt =====
-- What the filters decide, stated criterion by criterion, independently of the order of the tests.
use cursedelete.Base.{
  ap, ◌∙◌, ℕ, ◌+◌, ◌≤◌, ◌<◌, ◌≡◌, refl, ◌≢◌, ◌↔◌, ◌⊎◌, inl, inr, true, false, none, some, arith,
  Text, ok, err,
}
use cursedelete.Entry.{DiscoveredEntry}
use cursedelete.Options.{FilterSpec, spec_is_noop, AgeBasis, modified, created, accessed}
use cursedelete.Paths.{file_name}
use cursedelete.Filter.{
  Globs, RetainReason, too_young, excluded_by_pattern, not_included_by_pattern, too_small,
  too_large, timestamp_unavailable, FilterDecision, delete, retain, timestamp, FilterSet,
  build_with_reference_time, is_noop, name_of, evaluate_file, FilterBuildError, invalid_include,
  invalid_exclude, parse_age_basis, age_basis_str,
}

module _ (G : Globs) where
  -- A file violates the criterion that a reason names.
  abbrev pub Violates : FilterSet G → DiscoveredEntry → RetainReason → Type 0
  Violates s e excluded_by_pattern =
      (m : G.Matcher) × (s.exclude ≡ some m) × (G.is_match m (name_of G (file_name e.path)) ≡ true)
  Violates s e not_included_by_pattern =
      (m : G.Matcher) × (s.include ≡ some m) × (G.is_match m (name_of G (file_name e.path)) ≡ false)
  Violates s e too_small = (n : ℕ) × (s.min_size ≡ some n) × (e.size < n)
  Violates s e too_large = (n : ℕ) × (s.max_size ≡ some n) × (n < e.size)
  Violates s e timestamp_unavailable =
      (age : ℕ) × (s.age ≡ some age) × (timestamp s.age_basis e.times ≡ none)
  Violates s e too_young =
      (age : ℕ) × (ts : ℕ) × (s.age ≡ some age)
      × (timestamp s.age_basis e.times ≡ some ts)
      × (s.reference_time < ts + age)
      × (0 < age)

  -- If a file is retained, it violates the very criterion that the reason names.
  pub evaluate_file-retain :
      (s : FilterSet G) (e : DiscoveredEntry) (r : RetainReason)
      → evaluate_file G s e ≡ retain r
      → Violates s e r
  unfolding evaluate_file
  evaluate_file-retain s e excluded_by_pattern h = ground arith
  evaluate_file-retain s e not_included_by_pattern h = ground arith
  evaluate_file-retain s e too_small h = ground arith
  evaluate_file-retain s e too_large h = ground arith
  evaluate_file-retain s e timestamp_unavailable h = ground arith
  evaluate_file-retain s e too_young h = ground arith

  -- The order in which the criteria are reported.
  abbrev pub rank : RetainReason → ℕ
  rank excluded_by_pattern = 0
  rank not_included_by_pattern = 1
  rank too_small = 2
  rank too_large = 3
  rank timestamp_unavailable = 4
  rank too_young = 4

  Violates-ne-delete :
      (s : FilterSet G) (e : DiscoveredEntry) (r : RetainReason)
      → Violates s e r
      → evaluate_file G s e ≢ delete
  unfolding evaluate_file
  Violates-ne-delete s e excluded_by_pattern (m, a, b) h = ground arith
  Violates-ne-delete s e not_included_by_pattern (m, a, b) h = ground arith
  Violates-ne-delete s e too_small (n, a, b) h = ground arith
  Violates-ne-delete s e too_large (n, a, b) h = ground arith
  Violates-ne-delete s e timestamp_unavailable (age, a, b) h = ground arith
  Violates-ne-delete s e too_young (age, ts, a, b, c, d) h = ground arith

  -- The reason that is reported is the first one, in the order of the tests, of those that apply.
  pub evaluate_file-first :
      (s : FilterSet G) (e : DiscoveredEntry) (q r : RetainReason)
      → evaluate_file G s e ≡ retain q
      → Violates s e r
      → rank q ≤ rank r
  unfolding evaluate_file
  evaluate_file-first s e q excluded_by_pattern h (m, a, b) = ground arith
  evaluate_file-first s e q not_included_by_pattern h (m, a, b) = ground arith
  evaluate_file-first s e q too_small h (n, a, b) = ground arith
  evaluate_file-first s e q too_large h (n, a, b) = ground arith
  evaluate_file-first s e q timestamp_unavailable h (age, a, b) = ground arith
  evaluate_file-first s e q too_young h (age, ts, a, b, c, d) = ground arith

  FilterDecision-cases : (d : FilterDecision) → (d ≡ delete) ⊎ ((r : RetainReason) × (d ≡ retain r))
  FilterDecision-cases delete = inl refl
  FilterDecision-cases (retain r) = inr (r, refl)

  same_rank :
      (s : FilterSet G) (e : DiscoveredEntry) (q r : RetainReason)
      → Violates s e q
      → Violates s e r
      → rank q ≡ rank r
      → q ≡ r
  same_rank s e timestamp_unavailable too_young (m, a, b) (n, ts, c, d, f, g) h =
      absurd (ground (arith, b, d))
  same_rank s e too_young timestamp_unavailable (n, ts, c, d, f, g) (m, a, b) h =
      absurd (ground (arith, b, d))
  same_rank s e timestamp_unavailable timestamp_unavailable a b h = refl
  same_rank s e too_young too_young a b h = refl
  same_rank s e excluded_by_pattern r a b h = excluded r h
    where
      excluded : (r : RetainReason) → 0 ≡ rank r → excluded_by_pattern ≡ r
      excluded r h = ground arith
  same_rank s e not_included_by_pattern r a b h = not_included r h
    where
      not_included : (r : RetainReason) → 1 ≡ rank r → not_included_by_pattern ≡ r
      not_included r h = ground arith
  same_rank s e too_small r a b h = small r h
    where
      small : (r : RetainReason) → 2 ≡ rank r → too_small ≡ r
      small r h = ground arith
  same_rank s e too_large r a b h = large r h
    where
      large : (r : RetainReason) → 3 ≡ rank r → too_large ≡ r
      large r h = ground arith
  same_rank s e timestamp_unavailable excluded_by_pattern a b h = cc
  same_rank s e timestamp_unavailable not_included_by_pattern a b h = cc
  same_rank s e timestamp_unavailable too_small a b h = cc
  same_rank s e timestamp_unavailable too_large a b h = cc
  same_rank s e too_young excluded_by_pattern a b h = cc
  same_rank s e too_young not_included_by_pattern a b h = cc
  same_rank s e too_young too_small a b h = cc
  same_rank s e too_young too_large a b h = cc

  -- A file is retained for a reason exactly when it violates the criterion that the reason names, and
  -- no criterion that it violates comes before that one in the order of the tests.
  pub evaluate_file-retain_iff :
      (s : FilterSet G) (e : DiscoveredEntry) (r : RetainReason)
      → (evaluate_file G s e ≡ retain r)
        ↔ (Violates s e r × ((q : RetainReason) → Violates s e q → rank r ≤ rank q))
  evaluate_file-retain_iff s e r = (
    λ h. (evaluate_file-retain s e r h, λ q v. evaluate_file-first s e r q h v),
    λ (v, first). elim (FilterDecision-cases (evaluate_file G s e)) [
      | inl d ↦ absurd (Violates-ne-delete s e r v d)
      | inr (q, h) ↦
          let w = evaluate_file-retain s e q h in
          let le = evaluate_file-first s e q r h v in
          let ge = first q w in h ∙ ap retain (same_rank s e q r w v (omega arith))
    ],
  )

  -- A file is to be deleted exactly when it violates none of the criteria.
  pub evaluate_file-delete :
      (s : FilterSet G) (e : DiscoveredEntry)
      → (evaluate_file G s e ≡ delete) ↔ ((r : RetainReason) → ¬ Violates s e r)
  evaluate_file-delete s e = (
    λ h r v. Violates-ne-delete s e r v h,
    λ none_violated. elim (FilterDecision-cases (evaluate_file G s e)) [
      | inl h ↦ h
      | inr (r, h) ↦ absurd (none_violated r (evaluate_file-retain s e r h))
    ],
  )

  -- A set of filters that was built is empty exactly when the options were; then every file is to
  -- be deleted.
  pub build-is_noop :
      (spec : FilterSpec) (now : ℕ) (s : FilterSet G)
      → build_with_reference_time G spec now ≡ ok s
      → (is_noop G s ≡ spec_is_noop spec)
        × (spec_is_noop spec ≡ true → (e : DiscoveredEntry) → evaluate_file G s e ≡ delete)
  unfolding build_with_reference_time evaluate_file
  build-is_noop spec now s h = (ground arith, λ n e. ground arith)

  -- A bad `--include` pattern is reported before a bad `--exclude` pattern, each with its text.
  build-err :
      (spec : FilterSpec) (now : ℕ) (f : FilterBuildError G)
      → build_with_reference_time G spec now ≡ err f
      → ((p : Text) × (e : G.Error) × (spec.include ≡ some p)
          × (G.compile p ≡ err e)
          × (f ≡ invalid_include p e))
        ⊎ ((p : Text) × (e : G.Error) × (spec.exclude ≡ some p)
            × (G.compile p ≡ err e)
            × (f ≡ invalid_exclude p e))
  unfolding build_with_reference_time
  build-err spec now (invalid_include p e) h = inl (p, e, ground arith, ground arith, refl)
  build-err spec now (invalid_exclude p e) h = inr (p, e, ground arith, ground arith, refl)

-- The text of an age basis is read back as that basis.
pub parse_age_basis-age_basis_str : (b : AgeBasis) → parse_age_basis (age_basis_str b) ≡ ok b
unfolding parse_age_basis age_basis_str
parse_age_basis-age_basis_str modified = refl
parse_age_basis-age_basis_str created = refl
parse_age_basis-age_basis_str accessed = refl
