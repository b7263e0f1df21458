-- ===== src/Filter.antt =====
-- crates/cursdel-core/src/filter.rs: which files an operation deletes. The glob engine (`globset`)
-- is the parameter `Globs`.
pub mod Laws
use cursedelete.Base.{
  ℕ, ◌-◌, Bool, false, not, ◌&&◌, Option, none, some, [], ltb, if◌then◌else◌, is_none, Text, codes,
  text_eq, Result, ok, err, ◌>>=◌,
}
use cursedelete.Entry.{Duration, SystemTime, DiscoveredEntry, EntryTimes}
use cursedelete.Options.{AgeBasis, modified, created, accessed, FilterSpec}
use cursedelete.Paths.{file_name}

-- `Glob::new(p)` followed by `compile_matcher`, and `GlobMatcher::is_match`.
pub record Globs : Type 1 where
  pub Matcher : Type 0
  pub Error : Type 0
  pub compile : Text → Result Matcher Error
  pub is_match : Matcher → Text → Bool

pub data RetainReason : Type 0 where
  too_young excluded_by_pattern not_included_by_pattern too_small too_large timestamp_unavailable :
      RetainReason

pub data FilterDecision : Type 0 where
  delete : FilterDecision
  retain : RetainReason → FilterDecision

abbrev pub timestamp : AgeBasis → EntryTimes → Option SystemTime
timestamp modified t = t.modified
timestamp created t = t.created
timestamp accessed t = t.accessed

-- `AgeBasis::from_str`; the error is the text that was given.
unfoldable pub parse_age_basis : Text → Result AgeBasis Text
unfolding text_eq
parse_age_basis s =
    if text_eq s (codes "modified")
    then ok modified
    else if text_eq s (codes "created")
    then ok created
    else if text_eq s (codes "accessed")
    then ok accessed
    else err s

-- `AgeBasis::as_str`
unfoldable pub age_basis_str : AgeBasis → Text
age_basis_str modified = codes "modified"
age_basis_str created = codes "created"
age_basis_str accessed = codes "accessed"

module _ (G : Globs) where
  pub record FilterSet : Type 0 where
    pub include : Option G.Matcher
    pub exclude : Option G.Matcher
    pub min_size : Option ℕ
    pub max_size : Option ℕ
    pub age : Option Duration
    pub age_basis : AgeBasis
    pub reference_time : SystemTime

  pub data FilterBuildError : Type 0 where
    invalid_include : Text → G.Error → FilterBuildError
    invalid_exclude : Text → G.Error → FilterBuildError

  -- `pattern.map(compile).transpose()`
  abbrev pub compile_pattern :
      (Text → G.Error → FilterBuildError) → Option Text → Result (Option G.Matcher) FilterBuildError
  compile_pattern fail none = ok none
  compile_pattern fail (some p) = elim (G.compile p) [ ok m ↦ ok (some m) | err e ↦ err (fail p e) ]

  unfoldable pub build_with_reference_time :
      FilterSpec → SystemTime → Result FilterSet FilterBuildError
  build_with_reference_time spec now = compile_pattern invalid_include spec.include >>= λ include.
      compile_pattern invalid_exclude spec.exclude >>= λ exclude. ok (record {
        include = include;
        exclude = exclude;
        min_size = spec.min_size;
        max_size = spec.max_size;
        age = spec.age;
        age_basis = spec.age_basis;
        reference_time = now;
      })

  abbrev pub is_noop : FilterSet → Bool
  is_noop s =
      is_none s.include
      && is_none s.exclude
      && is_none s.min_size
      && is_none s.max_size
      && is_none s.age

  abbrev pub matches : Option G.Matcher → Text → Bool
  matches none name = false
  matches (some m) name = G.is_match m name

  abbrev pub fails_include : Option G.Matcher → Text → Bool
  fails_include none name = false
  fails_include (some m) name = not (G.is_match m name)

  abbrev pub below_min : Option ℕ → ℕ → Bool
  below_min none size = false
  below_min (some m) size = ltb size m

  abbrev pub above_max : Option ℕ → ℕ → Bool
  above_max none size = false
  above_max (some m) size = ltb m size

  -- `reference_time.duration_since(ts)` is an error, read as zero, for a time in the future.
  abbrev pub check_timestamp : SystemTime → Duration → Option SystemTime → FilterDecision
  check_timestamp now age none = retain timestamp_unavailable
  check_timestamp now age (some ts) = if ltb (now - ts) age then retain too_young else delete

  abbrev pub check_age : FilterSet → DiscoveredEntry → FilterDecision
  check_age s e = elim s.age [
    | none ↦ delete
    | some age ↦ check_timestamp s.reference_time age (timestamp s.age_basis e.times)
  ]

  -- The name that the patterns see; a path with no final component has the empty name.
  abbrev pub name_of : Option Text → Text
  name_of none = []
  name_of (some n) = n

  unfoldable pub evaluate_file : FilterSet → DiscoveredEntry → FilterDecision
  evaluate_file s e =
      let name = name_of (file_name e.path) in
      if matches s.exclude name
      then retain excluded_by_pattern
      else if fails_include s.include name
      then retain not_included_by_pattern
      else if below_min s.min_size e.size
      then retain too_small
      else if above_max s.max_size e.size
      then retain too_large
      else check_age s e
