-- ===== src/CommandLine/Arguments.antt =====
-- What each argument is read as, and why an argument stops a command line.
use cursedelete.Base.{
  ℕ, ◌≡◌, refl, ◌↔◌, ◌⊎◌, inl, inr, Bool, true, false, not, ◌&&◌, Option, none, some, arith,
  Bool-cases, if-elim, Text, FilePath, Result, ok, err, ◌>>=◌, map_err,
}
use cursedelete.Entry.{Duration}
use cursedelete.ExitCode.{license_required, cli_usage_error}
use cursedelete.Options.{Mode, normal, force, destroy}
use cursedelete.Ages.{AgeError, AgePanic, AgeFloats, parse_age}
use cursedelete.Sizes.{SizeError, SizeFloats, parse_size}
use cursedelete.License.Editions.{Edition, business, enterprise}
use cursedelete.Policy
use cursedelete.Policy.{is_enabled}
use cursedelete.Policy.Gates.{is_enabled_iff}
use cursedelete.CommandLine.{
  Cli, Stop, exits, panics, usage_error, target_of, mode_of, age_of, size_of, checked_age,
  checked_size, check_feature,
}

-- The argument is absent, or reads as this value.
abbrev pub Reads : {A : Type 0} → (Text → A → Type 0) → Option Text → Option A → Type 0
Reads P none o = o ≡ none
Reads {A} P (some s) o = (a : A) × (o ≡ some a) × P s a

-- `--destroy` goes before `--force`.
abbrev pub Chooses : Cli → Mode → Type 0
Chooses cli m =
    ((cli.destroy ≡ true) × (m ≡ destroy))
    ⊎ ((cli.destroy ≡ false) × (cli.force ≡ true) × (m ≡ force))
    ⊎ ((cli.destroy ≡ false) × (cli.force ≡ false) × (m ≡ normal))

pub mode_of_iff : (cli : Cli) (m : Mode) → (mode_of cli ≡ m) ↔ Chooses cli m
mode_of_iff cli m = ground arith

pub check_feature_iff :
    (b : Bool) (e : Edition)
    → (check_feature b e ≡ ok tt) ↔ (b ≡ true → (e ≡ business) ⊎ (e ≡ enterprise))
check_feature_iff false e = (λ h y. cc, λ h. refl)
check_feature_iff true e = elim (Bool-cases (is_enabled Policy.close_remote_locks e)) [
  | inl y ↦ (λ h z. (is_enabled_iff e).0 y, λ h. rw y refl)
  | inr n ↦ (
    (λ h z. absurd (ground (arith, n, h))),
    λ h. absurd (ground (arith, n, (is_enabled_iff e).1 (h refl))),
  )
]

pub age_of_iff :
    (Φ : AgeFloats) (s : Option Text) (o : Option Duration)
    → (age_of Φ s ≡ ok o) ↔ Reads (λ s d. parse_age Φ s ≡ ok (ok d)) s o
age_of_iff Φ none o = ground arith
age_of_iff Φ (some s) o = ground arith

pub size_of_iff :
    (Ψ : SizeFloats) (s : Option Text) (o : Option ℕ)
    → (size_of Ψ s ≡ ok o) ↔ Reads (λ s n. parse_size Ψ s ≡ ok n) s o
size_of_iff Ψ none o = ground arith
size_of_iff Ψ (some s) o = ground arith

pub target_of_iff : (o : Option FilePath) (t : FilePath) → (target_of o ≡ ok t) ↔ (o ≡ some t)
target_of_iff none t = ground arith
target_of_iff (some u) t = ground arith

-- Each step fails for one of three reasons.
abbrev pub IsStop : Stop → Type 0
IsStop s =
    (s ≡ exits cli_usage_error) ⊎ (s ≡ exits license_required) ⊎ ((p : AgePanic) × (s ≡ panics p))

abbrev pub Stops : {A : Type 0} → Result A Stop → Type 0
Stops (ok a) = Unit
Stops (err s) = IsStop s

pub Stops->>= :
    {A B : Type 0} (m : Result A Stop) (k : A → Result B Stop)
    → Stops m
    → ((a : A) → Stops (k a))
    → Stops (m >>= k)
Stops->>= (ok a) k h g = g a
Stops->>= (err s) k h g = h

pub Stops-map_err : {A E : Type 0} (r : Result A E) → Stops (map_err usage_error r)
Stops-map_err (ok a) = tt
Stops-map_err (err e) = inl refl

pub Stops-target_of : (o : Option FilePath) → Stops (target_of o)
Stops-target_of none = inl refl
Stops-target_of (some t) = tt

pub Stops-age_of : (Φ : AgeFloats) (s : Option Text) → Stops (age_of Φ s)
Stops-age_of Φ none = tt
Stops-age_of Φ (some s) = by_result (parse_age Φ s)
  where
    by_result : (r : Result (Result Duration AgeError) AgePanic) → Stops (checked_age r)
    by_result (ok (ok d)) = tt
    by_result (ok (err e)) = inl refl
    by_result (err p) = inr (inr (p, refl))

pub Stops-size_of : (Ψ : SizeFloats) (s : Option Text) → Stops (size_of Ψ s)
Stops-size_of Ψ none = tt
Stops-size_of Ψ (some s) = by_result (parse_size Ψ s)
  where
    by_result : (r : Result ℕ SizeError) → Stops (checked_size r)
    by_result (ok n) = tt
    by_result (err e) = inl refl

pub Stops-check_feature : (b : Bool) (e : Edition) → Stops (check_feature b e)
Stops-check_feature b e =
    if-elim (λ r. Stops r) (b && not (is_enabled Policy.close_remote_locks e)) _ _ (inr (inl refl))
      tt
