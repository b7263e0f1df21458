-- ===== src/CommandLine/Ready.antt =====
-- When an operation is started, and with what.
use cursedelete.Base.{
  ℕ, ◌≡◌, refl, ap, ◌∙◌, subst, ◌↔◌, ◌⊎◌, inl, inr, true, some, List, Result-cases, Result, ok, err,
  >>=-elim, >>=-ok, map_err, map_err_iff, ok-injective,
}
use cursedelete.Entry.{SystemTime}
use cursedelete.Failure.{TargetError}
use cursedelete.ExitCode.{ExitCode, license_required, cli_usage_error}
use cursedelete.Options.{FilterSpec, OperationOptions}
use cursedelete.Workers.{parse_policy}
use cursedelete.Ages.{AgePanic, AgeFloats, parse_age}
use cursedelete.Sizes.{SizeFloats, parse_size}
use cursedelete.Filter.{Globs, FilterSet, parse_age_basis, build_with_reference_time}
use cursedelete.Report.{Summary}
use cursedelete.License.Editions.{Edition, business, enterprise}
use cursedelete.License.Formats.{Formats}
use cursedelete.License.Validate.{LicensePolicy}
use cursedelete.License.Resolve.{LocalState, Candidate, resolve, edition}
use cursedelete.Policy.{license_policy}
use cursedelete.Policy.Gates.{license_policy-community}
use cursedelete.CommandLine.{
  Cli, Stop, usage_error, target_of, mode_of, age_of, size_of, check_feature, prepare, launched,
  run_delete,
}
use cursedelete.CommandLine.Arguments.{
  Reads, Chooses, mode_of_iff, check_feature_iff, age_of_iff, size_of_iff, target_of_iff, IsStop,
  Stops, Stops->>=, Stops-map_err, Stops-target_of, Stops-age_of, Stops-size_of,
  Stops-check_feature,
}

-- What a command line that starts no operation comes to.
abbrev pub IsRefused : Result ExitCode AgePanic → Type 0
IsRefused r = (r ≡ ok cli_usage_error) ⊎ (r ≡ ok license_required) ⊎ ((p : AgePanic) × (r ≡ err p))

module _ (Φ : AgeFloats) (Ψ : SizeFloats) (G : Globs) where
  -- Every argument is in order, the edition has what is asked for, and these options say so.
  abbrev pub IsReady : Cli → Edition → SystemTime → OperationOptions → FilterSet G → Type 0
  IsReady cli e now o f =
      (cli.target ≡ some o.target)
      × (parse_policy cli.workers ≡ ok o.workers)
      × Reads (λ s d. parse_age Φ s ≡ ok (ok d)) cli.age o.filters.age
      × (parse_age_basis cli.age_by ≡ ok o.filters.age_basis)
      × Reads (λ s n. parse_size Ψ s ≡ ok n) cli.min_size o.filters.min_size
      × Reads (λ s n. parse_size Ψ s ≡ ok n) cli.max_size o.filters.max_size
      × (cli.close_remote_locks ≡ true → (e ≡ business) ⊎ (e ≡ enterprise))
      × (build_with_reference_time G o.filters now ≡ ok f)
      × Chooses cli o.mode
      × (cli.include ≡ o.filters.include)
      × (cli.exclude ≡ o.filters.exclude)
      × (cli.dry_run ≡ o.dry_run)
      × (cli.kill_locks ≡ o.kill_locks)
      × (cli.close_remote_locks ≡ o.close_remote_locks)
      × (cli.json ≡ o.json)
      × (cli.quiet ≡ o.quiet)
      × (cli.verbose ≡ o.verbose)
      × (cli.log ≡ o.log_path)

  prepare-IsReady :
      (cli : Cli) (e : Edition) (now : SystemTime) (o : OperationOptions) (f : FilterSet G)
      → prepare Φ Ψ G cli e now ≡ ok (o, f)
      → IsReady cli e now o f
  unfolding prepare
  prepare-IsReady cli e now o f h = >>=-elim (target_of cli.target) _ h λ t h1 k1.
      >>=-elim (map_err usage_error (parse_policy cli.workers)) _ k1 λ w h2 k2.
        >>=-elim (age_of Φ cli.age) _ k2 λ a h3 k3.
          >>=-elim (map_err usage_error (parse_age_basis cli.age_by)) _ k3 λ b h4 k4.
            >>=-elim (size_of Ψ cli.min_size) _ k4 λ n h5 k5.
              >>=-elim (size_of Ψ cli.max_size) _ k5 λ m h6 k6.
                >>=-elim (check_feature cli.close_remote_locks e) _ k6 λ u h7 k7.
                  >>=-elim
                    (map_err usage_error (
                      build_with_reference_time G
                        (record {
                          include = cli.include;
                          exclude = cli.exclude;
                          min_size = n;
                          max_size = m;
                          age = a;
                          age_basis = b;
                        })
                        now))
                    _ k7
                    λ g h8 k8.
                      subst (λ (p : OperationOptions × FilterSet G). IsReady cli e now p.0 p.1)
                        (ok-injective k8)
                        (
                          (target_of_iff cli.target t).0 h1,
                          (map_err_iff usage_error _ w).0 h2,
                          (age_of_iff Φ cli.age a).0 h3,
                          (map_err_iff usage_error _ b).0 h4,
                          (size_of_iff Ψ cli.min_size n).0 h5,
                          (size_of_iff Ψ cli.max_size m).0 h6,
                          (check_feature_iff cli.close_remote_locks e).0 h7,
                          (map_err_iff usage_error _ g).0 h8,
                          (mode_of_iff cli (mode_of cli)).0 refl,
                          refl,
                          refl,
                          refl,
                          refl,
                          refl,
                          refl,
                          refl,
                          refl,
                          refl,
                        )

  IsReady-prepare :
      (cli : Cli) (e : Edition) (now : SystemTime) (o : OperationOptions) (f : FilterSet G)
      → IsReady cli e now o f
      → prepare Φ Ψ G cli e now ≡ ok (o, f)
  unfolding prepare
  IsReady-prepare cli e now o f
        (
          target, workers, age, basis, min, max, gate, built, mode, inc, exc, dry, kill, close,
          json, quiet, verbose, log,
        ) =
      let spec : ◌≡◌ {A = FilterSpec}
          (record {
            include = cli.include;
            exclude = cli.exclude;
            min_size = o.filters.min_size;
            max_size = o.filters.max_size;
            age = o.filters.age;
            age_basis = o.filters.age_basis;
          })
          o.filters =
        λ i. record {
          include = inc i;
          exclude = exc i;
          min_size = o.filters.min_size;
          max_size = o.filters.max_size;
          age = o.filters.age;
          age_basis = o.filters.age_basis;
        } in
      let chosen : mode_of cli ≡ o.mode = (mode_of_iff cli o.mode).1 mode in
      >>=-ok (target_of cli.target) _ o.target ((target_of_iff cli.target o.target).1 target) (
        >>=-ok (map_err usage_error (parse_policy cli.workers)) _ o.workers
          ((map_err_iff usage_error _ o.workers).1 workers)
          (>>=-ok (age_of Φ cli.age) _ o.filters.age ((age_of_iff Φ cli.age o.filters.age).1 age) (
            >>=-ok (map_err usage_error (parse_age_basis cli.age_by)) _ o.filters.age_basis
              ((map_err_iff usage_error _ o.filters.age_basis).1 basis)
              (>>=-ok (size_of Ψ cli.min_size) _ o.filters.min_size
                ((size_of_iff Ψ cli.min_size o.filters.min_size).1 min)
                (>>=-ok (size_of Ψ cli.max_size) _ o.filters.max_size
                  ((size_of_iff Ψ cli.max_size o.filters.max_size).1 max)
                  (>>=-ok (check_feature cli.close_remote_locks e) _ tt
                    ((check_feature_iff cli.close_remote_locks e).1 gate)
                    (>>=-ok (map_err usage_error (build_with_reference_time G _ now)) _ f
                      ((map_err_iff usage_error _ f).1
                        (ap (λ q. build_with_reference_time G q now) spec ∙ built))
                      (λ i. ok (
                        record {
                          target = o.target;
                          mode = chosen i;
                          workers = o.workers;
                          dry_run = dry i;
                          kill_locks = kill i;
                          close_remote_locks = close i;
                          filters = spec i;
                          json = json i;
                          quiet = quiet i;
                          verbose = verbose i;
                          log_path = log i;
                        },
                        f,
                      )))))))))

  -- An operation is started exactly when there is a target, every argument reads as a value, remote
  -- locks are to be closed only by a Business or Enterprise edition, and the filters build; and its
  -- options are those arguments.
  pub prepare_iff :
      (cli : Cli) (e : Edition) (now : SystemTime) (o : OperationOptions) (f : FilterSet G)
      → (prepare Φ Ψ G cli e now ≡ ok (o, f)) ↔ IsReady cli e now o f
  prepare_iff cli e now o f = (prepare-IsReady cli e now o f, IsReady-prepare cli e now o f)

  prepare-Stops : (cli : Cli) (e : Edition) (now : SystemTime) → Stops (prepare Φ Ψ G cli e now)
  unfolding prepare
  prepare-Stops cli e now = Stops->>= (target_of cli.target) _ (Stops-target_of cli.target) λ t.
      Stops->>= (map_err usage_error (parse_policy cli.workers)) _ (Stops-map_err _) λ w.
        Stops->>= (age_of Φ cli.age) _ (Stops-age_of Φ cli.age) λ a.
          Stops->>= (map_err usage_error (parse_age_basis cli.age_by)) _ (Stops-map_err _) λ b.
            Stops->>= (size_of Ψ cli.min_size) _ (Stops-size_of Ψ cli.min_size) λ n.
              Stops->>= (size_of Ψ cli.max_size) _ (Stops-size_of Ψ cli.max_size) λ m.
                Stops->>= (check_feature cli.close_remote_locks e) _ (Stops-check_feature _ e) λ u.
                  Stops->>= (map_err usage_error (build_with_reference_time G _ now)) _
                    (Stops-map_err _) λ g. tt

  -- With the policy of this build, a command line that asks to close remote locks starts no
  -- operation, whatever is installed: it ends with a usage error, for want of a license, or by a
  -- panic of the parser of ages.
  pub run_delete-IsRefused :
      (F : Formats) (major : ℕ) (policy : LicensePolicy F) (local : LocalState) (at : F.Instant)
      (cs : List Candidate) (launch : OperationOptions → FilterSet G → Result Summary TargetError)
      (cli : Cli) (now : SystemTime)
      → license_policy F major ≡ ok policy
      → cli.close_remote_locks ≡ true
      → IsRefused (run_delete Φ Ψ G launch cli (edition F (resolve F policy local at cs)) now)
  unfolding run_delete
  run_delete-IsRefused F major policy local at cs launch cli now built asked =
      let e = edition F (resolve F policy local at cs) in
      elim (Result-cases (prepare Φ Ψ G cli e now)) [
        | inl ((o, f), p) ↦
            let ready = prepare-IsReady cli e now o f p in
            let plain = (license_policy-community F major policy local at cs built).1 in
            absurd (elim (ready.6 asked) [ inl b ↦ cc | inr b ↦ cc ])
        | inr (s, p) ↦ rw p (outcome s (subst Stops p (prepare-Stops cli e now)))
      ]
    where
      outcome : (s : Stop) → IsStop s → IsRefused (launched Φ Ψ G launch (err s))
      outcome s (inl y) = inl (ap (λ t. launched Φ Ψ G launch (err t)) y)
      outcome s (inr (inl y)) = inr (inl (ap (λ t. launched Φ Ψ G launch (err t)) y))
      outcome s (inr (inr (p, y))) = inr (inr (p, ap (λ t. launched Φ Ψ G launch (err t)) y))
