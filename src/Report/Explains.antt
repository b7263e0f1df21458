-- ===== src/Report/Explains.antt =====
-- The exit code of a summary, against the condition that each code stands for.
use cursedelete.Base.{
  subst, sym, ◌<◌, ◌≡◌, ◌≢◌, ◌↔◌, ◌⊎◌, Bool, true, false, not, ◌&&◌, ◌||◌, List, [], ◌∷◌, arith,
  ltb, ◌==◌, if-split, eq-false, is_empty, any,
}
use cursedelete.Failure.{
  FailureCategory, remote_lock_failed, remote_lock_unsupported, local_lock_unresolved,
  DeleteFailure,
}
use cursedelete.ExitCode.{
  ExitCode, invalid_args_or_target, license_required, cli_usage_error, unexpected_fatal, success,
  completed_with_failures, privilege_requirement_not_satisfied, lock_resolution_failed,
  remote_lock_handling_failed, interrupted,
}
use cursedelete.Report.{Summary, is_remote_lock, is_local_lock, exit_code}
use cursedelete.Failure.{category_eq}

-- A failure of a kind is among those kept.
abbrev pub Some : (DeleteFailure → Type 0) → List DeleteFailure → Type 0
Some P [] = ⊥
Some P (f ∷ fs) = P f ⊎ Some P fs

abbrev pub RemoteTrouble : Summary → Type 0
RemoteTrouble s =
    Some (λ f. (f.category ≡ remote_lock_failed) ⊎ (f.category ≡ remote_lock_unsupported))
      s.failures
    × (s.remote_locks_enabled ≡ true)

abbrev pub LocalTrouble : Summary → Type 0
LocalTrouble s =
    Some (λ f. f.category ≡ local_lock_unresolved) s.failures × (s.kill_locks_enabled ≡ true)

-- Remediation was requested and tried, and never worked.
abbrev pub NoAuthority : Summary → Type 0
NoAuthority s =
    (s.acl_repair_enabled ≡ true)
    × (0 < s.metrics.remediation_attempts)
    × (s.metrics.remediation_successes ≡ 0)

-- What each code that a finished operation can have says of it.
abbrev pub Explains : Summary → ExitCode → Type 0
Explains s interrupted = s.was_interrupted ≡ true
Explains s success = (s.was_interrupted ≡ false) × (s.failures ≡ [])
Explains s remote_lock_handling_failed = (s.was_interrupted ≡ false) × RemoteTrouble s
Explains s lock_resolution_failed =
    (s.was_interrupted ≡ false) × (¬ RemoteTrouble s) × LocalTrouble s
Explains s privilege_requirement_not_satisfied =
    (s.was_interrupted ≡ false)
    × (s.failures ≢ [])
    × (¬ RemoteTrouble s)
    × (¬ LocalTrouble s)
    × NoAuthority s
Explains s completed_with_failures =
    (s.was_interrupted ≡ false)
    × (s.failures ≢ [])
    × (¬ RemoteTrouble s)
    × (¬ LocalTrouble s)
    × (¬ NoAuthority s)
Explains s _ = ⊥

any-Some :
    (p : DeleteFailure → Bool) (P : DeleteFailure → Type 0)
    → ((f : DeleteFailure) → (p f ≡ true) ↔ P f)
    → (fs : List DeleteFailure) → (any p fs ≡ true) ↔ Some P fs
any-Some p P h [] = (λ e. cc, λ e. absurd e)
any-Some p P h (f ∷ fs) = ground (arith, h f, any-Some p P h fs)

is_remote_lock_iff :
    (f : DeleteFailure)
    → (is_remote_lock f ≡ true)
      ↔ ((f.category ≡ remote_lock_failed) ⊎ (f.category ≡ remote_lock_unsupported))
is_remote_lock_iff f = by_category f.category
  where
    by_category :
        (c : FailureCategory)
        → ((category_eq c remote_lock_failed || category_eq c remote_lock_unsupported) ≡ true)
          ↔ ((c ≡ remote_lock_failed) ⊎ (c ≡ remote_lock_unsupported))
    by_category c = ground arith

is_local_lock_iff :
    (f : DeleteFailure) → (is_local_lock f ≡ true) ↔ (f.category ≡ local_lock_unresolved)
is_local_lock_iff f = by_category f.category
  where
    by_category :
        (c : FailureCategory)
        → (category_eq c local_lock_unresolved ≡ true) ↔ (c ≡ local_lock_unresolved)
    by_category c = ground arith

remote_iff :
    (s : Summary)
    → ((any is_remote_lock s.failures && s.remote_locks_enabled) ≡ true) ↔ RemoteTrouble s
remote_iff s = ground (arith, any-Some is_remote_lock _ is_remote_lock_iff s.failures)

local_iff :
    (s : Summary) → ((any is_local_lock s.failures && s.kill_locks_enabled) ≡ true) ↔ LocalTrouble s
local_iff s = ground (arith, any-Some is_local_lock _ is_local_lock_iff s.failures)

authority_iff :
    (s : Summary)
    → ((s.acl_repair_enabled
          && ltb 0 s.metrics.remediation_attempts
          && (s.metrics.remediation_successes == 0))
        ≡ true)
      ↔ NoAuthority s
authority_iff s = ground arith

abbrev remote_test : Summary → Bool
remote_test s = any is_remote_lock s.failures && s.remote_locks_enabled

abbrev local_test : Summary → Bool
local_test s = any is_local_lock s.failures && s.kill_locks_enabled

abbrev authority_test : Summary → Bool
authority_test s =
    s.acl_repair_enabled
    && ltb 0 s.metrics.remediation_attempts
    && (s.metrics.remediation_successes == 0)

-- The negation of what a test decides, from the test.
refuted {ℓ} : {P : Type ℓ} (b : Bool) → (b ≡ true) ↔ P → b ≡ false → ¬ P
refuted b i e p = cc (i.1 p)

-- The exit code of a finished operation is one whose meaning holds of it.
pub exit_code-Explains : (s : Summary) → Explains s (exit_code s)
unfolding exit_code
exit_code-Explains s =
    if-split (Explains s) s.was_interrupted _ _ (λ i. i)
      λ i.
        if-split (Explains s) (not (is_empty s.failures)) _ _
          (λ some_failed.
            let nonempty : s.failures ≢ [] = λ e. ground arith in
            if-split (Explains s) (remote_test s) _ _ (λ r. (i, (remote_iff s).0 r))
              λ r.
                let no_remote = refuted (remote_test s) (remote_iff s) r in
                if-split (Explains s) (local_test s) _ _ (λ l. (i, no_remote, (local_iff s).0 l))
                  λ l.
                    let no_local = refuted (local_test s) (local_iff s) l in
                    if-split (Explains s) (authority_test s) _ _
                      (λ a. (i, nonempty, no_remote, no_local, (authority_iff s).0 a))
                      (λ a. (
                        i,
                        nonempty,
                        no_remote,
                        no_local,
                        refuted (authority_test s) (authority_iff s) a,
                      )))
          (λ none_failed. (i, ground arith))

-- A code whose meaning holds of a finished operation is its exit code.
pub Explains-exit_code : (s : Summary) (c : ExitCode) → Explains s c → c ≡ exit_code s
unfolding exit_code
Explains-exit_code s success (i, e) = ground arith
Explains-exit_code s interrupted i = ground arith
Explains-exit_code s remote_lock_handling_failed (i, r) = ground (arith, (remote_iff s).1 r)
Explains-exit_code s lock_resolution_failed (i, r, l) =
    ground (arith, eq-false (remote_test s) (λ e. r ((remote_iff s).0 e)), (local_iff s).1 l)
Explains-exit_code s privilege_requirement_not_satisfied (i, e, r, l, a) =
    let remote = eq-false (remote_test s) (λ e. r ((remote_iff s).0 e)) in
    let local = eq-false (local_test s) (λ e. l ((local_iff s).0 e)) in
    ground (arith, remote, local, (authority_iff s).1 a)
Explains-exit_code s completed_with_failures (i, e, r, l, a) =
    let remote = eq-false (remote_test s) (λ e. r ((remote_iff s).0 e)) in
    let local = eq-false (local_test s) (λ e. l ((local_iff s).0 e)) in
    ground (arith, remote, local, eq-false (authority_test s) (λ e. a ((authority_iff s).0 e)))
Explains-exit_code s invalid_args_or_target h = absurd h
Explains-exit_code s license_required h = absurd h
Explains-exit_code s cli_usage_error h = absurd h
Explains-exit_code s unexpected_fatal h = absurd h

-- A code is the exit code of a summary exactly when its condition holds: 6, the operation was
-- interrupted; else 0, nothing failed; else 5, a remote lock failed and the closing of remote locks
-- was asked for; else 4, a local lock stayed and the killing of its holders was asked for; else 3,
-- remediation was asked for and tried, and never worked; else 2. No other code is one of a summary.
pub exit_code_iff : (s : Summary) (c : ExitCode) → (exit_code s ≡ c) ↔ Explains s c
exit_code_iff s c =
    (λ e. subst (Explains s) e (exit_code-Explains s), λ h. sym (Explains-exit_code s c h))
