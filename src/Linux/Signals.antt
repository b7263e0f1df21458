-- ===== src/Linux/Signals.antt =====
-- Whom `--kill-locks` signals on Linux.
use cursedelete.Base.{
  ℕ, ◌<◌, ◌≡◌, refl, sym, ◌∙◌, subst, ◌≢◌, ◌↔◌, ◌⊎◌, inl, inr, Bool, true, false, ◌&&◌, ◌||◌, List,
  [], ◌∷◌, arith, if◌then◌else◌, if-split, Bool-cases, is_empty, Text, FilePath, codes, Result, ok,
  err,
}
use cursedelete.Options.{DeleteOptions}
use cursedelete.Engine.{LockResolution, resolved}
use cursedelete.Linux.Kernel.{Kernel}
use cursedelete.Linux.Lock.{
  holders, canonical_target, found, find_holding_pids, is_protected_pid, Sweep, after_kill,
  terminate, swept, resolve_found, resolve_local_lock,
}
use cursedelete.Linux.Holders.{Member, IsHolder, found_iff}

module _ (K : Kernel) where
  -- It is to be terminated: this was asked for, and it is neither one of the first two processes nor
  -- this one.
  abbrev pub IsVictim : FilePath → DeleteOptions → K.World → ℕ → Type 0
  IsVictim path opts w pid =
      (opts.kill_locks ≡ true) × IsHolder K w path pid × (2 < pid) × (pid ≢ K.process_id)

  -- A signal to each of them, in turn, and whether any of the calls succeeded.
  abbrev pub signal_all : List ℕ → K.World → Bool × K.World
  signal_all [] w = (false, w)
  signal_all (pid ∷ pids) w =
      let (done, v) = K.kill pid w in let (rest, u) = signal_all pids v in (done || rest, u)

  unprotected : List ℕ → List ℕ
  unprotected [] = []
  unprotected (pid ∷ pids) =
      let rest = unprotected pids in if is_protected_pid K pid then rest else pid ∷ rest

  unprotected_iff :
      (pid : ℕ) (pids : List ℕ)
      → Member pid (unprotected pids) ↔ (Member pid pids × (2 < pid) × (pid ≢ K.process_id))
  unfolding unprotected
  unprotected_iff pid [] = (λ h. absurd h, λ (m, a, b). absurd m)
  unprotected_iff pid (x ∷ xs) =
      if-split (λ ys. Member pid ys ↔ (Member pid (x ∷ xs) × (2 < pid) × (pid ≢ K.process_id)))
        (is_protected_pid K x) (unprotected xs) (x ∷ unprotected xs)
        (λ y. ground (arith, unprotected_iff pid xs)) (λ y. ground (arith, unprotected_iff pid xs))

  terminate_lem :
      (pids : List ℕ) (s : Sweep K)
      → terminate K pids s ≡ record {
        terminated_any = s.terminated_any || (signal_all (unprotected pids) s.world).0;
        all_protected = s.all_protected && is_empty (unprotected pids);
        world = (signal_all (unprotected pids) s.world).1;
      }
  unfolding terminate unprotected
  terminate_lem [] s = ground arith
  terminate_lem (pid ∷ pids) s = elim (Bool-cases (is_protected_pid K pid)) [
    | inl y ↦ rw y (terminate_lem pids s)
    | inr n ↦ rw n (terminate_lem pids (after_kill K s (K.kill pid s.world)) ∙ ground arith)
  ]

  -- What the outcome of a call says of the signals that were sent.
  abbrev pub Tells : LockResolution × K.World → Bool × K.World → Type 0
  Tells r s =
      ((s.0 ≡ true) × (r ≡ (resolved, K.sleep 200000000 s.1)))
      ⊎ ((s.0 ≡ false) × (r.0 ≢ resolved) × (r.1 ≡ s.1))

  swept-Tells :
      (pids ps : List ℕ) (w : K.World)
      → Tells
          (swept K pids (record {
            terminated_any = (signal_all ps w).0;
            all_protected = is_empty ps;
            world = (signal_all ps w).1;
          }))
          (signal_all ps w)
  swept-Tells pids [] w = inr (refl, (λ h. cc), refl)
  swept-Tells pids (p ∷ ps) w = elim (Bool-cases (signal_all (p ∷ ps) w).0) [
    | inl y ↦ inl (y, rw y refl)
    | inr n ↦ inr (n, rw n (λ h. cc), rw n refl)
  ]

  resolve_found-Tells :
      (path : FilePath) (w : K.World) (r : Result (List Text) Text)
      → K.read_dir w (codes "/proc") ≡ r
      → (ps : List ℕ) × ((pid : ℕ)
          → Member pid ps ↔ (IsHolder K w path pid × (2 < pid) × (pid ≢ K.process_id)))
        × Tells (resolve_found K (found K w (canonical_target K w path) r) w) (signal_all ps w)
  unfolding unprotected
  resolve_found-Tells path w (err m) e = (
    [],
    (λ pid. (
      λ k. absurd k,
      λ (h, a, b). let (ns, n, o, k, r, t, f) = h in absurd (ground (arith, o, e)),
    )),
    inr (refl, (λ h. cc), refl),
  )
  resolve_found-Tells path w (ok names) e =
      let pids = holders K w (canonical_target K w path) names in
      (
        unprotected pids,
        (λ pid.
            let one = unprotected_iff pid pids in
            let all = found_iff K path w names pid e in
            (
              (λ k. let (m, a, b) = one.0 k in (all.0 m, a, b)),
              λ (h, a, b). one.1 (all.1 h, a, b),
            )),
        told pids,
      )
    where
      told : (pids : List ℕ) → Tells (resolve_found K (ok pids) w) (signal_all (unprotected pids) w)
      told [] = inr (refl, (λ h. cc), refl)
      told (p ∷ ps) =
          subst (λ s. Tells (swept K (p ∷ ps) s) (signal_all (unprotected (p ∷ ps)) w))
            (sym (
              terminate_lem (p ∷ ps)
                (record { terminated_any = false; all_protected = true; world = w })))
            (swept-Tells (p ∷ ps) (unprotected (p ∷ ps)) w)

  -- A call signals exactly the processes of /proc one of whose descriptors stands for the file, as
  -- its link there has the components of the path of the file, or that with the mark of a deleted
  -- file behind it, but kernel threads, the processes up to the second and this one, and only if it
  -- was asked to; it says that the lock is resolved exactly when a signal was accepted, and waits
  -- then, and changes nothing else.
  pub resolve_local_lock-Tells :
      (path : FilePath) (opts : DeleteOptions) (w : K.World)
      → (ps : List ℕ) × ((pid : ℕ) → Member pid ps ↔ IsVictim path opts w pid)
        × Tells (resolve_local_lock K path opts w) (signal_all ps w)
  unfolding resolve_local_lock find_holding_pids
  resolve_local_lock-Tells path opts w = elim (Bool-cases opts.kill_locks) [
    | inl y ↦
        let (ps, each, told) = resolve_found-Tells path w (K.read_dir w (codes "/proc")) refl in
        (
          ps,
          (λ pid. (
            λ m. let (h, a, b) = (each pid).0 m in (y, h, a, b),
            λ (k, h, a, b). (each pid).1 (h, a, b),
          )),
          rw y told,
        )
    | inr n ↦ (
      [],
      (λ pid. (λ m. absurd m, λ (k, h, a, b). absurd (ground (arith, n, k)))),
      rw n (inr (refl, (λ h. cc), refl)),
    )
  ]
