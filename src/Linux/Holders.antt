-- ===== src/Linux/Holders.antt =====
-- The processes that hold a file open on Linux, as /proc shows them.
use cursedelete.Base.{
  ℕ, ◌≡◌, refl, sym, ◌∙◌, subst, ◌↔◌, ◌⊎◌, inl, inr, Bool, true, Option, none, some, List, [], ◌∷◌,
  ◌++◌, arith, Bool-cases, any, is_some_and, Text, FilePath, codes, Result, ok, err, ok-injective,
}
use cursedelete.Paths.{join}
use cursedelete.Linux.Kernel.{Kernel}
use cursedelete.Linux.Lock.{
  parse_pid, fd_target_matches, proc_path, is_kernel_thread, fds_match, holds, holder_of, holders,
  canonical_target,
}
use cursedelete.Base.Decimal.{digits}
use cursedelete.Base.{eq-false}
use cursedelete.Linux.Lock.{is_kernel_stat}
use cursedelete.Linux.Matching.{StandsFor, IsNumeral, parse_pid_iff, fd_target_matches_iff}

-- Whether an element is in a list.
abbrev pub Member : {A : Type 0} → A → List A → Type 0
Member a [] = ⊥
Member a (x ∷ xs) = (a ≡ x) ⊎ Member a xs

any_iff :
    {A : Type 0} (p : A → Bool) (xs : List A)
    → (any p xs ≡ true) ↔ ((a : A) × Member a xs × (p a ≡ true))
any_iff p [] = (λ h. cc, λ (a, m, h). absurd m)
any_iff p (x ∷ xs) = (
  (λ h. elim (Bool-cases (p x)) [
    | inl y ↦ (x, inl refl, y)
    | inr n ↦ let (a, m, y) = (any_iff p xs).0 (rw n at h) in (a, inr m, y)
  ]),
  λ (a, m, y). elim m [
    | inl e ↦ let y' : p x ≡ true = subst (λ b. p b ≡ true) e y in rw y' refl
    | inr k ↦ ground (arith, (any_iff p xs).1 (a, k, y))
  ],
)

is_some_and_iff :
    {A : Type 0} (p : A → Bool) (o : Option A)
    → (is_some_and p o ≡ true) ↔ ((a : A) × (o ≡ some a) × (p a ≡ true))
is_some_and_iff p none = (λ h. cc, λ (a, e, h). cc)
is_some_and_iff p (some x) =
    ((λ h. (x, refl, h)), λ (a, e, y). subst (λ o. is_some_and p o ≡ true) (sym e) y)

module _ (K : Kernel) where
  -- The path of the file as the file system resolves it or, where it does not, as it is.
  abbrev pub IsCanonical : K.World → FilePath → FilePath → Type 0
  IsCanonical w path target =
      (K.canonicalize w path ≡ some target) ⊎ ((K.canonicalize w path ≡ none) × (target ≡ path))

  -- What /proc says of the process is that its parent is `kthreadd`.
  abbrev pub IsKernelThread : K.World → ℕ → Type 0
  IsKernelThread w pid =
      (stat : Text) × (K.read_to_string w (codes "/proc/" ++ digits pid ++ codes "/stat")
        ≡ some stat)
      × (is_kernel_stat stat ≡ true)

  -- The process has a descriptor that leads to the file, as the kernel shows it in /proc.
  abbrev pub HasOpen : K.World → FilePath → ℕ → Type 0
  HasOpen w target pid =
      (names : List Text) × (name : Text) × (t : FilePath) × (K.read_dir w
          (codes "/proc/" ++ digits pid ++ codes "/fd")
        ≡ ok names)
      × Member name names
      × (K.read_link w (join (codes "/proc/" ++ digits pid ++ codes "/fd") name) ≡ some t)
      × StandsFor t target

  -- The process is listed in /proc, is no kernel thread, and has the file open.
  abbrev pub IsHolder : K.World → FilePath → ℕ → Type 0
  IsHolder w path pid =
      (names : List Text) × (name : Text) × (K.read_dir w (codes "/proc") ≡ ok names)
      × Member name names
      × IsNumeral name pid
      × (¬ IsKernelThread w pid)
      × ((target : FilePath) × IsCanonical w path target × HasOpen w target pid)

  canonical_target-IsCanonical :
      (w : K.World) (path : FilePath) → IsCanonical w path (canonical_target K w path)
  canonical_target-IsCanonical w path = by_answer (K.canonicalize w path) refl
    where
      by_answer :
          (o : Option FilePath)
          → K.canonicalize w path ≡ o
          → IsCanonical w path (elim o [ some p ↦ p | none ↦ path ])
      by_answer none e = inr (e, refl)
      by_answer (some p) e = inl e

  IsCanonical-unique :
      (w : K.World) (path t u : FilePath) → IsCanonical w path t → IsCanonical w path u → t ≡ u
  IsCanonical-unique w path t u a b = ground (arith, a, b)

  is_kernel_thread_iff :
      (w : K.World) (pid : ℕ) → (is_kernel_thread K w pid ≡ true) ↔ IsKernelThread w pid
  is_kernel_thread_iff w pid = is_some_and_iff is_kernel_stat _

  fds_match_iff :
      (w : K.World) (target folder : FilePath) (r : Result (List Text) Text)
      → (fds_match K w target folder r ≡ true) ↔ (
          (names : List Text) × (name : Text) × (t : FilePath) × (r ≡ ok names)
          × Member name names
          × (K.read_link w (join folder name) ≡ some t)
          × StandsFor t target)
  fds_match_iff w target folder (err e) = (λ h. cc, λ (ns, n, t, o, m, l, h). cc)
  fds_match_iff w target folder (ok names) = (
    (λ h.
        let (n, m, y) = (any_iff _ names).0 h in
        let (t, l, z) = (is_some_and_iff (λ t. fd_target_matches t target) _).0 y in
        (names, n, t, refl, m, l, (fd_target_matches_iff t target).0 z)),
    λ (ns, n, t, o, m, l, z).
        let same : names ≡ ns = cc in
        (any_iff _ names).1 (
          n,
          subst (Member n) (sym same) m,
          (is_some_and_iff (λ t. fd_target_matches t target) _).1
              (t, l, (fd_target_matches_iff t target).1 z),
        ),
  )

  holds_iff :
      (w : K.World) (target : FilePath) (pid : ℕ)
      → (holds K w target pid ≡ true) ↔ ((¬ IsKernelThread w pid) × HasOpen w target pid)
  unfolding holds
  holds_iff w target pid =
      let folder = proc_path pid (codes "/fd") in
      let fds = fds_match_iff w target folder (K.read_dir w folder) in
      let thread = is_kernel_thread_iff w pid in
      (
        (λ h. ((λ k. absurd (ground (arith, h, thread.1 k))), fds.0 (ground (arith, h)))),
        λ (n, k).
            let no = eq-false (is_kernel_thread K w pid) (λ y. n (thread.0 y)) in
            ground (arith, no, fds.1 k),
      )

  cons_holder :
      (pid : ℕ) (o : Option ℕ) (rest : List ℕ)
      → Member pid (elim o [ some p ↦ p ∷ rest | none ↦ rest ]) ↔ ((o ≡ some pid) ⊎ Member pid rest)
  cons_holder pid none rest = (λ m. inr m, λ h. ground (arith, h))
  cons_holder pid (some p) rest = ground arith

  holder_of_iff :
      (w : K.World) (target : FilePath) (pid : ℕ) (o : Option ℕ)
      → (holder_of K w target o ≡ some pid) ↔ ((o ≡ some pid) × (holds K w target pid ≡ true))
  holder_of_iff w target pid none = (λ h. cc, λ (e, y). cc)
  holder_of_iff w target pid (some p) = ground arith

  holders_iff :
      (w : K.World) (target : FilePath) (pid : ℕ) (names : List Text)
      → Member pid (holders K w target names) ↔ (
          (name : Text) × Member name names
          × (parse_pid name ≡ some pid)
          × (holds K w target pid ≡ true))
  unfolding holders
  holders_iff w target pid [] = (λ h. absurd h, λ (n, m, a, b). absurd m)
  holders_iff w target pid (x ∷ xs) =
      let first = holder_of_iff w target pid (parse_pid x) in
      let rest = holders_iff w target pid xs in
      let here = cons_holder pid (holder_of K w target (parse_pid x)) (holders K w target xs) in
      (
        (λ h. elim (here.0 h) [
          | inl e ↦ let (r, y) = first.0 e in (x, inl refl, r, y)
          | inr m ↦ let (n, k, r, y) = rest.0 m in (n, inr k, r, y)
        ]),
        λ (n, m, r, y). here.1 (elim m [
          | inl e ↦ inl (first.1 (subst (λ t. parse_pid t ≡ some pid) e r, y))
          | inr k ↦ inr (rest.1 (n, k, r, y))
        ]),
      )

  -- Those found are the holders.
  pub found_iff :
      (path : FilePath) (w : K.World) (names : List Text) (pid : ℕ)
      → K.read_dir w (codes "/proc") ≡ ok names
      → Member pid (holders K w (canonical_target K w path) names) ↔ IsHolder w path pid
  found_iff path w names pid e =
      let target = canonical_target K w path in
      let list = holders_iff w target pid names in
      let one = holds_iff w target pid in
      (
        (λ m.
            let (n, k, r, y) = list.0 m in
            let (thread, has) = one.0 y in
            (
              names,
              n,
              e,
              k,
              (parse_pid_iff n pid).0 r,
              thread,
              (target, canonical_target-IsCanonical w path, has),
            )),
        λ (ns, n, o, k, r, thread, (t, c, has')).
            let same : ns ≡ names = ok-injective (sym o ∙ e) in
            let there : t ≡ target =
              IsCanonical-unique w path t target c (canonical_target-IsCanonical w path) in
            let has = subst (λ u. HasOpen w u pid) there has' in
            list.1 (n, subst (Member n) same k, (parse_pid_iff n pid).1 r, one.1 (thread, has)),
      )
