-- ===== src/License/Store/Reserved.antt =====
-- Which files of the store are never read as licences.
use cursedelete.Base.{
  is_empty, has_text, ◌≡◌, refl, ap, ◌∙◌, subst, inl, inr, Bool, true, false, Option, none, some,
  List, [], ◌∷◌, ◌++◌, arith, if-elim, if-split, All, All-append, All-map, any, sym, ◌⊎◌, codes,
  text_eq, ok-injective, Text, FilePath, Result, ok, err,
}
use cursedelete.License.Disk.{Disk, IoError}
use cursedelete.License.Store.{
  LicenseLocations, Scope, system, file, revocations_name, dir, name_of, reserved_names,
  starts_with_dot, is_candidate_name, sort_paths, insert_path, keep, path_le,
}
use cursedelete.License.Store.Files.{
  candidates_in, is_license_file, read_all, listed, candidates_at, read_candidate,
}
use mathlib.Core.List.{append_assoc}
use cursedelete.Base.Decimal.{digits, digits-IsDigit}
use cursedelete.Paths.{is_slash, file_name, join}
use cursedelete.Paths.Join.{IsName, file_name-join}
use cursedelete.License.Store.{at_dir, license_name, activation_name, credentials_name}
use cursedelete.License.Store.Files.{temporary}

-- A file of the store that is no licence: a certificate, credentials or a list of revocations, in
-- either scope, or the temporary file that is written before any of these or before a licence.
abbrev pub IsStateName : Text → Type 0
IsStateName name = (name ≡ activation_name) ⊎ (name ≡ credentials_name) ⊎ (name ≡ revocations_name)

abbrev pub IsState : Disk → LicenseLocations → FilePath → Type 0
IsState D l p =
    ((s : Scope) × (name : Text) × IsStateName name × (file l s name ≡ ok p))
    ⊎ ((s : Scope) × (name : Text) × (q folder : FilePath) × (IsStateName name
          ⊎ (name ≡ license_name))
        × (file l s name ≡ ok q)
        × (p ≡ temporary D folder q))

no_slash : (s : Text) → any is_slash s ≡ false → All (λ c. is_slash c ≡ false) s
no_slash [] h = tt
no_slash (c ∷ s) h = ground (arith, no_slash s)

abbrev IsDiskName : Text → Type 0
IsDiskName name = IsStateName name ⊎ (name ≡ license_name)

-- What is tested of a name makes it one.
tested-IsName :
    (s : Text)
    → is_empty s ≡ false
    → any is_slash s ≡ false
    → text_eq s (codes ".") ≡ false
    → text_eq s (codes "..") ≡ false
    → IsName s
tested-IsName s e slash dot dots = record {
  not_empty = e;
  no_slash = no_slash s slash;
  no_dot = dot;
  no_dots = dots;
}

IsDiskName-IsName : (name : Text) → IsDiskName name → IsName name
unfolding text_eq
IsDiskName-IsName name (inl (inl e)) =
    subst IsName (sym e) (tested-IsName activation_name refl refl refl refl)
IsDiskName-IsName name (inl (inr (inl e))) =
    subst IsName (sym e) (tested-IsName credentials_name refl refl refl refl)
IsDiskName-IsName name (inl (inr (inr e))) =
    subst IsName (sym e) (tested-IsName revocations_name refl refl refl refl)
IsDiskName-IsName name (inr e) =
    subst IsName (sym e) (tested-IsName license_name refl refl refl refl)

reserved : (name : Text) → IsStateName name → has_text name reserved_names ≡ true
unfolding has_text text_eq
reserved name (inl e) = rw e refl
reserved name (inr (inl e)) = rw e refl
reserved name (inr (inr e)) = rw e refl

name_of-some : (p : FilePath) (n : Text) → file_name p ≡ some n → name_of p ≡ n
name_of-some p n e = rw (e, name_of) refl

-- The path of a name in a scope has that name.
file-name_of :
    (l : LicenseLocations) (s : Scope) (name : Text) (p : FilePath)
    → IsName name
    → file l s name ≡ ok p
    → file_name p ≡ some name
unfolding file
file-name_of l s name p n h = by_dir (dir l s) h
  where
    by_dir : (r : Result FilePath IoError) → at_dir name r ≡ ok p → file_name p ≡ some name
    by_dir (ok d) k =
        subst (λ q. file_name q ≡ some name) (ok-injective k) (file_name-join d name n)
    by_dir (err e) k = cc

-- A dot before a name, and more behind it, make a name again.
hidden-IsName :
    (name rest : Text)
    → IsName name
    → All (λ c. is_slash c ≡ false) rest
    → IsName (b'.' ∷ (name ++ rest))
unfolding text_eq
hidden-IsName [] rest n h = absurd (ground (arith, n.not_empty))
hidden-IsName (c ∷ []) rest n h = record {
  not_empty = refl;
  no_slash = (refl, (n.no_slash.0, h));
  no_dot = refl;
  no_dots = ground (arith, n.no_dot);
}
hidden-IsName (c ∷ d ∷ name) rest n h = record {
  not_empty = refl;
  no_slash = (refl, All-append (λ c. is_slash c ≡ false) (c ∷ d ∷ name) rest n.no_slash h);
  no_dot = refl;
  no_dots = ground arith;
}

module _ (P : FilePath → Type 0) where
  All-keep :
      (test : FilePath → Bool) (ps : List FilePath)
      → ((p : FilePath) → test p ≡ true → P p)
      → All P (keep test ps)
  unfolding keep
  All-keep test [] h = tt
  All-keep test (p ∷ ps) h =
      if-split (All P) (test p) _ _ (λ e. (h p e, All-keep test ps h)) (λ e. All-keep test ps h)

  All-insert_path : (p : FilePath) (ps : List FilePath) → P p → All P ps → All P (insert_path p ps)
  unfolding insert_path
  All-insert_path p [] h hs = (h, tt)
  All-insert_path p (q ∷ qs) h (here, rest) =
      if-elim (All P) (path_le p q) _ _ (h, (here, rest)) (here, All-insert_path p qs h rest)

  All-sort_paths : (ps : List FilePath) → All P ps → All P (sort_paths ps)
  unfolding sort_paths
  All-sort_paths [] h = tt
  All-sort_paths (p ∷ ps) (here, rest) =
      All-insert_path p (sort_paths ps) here (All-sort_paths ps rest)

module _ (D : Disk) where
  temporary-name_of :
      (folder q : FilePath) (name : Text)
      → IsName name
      → file_name q ≡ some name
      → name_of (temporary D folder q) ≡ b'.' ∷ (name ++ (codes ".tmp-" ++ digits D.process_id))
  unfolding temporary
  temporary-name_of folder q name n e =
      let mark = codes ".tmp-" ++ digits D.process_id in
      let clean : All (λ c. is_slash c ≡ false) mark =
        All-append (λ c. is_slash c ≡ false) (codes ".tmp-") (digits D.process_id)
          (no_slash (codes ".tmp-") refl)
          (All-map (digits D.process_id) (λ c d. ground (arith, d))
            (digits-IsDigit D.process_id)) in
      rw e (
        ap (λ x. name_of (join folder (b'.' ∷ x)))
          (append_assoc name (codes ".tmp-") (digits D.process_id))
        ∙ name_of-some (join folder (b'.' ∷ (name ++ mark))) (b'.' ∷ (name ++ mark))
            (file_name-join folder (b'.' ∷ (name ++ mark)) (hidden-IsName name mark n clean)))

  module _ (l : LicenseLocations) where
    abbrev pub IsForeign : FilePath → Type 0
    IsForeign p = ¬ IsState D l p

    -- What the filter tests rules out every file of the store but licences.
    tested :
        (p : FilePath)
        → has_text (name_of p) reserved_names ≡ false
        → starts_with_dot (name_of p) ≡ false
        → IsForeign p
    tested p r d (inl (s, name, k, h)) =
        let e = file-name_of l s name p (IsDiskName-IsName name (inl k)) h in
        let n : name_of p ≡ name = name_of-some p name e in
        absurd (ground (arith, reserved name k, subst (λ t. has_text t reserved_names ≡ false) n r))
    tested p r d (inr (s, name, q, folder, k, h, t)) =
        let own = IsDiskName-IsName name k in
        let e = file-name_of l s name q own h in
        let n = ap name_of t ∙ temporary-name_of folder q name own e in
        absurd (ground (arith, subst (λ t. starts_with_dot t ≡ false) n d))

    named : (w : D.World) (p : FilePath) → is_license_file D l w p ≡ true → IsForeign p
    unfolding is_candidate_name
    named w p e = tested p (ground arith) (ground arith)

    read_all-source :
        (w : D.World) (ps : List FilePath)
        → All IsForeign ps
        → All (λ c. IsForeign c.source) (read_all D l w ps)
    unfolding read_candidate
    read_all-source w [] h = tt
    read_all-source w (p ∷ ps) (here, rest) = (here, read_all-source w ps rest)

    -- No certificate, no credentials, no list of revocations of either scope, and no temporary file that
    -- is written before any of these or before a licence, is ever read as a licence of the system
    -- directory.
    pub candidates_in-IsForeign :
        (w : D.World) → All (λ c. IsForeign c.source) (candidates_in D l system w)
    unfolding candidates_in
    candidates_in-IsForeign w = at (dir l system)
      where
        listing : (o : Option (List FilePath)) → All (λ c. IsForeign c.source) (listed D l w o)
        listing none = tt
        listing (some entries) =
            read_all-source w (sort_paths (keep (is_license_file D l w) entries)) (
              All-sort_paths IsForeign (keep (is_license_file D l w) entries)
                (All-keep IsForeign (is_license_file D l w) entries (λ p e. named w p e)))

        at :
            (r : Result FilePath IoError)
            → All (λ c. IsForeign c.source) (candidates_at D l w system r)
        at (err e) = tt
        at (ok d) = listing (D.read_dir w d)
