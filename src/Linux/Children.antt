-- ===== src/Linux/Children.antt =====
-- What a listing on Linux is, against what the kernel says of the entries of the directory.
use cursedelete.Base.{
  ℕ, ◌≡◌, refl, sym, ap, ◌∙◌, subst, ◌≢◌, ◌↔◌, ◌⊎◌, inl, inr, true, false, Option, none, some, List,
  [], ◌∷◌, arith, ◌==◌, Bool-cases, text_eq_iff, Text, FilePath, codes, Result, ok, err, >>=-elim,
  >>=-ok, ok-injective, ==_iff, eq-false,
}
use cursedelete.Walk.{RawChild}
use cursedelete.Linux.Kernel.{Kernel, OsError, os, invalid_input, has_nul, open_dir_nofollow}
use cursedelete.Linux.Deletion.{open_dir_nofollow-ok, ok-open_dir_nofollow}
use cursedelete.Linux.Listing.{
  RawMeta, is_dots, plain_dir, child_of, lookup_metadata, looked_up, list_entry, cons_child,
  list_entries, list_via_dirp, list_stream, list_opened, list_children,
}
use cursedelete.Linux.Metadata.{Answers, lookup_metadata_iff}

abbrev Dots : Text → Type 0
Dots name = (name ≡ codes ".") ⊎ (name ≡ codes "..")

module _ (K : Kernel) (w : K.World) (fd : K.Fd) where
  -- The child that an entry is: a directory by the word of its parent, or what its metadata say.
  abbrev IsChild : Text → ℕ → RawChild → Type 0
  IsChild name d_type c =
      ((d_type ≡ K.dt_dir) × (c ≡ plain_dir name))
      ⊎ ((d_type ≢ K.dt_dir)
          × (meta : RawMeta) × Answers K w fd name (ok meta)
          × (c ≡ child_of name meta))

  abbrev Vanished : Text → ℕ → Type 0
  Vanished name d_type = (d_type ≢ K.dt_dir) × Answers K w fd name (err K.enoent)

  -- The children are the entries but `.` and `..`, less those that vanished, in order.
  abbrev pub Lists : List (Text × ℕ) → List RawChild → Type 0
  Lists [] cs = cs ≡ []
  Lists ((name, d_type) ∷ es) cs =
      (Dots name × Lists es cs)
      ⊎ ((¬ Dots name) × Vanished name d_type × Lists es cs)
      ⊎ ((c : RawChild) × (rest : List RawChild) × (cs ≡ c ∷ rest)
          × (¬ Dots name)
          × IsChild name d_type c
          × Lists es rest)

  is_dots_iff : (name : Text) → (is_dots name ≡ true) ↔ Dots name
  is_dots_iff name = ground (arith, text_eq_iff name (codes "."), text_eq_iff name (codes ".."))

  looked_up-none :
      (name : Text) (r : Result RawMeta OsError)
      → looked_up K name r ≡ ok none
      → r ≡ err (os K.enoent)
  looked_up-none name (ok m) h = cc
  looked_up-none name (err (os n)) h = elim (Bool-cases (n == K.enoent)) [
    | inl y ↦ ap (λ k. err (os k)) ((==_iff n K.enoent).0 y)
    | inr other ↦ absurd (ground (arith, other, h))
  ]
  looked_up-none name (err (invalid_input t)) h = cc

  looked_up-some :
      (name : Text) (r : Result RawMeta OsError) (c : RawChild)
      → looked_up K name r ≡ ok (some c)
      → (m : RawMeta) × (r ≡ ok m) × (c ≡ child_of name m)
  looked_up-some name (ok m) c h = (m, refl, cc)
  looked_up-some name (err e) c h = absurd (ground (arith, h))

  -- What an entry adds, if it stops nothing.
  abbrev Adds : Text → ℕ → Option RawChild → Type 0
  Adds name d_type o =
      (Dots name × (o ≡ none))
      ⊎ ((¬ Dots name) × Vanished name d_type × (o ≡ none))
      ⊎ ((c : RawChild) × (o ≡ some c) × (¬ Dots name) × IsChild name d_type c)

  list_entry-Adds :
      (name : Text) (d_type : ℕ) (o : Option RawChild)
      → list_entry K w fd (name, d_type) ≡ ok o
      → Adds name d_type o
  unfolding list_entry
  list_entry-Adds name d_type o h = elim (Bool-cases (is_dots name)) [
    | inl y ↦ inl ((is_dots_iff name).0 y, ok-injective (sym (rw y at h)))
    | inr n ↦
        let real : ¬ Dots name = (λ d. absurd (ground (arith, n, (is_dots_iff name).1 d))) in
        elim (Bool-cases (d_type == K.dt_dir)) [
          | inl y ↦ inr (
              inr (
                plain_dir name,
                ok-injective (sym (rw (n, y) at h)),
                real,
                inl ((==_iff d_type K.dt_dir).0 y, refl),
              ))
          | inr m ↦
              let other : d_type ≢ K.dt_dir =
                (λ e. absurd (ground (arith, m, (==_iff d_type K.dt_dir).1 e))) in
              inr (looked o real other (rw (n, m) at h))
        ]
  ]
    where
      looked :
          (o : Option RawChild)
          → (¬ Dots name)
          → d_type ≢ K.dt_dir
          → looked_up K name (lookup_metadata K w fd name) ≡ ok o
          → ((¬ Dots name) × Vanished name d_type × (o ≡ none))
            ⊎ ((c : RawChild) × (o ≡ some c) × (¬ Dots name) × IsChild name d_type c)
      looked none real other k =
          let gone = looked_up-none name (lookup_metadata K w fd name) k in
          inl (real, (other, (lookup_metadata_iff K w fd name (err K.enoent)).0 gone), refl)
      looked (some c) real other k =
          let (m, e, same) = looked_up-some name (lookup_metadata K w fd name) c k in
          inr (c, refl, real, inr (other, m, (lookup_metadata_iff K w fd name (ok m)).0 e, same))

  Adds-list_entry :
      (name : Text) (d_type : ℕ) (o : Option RawChild)
      → Adds name d_type o
      → list_entry K w fd (name, d_type) ≡ ok o
  unfolding list_entry
  Adds-list_entry name d_type o (inl (d, e)) = rw ((is_dots_iff name).1 d) (ap ok (sym e))
  Adds-list_entry name d_type o (inr (inl (real, (other, a), e))) =
      let n = eq-false (is_dots name) (λ y. real ((is_dots_iff name).0 y)) in
      let m = eq-false (d_type == K.dt_dir) (λ y. other ((==_iff d_type K.dt_dir).0 y)) in
      rw (n, m)
        (rw ((lookup_metadata_iff K w fd name (err K.enoent)).1 a)
          (rw ((==_iff K.enoent K.enoent).1 refl) (ap ok (sym e))))
  Adds-list_entry name d_type o (inr (inr (c, e, real, inl (y, same)))) =
      let n = eq-false (is_dots name) (λ y. real ((is_dots_iff name).0 y)) in
      rw (n, (==_iff d_type K.dt_dir).1 y) (ap ok (sym (e ∙ ap some same)))
  Adds-list_entry name d_type o (inr (inr (c, e, real, inr (other, m, a, same)))) =
      let n = eq-false (is_dots name) (λ y. real ((is_dots_iff name).0 y)) in
      let k = eq-false (d_type == K.dt_dir) (λ y. other ((==_iff d_type K.dt_dir).0 y)) in
      rw (n, k) (rw ((lookup_metadata_iff K w fd name (ok m)).1 a) (ap ok (sym (e ∙ ap some same))))

  -- The loop over the entries succeeds exactly with their children, if `readdir` did not fail.
  list_entries_iff :
      (es : List (Text × ℕ)) (end : Option ℕ) (cs : List RawChild)
      → (list_entries K w fd es end ≡ ok cs) ↔ ((end ≡ none) × Lists es cs)
  unfolding list_entries
  list_entries_iff [] none cs = ground arith
  list_entries_iff [] (some n) cs = ground arith
  list_entries_iff ((name, d_type) ∷ es) end cs = (
    (λ h. >>=-elim (list_entry K w fd (name, d_type)) _ h λ o first h1.
        >>=-elim (list_entries K w fd es end) _ h1 λ rest others h2.
          let (over, l) = (list_entries_iff es end rest).0 others in
          (over, added o rest cs (list_entry-Adds name d_type o first) (ok-injective h2) l)),
    λ (over, l). built (λ rest k. (list_entries_iff es end rest).1 (over, k)) cs l,
  )
    where
      added :
          (o : Option RawChild) (rest cs : List RawChild)
          → Adds name d_type o
          → cons_child K o rest ≡ cs
          → Lists es rest
          → Lists ((name, d_type) ∷ es) cs
      added o rest cs (inl (d, e)) same l = inl (d, subst (Lists es) (rw e at same) l)
      added o rest cs (inr (inl (real, v, e))) same l =
          inr (inl (real, v, subst (Lists es) (rw e at same) l))
      added o rest cs (inr (inr (c, e, real, k))) same l =
          inr (inr (c, rest, sym (rw e at same), real, k, l))

      one :
          (o : Option RawChild) (rest : List RawChild)
          → Adds name d_type o
          → list_entries K w fd es end ≡ ok rest
          → list_entries K w fd ((name, d_type) ∷ es) end ≡ ok (cons_child K o rest)
      one o rest a others =
          >>=-ok (list_entry K w fd (name, d_type)) _ o (Adds-list_entry name d_type o a)
            (>>=-ok (list_entries K w fd es end) _ rest others refl)

      built :
          ((rest : List RawChild) → Lists es rest → list_entries K w fd es end ≡ ok rest)
          → (cs : List RawChild) → Lists ((name, d_type) ∷ es) cs
          → list_entries K w fd ((name, d_type) ∷ es) end ≡ ok cs
      built all cs (inl (d, l)) = one none cs (inl (d, refl)) (all cs l)
      built all cs (inr (inl (real, v, l))) = one none cs (inr (inl (real, v, refl))) (all cs l)
      built all cs (inr (inr (c, rest, e, real, k, l))) =
          one (some c) rest (inr (inr (c, refl, real, k))) (all rest l) ∙ ap ok (sym e)

module _ (K : Kernel) where
  -- A listing gives these children exactly when the path of the directory has no NUL byte, the
  -- directory opens, its stream can be read to the end, and the children are, in order, one for
  -- every entry but `.` and `..` and those that vanished: a directory where the entry says so, and
  -- else what the metadata say that the kernel has for the name.
  pub list_children_iff :
      (dir : FilePath) (w : K.World) (cs : List RawChild)
      → ((list_children K dir w).0 ≡ ok cs) ↔ (
          (fd : K.Fd) × (v : K.World) × (has_nul dir ≡ false)
          × (K.open_dir dir w ≡ (ok fd, v))
          × (K.fdopendir v fd ≡ none)
          × ((K.readdir v fd).1 ≡ none)
          × Lists K v fd (K.readdir v fd).0 cs)
  unfolding list_children
  list_children_iff dir w cs = (
    (λ h.
        let (fd, v, o, s) = opened_once (open_dir_nofollow K dir w) h in
        let (fine, od) = open_dir_nofollow-ok K dir w fd v o in
        let (plain, rest) = streamed v fd (K.fdopendir v fd) s in
        let (end, l) = (list_entries_iff K v fd (K.readdir v fd).0 (K.readdir v fd).1 cs).0 rest in
        (fd, v, fine, od, plain, end, l)),
    λ (fd, v, fine, od, plain, end, l).
        ap (λ o. (list_opened K o).0) (ok-open_dir_nofollow K dir w fd v fine od)
        ∙ ap (list_stream K v fd) plain
        ∙ (list_entries_iff K v fd (K.readdir v fd).0 (K.readdir v fd).1 cs).1 (end, l),
  )
    where
      opened_once :
          (o : Result K.Fd OsError × K.World)
          → (list_opened K o).0 ≡ ok cs
          → (fd : K.Fd) × (v : K.World) × (o ≡ (ok fd, v))
            × (list_stream K v fd (K.fdopendir v fd) ≡ ok cs)
      opened_once (ok fd, v) h = (fd, v, refl, h)
      opened_once (err e, v) h = cc

      streamed :
          (v : K.World) (fd : K.Fd) (r : Option ℕ)
          → list_stream K v fd r ≡ ok cs
          → (r ≡ none) × (list_via_dirp K v fd ≡ ok cs)
      streamed v fd none h = (refl, h)
      streamed v fd (some n) h = cc
