-- ===== src/Paths/Join.antt =====
-- The name of a path that was joined from a directory and a name.
use mathlib.Core.List.{reverse, append_assoc, reverse-append, reverse-reverse}
use cursedelete.Base.{
  ◌≡◌, refl, sym, ap, ◌∙◌, inl, inr, true, false, ◌||◌, some, List, [], ◌∷◌, ◌++◌, arith, ==_iff,
  Bool-cases, is_empty, All, Text, FilePath, codes, text_eq, split,
}
use cursedelete.Paths.{
  is_slash, is_dropped, normal_components, relative_components, components, file_name,
  starts_with_slash, ends_with_slash, join,
}

-- A name: not empty, without a slash, and neither `.` nor `..`.
pub record IsName (name : Text) : Type 0 where
  pub not_empty : is_empty name ≡ false
  pub no_slash : All (λ c. is_slash c ≡ false) name
  pub no_dot : text_eq name (codes ".") ≡ false
  pub no_dots : text_eq name (codes "..") ≡ false

split-no_slash : (s : Text) → All (λ c. is_slash c ≡ false) s → split is_slash s ≡ s ∷ []
unfolding split
split-no_slash [] h = refl
split-no_slash (c ∷ s) (n, h) = rw n (rw (split-no_slash s h) refl)

-- The pieces end with the name, behind at least one other.
split-join :
    (r name : Text)
    → All (λ c. is_slash c ≡ false) name
    → (w : Text) × (ws : List Text) × (split is_slash (r ++ (b'/' ∷ name))
        ≡ w ∷ (ws ++ (name ∷ [])))
unfolding split
split-join [] name h = ([], [], ap (λ v. [] ∷ v) (split-no_slash name h))
split-join (c ∷ r) name h =
    let (w, ws, e) = split-join r name h in
    elim (Bool-cases (is_slash c)) [
      | inl y ↦ ([], w ∷ ws, rw (y, e) refl)
      | inr n ↦ (c ∷ w, ws, rw (n, e) refl)
    ]

normal_components-append :
    (ws : List Text) (name : Text)
    → is_dropped name ≡ false
    → normal_components (ws ++ (name ∷ [])) ≡ normal_components ws ++ (name ∷ [])
unfolding normal_components
normal_components-append [] name h = rw h refl
normal_components-append (w ∷ ws) name h =
    let rest = normal_components-append ws name h in
    elim (Bool-cases (is_dropped w)) [ inl y ↦ rw (y, rest) refl | inr n ↦ rw (n, rest) refl ]

-- The last name stays, also behind a leading `.`.
relative_components-append :
    (w : Text) (ws : List Text) (name : Text)
    → is_dropped name ≡ false
    → (vs : List Text) × (relative_components (w ∷ (ws ++ (name ∷ []))) ≡ vs ++ (name ∷ []))
relative_components-append w ws name kept =
    let all = normal_components-append (w ∷ ws) name kept in
    elim (Bool-cases (text_eq w (codes "."))) [
      | inl y ↦ (w ∷ normal_components (w ∷ ws), rw y (ap (λ v. w ∷ v) all))
      | inr k ↦ (normal_components (w ∷ ws), rw k all)
    ]

components-join :
    (r name : Text)
    → IsName name
    → (ws : List Text) × (components (r ++ (b'/' ∷ name)) ≡ ws ++ (name ∷ []))
unfolding components
components-join r name n =
    let (w, ws, e) = split-join r name n.no_slash in
    let kept : is_dropped name ≡ false = ground (arith, n.not_empty, n.no_dot) in
    let (vs, all) = relative_components-append w ws name kept in
    (vs, ap relative_components e ∙ all)

file_name-behind_slash : (r name : Text) → IsName name → file_name (r ++ (b'/' ∷ name)) ≡ some name
unfolding file_name
file_name-behind_slash r name n =
    let (ws, e) = components-join r name n in
    rw e (rw (reverse-append ws (name ∷ [])) (rw (n.no_dot, n.no_dots) refl))

-- A path that ends with a slash is the text before it, and the slash.
before_slash : (p : FilePath) → ends_with_slash p ≡ true → (r : Text) × (p ≡ r ++ (b'/' ∷ []))
before_slash p h = by_reverse (reverse p) refl h
  where
    by_reverse :
        (q : Text)
        → reverse p ≡ q
        → starts_with_slash q ≡ true
        → (r : Text) × (p ≡ r ++ (b'/' ∷ []))
    by_reverse [] e h = cc
    by_reverse (c ∷ q) e h = (
      reverse q,
      sym (reverse-reverse p)
          ∙ ap reverse e
          ∙ reverse-append (c ∷ []) q
          ∙ ap (λ d. reverse q ++ (d ∷ [])) ((==_iff c b'/').0 h),
    )

file_name-own : (name : Text) → IsName name → file_name name ≡ some name
unfolding file_name components normal_components
file_name-own name n =
    rw (split-no_slash name n.no_slash) (rw (n.no_dot, n.not_empty) (rw (n.no_dot, n.no_dots) refl))

not_absolute : (name : Text) → IsName name → starts_with_slash name ≡ false
not_absolute [] n = refl
not_absolute (c ∷ name) n = n.no_slash.0

-- A name that is joined to a directory is the name of the result.
pub file_name-join : (folder name : Text) → IsName name → file_name (join folder name) ≡ some name
unfolding join
file_name-join folder name n =
    rw (not_absolute name n) (elim (Bool-cases (is_empty folder || ends_with_slash folder)) [
      | inl y ↦ rw y (at_break folder y)
      | inr k ↦ rw k (file_name-behind_slash folder name n)
    ])
  where
    at_break :
        (q : Text) → (is_empty q || ends_with_slash q) ≡ true → file_name (q ++ name) ≡ some name
    at_break [] h = file_name-own name n
    at_break (c ∷ q) h =
        let (r, e) = before_slash (c ∷ q) h in
        ap file_name (ap (λ x. x ++ name) e ∙ append_assoc r (b'/' ∷ []) name)
        ∙ file_name-behind_slash r name n
