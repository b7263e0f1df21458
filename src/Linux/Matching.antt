-- ===== src/Linux/Matching.antt =====
-- What the texts in /proc stand for: the target of a descriptor, and the name of a process.
use mathlib.Core.List.{reverse, reverse-append, reverse-reverse}
use mathlib.Core.Option.{some-injective}
use cursedelete.Base.{
  ℕ, ◌+◌, ◌-◌, ◌*◌, ◌<◌, ◌≡◌, ◌≢◌, refl, sym, ap, ◌∙◌, subst, ◌↔◌, ◌⊎◌, inl, inr, Bool, true, false,
  Option, none, some, List, [], ◌∷◌, ◌++◌, arith, is_empty, All, Text, FilePath, codes, text_eq_iff,
  strip_prefix, strip_prefix_iff,
}
use cursedelete.Base.Decimal.{
  IsDigit, value_from, parse_digits, parse_u64, parse_u64-numeral, parse_digits-eq-some,
}
use cursedelete.Paths.{components, starts_with_slash}
use cursedelete.Linux.Lock.{
  parse_pid, all_digits, in_i32, unmarked, texts_eq, same_bool, path_eq, fd_target_matches,
}

-- Two texts of the same path: both absolute or both relative, with the same components.
abbrev pub SamePath : FilePath → FilePath → Type 0
SamePath p q = (starts_with_slash p ≡ starts_with_slash q) × (components p ≡ components q)

-- The target of a descriptor stands for a file: it is the path of the file and the mark that the
-- kernel sets behind the path of a deleted file, or it is the path and has no such end.
abbrev pub StandsFor : FilePath → FilePath → Type 0
StandsFor t path =
    ((u : FilePath) × (t ≡ u ++ codes " (deleted)") × SamePath u path)
    ⊎ (((u : FilePath) → t ≢ u ++ codes " (deleted)") × SamePath t path)

same_bool_iff : (a b : Bool) → (same_bool a b ≡ true) ↔ (a ≡ b)
same_bool_iff a b = ground arith

texts_eq_iff : (ss ts : List Text) → (texts_eq ss ts ≡ true) ↔ (ss ≡ ts)
texts_eq_iff [] [] = (λ h. refl, λ h. refl)
texts_eq_iff [] (t ∷ ts) = (λ h. cc, λ h. cc)
texts_eq_iff (s ∷ ss) [] = (λ h. cc, λ h. cc)
texts_eq_iff (s ∷ ss) (t ∷ ts) = ground (arith, text_eq_iff s t, texts_eq_iff ss ts)

path_eq_iff : (p q : FilePath) → (path_eq p q ≡ true) ↔ SamePath p q
unfolding path_eq
path_eq_iff p q = ground (
  arith,
  same_bool_iff (starts_with_slash p) (starts_with_slash q),
  texts_eq_iff (components p) (components q),
)

-- The name of a directory of /proc is the numeral of a process.
abbrev pub IsNumeral : Text → ℕ → Type 0
IsNumeral name pid =
    (is_empty name ≡ false) × All IsDigit name × (value_from 0 name ≡ pid) × (pid < 2147483648)

all_digits_iff : (s : Text) → (all_digits s ≡ true) ↔ All IsDigit s
all_digits_iff [] = (λ h. tt, λ h. refl)
all_digits_iff (c ∷ s) = ground (arith, all_digits_iff s)

parse_digits-value : (a : ℕ) (s : Text) (n : ℕ) → parse_digits a s ≡ some n → value_from a s ≡ n
unfolding parse_digits value_from
parse_digits-value a [] n h = ground (arith, h)
parse_digits-value a (c ∷ s) n h =
    let v = a * 10 + (c - b'0') in ground (arith, h, parse_digits-value v s n)

in_i32_iff : (o : Option ℕ) (n : ℕ) → (in_i32 o ≡ some n) ↔ ((o ≡ some n) × (n < 2147483648))
in_i32_iff none n = (λ h. cc, λ (e, l). cc)
in_i32_iff (some m) n = ground arith

pub parse_pid_iff : (s : Text) (n : ℕ) → (parse_pid s ≡ some n) ↔ IsNumeral s n
unfolding parse_pid
parse_pid_iff s n = (
  (λ h.
      let e : is_empty s ≡ false = ground (arith, h) in
      let d : All IsDigit s = (all_digits_iff s).0 (ground (arith, h)) in
      let (p, l) = (in_i32_iff (parse_u64 s) n).0 (ground (arith, h)) in
      (e, d, parse_digits-value 0 s n (sym (parse_u64-numeral s e d) ∙ p), l)),
  λ (e, d, v, l).
      let p : parse_u64 s ≡ some n =
        parse_u64-numeral s e d ∙ parse_digits-eq-some 0 s d (omega (arith, v, l)) ∙ ap some v in
      let a = (all_digits_iff s).1 d in
      let i = (in_i32_iff (parse_u64 s) n).1 (p, l) in ground (arith, e, a, i),
)

-- A suffix is a prefix of the reverse.
reversed : (s t u : Text) → (reverse t ≡ reverse s ++ u) ↔ (t ≡ reverse u ++ s)
reversed s t u = (
  (λ e.
      sym (reverse-reverse t)
      ∙ ap reverse e
      ∙ reverse-append (reverse s) u
      ∙ ap (λ x. reverse u ++ x) (reverse-reverse s)),
  λ e. ap reverse e ∙ reverse-append (reverse u) s ∙ ap (λ x. reverse s ++ x) (reverse-reverse u),
)

abbrev mark : Text
mark = codes " (deleted)"

-- What is stripped from a text, as `strip_suffix` does it.
stripped_iff :
    (t u : FilePath)
    → (strip_prefix (reverse mark) (reverse t) ≡ some (reverse u)) ↔ (t ≡ u ++ mark)
stripped_iff t u = (
  (λ h.
      (reversed mark t (reverse u)).0
        ((strip_prefix_iff (reverse mark) (reverse t) (reverse u)).0 h)
      ∙ ap (λ x. x ++ mark) (reverse-reverse u)),
  λ e.
      (strip_prefix_iff (reverse mark) (reverse t) (reverse u)).1
        ((reversed mark t (reverse u)).1 (e ∙ ap (λ x. x ++ mark) (sym (reverse-reverse u)))),
)

unmarked-StandsFor :
    (t path : FilePath) (o : Option Text)
    → strip_prefix (reverse mark) (reverse t) ≡ o
    → (path_eq (unmarked t o) path ≡ true) ↔ StandsFor t path
unmarked-StandsFor t path none h = (
  (λ y.
      inr ((λ u e. absurd (ground (arith, h, (stripped_iff t u).1 e))), (path_eq_iff t path).0 y)),
  λ k. elim k [
    | inl (u, e, m) ↦ absurd (ground (arith, h, (stripped_iff t u).1 e))
    | inr (n, m) ↦ (path_eq_iff t path).1 m
  ],
)
unmarked-StandsFor t path (some r) h =
    let here : t ≡ reverse r ++ mark =
      (stripped_iff t (reverse r)).0 (h ∙ ap some (sym (reverse-reverse r))) in
    (
      (λ y. inl (reverse r, here, (path_eq_iff (reverse r) path).0 y)),
      λ k. elim k [
        | inl (u, e, m) ↦
            let same : r ≡ reverse u =
              some-injective r (reverse u) (sym h ∙ (stripped_iff t u).1 e) in
            (path_eq_iff (reverse r) path).1
              (subst (λ v. SamePath v path) (sym (reverse-reverse u) ∙ ap reverse (sym same)) m)
        | inr (n, m) ↦ absurd (n (reverse r) here)
      ],
    )

pub fd_target_matches_iff :
    (t path : FilePath) → (fd_target_matches t path ≡ true) ↔ StandsFor t path
fd_target_matches_iff t path = unmarked-StandsFor t path _ refl
