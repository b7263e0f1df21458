-- ===== src/Target/Lexical.antt =====
-- The lexical layer of target.rs. A path is its UTF-8 bytes, since the source slices by byte
-- offsets; a slice that splits a character panics, which is the error of the results here.
use cursedelete.Base.{
  ℕ, zero, suc, ◌+◌, Bool, true, false, not, ◌&&◌, ◌||◌, Option, none, some, List, [], ◌∷◌, ◌++◌,
  ltb, leb, ◌==◌, if◌then◌else◌, length, is_empty, Text, codes, text_eq, ascii_lower, ascii_upper,
  Result, ok, err, ◌>>=◌,
}
use mathlib.Core.List.{reverse}
use cursedelete.Base.{split, join_with}

pub data Panic : Type 0 where
  not_a_char_boundary : Panic

pub data Prefix : Type 0 where
  drive : ℕ → Prefix
  unc : Text → Text → Prefix
  posix_absolute : Prefix
  relative : Prefix

pub record LexicalPath : Type 0 where
  pub prefix : Prefix
  pub components : List Text

abbrev pub prefix_is_relative : Prefix → Bool
prefix_is_relative relative = true
prefix_is_relative _ = false

abbrev pub is_protected_root_under : Prefix → List Text → Bool
is_protected_root_under (drive c) ws = is_empty ws
is_protected_root_under (unc server share) ws = is_empty ws
is_protected_root_under posix_absolute ws = is_empty ws
is_protected_root_under relative ws = false

abbrev pub is_protected_root : LexicalPath → Bool
is_protected_root p = is_protected_root_under p.prefix p.components

abbrev pub backslash : ℕ
backslash = 92

abbrev display_under : Prefix → List Text → Text
display_under (drive c) ws = c ∷ b':' ∷ backslash ∷ join_with (backslash ∷ []) ws
display_under (unc server share) ws =
    (backslash ∷ backslash ∷ server)
    ++ ((backslash ∷ share) ++ (backslash ∷ join_with (backslash ∷ []) ws))
display_under posix_absolute ws = b'/' ∷ join_with (codes "/") ws
display_under relative ws = join_with (codes "/") ws

unfoldable pub display_string : LexicalPath → Text
unfolding join_with
display_string p = display_under p.prefix p.components

abbrev pub is_separator : ℕ → Bool
is_separator c = (c == b'/') || (c == backslash)

abbrev pub split_any_separator : Text → List Text
split_any_separator s = split is_separator s

abbrev pub drop : ℕ → Text → Text
drop zero s = s
drop (suc n) [] = []
drop (suc n) (c ∷ s) = drop n s

-- `eq_ignore_ascii_case`, of a text and as many bytes of another.
unfoldable pub starts_with_ci : Text → Text → Bool
starts_with_ci s [] = true
starts_with_ci [] (p ∷ ps) = false
starts_with_ci (c ∷ s) (p ∷ ps) = (ascii_lower c == ascii_lower p) && starts_with_ci s ps

-- A byte that continues a UTF-8 character.
abbrev pub is_continuation : ℕ → Bool
is_continuation c = leb 0x80 c && ltb c 0xc0

abbrev pub head_continues : Text → Bool
head_continues [] = false
head_continues (c ∷ s) = is_continuation c

-- `str::is_char_boundary`, for an offset within the text.
abbrev pub is_char_boundary : Text → ℕ → Bool
is_char_boundary s n = (n == 0) || not (head_continues (drop n s))

-- `&s[..prefix.len()]` is taken once the length allows it, and panics off a boundary.
unfoldable pub strip_prefix_ci : Text → Text → Result (Option Text) Panic
unfolding starts_with_ci
strip_prefix_ci s prefix =
    let n = length prefix in
    if leb n (length s)
    then (if is_char_boundary s n
        then ok (if starts_with_ci s prefix then some (drop n s) else none)
        else err not_a_char_boundary)
    else ok none

-- The body of a verbatim path: `UNC\` or `UNC/` makes it a share.
unfoldable pub strip_unc : Text → Result (Bool × Text) Panic
strip_unc rest = strip_prefix_ci rest (b'U' ∷ b'N' ∷ b'C' ∷ backslash ∷ []) >>= elim [
  | some body ↦ ok (true, body)
  | none ↦
      strip_prefix_ci rest (codes "UNC/")
      >>= elim [ some body ↦ ok (true, body) | none ↦ ok (false, rest) ]
]

abbrev pub verbatim_prefixes : List Text
verbatim_prefixes =
    (backslash ∷ backslash ∷ b'?' ∷ backslash ∷ [])
    ∷ codes "//?/"
    ∷ (backslash ∷ backslash ∷ b'?' ∷ b'/' ∷ [])
    ∷ (b'/' ∷ b'/' ∷ b'?' ∷ backslash ∷ [])
    ∷ []

-- The `for` over the prefixes, which returns at the first that fits.
unfoldable pub strip_verbatim : Text → List Text → Result (Bool × Text) Panic
strip_verbatim raw [] = ok (false, raw)
strip_verbatim raw (p ∷ ps) =
    let others = strip_verbatim raw ps in
    strip_prefix_ci raw p >>= elim [ some rest ↦ strip_unc rest | none ↦ others ]

abbrev pub strip_verbatim_prefix : Text → Result (Bool × Text) Panic
strip_verbatim_prefix raw = strip_verbatim raw verbatim_prefixes

abbrev pub strip_double_separator : Text → Option Text
strip_double_separator [] = none
strip_double_separator (a ∷ []) = none
strip_double_separator (a ∷ b ∷ s) = if is_separator a && is_separator b then some s else none

abbrev is_ascii_alphabetic : ℕ → Bool
is_ascii_alphabetic c = (leb b'A' c && leb c b'Z') || (leb b'a' c && leb c b'z')

abbrev pub drive_letter : Text → Option ℕ
drive_letter [] = none
drive_letter (a ∷ []) = none
drive_letter (a ∷ b ∷ s) =
    if is_ascii_alphabetic a then (if b == b':' then some (ascii_upper a) else none) else none

abbrev first_or_empty : List Text → Text
first_or_empty [] = []
first_or_empty (w ∷ ws) = w

abbrev second_or_empty : List Text → Text
second_or_empty [] = []
second_or_empty (w ∷ ws) = first_or_empty ws

-- What stands behind the second separator; `seen` separators were met.
unfoldable pub after_second : ℕ → Text → Text
after_second seen [] = []
after_second seen (c ∷ s) =
    let next = after_second (seen + 1) s in
    let same = after_second seen s in
    if is_separator c then (if seen + 1 == 2 then s else next) else same

unfoldable pub parse_unc_body : Text → Prefix × Text
unfolding after_second split
parse_unc_body body =
    let parts = split_any_separator body in
    (unc (first_or_empty parts) (second_or_empty parts), after_second 0 body)

-- One component, onto a stack whose top is its head: `..` at the root stays there.
unfoldable pub push_component : List Text → Text → List Text
unfolding text_eq
push_component stack part =
    if is_empty part || text_eq part (codes ".")
    then stack
    else if text_eq part (codes "..")
    then elim stack [ [] ↦ [] | w ∷ ws ↦ ws ]
    else part ∷ stack

unfoldable pub resolve_onto : List Text → List Text → List Text
unfolding push_component
resolve_onto stack [] = stack
resolve_onto stack (part ∷ parts) = resolve_onto (push_component stack part) parts

unfoldable pub resolve_dot_components : List Text → List Text
unfolding resolve_onto
resolve_dot_components parts = reverse (resolve_onto [] parts)

abbrev starts_with_separator : Text → Bool
starts_with_separator [] = false
starts_with_separator (c ∷ s) = is_separator c

-- The prefix of a text without a verbatim prefix, and the text below it.
unfoldable pub classify_plain : Text → Prefix × Text
unfolding parse_unc_body
classify_plain rest = elim (strip_double_separator rest) [
  | some body ↦ parse_unc_body body
  | none ↦ elim (drive_letter rest) [
    | some letter ↦ (drive letter, drop 2 rest)
    | none ↦ if starts_with_separator rest then (posix_absolute, rest) else (relative, rest)
  ]
]

-- The lexical path of what stands behind a verbatim prefix, which may have announced a share.
unfoldable pub lexical_of : Bool → Text → LexicalPath
lexical_of verbatim_unc rest =
    let (prefix, remainder) = if verbatim_unc then parse_unc_body rest else classify_plain rest in
    record { prefix = prefix; components = resolve_dot_components (split_any_separator remainder) }

unfoldable pub classify : Text → Result LexicalPath Panic
classify raw =
    strip_verbatim_prefix raw >>= λ (verbatim_unc, rest). ok (lexical_of verbatim_unc rest)
