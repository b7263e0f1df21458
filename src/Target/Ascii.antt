-- ===== src/Target/Ascii.antt =====
-- The lexical layer is total on ASCII paths.
use cursedelete.Base.{
  ℕ, zero, suc, ◌<◌, ◌≡◌, refl, Bool, true, false, Option, none, some, List, [], ◌∷◌, arith, leb,
  if◌then◌else◌, length, All, Text, codes, Result, ok,
}
use cursedelete.Target.Lexical.{
  head_continues, lexical_of, starts_with_ci, Panic, LexicalPath, drop, is_char_boundary,
  strip_prefix_ci, strip_unc, strip_verbatim, verbatim_prefixes, classify, backslash,
}

abbrev pub Ascii : Text → Type 0
Ascii = All (λ c. c < 128)

drop-Ascii : (n : ℕ) (s : Text) → Ascii s → Ascii (drop n s)
drop-Ascii zero s h = h
drop-Ascii (suc n) [] h = tt
drop-Ascii (suc n) (c ∷ s) h = drop-Ascii n s h.1

head_continues-Ascii : (s : Text) → Ascii s → head_continues s ≡ false
head_continues-Ascii [] h = refl
head_continues-Ascii (c ∷ s) h = ground arith

boundary_of_Ascii : (s : Text) (n : ℕ) → Ascii s → is_char_boundary s n ≡ true
boundary_of_Ascii s n h = ground (arith, head_continues-Ascii (drop n s) (drop-Ascii n s h))

-- What `strip_prefix_ci` gives where no slice can panic.
abbrev stripped : Text → Text → Option Text
stripped s prefix =
    if leb (length prefix) (length s)
    then (if starts_with_ci s prefix then some (drop (length prefix) s) else none)
    else none

abbrev AsciiOption : Option Text → Type 0
AsciiOption none = Unit
AsciiOption (some s) = Ascii s

-- A successful result, and ASCII in all that it holds.
abbrev Strips : Result (Option Text) Panic → Type 0
Strips r = (o : Option Text) × (r ≡ ok o) × AsciiOption o

abbrev Bodies : Result (Bool × Text) Panic → Type 0
Bodies r = (b : Bool) × (s : Text) × (r ≡ ok (b, s)) × Ascii s

strip_prefix_ci-Ascii : (s prefix : Text) → Ascii s → Strips (strip_prefix_ci s prefix)
unfolding strip_prefix_ci
strip_prefix_ci-Ascii s prefix h = (
  stripped s prefix,
  rw (boundary_of_Ascii s (length prefix) h) (ground arith),
  ascii (drop-Ascii (length prefix) s h),
)
  where
    ascii : Ascii (drop (length prefix) s) → AsciiOption (stripped s prefix)
    ascii a = ground arith

abbrev unc_backslash : Text
unc_backslash = b'U' ∷ b'N' ∷ b'C' ∷ backslash ∷ []

strip_unc_slash :
    (s : Text) (o : Option Text)
    → Ascii s
    → strip_prefix_ci s unc_backslash ≡ ok none
    → strip_prefix_ci s (codes "UNC/") ≡ ok o
    → AsciiOption o
    → Bodies (strip_unc s)
unfolding strip_unc
strip_unc_slash s (some body) h e e' a = (true, body, rw (e, e'), a)
strip_unc_slash s none h e e' a = (false, s, rw (e, e'), h)

strip_unc_backslash :
    (s : Text) (o : Option Text)
    → Ascii s
    → strip_prefix_ci s unc_backslash ≡ ok o
    → AsciiOption o
    → Bodies (strip_unc s)
unfolding strip_unc
strip_unc_backslash s (some body) h e a = (true, body, rw e, a)
strip_unc_backslash s none h e a =
    let (o, e', a') = strip_prefix_ci-Ascii s (codes "UNC/") h in strip_unc_slash s o h e e' a'

strip_unc-Ascii : (s : Text) → Ascii s → Bodies (strip_unc s)
strip_unc-Ascii s h =
    let (o, e, a) = strip_prefix_ci-Ascii s unc_backslash h in strip_unc_backslash s o h e a

strip_verbatim_step :
    (s p : Text) (ps : List Text) (o : Option Text)
    → strip_prefix_ci s p ≡ ok o
    → AsciiOption o
    → Bodies (strip_verbatim s ps)
    → Bodies (strip_verbatim s (p ∷ ps))
unfolding strip_verbatim
strip_verbatim_step s p ps (some rest) e a others = rw e (strip_unc-Ascii rest a)
strip_verbatim_step s p ps none e a others = rw e others

strip_verbatim-Ascii : (s : Text) (ps : List Text) → Ascii s → Bodies (strip_verbatim s ps)
strip_verbatim-Ascii s [] h = (false, s, unfold strip_verbatim in refl, h)
strip_verbatim-Ascii s (p ∷ ps) h =
    let (o, e, a) = strip_prefix_ci-Ascii s p h in
    strip_verbatim_step s p ps o e a (strip_verbatim-Ascii s ps h)

-- Every ASCII path is classified: the lexical layer does not panic on one.
classify-Ascii : (raw : Text) → Ascii raw → (p : LexicalPath) × (classify raw ≡ ok p)
unfolding classify
classify-Ascii raw h =
    let (b, s, e, _) = strip_verbatim-Ascii raw verbatim_prefixes h in (lexical_of b s, rw e)
