-- ===== src/Base/Decimal.antt =====
-- Decimal numerals: how `{}` prints a `u64` and how `str::parse` reads one.
use cursedelete.Base.{
  ℕ, zero, suc, ◌+◌, ◌-◌, ◌*◌, ◌/◌, ◌%◌, ◌≤◌, ◌<◌, ◌≡◌, refl, ap, ◌∙◌, Bool, true, false, ◌&&◌,
  Option, none, some, [], ◌∷◌, ◌++◌, arith, ltb, leb, ◌==◌, if◌then◌else◌, if-elim, if-split,
  is_empty, All, All-append, Text, u64_mod,
}

abbrev pub is_digit : ℕ → Bool
is_digit c = leb b'0' c && leb c b'9'

-- The digits of a number below 10 to the power of the fuel.
unfoldable pub digits_on : ℕ → ℕ → Text
digits_on zero n = []
digits_on (suc k) n =
    let rest = digits_on k (n / 10) in
    if ltb n 10 then (b'0' + n) ∷ [] else rest ++ ((b'0' + n % 10) ∷ [])

-- A `u64` has 20 digits at most.
unfoldable pub digits : ℕ → Text
unfolding digits_on
digits n = digits_on 20 n

-- What the digits of a text amount to, after the number `a`.
unfoldable pub value_from : ℕ → Text → ℕ
value_from a [] = a
value_from a (c ∷ s) = value_from (a * 10 + (c - b'0')) s

-- The loop of `from_str_radix`, with its two errors.
unfoldable pub parse_digits : ℕ → Text → Option ℕ
parse_digits a [] = some a
parse_digits a (c ∷ s) =
    let v = a * 10 + (c - b'0') in
    let rest = parse_digits v s in if is_digit c && ltb v u64_mod then rest else none

-- `str::parse::<u64>`, and `::<usize>`
unfoldable pub parse_u64 : Text → Option ℕ
parse_u64 [] = none
parse_u64 (c ∷ s) =
    if c == b'+' then (if is_empty s then none else parse_digits 0 s) else parse_digits 0 (c ∷ s)

abbrev pow10 : ℕ → ℕ
pow10 zero = 1
pow10 (suc k) = 10 * pow10 k

abbrev pub IsDigit : ℕ → Type 0
IsDigit c = is_digit c ≡ true

value_from-append : (a : ℕ) (s t : Text) → value_from a (s ++ t) ≡ value_from (value_from a s) t
unfolding value_from
value_from-append a [] t = refl
value_from-append a (c ∷ s) t = value_from-append (a * 10 + (c - b'0')) s t

value_from-digits_on : (k n : ℕ) → n < pow10 k → value_from 0 (digits_on k n) ≡ n
unfolding digits_on value_from
value_from-digits_on zero n h = omega arith
value_from-digits_on (suc k) n h =
    if-split (λ s. value_from 0 s ≡ n) (ltb n 10) _ _ (λ e. ground arith)
      (λ e.
        rw (value_from-append 0 (digits_on k (n / 10)) ((b'0' + n % 10) ∷ []))
          (rw (value_from-digits_on k (n / 10) (omega arith)) (omega arith)))

digits_on-IsDigit : (k n : ℕ) → All IsDigit (digits_on k n)
unfolding digits_on
digits_on-IsDigit zero n = tt
digits_on-IsDigit (suc k) n =
    if-split (All IsDigit) (ltb n 10) _ _ (λ e. (ground arith, tt))
      (λ e.
        All-append IsDigit (digits_on k (n / 10)) ((b'0' + n % 10) ∷ [])
          (digits_on-IsDigit k (n / 10)) (ground arith, tt))

pub value_from-digits : (n : ℕ) → n < u64_mod → value_from 0 (digits n) ≡ n
unfolding digits
value_from-digits n h = value_from-digits_on 20 n (omega arith)

pub digits-IsDigit : (n : ℕ) → All IsDigit (digits n)
unfolding digits
digits-IsDigit n = digits_on-IsDigit 20 n

le-value_from : (a : ℕ) (s : Text) → a ≤ value_from a s
unfolding value_from
le-value_from a [] = omega arith
le-value_from a (c ∷ s) = omega (arith, le-value_from (a * 10 + (c - b'0')) s)

pub parse_digits-eq-some :
    (a : ℕ) (s : Text)
    → All IsDigit s
    → value_from a s < u64_mod
    → parse_digits a s ≡ some (value_from a s)
unfolding parse_digits value_from
parse_digits-eq-some a [] d h = refl
parse_digits-eq-some a (c ∷ s) (dc, ds) h =
    let v = a * 10 + (c - b'0') in ground (arith, parse_digits-eq-some v s ds h, le-value_from v s)

pub is_empty-snoc : (s : Text) (c : ℕ) → is_empty (s ++ (c ∷ [])) ≡ false
is_empty-snoc [] c = refl
is_empty-snoc (x ∷ s) c = refl

pub is_empty-digits : (n : ℕ) → is_empty (digits n) ≡ false
unfolding digits digits_on
is_empty-digits n =
    if-elim (λ (s : Text). is_empty s ≡ false) (ltb n 10) _ _ refl
      (is_empty-snoc (digits_on 19 (n / 10)) (b'0' + n % 10))

pub parse_u64-numeral :
    (s : Text) → is_empty s ≡ false → All IsDigit s → parse_u64 s ≡ parse_digits 0 s
unfolding parse_u64
parse_u64-numeral [] e d = cc
parse_u64-numeral (c ∷ s) e (dc, ds) = ground arith

-- The numeral of a `u64` reads back as that number.
pub parse_u64-digits : (n : ℕ) → n < u64_mod → parse_u64 (digits n) ≡ some n
parse_u64-digits n h =
    let v = value_from-digits n h in
    parse_u64-numeral (digits n) (is_empty-digits n) (digits-IsDigit n)
    ∙ parse_digits-eq-some 0 (digits n) (digits-IsDigit n) (rw v h)
    ∙ ap some v

parse_digits-lt : (a : ℕ) (s : Text) (n : ℕ) → a < u64_mod → parse_digits a s ≡ some n → n < u64_mod
unfolding parse_digits
parse_digits-lt a [] n h e = ground arith
parse_digits-lt a (c ∷ s) n h e = ground (arith, parse_digits-lt (a * 10 + (c - b'0')) s n)

-- A number that was read fits its type.
pub parse_u64-lt : (s : Text) (n : ℕ) → parse_u64 s ≡ some n → n < u64_mod
unfolding parse_u64
parse_u64-lt [] n e = cc
parse_u64-lt (c ∷ s) n e =
    ground (arith, parse_digits-lt 0 s n (omega arith), parse_digits-lt 0 (c ∷ s) n (omega arith))
