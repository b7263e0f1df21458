-- ===== src/Linux/ProcStat.antt =====
-- How the parent of a process is read from /proc/[pid]/stat.
use cursedelete.Base.{
  ℕ, ◌≡◌, refl, ap, ◌∙◌, true, false, none, some, [], ◌∷◌, ◌++◌, arith, ◌==◌, ◌<◌, is_empty, All,
  Text, codes, split, u64_mod,
}
use cursedelete.Base.Decimal.{is_digit, digits, parse_u64-digits, digits-IsDigit, is_empty-digits}
use cursedelete.Ages.{is_whitespace, trim_start}
use cursedelete.Linux.Lock.{words, after_last, is_kernel_stat}

-- A word: it is not empty, and no character is white space.
abbrev IsWord : Text → Type 0
IsWord s = (is_empty s ≡ false) × All (λ c. is_whitespace c ≡ false) s

abbrev Lacks : ℕ → Text → Type 0
Lacks c s = All (λ x. (x == c) ≡ false) s

after_last-none : (c : ℕ) (s : Text) → Lacks c s → after_last c s ≡ none
unfolding after_last
after_last-none c [] h = refl
after_last-none c (x ∷ s) (hx, hs) = rw (after_last-none c s hs) (rw hx refl)

after_last-append : (c : ℕ) (s t : Text) → Lacks c t → after_last c (s ++ (c ∷ t)) ≡ some t
unfolding after_last
after_last-append c [] t h = rw (after_last-none c t h) (ground arith)
after_last-append c (x ∷ s) t h = rw (after_last-append c s t h) refl

-- Up to the first white space a text is one piece.
split-word :
    (s t : Text) (c : ℕ)
    → All (λ x. is_whitespace x ≡ false) s
    → is_whitespace c ≡ true
    → split is_whitespace (s ++ (c ∷ t)) ≡ s ∷ split is_whitespace t
unfolding split
split-word [] t c h y = rw y refl
split-word (x ∷ s) t c (hx, hs) y = rw hx (rw (split-word s t c hs y) refl)

words-word :
    (s t : Text) (c : ℕ) → IsWord s → is_whitespace c ≡ true → words (s ++ (c ∷ t)) ≡ s ∷ words t
words-word s t c (e, h) y = rw (split-word s t c h y) (rw e refl)

trim_start-word : (s t : Text) → IsWord s → trim_start (s ++ t) ≡ s ++ t
unfolding trim_start
trim_start-word [] t (e, h) = cc
trim_start-word (x ∷ s) t (e, h) = rw h.0 refl

digit-is_word : (s : Text) → All (λ c. is_digit c ≡ true) s → All (λ c. is_whitespace c ≡ false) s
digit-is_word [] h = tt
digit-is_word (c ∷ s) (hc, hs) = (ground arith, digit-is_word s hs)

digits-IsWord : (n : ℕ) → IsWord (digits n)
digits-IsWord n = (is_empty-digits n, digit-is_word (digits n) (digits-IsDigit n))

trim_start-space : (t : Text) → trim_start (b' ' ∷ t) ≡ trim_start t
unfolding trim_start
trim_start-space t = refl

digits-Lacks : (s : Text) → All (λ c. is_digit c ≡ true) s → Lacks b')' s
digits-Lacks [] h = tt
digits-Lacks (c ∷ s) (hc, hs) = (ground arith, digits-Lacks s hs)

Lacks-append : (c : ℕ) (s t : Text) → Lacks c s → Lacks c t → Lacks c (s ++ t)
Lacks-append c [] t hs ht = ht
Lacks-append c (x ∷ s) t (hx, hs) ht = (hx, Lacks-append c s t hs ht)

-- What the kernel writes: the number, the command in parentheses, the state, the number of the
-- parent, and more fields.
abbrev pub stat_line : ℕ → Text → Text → ℕ → Text → Text
stat_line pid comm state ppid more =
    digits pid
    ++ codes " ("
    ++ comm
    ++ (b')' ∷ b' ' ∷ state ++ (b' ' ∷ digits ppid ++ (b' ' ∷ more)))

-- Whatever a process is called, also with parentheses or spaces in its name, it is taken for a
-- kernel thread exactly when its parent, a number below 2^64, is process 2; the state is a word
-- and, like the fields behind the parent, has no closing parenthesis.
pub is_kernel_stat-stat_line :
    (pid : ℕ) (comm state : Text) (ppid : ℕ) (more : Text)
    → IsWord state
    → Lacks b')' state
    → Lacks b')' more
    → ppid < u64_mod
    → is_kernel_stat (stat_line pid comm state ppid more) ≡ (ppid == 2)
unfolding is_kernel_stat
is_kernel_stat-stat_line pid comm state ppid more word s m h =
    let rest = state ++ (b' ' ∷ digits ppid ++ (b' ' ∷ more)) in
    let numeral : Lacks b')' (digits ppid) = digits-Lacks (digits ppid) (digits-IsDigit ppid) in
    let last : after_last b')' (stat_line pid comm state ppid more) ≡ some (b' ' ∷ rest) =
      after_last-append b')' (digits pid ++ codes " (" ++ comm) (b' ' ∷ rest) (
        refl,
        Lacks-append b')' state _ s (refl, Lacks-append b')' (digits ppid) _ numeral (refl, m)),
      ) in
    let front : trim_start (b' ' ∷ rest) ≡ rest =
      trim_start-space rest ∙ trim_start-word state _ word in
    let fields : words rest ≡ state ∷ digits ppid ∷ words more =
      words-word state _ b' ' word refl
      ∙ ap (λ ws. state ∷ ws) (words-word (digits ppid) more b' ' (digits-IsWord ppid) refl) in
    rw last (rw front (rw fields (rw (parse_u64-digits ppid h) refl)))
