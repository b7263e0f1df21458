-- ===== src/Pipeline/Log.antt =====
-- The `FailureLog` of pipeline.rs: at most `max_stored_failures` failures are kept.
use cursedelete.Base.{
  ℕ, zero, suc, ◌+◌, ◌-◌, ◌≤◌, ◌<◌, ◌≡◌, refl, ap, ◌∙◌, Bool, true, false, ◌||◌, List, [], ◌∷◌,
  ◌++◌, arith, ltb, if◌then◌else◌, dec_lt, dec_lt, length, length-append,
}
use mathlib.Core.List.{append-nil, append_assoc}
use cursedelete.Failure.{DeleteFailure}

abbrev pub max_stored_failures : ℕ
max_stored_failures = 10_000

-- The oldest failure first.
pub record FailureLog : Type 0 where
  pub failures : List DeleteFailure
  pub truncated : Bool

abbrev pub empty_log : FailureLog
empty_log = record { failures = []; truncated = false }

unfoldable pub push_at : ℕ → DeleteFailure → FailureLog → FailureLog
push_at limit f l =
    if ltb (length l.failures) limit
    then record l { failures = l.failures ++ (f ∷ []) }
    else record l { truncated = true }

unfoldable pub push : DeleteFailure → FailureLog → FailureLog
unfolding push_at
push f l = push_at max_stored_failures f l

-- The failures of a run, one after the other.
unfoldable pub push_all_at : ℕ → List DeleteFailure → FailureLog → FailureLog
push_all_at limit [] l = l
push_all_at limit (f ∷ fs) l = push_all_at limit fs (push_at limit f l)

unfoldable pub push_all : List DeleteFailure → FailureLog → FailureLog
push_all [] l = l
push_all (f ∷ fs) l = push_all fs (push f l)

unfoldable pub take : ℕ → List DeleteFailure → List DeleteFailure
take zero fs = []
take (suc n) [] = []
take (suc n) (f ∷ fs) = f ∷ take n fs

take-cons :
    (k : ℕ) (f : DeleteFailure) (fs : List DeleteFailure)
    → 0 < k
    → take k (f ∷ fs) ≡ f ∷ take (k - 1) fs
unfolding take
take-cons zero f fs h = absurd (omega arith)
take-cons (suc k) f fs h = ap (λ n. f ∷ take n fs) (omega arith)

take-nil : (k : ℕ) → take k [] ≡ []
unfolding take
take-nil zero = refl
take-nil (suc k) = refl

push_at_room :
    (limit : ℕ) (f : DeleteFailure) (l : FailureLog)
    → length l.failures < limit
    → push_at limit f l ≡ record l { failures = l.failures ++ (f ∷ []) }
unfolding push_at
push_at_room limit f l h = ground arith

push_at_full :
    (limit : ℕ) (f : DeleteFailure) (l : FailureLog)
    → length l.failures ≡ limit
    → push_at limit f l ≡ record l { truncated = true }
unfolding push_at
push_at_full limit f l h = ground arith

push_all_at-cons :
    (limit : ℕ) (f : DeleteFailure) (fs : List DeleteFailure) (l : FailureLog)
    → push_all_at limit (f ∷ fs) l ≡ push_all_at limit fs (push_at limit f l)
unfolding push_all_at
push_all_at-cons limit f fs l = refl

abbrev Keeps : ℕ → List DeleteFailure → FailureLog → Type 0
Keeps limit fs l =
    ((push_all_at limit fs l).failures ≡ l.failures ++ take (limit - length l.failures) fs)
    × ((push_all_at limit fs l).truncated
        ≡ (l.truncated || ltb limit (length l.failures + length fs)))

stored-Keeps :
    (limit : ℕ) (f : DeleteFailure) (fs : List DeleteFailure) (l : FailureLog)
    → length l.failures < limit
    → Keeps limit fs (record l { failures = l.failures ++ (f ∷ []) })
    → Keeps limit (f ∷ fs) l
stored-Keeps limit f fs l room (kept, flag) =
    let len = length-append l.failures (f ∷ []) in
    let same : limit - length (l.failures ++ (f ∷ [])) ≡ limit - length l.failures - 1 =
      omega (arith, len) in
    let one = take-cons (limit - length l.failures) f fs (omega arith) in
    rw (push_all_at-cons, push_at_room limit f l room)
      (rw (one, ← same) (kept ∙ append_assoc l.failures (f ∷ []) _), ground (arith, len, flag))

dropped-Keeps :
    (limit : ℕ) (f : DeleteFailure) (fs : List DeleteFailure) (l : FailureLog)
    → length l.failures ≡ limit
    → Keeps limit fs (record l { truncated = true })
    → Keeps limit (f ∷ fs) l
unfolding take
dropped-Keeps limit f fs l full (kept, flag) =
    let nothing : limit - length l.failures ≡ 0 = omega arith in
    rw (push_all_at-cons, push_at_full limit f l full)
      ((rw nothing at kept) ∙ (rw nothing), ground (arith, flag))

push_all_at-Keeps :
    (limit : ℕ) (fs : List DeleteFailure) (l : FailureLog)
    → length l.failures ≤ limit
    → Keeps limit fs l
push_all_at-Keeps limit [] l h = unfold push_all_at in (rw (take-nil, append-nil), ground arith)
push_all_at-Keeps limit (f ∷ fs) l h = elim (dec_lt (length l.failures) limit) [
  | yes room ↦
      stored-Keeps limit f fs l room
        (push_all_at-Keeps limit fs _ (omega (arith, length-append l.failures (f ∷ []))))
  | no full ↦ dropped-Keeps limit f fs l (omega arith) (push_all_at-Keeps limit fs _ h)
]

push_all_at-empty_log :
    (limit : ℕ) (fs : List DeleteFailure)
    → ((push_all_at limit fs empty_log).failures ≡ take limit fs)
      × ((push_all_at limit fs empty_log).truncated ≡ ltb limit (length fs))
push_all_at-empty_log limit fs =
    let (kept, flag) = push_all_at-Keeps limit fs empty_log (omega arith) in
    (kept ∙ ap (λ n. take n fs) (omega arith), ground (arith, flag))

push_all-eq :
    (fs : List DeleteFailure) (l : FailureLog)
    → push_all fs l ≡ push_all_at max_stored_failures fs l
unfolding push_all push_all_at push
push_all-eq [] l = refl
push_all-eq (f ∷ fs) l = push_all-eq fs (push_at max_stored_failures f l)

-- After any sequence of failures the log holds the first ten thousand of them, in order, and the
-- flag says exactly whether any is missing.
pub push_all-empty_log :
    (fs : List DeleteFailure)
    → ((push_all fs empty_log).failures ≡ take max_stored_failures fs)
      × ((push_all fs empty_log).truncated ≡ ltb max_stored_failures (length fs))
push_all-empty_log fs = rw push_all-eq (push_all_at-empty_log max_stored_failures fs)
