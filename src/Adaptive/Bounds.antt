-- ===== src/Adaptive/Bounds.antt =====
-- The number of workers stays within its limits, whatever the measurements are.
use cursedelete.Base.{
  ℕ, ◌-◌, ◌≤◌, ◌<◌, max, ◌≡◌, refl, ◌∙◌, ◌≢◌, true, Option, none, some, List, [], ◌∷◌, arith,
  i64_limit,
}
use cursedelete.Metrics.{WindowStats}
use cursedelete.Adaptive.{
  Floats, AdaptiveDecision, increase, decrease, hold, Trend, growing, shrinking, throughput,
  error_rate, AdaptiveController, new, max_step, grow_step, shrink_step, apply_grow, apply_shrink,
  hold_or_reprobe, delta, react, climb, on_sample, run_samples,
}

module _ (Φ : Floats) where
  -- The limits lie below 2⁶³, so that no sum of worker counts wraps.
  pub record IsBounded (c : AdaptiveController Φ) : Type 0 where
    pub lo_pos : 1 ≤ c.lo
    pub above_lo : c.lo ≤ c.current
    pub below_hi : c.current ≤ c.hi
    pub no_wrap : c.hi < i64_limit
    pub step_pos : 1 ≤ c.step
    pub step_capped : c.step ≤ max_step Φ c

  -- The decision reports the change that was made to the worker count, and only that.
  abbrev pub Reports : AdaptiveController Φ → AdaptiveController Φ × AdaptiveDecision → Type 0
  Reports c (c', hold) = c'.current ≡ c.current
  Reports c (c', increase n) = (c'.current ≡ n) × (c.current < n)
  Reports c (c', decrease n) = (c'.current ≡ n) × (n < c.current)

  -- Good: bounded again, with the same limits, and honestly reported.
  abbrev pub Good : AdaptiveController Φ → AdaptiveController Φ × AdaptiveDecision → Type 0
  Good c r = IsBounded r.0 × Reports c r × (r.0.lo ≡ c.lo) × (r.0.hi ≡ c.hi)

  -- A new controller is bounded, whatever its limits and its initial count, if the limits are below
  -- 2 ^ 63.
  pub new-IsBounded :
      (low high initial : ℕ)
      → low < i64_limit
      → high < i64_limit
      → IsBounded (new Φ low high initial)
  unfolding new max_step
  new-IsBounded low high initial h k = ground arith

  apply_grow-Good : (c : AdaptiveController Φ) (t : Φ.F) → IsBounded c → Good c (apply_grow Φ c t)
  unfolding apply_grow max_step
  apply_grow-Good c t b = ground arith

  apply_shrink-Good :
      (c : AdaptiveController Φ) (t : Φ.F) → IsBounded c → Good c (apply_shrink Φ c t)
  unfolding apply_shrink max_step
  apply_shrink-Good c t b = ground arith

  grow_step-IsBounded : (c : AdaptiveController Φ) → IsBounded c → IsBounded (grow_step Φ c)
  unfolding grow_step max_step
  grow_step-IsBounded c b = ground arith

  shrink_step-IsBounded : (c : AdaptiveController Φ) → IsBounded c → IsBounded (shrink_step Φ c)
  unfolding shrink_step max_step
  shrink_step-IsBounded c b = ground arith

  hold_or_reprobe-Good :
      (c : AdaptiveController Φ) (t : Φ.F) → IsBounded c → Good c (hold_or_reprobe Φ c t)
  unfolding hold_or_reprobe max_step
  hold_or_reprobe-Good c t b = ground arith

  react-Good :
      (r : Trend) (d : Φ.F) (c : AdaptiveController Φ) (t : Φ.F)
      → IsBounded c
      → Good c (react Φ r d c t)
  unfolding react grow_step shrink_step
  react-Good growing d c t b = ground (
    arith,
    apply_grow-Good (grow_step Φ c) t (grow_step-IsBounded c b),
    apply_shrink-Good (shrink_step Φ c) t (shrink_step-IsBounded c b),
    hold_or_reprobe-Good c t b,
  )
  react-Good shrinking d c t b = ground (
    arith,
    apply_shrink-Good (grow_step Φ c) t (grow_step-IsBounded c b),
    apply_grow-Good (shrink_step Φ c) t (shrink_step-IsBounded c b),
    hold_or_reprobe-Good c t b,
  )

  climb-Good :
      (last : Option Φ.F) (c : AdaptiveController Φ) (t : Φ.F)
      → IsBounded c
      → Good c (climb Φ last c t)
  unfolding climb max_step
  climb-Good none c t b =
      let c1 : AdaptiveController Φ = record c { last_throughput = some t } in
      ground (arith, apply_grow-Good c1 t (ground arith))
  climb-Good (some last) c t b = react-Good c.trend (delta Φ t last) c t b

  -- On a bounded controller every sample, of any throughput and any rate of errors, keeps the
  -- worker count and the step within their limits and leaves these as they are, and the decision it
  -- returns is the change it made.
  pub on_sample-Good :
      (c : AdaptiveController Φ) (w : WindowStats) → IsBounded c → Good c (on_sample Φ c w)
  unfolding on_sample
  on_sample-Good c w b = ground (
    arith,
    apply_shrink-Good c (throughput Φ w) b,
    climb-Good c.last_throughput c (throughput Φ w) b,
  )

  -- After any sequence of samples a bounded controller is bounded, with the same limits.
  pub run_samples-IsBounded :
      (c : AdaptiveController Φ) (ws : List WindowStats)
      → IsBounded c
      → IsBounded (run_samples Φ c ws)
        × ((run_samples Φ c ws).lo ≡ c.lo)
        × ((run_samples Φ c ws).hi ≡ c.hi)
  unfolding run_samples
  run_samples-IsBounded c [] b = (b, refl, refl)
  run_samples-IsBounded c (w ∷ ws) b =
      let (bounded, _, lo_same, hi_same) = on_sample-Good c w b in
      let (final, lo_final, hi_final) = run_samples-IsBounded (on_sample Φ c w).0 ws bounded in
      (final, lo_final ∙ lo_same, hi_final ∙ hi_same)

  -- A window with completions and an error rate over the threshold lowers the worker count by the
  -- step, not below the limit, while it is above the limit; the step itself is kept.
  pub on_sample-backoff :
      (c : AdaptiveController Φ) (w : WindowStats)
      → IsBounded c
      → w.completed ≢ 0
      → Φ.flt Φ.error_rate_backoff (error_rate Φ w) ≡ true
      → c.lo < c.current
      → let r = on_sample Φ c w in
        (r.1 ≡ decrease (max (c.current - c.step) c.lo))
        × (r.0.current ≡ max (c.current - c.step) c.lo)
        × (r.0.step ≡ c.step)
  unfolding on_sample apply_shrink
  on_sample-backoff c w b done over above = ground arith

  -- Windows with completions and too many errors.
  abbrev pub Erring : WindowStats → Type 0
  Erring w = (w.completed ≢ 0) × (Φ.flt Φ.error_rate_backoff (error_rate Φ w) ≡ true)
