-- ===== src/Adaptive.antt =====
-- crates/cursdel-core/src/adaptive.rs: the hill climber that chooses the number of workers.
-- `f64` is the parameter `Floats`; worker counts are `usize` and wrap.
pub mod Bounds
use cursedelete.Base.{
  ℕ, ◌+◌, ◌-◌, ◌/◌, ◌%◌, min, max, Bool, true, not, ◌&&◌, Option, none, some, List, [], ◌∷◌, ltb,
  leb, ◌==◌, if◌then◌else◌, add64,
}
use cursedelete.Entry.{Duration}
use cursedelete.Metrics.{WindowStats}

-- The operations and literals of `f64` that the controller uses. No law of them is assumed.
pub record Floats : Type 1 where
  pub F : Type 0
  pub of_u64 : ℕ → F
  pub as_secs : Duration → F
  pub fdiv : F → F → F
  pub fsub : F → F → F
  pub fle : F → F → Bool
  pub flt : F → F → Bool
  pub zero_f : F
  pub epsilon : F
  pub improve_threshold : F
  pub minus_improve_threshold : F
  pub error_rate_backoff : F

pub data AdaptiveDecision : Type 0 where
  increase : ℕ → AdaptiveDecision
  decrease : ℕ → AdaptiveDecision
  hold : AdaptiveDecision

pub data Trend : Type 0 where
  growing shrinking : Trend

abbrev pub min_step : ℕ
min_step = 1

abbrev pub reprobe_after_holds : ℕ
reprobe_after_holds = 6

module _ (Φ : Floats) where
  unfoldable pub throughput : WindowStats → Φ.F
  throughput w =
      let secs = Φ.as_secs w.wall_elapsed in
      if Φ.fle secs Φ.zero_f then Φ.zero_f else Φ.fdiv (Φ.of_u64 w.completed) secs

  unfoldable pub error_rate : WindowStats → Φ.F
  error_rate w =
      let total = add64 w.completed w.errors in
      if total == 0 then Φ.zero_f else Φ.fdiv (Φ.of_u64 w.errors) (Φ.of_u64 total)

  pub record AdaptiveController : Type 0 where
    pub lo : ℕ  -- `min`
    pub hi : ℕ  -- `max`
    pub current : ℕ
    pub step : ℕ
    pub trend : Trend
    pub last_throughput : Option Φ.F
    pub holds : ℕ
    pub reprobe_grow_next : Bool

  abbrev pub clamp : ℕ → ℕ → ℕ → ℕ
  clamp x a b = if ltb x a then a else if ltb b x then b else x

  unfoldable pub new : ℕ → ℕ → ℕ → AdaptiveController
  new low high initial =
      let top = max high (max low 1) in
      record {
        lo = max low 1;
        hi = top;
        current = clamp initial (max low 1) top;
        step = max (max (top - low) 4 / 4) min_step;
        trend = growing;
        last_throughput = none;
        holds = 0;
        reprobe_grow_next = true;
      }

  unfoldable pub max_step : AdaptiveController → ℕ
  max_step c = max (max (c.hi - c.lo) 2 / 2) min_step

  unfoldable pub grow_step : AdaptiveController → AdaptiveController
  unfolding max_step
  grow_step c = record c { step = min (max (add64 c.step (c.step / 2)) min_step) (max_step c) }

  unfoldable pub shrink_step : AdaptiveController → AdaptiveController
  shrink_step c = record c { step = max (c.step / 2) min_step }

  unfoldable pub apply_grow : AdaptiveController → Φ.F → AdaptiveController × AdaptiveDecision
  apply_grow c t =
      let c' = record c { last_throughput = some t; trend = growing } in
      let n = min (add64 c.current c.step) c.hi in
      if n == c.current then (c', hold) else (record c' { current = n; holds = 0 }, increase n)

  unfoldable pub apply_shrink : AdaptiveController → Φ.F → AdaptiveController × AdaptiveDecision
  apply_shrink c t =
      let c' = record c { last_throughput = some t; trend = shrinking } in
      let n = max (c.current - c.step) c.lo in
      if n == c.current then (c', hold) else (record c' { current = n; holds = 0 }, decrease n)

  unfoldable pub hold_or_reprobe : AdaptiveController → Φ.F → AdaptiveController × AdaptiveDecision
  unfolding apply_grow apply_shrink
  hold_or_reprobe c t =
      let holds = (c.holds + 1) % 4294967296 in
      let c1 = record c { last_throughput = some t; holds = holds } in
      let c2 = record c1 {
        holds = 0;
        step = max min_step (min c.step 2);
        reprobe_grow_next = not c.reprobe_grow_next;
      } in
      if leb reprobe_after_holds holds
      then (if c.reprobe_grow_next
          then apply_grow (record c2 { trend = growing }) t
          else apply_shrink (record c2 { trend = shrinking }) t)
      else (c1, hold)

  -- The relative change of throughput, zero where the last one was zero.
  unfoldable pub delta : Φ.F → Φ.F → Φ.F
  delta t last = if Φ.flt Φ.epsilon last then Φ.fdiv (Φ.fsub t last) last else Φ.zero_f

  -- The `match self.trend` at the end of `on_sample`.
  unfoldable pub react :
      Trend → Φ.F → AdaptiveController → Φ.F → AdaptiveController × AdaptiveDecision
  react growing d c t =
      if Φ.fle Φ.improve_threshold d
      then apply_grow (grow_step c) t
      else if Φ.fle d Φ.minus_improve_threshold
      then apply_shrink (shrink_step c) t
      else hold_or_reprobe c t
  react shrinking d c t =
      if Φ.fle Φ.improve_threshold d
      then apply_shrink (grow_step c) t
      else if Φ.fle d Φ.minus_improve_threshold
      then apply_grow (shrink_step c) t
      else hold_or_reprobe c t

  -- The part of `on_sample` behind the backoff on errors.
  unfoldable pub climb :
      Option Φ.F → AdaptiveController → Φ.F → AdaptiveController × AdaptiveDecision
  climb none c t = apply_grow (record c { last_throughput = some t }) t
  climb (some last) c t = react c.trend (delta t last) c t

  unfoldable pub on_sample :
      AdaptiveController → WindowStats → AdaptiveController × AdaptiveDecision
  on_sample c w =
      let t = throughput w in
      if w.completed == 0
      then (c, hold)
      else if Φ.flt Φ.error_rate_backoff (error_rate w) && ltb c.lo c.current
      then apply_shrink c t
      else climb c.last_throughput c t

  -- The controller over the windows of a run, oldest first.
  unfoldable pub run_samples : AdaptiveController → List WindowStats → AdaptiveController
  run_samples c [] = c
  run_samples c (w ∷ ws) = run_samples (on_sample c w).0 ws
