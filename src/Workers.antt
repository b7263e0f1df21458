-- ===== src/Workers.antt =====
-- How many workers: `WorkerPolicy` of crates/cursdel-core/src/options.rs, and what `run` of
-- crates/cursdel-core/src/pipeline.rs makes of it.
use cursedelete.Base.{
  lowered, ℕ, ◌*◌, ◌%◌, ◌≤◌, ◌<◌, max, ◌≡◌, refl, inl, inr, Bool, true, false, Option, none, some,
  List, [], ◌∷◌, arith, ltb, ◌==◌, if◌then◌else◌, Option-cases, is_empty, All, Text, codes, text_eq,
  u64_mod, Result, ok, err,
}
use cursedelete.Base.Decimal
use cursedelete.Base.Decimal.{digits, parse_u64, parse_u64-digits, parse_u64-lt}
use cursedelete.Options.{WorkerPolicy, auto, fixed}
use cursedelete.Metrics.{WindowStats}
use cursedelete.Adaptive
use cursedelete.Adaptive.{Floats, AdaptiveController, run_samples}
use cursedelete.Adaptive.Bounds.{new-IsBounded, run_samples-IsBounded}

pub data PolicyError : Type 0 where
  zero_workers : PolicyError
  not_a_policy : Text → PolicyError

abbrev pub policy_of : Text → Option ℕ → Result WorkerPolicy PolicyError
policy_of s none = err (not_a_policy s)
policy_of s (some n) = if n == 0 then err zero_workers else ok (fixed n)

-- `WorkerPolicy::from_str`
unfoldable pub parse_policy : Text → Result WorkerPolicy PolicyError
parse_policy s = if text_eq (lowered s) (codes "auto") then ok auto else policy_of s (parse_u64 s)

-- `Display for WorkerPolicy`
abbrev pub display_policy : WorkerPolicy → Text
display_policy auto = codes "auto"
display_policy (fixed n) = digits n

abbrev pub ceiling_limit : ℕ
ceiling_limit = 256

abbrev pub per_cpu : ℕ
per_cpu = 16

-- `Ord::clamp`
abbrev clamped : ℕ → ℕ → ℕ → ℕ
clamped x low high = if ltb x low then low else if ltb high x then high else x

pub record Workers : Type 0 where
  pub worker_min : ℕ
  pub worker_max : ℕ  -- so many file workers are spawned
  pub worker_initial : ℕ

-- How `run` reads the policy, on a machine with so many processors.
unfoldable pub workers_of : ℕ → WorkerPolicy → Workers
workers_of cpus (fixed n) = record {
  worker_min = max n 1;
  worker_max = max n 1;
  worker_initial = max n 1;
}
workers_of cpus auto =
    let cpu = max cpus 1 in
    record {
      worker_min = 1;
      worker_max = clamped ((cpu * per_cpu) % u64_mod) 32 ceiling_limit;
      worker_initial = clamped cpu 4 16;
    }

-- A policy that can be parsed: no worker count is zero, and none is larger than a `usize`.
abbrev pub IsPolicy : WorkerPolicy → Type 0
IsPolicy auto = Unit
IsPolicy (fixed n) = (0 < n) × (n < u64_mod)

abbrev starts_below_a : Text → Bool
starts_below_a [] = false
starts_below_a (c ∷ s) = ltb c b'A'

lowered_digits : (s : Text) → starts_below_a s ≡ true → text_eq (lowered s) (codes "auto") ≡ false
unfolding text_eq
lowered_digits [] h = cc
lowered_digits (c ∷ s) h = ground arith

digits_below_a : (s : Text) → All Decimal.IsDigit s → is_empty s ≡ false → starts_below_a s ≡ true
digits_below_a [] d e = cc
digits_below_a (c ∷ s) (d, ds) e = ground arith

-- A policy that is printed reads back as that policy.
pub parse_policy-display_policy :
    (p : WorkerPolicy) → IsPolicy p → parse_policy (display_policy p) ≡ ok p
unfolding parse_policy text_eq
parse_policy-display_policy auto h = refl
parse_policy-display_policy (fixed n) (pos, small) =
    let named =
      lowered_digits (digits n)
        (digits_below_a (digits n) (Decimal.digits-IsDigit n) (Decimal.is_empty-digits n)) in
    ground (arith, named, parse_u64-digits n small)

-- Every policy that is read has at least one worker.
pub parse_policy-IsPolicy : (s : Text) (p : WorkerPolicy) → parse_policy s ≡ ok p → IsPolicy p
unfolding parse_policy
parse_policy-IsPolicy s auto h = tt
parse_policy-IsPolicy s (fixed n) h = elim (Option-cases (parse_u64 s)) [
  | inl e ↦ absurd (ground arith)
  | inr (m, e) ↦ ground (arith, parse_u64-lt s m e)
]

-- The bounds that the controller is built with.
pub record InOrder (w : Workers) : Type 0 where
  pub some_worker : 1 ≤ w.worker_min
  pub min_initial : w.worker_min ≤ w.worker_initial
  pub initial_max : w.worker_initial ≤ w.worker_max

-- On every machine the counts that `run` derives from a policy are in order; those of the policy
-- `auto` are at most 256, and start at 4 to 16.
pub workers_of-InOrder :
    (cpus : ℕ) (p : WorkerPolicy)
    → InOrder (workers_of cpus p)
      × (p ≡ auto
          → ((workers_of cpus p).worker_max ≤ ceiling_limit)
            × (4 ≤ (workers_of cpus p).worker_initial)
            × ((workers_of cpus p).worker_initial ≤ 16))
unfolding workers_of
workers_of-InOrder cpus auto = ground arith
workers_of-InOrder cpus (fixed n) = ground arith

module _ (Φ : Floats) where
  -- The controller that `run` builds for the policy `auto`.
  abbrev pub controller_of : Workers → AdaptiveController Φ
  controller_of w = Adaptive.new Φ w.worker_min w.worker_max w.worker_initial

  -- Under the policy `auto`, after any samples on any machine, the controller asks for at least
  -- one worker and at most as many as were spawned.
  auto_workers_suffice :
      (cpus : ℕ) (ws : List WindowStats)
      → let w = workers_of cpus auto in
        let n = (run_samples Φ (controller_of w) ws).current in (1 ≤ n) × (n ≤ w.worker_max)
  unfolding workers_of Adaptive.new
  auto_workers_suffice cpus ws =
      let w = workers_of cpus auto in
      let c = controller_of w in
      let b =
        new-IsBounded Φ w.worker_min w.worker_max w.worker_initial (omega arith) (ground arith) in
      let (kept, lo, hi) = run_samples-IsBounded Φ c ws b in ground (arith, kept, lo, hi)
