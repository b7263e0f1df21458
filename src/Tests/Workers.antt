-- ===== src/Tests/Workers.antt =====
-- The worker controller, the semaphore, the tracker and the exit codes at fixed inputs.
use cursedelete.Base.{◌≤◌, refl, true, none, arith, codes}
use cursedelete.Tests.Worlds.{hundredths}
use cursedelete.Adaptive
use cursedelete.Metrics.{WindowStats}
use cursedelete.Adaptive.{AdaptiveController, new, on_sample, max_step}
use cursedelete.Adaptive.Bounds.{IsBounded, Good, on_sample-Good}
use cursedelete.Semaphore.{Semaphore, try_acquire}
use cursedelete.Semaphore
use cursedelete.Semaphore.Laws.{Reach, start, acquires, resizes, IsSound, Reach-IsSound}
use cursedelete.Tracker.{
  DirectoryTracker, register_directory, mark_enumeration_done_entry, try_finalise,
}
use cursedelete.Tracker
use cursedelete.Tracker.Once.{sent, sent-le-one}
use cursedelete.Tracker.Once

abbrev controller : AdaptiveController hundredths
controller = record {
  lo = 1;
  hi = 64;
  current = 8;
  step = 2;
  trend = Adaptive.growing;
  last_throughput = none;
  holds = 0;
  reprobe_grow_next = true;
}

-- Three errors to seven completions.
abbrev stormy : WindowStats
stormy = record { completed = 7; errors = 3; wall_elapsed = 1_000_000_000 }

controller-IsBounded : IsBounded hundredths controller
unfolding max_step
controller-IsBounded = omega arith

on_sample-Good_example : Good hundredths controller (on_sample hundredths controller stormy)
on_sample-Good_example = on_sample-Good hundredths controller stormy controller-IsBounded

-- One permit of two is taken, and then the capacity shrinks to one.
abbrev shrunk : Semaphore
shrunk = record { granted = 1; capacity = 1 }

shrunk-Reach : Reach 1 2 shrunk
unfolding Semaphore.new Semaphore.try_acquire Semaphore.set_capacity
shrunk-Reach = resizes 1 (acquires (start 2 (omega arith)) refl) (omega arith)

Reach-IsSound_example : IsSound 1 2 shrunk
Reach-IsSound_example = Reach-IsSound shrunk-Reach

-- The root is enumerated, and two threads that saw it ready finalise it.
abbrev raced : DirectoryTracker
raced = try_finalise 0 (
    try_finalise 0
      (mark_enumeration_done_entry 0 (register_directory 0 none (codes "/x") Tracker.new)).0)

raced-Reach : Once.Reach raced
raced-Reach =
    Once.next
      (Once.next
        (Once.next (Once.next Once.start (Once.registers 0 none (codes "/x") refl)) (Once.marks 0))
        (Once.finalises 0))
      (Once.finalises 0)

sent-le-one_example : sent 0 raced.ready ≤ 1
sent-le-one_example = sent-le-one 0 raced-Reach
