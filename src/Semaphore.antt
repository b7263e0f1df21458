-- ===== src/Semaphore.antt =====
-- crates/cursdel-core/src/sync.rs: the counting semaphore whose capacity can change. Each method
-- holds the mutex throughout, so a history is a sequence of whole calls.
pub mod Laws
use cursedelete.Base.{ℕ, ◌-◌, max, Option, none, some, leb, if◌then◌else◌, add64}

pub record Semaphore : Type 0 where
  pub granted : ℕ
  pub capacity : ℕ

unfoldable pub new : ℕ → Semaphore
new initial_capacity = record { granted = 0; capacity = max initial_capacity 1 }

-- One pass of the wait loop: `none` while the caller has to wait on the condition variable.
unfoldable pub try_acquire : Semaphore → Option Semaphore
try_acquire s =
    if leb s.capacity s.granted then none else some (record s { granted = add64 s.granted 1 })

unfoldable pub release : Semaphore → Semaphore
release s = record s { granted = s.granted - 1 }

unfoldable pub set_capacity : ℕ → Semaphore → Semaphore
set_capacity n s = record s { capacity = max n 1 }
