-- ===== src/Semaphore/Laws.antt =====
-- Histories of the semaphore: who holds a permit, and how many may.
use cursedelete.Base.{ℕ, suc, ◌≤◌, ◌<◌, max, ◌≡◌, ◌≢◌, none, some, arith, u64_mod}
use cursedelete.Semaphore.{Semaphore, new, try_acquire, release, set_capacity}

-- What the calls so far lead to: how many callers hold a permit, and the largest capacity that
-- was ever set. A caller releases only a permit that it holds.
pub data Reach : ℕ → ℕ → Semaphore → Type 0 where
  start : (n : ℕ) → n < u64_mod → Reach 0 (max n 1) (new n)
  acquires :
      {holders peak : ℕ} {s t : Semaphore}
      → Reach holders peak s
      → try_acquire s ≡ some t
      → Reach (suc holders) peak t
  releases :
      {holders peak : ℕ} {s : Semaphore}
      → Reach (suc holders) peak s
      → Reach holders peak (release s)
  resizes :
      {holders peak : ℕ} {s : Semaphore} (n : ℕ)
      → Reach holders peak s
      → n < u64_mod
      → Reach holders (max peak n) (set_capacity n s)

-- `granted` counts the holders, who are never more than the largest capacity there was; the
-- capacity is at least one.
pub record IsSound (holders peak : ℕ) (s : Semaphore) : Type 0 where
  pub exact : s.granted ≡ holders
  pub held : holders ≤ peak
  pub live : 1 ≤ s.capacity
  pub within : s.capacity ≤ peak
  pub no_wrap : peak < u64_mod

-- After every history `granted` is exactly the number of permits held, which is never more than the
-- largest capacity there was, and the capacity is at least one: no permit is lost or made up.
pub Reach-IsSound :
    {holders peak : ℕ} {s : Semaphore} → Reach holders peak s → IsSound holders peak s
unfolding new try_acquire release set_capacity
Reach-IsSound (start n h) = ground arith
Reach-IsSound (acquires r e) = ground (arith, Reach-IsSound r)
Reach-IsSound (releases r) = ground (arith, Reach-IsSound r)
Reach-IsSound (resizes n r h) = ground (arith, Reach-IsSound r)

-- A caller that gets a permit is counted, and the permits held are then within the capacity in
-- force; a caller that has to wait finds at least as many permits held as that capacity.
Reach-try_acquire :
    {holders peak : ℕ} {s : Semaphore}
    → Reach holders peak s
    → ((t : Semaphore)
        → try_acquire s ≡ some t
        → (t.granted ≡ suc holders) × (suc holders ≤ s.capacity))
      × (try_acquire s ≡ none → s.capacity ≤ holders)
unfolding try_acquire
Reach-try_acquire r = (λ t e. ground (arith, Reach-IsSound r), λ e. ground (arith, Reach-IsSound r))

-- When nobody holds a permit, the next caller gets one at once.
pub Reach-idle : {peak : ℕ} {s : Semaphore} → Reach 0 peak s → try_acquire s ≢ none
unfolding try_acquire
Reach-idle r e = ground (arith, Reach-IsSound r)
