-- ===== src/Proxy/Capacity.antt =====
-- The bounded upstream section: `_capacity_acquire` and `_capacity_release` around the semaphore
-- `_capacity`. The event loop runs one of them up to its next await, so a step is the part of a call
-- between two awaits.
pub mod Bounds
use unhardcoded.Prelude.{ℕ, ◌+◌, ◌-◌, ◌≤◌, Bool, ◌||◌, if◌then◌else◌, leb, ◌==◌, min, max, not}

-- MAX_INFLIGHT_REQUESTS, which is not 0, and MAX_PENDING_REQUESTS.
pub record Limits : Type 0 where
  pub max_inflight : ℕ
  pub max_pending : ℕ

-- `_active_requests` and `_pending_requests`; the semaphore's free permits, the calls that wait for
-- one, and the calls that were handed one and have not run again yet.
pub record Section : Type 0 where
  pub active : ℕ
  pub pending : ℕ
  pub free : ℕ
  pub waiting : ℕ
  pub woken : ℕ

unfoldable pub opened : Limits → Section
opened l = record { active = 0; pending = 0; free = l.max_inflight; waiting = 0; woken = 0 }

-- `_capacity.locked()`
unfoldable pub is_locked : Section → Bool
is_locked s = s.free == 0 || not (s.waiting + s.woken == 0)

-- The semaphore's release: the first waiter, if there is one, gets a permit.
unfoldable pub hand_over : Section → Section
hand_over s =
    if s.waiting == 0
    then record s { free = s.free + 1 }
    else record s { waiting = s.waiting - 1; woken = s.woken + 1 }

-- A call that leaves the queue wakes as many waiters as there are free permits.
unfoldable pub wake_all : Section → Section
wake_all s =
    let k = min s.free s.waiting in
    record s { free = s.free - k; waiting = s.waiting - k; woken = s.woken + k }

-- How `_capacity_acquire` goes on from its first await.
pub data Arrival : Type 0 where
  entered queued shed : Arrival

unfoldable pub arrive : Limits → Section → Arrival × Section
arrive l s =
    if is_locked s
    then if leb l.max_pending s.pending
      then (shed, s)
      else (queued, record s { pending = s.pending + 1; waiting = s.waiting + 1 })
    else (entered, record s { free = s.free - 1; active = s.active + 1 })

-- A call that was handed a permit runs again.
unfoldable pub resume : Section → Section
resume s =
    let left = wake_all (record s { woken = s.woken - 1 }) in
    record left { pending = max 0 (left.pending - 1); active = left.active + 1 }

-- CAPACITY_QUEUE_TIMEOUT_S ends a wait.
unfoldable pub time_out : Section → Section
time_out s =
    let left = wake_all (record s { waiting = s.waiting - 1 }) in
    record left { pending = max 0 (left.pending - 1) }

-- It ends a wait that was just handed a permit, which is free again.
unfoldable pub time_out_woken : Section → Section
time_out_woken s =
    let left = wake_all (record s { woken = s.woken - 1; free = s.free + 1 }) in
    record left { pending = max 0 (left.pending - 1) }

-- `_capacity_release`
unfoldable pub release : Section → Section
release s = hand_over (record s { active = max 0 (s.active - 1) })

-- The steps of the event loop. A call releases once, after it entered.
pub data Step (l : Limits) : Section → Section → Type 0 where
  arrives : (s : Section) → Step l s (arrive l s).1
  resumes : (s : Section) → 1 ≤ s.woken → Step l s (resume s)
  times_out : (s : Section) → 1 ≤ s.waiting → Step l s (time_out s)
  times_out_woken : (s : Section) → 1 ≤ s.woken → Step l s (time_out_woken s)
  releases : (s : Section) → 1 ≤ s.active → Step l s (release s)

pub data Reachable (l : Limits) : Section → Type 0 where
  at_start : Reachable l (opened l)
  by_step : {s t : Section} → Reachable l s → Step l s t → Reachable l t
