-- ===== src/Proxy/Capacity/Bounds.antt =====
-- What holds of the upstream section at every moment.
use unhardcoded.Prelude.{◌+◌, ◌≤◌, ◌≡◌, ◌⊎◌, arith}
use unhardcoded.Proxy.Capacity.{
  Limits, Section, opened, is_locked, hand_over, wake_all, arrive, resume, time_out, time_out_woken,
  release, Step, Reachable, arrives, resumes, times_out, times_out_woken, releases, at_start,
  by_step,
}

-- Every permit is free, with an active call or on its way to a woken one; the pending calls are those
-- that wait and those that are woken; a permit is free beside a waiter only until a woken call runs.
abbrev pub IsSound : Limits → Section → Type 0
IsSound l s =
    (s.active + s.woken + s.free ≡ l.max_inflight)
    × (s.pending ≡ s.waiting + s.woken)
    × (s.pending ≤ l.max_pending)
    × ((s.free ≡ 0) ⊎ ((s.waiting ≡ 0) ⊎ (1 ≤ s.woken)))

Step-IsSound : (l : Limits) {s t : Section} → Step l s t → IsSound l s → IsSound l t
unfolding arrive is_locked resume time_out time_out_woken release hand_over wake_all
Step-IsSound l (arrives s) h = grind arith
Step-IsSound l (resumes s p) h = grind arith
Step-IsSound l (times_out s p) h = grind arith
Step-IsSound l (times_out_woken s p) h = grind arith
Step-IsSound l (releases s p) h = grind arith

-- At every moment of every schedule of arrivals, wakes, time-outs and releases: active calls and
-- permits on their way to a woken call are together at most MAX_INFLIGHT_REQUESTS, at most
-- MAX_PENDING_REQUESTS calls wait, the counters are exact (each permit is free, active or on its way,
-- each pending call waits or is woken), and a permit is free beside a waiting call only while a
-- woken call, which will wake that one, has yet to run.
pub Reachable-IsSound : (l : Limits) {s : Section} → Reachable l s → IsSound l s
unfolding opened
Reachable-IsSound l at_start = grind arith
Reachable-IsSound l (by_step r step) = Step-IsSound l step (Reachable-IsSound l r)
