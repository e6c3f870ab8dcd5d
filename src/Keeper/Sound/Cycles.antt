-- ===== src/Keeper/Sound/Cycles.antt =====
-- A whole cycle keeps the safety invariant, whatever the store and the sidecar do.
use unhardcoded.Prelude.{ℕ, ◌≤◌, ◌≡◌, refl, sym, subst, String, Option, none, some, List, [], ◌∷◌}
use unhardcoded.Exec.{
  Core, World, Exit, returned, raised, cancelled, value_error, zero_division, died,
}
use unhardcoded.Exec.Ends.{Ends-pure, Ends-if, Ends-query, Ends-gets-bind}
use unhardcoded.Store.{Environment, BuyerStatus, buyer_status}
use unhardcoded.Knobs.{Knobs, KnobResult, knobs, knob_error, load_knobs}
use unhardcoded.Knobs.Laws.{load_knobs-accepted}
use unhardcoded.Keeper.{Decision}
use unhardcoded.Keeper.Cycle.{
  Report, status_age_ms, is_too_old, finish_cycle, act, on_status, cycle_provider, isolate,
  guarded_cycle, cycle_all, cycle_with, cycle_on, cycle,
}
use unhardcoded.Keeper.Sound.{Limit}
use unhardcoded.Keeper.Sound.Writes.{Sound, Safe, Safe-bind}
use unhardcoded.Keeper.Sound.Settling.{reconcile_orphans-Safe, settle_topups-Safe}
use unhardcoded.Keeper.Sound.Reclaims.{maybe_reclaim-Safe}
use unhardcoded.Keeper.Sound.Topups.{maybe_topup-Safe}

module _ (p : String) (limit : Limit) (env : Environment) (k : Knobs)
    (bound : k.topup_daily_cap_usdc ≤ limit.usdc) where
  finish_cycle-Safe :
      (pid : String) (available : ℕ) (reserved : Option ℕ) (d : Decision) (o : Option Decision)
      (c : Core)
      → Sound p limit c
      → Safe p limit (finish_cycle env k pid available reserved d o) c
  unfolding finish_cycle
  finish_cycle-Safe pid available reserved d (some h) c s = Ends-pure _ s
  finish_cycle-Safe pid available reserved d none c s =
      Safe-bind p limit _ _ (maybe_topup-Safe p limit env pid k available reserved (λ _. bound) c s)
        (λ _ c' t. Ends-pure _ t)

  act-Safe :
      (pid : String) (available : ℕ) (reserved : Option ℕ) (c : Core)
      → Sound p limit c
      → Safe p limit (act env k pid available reserved) c
  unfolding act
  act-Safe pid available reserved c s =
      Safe-bind p limit _ _ (reconcile_orphans-Safe p limit pid c s) (λ _ c₁ s₁.
        Safe-bind p limit _ _ (settle_topups-Safe p limit env pid available reserved c₁ s₁)
          (λ o c₂ s₂.
            Safe-bind p limit _ _ (maybe_reclaim-Safe p limit env pid available reserved c₂ s₂ k)
              (λ d c₃ s₃. finish_cycle-Safe pid available reserved d o c₃ s₃)))

  on_status-Safe :
      (pid : String) (status : Option BuyerStatus) (o : Option ℕ) (c : Core)
      → Sound p limit c
      → Safe p limit (on_status env k pid status o) c
  unfolding on_status
  on_status-Safe pid status none c s = Ends-pure _ s
  on_status-Safe pid status (some available) c s = Ends-gets-bind _ _ (
      Ends-if (is_too_old (status_age_ms c.clock_ms status)) _ _ (λ _. Ends-pure _ s)
        (λ _. act-Safe pid available _ c s))

  pub cycle_provider-Safe :
      (pid : String) (c : Core) → Sound p limit c → Safe p limit (cycle_provider env k pid) c
  unfolding cycle_provider buyer_status
  cycle_provider-Safe pid c s =
      Ends-query _ _ _ (on_status-Safe pid _ _ c s) (on_status-Safe pid none none c s) s

  isolate-Sound :
      (r : Exit Report) (w : World) → Sound p limit w.core → Sound p limit (isolate r w).1.core
  unfolding isolate
  isolate-Sound (returned x) w s = s
  isolate-Sound (raised cancelled) w s = s
  isolate-Sound (raised value_error) w s = s
  isolate-Sound (raised zero_division) w s = s
  isolate-Sound (raised died) w s = s

  guarded_cycle-Safe :
      (pid : String) (c : Core) → Sound p limit c → Safe p limit (guarded_cycle env k pid) c
  unfolding guarded_cycle
  guarded_cycle-Safe pid c s = record {
    run = λ fs. isolate-Sound _ _ ((cycle_provider-Safe pid c s).run fs);
  }

  cycle_all-Safe :
      (pids : List String) (c : Core) → Sound p limit c → Safe p limit (cycle_all env k pids) c
  unfolding cycle_all
  cycle_all-Safe [] c s = Ends-pure _ s
  cycle_all-Safe (pid ∷ pids) c s =
      Safe-bind p limit _ _ (guarded_cycle-Safe pid c s)
        (λ _ c₁ s₁. Safe-bind p limit _ _ (cycle_all-Safe pids c₁ s₁) (λ _ c₂ s₂. Ends-pure _ s₂))

  cycle_with-Safe :
      (pids : List String) (c : Core) → Sound p limit c → Safe p limit (cycle_with env k pids) c
  unfolding cycle_with
  cycle_with-Safe pids c s =
      Ends-if k.enabled _ _
        (λ _.
          Ends-if env.control_configured _ _
            (λ _. Safe-bind p limit _ _ (cycle_all-Safe pids c s) (λ _ c' t. Ends-pure _ t))
            (λ _. Ends-pure _ s))
        (λ _. Ends-pure _ s)

-- What bounds the daily cap of settings that may be unreadable.
abbrev pub CapWithin : ℕ → Option Knobs → Type 0
CapWithin limit none = Unit
CapWithin limit (some k) = k.topup_daily_cap_usdc ≤ limit

module _ (p : String) (limit : Limit) (env : Environment) where
  cycle_on-Safe :
      (x : KnobResult) (pids : List String) (c : Core)
      → ((k : Knobs) → x ≡ knobs k → k.topup_daily_cap_usdc ≤ limit.usdc)
      → Sound p limit c
      → Safe p limit (cycle_on env pids x) c
  unfolding cycle_on
  cycle_on-Safe (knob_error e) pids c bound s = Ends-pure _ s
  cycle_on-Safe (knobs k) pids c bound s = cycle_with-Safe p limit env k (bound k refl) pids c s

  pub cycle-Safe :
      (settings : Option Knobs) (pids : List String) (c : Core)
      → CapWithin limit.usdc settings
      → Sound p limit c
      → Safe p limit (cycle env settings pids) c
  unfolding cycle
  cycle-Safe none pids c bound s = Ends-pure _ s
  cycle-Safe (some k) pids c bound s =
      cycle_on-Safe (load_knobs k) pids c
        (λ k' e.
          subst (λ (x : Knobs). x.topup_daily_cap_usdc ≤ limit.usdc)
            (sym (load_knobs-accepted k k' e).0) bound)
        s
