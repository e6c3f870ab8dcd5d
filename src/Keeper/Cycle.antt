-- ===== src/Keeper/Cycle.antt =====
-- `cycle_provider`, `_status_age_s` and `cycle` of wallet_keeper.py.
use unhardcoded.Prelude.{
  ℕ, ◌+◌, ◌-◌, String, Bool, true, false, Option, none, some, List, [], ◌∷◌, if◌then◌else◌, ltb,
}
use unhardcoded.Exec.{
  Exn, cancelled, died, Exit, returned, raised, M, pure, raise, gets, ◌>>=◌, ◌>>◌,
}
use unhardcoded.Store.{Environment, BuyerStatus, buyer_status}
use unhardcoded.Knobs.{Knobs, KnobError, KnobResult, knobs, knob_error, load_knobs}
use unhardcoded.Keeper.{Decision}
use unhardcoded.Keeper.Settle.{reconcile_orphans, settle_topups}
use unhardcoded.Keeper.Reclaim.{maybe_reclaim}
use unhardcoded.Keeper.Topup.{maybe_topup}

-- STATUS_MAX_AGE_S and CLOCK_SKEW_ALLOWANCE_S, in milliseconds.
abbrev pub status_max_age_ms : ℕ
status_max_age_ms = 900_000

abbrev pub clock_skew_allowance_ms : ℕ
clock_skew_allowance_ms = 120_000

-- The dict that `cycle_provider` returns, by its `decision`.
pub data Report : Type 0 where
  status_unreadable : Report
  status_stale : Option ℕ → Report
  acted : ℕ → Option ℕ → Decision → Decision → Report

-- `_status_age_s`, in milliseconds.
unfoldable pub status_age_ms : ℕ → Option BuyerStatus → Option ℕ
status_age_ms now_ms none = none
status_age_ms now_ms (some status) = elim status.fetched_at [
  | none ↦ none
  | some raw ↦ if ltb (now_ms + clock_skew_allowance_ms) raw then none else some (now_ms - raw)
]

abbrev pub deposits_available_of : Option BuyerStatus → Option ℕ
deposits_available_of none = none
deposits_available_of (some s) = s.deposits_available

abbrev pub deposits_reserved_of : Option BuyerStatus → Option ℕ
deposits_reserved_of none = none
deposits_reserved_of (some s) = s.deposits_reserved

abbrev pub is_too_old : Option ℕ → Bool
is_too_old none = true
is_too_old (some age) = ltb status_max_age_ms age

-- `halted if halted else await self._maybe_topup(…)`, and the report.
unfoldable pub finish_cycle :
    Environment → Knobs → String → ℕ → Option ℕ → Decision → Option Decision → M Report
finish_cycle env k pid available reserved reclaim (some d) =
    pure (acted available reserved reclaim d)
finish_cycle env k pid available reserved reclaim none = do
  topup ← maybe_topup env pid k available reserved
  pure (acted available reserved reclaim topup)

-- A cycle on readings that can be acted on.
unfoldable pub act : Environment → Knobs → String → ℕ → Option ℕ → M Report
act env k pid available reserved = do
  reconcile_orphans pid
  stopped ← settle_topups env pid available reserved
  reclaim ← maybe_reclaim env pid k available reserved
  finish_cycle env k pid available reserved reclaim stopped

-- The guards on the status row: no balance, and no fresh stamp.
unfoldable pub on_status : Environment → Knobs → String → Option BuyerStatus → Option ℕ → M Report
on_status env k pid status none = pure status_unreadable
on_status env k pid status (some available) = do
  age ← gets (λ c. status_age_ms c.clock_ms status)
  if is_too_old age
      then pure (status_stale age)
      else act env k pid available (deposits_reserved_of status)

unfoldable pub cycle_provider : Environment → Knobs → String → M Report
cycle_provider env k pid = do
  status ← buyer_status env pid
  on_status env k pid status (deposits_available_of status)

-- What KEEPER_STATE holds of a provider: its report, or the exception that its cycle raised.
pub data ProviderState : Type 0 where
  report : Report → ProviderState
  cycle_error : Exn → ProviderState

pub data StandDown : Type 0 where
  inconsistent : KnobError → StandDown
  knobs_unreadable control_not_configured : StandDown

-- KEEPER_STATE, less its stamp.
pub record KeeperState : Type 0 where
  pub enabled : Bool
  pub providers : List (String × ProviderState)
  pub error : Option StandDown

-- The `try` of the loop over the providers: a cancellation and the end of the process go on.
unfoldable pub isolate : Exit Report → M ProviderState
isolate (returned r) = pure (report r)
isolate (raised cancelled) = raise cancelled
isolate (raised died) = raise died
isolate (raised e) = pure (cycle_error e)

unfoldable pub guarded_cycle : Environment → Knobs → String → M ProviderState
guarded_cycle env k pid w = let (r, w') = cycle_provider env k pid w in isolate r w'

unfoldable pub cycle_all : Environment → Knobs → List String → M (List (String × ProviderState))
cycle_all env k [] = pure []
cycle_all env k (pid ∷ pids) = do
  s ← guarded_cycle env k pid
  rest ← cycle_all env k pids
  pure ((pid, s) ∷ rest)

abbrev stood_down : Bool → Option StandDown → KeeperState
stood_down enabled error = record { enabled = enabled; providers = []; error = error }

-- A cycle under knobs that were read and are consistent.
unfoldable pub cycle_with : Environment → Knobs → List String → M KeeperState
cycle_with env k pids =
    if k.enabled
    then if env.control_configured
      then (do
        providers ← cycle_all env k pids
        pure (record { enabled = true; providers = providers; error = none }))
      else pure (stood_down true (some control_not_configured))
    else pure (stood_down false none)

-- One pass over the providers. `settings` is what the knobs read, `none` if reading them raised.
unfoldable pub cycle_on : Environment → List String → KnobResult → M KeeperState
cycle_on env pids (knob_error e) = pure (stood_down false (some (inconsistent e)))
cycle_on env pids (knobs k) = cycle_with env k pids

unfoldable pub cycle : Environment → Option Knobs → List String → M KeeperState
cycle env none pids = pure (stood_down false (some knobs_unreadable))
cycle env (some settings) pids = cycle_on env pids (load_knobs settings)
