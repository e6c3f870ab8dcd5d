-- ===== src/Keeper/Freshness.antt =====
-- A cycle on a status row that nobody updates.
use unhardcoded.Prelude.{
  ℕ, ◌+◌, ◌<◌, ◌≡◌, ◌⊎◌, inl, inr, arith, refl, String, Bool, true, false, Option, none, some,
}
use unhardcoded.Exec.{Exit, returned, Core}
use unhardcoded.Exec.Ends.{Ends, Ends-pure, Ends-if, Ends-gets-bind, Ends-query}
use unhardcoded.Store.{Environment, BuyerStatus, buyer_status}
use unhardcoded.Knobs.{Knobs}
use unhardcoded.Keeper.Cycle.{Report, acted, status_age_ms, is_too_old, on_status, cycle_provider}

-- Did the cycle go on to act?
abbrev pub is_acted : Exit Report → Bool
is_acted (returned (acted available reserved reclaim topup)) = true
is_acted _ = false

-- A status row that is missing, carries no usable stamp, or was fetched more than 15 minutes before
-- the clock or more than 2 minutes after it.
abbrev pub IsUnusable : ℕ → Option BuyerStatus → Type 0
IsUnusable now_ms none = Unit
IsUnusable now_ms (some status) =
    (status.fetched_at ≡ none)
    ⊎ ((raw : ℕ) × (status.fetched_at ≡ some raw)
        × ((raw + 900_000 < now_ms) ⊎ (now_ms + 120_000 < raw)))

unusable-too_old :
    (now_ms : ℕ) (status : Option BuyerStatus)
    → IsUnusable now_ms status
    → is_too_old (status_age_ms now_ms status) ≡ true
unfolding status_age_ms
unusable-too_old now_ms none h = refl
unusable-too_old now_ms (some s) h = elim h [
  | inl e ↦ rw e refl
  | inr (raw, e, bad) ↦ rw e (elim bad [ inl old ↦ ground arith | inr ahead ↦ ground arith ])
]

abbrev pub IsIdle : Core → Exit Report → Core → Type 0
IsIdle c r c' = (is_acted r ≡ false) × (c' ≡ c)

module _ (env : Environment) (k : Knobs) (pid : String) (c : Core) where
  on_status-IsIdle :
      (status : Option BuyerStatus) (available : Option ℕ)
      → is_too_old (status_age_ms c.clock_ms status) ≡ true
      → Ends (on_status env k pid status available) c (IsIdle c)
  unfolding on_status
  on_status-IsIdle status none old = Ends-pure _ (refl, refl)
  on_status-IsIdle status (some available) old = Ends-gets-bind _ _ (
      Ends-if (is_too_old (status_age_ms c.clock_ms status)) _ _ (λ _. Ends-pure _ (refl, refl))
        (λ fresh. absurd cc))

-- A provider's cycle sends nothing and writes nothing when its status row is missing, carries no
-- usable stamp, is older than 900 seconds or is stamped more than 120 seconds ahead of the clock,
-- however the read of the row goes.
pub cycle_provider-IsIdle :
    (env : Environment) (k : Knobs) (pid : String) (c : Core)
    → IsUnusable c.clock_ms (env.status_row c.clock_ms pid)
    → Ends (cycle_provider env k pid) c (IsIdle c)
unfolding cycle_provider buyer_status
cycle_provider-IsIdle env k pid c unusable =
    let old = unusable-too_old c.clock_ms (env.status_row c.clock_ms pid) unusable in
    Ends-query _ _ _ (on_status-IsIdle env k pid c _ _ old)
      (on_status-IsIdle env k pid c none none (unusable-too_old c.clock_ms none tt)) (refl, refl)
