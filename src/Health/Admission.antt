-- ===== src/Health/Admission.antt =====
-- From the observations of a route and of its peer to the admission of a market row.
use unhardcoded.Prelude.{
  ℕ, ◌+◌, ◌≤◌, ◌<◌, ◌≡◌, ◌∙◌, ap, String, Bool, false, Option, none, some, List, [], ◌∷◌, arith,
  length, subst,
}
use unhardcoded.Health.{
  Observation, HealthState, MarketRow, kind_of, fold_health_rows, get, cooldown_base,
  cooldown_until, cooldown_of, route_health_tier, is_cooling_down, admit,
}
use unhardcoded.Health.Fold.{rows_of, reported, get-fold_health_rows}
use unhardcoded.Health.Summary.{failures, summary, failed_at, failed_kind}
use unhardcoded.Health.Cooldown.{cooldown_until-bounds}

module _ (peer : Bool) (pid key : String) (rows : List Observation) where
  abbrev pub health_of : Option HealthState
  health_of = get key (fold_health_rows rows pid peer)

  abbrev pub blamed : List Observation
  blamed = failures peer (rows_of peer pid key rows)

-- The tier and the cooldown of a summary.
idle :
    (peer : Bool) (s : HealthState)
    → s.consecutive_failures ≡ 0
    → (cooldown_until peer (reported s) ≡ 0) × (route_health_tier (reported s) ≤ 1)
unfolding cooldown_until cooldown_of route_health_tier
idle peer s e = ground arith

held : (peer : Bool) (s : HealthState) → 1 ≤ s.consecutive_failures → reported s ≡ some s
held peer s h = ground arith

-- A route or a peer with no attributable failure since its newest success has no cooldown, and its
-- tier is not that of a failed one.
pub health_of-idle :
    (peer : Bool) (pid key : String) (rows : List Observation)
    → blamed peer pid key rows ≡ []
    → (cooldown_until peer (health_of peer pid key rows) ≡ 0)
      × (route_health_tier (health_of peer pid key rows) ≤ 1)
health_of-idle peer pid key rows e =
    rw (get-fold_health_rows peer pid key rows)
      (idle peer (summary peer (rows_of peer pid key rows)) (ap length e))

module _ (pid key : String) (rows failed : List Observation) (r : Observation)
    (e : blamed false pid key rows ≡ r ∷ failed) where
  abbrev own : HealthState
  own = summary false (rows_of false pid key rows)

  some_failed : 1 ≤ own.consecutive_failures
  some_failed = let n : own.consecutive_failures ≡ length (r ∷ failed) = ap length e in omega arith

  shown_own : health_of false pid key rows ≡ some own
  shown_own = get-fold_health_rows false pid key rows ∙ held false own some_failed

  waits_for :
      r.ts + cooldown_base false (kind_of r) ≤ cooldown_until false (health_of false pid key rows)
  waits_for = rw shown_own (
      subst (λ k. r.ts + cooldown_base false k ≤ cooldown_until false (some own)) (ap failed_kind e)
        (cooldown_until-bounds false own r.ts (ap failed_at e) some_failed).0)

refused :
    (now_ms : ℕ) (health peer_health : Option HealthState) (row : MarketRow)
    → now_ms < cooldown_until false health
    → admit now_ms health peer_health row ≡ none
unfolding admit is_cooling_down
refused now health peer_health row h = ground arith

-- A market row whose route's newest attributable failure is so recent that the base of its
-- cooldown has not passed is not admitted, whatever its peer's health.
pub admit-held_back :
    (pid key : String) (rows failed : List Observation) (r : Observation) (now_ms : ℕ)
    (peer_health : Option HealthState) (row : MarketRow)
    → blamed false pid key rows ≡ r ∷ failed
    → now_ms < r.ts + cooldown_base false (kind_of r)
    → admit now_ms (health_of false pid key rows) peer_health row ≡ none
admit-held_back pid key rows failed r now peer_health row e h =
    let w = waits_for pid key rows failed r e in
    refused now (health_of false pid key rows) peer_health row (omega arith)
