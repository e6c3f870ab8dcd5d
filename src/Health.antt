-- ===== src/Health.antt =====
-- The durable health of marketplace routes: `_fold_health_rows` of host_store.py, and the cooldown,
-- the tiers and the choice of sellers of sources/antseed.py.
pub mod Cooldown
pub mod Summary
pub mod Fold
pub mod Sellers
pub mod Admission
use unhardcoded.Prelude.{
  ℕ, ◌+◌, ◌-◌, ◌*◌, ◌^◌, ◌&&◌, String, Bool, true, false, not, Option, none, some, List, [], ◌∷◌,
  if◌then◌else◌, ltb, leb, ◌==◌, str_eq, any, length, min, max,
}
use Prim.Native.String.{◌++◌ as str_append}

-- A row of route_observations: family, served_by, ts, ok, error_kind, http_status.
pub record Observation : Type 0 where
  pub family : String
  pub served_by : String
  pub ts : ℕ
  pub ok : Bool
  pub error_kind : Option String
  pub http_status : Option ℕ

-- The dict that `_fold_health_rows` keeps per identity.
pub record HealthState : Type 0 where
  pub consecutive_failures : ℕ
  pub last_failure_at : Option ℕ
  pub last_success_at : Option ℕ
  pub latest_error_kind : Option String
  pub latest_http_status : Option ℕ
  pub sample_count : ℕ

-- The dict while the rows are folded, with its flag `_ended`.
pub record Tally : Type 0 where
  pub health : HealthState
  pub ended : Bool

-- `kind in kinds`
abbrev pub is_among : Option String → List String → Bool
is_among none kinds = false
is_among (some kind) kinds = any (λ k. str_eq k kind) kinds

-- _ROUTE_HEALTH_NEUTRAL_ERRORS
abbrev pub route_health_neutral_errors : List String
route_health_neutral_errors =
    "bad_request" ∷ "content_filter" ∷ "context_overflow" ∷ "payment_required" ∷ []

-- _PEER_HEALTH_FAILURE_ERRORS
abbrev pub peer_health_failure_errors : List String
peer_health_failure_errors =
    "rate_limit" ∷ "timeout" ∷ "server_error" ∷ "network_error" ∷ "auth_error" ∷ "bad_response"
    ∷ "unknown" ∷ []

-- `str(error_kind) if error_kind else None`
abbrev pub kind_of : Observation → Option String
kind_of row = elim row.error_kind [
  | none ↦ none
  | some kind ↦ if str_eq kind "" then none else some kind
]

unfoldable pub is_attributable : Bool → Observation → Bool
is_attributable true row = is_among (kind_of row) peer_health_failure_errors
is_attributable false row = not (is_among (kind_of row) route_health_neutral_errors)

-- `served_by if peer else f"{provider_id}|{family}|{served_by}"`
unfoldable pub key_of : Bool → String → Observation → String
key_of true provider_id row = row.served_by
key_of false provider_id row =
    str_append provider_id (str_append "|" (str_append row.family (str_append "|" row.served_by)))

abbrev pub fresh_state : Tally
fresh_state = record {
  health = record {
    consecutive_failures = 0;
    last_failure_at = none;
    last_success_at = none;
    latest_error_kind = none;
    latest_http_status = none;
    sample_count = 0;
  };
  ended = false;
}

abbrev pub is_none {ℓ} : {A : Type ℓ} → Option A → Bool
is_none none = true
is_none (some a) = false

-- An attributable failure; the first one of the fold is the latest.
unfoldable pub blame : Observation → HealthState → HealthState
blame row s =
    if is_none s.last_failure_at
    then record s {
      consecutive_failures = s.consecutive_failures + 1;
      last_failure_at = some row.ts;
      latest_error_kind = kind_of row;
      latest_http_status = row.http_status;
    }
    else record s { consecutive_failures = s.consecutive_failures + 1 }

-- The body of the loop over the rows, on the state of the row's key.
unfoldable pub observe : Bool → Observation → Tally → Tally
observe peer row t =
    let s = record t.health { sample_count = t.health.sample_count + 1 } in
    if t.ended
    then record t { health = s }
    else if row.ok
    then record { health = record s { last_success_at = some row.ts }; ended = true }
    else if is_attributable peer row
    then record t { health = blame row s }
    else record t { health = s }

-- `state = out.setdefault(key, {…})`, and the change of the state.
unfoldable pub update : String → (Tally → Tally) → List (String × Tally) → List (String × Tally)
update key f [] = (key, f fresh_state) ∷ []
update key f ((k, t) ∷ out) =
    let rest = update key f out in if str_eq k key then (k, f t) ∷ out else (k, t) ∷ rest

unfoldable pub fold_rows :
    Bool → String → List Observation → List (String × Tally) → List (String × Tally)
fold_rows peer provider_id [] out = out
fold_rows peer provider_id (row ∷ rows) out =
    fold_rows peer provider_id rows (update (key_of peer provider_id row) (observe peer row) out)

-- `not (not state["consecutive_failures"] and state["last_success_at"] is None)`
abbrev pub has_evidence : HealthState → Bool
has_evidence s = not ((s.consecutive_failures == 0) && is_none s.last_success_at)

-- The loop that pops `_ended`, and the states with no evidence.
unfoldable pub evidence : List (String × Tally) → List (String × HealthState)
evidence [] = []
evidence ((k, t) ∷ out) =
    let rest = evidence out in if has_evidence t.health then (k, t.health) ∷ rest else rest

unfoldable pub fold_health_rows : List Observation → String → Bool → List (String × HealthState)
fold_health_rows rows provider_id peer = evidence (fold_rows peer provider_id rows [])

-- `d.get(key)`
abbrev pub get {ℓ} : {A : Type ℓ} → String → List (String × A) → Option A
get key [] = none
get key ((k, a) ∷ d) = let rest = get key d in if str_eq k key then some a else rest

-- ROUTE_COOLDOWN_BASE_MS, …, REACHABILITY_FRESH_MS
abbrev pub route_cooldown_base_ms : ℕ
route_cooldown_base_ms = 900_000

abbrev pub route_cooldown_max_ms : ℕ
route_cooldown_max_ms = 3_600_000

abbrev pub model_unavailable_cooldown_base_ms : ℕ
model_unavailable_cooldown_base_ms = 1_800_000

abbrev pub model_unavailable_cooldown_max_ms : ℕ
model_unavailable_cooldown_max_ms = 21_600_000

abbrev pub peer_cooldown_base_ms : ℕ
peer_cooldown_base_ms = 300_000

abbrev pub peer_rate_limit_cooldown_base_ms : ℕ
peer_rate_limit_cooldown_base_ms = 60_000

abbrev pub peer_cooldown_max_ms : ℕ
peer_cooldown_max_ms = 3_600_000

abbrev pub reachability_fresh_ms : ℕ
reachability_fresh_ms = 900_000

-- `base` and `maximum` of `_cooldown_until`.
abbrev pub cooldown_base : Bool → Option String → ℕ
cooldown_base true kind =
    if is_among kind ("rate_limit" ∷ [])
    then peer_rate_limit_cooldown_base_ms
    else peer_cooldown_base_ms
cooldown_base false kind =
    if is_among kind ("model_unavailable" ∷ [])
    then model_unavailable_cooldown_base_ms
    else route_cooldown_base_ms

abbrev pub cooldown_max : Bool → Option String → ℕ
cooldown_max true kind = peer_cooldown_max_ms
cooldown_max false kind =
    if is_among kind ("model_unavailable" ∷ [])
    then model_unavailable_cooldown_max_ms
    else route_cooldown_max_ms

unfoldable pub cooldown_of : Bool → HealthState → Option ℕ → ℕ
cooldown_of peer s none = 0
cooldown_of peer s (some failed_at) =
    if s.consecutive_failures == 0
    then 0
    else failed_at
      + min (cooldown_max peer s.latest_error_kind)
          (cooldown_base peer s.latest_error_kind * 2 ^ min (s.consecutive_failures - 1) 10)

-- `_cooldown_until`
unfoldable pub cooldown_until : Bool → Option HealthState → ℕ
cooldown_until peer none = 0
cooldown_until peer (some s) = cooldown_of peer s s.last_failure_at

-- `_route_health_tier`
unfoldable pub route_health_tier : Option HealthState → ℕ
route_health_tier none = 1
route_health_tier (some s) =
    if ltb 0 s.consecutive_failures then 2 else if is_none s.last_success_at then 1 else 0

-- `_reachability_tier`
unfoldable pub reachability_tier : Option ℕ → ℕ → ℕ
reachability_tier none now_ms = 1
reachability_tier (some reached) now_ms =
    if ltb (now_ms + 120_000) reached
    then 1
    else if leb now_ms (reached + reachability_fresh_ms)
    then 0
    else 2

-- A row of a family in offers_sync, by what the choice of sellers reads and makes.
pub record MarketRow : Type 0 where
  pub peer_id : String
  pub last_reached_at : Option ℕ
  pub health_tier : ℕ
  pub tier_of_reach : ℕ

-- `now_ms < route_until or now_ms < peer_until`
unfoldable pub is_cooling_down : ℕ → Option HealthState → Option HealthState → Bool
is_cooling_down now_ms route peer =
    if ltb now_ms (cooldown_until false route) then true else ltb now_ms (cooldown_until true peer)

-- The admission of one row: none while it cools down, else the row with its tiers.
unfoldable pub admit : ℕ → Option HealthState → Option HealthState → MarketRow → Option MarketRow
admit now_ms route peer row =
    if is_cooling_down now_ms route peer
    then none
    else some (record row {
      health_tier = max (route_health_tier route) (route_health_tier peer);
      tier_of_reach = reachability_tier row.last_reached_at now_ms;
    })

-- `peer_id in seen_peers`
abbrev pub is_seen : String → List String → Bool
is_seen peer seen = any (λ s. str_eq s peer) seen

-- The loop over the sorted rows of a family. Its quota is tested after a row is kept.
unfoldable pub keep_sellers : ℕ → List String → List MarketRow → List MarketRow
keep_sellers top_n seen [] = []
keep_sellers top_n seen (row ∷ rows) =
    let skipped = keep_sellers top_n seen rows in
    let rest = keep_sellers top_n (row.peer_id ∷ seen) rows in
    if is_seen row.peer_id seen
    then skipped
    else if leb top_n (length (row.peer_id ∷ seen))
    then row ∷ []
    else row ∷ rest
