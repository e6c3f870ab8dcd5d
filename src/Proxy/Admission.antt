-- ===== src/Proxy/Admission.antt =====
-- The handler `proxy` up to the request that it sends to the router. What the code
-- awaits is given in `Answers`; the stores are passed along. Amounts are millionths of a dollar.
pub mod Guards
pub mod Checked
pub mod Stops
use unhardcoded.Prelude.{
  ℕ, ◌+◌, String, Bool, true, false, ◌&&◌, ◌||◌, not, Option, none, some, List, if◌then◌else◌, leb,
  ◌==◌, min,
}
use unhardcoded.Budget.{Tables, Db, unknown_cost, Claim, reserve_subject_budget}
use unhardcoded.Rate.{Bucket, Draw, consume_rate_token}
use unhardcoded.Contract.{Fields}
use unhardcoded.Proxy.Path.{proxy_path}
use unhardcoded.Proxy.Keys.{
  AuthCode, Auth, denied, granted, Identity, Stores, ControlPlane, caller_auth_async,
}
use unhardcoded.Proxy.Routes.{route_allowed}
use unhardcoded.Proxy.Tenant.{
  KeyLimits, Resolution, no_object, wants_route, preference_refused, unavailable, published,
  TenantRequest, resolution_of,
}
use unhardcoded.Proxy.Settles.{Held, Submitted, settle_reservation}

-- What the awaited calls answer, and the clocks. `raw_path` and `path` are the request's, `token` is
-- that of `_extract_token`; `bucket` names a
-- bucket after a caller and a subject; `spent` is `consumer_spend_usd`; `capacity` is
-- `_capacity_acquire`, none where it raises.
pub record Answers : Type 0 where
  pub raw_path : List ℕ
  pub path : List ℕ
  pub is_show : Bool
  pub stores : Stores
  pub control_plane : ControlPlane
  pub token : Option String
  pub tenant : TenantRequest
  pub rate_db : Db
  pub key_rate_db : Db
  pub rate_stamp : ℕ
  pub key_rate_stamp : ℕ
  pub bucket : String → String → String
  pub spent : Option ℕ
  pub transport_ok : Bool
  pub budget_db : Db
  pub budget_stamp : ℕ
  pub period : String
  pub reservation_id : String
  pub capacity : Option Bool

-- RATE_PER_MIN, BURST, CLOUD_BUDGET_RESERVATION_USD and KEY_BUDGET_RESERVATION_TTL_S.
pub record Config : Type 0 where
  pub rate_per_min : ℕ
  pub burst : ℕ
  pub reservation_usd : ℕ
  pub reservation_ttl : ℕ

-- The stores, the settles that the request submitted and the permits that it holds.
pub record Shared : Type 0 where
  pub buckets : List Bucket
  pub tables : Tables
  pub submitted : List Submitted
  pub permits : ℕ

pub data Response : Type 0 where
  not_found no_json_object route_required preference_not_allowed route_unavailable route_not_allowed
        rate_limit_unavailable rate_limit key_rate_limit_unavailable key_rate_limit metadata_probe
        consumer_budget_unavailable consumer_budget_exhausted bridge_transport_unavailable
        key_budget_unavailable key_budget_exhausted router_overloaded raised :
      Response
  unauthorized : AuthCode → Response

-- What is sent: the path that `proxy_path` answered, the route, and for a tenant the payload that
-- the route's contract left, which replaces the body; with none the body goes as it came.
pub record Target : Type 0 where
  pub path : List ℕ
  pub route : Option (List ℕ)
  pub payload : Option Fields

pub record Forward : Type 0 where
  pub identity : Identity
  pub target : Target
  pub reservation : Option Held

pub data Verdict : Type 0 where
  stops : Response → Verdict
  forwards : Forward → Verdict

-- `x or y`
unfoldable pub or_config : Option ℕ → ℕ → ℕ
or_config none y = y
or_config (some x) y = if x == 0 then y else x

-- `_settle_reservation(None)`
unfoldable pub settle_none : Option Held → Shared → Shared
settle_none held s = record s { submitted = (settle_reservation unknown_cost held s.submitted).1 }

-- The upstream section, with its answer.
unfoldable pub enter : Forward → Shared → Option Bool → Verdict × Shared
enter f s none = (stops raised, settle_none f.reservation s)
enter f s (some false) = (stops router_overloaded, settle_none f.reservation s)
enter f s (some true) = (forwards f, record s { permits = s.permits + 1 })

-- The reservation of a key's monthly budget, with the tenant of the key.
abbrev pub claim_of : Config → Answers → ℕ → String → ℕ → Claim
claim_of cfg w tenant subject limit = record {
  key = record { tenant_id = tenant; subject = subject; period = w.period };
  limit_usd = limit;
  amount_usd = min cfg.reservation_usd limit;
  reservation_id = w.reservation_id;
  ttl = cfg.reservation_ttl;
}

abbrev pub held_of : Config → Answers → ℕ → Held
held_of cfg w limit = record {
  id = w.reservation_id;
  amount = min cfg.reservation_usd limit;
  done = false;
}

-- A guard: the request goes on where it holds.
unfoldable pub gate : Bool → Response → Shared → Verdict × Shared → Verdict × Shared
gate true reply s rest = rest
gate false reply s rest = (stops reply, s)

-- The subject and the monthly budget of a key that has one.
abbrev pub budget_of : Option KeyLimits → Option (String × ℕ)
budget_of none = none
budget_of (some k) = elim k.monthly_budget_usd [
  | none ↦ none
  | some limit ↦ some (k.subject, limit)
]

unfoldable pub reserve :
    Config → Answers → Identity → Target → ℕ → Option (String × ℕ) → Shared → Verdict × Shared
reserve cfg w i to tenant none s =
    enter (record { identity = i; target = to; reservation = none }) s w.capacity
reserve cfg w i to tenant (some (subject, limit)) s =
    let (answer, left) =
      reserve_subject_budget w.budget_db (claim_of cfg w tenant subject limit) w.budget_stamp
        s.tables in
    let t : Shared = record s { tables = left } in
    gate answer.store_ok key_budget_unavailable t (
      gate answer.allowed key_budget_exhausted t (
        enter (record { identity = i; target = to; reservation = some (held_of cfg w limit) }) t
          w.capacity))

abbrev pub tenant_of : Identity → ℕ
tenant_of i = elim i.tenant_id [ none ↦ 0 | some t ↦ t ]

abbrev pub is_tenant : Identity → Bool
is_tenant i = elim i.tenant_id [ none ↦ false | some t ↦ true ]

-- `_optional_float(meta.budget_usd, min_value=0.01)`
unfoldable pub optional_budget : Option ℕ → Option ℕ
optional_budget none = none
optional_budget (some b) = if leb 10_000 b && leb b 1_000_000_000_000 then some b else none

-- The caller's own budget, against what it spent.
unfoldable pub spend_known : Option ℕ → Option ℕ → Bool
spend_known (some b) none = false
spend_known budget spent = true

unfoldable pub spend_below : Option ℕ → Option ℕ → Bool
spend_below (some b) (some spent) = not (leb b spent)
spend_below budget spent = true

unfoldable pub check_spend :
    Config → Answers → Identity → Target → Option KeyLimits → Shared → Verdict × Shared
check_spend cfg w i to k s =
    let budget = optional_budget i.meta.budget_usd in
    gate (not w.is_show) metadata_probe s (
      gate (spend_known budget w.spent) consumer_budget_unavailable s (
        gate (spend_below budget w.spent) consumer_budget_exhausted s (
          gate (not (is_tenant i) || w.transport_ok) bridge_transport_unavailable s
            (reserve cfg w i to (tenant_of i) (budget_of k) s))))

-- `_rate_ok`, and the draw of a key's subject.
abbrev pub draw_of : Config → Answers → Identity → Draw
draw_of cfg w i = record {
  consumer = i.caller;
  rate_per_min = or_config i.meta.rate_per_min cfg.rate_per_min;
  burst = or_config i.meta.burst cfg.burst;
  stamp = w.rate_stamp;
}

abbrev pub key_draw_of : Answers → Identity → KeyLimits → ℕ → Draw
key_draw_of w i k rate = record {
  consumer = w.bucket i.caller k.subject;
  rate_per_min = rate;
  burst = or_config k.burst rate;
  stamp = w.key_rate_stamp;
}

-- The draw of a key that has a rate other than 0.
abbrev pub key_draw : Answers → Identity → Option KeyLimits → Option Draw
key_draw w i none = none
key_draw w i (some k) = elim k.rate_per_min [
  | none ↦ none
  | some rate ↦ if rate == 0 then none else some (key_draw_of w i k rate)
]

unfoldable pub check_key_rate :
    Config
    → Answers
    → Identity
    → Target
    → Option KeyLimits
    → Option Draw
    → Shared
    → Verdict × Shared
check_key_rate cfg w i to k none s = check_spend cfg w i to k s
check_key_rate cfg w i to k (some d) s =
    let (answer, left) = consume_rate_token w.key_rate_db d s.buckets in
    let t : Shared = record s { buckets = left } in
    gate answer.store_ok key_rate_limit_unavailable t
      (gate answer.allowed key_rate_limit t (check_spend cfg w i to k t))

unfoldable pub check_rate :
    Config → Answers → Identity → Target → Option KeyLimits → Shared → Verdict × Shared
check_rate cfg w i to k s =
    let (answer, left) = consume_rate_token w.rate_db (draw_of cfg w i) s.buckets in
    let t : Shared = record s { buckets = left } in
    gate answer.store_ok rate_limit_unavailable t
      (gate answer.allowed rate_limit t (check_key_rate cfg w i to k (key_draw w i k) t))

unfoldable pub check_route :
    Config → Answers → Identity → Target → Option KeyLimits → Shared → Verdict × Shared
check_route cfg w i to k s =
    gate (route_allowed i.meta.allowed_routes to.route) route_not_allowed s
      (check_rate cfg w i to k s)

-- A tenant's key addresses a published route, with the payload that its contract left.
unfoldable pub resolve :
    Config → Answers → Identity → List ℕ → Resolution → Shared → Verdict × Shared
resolve cfg w i path no_object s = (stops no_json_object, s)
resolve cfg w i path wants_route s = (stops route_required, s)
resolve cfg w i path preference_refused s = (stops preference_not_allowed, s)
resolve cfg w i path unavailable s = (stops route_unavailable, s)
resolve cfg w i path (published p) s =
    check_route cfg w i (record { path = path; route = some p.route; payload = some p.payload })
      p.key s

-- The target of a caller that is no tenant.
abbrev pub own_target : Answers → List ℕ → Target
own_target w path = record { path = path; route = w.tenant.requested; payload = none }

unfoldable pub authorize : Config → Answers → List ℕ → Auth → Shared → Verdict × Shared
authorize cfg w path (denied caller code) s = (stops (unauthorized code), s)
authorize cfg w path (granted i) s =
    let own = check_route cfg w i (own_target w path) none s in
    let tenant = resolve cfg w i path (resolution_of w.tenant path) s in
    if is_tenant i then tenant else own

abbrev pub auth_of : Answers → Auth
auth_of w = caller_auth_async w.stores w.control_plane w.token

abbrev pub path_of : Answers → Option (List ℕ)
path_of w = proxy_path w.raw_path w.path

unfoldable pub admit_path : Config → Answers → Option (List ℕ) → Shared → Verdict × Shared
admit_path cfg w none s = (stops not_found, s)
admit_path cfg w (some path) s = authorize cfg w path (auth_of w) s

-- The handler, up to the request to the router.
abbrev pub proxy : Config → Answers → Shared → Verdict × Shared
proxy cfg w s = admit_path cfg w (path_of w) s
