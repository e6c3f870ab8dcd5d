-- ===== src/Tests/Proxy.antt =====
-- A tenant's request, from its path to its settle.
use unhardcoded.Prelude.{
  ℕ, String, ◌≡◌, ◌⊎◌, ◌↔◌, refl, ap, true, false, none, some, [], ◌∷◌, List, if◌then◌else◌,
}
use unhardcoded.Budget.{
  Tables, Reservation, Db, commits, rolls_back, commits_unheard, usd, settle_subject_budget,
  find_reservation, delete_reservation, spent_of, live_sum, insert_reservation, reserve_rows,
  reserve_subject_budget, ensure_usage, sweep,
}
use unhardcoded.Budget.Bound.{no_rows}
use unhardcoded.Rate.{
  bucket_of, put_bucket, refilled, draw, draw_rows, consume_rate_token, retry_after_of,
}
use unhardcoded.Proxy.Path.{proxy_path, split, join, begins_with, has_part, size}
use unhardcoded.Proxy.Path.Safe.{IsForwardable, proxy_path-IsForwardable}
use unhardcoded.Proxy.Keys.{
  Meta, Identity, Stores, ControlPlane, granted, in_host_store, in_control_plane, ResolvedKey,
  admit_tenant, admit_consumer, admit_resolved, truthy, key_owner, first_fault, key_record_allows,
  admit_key, admit_record, admit_known, admit_token, known_in_store, find_caller, fall_through,
  caller_auth_async,
}
use unhardcoded.Proxy.Keys.Granted.{IsLocal, IsTenant, caller_auth_async-granted}
use unhardcoded.Proxy.Routes.{route_allowed}
use unhardcoded.Proxy.Routes.Wildcards.{MayUse, route_allowed_iff}
use unhardcoded.Proxy.Capacity.{Limits, Section, opened, arrive, arrives, at_start, by_step}
use unhardcoded.Proxy.Capacity.Bounds.{IsSound, Reachable-IsSound}
use unhardcoded.Proxy.Settles.{settle_attempts}
use unhardcoded.Proxy.Settles.Once.{any_committed, any_heard, settle_attempts-once}
use unhardcoded.Proxy.Admission.{
  Answers, Config, Shared, Forward, forwards, proxy, admit_path, authorize, resolve, check_route,
  check_rate, check_key_rate, check_spend, reserve, enter, gate, optional_budget, spend_known,
  spend_below, or_config,
}
use unhardcoded.Contract.{
  array, text, no_fields, field, no_items, Contract, get_field, set_field, pop_field, copy,
  apply_preference, apply_contract, with_envelope,
}
use unhardcoded.Proxy.Tenant.{
  KeyLimits, TenantRequest, or_name, is_default, slug_of, is_slug, publish, resolve_named,
  resolve_requested, resolve_payload, chat_completions,
}
use unhardcoded.Proxy.Admission.Checked.{Passed, proxy-Passed}
use unhardcoded.Proxy.Admission.Stops.{Leaves, proxy-Leaves}
use unhardcoded.Proxy.Finish.{finishes, sent_of}
use unhardcoded.Proxy.Finish.Once.{settled_with, proxy-finishes}

-- "/v1/x"
abbrev sent_path : List ℕ
sent_path = 47 ∷ (118 ∷ (49 ∷ (47 ∷ (120 ∷ []))))

abbrev forwarded : List ℕ
forwarded = 118 ∷ (49 ∷ (47 ∷ (120 ∷ [])))

is_forwarded : proxy_path sent_path sent_path ≡ some forwarded
unfolding proxy_path split join begins_with has_part size
is_forwarded = refl

-- "/x/v1/y" and "/v1/.."
refuses_internal : proxy_path [] (47 ∷ (120 ∷ (47 ∷ (118 ∷ (49 ∷ (47 ∷ (121 ∷ []))))))) ≡ none
unfolding proxy_path split join begins_with has_part size
refuses_internal = refl

refuses_dots : proxy_path [] (47 ∷ (118 ∷ (49 ∷ (47 ∷ (46 ∷ (46 ∷ [])))))) ≡ none
unfolding proxy_path split join begins_with has_part size
refuses_dots = refl

proxy_path-IsForwardable_example : IsForwardable sent_path sent_path forwarded
proxy_path-IsForwardable_example =
    proxy_path-IsForwardable sent_path sent_path forwarded is_forwarded

-- A key of the host store, with no limits of its own.
abbrev ana_meta : Meta
ana_meta = record {
  status = "active";
  allowed_routes = [];
  rate_per_min = none;
  burst = none;
  budget_usd = some 5_000_000;
  keys = record { sha256_prefix = "d"; status = "active"; expires_at = 900 } ∷ [];
}

abbrev stores : Stores
stores = record {
  caller_keys = [];
  caller_key_hashes = [];
  sha256 = λ t. "d1";
  consumer_for_digest = λ d. some (some "ana");
  consumer_meta = λ c. some ana_meta;
  now = 100;
}

abbrev control : ControlPlane
control = record {
  enabled = false;
  resolve_key = λ d. none;
  caller_name = λ c. c;
  local_meta = λ c. ana_meta;
}

abbrev ana : Identity
ana = record {
  caller = "ana";
  digest = "d1";
  storage = in_host_store;
  meta = ana_meta;
  tenant_id = none;
  scope = none;
}

is_ana : caller_auth_async stores control (some "secret") ≡ granted ana
unfolding caller_auth_async fall_through admit_token find_caller key_owner known_in_store
    admit_known admit_record admit_key key_record_allows first_fault
is_ana = refl

caller_auth_async-granted_example :
    (t : String) × ((truthy (some "secret") ≡ some t)
      × (IsLocal stores t ana ⊎ IsTenant stores control t ana))
caller_auth_async-granted_example =
    caller_auth_async-granted stores control (some "secret") ana is_ana

-- The pattern "r*" and the route "ro".
abbrev patterns : List (List ℕ)
patterns = (114 ∷ (42 ∷ [])) ∷ []

route_allowed_iff_example :
    (route_allowed patterns (some (114 ∷ (111 ∷ []))) ≡ true)
    ↔ MayUse patterns (some (114 ∷ (111 ∷ [])))
route_allowed_iff_example = route_allowed_iff patterns (some (114 ∷ (111 ∷ [])))

-- One permit and one place to wait.
abbrev one_each : Limits
one_each = record { max_inflight = 1; max_pending = 1 }

abbrev busy : Section
busy = (arrive one_each (arrive one_each (opened one_each)).1).1

Reachable-IsSound_example : IsSound one_each busy
Reachable-IsSound_example = Reachable-IsSound one_each (
    by_step (by_step at_start (arrives (opened one_each)))
      (arrives (arrive one_each (opened one_each)).1))

-- A settle that commits unheard and is tried again.
abbrev row : Reservation
row = record {
  id = "r1";
  key = record { tenant_id = 7; subject = "k:1"; period = "2026-01" };
  amount_usd = 50;
  expires_at = 900;
  released = false;
}

abbrev one_row : Tables
one_row = record { usage = []; reservations = row ∷ [] }

one_of_id : find_reservation "r1" (delete_reservation "r1" (row ∷ [])) ≡ none
unfolding find_reservation delete_reservation
one_of_id = refl

abbrev tries : List Db
tries = rolls_back ∷ (commits_unheard ∷ (commits ∷ []))

settle_attempts-once_example : settle_attempts tries "r1" (usd 30) one_row ≡ (
  any_heard tries,
  if any_committed tries then (settle_subject_budget commits "r1" (usd 30) one_row).1 else one_row,
)
settle_attempts-once_example = settle_attempts-once tries "r1" (usd 30) one_row one_of_id

-- The tenant's key has a rate and a monthly budget.
abbrev limits : KeyLimits
limits = record {
  subject = "k:1";
  rate_per_min = some 10;
  burst = none;
  monthly_budget_usd = some 80;
}

abbrev tenant_meta : Meta
tenant_meta = record {
  status = "active";
  allowed_routes = [];
  rate_per_min = some 60;
  burst = some 90;
  budget_usd = none;
  keys = [];
}

abbrev tenant : Identity
tenant = record {
  caller = "acme";
  digest = "d1";
  storage = in_control_plane;
  meta = tenant_meta;
  tenant_id = some 7;
  scope = none;
}

-- The local stores do not know the key, and the control plane does.
abbrev no_keys : Stores
no_keys = record stores { consumer_for_digest = λ d. some none }

abbrev key : ResolvedKey
key = record {
  active = true;
  consumer = some "acme";
  tenant_id = some 7;
  rate_per_min = some 60;
  burst = some 90;
  scope = none;
}

abbrev resolver : ControlPlane
resolver = record {
  enabled = true;
  resolve_key = λ d. some key;
  caller_name = λ c. c;
  local_meta = λ c. record tenant_meta { rate_per_min = none; burst = none };
}

-- "route:r"
abbrev route_r : List ℕ
route_r = 114 ∷ (111 ∷ (117 ∷ (116 ∷ (101 ∷ (58 ∷ (114 ∷ []))))))

abbrev contract : Contract
contract = record {
  policy_ir = no_items;
  policy_id = [];
  variant_of = λ name. none;
  execution = no_fields;
}

abbrev asked : TenantRequest
asked = record {
  payload = some (field "model" (text "route:r") no_fields);
  method = "POST";
  requested = some route_r;
  resolve_route = λ name. some (record { route = none; key = some limits; contract = contract });
  as_text = λ r. "route:r";
}

-- "/v1/chat/completions"
abbrev chat_path : List ℕ
chat_path = b'/' ∷ chat_completions

abbrev answers : Answers
answers = record {
  raw_path = chat_path;
  path = chat_path;
  is_show = false;
  stores = no_keys;
  control_plane = resolver;
  token = some "secret";
  tenant = asked;
  rate_db = commits;
  key_rate_db = commits;
  rate_stamp = 1000;
  key_rate_stamp = 1000;
  bucket = λ a b. "ana|k:1";
  spent = some 20;
  transport_ok = true;
  budget_db = commits;
  budget_stamp = 1000;
  period = "2026-01";
  reservation_id = "r1";
  capacity = some true;
}

abbrev config : Config
config = record { rate_per_min = 100; burst = 200; reservation_usd = 50; reservation_ttl = 900 }

abbrev start : Shared
start = record { buckets = []; tables = no_rows; submitted = []; permits = 0 }

abbrev sent : Forward
sent = record {
  identity = tenant;
  target = record {
    path = chat_completions;
    route = some route_r;
    payload = some (field "model" (text "route:r") (field "policy_ir" (array no_items) no_fields));
  };
  reservation = some (record { id = "r1"; amount = 50; done = false });
}

is_sent : proxy config answers start ≡ (forwards sent, (proxy config answers start).1)
unfolding proxy_path split join begins_with has_part size caller_auth_async fall_through admit_token
    find_caller key_owner known_in_store admit_known admit_tenant admit_consumer admit_resolved
    admit_path or_name is_default slug_of is_slug publish resolve_named resolve_requested
    resolve_payload get_field set_field pop_field copy apply_preference apply_contract with_envelope
    authorize resolve check_route check_rate check_key_rate check_spend reserve enter gate
    optional_budget spend_known spend_below or_config route_allowed consume_rate_token draw_rows
    bucket_of put_bucket refilled draw retry_after_of reserve_subject_budget reserve_rows
    insert_reservation ensure_usage spent_of sweep live_sum find_reservation
is_sent = refl

is_sent_outcome : (proxy config answers start).0 ≡ forwards sent
is_sent_outcome = ap (λ r. r.0) is_sent

proxy-Passed_example :
    IsForwardable chat_path chat_path sent.target.path
    × ((t : String) × ((truthy (some "secret") ≡ some t)
          × (IsLocal no_keys t tenant ⊎ IsTenant no_keys resolver t tenant)))
    × Passed config answers start sent sent.identity sent.target
proxy-Passed_example = proxy-Passed config answers start sent is_sent_outcome

proxy-Leaves_example : Leaves answers start (proxy config answers start)
proxy-Leaves_example = proxy-Leaves config answers start

-- A stream of unknown cost, which ends by the pump and once more by the handler.
proxy-finishes_example :
    let u =
      (finishes
        ((none, 200) ∷ ((some 3, 502) ∷ []))
        (sent_of sent)
        (proxy config answers start).1).1 in
    (u.permits ≡ start.permits)
    × (u.submitted ≡ settled_with sent.reservation none 200 start.submitted)
proxy-finishes_example =
    proxy-finishes config answers start (proxy config answers start).1 sent is_sent none 200
      ((some 3, 502) ∷ [])
