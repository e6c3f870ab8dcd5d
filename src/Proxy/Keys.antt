-- ===== src/Proxy/Keys.antt =====
-- Who calls: `_key_record_allows`, `_caller_auth` and `_caller_auth_async`. The digest of a token and
-- the answers of the stores and of the control plane are given.
pub mod Granted
use unhardcoded.Prelude.{
  ℕ, String, Bool, true, false, ◌&&◌, ◌||◌, not, Option, none, some, List, [], ◌∷◌, if◌then◌else◌,
  leb, ◌==◌, str_eq, keep, any,
}
use text.Mathlib.Text.{starts_with}

-- A normalized key record; `expires_at` is 0 where it never expires.
pub record KeyRecord : Type 0 where
  pub sha256_prefix : String
  pub status : String
  pub expires_at : ℕ

-- A normalized consumer record.
pub record Meta : Type 0 where
  pub status : String
  pub allowed_routes : List (List ℕ)
  pub rate_per_min : Option ℕ
  pub burst : Option ℕ
  pub budget_usd : Option ℕ
  pub keys : List KeyRecord

-- The error codes.
pub data AuthCode : Type 0 where
  caller_auth caller_auth_unavailable caller_inactive caller_key_revoked caller_key_expired
        caller_name_collision :
      AuthCode

-- `status == "revoked"`, and `expires_at and expires_at <= now`
abbrev pub is_revoked : KeyRecord → Bool
is_revoked k = str_eq k.status "revoked"

abbrev pub has_expired : ℕ → KeyRecord → Bool
has_expired now k = not (k.expires_at == 0) && leb k.expires_at now

-- The first fault of the matching records.
unfoldable pub first_fault : ℕ → List KeyRecord → Option AuthCode
first_fault now [] = none
first_fault now (k ∷ ks) =
    let rest = first_fault now ks in
    if is_revoked k
    then some caller_key_revoked
    else if has_expired now k
    then some caller_key_expired
    else rest

abbrev pub matches : String → KeyRecord → Bool
matches digest k = starts_with digest k.sha256_prefix

-- `_key_record_allows`: none where the key is allowed.
unfoldable pub key_record_allows : ℕ → String → Meta → Option AuthCode
key_record_allows now digest m = first_fault now (keep (matches digest) m.keys)

pub data Storage : Type 0 where
  caller_keys_json caller_keys_sha256_json in_host_store in_control_plane : Storage

-- The scope that the control plane resolved.
pub record Scope : Type 0 where
  pub project_id : ℕ
  pub environment_id : ℕ

pub record Identity : Type 0 where
  pub caller : String
  pub digest : String
  pub storage : Storage
  pub meta : Meta
  pub tenant_id : Option ℕ
  pub scope : Option Scope

-- `{"ok": False, …}` with the caller where it is known, and `{"ok": True, …}`.
pub data Auth : Type 0 where
  denied : Option String → AuthCode → Auth
  granted : Identity → Auth

-- CALLER_KEYS, CALLER_KEY_HASHES, and what the host store answers: none where it fails.
pub record Stores : Type 0 where
  pub caller_keys : List (String × String)
  pub caller_key_hashes : List (String × String)
  pub sha256 : String → String
  pub consumer_for_digest : String → Option (Option String)
  pub consumer_meta : String → Option Meta
  pub now : ℕ

unfoldable pub key_owner : String → List (String × String) → Option String
key_owner k [] = none
key_owner k ((k', v) ∷ rest) = let found = key_owner k rest in if str_eq k' k then some v else found

-- A text that Python takes for true.
abbrev pub truthy : Option String → Option String
truthy none = none
truthy (some s) = if str_eq s "" then none else some s

-- The three stores of keys, in their order, with what the host store answered.
pub data Known : Type 0 where
  known : String → Storage → Known
  unknown unavailable : Known

unfoldable pub known_in_store : Option (Option String) → Known
known_in_store none = unavailable
known_in_store (some answer) = elim (truthy answer) [
  | some c ↦ known c in_host_store
  | none ↦ unknown
]

unfoldable pub find_caller : Stores → String → Known
find_caller s token = elim (truthy (key_owner token s.caller_keys)) [
  | some c ↦ known c caller_keys_json
  | none ↦ elim (truthy (key_owner (s.sha256 token) s.caller_key_hashes)) [
    | some c ↦ known c caller_keys_sha256_json
    | none ↦ known_in_store (s.consumer_for_digest (s.sha256 token))
  ]
]

-- The rest of `_caller_auth` for a caller that is known, with its record, and with the fault of its key.
unfoldable pub admit_key : Identity → Option AuthCode → Auth
admit_key i (some code) = denied (some i.caller) code
admit_key i none = granted i

abbrev pub local_identity : String → String → Storage → Meta → Identity
local_identity digest caller storage m = record {
  caller = caller;
  digest = digest;
  storage = storage;
  meta = m;
  tenant_id = none;
  scope = none;
}

unfoldable pub admit_record : Stores → String → String → Storage → Option Meta → Auth
admit_record s digest caller storage none = denied (some caller) caller_auth_unavailable
admit_record s digest caller storage (some m) =
    let rest =
      admit_key (local_identity digest caller storage m) (key_record_allows s.now digest m) in
    if str_eq m.status "active" then rest else denied (some caller) caller_inactive

unfoldable pub admit_known : Stores → String → Known → Auth
admit_known s digest (known caller storage) =
    admit_record s digest caller storage (s.consumer_meta caller)
admit_known s digest unknown = denied none caller_auth
admit_known s digest unavailable = denied none caller_auth_unavailable

-- `_caller_auth`
unfoldable pub admit_token : Stores → Option String → Auth
admit_token s none = denied none caller_auth
admit_token s (some t) = admit_known s (s.sha256 t) (find_caller s t)

abbrev pub caller_auth_of : Stores → Option String → Auth
caller_auth_of s token = admit_token s (truthy token)

-- `ResolvedKey`; `scope` is there where scope_version is 2.
pub record ResolvedKey : Type 0 where
  pub active : Bool
  pub consumer : Option String
  pub tenant_id : Option ℕ
  pub rate_per_min : Option ℕ
  pub burst : Option ℕ
  pub scope : Option Scope

-- The control plane: whether it is enabled, what it resolves, the name of its callers, and
-- `_consumer_meta` of one.
pub record ControlPlane : Type 0 where
  pub enabled : Bool
  pub resolve_key : String → Option ResolvedKey
  pub caller_name : String → String
  pub local_meta : String → Meta

abbrev pub or_else : Option ℕ → Option ℕ → Option ℕ
or_else none y = y
or_else (some x) y = some x

-- A local consumer answers to the name.
abbrev pub is_taken : Stores → String → Meta → Bool
is_taken s caller m =
    not (elim m.keys [ [] ↦ true | _ ↦ false ])
    || (any (λ kv. str_eq kv.1 caller) s.caller_keys
        || any (λ kv. str_eq kv.1 caller) s.caller_key_hashes)

unfoldable pub admit_tenant : Stores → String → String → ResolvedKey → Meta → Auth
admit_tenant s digest caller k m =
    let limits = record m {
      rate_per_min = or_else m.rate_per_min k.rate_per_min;
      burst = or_else m.burst k.burst;
    } in
    if is_taken s caller m
    then denied (some caller) caller_name_collision
    else if str_eq m.status "active"
    then granted (record {
      caller = caller;
      digest = digest;
      storage = in_control_plane;
      meta = limits;
      tenant_id = k.tenant_id;
      scope = k.scope;
    })
    else denied (some caller) caller_inactive

-- What `_caller_auth_async` does with the answer of the control plane.
unfoldable pub admit_consumer :
    Stores → ControlPlane → String → Auth → ResolvedKey → Option String → Auth
admit_consumer s cp digest auth k none = auth
admit_consumer s cp digest auth k (some name) =
    let caller = cp.caller_name name in
    let rest = admit_tenant s digest caller k (cp.local_meta caller) in
    if k.active then rest else auth

unfoldable pub admit_resolved : Stores → ControlPlane → String → Auth → Option ResolvedKey → Auth
admit_resolved s cp digest auth none = auth
admit_resolved s cp digest auth (some k) = admit_consumer s cp digest auth k (truthy k.consumer)

-- `_caller_auth_async`, from the answer of `_caller_auth`.
unfoldable pub fall_through : Stores → ControlPlane → Option String → Auth → Auth
fall_through s cp none (denied none code) = denied none code
fall_through s cp (some t) (denied none code) =
    let rest = admit_resolved s cp (s.sha256 t) (denied none code) (cp.resolve_key (s.sha256 t)) in
    if cp.enabled then rest else denied none code
fall_through s cp token auth = auth

unfoldable pub caller_auth_async : Stores → ControlPlane → Option String → Auth
caller_auth_async s cp token = fall_through s cp (truthy token) (caller_auth_of s token)
