-- ===== src/Proxy/Tenant.antt =====
-- The block of `proxy` for a tenant's key: it addresses a published route, whose contract rewrites the
-- payload.
pub mod Owned
use unhardcoded.Prelude.{
  ℕ, String, Bool, true, false, ◌&&◌, ◌||◌, not, Option, none, some, List, [], ◌∷◌, if◌then◌else◌,
  leb, ◌==◌, str_eq, length, all,
}
use unhardcoded.Proxy.Path.{same_text}
use unhardcoded.Contract.{
  Json, null, bool, number, text, array, object, no_items, item, Fields, no_fields, field,
  get_field, set_field, Contract, ChosenPolicy, Applied, preference_not_allowed, applied,
  apply_contract,
}

-- The `limits` of a published route, where it names a key.
pub record KeyLimits : Type 0 where
  pub subject : String
  pub rate_per_min : Option ℕ
  pub burst : Option ℕ
  pub monthly_budget_usd : Option ℕ

-- The route with its key, and the payload and policy that its contract leaves.
pub record Published : Type 0 where
  pub route : List ℕ
  pub key : Option KeyLimits
  pub payload : Fields
  pub chosen : ChosenPolicy

-- How the block for a tenant's key ends.
pub data Resolution : Type 0 where
  no_object wants_route preference_refused unavailable : Resolution
  published : Published → Resolution

-- What `resolve_route` answers; `route` where it is a text.
pub record ResolvedRoute : Type 0 where
  pub route : Option (List ℕ)
  pub key : Option KeyLimits
  pub contract : Contract

-- A request as the block sees it: its body, where that is a JSON object; its method; the route that it
-- requests; the answers of the control plane to a route's name, or to the key's
-- default, none where it raises RouteUnavailable; and a route as a text of JSON.
pub record TenantRequest : Type 0 where
  pub payload : Option Fields
  pub method : String
  pub requested : Option (List ℕ)
  pub resolve_route : Option (List ℕ) → Option ResolvedRoute
  pub as_text : List ℕ → String

-- Values that Python takes for false.
abbrev pub is_falsy : Json → Bool
is_falsy null = true
is_falsy (bool b) = not b
is_falsy (number n) = n == 0
is_falsy (text s) = str_eq s ""
is_falsy (array xs) = elim xs [ no_items ↦ true | item x rest ↦ false ]
is_falsy (object f) = elim f [ no_fields ↦ true | field k v rest ↦ false ]

-- `payload.get("model") or payload.get("name")`
unfoldable pub or_name : Option Json → Option Json → Option Json
or_name none name = name
or_name (some v) name = if is_falsy v then name else some v

-- `raw_model in (None, "", "auto")`
unfoldable pub is_default : Option Json → Bool
is_default none = true
is_default (some null) = true
is_default (some (text s)) = str_eq s "" || str_eq s "auto"
is_default (some v) = false

-- `route:[a-z0-9][a-z0-9-]{0,79}`
abbrev pub is_slug_char : ℕ → Bool
is_slug_char c = (leb 97 c && leb c 122) || ((leb 48 c && leb c 57) || c == 45)

abbrev pub route_prefix : List ℕ
route_prefix = 114 ∷ (111 ∷ (117 ∷ (116 ∷ (101 ∷ (58 ∷ [])))))

unfoldable pub slug_of : List ℕ → List ℕ → Option (List ℕ)
slug_of [] cs = some cs
slug_of (p ∷ ps) [] = none
slug_of (p ∷ ps) (c ∷ cs) = let rest = slug_of ps cs in if p == c then rest else none

unfoldable pub is_slug : Option (List ℕ) → Bool
is_slug none = false
is_slug (some []) = false
is_slug (some (c ∷ cs)) =
    not (c == 45) && (is_slug_char c && (all is_slug_char cs && leb (length cs) 79))

abbrev pub is_route : List ℕ → Bool
is_route r = is_slug (slug_of route_prefix r)

-- The payload under the route's contract.
unfoldable pub publish : List ℕ → Option KeyLimits → Applied → Resolution
publish route key preference_not_allowed = preference_refused
publish route key (applied out s) =
    published (record { route = route; key = key; payload = out; chosen = s })

-- The key's default route, and a route that was named.
unfoldable pub take_default : TenantRequest → Fields → ResolvedRoute → Option (List ℕ) → Resolution
take_default t f r none = unavailable
take_default t f r (some route) =
    if is_route route
    then publish route r.key
        (apply_contract (set_field "model" (text (t.as_text route)) f) r.contract)
    else unavailable

unfoldable pub resolve_default : TenantRequest → Fields → Option ResolvedRoute → Resolution
resolve_default t f none = unavailable
resolve_default t f (some r) = take_default t f r r.route

unfoldable pub resolve_named : Fields → List ℕ → Option ResolvedRoute → Resolution
resolve_named f route none = unavailable
resolve_named f route (some r) = publish route r.key (apply_contract f r.contract)

unfoldable pub resolve_requested : TenantRequest → Fields → Option (List ℕ) → Resolution
resolve_requested t f none = wants_route
resolve_requested t f (some route) =
    if is_route route
    then resolve_named f route (t.resolve_route (slug_of route_prefix route))
    else wants_route

-- The two paths that a tenant's key may call.
abbrev pub chat_completions : List ℕ
chat_completions =
    b'v' ∷ b'1' ∷ b'/' ∷ b'c' ∷ b'h' ∷ b'a' ∷ b't' ∷ b'/' ∷ b'c' ∷ b'o' ∷ b'm' ∷ b'p' ∷ b'l' ∷ b'e'
    ∷ b't' ∷ b'i' ∷ b'o' ∷ b'n' ∷ b's' ∷ []

abbrev pub responses : List ℕ
responses = b'v' ∷ b'1' ∷ b'/' ∷ b'r' ∷ b'e' ∷ b's' ∷ b'p' ∷ b'o' ∷ b'n' ∷ b's' ∷ b'e' ∷ b's' ∷ []

-- `method == "POST" and path in {…}`, on the path that is forwarded.
abbrev pub is_chat_post : String → List ℕ → Bool
is_chat_post method path =
    str_eq method "POST" && (same_text path chat_completions || same_text path responses)

unfoldable pub resolve_payload : TenantRequest → List ℕ → Option Fields → Resolution
resolve_payload t path none = no_object
resolve_payload t path (some f) =
    if not (is_chat_post t.method path)
    then wants_route
    else if is_default (or_name (get_field "model" f) (get_field "name" f))
    then resolve_default t f (t.resolve_route none)
    else resolve_requested t f t.requested

abbrev pub resolution_of : TenantRequest → List ℕ → Resolution
resolution_of t path = resolve_payload t path t.payload
