-- ===== src/Contract.antt =====
-- `apply_contract` of route_contract.py, which sets a published route's policy over a caller's payload.
pub mod Lookup
pub mod Owner
use unhardcoded.Prelude.{
  ℕ, String, Bool, true, false, ◌&&◌, ◌||◌, not, Option, none, some, List, if◌then◌else◌, ◌==◌, leb,
  str_eq, length, all,
}

-- JSON values, and the fields of an object.
mutual
  pub data Json : Type 0 where
    null : Json
    bool : Bool → Json
    number : ℕ → Json
    text : String → Json
    array : Items → Json
    object : Fields → Json

  pub data Items : Type 0 where
    no_items : Items
    item : Json → Items → Items

  pub data Fields : Type 0 where
    no_fields : Fields
    field : String → Json → Fields → Fields

-- `d.get(key)`, `d.pop(key, None)` and `d[key] = value`
unfoldable pub get_field : String → Fields → Option Json
get_field k no_fields = none
get_field k (field j v rest) = let found = get_field k rest in if str_eq j k then some v else found

unfoldable pub pop_field : String → Fields → Fields
pop_field k no_fields = no_fields
pop_field k (field j v rest) =
    let left = pop_field k rest in if str_eq j k then left else field j v left

unfoldable pub set_field : String → Json → Fields → Fields
set_field k v no_fields = field k v no_fields
set_field k v (field j w rest) =
    let left = set_field k v rest in if str_eq j k then field j v rest else field j w left

-- `if key in d`, for a key that is copied.
unfoldable pub copy : String → Option Json → Fields → Fields
copy k none f = f
copy k (some v) f = set_field k v f

-- A variant of `preferences`: `policy_ir` where it is a list, and the codes of `str(policy_id)`.
pub record Variant : Type 0 where
  pub policy_ir : Option Items
  pub policy_id : List ℕ

-- `re.fullmatch(r'[0-9a-f]{64}', …)`
abbrev pub is_hex : ℕ → Bool
is_hex c = (leb 48 c && leb c 57) || (leb 97 c && leb c 102)

abbrev pub is_policy_id : List ℕ → Bool
is_policy_id id = all is_hex id && length id == 64

-- A published contract; `variant_of` looks a preference up, none where it is not in `preferences`, and
-- gives none where what it finds is no object.
pub record Contract : Type 0 where
  pub policy_ir : Items
  pub policy_id : List ℕ
  pub variant_of : String → Option (Option Variant)
  pub execution : Fields

-- What `selected` says of the policy, and the preference.
pub record ChosenPolicy : Type 0 where
  pub policy_ir : Items
  pub policy_id : List ℕ
  pub routing_preference : String

pub data Applied : Type 0 where
  preference_not_allowed : Applied
  applied : Fields → ChosenPolicy → Applied

-- The fields that a caller may not set.
abbrev pub stripped : Fields → Fields
stripped f = pop_field "_auto_contract" (
    pop_field "task_policies" (
      pop_field "first_token_timeout_ms"
        (pop_field "timeout_ms" (pop_field "flow_ir" (pop_field "policy_ir" f)))))

-- The envelope of an automatic route.
abbrev pub envelope : Fields → Fields
envelope e = copy "automatic_sample_percent" (get_field "automatic_sample_percent" e) (
    copy "automatic_mode" (get_field "automatic_mode" e)
      (copy "automatic" (get_field "automatic" e) no_fields))

unfoldable pub with_envelope : Fields → Option Json → Fields → Fields
with_envelope e none f = f
with_envelope e (some v) f = set_field "_auto_contract" (object (envelope e)) f

-- The payload of a selected policy.
abbrev pub overridden : Fields → Fields → Items → Fields
overridden e f ir = set_field "policy_ir" (array ir) (
    copy "first_token_timeout_ms" (get_field "first_token_timeout_ms" e) (
      copy "timeout_ms" (get_field "timeout_ms" e)
        (with_envelope e (get_field "automatic" e) (stripped f))))

-- `"automatic" in execution`
abbrev pub is_automatic : Fields → Bool
is_automatic e = elim (get_field "automatic" e) [ none ↦ false | some v ↦ true ]

-- The variant that a preference selects, with its `policy_ir`.
unfoldable pub choose_policy : Contract → Fields → String → Variant → Option Items → Applied
choose_policy c f name v none = preference_not_allowed
choose_policy c f name v (some ir) =
    if is_policy_id v.policy_id && not (is_automatic c.execution)
    then applied (overridden c.execution f ir)
        (record { policy_ir = ir; policy_id = v.policy_id; routing_preference = name })
    else preference_not_allowed

unfoldable pub choose : Contract → Fields → String → Option (Option Variant) → Applied
choose c f name none = preference_not_allowed
choose c f name (some none) = preference_not_allowed
choose c f name (some (some v)) = choose_policy c f name v v.policy_ir

-- With the value of `routing_preference`; a null is no preference.
unfoldable pub apply_preference : Contract → Fields → Option Json → Applied
apply_preference c f none =
    applied (overridden c.execution f c.policy_ir)
      (record { policy_ir = c.policy_ir; policy_id = c.policy_id; routing_preference = "default" })
apply_preference c f (some null) =
    applied (overridden c.execution f c.policy_ir)
      (record { policy_ir = c.policy_ir; policy_id = c.policy_id; routing_preference = "default" })
apply_preference c f (some (text name)) = choose c f name (c.variant_of name)
apply_preference c f (some v) = preference_not_allowed

unfoldable pub apply_contract : Fields → Contract → Applied
apply_contract payload c =
    apply_preference c (pop_field "routing_preference" payload)
      (get_field "routing_preference" payload)
