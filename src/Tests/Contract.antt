-- ===== src/Tests/Contract.antt =====
-- A caller that names a preference and forges fields.
use unhardcoded.Prelude.{ℕ, ◌≡◌, refl, none, some, [], ◌∷◌, List, ◌++◌, str_eq, if◌then◌else◌}
use unhardcoded.Contract.{
  number, text, array, no_items, item, Fields, no_fields, field, get_field, pop_field, set_field,
  copy, Variant, Contract, ChosenPolicy, applied, with_envelope, choose_policy, choose,
  apply_preference, apply_contract,
}
use unhardcoded.Contract.Owner.{IsAuthorized, apply_contract-IsAuthorized}

abbrev eight : List ℕ
eight = 48 ∷ (49 ∷ (50 ∷ (97 ∷ (98 ∷ (99 ∷ (100 ∷ (102 ∷ [])))))))

abbrev policy_id : List ℕ
policy_id = eight ++ (eight ++ (eight ++ (eight ++ (eight ++ (eight ++ (eight ++ eight))))))

abbrev fast : Variant
fast = record { policy_ir = some (item (text "fast") no_items); policy_id = policy_id }

abbrev contract : Contract
contract = record {
  policy_ir = no_items;
  policy_id = policy_id;
  variant_of = λ name. if str_eq name "fast" then some (some fast) else none;
  execution = field "timeout_ms" (number 900) no_fields;
}

abbrev payload : Fields
payload = field "model" (text "route:a") (
    field "routing_preference" (text "fast")
      (field "flow_ir" (text "mine") (field "timeout_ms" (number 1) no_fields)))

abbrev sent : Fields
sent = field "model" (text "route:a") (
    field "timeout_ms" (number 900)
      (field "policy_ir" (array (item (text "fast") no_items)) no_fields))

abbrev selected : ChosenPolicy
selected = record {
  policy_ir = item (text "fast") no_items;
  policy_id = policy_id;
  routing_preference = "fast";
}

is_applied : apply_contract payload contract ≡ applied sent selected
unfolding apply_contract apply_preference choose choose_policy get_field pop_field set_field copy
    with_envelope
is_applied = refl

apply_contract-IsAuthorized_example : IsAuthorized contract payload sent selected
apply_contract-IsAuthorized_example =
    apply_contract-IsAuthorized payload sent contract selected is_applied
