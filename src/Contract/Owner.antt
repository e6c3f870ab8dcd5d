-- ===== src/Contract/Owner.antt =====
-- Whose word each field of an applied payload is.
use unhardcoded.Prelude.{
  String, Bool, true, false, ◌&&◌, ◌||◌, not, Option, none, some, if◌then◌else◌, str_eq, ◌≡◌, ◌⊎◌,
  refl, arith, Bool-cases, inl, inr, sym, subst,
}
use unhardcoded.Contract.{
  Json, null, bool, number, text, array, object, Items, Fields, get_field, pop_field, copy, Variant,
  Contract, ChosenPolicy, applied, stripped, envelope, with_envelope, overridden, is_automatic,
  is_policy_id, choose_policy, choose, apply_preference, apply_contract,
}
use unhardcoded.Contract.Lookup.{
  get_field-pop_field, get_field-set_field, get_field-copy, or_option,
}

-- A field that the caller may set.
abbrev pub is_free : String → Bool
is_free k = not (
    str_eq "policy_ir" k
    || (str_eq "flow_ir" k
        || (str_eq "timeout_ms" k
            || (str_eq "first_token_timeout_ms" k
                || (str_eq "task_policies" k
                    || (str_eq "_auto_contract" k || str_eq "routing_preference" k))))))

-- The envelope that the execution calls for.
abbrev pub envelope_of : Fields → Option Json
envelope_of e = if is_automatic e then some (object (envelope e)) else none

-- Every field of the payload: the policy is the owner's, the time limits and the envelope are those of
-- the owner's execution or absent, and of the caller's fields only the free ones are left.
abbrev pub IsOwned : Fields → Fields → Items → Fields → Type 0
IsOwned e payload ir out =
    (get_field "policy_ir" out ≡ some (array ir))
    × (get_field "flow_ir" out ≡ none)
    × (get_field "task_policies" out ≡ none)
    × (get_field "routing_preference" out ≡ none)
    × (get_field "timeout_ms" out ≡ get_field "timeout_ms" e)
    × (get_field "first_token_timeout_ms" out ≡ get_field "first_token_timeout_ms" e)
    × (get_field "_auto_contract" out ≡ envelope_of e)
    × ((k : String) → is_free k ≡ true → get_field k out ≡ get_field k payload)

get_field-envelope :
    (j : String) (e f : Fields) (o : Option Json)
    → get_field j (with_envelope e o f) ≡ (
        if str_eq "_auto_contract" j
        then or_option
            (elim o [ none ↦ none | some v ↦ some (object (envelope e)) ])
            (get_field j f)
        else get_field j f)
unfolding with_envelope
get_field-envelope j e f none = ground arith
get_field-envelope j e f (some v) = get_field-set_field j "_auto_contract" (object (envelope e)) f

-- What a field of the overridden payload holds.
get_field-overridden :
    (j : String) (e f : Fields) (ir : Items)
    → get_field j (overridden e f ir) ≡ (
        if str_eq "policy_ir" j
        then some (array ir)
        else get_field j (
            copy "first_token_timeout_ms" (get_field "first_token_timeout_ms" e) (
              copy "timeout_ms"
                (get_field "timeout_ms" e)
                (with_envelope e (get_field "automatic" e) (stripped f)))))
get_field-overridden j e f ir = get_field-set_field j "policy_ir" (array ir) _

or-none : (o : Option Json) → or_option o none ≡ o
or-none none = refl
or-none (some v) = refl

envelope_lem :
    (e : Fields) (o : Option Json)
    → or_option (elim o [ none ↦ none | some v ↦ some (object (envelope e)) ]) none
      ≡ (if (elim o [ none ↦ false | some v ↦ true ]) then some (object (envelope e)) else none)
envelope_lem e none = refl
envelope_lem e (some v) = refl

free_lem :
    (k : String)
    → is_free k ≡ true
    → (str_eq "policy_ir" k ≡ false)
      × (str_eq "flow_ir" k ≡ false)
      × (str_eq "timeout_ms" k ≡ false)
      × (str_eq "first_token_timeout_ms" k ≡ false)
      × (str_eq "task_policies" k ≡ false)
      × (str_eq "_auto_contract" k ≡ false)
      × (str_eq "routing_preference" k ≡ false)
free_lem k h = ground arith

overridden-IsOwned :
    (e payload : Fields) (ir : Items)
    → IsOwned e payload ir (overridden e (pop_field "routing_preference" payload) ir)
overridden-IsOwned e payload ir = (
  get_field-set_field "policy_ir" "policy_ir" (array ir) _,
  simp (get_field-set_field, get_field-copy, get_field-envelope, get_field-pop_field) refl,
  simp (get_field-set_field, get_field-copy, get_field-envelope, get_field-pop_field) refl,
  simp (get_field-set_field, get_field-copy, get_field-envelope, get_field-pop_field) refl,
  simp (get_field-set_field, get_field-copy, get_field-envelope, get_field-pop_field, or-none) refl,
  simp (get_field-set_field, get_field-copy, get_field-envelope, get_field-pop_field, or-none) refl,
  simp (get_field-set_field, get_field-copy, get_field-envelope, get_field-pop_field)
      (envelope_lem e (get_field "automatic" e)),
  λ k free.
      let (a, b, c, d, g, h, i) = free_lem k free in
      simp
        (
          get_field-set_field, get_field-copy, get_field-envelope, get_field-pop_field, a, b, c, d,
          g, h, i,
        )
        refl,
)

-- What is claimed of an applied contract: the policy is the contract's own, with no preference of the
-- caller, or that of the variant that the caller prefers, a usable one, on a route that is not
-- automatic; and the payload is the owner's.
abbrev pub IsAuthorized : Contract → Fields → Fields → ChosenPolicy → Type 0
IsAuthorized c payload out s =
    IsOwned c.execution payload s.policy_ir out
    × (((s.policy_ir ≡ c.policy_ir)
          × (s.policy_id ≡ c.policy_id)
          × (s.routing_preference ≡ "default"))
        ⊎ ((get_field "routing_preference" payload ≡ some (text s.routing_preference))
            × (is_automatic c.execution ≡ false)
            × (is_policy_id s.policy_id ≡ true)
            × ((v : Variant) × ((c.variant_of s.routing_preference ≡ some (some v))
                  × (v.policy_ir ≡ some s.policy_ir)
                  × (v.policy_id ≡ s.policy_id)))))

applied_inj : (f g : Fields) (s t : ChosenPolicy) → applied f s ≡ applied g t → (f ≡ g) × (s ≡ t)
applied_inj f g s t h = (cc, cc)

and-true : (a b : Bool) → (a && b) ≡ true → (a ≡ true) × (b ≡ true)
and-true true b h = (refl, h)
and-true false b h = absurd cc

not-true : (b : Bool) → not b ≡ true → b ≡ false
not-true true h = sym h
not-true false h = refl

default-IsAuthorized :
    (c : Contract) (payload out : Fields) (s : ChosenPolicy)
    → applied
        (overridden c.execution (pop_field "routing_preference" payload) c.policy_ir)
        (record {
          policy_ir = c.policy_ir;
          policy_id = c.policy_id;
          routing_preference = "default";
        })
      ≡ applied out s
    → IsAuthorized c payload out s
default-IsAuthorized c payload out s h =
    let (f, g) = applied_inj _ _ _ _ h in
    subst (λ x. IsAuthorized c payload out x) g
      (subst
        (λ x. IsAuthorized c payload x (record {
          policy_ir = c.policy_ir;
          policy_id = c.policy_id;
          routing_preference = "default";
        }))
        f (overridden-IsOwned c.execution payload c.policy_ir, inl (refl, refl, refl)))

variant-IsAuthorized :
    (c : Contract) (payload out : Fields) (s : ChosenPolicy) (name : String) (v : Variant)
    (o : Option Items)
    → get_field "routing_preference" payload ≡ some (text name)
    → c.variant_of name ≡ some (some v)
    → v.policy_ir ≡ o
    → choose_policy c (pop_field "routing_preference" payload) name v o ≡ applied out s
    → IsAuthorized c payload out s
unfolding choose_policy
variant-IsAuthorized c payload out s name v none asked found e h = absurd cc
variant-IsAuthorized c payload out s name v (some ir) asked found e h =
    elim (Bool-cases (is_policy_id v.policy_id && not (is_automatic c.execution))) [
      | inr off ↦ let g = rw off at h in absurd cc
      | inl on ↦
          let g = rw on at h in
          let (hex, manual) =
            and-true (is_policy_id v.policy_id) (not (is_automatic c.execution)) on in
          let (p, q) = applied_inj _ _ _ _ g in
          let chosen : ChosenPolicy = record {
            policy_ir = ir;
            policy_id = v.policy_id;
            routing_preference = name;
          } in
          subst (λ x. IsAuthorized c payload out x) q
            (subst (λ x. IsAuthorized c payload x chosen) p
              (
                overridden-IsOwned c.execution payload ir,
                inr (asked, not-true _ manual, hex, (v, (found, e, refl))),
              ))
    ]

choice-IsAuthorized :
    (c : Contract) (payload out : Fields) (s : ChosenPolicy) (name : String)
    (o : Option (Option Variant))
    → get_field "routing_preference" payload ≡ some (text name)
    → c.variant_of name ≡ o
    → choose c (pop_field "routing_preference" payload) name o ≡ applied out s
    → IsAuthorized c payload out s
unfolding choose
choice-IsAuthorized c payload out s name none asked found h = absurd cc
choice-IsAuthorized c payload out s name (some none) asked found h = absurd cc
choice-IsAuthorized c payload out s name (some (some v)) asked found h =
    variant-IsAuthorized c payload out s name v v.policy_ir asked found refl h

preference-IsAuthorized :
    (c : Contract) (payload out : Fields) (s : ChosenPolicy) (o : Option Json)
    → get_field "routing_preference" payload ≡ o
    → apply_preference c (pop_field "routing_preference" payload) o ≡ applied out s
    → IsAuthorized c payload out s
unfolding apply_preference
preference-IsAuthorized c payload out s none asked h = default-IsAuthorized c payload out s h
preference-IsAuthorized c payload out s (some null) asked h = default-IsAuthorized c payload out s h
preference-IsAuthorized c payload out s (some (text name)) asked h =
    choice-IsAuthorized c payload out s name (c.variant_of name) asked refl h
preference-IsAuthorized c payload out s (some (bool b)) asked h = absurd cc
preference-IsAuthorized c payload out s (some (number n)) asked h = absurd cc
preference-IsAuthorized c payload out s (some (array xs)) asked h = absurd cc
preference-IsAuthorized c payload out s (some (object f)) asked h = absurd cc

-- A caller of a published route gets the owner's policy or a variant that the owner published under
-- the preference the caller names, with a well-formed id and not on an automatic route. In the payload
-- that is sent on, the policy is that one; the time limits are those of the contract's execution, or
-- absent; the envelope of an automatic route is there exactly on such a route, with the execution's
-- fields; no flow, task policies or preference is left; and every other field is the caller's.
pub apply_contract-IsAuthorized :
    (payload out : Fields) (c : Contract) (s : ChosenPolicy)
    → apply_contract payload c ≡ applied out s
    → IsAuthorized c payload out s
unfolding apply_contract
apply_contract-IsAuthorized payload out c s h =
    preference-IsAuthorized c payload out s (get_field "routing_preference" payload) refl h
