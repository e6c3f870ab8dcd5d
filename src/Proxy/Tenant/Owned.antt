-- ===== src/Proxy/Tenant/Owned.antt =====
-- What a tenant's resolved request is.
use unhardcoded.Prelude.{
  ℕ, Bool, arith, ◌∷◌, [], String, false, true, sym, ap, ◌∙◌, ◌⊎◌, eq_iff, str_eq, Option, none,
  some, List, ◌≡◌, refl, Bool-cases, inl, inr, subst,
}
use unhardcoded.Proxy.Path.{same_text}
use unhardcoded.Contract.{
  Fields, Contract, Applied, preference_not_allowed, applied, apply_contract, text, get_field,
  set_field,
}
use unhardcoded.Contract.Owner.{IsAuthorized, apply_contract-IsAuthorized}
use unhardcoded.Proxy.Tenant.{
  KeyLimits, Published, published, ResolvedRoute, TenantRequest, is_default, or_name, slug_of,
  is_route, route_prefix, publish, take_default, resolve_default, resolve_named, resolve_requested,
  resolve_payload, resolution_of, is_chat_post, chat_completions, responses,
}

-- The payload names no route: neither under `model` nor under `name`, or as "auto".
abbrev pub wants_default : Fields → Bool
wants_default f = is_default (or_name (get_field "model" f) (get_field "name" f))

-- The route has the form of a published one, its limits and contract are those that the control plane
-- answered for it, and the contract authorizes the payload: of the request's payload under the route
-- that it names, or with the default route as its model where it names none.
abbrev pub IsPublished : TenantRequest → Published → Type 0
IsPublished t p =
    (is_route p.route ≡ true)
    × ((f : Fields) × ((r : ResolvedRoute) × ((t.payload ≡ some f)
            × (p.key ≡ r.key)
            × (((wants_default f ≡ true)
                  × (t.resolve_route none ≡ some r)
                  × (r.route ≡ some p.route)
                  × IsAuthorized r.contract (set_field "model" (text (t.as_text p.route)) f)
                      p.payload p.chosen)
                ⊎ ((wants_default f ≡ false)
                    × (t.requested ≡ some p.route)
                    × (t.resolve_route (slug_of route_prefix p.route) ≡ some r)
                    × IsAuthorized r.contract f p.payload p.chosen)))))

-- What a contract's answer is published as.
publish_lem :
    (route : List ℕ) (key : Option KeyLimits) (f : Fields) (c : Contract) (a : Applied)
    (p : Published)
    → apply_contract f c ≡ a
    → publish route key a ≡ published p
    → (p.route ≡ route) × (p.key ≡ key) × IsAuthorized c f p.payload p.chosen
unfolding publish
publish_lem route key f c preference_not_allowed p e h = absurd cc
publish_lem route key f c (applied out s) p e h =
    let same : record { route = route; key = key; payload = out; chosen = s } ≡ p = cc in
    subst (λ q. (q.route ≡ route) × (q.key ≡ key) × IsAuthorized c f q.payload q.chosen) same
      (refl, refl, apply_contract-IsAuthorized f out c s e)

module _ (t : TenantRequest) (f : Fields) (p : Published) (body : t.payload ≡ some f) where
  default-IsPublished :
      (r : ResolvedRoute) (o : Option (List ℕ))
      → wants_default f ≡ true
      → t.resolve_route none ≡ some r
      → r.route ≡ o
      → take_default t f r o ≡ published p
      → IsPublished t p
  unfolding take_default
  default-IsPublished r none d a e h = absurd cc
  default-IsPublished r (some route) d a e h = elim (Bool-cases (is_route route)) [
    | inl form ↦
        let g = rw form at h in
        let (same, key, authorized) =
          publish_lem route r.key (set_field "model" (text (t.as_text route)) f) r.contract _ p refl
            g in
        (
          ap is_route same ∙ form,
          (
            f,
            (
              r,
              (
                body,
                key,
                inl (
                  d,
                  a,
                  e ∙ ap some (sym same),
                  subst
                      (λ x.
                        IsAuthorized r.contract (set_field "model" (text (t.as_text x)) f) p.payload
                          p.chosen)
                      (sym same) authorized,
                ),
              ),
            ),
          ),
        )
    | inr form ↦ let g = rw form at h in absurd cc
  ]

  resolved-IsPublished :
      (o : Option ResolvedRoute)
      → wants_default f ≡ true
      → t.resolve_route none ≡ o
      → resolve_default t f o ≡ published p
      → IsPublished t p
  unfolding resolve_default
  resolved-IsPublished none d a h = absurd cc
  resolved-IsPublished (some r) d a h = default-IsPublished r r.route d a refl h

  named-IsPublished :
      (route : List ℕ) (o : Option ResolvedRoute)
      → wants_default f ≡ false
      → t.requested ≡ some route
      → is_route route ≡ true
      → t.resolve_route (slug_of route_prefix route) ≡ o
      → resolve_named f route o ≡ published p
      → IsPublished t p
  unfolding resolve_named
  named-IsPublished route none d e form a h = absurd cc
  named-IsPublished route (some r) d e form a h =
      let (same, key, authorized) = publish_lem route r.key f r.contract _ p refl h in
      (
        ap is_route same ∙ form,
        (
          f,
          (
            r,
            (
              body,
              key,
              inr (
                d,
                e ∙ ap some (sym same),
                ap (λ x. t.resolve_route (slug_of route_prefix x)) same ∙ a,
                authorized,
              ),
            ),
          ),
        ),
      )

  requested-IsPublished :
      (o : Option (List ℕ))
      → wants_default f ≡ false
      → t.requested ≡ o
      → resolve_requested t f o ≡ published p
      → IsPublished t p
  unfolding resolve_requested
  requested-IsPublished none d e h = absurd cc
  requested-IsPublished (some route) d e h = elim (Bool-cases (is_route route)) [
    | inl form ↦
        let g = rw form at h in
        named-IsPublished route (t.resolve_route (slug_of route_prefix route)) d e form refl g
    | inr form ↦ let g = rw form at h in absurd cc
  ]

same_text_iff : (a b : List ℕ) → same_text a b ≡ true → a ≡ b
same_text_iff [] [] h = refl
same_text_iff [] (d ∷ ds) h = cc
same_text_iff (c ∷ cs) [] h = cc
same_text_iff (c ∷ cs) (d ∷ ds) h = ground (arith, same_text_iff cs ds)

chat_post :
    (method : String) (path : List ℕ)
    → is_chat_post method path ≡ true
    → (method ≡ "POST") × ((path ≡ chat_completions) ⊎ (path ≡ responses))
chat_post method path h = elim (Bool-cases (str_eq method "POST")) [
  | inr e ↦ let g = rw e at h in absurd cc
  | inl e ↦
      let g = rw e at h in
      (
        (eq_iff method "POST").0 e,
        elim (Bool-cases (same_text path chat_completions)) [
          | inl c ↦ inl (same_text_iff path chat_completions c)
          | inr c ↦ let r = (rw c at g) in inr (same_text_iff path responses r)
        ],
      )
]

payload_lem :
    (t : TenantRequest) (path : List ℕ) (o : Option Fields) (p : Published)
    → t.payload ≡ o
    → resolve_payload t path o ≡ published p
    → (t.method ≡ "POST") × ((path ≡ chat_completions) ⊎ (path ≡ responses)) × IsPublished t p
unfolding resolve_payload
payload_lem t path none p body h = absurd cc
payload_lem t path (some f) p body h = elim (Bool-cases (is_chat_post t.method path)) [
  | inr e ↦ let g = rw e at h in absurd cc
  | inl e ↦
      let g = rw e at h in
      let (post, chat) = chat_post t.method path e in
      elim (Bool-cases (wants_default f)) [
        | inl d ↦
            let k = rw d at g in
            (post, chat, resolved-IsPublished t f p body (t.resolve_route none) d refl k)
        | inr d ↦
            let k = rw d at g in (post, chat, requested-IsPublished t f p body t.requested d refl k)
      ]
]

pub payload-IsPublished :
    (t : TenantRequest) (path : List ℕ) (p : Published)
    → resolution_of t path ≡ published p
    → (t.method ≡ "POST") × ((path ≡ chat_completions) ⊎ (path ≡ responses)) × IsPublished t p
payload-IsPublished t path p h = payload_lem t path t.payload p refl h
