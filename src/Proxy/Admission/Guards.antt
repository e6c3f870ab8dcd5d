-- ===== src/Proxy/Admission/Guards.antt =====
-- What the guards of the admission let through, from the route's check on.
use unhardcoded.Prelude.{
  ℕ, String, Bool, true, false, ◌≡◌, ◌⊎◌, inl, inr, refl, sym, ap, Option, none, some, List, not,
  ◌||◌,
}
use unhardcoded.Budget.{reserve_subject_budget, Tables}
use unhardcoded.Rate.{Bucket, Draw, consume_rate_token}
use unhardcoded.Proxy.Keys.{Identity}
use unhardcoded.Proxy.Routes.{route_allowed}
use unhardcoded.Proxy.Tenant.{KeyLimits, Published, chat_completions, responses}
use unhardcoded.Proxy.Tenant.Owned.{IsPublished}
use unhardcoded.Proxy.Admission.{
  Answers, Target, Config, Shared, Response, Forward, Verdict, forwards, enter, claim_of, held_of,
  gate, budget_of, reserve, tenant_of, is_tenant, optional_budget, spend_known, spend_below,
  check_spend, draw_of, key_draw, check_key_rate, check_rate, check_route,
}

abbrev pub Sends : Verdict × Shared → Forward → Type 0
Sends r f = r.0 ≡ forwards f

gate-Sends :
    (b : Bool) (reply : Response) (s : Shared) (rest : Verdict × Shared) (f : Forward)
    → Sends (gate b reply s rest) f
    → (b ≡ true) × Sends rest f
unfolding gate
gate-Sends true reply s rest f h = (refl, h)
gate-Sends false reply s rest f h = absurd cc

not-true : (b : Bool) → not b ≡ true → b ≡ false
not-true true h = sym h
not-true false h = refl

either : (a b : Bool) → (not a || b) ≡ true → (a ≡ false) ⊎ (b ≡ true)
either true b h = inr h
either false b h = inl refl

module _ (cfg : Config) (w : Answers) where
  -- The budget of the key was reserved, where it has one.
  abbrev pub IsReserved : Identity → Option (String × ℕ) → Tables → Forward → Type 0
  IsReserved i none t f = f.reservation ≡ none
  IsReserved i (some (subject, limit)) t f =
      (f.reservation ≡ some (held_of cfg w limit))
      × ((reserve_subject_budget w.budget_db (claim_of cfg w (tenant_of i) subject limit)
            w.budget_stamp t).0.allowed
          ≡ true)

  -- The token of the key's subject was drawn, where it has a rate.
  abbrev pub IsDrawn : Option Draw → List Bucket → Type 0
  IsDrawn none bs = true ≡ true
  IsDrawn (some d) bs = (consume_rate_token w.key_rate_db d bs).0.allowed ≡ true

  abbrev pub IsSpendable : Identity → Type 0
  IsSpendable i =
      (spend_known (optional_budget i.meta.budget_usd) w.spent ≡ true)
      × (spend_below (optional_budget i.meta.budget_usd) w.spent ≡ true)

  -- The caller, the limits and what is sent where: the request's own route and body, or a published
  -- route with the payload that its contract leaves of the request's.
  abbrev pub Addresses : Identity → Target → Option KeyLimits → Type 0
  Addresses i to k =
      ((is_tenant i ≡ false) × (to.route ≡ w.tenant.requested) × (to.payload ≡ none) × (k ≡ none))
      ⊎ ((is_tenant i ≡ true)
          × (w.tenant.method ≡ "POST")
          × ((to.path ≡ chat_completions) ⊎ (to.path ≡ responses))
          × ((p : Published) × ((to.route ≡ some p.route)
                × (to.payload ≡ some p.payload)
                × (k ≡ p.key)
                × IsPublished w.tenant p)))

  enter-Sends :
      (f g : Forward) (s : Shared) (o : Option Bool)
      → Sends (enter f s o) g
      → (o ≡ some true) × (f ≡ g)
  unfolding enter
  enter-Sends f g s none h = absurd cc
  enter-Sends f g s (some true) h = (refl, cc)
  enter-Sends f g s (some false) h = absurd cc

  -- What holds of the last part of the admission.
  abbrev pub Entered : Identity → Target → Option (String × ℕ) → Tables → Forward → Type 0
  Entered i to b t f =
      (f.identity ≡ i) × (f.target ≡ to) × (w.capacity ≡ some true) × IsReserved i b t f

  reserve-Sends :
      (i : Identity) (to : Target) (b : Option (String × ℕ)) (s : Shared) (f : Forward)
      → Sends (reserve cfg w i to (tenant_of i) b s) f
      → Entered i to b s.tables f
  unfolding reserve
  reserve-Sends i to none s f h =
      let (entered, same) = enter-Sends _ f s w.capacity h in
      (
        ap (λ x. x.identity) (sym same),
        ap (λ x. x.target) (sym same),
        entered,
        ap (λ x. x.reservation) (sym same),
      )
  reserve-Sends i to (some (subject, limit)) s f h =
      let (ok, h1) = gate-Sends _ _ _ _ f h in
      let (allowed, h2) = gate-Sends _ _ _ _ f h1 in
      let (entered, same) = enter-Sends _ f _ w.capacity h2 in
      (
        ap (λ x. x.identity) (sym same),
        ap (λ x. x.target) (sym same),
        entered,
        (ap (λ x. x.reservation) (sym same), allowed),
      )

  abbrev pub Spent : Identity → Target → Option KeyLimits → Tables → Forward → Type 0
  Spent i to k t f =
      (w.is_show ≡ false)
      × IsSpendable i
      × ((is_tenant i ≡ false) ⊎ (w.transport_ok ≡ true))
      × Entered i to (budget_of k) t f

  check_spend-Sends :
      (i : Identity) (to : Target) (k : Option KeyLimits) (s : Shared) (f : Forward)
      → Sends (check_spend cfg w i to k s) f
      → Spent i to k s.tables f
  unfolding check_spend
  check_spend-Sends i to k s f h =
      let (shown, h1) = gate-Sends _ _ _ _ f h in
      let (known, h2) = gate-Sends _ _ _ _ f h1 in
      let (below, h3) = gate-Sends _ _ _ _ f h2 in
      let (trusted, h4) = gate-Sends _ _ _ _ f h3 in
      (
        not-true w.is_show shown,
        (known, below),
        either (is_tenant i) w.transport_ok trusted,
        reserve-Sends i to (budget_of k) s f h4,
      )

  check_key_rate-Sends :
      (i : Identity) (to : Target) (k : Option KeyLimits) (d : Option Draw) (s : Shared)
      (f : Forward)
      → Sends (check_key_rate cfg w i to k d s) f
      → IsDrawn d s.buckets × Spent i to k s.tables f
  unfolding check_key_rate
  check_key_rate-Sends i to k none s f h = (refl, check_spend-Sends i to k s f h)
  check_key_rate-Sends i to k (some d) s f h =
      let (ok, h1) = gate-Sends _ _ _ _ f h in
      let (allowed, h2) = gate-Sends _ _ _ _ f h1 in (allowed, check_spend-Sends i to k _ f h2)

  -- What holds from the route's check on.
  abbrev pub Routed : Identity → Target → Option KeyLimits → Shared → Forward → Type 0
  Routed i to k s f =
      let r = consume_rate_token w.rate_db (draw_of cfg w i) s.buckets in
      (route_allowed i.meta.allowed_routes to.route ≡ true)
      × (r.0.allowed ≡ true)
      × IsDrawn (key_draw w i k) r.1
      × Spent i to k s.tables f

  pub check_route-Sends :
      (i : Identity) (to : Target) (k : Option KeyLimits) (s : Shared) (f : Forward)
      → Sends (check_route cfg w i to k s) f
      → Routed i to k s f
  unfolding check_route check_rate
  check_route-Sends i to k s f h =
      let (may, h0) = gate-Sends _ _ _ _ f h in
      let (ok, h1) = gate-Sends _ _ _ _ f h0 in
      let (allowed, h2) = gate-Sends _ _ _ _ f h1 in
      let (drawn, rest) = check_key_rate-Sends i to k (key_draw w i k) _ f h2 in
      (may, allowed, drawn, rest)
