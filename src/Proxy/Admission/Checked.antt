-- ===== src/Proxy/Admission/Checked.antt =====
-- What a request that is sent to the router passed.
use unhardcoded.Prelude.{
  ℕ, String, true, false, ◌≡◌, ◌⊎◌, inl, inr, refl, ap, sym, subst, Option, none, some, List,
  Bool-cases,
}
use unhardcoded.Rate.{consume_rate_token}
use unhardcoded.Proxy.Keys.{Auth, denied, granted, truthy, Identity}
use unhardcoded.Proxy.Keys.Granted.{IsLocal, IsTenant, caller_auth_async-granted}
use unhardcoded.Proxy.Path.Safe.{IsForwardable, proxy_path-IsForwardable}
use unhardcoded.Proxy.Routes.{route_allowed}
use unhardcoded.Proxy.Tenant.{
  KeyLimits, Resolution, published, no_object, wants_route, preference_refused, unavailable,
  resolution_of,
}
use unhardcoded.Proxy.Tenant.Owned.{payload-IsPublished}
use unhardcoded.Proxy.Admission.{
  auth_of, path_of, Answers, Target, own_target, Config, Shared, Forward, forwards, budget_of,
  is_tenant, draw_of, key_draw, resolve, authorize, admit_path, proxy,
}
use unhardcoded.Proxy.Admission.Guards.{
  Sends, IsReserved, IsDrawn, IsSpendable, Addresses, Routed, check_route-Sends,
}

module _ (cfg : Config) (w : Answers) where
  -- What the request of a caller for a route passed, when it is sent.
  abbrev pub Passed : Shared → Forward → Identity → Target → Type 0
  Passed s f i to =
      let r = consume_rate_token w.rate_db (draw_of cfg w i) s.buckets in
      (auth_of w ≡ granted i)
      × ((k : Option KeyLimits) × (Addresses cfg w i to k
            × (route_allowed i.meta.allowed_routes to.route ≡ true)
            × (r.0.allowed ≡ true)
            × IsDrawn cfg w (key_draw w i k) r.1
            × IsSpendable cfg w i
            × ((is_tenant i ≡ false) ⊎ (w.transport_ok ≡ true))
            × (w.capacity ≡ some true)
            × IsReserved cfg w i (budget_of k) s.tables f))

  collected :
      (i : Identity) (to : Target) (k : Option KeyLimits) (s : Shared) (f : Forward)
      → auth_of w ≡ granted i
      → Addresses cfg w i to k
      → Routed cfg w i to k s f
      → (f.target.path ≡ to.path) × Passed s f f.identity f.target
  collected i to k s f auth addressed
        (may, allowed, drawn, (shown, spendable, trusted, (who, where_to, entered, reserved))) =
      (
        ap (λ x. x.path) where_to,
        subst (λ j. Passed s f j f.target) (sym who)
            (subst (λ r. Passed s f i r) (sym where_to)
              (auth, (k, (addressed, may, allowed, drawn, spendable, trusted, entered, reserved)))),
      )

  resolve-Sends :
      (i : Identity) (path : List ℕ) (o : Resolution) (s : Shared) (f : Forward)
      → auth_of w ≡ granted i
      → is_tenant i ≡ true
      → resolution_of w.tenant path ≡ o
      → Sends (resolve cfg w i path o s) f
      → (f.target.path ≡ path) × Passed s f f.identity f.target
  unfolding resolve
  resolve-Sends i path no_object s f auth t e h = absurd cc
  resolve-Sends i path wants_route s f auth t e h = absurd cc
  resolve-Sends i path preference_refused s f auth t e h = absurd cc
  resolve-Sends i path unavailable s f auth t e h = absurd cc
  resolve-Sends i path (published p) s f auth t e h =
      let (post, chat, owned) = payload-IsPublished w.tenant path p e in
      collected i _ p.key s f auth (inr (t, post, chat, (p, (refl, refl, refl, owned))))
        (check_route-Sends cfg w i _ p.key s f h)

  authorize-Sends :
      (path : List ℕ) (a : Auth) (s : Shared) (f : Forward)
      → auth_of w ≡ a
      → Sends (authorize cfg w path a s) f
      → (f.target.path ≡ path) × Passed s f f.identity f.target
  unfolding authorize
  authorize-Sends path (denied c code) s f e h = absurd cc
  authorize-Sends path (granted i) s f e h = elim (Bool-cases (is_tenant i)) [
    | inl t ↦ let g = rw t at h in resolve-Sends i path (resolution_of w.tenant path) s f e t refl g
    | inr t ↦
        let g = rw t at h in
        collected i (own_target w path) none s f e (inl (t, refl, refl, refl))
          (check_route-Sends cfg w i (own_target w path) none s f g)
  ]

  admit_path-Sends :
      (o : Option (List ℕ)) (s : Shared) (f : Forward)
      → path_of w ≡ o
      → Sends (admit_path cfg w o s) f
      → IsForwardable w.raw_path w.path f.target.path × Passed s f f.identity f.target
  unfolding admit_path
  admit_path-Sends none s f e h = absurd cc
  admit_path-Sends (some path) s f e h =
      let (same, passed) = authorize-Sends path (auth_of w) s f refl h in
      (
        subst (IsForwardable w.raw_path w.path) (sym same)
            (proxy_path-IsForwardable w.raw_path w.path path e),
        passed,
      )

-- A request reaches the router only if all of this holds: the path that is sent splits into safe
-- segments, and is not the router's own; its caller was granted, for a key of a local store that its
-- record lets pass or for one that the control plane resolved; a tenant's request is a POST to
-- v1/chat/completions or v1/responses, goes to the published route that the control plane answered for
-- the route it names, or for its key's default where it names none, with that route's limits, and is
-- sent with the payload that that route's contract authorizes of the request's; any other goes to
-- the route it names, with its body as it came; the caller may use that route; a token was drawn
-- for the caller and, where its key has a rate, for the key's subject; the caller's own budget, where
-- it has one, is known not to be spent; a tenant's transport is trusted; the upstream section has
-- room; and, where the key has a monthly budget, the store admitted a reservation, which the request
-- holds.
pub proxy-Passed :
    (cfg : Config) (w : Answers) (s : Shared) (f : Forward)
    → (proxy cfg w s).0 ≡ forwards f
    → IsForwardable w.raw_path w.path f.target.path
      × ((t : String) × ((truthy w.token ≡ some t)
            × (IsLocal w.stores t f.identity ⊎ IsTenant w.stores w.control_plane t f.identity)))
      × Passed cfg w s f f.identity f.target
proxy-Passed cfg w s f h =
    let (path, passed) = admit_path-Sends cfg w (path_of w) s f refl h in
    (path, caller_auth_async-granted w.stores w.control_plane w.token f.identity passed.0, passed)
