-- ===== src/Proxy/Admission/Stops.antt =====
-- What a request leaves when the admission ends: its permits and its settles.
use unhardcoded.Prelude.{
  ℕ, ◌+◌, String, Bool, true, false, ◌≡◌, ◌⊎◌, inl, inr, refl, ap, sym, ◌∙◌, Option, none, some,
  List, ◌∷◌, Bool-cases,
}
use unhardcoded.Budget.{reserve_subject_budget, unknown_cost, Claim}
use unhardcoded.Rate.{Draw}
use unhardcoded.Proxy.Keys.{Auth, denied, granted, Identity}
use unhardcoded.Proxy.Settles.{Submitted, settle_reservation}
use unhardcoded.Proxy.Tenant.{
  KeyLimits, Resolution, published, no_object, wants_route, preference_refused, unavailable,
  resolution_of,
}
use unhardcoded.Proxy.Admission.{
  auth_of, path_of, Answers, Config, Shared, Response, Target, own_target, Verdict, stops, forwards,
  enter, settle_none, claim_of, held_of, gate, budget_of, reserve, tenant_of, is_tenant,
  check_spend, key_draw, check_key_rate, check_rate, check_route, resolve, authorize, admit_path,
  proxy,
}

-- The settle of a reservation whose cost is unknown.
abbrev pub settle_of : String → Submitted
settle_of id = record { id = id; cost = unknown_cost }

module _ (w : Answers) where
  -- The budget tables and the settles, against those before: no reservation was tried; or one was, and
  -- it was not heard to be admitted and nothing is settled, or it was and it is settled once.
  abbrev pub Reverts : Shared → Shared → Type 0
  Reverts s t =
      ((t.tables ≡ s.tables) × (t.submitted ≡ s.submitted))
      ⊎ ((c : Claim) × (let r = reserve_subject_budget w.budget_db c w.budget_stamp s.tables in
            (t.tables ≡ r.1)
            × (((r.0.store_ok ≡ false) × (t.submitted ≡ s.submitted))
                ⊎ (((r.0.allowed ≡ false) × (t.submitted ≡ s.submitted))
                    ⊎ ((r.0.allowed ≡ true)
                        × (t.submitted ≡ settle_of c.reservation_id ∷ s.submitted))))))

  -- A request that is stopped holds no permit and nothing reserved that it has not settled; one that is
  -- sent holds one permit and has settled nothing.
  abbrev pub Leaves : Shared → Verdict × Shared → Type 0
  Leaves s (stops reply, t) = (t.permits ≡ s.permits) × Reverts s t
  Leaves s (forwards f, t) = (t.permits ≡ s.permits + 1) × (t.submitted ≡ s.submitted)

  gate-Leaves :
      (s t : Shared) (b : Bool) (reply : Response) (rest : Verdict × Shared)
      → (b ≡ false → Leaves s (stops reply, t))
      → (b ≡ true → Leaves s rest)
      → Leaves s (gate b reply t rest)
  unfolding gate
  gate-Leaves s t true reply rest stopped passed = passed refl
  gate-Leaves s t false reply rest stopped passed = stopped refl

  module _ (cfg : Config) where
    -- The request before it tried a reservation: the buckets may have changed.
    abbrev Untouched : Shared → Shared → Type 0
    Untouched s t = (t.permits ≡ s.permits) × (t.tables ≡ s.tables) × (t.submitted ≡ s.submitted)

    enter-free :
        (s t : Shared) (i : Identity) (to : Target) (o : Option Bool)
        → Untouched s t
        → Leaves s (enter (record { identity = i; target = to; reservation = none }) t o)
    unfolding enter settle_none settle_reservation
    enter-free s t i to none (p, q, r) = (p, inl (q, r))
    enter-free s t i to (some true) (p, q, r) = (ap (λ n. n + 1) p, r)
    enter-free s t i to (some false) (p, q, r) = (p, inl (q, r))

    enter-held :
        (s t : Shared) (i : Identity) (to : Target) (tenant : ℕ) (subject : String) (limit : ℕ)
        (o : Option Bool)
        → t.permits ≡ s.permits
        → t.tables
          ≡ (reserve_subject_budget w.budget_db
              (claim_of cfg w tenant subject limit)
              w.budget_stamp
              s.tables).1
        → t.submitted ≡ s.submitted
        → (reserve_subject_budget w.budget_db
            (claim_of cfg w tenant subject limit)
            w.budget_stamp
            s.tables).0.allowed
          ≡ true
        → Leaves s (
            enter
              (record { identity = i; target = to; reservation = some (held_of cfg w limit) })
              t
              o)
    unfolding enter settle_none settle_reservation
    enter-held s t i to tenant subject limit none p q r a = (
      p,
      inr (
        claim_of cfg w tenant subject limit,
        (q, inr (inr (a, ap (λ l. settle_of w.reservation_id ∷ l) r))),
      ),
    )
    enter-held s t i to tenant subject limit (some true) p q r a = (ap (λ n. n + 1) p, r)
    enter-held s t i to tenant subject limit (some false) p q r a = (
      p,
      inr (
        claim_of cfg w tenant subject limit,
        (q, inr (inr (a, ap (λ l. settle_of w.reservation_id ∷ l) r))),
      ),
    )

    reserve-Leaves :
        (s t : Shared) (i : Identity) (to : Target) (tenant : ℕ) (b : Option (String × ℕ))
        → Untouched s t
        → Leaves s (reserve cfg w i to tenant b t)
    unfolding reserve enter settle_none settle_reservation
    reserve-Leaves s t i to tenant none u = enter-free s t i to w.capacity u
    reserve-Leaves s t i to tenant (some (subject, limit)) (p, q, r) =
        let c = claim_of cfg w tenant subject limit in
        let e = ap (reserve_subject_budget w.budget_db c w.budget_stamp) q in
        gate-Leaves s _ _ _ _
          (λ failed.
            (p, inr (c, (ap (λ x. x.1) e, inl (ap (λ x. x.0.store_ok) (sym e) ∙ failed, r)))))
          (λ ok.
            gate-Leaves s _ _ _ _
              (λ full. (
                p,
                inr (c, (ap (λ x. x.1) e, inr (inl (ap (λ x. x.0.allowed) (sym e) ∙ full, r)))),
              ))
              (λ admitted.
                enter-held s _ i to tenant subject limit w.capacity p (ap (λ x. x.1) e) r
                  (ap (λ x. x.0.allowed) (sym e) ∙ admitted)))

    -- A guard before the reservation.
    gate-early :
        (s t : Shared) (b : Bool) (reply : Response) (rest : Verdict × Shared)
        → Untouched s t
        → Leaves s rest
        → Leaves s (gate b reply t rest)
    gate-early s t b reply rest (p, q, r) h =
        gate-Leaves s t b reply rest (λ e. (p, inl (q, r))) (λ e. h)

    check_spend-Leaves :
        (s t : Shared) (i : Identity) (to : Target) (k : Option KeyLimits)
        → Untouched s t
        → Leaves s (check_spend cfg w i to k t)
    unfolding check_spend
    check_spend-Leaves s t i to k u = gate-early s t _ _ _ u (
        gate-early s t _ _ _ u (
          gate-early s t _ _ _ u
            (gate-early s t _ _ _ u (reserve-Leaves s t i to (tenant_of i) (budget_of k) u))))

    check_key_rate-Leaves :
        (s t : Shared) (i : Identity) (to : Target) (k : Option KeyLimits) (d : Option Draw)
        → Untouched s t
        → Leaves s (check_key_rate cfg w i to k d t)
    unfolding check_key_rate
    check_key_rate-Leaves s t i to k none u = check_spend-Leaves s t i to k u
    check_key_rate-Leaves s t i to k (some d) u =
        gate-early s _ _ _ _ u (gate-early s _ _ _ _ u (check_spend-Leaves s _ i to k u))

    check_route-Leaves :
        (s : Shared) (i : Identity) (to : Target) (k : Option KeyLimits)
        → Leaves s (check_route cfg w i to k s)
    unfolding check_route check_rate
    check_route-Leaves s i to k =
        let u : Untouched s s = (refl, refl, refl) in
        gate-early s s _ _ _ u (
          gate-early s _ _ _ _ u
            (gate-early s _ _ _ _ u (check_key_rate-Leaves s _ i to k (key_draw w i k) u)))

    resolve-Leaves :
        (s : Shared) (i : Identity) (path : List ℕ) (o : Resolution)
        → Leaves s (resolve cfg w i path o s)
    unfolding resolve
    resolve-Leaves s i path no_object = (refl, inl (refl, refl))
    resolve-Leaves s i path wants_route = (refl, inl (refl, refl))
    resolve-Leaves s i path preference_refused = (refl, inl (refl, refl))
    resolve-Leaves s i path unavailable = (refl, inl (refl, refl))
    resolve-Leaves s i path (published p) = check_route-Leaves s i _ p.key

    authorize-Leaves : (s : Shared) (path : List ℕ) (a : Auth) → Leaves s (authorize cfg w path a s)
    unfolding authorize
    authorize-Leaves s path (denied c code) = (refl, inl (refl, refl))
    authorize-Leaves s path (granted i) = elim (Bool-cases (is_tenant i)) [
      | inl t ↦ rw t (resolve-Leaves s i path (resolution_of w.tenant path))
      | inr t ↦ rw t (check_route-Leaves s i (own_target w path) none)
    ]

    admit_path-Leaves : (s : Shared) (o : Option (List ℕ)) → Leaves s (admit_path cfg w o s)
    unfolding admit_path
    admit_path-Leaves s none = (refl, inl (refl, refl))
    admit_path-Leaves s (some path) = authorize-Leaves s path (auth_of w)

-- However the admission ends, it has balanced its books. A request that is stopped, by whichever check
-- and also by an exception while it waits for room, holds no permit; the budget tables are as they
-- were, or as its one reservation left them; and that reservation was settled, once and with no cost,
-- where the store was heard to admit it, and nothing was settled otherwise. A request that is sent
-- holds one permit, and nothing is settled yet.
pub proxy-Leaves : (cfg : Config) (w : Answers) (s : Shared) → Leaves w s (proxy cfg w s)
proxy-Leaves cfg w s = admit_path-Leaves w cfg s (path_of w)
