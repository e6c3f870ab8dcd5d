-- ===== src/Proxy/Routes/Wildcards.antt =====
-- What the allowed routes of a caller let through.
use unhardcoded.Prelude.{
  ℕ, Bool, true, false, ◌&&◌, ◌||◌, Option, none, some, List, [], ◌∷◌, ◌++◌, any, ◌==◌, ◌≡◌, ◌⊎◌,
  ◌↔◌, inl, inr, refl, ap, sym, ◌∙◌,
}
use unhardcoded.Prelude.{==_iff}
use unhardcoded.Proxy.Path.{same_text, begins_with}
use unhardcoded.Proxy.Routes.{
  ends_with_star, drop_last, star, all_routes, route_matches, some_matches, route_allowed,
}

and_iff :
    (a b : Bool) {P Q : Type 0} → ((a ≡ true) ↔ P) → ((b ≡ true) ↔ Q) → ((a && b) ≡ true) ↔ (P × Q)
and_iff true b (to, from) (to', from') = (λ h. (to refl, to' h), λ (p, q). from' q)
and_iff false b (to, from) k = (λ h. absurd cc, λ (p, q). from p)

or_iff :
    (a b : Bool) {P Q : Type 0} → ((a ≡ true) ↔ P) → ((b ≡ true) ↔ Q) → ((a || b) ≡ true) ↔ (P ⊎ Q)
or_iff true b (to, from) k = (λ h. inl (to refl), λ h. refl)
or_iff false b (to, from) (to', from') =
    (λ h. inr (to' h), λ h. elim h [ inl p ↦ let e = from p in absurd cc | inr q ↦ from' q ])

pub same_text_iff : (s t : List ℕ) → (same_text s t ≡ true) ↔ (s ≡ t)
same_text_iff [] [] = (λ h. refl, λ h. refl)
same_text_iff [] (d ∷ ds) = (λ h. absurd cc, λ h. absurd cc)
same_text_iff (c ∷ cs) [] = (λ h. absurd cc, λ h. absurd cc)
same_text_iff (c ∷ cs) (d ∷ ds) =
    let (to, from) = and_iff (c == d) (same_text cs ds) (==_iff c d) (same_text_iff cs ds) in
    (λ h. let (e, f) = to h in cc, λ h. from (cc, cc))

begins_with_iff : (s t : List ℕ) → (begins_with s t ≡ true) ↔ ((rest : List ℕ) × (t ≡ s ++ rest))
unfolding begins_with
begins_with_iff [] t = (λ h. (t, refl), λ h. refl)
begins_with_iff (c ∷ cs) [] = (λ h. absurd cc, λ (rest, e). absurd cc)
begins_with_iff (c ∷ cs) (d ∷ ds) =
    let (to, from) = and_iff (c == d) (begins_with cs ds) (==_iff c d) (begins_with_iff cs ds) in
    (λ h. let (e, (rest, f)) = to h in (rest, cc), λ (rest, e). from (cc, (rest, cc)))

drop_last-star : (s : List ℕ) → ends_with_star s ≡ true → s ≡ drop_last s ++ star
unfolding ends_with_star drop_last
drop_last-star [] h = absurd cc
drop_last-star (c ∷ []) h = ap (λ x. x ∷ []) ((==_iff c 42).0 h)
drop_last-star (c ∷ (d ∷ cs)) h = ap (λ x. c ∷ x) (drop_last-star (d ∷ cs) h)

drop_last-snoc : (s : List ℕ) → (ends_with_star (s ++ star) ≡ true) × (drop_last (s ++ star) ≡ s)
unfolding ends_with_star drop_last
drop_last-snoc [] = (refl, refl)
drop_last-snoc (c ∷ []) = (refl, refl)
drop_last-snoc (c ∷ (d ∷ cs)) = let (e, f) = drop_last-snoc (d ∷ cs) in (e, ap (λ x. c ∷ x) f)

-- A pattern lets a route through: it is `*`, `all` or the route, or a stem of the route and a star.
abbrev pub Matches : List ℕ → List ℕ → Type 0
Matches p r =
    (p ≡ star)
    ⊎ ((p ≡ all_routes)
        ⊎ ((p ≡ r)
            ⊎ ((stem : List ℕ) × ((p ≡ stem ++ star) × ((rest : List ℕ) × (r ≡ stem ++ rest))))))

stem_iff :
    (p r : List ℕ)
    → ((ends_with_star p && begins_with (drop_last p) r) ≡ true)
      ↔ ((stem : List ℕ) × ((p ≡ stem ++ star) × ((rest : List ℕ) × (r ≡ stem ++ rest))))
stem_iff p r =
    let (to, from) =
      and_iff (ends_with_star p) (begins_with (drop_last p) r) (λ h. h, λ h. h)
        (begins_with_iff (drop_last p) r) in
    (
      λ h. let (e, rest) = to h in (drop_last p, (drop_last-star p e, rest)),
      λ (stem, (e, (rest, f))).
          let (ends, back) = drop_last-snoc stem in
          from (
            ap ends_with_star e ∙ ends,
            (rest, f ∙ ap (λ s. s ++ rest) (sym (ap drop_last e ∙ back))),
          ),
    )

route_matches_iff : (p r : List ℕ) → (route_matches p r ≡ true) ↔ Matches p r
unfolding route_matches
route_matches_iff p r = or_iff (same_text p star) _ (same_text_iff p star) (
    or_iff (same_text p all_routes) _ (same_text_iff p all_routes)
      (or_iff (same_text p r) _ (same_text_iff p r) (stem_iff p r)))

-- Some pattern of the list lets the route through.
abbrev pub SomeMatches : List (List ℕ) → List ℕ → Type 0
SomeMatches [] r = false ≡ true
SomeMatches (p ∷ ps) r = Matches p r ⊎ SomeMatches ps r

any_iff :
    (ps : List (List ℕ)) (r : List ℕ) → (any (λ p. route_matches p r) ps ≡ true) ↔ SomeMatches ps r
any_iff [] r = (λ h. h, λ h. h)
any_iff (p ∷ ps) r = or_iff (route_matches p r) _ (route_matches_iff p r) (any_iff ps r)

-- Who may use a route: a caller with no list may use any; a caller with one, only with a route that
-- is named and not empty.
abbrev pub MayUse : List (List ℕ) → Option (List ℕ) → Type 0
MayUse [] route = true ≡ true
MayUse (p ∷ ps) none = false ≡ true
MayUse (p ∷ ps) (some []) = false ≡ true
MayUse (p ∷ ps) (some (c ∷ cs)) = SomeMatches (p ∷ ps) (c ∷ cs)

-- `_route_allowed` decides whether the caller may use the route: it has no list, or it names a route
-- that is not empty and that a pattern of its list lets through, being `*`, `all`, the route itself,
-- or a stem of the route followed by a star.
pub route_allowed_iff :
    (ps : List (List ℕ)) (route : Option (List ℕ))
    → (route_allowed ps route ≡ true) ↔ MayUse ps route
unfolding route_allowed some_matches
route_allowed_iff [] route = (λ h. h, λ h. h)
route_allowed_iff (p ∷ ps) none = (λ h. h, λ h. h)
route_allowed_iff (p ∷ ps) (some []) = (λ h. h, λ h. h)
route_allowed_iff (p ∷ ps) (some (c ∷ cs)) = any_iff (p ∷ ps) (c ∷ cs)
