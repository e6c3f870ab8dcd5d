-- ===== src/Health/Sellers.antt =====
-- The sellers that `offers_sync` keeps of a family.
use unhardcoded.Prelude.{
  ℕ, suc, ◌+◌, ◌≤◌, ◌<◌, ◌≡◌, inl, inr, refl, String, Bool, true, false, List, [], ◌∷◌, arith, max,
  str_eq, length, any, ◌||◌, Bool-cases, leb, All, All-map_of, sym, subst, eq_iff,
}
use unhardcoded.Health.{MarketRow, keep_sellers, is_seen}

-- No peer of the rows is seen already, nor stands twice.
unfoldable pub AreFresh : List String → List MarketRow → Type 0
AreFresh seen [] = Unit
AreFresh seen (r ∷ rs) = (is_seen r.peer_id seen ≡ false) × AreFresh (r.peer_id ∷ seen) rs

keep-AreFresh :
    (top_n : ℕ) (seen : List String) (rows : List MarketRow)
    → AreFresh seen (keep_sellers top_n seen rows)
unfolding keep_sellers AreFresh
keep-AreFresh top_n seen [] = tt
keep-AreFresh top_n seen (r ∷ rs) = elim (Bool-cases (is_seen r.peer_id seen)) [
  | inl e ↦ rw e (keep-AreFresh top_n seen rs)
  | inr e ↦ elim (Bool-cases (leb top_n (length (r.peer_id ∷ seen)))) [
    | inl f ↦ rw (e, f) (e, tt)
    | inr f ↦ rw (e, f) (e, keep-AreFresh top_n (r.peer_id ∷ seen) rs)
  ]
]

keep-length :
    (top_n : ℕ) (seen : List String) (rows : List MarketRow)
    → length (keep_sellers top_n seen rows) + length seen ≤ max (suc (length seen)) top_n
unfolding keep_sellers
keep-length top_n seen [] = omega arith
keep-length top_n seen (r ∷ rs) = elim (Bool-cases (is_seen r.peer_id seen)) [
  | inl e ↦ rw e (keep-length top_n seen rs)
  | inr e ↦ elim (Bool-cases (leb top_n (length (r.peer_id ∷ seen)))) [
    | inl f ↦ rw (e, f) (omega arith)
    | inr f ↦ let ih = keep-length top_n (r.peer_id ∷ seen) rs in rw (e, f) (ground (arith, ih))
  ]
]

-- Of a family's rows at most `top_n` are kept, one where `top_n` is 0, and no two of them are one
-- peer's.
pub keep_sellers-AreFresh :
    (top_n : ℕ) (rows : List MarketRow)
    → AreFresh [] (keep_sellers top_n [] rows) × (length (keep_sellers top_n [] rows) ≤ max 1 top_n)
keep_sellers-AreFresh top_n rows =
    (keep-AreFresh top_n [] rows, let h = keep-length top_n [] rows in omega arith)

-- The peer was seen, or one of the kept rows is its.
abbrev pub is_offered : List String → List MarketRow → String → Bool
is_offered seen kept peer = is_seen peer seen || any (λ k. str_eq k.peer_id peer) kept

module _ (top_n : ℕ) (seen : List String) (r : MarketRow) (rs : List MarketRow) where
  keep-seen :
      is_seen r.peer_id seen ≡ true → keep_sellers top_n seen (r ∷ rs) ≡ keep_sellers top_n seen rs
  unfolding keep_sellers
  keep-seen e = rw e refl

  keep-last :
      is_seen r.peer_id seen ≡ false
      → leb top_n (length (r.peer_id ∷ seen)) ≡ true
      → keep_sellers top_n seen (r ∷ rs) ≡ r ∷ []
  unfolding keep_sellers
  keep-last e f = rw (e, f) refl

  keep-next :
      is_seen r.peer_id seen ≡ false
      → leb top_n (length (r.peer_id ∷ seen)) ≡ false
      → keep_sellers top_n seen (r ∷ rs) ≡ r ∷ keep_sellers top_n (r.peer_id ∷ seen) rs
  unfolding keep_sellers
  keep-next e f = rw (e, f) refl

-- What all rows are offered by, as long as the quota is not reached.
abbrev Offers : ℕ → List String → List MarketRow → List MarketRow → Type 0
Offers top_n seen rows kept =
    length kept + length seen < top_n → All (λ r. is_offered seen kept r.peer_id ≡ true) rows

or_true : (x y : Bool) → x ≡ true → (x || y) ≡ true
or_true x y h = ground arith

or_swap : (x y z : Bool) → ((x || y) || z) ≡ true → (y || (x || z)) ≡ true
or_swap x y z h = ground arith

or_self : (x y z : Bool) → y ≡ true → (x || (y || z)) ≡ true
or_self x y z h = ground arith

keep-Offers :
    (top_n : ℕ) (seen : List String) (rows : List MarketRow)
    → Offers top_n seen rows (keep_sellers top_n seen rows)
keep-Offers top_n seen [] = λ h. tt
keep-Offers top_n seen (r ∷ rs) = elim (Bool-cases (is_seen r.peer_id seen)) [
  | inl e ↦
      subst (Offers top_n seen (r ∷ rs)) (sym (keep-seen top_n seen r rs e))
        (λ h. (or_true _ _ e, keep-Offers top_n seen rs h))
  | inr e ↦ elim (Bool-cases (leb top_n (length (r.peer_id ∷ seen)))) [
    | inl f ↦
        subst (Offers top_n seen (r ∷ rs)) (sym (keep-last top_n seen r rs e f))
          (λ h. absurd (ground arith))
    | inr f ↦ subst (Offers top_n seen (r ∷ rs)) (sym (keep-next top_n seen r rs e f)) (λ h. (
      or_self (is_seen r.peer_id seen) _ _ ((eq_iff r.peer_id r.peer_id).1 refl),
      All-map_of _ rs (λ x q. or_swap (str_eq r.peer_id x.peer_id) _ _ q)
          (keep-Offers top_n (r.peer_id ∷ seen) rs (omega arith)),
    ))
  ]
]

-- While the kept rows are fewer than `top_n`, no peer of the family is left out.
pub keep_sellers-offers :
    (top_n : ℕ) (rows : List MarketRow)
    → length (keep_sellers top_n [] rows) < top_n
    → All (λ r. any (λ k. str_eq k.peer_id r.peer_id) (keep_sellers top_n [] rows) ≡ true) rows
keep_sellers-offers top_n rows h = keep-Offers top_n [] rows (omega arith)
