-- ===== src/Budget/Rows.antt =====
-- What the statements on the budget tables do to a usage row and to the row of an id.
use unhardcoded.Prelude.{
  ℕ, ◌+◌, ◌≡◌, refl, String, Bool, true, false, none, some, List, [], ◌∷◌, arith, str_eq,
  Bool-cases, inl, inr, if◌then◌else◌, eq_iff,
}
use unhardcoded.Budget.{
  Subject, Usage, Reservation, is_expired, same_subject, spent_of, sweep, ensure_usage,
  update_usage, find_reservation, delete_reservation,
}
use unhardcoded.Budget.Sums.{same_subject_iff}

-- A usage row of the key is there.
abbrev pub has_usage : Subject → List Usage → Bool
has_usage key [] = false
has_usage key (u ∷ us) = if same_subject u.key key then true else has_usage key us

module _ (key : Subject) where
  pub has_usage-ensure : (us : List Usage) → has_usage key (ensure_usage key us) ≡ true
  unfolding ensure_usage
  has_usage-ensure [] = simp ((same_subject_iff key key).1 refl) refl
  has_usage-ensure (u ∷ us) = ground (arith, has_usage-ensure us)

  pub has_usage-update :
      (k : Subject) (cost n : ℕ) (us : List Usage)
      → has_usage key (update_usage k cost n us) ≡ has_usage key us
  unfolding update_usage
  has_usage-update k cost n [] = refl
  has_usage-update k cost n (u ∷ us) = ground (arith, has_usage-update k cost n us)

  pub has_usage-ensured :
      (k : Subject) (us : List Usage)
      → has_usage key us ≡ true
      → has_usage key (ensure_usage k us) ≡ true
  unfolding ensure_usage
  has_usage-ensured k [] h = ground arith
  has_usage-ensured k (u ∷ us) h = ground (arith, has_usage-ensured k us)

  pub spent_of-booked :
      (cost n : ℕ) (us : List Usage)
      → has_usage key us ≡ true
      → spent_of key (update_usage key cost n us) ≡ spent_of key us + cost
  unfolding spent_of update_usage
  spent_of-booked cost n [] h = ground arith
  spent_of-booked cost n (u ∷ us) h = ground (arith, spent_of-booked cost n us)

-- A row after a sweep.
abbrev pub swept_row : Subject → ℕ → Reservation → Reservation
swept_row key stamp r = if is_expired key stamp r then record r { released = true } else r

module _ (id : String) where
  pub find-sweep :
      (key : Subject) (stamp : ℕ) (r : Reservation) (rs : List Reservation)
      → find_reservation id rs ≡ some r
      → find_reservation id (sweep key stamp rs) ≡ some (swept_row key stamp r)
  unfolding find_reservation sweep
  find-sweep key stamp r [] h = ground arith
  find-sweep key stamp r (x ∷ rs) h = ground (arith, find-sweep key stamp r rs)

  pub find-sweep-none :
      (key : Subject) (stamp : ℕ) (rs : List Reservation)
      → find_reservation id rs ≡ none
      → find_reservation id (sweep key stamp rs) ≡ none
  unfolding find_reservation sweep
  find-sweep-none key stamp [] h = refl
  find-sweep-none key stamp (x ∷ rs) h = ground (arith, find-sweep-none key stamp rs)

  pub delete-sweep :
      (key : Subject) (stamp : ℕ) (rs : List Reservation)
      → delete_reservation id (sweep key stamp rs) ≡ sweep key stamp (delete_reservation id rs)
  unfolding delete_reservation sweep
  delete-sweep key stamp [] = refl
  delete-sweep key stamp (x ∷ rs) = ground (arith, delete-sweep key stamp rs)

  module _ (other : String) (apart : str_eq other id ≡ false) where
    pub find-delete_other :
        (rs : List Reservation)
        → find_reservation id (delete_reservation other rs) ≡ find_reservation id rs
    unfolding find_reservation delete_reservation
    find-delete_other [] = refl
    find-delete_other (x ∷ rs) =
        ground (arith, find-delete_other rs, eq_iff x.id other, eq_iff x.id id, eq_iff other id)

    pub delete-delete :
        (rs : List Reservation)
        → delete_reservation id (delete_reservation other rs)
          ≡ delete_reservation other (delete_reservation id rs)
    unfolding delete_reservation
    delete-delete [] = refl
    delete-delete (x ∷ rs) =
        ground (arith, delete-delete rs, eq_iff x.id other, eq_iff x.id id, eq_iff other id)

pub swept_row-same :
    (key : Subject) (stamp : ℕ) (r : Reservation)
    → ((swept_row key stamp r).key ≡ r.key) × ((swept_row key stamp r).amount_usd ≡ r.amount_usd)
swept_row-same key stamp r = elim (Bool-cases (is_expired key stamp r)) [
  | inl e ↦ simp e (refl, refl)
  | inr e ↦ simp e (refl, refl)
]
