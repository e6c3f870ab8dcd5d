-- ===== src/Budget/Sums.antt =====
-- What the statements on the budget tables do to the sums of one subject.
use unhardcoded.Prelude.{
  ℕ, ◌+◌, ◌≤◌, ◌≡◌, ◌↔◌, refl, String, true, some, List, [], ◌∷◌, arith, eq_iff, if◌then◌else◌,
}
use unhardcoded.Budget.{
  Subject, Usage, Reservation, same_subject, ensure_usage, spent_of, update_usage, sweep,
  live_share, live_sum, find_reservation, delete_reservation,
}

pub same_subject_iff : (a b : Subject) → (same_subject a b ≡ true) ↔ (a ≡ b)
same_subject_iff a b = ground (arith, eq_iff a.subject b.subject, eq_iff a.period b.period)

module _ (key : Subject) where
  pub spent_of-ensure :
      (k : Subject) (us : List Usage) → spent_of key (ensure_usage k us) ≡ spent_of key us
  unfolding spent_of ensure_usage
  spent_of-ensure k [] = ground arith
  spent_of-ensure k (u ∷ us) = ground (arith, spent_of-ensure k us)

  pub live_sum-sweep :
      (k : Subject) (stamp : ℕ) (rs : List Reservation)
      → live_sum key (sweep k stamp rs) ≤ live_sum key rs
  unfolding live_sum sweep
  live_sum-sweep k stamp [] = omega arith
  live_sum-sweep k stamp (r ∷ rs) = ground (arith, live_sum-sweep k stamp rs)

  pub live_sum-delete :
      (id : String) (r : Reservation) (rs : List Reservation)
      → find_reservation id rs ≡ some r
      → live_sum key rs ≡ live_share key r + live_sum key (delete_reservation id rs)
  unfolding live_sum find_reservation delete_reservation
  live_sum-delete id r [] h = ground arith
  live_sum-delete id r (x ∷ rs) h = ground (arith, live_sum-delete id r rs)

  -- A change of one row's amount: at most the cost, on the row's own key.
  pub spent_of-update :
      (k : Subject) (cost reserved : ℕ) (us : List Usage)
      → spent_of key (update_usage k cost reserved us)
        ≤ spent_of key us + (if same_subject k key then cost else 0)
  unfolding spent_of update_usage
  spent_of-update k cost reserved [] = ground arith
  spent_of-update k cost reserved (u ∷ us) =
      ground (arith, spent_of-update k cost reserved us, same_subject_iff u.key k)

  pub live_sum-released :
      (k : Subject) (stamp : ℕ) (rs : List Reservation)
      → live_sum key (sweep k stamp (sweep k stamp rs)) ≡ live_sum key (sweep k stamp rs)
  unfolding live_sum sweep
  live_sum-released k stamp [] = refl
  live_sum-released k stamp (r ∷ rs) = ground (arith, live_sum-released k stamp rs)
