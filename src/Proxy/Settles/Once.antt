-- ===== src/Proxy/Settles/Once.antt =====
-- A settle that is tried again books once.
use unhardcoded.Prelude.{
  String, Bool, true, false, List, [], ◌∷◌, Option, none, some, if◌then◌else◌, ◌≡◌, refl, ap, ◌∙◌,
  ◌||◌,
}
use unhardcoded.Budget.{
  Tables, Db, commits, rolls_back, commits_unheard, Cost, Reservation, settle_subject_budget,
  settle_row_of, find_reservation, delete_reservation,
}
use unhardcoded.Proxy.Settles.{settle_attempts}

abbrev is_committed : Db → Bool
is_committed rolls_back = false
is_committed _ = true

-- Some attempt committed.
unfoldable pub any_committed : List Db → Bool
any_committed [] = false
any_committed (db ∷ dbs) = is_committed db || any_committed dbs

abbrev is_heard : Db → Bool
is_heard commits = true
is_heard _ = false

-- Some attempt was heard to commit.
unfoldable pub any_heard : List Db → Bool
any_heard [] = false
any_heard (db ∷ dbs) = is_heard db || any_heard dbs

module _ (id : String) (cost : Cost) where
  -- The tables that a settle leaves.
  abbrev settled : Tables → Tables
  settled t = (settle_subject_budget commits id cost t).1

  store_ok_lem :
      (t : Tables) (o : Option Reservation) → (settle_row_of id cost t o).0.store_ok ≡ true
  unfolding settle_row_of
  store_ok_lem t none = refl
  store_ok_lem t (some r) = refl

  settle_row-gone :
      (t : Tables) (o : Option Reservation)
      → find_reservation id t.reservations ≡ o
      → find_reservation id (delete_reservation id t.reservations) ≡ none
      → find_reservation id (settle_row_of id cost t o).1.reservations ≡ none
  unfolding settle_row_of
  settle_row-gone t none e one = e
  settle_row-gone t (some r) e one = one

  settled-gone :
      (t : Tables)
      → find_reservation id (delete_reservation id t.reservations) ≡ none
      → find_reservation id (settled t).reservations ≡ none
  unfolding settle_subject_budget
  settled-gone t one = settle_row-gone t (find_reservation id t.reservations) refl one

  settled-idle : (t : Tables) → find_reservation id t.reservations ≡ none → settled t ≡ t
  unfolding settle_subject_budget settle_row_of
  settled-idle t gone = ap (λ o. (settle_row_of id cost t o).1) gone

  attempts-idle :
      (dbs : List Db) (t : Tables)
      → find_reservation id t.reservations ≡ none
      → (settle_attempts dbs id cost t).1 ≡ t
  unfolding settle_attempts settle_subject_budget settle_row_of
  attempts-idle [] t gone = refl
  attempts-idle (commits ∷ dbs) t gone = simp gone refl
  attempts-idle (rolls_back ∷ dbs) t gone = attempts-idle dbs t gone
  attempts-idle (commits_unheard ∷ dbs) t gone = simp gone (attempts-idle dbs t gone)

  attempts-tables :
      (dbs : List Db) (t : Tables)
      → find_reservation id (delete_reservation id t.reservations) ≡ none
      → (settle_attempts dbs id cost t).1 ≡ (if any_committed dbs then settled t else t)
  unfolding settle_attempts settle_subject_budget any_committed
  attempts-tables [] t one = refl
  attempts-tables (commits ∷ dbs) t one =
      simp (store_ok_lem t (find_reservation id t.reservations)) refl
  attempts-tables (rolls_back ∷ dbs) t one = attempts-tables dbs t one
  attempts-tables (commits_unheard ∷ dbs) t one = attempts-idle dbs (settled t) (settled-gone t one)

  attempts-heard : (dbs : List Db) (t : Tables) → (settle_attempts dbs id cost t).0 ≡ any_heard dbs
  unfolding settle_attempts settle_subject_budget any_heard
  attempts-heard [] t = refl
  attempts-heard (commits ∷ dbs) t = simp (store_ok_lem t (find_reservation id t.reservations)) refl
  attempts-heard (rolls_back ∷ dbs) t = attempts-heard dbs t
  attempts-heard (commits_unheard ∷ dbs) t = attempts-heard dbs (settled t)

-- The attempts of a settle together do what one settle does, where any of them committed, and nothing
-- where all of them rolled back: a cost is booked once, however often an attempt committed without
-- being heard. They are known to have succeeded exactly where one was heard to commit. No two rows
-- of the table have the id.
pub settle_attempts-once :
    (dbs : List Db) (id : String) (cost : Cost) (t : Tables)
    → find_reservation id (delete_reservation id t.reservations) ≡ none
    → settle_attempts dbs id cost t ≡ (
      any_heard dbs,
      if any_committed dbs then (settle_subject_budget commits id cost t).1 else t,
    )
settle_attempts-once dbs id cost t one =
    ap (λ a. (a, (settle_attempts dbs id cost t).1)) (attempts-heard id cost dbs t)
    ∙ ap (λ x. (any_heard dbs, x)) (attempts-tables id cost dbs t one)
