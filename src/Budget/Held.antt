-- ===== src/Budget/Held.antt =====
-- A reservation that was admitted, while other calls of the store come and go.
use unhardcoded.Prelude.{
  ℕ, ◌+◌, ◌≡◌, ap, refl, String, true, false, none, some, List, ◌∷◌, ◌∙◌, str_eq, Option,
  Bool-cases, Option-cases, inl, inr, leb, eq_iff,
}
use unhardcoded.Budget.{
  Subject, Usage, Reservation, Tables, Db, commits, rolls_back, commits_unheard, transact, Claim,
  Cost, booked, spent_of, live_sum, sweep, ensure_usage, update_usage, row_of, find_reservation,
  delete_reservation, insert_reservation, reserve_rows, reserve_subject_budget, settle_row_of,
  settle_subject_budget, Reserved,
}
use unhardcoded.Budget.Rows.{
  has_usage, has_usage-ensure, has_usage-update, has_usage-ensured, swept_row, find-sweep,
  find-sweep-none, delete-sweep, find-delete_other, delete-delete, swept_row-same,
}

-- The tables that an admitted reservation leaves.
abbrev pub reserved_tables : Claim → ℕ → Tables → Tables
reserved_tables c stamp t =
    let rs = sweep c.key stamp t.reservations in
    record {
      usage = update_usage c.key 0 (live_sum c.key rs + c.amount_usd) (ensure_usage c.key t.usage);
      reservations = row_of c stamp ∷ rs;
    }

abbrev Admits : Claim → ℕ → Tables → Reserved × Tables → Type 0
Admits c stamp t r =
    r.0.allowed ≡ true
    → (r.1 ≡ reserved_tables c stamp t)
      × (find_reservation c.reservation_id (sweep c.key stamp t.reservations) ≡ none)

pub admitted : (c : Claim) (stamp : ℕ) (t : Tables) → Admits c stamp t (reserve_rows c stamp t)
unfolding reserve_rows insert_reservation
admitted c stamp t =
    elim (Bool-cases (
      leb
        (spent_of c.key (ensure_usage c.key t.usage)
          + live_sum c.key (sweep c.key stamp t.reservations)
          + c.amount_usd)
        c.limit_usd)) [
          | inl fits ↦
              elim (Option-cases
                (find_reservation c.reservation_id (sweep c.key stamp t.reservations))) [
                  | inl free ↦ simp (fits, free) (λ h. (refl, refl))
                  | inr (r, taken) ↦ simp (fits, taken) (λ h. absurd (cc))
                ]
          | inr full ↦ simp full (λ h. absurd (cc))
        ]

-- What the tables still say of an admitted reservation: its row, once, expired or not.
pub record Holds (c : Claim) (t : Tables) : Type 0 where
  pub row : Reservation
  pub found : find_reservation c.reservation_id t.reservations ≡ some row
  pub same_key : row.key ≡ c.key
  pub same_amount : row.amount_usd ≡ c.amount_usd
  pub once :
      find_reservation c.reservation_id (delete_reservation c.reservation_id t.reservations) ≡ none
  pub known : has_usage c.key t.usage ≡ true

-- What comes between a reservation and its settle: other reservations, which may sweep it when it is
-- expired, and settles of other ids, all of which may fail or commit unheard.
pub data Later (id : String) (start : Tables) : Tables → Type 0 where
  at_once : Later id start start
  then_reserves :
      {t : Tables}
      → Later id start t
      → (db : Db) (c : Claim) (stamp : ℕ) → Later id start (reserve_subject_budget db c stamp t).1
  then_settles :
      {t : Tables}
      → Later id start t
      → (db : Db) (other : String) (cost : Cost) → str_eq other id ≡ false
      → Later id start (settle_subject_budget db other cost t).1

module _ (c : Claim) where
  sweep-Holds :
      (k : Subject) (stamp : ℕ) (us : List Usage) (t : Tables)
      → has_usage c.key us ≡ true
      → Holds c t
      → Holds c (record { usage = us; reservations = sweep k stamp t.reservations })
  sweep-Holds k stamp us t known h = record {
    row = swept_row k stamp h.row;
    found = find-sweep c.reservation_id k stamp h.row t.reservations h.found;
    same_key = (swept_row-same k stamp h.row).0 ∙ h.same_key;
    same_amount = (swept_row-same k stamp h.row).1 ∙ h.same_amount;
    once =
        rw (delete-sweep c.reservation_id k stamp t.reservations)
          (find-sweep-none c.reservation_id k stamp _ h.once);
    known = known;
  }

  insert-Holds :
      (r : Reservation) (t : Tables)
      → str_eq r.id c.reservation_id ≡ false
      → Holds c t
      → Holds c (record t { reservations = r ∷ t.reservations })
  unfolding find_reservation delete_reservation
  insert-Holds r t apart h = record {
    row = h.row;
    found = simp apart h.found;
    same_key = h.same_key;
    same_amount = h.same_amount;
    once = simp apart h.once;
    known = h.known;
  }

  -- A reservation that is taken is not the one that the tables hold.
  apart_lem :
      (d : Claim) (t : Tables)
      → Holds c t
      → find_reservation d.reservation_id t.reservations ≡ none
      → str_eq d.reservation_id c.reservation_id ≡ false
  apart_lem d t h free = elim (Bool-cases (str_eq d.reservation_id c.reservation_id)) [
    | inl e ↦
        let same =
          ap (λ x. find_reservation x t.reservations)
            ((eq_iff d.reservation_id c.reservation_id).0 e) in
        let f = h.found in absurd cc
    | inr e ↦ e
  ]

  reserve_rows-Holds :
      (d : Claim) (stamp : ℕ) (t : Tables) → Holds c t → Holds c (reserve_rows d stamp t).1
  unfolding reserve_rows insert_reservation
  reserve_rows-Holds d stamp t h =
      let us = ensure_usage d.key t.usage in
      let rs = sweep d.key stamp t.reservations in
      let known : (n : ℕ) → has_usage c.key (update_usage d.key 0 n us) ≡ true =
        λ n. has_usage-update c.key d.key 0 n us ∙ has_usage-ensured c.key d.key t.usage h.known in
      elim (Bool-cases (leb (spent_of d.key us + live_sum d.key rs + d.amount_usd) d.limit_usd)) [
        | inl fits ↦ elim (Option-cases (find_reservation d.reservation_id rs)) [
          | inl free ↦
              let swept =
                sweep-Holds d.key stamp (update_usage d.key 0 (live_sum d.key rs + d.amount_usd) us)
                  t (known _) h in
              simp (fits, free) (insert-Holds (row_of d stamp) _ (apart_lem d _ swept free) swept)
          | inr (r, taken) ↦ simp (fits, taken) h
        ]
        | inr full ↦ simp full (sweep-Holds d.key stamp _ t (known _) h)
      ]

  settle_row_of-Holds :
      (other : String) (cost : Cost) (t : Tables) (o : Option Reservation)
      → str_eq other c.reservation_id ≡ false
      → Holds c t
      → Holds c (settle_row_of other cost t o).1
  unfolding settle_row_of
  settle_row_of-Holds other cost t none apart h = h
  settle_row_of-Holds other cost t (some r) apart h = record {
    row = h.row;
    found = find-delete_other c.reservation_id other apart t.reservations ∙ h.found;
    same_key = h.same_key;
    same_amount = h.same_amount;
    once =
        rw (delete-delete c.reservation_id other apart t.reservations)
          (find-delete_other c.reservation_id other apart _ ∙ h.once);
    known = has_usage-update c.key r.key (booked cost) _ t.usage ∙ h.known;
  }

  transact-Holds :
      {A : Type 0} (db : Db) (failed : A) (r : A × Tables) (t : Tables)
      → Holds c t
      → Holds c r.1
      → Holds c (transact db failed r t).1
  transact-Holds commits failed r t old new = new
  transact-Holds rolls_back failed r t old new = old
  transact-Holds commits_unheard failed r t old new = new

  pub Later-Holds : {t u : Tables} → Later c.reservation_id t u → Holds c t → Holds c u
  unfolding reserve_subject_budget settle_subject_budget
  Later-Holds at_once h = h
  Later-Holds (then_reserves {t} r db d stamp) h =
      transact-Holds db _ _ t (Later-Holds r h) (reserve_rows-Holds d stamp t (Later-Holds r h))
  Later-Holds (then_settles {t} r db other cost apart) h =
      transact-Holds db _ _ t (Later-Holds r h)
        (settle_row_of-Holds other cost t _ apart (Later-Holds r h))

  pub admitted-Holds :
      (stamp : ℕ) (t : Tables)
      → find_reservation c.reservation_id (sweep c.key stamp t.reservations) ≡ none
      → Holds c (reserved_tables c stamp t)
  unfolding find_reservation delete_reservation
  admitted-Holds stamp t free =
      let same = (eq_iff c.reservation_id c.reservation_id).1 refl in
      record {
        row = row_of c stamp;
        found = simp same refl;
        same_key = refl;
        same_amount = refl;
        once = simp same free;
        known =
            has_usage-update c.key c.key 0 _ (ensure_usage c.key t.usage)
            ∙ has_usage-ensure c.key t.usage;
      }
