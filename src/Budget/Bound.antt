-- ===== src/Budget/Bound.antt =====
-- How far a subject's budget can be exceeded.
use unhardcoded.Prelude.{
  ℕ, ◌+◌, ◌-◌, ◌≤◌, ◌≡◌, refl, String, true, false, Option, none, some, List, [], ◌∷◌, arith, ap,
  Bool-cases, Option-cases, leb→le, inl, inr, if◌then◌else◌, leb,
}
use unhardcoded.Budget.{
  Subject, Usage, Reservation, Tables, Db, commits, rolls_back, commits_unheard, transact, Claim,
  Cost, booked, same_subject, spent_of, live_sum, live_share, sweep, ensure_usage, update_usage,
  row_of, find_reservation, delete_reservation, insert_reservation, reserve_rows,
  reserve_subject_budget, settle_row_of, settle_subject_budget, reserve_failed,
}
use unhardcoded.Budget.Sums.{
  same_subject_iff, spent_of-ensure, spent_of-update, live_sum-sweep, live_sum-delete,
}

-- What the subject spent, and what its calls in flight hold.
abbrev pub committed : Subject → Tables → ℕ
committed key t = spent_of key t.usage + live_sum key t.reservations

-- What the settle of a row adds beyond what the row still holds.
abbrev pub overshoot_by : Subject → Cost → Option Reservation → ℕ
overshoot_by key cost none = 0
overshoot_by key cost (some r) =
    (if same_subject r.key key then booked cost else 0) - live_share key r

abbrev pub overshoot : Subject → String → Cost → Tables → ℕ
overshoot key id cost t = overshoot_by key cost (find_reservation id t.reservations)

-- A settle that rolls back adds nothing.
abbrev pub overshoot_if : Db → Subject → String → Cost → Tables → ℕ
overshoot_if rolls_back key id cost t = 0
overshoot_if _ key id cost t = overshoot key id cost t

-- The calls of the store, with what each may add to the subject's overshoot. `limit` bounds the
-- limits that reservations of the subject name.
pub data Step (key : Subject) (limit : ℕ) : Tables → ℕ → Tables → Type 0 where
  reserves :
      (db : Db) (c : Claim) (stamp : ℕ) (t : Tables)
      → (same_subject c.key key ≡ true → c.limit_usd ≤ limit)
      → Step key limit t 0 (reserve_subject_budget db c stamp t).1
  settles :
      (db : Db) (id : String) (cost : Cost) (t : Tables)
      → Step key limit t (overshoot_if db key id cost t) (settle_subject_budget db id cost t).1

-- A run, with the overshoot that it adds up to.
pub data Run (key : Subject) (limit : ℕ) (start : Tables) : ℕ → Tables → Type 0 where
  still : Run key limit start 0 start
  then_steps :
      {m n : ℕ} {t u : Tables}
      → Run key limit start m t
      → Step key limit t n u
      → Run key limit start (m + n) u

module _ (key : Subject) where
  live_share-le : (r : Reservation) → live_share key r ≤ r.amount_usd
  live_share-le r = ground arith

  live_share-other : (r : Reservation) → same_subject r.key key ≡ false → live_share key r ≡ 0
  live_share-other r e = simp e refl

  live_sum-row :
      (r : Reservation) (rs : List Reservation)
      → live_sum key (r ∷ rs) ≡ live_share key r + live_sum key rs
  unfolding live_sum
  live_sum-row r rs = refl

  -- Bookkeeping that changes no amount.
  unspent :
      (k : Subject) (reserved : ℕ) (us : List Usage)
      → spent_of key (update_usage k 0 reserved (ensure_usage k us)) ≤ spent_of key us
  unspent k reserved us =
      let u = spent_of-update key k 0 reserved (ensure_usage k us) in
      let e = spent_of-ensure key k us in
      elim (Bool-cases (same_subject k key)) [
        | inl s ↦ let u' = rw s at u in omega arith
        | inr s ↦ let u' = rw s at u in omega arith
      ]

module _ (key : Subject) (limit over : ℕ) where
  inserted-Within :
      (c : Claim) (stamp total : ℕ) (t : Tables)
      → (same_subject c.key key ≡ true → c.limit_usd ≤ limit)
      → committed key t ≤ limit + over
      → spent_of c.key (ensure_usage c.key t.usage)
          + live_sum c.key (sweep c.key stamp t.reservations)
          + c.amount_usd
        ≤ c.limit_usd
      → spent_of key (update_usage c.key 0 total (ensure_usage c.key t.usage))
          + live_sum key (row_of c stamp ∷ sweep c.key stamp t.reservations)
        ≤ limit + over
  inserted-Within c stamp total t le h fits =
      let u = unspent key c.key total t.usage in
      let row = live_sum-row key (row_of c stamp) (sweep c.key stamp t.reservations) in
      let small = live_share-le key (row_of c stamp) in
      let swept = live_sum-sweep key c.key stamp t.reservations in
      let e = spent_of-ensure key c.key t.usage in
      elim (Bool-cases (same_subject c.key key)) [
        | inl s ↦
            let q = (same_subject_iff c.key key).0 s in
            let same_spent = ap (λ k. spent_of k (ensure_usage c.key t.usage)) q in
            let same_live = ap (λ k. live_sum k (sweep c.key stamp t.reservations)) q in
            let fine = le s in omega arith
        | inr s ↦ let none_held = live_share-other key (row_of c stamp) s in omega arith
      ]

  reserve_rows-Within :
      (c : Claim) (stamp : ℕ) (t : Tables)
      → (same_subject c.key key ≡ true → c.limit_usd ≤ limit)
      → committed key t ≤ limit + over
      → committed key (reserve_rows c stamp t).1 ≤ limit + over
  unfolding reserve_rows insert_reservation
  reserve_rows-Within c stamp t le h =
      elim (Bool-cases (
        leb
          (spent_of c.key (ensure_usage c.key t.usage)
            + live_sum c.key (sweep c.key stamp t.reservations)
            + c.amount_usd)
          c.limit_usd)) [
            | inl fits ↦
                elim (Option-cases
                  (find_reservation c.reservation_id (sweep c.key stamp t.reservations))) [
                    | inl none_found ↦
                        simp (fits, none_found) (inserted-Within c stamp _ t le h (leb→le _ _ fits))
                    | inr (r, taken) ↦ simp (fits, taken) h
                  ]
            | inr full ↦ simp full (
                let u =
                  unspent key c.key (live_sum c.key (sweep c.key stamp t.reservations)) t.usage in
                let swept = live_sum-sweep key c.key stamp t.reservations in omega arith)
          ]

  transact-Within :
      {A : Type 0} (db : Db) (failed : A) (r : A × Tables) (t : Tables)
      → committed key t ≤ limit + over
      → committed key r.1 ≤ limit + over
      → committed key (transact db failed r t).1 ≤ limit + over
  transact-Within commits failed r t old new = new
  transact-Within rolls_back failed r t old new = old
  transact-Within commits_unheard failed r t old new = new

  settle_row-Within :
      (id : String) (cost : Cost) (t : Tables) (o : Option Reservation)
      → find_reservation id t.reservations ≡ o
      → committed key t ≤ limit + over
      → committed key (settle_row_of id cost t o).1 ≤ limit + over + overshoot_by key cost o
  unfolding settle_row_of
  settle_row-Within id cost t none e h = omega arith
  settle_row-Within id cost t (some r) e h =
      let gone = live_sum-delete key id r t.reservations e in
      let u =
        spent_of-update key r.key (booked cost)
          (live_sum r.key (delete_reservation id t.reservations)) t.usage in
      omega arith

-- A store that was empty at the start.
abbrev pub no_rows : Tables
no_rows = record { usage = []; reservations = [] }

settled-Within :
    (key : Subject) (limit over : ℕ) (db : Db) (id : String) (cost : Cost) (t : Tables)
    → committed key t ≤ limit + over
    → committed key (settle_subject_budget db id cost t).1
      ≤ limit + (over + overshoot_if db key id cost t)
unfolding settle_subject_budget
settled-Within key limit over rolls_back id cost t h = omega arith
settled-Within key limit over commits id cost t h =
    let w =
      settle_row-Within key limit over id cost t (find_reservation id t.reservations) refl h in
    omega arith
settled-Within key limit over commits_unheard id cost t h =
    let w =
      settle_row-Within key limit over id cost t (find_reservation id t.reservations) refl h in
    omega arith

Step-Within :
    (key : Subject) (limit over : ℕ) {t u : Tables} (n : ℕ)
    → Step key limit t n u
    → committed key t ≤ limit + over
    → committed key u ≤ limit + (over + n)
unfolding reserve_subject_budget settle_subject_budget
Step-Within key limit over _ (reserves db c stamp t le) h =
    let w =
      transact-Within key limit over db reserve_failed (reserve_rows c stamp t) t h
        (reserve_rows-Within key limit over c stamp t le h) in
    omega arith
Step-Within key limit over _ (settles db id cost t) h = settled-Within key limit over db id cost t h

-- In every run of reservations and settles of all subjects, of which any may fail or commit unheard,
-- what a subject spent and what its calls in flight still hold is at most the highest limit that its
-- reservations named, plus the overshoot: by how much the cost of each call whose settle committed
-- exceeded what its reservation, where it had not expired, still held. A settle that rolls back adds
-- nothing.
pub Run-Within :
    (key : Subject) (limit over : ℕ) (t : Tables)
    → Run key limit no_rows over t
    → committed key t ≤ limit + over
unfolding spent_of live_sum
Run-Within key limit _ _ still = omega arith
Run-Within key limit _ _ (then_steps {m} {n} r s) =
    Step-Within key limit m n s (Run-Within key limit m _ r)
