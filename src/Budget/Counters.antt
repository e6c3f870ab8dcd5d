-- ===== src/Budget/Counters.antt =====
-- The column reserved_usd: a counter of what a subject's live reservations hold.
use unhardcoded.Prelude.{
  ℕ, ◌+◌, ◌≡◌, ◌≢◌, refl, String, true, false, Option, none, some, List, [], ◌∷◌, arith, sym, subst,
  ◌∙◌, Bool-cases, Option-cases, inl, inr, leb,
}
use unhardcoded.Budget.{
  Subject, Usage, Reservation, Tables, Db, commits, rolls_back, commits_unheard, transact, Claim,
  Cost, booked, same_subject, reserved_of, live_sum, spent_of, live_share, sweep, ensure_usage,
  update_usage, row_of, find_reservation, delete_reservation, insert_reservation, reserve_rows,
  reserve_subject_budget, settle_row_of, settle_subject_budget, reserve_failed, settle_failed,
}
use unhardcoded.Budget.Sums.{same_subject_iff, live_sum-delete}
use unhardcoded.Budget.Rows.{has_usage, has_usage-ensure}
use unhardcoded.Budget.Bound.{Step, reserves, settles, Run, still, then_steps, no_rows}

-- Every subject's counter is the sum of what its live reservations hold.
abbrev pub IsCounted : Tables → Type 0
IsCounted t = (key : Subject) → reserved_of key t.usage ≡ live_sum key t.reservations

module _ (key : Subject) where
  reserved_of-ensure :
      (k : Subject) (us : List Usage) → reserved_of key (ensure_usage k us) ≡ reserved_of key us
  unfolding reserved_of ensure_usage
  reserved_of-ensure k [] = ground arith
  reserved_of-ensure k (u ∷ us) = ground (arith, reserved_of-ensure k us)

  reserved_of-other :
      (k : Subject) (cost n : ℕ) (us : List Usage)
      → same_subject k key ≡ false
      → reserved_of key (update_usage k cost n us) ≡ reserved_of key us
  unfolding reserved_of update_usage
  reserved_of-other k cost n [] h = refl
  reserved_of-other k cost n (u ∷ us) h = ground (
    arith,
    reserved_of-other k cost n us h,
    same_subject_iff u.key k,
    same_subject_iff u.key key,
    same_subject_iff k key,
  )

  reserved_of-set :
      (cost n : ℕ) (us : List Usage)
      → has_usage key us ≡ true
      → reserved_of key (update_usage key cost n us) ≡ n
  unfolding reserved_of update_usage
  reserved_of-set cost n [] h = ground arith
  reserved_of-set cost n (u ∷ us) h = ground (arith, reserved_of-set cost n us)

  reserved_of-missing :
      (cost n : ℕ) (us : List Usage)
      → has_usage key us ≡ false
      → (reserved_of key us ≡ 0) × (reserved_of key (update_usage key cost n us) ≡ 0)
  unfolding reserved_of update_usage
  reserved_of-missing cost n [] h = (refl, refl)
  reserved_of-missing cost n (u ∷ us) h = ground (arith, reserved_of-missing cost n us)

  live_sum-other :
      (k : Subject) (stamp : ℕ) (rs : List Reservation)
      → same_subject k key ≡ false
      → live_sum key (sweep k stamp rs) ≡ live_sum key rs
  unfolding live_sum sweep
  live_sum-other k stamp [] h = refl
  live_sum-other k stamp (r ∷ rs) h = ground (
    arith,
    live_sum-other k stamp rs h,
    same_subject_iff r.key k,
    same_subject_iff r.key key,
    same_subject_iff k key,
  )

  share_other : (r : Reservation) → same_subject r.key key ≡ false → live_share key r ≡ 0
  share_other r h = simp h refl

-- A write of the subject's own sum.
IsCounted-write :
    (k : Subject) (cost : ℕ) (us : List Usage) (rs : List Reservation)
    → ((key : Subject) → same_subject k key ≡ false → reserved_of key us ≡ live_sum key rs)
    → (has_usage k us ≡ false → live_sum k rs ≡ 0)
    → IsCounted (record { usage = update_usage k cost (live_sum k rs) us; reservations = rs })
IsCounted-write k cost us rs h missing key = elim (Bool-cases (same_subject k key)) [
  | inl e ↦
      subst (λ x. reserved_of x (update_usage k cost (live_sum k rs) us) ≡ live_sum x rs)
        ((same_subject_iff k key).0 e)
        (elim (Bool-cases (has_usage k us)) [
          | inl there ↦ reserved_of-set k cost (live_sum k rs) us there
          | inr gone ↦ (reserved_of-missing k cost (live_sum k rs) us gone).1 ∙ sym (missing gone)
        ])
  | inr e ↦ reserved_of-other key k cost (live_sum k rs) us e ∙ h key e
]

no_gap : (c : Claim) (t : Tables) → has_usage c.key (ensure_usage c.key t.usage) ≢ false
no_gap c t gone = let there = has_usage-ensure c.key t.usage in cc

kept :
    (c : Claim) (stamp : ℕ) (t : Tables)
    → IsCounted t
    → (key : Subject) → same_subject c.key key ≡ false
    → reserved_of key (ensure_usage c.key t.usage) ≡ live_sum key (sweep c.key stamp t.reservations)
kept c stamp t h key e =
    reserved_of-ensure key c.key t.usage
    ∙ h key
    ∙ sym (live_sum-other key c.key stamp t.reservations e)

row_sum :
    (c : Claim) (stamp : ℕ) (rs : List Reservation)
    → live_sum c.key (row_of c stamp ∷ rs) ≡ live_sum c.key rs + c.amount_usd
unfolding live_sum
row_sum c stamp rs = simp ((same_subject_iff c.key c.key).1 refl) (omega arith)

row_other :
    (c : Claim) (stamp : ℕ) (rs : List Reservation) (key : Subject)
    → same_subject c.key key ≡ false
    → live_sum key (row_of c stamp ∷ rs) ≡ live_sum key rs
unfolding live_sum
row_other c stamp rs key e = let z = share_other key (row_of c stamp) e in omega arith

inserted-IsCounted :
    (c : Claim) (stamp : ℕ) (t : Tables)
    → IsCounted t
    → IsCounted (record {
      usage =
          update_usage c.key 0
            (live_sum c.key (sweep c.key stamp t.reservations) + c.amount_usd)
            (ensure_usage c.key t.usage);
      reservations = row_of c stamp ∷ sweep c.key stamp t.reservations;
    })
inserted-IsCounted c stamp t h =
    let rs = sweep c.key stamp t.reservations in
    subst
      (λ n. IsCounted (record {
        usage = update_usage c.key 0 n (ensure_usage c.key t.usage);
        reservations = row_of c stamp ∷ rs;
      }))
      (row_sum c stamp rs)
      (IsCounted-write c.key 0 (ensure_usage c.key t.usage) (row_of c stamp ∷ rs)
        (λ key e. kept c stamp t h key e ∙ sym (row_other c stamp rs key e))
        (λ gone. absurd (no_gap c t gone)))

reserve_rows-IsCounted :
    (c : Claim) (stamp : ℕ) (t : Tables) → IsCounted t → IsCounted (reserve_rows c stamp t).1
unfolding reserve_rows insert_reservation
reserve_rows-IsCounted c stamp t h =
    elim (Bool-cases (
      leb
        (spent_of c.key (ensure_usage c.key t.usage)
          + live_sum c.key (sweep c.key stamp t.reservations)
          + c.amount_usd)
        c.limit_usd)) [
          | inl fits ↦
              elim (Option-cases
                (find_reservation c.reservation_id (sweep c.key stamp t.reservations))) [
                  | inl free ↦ simp (fits, free) (inserted-IsCounted c stamp t h)
                  | inr (r, taken) ↦ simp (fits, taken) h
                ]
          | inr full ↦ simp full (
              IsCounted-write c.key 0 (ensure_usage c.key t.usage)
                (sweep c.key stamp t.reservations) (λ key e. kept c stamp t h key e)
                (λ gone. absurd (no_gap c t gone)))
        ]

missing_sum :
    (key : Subject) (t : Tables)
    → IsCounted t
    → has_usage key t.usage ≡ false
    → live_sum key t.reservations ≡ 0
missing_sum key t h gone = sym (h key) ∙ (reserved_of-missing key 0 0 t.usage gone).0

settle_row-IsCounted :
    (id : String) (cost : Cost) (t : Tables) (o : Option Reservation)
    → find_reservation id t.reservations ≡ o
    → IsCounted t
    → IsCounted (settle_row_of id cost t o).1
unfolding settle_row_of
settle_row-IsCounted id cost t none e h = h
settle_row-IsCounted id cost t (some r) e h =
    IsCounted-write r.key (booked cost) t.usage (delete_reservation id t.reservations)
      (λ key other.
        let gone = live_sum-delete key id r t.reservations e in
        let z = share_other key r other in let same = h key in omega arith)
      (λ missing.
        let gone = live_sum-delete r.key id r t.reservations e in
        let z = missing_sum r.key t h missing in omega arith)

transact-IsCounted :
    {A : Type 0} (db : Db) (failed : A) (r : A × Tables) (t : Tables)
    → IsCounted t
    → IsCounted r.1
    → IsCounted (transact db failed r t).1
transact-IsCounted commits failed r t old new = new
transact-IsCounted rolls_back failed r t old new = old
transact-IsCounted commits_unheard failed r t old new = new

Step-IsCounted :
    (key : Subject) (limit : ℕ) {t u : Tables} (n : ℕ)
    → Step key limit t n u
    → IsCounted t
    → IsCounted u
unfolding reserve_subject_budget settle_subject_budget
Step-IsCounted key limit _ (reserves db c stamp t le) h =
    transact-IsCounted db reserve_failed (reserve_rows c stamp t) t h
      (reserve_rows-IsCounted c stamp t h)
Step-IsCounted key limit _ (settles db id cost t) h =
    transact-IsCounted db settle_failed
      (settle_row_of id cost t (find_reservation id t.reservations)) t h
      (settle_row-IsCounted id cost t (find_reservation id t.reservations) refl h)

-- After every run of reservations and settles from empty tables, of which any may fail or commit
-- unheard, the counter reserved_usd of every subject is the sum of what its reservations that are
-- not released hold.
pub Run-IsCounted :
    (key : Subject) (limit over : ℕ) (t : Tables) → Run key limit no_rows over t → IsCounted t
unfolding reserved_of live_sum
Run-IsCounted key limit _ _ still = λ k. refl
Run-IsCounted key limit _ _ (then_steps {m} {n} r s) =
    Step-IsCounted key limit n s (Run-IsCounted key limit m _ r)
