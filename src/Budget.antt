-- ===== src/Budget.antt =====
-- The monthly budgets of host_store.py: `reserve_subject_budget` and `settle_subject_budget` on the
-- tables subject_budget_usage and subject_budget_reservations. Each runs in one transaction that
-- locks the subject's usage row, so it is one step. Amounts are millionths of a dollar, times are
-- milliseconds; `updated_at` is not kept.
pub mod Sums
pub mod Bound
pub mod Rows
pub mod Held
pub mod Settle
pub mod Counters
use unhardcoded.Prelude.{
  ℕ, ◌+◌, ◌&&◌, String, Bool, true, false, not, Option, none, some, List, [], ◌∷◌, if◌then◌else◌,
  leb, ◌==◌, str_eq,
}

-- The primary key of a usage row.
pub record Subject : Type 0 where
  pub tenant_id : ℕ
  pub subject : String
  pub period : String

abbrev pub same_subject : Subject → Subject → Bool
same_subject a b =
    a.tenant_id == b.tenant_id && str_eq a.subject b.subject && str_eq a.period b.period

pub record Usage : Type 0 where
  pub key : Subject
  pub spent_usd : ℕ
  pub reserved_usd : ℕ

pub record Reservation : Type 0 where
  pub id : String
  pub key : Subject
  pub amount_usd : ℕ
  pub expires_at : ℕ
  pub released : Bool

pub record Tables : Type 0 where
  pub usage : List Usage
  pub reservations : List Reservation

-- How the transaction goes: it commits, rolls back, or commits and the answer is lost.
pub data Db : Type 0 where
  commits rolls_back commits_unheard : Db

-- What the caller hears, and the rows that are left.
abbrev pub transact {ℓ κ} : {A : Type ℓ} {S : Type κ} → Db → A → A × S → S → A × S
transact commits failed r t = r
transact rolls_back failed r t = (failed, t)
transact commits_unheard failed r t = (failed, r.1)

-- `INSERT … ON CONFLICT DO NOTHING`
unfoldable pub ensure_usage : Subject → List Usage → List Usage
ensure_usage key [] = record { key = key; spent_usd = 0; reserved_usd = 0 } ∷ []
ensure_usage key (u ∷ us) =
    let rest = ensure_usage key us in if same_subject u.key key then u ∷ us else u ∷ rest

-- `SELECT spent_usd … WHERE` the key.
unfoldable pub spent_of : Subject → List Usage → ℕ
spent_of key [] = 0
spent_of key (u ∷ us) =
    let rest = spent_of key us in if same_subject u.key key then u.spent_usd else rest

-- `SELECT reserved_usd … WHERE` the key.
unfoldable pub reserved_of : Subject → List Usage → ℕ
reserved_of key [] = 0
reserved_of key (u ∷ us) =
    let rest = reserved_of key us in if same_subject u.key key then u.reserved_usd else rest

-- `UPDATE subject_budget_usage SET spent_usd=spent_usd+cost, reserved_usd=…`
unfoldable pub update_usage : Subject → ℕ → ℕ → List Usage → List Usage
update_usage key cost reserved [] = []
update_usage key cost reserved (u ∷ us) =
    let rest = update_usage key cost reserved us in
    if same_subject u.key key
    then record u { spent_usd = u.spent_usd + cost; reserved_usd = reserved } ∷ us
    else u ∷ rest

-- `NOT released AND expires_at <= stamp` of the key.
abbrev pub is_expired : Subject → ℕ → Reservation → Bool
is_expired key stamp r = same_subject r.key key && not r.released && leb r.expires_at stamp

-- `UPDATE subject_budget_reservations SET released=TRUE`
unfoldable pub sweep : Subject → ℕ → List Reservation → List Reservation
sweep key stamp [] = []
sweep key stamp (r ∷ rs) =
    let rest = sweep key stamp rs in
    (if is_expired key stamp r then record r { released = true } else r) ∷ rest

abbrev pub live_share : Subject → Reservation → ℕ
live_share key r = if same_subject r.key key && not r.released then r.amount_usd else 0

-- `SELECT sum(amount_usd) … AND NOT released`
unfoldable pub live_sum : Subject → List Reservation → ℕ
live_sum key [] = 0
live_sum key (r ∷ rs) = live_share key r + live_sum key rs

-- `SELECT … WHERE id=…`
unfoldable pub find_reservation : String → List Reservation → Option Reservation
find_reservation id [] = none
find_reservation id (r ∷ rs) =
    let rest = find_reservation id rs in if str_eq r.id id then some r else rest

-- `DELETE … WHERE id=…`; the id is the primary key.
unfoldable pub delete_reservation : String → List Reservation → List Reservation
delete_reservation id [] = []
delete_reservation id (r ∷ rs) =
    let rest = delete_reservation id rs in if str_eq r.id id then rs else r ∷ rest

-- `(allowed, store_ok, spent_usd, reserved_usd)`
pub record Reserved : Type 0 where
  pub allowed : Bool
  pub store_ok : Bool
  pub spent_usd : ℕ
  pub reserved_usd : ℕ

abbrev pub reserve_failed : Reserved
reserve_failed = record { allowed = false; store_ok = false; spent_usd = 0; reserved_usd = 0 }

-- The arguments of a reservation.
pub record Claim : Type 0 where
  pub key : Subject
  pub limit_usd : ℕ
  pub amount_usd : ℕ
  pub reservation_id : String
  pub ttl : ℕ

abbrev pub row_of : Claim → ℕ → Reservation
row_of c stamp = record {
  id = c.reservation_id;
  key = c.key;
  amount_usd = c.amount_usd;
  expires_at = stamp + c.ttl;
  released = false;
}

-- The `INSERT` of the reservation, which fails where the id is taken.
unfoldable pub insert_reservation :
    Claim
    → ℕ
    → ℕ
    → ℕ
    → List Usage
    → List Reservation
    → Option Reservation
    → Tables
    → Reserved × Tables
insert_reservation c stamp spent reserved us rs (some r) t = (reserve_failed, t)
insert_reservation c stamp spent reserved us rs none t =
    let total = reserved + c.amount_usd in
    (
      record { allowed = true; store_ok = true; spent_usd = spent; reserved_usd = total },
      record { usage = update_usage c.key 0 total us; reservations = row_of c stamp ∷ rs },
    )

-- The transaction of `reserve_subject_budget`.
unfoldable pub reserve_rows : Claim → ℕ → Tables → Reserved × Tables
reserve_rows c stamp t =
    let us = ensure_usage c.key t.usage in
    let rs = sweep c.key stamp t.reservations in
    let spent = spent_of c.key us in
    let reserved = live_sum c.key rs in
    if leb (spent + reserved + c.amount_usd) c.limit_usd
    then insert_reservation c stamp spent reserved us rs (find_reservation c.reservation_id rs) t
    else (
      record { allowed = false; store_ok = true; spent_usd = spent; reserved_usd = reserved },
      record { usage = update_usage c.key 0 reserved us; reservations = rs },
    )

unfoldable pub reserve_subject_budget : Db → Claim → ℕ → Tables → Reserved × Tables
reserve_subject_budget db c stamp t = transact db reserve_failed (reserve_rows c stamp t) t

-- `cost_usd`: absent, not finite or negative, or an amount.
pub data Cost : Type 0 where
  unknown_cost bad_cost : Cost
  usd : ℕ → Cost

abbrev pub booked : Cost → ℕ
booked (usd n) = n
booked _ = 0

-- `(settled, store_ok)`
pub record Settled : Type 0 where
  pub settled : Bool
  pub store_ok : Bool

abbrev pub settle_failed : Settled
settle_failed = record { settled = false; store_ok = false }

-- The transaction of `settle_subject_budget` on the row of its id.
unfoldable pub settle_row_of : String → Cost → Tables → Option Reservation → Settled × Tables
settle_row_of id cost t none = (record { settled = false; store_ok = true }, t)
settle_row_of id cost t (some r) =
    let rs = delete_reservation id t.reservations in
    (
      record { settled = true; store_ok = true },
      record {
        usage = update_usage r.key (booked cost) (live_sum r.key rs) t.usage;
        reservations = rs;
      },
    )

unfoldable pub settle_subject_budget : Db → String → Cost → Tables → Settled × Tables
settle_subject_budget db id cost t =
    transact db settle_failed (settle_row_of id cost t (find_reservation id t.reservations)) t
