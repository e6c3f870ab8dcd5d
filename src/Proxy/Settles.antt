-- ===== src/Proxy/Settles.antt =====
-- The settle of a request's reservation: `_settle_reservation`, and the retries of `_submit_settle`.
pub mod Once
use unhardcoded.Prelude.{
  String, Bool, true, false, List, [], ◌∷◌, Option, none, some, if◌then◌else◌, ℕ,
}
use unhardcoded.Budget.{Tables, Db, Cost, settle_subject_budget}

-- The attempts of `settle`, one to each of SETTLE_RETRY_DELAYS_S; whether one was heard to succeed.
unfoldable pub settle_attempts : List Db → String → Cost → Tables → Bool × Tables
settle_attempts [] id cost t = (false, t)
settle_attempts (db ∷ dbs) id cost t =
    let (answer, left) = settle_subject_budget db id cost t in
    let rest = settle_attempts dbs id cost left in if answer.store_ok then (true, left) else rest

-- `reservation` of a request: its id, its amount and whether it is done.
pub record Held : Type 0 where
  pub id : String
  pub amount : ℕ
  pub done : Bool

-- The settles that were submitted, the last one first.
pub record Submitted : Type 0 where
  pub id : String
  pub cost : Cost

-- `_settle_reservation`
unfoldable pub settle_reservation :
    Cost → Option Held → List Submitted → Option Held × List Submitted
settle_reservation cost none out = (none, out)
settle_reservation cost (some h) out =
    if h.done
    then (some h, out)
    else (some (record h { done = true }), record { id = h.id; cost = cost } ∷ out)
