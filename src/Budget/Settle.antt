-- ===== src/Budget/Settle.antt =====
-- The life of one reservation: what its settle books, once.
use unhardcoded.Prelude.{ℕ, ◌+◌, ◌≡◌, ◌≤◌, refl, true, false, arith, sym, subst}
use unhardcoded.Budget.{
  Tables, commits, Claim, Cost, booked, spent_of, live_sum, live_share, update_usage,
  delete_reservation, reserve_subject_budget, settle_row_of, settle_subject_budget, Settled,
}
use unhardcoded.Budget.Sums.{live_sum-delete}
use unhardcoded.Budget.Rows.{spent_of-booked}
use unhardcoded.Budget.Held.{Holds, Later, Later-Holds, admitted, admitted-Holds}

-- What is claimed of a settle on tables `t`, from its answer and tables.
abbrev pub SettlesOnce : Claim → Cost → Cost → Tables → Settled × Tables → Type 0
SettlesOnce c cost again t done =
    (done.0 ≡ record { settled = true; store_ok = true })
    × (spent_of c.key done.1.usage ≡ spent_of c.key t.usage + booked cost)
    × ((held : ℕ) × (held ≤ c.amount_usd)
        × (live_sum c.key t.reservations ≡ held + live_sum c.key done.1.reservations))
    × (settle_subject_budget commits c.reservation_id again done.1
        ≡ (record { settled = false; store_ok = true }, done.1))

module _ (c : Claim) (cost again : Cost) (t : Tables) (h : Holds c t) where
  -- The tables after the settle.
  abbrev settled_tables : Tables
  settled_tables =
      let rs = delete_reservation c.reservation_id t.reservations in
      record {
        usage = update_usage h.row.key (booked cost) (live_sum h.row.key rs) t.usage;
        reservations = rs;
      }

  settled_lem :
      settle_subject_budget commits c.reservation_id cost t
      ≡ (record { settled = true; store_ok = true }, settled_tables)
  unfolding settle_subject_budget settle_row_of
  settled_lem = simp (h.found) refl

  spent_lem : spent_of c.key settled_tables.usage ≡ spent_of c.key t.usage + booked cost
  spent_lem = rw h.same_key (spent_of-booked c.key (booked cost) _ t.usage h.known)

  again_lem :
      settle_subject_budget commits c.reservation_id again settled_tables
      ≡ (record { settled = false; store_ok = true }, settled_tables)
  unfolding settle_subject_budget settle_row_of
  again_lem = simp (h.once) refl

  held_le : live_share c.key h.row ≤ c.amount_usd
  held_le = let same = h.same_amount in ground arith

  settles_once : SettlesOnce c cost again t (settle_subject_budget commits c.reservation_id cost t)
  settles_once = subst (SettlesOnce c cost again t) (sym settled_lem) (
    refl,
    spent_lem,
    (live_share c.key h.row, held_le, live_sum-delete c.key c.reservation_id h.row _ h.found),
    again_lem,
  )

-- A reservation that was admitted settles once, however late: after any further reservations, which
-- may sweep it when it has expired, and settles of other ids, all of which may fail or commit
-- unheard, a settle that commits books the call's cost on its subject, and nothing where the cost is
-- unknown or not a sum, and frees at most what it held; a further settle of the same id that
-- commits finds nothing and changes nothing.
pub settle-reserve :
    (c : Claim) (stamp : ℕ) (cost again : Cost) (t u : Tables)
    → (reserve_subject_budget commits c stamp t).0.allowed ≡ true
    → Later c.reservation_id (reserve_subject_budget commits c stamp t).1 u
    → SettlesOnce c cost again u (settle_subject_budget commits c.reservation_id cost u)
unfolding reserve_subject_budget
settle-reserve c stamp cost again t u h later =
    let (left, free) = admitted c stamp t h in
    let start = subst (Holds c) (sym left) (admitted-Holds c stamp t free) in
    settles_once c cost again u (Later-Holds c later start)
