-- ===== src/Proxy/Finish.antt =====
-- The end of a request that was sent: `_finish`.
pub mod Once
use unhardcoded.Prelude.{
  ℕ, ◌-◌, Bool, true, false, Option, none, some, List, [], ◌∷◌, if◌then◌else◌, leb, max,
}
use unhardcoded.Budget.{Cost, unknown_cost, usd}
use unhardcoded.Proxy.Settles.{Held, settle_reservation}
use unhardcoded.Proxy.Admission.{Shared, Forward}

-- A request that was sent: its reservation, and `capacity_released`.
pub record SentCall : Type 0 where
  pub held : Option Held
  pub released : Bool

-- What `_finish` settles: the cost where it is known or the call failed, else the reservation.
unfoldable pub settlement : Option ℕ → ℕ → Option Held → Cost
settlement (some cost) status held = usd cost
settlement none status none = unknown_cost
settlement none status (some h) = if leb 400 status then unknown_cost else usd h.amount

-- `_finish`
unfoldable pub finish : Option ℕ → ℕ → SentCall → Shared → SentCall × Shared
finish cost status c s =
    let (held, out) = settle_reservation (settlement cost status c.held) c.held s.submitted in
    if c.released then (c, s) else (
      record { held = held; released = true },
      record s { submitted = out; permits = max 0 (s.permits - 1) },
    )

-- The calls of `_finish`: by the handler's own `finally`, by the pump of a stream, or by both.
unfoldable pub finishes : List (Option ℕ × ℕ) → SentCall → Shared → SentCall × Shared
finishes [] c s = (c, s)
finishes ((cost, status) ∷ rest) c s = let (c', s') = finish cost status c s in finishes rest c' s'

abbrev pub sent_of : Forward → SentCall
sent_of f = record { held = f.reservation; released = false }
