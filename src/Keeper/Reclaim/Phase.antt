-- ===== src/Keeper/Reclaim/Phase.antt =====
-- `_fire_reclaim_phase` of wallet_keeper.py.
use unhardcoded.Prelude.{
  ℕ, String, Bool, true, false, Option, none, some, List, [], if◌then◌else◌, leb,
}
use unhardcoded.Ledger.{Op, reclaim_kind, Outcome, ok, unknown}
use unhardcoded.Exec.{M, Body, nothing, ids, pure, ◌>>=◌, ◌>>◌, on_raise}
use unhardcoded.Store.{Environment, wallet_op_begin, wallet_op_finish, wallet_halt}
use unhardcoded.Control.{ControlResponse, control, outcome_for}
use unhardcoded.Keeper.{Decision}
use unhardcoded.Keeper.Strikes.{error_strikes, reclaim_error_strikes_to_halt}
use unhardcoded.Keeper.Reclaim.Batch.{same_ids}

abbrev pub is_empty_selection : Option (List (List ℕ)) → Bool
is_empty_selection (some []) = true
is_empty_selection _ = false

-- `{"ids": ids} if ids is not None else None`
abbrev pub body_of : Option (List (List ℕ)) → Body
body_of none = nothing
body_of (some l) = ids l

-- Did the sidecar echo the selection that it was sent?
unfoldable pub honours : Option (List (List ℕ)) → Option (List (List ℕ)) → Bool
honours none echoed = true
honours (some sent) none = false
honours (some sent) (some echoed) = same_ids echoed sent

abbrev pub is_fired : Outcome → Bool
is_fired Outcome.fired = true
is_fired _ = false

-- The outcome column of a reclaim row.
abbrev pub reclaim_outcome : Outcome → Outcome
reclaim_outcome Outcome.fired = ok
reclaim_outcome o = o

-- What follows a phase that did not fire: the error breaker of reclaim.
unfoldable pub reclaim_breaker : String → Op → M Decision
reclaim_breaker pid op = do
  strikes ← error_strikes pid op reclaim_error_strikes_to_halt
  if leb reclaim_error_strikes_to_halt strikes
      then (do wallet_halt pid reclaim_kind; pure (Decision.phase_failed op))
      else pure (Decision.phase_failed op)

-- What follows once the row is closed.
unfoldable pub after_phase : String → Op → Option (List (List ℕ)) → ControlResponse → M Decision
after_phase pid op selection resp =
    if is_fired (outcome_for resp)
    then if honours selection resp.selected
      then pure (Decision.fired op)
      else (do wallet_halt pid reclaim_kind; pure (Decision.unbounded op))
    else reclaim_breaker pid op

-- The request of a phase whose intent is row `op_id`, and its row's close.
unfoldable pub run_phase :
    Environment → String → String → Op → Option (List (List ℕ)) → ℕ → M Decision
run_phase env pid phase op selection op_id = do
  resp ← on_raise (control env phase (body_of selection)) (wallet_op_finish op_id unknown none none)
  wallet_op_finish op_id (reclaim_outcome (outcome_for resp)) none none
  after_phase pid op selection resp

unfoldable pub fire_reclaim_phase :
    Environment → String → String → Op → ℕ → Option ℕ → Option (List (List ℕ)) → M Decision
fire_reclaim_phase env pid phase op pre_available pre_reserved selection =
    if is_empty_selection selection then pure Decision.empty_selection else (do
      op_id ← wallet_op_begin pid op none (some pre_available) pre_reserved
      elim op_id [
        | none ↦ pure Decision.ledger_unavailable
        | some n ↦ run_phase env pid phase op selection n
      ])
