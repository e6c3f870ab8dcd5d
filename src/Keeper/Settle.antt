-- ===== src/Keeper/Settle.antt =====
-- `_reconcile_orphans` and `_settle_topups` of wallet_keeper.py.
use unhardcoded.Prelude.{
  ℕ, ◌+◌, ◌*◌, String, Bool, not, ◌&&◌, ◌||◌, Option, none, some, List, if◌then◌else◌, ltb, leb,
  ◌==◌, all, length,
}
use unhardcoded.Ledger.{
  topup, Outcome, unknown, effective, ineffective, WalletOp, is_error, is_pending, is_ineffective,
  same_op,
}
use unhardcoded.Exec.{M, seconds, pure, gets, for_each, ◌>>=◌, ◌>>◌}
use unhardcoded.Store.{
  Environment, wallet_ops_open, wallet_op_finish, wallet_ops_settled, wallet_ops_terminal,
}
use unhardcoded.Keeper.{Decision}
use unhardcoded.Keeper.Strikes.{consecutive, halt_topups, topup_error_strikes_to_halt}

-- SETTLE_AFTER_S, PUMP_STRIKES_TO_HALT
abbrev pub settle_after_s : ℕ
settle_after_s = 90

abbrev pub pump_strikes_to_halt : ℕ
pump_strikes_to_halt = 2

-- The body of the loop of `_reconcile_orphans`.
unfoldable pub reconcile_row : WalletOp → M (Unit {0})
reconcile_row row =
    if same_op row.op topup || not (is_pending row.outcome)
    then pure tt
    else (do wallet_op_finish row.id unknown none none; pure tt)

unfoldable pub reconcile_orphans : String → M (Unit {0})
reconcile_orphans pid = do rows ← wallet_ops_open pid none; for_each reconcile_row rows

-- `gained >= PUMP_EFFECTIVE_FRACTION * amount`, both sides times five, and floats at equality.
unfoldable pub has_gained : Environment → ℕ → ℕ → ℕ → Bool
has_gained env before after amount =
    if 5 * after == 5 * before + 4 * amount
    then env.rounds_up before after amount
    else ltb (5 * before + 4 * amount) (5 * after)

-- The reserved readings count where both are there.
unfoldable pub is_effective : Environment → ℕ → Option ℕ → ℕ → Option ℕ → ℕ → Bool
is_effective env available (some reserved) pre (some pre_reserved) amount =
    has_gained env (pre + pre_reserved) (available + reserved) amount
is_effective env available _ pre _ amount = has_gained env pre available amount

-- `row["updated_at"] or row["ts"]`
abbrev pub touched_at : WalletOp → ℕ
touched_at row = if row.updated_at == 0 then row.ts else row.updated_at

-- The outcome of a fired deposit whose effect can be read now.
unfoldable pub measured : Environment → ℕ → Option ℕ → WalletOp → Outcome
measured env available reserved row = elim row.pre_available [
  | none ↦ unknown
  | some pre ↦ elim row.amount_usdc [
    | none ↦ unknown
    | some amount ↦
        if amount == 0
        then unknown
        else if is_effective env available reserved pre row.pre_reserved amount
        then effective
        else ineffective
  ]
]

-- The body of the loop of `_settle_topups`.
unfoldable pub settle_row : Environment → ℕ → Option ℕ → ℕ → WalletOp → M (Unit {0})
settle_row env available reserved now row =
    if is_pending row.outcome
    then (do wallet_op_finish row.id unknown (some available) reserved; pure tt)
    else if ltb now (touched_at row + settle_after_s)
    then pure tt
    else (do
      wallet_op_finish row.id (measured env available reserved row) (some available) reserved
      pure tt)

-- The error breaker, the second one.
unfoldable pub error_breaker : String → M (Option Decision)
error_breaker pid = do
  rows ← wallet_ops_terminal pid topup topup_error_strikes_to_halt
  if leb topup_error_strikes_to_halt (consecutive is_error rows)
      then (do d ← halt_topups pid Decision.error_halt; pure (some d))
      else pure none

-- `len(settled) >= PUMP_STRIKES_TO_HALT and all(… == "ineffective" …)`
abbrev pub is_pumping : List WalletOp → Bool
is_pumping settled =
    leb pump_strikes_to_halt (length settled) && all (λ r. is_ineffective r.outcome) settled

unfoldable pub settle_topups : Environment → String → ℕ → Option ℕ → M (Option Decision)
settle_topups env pid available reserved = do
  now ← gets seconds
  rows ← wallet_ops_open pid (some topup)
  for_each (settle_row env available reserved now) rows
  settled ← wallet_ops_settled pid topup pump_strikes_to_halt
  if is_pumping settled
      then (do d ← halt_topups pid Decision.pump_halt; pure (some d))
      else error_breaker pid
