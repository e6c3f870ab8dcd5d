-- ===== src/Keeper/Topup.antt =====
-- `_retry_gate` and `_maybe_topup` of wallet_keeper.py.
use unhardcoded.Prelude.{
  ℕ, ◌+◌, ◌-◌, ◌/◌, String, Bool, true, false, Option, none, some, List, [], ◌∷◌, if◌then◌else◌,
  ltb, leb, ◌==◌, min, max,
}
use unhardcoded.Ledger.{topup, topup_kind, Outcome, unknown, WalletOp, is_error}
use unhardcoded.Exec.{M, zero_division, amount, seconds, pure, raise, gets, ◌>>=◌, ◌>>◌, on_raise}
use unhardcoded.Store.{
  Environment, Usdc, finite, infinite, Spend, wallet_halted, wallet_op_begin, wallet_op_finish,
  wallet_op_spend_since, wallet_ops_terminal,
}
use unhardcoded.Control.{control, outcome_for}
use unhardcoded.Knobs.{Knobs, max_topup_usdc, min_topup_usdc}
use unhardcoded.Keeper.{Decision}
use unhardcoded.Keeper.Chain.{chain_view}
use unhardcoded.Keeper.Settle.{touched_at}
use unhardcoded.Keeper.Strikes.{
  consecutive, error_strikes, halt_topups, backoff_s, topup_error_strikes_to_halt,
}

-- The rolling window of the daily cap, in seconds.
abbrev pub day_s : ℕ
day_s = 86_400

-- `"backoff" if now - last_error < backoff else None`, over the rows that count as strikes.
unfoldable pub backoff_gate : Knobs → ℕ → List WalletOp → Option Decision
backoff_gate knobs now [] = none
backoff_gate knobs now (row ∷ rows) =
    let strikes = consecutive is_error (row ∷ rows) in
    if strikes == 0
    then none
    else if ltb now (touched_at row + backoff_s knobs strikes)
    then some Decision.backoff
    else none

-- `last_spent is not None and now - last_spent < cooldown`
abbrev pub in_cooldown : Knobs → ℕ → Option ℕ → Bool
in_cooldown knobs now none = false
in_cooldown knobs now (some t) = ltb now (t + knobs.topup_cooldown_s)

unfoldable pub retry_gate : String → Knobs → Spend → M (Option Decision)
retry_gate pid knobs spend = do
  now ← gets seconds
  if in_cooldown knobs now spend.last_ts then pure (some Decision.cooldown) else (do
    rows ← wallet_ops_terminal pid topup topup_error_strikes_to_halt
    pure (backoff_gate knobs now rows))

-- `spent + amount > cap`
abbrev pub is_over_cap : Usdc → ℕ → ℕ → Bool
is_over_cap infinite usdc limit = true
is_over_cap (finite spent) usdc limit = ltb limit (spent + usdc)

-- `min(TOPUP_ERROR_STRIKES_TO_HALT, max(1, int(cap / amount)))`
abbrev pub capped_strikes_to_halt : Knobs → ℕ
capped_strikes_to_halt knobs =
    min topup_error_strikes_to_halt (max 1 (knobs.topup_daily_cap_usdc / knobs.topup_amount_usdc))

-- The branch of a cap that is reached.
unfoldable pub cap_reached : String → Knobs → M Decision
cap_reached pid knobs = do
  strikes ← error_strikes pid topup topup_error_strikes_to_halt
  if knobs.topup_amount_usdc == 0
      then raise zero_division
      else if leb (capped_strikes_to_halt knobs) strikes
      then halt_topups pid Decision.error_halt
      else pure Decision.daily_cap

abbrev topup_answer : Outcome → Decision
topup_answer Outcome.fired = Decision.topup_fired
topup_answer unknown = Decision.topup_unknown
topup_answer _ = Decision.topup_failed

-- The deposit whose intent is row `op_id`, and its row's close.
unfoldable pub run_deposit : Environment → String → ℕ → ℕ → M Decision
run_deposit env pid usdc op_id = do
  resp ← on_raise (control env "deposit" (amount usdc)) (wallet_op_finish op_id unknown none none)
  wallet_op_finish op_id (outcome_for resp) none none
  pure (topup_answer (outcome_for resp))

-- The intent first: a deposit that cannot be logged is not fired.
unfoldable pub fire_topup : Environment → String → ℕ → ℕ → Option ℕ → M Decision
fire_topup env pid usdc available reserved = do
  op_id ← wallet_op_begin pid topup (some usdc) (some available) reserved
  elim op_id [ none ↦ pure Decision.ledger_unavailable | some n ↦ run_deposit env pid usdc n ]

-- `wallet_usdc - amount < floor`
abbrev pub below_floor : Knobs → ℕ → ℕ → Bool
below_floor knobs usdc wallet_usdc = ltb wallet_usdc (knobs.topup_wallet_floor_usdc + usdc)

-- The hot-wallet floor, which an absent reading fails too.
unfoldable pub topup_on_reading :
    Environment → String → Knobs → ℕ → Option ℕ → ℕ → Option ℕ → M Decision
topup_on_reading env pid knobs available reserved usdc none = pure Decision.wallet_unreadable
topup_on_reading env pid knobs available reserved usdc (some wallet_usdc) =
    if below_floor knobs usdc wallet_usdc
    then pure Decision.wallet_floor
    else fire_topup env pid usdc available reserved

unfoldable pub topup_from_wallet : Environment → String → Knobs → ℕ → Option ℕ → ℕ → M Decision
topup_from_wallet env pid knobs available reserved usdc = do
  view ← chain_view env pid
  topup_on_reading env pid knobs available reserved usdc view.wallet_usdc

-- From a spend that no clock holds back.
unfoldable pub topup_within_cap : Environment → String → Knobs → ℕ → Option ℕ → Spend → M Decision
topup_within_cap env pid knobs available reserved spend =
    if is_over_cap spend.spent_usdc knobs.topup_amount_usdc knobs.topup_daily_cap_usdc
    then cap_reached pid knobs
    else (let usdc = min knobs.topup_amount_usdc max_topup_usdc in
        if ltb usdc min_topup_usdc
        then pure Decision.amount_too_small
        else topup_from_wallet env pid knobs available reserved usdc)

-- `if waiting: return waiting`
unfoldable pub unless_waiting : Option Decision → M Decision → M Decision
unless_waiting (some d) go = pure d
unless_waiting none go = go

unfoldable pub maybe_topup : Environment → String → Knobs → ℕ → Option ℕ → M Decision
maybe_topup env pid knobs available reserved =
    if leb knobs.topup_trigger_usdc available then pure Decision.funded else (do
      stopped ← wallet_halted pid topup_kind
      if stopped then pure Decision.halted else (do
        now ← gets seconds
        spend ← wallet_op_spend_since pid topup (now - day_s)
        waiting ← retry_gate pid knobs spend
        unless_waiting waiting (topup_within_cap env pid knobs available reserved spend)))
