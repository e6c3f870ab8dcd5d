-- ===== src/Keeper/Strikes.antt =====
-- The strike counters of wallet_keeper.py, and `_halt_topups`.
use unhardcoded.Prelude.{
  ℕ, suc, ◌*◌, ◌^◌, ◌-◌, String, Bool, List, [], ◌∷◌, if◌then◌else◌, ◌==◌, min, max,
}
use unhardcoded.Ledger.{Op, topup, topup_kind, Outcome, WalletOp, is_error}
use unhardcoded.Exec.{M, pure, ◌>>=◌, ◌>>◌}
use unhardcoded.Store.{wallet_ops_terminal, wallet_halt}
use unhardcoded.Knobs.{Knobs}
use unhardcoded.Keeper.{Decision}

-- TOPUP_ERROR_STRIKES_TO_HALT, RECLAIM_ERROR_STRIKES_TO_HALT
abbrev pub topup_error_strikes_to_halt : ℕ
topup_error_strikes_to_halt = 3

abbrev pub reclaim_error_strikes_to_halt : ℕ
reclaim_error_strikes_to_halt = 3

-- TOPUP_BACKOFF_BASE_S, TOPUP_BACKOFF_CAP_S
abbrev pub topup_backoff_base_s : ℕ
topup_backoff_base_s = 300

abbrev pub topup_backoff_cap_s : ℕ
topup_backoff_cap_s = 3600

-- `_consecutive`
unfoldable pub consecutive : (Outcome → Bool) → List WalletOp → ℕ
consecutive among [] = 0
consecutive among (r ∷ rs) =
    let rest = consecutive among rs in if among r.outcome then suc rest else 0

unfoldable pub error_strikes : String → Op → ℕ → M ℕ
error_strikes pid op limit = do
  rows ← wallet_ops_terminal pid op limit
  pure (consecutive is_error rows)

-- The cycle stands down whether or not the halt could be written.
unfoldable pub halt_topups : String → Decision → M Decision
halt_topups pid decision = do wallet_halt pid topup_kind; pure decision

-- The wait after `strikes` consecutive errors, at least one.
abbrev pub backoff_s : Knobs → ℕ → ℕ
backoff_s knobs strikes =
    min (max knobs.topup_cooldown_s topup_backoff_base_s * 2 ^ (strikes - 1)) topup_backoff_cap_s

unfoldable pub topup_cooldown_s : String → Knobs → M ℕ
topup_cooldown_s pid knobs = do
  strikes ← error_strikes pid topup topup_error_strikes_to_halt
  pure (if strikes == 0 then knobs.topup_cooldown_s else backoff_s knobs strikes)
