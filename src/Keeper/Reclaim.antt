-- ===== src/Keeper/Reclaim.antt =====
-- `_maybe_reclaim` of wallet_keeper.py, up to the choice of a phase: `_wedged`, `_chain_view`,
-- `_last_reclaim_ts` and the guards.
pub mod Batch
pub mod Phase
pub mod Order
use unhardcoded.Prelude.{
  ℕ, ◌+◌, ◌*◌, String, Bool, true, false, ◌&&◌, not, Option, none, some, List, [], ◌∷◌,
  if◌then◌else◌, ltb, leb, ◌==◌, max,
}
use unhardcoded.Ledger.{Op, reclaim_kind}
use unhardcoded.Exec.{M, seconds, pure, gets, ◌>>=◌}
use unhardcoded.Store.{
  Environment, AttemptCounts, wallet_halted, wallet_ops_last_ts, provider_attempt_counts,
}
use unhardcoded.Control.{ControlResponse, control}
use unhardcoded.Ledger.{reclaim_set_operator, reclaim_request_close, reclaim_withdraw}
use unhardcoded.Exec.{Channel, nothing}
use unhardcoded.Prelude.{length, take}
use unhardcoded.Knobs.{Knobs}
use unhardcoded.Keeper.{Decision}
use unhardcoded.Keeper.Chain.{chain_view}
use Batch.{max_tx_per_cycle, sort_channels, ids_of, eligible}
use Phase.{fire_reclaim_phase}

-- WEDGE_MIN_ATTEMPTS, NO_SUCCESS_WINDOW_S in milliseconds, GAS_FLOOR_ETH in gwei,
-- RECLAIM_COOLDOWN_S, RATCHET_RESERVED_RATIO
abbrev pub wedge_min_attempts : ℕ
wedge_min_attempts = 10

abbrev pub no_success_window_ms : ℕ
no_success_window_ms = 3_600_000

abbrev pub gas_floor_gwei : ℕ
gas_floor_gwei = 500_000

abbrev pub reclaim_cooldown_s : ℕ
reclaim_cooldown_s = 900

abbrev pub ratchet_reserved_ratio : ℕ
ratchet_reserved_ratio = 2

-- `counts["total"] >= WEDGE_MIN_ATTEMPTS and counts["ok"] == 0`; the -1 of a store error fails both.
abbrev pub no_success : AttemptCounts → Bool
no_success counts = elim counts.total [
  | none ↦ false
  | some total ↦
      leb wedge_min_attempts total && elim counts.ok_count [ none ↦ false | some n ↦ n == 0 ]
]

unfoldable pub wedged : Environment → String → Knobs → ℕ → M Bool
wedged env pid knobs available = if ltb available knobs.min_available_usdc then pure true else (do
  counts ← provider_attempt_counts env pid no_success_window_ms
  pure (no_success counts))

-- RECLAIM_OPS
abbrev pub reclaim_ops : List Op
reclaim_ops = reclaim_set_operator ∷ reclaim_request_close ∷ reclaim_withdraw ∷ []

unfoldable pub last_reclaim_ts : String → M (Option ℕ)
last_reclaim_ts pid = wallet_ops_last_ts pid reclaim_ops

-- One round of the loop over the phases, with a batch that is not empty.
unfoldable pub fire_batch :
    Environment → String → ℕ → Option ℕ → String → Op → List Channel → M Decision
fire_batch env pid available reserved phase op batch =
    let ids = ids_of (sort_channels batch) in
    if length ids == length batch
    then fire_reclaim_phase env pid phase op available reserved (some (take max_tx_per_cycle ids))
    else pure Decision.scan_malformed

-- The loop over the phases: harvest first. The batches are the withdrawable and the closable.
unfoldable pub fire_first :
    Environment → String → ℕ → Option ℕ → List Channel → List Channel → M Decision
fire_first env pid available reserved [] [] = pure Decision.no_eligible_channels
fire_first env pid available reserved [] (c ∷ cs) =
    fire_batch env pid available reserved "reclaim/request-close" reclaim_request_close (c ∷ cs)
fire_first env pid available reserved (c ∷ cs) closable =
    fire_batch env pid available reserved "reclaim/withdraw" reclaim_withdraw (c ∷ cs)

unfoldable pub choose_phase : Environment → String → ℕ → Option ℕ → List Channel → M Decision
choose_phase env pid available reserved channels =
    fire_first env pid available reserved (eligible true channels) (eligible false channels)

-- `last is not None and now - last < RECLAIM_COOLDOWN_S`
abbrev pub reclaimed_lately : ℕ → Option ℕ → Bool
reclaimed_lately now none = false
reclaimed_lately now (some t) = ltb now (t + reclaim_cooldown_s)

-- `eth is not None and eth < GAS_FLOOR_ETH`
abbrev pub lacks_gas : Option ℕ → Bool
lacks_gas none = false
lacks_gas (some eth) = ltb eth gas_floor_gwei

-- From a scan that succeeded on: the cooldown, the bootstrap, and the phases.
unfoldable pub reclaim_from_scan :
    Environment → String → ℕ → Option ℕ → ControlResponse → M Decision
reclaim_from_scan env pid available reserved scan = do
  now ← gets seconds
  last ← last_reclaim_ts pid
  if reclaimed_lately now last
      then pure Decision.cooldown
      else if scan.operator_is_self
      then choose_phase env pid available reserved scan.channels
      else fire_reclaim_phase env pid "reclaim/set-operator" reclaim_set_operator available reserved
          none

-- The scan, with the gas veto before it.
unfoldable pub scan_and_reclaim : Environment → String → ℕ → Option ℕ → M Decision
scan_and_reclaim env pid available reserved = do
  view ← chain_view env pid
  if lacks_gas view.wallet_eth then pure Decision.gas_floor else (do
    scan ← control env "reclaim/scan" nothing
    if scan.ok
        then reclaim_from_scan env pid available reserved scan
        else pure Decision.scan_failed)

-- `short` and `ratcheted`
abbrev pub is_short : Knobs → ℕ → Bool
is_short knobs available = ltb available knobs.topup_trigger_usdc

abbrev pub is_ratcheted : Knobs → ℕ → Option ℕ → Bool
is_ratcheted knobs available none = false
is_ratcheted knobs available (some reserved) =
    leb (ratchet_reserved_ratio * max available knobs.topup_trigger_usdc) reserved

abbrev pub is_nothing_reserved : Knobs → Option ℕ → Bool
is_nothing_reserved knobs none = true
is_nothing_reserved knobs (some reserved) = leb reserved knobs.reclaim_min_usdc

unfoldable pub maybe_reclaim : Environment → String → Knobs → ℕ → Option ℕ → M Decision
maybe_reclaim env pid knobs available reserved = do
  stopped ← wallet_halted pid reclaim_kind
  if stopped
      then pure Decision.halted
      else if not (is_short knobs available) && not (is_ratcheted knobs available reserved)
      then pure Decision.not_short
      else if is_nothing_reserved knobs reserved
      then pure Decision.nothing_reserved
      else (do
        stuck ← wedged env pid knobs available
        if stuck then scan_and_reclaim env pid available reserved else pure Decision.not_wedged)
