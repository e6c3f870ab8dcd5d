-- ===== src/Keeper.antt =====
-- The funding loop of wallet_keeper.py: the words with which its methods answer. The children hold
-- the methods, and the proofs about them.
pub mod Strikes
pub mod Settle
pub mod Chain
pub mod Reclaim
pub mod Topup
pub mod Cycle
pub mod Sound
pub mod Backoff
pub mod Logged
pub mod Waits
pub mod License
pub mod Freshness
use unhardcoded.Ledger.{Op}

-- The strings that `_settle_topups`, `_maybe_reclaim` and `_maybe_topup` return. `fired op`,
-- `phase_failed op` and `unbounded op` are `op`, `<op>_failed` and `<op>_unbounded`.
pub data Decision : Type 0 where
  funded halted cooldown backoff daily_cap amount_too_small wallet_unreadable wallet_floor :
      Decision
  ledger_unavailable topup_fired topup_unknown topup_failed pump_halt error_halt : Decision
  not_short nothing_reserved not_wedged gas_floor scan_failed scan_malformed : Decision
  no_eligible_channels empty_selection : Decision
  fired phase_failed unbounded : Op → Decision
