-- ===== src/Tests/Keeper.antt =====
-- The funding loop on a short escrow: one deposit, and then a cooldown.
use unhardcoded.Prelude.{
  ◌*◌, ℕ, ◌⊎◌, max, inl, inr, ◌+◌, ◌≤◌, ◌≡◌, ◌↔◌, refl, true, false, String, none, some, List, [],
  ◌∷◌, arith, min, length, all, take,
}
use unhardcoded.Ledger.{
  topup, topup_kind, Outcome, is_error, WalletOp, insert, close_rows, halt_stands, spent_since,
  max_ts, newest, open_rows, same_op, is_spent, is_settled, is_terminal, is_open, is_halted,
}
use unhardcoded.Ledger.Sums.{spent_in}
use unhardcoded.Exec.{
  Core, seconds, answer, Turn, nothing, amount, raised, value_error, store_call, for_each, continue,
  on_raise, ◌>>=◌,
}
use unhardcoded.Store.{
  Environment, intent_row, wallet_op_begin, wallet_op_finish, wallet_ops_open,
  wallet_op_spend_since, wallet_ops_settled, wallet_ops_terminal, wallet_halted, wallet_halt,
  buyer_status,
}
use unhardcoded.Knobs.{Knobs, load_knobs, knobs, IsConsistent}
use unhardcoded.Knobs.Laws.{load_knobs_iff}
use unhardcoded.Control.{classify, request, control_post, control, outcome_for}
use unhardcoded.Control.Requests.{sent_in, Permitted}
use unhardcoded.Control.Allowlist.{IsVerb, control_refuses}
use unhardcoded.Keeper.Chain.{chain_view, fresh_detail}
use unhardcoded.Keeper.Strikes.{consecutive, error_strikes, halt_topups, backoff_s}
use unhardcoded.Keeper.Settle.{reconcile_orphans, error_breaker, settle_topups}
use unhardcoded.Keeper.Reclaim.{maybe_reclaim}
use unhardcoded.Keeper.Topup.{
  day_s, backoff_gate, retry_gate, cap_reached, run_deposit, fire_topup, topup_on_reading,
  topup_from_wallet, topup_within_cap, unless_waiting, maybe_topup,
}
use unhardcoded.Keeper.Cycle.{
  status_age_ms, finish_cycle, act, on_status, cycle_provider, isolate, guarded_cycle, cycle_all,
  cycle_with, cycle_on, cycle,
}
use unhardcoded.Keeper.Backoff.{consecutive-longest, breaks_at, backoff_s_bounds}
use unhardcoded.Keeper.Waits.{HasWaited, last_finished, answering}
use unhardcoded.Keeper.License.{Licensed, maybe_topup-Licensed}
use unhardcoded.Keeper.Sound.{is_of, of_all}
use unhardcoded.Keeper.Sound.Reach.{
  start_core, world_of, cycles, waits, answers_with, moves, here, next, still, then_moves, Reach,
  Reach-capped, Reach-covered, Reach-Permitted, Run-halt_stands,
}
use unhardcoded.Exec.Ends.{Ends}
use unhardcoded.Keeper.Freshness.{IsUnusable, IsIdle, cycle_provider-IsIdle}
use unhardcoded.Exec.{Channel}
use unhardcoded.Prelude.{Option}
use unhardcoded.Store.{BuyerStatus}

-- Half a USDC in the escrow, 100 USDC in the wallet, every reading fresh.
abbrev short_escrow : Environment
short_escrow = record {
  status_row = λ now pid. some (record {
    deposits_available = some 500_000;
    deposits_reserved = some 0;
    fetched_at = some now;
  });
  observations = λ now. [];
  rounds_up = λ before after amount. true;
  balances = λ now pid. some (record {
    fetched_at = some now;
    detail = record { wallet_usdc = some 100_000_000; wallet_eth = some 1_000_000 };
  });
  control_configured = true;
  httpx_available = true;
}

-- The defaults of the settings, with the keeper armed.
abbrev default_knobs : Knobs
default_knobs = record {
  enabled = true;
  min_available_usdc = 1_100_000;
  topup_trigger_usdc = 2_000_000;
  topup_amount_usdc = 5_000_000;
  topup_wallet_floor_usdc = 1_000_000;
  topup_daily_cap_usdc = 10_000_000;
  topup_cooldown_s = 900;
  reclaim_min_usdc = 3_000_000;
}

abbrev accepting : Turn
accepting = record {
  elapsed_ms = 2000;
  transport = answer 200 (
      some (record {
        ok = none;
        attempted = none;
        operator_is_self = false;
        channels = [];
        selected = none;
      }));
}

abbrev start_ms : ℕ
start_ms = 1_000_000_000

abbrev ready : Core
ready = record (start_core start_ms) { turns = accepting ∷ [] }

abbrev buyers : List String
buyers = "antseed" ∷ []

-- One cycle of the keeper, and what it leaves.
abbrev after_cycle : Core
after_cycle = (cycle short_escrow (some default_knobs) buyers (world_of ready [])).1.core

reached : Reach 10_000_000 (start_core start_ms) after_cycle
reached =
    next (next here (moves (answers_with (accepting ∷ []) (start_core start_ms))))
      (moves (cycles short_escrow (some default_knobs) buyers [] ready (omega arith)))

one_deposit :
    after_cycle.sent
    ≡ record {
      at = 1_000_000;
      op = "deposit";
      body = amount 5_000_000;
      transport = accepting.transport;
    }
      ∷ []
unfolding cycle load_knobs cycle_on cycle_with cycle_all guarded_cycle cycle_provider buyer_status
    on_status status_age_ms act reconcile_orphans wallet_ops_open open_rows for_each settle_topups
    wallet_ops_settled newest error_breaker wallet_ops_terminal consecutive maybe_reclaim
    wallet_halted halt_stands finish_cycle maybe_topup wallet_op_spend_since spent_since max_ts
    retry_gate backoff_gate unless_waiting topup_within_cap topup_from_wallet chain_view
    fresh_detail topup_on_reading fire_topup wallet_op_begin insert run_deposit control control_post
    request classify on_raise wallet_op_finish close_rows outcome_for isolate store_call ◌>>=◌
    continue
one_deposit = refl

Reach-capped_example :
    spent_in (is_of "antseed") 1_000_000 (1_000_000 + day_s) after_cycle.ledger.rows ≤ 10_000_000
Reach-capped_example = Reach-capped "antseed" 10_000_000 start_ms after_cycle reached 1_000_000

Reach-covered_example :
    sent_in 999_000 1_001_000 after_cycle.sent
    ≤ spent_in of_all 999_000 1_001_000 after_cycle.ledger.rows
Reach-covered_example = Reach-covered 10_000_000 start_ms after_cycle reached 999_000 1_001_000

Reach-Permitted_example : Permitted after_cycle.sent
Reach-Permitted_example = Reach-Permitted 10_000_000 start_ms after_cycle reached

load_knobs_iff_example :
    (load_knobs default_knobs ≡ knobs default_knobs)
    ↔ ((default_knobs ≡ default_knobs) × IsConsistent default_knobs)
load_knobs_iff_example = load_knobs_iff default_knobs default_knobs

abbrev answered : Core
answered =
    (maybe_topup short_escrow "antseed" default_knobs 500_000 (some 0) (answering ready)).1.core

maybe_topup-Licensed_example :
    Ends
      (maybe_topup short_escrow "antseed" default_knobs 500_000 (some 0))
      ready
      (λ _ c'. Licensed short_escrow "antseed" default_knobs 500_000 ready c')
    × ((answered.sent ≡ ready.sent)
        ⊎ HasWaited default_knobs (seconds ready) (last_finished "antseed" ready.ledger.rows))
maybe_topup-Licensed_example =
    maybe_topup-Licensed short_escrow "antseed" default_knobs 500_000 (some 0) ready

abbrev erring_row : WalletOp
erring_row = record (intent_row "antseed" topup (some 5_000_000) none none 7) {
  outcome = Outcome.unknown;
}

consecutive-longest_example :
    let rows : List WalletOp = erring_row ∷ intent_row "antseed" topup none none none 3 ∷ [] in
    (consecutive is_error rows ≤ length rows)
    × (all (λ r. is_error r.outcome) (take (consecutive is_error rows) rows) ≡ true)
    × (breaks_at is_error (consecutive is_error rows) rows ≡ true)
consecutive-longest_example =
    consecutive-longest is_error (erring_row ∷ intent_row "antseed" topup none none none 3 ∷ [])

backoff_s_bounds_example :
    (backoff_s default_knobs 1 ≡ min (max default_knobs.topup_cooldown_s 300) 3600)
    × (backoff_s default_knobs 3 ≡ min (2 * backoff_s default_knobs 2) 3600)
    × (300 ≤ backoff_s default_knobs 2)
    × (min default_knobs.topup_cooldown_s 3600 ≤ backoff_s default_knobs 2)
    × (backoff_s default_knobs 2 ≤ 3600)
backoff_s_bounds_example = backoff_s_bounds default_knobs 2 (omega arith)

control_refuses_example :
    (control short_escrow "withdraw" nothing (world_of ready [])
      ≡ (raised value_error, world_of ready []))
    ↔ (¬ IsVerb "withdraw")
control_refuses_example = control_refuses short_escrow "withdraw" nothing (world_of ready [])

-- A cap of one deposit, and a sidecar that is gone: one unknown deposit, and later a halt.
abbrev tight_knobs : Knobs
tight_knobs = record default_knobs { topup_daily_cap_usdc = 5_000_000 }

abbrev erred : Core
erred = (cycle short_escrow (some tight_knobs) buyers (world_of (start_core start_ms) [])).1.core

abbrev halted_core : Core
halted_core =
    (cycle short_escrow (some tight_knobs) buyers
      (world_of (record erred { clock_ms = erred.clock_ms + 4_000_000 }) [])).1.core

reached_halt : Reach 10_000_000 (start_core start_ms) halted_core
reached_halt =
    next
      (next
        (next here (
          moves
            (cycles short_escrow (some tight_knobs) buyers [] (start_core start_ms) (omega arith))))
        (moves (waits 4_000_000 erred)))
      (moves (
        cycles short_escrow (some tight_knobs) buyers []
          (record erred { clock_ms = erred.clock_ms + 4_000_000 }) (omega arith)))

it_halted : halt_stands "antseed" topup_kind halted_core.ledger.rows ≡ true
unfolding cycle load_knobs cycle_on cycle_with cycle_all guarded_cycle cycle_provider buyer_status
    on_status status_age_ms act reconcile_orphans wallet_ops_open open_rows for_each settle_topups
    wallet_ops_settled newest error_breaker wallet_ops_terminal consecutive maybe_reclaim
    wallet_halted halt_stands finish_cycle maybe_topup wallet_op_spend_since spent_since max_ts
    retry_gate backoff_gate unless_waiting topup_within_cap topup_from_wallet chain_view
    fresh_detail topup_on_reading fire_topup wallet_op_begin insert run_deposit control control_post
    request classify on_raise wallet_op_finish close_rows outcome_for isolate store_call cap_reached
    error_strikes halt_topups wallet_halt ◌>>=◌ continue is_open same_op is_settled is_terminal
    is_error is_spent is_halted
it_halted = refl

Run-halt_stands_example :
    halt_stands "antseed" topup_kind
      (cycle short_escrow (some default_knobs) buyers (world_of halted_core [])).1.core.ledger.rows
    ≡ true
Run-halt_stands_example =
    Run-halt_stands 10_000_000 start_ms "antseed" topup_kind halted_core
      (cycle short_escrow (some default_knobs) buyers (world_of halted_core [])).1.core reached_halt
      it_halted
      (then_moves still
        (cycles short_escrow (some default_knobs) buyers [] halted_core (omega arith)))

abbrev holding : ℕ → Channel
holding usdc = record { id = b'c' ∷ []; close_requested = false; reclaimable = some usdc }

abbrev two_channels : List Channel
two_channels = holding 60_000 ∷ holding 90_000 ∷ []

-- The sidecar stopped long ago.
abbrev silent_sidecar : Environment
silent_sidecar = record short_escrow {
  status_row = λ now pid. some (record {
    deposits_available = some 500_000;
    deposits_reserved = some 0;
    fetched_at = some 1;
  });
}

abbrev stale_row : Option BuyerStatus
stale_row = silent_sidecar.status_row start_ms "antseed"

stale : IsUnusable start_ms stale_row
stale = inr (1, refl, inl (omega arith))

cycle_provider-IsIdle_example :
    Ends (cycle_provider silent_sidecar default_knobs "antseed") ready (IsIdle ready)
cycle_provider-IsIdle_example =
    cycle_provider-IsIdle silent_sidecar default_knobs "antseed" ready stale
