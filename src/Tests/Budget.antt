-- ===== src/Tests/Budget.antt =====
-- One call that is reserved and settled.
use unhardcoded.Prelude.{◌+◌, ◌≤◌, ◌≡◌, refl, true, arith}
use unhardcoded.Budget.{
  Subject, Tables, Claim, commits, commits_unheard, usd, spent_of, live_sum, find_reservation,
  insert_reservation, reserve_rows, reserve_subject_budget, settle_subject_budget, ensure_usage,
  sweep,
}
use unhardcoded.Budget.Bound.{
  Run, still, then_steps, reserves, settles, no_rows, committed, overshoot, Run-Within,
}
use unhardcoded.Budget.Held.{at_once, then_reserves}
use unhardcoded.Budget.Settle.{SettlesOnce, settle-reserve}
use unhardcoded.Budget.Counters.{IsCounted, Run-IsCounted}

abbrev ana : Subject
ana = record { tenant_id = 7; subject = "k:1"; period = "2026-01" }

abbrev call : Claim
call = record { key = ana; limit_usd = 100; amount_usd = 50; reservation_id = "r1"; ttl = 900 }

abbrev reserved : Tables
reserved = (reserve_subject_budget commits call 10 no_rows).1

-- The call cost 20 more than it reserved.
abbrev ended : Tables
ended = (settle_subject_budget commits_unheard "r1" (usd 70) reserved).1

is_admitted : (reserve_subject_budget commits call 10 no_rows).0.allowed ≡ true
unfolding reserve_subject_budget reserve_rows insert_reservation ensure_usage spent_of sweep
    live_sum find_reservation
is_admitted = refl

abbrev overrun : Run ana 100 no_rows (0 + 0 + overshoot ana "r1" (usd 70) reserved) ended
overrun =
    then_steps (then_steps still (reserves commits call 10 no_rows (λ e. omega arith)))
      (settles commits_unheard "r1" (usd 70) reserved)

Run-Within_example : committed ana ended ≤ 100 + (0 + 0 + overshoot ana "r1" (usd 70) reserved)
Run-Within_example = Run-Within ana 100 (0 + 0 + overshoot ana "r1" (usd 70) reserved) ended overrun

Run-IsCounted_example : IsCounted ended
Run-IsCounted_example =
    Run-IsCounted ana 100 (0 + 0 + overshoot ana "r1" (usd 70) reserved) ended overrun

-- Another call of the subject sweeps the reservation once it has expired.
abbrev next_call : Claim
next_call = record call { reservation_id = "r2" }

abbrev swept_tables : Tables
swept_tables = (reserve_subject_budget commits next_call 5_000 reserved).1

settle-reserve_example :
    SettlesOnce call
      (usd 70)
      (usd 5)
      swept_tables
      (settle_subject_budget commits "r1" (usd 70) swept_tables)
settle-reserve_example =
    settle-reserve call 10 (usd 70) (usd 5) no_rows swept_tables is_admitted
      (then_reserves at_once commits next_call 5_000)
