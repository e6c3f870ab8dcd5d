-- ===== src/Tests/Rate.antt =====
-- A bucket of one token.
use unhardcoded.Prelude.{ℕ, ◌+◌, ◌*◌, ◌≤◌, ◌≡◌, refl, false, [], List, arith}
use unhardcoded.Budget.{commits}
use unhardcoded.Rate.{
  Bucket, Draw, token_parts, bucket_of, put_bucket, refilled, retry_after_of, draw, draw_rows,
  consume_rate_token,
}
use unhardcoded.Rate.Bound.{quiet, then_calls, row, admits, forward, Calls-bound}

abbrev call_at : ℕ → Draw
call_at t = record { consumer = "ana"; rate_per_min = 60; burst = 1; stamp = t }

abbrev emptied : List Bucket
emptied = (consume_rate_token commits (call_at 1000) []).1

-- The second call is half a second early.
abbrev after_two : List Bucket
after_two = (consume_rate_token commits (call_at 1500) emptied).1

refused : (consume_rate_token commits (call_at 1500) emptied).0.allowed ≡ false
unfolding consume_rate_token draw_rows bucket_of put_bucket refilled draw retry_after_of
refused = refl

half_a_second :
    (consume_rate_token commits (call_at 1500) emptied).0.retry_after
    ≡ record { parts = 500 * 60; rate = 60 }
unfolding consume_rate_token draw_rows bucket_of put_bucket refilled draw retry_after_of
half_a_second = refl

Calls-bound_example :
    (0 + admits "ana" (call_at 1000) (consume_rate_token commits (call_at 1000) []).0) * token_parts
    ≤ 1 * token_parts + (0 + forward (row "ana" []) (row "ana" emptied)) * 60
Calls-bound_example =
    Calls-bound "ana" 60 1
      (0 + admits "ana" (call_at 1000) (consume_rate_token commits (call_at 1000) []).0)
      (0 + forward (row "ana" []) (row "ana" emptied)) emptied
      (then_calls quiet commits (call_at 1000) (λ e. (omega arith, omega arith)))
