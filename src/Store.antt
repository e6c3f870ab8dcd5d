-- ===== src/Store.antt =====
-- The wallet section of host_store.py: each function is one call of the database, with the value
-- that its `except` branch returns. `Environment` holds what other programs write into the same
-- database and what other parts of the router keep in memory.
use unhardcoded.Prelude.{
  ℕ, zero, ◌+◌, ◌-◌, String, Bool, true, false, ◌&&◌, Option, none, some, List, [], ◌∷◌,
  if◌then◌else◌, leb, str_eq, any, min, max,
}
use unhardcoded.Ledger.{
  HaltKind, Op, halt, Outcome, pending, halted, is_spent, is_settled, is_terminal, WalletOp, insert,
  close_rows, halt_stands, without_halt, spent_since, max_ts, newest, open_rows, is_for, same_op,
}
use unhardcoded.Exec.{M, seconds, store_call, query}

-- The columns of `buyer_status` that the keeper reads, the balances coerced by `as_float`, in
-- micro-USDC. `fetched_at` is in milliseconds, `none` if it is no number.
pub record BuyerStatus : Type 0 where
  pub deposits_available : Option ℕ
  pub deposits_reserved : Option ℕ
  pub fetched_at : Option ℕ

-- A row of `route_observations`.
pub record Observation : Type 0 where
  pub provider_id : String
  pub ts : ℕ
  pub ok : Bool

-- The `detail` of the source's balances: micro-USDC and gwei.
pub record ChainDetail : Type 0 where
  pub wallet_usdc : Option ℕ
  pub wallet_eth : Option ℕ

-- `SOURCE_STATE[…]["balances"][pid]`, its stamp in milliseconds.
pub record ChainReading : Type 0 where
  pub fetched_at : Option ℕ
  pub detail : ChainDetail

-- What others write, as functions of the clock: the sidecar's status rows, the router's
-- observations, the source's chain readings. And whether `ANTSEED_CONTROL_URL` and the token are
-- set, and `httpx` can be imported. `rounds_up` is how Python's floats decide whether the escrow grew
-- from one sum to another by four fifths of an amount where it grew by exactly that: their difference
-- is rounded, so either answer occurs.
pub record Environment : Type 0 where
  pub status_row : ℕ → String → Option BuyerStatus
  pub observations : ℕ → List Observation
  pub balances : ℕ → String → Option ChainReading
  pub control_configured : Bool
  pub httpx_available : Bool
  pub rounds_up : ℕ → ℕ → ℕ → Bool

-- `{spent_usdc, last_ts, count}`. A spend that cannot be read is infinite.
pub data Usdc : Type 0 where
  finite : ℕ → Usdc
  infinite : Usdc

pub record Spend : Type 0 where
  pub spent_usdc : Usdc
  pub last_ts : Option ℕ

-- `ok`, `total`; `none` is the -1 of a store error.
pub record AttemptCounts : Type 0 where
  pub ok_count : Option ℕ
  pub total : Option ℕ

-- The row that an intent inserts; the table gives it its id.
abbrev pub intent_row : String → Op → Option ℕ → Option ℕ → Option ℕ → ℕ → WalletOp
intent_row pid op amount_usdc pre_available pre_reserved now = record {
  id = zero;
  ts = now;
  pid = pid;
  op = op;
  amount_usdc = amount_usdc;
  pre_available = pre_available;
  post_available = none;
  pre_reserved = pre_reserved;
  post_reserved = none;
  outcome = pending;
  updated_at = now;
}

unfoldable pub wallet_op_begin : String → Op → Option ℕ → Option ℕ → Option ℕ → M (Option ℕ)
wallet_op_begin pid op amount_usdc pre_available pre_reserved =
    store_call
      (λ c. (
        some c.ledger.next_id,
        record c {
          ledger =
              insert (intent_row pid op amount_usdc pre_available pre_reserved (seconds c))
                c.ledger;
        },
      ))
      (λ _. none)

unfoldable pub wallet_op_finish : ℕ → Outcome → Option ℕ → Option ℕ → M Bool
wallet_op_finish op_id outcome post_available post_reserved =
    store_call
      (λ c. (
        true,
        record c {
          ledger = record c.ledger {
            rows = close_rows op_id outcome post_available post_reserved (seconds c) c.ledger.rows;
          };
        },
      ))
      (λ _. false)

unfoldable pub wallet_ops_open : String → Option Op → M (List WalletOp)
wallet_ops_open pid op = query (λ c. open_rows pid op c.ledger.rows) (λ _. [])

unfoldable pub wallet_op_spend_since : String → Op → ℕ → M Spend
wallet_op_spend_since pid op since =
    query
      (λ c. record {
        spent_usdc = finite (spent_since pid op since c.ledger.rows);
        last_ts =
            max_ts (λ r. is_for pid op r && leb since r.ts && is_spent r.outcome) c.ledger.rows;
      })
      (λ c. record { spent_usdc = infinite; last_ts = some (seconds c) })

unfoldable pub wallet_ops_settled : String → Op → ℕ → M (List WalletOp)
wallet_ops_settled pid op limit =
    query (λ c. newest is_settled pid op (max 1 (min limit 100)) c.ledger.rows) (λ _. [])

unfoldable pub wallet_ops_terminal : String → Op → ℕ → M (List WalletOp)
wallet_ops_terminal pid op limit =
    query (λ c. newest is_terminal pid op (max 1 (min limit 100)) c.ledger.rows) (λ _. [])

-- `op IN (…)`
abbrev among_ops : List Op → Op → Bool
among_ops ops op = any (same_op op) ops

abbrev not_halted : Outcome → Bool
not_halted halted = false
not_halted _ = true

unfoldable pub wallet_ops_last_ts : String → List Op → M (Option ℕ)
wallet_ops_last_ts pid ops =
    query
      (λ c.
        max_ts (λ r. str_eq r.pid pid && among_ops ops r.op && not_halted r.outcome) c.ledger.rows)
      (λ c. some (seconds c))

-- The row that stands for a halt.
abbrev pub halt_row : String → HaltKind → ℕ → WalletOp
halt_row pid kind now = record {
  id = zero;
  ts = now;
  pid = pid;
  op = halt kind;
  amount_usdc = none;
  pre_available = none;
  post_available = none;
  pre_reserved = none;
  post_reserved = none;
  outcome = halted;
  updated_at = now;
}

-- The insertion and its test of `NOT EXISTS` are one statement.
unfoldable pub wallet_halt : String → HaltKind → M Bool
wallet_halt pid kind =
    store_call
      (λ c. (
        true,
        record c {
          ledger =
              if halt_stands pid kind c.ledger.rows
              then c.ledger
              else insert (halt_row pid kind (seconds c)) c.ledger;
        },
      ))
      (λ _. false)

unfoldable pub wallet_halted : String → HaltKind → M Bool
wallet_halted pid kind = query (λ c. halt_stands pid kind c.ledger.rows) (λ _. true)

unfoldable pub wallet_clear_halt : String → HaltKind → M Bool
wallet_clear_halt pid kind =
    store_call
      (λ c. (
        true,
        record c { ledger = record c.ledger { rows = without_halt pid kind c.ledger.rows } },
      ))
      (λ _. false)

unfoldable pub buyer_status : Environment → String → M (Option BuyerStatus)
buyer_status env pid = query (λ c. env.status_row c.clock_ms pid) (λ _. none)

-- `count(*)` over the observations that pass a test.
unfoldable pub count_if : (Observation → Bool) → List Observation → ℕ
count_if test [] = zero
count_if test (o ∷ os) = (if test o then 1 else 0) + count_if test os

unfoldable pub provider_attempt_counts : Environment → String → ℕ → M AttemptCounts
provider_attempt_counts env provider_id window_ms =
    query
      (λ c.
        let seen = λ (o : Observation).
          str_eq o.provider_id provider_id && leb (c.clock_ms - window_ms) o.ts in
        record {
          ok_count = some (count_if (λ o. seen o && o.ok) (env.observations c.clock_ms));
          total = some (count_if seen (env.observations c.clock_ms));
        })
      (λ _. record { ok_count = none; total = none })
