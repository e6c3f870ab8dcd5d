-- ===== src/Ledger.antt =====
-- The `wallet_ops` table of host_store.py: its rows, and the statements that the store runs on it,
-- as functions of the table. `Store` wraps them into calls that may fail.
--
-- The rows stand newest first, so `ORDER BY id DESC` is the order of the list. USDC amounts are
-- micro-USDC, `ts` and `updated_at` are seconds. The free text of a row (`reason`, `detail`) is
-- left out: nothing reads it back.
pub mod Sums
pub mod Ids
pub mod Halts
use unhardcoded.Prelude.{
  ℕ, suc, ◌+◌, String, Bool, true, false, ◌&&◌, not, Option, none, some, List, [], ◌∷◌, reverse,
  if◌then◌else◌, leb, ◌==◌, str_eq, any, keep, take, max,
}

-- The classes of keeper action that can be halted: the `kind` of `wallet_halt`.
pub data HaltKind : Type 0 where
  topup_kind reclaim_kind : HaltKind

-- The `op` column. `halt k` is the text `halt:<k>`.
pub data Op : Type 0 where
  topup reclaim_set_operator reclaim_request_close reclaim_withdraw : Op
  halt : HaltKind → Op

-- The `outcome` column.
pub data Outcome : Type 0 where
  pending fired effective ineffective ok failed unknown halted : Outcome

-- `=` on the `op` column.
unfoldable pub op_code : Op → ℕ
op_code topup = 0
op_code reclaim_set_operator = 1
op_code reclaim_request_close = 2
op_code reclaim_withdraw = 3
op_code (halt topup_kind) = 4
op_code (halt reclaim_kind) = 5

unfoldable pub same_op : Op → Op → Bool
unfolding op_code
same_op a b = op_code a == op_code b

-- WALLET_OP_SPENT_OUTCOMES
unfoldable pub is_spent : Outcome → Bool
is_spent pending = true
is_spent fired = true
is_spent effective = true
is_spent ineffective = true
is_spent unknown = true
is_spent _ = false

-- WALLET_OP_SETTLED_OUTCOMES
unfoldable pub is_settled : Outcome → Bool
is_settled effective = true
is_settled ineffective = true
is_settled _ = false

-- WALLET_OP_TERMINAL_OUTCOMES
unfoldable pub is_terminal : Outcome → Bool
is_terminal pending = false
is_terminal fired = false
is_terminal halted = false
is_terminal _ = true

-- WALLET_OP_ERROR_OUTCOMES
unfoldable pub is_error : Outcome → Bool
is_error failed = true
is_error unknown = true
is_error _ = false

-- `outcome IN ('pending','fired')`
unfoldable pub is_open : Outcome → Bool
is_open pending = true
is_open fired = true
is_open _ = false

unfoldable pub is_halted : Outcome → Bool
is_halted halted = true
is_halted _ = false

unfoldable pub is_pending : Outcome → Bool
is_pending pending = true
is_pending _ = false

unfoldable pub is_ineffective : Outcome → Bool
is_ineffective ineffective = true
is_ineffective _ = false

-- A row of `wallet_ops`.
pub record WalletOp : Type 0 where
  pub id : ℕ
  pub ts : ℕ
  pub pid : String
  pub op : Op
  pub amount_usdc : Option ℕ
  pub pre_available : Option ℕ
  pub post_available : Option ℕ
  pub pre_reserved : Option ℕ
  pub post_reserved : Option ℕ
  pub outcome : Outcome
  pub updated_at : ℕ

-- The table and its identity sequence, which never gives a number twice.
pub record Ledger : Type 0 where
  pub rows : List WalletOp
  pub next_id : ℕ

abbrev pub empty_ledger : Ledger
empty_ledger = record { rows = []; next_id = 1 }

-- `sum(amount_usdc)` skips the rows with no amount.
abbrev pub amount_of : WalletOp → ℕ
amount_of r = elim r.amount_usdc [ none ↦ 0 | some a ↦ a ]

-- `WHERE pid=%s AND op=%s`
abbrev pub is_for : String → Op → WalletOp → Bool
is_for pid op r = str_eq r.pid pid && same_op r.op op

-- A statement's new row: `INSERT … RETURNING id`.
unfoldable pub insert : WalletOp → Ledger → Ledger
insert r l = record { rows = record r { id = l.next_id } ∷ l.rows; next_id = suc l.next_id }

-- `UPDATE wallet_ops SET outcome=…, post_available=…, post_reserved=…, updated_at=… WHERE id=…`
abbrev pub close_row : ℕ → Outcome → Option ℕ → Option ℕ → ℕ → WalletOp → WalletOp
close_row op_id outcome post_available post_reserved now r =
    if r.id == op_id
    then record r {
      outcome = outcome;
      post_available = post_available;
      post_reserved = post_reserved;
      updated_at = now;
    }
    else r

unfoldable pub close_rows : ℕ → Outcome → Option ℕ → Option ℕ → ℕ → List WalletOp → List WalletOp
close_rows op_id o a b now [] = []
close_rows op_id o a b now (r ∷ rs) = close_row op_id o a b now r ∷ close_rows op_id o a b now rs

-- `SELECT 1 … WHERE pid=%s AND op='halt:<kind>' AND outcome='halted'`
unfoldable pub halt_stands : String → HaltKind → List WalletOp → Bool
halt_stands pid kind rows = any (λ r. is_for pid (halt kind) r && is_halted r.outcome) rows

-- `DELETE … WHERE pid=%s AND op='halt:<kind>' AND outcome='halted'`
unfoldable pub without_halt : String → HaltKind → List WalletOp → List WalletOp
without_halt pid kind rows = keep (λ r. not (is_for pid (halt kind) r && is_halted r.outcome)) rows

-- `coalesce(sum(amount_usdc),0) … AND ts >= %s AND outcome IN (SPENT)`
unfoldable pub spent_since : String → Op → ℕ → List WalletOp → ℕ
spent_since pid op since [] = 0
spent_since pid op since (r ∷ rs) =
    (if is_for pid op r && leb since r.ts && is_spent r.outcome then amount_of r else 0)
    + spent_since pid op since rs

-- `max(ts)` over the rows that pass a test.
unfoldable pub max_ts : (WalletOp → Bool) → List WalletOp → Option ℕ
max_ts test [] = none
max_ts test (r ∷ rs) =
    let rest = max_ts test rs in
    if test r then some (elim rest [ none ↦ r.ts | some t ↦ max r.ts t ]) else rest

-- `WHERE pid=%s AND op=%s AND outcome IN (…) ORDER BY id DESC LIMIT %s`
unfoldable pub newest : (Outcome → Bool) → String → Op → ℕ → List WalletOp → List WalletOp
newest among pid op limit rows = take limit (keep (λ r. is_for pid op r && among r.outcome) rows)

-- `WHERE pid=%s AND outcome IN ('pending','fired') [AND op=%s] ORDER BY id`
unfoldable pub open_rows : String → Option Op → List WalletOp → List WalletOp
open_rows pid op rows = reverse (
    keep
      (λ r.
        str_eq r.pid pid && is_open r.outcome && elim op [ none ↦ true | some o ↦ same_op r.op o ])
      rows)
