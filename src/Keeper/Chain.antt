-- ===== src/Keeper/Chain.antt =====
-- The untrusted reading of the hot wallet, `_chain_view` of wallet_keeper.py.
use unhardcoded.Prelude.{ℕ, ◌+◌, String, Option, none, some, if◌then◌else◌, ltb}
use unhardcoded.Store.{Environment, ChainDetail, ChainReading}
use unhardcoded.Exec.{M, gets}

-- CHAIN_READ_MAX_AGE_S, in milliseconds.
abbrev pub chain_read_max_age_ms : ℕ
chain_read_max_age_ms = 900_000

-- `{}` and a `detail` with neither balance read alike.
abbrev unread : ChainDetail
unread = record { wallet_usdc = none; wallet_eth = none }

unfoldable pub fresh_detail : ℕ → Option ChainReading → ChainDetail
fresh_detail now_ms none = unread
fresh_detail now_ms (some bal) = elim bal.fetched_at [
  | none ↦ unread
  | some fetched_at ↦ if ltb (fetched_at + chain_read_max_age_ms) now_ms then unread else bal.detail
]

unfoldable pub chain_view : Environment → String → M ChainDetail
chain_view env pid = gets (λ c. fresh_detail c.clock_ms (env.balances c.clock_ms pid))
