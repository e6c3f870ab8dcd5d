-- ===== src/Lib.antt =====
-- unhardcoded routes LLM requests to the providers that an operator configures. Modelled here are
-- the parts of it that decide about money, access and routes.
--
-- The wallet keeper. The program pays a peer-to-peer provider, AntSeed, from an escrow on chain.
-- A loop (wallet_keeper.py) tops the escrow up from a hot wallet and reclaims what idle payment
-- channels hold. It logs every operation in the table wallet_ops of the host's store
-- (host_store.py) before it sends it, and drives the chain through the HTTP control server of a sidecar. It must never
-- spend more than the daily cap, also when the store fails, the sidecar answers nothing or the
-- process dies between two calls.
--
-- The health of marketplace routes. host_store.py folds the observations of a provider's routes
-- into a state per route and per peer; sources/antseed.py turns these into cooldowns and tiers and
-- picks distinct sellers for each model family.
--
-- The invites. codex_invites.py keeps single-use links by which a teammate adds an account.
--
-- The selection. policy_selection.py lets a decision provider choose among policies that the
-- operator authorized, and falls back on the default policy.
--
-- The proxy. auth_proxy.py admits a caller's request: path, key, route, rate, budget and room, and
-- then sends it to the router. Its rates and monthly budgets are rows of host_store.py that all
-- replicas share; what a request reserved is settled when it ends. A tenant's payload is rewritten by
-- route_contract.py. The slots of marketplace peers are leases in host_store.py.
--
-- The flows. flow_runner.py runs a flow's nodes in an order that respects their inputs.
--
-- Files:
--   Ledger: a row of wallet_ops (`WalletOp`), its outcomes, and the functions that the SQL of
--     host_store.py computes on the table (insert, close_rows, spent_since, newest, ...). The rows
--     stand newest first. Ledger.Ids, Ledger.Sums and Ledger.Halts hold lemmas on ids, sums and
--     halt rows.
--   Exec: the state that a cycle runs on (`Core`: table, clock, sidecar answers to come, requests
--     sent) and the monad of Python code that returns or raises; Exec.Ends says what a run
--     satisfies however its store calls go.
--   Store: the functions of host_store.py that the keeper calls: wallet_op_begin,
--     wallet_op_finish, wallet_op_spend_since, wallet_halt, buyer_status,
--     provider_attempt_counts and the others, each with what it returns when the database fails.
--   Knobs: load_knobs of wallet_keeper.py.
--   Control: _control_post, control and _outcome_for; Control.Requests says which requests may be
--     sent, and Control.Allowlist which verbs can reach the sidecar.
--   Keeper: the rest of WalletKeeper. Strikes: _consecutive, _error_strikes, _halt_topups and the
--     backoff. Settle: _reconcile_orphans and _settle_topups. Chain: _chain_view. Reclaim:
--     _wedged, _maybe_reclaim, _fire_reclaim_phase in Reclaim.Phase and the choice of channels in
--     Reclaim.Batch, with Reclaim.Order on the channels of a batch. Topup: _retry_gate and _maybe_topup. Cycle: cycle_provider and cycle. The rest of Keeper proves: Backoff is about the
--     strikes and the waits, License about a deposit's guards, with Waits on the backoff and Logged on its
--     row, Freshness about stale status rows; Sound carries one
--     invariant of the table and the requests through every function of the keeper, and
--     Sound.Reach through every run of it.
--   Health: _fold_health_rows of host_store.py; _cooldown_until, _route_health_tier,
--     _reachability_tier and the two loops of AntseedSource.offers_sync of sources/antseed.py.
--     Health.Summary and Health.Fold tell the fold per route, Health.Cooldown bounds the wait,
--     Health.Admission joins both, Health.Sellers is about the choice of sellers.
--   Invites: CodexInviteStore; its links in Invites.Links, one invite's life in Invites.Polls and
--     Invites.Used.
--   Selection: select_policy and validate_answer of decision_providers/__init__.py; Selection.Laws
--     says what a selection rests on.
--   Budget: reserve_subject_budget and settle_subject_budget, each one step of the tables that may
--     roll back or commit unheard (`Db`). Budget.Sums and Budget.Rows hold lemmas on the sums and rows, Budget.Bound
--     the limit, Budget.Held and Budget.Settle one reservation's life, Budget.Counters the column reserved_usd.
--   Rate: consume_rate_token; Rate.Bound counts what is admitted.
--   Proxy: auth_proxy.py. Path: _proxy_path. Keys: _key_record_allows, _caller_auth,
--     _caller_auth_async. Routes: _route_matches, _route_allowed. Capacity: _capacity_acquire and
--     _capacity_release, cut at their awaits. Settles: _settle_reservation and the retries of
--     _submit_settle. Tenant: the block of proxy that resolves a published route, with Contract.
--     Admission: proxy up to the request that it sends. Finish: _finish. Admission runs
--     on the buckets of Rate and the tables of Budget.
--   Leases: try_acquire_peer_lease, renew_peer_lease and release_peer_lease; Leases.Bound counts them.
--   Contract: apply_contract of route_contract.py; Contract.Lookup is about its objects,
--     Contract.Owner says whose word each field is.
--   Flow: topo_order; Flow.Counts counts ids, Flow.Steps is the loop's invariant, Flow.Order its end.
--   Tests: concrete runs, and an instance of each result.
--
-- Bounds and units: an amount of money is a natural number of millionths of a dollar, ether is counted
-- in gwei, time in milliseconds or, for the ledger's stamps, in seconds. A bucket's token is 60000
-- parts, so that a millisecond refills whole parts. Python's floats round where these numbers do
-- not: a float bucket may hold a rounding error less than a whole token, so nothing is claimed of a call
-- at the very moment its wait ends, and the test of a deposit's effect goes either way at exactly four
-- fifths (`Environment.rounds_up`). A balance is never negative. Every loop but one runs over a list; that of topo_order has
-- a round for each node, and each round puts one node in order, so they are enough. In the keeper's cycle time passes while a
-- request runs and stands still between requests.
--
-- Inputs: the status rows, the routes observed and the chain balances are functions of the clock
-- (`Environment`). Each store call of the keeper takes a fault: it works, fails, or the process dies
-- before or after it. Each of its requests takes the sidecar's next answer: a status with a body, a
-- broken connection, a request that httpx refuses, a cancellation or the end of the process. What the
-- proxy awaits is a record of answers (`Answers`), and so are the stores of keys and the control plane.
--
-- The disk of the invites and the decision provider may fail; their errors are values of the model.
-- The parts share no state but the host's store.
--
-- Not modelled: the text of reasons and details, logging, the SQL engine, the HTTP client, the task
-- that calls cycle in a loop, the headers, queries and streams that the proxy passes on, a body beyond
-- a tenant's payload, the proxy's pages, and
-- the rest of the program (the core that ranks routes, the run of a flow's nodes, the adapters of
-- the providers).
pub mod Prelude
pub mod Ledger
pub mod Exec
pub mod Store
pub mod Knobs
pub mod Control
pub mod Keeper
pub mod Health
pub mod Invites
pub mod Selection
pub mod Budget
pub mod Rate
pub mod Proxy
pub mod Flow
pub mod Contract
pub mod Leases
mod Tests
