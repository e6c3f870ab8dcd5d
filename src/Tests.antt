-- ===== src/Tests.antt =====
-- Runs of the model on concrete inputs, and the theorems at inputs that meet their hypotheses.
mod Keeper
mod Health
mod Invites
mod Selection
mod Budget
mod Rate
mod Proxy
mod Flow
mod Contract
mod Leases
