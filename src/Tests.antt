-- ===== src/Tests.antt =====
-- The theorems at concrete inputs.
mod Handlers
mod Manifests
mod Schedules
mod Sessions
mod Transactions
mod Publications
mod Contracts
mod Coordination
mod Invocations
