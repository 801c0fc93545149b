-- ===== src/Outbox.antt =====
-- The transactional outbox: options (outbox/options.ts, outbox/retry-options.ts), administrative
-- retry (engine/outbox-retry.ts, integrations/postgres-outbox-retry.ts), and the managed
-- transactions (integrations/postgres-outbox-transaction.ts, kysely-outbox-scope.ts).
pub mod Options
pub mod Retry
pub mod Scope
pub mod Transaction
pub mod Kysely
