-- ===== src/Controls.antt =====
-- Distributed queue controls: engine/controlled-clock.ts, engine/controlled-store.ts and
-- engine/queue-controls.ts. Here stand the records and the store errors that they share.
pub mod Clock
pub mod Dispatch
pub mod Policies
use bettter_nest_mq.Prelude.{ℕ, Bool, Option, Text}

pub record RateLimit : Type 0 where
  pub max : ℕ
  pub duration_ms : ℕ

pub record QueueControlsOptions : Type 0 where
  pub global_concurrency : Option ℕ
  pub per_key_concurrency : Option ℕ
  pub rate_limit : Option RateLimit

-- A persisted policy.
pub record QueueControlsRecord : Type 0 where
  pub group : Text
  pub enabled : Bool
  pub revision : ℕ
  pub limits : QueueControlsOptions

-- The errors of the engine's stores that the source tells apart. `early` is the
-- JobDefinitionError that a time is before updatedAt.
pub data StoreError : Type 0 where
  store_failure : (retryable : Bool) → StoreError
  controls_revision_mismatch lease_lost settlement_conflict job_not_cancellable early : StoreError
  other : ℕ → StoreError

-- A Result of the engine.
pub data Effect (Value : Type 0) : Type 0 where
  success : Value → Effect Value
  failure : StoreError → Effect Value
