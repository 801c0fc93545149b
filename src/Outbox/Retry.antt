-- ===== src/Outbox/Retry.antt =====
-- The administrative retry of a failed publication: retryOutboxRecord of engine/outbox-retry.ts,
-- and the conditional UPDATE of integrations/postgres-outbox-retry.ts on a table of rows. The
-- prepared request and the recorded failure are values that are only compared. Timestamps and
-- counts of a stored record are natural numbers; a sum beyond Number.MAX_SAFE_INTEGER fails the
-- safe-integer test in double arithmetic too, so the sums are written on naturals.
pub mod Guards
pub mod Conflicts
use bettter_nest_mq.Prelude.{
  ℕ, suc, ◌+◌, ◌≡◌, Bool, true, false, ◌&&◌, ◌||◌, not, Option, none, some, List, [], ◌∷◌, map,
  filter, length, Text, text_eq, Eq, same, same_option, Number, nat, is_safe_integer, less_than,
  safe, max, Result, ok, err, outbox, OutboxOperation, ◌>>=◌, ◌>>◌, reject_if, rethrow, or_else,
  is_some, ◌==◌, if◌then◌else◌,
}
use bettter_nest_mq.Outbox.Options.{OutboxRetryOptions, integer}

pub data OutboxState : Type 0 where
  pending active published failed : OutboxState

abbrev pub is_failed : OutboxState → Bool
is_failed failed = true
is_failed _ = false

pub record OutboxRecord (Request Cause : Type 0) : Type 0 where
  pub id : Text
  pub target : Text
  pub state : OutboxState
  pub request : Request
  pub request_digest : Text
  pub attempts_max : ℕ
  pub attempts_made : ℕ
  pub run_at_ms : ℕ
  pub created_at_ms : ℕ
  pub updated_at_ms : ℕ
  pub published_at_ms : Option ℕ
  pub failure : Option Cause

-- A row of the outbox table.
pub record Row (Request Cause : Type 0) : Type 0 where
  pub namespace : Text
  pub stored : OutboxRecord Request Cause
  pub lease_owner : Option Text
  pub lease_token : Option Text
  pub lease_expires_at_ms : Option ℕ

-- How a statement fares: answered, lost before it ran, or run with its answer lost.
pub data Delivery : Type 0 where
  answered lost_before lost_after : Delivery

module _ {Request Cause : Type 0} where
  -- The object that is handed to validateOutboxRecord.
  abbrev pub requeued :
      OutboxRecord Request Cause → OutboxRetryOptions ℕ → ℕ → OutboxRecord Request Cause
  requeued r options now =
      let updated_at = max now (r.updated_at_ms + 1) in
      record r {
        state = pending;
        attempts_max = r.attempts_made + options.attempts;
        updated_at_ms = updated_at;
        run_at_ms = max (or_else options.run_at_ms updated_at) updated_at;
      }

  -- The record is not the one that the caller inspected.
  abbrev pub is_stale : OutboxRecord Request Cause → OutboxRetryOptions ℕ → Bool
  is_stale r options =
      not (r.updated_at_ms == options.expected.updated_at_ms)
      || (not (r.attempts_made == options.expected.attempts_made)
          || not (r.attempts_max == options.expected.attempts_max))

  -- The sums are in the safe range.
  abbrev pub is_out_of_range : OutboxRecord Request Cause → OutboxRetryOptions ℕ → ℕ → Bool
  is_out_of_range r options now =
      not (safe (max now (r.updated_at_ms + 1))) || not (safe (r.attempts_made + options.attempts))

  -- `request_id` reads the stable job id of a request; `validate` is validateOutboxRecord.
  module _ (request_id : Request → Option Text)
      (validate : OutboxRecord Request Cause → Result (OutboxRecord Request Cause)) where
    unfoldable pub retry_outbox_record :
        OutboxRecord Request Cause
        → OutboxRetryOptions ℕ
        → Number
        → Result (OutboxRecord Request Cause)
    retry_outbox_record r options now_ms = do
      reject_if (not (is_failed r.state)) (outbox OutboxOperation.retry)
      reject_if (is_stale r options) (outbox OutboxOperation.conflict)
      reject_if (not (is_some (request_id r.request))) (outbox OutboxOperation.retry)
      now ← integer OutboxOperation.retry now_ms 0
      reject_if (is_out_of_range r options now) (outbox OutboxOperation.retry)
      rethrow (outbox OutboxOperation.retry) (validate (requeued r options now))

  module _ ⦃request_eq : Eq Request⦄ ⦃cause_eq : Eq Cause⦄ (namespace : Text) where
    -- The WHERE clause.
    abbrev pub selects : OutboxRecord Request Cause → Row Request Cause → Bool
    selects previous row =
        text_eq row.namespace namespace
        && (text_eq row.stored.id previous.id
            && (is_failed row.stored.state
                && (row.stored.attempts_made == previous.attempts_made
                    && (row.stored.attempts_max == previous.attempts_max
                        && (row.stored.updated_at_ms == previous.updated_at_ms
                            && (text_eq row.stored.target previous.target
                                && (text_eq row.stored.request_digest previous.request_digest
                                    && (same row.stored.request previous.request
                                        && (row.stored.created_at_ms == previous.created_at_ms
                                            && (row.stored.run_at_ms == previous.run_at_ms
                                                && (same_option row.stored.failure previous.failure
                                                    && (not (is_some row.stored.published_at_ms)
                                                        && (not (is_some row.lease_owner)
                                                            && (not (is_some row.lease_token)
                                                            && not (
                                                            is_some
                                                            row.lease_expires_at_ms)))))))))))))))

    -- The SET clause.
    abbrev pub assign : OutboxRecord Request Cause → Row Request Cause → Row Request Cause
    assign next row = record row {
      stored = record (row.stored) {
        state = pending;
        attempts_max = next.attempts_max;
        run_at_ms = next.run_at_ms;
        updated_at_ms = next.updated_at_ms;
      };
    }

    unfoldable pub update_row :
        OutboxRecord Request Cause
        → OutboxRecord Request Cause
        → Row Request Cause
        → Row Request Cause
    update_row previous next row = if selects previous row then assign next row else row

    -- The ids that RETURNING gives: one is wanted, that of the record.
    abbrev pub one_returned :
        OutboxRecord Request Cause → List (Row Request Cause) → Result (Unit {0})
    one_returned previous (row ∷ []) =
        reject_if (not (text_eq row.stored.id previous.id)) (outbox OutboxOperation.conflict)
    one_returned previous _ = err (outbox OutboxOperation.conflict)

    -- The write of the adapter: the new table, and whether the caller sees a success.
    unfoldable pub postgres_outbox_retry :
        OutboxRecord Request Cause
        → OutboxRecord Request Cause
        → Delivery
        → List (Row Request Cause)
        → List (Row Request Cause) × Result (Unit {0})
    postgres_outbox_retry previous next lost_before table =
        (table, err (outbox OutboxOperation.retry))
    postgres_outbox_retry previous next lost_after table =
        (map (update_row previous next) table, err (outbox OutboxOperation.retry))
    postgres_outbox_retry previous next answered table = (
      map (update_row previous next) table,
      one_returned previous (filter (selects previous) table),
    )
