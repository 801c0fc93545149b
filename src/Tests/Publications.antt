-- ===== src/Tests/Publications.antt =====
-- The outbox's options and retries at concrete records.
use bettter_nest_mq.Prelude.{
  ℕ, ◌≤◌, ◌≡◌, ◌≢◌, refl, Option, none, some, List, [], ◌∷◌, Text, codes, nat_eq, nat, Result, ok,
  arith,
}
use bettter_nest_mq.Outbox.Options.{
  OutboxRetryOptions, integer, timer_field, resolve_outbox_options,
}
use bettter_nest_mq.Outbox.Options.Bounds.{
  IsResolved, leased, with_lease, resolve_outbox_options-IsResolved,
}
use bettter_nest_mq.Outbox.Retry.{
  OutboxRecord, failed, pending, Row, answered, lost_before, lost_after, retry_outbox_record,
}
use bettter_nest_mq.Outbox.Retry.Guards.{IsRequeued, IsCurrent, retry_outbox_record-IsRequeued}
use bettter_nest_mq.Outbox.Retry.Conflicts.{successes, successes-le-one}

abbrev stored : OutboxRecord ℕ ℕ
stored = record {
  id = codes "job-1";
  target = codes "main";
  state = failed;
  request = 5;
  request_digest = codes "d";
  attempts_max = 3;
  attempts_made = 3;
  run_at_ms = 100;
  created_at_ms = 100;
  updated_at_ms = 200;
  published_at_ms = none;
  failure = some 9;
}

abbrev inspected : OutboxRetryOptions ℕ
inspected = record {
  expected = record { updated_at_ms = 200; attempts_made = 3; attempts_max = 3 };
  attempts = 2;
  run_at_ms = none;
}

abbrev requeued_record : OutboxRecord ℕ ℕ
requeued_record = record stored {
  state = pending;
  attempts_max = 5;
  updated_at_ms = 250;
  run_at_ms = 250;
}

abbrev job_id : ℕ → Option Text
job_id n = some (codes "job-1")

abbrev accept : OutboxRecord ℕ ℕ → Result (OutboxRecord ℕ ℕ)
accept r = ok r

accept-ok : (s t : OutboxRecord ℕ ℕ) → accept s ≡ ok t → s ≡ t
accept-ok s t h = cc h

requeues : retry_outbox_record job_id accept stored inspected (nat 250) ≡ ok requeued_record
unfolding retry_outbox_record integer
requeues = refl

retry_outbox_record-IsRequeued_example :
    (now : ℕ) × (nat 250 ≡ nat now) × IsRequeued job_id accept stored inspected now requeued_record
retry_outbox_record-IsRequeued_example =
    retry_outbox_record-IsRequeued job_id accept accept-ok stored inspected (nat 250)
      requeued_record requeues

abbrev outdated : OutboxRetryOptions ℕ
outdated = record inspected {
  expected = record { updated_at_ms = 150; attempts_made = 3; attempts_max = 3 };
}

outdated-stale : ¬ IsCurrent job_id accept stored outdated
outdated-stale current = absurd (omega (arith, current.updated))

abbrev table : List (Row ℕ ℕ)
table =
    record {
      namespace = codes "n";
      stored = stored;
      lease_owner = none;
      lease_token = none;
      lease_expires_at_ms = none;
    }
    ∷ []

successes-le-one_example :
    successes
      (codes "n")
      stored
      ((requeued_record, lost_after) ∷ (requeued_record, answered) ∷ [])
      table
    ≤ 1
successes-le-one_example =
    successes-le-one (codes "n") stored
      ((requeued_record, lost_after) ∷ (requeued_record, answered) ∷ []) table

lost-after-before : lost_after ≢ lost_before
lost-after-before h = cc h

lease_resolves : resolve_outbox_options (leased 900) ≡ ok (with_lease 900)
unfolding resolve_outbox_options timer_field integer
lease_resolves = refl

resolve_outbox_options-IsResolved_example : IsResolved (with_lease 900)
resolve_outbox_options-IsResolved_example =
    resolve_outbox_options-IsResolved (leased 900) (with_lease 900) lease_resolves
