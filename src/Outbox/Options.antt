-- ===== src/Outbox/Options.antt =====
-- resolveOutboxOptions of outbox/options.ts and copyOutboxRetryOptions of
-- outbox/retry-options.ts. A checked number is returned as the natural number that it is. The
-- checks on the shape of the options object (its prototype, keys and accessors) are left out: a
-- record has just its fields.
pub mod Bounds
use bettter_nest_mq.Prelude.{
  ℕ, ◌/◌, ◌≡◌, Bool, true, false, ◌||◌, not, Option, none, some, Number, nat, is_safe_integer,
  less_than, more_than, Result, ok, err, outbox, OutboxOperation, ◌>>=◌, ◌>>◌, reject_if, or_else,
  ltb, leb, max,
}

-- `value` as a whole number of at least `minimum`; at most `maximum` where one is given.
unfoldable pub integer : OutboxOperation → Number → ℕ → Result ℕ
integer operation (nat n) minimum =
    reject_if (not (is_safe_integer (nat n)) || less_than (nat n) minimum) (outbox operation)
    >> ok n
integer operation _ minimum = err (outbox operation)

pub record MqOutboxOptions : Type 0 where
  pub concurrency : Option Number
  pub lease_duration_ms : Option Number
  pub heartbeat_interval_ms : Option Number
  pub poll_interval_ms : Option Number
  pub retry_base_delay_ms : Option Number
  pub retry_max_delay_ms : Option Number

pub record ResolvedOutboxOptions : Type 0 where
  pub concurrency : ℕ
  pub lease_duration_ms : ℕ
  pub heartbeat_interval_ms : ℕ
  pub poll_interval_ms : ℕ
  pub retry_base_delay_ms : ℕ
  pub retry_max_delay_ms : ℕ

-- The largest delay of a JavaScript timer.
abbrev pub max_timer : ℕ
max_timer = 2147483647

-- One field of the loop over `resolved`.
unfoldable pub timer_field : Number → Result ℕ
timer_field value =
    reject_if (more_than value max_timer) (outbox OutboxOperation.configuration)
    >> integer OutboxOperation.configuration value 1

-- Math.max(1, Math.floor(leaseDurationMs / 3)): at a lease that is no whole number the field of
-- the lease is refused anyway, ahead of the heartbeat.
abbrev pub default_heartbeat : Number → Number
default_heartbeat (nat lease) = nat (max 1 (lease / 3))
default_heartbeat _ = nat 1

unfoldable pub resolve_outbox_options : MqOutboxOptions → Result ResolvedOutboxOptions
resolve_outbox_options options = do
  let lease = or_else options.lease_duration_ms (nat 30000)
  concurrency ← timer_field (or_else options.concurrency (nat 1))
  lease_duration ← timer_field lease
  heartbeat ← timer_field (or_else options.heartbeat_interval_ms (default_heartbeat lease))
  poll ← timer_field (or_else options.poll_interval_ms (nat 100))
  base ← timer_field (or_else options.retry_base_delay_ms (nat 1000))
  longest ← timer_field (or_else options.retry_max_delay_ms (nat 60000))
  reject_if (leb lease_duration heartbeat) (outbox OutboxOperation.configuration)
  reject_if (ltb longest base) (outbox OutboxOperation.configuration)
  ok (record {
    concurrency = concurrency;
    lease_duration_ms = lease_duration;
    heartbeat_interval_ms = heartbeat;
    poll_interval_ms = poll;
    retry_base_delay_ms = base;
    retry_max_delay_ms = longest;
  })

pub record RetryExpected (N : Type 0) : Type 0 where
  pub updated_at_ms : N
  pub attempts_made : N
  pub attempts_max : N

-- Over numbers as the caller gives them, and over the naturals once they are checked.
pub record OutboxRetryOptions (N : Type 0) : Type 0 where
  pub expected : RetryExpected N
  pub attempts : N
  pub run_at_ms : Option N

-- The optional field, checked.
abbrev pub integer_option : Option Number → Result (Option ℕ)
integer_option none = ok none
integer_option (some value) = integer OutboxOperation.retry value 0 >>= λ n. ok (some n)

unfoldable pub copy_outbox_retry_options : OutboxRetryOptions Number → Result (OutboxRetryOptions ℕ)
copy_outbox_retry_options options = do
  attempts ← integer OutboxOperation.retry options.attempts 1
  updated_at ← integer OutboxOperation.retry options.expected.updated_at_ms 0
  made ← integer OutboxOperation.retry options.expected.attempts_made 0
  most ← integer OutboxOperation.retry options.expected.attempts_max 1
  reject_if (ltb most made) (outbox OutboxOperation.retry)
  run_at ← integer_option options.run_at_ms
  ok (record {
    expected = record { updated_at_ms = updated_at; attempts_made = made; attempts_max = most };
    attempts = attempts;
    run_at_ms = run_at;
  })
