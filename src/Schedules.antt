-- ===== src/Schedules.antt =====
-- Declared schedules: schedules/decorator.ts, engine/schedule-compiler.ts and the coordinator of
-- engine/schedules.ts. The cron parser, the time zones, the limit of an identity, JSON.stringify,
-- JSON.parse and deep equality are third party and parameters. Reflection on the options (assertFields) is left out.
pub mod Coordinator
pub mod Operations
pub mod Options
pub mod Declarations
pub mod Preflight
pub mod Ownership
pub mod Deployment
use bettter_nest_mq.Prelude.{
  ℕ, Bool, true, false, ◌&&◌, ◌||◌, not, Option, none, some, List, Text, text_eq, codes, includes,
  length, ltb, ◌==◌, Number, nat, more_than, Eq, same, [], ◌∷◌, Result, ok, err, schedule,
  SchedulePhase, ◌>>=◌, ◌>>◌, require, reject_if, rethrow, is_some, or_else,
}
use bettter_nest_mq.Policies.{
  RetryOptions, require_name, require_integer, copy_retry, copy_option, when_some,
}
use bettter_nest_mq.Schema.{Json, Stringified, text, undefined, thrown}

pub data Mode : Type 0 where
  validate reconcile : Mode

-- The option as it is given; `other_mode` is a value that is neither.
pub data GivenMode : Type 0 where
  given : Mode → GivenMode
  other_mode : GivenMode

-- Metadata as it is given; `none` is a value that is no string.
abbrev pub GivenMetadata : Type 0
GivenMetadata = List (Text × Option Text)

-- ScheduleMisfire; `unsupported` is any other strategy.
pub data Misfire : Type 0 where
  skip run_once unsupported : Misfire
  catch_up : (max_occurrences : Number) → Misfire

pub data Overlap : Type 0 where
  allow_overlap skip_overlap other_overlap : Overlap

pub record ScheduleOptions (Value : Type 0) : Type 0 where
  pub key : Text
  pub group : Option Text
  pub payload : Value
  pub cron : Option Text
  pub every_ms : Option Number
  pub time_zone : Option Text
  pub metadata : Option GivenMetadata
  pub retry : Option RetryOptions
  pub priority : Option Number
  pub timeout_ms : Option Number
  pub misfire : Option Misfire
  pub overlap : Option Overlap

pub record SchedulerOptions : Type 0 where
  pub mode : Option GivenMode
  pub group : Option Text
  pub sweep_interval_ms : Option Number
  pub batch_size : Option Number
  pub max_store_retries : Option Number
  pub retry_delay_ms : Option Number

-- Required<MqScheduleOptions>
pub record ResolvedOptions : Type 0 where
  pub mode : Mode
  pub group : Text
  pub sweep_interval_ms : Number
  pub batch_size : Number
  pub max_store_retries : Number
  pub retry_delay_ms : Number

-- What the engine checks: parseCron, makeEveryMs and isValidTimeZone; and the JSON functions.
pub record Engine (Value : Type 0) : Type 0 where
  pub max_identity : ℕ
  pub parse_cron : Text → Result (Unit {0})
  pub make_every_ms : Number → Result (Unit {0})
  pub is_valid_time_zone : Text → Bool
  pub json : Json Value

abbrev pub max_timer_delay : ℕ
max_timer_delay = 2147483647

abbrev pub max_occurrences_per_tick : ℕ
max_occurrences_per_tick = 256

unfoldable pub schedule_name : ℕ → Text → Result Text
schedule_name limit value = do
  require_name value
  reject_if (ltb limit (length value) || includes 0 value) (schedule SchedulePhase.definition)
  ok value

abbrev pub check_name : ℕ → Text → Result (Unit {0})
check_name limit value = schedule_name limit value >>= λ _. ok tt

abbrev pub check_misfire : Misfire → Result (Unit {0})
check_misfire skip = ok tt
check_misfire run_once = ok tt
check_misfire unsupported = err (schedule SchedulePhase.definition)
check_misfire (catch_up n) = do
  require_integer n 1
  reject_if (more_than n max_occurrences_per_tick) (schedule SchedulePhase.definition)

abbrev pub check_overlap : Overlap → Result (Unit {0})
check_overlap allow_overlap = ok tt
check_overlap skip_overlap = ok tt
check_overlap other_overlap = err (schedule SchedulePhase.definition)

abbrev pub check_metadata : GivenMetadata → Result (Unit {0})
check_metadata [] = ok tt
check_metadata ((key, some value) ∷ rest) = check_metadata rest
check_metadata ((key, none) ∷ rest) = err (schedule SchedulePhase.definition)

-- What JSON.parse gives, against the payload.
abbrev pub check_payload : {Value : Type 0} ⦃e : Eq Value⦄ → Option Value → Value → Result Value
check_payload none payload = err (schedule SchedulePhase.definition)
check_payload (some p) payload =
    require (same p payload) (schedule SchedulePhase.definition) >> ok p

-- JSON.parse(JSON.stringify(options.payload)), which must be the payload.
abbrev pub copy_payload :
    {Value : Type 0} ⦃e : Eq Value⦄ → Json Value → Stringified → Value → Result Value
copy_payload json (text t) payload = check_payload (json.parse t) payload
copy_payload json undefined payload = err (schedule SchedulePhase.definition)
copy_payload json thrown payload = err (schedule SchedulePhase.definition)

module _ {Value : Type 0} ⦃e : Eq Value⦄ (engine : Engine Value) where
  -- Exactly one of the two, and a valid one.
  abbrev pub check_cadence : Option Text → Option Number → Result (Unit {0})
  check_cadence none none = err (schedule SchedulePhase.definition)
  check_cadence (some cron) (some every_ms) = err (schedule SchedulePhase.definition)
  check_cadence (some cron) none = engine.parse_cron cron
  check_cadence none (some every_ms) = engine.make_every_ms every_ms

  unfoldable pub check_schedule : ScheduleOptions Value → Result (ScheduleOptions Value)
  check_schedule options = do
    check_name engine.max_identity options.key
    when_some options.group (check_name engine.max_identity)
    check_cadence options.cron options.every_ms
    when_some options.time_zone
        (λ zone. require (engine.is_valid_time_zone zone) (schedule SchedulePhase.definition))
    when_some options.priority (λ n. require_integer n 0)
    when_some options.timeout_ms (λ n. require_integer n 1)
    when_some options.overlap check_overlap
    when_some options.misfire check_misfire
    when_some options.metadata check_metadata
    payload ← copy_payload engine.json (engine.json.stringify options.payload) options.payload
    retry ← copy_option copy_retry options.retry
    ok (record options { payload = payload; retry = retry })

  -- Whatever is thrown is reported as an invalid declaration.
  unfoldable pub copy_schedule : ScheduleOptions Value → Result (ScheduleOptions Value)
  copy_schedule options = rethrow (schedule SchedulePhase.definition) (check_schedule options)

-- The test of resolved.mode.
abbrev pub known_mode : GivenMode → Result Mode
known_mode (given mode) = ok mode
known_mode other_mode = err (schedule SchedulePhase.definition)

-- The other options, with the defaults of those that are left out.
abbrev pub with_defaults : Mode → SchedulerOptions → ResolvedOptions
with_defaults mode options = record {
  mode = mode;
  group = or_else options.group (codes "nestjs/schedules");
  sweep_interval_ms = or_else options.sweep_interval_ms (nat 1000);
  batch_size = or_else options.batch_size (nat 100);
  max_store_retries = or_else options.max_store_retries (nat 3);
  retry_delay_ms = or_else options.retry_delay_ms (nat 25);
}

unfoldable pub check_options : ℕ → ResolvedOptions → Result ResolvedOptions
check_options limit resolved = do
  check_name limit resolved.group
  require_integer resolved.sweep_interval_ms 1
  require_integer resolved.batch_size 1
  require_integer resolved.max_store_retries 1
  require_integer resolved.retry_delay_ms 0
  reject_if
      (more_than resolved.sweep_interval_ms max_timer_delay
        || more_than resolved.retry_delay_ms max_timer_delay)
      (schedule SchedulePhase.definition)
  ok resolved

unfoldable pub resolve_schedule_options : ℕ → SchedulerOptions → Result ResolvedOptions
resolve_schedule_options limit options = rethrow (schedule SchedulePhase.definition) (
    known_mode (or_else options.mode (given validate)) >>= λ mode.
    check_options limit (with_defaults mode options))
