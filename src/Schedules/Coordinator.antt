-- ===== src/Schedules/Coordinator.antt =====
-- SchedulesCoordinator of engine/schedules.ts. The session's stores, and what compileSchedule makes
-- of a declaration, are fields of `Host`; the world is theirs. A run comes with the calls that
-- reached a store, in order. Looking up the job of a queue's property is the caller's.
use bettter_nest_mq.Prelude.{
  ℕ, Bool, false, ◌&&◌, Option, none, some, List, [], ◌∷◌, ◌++◌, Text, text_eq, ◌==◌, Result, ok,
  err, schedule, SchedulePhase, ◌>>◌, require, reject_if, is_some, same_option, nat_eq,
  if◌then◌else◌,
}
use bettter_nest_mq.Controls.{QueueControlsRecord, Effect, success, failure}
use bettter_nest_mq.Publication.{same_text}
use bettter_nest_mq.Schedules.{Mode, validate, reconcile}

pub record JobIdentity : Type 0 where
  pub connection : Text
  pub queue : Text
  pub name : Text
  pub version : ℕ

-- The fields of a persisted schedule that are compared, with `Value` for those compared deeply.
pub record Definition (Value : Type 0) : Type 0 where
  pub cron : Option Text
  pub every_ms : Option ℕ
  pub time_zone : Option Text
  pub priority : ℕ
  pub attempts_max : ℕ
  pub timeout_ms : Option ℕ
  pub backoff : Value
  pub payload : Value
  pub metadata : Value
  pub misfire : Value
  pub overlap : Text

pub record ScheduleRecord (Value : Type 0) : Type 0 where
  pub queue : Text
  pub name : Text
  pub version : ℕ
  pub paused : Bool
  pub definition : Definition Value

pub record CompiledSchedule (Value : Type 0) : Type 0 where
  pub job : JobIdentity
  pub group : Text
  pub key : Text
  pub definition : Definition Value

pub record Address : Type 0 where
  pub connection : Text
  pub group : Text
  pub key : Text

pub data Operation : Type 0 where
  pause resume remove : Operation

pub data Call : Type 0 where
  get_controls : (connection queue : Text) → Call
  get_schedule : Address → Call
  list_schedules : (connection group : Text) → Call
  change_schedule : Operation → Address → Call
  reconcile_schedule : Address → Call

pub record Host (World Report Value : Type 0) : Type 0 where
  -- what the session's withStore and withSchedules throw, if they do
  pub with_store : Text → World → Result (Unit {0})
  pub with_schedules : Text → World → Result (Unit {0})
  pub max_identity : ℕ
  pub valid_queue : Text → Bool
  pub deep_equal : Value → Value → Bool
  pub is_controlled : Text → Bool
  -- the extension's getControls
  pub read_controls : Text → Text → World → World × Effect (Option QueueControlsRecord)
  pub read_schedule : Address → World → World × Effect (Option (ScheduleRecord Value))
  pub read_schedules : Text → Text → World → World × Effect (List (ScheduleRecord Value))
  -- pauseSchedule, resumeSchedule and removeSchedule; the Boolean is that of a removal
  pub change : Operation → Address → World → World × Effect Bool
  -- the session's reconcileSchedules
  pub reconcile_declaration : CompiledSchedule Value → World → World × Result Report

-- controls?.enabled && controls.perKeyConcurrency !== undefined
abbrev pub limits_keys : Option QueueControlsRecord → Bool
limits_keys none = false
limits_keys (some r) = r.enabled && is_some r.limits.per_key_concurrency

-- valueOf
abbrev pub value_of : {A : Type 0} → Effect A → Result A
value_of (success a) = ok a
value_of (failure e) = err (schedule SchedulePhase.operation)

abbrev pub address_of : {Value : Type 0} → CompiledSchedule Value → Address
address_of entry = record {
  connection = entry.job.connection;
  group = entry.group;
  key = entry.key;
}

abbrev pub is_own : {Value : Type 0} → ScheduleRecord Value → JobIdentity → Bool
is_own r job = text_eq r.queue job.queue && (text_eq r.name job.name && r.version == job.version)

abbrev pub assert_identity :
    {Value : Type 0} → ScheduleRecord Value → JobIdentity → Result (Unit {0})
assert_identity r job = require (is_own r job) (schedule SchedulePhase.identity)

abbrev pub Run : Type 0 → Type 0 → Type 0
Run World A = World × List Call × Result A

module _ {World : Type 0} where
  abbrev pub return_ : {A : Type 0} → Result A → World → Run World A
  return_ result w = (w, [], result)

  -- The code after an await: an error ends it.
  abbrev pub and_then : {A B : Type 0} → (A → World → Run World B) → Run World A → Run World B
  and_then rest (w, calls, err e) = (w, calls, err e)
  and_then rest (w, calls, ok a) = let (w', more, result) = rest a w in (w', calls ++ more, result)

  abbrev pub call : {A : Type 0} → Call → World × Result A → Run World A
  call c (w, result) = (w, c ∷ [], result)

  abbrev pub call_store : {A : Type 0} → Call → World × Effect A → Run World A
  call_store c (w, effect) = (w, c ∷ [], value_of effect)

  -- A call inside withStore or withSchedules.
  abbrev pub inside : {A : Type 0} → Result (Unit {0}) → (World → Run World A) → World → Run World A
  inside (err e) body w = (w, [], err e)
  inside (ok _) body w = body w

module _ {World Report Value : Type 0} (host : Host World Report Value) where
  unfoldable pub matches : ScheduleRecord Value → CompiledSchedule Value → Bool
  matches r entry =
      let was = r.definition in
      let now = entry.definition in
      same_text was.cron now.cron
      && (same_option was.every_ms now.every_ms
          && (same_text was.time_zone now.time_zone
              && (was.priority == now.priority
                  && (was.attempts_max == now.attempts_max
                      && (same_option was.timeout_ms now.timeout_ms
                          && (host.deep_equal was.backoff now.backoff
                              && (host.deep_equal was.payload now.payload
                                  && (host.deep_equal was.metadata now.metadata
                                      && (host.deep_equal was.misfire now.misfire
                                          && text_eq was.overlap now.overlap)))))))))

  -- The store of a queue without controls has no policy to ask for.
  unfoldable pub assert_store_policy : Text → Text → World → Run World (Unit {0})
  assert_store_policy connection queue w =
      inside (host.with_store connection w)
        (λ w'.
          if host.is_controlled connection
          then inside (require (host.valid_queue queue) (schedule SchedulePhase.operation))
              (λ w''.
                and_then
                  (λ controls.
                    return_ (reject_if (limits_keys controls) (schedule SchedulePhase.definition)))
                  (call_store (get_controls connection queue)
                    (host.read_controls connection queue w'')))
              w'
          else return_ (ok tt) w')
        w

  unfoldable pub get_record : Address → World → Run World (Option (ScheduleRecord Value))
  get_record address w =
      inside (host.with_schedules address.connection w)
        (λ w'. call_store (get_schedule address) (host.read_schedule address w')) w

  -- The checks of the persisted record of a declaration.
  unfoldable pub judge :
      Mode → CompiledSchedule Value → Option (ScheduleRecord Value) → Result (Unit {0})
  judge validate entry none = err (schedule SchedulePhase.missing)
  judge reconcile entry none = ok tt
  judge validate entry (some r) =
      assert_identity r entry.job >> require (matches r entry) (schedule SchedulePhase.drift)
  judge reconcile entry (some r) = assert_identity r entry.job

  unfoldable pub preflight : Mode → CompiledSchedule Value → World → Run World (Unit {0})
  preflight mode entry w =
      and_then
        (λ _ w'. and_then (λ r. return_ (judge mode entry r)) (get_record (address_of entry) w'))
        (assert_store_policy entry.job.connection entry.job.queue w)

  unfoldable pub preflight_all : Mode → List (CompiledSchedule Value) → World → Run World (Unit {0})
  preflight_all mode [] w = return_ (ok tt) w
  preflight_all mode (entry ∷ entries) w =
      and_then (λ _. preflight_all mode entries) (preflight mode entry w)

  unfoldable pub deploy : List (CompiledSchedule Value) → World → Run World (List Report)
  deploy [] w = return_ (ok []) w
  deploy (entry ∷ entries) w =
      and_then (λ report w'. and_then (λ more. return_ (ok (report ∷ more))) (deploy entries w'))
        (call (reconcile_schedule (address_of entry)) (host.reconcile_declaration entry w))

  abbrev pub deploy_in : Mode → List (CompiledSchedule Value) → World → Run World (List Report)
  deploy_in validate entries w = return_ (ok []) w
  deploy_in reconcile entries w = deploy entries w

  unfoldable pub synchronize :
      Mode → List (CompiledSchedule Value) → World → Run World (List Report)
  synchronize mode entries w = and_then (λ _. deploy_in mode entries) (preflight_all mode entries w)
