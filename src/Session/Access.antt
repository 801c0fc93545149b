-- ===== src/Session/Access.antt =====
-- The operations of EngineSession that reach a store: their guards. `operation` is the result of the
-- client's operation on the store, `Value` what it gives.
pub mod Refusals
pub mod Answers
use bettter_nest_mq.Prelude.{
  ℕ, ◌==◌, Bool, true, false, ◌&&◌, ◌||◌, not, List, any, Text, text_eq, Failure, flow, FlowReason,
  schedule, SchedulePhase, connection, ConnectionPhase, outbox, OutboxOperation, job,
  JobOperationName, engine_state, Result, ok, err, ◌>>◌, ◌>>=◌, require, reject_if, rethrow,
}
use bettter_nest_mq.Session.{Session}
use bettter_nest_mq.Session.Checks.{member}
use bettter_nest_mq.Session.Machine.Activating.{is_ready_state, is_running}

module _ {Value : Type 0} (name : Text) where
  unfoldable pub with_store : Result Value → Session → Result Value
  with_store operation s =
      require (is_running s) engine_state
      >> (require (member name s.ready_jobs) (connection ConnectionPhase.configuration)
          >> operation)

  unfoldable pub with_flows : Result Value → Session → Result Value
  with_flows operation s =
      require (is_running s) (flow FlowReason.unavailable)
      >> (require (member name s.ready_flows) (flow FlowReason.unavailable) >> operation)

  unfoldable pub with_schedules : Result Value → Session → Result Value
  with_schedules operation s =
      require (is_running s) (schedule SchedulePhase.unavailable)
      >> (require (member name s.ready_schedules) (schedule SchedulePhase.unavailable) >> operation)

  unfoldable pub with_outbox : Result Value → Session → Result Value
  with_outbox operation s =
      require (is_running s) (outbox OutboxOperation.unavailable)
      >> (require (member name s.ready_outboxes) (outbox OutboxOperation.unavailable) >> operation)

-- The readers of events are asked for by name; there is no operation on them.
unfoldable pub assert_events : Text → Session → Result (Unit {0})
assert_events name s =
    require (is_ready_state s.state && member name s.ready_events)
      (job JobOperationName.await_result)

unfoldable pub run_operation : {Value : Type 0} → Result Value → Session → Result Value
run_operation operation s = require (is_running s) (job JobOperationName.binding) >> operation

-- An error Result of the reconciliation is rethrown as an operation's.
unfoldable pub reconcile_schedules : {Value : Type 0} → Result Value → Session → Result Value
reconcile_schedules reconciled s =
    require (is_running s) (schedule SchedulePhase.unavailable)
    >> rethrow (schedule SchedulePhase.operation) reconciled

-- A sweep reports its failures by the counter `schedulerErrors`, read before and after.
unfoldable pub sweep_schedules :
    (errors errors_after : ℕ) → Result (Unit {0}) → Session → Result (Unit {0})
sweep_schedules errors errors_after swept s =
    require (is_ready_state s.state && s.running_scheduler && s.has_runtime)
      (schedule SchedulePhase.unavailable)
    >> (swept >> require (errors == errors_after) (schedule SchedulePhase.operation))

unfoldable pub await_idle : Result (Unit {0}) → Session → Result (Unit {0})
await_idle idle s = require (is_ready_state s.state) engine_state >> idle

-- `counts` is the reply of the store, `after` the session by then.
unfoldable pub probe : Text → (counts : Result (Unit {0})) → (s after : Session) → Result (Unit {0})
probe name counts s after =
    with_store name
      (rethrow (connection ConnectionPhase.probe) counts
        >> require (member name after.ready_jobs && is_ready_state after.state) engine_state)
      s
