-- ===== src/Session/Machine/Activating.antt =====
-- `activateWorkers`, `activateOutboxPublisher` and `activateScheduler` of EngineSession.
use bettter_nest_mq.Prelude.{
  Bool, true, false, List, [], ◌∷◌, ◌++◌, Text, Failure, engine_state, job, JobOperationName,
  outbox, OutboxOperation, schedule, SchedulePhase, Result, ok, err, if◌then◌else◌,
}
use bettter_nest_mq.Session.{
  Setup, Session, EngineState, ready, Startup, not_started, Activation, inactive, recovering,
  starting_up, activated,
}
use bettter_nest_mq.Session.Machine.Initializing.{Reply, answered, refused, thrown}

abbrev pub is_ready_state : EngineState → Bool
is_ready_state ready = true
is_ready_state _ = false

-- state === 'ready' and a runtime
abbrev pub is_running : Session → Bool
is_running s = elim (is_ready_state s.state) [ true ↦ s.has_runtime | false ↦ false ]

abbrev pub set_workers : Result (Unit {0}) → Session → Session
set_workers result s = record s { workers = activated result }

abbrev pub unless_stopping : Activation → Activation → Session → Activation
unless_stopping stopped next s = if s.stop_requested then stopped else next

-- this.plans, which `start` sets.
abbrev pub plans_of : Startup → List Text → List Text
plans_of not_started plans = []
plans_of _ plans = plans

-- The loops over the plans.
unfoldable pub next_worker : List Text → Session → Session
next_worker [] s = record s {
  workers = unless_stopping (activated (err engine_state)) (activated (ok tt)) s;
}
next_worker (p ∷ rest) s = record s {
  workers = unless_stopping (activated (err engine_state)) (starting_up p rest) s;
}

module _ (setup : Setup) where
  unfoldable pub next_recovery : List Text → Session → Session
  next_recovery [] s = next_worker setup.plans s
  next_recovery (p ∷ rest) s = record s {
    workers = unless_stopping (activated (err engine_state)) (recovering p rest) s;
  }

  unfoldable pub activate : List Text → Session → Session
  activate [] s = set_workers (ok tt) s
  activate (p ∷ rest) s =
      if is_running s then next_recovery (p ∷ rest) s else set_workers (err engine_state) s

  unfoldable pub on_activate_workers : Activation → Session → Session
  on_activate_workers inactive s = activate (plans_of s.startup setup.plans) s
  on_activate_workers _ s = s

  unfoldable pub on_workers_reply : Activation → Reply → Session → Session
  on_workers_reply (recovering p rest) answered s = next_recovery rest s
  on_workers_reply (recovering p rest) (thrown cause) s = set_workers (err cause) s
  on_workers_reply (starting_up p rest) answered s =
      next_worker rest (record s { running_workers = s.running_workers ++ p ∷ [] })
  on_workers_reply (starting_up p rest) refused s =
      set_workers (err (job JobOperationName.binding)) s
  on_workers_reply (starting_up p rest) (thrown cause) s = set_workers (err cause) s
  on_workers_reply _ reply s = s

-- The start of a single handle: not enabled, not running, or awaited.
abbrev pub start_handle : Bool → Failure → Session → Activation
start_handle enabled unavailable s =
    if enabled
    then (if is_running s
        then unless_stopping (activated (err engine_state)) (starting_up [] []) s
        else activated (err unavailable))
    else activated (ok tt)

-- After the handle is there: assertStarting.
abbrev pub handle_started : Session → Activation
handle_started s = unless_stopping (activated (err engine_state)) (activated (ok tt)) s

unfoldable pub on_activate_publisher : Activation → Session → Session
on_activate_publisher inactive s = record s {
  publisher = start_handle s.has_publisher (outbox OutboxOperation.unavailable) s;
}
on_activate_publisher _ s = s

unfoldable pub on_publisher_reply : Activation → Reply → Session → Session
on_publisher_reply (starting_up p rest) answered s = record s {
  running_publisher = true;
  publisher = handle_started s;
}
on_publisher_reply (starting_up p rest) refused s = record s {
  publisher = activated (err (outbox OutboxOperation.unavailable));
}
on_publisher_reply (starting_up p rest) (thrown cause) s = record s {
  publisher = activated (err cause);
}
on_publisher_reply _ reply s = s

unfoldable pub on_activate_scheduler : Activation → Session → Session
on_activate_scheduler inactive s = record s {
  scheduler = start_handle s.has_scheduler (schedule SchedulePhase.unavailable) s;
}
on_activate_scheduler _ s = s

unfoldable pub on_scheduler_reply : Activation → Reply → Session → Session
on_scheduler_reply (starting_up p rest) answered s = record s {
  running_scheduler = true;
  scheduler = handle_started s;
}
on_scheduler_reply (starting_up p rest) refused s = record s {
  scheduler = activated (err (schedule SchedulePhase.unavailable));
}
on_scheduler_reply (starting_up p rest) (thrown cause) s = record s {
  scheduler = activated (err cause);
}
on_scheduler_reply _ reply s = s
