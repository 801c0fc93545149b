-- ===== src/Session/Access/Refusals.antt =====
-- When the operations on the stores of a session are refused.
use bettter_nest_mq.Prelude.{
  ℕ, ◌≡◌, refl, ap, inl, inr, Bool, true, false, List, Text, Failure, flow, FlowReason, schedule,
  SchedulePhase, outbox, OutboxOperation, job, JobOperationName, engine_state, Result, err, ◌>>◌,
  require,
}
use bettter_nest_mq.Session.{Setup, Session, created, EngineState}
use bettter_nest_mq.Session.Machine.{Event, close_called, step, run}
use bettter_nest_mq.Session.Machine.Activating.{is_ready_state, is_running}
use bettter_nest_mq.Session.Lifecycle.{IsOver}
use bettter_nest_mq.Session.Lifecycle.Promises.{close_is_final}
use bettter_nest_mq.Session.Access.{
  with_store, with_flows, with_schedules, with_outbox, assert_events, run_operation,
  reconcile_schedules, sweep_schedules, await_idle, probe,
}

-- All operations are refused, each with its own exception.
abbrev pub IsRefusing :
    (Value : Type 0) → Text → Result Value → Result (Unit {0}) → Session → Type 0
IsRefusing Value name operation done s =
    (with_store name operation s ≡ err engine_state)
    × (with_flows name operation s ≡ err (flow FlowReason.unavailable))
    × (with_schedules name operation s ≡ err (schedule SchedulePhase.unavailable))
    × (with_outbox name operation s ≡ err (outbox OutboxOperation.unavailable))
    × (run_operation operation s ≡ err (job JobOperationName.binding))
    × (reconcile_schedules operation s ≡ err (schedule SchedulePhase.unavailable))
    × (assert_events name s ≡ err (job JobOperationName.await_result))
    × (await_idle done s ≡ err engine_state)
    × ((after : Session) → probe name done s after ≡ err engine_state)
    × ((errors errors_after : ℕ)
        → sweep_schedules errors errors_after done s ≡ err (schedule SchedulePhase.unavailable))

IsOver-state : (state : EngineState) → IsOver state → is_ready_state state ≡ false
IsOver-state state (inl e) = ap is_ready_state e
IsOver-state state (inr e) = ap is_ready_state e

is_running-over : (s : Session) → is_ready_state s.state ≡ false → is_running s ≡ false
is_running-over s e = ap (λ b. elim b [ true ↦ s.has_runtime | false ↦ false ]) e

refused :
    {A : Type 0} (b : Bool) (failure : Failure) (rest : Result A)
    → b ≡ false
    → (require b failure >> rest) ≡ err failure
refused true failure rest e = cc e
refused false failure rest e = refl

refuses :
    {Value : Type 0} (name : Text) (operation : Result Value) (done : Result (Unit {0}))
    (s : Session)
    → is_ready_state s.state ≡ false
    → IsRefusing Value name operation done s
unfolding with_store with_flows with_schedules with_outbox assert_events run_operation
    reconcile_schedules sweep_schedules await_idle probe
refuses name operation done s e =
    let h = is_running-over s e in
    (
      refused (is_running s) _ _ h,
      refused (is_running s) _ _ h,
      refused (is_running s) _ _ h,
      refused (is_running s) _ _ h,
      refused (is_running s) _ _ h,
      refused (is_running s) _ _ h,
      rw e,
      refused (is_ready_state s.state) _ _ e,
      (λ after. refused (is_running s) _ _ h),
      (λ a b. rw e),
    )

-- From the moment `close` is called, no operation reaches a store: every one is refused with its
-- own exception, for every name and whatever the operation would have given.
pub close_refuses_operations :
    {Value : Type 0} (setup : Setup) (events later : List Event) (name : Text)
    (operation : Result Value) (done : Result (Unit {0}))
    → IsRefusing Value name operation done
        (run setup (step setup (run setup created events) close_called) later)
close_refuses_operations setup events later name operation done =
    let s = run setup (step setup (run setup created events) close_called) later in
    refuses name operation done s (IsOver-state s.state (close_is_final setup events later))
