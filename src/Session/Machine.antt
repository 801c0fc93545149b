-- ===== src/Session/Machine.antt =====
-- EngineSession as a machine: calls of its methods and the replies to its awaits are events, in
-- any order, and `step` runs the code from one await to the next. What waits for another part of
-- the session goes on in `advance`, at the end of the step that lets it. A reply that nothing
-- awaits changes nothing.
pub mod Initializing
pub mod Releasing
pub mod Activating
use bettter_nest_mq.Prelude.{
  ℕ, Bool, true, false, List, [], ◌∷◌, ◌++◌, Failure, Result, ok, err, if◌then◌else◌,
}
use bettter_nest_mq.Session.{
  Setup, Session, EngineState, stopping, closed, failed, Outcome, rejected, aggregate, Startup,
  not_started, cleaning_up, settled, Cleaning, cleaned, Activation, inactive, activated, Closing,
  open_, on_startup, on_workers, on_publisher, on_scheduler, on_cleanup, finished,
}
use bettter_nest_mq.Session.Machine.Initializing.{Reply, on_start, on_startup_reply}
use bettter_nest_mq.Session.Machine.Releasing.{call_cleanup, on_cleanup_reply}
use bettter_nest_mq.Session.Machine.Activating.{
  on_activate_workers, on_activate_publisher, on_activate_scheduler, on_workers_reply,
  on_publisher_reply, on_scheduler_reply,
}

pub data Event : Type 0 where
  start_called close_called : Event
  activate_workers_called activate_publisher_called activate_scheduler_called : Event
  startup_replied workers_replied publisher_replied scheduler_replied : Reply → Event
  cleanup_replied : Result (Unit {0}) → Event
  -- the runtime reports a failure of its cleanup
  diagnosed : Failure → Event

abbrev pub startup_outcome : Failure → List Failure → Outcome
startup_outcome primary [] = rejected primary
startup_outcome primary (f ∷ failures) = aggregate primary (f ∷ failures)

-- The rest of the catch of `initialize`, once the cleanup is done.
unfoldable pub wake_startup : Startup → Cleaning → Session → Session
wake_startup (cleaning_up primary) (cleaned failures) s = record s {
  startup = settled (startup_outcome primary failures);
  state = if s.stop_requested then s.state else failed;
}
wake_startup _ _ s = s

abbrev pub is_startup_over : Startup → Bool
is_startup_over not_started = true
is_startup_over (settled outcome) = true
is_startup_over _ = false

abbrev pub is_activation_over : Activation → Bool
is_activation_over inactive = true
is_activation_over (activated result) = true
is_activation_over _ = false

-- finishClose, from each of its awaits on; `on_cleanup` is the last.
unfoldable pub await_cleanup : Cleaning → Session → Session
await_cleanup (cleaned failures) s = record s { closing = finished failures; state = closed }
await_cleanup _ s = s

unfoldable pub begin_cleanup : Session → Session
begin_cleanup s =
    let cleaning = call_cleanup s.cleaning in
    await_cleanup cleaning (record s { closing = on_cleanup; cleaning = cleaning })

unfoldable pub await_scheduler : Session → Session
await_scheduler s =
    if is_activation_over s.scheduler then begin_cleanup s else record s { closing = on_scheduler }

unfoldable pub await_publisher : Session → Session
await_publisher s =
    if is_activation_over s.publisher
    then await_scheduler s
    else record s { closing = on_publisher }

unfoldable pub await_workers : Session → Session
await_workers s =
    if is_activation_over s.workers then await_publisher s else record s { closing = on_workers }

unfoldable pub await_startup : Session → Session
await_startup s =
    if is_startup_over s.startup then await_workers s else record s { closing = on_startup }

unfoldable pub wake_closing : Closing → Session → Session
wake_closing open_ s = s
wake_closing on_startup s = await_startup s
wake_closing on_workers s = await_workers s
wake_closing on_publisher s = await_publisher s
wake_closing on_scheduler s = await_scheduler s
wake_closing on_cleanup s = await_cleanup s.cleaning s
wake_closing (finished failures) s = s

unfoldable pub advance : Session → Session
advance s = let s' = wake_startup s.startup s.cleaning s in wake_closing s'.closing s'

unfoldable pub on_close : Closing → Session → Session
on_close open_ s = record s {
  stop_requested = true;
  state = stopping;
  snapshots = [];
  closing = on_startup;
}
on_close _ s = s

module _ (setup : Setup) where
  unfoldable pub handle : Event → Session → Session
  handle start_called s = on_start setup s.startup s
  handle close_called s = on_close s.closing s
  handle activate_workers_called s = on_activate_workers setup s.workers s
  handle activate_publisher_called s = on_activate_publisher s.publisher s
  handle activate_scheduler_called s = on_activate_scheduler s.scheduler s
  handle (startup_replied reply) s = on_startup_reply setup s.startup reply s
  handle (workers_replied reply) s = on_workers_reply setup s.workers reply s
  handle (publisher_replied reply) s = on_publisher_reply s.publisher reply s
  handle (scheduler_replied reply) s = on_scheduler_reply s.scheduler reply s
  handle (cleanup_replied reply) s = on_cleanup_reply s.cleaning reply s
  handle (diagnosed failure) s = record s { diagnostics = s.diagnostics ++ failure ∷ [] }

  unfoldable pub step : Session → Event → Session
  step s e = advance (handle e s)

  unfoldable pub run : Session → List Event → Session
  run s [] = s
  run s (e ∷ events) = run (step s e) events
