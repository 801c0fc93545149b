-- ===== src/Session/Lifecycle/Promises.antt =====
-- What a client of the session may rely on, from the abstract machine.
use bettter_nest_mq.Prelude.{refl, inl, inr, List}
use bettter_nest_mq.Session.{
  Setup, Session, created, Closing, open_, on_startup, on_workers, on_publisher, on_scheduler,
  on_cleanup, finished,
}
use bettter_nest_mq.Session.Machine.{Event, close_called, on_close, handle, step, run}
use bettter_nest_mq.Session.Soundness.{Shows, IsSound, created-IsSound}
use bettter_nest_mq.Session.Soundness.Runs.{handle-IsSound, step-IsSound, run-IsSound}
use bettter_nest_mq.Session.Lifecycle.{Reaches, stays, IsOver, Reaches-IsOver}
use bettter_nest_mq.Session.Lifecycle.Steps.{advance-Reached, run-Reached}

-- The session refines the machine of `Lifecycle`: whatever is called on it and whatever its awaits
-- reply, from every point of a run to every later one its state has moved along transitions of that
-- machine: it is started once, the start ends once (disabled, ready or failed), and a stop leads to
-- `closed` alone.
pub run_refines_lifecycle :
    (setup : Setup) (events later : List Event)
    → Reaches (run setup created events).state (run setup (run setup created events) later).state
run_refines_lifecycle setup events later =
    let s = run setup created events in
    run-Reached s.state setup s later (run-IsSound setup created events created-IsSound) stays

on_close-IsOver :
    (co : Closing) (s : Session) → Shows s.startup co s.state → IsOver (on_close co s).state
unfolding on_close
on_close-IsOver open_ s h = inl refl
on_close-IsOver on_startup s h = inl h
on_close-IsOver on_workers s h = inl h
on_close-IsOver on_publisher s h = inl h
on_close-IsOver on_scheduler s h = inl h
on_close-IsOver on_cleanup s h = inl h
on_close-IsOver (finished f) s h = inr h

close-IsOver : (setup : Setup) (s : Session) → IsSound s → IsOver (step setup s close_called).state
unfolding step handle
close-IsOver setup s k =
    let s' = on_close s.closing s in
    Reaches-IsOver (advance-Reached s'.state s' (handle-IsSound setup close_called s k) stays)
      (on_close-IsOver s.closing s (k.2))

-- From the moment `close` is called, at whatever point of a run, the session shows `stopping` or
-- `closed` and never `ready` again, also if the replies that a startup waits for still come.
pub close_is_final :
    (setup : Setup) (events later : List Event)
    → IsOver (run setup (step setup (run setup created events) close_called) later).state
close_is_final setup events later =
    let s = run setup created events in
    let k = run-IsSound setup created events created-IsSound in
    let s' = step setup s close_called in
    let k' = step-IsSound setup s close_called k in
    Reaches-IsOver (run-Reached s'.state setup s' later k' stays) (close-IsOver setup s k)
