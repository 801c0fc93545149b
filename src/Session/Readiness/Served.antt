-- ===== src/Session/Readiness/Served.antt =====
-- A session that is ready serves every configured connection.
use bettter_nest_mq.Prelude.{◌≡◌, refl, Bool, List, [], ◌∷◌, Text, some, Failure}
use bettter_nest_mq.Session.{
  Setup, Session, created, Connection, Resource, EngineState, ready, closed, Startup, not_started,
  acquiring, making, resolving, probing, cleaning_up, settled, fulfilled, rejected, aggregate,
  Cleaning, not_called, disposing, releasing, cleaned, Closing, open_, on_startup, on_workers,
  on_publisher, on_scheduler, on_cleanup, finished,
}
use bettter_nest_mq.Session.Machine.{
  Event, startup_outcome, wake_startup, is_startup_over, is_activation_over, await_cleanup,
  begin_cleanup, await_scheduler, await_publisher, await_workers, await_startup, wake_closing,
  advance, handle, step, run,
}
use bettter_nest_mq.Session.Machine.Releasing.{call_cleanup}
use bettter_nest_mq.Session.Soundness.{Shows, IsSound, created-IsSound}
use bettter_nest_mq.Session.Soundness.Activating.{Of, branch-keeps, ready_names}
use bettter_nest_mq.Session.Soundness.Runs.{step-IsSound, run-IsSound}
use bettter_nest_mq.Session.Readiness.{Serves, ProgressAt, Progress}
use bettter_nest_mq.Session.Readiness.Calls.{ProgressAt-state, handle-Progress}

module _ (configured : List Connection) where
  abbrev HasProgress : Session → Type 0
  HasProgress = Of (Progress configured)

  settled-Progress :
      (primary : Failure) (fs : List Failure) (state : EngineState) (taken : List Resource)
      (runtime : Bool) (names : List (List Text))
      → ProgressAt configured (settled (startup_outcome primary fs)) state taken runtime names
  settled-Progress primary [] state taken runtime names = tt
  settled-Progress primary (f ∷ fs) state taken runtime names = tt

  wake_startup-Progress :
      (st : Startup) (cl : Cleaning) (s : Session)
      → HasProgress s
      → HasProgress (wake_startup st cl s)
  unfolding wake_startup
  wake_startup-Progress (cleaning_up primary) not_called s h = h
  wake_startup-Progress (cleaning_up primary) disposing s h = h
  wake_startup-Progress (cleaning_up primary) (releasing r rest fs) s h = h
  wake_startup-Progress (cleaning_up primary) (cleaned fs) s h = settled-Progress primary fs _ _ _ _
  wake_startup-Progress not_started cl s h = h
  wake_startup-Progress (settled _) cl s h = h
  wake_startup-Progress (acquiring bs c rest) cl s h = h
  wake_startup-Progress (making bs) cl s h = h
  wake_startup-Progress (resolving bs f t rest) cl s h = h
  wake_startup-Progress (probing bs f t rest) cl s h = h

  await_cleanup-Progress :
      (cl : Cleaning) (s : Session) → HasProgress s → HasProgress (await_cleanup cl s)
  unfolding await_cleanup
  await_cleanup-Progress not_called s h = h
  await_cleanup-Progress disposing s h = h
  await_cleanup-Progress (releasing r rest fs) s h = h
  await_cleanup-Progress (cleaned fs) s h =
      ProgressAt-state configured s.startup s.state closed s.taken s.has_runtime (ready_names s)
        (λ e. cc e) h

  begin_cleanup-Progress : (s : Session) → HasProgress s → HasProgress (begin_cleanup s)
  unfolding begin_cleanup
  begin_cleanup-Progress s h =
      await_cleanup-Progress (call_cleanup s.cleaning)
        (record s { closing = on_cleanup; cleaning = call_cleanup s.cleaning }) h

  await_scheduler-Progress : (s : Session) → HasProgress s → HasProgress (await_scheduler s)
  unfolding await_scheduler
  await_scheduler-Progress s h =
      branch-keeps (Progress configured) (is_activation_over s.scheduler) (begin_cleanup s)
        (record s { closing = on_scheduler }) (begin_cleanup-Progress s h) h

  await_publisher-Progress : (s : Session) → HasProgress s → HasProgress (await_publisher s)
  unfolding await_publisher
  await_publisher-Progress s h =
      branch-keeps (Progress configured) (is_activation_over s.publisher) (await_scheduler s)
        (record s { closing = on_publisher }) (await_scheduler-Progress s h) h

  await_workers-Progress : (s : Session) → HasProgress s → HasProgress (await_workers s)
  unfolding await_workers
  await_workers-Progress s h =
      branch-keeps (Progress configured) (is_activation_over s.workers) (await_publisher s)
        (record s { closing = on_workers }) (await_publisher-Progress s h) h

  wake_closing-Progress :
      (co : Closing) (s : Session) → HasProgress s → HasProgress (wake_closing co s)
  unfolding wake_closing await_startup
  wake_closing-Progress open_ s h = h
  wake_closing-Progress on_startup s h =
      branch-keeps (Progress configured) (is_startup_over s.startup) (await_workers s)
        (record s { closing = on_startup }) (await_workers-Progress s h) h
  wake_closing-Progress on_workers s h = await_workers-Progress s h
  wake_closing-Progress on_publisher s h = await_publisher-Progress s h
  wake_closing-Progress on_scheduler s h = await_scheduler-Progress s h
  wake_closing-Progress on_cleanup s h = await_cleanup-Progress s.cleaning s h
  wake_closing-Progress (finished fs) s h = h

  advance-Progress : (s : Session) → HasProgress s → HasProgress (advance s)
  unfolding advance
  advance-Progress s h =
      let s' = wake_startup s.startup s.cleaning s in
      wake_closing-Progress s'.closing s' (wake_startup-Progress s.startup s.cleaning s h)

  run-Progress :
      (setup : Setup)
      → setup.configured ≡ some configured
      → (s : Session) (events : List Event) → IsSound s
      → HasProgress s
      → HasProgress (run setup s events)
  unfolding run step
  run-Progress setup c s [] k h = h
  run-Progress setup c s (e ∷ events) k h =
      run-Progress setup c (step setup s e) events (step-IsSound setup s e k)
        (advance-Progress (handle setup e s) (handle-Progress configured setup c e s k h))

  -- A session that shows `ready` is one whose startup was fulfilled.
  ready-Serves :
      (st : Startup) (co : Closing) (state : EngineState) (taken : List Resource) (runtime : Bool)
      (names : List (List Text))
      → Shows st co state
      → state ≡ ready
      → ProgressAt configured st state taken runtime names
      → Serves configured taken runtime names
  ready-Serves st on_startup state taken runtime names sh e h = cc (sh, e)
  ready-Serves st on_workers state taken runtime names sh e h = cc (sh, e)
  ready-Serves st on_publisher state taken runtime names sh e h = cc (sh, e)
  ready-Serves st on_scheduler state taken runtime names sh e h = cc (sh, e)
  ready-Serves st on_cleanup state taken runtime names sh e h = cc (sh, e)
  ready-Serves st (finished f) state taken runtime names sh e h = cc (sh, e)
  ready-Serves (settled fulfilled) open_ state taken runtime names sh e h = h e
  ready-Serves not_started open_ state taken runtime names sh e h = cc (sh, e)
  ready-Serves (acquiring bs c rest) open_ state taken runtime names sh e h = cc (sh, e)
  ready-Serves (making bs) open_ state taken runtime names sh e h = cc (sh, e)
  ready-Serves (resolving bs f t rest) open_ state taken runtime names sh e h = cc (sh, e)
  ready-Serves (probing bs f t rest) open_ state taken runtime names sh e h = cc (sh, e)
  ready-Serves (cleaning_up f) open_ state taken runtime names sh e h = cc (sh, e)
  ready-Serves (settled (rejected f)) open_ state taken runtime names sh e h = cc (sh, e)
  ready-Serves (settled (aggregate f fs)) open_ state taken runtime names sh e h = cc (sh, e)

  -- Readiness is all or nothing: in every run in which the session shows `ready`, it has acquired
  -- one resource for each configured connection, in order, and the maps of stores name exactly
  -- these connections and, for each of the other kinds of store, exactly those whose acquired
  -- resource has one; and unless no connection is configured there is a runtime.
  pub ready_is_complete :
      (setup : Setup)
      → setup.configured ≡ some configured
      → (events : List Event) → (run setup created events).state ≡ ready
      → Serves configured
          (run setup created events).taken
          (run setup created events).has_runtime
          (ready_names (run setup created events))
  ready_is_complete setup c events e =
      let s = run setup created events in
      ready-Serves s.startup s.closing s.state s.taken s.has_runtime (ready_names s)
        ((run-IsSound setup created events created-IsSound).2) e
        (run-Progress setup c created events created-IsSound (refl, refl))
