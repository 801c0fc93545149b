-- ===== src/Session/Lifecycle/Steps.antt =====
-- Every step of the session is a path of the abstract machine.
use mathlib.Core.Path.{subst}
use bettter_nest_mq.Prelude.{
  ◌≡◌, refl, sym, inl, inr, Bool, true, false, List, [], ◌∷◌, ◌++◌, reverse, Failure, Result,
  if◌then◌else◌,
}
use bettter_nest_mq.Session.{
  Setup, Session, Resource, EngineState, starting, stopping, closed, failed, Startup, not_started,
  acquiring, making, resolving, probing, cleaning_up, settled, fulfilled, rejected, aggregate,
  Cleaning, not_called, disposing, releasing, cleaned, Closing, open_, on_startup, on_workers,
  on_publisher, on_scheduler, on_cleanup, finished,
}
use bettter_nest_mq.Session.Machine.{
  Event, start_called, close_called, activate_workers_called, activate_publisher_called,
  activate_scheduler_called, startup_replied, workers_replied, publisher_replied, scheduler_replied,
  cleanup_replied, diagnosed, wake_startup, is_startup_over, is_activation_over, await_cleanup,
  begin_cleanup, await_scheduler, await_publisher, await_workers, await_startup, wake_closing,
  advance, on_close, handle, step, run,
}
use bettter_nest_mq.Session.Machine.Releasing.{
  call_cleanup, next_release, failure_of, disposal_failures, cleared, on_cleanup_reply,
}
use bettter_nest_mq.Session.Soundness.{is_closing, OpenShows, Shows, IsSound}
use bettter_nest_mq.Session.Soundness.Activating.{
  Of, branch-keeps, on_activate_workers-keeps, on_workers_reply-keeps, on_activate_publisher-keeps,
  on_publisher_reply-keeps, on_activate_scheduler-keeps, on_scheduler_reply-keeps,
}
use bettter_nest_mq.Session.Soundness.Advancing.{wake_startup-IsSound}
use bettter_nest_mq.Session.Soundness.Runs.{handle-IsSound, step-IsSound}
use bettter_nest_mq.Session.Lifecycle.{
  IsOpen, idle_open, starting_open, disabled_open, ready_open, failed_open, Reaches, goes, fails,
  stops, closes,
}
use bettter_nest_mq.Session.Lifecycle.Replies.{
  ReachedFrom, shown_open, move, on_startup_reply-Reached, on_start-Reached,
}

OpenShows-IsOpen : (st : Startup) (state : EngineState) → OpenShows st state → IsOpen state
OpenShows-IsOpen not_started state h = subst IsOpen (sym h) idle_open
OpenShows-IsOpen (settled fulfilled) state (inl h) = subst IsOpen (sym h) ready_open
OpenShows-IsOpen (settled fulfilled) state (inr h) = subst IsOpen (sym h) disabled_open
OpenShows-IsOpen (settled (rejected e)) state h = subst IsOpen (sym h) failed_open
OpenShows-IsOpen (settled (aggregate e es)) state h = subst IsOpen (sym h) failed_open
OpenShows-IsOpen (acquiring bs c rest) state h = subst IsOpen (sym h) starting_open
OpenShows-IsOpen (making bs) state h = subst IsOpen (sym h) starting_open
OpenShows-IsOpen (resolving bs f t rest) state h = subst IsOpen (sym h) starting_open
OpenShows-IsOpen (probing bs f t rest) state h = subst IsOpen (sym h) starting_open
OpenShows-IsOpen (cleaning_up e) state h = subst IsOpen (sym h) starting_open

module _ (from : EngineState) where
  abbrev Reached : Session → Type 0
  Reached = Of (ReachedFrom from)

  pub on_close-Reached :
      (co : Closing) (s : Session)
      → Shows s.startup co s.state
      → Reached s
      → Reached (on_close co s)
  unfolding on_close
  on_close-Reached open_ s sh h = goes h (stops (OpenShows-IsOpen s.startup s.state sh))
  on_close-Reached on_startup s sh h = h
  on_close-Reached on_workers s sh h = h
  on_close-Reached on_publisher s sh h = h
  on_close-Reached on_scheduler s sh h = h
  on_close-Reached on_cleanup s sh h = h
  on_close-Reached (finished f) s sh h = h

  next_release-Reached :
      (todo : List Resource) (fs : List Failure) (s : Session)
      → Reached s
      → Reached (next_release todo fs s)
  unfolding next_release
  next_release-Reached [] fs s h = h
  next_release-Reached (r ∷ rest) fs s h = h

  on_cleanup_reply-Reached :
      (cl : Cleaning) (reply : Result (Unit {0})) (s : Session)
      → Reached s
      → Reached (on_cleanup_reply cl reply s)
  unfolding on_cleanup_reply
  on_cleanup_reply-Reached not_called reply s h = h
  on_cleanup_reply-Reached (cleaned fs) reply s h = h
  on_cleanup_reply-Reached disposing reply s h =
      next_release-Reached (reverse s.acquired) (disposal_failures reply s.diagnostics) (cleared s)
        h
  on_cleanup_reply-Reached (releasing r rest fs) reply s h =
      next_release-Reached rest (fs ++ failure_of reply)
        (record s { released = s.released ++ r ∷ [] }) h

  handle-Reached :
      (setup : Setup) (e : Event) (s : Session) → IsSound s → Reached s → Reached (handle setup e s)
  unfolding handle
  handle-Reached setup start_called s (o, aw, sh, stop, acc) h =
      on_start-Reached from setup s.startup s stop sh h
  handle-Reached setup close_called s (o, aw, sh, stop, acc) h = on_close-Reached s.closing s sh h
  handle-Reached setup activate_workers_called s k h =
      on_activate_workers-keeps (ReachedFrom from) setup s.workers s h
  handle-Reached setup activate_publisher_called s k h =
      on_activate_publisher-keeps (ReachedFrom from) s.publisher s h
  handle-Reached setup activate_scheduler_called s k h =
      on_activate_scheduler-keeps (ReachedFrom from) s.scheduler s h
  handle-Reached setup (startup_replied reply) s (o, aw, sh, stop, acc) h =
      on_startup_reply-Reached from setup s.startup reply s stop sh h
  handle-Reached setup (workers_replied reply) s k h =
      on_workers_reply-keeps (ReachedFrom from) setup s.workers reply s h
  handle-Reached setup (publisher_replied reply) s k h =
      on_publisher_reply-keeps (ReachedFrom from) s.publisher reply s h
  handle-Reached setup (scheduler_replied reply) s k h =
      on_scheduler_reply-keeps (ReachedFrom from) s.scheduler reply s h
  handle-Reached setup (cleanup_replied reply) s k h = on_cleanup_reply-Reached s.cleaning reply s h
  handle-Reached setup (diagnosed failure) s k h = h

  settle-Reached :
      (stop : Bool) (s : Session)
      → (stop ≡ false → s.state ≡ starting)
      → Reached s
      → Reaches from (if stop then s.state else failed)
  settle-Reached true s e h = h
  settle-Reached false s e h = move from starting failed s.state (e refl) h (λ r. goes r fails)

  wake_startup-Reached :
      (st : Startup) (cl : Cleaning) (s : Session)
      → s.stop_requested ≡ is_closing s.closing
      → Shows st s.closing s.state
      → Reached s
      → Reached (wake_startup st cl s)
  unfolding wake_startup
  wake_startup-Reached (cleaning_up primary) not_called s stop sh h = h
  wake_startup-Reached (cleaning_up primary) disposing s stop sh h = h
  wake_startup-Reached (cleaning_up primary) (releasing r rest fs) s stop sh h = h
  wake_startup-Reached (cleaning_up primary) (cleaned fs) s stop sh h =
      settle-Reached s.stop_requested s
        (λ e. shown_open (cleaning_up primary) s.closing s.state s.stop_requested stop e sh) h
  wake_startup-Reached not_started cl s stop sh h = h
  wake_startup-Reached (settled _) cl s stop sh h = h
  wake_startup-Reached (acquiring bs c rest) cl s stop sh h = h
  wake_startup-Reached (making bs) cl s stop sh h = h
  wake_startup-Reached (resolving bs f t rest) cl s stop sh h = h
  wake_startup-Reached (probing bs f t rest) cl s stop sh h = h

  await_cleanup-Reached :
      (cl : Cleaning) (s : Session) → s.state ≡ stopping → Reached s → Reached (await_cleanup cl s)
  unfolding await_cleanup
  await_cleanup-Reached not_called s e h = h
  await_cleanup-Reached disposing s e h = h
  await_cleanup-Reached (releasing r rest f) s e h = h
  await_cleanup-Reached (cleaned fs) s e h =
      move from stopping closed s.state e h (λ r. goes r closes)

  begin_cleanup-Reached : (s : Session) → s.state ≡ stopping → Reached s → Reached (begin_cleanup s)
  unfolding begin_cleanup
  begin_cleanup-Reached s e h =
      await_cleanup-Reached (call_cleanup s.cleaning)
        (record s { closing = on_cleanup; cleaning = call_cleanup s.cleaning }) e h

  await_scheduler-Reached :
      (s : Session) → s.state ≡ stopping → Reached s → Reached (await_scheduler s)
  unfolding await_scheduler
  await_scheduler-Reached s e h =
      branch-keeps (ReachedFrom from) (is_activation_over s.scheduler) (begin_cleanup s)
        (record s { closing = on_scheduler }) (begin_cleanup-Reached s e h) h

  await_publisher-Reached :
      (s : Session) → s.state ≡ stopping → Reached s → Reached (await_publisher s)
  unfolding await_publisher
  await_publisher-Reached s e h =
      branch-keeps (ReachedFrom from) (is_activation_over s.publisher) (await_scheduler s)
        (record s { closing = on_publisher }) (await_scheduler-Reached s e h) h

  await_workers-Reached : (s : Session) → s.state ≡ stopping → Reached s → Reached (await_workers s)
  unfolding await_workers
  await_workers-Reached s e h =
      branch-keeps (ReachedFrom from) (is_activation_over s.workers) (await_publisher s)
        (record s { closing = on_workers }) (await_publisher-Reached s e h) h

  wake_closing-Reached :
      (co : Closing) (s : Session)
      → Shows s.startup co s.state
      → Reached s
      → Reached (wake_closing co s)
  unfolding wake_closing await_startup
  wake_closing-Reached open_ s sh h = h
  wake_closing-Reached on_startup s sh h =
      branch-keeps (ReachedFrom from) (is_startup_over s.startup) (await_workers s)
        (record s { closing = on_startup }) (await_workers-Reached s sh h) h
  wake_closing-Reached on_workers s sh h = await_workers-Reached s sh h
  wake_closing-Reached on_publisher s sh h = await_publisher-Reached s sh h
  wake_closing-Reached on_scheduler s sh h = await_scheduler-Reached s sh h
  wake_closing-Reached on_cleanup s sh h = await_cleanup-Reached s.cleaning s sh h
  wake_closing-Reached (finished fs) s sh h = h

  pub advance-Reached : (s : Session) → IsSound s → Reached s → Reached (advance s)
  unfolding advance
  advance-Reached s k h =
      let s' = wake_startup s.startup s.cleaning s in
      let k' = wake_startup-IsSound s.startup s.cleaning s refl k k in
      wake_closing-Reached s'.closing s' (k'.2)
        (wake_startup-Reached s.startup s.cleaning s (k.3) (k.2) h)

  step-Reached :
      (setup : Setup) (s : Session) (e : Event) → IsSound s → Reached s → Reached (step setup s e)
  unfolding step
  step-Reached setup s e k h =
      advance-Reached (handle setup e s) (handle-IsSound setup e s k) (handle-Reached setup e s k h)

  pub run-Reached :
      (setup : Setup) (s : Session) (events : List Event)
      → IsSound s
      → Reached s
      → Reached (run setup s events)
  unfolding run
  run-Reached setup s [] k h = h
  run-Reached setup s (e ∷ events) k h =
      run-Reached setup (step setup s e) events (step-IsSound setup s e k)
        (step-Reached setup s e k h)
