-- ===== src/Session/Finality.antt =====
-- A session that is closed: no call and no late reply makes it take a resource or come back.
use bettter_nest_mq.Prelude.{
  ◌≡◌, refl, ◌∙◌, ap, Bool, true, false, List, [], ◌∷◌, ◌++◌, reverse, Failure, Result,
  if◌then◌else◌,
}
use bettter_nest_mq.Session.{
  Setup, Session, created, Resource, starting, Startup, not_started, acquiring, making, resolving,
  probing, cleaning_up, settled, Cleaning, not_called, disposing, releasing, cleaned, Closing,
  open_, on_startup, on_workers, on_publisher, on_scheduler, on_cleanup, finished,
}
use bettter_nest_mq.Session.Machine.{
  Event, start_called, close_called, activate_workers_called, activate_publisher_called,
  activate_scheduler_called, startup_replied, workers_replied, publisher_replied, scheduler_replied,
  cleanup_replied, diagnosed, wake_startup, wake_closing, advance, on_close, handle, step, run,
}
use bettter_nest_mq.Session.Machine.Initializing.{Reply, initialize, on_start, on_startup_reply}
use bettter_nest_mq.Session.Machine.Releasing.{
  next_release, failure_of, disposal_failures, cleared, on_cleanup_reply,
}
use bettter_nest_mq.Session.Soundness.{
  is_closing, awaits_startup, Ordered, IsSound, created-IsSound,
}
use bettter_nest_mq.Session.Soundness.Activating.{
  Parts, Of, on_activate_workers-keeps, on_workers_reply-keeps, on_activate_publisher-keeps,
  on_publisher_reply-keeps, on_activate_scheduler-keeps, on_scheduler_reply-keeps,
}
use bettter_nest_mq.Session.Soundness.Runs.{step-IsSound, run-IsSound}
use bettter_nest_mq.Session.Resources.{IsReleased, IsSound-released}

module _ (failures : List Failure) (taken : List Resource) where
  -- The close is over, and these resources were taken.
  abbrev Final : Parts
  Final st cl co state stop took acquired released has_runtime names =
      (co ≡ finished failures) × (took ≡ taken)

  next_release-Final :
      (todo : List Resource) (fs : List Failure) (s : Session)
      → Of Final s
      → Of Final (next_release todo fs s)
  unfolding next_release
  next_release-Final [] fs s h = h
  next_release-Final (r ∷ rest) fs s h = h

  on_cleanup_reply-Final :
      (cl : Cleaning) (reply : Result (Unit {0})) (s : Session)
      → Of Final s
      → Of Final (on_cleanup_reply cl reply s)
  unfolding on_cleanup_reply
  on_cleanup_reply-Final not_called reply s h = h
  on_cleanup_reply-Final (cleaned fs) reply s h = h
  on_cleanup_reply-Final disposing reply s h =
      next_release-Final (reverse s.acquired) (disposal_failures reply s.diagnostics) (cleared s) h
  on_cleanup_reply-Final (releasing r rest fs) reply s h =
      next_release-Final rest (fs ++ failure_of reply)
        (record s { released = s.released ++ r ∷ [] }) h

  on_close-Final :
      (co : Closing) (s : Session) → co ≡ finished failures → Of Final s → Of Final (on_close co s)
  unfolding on_close
  on_close-Final open_ s e h = cc e
  on_close-Final on_startup s e h = h
  on_close-Final on_workers s e h = h
  on_close-Final on_publisher s e h = h
  on_close-Final on_scheduler s e h = h
  on_close-Final on_cleanup s e h = h
  on_close-Final (finished fs) s e h = h

  on_startup_reply-Final :
      (setup : Setup) (st : Startup) (reply : Reply) (s : Session)
      → Ordered st s.cleaning s.closing
      → Of Final s
      → Of Final (on_startup_reply setup st reply s)
  unfolding on_startup_reply
  on_startup_reply-Final setup not_started reply s o h = h
  on_startup_reply-Final setup (settled _) reply s o h = h
  on_startup_reply-Final setup (cleaning_up _) reply s o h = h
  on_startup_reply-Final setup (acquiring bs c rest) reply s o h = cc (ap awaits_startup (h.0), o.1)
  on_startup_reply-Final setup (making bs) reply s o h = cc (ap awaits_startup (h.0), o.1)
  on_startup_reply-Final setup (resolving bs f t rest) reply s o h =
      cc (ap awaits_startup (h.0), o.1)
  on_startup_reply-Final setup (probing bs f t rest) reply s o h = cc (ap awaits_startup (h.0), o.1)

  start-Final :
      (stop : Bool) (next s : Session)
      → stop ≡ true
      → Of Final s
      → Of Final (if stop then s else next)
  start-Final true next s e h = h
  start-Final false next s e h = cc e

  on_start-Final :
      (setup : Setup) (st : Startup) (s : Session)
      → s.stop_requested ≡ is_closing s.closing
      → Of Final s
      → Of Final (on_start setup st s)
  unfolding on_start
  on_start-Final setup not_started s stop h =
      start-Final s.stop_requested
        (initialize setup setup.configured (record s { state = starting })) s
        (stop ∙ ap is_closing (h.0)) h
  on_start-Final setup (settled _) s stop h = h
  on_start-Final setup (cleaning_up _) s stop h = h
  on_start-Final setup (acquiring bs c rest) s stop h = h
  on_start-Final setup (making bs) s stop h = h
  on_start-Final setup (resolving bs f t rest) s stop h = h
  on_start-Final setup (probing bs f t rest) s stop h = h

  handle-Final :
      (setup : Setup) (e : Event) (s : Session)
      → IsSound s
      → Of Final s
      → Of Final (handle setup e s)
  unfolding handle
  handle-Final setup start_called s (o, aw, sh, stop, acc) h =
      on_start-Final setup s.startup s stop h
  handle-Final setup close_called s k h = on_close-Final s.closing s (h.0) h
  handle-Final setup activate_workers_called s k h =
      on_activate_workers-keeps Final setup s.workers s h
  handle-Final setup activate_publisher_called s k h =
      on_activate_publisher-keeps Final s.publisher s h
  handle-Final setup activate_scheduler_called s k h =
      on_activate_scheduler-keeps Final s.scheduler s h
  handle-Final setup (startup_replied reply) s (o, aw, sh, stop, acc) h =
      on_startup_reply-Final setup s.startup reply s o h
  handle-Final setup (workers_replied reply) s k h =
      on_workers_reply-keeps Final setup s.workers reply s h
  handle-Final setup (publisher_replied reply) s k h =
      on_publisher_reply-keeps Final s.publisher reply s h
  handle-Final setup (scheduler_replied reply) s k h =
      on_scheduler_reply-keeps Final s.scheduler reply s h
  handle-Final setup (cleanup_replied reply) s k h = on_cleanup_reply-Final s.cleaning reply s h
  handle-Final setup (diagnosed failure) s k h = h

  wake_startup-Final :
      (st : Startup) (cl : Cleaning) (s : Session) → Of Final s → Of Final (wake_startup st cl s)
  unfolding wake_startup
  wake_startup-Final (cleaning_up primary) not_called s h = h
  wake_startup-Final (cleaning_up primary) disposing s h = h
  wake_startup-Final (cleaning_up primary) (releasing r rest fs) s h = h
  wake_startup-Final (cleaning_up primary) (cleaned fs) s h = h
  wake_startup-Final not_started cl s h = h
  wake_startup-Final (settled _) cl s h = h
  wake_startup-Final (acquiring bs c rest) cl s h = h
  wake_startup-Final (making bs) cl s h = h
  wake_startup-Final (resolving bs f t rest) cl s h = h
  wake_startup-Final (probing bs f t rest) cl s h = h

  wake_closing-Final :
      (co : Closing) (s : Session)
      → co ≡ finished failures
      → Of Final s
      → Of Final (wake_closing co s)
  unfolding wake_closing
  wake_closing-Final open_ s e h = h
  wake_closing-Final on_startup s e h = cc e
  wake_closing-Final on_workers s e h = cc e
  wake_closing-Final on_publisher s e h = cc e
  wake_closing-Final on_scheduler s e h = cc e
  wake_closing-Final on_cleanup s e h = cc e
  wake_closing-Final (finished fs) s e h = h

  step-Final :
      (setup : Setup) (s : Session) (e : Event) → IsSound s → Of Final s → Of Final (step setup s e)
  unfolding step advance
  step-Final setup s e k h =
      let s' = handle setup e s in
      let h' = wake_startup-Final s'.startup s'.cleaning s' (handle-Final setup e s k h) in
      let s'' = wake_startup s'.startup s'.cleaning s' in
      wake_closing-Final s''.closing s'' (h'.0) h'

  run-Final :
      (setup : Setup) (s : Session) (events : List Event)
      → IsSound s
      → Of Final s
      → Of Final (run setup s events)
  unfolding run
  run-Final setup s [] k h = h
  run-Final setup s (e ∷ events) k h =
      run-Final setup (step setup s e) events (step-IsSound setup s e k) (step-Final setup s e k h)

-- Once the close of a session has come to an end, the session stays so whatever is called on it and
-- whatever reply still comes: its close has the same outcome, it shows `closed`, it acquires no
-- further resource, and those that it did acquire stay released.
pub closed_for_good :
    (setup : Setup) (events later : List Event) (failures : List Failure)
    → (run setup created events).closing ≡ finished failures
    → ((run setup (run setup created events) later).closing ≡ finished failures)
      × ((run setup (run setup created events) later).taken ≡ (run setup created events).taken)
      × IsReleased (run setup (run setup created events) later)
closed_for_good setup events later failures e =
    let s = run setup created events in
    let k = run-IsSound setup created events created-IsSound in
    let (final, taken) = run-Final failures s.taken setup s later k (e, refl) in
    let k' = run-IsSound setup s later k in
    (
      final,
      taken,
      IsSound-released (run setup s later).closing failures (run setup s later) final k',
    )
