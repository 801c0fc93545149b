-- ===== src/Session/Readiness/Calls.antt =====
-- The calls of the session and the replies to its cleanup keep the account of its startup.
use bettter_nest_mq.Prelude.{
  ◌≡◌, refl, sym, ◌∙◌, Bool, true, false, List, [], ◌∷◌, ◌++◌, reverse, Text, some, Failure, Result,
}
use bettter_nest_mq.Session.{
  Setup, Session, Resource, Connection, EngineState, ready, stopping, Startup, not_started,
  acquiring, making, resolving, probing, cleaning_up, settled, fulfilled, rejected, aggregate,
  Cleaning, not_called, disposing, releasing, cleaned, Closing, open_, on_startup, on_workers,
  on_publisher, on_scheduler, on_cleanup, finished,
}
use bettter_nest_mq.Session.Machine.{
  Event, start_called, close_called, activate_workers_called, activate_publisher_called,
  activate_scheduler_called, startup_replied, workers_replied, publisher_replied, scheduler_replied,
  cleanup_replied, diagnosed, on_close, handle,
}
use bettter_nest_mq.Session.Machine.Releasing.{
  next_release, failure_of, disposal_failures, cleared, on_cleanup_reply,
}
use bettter_nest_mq.Session.Soundness.{is_called, is_releasing, Ordered, Shows, IsSound}
use bettter_nest_mq.Session.Soundness.Activating.{
  Of, ready_names, on_activate_workers-keeps, on_workers_reply-keeps, on_activate_publisher-keeps,
  on_publisher_reply-keeps, on_activate_scheduler-keeps, on_scheduler_reply-keeps,
}
use bettter_nest_mq.Session.Readiness.{no_names, ProgressAt, Progress}
use bettter_nest_mq.Session.Readiness.Progress.{on_startup_reply-Progress, on_start-Progress}

-- A session that releases its resources is not ready.
not_ready :
    (st : Startup) (co : Closing) (state : EngineState)
    → is_releasing co ≡ true
    → Shows st co state
    → state ≡ ready
    → ⊥
not_ready st open_ state r h e = cc r
not_ready st on_startup state r h e = cc r
not_ready st on_workers state r h e = cc r
not_ready st on_publisher state r h e = cc r
not_ready st on_scheduler state r h e = cc r
not_ready st on_cleanup state r h e = cc (h, e)
not_ready st (finished f) state r h e = cc (h, e)

module _ (configured : List Connection) where
  abbrev HasProgress : Session → Type 0
  HasProgress = Of (Progress configured)

  -- A startup that was not committed does not depend on the state.
  pub ProgressAt-state :
      (st : Startup) (state next : EngineState) (taken : List Resource) (runtime : Bool)
      (names : List (List Text))
      → (next ≡ ready → ⊥)
      → ProgressAt configured st state taken runtime names
      → ProgressAt configured st next taken runtime names
  ProgressAt-state not_started state next taken runtime names e h = h
  ProgressAt-state (acquiring bs c rest) state next taken runtime names e h = h
  ProgressAt-state (making bs) state next taken runtime names e h = h
  ProgressAt-state (resolving bs f t rest) state next taken runtime names e h = h
  ProgressAt-state (probing bs f t rest) state next taken runtime names e h = h
  ProgressAt-state (cleaning_up f) state next taken runtime names e h = tt
  ProgressAt-state (settled fulfilled) state next taken runtime names e h = λ r. absurd (e r)
  ProgressAt-state (settled (rejected f)) state next taken runtime names e h = tt
  ProgressAt-state (settled (aggregate f fs)) state next taken runtime names e h = tt

  -- No startup is at an await once the cleanup was called, so the maps may be emptied.
  ProgressAt-cleared :
      (st : Startup) (cl : Cleaning) (co : Closing) (state : EngineState) (taken : List Resource)
      (runtime : Bool) (names : List (List Text))
      → ProgressAt configured st state taken runtime names
      → is_called cl ≡ true
      → Ordered st cl co
      → Shows st co state
      → ProgressAt configured st state taken false no_names
  ProgressAt-cleared not_started cl co state taken runtime names h c o sh = (h.0, refl)
  ProgressAt-cleared (acquiring bs _ rest) cl co state taken runtime names h c o sh = cc (o.0, c)
  ProgressAt-cleared (making bs) cl co state taken runtime names h c o sh = cc (o.0, c)
  ProgressAt-cleared (resolving bs f t rest) cl co state taken runtime names h c o sh = cc (o.0, c)
  ProgressAt-cleared (probing bs f t rest) cl co state taken runtime names h c o sh = cc (o.0, c)
  ProgressAt-cleared (cleaning_up f) cl co state taken runtime names h c o sh = tt
  ProgressAt-cleared (settled fulfilled) cl co state taken runtime names h c o sh =
      λ e. absurd (not_ready (settled fulfilled) co state (sym o ∙ c) sh e)
  ProgressAt-cleared (settled (rejected f)) cl co state taken runtime names h c o sh = tt
  ProgressAt-cleared (settled (aggregate f fs)) cl co state taken runtime names h c o sh = tt

  next_release-Progress :
      (todo : List Resource) (fs : List Failure) (s : Session)
      → HasProgress s
      → HasProgress (next_release todo fs s)
  unfolding next_release
  next_release-Progress [] fs s h = h
  next_release-Progress (r ∷ rest) fs s h = h

  on_cleanup_reply-Progress :
      (cl : Cleaning) (reply : Result (Unit {0})) (s : Session)
      → Ordered s.startup cl s.closing
      → Shows s.startup s.closing s.state
      → HasProgress s
      → HasProgress (on_cleanup_reply cl reply s)
  unfolding on_cleanup_reply
  on_cleanup_reply-Progress not_called reply s o sh h = h
  on_cleanup_reply-Progress (cleaned fs) reply s o sh h = h
  on_cleanup_reply-Progress disposing reply s o sh h =
      next_release-Progress (reverse s.acquired) (disposal_failures reply s.diagnostics) (cleared s)
        (ProgressAt-cleared s.startup disposing s.closing s.state s.taken s.has_runtime
          (ready_names s) h refl o sh)
  on_cleanup_reply-Progress (releasing r rest fs) reply s o sh h =
      next_release-Progress rest (fs ++ failure_of reply)
        (record s { released = s.released ++ r ∷ [] }) h

  on_close-Progress : (co : Closing) (s : Session) → HasProgress s → HasProgress (on_close co s)
  unfolding on_close
  on_close-Progress open_ s h =
      ProgressAt-state s.startup s.state stopping s.taken s.has_runtime (ready_names s) (λ e. cc e)
        h
  on_close-Progress on_startup s h = h
  on_close-Progress on_workers s h = h
  on_close-Progress on_publisher s h = h
  on_close-Progress on_scheduler s h = h
  on_close-Progress on_cleanup s h = h
  on_close-Progress (finished f) s h = h

  module _ (setup : Setup) (is_configured : setup.configured ≡ some configured) where
    pub handle-Progress :
        (e : Event) (s : Session) → IsSound s → HasProgress s → HasProgress (handle setup e s)
    unfolding handle
    handle-Progress start_called s k h =
        on_start-Progress configured setup s.startup s is_configured h h
    handle-Progress close_called s k h = on_close-Progress s.closing s h
    handle-Progress activate_workers_called s k h =
        on_activate_workers-keeps (Progress configured) setup s.workers s h
    handle-Progress activate_publisher_called s k h =
        on_activate_publisher-keeps (Progress configured) s.publisher s h
    handle-Progress activate_scheduler_called s k h =
        on_activate_scheduler-keeps (Progress configured) s.scheduler s h
    handle-Progress (startup_replied reply) s k h =
        on_startup_reply-Progress configured setup s.startup reply s h h
    handle-Progress (workers_replied reply) s k h =
        on_workers_reply-keeps (Progress configured) setup s.workers reply s h
    handle-Progress (publisher_replied reply) s k h =
        on_publisher_reply-keeps (Progress configured) s.publisher reply s h
    handle-Progress (scheduler_replied reply) s k h =
        on_scheduler_reply-keeps (Progress configured) s.scheduler reply s h
    handle-Progress (cleanup_replied reply) s (o, aw, sh, stop, acc) h =
        on_cleanup_reply-Progress s.cleaning reply s o sh h
    handle-Progress (diagnosed failure) s k h = h
