-- ===== src/Session/Soundness/Runs.antt =====
-- Every run of the session keeps its invariant.
use bettter_nest_mq.Prelude.{
  ◌≡◌, refl, sym, ◌∙◌, ap, true, false, List, [], ◌∷◌, ◌++◌, reverse, Failure, Result,
}
use mathlib.Core.List.{append-nil, append_assoc}
use bettter_nest_mq.Session.{
  Setup, Session, Resource, Startup, not_started, acquiring, making, resolving, probing,
  cleaning_up, settled, fulfilled, rejected, aggregate, Cleaning, not_called, disposing, releasing,
  cleaned, Closing, open_, on_startup, on_workers, on_publisher, on_scheduler, on_cleanup, finished,
}
use bettter_nest_mq.Session.Machine.{
  Event, start_called, close_called, activate_workers_called, activate_publisher_called,
  activate_scheduler_called, startup_replied, workers_replied, publisher_replied, scheduler_replied,
  cleanup_replied, diagnosed, on_close, handle, step, run,
}
use bettter_nest_mq.Session.Machine.Releasing.{
  next_release, failure_of, disposal_failures, cleared, on_cleanup_reply,
}
use bettter_nest_mq.Session.Soundness.{
  is_called, is_cleaned, is_closing, Ordered, Awaited, Shows, Sound, IsSound,
}
use bettter_nest_mq.Session.Soundness.Advancing.{IsSoundAt, advance-IsSound}
use bettter_nest_mq.Session.Soundness.Starting.{on_start-IsSound, on_startup_reply-IsSound}
use bettter_nest_mq.Session.Soundness.Activating.{
  Parts, on_activate_workers-keeps, on_workers_reply-keeps, on_activate_publisher-keeps,
  on_publisher_reply-keeps, on_activate_scheduler-keeps, on_scheduler_reply-keeps,
}

-- The parts that depend on the cleanup, once it was called and until it is over.
Ordered-goes :
    (st : Startup) (co : Closing) (cl next : Cleaning)
    → is_called cl ≡ true
    → is_cleaned cl ≡ false
    → is_called next ≡ true
    → Ordered st cl co
    → Ordered st next co
Ordered-goes not_started co cl next c f n h = n ∙ sym c ∙ h
Ordered-goes (settled fulfilled) co cl next c f n h = n ∙ sym c ∙ h
Ordered-goes (settled (rejected e)) co cl next c f n h = cc
Ordered-goes (settled (aggregate e es)) co cl next c f n h = cc
Ordered-goes (cleaning_up e) co cl next c f n h = (n, h.1)
Ordered-goes (acquiring bs _ rest) co cl next c f n h = cc (h.0, c)
Ordered-goes (making bs) co cl next c f n h = cc (h.0, c)
Ordered-goes (resolving bs found t rest) co cl next c f n h = cc (h.0, c)
Ordered-goes (probing bs found t rest) co cl next c f n h = cc (h.0, c)

Awaited-goes :
    (co : Closing) (cl next : Cleaning)
    → is_cleaned cl ≡ false
    → is_called next ≡ true
    → Awaited co cl
    → Awaited co next
Awaited-goes open_ cl next f n h = tt
Awaited-goes on_startup cl next f n h = tt
Awaited-goes on_workers cl next f n h = tt
Awaited-goes on_publisher cl next f n h = tt
Awaited-goes on_scheduler cl next f n h = tt
Awaited-goes on_cleanup cl next f n h = n
Awaited-goes (finished _) cl next f n h = cc (f, ap is_cleaned h)

-- The loop of releaseResources, with `todo` left.
next_release-IsSound :
    (cl : Cleaning) (todo : List Resource) (failures : List Failure) (s : Session)
    → is_called cl ≡ true
    → is_cleaned cl ≡ false
    → Ordered s.startup cl s.closing
    → Awaited s.closing cl
    → Shows s.startup s.closing s.state
    → s.stop_requested ≡ is_closing s.closing
    → s.released ++ todo ≡ reverse s.taken
    → IsSound (next_release todo failures s)
unfolding next_release
next_release-IsSound cl [] failures s c f o aw sh stop e = (
  Ordered-goes s.startup s.closing cl (cleaned failures) c f refl o,
  Awaited-goes s.closing cl (cleaned failures) f refl aw,
  sh,
  stop,
  (sym (append-nil s.released) ∙ e, refl),
)
next_release-IsSound cl (r ∷ rest) failures s c f o aw sh stop e = (
  Ordered-goes s.startup s.closing cl (releasing r rest failures) c f refl o,
  Awaited-goes s.closing cl (releasing r rest failures) f refl aw,
  sh,
  stop,
  e,
)

on_cleanup_reply-IsSound :
    (cl : Cleaning) (reply : Result (Unit {0})) (s : Session)
    → IsSound s
    → Sound s.startup cl s.closing s.state s.stop_requested s.taken s.acquired s.released
    → IsSound (on_cleanup_reply cl reply s)
unfolding on_cleanup_reply
on_cleanup_reply-IsSound not_called reply s h k = h
on_cleanup_reply-IsSound (cleaned failures) reply s h k = h
on_cleanup_reply-IsSound disposing reply s h (o, aw, sh, stop, (held, none_released)) =
    next_release-IsSound disposing (reverse s.acquired) (disposal_failures reply s.diagnostics)
      (cleared s) refl refl o aw sh stop
      (ap (λ l. l ++ reverse s.acquired) none_released ∙ ap reverse held)
on_cleanup_reply-IsSound (releasing r rest failures) reply s h (o, aw, sh, stop, acc) =
    next_release-IsSound (releasing r rest failures) rest (failures ++ failure_of reply)
      (record s { released = s.released ++ r ∷ [] }) refl refl o aw sh stop
      (append_assoc s.released (r ∷ []) rest ∙ acc)

on_close-IsSound :
    (co : Closing) (s : Session)
    → IsSound s
    → IsSoundAt s.startup s.cleaning co s
    → IsSound (on_close co s)
unfolding on_close
on_close-IsSound open_ s h (o, aw, sh, stop, acc) = (o, tt, refl, refl, acc)
on_close-IsSound on_startup s h k = h
on_close-IsSound on_workers s h k = h
on_close-IsSound on_publisher s h k = h
on_close-IsSound on_scheduler s h k = h
on_close-IsSound on_cleanup s h k = h
on_close-IsSound (finished f) s h k = h

abbrev SoundParts : Parts
SoundParts st cl co state stop taken acquired released has_runtime names =
    Sound st cl co state stop taken acquired released

module _ (setup : Setup) where
  pub handle-IsSound : (e : Event) (s : Session) → IsSound s → IsSound (handle setup e s)
  unfolding handle
  handle-IsSound start_called s h = on_start-IsSound setup s.startup s h h
  handle-IsSound close_called s h = on_close-IsSound s.closing s h h
  handle-IsSound activate_workers_called s h =
      on_activate_workers-keeps SoundParts setup s.workers s h
  handle-IsSound activate_publisher_called s h =
      on_activate_publisher-keeps SoundParts s.publisher s h
  handle-IsSound activate_scheduler_called s h =
      on_activate_scheduler-keeps SoundParts s.scheduler s h
  handle-IsSound (startup_replied reply) s h = on_startup_reply-IsSound setup s.startup reply s h h
  handle-IsSound (workers_replied reply) s h =
      on_workers_reply-keeps SoundParts setup s.workers reply s h
  handle-IsSound (publisher_replied reply) s h =
      on_publisher_reply-keeps SoundParts s.publisher reply s h
  handle-IsSound (scheduler_replied reply) s h =
      on_scheduler_reply-keeps SoundParts s.scheduler reply s h
  handle-IsSound (cleanup_replied reply) s h = on_cleanup_reply-IsSound s.cleaning reply s h h
  handle-IsSound (diagnosed failure) s h = h

  pub step-IsSound : (s : Session) (e : Event) → IsSound s → IsSound (step setup s e)
  unfolding step
  step-IsSound s e h = advance-IsSound (handle setup e s) (handle-IsSound e s h)

  -- The invariant holds in every run.
  pub run-IsSound : (s : Session) (events : List Event) → IsSound s → IsSound (run setup s events)
  unfolding run
  run-IsSound s [] h = h
  run-IsSound s (e ∷ events) h = run-IsSound (step setup s e) events (step-IsSound s e h)
