-- ===== src/Session/Lifecycle/Replies.antt =====
-- The parts of a step of the session follow the abstract machine.
use mathlib.Core.Path.{subst}
use bettter_nest_mq.Prelude.{
  ◌≡◌, refl, Bool, true, false, ◌&&◌, List, [], ◌∷◌, ◌++◌, Option, none, some, Failure,
  engine_state, Result, ok, err, if◌then◌else◌,
}
use bettter_nest_mq.Session.{
  Setup, Session, Connection, Binding, Task, EngineState, idle, disabled, starting, ready, Startup,
  not_started, acquiring, making, resolving, probing, cleaning_up, settled, fulfilled, Closing,
  open_, on_startup, on_workers, on_publisher, on_scheduler, on_cleanup, finished,
}
use bettter_nest_mq.Session.Checks.{check_setup, check_participants, check_descriptor, tasks}
use bettter_nest_mq.Session.Machine.Initializing.{
  Reply, resource, descriptor, answered, refused, thrown, fail, commit, next_task, is_none, when_ok,
  add_reader, make_runtime, all_acquired, next_acquire, initialize, on_start, on_startup_reply,
}
use bettter_nest_mq.Session.Soundness.{is_closing, OpenShows, Shows}
use bettter_nest_mq.Session.Soundness.Activating.{Parts, Of, branch-keeps}
use bettter_nest_mq.Session.Lifecycle.{Reaches, goes, starts, disables, gets_ready}

abbrev pub ReachedFrom : EngineState → Parts
ReachedFrom from st cl co state stop taken acquired released has_runtime names = Reaches from state

-- The state of a session that was not closed is the one its startup shows.
pub shown_open :
    (st : Startup) (co : Closing) (state : EngineState) (stop : Bool)
    → stop ≡ is_closing co
    → stop ≡ false
    → Shows st co state
    → OpenShows st state
shown_open st open_ state stop h e sh = sh
shown_open st on_startup state stop h e sh = cc
shown_open st on_workers state stop h e sh = cc
shown_open st on_publisher state stop h e sh = cc
shown_open st on_scheduler state stop h e sh = cc
shown_open st on_cleanup state stop h e sh = cc
shown_open st (finished f) state stop h e sh = cc

module _ (from : EngineState) where
  abbrev Reached : Session → Type 0
  Reached = Of (ReachedFrom from)

  -- A startup that is at an await, in a session that was reached.
  abbrev Starts : Session → Type 0
  Starts s = Reached s × (s.stop_requested ≡ false → s.state ≡ starting)

  pub move :
      (via to : EngineState) (state : EngineState)
      → state ≡ via
      → Reaches from state
      → (Reaches from via → Reaches from to)
      → Reaches from to
  move via to state e h t = t (subst (λ x. Reaches from x) e h)

  fail-Reached : (cause : Failure) (s : Session) → Reached s → Reached (fail cause s)
  fail-Reached cause s h = h

  unless_stopped-Reached :
      (stop : Bool) (next : Session → Session) (s : Session)
      → s.stop_requested ≡ stop
      → Reached s
      → (s.stop_requested ≡ false → Reached (next s))
      → Reached (if stop then fail engine_state s else next s)
  unless_stopped-Reached true next s e h k = h
  unless_stopped-Reached false next s e h k = k e

  when_ok-Reached :
      (m : Result (Unit {0})) (next : Session → Session) (s : Session)
      → Reached s
      → Reached (next s)
      → Reached (when_ok m next s)
  when_ok-Reached (ok _) next s h k = k
  when_ok-Reached (err cause) next s h k = h

  becomes_ready : (s : Session) → Starts s → s.stop_requested ≡ false → Reaches from ready
  becomes_ready s (h, k) e = move starting ready s.state (k e) h (λ r. goes r gets_ready)

  next_task-Reached :
      (bindings : List Binding) (found rest : List Task) (s : Session)
      → Starts s
      → Reached (next_task bindings found rest s)
  unfolding next_task
  next_task-Reached bindings found [] s h =
      unless_stopped-Reached s.stop_requested (commit found) s refl (h.0) (becomes_ready s h)
  next_task-Reached bindings found (t ∷ rest) s h =
      unless_stopped-Reached s.stop_requested
        (λ s'. record s' { startup = resolving bindings found t rest }) s refl (h.0) (λ _. h.0)

  module _ (setup : Setup) where
    next_acquire-Reached :
        (bindings : List Binding) (rest : List Connection) (s : Session)
        → Starts s
        → Reached (next_acquire setup bindings rest s)
    unfolding next_acquire
    next_acquire-Reached bindings [] s h =
        unless_stopped-Reached s.stop_requested (all_acquired setup bindings) s refl (h.0) (λ e.
          branch-keeps (ReachedFrom from) (is_none bindings && is_none setup.plans)
            (record s { state = ready; startup = settled fulfilled })
            (when_ok (check_participants setup bindings) (make_runtime setup bindings) s)
            (becomes_ready s h e)
            (when_ok-Reached (check_participants setup bindings) (make_runtime setup bindings) s
              (h.0) (h.0)))
    next_acquire-Reached bindings (c ∷ rest) s h =
        unless_stopped-Reached s.stop_requested
          (λ s'. record s' { startup = acquiring bindings c rest }) s refl (h.0) (λ _. h.0)

    pub on_startup_reply-Reached :
        (st : Startup) (reply : Reply) (s : Session)
        → s.stop_requested ≡ is_closing s.closing
        → Shows st s.closing s.state
        → Reached s
        → Reached (on_startup_reply setup st reply s)
    unfolding on_startup_reply
    on_startup_reply-Reached (acquiring bs c rest) (resource r) s stop sh h =
        next_acquire-Reached _ rest
          (record s {
            acquired = s.acquired ++ r ∷ [];
            taken = s.taken ++ r ∷ [];
            flow_readers = add_reader c r s.flow_readers;
          })
          (h, λ e. shown_open (acquiring bs c rest) s.closing s.state s.stop_requested stop e sh)
    on_startup_reply-Reached (acquiring bs c rest) (thrown cause) s stop sh h = h
    on_startup_reply-Reached (acquiring bs c rest) (descriptor d) s stop sh h = h
    on_startup_reply-Reached (acquiring bs c rest) answered s stop sh h = h
    on_startup_reply-Reached (acquiring bs c rest) refused s stop sh h = h
    on_startup_reply-Reached (making bs) answered s stop sh h =
        next_task-Reached bs [] (tasks bs) (record s { has_runtime = true })
          (h, λ e. shown_open (making bs) s.closing s.state s.stop_requested stop e sh)
    on_startup_reply-Reached (making bs) (thrown cause) s stop sh h = h
    on_startup_reply-Reached (making bs) (resource r) s stop sh h = h
    on_startup_reply-Reached (making bs) (descriptor d) s stop sh h = h
    on_startup_reply-Reached (making bs) refused s stop sh h = h
    on_startup_reply-Reached (resolving bs found t rest) (descriptor d) s stop sh h =
        when_ok-Reached (check_descriptor t d)
          (λ s'. record s' { startup = probing bs found t rest }) s h h
    on_startup_reply-Reached (resolving bs found t rest) refused s stop sh h = h
    on_startup_reply-Reached (resolving bs found t rest) (thrown cause) s stop sh h = h
    on_startup_reply-Reached (resolving bs found t rest) answered s stop sh h = h
    on_startup_reply-Reached (resolving bs found t rest) (resource r) s stop sh h = h
    on_startup_reply-Reached (probing bs found t rest) answered s stop sh h =
        next_task-Reached bs _ rest s (
          h,
          λ e. shown_open (probing bs found t rest) s.closing s.state s.stop_requested stop e sh,
        )
    on_startup_reply-Reached (probing bs found t rest) refused s stop sh h = h
    on_startup_reply-Reached (probing bs found t rest) (thrown cause) s stop sh h = h
    on_startup_reply-Reached (probing bs found t rest) (resource r) s stop sh h = h
    on_startup_reply-Reached (probing bs found t rest) (descriptor d) s stop sh h = h
    on_startup_reply-Reached not_started reply s stop sh h = h
    on_startup_reply-Reached (cleaning_up f) reply s stop sh h = h
    on_startup_reply-Reached (settled o) reply s stop sh h = h

    initialize-Reached :
        (configured : Option (List Connection)) (s : Session)
        → Reached s
        → s.state ≡ starting
        → Reached (initialize setup configured s)
    unfolding initialize
    initialize-Reached none s h e = move starting disabled s.state e h (λ r. goes r disables)
    initialize-Reached (some connections) s h e =
        when_ok-Reached (check_setup connections setup.queues) (next_acquire setup [] connections) s
          h (next_acquire-Reached [] connections s (h, λ _. e))

    start-Reached :
        (stop : Bool) (s : Session)
        → s.stop_requested ≡ stop
        → s.stop_requested ≡ is_closing s.closing
        → Shows not_started s.closing s.state
        → Reached s
        → Reached
            (if stop then s else initialize setup setup.configured (record s { state = starting }))
    start-Reached true s e stop sh h = h
    start-Reached false s e stop sh h =
        initialize-Reached setup.configured (record s { state = starting })
          (move idle starting s.state
            (shown_open not_started s.closing s.state s.stop_requested stop e sh) h
            (λ r. goes r starts))
          refl

    pub on_start-Reached :
        (st : Startup) (s : Session)
        → s.stop_requested ≡ is_closing s.closing
        → Shows st s.closing s.state
        → Reached s
        → Reached (on_start setup st s)
    unfolding on_start
    on_start-Reached not_started s stop sh h = start-Reached s.stop_requested s refl stop sh h
    on_start-Reached (acquiring bs c rest) s stop sh h = h
    on_start-Reached (making bs) s stop sh h = h
    on_start-Reached (resolving bs found t rest) s stop sh h = h
    on_start-Reached (probing bs found t rest) s stop sh h = h
    on_start-Reached (cleaning_up f) s stop sh h = h
    on_start-Reached (settled o) s stop sh h = h
