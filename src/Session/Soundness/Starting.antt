-- ===== src/Session/Soundness/Starting.antt =====
-- `start` and the replies to `initialize` keep the invariant of the session.
use bettter_nest_mq.Prelude.{
  ◌≡◌, refl, sym, ◌∙◌, inr, Bool, true, false, ◌&&◌, List, [], ◌∷◌, ◌++◌, Option, none, some,
  if◌then◌else◌,
}
use bettter_nest_mq.Session.{
  Setup, Session, Connection, Binding, disabled, starting, ready, Startup, not_started, acquiring,
  making, resolving, probing, cleaning_up, settled, fulfilled, Closing, open_, on_startup,
  on_workers, on_publisher, on_scheduler, on_cleanup, finished,
}
use bettter_nest_mq.Session.Checks.{
  check_setup, check_participants, check_descriptor, tasks, unresolved, unprobed,
}
use bettter_nest_mq.Session.Machine.Initializing.{
  Reply, resource, descriptor, answered, refused, thrown, is_none, when_ok, add_reader,
  make_runtime, all_acquired, next_acquire, initialize, on_start, on_startup_reply,
}
use bettter_nest_mq.Session.Soundness.{is_closing, awaits_startup, IsSound, branch-IsSound}
use bettter_nest_mq.Session.Soundness.Advancing.{IsSoundAt}
use bettter_nest_mq.Session.Soundness.Flights.{
  Awaited-early, releases-early, Shows-open, InFlight, as_flight, in_flight, fail-IsSound,
  unless_stopped-IsSound, when_ok-IsSound, settled-Sound, next_task-IsSound, Accounts-taken,
}

module _ (setup : Setup) where
  all_acquired-IsSound :
      (bindings : List Binding) (s : Session)
      → InFlight s
      → s.stop_requested ≡ false
      → IsSound (all_acquired setup bindings s)
  all_acquired-IsSound bindings s f e =
      branch-IsSound (is_none bindings && is_none setup.plans)
        (record s { state = ready; startup = settled fulfilled })
        (when_ok (check_participants setup bindings) (make_runtime setup bindings) s)
        (settled-Sound s f e)
        (when_ok-IsSound (check_participants setup bindings) (make_runtime setup bindings) s f
          (as_flight (making bindings) s (λ h. h) (λ h. h) f))

  next_acquire-IsSound :
      (bindings : List Binding) (rest : List Connection) (s : Session)
      → InFlight s
      → IsSound (next_acquire setup bindings rest s)
  unfolding next_acquire
  next_acquire-IsSound bindings [] s f =
      unless_stopped-IsSound s.stop_requested (all_acquired setup bindings) s refl f
        (all_acquired-IsSound bindings s f)
  next_acquire-IsSound bindings (c ∷ rest) s f =
      unless_stopped-IsSound s.stop_requested
        (λ s'. record s' { startup = acquiring bindings c rest }) s refl f
        (λ _. as_flight (acquiring bindings c rest) s (λ h. h) (λ h. h) f)

  pub on_startup_reply-IsSound :
      (st : Startup) (reply : Reply) (s : Session)
      → IsSound s
      → IsSoundAt st s.cleaning s.closing s
      → IsSound (on_startup_reply setup st reply s)
  unfolding on_startup_reply
  on_startup_reply-IsSound (acquiring bs c rest) (resource r) s h k =
      let (o, sh, stop, acc) = in_flight (acquiring bs c rest) s (λ h. h) (λ h. h) k in
      next_acquire-IsSound _ rest
        (record s {
          acquired = s.acquired ++ r ∷ [];
          taken = s.taken ++ r ∷ [];
          flow_readers = add_reader c r s.flow_readers;
        })
        (o, sh, stop, Accounts-taken s.cleaning r s.taken s.acquired s.released (o.0) acc)
  on_startup_reply-IsSound (acquiring bs c rest) (thrown cause) s h k =
      fail-IsSound cause s (in_flight (acquiring bs c rest) s (λ h. h) (λ h. h) k)
  on_startup_reply-IsSound (acquiring bs c rest) (descriptor d) s h k = h
  on_startup_reply-IsSound (acquiring bs c rest) answered s h k = h
  on_startup_reply-IsSound (acquiring bs c rest) refused s h k = h
  on_startup_reply-IsSound (making bs) answered s h k =
      next_task-IsSound bs [] (tasks bs) (record s { has_runtime = true })
        (in_flight (making bs) s (λ h. h) (λ h. h) k)
  on_startup_reply-IsSound (making bs) (thrown cause) s h k =
      fail-IsSound cause s (in_flight (making bs) s (λ h. h) (λ h. h) k)
  on_startup_reply-IsSound (making bs) (resource r) s h k = h
  on_startup_reply-IsSound (making bs) (descriptor d) s h k = h
  on_startup_reply-IsSound (making bs) refused s h k = h
  on_startup_reply-IsSound (resolving bs found t rest) (descriptor d) s h k =
      let f = in_flight (resolving bs found t rest) s (λ h. h) (λ h. h) k in
      when_ok-IsSound (check_descriptor t d) (λ s'. record s' { startup = probing bs found t rest })
        s f (as_flight (probing bs found t rest) s (λ h. h) (λ h. h) f)
  on_startup_reply-IsSound (resolving bs found t rest) refused s h k =
      fail-IsSound (unresolved t.kind) s
        (in_flight (resolving bs found t rest) s (λ h. h) (λ h. h) k)
  on_startup_reply-IsSound (resolving bs found t rest) (thrown cause) s h k =
      fail-IsSound cause s (in_flight (resolving bs found t rest) s (λ h. h) (λ h. h) k)
  on_startup_reply-IsSound (resolving bs found t rest) answered s h k = h
  on_startup_reply-IsSound (resolving bs found t rest) (resource r) s h k = h
  on_startup_reply-IsSound (probing bs found t rest) answered s h k =
      next_task-IsSound bs _ rest s (in_flight (probing bs found t rest) s (λ h. h) (λ h. h) k)
  on_startup_reply-IsSound (probing bs found t rest) refused s h k =
      fail-IsSound (unprobed t.kind) s (in_flight (probing bs found t rest) s (λ h. h) (λ h. h) k)
  on_startup_reply-IsSound (probing bs found t rest) (thrown cause) s h k =
      fail-IsSound cause s (in_flight (probing bs found t rest) s (λ h. h) (λ h. h) k)
  on_startup_reply-IsSound (probing bs found t rest) (resource r) s h k = h
  on_startup_reply-IsSound (probing bs found t rest) (descriptor d) s h k = h
  on_startup_reply-IsSound not_started reply s h k = h
  on_startup_reply-IsSound (cleaning_up f) reply s h k = h
  on_startup_reply-IsSound (settled o) reply s h k = h

-- A session that was neither started nor closed.
Awaits-open : (co : Closing) → is_closing co ≡ false → awaits_startup co ≡ true
Awaits-open open_ h = refl
Awaits-open on_startup h = cc
Awaits-open on_workers h = cc
Awaits-open on_publisher h = cc
Awaits-open on_scheduler h = cc
Awaits-open on_cleanup h = cc
Awaits-open (finished f) h = cc

module _ (setup : Setup) where
  initialize-IsSound :
      (configured : Option (List Connection)) (s : Session)
      → InFlight s
      → s.stop_requested ≡ false
      → IsSound (initialize setup configured s)
  unfolding initialize
  initialize-IsSound none s ((c, w), sh, stop, acc) e = (
    c ∙ sym (releases-early s.closing w),
    Awaited-early s.closing s.cleaning w,
    Shows-open (settled fulfilled) s.closing disabled (sym stop ∙ e) (inr refl),
    stop,
    acc,
  )
  initialize-IsSound (some connections) s f e =
      when_ok-IsSound (check_setup connections setup.queues) (next_acquire setup [] connections) s f
        (next_acquire-IsSound setup [] connections s f)

  start-IsSound :
      (stop : Bool) (s : Session)
      → s.stop_requested ≡ stop
      → IsSound s
      → IsSoundAt not_started s.cleaning s.closing s
      → IsSound
          (if stop then s else initialize setup setup.configured (record s { state = starting }))
  start-IsSound true s e h k = h
  start-IsSound false s e h (o, aw, sh, stop, acc) =
      let not_closing = sym stop ∙ e in
      let w = Awaits-open s.closing not_closing in
      initialize-IsSound setup.configured (record s { state = starting })
        (
          (o ∙ releases-early s.closing w, w),
          Shows-open (making []) s.closing starting not_closing refl,
          stop,
          acc,
        )
        e

  pub on_start-IsSound :
      (st : Startup) (s : Session)
      → IsSound s
      → IsSoundAt st s.cleaning s.closing s
      → IsSound (on_start setup st s)
  unfolding on_start
  on_start-IsSound not_started s h k = start-IsSound s.stop_requested s refl h k
  on_start-IsSound (acquiring bs c rest) s h k = h
  on_start-IsSound (making bs) s h k = h
  on_start-IsSound (resolving bs found t rest) s h k = h
  on_start-IsSound (probing bs found t rest) s h k = h
  on_start-IsSound (cleaning_up f) s h k = h
  on_start-IsSound (settled o) s h k = h
