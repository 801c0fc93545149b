-- ===== src/Session/Soundness/Flights.antt =====
-- A startup of the session at one of its awaits, and what ends it, keep the invariant.
use bettter_nest_mq.Prelude.{
  ◌≡◌, refl, sym, ◌∙◌, ap, inl, Bool, true, false, List, [], ◌∷◌, ◌++◌, Failure, engine_state,
  Result, ok, err, if◌then◌else◌,
}
use bettter_nest_mq.Session.{
  Session, Resource, Binding, Task, EngineState, starting, ready, Startup, making, resolving,
  cleaning_up, settled, fulfilled, Cleaning, not_called, disposing, releasing, cleaned, Closing,
  open_, on_startup, on_workers, on_publisher, on_scheduler, on_cleanup, finished,
}
use bettter_nest_mq.Session.Checks.{primary_of}
use bettter_nest_mq.Session.Machine.Releasing.{call_cleanup}
use bettter_nest_mq.Session.Machine.Initializing.{fail, commit, next_task, when_ok}
use bettter_nest_mq.Session.Soundness.{
  is_called, is_closing, awaits_startup, is_releasing, Ordered, Awaited, OpenShows, Shows, Accounts,
  Sound, IsSound,
}
use bettter_nest_mq.Session.Soundness.Advancing.{
  IsSoundAt, Accounts-call_cleanup, call_cleanup-called,
}

pub Awaited-early : (co : Closing) (cl : Cleaning) → awaits_startup co ≡ true → Awaited co cl
Awaited-early open_ cl h = tt
Awaited-early on_startup cl h = tt
Awaited-early on_workers cl h = tt
Awaited-early on_publisher cl h = tt
Awaited-early on_scheduler cl h = tt
Awaited-early on_cleanup cl h = cc h
Awaited-early (finished f) cl h = cc h

pub releases-early : (co : Closing) → awaits_startup co ≡ true → is_releasing co ≡ false
releases-early open_ h = refl
releases-early on_startup h = refl
releases-early on_workers h = refl
releases-early on_publisher h = refl
releases-early on_scheduler h = refl
releases-early on_cleanup h = cc h
releases-early (finished f) h = cc h

pub Shows-map :
    (a b : Startup) (co : Closing) (state : EngineState)
    → (OpenShows a state → OpenShows b state)
    → Shows a co state
    → Shows b co state
Shows-map a b open_ state f h = f h
Shows-map a b on_startup state f h = h
Shows-map a b on_workers state f h = h
Shows-map a b on_publisher state f h = h
Shows-map a b on_scheduler state f h = h
Shows-map a b on_cleanup state f h = h
Shows-map a b (finished _) state f h = h

pub Shows-open :
    (st : Startup) (co : Closing) (state : EngineState)
    → is_closing co ≡ false
    → OpenShows st state
    → Shows st co state
Shows-open st open_ state e h = h
Shows-open st on_startup state e h = cc e
Shows-open st on_workers state e h = cc e
Shows-open st on_publisher state e h = cc e
Shows-open st on_scheduler state e h = cc e
Shows-open st on_cleanup state e h = cc e
Shows-open st (finished _) state e h = cc e

-- A session whose startup is at one of its awaits.
abbrev pub InFlight : Session → Type 0
InFlight s =
    ((is_called s.cleaning ≡ false) × (awaits_startup s.closing ≡ true))
    × Shows (making []) s.closing s.state
    × (s.stop_requested ≡ is_closing s.closing)
    × Accounts s.cleaning s.taken s.acquired s.released

pub as_flight :
    (st : Startup) (s : Session)
    → ((is_called s.cleaning ≡ false) × (awaits_startup s.closing ≡ true)
        → Ordered st s.cleaning s.closing)
    → (s.state ≡ starting → OpenShows st s.state)
    → InFlight s
    → IsSoundAt st s.cleaning s.closing s
as_flight st s f g (o, sh, stop, acc) = (
  f o,
  Awaited-early s.closing s.cleaning (o.1),
  Shows-map (making []) st s.closing s.state g sh,
  stop,
  acc,
)

pub in_flight :
    (st : Startup) (s : Session)
    → (Ordered st s.cleaning s.closing
        → (is_called s.cleaning ≡ false) × (awaits_startup s.closing ≡ true))
    → (OpenShows st s.state → s.state ≡ starting)
    → IsSoundAt st s.cleaning s.closing s
    → InFlight s
in_flight st s f g (o, aw, sh, stop, acc) =
    (f o, Shows-map st (making []) s.closing s.state g sh, stop, acc)

-- A startup that fails has the cleanup called.
pub fail-IsSound : (cause : Failure) (s : Session) → InFlight s → IsSound (fail cause s)
fail-IsSound cause s (o, sh, stop, acc) = (
  (call_cleanup-called s.cleaning, o.1),
  Awaited-early s.closing (call_cleanup s.cleaning) (o.1),
  Shows-map (making []) (cleaning_up (primary_of cause)) s.closing s.state (λ h. h) sh,
  stop,
  Accounts-call_cleanup s.cleaning s.taken s.acquired s.released acc,
)

pub unless_stopped-IsSound :
    (stop : Bool) (next : Session → Session) (s : Session)
    → s.stop_requested ≡ stop
    → InFlight s
    → (s.stop_requested ≡ false → IsSound (next s))
    → IsSound (if stop then fail engine_state s else next s)
unless_stopped-IsSound true next s e f h = fail-IsSound engine_state s f
unless_stopped-IsSound false next s e f h = h e

pub when_ok-IsSound :
    (m : Result (Unit {0})) (next : Session → Session) (s : Session)
    → InFlight s
    → IsSound (next s)
    → IsSound (when_ok m next s)
when_ok-IsSound (ok _) next s f h = h
when_ok-IsSound (err cause) next s f h = fail-IsSound cause s f

-- A startup that is through, of a session that was not closed, shows `ready`.
pub settled-Sound :
    (s : Session)
    → InFlight s
    → s.stop_requested ≡ false
    → Sound
        (settled fulfilled)
        s.cleaning
        s.closing
        ready
        s.stop_requested
        s.taken
        s.acquired
        s.released
settled-Sound s (o, sh, stop, acc) e = (
  o.0 ∙ sym (releases-early s.closing (o.1)),
  Awaited-early s.closing s.cleaning (o.1),
  Shows-open (settled fulfilled) s.closing ready (sym stop ∙ e) (inl refl),
  stop,
  acc,
)

pub next_task-IsSound :
    (bindings : List Binding) (found rest : List Task) (s : Session)
    → InFlight s
    → IsSound (next_task bindings found rest s)
unfolding next_task
next_task-IsSound bindings found [] s f =
    unless_stopped-IsSound s.stop_requested (commit found) s refl f (settled-Sound s f)
next_task-IsSound bindings found (t ∷ rest) s f =
    unless_stopped-IsSound s.stop_requested
      (λ s'. record s' { startup = resolving bindings found t rest }) s refl f
      (λ _. as_flight (resolving bindings found t rest) s (λ h. h) (λ h. h) f)

pub Accounts-taken :
    (cl : Cleaning) (x : Resource) (taken acquired released : List Resource)
    → is_called cl ≡ false
    → Accounts cl taken acquired released
    → Accounts cl (taken ++ x ∷ []) (acquired ++ x ∷ []) released
Accounts-taken not_called x taken acquired released e (h, k) = (ap (λ l. l ++ x ∷ []) h, k)
Accounts-taken disposing x taken acquired released e h = cc e
Accounts-taken (releasing r rest f) x taken acquired released e h = cc e
Accounts-taken (cleaned f) x taken acquired released e h = cc e
