-- ===== src/Session/Soundness/Advancing.antt =====
-- `advance` of the session, which resumes what waits, keeps the invariant.
use bettter_nest_mq.Prelude.{◌≡◌, refl, ap, Bool, true, false, List, Failure, if◌then◌else◌}
use bettter_nest_mq.Session.{
  Session, Resource, EngineState, stopping, failed, Startup, not_started, acquiring, making,
  resolving, probing, cleaning_up, settled, fulfilled, rejected, aggregate, Cleaning, not_called,
  disposing, releasing, cleaned, Closing, open_, on_startup, on_workers, on_publisher, on_scheduler,
  on_cleanup, finished,
}
use bettter_nest_mq.Session.Machine.{
  startup_outcome, wake_startup, is_startup_over, is_activation_over, await_cleanup, begin_cleanup,
  await_scheduler, await_publisher, await_workers, await_startup, wake_closing, advance,
}
use bettter_nest_mq.Session.Machine.Releasing.{call_cleanup}
use bettter_nest_mq.Session.Soundness.{
  is_called, is_cleaned, is_closing, Ordered, Shows, Accounts, Sound, IsSound,
  Ordered-startup_outcome, OpenShows-startup_outcome, branch-IsSound,
}

-- What finishClose needs once the startup is over.
abbrev pub IsStopping : Session → Type 0
IsStopping s =
    Ordered s.startup s.cleaning on_workers
    × (s.state ≡ stopping)
    × (s.stop_requested ≡ true)
    × Accounts s.cleaning s.taken s.acquired s.released

pub call_cleanup-called : (cl : Cleaning) → is_called (call_cleanup cl) ≡ true
call_cleanup-called not_called = refl
call_cleanup-called disposing = refl
call_cleanup-called (releasing r rest f) = refl
call_cleanup-called (cleaned f) = refl

call_cleanup-cleaned : (cl : Cleaning) → is_cleaned cl ≡ true → is_cleaned (call_cleanup cl) ≡ true
call_cleanup-cleaned not_called h = cc h
call_cleanup-cleaned disposing h = cc h
call_cleanup-cleaned (releasing r rest f) h = cc h
call_cleanup-cleaned (cleaned f) h = refl

Ordered-call_cleanup :
    (st : Startup) (cl : Cleaning)
    → Ordered st cl on_workers
    → Ordered st (call_cleanup cl) on_cleanup
Ordered-call_cleanup not_started cl h = call_cleanup-called cl
Ordered-call_cleanup (settled fulfilled) cl h = call_cleanup-called cl
Ordered-call_cleanup (settled (rejected e)) cl h = call_cleanup-cleaned cl h
Ordered-call_cleanup (settled (aggregate e es)) cl h = call_cleanup-cleaned cl h
Ordered-call_cleanup (acquiring bs c rest) cl h = cc (h.1)
Ordered-call_cleanup (making bs) cl h = cc (h.1)
Ordered-call_cleanup (resolving bs f t rest) cl h = cc (h.1)
Ordered-call_cleanup (probing bs f t rest) cl h = cc (h.1)
Ordered-call_cleanup (cleaning_up e) cl h = cc (h.1)

pub Accounts-call_cleanup :
    (cl : Cleaning) (taken acquired released : List Resource)
    → Accounts cl taken acquired released
    → Accounts (call_cleanup cl) taken acquired released
Accounts-call_cleanup not_called taken acquired released h = h
Accounts-call_cleanup disposing taken acquired released h = h
Accounts-call_cleanup (releasing r rest f) taken acquired released h = h
Accounts-call_cleanup (cleaned f) taken acquired released h = h

-- The invariant, for a session whose close is at `co`.
abbrev pub IsSoundAt : Startup → Cleaning → Closing → Session → Type 0
IsSoundAt st cl co s = Sound st cl co s.state s.stop_requested s.taken s.acquired s.released

await_cleanup-IsSound :
    (cl : Cleaning) (s : Session)
    → s.cleaning ≡ cl
    → IsSound s
    → IsSoundAt s.startup s.cleaning on_cleanup s
    → IsSound (await_cleanup cl s)
unfolding await_cleanup
await_cleanup-IsSound not_called s e h k = h
await_cleanup-IsSound disposing s e h k = h
await_cleanup-IsSound (releasing r rest f) s e h k = h
await_cleanup-IsSound (cleaned f) s e h (o, aw, sh, stop, acc) = (o, e, refl, stop, acc)

begin_cleanup-IsSound : (s : Session) → IsStopping s → IsSound (begin_cleanup s)
unfolding begin_cleanup
begin_cleanup-IsSound s (o, sh, stop, acc) =
    let begun = record s { closing = on_cleanup; cleaning = call_cleanup s.cleaning } in
    let k : IsSound begun = (
      Ordered-call_cleanup s.startup s.cleaning o,
      call_cleanup-called s.cleaning,
      sh,
      stop,
      Accounts-call_cleanup s.cleaning s.taken s.acquired s.released acc,
    ) in
    await_cleanup-IsSound begun.cleaning begun refl k k

await_scheduler-IsSound : (s : Session) → IsStopping s → IsSound (await_scheduler s)
unfolding await_scheduler
await_scheduler-IsSound s (o, sh, stop, acc) =
    branch-IsSound (is_activation_over s.scheduler) (begin_cleanup s)
      (record s { closing = on_scheduler }) (begin_cleanup-IsSound s (o, sh, stop, acc))
      (o, tt, sh, stop, acc)

await_publisher-IsSound : (s : Session) → IsStopping s → IsSound (await_publisher s)
unfolding await_publisher
await_publisher-IsSound s (o, sh, stop, acc) =
    branch-IsSound (is_activation_over s.publisher) (await_scheduler s)
      (record s { closing = on_publisher }) (await_scheduler-IsSound s (o, sh, stop, acc))
      (o, tt, sh, stop, acc)

await_workers-IsSound : (s : Session) → IsStopping s → IsSound (await_workers s)
unfolding await_workers
await_workers-IsSound s (o, sh, stop, acc) =
    branch-IsSound (is_activation_over s.workers) (await_publisher s)
      (record s { closing = on_workers }) (await_publisher-IsSound s (o, sh, stop, acc))
      (o, tt, sh, stop, acc)

-- A startup that is over lets a close go on.
Ordered-over :
    (st : Startup) (cl : Cleaning)
    → is_startup_over st ≡ true
    → Ordered st cl on_startup
    → Ordered st cl on_workers
Ordered-over not_started cl e h = h
Ordered-over (settled fulfilled) cl e h = h
Ordered-over (settled (rejected f)) cl e h = h
Ordered-over (settled (aggregate f fs)) cl e h = h
Ordered-over (acquiring bs c rest) cl e h = cc e
Ordered-over (making bs) cl e h = cc e
Ordered-over (resolving bs f t rest) cl e h = cc e
Ordered-over (probing bs f t rest) cl e h = cc e
Ordered-over (cleaning_up f) cl e h = cc e

await_startup-IsSound :
    (over : Bool) (s : Session)
    → is_startup_over s.startup ≡ over
    → IsSoundAt s.startup s.cleaning on_startup s
    → IsSound (if over then await_workers s else record s { closing = on_startup })
await_startup-IsSound true s e (o, aw, sh, stop, acc) =
    await_workers-IsSound s (Ordered-over s.startup s.cleaning e o, sh, stop, acc)
await_startup-IsSound false s e h = h

wake_closing-IsSound :
    (co : Closing) (s : Session)
    → IsSound s
    → IsSoundAt s.startup s.cleaning co s
    → IsSound (wake_closing co s)
unfolding wake_closing await_startup
wake_closing-IsSound open_ s h k = h
wake_closing-IsSound on_startup s h k = await_startup-IsSound (is_startup_over s.startup) s refl k
wake_closing-IsSound on_workers s h (o, aw, sh, stop, acc) =
    await_workers-IsSound s (o, sh, stop, acc)
wake_closing-IsSound on_publisher s h (o, aw, sh, stop, acc) =
    await_publisher-IsSound s (o, sh, stop, acc)
wake_closing-IsSound on_scheduler s h (o, aw, sh, stop, acc) =
    await_scheduler-IsSound s (o, sh, stop, acc)
wake_closing-IsSound on_cleanup s h k = await_cleanup-IsSound s.cleaning s refl h k
wake_closing-IsSound (finished f) s h k = h

-- What is shown when a failed startup is over, unless the session is stopping.
Shows-settled :
    (co : Closing) (primary : Failure) (failures : List Failure) (state : EngineState) (stop : Bool)
    → stop ≡ is_closing co
    → Shows (cleaning_up primary) co state
    → Shows (settled (startup_outcome primary failures)) co (if stop then state else failed)
Shows-settled open_ primary fs state true e h = cc e
Shows-settled open_ primary fs state false e h = OpenShows-startup_outcome primary fs
Shows-settled on_startup primary fs state true e h = h
Shows-settled on_workers primary fs state true e h = h
Shows-settled on_publisher primary fs state true e h = h
Shows-settled on_scheduler primary fs state true e h = h
Shows-settled on_cleanup primary fs state true e h = h
Shows-settled (finished f) primary fs state true e h = h
Shows-settled on_startup primary fs state false e h = cc e
Shows-settled on_workers primary fs state false e h = cc e
Shows-settled on_publisher primary fs state false e h = cc e
Shows-settled on_scheduler primary fs state false e h = cc e
Shows-settled on_cleanup primary fs state false e h = cc e
Shows-settled (finished f) primary fs state false e h = cc e

pub wake_startup-IsSound :
    (st : Startup) (cl : Cleaning) (s : Session)
    → s.cleaning ≡ cl
    → IsSound s
    → IsSoundAt st s.cleaning s.closing s
    → IsSound (wake_startup st cl s)
unfolding wake_startup
wake_startup-IsSound (cleaning_up primary) (cleaned fs) s e h (o, aw, sh, stop, acc) = (
  Ordered-startup_outcome primary fs s.cleaning s.closing (ap is_cleaned e),
  aw,
  Shows-settled s.closing primary fs s.state s.stop_requested stop sh,
  stop,
  acc,
)
wake_startup-IsSound (cleaning_up primary) not_called s e h k = h
wake_startup-IsSound (cleaning_up primary) disposing s e h k = h
wake_startup-IsSound (cleaning_up primary) (releasing r rest f) s e h k = h
wake_startup-IsSound not_started cl s e h k = h
wake_startup-IsSound (settled o) cl s e h k = h
wake_startup-IsSound (acquiring bs c rest) cl s e h k = h
wake_startup-IsSound (making bs) cl s e h k = h
wake_startup-IsSound (resolving bs f t rest) cl s e h k = h
wake_startup-IsSound (probing bs f t rest) cl s e h k = h

pub advance-IsSound : (s : Session) → IsSound s → IsSound (advance s)
unfolding advance
advance-IsSound s h =
    let k = wake_startup-IsSound s.startup s.cleaning s refl h h in
    wake_closing-IsSound (wake_startup s.startup s.cleaning s).closing _ k k
