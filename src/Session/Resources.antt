-- ===== src/Session/Resources.antt =====
-- The resources of the session: what was acquired is released, in reverse, before it is closed.
use mathlib.Core.Path.{subst}
use bettter_nest_mq.Prelude.{◌≡◌, List, [], reverse, Failure}
use bettter_nest_mq.Session.{
  Setup, Session, created, Resource, EngineState, closed, Cleaning, cleaned, Closing, finished,
}
use bettter_nest_mq.Session.Machine.{Event, run}
use bettter_nest_mq.Session.Soundness.{Accounts, Sound, created-IsSound}
use bettter_nest_mq.Session.Soundness.Runs.{run-IsSound}

-- A session whose close is over has called every release.
abbrev pub IsReleased : Session → Type 0
IsReleased s = (s.state ≡ closed) × (s.released ≡ reverse s.taken) × (s.acquired ≡ [])

released_of :
    (failures : List Failure) (cl : Cleaning) (state : EngineState)
    (taken acquired released : List Resource)
    → cl ≡ cleaned failures
    → state ≡ closed
    → Accounts cl taken acquired released
    → (state ≡ closed) × (released ≡ reverse taken) × (acquired ≡ [])
released_of failures cl state taken acquired released e shown acc =
    let (r, a) = subst (λ c. Accounts c taken acquired released) e acc in (shown, r, a)

pub IsSound-released :
    (co : Closing) (failures : List Failure) (s : Session)
    → co ≡ finished failures
    → Sound s.startup s.cleaning co s.state s.stop_requested s.taken s.acquired s.released
    → IsReleased s
IsSound-released co failures s e h =
    let (o, aw, sh, stop, acc) =
      subst
        (λ c. Sound s.startup s.cleaning c s.state s.stop_requested s.taken s.acquired s.released) e
        h in
    released_of failures s.cleaning s.state s.taken s.acquired s.released aw sh acc

-- However a session is used and whatever the calls it awaits reply, in whatever order: if its
-- `close` has come to an end, it shows `closed`, every resource that it ever acquired was released
-- exactly once, the last one first, and it holds none.
pub closed_releases_all :
    (setup : Setup) (events : List Event) (failures : List Failure)
    → (run setup created events).closing ≡ finished failures
    → IsReleased (run setup created events)
closed_releases_all setup events failures e =
    IsSound-released (run setup created events).closing failures (run setup created events) e
      (run-IsSound setup created events created-IsSound)
