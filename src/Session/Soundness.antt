-- ===== src/Session/Soundness.antt =====
-- An invariant of EngineSession: how the startup, the cleanup and the closing agree with the state
-- that is shown and with the resources that were taken.
pub mod Advancing
pub mod Flights
pub mod Starting
pub mod Activating
pub mod Runs
use bettter_nest_mq.Prelude.{
  ◌≡◌, refl, ◌⊎◌, inl, inr, Bool, true, false, List, [], ◌∷◌, ◌++◌, reverse, Failure, Result, ok,
  err, if◌then◌else◌,
}
use bettter_nest_mq.Session.{
  Setup, Session, created, Resource, EngineState, idle, disabled, starting, ready, stopping, closed,
  failed, Outcome, fulfilled, Startup, not_started, acquiring, making, resolving, probing,
  cleaning_up, settled, Cleaning, not_called, disposing, releasing, cleaned, Closing, open_,
  on_startup, on_workers, on_publisher, on_scheduler, on_cleanup, finished,
}
use bettter_nest_mq.Session.Machine.{startup_outcome}

abbrev pub is_called : Cleaning → Bool
is_called not_called = false
is_called _ = true

abbrev pub is_cleaned : Cleaning → Bool
is_cleaned (cleaned _) = true
is_cleaned _ = false

abbrev pub is_closing : Closing → Bool
is_closing open_ = false
is_closing _ = true

abbrev pub awaits_startup : Closing → Bool
awaits_startup open_ = true
awaits_startup on_startup = true
awaits_startup _ = false

abbrev pub is_releasing : Closing → Bool
is_releasing on_cleanup = true
is_releasing (finished _) = true
is_releasing _ = false

-- The cleanup is called by a startup that failed, or by a close once the startup is over.
abbrev pub OrderedBy :
    Startup → (is_called is_cleaned : Bool) → (awaits_startup is_releasing : Bool) → Type 0
OrderedBy not_started called done awaits at_release = called ≡ at_release
OrderedBy (settled fulfilled) called done awaits at_release = called ≡ at_release
OrderedBy (settled _) called done awaits at_release = done ≡ true
OrderedBy (cleaning_up _) called done awaits at_release = (called ≡ true) × (awaits ≡ true)
OrderedBy _ called done awaits at_release = (called ≡ false) × (awaits ≡ true)

abbrev pub Ordered : Startup → Cleaning → Closing → Type 0
Ordered st cl co = OrderedBy st (is_called cl) (is_cleaned cl) (awaits_startup co) (is_releasing co)

abbrev pub Awaited : Closing → Cleaning → Type 0
Awaited on_cleanup cl = is_called cl ≡ true
Awaited (finished failures) cl = cl ≡ cleaned failures
Awaited _ cl = Unit

abbrev pub OpenShows : Startup → EngineState → Type 0
OpenShows not_started state = state ≡ idle
OpenShows (settled fulfilled) state = (state ≡ ready) ⊎ (state ≡ disabled)
OpenShows (settled _) state = state ≡ failed
OpenShows _ state = state ≡ starting

abbrev pub Shows : Startup → Closing → EngineState → Type 0
Shows startup open_ state = OpenShows startup state
Shows startup (finished _) state = state ≡ closed
Shows startup _ state = state ≡ stopping

-- Which of the taken resources are held and which are released.
abbrev pub Accounts : Cleaning → List Resource → List Resource → List Resource → Type 0
Accounts (releasing next rest _) taken acquired released = released ++ next ∷ rest ≡ reverse taken
Accounts (cleaned _) taken acquired released = (released ≡ reverse taken) × (acquired ≡ [])
Accounts _ taken acquired released = (acquired ≡ taken) × (released ≡ [])

-- What all steps keep; the parts that the code reads are arguments.
abbrev pub Sound :
    Startup
    → Cleaning
    → Closing
    → EngineState
    → Bool
    → List Resource
    → List Resource
    → List Resource
    → Type 0
Sound startup cleaning closing state stop_requested taken acquired released =
    Ordered startup cleaning closing
    × Awaited closing cleaning
    × Shows startup closing state
    × (stop_requested ≡ is_closing closing)
    × Accounts cleaning taken acquired released

abbrev pub IsSound : Session → Type 0
IsSound s =
    Sound s.startup s.cleaning s.closing s.state s.stop_requested s.taken s.acquired s.released

pub created-IsSound : IsSound created
created-IsSound = (refl, tt, refl, refl, (refl, refl))

pub Ordered-startup_outcome :
    (primary : Failure) (failures : List Failure) (cl : Cleaning) (co : Closing)
    → is_cleaned cl ≡ true
    → Ordered (settled (startup_outcome primary failures)) cl co
Ordered-startup_outcome primary [] cl co h = h
Ordered-startup_outcome primary (f ∷ failures) cl co h = h

pub OpenShows-startup_outcome :
    (primary : Failure) (failures : List Failure)
    → OpenShows (settled (startup_outcome primary failures)) failed
OpenShows-startup_outcome primary [] = refl
OpenShows-startup_outcome primary (f ∷ failures) = refl

pub branch-IsSound :
    (b : Bool) (s t : Session) → IsSound s → IsSound t → IsSound (if b then s else t)
branch-IsSound true s t h k = h
branch-IsSound false s t h k = k
