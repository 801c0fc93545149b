-- ===== src/Session/Lifecycle.antt =====
-- What the states of a session promise to a client, as an abstract machine, and that the session
-- refines it.
pub mod Replies
pub mod Steps
pub mod Promises
use bettter_nest_mq.Prelude.{◌≡◌, refl, List, [], ◌∷◌, ◌++◌, ◌⊎◌, inl, inr}
use bettter_nest_mq.Session.{
  Session, EngineState, idle, disabled, starting, ready, stopping, closed, failed,
}

-- What a close ends.
pub data IsOpen : EngineState → Type 0 where
  idle_open : IsOpen idle
  starting_open : IsOpen starting
  disabled_open : IsOpen disabled
  ready_open : IsOpen ready
  failed_open : IsOpen failed

-- A session is started once, and the start ends once; then it is only ever closed.
pub data Transition : EngineState → EngineState → Type 0 where
  starts : Transition idle starting
  disables : Transition starting disabled
  gets_ready : Transition starting ready
  fails : Transition starting failed
  stops : {from : EngineState} → IsOpen from → Transition from stopping
  closes : Transition stopping closed

pub data Reaches : EngineState → EngineState → Type 0 where
  stays : {state : EngineState} → Reaches state state
  goes : {from via to : EngineState} → Reaches from via → Transition via to → Reaches from to

pub Reaches-trans : {a b c : EngineState} → Reaches a b → Reaches b c → Reaches a c
Reaches-trans h stays = h
Reaches-trans h (goes k t) = goes (Reaches-trans h k) t

abbrev pub IsOver : EngineState → Type 0
IsOver state = (state ≡ stopping) ⊎ (state ≡ closed)

Transition-IsOver : {a b : EngineState} → Transition a b → IsOver a → IsOver b
Transition-IsOver starts (inl e) = cc e
Transition-IsOver starts (inr e) = cc e
Transition-IsOver disables (inl e) = cc e
Transition-IsOver disables (inr e) = cc e
Transition-IsOver gets_ready (inl e) = cc e
Transition-IsOver gets_ready (inr e) = cc e
Transition-IsOver fails (inl e) = cc e
Transition-IsOver fails (inr e) = cc e
Transition-IsOver (stops h) k = inl refl
Transition-IsOver closes k = inr refl

pub Reaches-IsOver : {a b : EngineState} → Reaches a b → IsOver a → IsOver b
Reaches-IsOver stays h = h
Reaches-IsOver (goes k t) h = Transition-IsOver t (Reaches-IsOver k h)
