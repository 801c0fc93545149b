-- ===== src/Session/Soundness/Activating.antt =====
-- The activations of the session leave the parts alone that its invariant is about: what holds
-- of these parts holds after an activation.
use bettter_nest_mq.Prelude.{
  Bool, true, false, List, [], ◌∷◌, ◌++◌, Text, engine_state, err, if◌then◌else◌,
}
use bettter_nest_mq.Session.{
  Setup, Session, Resource, EngineState, Startup, Cleaning, Closing, Activation, inactive,
  recovering, starting_up, activated,
}
use bettter_nest_mq.Session.Machine.Initializing.{
  Reply, resource, descriptor, answered, refused, thrown,
}
use bettter_nest_mq.Session.Machine.Activating.{
  is_running, set_workers, plans_of, next_worker, next_recovery, activate, on_activate_workers,
  on_workers_reply, on_activate_publisher, on_publisher_reply, on_activate_scheduler,
  on_scheduler_reply,
}

-- The parts: all of the session but what the activations set.
abbrev pub Parts : Type 1
Parts =
    Startup
    → Cleaning
    → Closing
    → EngineState
    → Bool
    → List Resource
    → List Resource
    → List Resource
    → Bool
    → List (List Text)
    → Type 0

-- The names in the maps of stores that are ready.
abbrev pub ready_names : Session → List (List Text)
ready_names s =
    s.ready_jobs ∷ s.ready_events ∷ s.ready_flows ∷ s.ready_schedules ∷ s.ready_outboxes ∷ []

abbrev pub Of : Parts → Session → Type 0
Of P s =
    P s.startup s.cleaning s.closing s.state s.stop_requested s.taken s.acquired s.released
      s.has_runtime (ready_names s)

module _ (P : Parts) where
  abbrev Holds : Session → Type 0
  Holds = Of P

  pub branch-keeps : (b : Bool) (s t : Session) → Holds s → Holds t → Holds (if b then s else t)
  branch-keeps true s t h k = h
  branch-keeps false s t h k = k

  next_worker-keeps : (rest : List Text) (s : Session) → Holds s → Holds (next_worker rest s)
  unfolding next_worker
  next_worker-keeps [] s h = h
  next_worker-keeps (p ∷ rest) s h = h

  module _ (setup : Setup) where
    next_recovery-keeps :
        (rest : List Text) (s : Session) → Holds s → Holds (next_recovery setup rest s)
    unfolding next_recovery
    next_recovery-keeps [] s h = next_worker-keeps setup.plans s h
    next_recovery-keeps (p ∷ rest) s h = h

    activate-keeps : (plans : List Text) (s : Session) → Holds s → Holds (activate setup plans s)
    unfolding activate
    activate-keeps [] s h = h
    activate-keeps (p ∷ rest) s h =
        branch-keeps (is_running s) (next_recovery setup (p ∷ rest) s)
          (set_workers (err engine_state) s) (next_recovery-keeps (p ∷ rest) s h) h

    pub on_activate_workers-keeps :
        (a : Activation) (s : Session) → Holds s → Holds (on_activate_workers setup a s)
    unfolding on_activate_workers
    on_activate_workers-keeps inactive s h = activate-keeps (plans_of s.startup setup.plans) s h
    on_activate_workers-keeps (recovering p rest) s h = h
    on_activate_workers-keeps (starting_up p rest) s h = h
    on_activate_workers-keeps (activated result) s h = h

    pub on_workers_reply-keeps :
        (a : Activation) (reply : Reply) (s : Session)
        → Holds s
        → Holds (on_workers_reply setup a reply s)
    unfolding on_workers_reply
    on_workers_reply-keeps (recovering p rest) answered s h = next_recovery-keeps rest s h
    on_workers_reply-keeps (recovering p rest) (thrown cause) s h = h
    on_workers_reply-keeps (recovering p rest) refused s h = h
    on_workers_reply-keeps (recovering p rest) (resource r) s h = h
    on_workers_reply-keeps (recovering p rest) (descriptor d) s h = h
    on_workers_reply-keeps (starting_up p rest) answered s h =
        next_worker-keeps rest (record s { running_workers = s.running_workers ++ p ∷ [] }) h
    on_workers_reply-keeps (starting_up p rest) refused s h = h
    on_workers_reply-keeps (starting_up p rest) (thrown cause) s h = h
    on_workers_reply-keeps (starting_up p rest) (resource r) s h = h
    on_workers_reply-keeps (starting_up p rest) (descriptor d) s h = h
    on_workers_reply-keeps inactive reply s h = h
    on_workers_reply-keeps (activated result) reply s h = h

  pub on_activate_publisher-keeps :
      (a : Activation) (s : Session) → Holds s → Holds (on_activate_publisher a s)
  unfolding on_activate_publisher
  on_activate_publisher-keeps inactive s h = h
  on_activate_publisher-keeps (recovering p rest) s h = h
  on_activate_publisher-keeps (starting_up p rest) s h = h
  on_activate_publisher-keeps (activated result) s h = h

  pub on_publisher_reply-keeps :
      (a : Activation) (reply : Reply) (s : Session)
      → Holds s
      → Holds (on_publisher_reply a reply s)
  unfolding on_publisher_reply
  on_publisher_reply-keeps inactive reply s h = h
  on_publisher_reply-keeps (recovering p rest) reply s h = h
  on_publisher_reply-keeps (activated result) reply s h = h
  on_publisher_reply-keeps (starting_up p rest) answered s h = h
  on_publisher_reply-keeps (starting_up p rest) refused s h = h
  on_publisher_reply-keeps (starting_up p rest) (thrown cause) s h = h
  on_publisher_reply-keeps (starting_up p rest) (resource r) s h = h
  on_publisher_reply-keeps (starting_up p rest) (descriptor d) s h = h

  pub on_activate_scheduler-keeps :
      (a : Activation) (s : Session) → Holds s → Holds (on_activate_scheduler a s)
  unfolding on_activate_scheduler
  on_activate_scheduler-keeps inactive s h = h
  on_activate_scheduler-keeps (recovering p rest) s h = h
  on_activate_scheduler-keeps (starting_up p rest) s h = h
  on_activate_scheduler-keeps (activated result) s h = h

  pub on_scheduler_reply-keeps :
      (a : Activation) (reply : Reply) (s : Session)
      → Holds s
      → Holds (on_scheduler_reply a reply s)
  unfolding on_scheduler_reply
  on_scheduler_reply-keeps inactive reply s h = h
  on_scheduler_reply-keeps (recovering p rest) reply s h = h
  on_scheduler_reply-keeps (activated result) reply s h = h
  on_scheduler_reply-keeps (starting_up p rest) answered s h = h
  on_scheduler_reply-keeps (starting_up p rest) refused s h = h
  on_scheduler_reply-keeps (starting_up p rest) (thrown cause) s h = h
  on_scheduler_reply-keeps (starting_up p rest) (resource r) s h = h
  on_scheduler_reply-keeps (starting_up p rest) (descriptor d) s h = h
