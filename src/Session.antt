-- ===== src/Session.antt =====
-- EngineSession of engine/engine-session.ts, the owner of an application's runtime: its state.
-- What is given to the constructor and to `start` is a `Setup`. The engine's stores, layers,
-- handles and the resources of the connections are third party: they are named, by the connection
-- or by a number, and what they do is what they reply.
pub mod Checks
pub mod Machine
pub mod Soundness
pub mod Access
pub mod Resources
pub mod Finality
pub mod Completion
pub mod Readiness
pub mod Lifecycle
use bettter_nest_mq.Prelude.{ℕ, Bool, true, false, List, [], ◌∷◌, Text, Option, Failure, Result}

-- MqEngineState
pub data EngineState : Type 0 where
  idle disabled starting ready stopping closed failed : EngineState

-- connectionDefinition: the storage boundary and the capabilities that are required.
pub record Definition : Type 0 where
  pub boundary : Text
  pub scope : Text
  pub requirements : List Text

pub record Connection : Type 0 where
  pub name : Text
  pub definition : Definition

-- AcquiredConnection: which stores it has a factory for, and its number.
pub record Resource : Type 0 where
  pub id : ℕ
  pub flow_reads : Bool
  pub events : Bool
  pub flows : Bool
  pub schedules : Bool
  pub outbox : Bool

-- A descriptor of a store, as far as the session reads it. `compatible`: the engine's own check
-- of a job store's protocol passes.
pub record Descriptor : Type 0 where
  pub compatible : Bool
  pub capabilities : List Text
  pub extension : Text
  pub extension_version : ℕ
  pub job_store_protocol_version : ℕ
  pub protocol_version : ℕ
  pub migration_status : Text

pub data StoreKind : Type 0 where
  jobs events flows schedules outboxes : StoreKind

-- A store that startup resolves and probes.
pub record Task : Type 0 where
  pub kind : StoreKind
  pub name : Text
  pub requirements : List Text

pub record Binding : Type 0 where
  pub connection : Connection
  pub resource : Resource

pub record Setup : Type 0 where
  pub configured : Option (List Connection)
  -- the queues' connections, the worker plans, and the connections of the declared schedules and
  -- of the parents and children of the declared flows
  pub queues : List Text
  pub plans : List Text
  pub scheduled : List Text
  pub flow_participants : List Text
  pub scheduler_enabled : Bool
  pub publisher_enabled : Bool

-- What a startup ends with.
pub data Outcome : Type 0 where
  fulfilled : Outcome
  rejected : Failure → Outcome
  -- AggregateError: the primary failure and those of the cleanup
  aggregate : Failure → List Failure → Outcome

-- The await at which `initialize` stands, with what is still to do. `found` are the stores that
-- passed, in order.
pub data Startup : Type 0 where
  not_started : Startup
  acquiring : (bindings : List Binding) (next : Connection) (rest : List Connection) → Startup
  making : (bindings : List Binding) → Startup
  resolving probing :
      (bindings : List Binding) (found : List Task) (next : Task) (rest : List Task) → Startup
  cleaning_up : (primary : Failure) → Startup
  settled : Outcome → Startup

-- releaseResources, which runs once.
pub data Cleaning : Type 0 where
  not_called disposing : Cleaning
  releasing : (next : Resource) (rest : List Resource) (failures : List Failure) → Cleaning
  cleaned : (failures : List Failure) → Cleaning

-- activate, activatePublisher and startScheduler; the latter two resolve one handle.
pub data Activation : Type 0 where
  inactive : Activation
  recovering : (next : Text) (rest : List Text) → Activation
  starting_up : (next : Text) (rest : List Text) → Activation
  activated : Result (Unit {0}) → Activation

-- finishClose: what it waits for.
pub data Closing : Type 0 where
  open_ on_startup on_workers on_publisher on_scheduler on_cleanup : Closing
  finished : (failures : List Failure) → Closing

pub record Session : Type 0 where
  pub state : EngineState
  pub stop_requested : Bool
  pub startup : Startup
  pub cleaning : Cleaning
  pub closing : Closing
  pub workers : Activation
  pub publisher : Activation
  pub scheduler : Activation
  pub has_runtime : Bool
  pub has_scheduler : Bool
  pub has_publisher : Bool
  pub acquired : List Resource
  pub flow_readers : List Text
  -- the names in the maps `ready`, `readyEvents`, `readyFlows`, `readySchedules`, `readyOutboxes`
  pub ready_jobs : List Text
  pub ready_events : List Text
  pub ready_flows : List Text
  pub ready_schedules : List Text
  pub ready_outboxes : List Text
  pub snapshots : List Text
  pub running_workers : List Text
  pub running_publisher : Bool
  pub running_scheduler : Bool
  pub diagnostics : List Failure
  -- what was acquired and what was released, in order
  pub taken : List Resource
  pub released : List Resource

abbrev pub created : Session
created = record {
  state = idle;
  stop_requested = false;
  startup = not_started;
  cleaning = not_called;
  closing = open_;
  workers = inactive;
  publisher = inactive;
  scheduler = inactive;
  has_runtime = false;
  has_scheduler = false;
  has_publisher = false;
  acquired = [];
  flow_readers = [];
  ready_jobs = [];
  ready_events = [];
  ready_flows = [];
  ready_schedules = [];
  ready_outboxes = [];
  snapshots = [];
  running_workers = [];
  running_publisher = false;
  running_scheduler = false;
  diagnostics = [];
  taken = [];
  released = [];
}
