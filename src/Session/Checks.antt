-- ===== src/Session/Checks.antt =====
-- The checks of `initialize` that need no reply, and those of a store's descriptor.
use bettter_nest_mq.Prelude.{
  Option, none, some, Bool, ◌&&◌, ◌||◌, List, [], ◌∷◌, ◌++◌, map, any, all, filter, Text, codes,
  text_eq, ◌==◌, Failure, flow, FlowReason, schedule, SchedulePhase, connection, ConnectionPhase,
  outbox, OutboxOperation, engine_state, Result, ok, ◌>>◌, require, reject_if,
}
use bettter_nest_mq.Policies.{require_name}
use bettter_nest_mq.Session.{
  Definition, Connection, Resource, Descriptor, StoreKind, jobs, events, flows, schedules, outboxes,
  Task, Binding, Setup,
}

abbrev pub member : Text → List Text → Bool
member name = any (text_eq name)

abbrev pub names_of : List Connection → List Text
names_of = map (λ c. c.name)

-- The constructor's connections: each has a name.
unfoldable pub check_names : List Connection → Result (Unit {0})
check_names [] = ok tt
check_names (c ∷ connections) = require_name c.name >> check_names connections

unfoldable pub copy_connections : Option (List Connection) → Result (Option (List Connection))
copy_connections none = ok none
copy_connections (some connections) = check_names connections >> ok (some connections)

-- Every queue names a configured connection.
abbrev pub check_queues : List Connection → List Text → Result (Unit {0})
check_queues connections queues =
    require (all (λ q. member q (names_of connections)) queues)
      (connection ConnectionPhase.configuration)

abbrev pub same_boundary : Definition → Definition → Bool
same_boundary a b = text_eq a.boundary b.boundary && text_eq a.scope b.scope

-- No storage boundary is configured twice; `previous` are the definitions so far.
unfoldable pub check_boundaries : List Definition → List Connection → Result (Unit {0})
check_boundaries previous [] = ok tt
check_boundaries previous (c ∷ connections) =
    reject_if (any (λ p. same_boundary p c.definition) previous)
      (connection ConnectionPhase.configuration)
    >> check_boundaries (previous ++ c.definition ∷ []) connections

abbrev pub check_setup : List Connection → List Text → Result (Unit {0})
check_setup connections queues = check_queues connections queues >> check_boundaries [] connections

-- The connections that have a store of some kind.
abbrev pub with_store_of : (Resource → Bool) → List Binding → List Binding
with_store_of has = filter (λ b. has b.resource)

abbrev pub binding_names : List Binding → List Text
binding_names = map (λ b. b.connection.name)

-- Declared flows and schedules need a store on each of their connections.
abbrev pub check_participants : Setup → List Binding → Result (Unit {0})
check_participants setup bindings =
    require
      (all (λ n. member n (binding_names (with_store_of (λ r. r.flows) bindings)))
        setup.flow_participants)
      (flow FlowReason.unavailable)
    >> require
        (all (λ n. member n (binding_names (with_store_of (λ r. r.schedules) bindings)))
          setup.scheduled)
        (schedule SchedulePhase.unavailable)

abbrev pub task : StoreKind → Binding → Task
task kind b = record {
  kind = kind;
  name = b.connection.name;
  requirements = b.connection.definition.requirements;
}

-- The stores, in the order in which startup resolves them.
unfoldable pub tasks : List Binding → List Task
tasks bindings =
    map (task jobs) bindings
    ++ (map (task events) (with_store_of (λ r. r.events) bindings)
        ++ (map (task flows) (with_store_of (λ r. r.flows) bindings)
            ++ (map (task schedules) (with_store_of (λ r. r.schedules) bindings)
                ++ map (task outboxes) (with_store_of (λ r. r.outbox) bindings))))

-- A store could not be resolved.
abbrev pub unresolved : StoreKind → Failure
unresolved jobs = connection ConnectionPhase.acquire
unresolved events = connection ConnectionPhase.acquire
unresolved flows = flow FlowReason.unavailable
unresolved schedules = schedule SchedulePhase.unavailable
unresolved outboxes = outbox OutboxOperation.unavailable

-- A probe was answered with an error.
abbrev pub unprobed : StoreKind → Failure
unprobed jobs = connection ConnectionPhase.probe
unprobed events = connection ConnectionPhase.probe
unprobed flows = flow FlowReason.unavailable
unprobed schedules = schedule SchedulePhase.unavailable
unprobed outboxes = outbox OutboxOperation.unavailable

abbrev pub speaks : Text → Descriptor → Bool
speaks extension d =
    text_eq d.extension extension
    && (d.extension_version == 1)
    && (d.job_store_protocol_version == 1)

unfoldable pub check_descriptor : Task → Descriptor → Result (Unit {0})
check_descriptor t d = elim t.kind [
  | jobs ↦
      require (d.compatible && all (λ c. member c d.capabilities) t.requirements)
        (connection ConnectionPhase.protocol)
  | events ↦
      require (speaks (codes "better-effect-mq/events") d) (connection ConnectionPhase.protocol)
  | flows ↦
      require
        ((d.protocol_version == 2)
          && (text_eq d.migration_status (codes "complete")
              || text_eq d.migration_status (codes "not-required")))
        (flow FlowReason.unavailable)
  | schedules ↦
      require (speaks (codes "better-effect-mq/schedules") d) (schedule SchedulePhase.unavailable)
  | outboxes ↦ require (d.protocol_version == 1) (outbox OutboxOperation.configuration)
]

-- The catch of `initialize`: what is none of the facade's exceptions is wrapped.
abbrev pub primary_of : Failure → Failure
primary_of (connection phase) = connection phase
primary_of engine_state = engine_state
primary_of (flow reason) = flow reason
primary_of (schedule phase) = schedule phase
primary_of (outbox operation) = outbox operation
primary_of _ = connection ConnectionPhase.acquire
