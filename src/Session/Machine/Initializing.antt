-- ===== src/Session/Machine/Initializing.antt =====
-- `start` and `initialize` of EngineSession.
use bettter_nest_mq.Prelude.{
  Bool, true, false, ◌&&◌, List, [], ◌∷◌, ◌++◌, map, filter, Text, Option, none, some, Failure,
  engine_state, Result, ok, err, if◌then◌else◌,
}
use bettter_nest_mq.Session.{
  Setup, Session, disabled, starting, ready, Connection, Resource, Descriptor, Binding, Task,
  StoreKind, jobs, events, flows, schedules, outboxes, fulfilled, Startup, not_started, acquiring,
  making, resolving, probing, cleaning_up, settled,
}
use bettter_nest_mq.Session.Checks.{
  check_setup, check_participants, check_descriptor, with_store_of, tasks, unresolved, unprobed,
  primary_of,
}
use bettter_nest_mq.Session.Machine.Releasing.{call_cleanup}

-- What an await of the session gives: the resource of a connection, the descriptor of a store that
-- was resolved, an answer, an error Result, or an exception.
pub data Reply : Type 0 where
  resource : Resource → Reply
  descriptor : Descriptor → Reply
  answered refused : Reply
  thrown : Failure → Reply

-- The catch block, up to its await.
abbrev pub fail : Failure → Session → Session
fail cause s = record s {
  startup = cleaning_up (primary_of cause);
  cleaning = call_cleanup s.cleaning;
}

-- assertStarting
abbrev pub unless_stopped : (Session → Session) → Session → Session
unless_stopped next s = if s.stop_requested then fail engine_state s else next s

abbrev pub has_kind : StoreKind → Task → Bool
has_kind jobs t = elim t.kind [ jobs ↦ true | _ ↦ false ]
has_kind events t = elim t.kind [ events ↦ true | _ ↦ false ]
has_kind flows t = elim t.kind [ flows ↦ true | _ ↦ false ]
has_kind schedules t = elim t.kind [ schedules ↦ true | _ ↦ false ]
has_kind outboxes t = elim t.kind [ outboxes ↦ true | _ ↦ false ]

-- The names in the map that startup has filled for a kind of store.
abbrev pub found_names : StoreKind → List Task → List Text
found_names kind found = map (λ t. t.name) (filter (has_kind kind) found)

-- The end of the try block: all maps at once.
abbrev pub commit : List Task → Session → Session
commit found s = record s {
  ready_events = found_names events found;
  ready_outboxes = found_names outboxes found;
  ready_schedules = found_names schedules found;
  ready_flows = found_names flows found;
  ready_jobs = found_names jobs found;
  snapshots = found_names jobs found;
  state = ready;
  startup = settled fulfilled;
}

unfoldable pub next_task : List Binding → List Task → List Task → Session → Session
next_task bindings found [] s = unless_stopped (commit found) s
next_task bindings found (t ∷ rest) s =
    unless_stopped (λ s'. record s' { startup = resolving bindings found t rest }) s

abbrev pub is_none : {A : Type 0} → List A → Bool
is_none [] = true
is_none (_ ∷ _) = false

abbrev pub when_ok : Result (Unit {0}) → (Session → Session) → Session → Session
when_ok (ok _) next s = next s
when_ok (err cause) next s = fail cause s

-- The factories of readers, by the connection.
abbrev pub add_reader : Connection → Resource → List Text → List Text
add_reader c r readers = if r.flow_reads then readers ++ c.name ∷ [] else readers

module _ (setup : Setup) where
  abbrev pub make_runtime : List Binding → Session → Session
  make_runtime bindings s = record s {
    startup = making bindings;
    has_scheduler =
        setup.scheduler_enabled
        && (if is_none (with_store_of (λ r. r.schedules) bindings) then false else true);
    has_publisher =
        setup.publisher_enabled
        && (if is_none (with_store_of (λ r. r.outbox) bindings) then false else true);
  }

  -- After the loop that acquires.
  abbrev pub all_acquired : List Binding → Session → Session
  all_acquired bindings s =
      if is_none bindings && is_none setup.plans
      then record s { state = ready; startup = settled fulfilled }
      else when_ok (check_participants setup bindings) (make_runtime bindings) s

  unfoldable pub next_acquire : List Binding → List Connection → Session → Session
  next_acquire bindings [] s = unless_stopped (all_acquired bindings) s
  next_acquire bindings (c ∷ rest) s =
      unless_stopped (λ s'. record s' { startup = acquiring bindings c rest }) s

  -- `initialize`, up to its first await.
  unfoldable pub initialize : Option (List Connection) → Session → Session
  initialize none s = record s { state = disabled; startup = settled fulfilled }
  initialize (some connections) s =
      when_ok (check_setup connections setup.queues) (next_acquire [] connections) s

  -- A second call gets the promise of the first; a stopped session rejects.
  unfoldable pub on_start : Startup → Session → Session
  on_start not_started s =
      if s.stop_requested then s else initialize setup.configured (record s { state = starting })
  on_start _ s = s

  unfoldable pub on_startup_reply : Startup → Reply → Session → Session
  on_startup_reply (acquiring bindings c rest) (resource r) s =
      next_acquire (bindings ++ record { connection = c; resource = r } ∷ []) rest (record s {
        acquired = s.acquired ++ r ∷ [];
        taken = s.taken ++ r ∷ [];
        flow_readers = add_reader c r s.flow_readers;
      })
  on_startup_reply (acquiring bindings c rest) (thrown cause) s = fail cause s
  on_startup_reply (making bindings) answered s =
      next_task bindings [] (tasks bindings) (record s { has_runtime = true })
  on_startup_reply (making bindings) (thrown cause) s = fail cause s
  on_startup_reply (resolving bindings found t rest) (descriptor d) s =
      when_ok (check_descriptor t d) (λ s'. record s' { startup = probing bindings found t rest }) s
  on_startup_reply (resolving bindings found t rest) refused s = fail (unresolved t.kind) s
  on_startup_reply (resolving bindings found t rest) (thrown cause) s = fail cause s
  on_startup_reply (probing bindings found t rest) answered s =
      next_task bindings (found ++ t ∷ []) rest s
  on_startup_reply (probing bindings found t rest) refused s = fail (unprobed t.kind) s
  on_startup_reply (probing bindings found t rest) (thrown cause) s = fail cause s
  on_startup_reply _ reply s = s
