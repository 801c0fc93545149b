-- ===== src/Tests/Sessions.antt =====
-- EngineSession at concrete runs.
use bettter_nest_mq.Prelude.{
  ◌≡◌, refl, true, false, List, [], ◌∷◌, ◌++◌, some, Text, codes, error, ok, err, map,
}
use bettter_nest_mq.Session.{
  Setup, created, Connection, Resource, Descriptor, ready, on_cleanup, disposing, finished,
}
use bettter_nest_mq.Session.Checks.{check_boundaries, tasks, check_descriptor}
use bettter_nest_mq.Session.Machine.{
  Event, start_called, close_called, startup_replied, cleanup_replied, wake_startup, await_cleanup,
  begin_cleanup, await_scheduler, await_publisher, await_workers, await_startup, wake_closing,
  advance, on_close, handle, step, run,
}
use bettter_nest_mq.Session.Machine.Releasing.{next_release, on_cleanup_reply}
use bettter_nest_mq.Session.Machine.Initializing.{
  resource, descriptor, answered, refused, next_task, next_acquire, initialize, on_start,
  on_startup_reply,
}
use bettter_nest_mq.Session.Resources.{IsReleased, closed_releases_all}
use bettter_nest_mq.Session.Finality.{closed_for_good}
use bettter_nest_mq.Session.Completion.{close_completes}
use bettter_nest_mq.Session.Lifecycle.{Reaches, IsOver}
use bettter_nest_mq.Session.Lifecycle.Promises.{run_refines_lifecycle, close_is_final}
use bettter_nest_mq.Session.Readiness.{Serves}
use bettter_nest_mq.Session.Readiness.Served.{ready_is_complete}
use bettter_nest_mq.Session.Soundness.Activating.{ready_names}
use bettter_nest_mq.Session.Access.{with_store, run_operation}
use bettter_nest_mq.Session.Access.Refusals.{IsRefusing, close_refuses_operations}
use bettter_nest_mq.Session.Access.Answers.{ready_answers}

abbrev store_at : Text → Text → Connection
store_at name boundary = record {
  name = name;
  definition = record { boundary = boundary; scope = codes "jobs"; requirements = [] };
}

abbrev two_connections : List Connection
two_connections = store_at (codes "a") (codes "pool") ∷ store_at (codes "b") (codes "file") ∷ []

abbrev two_stores : Setup
two_stores = record {
  configured = some two_connections;
  queues = codes "a" ∷ [];
  plans = [];
  scheduled = [];
  flow_participants = codes "b" ∷ [];
  scheduler_enabled = true;
  publisher_enabled = true;
}

abbrev plain : Resource
plain = record {
  id = 1;
  flow_reads = false;
  events = false;
  flows = false;
  schedules = false;
  outbox = false;
}

abbrev with_flow_store : Resource
with_flow_store = record {
  id = 2;
  flow_reads = true;
  events = false;
  flows = true;
  schedules = false;
  outbox = false;
}

abbrev matching : Descriptor
matching = record {
  compatible = true;
  capabilities = [];
  extension = [];
  extension_version = 1;
  job_store_protocol_version = 1;
  protocol_version = 2;
  migration_status = codes "complete";
}

abbrev both_acquired : List Event
both_acquired =
    start_called
    ∷ startup_replied (resource plain)
    ∷ startup_replied (resource with_flow_store)
    ∷ []

abbrev one_found : List Event
one_found = startup_replied (descriptor matching) ∷ startup_replied answered ∷ []

abbrev whole_startup : List Event
whole_startup =
    both_acquired ++ (startup_replied answered ∷ (one_found ++ (one_found ++ one_found)))

whole_startup_ready : (run two_stores created whole_startup).state ≡ ready
unfolding run step handle advance wake_startup wake_closing on_start initialize next_acquire
    next_task on_startup_reply check_boundaries tasks check_descriptor
whole_startup_ready = refl

ready_is_complete_example :
    Serves two_connections
      (run two_stores created whole_startup).taken
      (run two_stores created whole_startup).has_runtime
      (ready_names (run two_stores created whole_startup))
ready_is_complete_example =
    ready_is_complete two_connections two_stores refl whole_startup whole_startup_ready

ready_answers_example :
    (with_store (codes "b") (ok true) (run two_stores created whole_startup) ≡ ok true)
    × (run_operation (ok true) (run two_stores created whole_startup) ≡ ok true)
ready_answers_example =
    ready_answers two_stores two_connections whole_startup (codes "b") (ok true) refl
      whole_startup_ready refl

-- A close that waits for the runtime's disposal.
abbrev closing_down : List Event
closing_down = whole_startup ++ close_called ∷ []

closing_down_waits : (run two_stores created closing_down).closing ≡ on_cleanup
unfolding run step handle advance wake_startup wake_closing on_start initialize next_acquire
    next_task on_startup_reply check_boundaries tasks check_descriptor on_close await_startup
    await_workers await_publisher await_scheduler begin_cleanup await_cleanup
closing_down_waits = refl

closing_down_disposes : (run two_stores created closing_down).cleaning ≡ disposing
unfolding run step handle advance wake_startup wake_closing on_start initialize next_acquire
    next_task on_startup_reply check_boundaries tasks check_descriptor on_close await_startup
    await_workers await_publisher await_scheduler begin_cleanup await_cleanup
closing_down_disposes = refl

closing_down_holds : (run two_stores created closing_down).acquired ≡ plain ∷ with_flow_store ∷ []
unfolding run step handle advance wake_startup wake_closing on_start initialize next_acquire
    next_task on_startup_reply check_boundaries tasks check_descriptor on_close await_startup
    await_workers await_publisher await_scheduler begin_cleanup await_cleanup
closing_down_holds = refl

close_completes_example : IsReleased (
    run two_stores
      (run two_stores created closing_down)
      (map cleanup_replied (ok tt ∷ err (error 3) ∷ ok tt ∷ [])))
close_completes_example =
    close_completes two_stores closing_down (ok tt) (err (error 3) ∷ ok tt ∷ []) closing_down_waits
      closing_down_disposes (rw closing_down_holds refl)

-- A startup that fails after two resources were acquired, with a close in its cleanup.
abbrev failed_startup : List Event
failed_startup =
    both_acquired
    ++ startup_replied answered
      ∷ startup_replied refused
      ∷ close_called
      ∷ cleanup_replied (ok tt)
      ∷ cleanup_replied (err (error 3))
      ∷ cleanup_replied (ok tt)
      ∷ []

failed_startup_closes : (run two_stores created failed_startup).closing ≡ finished (error 3 ∷ [])
unfolding run step handle advance wake_startup wake_closing on_start initialize next_acquire
    next_task on_startup_reply check_boundaries tasks check_descriptor on_close await_startup
    await_workers await_publisher await_scheduler begin_cleanup await_cleanup on_cleanup_reply
    next_release
failed_startup_closes = refl

closed_releases_all_example : IsReleased (run two_stores created failed_startup)
closed_releases_all_example =
    closed_releases_all two_stores failed_startup (error 3 ∷ []) failed_startup_closes

closed_for_good_example :
    let s = run two_stores created failed_startup in
    let t = run two_stores s (start_called ∷ startup_replied (resource plain) ∷ []) in
    (t.closing ≡ finished (error 3 ∷ [])) × (t.taken ≡ s.taken) × IsReleased t
closed_for_good_example =
    closed_for_good two_stores failed_startup (start_called ∷ startup_replied (resource plain) ∷ [])
      (error 3 ∷ []) failed_startup_closes

run_refines_lifecycle_example :
    let s = run two_stores created both_acquired in
    Reaches s.state (run two_stores s (startup_replied refused ∷ close_called ∷ [])).state
run_refines_lifecycle_example =
    run_refines_lifecycle two_stores both_acquired (startup_replied refused ∷ close_called ∷ [])

close_is_final_example :
    IsOver
      (run two_stores
        (step two_stores (run two_stores created both_acquired) close_called)
        (startup_replied answered ∷ [])).state
close_is_final_example = close_is_final two_stores both_acquired (startup_replied answered ∷ [])

close_refuses_operations_example :
    IsRefusing
      (List Text)
      (codes "a")
      (ok [])
      (ok tt)
      (run two_stores (step two_stores (run two_stores created whole_startup) close_called) [])
close_refuses_operations_example =
    close_refuses_operations two_stores whole_startup [] (codes "a") (ok []) (ok tt)
