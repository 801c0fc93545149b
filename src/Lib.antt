-- ===== src/Lib.antt =====
-- Verification of better-nest-mq, a NestJS facade over the message queue better-effect-mq: what
-- the facade itself decides, between the application's decorators and the engine's stores.
--
-- Parts, each with the code that it translates (paths below src/ of the repository):
-- - Prelude: tests, lists, JavaScript numbers and texts, and the exceptions as values (`Failure`),
--   with the Result in which the models throw them.
-- - Policies: contracts/policies.ts (requireName, requireInteger, copyRetry, copyJobPolicy,
--   resolveJobPolicy) and compileBackoff of engine/job-compiler.ts. A number is a natural, a
--   negative, a fraction, an infinity or NaN, since the checks tell these apart.
-- - Publication: engine/retry-reference.ts, validateDispatchKey of controls/decorator.ts,
--   publicationOptions of contracts/job-definition.ts and enqueueOptions of engine/job-client.ts.
--   It uses Policies for the retry policy. JSON.stringify of a policy's name and version is a
--   parameter, which the theorems on references assume to tell safe versions and names apart.
-- - Schema: contracts/schema.ts, schemaCodec and validateDomainFailure of engine/job-compiler.ts.
--   Validators, encoders and JSON are parameters.
-- - Outbox: Options (outbox/options.ts, outbox/retry-options.ts), Retry (engine/outbox-retry.ts and
--   the conditional write of integrations/postgres-outbox-retry.ts on a table of rows), Scope and
--   Transaction (integrations/postgres-outbox-transaction.ts). The transaction is a machine:
--   `step` runs the code from one await to the next, and what the client, the callback and the
--   operations do are events in any order; Transaction/Replies says which reply answers a COMMIT.
--   Its scope is that of Outbox/Scope.
-- - Outbox/Kysely: ScopedDriver and runKyselyOutbox of integrations/kysely-outbox-scope.ts, on
--   Outbox/Scope as well.
-- - Controls: Clock (withFreshControlledClock of engine/controlled-clock.ts), Dispatch
--   (dispatchStore of engine/controlled-store.ts, which uses the clock) and Policies (synchronize
--   and reconcile of engine/queue-controls.ts). Stores act on a world that is a parameter.
-- - Pipeline: MqPipeline of engine/mq-enhancers.ts and invokeMqInterceptor of
--   engine/mq-interceptor.ts. An interceptor is a tree of what it does. A `next` that is not
--   awaited runs in the drain, the latest point at which it can. Pipeline/Replies says which
--   replies of guards, pipes and the codec lead from one payload to the next.
-- - Flows: discoverFlows of engine/flow-discovery.ts, and Flows/Results: readPage and all of
--   engine/flow-results.ts, and Flows/Plan: compileFlowChildren and the handler of
--   engine/flow-plan.ts, on Publication and Schema.
-- - Session: EngineSession of engine/engine-session.ts as a machine. Machine has `step`, which runs
--   the code from one await to the next (its children: initialize, releaseResources and the
--   activations), Checks the tests of a startup and Access the guards of the operations on stores.
--   Calls and replies are events in any order. Startup resolves the stores of one kind after the
--   other by one loop over `tasks`, and the code has the same loop once for each kind.
-- - Schedules: schedules/decorator.ts, and the coordinator of engine/schedules.ts in Coordinator
--   (preflight and synchronize) and Operations (reconcile, get, list, upsert, mutate, initialize).
--   The guards of Session on the stores enter by what they throw, the JSON functions and the cron
--   parser as parameters.
-- - Workers: discoverWorkers of engine/worker-discovery.ts, with the checks of invocationFor.
-- - Tests: concrete inputs.
--
-- Bounds: the loop of the clock has the three rounds of the source. The search for cycles has one
-- level of fuel for each flow and one more, since the names on a path are distinct. The loop of
-- `all` has one round of fuel for each page that the store gives. All other recursion is on the
-- data, and a run of a machine is on the list of its events.
--
-- Left out: what the decorators read by reflection, freezing and copying of objects (values cannot
-- change here), messages and causes of exceptions, the layers that a session composes, the
-- compilation of schedules and workers, the supervision of flows, and the SQL of the adapters other
-- than the outbox retry. Better-effect-mq, the databases and the application's own code are
-- parameters.
pub mod Prelude
pub mod Policies
pub mod Publication
pub mod Schema
pub mod Outbox
pub mod Controls
pub mod Pipeline
pub mod Flows
pub mod Session
pub mod Schedules
pub mod Workers
pub mod Tests
