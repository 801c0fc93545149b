-- ===== src/Controls/Policies.antt =====
-- QueueControlsCoordinator of engine/queue-controls.ts. The stores, EngineControls and the
-- session's withStore are fields of `Deployment`; the world is theirs. A run comes with the calls
-- that reached a store, in order.
pub mod Startup
pub mod Ownership
use bettter_nest_mq.Prelude.{
  ℕ, ◌≡◌, Bool, true, false, ◌&&◌, ◌||◌, not, Option, none, some, List, [], ◌∷◌, ◌++◌, Text,
  text_eq, if◌then◌else◌, Result, ok, err, ◌>>◌, require, reject_if, Failure, controls, is_some,
  same_option, same, Eq, nat_eq, ControlsReason, configuration, capability, ownership, missing,
  drift, mode, operation,
}
use bettter_nest_mq.Controls.{
  QueueControlsRecord, QueueControlsOptions, RateLimit, StoreError, Effect, success, failure,
}

-- The part of a queue definition that the coordinator reads.
pub record QueueDefinition : Type 0 where
  pub name : Text
  pub connection : Text
  pub desired : Option QueueControlsOptions

pub data Mode : Type 0 where
  validate reconcile : Mode

-- A call of a store: getControls of a queue, or reconcile of a connection's queues.
pub data Call : Type 0 where
  read : (connection queue : Text) → Call
  write : (connection : Text) → List QueueDefinition → Call

pub record Deployment (World Report : Type 0) : Type 0 where
  -- what the session's withStore throws, if it does
  pub with_store : Text → World → Result (Unit {0})
  -- requireControlledStore, and the capabilities of a connection's store
  pub is_controlled : Text → Bool
  pub global_concurrency : Text → Bool
  pub rate_limiting : Text → Bool
  pub valid_name : Text → Bool
  pub get_controls : Text → Text → World → World × Effect (Option QueueControlsRecord)
  -- what EngineControls.define and EngineControls.registry throw, if they do
  pub define : List QueueDefinition → Result (Unit {0})
  pub registry : List QueueDefinition → Result (Unit {0})
  pub apply : Text → List QueueDefinition → World → World × Effect Report

abbrev pub same_rate : RateLimit → RateLimit → Bool
same_rate a b = same a.max b.max && same a.duration_ms b.duration_ms

abbrev pub same_rate_limit : Option RateLimit → Option RateLimit → Bool
same_rate_limit none none = true
same_rate_limit (some a) (some b) = same_rate a b
same_rate_limit _ _ = false

unfoldable pub same_policy : QueueControlsRecord → QueueControlsOptions → Bool
same_policy r d =
    r.enabled
    && same_option r.limits.global_concurrency d.global_concurrency
    && same_option r.limits.per_key_concurrency d.per_key_concurrency
    && same_rate_limit r.limits.rate_limit d.rate_limit

-- The queue's entry in the group of its connection: a Map keeps the order of its first keys.
unfoldable pub add_to_group :
    QueueDefinition → List (Text × List QueueDefinition) → List (Text × List QueueDefinition)
add_to_group q [] = (q.connection, q ∷ []) ∷ []
add_to_group q ((connection, group) ∷ groups) =
    let rest = add_to_group q groups in
    if text_eq connection q.connection
    then (connection, group ++ (q ∷ [])) ∷ groups
    else (connection, group) ∷ rest

unfoldable pub group_queues :
    List QueueDefinition → List (Text × List QueueDefinition) → List (Text × List QueueDefinition)
group_queues [] groups = groups
group_queues (q ∷ queues) groups = group_queues queues (add_to_group q groups)

-- registry.queues().filter(queue => queue.controls !== undefined)
unfoldable pub declared : List QueueDefinition → List QueueDefinition
declared [] = []
declared (q ∷ queues) = let rest = declared queues in if is_some q.desired then q ∷ rest else rest

module _ {World Report : Type 0} (host : Deployment World Report) (own : Text) where
  abbrev pub Run : Type 0 → Type 0
  Run Value = World × List Call × Result Value

  abbrev pub assert_capabilities : Text → QueueControlsOptions → Result (Unit {0})
  assert_capabilities connection d =
      require (host.is_controlled connection) (controls capability)
      >> reject_if
          ((is_some d.global_concurrency || is_some d.per_key_concurrency)
            && not (host.global_concurrency connection))
          (controls capability)
      >> reject_if (is_some d.rate_limit && not (host.rate_limiting connection))
          (controls capability)

  -- The checks of a persisted policy; a policy that is missing is created by a reconciliation.
  unfoldable pub judge :
      Mode → QueueControlsOptions → Effect (Option QueueControlsRecord) → Result (Unit {0})
  judge m d (failure e) = err (controls operation)
  judge validate d (success none) = err (controls missing)
  judge reconcile d (success none) = ok tt
  judge validate d (success (some r)) =
      require (text_eq r.group own) (controls ownership)
      >> require (same_policy r d) (controls drift)
  judge reconcile d (success (some r)) = require (text_eq r.group own) (controls ownership)

  abbrev pub before_read : QueueDefinition → QueueControlsOptions → World → Result (Unit {0})
  before_read q d w =
      host.with_store q.connection w
      >> assert_capabilities q.connection d
      >> require (host.valid_name q.name) (controls configuration)

  abbrev pub read_policy :
      Mode → QueueDefinition → QueueControlsOptions → World → Result (Unit {0}) → Run (Unit {0})
  read_policy m q d w (err e) = (w, [], err e)
  read_policy m q d w (ok _) =
      let (w', reply) = host.get_controls q.connection q.name w in
      (w', read q.connection q.name ∷ [], judge m d reply)

  abbrev pub inspect_desired :
      Mode → QueueDefinition → Option QueueControlsOptions → World → Run (Unit {0})
  inspect_desired m q none w = (w, [], ok tt)
  inspect_desired m q (some d) w = read_policy m q d w (before_read q d w)

  unfoldable pub inspect : Mode → QueueDefinition → World → Run (Unit {0})
  inspect m q w = inspect_desired m q q.desired w

  -- The rest of a loop after one of its rounds: an error ends it.
  abbrev pub and_then : {A B : Type 0} → (A → World → Run B) → Run A → Run B
  and_then rest (w, calls, err e) = (w, calls, err e)
  and_then rest (w, calls, ok a) = let (w', more, reply) = rest a w in (w', calls ++ more, reply)

  unfoldable pub inspect_all : Mode → List QueueDefinition → World → Run (Unit {0})
  inspect_all m [] w = (w, [], ok tt)
  inspect_all m (q ∷ queues) w = and_then (λ _. inspect_all m queues) (inspect m q w)

  abbrev pub reported : World × Effect Report → World × Result Report
  reported (w, success report) = (w, ok report)
  reported (w, failure e) = (w, err (controls operation))

  abbrev pub write_group : Text → List QueueDefinition → World → Result (Unit {0}) → Run Report
  write_group connection group w (err e) = (w, [], err e)
  write_group connection group w (ok _) =
      let (w', reply) = reported (host.apply connection group w) in
      (w', write connection group ∷ [], reply)

  abbrev pub before_write : Text → List QueueDefinition → World → Result (Unit {0})
  before_write connection group w =
      host.with_store connection w
      >> host.define group
      >> require (host.is_controlled connection) (controls capability)
      >> host.registry group

  unfoldable pub deploy_group : Text → List QueueDefinition → World → Run Report
  deploy_group connection group w = write_group connection group w (before_write connection group w)

  unfoldable pub deploy : List (Text × List QueueDefinition) → World → Run (List Report)
  deploy [] w = (w, [], ok [])
  deploy ((connection, group) ∷ groups) w =
      and_then
        (λ report w'. and_then (λ more w''. (w'', [], ok (report ∷ more))) (deploy groups w'))
        (deploy_group connection group w)

  unfoldable pub write_policies : Mode → List QueueDefinition → World → Run (List Report)
  write_policies validate queues w = (w, [], ok [])
  write_policies reconcile queues w = deploy (group_queues queues []) w

  unfoldable pub synchronize : Mode → List QueueDefinition → World → Run (List Report)
  synchronize m queues w =
      and_then (λ _. write_policies m (declared queues)) (inspect_all m (declared queues) w)

  -- `reconcile()` of an application that is configured for validation is refused.
  unfoldable pub reconcile_policies : Mode → List QueueDefinition → World → Run (List Report)
  reconcile_policies validate queues w = (w, [], err (controls mode))
  reconcile_policies reconcile queues w = synchronize reconcile queues w
