-- ===== src/Controls/Dispatch.antt =====
-- dispatchStore of engine/controlled-store.ts: each operation goes to the controlled extension of
-- the store where the queue has an enabled policy, and to the plain store otherwise. A store that
-- has no such extension is returned as it is, which needs no model. The stores
-- are third party: their operations are fields of `Stores` and act on a world. Jobs, claims,
-- settlements and transitions are values that are passed on.
pub mod Fencing
use bettter_nest_mq.Prelude.{
  ℕ, ◌-◌, ◌+◌, ◌≡◌, Bool, true, false, ◌&&◌, ◌||◌, not, Option, none, some, List, [], ◌∷◌, ◌++◌,
  Text, text_eq, any, length, leb, ◌==◌, Number, nat, minus, if◌then◌else◌,
}
use bettter_nest_mq.Controls.{
  QueueControlsRecord, StoreError, store_failure, controls_revision_mismatch, lease_lost,
  settlement_conflict, job_not_cancellable, early, other, Effect, success, failure,
}
use bettter_nest_mq.Controls.Clock.{
  Reply, done, failed, Read, found, missing, unreadable, Host, with_fresh_controlled_clock,
}

-- The job that getJob finds: its queue and its updatedAt.
pub record JobRecord : Type 0 where
  pub queue : Text
  pub updated_at : ℕ

-- `Claim`, `Settled`, `Released` and `Cancelled` are the results of the engine's operations,
-- `Transition` is one of those of a recovery.
pub record Stores (World Claim Settled Released Cancelled Transition : Type 0) : Type 1 where
  pub get_controls : Text → World → World × Effect (Option QueueControlsRecord)
  pub get_job : ℕ → World → World × Effect (Option JobRecord)
  pub clock : World → World × ℕ
  pub claim : Text → World → World × Effect Claim
  pub claim_controlled : Text → ℕ → World → World × Effect Claim
  -- the job, the time, and the run time of a retry
  pub settle : ℕ → ℕ → Option ℕ → World → World × Effect Settled
  pub settle_controlled : ℕ → ℕ → Option ℕ → ℕ → World → World × Effect Settled
  pub release : ℕ → ℕ → World → World × Effect Released
  pub release_controlled : ℕ → ℕ → ℕ → World → World × Effect Released
  pub cancel : ℕ → ℕ → World → World × Effect Cancelled
  pub cancel_controlled : ℕ → ℕ → ℕ → World → World × Effect Cancelled
  -- the queue, if there is one, and the limit
  pub recover_stalled : Option Text → Option Number → World → World × Effect (List Transition)
  pub recover_stalled_controlled :
      Text → ℕ → Option Number → World → World × Effect (List Transition)

-- `normalize`: every error becomes a JobStoreFailure.
abbrev pub normalize_error : StoreError → StoreError
normalize_error (store_failure retryable) = store_failure retryable
normalize_error controls_revision_mismatch = store_failure true
normalize_error _ = store_failure false

abbrev pub normalize : {Value : Type 0} → Effect Value → Effect Value
normalize (success v) = success v
normalize (failure e) = failure (normalize_error e)

abbrev pub contains : Text → List Text → Bool
contains queue = any (λ q. text_eq q queue)

-- A declared policy that is missing or disabled fails closed; a policy that is disabled is none.
abbrev pub enabled_policy : Bool → Option QueueControlsRecord → Effect (Option QueueControlsRecord)
enabled_policy required none = if required then failure (store_failure false) else success none
enabled_policy required (some r) =
    if r.enabled
    then success (some r)
    else if required
    then failure (store_failure false)
    else success none

abbrev pub checked_policy :
    Bool → Effect (Option QueueControlsRecord) → Effect (Option QueueControlsRecord)
checked_policy required (success r) = enabled_policy required r
checked_policy required (failure e) = failure (normalize_error e)

-- instanceof tests of the errors that are passed on as they are.
abbrev pub settle_passes : StoreError → Bool
settle_passes lease_lost = true
settle_passes settlement_conflict = true
settle_passes _ = false

abbrev pub release_passes : StoreError → Bool
release_passes lease_lost = true
release_passes _ = false

abbrev pub cancel_passes : StoreError → Bool
cancel_passes job_not_cancellable = true
cancel_passes _ = false

-- The mutation's result in the form that the clock reads, and back.
abbrev pub to_reply : {W Value : Type 0} → W × Effect Value → W × Reply Value
to_reply (w, success v) = (w, done v)
to_reply (w, failure early) = (w, Reply.early)
to_reply (w, failure e) = (w, failed e)

abbrev pub passed_on : {Value : Type 0} → (StoreError → Bool) → StoreError → Effect Value
passed_on passes e = if passes e then failure e else failure (normalize_error e)

abbrev pub from_reply : {Value : Type 0} → (StoreError → Bool) → Reply Value → Effect Value
from_reply passes (done v) = success v
from_reply passes Reply.early = passed_on passes early
from_reply passes (failed e) = passed_on passes e

abbrev pub to_read : {W : Type 0} → W × Effect (Option JobRecord) → W × Read
to_read (w, success none) = (w, missing)
to_read (w, success (some job)) = (w, found job.updated_at)
to_read (w, failure e) = (w, unreadable e)

-- outcome.runAt + (now - request.now): the refreshed time is never before the request's.
abbrev pub shifted : ℕ → ℕ → Option ℕ → Option ℕ
shifted requested now none = none
shifted requested now (some run_at) = some (run_at + (now - requested))

-- request.limit - transitions.length
abbrev pub remaining : Option ℕ → ℕ → Option Number
remaining none made = none
remaining (some limit) made =
    some (if leb made limit then nat (limit - made) else minus (made - limit - 1))

abbrev pub is_zero : Option Number → Bool
is_zero (some (nat n)) = n == 0
is_zero _ = false

-- The branch on a policy: an error, the plain store, or the controlled one at a revision.
abbrev pub dispatch :
    {World Value : Type 0}
    → World × Effect (Option QueueControlsRecord)
    → (World → World × Effect Value)
    → (ℕ → World → World × Effect Value)
    → World × Effect Value
dispatch (w, failure e) plain controlled = (w, failure e)
dispatch (w, success none) plain controlled = plain w
dispatch (w, success (some r)) plain controlled = controlled r.revision w

module _ {World Claim Settled Released Cancelled Transition : Type 0}
    (stores : Stores World Claim Settled Released Cancelled Transition)
    (required registered : List Text) (valid_name : Text → Bool) where
  unfoldable pub policy : Bool → Text → World → World × Effect (Option QueueControlsRecord)
  policy fail_closed queue w =
      let (w', reply) = stores.get_controls queue w in
      (w', checked_policy (fail_closed && contains queue required) reply)

  abbrev pub policy_of_job :
      World × Effect (Option JobRecord) → World × Effect (Option QueueControlsRecord)
  policy_of_job (w, failure e) = (w, failure (normalize_error e))
  policy_of_job (w, success none) = (w, success none)
  policy_of_job (w, success (some job)) = policy false job.queue w

  unfoldable pub job_policy : ℕ → World → World × Effect (Option QueueControlsRecord)
  job_policy job w = policy_of_job (stores.get_job job w)

  unfoldable pub claim : Text → World → World × Effect Claim
  claim queue w = dispatch (policy true queue w) (stores.claim queue) (λ revision w'.
      let (w'', reply) = stores.claim_controlled queue revision w' in (w'', normalize reply))

  -- The controlled mutation under the refreshed clock.
  unfoldable pub fenced :
      {Value : Type 0}
      → (StoreError → Bool)
      → ℕ
      → ℕ
      → (ℕ → World → World × Effect Value)
      → World
      → World × Effect Value
  fenced {Value = Value} passes job now mutate w =
      let host : Host World Value = record {
        mutate = λ n w'. to_reply (mutate n w');
        updated_at = λ w'. to_read (stores.get_job job w');
        clock = stores.clock;
      } in
      let (reply, calls, w') = with_fresh_controlled_clock host now w in
      (w', from_reply passes reply)

  unfoldable pub settle : ℕ → ℕ → Option ℕ → World → World × Effect Settled
  settle job now run_at w = dispatch (job_policy job w) (stores.settle job now run_at) (λ revision.
      fenced settle_passes job now
        (λ n. stores.settle_controlled job n (shifted now n run_at) revision))

  unfoldable pub release : ℕ → ℕ → World → World × Effect Released
  release job now w =
      dispatch (job_policy job w) (stores.release job now)
        (λ revision. fenced release_passes job now (λ n. stores.release_controlled job n revision))

  unfoldable pub cancel : ℕ → ℕ → World → World × Effect Cancelled
  cancel job now w =
      dispatch (job_policy job w) (stores.cancel job now)
        (λ revision. fenced cancel_passes job now (λ n. stores.cancel_controlled job n revision))

  -- Where the loop over the queues stands: it returned, or it came to its end with the
  -- transitions so far and whether a native sweep is needed.
  pub data Sweep : Type 0 where
    stopped : Effect (List Transition) → Sweep
    swept : List Transition → Bool → Sweep

  abbrev pub with_transitions :
      (List Transition → World → World × Sweep)
      → List Transition
      → World × Effect (List Transition)
      → World × Sweep
  with_transitions rest made (w, failure e) = (w, stopped (failure (normalize_error e)))
  with_transitions rest made (w, success more) = rest (made ++ more) w

  -- One queue; `rest` is the loop over the others.
  abbrev pub sweep_queue :
      Option ℕ
      → Text
      → (List Transition → Bool → World → World × Sweep)
      → List Transition
      → Bool
      → World × Effect (Option QueueControlsRecord)
      → World × Sweep
  sweep_queue limit queue rest made native (w, failure e) = (w, stopped (failure e))
  sweep_queue limit queue rest made native (w, success none) = rest made true w
  sweep_queue limit queue rest made native (w, success (some r)) =
      let left = remaining limit (length made) in
      if is_zero left
      then (w, stopped (success made))
      else with_transitions (λ made'. rest made' native) made
          (stores.recover_stalled_controlled queue r.revision left w)

  unfoldable pub sweep_queues :
      Option ℕ → List Text → List Transition → Bool → World → World × Sweep
  sweep_queues limit [] made native w = (w, swept made native)
  sweep_queues limit (queue ∷ queues) made native w =
      if not (valid_name queue)
      then (w, stopped (failure (store_failure false)))
      else sweep_queue limit queue (sweep_queues limit queues) made native (policy false queue w)

  abbrev pub joined :
      List Transition → World × Effect (List Transition) → World × Effect (List Transition)
  joined made (w, success more) = (w, success (made ++ more))
  joined made (w, failure e) = (w, failure e)

  -- The native sweep at the end.
  abbrev pub native_sweep : Option ℕ → World × Sweep → World × Effect (List Transition)
  native_sweep limit (w, stopped reply) = (w, reply)
  native_sweep limit (w, swept made false) = (w, success made)
  native_sweep limit (w, swept made true) =
      let left = remaining limit (length made) in
      if is_zero left then (w, success made) else joined made (stores.recover_stalled none left w)

  abbrev pub given_limit : Option ℕ → Option Number
  given_limit none = none
  given_limit (some n) = some (nat n)

  -- Without a queue: all registered queues, or the plain store where none is registered.
  abbrev pub recover_all : Option ℕ → List Text → World → World × Effect (List Transition)
  recover_all limit [] w = stores.recover_stalled none (given_limit limit) w
  recover_all limit (queue ∷ queues) w =
      native_sweep limit (sweep_queues limit (queue ∷ queues) [] false w)

  -- The transitions; `recovered` is their number.
  unfoldable pub recover_stalled : Option Text → Option ℕ → World → World × Effect (List Transition)
  recover_stalled (some queue) limit w =
      dispatch (policy false queue w) (stores.recover_stalled (some queue) (given_limit limit))
        (λ revision w'.
          let (w'', reply) =
            stores.recover_stalled_controlled queue revision (given_limit limit) w' in
          (w'', normalize reply))
  recover_stalled none limit w = recover_all limit registered w
