-- ===== src/Publication.antt =====
-- Publishing a job: engine/retry-reference.ts, validateDispatchKey of controls/decorator.ts,
-- publicationOptions of contracts/job-definition.ts and enqueueOptions of engine/job-client.ts.
-- A metadata object is the list of its own string fields. JSON.stringify of a policy's name and
-- version is the parameter `json`; the job's dispatch-key factory enters by the key it derives.
pub mod References
pub mod DispatchKeys
use bettter_nest_mq.Prelude.{
  ℕ, ◌≡◌, Bool, true, false, ◌||◌, not, Option, none, some, List, [], ◌∷◌, ◌++◌, Text, text_eq,
  codes, includes, length, ltb, Number, Result, ok, err, contract, error, ◌>>=◌, ◌>>◌, reject_if,
  or_else, or_option, is_some, ◌&&◌,
}
use bettter_nest_mq.Policies.{
  Backoff, custom, RetryOptions, ResolvedJobPolicy, require_name, require_integer, copy_retry,
  when_some,
}
use bettter_nest_mq.Policies.Compile.{PersistedBackoff, compile_backoff}

abbrev pub Metadata : Type 0
Metadata = List (Text × Text)

unfoldable pub get : Text → Metadata → Option Text
get key [] = none
get key ((k, value) ∷ rest) = elim (text_eq k key) [ true ↦ some value | false ↦ get key rest ]

-- `a === b` where either may be undefined.
abbrev pub same_text : Option Text → Option Text → Bool
same_text none none = true
same_text (some a) (some b) = text_eq a b
same_text _ _ = false

-- RETRY_REFERENCE
abbrev pub retry_reference_key : Text
retry_reference_key = codes "__better_nest_mq_retry"

unfoldable pub validate_dispatch_key : Text → Result Text
validate_dispatch_key key = do
  require_name key
  reject_if (text_eq key (codes "__none__") || (ltb 512 (length key) || includes 0 key)) contract
  ok key

-- publicationOptions: `derived` is what getDispatchKey makes of the payload before its check.
-- The result is the dispatch key of the options that are passed on.
unfoldable pub publication_key : Option Text → Option Text → Result (Option Text)
publication_key derived supplied = do
  when_some derived (λ key. validate_dispatch_key key >>= λ _. ok tt)
  when_some supplied (λ key. validate_dispatch_key key >>= λ _. ok tt)
  reject_if (is_some derived && (is_some supplied && not (same_text derived supplied))) contract
  ok (or_option derived supplied)

-- The fields of RegisteredJob that publication reads.
pub record RegisteredJob : Type 0 where
  pub policy : ResolvedJobPolicy
  -- controls.perKeyConcurrency !== undefined
  pub per_key_limited : Bool

pub record EnqueueOptions : Type 0 where
  pub priority : Option Number
  pub retry : Option RetryOptions
  pub timeout_ms : Option Number
  pub metadata : Option Metadata
  pub job_id : Option Text
  pub idempotency_key : Option Text
  pub dispatch_key : Option Text
  pub at : Option Number
  pub delay_ms : Option Number

pub record EngineEnqueueOptions : Type 0 where
  pub priority : Number
  pub attempts : Number
  pub metadata : Metadata
  pub backoff : Option PersistedBackoff
  pub timeout_ms : Option Number
  pub job_id : Option Text
  pub idempotency_key : Option Text
  pub dispatch_key : Option Text
  pub at : Option Number
  pub delay_ms : Option Number

-- MqJobException('enqueue', …)
abbrev pub enqueue_failure : ℕ
enqueue_failure = 0

abbrev pub with_reference : Option Text → Metadata → Metadata
with_reference none metadata = metadata
with_reference (some reference) metadata = metadata ++ (retry_reference_key, reference) ∷ []

-- A relative delay is given only where no absolute time is.
abbrev pub relative_delay : Option Number → Number → Option Number
relative_delay none delay = some delay
relative_delay (some _) delay = none

-- The object that enqueueOptions builds, once its checks have passed.
abbrev pub engine_options :
    RegisteredJob
    → EnqueueOptions
    → RetryOptions
    → Metadata
    → Option PersistedBackoff
    → EngineEnqueueOptions
engine_options job options retry metadata backoff = record {
  priority = or_else options.priority job.policy.priority;
  attempts = retry.attempts;
  metadata = metadata;
  backoff = backoff;
  timeout_ms = or_option options.timeout_ms job.policy.timeout_ms;
  job_id = options.job_id;
  idempotency_key = options.idempotency_key;
  dispatch_key = options.dispatch_key;
  at = options.at;
  delay_ms = relative_delay options.at (or_else options.delay_ms job.policy.delay_ms);
}

module _ (json : Text → Number → Text) where
  -- The reference of a custom backoff.
  abbrev pub backoff_reference : Option Backoff → Option Text
  backoff_reference (some (custom policy version)) = some (json policy version)
  backoff_reference _ = none

  unfoldable pub retry_reference : RegisteredJob → Option Text
  retry_reference job = backoff_reference job.policy.retry.backoff

  unfoldable pub publication_retry : RegisteredJob → Option RetryOptions → Result RetryOptions
  publication_retry job override = do
    retry ← copy_retry (or_else override job.policy.retry)
    reject_if (not (same_text (backoff_reference retry.backoff) (retry_reference job))) contract
    ok retry

  unfoldable pub publication_metadata : RegisteredJob → Option Metadata → Result Metadata
  publication_metadata job metadata = do
    let given = or_else metadata []
    reject_if (is_some (get retry_reference_key given)) contract
    ok (with_reference (retry_reference job) given)

  unfoldable pub assert_retry_reference : RegisteredJob → Metadata → Result (Unit {0})
  assert_retry_reference job metadata =
      reject_if (not (same_text (get retry_reference_key metadata) (retry_reference job))) contract

  unfoldable pub enqueue_options : RegisteredJob → EnqueueOptions → Result EngineEnqueueOptions
  enqueue_options job options = do
    when_some options.dispatch_key (λ key. validate_dispatch_key key >>= λ _. ok tt)
    reject_if (job.per_key_limited && not (is_some options.dispatch_key)) contract
    retry ← publication_retry job options.retry
    let timeout_ms = or_option options.timeout_ms job.policy.timeout_ms
    when_some timeout_ms (λ n. require_integer n 1)
    metadata ← publication_metadata job options.metadata
    backoff ← compile_backoff retry
    reject_if (is_some options.at && is_some options.delay_ms) (error enqueue_failure)
    ok (engine_options job options retry metadata backoff)
