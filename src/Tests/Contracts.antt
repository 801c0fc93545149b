-- ===== src/Tests/Contracts.antt =====
-- Contracts, schemas and publications at concrete policies, values and options.
use bettter_nest_mq.Prelude.{
  ◌≤◌, max_safe, ℕ, [], ◌∷◌, Number, nat, trim, ◌≡◌, ◌↔◌, refl, true, false, Option, none, some,
  Text, codes, All, text_is_eq, ok,
}
use bettter_nest_mq.Policies.{
  copy_retry, copy_backoff, require_name, require_integer, Bounds, fixed, custom, RetryOptions,
  JobPolicy, ResolvedJobPolicy, copy_job_policy, default_policy, resolve_job_policy, evaluation,
}
use bettter_nest_mq.Policies.Validation.{IsRetry, copy_retry_iff, IsJobPolicy, copy_job_policy_iff}
use bettter_nest_mq.Policies.Resolution.{layered, resolve_job_policy_iff}
use bettter_nest_mq.Policies.Compile.{PersistedBackoff, compile_backoff}
use bettter_nest_mq.Publication.{
  Metadata, RegisteredJob, EnqueueOptions, EngineEnqueueOptions, get, validate_dispatch_key,
  retry_reference, retry_reference_key, publication_retry, publication_metadata,
  assert_retry_reference, enqueue_options, engine_options,
}
use bettter_nest_mq.Publication.References.{
  custom_policy, publication_retry_iff, assert-publication_metadata_iff,
}
use bettter_nest_mq.Publication.DispatchKeys.{IsPublication, enqueue_options-IsPublication}
use bettter_nest_mq.Schema.{
  value, text, Json, ValueSchema, standard, codec, validate_schema, decode_schema, json_text,
  encode_schema, schema_codec_encode, validate_domain_failure,
}
use bettter_nest_mq.Schema.RoundTrip.{decode_schema-encode_schema}

abbrev three_attempts : RetryOptions
three_attempts = record { attempts = nat 3; backoff = none }

abbrev patient : JobPolicy
patient = record {
  retry = some three_attempts;
  timeout_ms = some (nat 500);
  priority = none;
  delay_ms = none;
}

abbrev urgent : JobPolicy
urgent = record { retry = none; timeout_ms = none; priority = some (nat 9); delay_ms = none }

abbrev merged : ResolvedJobPolicy
merged = record {
  retry = three_attempts;
  timeout_ms = some (nat 500);
  priority = nat 9;
  delay_ms = nat 0;
}

resolve_job_policy_iff_example : (resolve_job_policy (patient ∷ urgent ∷ []) ≡ ok merged) ↔ (
    All IsJobPolicy (patient ∷ urgent ∷ [])
    × (layered default_policy (patient ∷ urgent ∷ []) ≡ merged))
resolve_job_policy_iff_example = resolve_job_policy_iff (patient ∷ urgent ∷ []) merged

copy_job_policy_iff_example :
    (copy_job_policy patient ≡ ok patient) ↔ (IsJobPolicy patient × (patient ≡ patient))
copy_job_policy_iff_example = copy_job_policy_iff patient patient

abbrev bounded : Bounds
bounded = record { max_delay_ms = some (nat 1000); jitter = none }

abbrev fixed_retry : RetryOptions
fixed_retry = record { attempts = nat 2; backoff = some (fixed bounded (nat 50)) }

abbrev fixed_persisted : PersistedBackoff
fixed_persisted = PersistedBackoff.constant (nat 50) bounded

fixed_compiles : compile_backoff fixed_retry ≡ ok (some fixed_persisted)
unfolding compile_backoff evaluation
fixed_compiles = refl

-- The version is one character before the name here.
abbrev json : Text → Number → Text
json policy (nat version) = version ∷ policy
json policy _ = policy

json_distinct :
    (policy policy' : Text) (version version' : ℕ)
    → version ≤ max_safe
    → version' ≤ max_safe
    → json policy (nat version) ≡ json policy' (nat version')
    → (policy ≡ policy') × (version ≡ version')
json_distinct policy policy' version version' h k e = (cc e, cc e)

abbrev custom_retry : RetryOptions
custom_retry = record { attempts = nat 3; backoff = some (custom (codes "slow") (nat 1)) }

-- A job with a custom retry policy, and one without.
abbrev custom_job : RegisteredJob
custom_job = record {
  policy = record default_policy { retry = custom_retry };
  per_key_limited = true;
}

abbrev plain_job : RegisteredJob
plain_job = record { policy = default_policy; per_key_limited = false }

-- The same policy in another version.
abbrev next_retry : RetryOptions
next_retry = record { attempts = nat 3; backoff = some (custom (codes "slow") (nat 2)) }

abbrev next_job : RegisteredJob
next_job = record { policy = record default_policy { retry = next_retry }; per_key_limited = true }

custom_copied : copy_retry custom_retry ≡ ok custom_retry
unfolding copy_retry copy_backoff require_name require_integer trim
custom_copied = refl

custom_retry-IsRetry : IsRetry custom_retry
custom_retry-IsRetry = ((copy_retry_iff custom_retry custom_retry).0 custom_copied).0

next_copied : copy_retry next_retry ≡ ok next_retry
unfolding copy_retry copy_backoff require_name require_integer trim
next_copied = refl

next_retry-IsRetry : IsRetry next_retry
next_retry-IsRetry = ((copy_retry_iff next_retry next_retry).0 next_copied).0

publication_retry_iff_example :
    (publication_retry json custom_job (some next_retry) ≡ ok next_retry) ↔ (
      IsRetry next_retry
      × (next_retry ≡ next_retry)
      × (custom_policy next_retry.backoff ≡ custom_policy custom_retry.backoff))
publication_retry_iff_example =
    publication_retry_iff json json_distinct custom_job (some next_retry) next_retry
      custom_retry-IsRetry

abbrev slow_metadata : Metadata
slow_metadata = (retry_reference_key, 1 ∷ codes "slow") ∷ []

slow_published : publication_metadata json custom_job none ≡ ok slow_metadata
unfolding publication_metadata retry_reference get
slow_published = refl

assert-publication_metadata_iff_example :
    (assert_retry_reference json next_job slow_metadata ≡ ok tt)
    ↔ (custom_policy custom_retry.backoff ≡ custom_policy next_retry.backoff)
assert-publication_metadata_iff_example =
    assert-publication_metadata_iff json json_distinct custom_job next_job none slow_metadata
      custom_retry-IsRetry next_retry-IsRetry slow_published

abbrev tenant : Option Text
tenant = some (codes "tenant-7")

abbrev options : EnqueueOptions
options = record {
  priority = none;
  retry = none;
  timeout_ms = some (nat 900);
  metadata = none;
  job_id = none;
  idempotency_key = none;
  dispatch_key = tenant;
  at = none;
  delay_ms = none;
}

abbrev publication : EngineEnqueueOptions
publication =
    engine_options plain_job options default_policy.retry []
      (some (PersistedBackoff.constant (nat 0) (record { max_delay_ms = none; jitter = none })))

enqueued : enqueue_options json plain_job options ≡ ok publication
unfolding enqueue_options validate_dispatch_key publication_retry publication_metadata
    retry_reference get compile_backoff evaluation
enqueued = refl

enqueue_options-IsPublication_example : IsPublication json plain_job publication
enqueue_options-IsPublication_example =
    enqueue_options-IsPublication json plain_job options publication enqueued

-- A text is its own JSON text.
abbrev text_json : Json Text
text_json = record { stringify = λ t. text t; parse = λ t. some t }

abbrev any_text : ValueSchema Text
any_text = standard (λ t. value t)

abbrev text_codec : ValueSchema Text
text_codec = codec (λ t. value t) (λ t. some t)

codec_encodes : encode_schema text_json text_codec (codes "hi") ≡ ok (codes "hi")
unfolding encode_schema decode_schema validate_schema json_text
codec_encodes = refl

decode_schema-encode_schema_example :
    decode_schema text_json text_codec (codes "hi") ≡ ok (codes "hi")
decode_schema-encode_schema_example =
    decode_schema-encode_schema text_json text_codec (codes "hi") (codes "hi") codec_encodes

engine_encodes : schema_codec_encode text_json any_text (codes "hi") ≡ ok (codes "hi")
unfolding schema_codec_encode encode_schema validate_schema json_text
engine_encodes = refl

failure_accepted : validate_domain_failure text_json (some any_text) (codes "no") ≡ ok (codes "no")
unfolding validate_domain_failure encode_schema decode_schema validate_schema json_text
failure_accepted = refl
