-- ===== src/Policies.antt =====
-- contracts/policies.ts: names, integers, retry and job policies, and their layering; and
-- compileBackoff of engine/job-compiler.ts. A field that JavaScript may leave undefined is an
-- Option. `unsupported` stands for a backoff whose `type` is none of the declared ones. The
-- copies are frozen in the source; values cannot change here, so freezing leaves no trace.
pub mod Names
pub mod Validation
pub mod Resolution
pub mod Compile
use bettter_nest_mq.Prelude.{
  ℕ, ◌≡◌, Bool, true, false, ◌&&◌, ◌||◌, not, Option, none, some, List, [], ◌∷◌, Text, text_eq,
  trim, length, ◌==◌, Number, nat, is_safe_integer, is_finite, less_than, more_than, Result, ok,
  err, contract, ◌>>=◌, ◌>>◌, require, reject_if, or_else, or_option, if◌then◌else◌,
}

pub record Bounds : Type 0 where
  pub max_delay_ms : Option Number
  pub jitter : Option Number

pub data Backoff : Type 0 where
  fixed : (bounds : Bounds) (delay_ms : Number) → Backoff
  linear : (bounds : Bounds) (initial_delay_ms increment_ms : Number) → Backoff
  exponential : (bounds : Bounds) (initial_delay_ms factor : Number) → Backoff
  custom : (policy : Text) (version : Number) → Backoff
  unsupported : (bounds : Bounds) → Backoff

pub record RetryOptions : Type 0 where
  pub attempts : Number
  pub backoff : Option Backoff

pub record JobPolicy : Type 0 where
  pub retry : Option RetryOptions
  pub timeout_ms : Option Number
  pub priority : Option Number
  pub delay_ms : Option Number

pub record ResolvedJobPolicy : Type 0 where
  pub retry : RetryOptions
  pub timeout_ms : Option Number
  pub priority : Number
  pub delay_ms : Number

unfoldable pub require_name : Text → Result (Unit {0})
unfolding trim
require_name value = reject_if (length value == 0 || not (text_eq (trim value) value)) contract

unfoldable pub require_integer : Number → ℕ → Result (Unit {0})
require_integer value minimum =
    reject_if (not (is_safe_integer value) || less_than value minimum) contract

-- A check that is made only where the field is defined.
abbrev pub when_some {ℓ} : {A : Type ℓ} → Option A → (A → Result (Unit {0})) → Result (Unit {0})
when_some none check = ok tt
when_some (some a) check = check a

unfoldable pub check_jitter : Number → Result (Unit {0})
check_jitter jitter =
    reject_if (not (is_finite jitter) || (less_than jitter 0 || more_than jitter 1)) contract

unfoldable pub check_factor : Number → Result (Unit {0})
check_factor factor = reject_if (not (is_finite factor) || less_than factor 1) contract

-- The two checks ahead of the `switch`.
unfoldable pub check_bounds : Bounds → Result (Unit {0})
check_bounds b = do
  when_some b.jitter check_jitter
  when_some b.max_delay_ms (λ m. require_integer m 0)

unfoldable pub copy_backoff : Backoff → Result Backoff
copy_backoff (custom policy version) = do
  require_name policy
  require_integer version 1
  ok (custom policy version)
copy_backoff (fixed bounds delay) = do
  check_bounds bounds
  require_integer delay 0
  ok (fixed bounds delay)
copy_backoff (linear bounds initial increment) = do
  check_bounds bounds
  require_integer initial 0
  require_integer increment 0
  ok (linear bounds initial increment)
copy_backoff (exponential bounds initial factor) = do
  check_bounds bounds
  require_integer initial 0
  check_factor factor
  ok (exponential bounds initial factor)
copy_backoff (unsupported bounds) = do check_bounds bounds; err contract

-- The copy of a field that may be undefined.
abbrev pub copy_option {ℓ} : {A : Type ℓ} → (A → Result A) → Option A → Result (Option A)
copy_option copy none = ok none
copy_option copy (some a) = copy a >>= λ b. ok (some b)

unfoldable pub copy_retry : RetryOptions → Result RetryOptions
copy_retry retry = do
  require_integer retry.attempts 1
  backoff ← copy_option copy_backoff retry.backoff
  ok (record retry { backoff = backoff })

unfoldable pub copy_job_policy : JobPolicy → Result JobPolicy
copy_job_policy policy = do
  when_some policy.timeout_ms (λ n. require_integer n 0)
  when_some policy.delay_ms (λ n. require_integer n 0)
  when_some policy.priority (λ n. require_integer n 0)
  retry ← copy_option copy_retry policy.retry
  ok (record policy { retry = retry })

abbrev pub default_policy : ResolvedJobPolicy
default_policy = record {
  retry = record { attempts = nat 1; backoff = none };
  timeout_ms = none;
  priority = nat 0;
  delay_ms = nat 0;
}

-- One round of the loop, after the copy.
abbrev pub override : ResolvedJobPolicy → JobPolicy → ResolvedJobPolicy
override resolved policy = record {
  retry = or_else policy.retry resolved.retry;
  timeout_ms = or_option policy.timeout_ms resolved.timeout_ms;
  priority = or_else policy.priority resolved.priority;
  delay_ms = or_else policy.delay_ms resolved.delay_ms;
}

unfoldable pub resolve_from : ResolvedJobPolicy → List JobPolicy → Result ResolvedJobPolicy
resolve_from resolved [] = ok resolved
resolve_from resolved (layer ∷ layers) =
    copy_job_policy layer >>= λ policy. resolve_from (override resolved policy) layers

unfoldable pub resolve_job_policy : List JobPolicy → Result ResolvedJobPolicy
unfolding resolve_from
resolve_job_policy layers = resolve_from default_policy layers

-- What a test computes with.
unfoldable pub evaluation : Unit {0}
unfolding require_name require_integer check_jitter check_factor check_bounds copy_backoff
    copy_retry copy_job_policy resolve_job_policy
evaluation = tt
