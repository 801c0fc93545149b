-- ===== src/Publication/References.antt =====
-- The retry reference that a publication carries in its metadata and that a worker checks before
-- it decides: publicationRetry, publicationMetadata and assertRetryReference.
use bettter_nest_mq.Prelude.{
  ◌≤◌, max_safe, ◌≡◌, ◌↔◌, refl, sym, ◌∙◌, true, false, Option, none, some, [], ◌∷◌, ◌++◌, Text,
  text_eq_refl, text_eq_iff, ℕ, Number, nat, ok, contract, >>=-eq-ok, >>_iff, ok-injective,
  reject_if_iff, reject_if-not_iff, or_else, is_some, arith,
}
use bettter_nest_mq.Policies.{
  Backoff, fixed, linear, exponential, custom, unsupported, RetryOptions, copy_retry,
}
use bettter_nest_mq.Policies.Validation.{IsWhole, WhenSome, IsBackoff, IsRetry, copy_retry_iff}
use bettter_nest_mq.Publication.{
  Metadata, get, same_text, retry_reference_key, RegisteredJob, backoff_reference, retry_reference,
  publication_retry, with_reference, publication_metadata, assert_retry_reference,
}

pub same_text_iff : (a b : Option Text) → (same_text a b ≡ true) ↔ (a ≡ b)
same_text_iff none none = ground arith
same_text_iff (some a) (some b) = ground (arith, text_eq_iff a b)
same_text_iff none (some b) = ground arith
same_text_iff (some a) none = ground arith

get-append :
    (key value : Text) (metadata : Metadata)
    → get key metadata ≡ none
    → get key (metadata ++ (key, value) ∷ []) ≡ some value
unfolding get
get-append key value [] h = rw (text_eq_refl key, get)
get-append key value ((k, v) ∷ rest) h = ground (arith, get-append key value rest)

get_absent :
    (metadata : Metadata)
    → is_some (get retry_reference_key metadata) ≡ false
    → get retry_reference_key metadata ≡ none
get_absent metadata h = ground arith

get-with_reference :
    (reference : Option Text) (metadata published : Metadata)
    → get retry_reference_key metadata ≡ none
    → with_reference reference metadata ≡ published
    → get retry_reference_key published ≡ reference
get-with_reference none metadata published h e = rw (← e) h
get-with_reference (some r) metadata published h e =
    rw (← e) (get-append retry_reference_key r metadata h)

-- A custom policy, by its name and its version.
abbrev named : Text → Number → Option (Text × Number)
named policy version = some (policy, version)

named-injective : (p q : Text) (m n : ℕ) → named p (nat m) ≡ named q (nat n) → (p ≡ q) × (m ≡ n)
named-injective p q m n e = (cc e, cc e)

module _ (json : Text → Number → Text) where
  pub publication_retry-reference_iff :
      (job : RegisteredJob) (override : Option RetryOptions) (r : RetryOptions)
      → (publication_retry json job override ≡ ok r) ↔ (
          IsRetry r
          × (or_else override job.policy.retry ≡ r)
          × (backoff_reference json r.backoff ≡ retry_reference json job))
  unfolding publication_retry
  publication_retry-reference_iff job override r = (
    λ e.
        let (retry, copied, rest) =
          >>=-eq-ok (copy_retry (or_else override job.policy.retry)) _ e in
        let (valid, same) = (copy_retry_iff _ retry).0 copied in
        let (agree, last) = (>>_iff _ _ r).0 rest in
        let final : retry ≡ r = ok-injective last in
        let q : or_else override job.policy.retry ≡ r = same ∙ final in
        let named : backoff_reference json retry.backoff ≡ retry_reference json job =
          (same_text_iff _ _).0 ((reject_if-not_iff _ contract).0 agree) in
        (rw q at valid, q, rw final at named),
    λ h.
        rw ((copy_retry_iff (or_else override job.policy.retry) r).1 (rw (← h.1) at (h.0), h.1))
          ((>>_iff _ _ r).1 ((reject_if-not_iff _ contract).1 ((same_text_iff _ _).1 (h.2)), refl)),
  )

  pub get-publication_metadata :
      (job : RegisteredJob) (metadata : Option Metadata) (published : Metadata)
      → publication_metadata json job metadata ≡ ok published
      → get retry_reference_key published ≡ retry_reference json job
  unfolding publication_metadata
  get-publication_metadata job metadata published e =
      let (absent, same) = (>>_iff _ _ published).0 e in
      let missing = get_absent (or_else metadata []) ((reject_if_iff _ contract).0 absent) in
      get-with_reference (retry_reference json job) (or_else metadata []) published missing
        (cc same)

  assert-reference_iff :
      (job worker : RegisteredJob) (metadata : Option Metadata) (published : Metadata)
      → publication_metadata json job metadata ≡ ok published
      → (assert_retry_reference json worker published ≡ ok tt)
        ↔ (retry_reference json job ≡ retry_reference json worker)
  unfolding assert_retry_reference
  assert-reference_iff job worker metadata published e =
      let carried = get-publication_metadata job metadata published e in
      (
        λ h. sym carried ∙ (same_text_iff _ _).0 ((reject_if-not_iff _ contract).0 h),
        λ h. (reject_if-not_iff _ contract).1 ((same_text_iff _ _).1 (carried ∙ h)),
      )

-- The name and the version of a custom backoff.
abbrev pub custom_policy : Option Backoff → Option (Text × Number)
custom_policy (some (custom policy version)) = some (policy, version)
custom_policy _ = none

-- The version is one of a well-formed policy.
abbrev HasVersion : Option (Text × Number) → Type 0
HasVersion = WhenSome (λ c. IsWhole 1 (c.1))

custom_policy-HasVersion :
    (a : Option Backoff) → WhenSome IsBackoff a → HasVersion (custom_policy a)
custom_policy-HasVersion none h = tt
custom_policy-HasVersion (some (custom p v)) h = h.1
custom_policy-HasVersion (some (fixed b d)) h = tt
custom_policy-HasVersion (some (linear b i n)) h = tt
custom_policy-HasVersion (some (exponential b i f)) h = tt
custom_policy-HasVersion (some (unsupported b)) h = tt

abbrev reference_of : (Text → Number → Text) → Option (Text × Number) → Option Text
reference_of json none = none
reference_of json (some (p, v)) = some (json p v)

backoff_reference-eq :
    (json : Text → Number → Text) (a : Option Backoff)
    → backoff_reference json a ≡ reference_of json (custom_policy a)
backoff_reference-eq json none = refl
backoff_reference-eq json (some (custom p v)) = refl
backoff_reference-eq json (some (fixed b d)) = refl
backoff_reference-eq json (some (linear b i n)) = refl
backoff_reference-eq json (some (exponential b i f)) = refl
backoff_reference-eq json (some (unsupported b)) = refl

-- JSON.stringify of an array of a string and a safe integer has distinct texts for distinct arrays.
module _ (json : Text → Number → Text)
    (distinct : (policy policy' : Text) (version version' : ℕ)
      → version ≤ max_safe
      → version' ≤ max_safe
      → json policy (nat version) ≡ json policy' (nat version')
      → (policy ≡ policy') × (version ≡ version')) where
  custom_reference_iff :
      (p q : Text) (v w : Number)
      → IsWhole 1 v
      → IsWhole 1 w
      → (some (json p v) ≡ some (json q w)) ↔ (named p v ≡ named q w)
  custom_reference_iff p q (nat v) (nat w) h k = (
    λ e. let (names, versions) = distinct p q v w (h.1) (k.1) (cc e) in rw (names, versions) refl,
    λ e. let (names, versions) = named-injective p q v w e in rw (names, versions) refl,
  )
  custom_reference_iff p q (nat v) w h k = absurd k
  custom_reference_iff p q v w h k = absurd h

  policy_reference_iff :
      (c d : Option (Text × Number))
      → HasVersion c
      → HasVersion d
      → (reference_of json c ≡ reference_of json d) ↔ (c ≡ d)
  policy_reference_iff none none h k = ((λ e. refl), λ e. refl)
  policy_reference_iff none (some (q, w)) h k = ((λ e. cc e), λ e. cc e)
  policy_reference_iff (some (p, v)) none h k = ((λ e. cc e), λ e. cc e)
  policy_reference_iff (some (p, v)) (some (q, w)) h k = custom_reference_iff p q v w h k

  reference_iff :
      (a b : Option Backoff)
      → WhenSome IsBackoff a
      → WhenSome IsBackoff b
      → (backoff_reference json a ≡ backoff_reference json b) ↔ (custom_policy a ≡ custom_policy b)
  reference_iff a b h k =
      let s =
        policy_reference_iff (custom_policy a) (custom_policy b) (custom_policy-HasVersion a h)
          (custom_policy-HasVersion b k) in
      rw (backoff_reference-eq json a, backoff_reference-eq json b) s

  -- A publication keeps its retry policy: for a job with a well-formed policy, publicationRetry
  -- returns the override, or else the declared policy, and does so exactly if that is well-formed
  -- and has the name and the version of the custom policy that the job declares, or is not custom
  -- where the job declares none; if JSON.stringify tells such names and versions apart.
  pub publication_retry_iff :
      (job : RegisteredJob) (override : Option RetryOptions) (r : RetryOptions)
      → IsRetry job.policy.retry
      → (publication_retry json job override ≡ ok r) ↔ (
          IsRetry r
          × (or_else override job.policy.retry ≡ r)
          × (custom_policy r.backoff ≡ custom_policy job.policy.retry.backoff))
  unfolding retry_reference
  publication_retry_iff job override r valid =
      let s = publication_retry-reference_iff json job override r in
      (
        λ e.
            let (ok_retry, given, named) = s.0 e in
            (
              ok_retry,
              given,
              (reference_iff r.backoff job.policy.retry.backoff (ok_retry.1) (valid.1)).0 named,
            ),
        λ h. s.1 (
          h.0,
          h.1,
          (reference_iff r.backoff job.policy.retry.backoff (h.0.1) (valid.1)).1 (h.2),
        ),
      )

  -- A worker accepts published metadata exactly if its own job has the custom retry policy of the
  -- job that published, by its name and its version, or if neither has a custom one: a deployment
  -- with another policy or version is refused, the same is not. Both jobs' policies are
  -- well-formed, and JSON.stringify tells such names and versions apart.
  pub assert-publication_metadata_iff :
      (job worker : RegisteredJob) (metadata : Option Metadata) (published : Metadata)
      → IsRetry job.policy.retry
      → IsRetry worker.policy.retry
      → publication_metadata json job metadata ≡ ok published
      → (assert_retry_reference json worker published ≡ ok tt)
        ↔ (custom_policy job.policy.retry.backoff ≡ custom_policy worker.policy.retry.backoff)
  unfolding retry_reference
  assert-publication_metadata_iff job worker metadata published valid valid' e =
      let s = assert-reference_iff json job worker metadata published e in
      let t =
        reference_iff job.policy.retry.backoff worker.policy.retry.backoff (valid.1) (valid'.1) in
      ((λ h. t.0 (s.0 h)), λ h. s.1 (t.1 h))
