-- ===== src/Publication/DispatchKeys.antt =====
-- Dispatch keys, and what every accepted publication satisfies.
use mathlib.Core.Path.{subst}
use bettter_nest_mq.Prelude.{
  ◌≤◌, ◌≡◌, ◌≢◌, ◌↔◌, refl, Bool, true, false, not, ◌&&◌, ◌||◌, Option, none, some, Text, text_eq,
  text_eq_iff, codes, includes, length, ltb, Number, ok, contract, ◌>>=◌, >>=-eq-ok, >>_iff,
  ok-injective, reject_if, reject_if_iff, or_else, or_option, is_some, arith,
}
use bettter_nest_mq.Policies.{require_name, require_integer, when_some}
use bettter_nest_mq.Policies.Names.{IsName, require_name_iff}
use bettter_nest_mq.Policies.Validation.{IsWhole, WhenSome, when_some_iff, require_integer_iff}
use bettter_nest_mq.Policies.Compile.{compile_backoff}
use bettter_nest_mq.Publication.{
  RegisteredJob, EnqueueOptions, EngineEnqueueOptions, validate_dispatch_key, same_text,
  publication_key, retry_reference_key, get, retry_reference, publication_retry,
  publication_metadata, enqueue_options, engine_options, relative_delay,
}
use bettter_nest_mq.Publication.References.{
  publication_retry-reference_iff, get-publication_metadata,
}

-- A name of at most 512 units, not the reserved bucket, without NUL.
abbrev pub IsDispatchKey : Text → Type 0
IsDispatchKey key =
    IsName key × (key ≢ codes "__none__") × (length key ≤ 512) × (includes 0 key ≡ false)

forbidden_iff :
    (key : Text)
    → ((text_eq key (codes "__none__") || (ltb 512 (length key) || includes 0 key)) ≡ false)
      ↔ ((key ≢ codes "__none__") × (length key ≤ 512) × (includes 0 key ≡ false))
forbidden_iff key = ground (arith, text_eq_iff key (codes "__none__"))

-- validateDispatchKey returns its argument, exactly if that is a dispatch key.
validate_dispatch_key_iff :
    (key k : Text) → (validate_dispatch_key key ≡ ok k) ↔ (IsDispatchKey key × (key ≡ k))
unfolding validate_dispatch_key
validate_dispatch_key_iff key k = (
  λ e.
      let (name, rest) = (>>_iff (require_name key) _ k).0 e in
      let (allowed, same) = (>>_iff _ _ k).0 rest in
      let f = (forbidden_iff key).0 ((reject_if_iff _ contract).0 allowed) in
      (((require_name_iff key).0 name, f.0, f.1, f.2), cc same),
  λ h. (>>_iff (require_name key) _ k).1 (
    (require_name_iff key).1 h.0.0,
    (>>_iff _ _ k).1
        ((reject_if_iff _ contract).1 ((forbidden_iff key).1 (h.0.1, h.0.2, h.0.3)), cc (h.1)),
  ),
)

check_key_iff :
    (key : Text)
    → (◌>>=◌ {Next = Unit {0}} (validate_dispatch_key key) (λ _. ok tt) ≡ ok tt) ↔ IsDispatchKey key
check_key_iff key = (
  λ e.
      let (k, valid, _) = >>=-eq-ok (validate_dispatch_key key) _ e in
      ((validate_dispatch_key_iff key k).0 valid).0,
  λ h. rw ((validate_dispatch_key_iff key key).1 (h, refl)),
)

-- Where both a derived and a supplied key are there, they are one.
abbrev pub Agree : Option Text → Option Text → Type 0
Agree (some a) (some b) = a ≡ b
Agree _ _ = Unit {0}

Agree-iff :
    (derived supplied : Option Text)
    → ((is_some derived && (is_some supplied && not (same_text derived supplied))) ≡ false)
      ↔ Agree derived supplied
Agree-iff none s = ((λ _. tt), λ _. refl)
Agree-iff (some a) none = ((λ _. tt), λ _. refl)
Agree-iff (some a) (some b) = ground (arith, text_eq_iff a b)

keys_iff :
    (o : Option Text)
    → (when_some o (λ key. validate_dispatch_key key >>= λ _. ok tt) ≡ ok tt)
      ↔ WhenSome IsDispatchKey o
keys_iff none = ((λ _. tt), λ _. refl)
keys_iff (some key) = check_key_iff key

-- publicationOptions passes on the key that the job derives, or else the supplied one. It throws
-- exactly if one of the two is no dispatch key or they differ: a caller cannot override a
-- derived key.
pub publication_key_iff :
    (derived supplied key : Option Text)
    → (publication_key derived supplied ≡ ok key) ↔ (
        WhenSome IsDispatchKey derived
        × WhenSome IsDispatchKey supplied
        × Agree derived supplied
        × (or_option derived supplied ≡ key))
unfolding publication_key
publication_key_iff derived supplied key = (
  λ e.
      let (d, e') = (>>_iff _ _ key).0 e in
      let (s, e'') = (>>_iff _ _ key).0 e' in
      let (a, same) = (>>_iff _ _ key).0 e'' in
      (
        (keys_iff derived).0 d,
        (keys_iff supplied).0 s,
        (Agree-iff derived supplied).0 ((reject_if_iff _ contract).0 a),
        cc same,
      ),
  λ h. (>>_iff _ _ key).1 (
    (keys_iff derived).1 h.0,
    (>>_iff _ _ key).1 (
      (keys_iff supplied).1 h.1,
      (>>_iff _ _ key).1
          ((reject_if_iff _ contract).1 ((Agree-iff derived supplied).1 h.2), cc (h.3)),
    ),
  ),
)

keyed_of :
    (limited : Bool) (key : Option Text)
    → reject_if (limited && not (is_some key)) contract ≡ ok tt
    → limited ≡ true
    → is_some key ≡ true
keyed_of limited key e h = ground arith

is_some-relative_delay :
    (at : Option Number) (delay : Number) → is_some at ≡ not (is_some (relative_delay at delay))
is_some-relative_delay none delay = refl
is_some-relative_delay (some _) delay = refl

module _ (json : Text → Number → Text) (job : RegisteredJob) where
  -- What the engine receives for a job of this contract.
  pub record IsPublication (p : EngineEnqueueOptions) : Type 0 where
    pub keyed : job.per_key_limited ≡ true → is_some p.dispatch_key ≡ true
    pub key_valid : WhenSome IsDispatchKey p.dispatch_key
    pub attempts : IsWhole 1 p.attempts
    pub timeout : WhenSome (IsWhole 1) p.timeout_ms
    pub reference : get retry_reference_key p.metadata ≡ retry_reference json job
    pub one_time : is_some p.at ≡ not (is_some p.delay_ms)

  -- Every publication that enqueueOptions accepts carries a valid dispatch key wherever the queue
  -- is limited per key, a positive number of attempts, a positive timeout if any, the job's retry
  -- reference, and exactly one of an absolute time and a relative delay.
  pub enqueue_options-IsPublication :
      (options : EnqueueOptions) (p : EngineEnqueueOptions)
      → enqueue_options json job options ≡ ok p
      → IsPublication p
  unfolding enqueue_options
  enqueue_options-IsPublication options p e =
      let (key, e1) = (>>_iff _ _ p).0 e in
      let (limited, e2) = (>>_iff _ _ p).0 e1 in
      let (retry, retried, e3) = >>=-eq-ok (publication_retry json job options.retry) _ e2 in
      let (timed, e4) = (>>_iff _ _ p).0 e3 in
      let (metadata, published, e5) =
        >>=-eq-ok (publication_metadata json job options.metadata) _ e4 in
      let (backoff, compiled, e6) = >>=-eq-ok (compile_backoff retry) _ e5 in
      let (apart, same) = (>>_iff _ _ p).0 e6 in
      let q : engine_options job options retry metadata backoff ≡ p = ok-injective same in
      subst IsPublication q (record {
        keyed = λ h. keyed_of job.per_key_limited options.dispatch_key limited h;
        key_valid = (keys_iff options.dispatch_key).0 key;
        attempts = ((publication_retry-reference_iff json job options.retry retry).0 retried).0.0;
        timeout =
            (when_some_iff (or_option options.timeout_ms job.policy.timeout_ms)
                (λ n. require_integer n 1) (IsWhole 1) (λ n. require_integer_iff n 1)).0
              timed;
        reference = get-publication_metadata json job options.metadata metadata published;
        one_time = is_some-relative_delay options.at (or_else options.delay_ms job.policy.delay_ms);
      })
