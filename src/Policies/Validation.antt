-- ===== src/Policies/Validation.antt =====
-- What copyBackoff, copyRetry and copyJobPolicy of contracts/policies.ts accept.
use bettter_nest_mq.Prelude.{
  ℕ, ◌≤◌, ◌≡◌, ◌↔◌, refl, Option, none, some, Number, nat, minus, fraction, max_safe, Result, ok,
  arith, >>=-eq-ok, >>_iff,
}
use bettter_nest_mq.Policies.{
  Bounds, Backoff, fixed, linear, exponential, custom, unsupported, RetryOptions, JobPolicy,
  require_integer, check_jitter, check_factor, check_bounds, copy_backoff, copy_retry,
  copy_job_policy, when_some, copy_option,
}
use bettter_nest_mq.Policies.Names.{IsName, require_name_iff}

-- A whole number from `least` to Number.MAX_SAFE_INTEGER.
abbrev pub IsWhole : ℕ → Number → Type 0
IsWhole least (nat n) = (least ≤ n) × (n ≤ max_safe)
IsWhole least _ = ⊥

-- A share: zero, one, or a fraction between them.
abbrev pub IsShare : Number → Type 0
IsShare (nat n) = n ≤ 1
IsShare (fraction n f) = n ≡ 0
IsShare _ = ⊥

-- A finite factor of at least one.
abbrev pub IsFactor : Number → Type 0
IsFactor (nat n) = 1 ≤ n
IsFactor (fraction n f) = 1 ≤ n
IsFactor _ = ⊥

abbrev pub WhenSome : {A : Type 0} → (A → Type 0) → Option A → Type 0
WhenSome P none = Unit {0}
WhenSome P (some n) = P n

abbrev pub IsBounds : Bounds → Type 0
IsBounds b = WhenSome IsShare b.jitter × WhenSome (IsWhole 0) b.max_delay_ms

abbrev pub IsBackoff : Backoff → Type 0
IsBackoff (fixed b d) = IsBounds b × IsWhole 0 d
IsBackoff (linear b i n) = IsBounds b × IsWhole 0 i × IsWhole 0 n
IsBackoff (exponential b i f) = IsBounds b × IsWhole 0 i × IsFactor f
IsBackoff (custom p v) = IsName p × IsWhole 1 v
IsBackoff (unsupported b) = ⊥

abbrev pub IsRetry : RetryOptions → Type 0
IsRetry r = IsWhole 1 r.attempts × WhenSome IsBackoff r.backoff

abbrev pub IsJobPolicy : JobPolicy → Type 0
IsJobPolicy p =
    WhenSome (IsWhole 0) p.timeout_ms
    × WhenSome (IsWhole 0) p.delay_ms
    × WhenSome (IsWhole 0) p.priority
    × WhenSome IsRetry p.retry

pub require_integer_iff :
    (value : Number) (least : ℕ) → (require_integer value least ≡ ok tt) ↔ IsWhole least value
unfolding require_integer
require_integer_iff (nat n) least = ground arith
require_integer_iff (minus n) least = ground arith
require_integer_iff value least = ((λ e. cc e), λ h. absurd h)

check_jitter_iff : (value : Number) → (check_jitter value ≡ ok tt) ↔ IsShare value
unfolding check_jitter
check_jitter_iff (nat n) = ground arith
check_jitter_iff (fraction n f) = ground arith
check_jitter_iff value = ((λ e. cc e), λ h. absurd h)

pub when_some_iff :
    (o : Option Number) (check : Number → Result (Unit {0})) (P : Number → Type 0)
    → ((n : Number) → (check n ≡ ok tt) ↔ P n)
    → (when_some o check ≡ ok tt) ↔ WhenSome P o
when_some_iff none check P h = ((λ _. tt), λ _. refl)
when_some_iff (some n) check P h = h n

when-IsWhole_iff :
    (o : Option Number) → (when_some o (λ n. require_integer n 0) ≡ ok tt) ↔ WhenSome (IsWhole 0) o
when-IsWhole_iff o = when_some_iff o _ (IsWhole 0) (λ n. require_integer_iff n 0)

check_factor_iff : (value : Number) → (check_factor value ≡ ok tt) ↔ IsFactor value
unfolding check_factor
check_factor_iff (nat n) = ground arith
check_factor_iff (fraction n f) = ground arith
check_factor_iff value = ((λ e. cc e), λ h. absurd h)

check_bounds_iff : (b : Bounds) → (check_bounds b ≡ ok tt) ↔ IsBounds b
unfolding check_bounds
check_bounds_iff b =
    let j : (when_some b.jitter check_jitter ≡ ok tt) ↔ WhenSome IsShare b.jitter =
      when_some_iff b.jitter check_jitter IsShare check_jitter_iff in
    let m : (when_some b.max_delay_ms (λ n. require_integer n 0) ≡ ok tt)
        ↔ WhenSome (IsWhole 0) b.max_delay_ms =
      when-IsWhole_iff b.max_delay_ms in
    let s =
      >>_iff (when_some b.jitter check_jitter) (when_some b.max_delay_ms (λ n. require_integer n 0))
        tt in
    ((λ e. (j.0 (s.0 e).0, m.0 (s.0 e).1)), λ h. s.1 (j.1 h.0, m.1 h.1))

-- A copied policy is the policy itself, and the copy is made exactly of well-formed policies.
copy_backoff_iff : (b c : Backoff) → (copy_backoff b ≡ ok c) ↔ (IsBackoff b × (b ≡ c))
unfolding copy_backoff
copy_backoff_iff (fixed b d) c = ground (arith, check_bounds_iff b, require_integer_iff d 0)
copy_backoff_iff (linear b i n) c =
    ground (arith, check_bounds_iff b, require_integer_iff i 0, require_integer_iff n 0)
copy_backoff_iff (exponential b i f) c =
    ground (arith, check_bounds_iff b, require_integer_iff i 0, check_factor_iff f)
copy_backoff_iff (custom p v) c = ground (arith, require_name_iff p, require_integer_iff v 1)
copy_backoff_iff (unsupported b) c = ground (arith, check_bounds_iff b)

pub copy_option_iff :
    {A : Type 0} (copy : A → Result A) (P : A → Type 0)
    → ((a b : A) → (copy a ≡ ok b) ↔ (P a × (a ≡ b)))
    → (o p : Option A) → (copy_option copy o ≡ ok p) ↔ (WhenSome P o × (o ≡ p))
copy_option_iff copy P h none p = ((λ e. (tt, cc e)), λ k. cc (k.1))
copy_option_iff copy P h (some a) p = (
  λ e. let (b, m, k) = >>=-eq-ok (copy a) _ e in let same = (h a b).0 m in (same.0, cc (same.1, k)),
  λ k. rw ((h a a).1 (k.0, refl)) (cc (k.1)),
)

-- copyRetry returns its argument, and throws unless the attempts are a positive safe integer and
-- the backoff is well-formed.
pub copy_retry_iff : (r s : RetryOptions) → (copy_retry r ≡ ok s) ↔ (IsRetry r × (r ≡ s))
unfolding copy_retry
copy_retry_iff r s = (
  λ e.
      let (whole, rest) = (>>_iff _ _ s).0 e in
      let (b, copied, same) = >>=-eq-ok (copy_option copy_backoff r.backoff) _ rest in
      let k = (copy_option_iff copy_backoff IsBackoff copy_backoff_iff r.backoff b).0 copied in
      (((require_integer_iff _ 1).0 whole, k.0), cc (k.1, same)),
  λ h. (>>_iff _ _ s).1 (
    (require_integer_iff _ 1).1 h.0.0,
    rw
        ((copy_option_iff copy_backoff IsBackoff copy_backoff_iff r.backoff r.backoff).1
          (h.0.1, refl))
        (cc (h.1)),
  ),
)

-- copyJobPolicy returns its argument, and throws unless every number that is given is a safe
-- integer of at least zero and the retry policy is well-formed.
pub copy_job_policy_iff : (p q : JobPolicy) → (copy_job_policy p ≡ ok q) ↔ (IsJobPolicy p × (p ≡ q))
unfolding copy_job_policy
copy_job_policy_iff p q = (
  λ e.
      let (timeout, e') = (>>_iff _ _ q).0 e in
      let (delay, e'') = (>>_iff _ _ q).0 e' in
      let (priority, rest) = (>>_iff _ _ q).0 e'' in
      let (r, copied, same) = >>=-eq-ok (copy_option copy_retry p.retry) _ rest in
      let k = (copy_option_iff copy_retry IsRetry copy_retry_iff p.retry r).0 copied in
      (
        (
          (when-IsWhole_iff _).0 timeout,
          (when-IsWhole_iff _).0 delay,
          (when-IsWhole_iff _).0 priority,
          k.0,
        ),
        cc (k.1, same),
      ),
  λ h. (>>_iff _ _ q).1 (
    (when-IsWhole_iff _).1 h.0.0,
    (>>_iff _ _ q).1 (
      (when-IsWhole_iff _).1 h.0.1,
      (>>_iff _ _ q).1 (
        (when-IsWhole_iff _).1 h.0.2,
        rw ((copy_option_iff copy_retry IsRetry copy_retry_iff p.retry p.retry).1 (h.0.3, refl))
            (cc (h.1)),
      ),
    ),
  ),
)
