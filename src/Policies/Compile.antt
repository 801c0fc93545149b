-- ===== src/Policies/Compile.antt =====
-- compileBackoff of engine/job-compiler.ts: the facade's backoff in the engine's persisted form.
use bettter_nest_mq.Prelude.{
  ◌≡◌, ap, Option, none, some, Number, nat, Result, ok, ◌>>=◌, >>=-eq-ok, arith,
}
use bettter_nest_mq.Policies.{Bounds, Backoff, RetryOptions, copy_retry}
use bettter_nest_mq.Policies.Validation.{copy_retry_iff}

pub data PersistedBackoff : Type 0 where
  constant : (delay_ms : Number) (bounds : Bounds) → PersistedBackoff
  linear : (delay_ms increment_ms : Number) (bounds : Bounds) → PersistedBackoff
  exponential : (delay_ms factor : Number) (bounds : Bounds) → PersistedBackoff

abbrev unbounded : Bounds
unbounded = record { max_delay_ms = none; jitter = none }

-- After the copy. copyRetry has thrown at `unsupported` already.
abbrev pub persisted : Option Backoff → Option PersistedBackoff
persisted none = some (PersistedBackoff.constant (nat 0) unbounded)
persisted (some (Backoff.custom policy version)) = none
persisted (some (Backoff.fixed bounds delay)) = some (PersistedBackoff.constant delay bounds)
persisted (some (Backoff.linear bounds initial increment)) =
    some (PersistedBackoff.linear initial increment bounds)
persisted (some (Backoff.exponential bounds initial factor)) =
    some (PersistedBackoff.exponential initial factor bounds)
persisted (some (Backoff.unsupported bounds)) = none

unfoldable pub compile_backoff : RetryOptions → Result (Option PersistedBackoff)
compile_backoff options = copy_retry options >>= λ retry. ok (persisted retry.backoff)

-- The facade's reading of a persisted backoff.
abbrev pub facade : PersistedBackoff → Backoff
facade (PersistedBackoff.constant delay bounds) = Backoff.fixed bounds delay
facade (PersistedBackoff.linear delay increment bounds) = Backoff.linear bounds delay increment
facade (PersistedBackoff.exponential delay factor bounds) = Backoff.exponential bounds delay factor

facade-persisted : (b : Backoff) (c : PersistedBackoff) → persisted (some b) ≡ some c → facade c ≡ b
facade-persisted (Backoff.fixed bounds delay) c e = ground arith
facade-persisted (Backoff.linear bounds delay increment) c e = ground arith
facade-persisted (Backoff.exponential bounds delay factor) c e = ground arith
facade-persisted (Backoff.custom policy version) c e = cc
facade-persisted (Backoff.unsupported bounds) c e = cc

-- The persisted form loses nothing: where a declared backoff compiles to a persisted one, the
-- declared backoff can be read back from it, its delays, factor, bound and jitter unchanged.
pub facade-compile_backoff :
    (options : RetryOptions) (b : Backoff) (c : PersistedBackoff)
    → options.backoff ≡ some b
    → compile_backoff options ≡ ok (some c)
    → facade c ≡ b
unfolding compile_backoff
facade-compile_backoff options b c declared e =
    let (retry, copied, same) = >>=-eq-ok (copy_retry options) _ e in
    let k = (copy_retry_iff options retry).0 copied in
    let q : retry.backoff ≡ some b = cc (declared, ap (λ r. r.backoff) (k.1)) in
    facade-persisted b c (cc (same, ap persisted q))
