-- ===== src/Outbox/Retry/Guards.antt =====
-- The optimistic guard of retryOutboxRecord, and the record that it requeues.
use mathlib.Core.Path.{subst}
use bettter_nest_mq.Prelude.{
  Failure, Bool-cases, inl, inr, ℕ, ◌+◌, ◌≤◌, ◌<◌, ◌≡◌, refl, true, false, Option, Text, Number,
  nat, max_safe, Result, ok, err, outbox, OutboxOperation, >>=-eq-ok, >>_iff, reject_if,
  reject_if_iff, reject_if-not_iff, rethrow, is_some, arith,
}
use bettter_nest_mq.Outbox.Options.{OutboxRetryOptions, integer}
use bettter_nest_mq.Outbox.Options.Bounds.{integer_iff}
use bettter_nest_mq.Outbox.Retry.{
  pending, failed, is_failed, OutboxRecord, requeued, is_stale, is_out_of_range,
  retry_outbox_record,
}

of_rethrow : {A : Type 0} (e : Failure) (m : Result A) (a : A) → rethrow e m ≡ ok a → m ≡ ok a
of_rethrow e (ok b) a h = h
of_rethrow e (err f) a h = cc h

module _ {Request Cause : Type 0} (request_id : Request → Option Text)
    (validate : OutboxRecord Request Cause → Result (OutboxRecord Request Cause)) where
  -- The inspected record is the stored one.
  pub record IsCurrent (r : OutboxRecord Request Cause) (options : OutboxRetryOptions ℕ)
      : Type 0 where
    pub updated : r.updated_at_ms ≡ options.expected.updated_at_ms
    pub made : r.attempts_made ≡ options.expected.attempts_made
    pub most : r.attempts_max ≡ options.expected.attempts_max

  -- What a retry at time `now` does to the record.
  pub record IsRequeued (r : OutboxRecord Request Cause) (options : OutboxRetryOptions ℕ) (now : ℕ)
      (next : OutboxRecord Request Cause) : Type 0 where
    pub was_failed : r.state ≡ failed
    pub current : IsCurrent r options
    pub identified : is_some (request_id r.request) ≡ true
    pub is_pending : next.state ≡ pending
    pub later : r.updated_at_ms < next.updated_at_ms
    pub not_before_now : now ≤ next.updated_at_ms
    pub in_range : (next.updated_at_ms ≤ max_safe) × (next.attempts_max ≤ max_safe)
    pub budget : next.attempts_max ≡ r.attempts_made + options.attempts
    pub due : next.updated_at_ms ≤ next.run_at_ms
    pub same_id : next.id ≡ r.id
    pub same_request : next.request ≡ r.request
    pub same_target : next.target ≡ r.target
    pub same_made : next.attempts_made ≡ r.attempts_made

  is_stale_iff :
      (r : OutboxRecord Request Cause) (options : OutboxRetryOptions ℕ)
      → is_stale r options ≡ false
      → IsCurrent r options
  is_stale_iff r options h = ground arith

  requeued-IsRequeued :
      (r : OutboxRecord Request Cause) (options : OutboxRetryOptions ℕ) (now : ℕ)
      → is_failed r.state ≡ true
      → is_stale r options ≡ false
      → is_some (request_id r.request) ≡ true
      → is_out_of_range r options now ≡ false
      → IsRequeued r options now (requeued r options now)
  requeued-IsRequeued r options now f s i o = record {
    was_failed = ground arith;
    current = is_stale_iff r options s;
    identified = i;
    is_pending = refl;
    later = omega arith;
    not_before_now = omega arith;
    in_range = (ground arith, ground arith);
    budget = refl;
    due = omega arith;
    same_id = refl;
    same_request = refl;
    same_target = refl;
    same_made = refl;
  }

  -- Whenever retryOutboxRecord returns, and validateOutboxRecord returns the record that it was
  -- given, the record was a failed one with a stable job id, exactly as the caller inspected it,
  -- and the result is that record made pending: strictly later than before and not before the
  -- given time, due no earlier than that, with `attempts` more attempts than were made, its
  -- numbers in the safe range and its id, request and target as they were.
  pub retry_outbox_record-IsRequeued :
      ((s t : OutboxRecord Request Cause) → validate s ≡ ok t → s ≡ t)
      → (r : OutboxRecord Request Cause) (options : OutboxRetryOptions ℕ) (now_ms : Number)
        (next : OutboxRecord Request Cause)
      → retry_outbox_record request_id validate r options now_ms ≡ ok next
      → (now : ℕ) × (now_ms ≡ nat now) × IsRequeued r options now next
  unfolding retry_outbox_record
  retry_outbox_record-IsRequeued faithful r options now_ms next e =
      let (f, e1) = (>>_iff _ _ next).0 e in
      let (s, e2) = (>>_iff _ _ next).0 e1 in
      let (i, e3) = (>>_iff _ _ next).0 e2 in
      let (now, n, e4) = >>=-eq-ok (integer OutboxOperation.retry now_ms 0) _ e3 in
      let (o, e5) =
        (>>_iff (reject_if (is_out_of_range r options now) (outbox OutboxOperation.retry)) _ next).0
          e4 in
      let v = faithful (requeued r options now) next (of_rethrow _ _ next e5) in
      (
        now,
        ((integer_iff _ _ _ _).0 n).0,
        subst (IsRequeued r options now) v (
            requeued-IsRequeued r options now
              ((reject_if-not_iff _ (outbox OutboxOperation.retry)).0 f)
              ((reject_if_iff _ (outbox OutboxOperation.conflict)).0 s)
              ((reject_if-not_iff _ (outbox OutboxOperation.retry)).0 i)
              ((reject_if_iff _ (outbox OutboxOperation.retry)).0 o)),
      )

  -- A caller who inspected another version of the record gets a conflict, whatever the options
  -- and the clock are, and a record that has not failed is not retried.
  pub retry_outbox_record_stale :
      (r : OutboxRecord Request Cause) (options : OutboxRetryOptions ℕ) (now_ms : Number)
      → r.state ≡ failed
      → ¬ IsCurrent r options
      → retry_outbox_record request_id validate r options now_ms
        ≡ err (outbox OutboxOperation.conflict)
  unfolding retry_outbox_record
  retry_outbox_record_stale r options now_ms f h = elim (Bool-cases (is_stale r options)) [
    | inl stale ↦ rw (f, stale)
    | inr fresh ↦ absurd (h (is_stale_iff r options fresh))
  ]
