-- ===== src/Outbox/Options/Bounds.antt =====
-- The bounds that resolved outbox options and copied retry options keep.
use mathlib.Core.Path.{subst}
use bettter_nest_mq.Prelude.{
  ℕ, ◌/◌, ◌≤◌, ◌<◌, ◌≡◌, ◌↔◌, none, some, Number, nat, max_safe, ok, outbox, OutboxOperation,
  >>=-eq-ok, >>_iff, ok-injective, reject_if, or_else, ltb, leb, max, arith,
}
use bettter_nest_mq.Outbox.Options.{
  integer, MqOutboxOptions, ResolvedOutboxOptions, max_timer, timer_field, resolve_outbox_options,
}

-- `integer` returns the number itself, exactly if it is a safe integer of at least the minimum.
pub integer_iff :
    (operation : OutboxOperation) (value : Number) (least n : ℕ)
    → (integer operation value least ≡ ok n) ↔ ((value ≡ nat n) × (least ≤ n) × (n ≤ max_safe))
unfolding integer
integer_iff operation (nat m) least n = ground arith
integer_iff operation (Number.minus m) least n = ((λ e. cc e), λ h. cc (h.0))
integer_iff operation value least n = ((λ e. cc e), λ h. cc (h.0))

timer_field_iff :
    (value : Number) (n : ℕ)
    → (timer_field value ≡ ok n) ↔ ((value ≡ nat n) × (1 ≤ n) × (n ≤ max_timer))
unfolding timer_field integer
timer_field_iff (nat m) n = ground arith
timer_field_iff (Number.fraction m f) n = ground arith
timer_field_iff value n = ((λ e. cc e), λ h. cc (h.0))

abbrev IsTimer : ℕ → Type 0
IsTimer n = (1 ≤ n) × (n ≤ max_timer)

IsTimer-range : (value : Number) (n : ℕ) → timer_field value ≡ ok n → IsTimer n
IsTimer-range value n e = let k = (timer_field_iff value n).0 e in (k.1, k.2)

pub record IsResolved (o : ResolvedOutboxOptions) : Type 0 where
  pub concurrency : IsTimer o.concurrency
  pub lease : IsTimer o.lease_duration_ms
  pub heartbeat : IsTimer o.heartbeat_interval_ms
  pub poll : IsTimer o.poll_interval_ms
  pub base : IsTimer o.retry_base_delay_ms
  pub longest : IsTimer o.retry_max_delay_ms
  pub beats : o.heartbeat_interval_ms < o.lease_duration_ms
  pub ordered : o.retry_base_delay_ms ≤ o.retry_max_delay_ms

-- Whenever resolveOutboxOptions returns, each field is a positive timer delay, the heartbeat is
-- shorter than the lease, and the longest retry delay is not below the base delay.
pub resolve_outbox_options-IsResolved :
    (options : MqOutboxOptions) (o : ResolvedOutboxOptions)
    → resolve_outbox_options options ≡ ok o
    → IsResolved o
unfolding resolve_outbox_options
resolve_outbox_options-IsResolved options o e =
    let (concurrency, c, e1) = >>=-eq-ok (timer_field (or_else options.concurrency (nat 1))) _ e in
    let (lease, l, e2) =
      >>=-eq-ok (timer_field (or_else options.lease_duration_ms (nat 30000))) _ e1 in
    let (beat, h, e3) = >>=-eq-ok (timer_field _) _ e2 in
    let (poll, p, e4) = >>=-eq-ok (timer_field (or_else options.poll_interval_ms (nat 100))) _ e3 in
    let (base, b, e5) =
      >>=-eq-ok (timer_field (or_else options.retry_base_delay_ms (nat 1000))) _ e4 in
    let (longest, m, e6) =
      >>=-eq-ok (timer_field (or_else options.retry_max_delay_ms (nat 60000))) _ e5 in
    let (beats, e7) =
      (>>_iff (reject_if (leb lease beat) (outbox OutboxOperation.configuration)) _ o).0 e6 in
    let (ordered, last) =
      (>>_iff (reject_if (ltb longest base) (outbox OutboxOperation.configuration)) _ o).0 e7 in
    let q = ok-injective last in
    subst IsResolved q (record {
      concurrency = IsTimer-range _ concurrency c;
      lease = IsTimer-range _ lease l;
      heartbeat = IsTimer-range _ beat h;
      poll = IsTimer-range _ poll p;
      base = IsTimer-range _ base b;
      longest = IsTimer-range _ longest m;
      beats = ground arith;
      ordered = ground arith;
    })

abbrev pub leased : ℕ → MqOutboxOptions
leased n = record {
  concurrency = none;
  lease_duration_ms = some (nat n);
  heartbeat_interval_ms = none;
  poll_interval_ms = none;
  retry_base_delay_ms = none;
  retry_max_delay_ms = none;
}

abbrev pub with_lease : ℕ → ResolvedOutboxOptions
with_lease n = record {
  concurrency = 1;
  lease_duration_ms = n;
  heartbeat_interval_ms = max 1 (n / 3);
  poll_interval_ms = 100;
  retry_base_delay_ms = 1000;
  retry_max_delay_ms = 60000;
}

-- With nothing but a lease given, the default heartbeat, a third of the lease and at least one
-- millisecond, fits every lease in the timer range but that of a single millisecond, which is
-- refused.
pub resolve_outbox_options-leased_iff :
    (n : ℕ) → (resolve_outbox_options (leased n) ≡ ok (with_lease n)) ↔ ((2 ≤ n) × (n ≤ max_timer))
unfolding resolve_outbox_options timer_field integer
resolve_outbox_options-leased_iff n = ground arith
