-- ===== src/Schedules/Declarations.antt =====
-- Which declarations of a schedule are accepted.
use bettter_nest_mq.Prelude.{
  ◌≤◌, ◌≡◌, ◌⊎◌, inl, inr, refl, Bool, true, false, Option, none, some, Text, ltb, Number, nat,
  minus, fraction, minus_fraction, infinity, minus_infinity, nan, Result, ok, Failure, schedule,
  SchedulePhase, reject_if_iff, require, >>_iff, >>=-eq-ok, ok-injective, Eq, same, same_iff, sym,
  ap, ◌∙◌, [], ◌∷◌, is_some, arith,
}
use bettter_nest_mq.Policies.{RetryOptions, copy_option, copy_retry, require_integer, when_some}
use bettter_nest_mq.Schema.{Json, Stringified, text, undefined, thrown}
use bettter_nest_mq.Policies.Validation.{
  IsWhole, require_integer_iff, WhenSome, IsRetry, copy_retry_iff, copy_option_iff,
}
use bettter_nest_mq.Schedules.{
  ScheduleOptions, Engine, Misfire, skip, run_once, unsupported, catch_up, Overlap, allow_overlap,
  skip_overlap, other_overlap, max_occurrences_per_tick, check_misfire, check_overlap,
  GivenMetadata, check_metadata, check_payload, copy_payload, check_cadence, check_name,
  check_schedule, copy_schedule,
}
use bettter_nest_mq.Schedules.Options.{IsScheduleName, rethrow-ok_iff, check_name_iff}

-- How often a misfired schedule is caught up in one tick.
abbrev pub IsMisfire : Misfire → Type 0
IsMisfire (catch_up (nat n)) = (1 ≤ n) × (n ≤ max_occurrences_per_tick)
IsMisfire (catch_up _) = ⊥
IsMisfire unsupported = ⊥
IsMisfire _ = Unit

check_misfire-IsMisfire : (m : Misfire) → check_misfire m ≡ ok tt → IsMisfire m
check_misfire-IsMisfire skip h = tt
check_misfire-IsMisfire run_once h = tt
check_misfire-IsMisfire unsupported h = cc h
check_misfire-IsMisfire (catch_up (nat n)) h =
    let (whole, late) = (>>_iff (require_integer (nat n) 1) _ tt).0 h in
    let (least, _) = (require_integer_iff (nat n) 1).0 whole in
    let range =
      (reject_if_iff (ltb max_occurrences_per_tick n) (schedule SchedulePhase.definition)).0 late in
    (least, ground arith)
check_misfire-IsMisfire (catch_up (minus n)) h =
    absurd ((require_integer_iff (minus n) 1).0 ((>>_iff (require_integer (minus n) 1) _ tt).0 h).0)
check_misfire-IsMisfire (catch_up (fraction n f)) h = absurd (
    (require_integer_iff (fraction n f) 1).0
      ((>>_iff (require_integer (fraction n f) 1) _ tt).0 h).0)
check_misfire-IsMisfire (catch_up (minus_fraction n f)) h = absurd (
    (require_integer_iff (minus_fraction n f) 1).0
      ((>>_iff (require_integer (minus_fraction n f) 1) _ tt).0 h).0)
check_misfire-IsMisfire (catch_up infinity) h =
    absurd ((require_integer_iff infinity 1).0 ((>>_iff (require_integer infinity 1) _ tt).0 h).0)
check_misfire-IsMisfire (catch_up minus_infinity) h = absurd (
    (require_integer_iff minus_infinity 1).0
      ((>>_iff (require_integer minus_infinity 1) _ tt).0 h).0)
check_misfire-IsMisfire (catch_up nan) h =
    absurd ((require_integer_iff nan 1).0 ((>>_iff (require_integer nan 1) _ tt).0 h).0)

when-implied :
    {A : Type 0} (check : A → Result (Unit {0})) (P : A → Type 0) (o : Option A)
    → ((a : A) → check a ≡ ok tt → P a)
    → when_some o check ≡ ok tt
    → WhenSome P o
when-implied check P none f h = tt
when-implied check P (some a) f h = f a h

abbrev pub IsOverlap : Overlap → Type 0
IsOverlap other_overlap = ⊥
IsOverlap _ = Unit

check_overlap-IsOverlap : (o : Overlap) → check_overlap o ≡ ok tt → IsOverlap o
check_overlap-IsOverlap allow_overlap h = tt
check_overlap-IsOverlap skip_overlap h = tt
check_overlap-IsOverlap other_overlap h = cc h

-- Every value is a string.
abbrev pub HasStrings : GivenMetadata → Type 0
HasStrings [] = Unit
HasStrings ((key, value) ∷ rest) = (is_some value ≡ true) × HasStrings rest

check_metadata-HasStrings : (m : GivenMetadata) → check_metadata m ≡ ok tt → HasStrings m
check_metadata-HasStrings [] h = tt
check_metadata-HasStrings ((key, some value) ∷ rest) h = (refl, check_metadata-HasStrings rest h)
check_metadata-HasStrings ((key, none) ∷ rest) h = cc h

require-true : (b : Bool) (e : Failure) → require b e ≡ ok tt → b ≡ true
require-true true e h = refl
require-true false e h = cc h

module _ {Value : Type 0} ⦃eq : Eq Value⦄ where
  -- The payload has a JSON text, and is the value that the text is parsed to.
  abbrev pub IsLossless : Json Value → Value → Type 0
  IsLossless json payload =
      (t : Text) × (json.stringify payload ≡ text t) × (json.parse t ≡ some payload)

  check_payload-eq :
      (o : Option Value) (payload p : Value)
      → check_payload o payload ≡ ok p
      → (o ≡ some payload) × (p ≡ payload)
  check_payload-eq none payload p h = cc h
  check_payload-eq (some q) payload p h =
      let (equal, last) =
        (>>_iff (require (same q payload) (schedule SchedulePhase.definition)) _ p).0 h in
      let e = (same_iff q payload).0 (require-true (same q payload) _ equal) in
      (ap some e, sym (ok-injective last) ∙ e)

  copy_payload-IsLossless :
      (json : Json Value) (s : Stringified) (payload p : Value)
      → json.stringify payload ≡ s
      → copy_payload json s payload ≡ ok p
      → IsLossless json payload × (p ≡ payload)
  copy_payload-IsLossless json (text t) payload p e h =
      let (parsed, copied) = check_payload-eq (json.parse t) payload p h in ((t, e, parsed), copied)
  copy_payload-IsLossless json undefined payload p e h = cc h
  copy_payload-IsLossless json thrown payload p e h = cc h

copied_as_is :
    {Value : Type 0} (options : ScheduleOptions Value) (payload : Value)
    (retry : Option RetryOptions)
    → payload ≡ options.payload
    → retry ≡ options.retry
    → record options { payload = payload; retry = retry } ≡ options
copied_as_is options payload retry p q = rw (p, q) refl

module _ {Value : Type 0} ⦃eq : Eq Value⦄ (engine : Engine Value) where
  -- One cadence, which the engine accepts.
  abbrev pub IsCadence : Option Text → Option Number → Type 0
  IsCadence cron every_ms =
      ((given : Text) × (cron ≡ some given) × (every_ms ≡ none) × (engine.parse_cron given ≡ ok tt))
      ⊎ ((period : Number) × (cron ≡ none)
          × (every_ms ≡ some period)
          × (engine.make_every_ms period ≡ ok tt))

  check_cadence-IsCadence :
      (cron : Option Text) (every_ms : Option Number)
      → check_cadence engine cron every_ms ≡ ok tt
      → IsCadence cron every_ms
  check_cadence-IsCadence none none h = cc h
  check_cadence-IsCadence (some cron) (some n) h = cc h
  check_cadence-IsCadence (some cron) none h = inl (cron, refl, refl, h)
  check_cadence-IsCadence none (some n) h = inr (n, refl, refl, h)

  pub record IsSchedule (options : ScheduleOptions Value) : Type 0 where
    pub key : IsScheduleName engine.max_identity options.key
    pub group : WhenSome (IsScheduleName engine.max_identity) options.group
    pub cadence : IsCadence options.cron options.every_ms
    pub zone : WhenSome (λ z. engine.is_valid_time_zone z ≡ true) options.time_zone
    pub priority : WhenSome (IsWhole 0) options.priority
    pub timeout : WhenSome (IsWhole 1) options.timeout_ms
    pub overlap : WhenSome IsOverlap options.overlap
    pub misfire : WhenSome IsMisfire options.misfire
    pub metadata : WhenSome HasStrings options.metadata
    pub payload : IsLossless engine.json options.payload
    pub retry : WhenSome IsRetry options.retry

  -- A schedule that is accepted is copied as it is, and has a name and, if any, a group that fit into the engine's identity,
  -- exactly one of a cron text and a period, which the engine accepts as it does the time zone, a
  -- priority, a timeout, an overlap and a misfire policy within their ranges (a catch-up of 1 to 256
  -- occurrences), a well-formed retry policy, metadata of strings, and a payload that
  -- JSON.stringify gives a text of, which JSON.parse reads back as the payload.
  pub copy_schedule-IsSchedule :
      (options copied : ScheduleOptions Value)
      → copy_schedule engine options ≡ ok copied
      → IsSchedule options × (copied ≡ options)
  unfolding copy_schedule check_schedule
  copy_schedule-IsSchedule options copied e =
      let e0 =
        (rethrow-ok_iff (schedule SchedulePhase.definition) (check_schedule engine options)
            copied).0
          e in
      let (key, e1) = (>>_iff (check_name engine.max_identity options.key) _ copied).0 e0 in
      let (group, e2) =
        (>>_iff (when_some options.group (check_name engine.max_identity)) _ copied).0 e1 in
      let (cadence, e3) =
        (>>_iff (check_cadence engine options.cron options.every_ms) _ copied).0 e2 in
      let (zone, e4) =
        (>>_iff
            (when_some options.time_zone
              (λ z. require (engine.is_valid_time_zone z) (schedule SchedulePhase.definition)))
            _ copied).0
          e3 in
      let (priority, e5) =
        (>>_iff (when_some options.priority (λ n. require_integer n 0)) _ copied).0 e4 in
      let (timeout, e6) =
        (>>_iff (when_some options.timeout_ms (λ n. require_integer n 1)) _ copied).0 e5 in
      let (overlap, e7) = (>>_iff (when_some options.overlap check_overlap) _ copied).0 e6 in
      let (misfire, e8) = (>>_iff (when_some options.misfire check_misfire) _ copied).0 e7 in
      let (metadata, e9) = (>>_iff (when_some options.metadata check_metadata) _ copied).0 e8 in
      let (payload, accepted, e10) =
        >>=-eq-ok (copy_payload engine.json (engine.json.stringify options.payload) options.payload)
          _ e9 in
      let k = copy_payload-IsLossless engine.json _ options.payload payload refl accepted in
      let (retry, kept, last) = >>=-eq-ok (copy_option copy_retry options.retry) _ e10 in
      let r = (copy_option_iff copy_retry IsRetry copy_retry_iff options.retry retry).0 kept in
      (
        record {
          key = (check_name_iff engine.max_identity options.key).0 key;
          group =
              when-implied (check_name engine.max_identity) _ options.group
                (λ g. (check_name_iff engine.max_identity g).0) group;
          cadence = check_cadence-IsCadence options.cron options.every_ms cadence;
          zone =
              when-implied _ _ options.time_zone (λ z. require-true (engine.is_valid_time_zone z) _)
                zone;
          priority = when-implied _ _ options.priority (λ n. (require_integer_iff n 0).0) priority;
          timeout = when-implied _ _ options.timeout_ms (λ n. (require_integer_iff n 1).0) timeout;
          overlap =
              when-implied check_overlap IsOverlap options.overlap check_overlap-IsOverlap overlap;
          misfire =
              when-implied check_misfire IsMisfire options.misfire check_misfire-IsMisfire misfire;
          metadata =
              when-implied check_metadata HasStrings options.metadata check_metadata-HasStrings
                metadata;
          payload = k.0;
          retry = r.0;
        },
        sym (ok-injective last) ∙ copied_as_is options payload retry (k.1) (sym (r.1)),
      )
