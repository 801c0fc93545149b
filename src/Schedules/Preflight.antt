-- ===== src/Schedules/Preflight.antt =====
-- The preflight of the declared schedules: it only reads, and what a pass of it has read.
use bettter_nest_mq.Prelude.{
  ◌≡◌, refl, ap, Bool, true, false, Option, some, List, [], ◌∷◌, Text, All, All-append, Failure,
  Result, ok, err, ok-injective, require, reject_if, schedule, SchedulePhase, if◌then◌else◌,
}
use bettter_nest_mq.Controls.{Effect, success, failure}
use bettter_nest_mq.Schedules.{Mode}
use bettter_nest_mq.Schedules.Coordinator.{
  ScheduleRecord, CompiledSchedule, Call, get_controls, get_schedule, reconcile_schedule, Host,
  value_of, address_of, return_, and_then, call_store, inside, assert_store_policy, limits_keys,
  get_record, judge, preflight, preflight_all,
}
use bettter_nest_mq.Schedules.Ownership.{inside-All}

abbrev pub IsWrite : Call → Type 0
IsWrite (reconcile_schedule a) = Unit
IsWrite _ = ⊥

abbrev pub IsRead : Call → Type 0
IsRead (get_controls connection queue) = Unit
IsRead (get_schedule a) = Unit
IsRead _ = ⊥

pub and_then-All :
    {World A B : Type 0} (P : Call → Type 0) (run : World × List Call × Result A)
    (rest : A → World → World × List Call × Result B)
    → All P run.1
    → ((a : A) (w : World) → All P (rest a w).1)
    → All P (and_then rest run).1
and_then-All P (w, calls, err e) rest h k = h
and_then-All P (w, calls, ok a) rest h k = All-append P calls (rest a w).1 h (k a w)

pub and_then-ok :
    {World A B : Type 0} (run : World × List Call × Result A)
    (rest : A → World → World × List Call × Result B) (b : B)
    → (and_then rest run).2 ≡ ok b
    → (a : A) × (run.2 ≡ ok a) × ((rest a run.0).2 ≡ ok b)
and_then-ok (w, calls, err e) rest b h = cc h
and_then-ok (w, calls, ok a) rest b h = (a, refl, h)

inside-ok :
    {World A : Type 0} (guard : Result (Unit {0})) (body : World → World × List Call × Result A)
    (w : World) (a : A)
    → (inside guard body w).2 ≡ ok a
    → (body w).2 ≡ ok a
inside-ok (err e) body w a h = cc h
inside-ok (ok _) body w a h = h

value_of-ok : {A : Type 0} (reply : Effect A) (a : A) → value_of reply ≡ ok a → reply ≡ success a
value_of-ok (success b) a h = ap success (ok-injective h)
value_of-ok (failure e) a h = cc h

pub some-injective : {A : Type 0} {a b : A} → some a ≡ some b → a ≡ b
some-injective h = cc h

pub require-true : (b : Bool) (e : Failure) → require b e ≡ ok tt → b ≡ true
require-true true e h = refl
require-true false e h = cc h

module _ {World Report Value : Type 0} (host : Host World Report Value) where
  -- Some read has replied a record, or none, that the checks of the mode accept.
  unfoldable pub Judged : Mode → CompiledSchedule Value → Type 0
  Judged mode entry =
      (w : World) × ((reply : Option (ScheduleRecord Value)) × ((host.read_schedule
            (address_of entry) w).1
          ≡ success reply)
        × (judge host mode entry reply ≡ ok tt))

  preflight-Judged :
      (mode : Mode) (entry : CompiledSchedule Value) (w : World)
      → (preflight host mode entry w).2 ≡ ok tt
      → Judged mode entry
  unfolding Judged preflight get_record
  preflight-Judged mode entry w h =
      let policy = assert_store_policy host entry.job.connection entry.job.queue w in
      let (u, before, h1) =
        and_then-ok policy
          (λ _ w'.
            and_then (λ r. return_ (judge host mode entry r))
              (get_record host (address_of entry) w'))
          tt h in
      let (reply, read, judged) =
        and_then-ok (get_record host (address_of entry) policy.0)
          (λ r. return_ (judge host mode entry r)) tt h1 in
      let value =
        inside-ok (host.with_schedules entry.job.connection policy.0)
          (λ w'.
            call_store (get_schedule (address_of entry)) (host.read_schedule (address_of entry) w'))
          policy.0 reply read in
      (
        policy.0,
        (reply, value_of-ok (host.read_schedule (address_of entry) policy.0).1 reply value, judged),
      )

  pub preflight_all-Judged :
      (mode : Mode) (entries : List (CompiledSchedule Value)) (w : World)
      → (preflight_all host mode entries w).2 ≡ ok tt
      → All (Judged mode) entries
  unfolding preflight_all
  preflight_all-Judged mode [] w h = tt
  preflight_all-Judged mode (entry ∷ entries) w h =
      let (u, first, rest) =
        and_then-ok (preflight host mode entry w) (λ _. preflight_all host mode entries) tt h in
      (
        preflight-Judged mode entry w first,
        preflight_all-Judged mode entries (preflight host mode entry w).0 rest,
      )

  branch-IsRead :
      {A : Type 0} (b : Bool) (x y : World × List Call × Result A)
      → All IsRead x.1
      → All IsRead y.1
      → All IsRead (if b then x else y).1
  branch-IsRead true x y h k = h
  branch-IsRead false x y h k = k

  policy-IsRead :
      (connection queue : Text) (w : World)
      → All IsRead (assert_store_policy host connection queue w).1
  unfolding assert_store_policy
  policy-IsRead connection queue w = inside-All IsRead (host.with_store connection w) _ w (
      branch-IsRead (host.is_controlled connection) _ _
        (inside-All IsRead (require (host.valid_queue queue) (schedule SchedulePhase.operation)) _ w
          (and_then-All IsRead
            (call_store (get_controls connection queue) (host.read_controls connection queue w))
            (λ controls.
              return_ (reject_if (limits_keys controls) (schedule SchedulePhase.definition)))
            (tt, tt) (λ a w'. tt)))
        tt)

  preflight-IsRead :
      (mode : Mode) (entry : CompiledSchedule Value) (w : World)
      → All IsRead (preflight host mode entry w).1
  unfolding preflight get_record
  preflight-IsRead mode entry w =
      and_then-All IsRead (assert_store_policy host entry.job.connection entry.job.queue w)
        (λ _ w'.
          and_then (λ r. return_ (judge host mode entry r)) (get_record host (address_of entry) w'))
        (policy-IsRead entry.job.connection entry.job.queue w)
        (λ u w'.
          and_then-All IsRead (get_record host (address_of entry) w')
            (λ r. return_ (judge host mode entry r))
            (inside-All IsRead (host.with_schedules entry.job.connection w') _ w' (tt, tt))
            (λ a w''. tt))

  pub preflight_all-IsRead :
      (mode : Mode) (entries : List (CompiledSchedule Value)) (w : World)
      → All IsRead (preflight_all host mode entries w).1
  unfolding preflight_all
  preflight_all-IsRead mode [] w = tt
  preflight_all-IsRead mode (entry ∷ entries) w =
      and_then-All IsRead (preflight host mode entry w) (λ _. preflight_all host mode entries)
        (preflight-IsRead mode entry w) (λ u w'. preflight_all-IsRead mode entries w')
