-- ===== src/Schedules/Ownership.antt =====
-- A schedule is changed for the job alone to which its persisted record belongs.
use bettter_nest_mq.Prelude.{
  ◌≡◌, refl, Bool, true, false, Option, none, some, List, Text, All, Failure, Result, ok, err,
  require, schedule, SchedulePhase,
}
use bettter_nest_mq.Controls.{Effect, success, failure}
use bettter_nest_mq.Schedules.{ResolvedOptions}
use bettter_nest_mq.Schedules.Coordinator.{
  JobIdentity, ScheduleRecord, CompiledSchedule, Address, Operation, pause, resume, remove, Call,
  get_controls, get_schedule, list_schedules, change_schedule, reconcile_schedule, Host, is_own,
  return_, and_then, call_store, inside, get_record,
}
use bettter_nest_mq.Schedules.Operations.{address, at, change_own, mutate}

pub inside-require-All :
    {World A : Type 0} (P : Call → Type 0) (b : Bool) (e : Failure)
    (body : World → World × List Call × Result A) (w : World)
    → (b ≡ true → All P (body w).1)
    → All P (inside (require b e) body w).1
inside-require-All P true e body w h = h refl
inside-require-All P false e body w h = tt

pub inside-All :
    {World A : Type 0} (P : Call → Type 0) (m : Result (Unit {0}))
    (body : World → World × List Call × Result A) (w : World)
    → All P (body w).1
    → All P (inside m body w).1
inside-All P (ok _) body w h = h
inside-All P (err e) body w h = tt

one_call-All :
    {World A B : Type 0} (P : Call → Type 0) (c : Call) (b : B) (reply : World × Effect A)
    → P c
    → All P (and_then (λ _. return_ (ok b)) (call_store c reply)).1
one_call-All P c b (w, success a) h = (h, tt)
one_call-All P c b (w, failure e) h = (h, tt)

module _ {World Report Value : Type 0} (host : Host World Report Value) (options : ResolvedOptions)
    (definitions : List (CompiledSchedule Value)) where
  -- A change of the wanted kind, at the address, after the store has replied a record there that is
  -- the job's.
  abbrev pub IsOwnChange : Operation → JobIdentity → Result Address → Call → Type 0
  IsOwnChange operation job wanted (change_schedule o a) =
      (o ≡ operation)
      × (wanted ≡ ok a)
      × ((w : World) × ((r : ScheduleRecord Value) × ((host.read_schedule a w).1 ≡ success (some r))
            × (is_own r job ≡ true)))
  IsOwnChange operation job wanted (reconcile_schedule a) = ⊥
  IsOwnChange operation job wanted (get_controls connection queue) = Unit
  IsOwnChange operation job wanted (get_schedule a) = Unit
  IsOwnChange operation job wanted (list_schedules connection group) = Unit

  change_own-All :
      (operation : Operation) (job : JobIdentity) (a : Address) (r : ScheduleRecord Value)
      (w w' : World)
      → (host.read_schedule a w').1 ≡ success (some r)
      → All
          (IsOwnChange operation job (ok a))
          (change_own host options definitions operation a job (some r) w).1
  change_own-All remove job a r w w' h =
      inside-require-All (IsOwnChange remove job (ok a)) (is_own r job)
        (schedule SchedulePhase.identity)
        (λ w''. call_store (change_schedule remove a) (host.change remove a w'')) w
        (λ own. ((refl, refl, (w', (r, h, own))), tt))
  change_own-All pause job a r w w' h =
      inside-require-All (IsOwnChange pause job (ok a)) (is_own r job)
        (schedule SchedulePhase.identity) _ w
        (λ own.
          one_call-All (IsOwnChange pause job (ok a)) (change_schedule pause a) true
            (host.change pause a w) (refl, refl, (w', (r, h, own))))
  change_own-All resume job a r w w' h =
      inside-require-All (IsOwnChange resume job (ok a)) (is_own r job)
        (schedule SchedulePhase.identity) _ w
        (λ own.
          one_call-All (IsOwnChange resume job (ok a)) (change_schedule resume a) true
            (host.change resume a w) (refl, refl, (w', (r, h, own))))

  change_own-missing :
      (operation : Operation) (job : JobIdentity) (a : Address) (w : World)
      → All
          (IsOwnChange operation job (ok a))
          (change_own host options definitions operation a job none w).1
  change_own-missing remove job a w = tt
  change_own-missing pause job a w = tt
  change_own-missing resume job a w = tt

  after_read-All :
      (operation : Operation) (job : JobIdentity) (a : Address) (w w' : World)
      (reply : Effect (Option (ScheduleRecord Value)))
      → (host.read_schedule a w').1 ≡ reply
      → All
          (IsOwnChange operation job (ok a))
          (and_then
            (change_own host options definitions operation a job)
            (call_store (get_schedule a) (w, reply))).1
  after_read-All operation job a w w' (failure e) h = (tt, tt)
  after_read-All operation job a w w' (success none) h = (tt, change_own-missing operation job a w)
  after_read-All operation job a w w' (success (some r)) h =
      (tt, change_own-All operation job a r w w' h)

  read-All :
      (operation : Operation) (job : JobIdentity) (a : Address) (guard : Result (Unit {0}))
      (w : World)
      → All
          (IsOwnChange operation job (ok a))
          (and_then
            (change_own host options definitions operation a job)
            (inside guard (λ w'. call_store (get_schedule a) (host.read_schedule a w')) w)).1
  read-All operation job a (err e) w = tt
  read-All operation job a (ok _) w =
      let (next, reply) = host.read_schedule a w in
      after_read-All operation job a (host.read_schedule a w).0 w (host.read_schedule a w).1 refl

  at-All :
      (operation : Operation) (job : JobIdentity) (wanted : Result Address) (w : World)
      → All
          (IsOwnChange operation job wanted)
          (at host options definitions
            (λ a w'.
              and_then (change_own host options definitions operation a job) (get_record host a w'))
            wanted
            w).1
  unfolding get_record
  at-All operation job (err e) w = tt
  at-All operation job (ok a) w = read-All operation job a (host.with_schedules a.connection w) w

  -- Pausing, resuming and removing a schedule: whatever the stores reply, the only change that is
  -- called is the one that was asked for, at the address of the key in the job's connection, and
  -- only after the store has replied a record at this address that has the queue, the name and the
  -- version of the job.
  pub mutate-IsOwnChange :
      (operation : Operation) (job : JobIdentity) (key : Text) (group : Option Text) (w : World)
      → All
          (IsOwnChange operation job (address host options definitions job key group))
          (mutate host options definitions operation job key group w).1
  unfolding mutate
  mutate-IsOwnChange operation job key group w =
      at-All operation job (address host options definitions job key group) w
