-- ===== src/Schedules/Deployment.antt =====
-- A synchronization of the declared schedules: what it has checked before it writes.
use mathlib.Core.Path.{subst}
use mathlib.Core.List.{append-nil}
use bettter_nest_mq.Prelude.{
  ◌≡◌, ◌≢◌, refl, sym, true, Option, none, some, List, [], ◌∷◌, ◌++◌, All, Result, ok, err, >>_iff,
  require, schedule, SchedulePhase,
}
use bettter_nest_mq.Controls.{success}
use bettter_nest_mq.Schedules.{Mode, validate, reconcile}
use bettter_nest_mq.Schedules.Coordinator.{
  ScheduleRecord, CompiledSchedule, Call, reconcile_schedule, Host, address_of, is_own,
  assert_identity, return_, and_then, call, matches, judge, preflight_all, deploy, deploy_in,
  synchronize,
}
use bettter_nest_mq.Schedules.Preflight.{
  IsRead, IsWrite, and_then-All, and_then-ok, some-injective, require-true, Judged,
  preflight_all-Judged, preflight_all-IsRead,
}

module _ {World Report Value : Type 0} (host : Host World Report Value) where
  deploy-IsWrite :
      (entries : List (CompiledSchedule Value)) (w : World) → All IsWrite (deploy host entries w).1
  unfolding deploy
  deploy-IsWrite [] w = tt
  deploy-IsWrite (entry ∷ entries) w =
      and_then-All IsWrite
        (call (reconcile_schedule (address_of entry)) (host.reconcile_declaration entry w))
        (λ report w'. and_then (λ more. return_ (ok (report ∷ more))) (deploy host entries w'))
        (tt, tt)
        (λ report w'.
          and_then-All IsWrite (deploy host entries w') (λ more. return_ (ok (report ∷ more)))
            (deploy-IsWrite entries w') (λ more w''. tt))

  -- The persisted record of a declaration is absent or that of its job, as some read has replied.
  abbrev pub HasOwn : CompiledSchedule Value → Type 0
  HasOwn entry =
      (w : World) × ((reply : Option (ScheduleRecord Value)) × ((host.read_schedule
            (address_of entry) w).1
          ≡ success reply)
        × ((r : ScheduleRecord Value) → reply ≡ some r → is_own r entry.job ≡ true))

  -- It is there, that of its job, and as declared.
  abbrev pub IsCurrent : CompiledSchedule Value → Type 0
  IsCurrent entry =
      (w : World) × ((r : ScheduleRecord Value) × ((host.read_schedule (address_of entry) w).1
          ≡ success (some r))
        × (is_own r entry.job ≡ true)
        × (matches host r entry ≡ true))

  judge-own :
      (entry : CompiledSchedule Value) (reply : Option (ScheduleRecord Value))
      (r : ScheduleRecord Value)
      → judge host reconcile entry reply ≡ ok tt
      → reply ≡ some r
      → is_own r entry.job ≡ true
  unfolding judge
  judge-own entry none r h e = cc e
  judge-own entry (some r') r h e =
      subst (λ x. is_own x entry.job ≡ true) (some-injective e)
        (require-true (is_own r' entry.job) (schedule SchedulePhase.identity) h)

  Judged-HasOwn :
      (entries : List (CompiledSchedule Value))
      → All (Judged host reconcile) entries
      → All HasOwn entries
  unfolding Judged
  Judged-HasOwn [] h = tt
  Judged-HasOwn (entry ∷ entries) ((w, (reply, read, judged)), h) =
      ((w, (reply, read, λ r e. judge-own entry reply r judged e)), Judged-HasOwn entries h)

  judge-IsCurrent :
      (entry : CompiledSchedule Value) (w : World) (reply : Option (ScheduleRecord Value))
      → (host.read_schedule (address_of entry) w).1 ≡ success reply
      → judge host validate entry reply ≡ ok tt
      → IsCurrent entry
  unfolding judge
  judge-IsCurrent entry w none read h = cc h
  judge-IsCurrent entry w (some r) read h =
      let (own, same) =
        (>>_iff (assert_identity r entry.job)
            (require (matches host r entry) (schedule SchedulePhase.drift)) tt).0
          h in
      (
        w,
        (
          r,
          read,
          require-true (is_own r entry.job) _ own,
          require-true (matches host r entry) _ same,
        ),
      )

  Judged-IsCurrent :
      (entries : List (CompiledSchedule Value))
      → All (Judged host validate) entries
      → All IsCurrent entries
  unfolding Judged
  Judged-IsCurrent [] h = tt
  Judged-IsCurrent (entry ∷ entries) ((w, (reply, read, judged)), h) =
      (judge-IsCurrent entry w reply read judged, Judged-IsCurrent entries h)

  Deploys : Mode → List (CompiledSchedule Value) → List Call → Type 0
  Deploys mode entries calls =
      (reads : List Call) × (writes : List Call) × (calls ≡ reads ++ writes)
      × All IsRead reads
      × All IsWrite writes
      × (writes ≢ [] → (mode ≡ reconcile) × All HasOwn entries)

  after_preflight :
      (mode : Mode) (entries : List (CompiledSchedule Value))
      (run : World × List Call × Result (Unit {0}))
      → All IsRead run.1
      → (run.2 ≡ ok tt → All (Judged host mode) entries)
      → Deploys mode entries (and_then (λ _. deploy_in host mode entries) run).1
  unfolding Deploys
  after_preflight mode entries (w, calls, err e) reads judged =
      (calls, [], sym (append-nil calls), reads, tt, λ n. absurd (n refl))
  after_preflight validate entries (w, calls, ok _) reads judged =
      (calls, [], refl, reads, tt, λ n. absurd (n refl))
  after_preflight reconcile entries (w, calls, ok _) reads judged = (
    calls,
    (deploy host entries w).1,
    refl,
    reads,
    deploy-IsWrite entries w,
    λ _. (refl, Judged-HasOwn entries (judged refl)),
  )

  -- A synchronization of the declared schedules calls reads, then writes. If it calls a write at all
  -- then the mode is `reconcile`, and before the first of them it has read the record of every
  -- declaration, and each one is absent or has the queue, the name and the version of the job.
  pub synchronize_checks_first :
      (mode : Mode) (entries : List (CompiledSchedule Value)) (w : World)
      → (reads : List Call) × (writes : List Call) × ((synchronize host mode entries w).1
          ≡ reads ++ writes)
        × All IsRead reads
        × All IsWrite writes
        × (writes ≢ [] → (mode ≡ reconcile) × All HasOwn entries)
  unfolding synchronize Deploys
  synchronize_checks_first mode entries w =
      after_preflight mode entries (preflight_all host mode entries w)
        (preflight_all-IsRead host mode entries w) (preflight_all-Judged host mode entries w)

  -- A validation that succeeds has read, for every declaration, a persisted record of its job that
  -- matches the declaration.
  pub validate-IsCurrent :
      (entries : List (CompiledSchedule Value)) (w : World) (reports : List Report)
      → (synchronize host validate entries w).2 ≡ ok reports
      → All IsCurrent entries
  unfolding synchronize
  validate-IsCurrent entries w reports h =
      let (u, checked, rest) =
        and_then-ok (preflight_all host validate entries w) (λ _. deploy_in host validate entries)
          reports h in
      Judged-IsCurrent entries (preflight_all-Judged host validate entries w checked)
