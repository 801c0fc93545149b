-- ===== src/Controls/Policies/Startup.antt =====
-- The order of the reads and writes of queue-controls.ts, and what a validation that succeeds has
-- compared.
use mathlib.Core.List.{append-nil}
use bettter_nest_mq.Prelude.{
  ◌≡◌, ◌≢◌, ◌↔◌, refl, sym, Bool, true, false, Option, none, some, List, [], ◌∷◌, ◌++◌, map, Text,
  All, All-append, text_eq, text_eq_iff, text_is_eq, nat_eq, if◌then◌else◌, Result, ok, err, >>_iff,
  require, Failure, controls, is_some, same_option_iff, same_iff, arith, Bool-cases, inl, inr,
  ownership, drift,
}
use bettter_nest_mq.Controls.{
  QueueControlsRecord, QueueControlsOptions, RateLimit, Effect, success, failure,
}
use bettter_nest_mq.Controls.Policies.{
  QueueDefinition, Mode, validate, reconcile, Call, read, write, Deployment, same_rate_limit,
  same_policy, declared, judge, before_read, before_write, read_policy, inspect_desired, inspect,
  and_then, inspect_all, write_group, deploy_group, deploy, write_policies, synchronize,
  group_queues,
}

abbrev pub is_read : Call → Bool
is_read (read connection queue) = true
is_read (write connection group) = false

abbrev pub IsRead : Call → Type 0
IsRead c = is_read c ≡ true

abbrev pub IsWrite : Call → Type 0
IsWrite c = is_read c ≡ false

abbrev pub read_of : QueueDefinition → Call
read_of q = read q.connection q.name

HasPolicy : QueueDefinition → Type 0
HasPolicy q = is_some q.desired ≡ true

kept :
    (q : QueueDefinition) (rest : List QueueDefinition)
    → All HasPolicy rest
    → All HasPolicy (if is_some q.desired then q ∷ rest else rest)
unfolding HasPolicy
kept q rest h = elim (Bool-cases (is_some q.desired)) [ inl p ↦ rw p (p, h) | inr p ↦ rw p h ]

declared-HasPolicy : (queues : List QueueDefinition) → All HasPolicy (declared queues)
unfolding declared HasPolicy
declared-HasPolicy [] = tt
declared-HasPolicy (q ∷ queues) = kept q (declared queues) (declared-HasPolicy queues)

same_rate_limit_iff : (a b : Option RateLimit) → (same_rate_limit a b ≡ true) ↔ (a ≡ b)
same_rate_limit_iff none none = ground arith
same_rate_limit_iff none (some b) = ground arith
same_rate_limit_iff (some a) none = ground arith
same_rate_limit_iff (some a) (some b) =
    ground (arith, same_iff a.max b.max, same_iff a.duration_ms b.duration_ms)

pub same_policy_iff :
    (r : QueueControlsRecord) (d : QueueControlsOptions)
    → (same_policy r d ≡ true) ↔ ((r.enabled ≡ true) × (r.limits ≡ d))
unfolding same_policy
same_policy_iff r d = ground (
  arith,
  same_option_iff r.limits.global_concurrency d.global_concurrency,
  same_option_iff r.limits.per_key_concurrency d.per_key_concurrency,
  same_rate_limit_iff r.limits.rate_limit d.rate_limit,
)

require-true : (b : Bool) (e : Failure) → require b e ≡ ok tt → b ≡ true
require-true true e h = refl
require-true false e h = cc h

module _ {World Report : Type 0} (host : Deployment World Report) (own : Text) where
  -- Only reads, and all of them if the run succeeds.
  Inspected : List QueueDefinition → World × List Call × Result (Unit {0}) → Type 0
  Inspected queues run = All IsRead run.1 × (run.2 ≡ ok tt → run.1 ≡ map read_of queues)

  read_policy-Inspected :
      (m : Mode) (q : QueueDefinition) (d : QueueControlsOptions) (w : World)
      (before : Result (Unit {0}))
      → Inspected (q ∷ []) (read_policy host own m q d w before)
  unfolding Inspected
  read_policy-Inspected m q d w (err e) = (tt, λ h. cc h)
  read_policy-Inspected m q d w (ok _) = ((refl, tt), λ _. refl)

  inspect-Inspected :
      (m : Mode) (q : QueueDefinition) (o : Option QueueControlsOptions) (w : World)
      → is_some o ≡ true
      → Inspected (q ∷ []) (inspect_desired host own m q o w)
  inspect-Inspected m q none w h = cc h
  inspect-Inspected m q (some d) w h = read_policy-Inspected m q d w (before_read host own q d w)

  and_then-Inspected :
      (q : QueueDefinition) (queues : List QueueDefinition)
      (run : World × List Call × Result (Unit {0}))
      (rest : Unit {0} → World → World × List Call × Result (Unit {0}))
      → Inspected (q ∷ []) run
      → ((w : World) → Inspected queues (rest tt w))
      → Inspected (q ∷ queues) (and_then host own rest run)
  unfolding Inspected
  and_then-Inspected q queues (w, calls, err e) rest (reads, _) h = (reads, λ k. cc k)
  and_then-Inspected q queues (w, calls, ok _) rest (reads, first) h =
      let (more, others) = h w in
      (All-append IsRead calls (rest tt w).1 reads more, λ k. rw (first refl, others k) refl)

  inspect_all-Inspected :
      (m : Mode) (queues : List QueueDefinition) (w : World)
      → All HasPolicy queues
      → Inspected queues (inspect_all host own m queues w)
  unfolding inspect_all Inspected inspect HasPolicy
  inspect_all-Inspected m [] w h = (tt, λ _. refl)
  inspect_all-Inspected m (q ∷ queues) w (h, hs) =
      and_then-Inspected q queues (inspect_desired host own m q q.desired w)
        (λ _. inspect_all host own m queues) (inspect-Inspected m q q.desired w h)
        (λ w'. inspect_all-Inspected m queues w' hs)

  Writes : {A : Type 0} → World × List Call × Result A → Type 0
  Writes run = All IsWrite run.1

  write_group-Writes :
      (connection : Text) (group : List QueueDefinition) (w : World) (before : Result (Unit {0}))
      → Writes (write_group host own connection group w before)
  unfolding Writes
  write_group-Writes connection group w (err e) = tt
  write_group-Writes connection group w (ok _) = (refl, tt)

  and_then-Writes :
      {A B : Type 0} (run : World × List Call × Result A)
      (rest : A → World → World × List Call × Result B)
      → Writes run
      → ((a : A) (w : World) → Writes (rest a w))
      → Writes (and_then host own rest run)
  unfolding Writes
  and_then-Writes (w, calls, err e) rest h k = h
  and_then-Writes (w, calls, ok a) rest h k = All-append IsWrite calls (rest a w).1 h (k a w)

  return-Writes : {A : Type 0} (a : A) (w : World) → Writes (w, [], ok a)
  unfolding Writes
  return-Writes a w = tt

  deploy-Writes :
      (groups : List (Text × List QueueDefinition)) (w : World) → Writes (deploy host own groups w)
  unfolding deploy deploy_group
  deploy-Writes [] w = return-Writes [] w
  deploy-Writes ((connection, group) ∷ groups) w =
      and_then-Writes
        (write_group host own connection group w (before_write host own connection group w))
        (λ report w'.
          and_then host own (λ more w''. (w'', [], ok (report ∷ more))) (deploy host own groups w'))
        (write_group-Writes connection group w _)
        (λ report w'.
          and_then-Writes (deploy host own groups w') (λ more w''. (w'', [], ok (report ∷ more)))
            (deploy-Writes groups w') (λ more w''. return-Writes (report ∷ more) w''))

  -- Reads, then writes, of which there are none in a validation and none before every queue with
  -- declared controls has been read.
  Deployed : Mode → List QueueDefinition → List Call → Type 0
  Deployed m queues calls =
      (reads : List Call) × (writes : List Call) × (calls ≡ reads ++ writes)
      × All IsRead reads
      × All IsWrite writes
      × (writes ≢ [] → (m ≡ reconcile) × (reads ≡ map read_of queues))

  write_policies-Deployed :
      (m : Mode) (queues : List QueueDefinition) (run : World × List Call × Result (Unit {0}))
      → Inspected queues run
      → Deployed m queues (and_then host own (λ _. write_policies host own m queues) run).1
  unfolding Deployed Inspected write_policies Writes
  write_policies-Deployed m queues (w, calls, err e) (reads, _) =
      (calls, [], sym (append-nil calls), reads, tt, λ n. absurd (n refl))
  write_policies-Deployed validate queues (w, calls, ok _) (reads, _) =
      (calls, [], refl, reads, tt, λ n. absurd (n refl))
  write_policies-Deployed reconcile queues (w, calls, ok _) (reads, every) =
      (calls, _, refl, reads, deploy-Writes (group_queues queues []) w, λ _. (refl, every refl))

  -- The calls of a startup or a reconciliation are reads followed by writes. If there is a write
  -- at all then the mode is `reconcile`, and the policy of every queue with declared controls has
  -- been read before the first of them, in the order of the registry.
  pub synchronize_reads_first :
      (m : Mode) (queues : List QueueDefinition) (w : World)
      → (reads : List Call) × (writes : List Call) × ((synchronize host own m queues w).1
          ≡ reads ++ writes)
        × All IsRead reads
        × All IsWrite writes
        × (writes ≢ [] → (m ≡ reconcile) × (reads ≡ map read_of (declared queues)))
  unfolding synchronize Deployed
  synchronize_reads_first m queues w =
      write_policies-Deployed m (declared queues) (inspect_all host own m (declared queues) w)
        (inspect_all-Inspected m (declared queues) w (declared-HasPolicy queues))

  -- The persisted policy of a queue is the declared one, as some read has replied it.
  abbrev pub IsDeclared : QueueDefinition → Type 0
  IsDeclared q =
      (d : QueueControlsOptions) × (w : World) × (r : QueueControlsRecord) × (q.desired ≡ some d)
      × ((host.get_controls q.connection q.name w).1 ≡ success (some r))
      × (r.group ≡ own)
      × (r.enabled ≡ true)
      × (r.limits ≡ d)

  judge-validate :
      (d : QueueControlsOptions) (reply : Effect (Option QueueControlsRecord))
      → judge host own validate d reply ≡ ok tt
      → (r : QueueControlsRecord) × (reply ≡ success (some r))
        × (r.group ≡ own)
        × (r.enabled ≡ true)
        × (r.limits ≡ d)
  unfolding judge
  judge-validate d (failure e) h = cc h
  judge-validate d (success none) h = cc h
  judge-validate d (success (some r)) h =
      let (g, s) =
        (>>_iff (require (text_eq r.group own) (controls ownership))
            (require (same_policy r d) (controls drift)) tt).0
          h in
      let (e, l) = (same_policy_iff r d).0 (require-true _ _ s) in
      (r, refl, (text_eq_iff r.group own).0 (require-true _ _ g), e, l)

  read_policy-IsDeclared :
      (q : QueueDefinition) (d : QueueControlsOptions) (w : World) (before : Result (Unit {0}))
      → q.desired ≡ some d
      → (read_policy host own validate q d w before).2 ≡ ok tt
      → IsDeclared q
  read_policy-IsDeclared q d w (err e) s h = cc h
  read_policy-IsDeclared q d w (ok _) s h =
      let (r, persisted, group, enabled, limits) =
        judge-validate d (host.get_controls q.connection q.name w).1 h in
      (d, w, r, s, persisted, group, enabled, limits)

  inspect-IsDeclared :
      (q : QueueDefinition) (o : Option QueueControlsOptions) (w : World)
      → q.desired ≡ o
      → is_some o ≡ true
      → (inspect_desired host own validate q o w).2 ≡ ok tt
      → IsDeclared q
  inspect-IsDeclared q none w e s h = cc s
  inspect-IsDeclared q (some d) w e s h =
      read_policy-IsDeclared q d w (before_read host own q d w) e h

  and_then-ok :
      {B : Type 0} (run : World × List Call × Result (Unit {0}))
      (rest : Unit {0} → World → World × List Call × Result B) (b : B)
      → (and_then host own rest run).2 ≡ ok b
      → (run.2 ≡ ok tt) × ((rest tt run.0).2 ≡ ok b)
  and_then-ok (w, calls, err e) rest b h = cc h
  and_then-ok (w, calls, ok _) rest b h = (refl, h)

  inspect_all-IsDeclared :
      (queues : List QueueDefinition) (w : World)
      → All HasPolicy queues
      → (inspect_all host own validate queues w).2 ≡ ok tt
      → All IsDeclared queues
  unfolding inspect_all inspect HasPolicy
  inspect_all-IsDeclared [] w hs h = tt
  inspect_all-IsDeclared (q ∷ queues) w (p, hs) h =
      let run = inspect_desired host own validate q q.desired w in
      let (first, others) = and_then-ok run (λ _. inspect_all host own validate queues) tt h in
      (inspect-IsDeclared q q.desired w refl p first, inspect_all-IsDeclared queues run.0 hs others)

  -- A validation that succeeds has read, for every queue with declared controls, a persisted
  -- policy that belongs to this application's group, is enabled and has the declared limits.
  pub validate-IsDeclared :
      (queues : List QueueDefinition) (w : World) (reports : List Report)
      → (synchronize host own validate queues w).2 ≡ ok reports
      → All IsDeclared (declared queues)
  unfolding synchronize
  validate-IsDeclared queues w reports h =
      inspect_all-IsDeclared (declared queues) w (declared-HasPolicy queues)
        (and_then-ok (inspect_all host own validate (declared queues) w)
          (λ _. write_policies host own validate (declared queues)) reports h).0
