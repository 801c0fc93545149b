-- ===== src/Pipeline/Invocation.antt =====
-- How often and after what a pipeline calls the handler.
use bettter_nest_mq.Prelude.{
  ℕ, suc, ◌+◌, ◌≤◌, ◌≡◌, Bool, true, false, Option, none, some, List, [], ◌∷◌, ◌++◌, Failure,
  contract, Result, ok, err, arith,
}
use bettter_nest_mq.Pipeline.{
  Step, accepted, transformed, invoked, caught, Interception, returns, works, looks, awaits_next,
  starts_next, Host, Admission, unused, pending, settled, Enhancers, State, attempt, throw, if_ok,
  then_, call, record_step, set_payload, throw_if_aborted, resolved, judge_guard, run_guard,
  run_guards, run_pipe, run_pipes, settle, finish, interact, invoke_mq_interceptor, dispatch,
  judge_filter, run_filters, recover, body, run,
}

-- The calls of the handler.
abbrev pub invocations : List Step → ℕ
invocations [] = 0
invocations (invoked ∷ steps) = suc (invocations steps)
invocations (_ ∷ steps) = invocations steps

pub invocations-append :
    (xs ys : List Step) → invocations (xs ++ ys) ≡ invocations xs + invocations ys
invocations-append [] ys = omega arith
invocations-append (invoked ∷ xs) ys = omega (arith, invocations-append xs ys)
invocations-append (accepted n ∷ xs) ys = invocations-append xs ys
invocations-append (transformed n ∷ xs) ys = invocations-append xs ys
invocations-append (caught n ∷ xs) ys = invocations-append xs ys

-- The calls that an interceptor still may make.
abbrev allowance : Admission → ℕ
allowance unused = 1
allowance pending = 1
allowance settled = 0

module _ {World Value : Type 0} (host : Host World Value) where
  -- An action calls the handler `n` times at most.
  unfoldable pub AtMost :
      {A : Type 0} → ℕ → (State host → State host × List Step × Result A) → Type 0
  AtMost n action = (s : State host) → invocations (action s).1 ≤ n

  attempt-AtMost :
      {A B : Type 0} (n m total : ℕ) (action : State host → State host × List Step × Result A)
      (next : Result A → State host → State host × List Step × Result B)
      → AtMost n action
      → ((r : Result A) → AtMost m (next r))
      → n + m ≤ total
      → AtMost total (attempt host action next)
  unfolding AtMost attempt
  attempt-AtMost n m total action next h k bound s =
      let (s', steps, r) = action s in
      omega (arith, invocations-append steps (next r s').1, h s, k r s', bound)

  throw-AtMost : (A : Type 0) (n : ℕ) (e : Failure) → AtMost n (throw host {A = A} e)
  unfolding AtMost throw
  throw-AtMost A n e s = omega arith

  if_ok-AtMost :
      {A B : Type 0} (m : ℕ) (next : A → State host → State host × List Step × Result B)
      → ((a : A) → AtMost m (next a))
      → (r : Result A) → AtMost m (if_ok host next r)
  if_ok-AtMost m next k (ok a) = k a
  if_ok-AtMost m next k (err e) = throw-AtMost _ m e

  -- The case of steps that do not call the handler.
  quietly :
      {A B : Type 0} (m : ℕ) (action : State host → State host × List Step × Result A)
      (next : A → State host → State host × List Step × Result B)
      → AtMost 0 action
      → ((a : A) → AtMost m (next a))
      → AtMost m (then_ host action next)
  quietly m action next h k =
      attempt-AtMost 0 m m action (if_ok host next) h (if_ok-AtMost m next k) (omega arith)

  call-AtMost : {A : Type 0} (n : ℕ) (f : Value → World → World × Result A) → AtMost n (call host f)
  unfolding AtMost call
  call-AtMost n f (w, v) = omega arith

  pub throw_if_aborted-AtMost : AtMost 0 (throw_if_aborted host)
  unfolding AtMost throw_if_aborted
  throw_if_aborted-AtMost (w, v) = omega arith

  resolved-AtMost : (type : ℕ) → AtMost 0 (resolved host type)
  resolved-AtMost type =
      quietly 0 _ _ throw_if_aborted-AtMost
        λ _. quietly 0 _ _ (call-AtMost 0 _) λ _. throw_if_aborted-AtMost

  accepted-AtMost : (type : ℕ) → AtMost 0 (record_step host (accepted type))
  unfolding AtMost record_step
  accepted-AtMost type s = omega arith

  transformed-AtMost : (type : ℕ) → AtMost 0 (record_step host (transformed type))
  unfolding AtMost record_step
  transformed-AtMost type s = omega arith

  caught-AtMost : (type : ℕ) → AtMost 0 (record_step host (caught type))
  unfolding AtMost record_step
  caught-AtMost type s = omega arith

  invoked-AtMost : AtMost 1 (record_step host invoked)
  unfolding AtMost record_step
  invoked-AtMost s = omega arith

  set_payload-AtMost : (v : Value) → AtMost 0 (set_payload host v)
  unfolding AtMost set_payload
  set_payload-AtMost v (w, u) = omega arith

  judge_guard-AtMost : (type : ℕ) (o : Option Bool) → AtMost 0 (judge_guard host type o)
  judge_guard-AtMost type (some true) = accepted-AtMost type
  judge_guard-AtMost type (some false) = throw-AtMost _ 0 _
  judge_guard-AtMost type none = throw-AtMost _ 0 _

  return-AtMost : {A : Type 0} (a : A) → AtMost 0 (λ s. (s, [], ok a))
  unfolding AtMost
  return-AtMost a s = omega arith

  pub run_guards-AtMost : (types : List ℕ) → AtMost 0 (run_guards host types)
  unfolding run_guards
  run_guards-AtMost [] = return-AtMost tt
  run_guards-AtMost (type ∷ types) =
      quietly 0 (run_guard host type) (λ _. run_guards host types)
        (quietly 0 _ _ (resolved-AtMost type)
          λ _. quietly 0 _ _ (call-AtMost 0 _) (judge_guard-AtMost type))
        (λ _. run_guards-AtMost types)

  pub run_pipes-AtMost : (types : List ℕ) → AtMost 0 (run_pipes host types)
  unfolding run_pipes
  run_pipes-AtMost [] = return-AtMost tt
  run_pipes-AtMost (type ∷ types) =
      quietly 0 (run_pipe host type) (λ _. run_pipes host types)
        (quietly 0 _ _ (resolved-AtMost type) λ _. quietly 0 _ _ (call-AtMost 0 _) λ _.
          quietly 0 _ _ (call-AtMost 0 _)
            λ v. quietly 0 _ _ (set_payload-AtMost v) λ _. transformed-AtMost type)
        (λ _. run_pipes-AtMost types)

  finish-AtMost :
      (action : State host → State host × List Step × Result Value) (r : Result Value)
      (admission : Admission) (violated : Bool)
      → AtMost 1 action
      → AtMost (allowance admission) (finish host action r admission violated)
  unfolding finish AtMost
  finish-AtMost action r unused violated h s = omega arith
  finish-AtMost action r pending violated h s =
      attempt-AtMost 1 0 1 action (λ _ s'. (s', [], settle host violated r)) h (λ _ s'. omega arith)
        (omega arith) s
  finish-AtMost action r settled violated h s = omega arith

  interact-AtMost :
      (action : State host → State host × List Step × Result Value)
      (interception : Interception World Value) (admission : Admission) (violated : Bool)
      → AtMost 1 action
      → AtMost (allowance admission) (interact host action interception admission violated)
  unfolding interact AtMost
  interact-AtMost action (returns r) admission violated h s =
      finish-AtMost action r admission violated h s
  interact-AtMost action (works f k) admission violated h (w, v) =
      interact-AtMost action k admission violated h (f w, v)
  interact-AtMost action (looks k) admission violated h (w, v) =
      interact-AtMost action (k w) admission violated h (w, v)
  interact-AtMost action (starts_next k) unused violated h s =
      interact-AtMost action k pending violated h s
  interact-AtMost action (starts_next k) pending violated h s =
      interact-AtMost action k pending true h s
  interact-AtMost action (starts_next k) settled violated h s =
      interact-AtMost action k settled true h s
  interact-AtMost action (awaits_next k) unused violated h s =
      attempt-AtMost 1 0 1 action (λ r. interact host action (k r) settled violated) h
        (λ r. interact-AtMost action (k r) settled violated h) (omega arith) s
  interact-AtMost action (awaits_next k) pending violated h s =
      interact-AtMost action (k (err contract)) pending true h s
  interact-AtMost action (awaits_next k) settled violated h s =
      interact-AtMost action (k (err contract)) settled true h s

  invoke_mq_interceptor-AtMost :
      (type : ℕ) (action : State host → State host × List Step × Result Value)
      → AtMost 1 action
      → AtMost 1 (invoke_mq_interceptor host type action)
  unfolding AtMost
  invoke_mq_interceptor-AtMost type action h (w, v) =
      interact-AtMost action (host.intercept type v) unused false h (w, v)

  dispatch-AtMost : (types : List ℕ) → AtMost 1 (dispatch host types)
  unfolding dispatch
  dispatch-AtMost [] = quietly 1 _ _ throw_if_aborted-AtMost λ _.
      attempt-AtMost 1 0 1 (record_step host invoked) (if_ok host (λ _. call host host.invoke))
        invoked-AtMost (if_ok-AtMost 0 _ (λ _. call-AtMost 0 host.invoke)) (omega arith)
  dispatch-AtMost (type ∷ types) =
      quietly 1 (resolved host type) (λ _. invoke_mq_interceptor host type (dispatch host types))
        (resolved-AtMost type)
        (λ _. invoke_mq_interceptor-AtMost type (dispatch host types) (dispatch-AtMost types))

  judge_filter-AtMost :
      (type : ℕ) (cause : Failure) (rest : State host → State host × List Step × Result Value)
      (o : Option Bool)
      → AtMost 0 rest
      → AtMost 0 (judge_filter host type cause rest o)
  judge_filter-AtMost type cause rest (some true) h =
      quietly 0 _ _ (caught-AtMost type) λ _. call-AtMost 0 _
  judge_filter-AtMost type cause rest (some false) h = h
  judge_filter-AtMost type cause rest none h = throw-AtMost _ 0 _

  run_filters-AtMost : (types : List ℕ) (cause : Failure) → AtMost 0 (run_filters host types cause)
  unfolding run_filters
  run_filters-AtMost [] cause = throw-AtMost _ 0 cause
  run_filters-AtMost (type ∷ types) cause = quietly 0 _ _ (call-AtMost 0 _) λ _.
      quietly 0 _ _ throw_if_aborted-AtMost λ _. quietly 0 _ _ (call-AtMost 0 _) λ answer.
        quietly 0 _ _ throw_if_aborted-AtMost λ _.
          judge_filter-AtMost type cause (run_filters host types cause) answer
            (run_filters-AtMost types cause)

  pub recover-AtMost : (filters : List ℕ) (r : Result Value) → AtMost 0 (recover host filters r)
  recover-AtMost filters (ok v) = return-AtMost v
  recover-AtMost filters (err cause) =
      quietly 0 _ _ throw_if_aborted-AtMost λ _. run_filters-AtMost filters cause

  body-AtMost : (e : Enhancers) → AtMost 1 (body host e)
  body-AtMost e =
      quietly 1 _ _ (run_guards-AtMost e.guards)
        λ _. quietly 1 _ _ (run_pipes-AtMost e.pipes) λ _. dispatch-AtMost e.interceptors

  run-AtMost : (e : Enhancers) → AtMost 1 (run host e)
  unfolding run
  run-AtMost e = quietly 1 _ _ throw_if_aborted-AtMost λ _.
      attempt-AtMost 1 0 1 (body host e) (recover host e.filters) (body-AtMost e)
        (recover-AtMost e.filters) (omega arith)

  -- One run of a pipeline calls the handler at most once, whatever its interceptors do with
  -- `next`, in whatever way guards, pipes and filters reply, and whenever the signal is aborted.
  pub run_invokes_once :
      (e : Enhancers) (w : World) (v : Value) → invocations (run host e (w, v)).1 ≤ 1
  unfolding AtMost
  run_invokes_once e w v = run-AtMost e (w, v)
