-- ===== src/Pipeline.antt =====
-- MqPipeline of engine/mq-enhancers.ts, and invokeMqInterceptor of engine/mq-interceptor.ts. The
-- enhancers, the schemas' codec and the handler are the user's: they are fields of `Host`, act on
-- a world that they alone know, and are named by numbers, as their types name them in the source.
-- The signal is read from the world. A run comes with the steps that succeeded or were entered.
pub mod Invocation
pub mod Replies
pub mod Logs
pub mod Precedence
use bettter_nest_mq.Prelude.{
  ℕ, Bool, true, false, Option, none, some, List, [], ◌∷◌, ◌++◌, Failure, contract, guard_rejected,
  aborted, Result, ok, err,
}

pub data Step : Type 0 where
  -- a guard accepted, a pipe's value was decoded
  accepted transformed : ℕ → Step
  -- the handler was called, a filter took the error
  invoked : Step
  caught : ℕ → Step

-- What an interceptor does: it works on the world, looks at it, calls `next` and awaits the
-- outcome, calls `next` without awaiting it, or settles.
pub data Interception (World Value : Type 0) : Type 0 where
  returns : Result Value → Interception World Value
  works : (World → World) → Interception World Value → Interception World Value
  looks : (World → Interception World Value) → Interception World Value
  awaits_next : (Result Value → Interception World Value) → Interception World Value
  starts_next : Interception World Value → Interception World Value

pub record Host (World Value : Type 0) : Type 0 where
  pub is_aborted : World → Bool
  pub resolve : ℕ → World → World × Result (Unit {0})
  -- `none` is a value that is not a boolean
  pub can_activate : ℕ → Value → World → World × Result (Option Bool)
  pub transform : ℕ → Value → World → World × Result Value
  pub recode : Value → World → World × Result Value
  pub intercept : ℕ → Value → Interception World Value
  pub supports : ℕ → Failure → Value → World → World × Result (Option Bool)
  pub catch : ℕ → Failure → Value → World → World × Result Value
  pub invoke : Value → World → World × Result Value

-- Whether `next` was not called, was called and is still to run, or has run.
pub data Admission : Type 0 where
  unused pending settled : Admission

-- The enhancers of a class or of a method, and those of a pipeline.
pub record Enhancers : Type 0 where
  pub guards : List ℕ
  pub pipes : List ℕ
  pub interceptors : List ℕ
  pub filters : List ℕ

-- The constructor: a method's filters come first, all its other enhancers last.
abbrev pub combine : Enhancers → Enhancers → Enhancers
combine owner local = record {
  guards = owner.guards ++ local.guards;
  pipes = owner.pipes ++ local.pipes;
  interceptors = owner.interceptors ++ local.interceptors;
  filters = local.filters ++ owner.filters;
}

module _ {World Value : Type 0} (host : Host World Value) where
  -- The world and the payload of `context`.
  abbrev pub State : Type 0
  State = World × Value

  abbrev pub Run : Type 0 → Type 0
  Run A = State × List Step × Result A

  abbrev pub Action : Type 0 → Type 0
  Action A = State → Run A

  abbrev pub carry_on : {A B : Type 0} → (Result A → Action B) → Run A → Run B
  carry_on next (s, steps, r) = let (s', more, r') = next r s in (s', steps ++ more, r')

  -- try { … } catch
  unfoldable pub attempt : {A B : Type 0} → Action A → (Result A → Action B) → Action B
  attempt action next s = carry_on next (action s)

  unfoldable pub throw : {A : Type 0} → Failure → Action A
  throw e s = (s, [], err e)

  abbrev pub if_ok : {A B : Type 0} → (A → Action B) → Result A → Action B
  if_ok next (ok a) = next a
  if_ok next (err e) = throw e

  abbrev pub then_ : {A B : Type 0} → Action A → (A → Action B) → Action B
  then_ action next = attempt action (if_ok next)

  -- A call of the user's code.
  unfoldable pub call : {A : Type 0} → (Value → World → World × Result A) → Action A
  call f (w, v) = let (w', r) = f v w in ((w', v), [], r)

  unfoldable pub record_step : Step → Action (Unit {0})
  record_step step s = (s, step ∷ [], ok tt)

  unfoldable pub set_payload : Value → Action (Unit {0})
  set_payload v (w, _) = ((w, v), [], ok tt)

  abbrev pub abort_result : Bool → Result (Unit {0})
  abort_result true = err aborted
  abort_result false = ok tt

  -- job.signal.throwIfAborted()
  unfoldable pub throw_if_aborted : Action (Unit {0})
  throw_if_aborted (w, v) = ((w, v), [], abort_result (host.is_aborted w))

  -- The provider, between two looks at the signal.
  abbrev pub resolved : ℕ → Action (Unit {0})
  resolved type =
      then_ throw_if_aborted λ _. then_ (call (λ _. host.resolve type)) λ _. throw_if_aborted

  abbrev pub judge_guard : ℕ → Option Bool → Action (Unit {0})
  judge_guard type (some true) = record_step (accepted type)
  judge_guard type (some false) = throw guard_rejected
  judge_guard type none = throw contract

  abbrev pub run_guard : ℕ → Action (Unit {0})
  run_guard type =
      then_ (resolved type) λ _. then_ (call (host.can_activate type)) (judge_guard type)

  unfoldable pub run_guards : List ℕ → Action (Unit {0})
  run_guards [] s = (s, [], ok tt)
  run_guards (type ∷ types) s = then_ (run_guard type) (λ _. run_guards types) s

  abbrev pub run_pipe : ℕ → Action (Unit {0})
  run_pipe type = then_ (resolved type) λ _. then_ (call (host.transform type)) λ value.
      then_ (call (λ _. host.recode value))
        λ decoded. then_ (set_payload decoded) λ _. record_step (transformed type)

  unfoldable pub run_pipes : List ℕ → Action (Unit {0})
  run_pipes [] s = (s, [], ok tt)
  run_pipes (type ∷ types) s = then_ (run_pipe type) (λ _. run_pipes types) s

  -- After the drain: an interceptor's own error, the violation, or its value.
  abbrev pub settle : Bool → Result Value → Result Value
  settle violated (err e) = err e
  settle true (ok v) = err contract
  settle false (ok v) = ok v

  unfoldable pub finish : Action Value → Result Value → Admission → Bool → Action Value
  finish dispatch r pending violated s = attempt dispatch (λ _ s'. (s', [], settle violated r)) s
  finish dispatch r _ violated s = (s, [], settle violated r)

  -- A `next` that was started without being awaited runs, at the latest, in the drain: here.
  unfoldable pub interact :
      Action Value → Interception World Value → Admission → Bool → Action Value
  interact dispatch (returns r) admission violated s = finish dispatch r admission violated s
  interact dispatch (works f k) admission violated (w, v) =
      interact dispatch k admission violated (f w, v)
  interact dispatch (looks k) admission violated (w, v) =
      interact dispatch (k w) admission violated (w, v)
  interact dispatch (starts_next k) unused violated s = interact dispatch k pending violated s
  interact dispatch (starts_next k) admission violated s = interact dispatch k admission true s
  interact dispatch (awaits_next k) unused violated s =
      attempt dispatch (λ r. interact dispatch (k r) settled violated) s
  interact dispatch (awaits_next k) admission violated s =
      interact dispatch (k (err contract)) admission true s

  abbrev pub invoke_mq_interceptor : ℕ → Action Value → Action Value
  invoke_mq_interceptor type dispatch (w, v) =
      interact dispatch (host.intercept type v) unused false (w, v)

  unfoldable pub dispatch : List ℕ → Action Value
  dispatch [] s =
      then_ throw_if_aborted (λ _. then_ (record_step invoked) (λ _. call host.invoke)) s
  dispatch (type ∷ types) s =
      then_ (resolved type) (λ _. invoke_mq_interceptor type (dispatch types)) s

  abbrev pub judge_filter : ℕ → Failure → Action Value → Option Bool → Action Value
  judge_filter type cause rest (some true) =
      then_ (record_step (caught type)) λ _. call (host.catch type cause)
  judge_filter type cause rest (some false) = rest
  judge_filter type cause rest none = throw contract

  abbrev pub run_filter : ℕ → Failure → Action Value → Action Value
  run_filter type cause rest = then_ (call (λ _. host.resolve type)) λ _.
      then_ throw_if_aborted λ _.
        then_ (call (host.supports type cause))
          λ answer. then_ throw_if_aborted λ _. judge_filter type cause rest answer

  unfoldable pub run_filters : List ℕ → Failure → Action Value
  run_filters [] cause s = throw cause s
  run_filters (type ∷ types) cause s = run_filter type cause (run_filters types cause) s

  abbrev pub recover : List ℕ → Result Value → Action Value
  recover filters (ok v) s = (s, [], ok v)
  recover filters (err cause) s = then_ throw_if_aborted (λ _. run_filters filters cause) s

  abbrev pub body : Enhancers → Action Value
  body e = then_ (run_guards e.guards) λ _. then_ (run_pipes e.pipes) λ _. dispatch e.interceptors

  unfoldable pub run : Enhancers → Action Value
  run e = then_ throw_if_aborted λ _. attempt (body e) (recover e.filters)
