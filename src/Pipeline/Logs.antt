-- ===== src/Pipeline/Logs.antt =====
-- The steps that an action of the pipeline has recorded where it succeeds.
use bettter_nest_mq.Prelude.{
  ℕ, ◌≡◌, refl, Bool, true, false, Option, none, some, List, [], ◌∷◌, ◌++◌, map, Failure, Result,
  ok, err,
}
use bettter_nest_mq.Pipeline.{
  Step, accepted, transformed, Host, State, carry_on, attempt, throw, if_ok, then_, call,
  record_step, set_payload, throw_if_aborted, resolved, judge_guard, run_guard, run_guards,
  run_pipe, run_pipes,
}

module _ {World Value : Type 0} (host : Host World Value) where
  -- An action that succeeds has recorded just these steps.
  unfoldable pub Logs :
      {A : Type 0} → List Step → (State host → State host × List Step × Result A) → Type 0
  Logs {A} steps action = (s : State host) (a : A) → (action s).2 ≡ ok a → (action s).1 ≡ steps

  call-Logs : {A : Type 0} (f : Value → World → World × Result A) → Logs [] (call host f)
  unfolding Logs call
  call-Logs f (w, v) a h = refl

  return-Logs : {A : Type 0} (a : A) → Logs [] (λ s. (s, [], ok a))
  unfolding Logs
  return-Logs a s b h = refl

  throw-Logs : (A : Type 0) (steps : List Step) (e : Failure) → Logs steps (throw host {A = A} e)
  unfolding Logs throw
  throw-Logs A steps e s a h = cc h

  record_step-Logs : (step : Step) → Logs (step ∷ []) (record_step host step)
  unfolding Logs record_step
  record_step-Logs step s a h = refl

  set_payload-Logs : (v : Value) → Logs [] (set_payload host v)
  unfolding Logs set_payload
  set_payload-Logs v (w, u) a h = refl

  pub throw_if_aborted-Logs : Logs [] (throw_if_aborted host)
  unfolding Logs throw_if_aborted
  throw_if_aborted-Logs (w, v) a h = refl

  carry_on-Logs :
      {A B : Type 0} (xs ys : List Step) (outcome : State host × List Step × Result A)
      (next : A → State host → State host × List Step × Result B)
      → ((a : A) → outcome.2 ≡ ok a → outcome.1 ≡ xs)
      → ((a : A) (s : State host) (b : B) → (next a s).2 ≡ ok b → (next a s).1 ≡ ys)
      → (b : B) → (carry_on host (if_ok host next) outcome).2 ≡ ok b
      → (carry_on host (if_ok host next) outcome).1 ≡ xs ++ ys
  unfolding throw
  carry_on-Logs xs ys (s, steps, err e) next h k b g = cc g
  carry_on-Logs xs ys (s, steps, ok a) next h k b g = rw (h a refl, k a s b g) refl

  chain-Logs :
      {A B : Type 0} (xs ys : List Step) (action : State host → State host × List Step × Result A)
      (next : A → State host → State host × List Step × Result B)
      → Logs xs action
      → ((a : A) → Logs ys (next a))
      → Logs (xs ++ ys) (then_ host action next)
  unfolding Logs attempt
  chain-Logs xs ys action next h k s b g = carry_on-Logs xs ys (action s) next (h s) k b g

  resolved-Logs : (type : ℕ) → Logs [] (resolved host type)
  resolved-Logs type =
      chain-Logs [] [] _ _ throw_if_aborted-Logs
        λ _. chain-Logs [] [] _ _ (call-Logs _) λ _. throw_if_aborted-Logs

  judge_guard-Logs :
      (type : ℕ) (o : Option Bool) → Logs (accepted type ∷ []) (judge_guard host type o)
  judge_guard-Logs type (some true) = record_step-Logs (accepted type)
  judge_guard-Logs type (some false) = throw-Logs _ _ _
  judge_guard-Logs type none = throw-Logs _ _ _

  pub run_guards-Logs : (types : List ℕ) → Logs (map accepted types) (run_guards host types)
  unfolding run_guards
  run_guards-Logs [] = return-Logs tt
  run_guards-Logs (type ∷ types) =
      chain-Logs (accepted type ∷ []) (map accepted types) (run_guard host type) _
        (chain-Logs [] _ _ _ (resolved-Logs type)
          λ _. chain-Logs [] _ _ _ (call-Logs _) (judge_guard-Logs type))
        (λ _. run_guards-Logs types)

  pub run_pipes-Logs : (types : List ℕ) → Logs (map transformed types) (run_pipes host types)
  unfolding run_pipes
  run_pipes-Logs [] = return-Logs tt
  run_pipes-Logs (type ∷ types) =
      chain-Logs (transformed type ∷ []) (map transformed types) (run_pipe host type) _
        (chain-Logs [] _ _ _ (resolved-Logs type) λ _. chain-Logs [] _ _ _ (call-Logs _) λ _.
          chain-Logs [] _ _ _ (call-Logs _)
            λ v. chain-Logs [] _ _ _ (set_payload-Logs v) λ _. record_step-Logs (transformed type))
        (λ _. run_pipes-Logs types)
