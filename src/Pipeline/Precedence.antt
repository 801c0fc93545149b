-- ===== src/Pipeline/Precedence.antt =====
-- What has happened when a pipeline calls the handler.
use bettter_nest_mq.Prelude.{
  ◌≤◌, ◌<◌, ◌≡◌, refl, sym, ap, ◌∙◌, List, [], ◌++◌, map, Result, ok, err, arith,
}
use mathlib.Core.List.{append_assoc, append-nil}
use mathlib.Core.Path.{subst}
use bettter_nest_mq.Pipeline.Replies.{Accepts, Pipes, run_guards-Accepts, run_pipes-Pipes}
use bettter_nest_mq.Pipeline.{
  Step, accepted, transformed, Host, Enhancers, State, carry_on, attempt, throw, if_ok, then_,
  throw_if_aborted, run_guards, run_pipes, dispatch, recover, body, run,
}
use bettter_nest_mq.Pipeline.Invocation.{
  invocations, invocations-append, AtMost, throw_if_aborted-AtMost, run_guards-AtMost,
  run_pipes-AtMost, recover-AtMost,
}
use bettter_nest_mq.Pipeline.Logs.{Logs, throw_if_aborted-Logs, run_guards-Logs, run_pipes-Logs}

append_assoc4 :
    (xs bs cs ds es : List Step)
    → (xs ++ (bs ++ (cs ++ ds))) ++ es ≡ xs ++ (bs ++ (cs ++ (ds ++ es)))
append_assoc4 xs bs cs ds es =
    append_assoc xs (bs ++ (cs ++ ds)) es
    ∙ ap (λ ys. xs ++ ys)
        (append_assoc bs (cs ++ ds) es ∙ ap (λ ys. bs ++ ys) (append_assoc cs ds es))

module _ {World Value : Type 0} (host : Host World Value) where
  throw_if_aborted-state : (w : World) (v : Value) → (throw_if_aborted host (w, v)).0 ≡ (w, v)
  unfolding throw_if_aborted
  throw_if_aborted-state w v = refl

  carry_on-prefix :
      {A B : Type 0} (xs : List Step) (outcome : State host × List Step × Result A)
      (next : A → State host → State host × List Step × Result B)
      → ((a : A) → outcome.2 ≡ ok a → outcome.1 ≡ xs)
      → invocations outcome.1 ≤ 0
      → 0 < invocations (carry_on host (if_ok host next) outcome).1
      → (a : A) × (outcome.2 ≡ ok a)
        × ((carry_on host (if_ok host next) outcome).1 ≡ xs ++ (next a (outcome.0)).1)
        × (0 < invocations (next a (outcome.0)).1)
  unfolding throw
  carry_on-prefix xs (s, steps, err e) next h quiet g =
      absurd (omega (arith, invocations-append steps [], quiet, g))
  carry_on-prefix xs (s, steps, ok a) next h quiet g = (
    a,
    refl,
    ap (λ ys. ys ++ (next a s).1) (h a refl),
    omega (arith, invocations-append steps (next a s).1, quiet, g),
  )

  chain-prefix :
      {A B : Type 0} (xs : List Step) (action : State host → State host × List Step × Result A)
      (next : A → State host → State host × List Step × Result B)
      → Logs host xs action
      → AtMost host 0 action
      → (s : State host) → 0 < invocations (then_ host action next s).1
      → (a : A) × ((action s).2 ≡ ok a)
        × ((then_ host action next s).1 ≡ xs ++ (next a (action s).0).1)
        × (0 < invocations (next a (action s).0).1)
  unfolding Logs AtMost attempt
  chain-prefix xs action next h quiet s g = carry_on-prefix xs (action s) next (h s) (quiet s) g

  -- The log of a body that has come to the handler, and what made it go on.
  abbrev pub Passes : Enhancers → State host → List Step → Type 0
  Passes e (w, v) steps =
      (middle : World) × (end : World) × (last : Value) × (more : List Step) × Accepts host e.guards
        v w middle
      × Pipes host e.pipes v middle last end
      × (steps
          ≡ map accepted e.guards
            ++ (map transformed e.pipes ++ ((dispatch host e.interceptors (end, last)).1 ++ more)))
      × (0 < invocations (dispatch host e.interceptors (end, last)).1)

  piped-Passes :
      (e : Enhancers) (w middle : World) (v : Value) (steps : List Step)
      → Accepts host e.guards v w middle
      → (steps
          ≡ map accepted e.guards
            ++ (then_ host
                (run_pipes host e.pipes)
                (λ _. dispatch host e.interceptors)
                (middle, v)).1)
      → 0
        < invocations
            (then_ host (run_pipes host e.pipes) (λ _. dispatch host e.interceptors) (middle, v)).1
      → Passes e (w, v) steps
  piped-Passes e w middle v steps guards log g =
      let (_, succeeded, second, g') =
        chain-prefix (map transformed e.pipes) (run_pipes host e.pipes)
          (λ _. dispatch host e.interceptors) (run_pipes-Logs host e.pipes)
          (run_pipes-AtMost host e.pipes) (middle, v) g in
      let (last, end, pipes, at) = run_pipes-Pipes host e.pipes middle v succeeded in
      (
        middle,
        end,
        last,
        [],
        guards,
        pipes,
        log
            ∙ ap (λ ys. map accepted e.guards ++ ys)
                (second
                  ∙ ap (λ s. map transformed e.pipes ++ (dispatch host e.interceptors s).1) at
                  ∙ ap (λ ys. map transformed e.pipes ++ ys)
                      (sym (append-nil (dispatch host e.interceptors (end, last)).1))),
        subst (λ s. 0 < invocations (dispatch host e.interceptors s).1) at g',
      )

  body-Passes :
      (e : Enhancers) (w : World) (v : Value)
      → 0 < invocations (body host e (w, v)).1
      → Passes e (w, v) (body host e (w, v)).1
  body-Passes e w v g =
      let (_, succeeded, first, g') =
        chain-prefix (map accepted e.guards) (run_guards host e.guards)
          (λ _. then_ host (run_pipes host e.pipes) (λ _. dispatch host e.interceptors))
          (run_guards-Logs host e.guards) (run_guards-AtMost host e.guards) (w, v) g in
      let (middle, guards, at) = run_guards-Accepts host e.guards w v succeeded in
      piped-Passes e w middle v (body host e (w, v)).1 guards
        (first
          ∙ ap
              (λ s.
                map accepted e.guards
                ++ (then_ host (run_pipes host e.pipes) (λ _. dispatch host e.interceptors) s).1)
              at)
        (subst
          (λ s.
            0
            < invocations
                (then_ host (run_pipes host e.pipes) (λ _. dispatch host e.interceptors) s).1)
          at g')

  -- What a filter adds comes after.
  Passes-append :
      (e : Enhancers) (w : World) (v : Value) (steps later : List Step)
      → Passes e (w, v) steps
      → Passes e (w, v) (steps ++ later)
  Passes-append e w v steps later (middle, end, last, more, guards, pipes, log, g) = (
    middle,
    end,
    last,
    more ++ later,
    guards,
    pipes,
    ap (λ ys. ys ++ later) log
        ∙ append_assoc4 (map accepted e.guards) (map transformed e.pipes)
            (dispatch host e.interceptors (end, last)).1 more later,
    g,
  )

  guarded-Passes :
      (e : Enhancers) (w : World) (v : Value)
      → 0 < invocations (attempt host (body host e) (recover host e.filters) (w, v)).1
      → Passes e (w, v) (attempt host (body host e) (recover host e.filters) (w, v)).1
  unfolding attempt AtMost
  guarded-Passes e w v g =
      let (s', steps, r) = body host e (w, v) in
      let more = (recover host e.filters r s').1 in
      let quiet = recover-AtMost host e.filters r s' in
      Passes-append e w v steps more
        (body-Passes e w v (omega (arith, invocations-append steps more, quiet, g)))

  -- If a run calls the handler then each guard of the class and of the method has replied `true` to
  -- the payload, in order, and after that each pipe has transformed the payload and the codec has
  -- encoded and decoded the result, in order, with a look at the signal before and after each
  -- provider: these are the first steps of the run, and what it does next is what the interceptors
  -- and the handler do with the payload that the last pipe and the codec made.
  pub run_in_order :
      (e : Enhancers) (w : World) (v : Value)
      → 0 < invocations (run host e (w, v)).1
      → Passes e (w, v) (run host e (w, v)).1
  unfolding run
  run_in_order e w v g =
      let (_, _, first, g') =
        chain-prefix [] (throw_if_aborted host)
          (λ _. attempt host (body host e) (recover host e.filters)) (throw_if_aborted-Logs host)
          (throw_if_aborted-AtMost host) (w, v) g in
      let at = throw_if_aborted-state w v in
      subst (Passes e (w, v))
        (sym (first ∙ ap (λ s. (attempt host (body host e) (recover host e.filters) s).1) at))
        (guarded-Passes e w v (
          subst (λ s. 0 < invocations (attempt host (body host e) (recover host e.filters) s).1) at
            g'))
