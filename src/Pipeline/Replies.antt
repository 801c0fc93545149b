-- ===== src/Pipeline/Replies.antt =====
-- What the guards and the pipes of a pipeline must have replied for it to go on.
use bettter_nest_mq.Prelude.{
  ℕ, ◌≡◌, refl, sym, ap, ◌∙◌, Bool, true, false, Option, none, some, List, [], ◌∷◌, Result, ok, err,
}
use bettter_nest_mq.Pipeline.{
  Step, Host, State, carry_on, attempt, throw, if_ok, then_, call, record_step, set_payload,
  abort_result, throw_if_aborted, resolved, judge_guard, transformed, run_guard, run_guards,
  run_pipe, run_pipes,
}

module _ {World Value : Type 0} (host : Host World Value) where
  -- The provider was resolved, and the signal was not aborted before nor after.
  abbrev pub Resolves : ℕ → World → World → Type 0
  Resolves type w ready =
      (host.is_aborted w ≡ false)
      × (host.resolve type w ≡ (ready, ok tt))
      × (host.is_aborted ready ≡ false)

  -- Each guard in turn replied `true` to the payload, which takes the world from one to the other.
  abbrev pub Accepts : List ℕ → Value → World → World → Type 0
  Accepts [] v w end = w ≡ end
  Accepts (type ∷ types) v w end =
      (ready : World) × (after : World) × Resolves type w ready
      × (host.can_activate type v ready ≡ (after, ok (some true)))
      × Accepts types v after end

  -- Each pipe in turn transformed the payload, and what the codec made of that is the next one.
  abbrev pub Pipes : List ℕ → Value → World → Value → World → Type 0
  Pipes [] v w last end = (v ≡ last) × (w ≡ end)
  Pipes (type ∷ types) v w last end =
      (ready : World) × (after : World) × (next : World) × (value : Value) × (decoded : Value)
      × Resolves type w ready
      × (host.transform type v ready ≡ (after, ok value))
      × (host.recode value after ≡ (next, ok decoded))
      × Pipes types decoded next last end

  Succeeds :
      {A : Type 0} → (State host → State host × List Step × Result A) → State host → A → Type 0
  Succeeds action s a = (action s).2 ≡ ok a

  carry_on-Succeeds :
      {A B : Type 0} (outcome : State host × List Step × Result A)
      (next : A → State host → State host × List Step × Result B) (b : B)
      → (carry_on host (if_ok host next) outcome).2 ≡ ok b
      → (a : A) × (outcome.2 ≡ ok a)
        × ((next a (outcome.0)).2 ≡ ok b)
        × ((carry_on host (if_ok host next) outcome).0 ≡ (next a (outcome.0)).0)
  unfolding throw
  carry_on-Succeeds (s, steps, err e) next b h = cc h
  carry_on-Succeeds (s, steps, ok a) next b h = (a, refl, h, refl)

  then-Succeeds :
      {A B : Type 0} (action : State host → State host × List Step × Result A)
      (next : A → State host → State host × List Step × Result B) (s : State host) (b : B)
      → (then_ host action next s).2 ≡ ok b
      → (a : A) × ((action s).2 ≡ ok a)
        × ((next a (action s).0).2 ≡ ok b)
        × ((then_ host action next s).0 ≡ (next a (action s).0).0)
  unfolding attempt
  then-Succeeds action next s b h = carry_on-Succeeds (action s) next b h

  -- The same action from the same state.
  moved :
      {B : Type 0} (action : State host → State host × List Step × Result B) (s s' end : State host)
      (b : B)
      → s ≡ s'
      → (action s).2 ≡ ok b
      → end ≡ (action s).0
      → ((action s').2 ≡ ok b) × (end ≡ (action s').0)
  moved action s s' end b e h k = (ap (λ x. (action x).2) (sym e) ∙ h, k ∙ ap (λ x. (action x).0) e)

  abort_result-ok : (b : Bool) → abort_result host b ≡ ok tt → b ≡ false
  abort_result-ok true h = cc h
  abort_result-ok false h = refl

  reply-eq : {A : Type 0} (p : World × Result A) (a : A) → p.1 ≡ ok a → p ≡ (p.0, ok a)
  reply-eq p a h = ap (λ r. (p.0, r)) h

  resolved-Resolves :
      (type : ℕ) (w : World) (v : Value)
      → (resolved host type (w, v)).2 ≡ ok tt
      → Resolves type w (host.resolve type w).0
        × ((resolved host type (w, v)).0 ≡ ((host.resolve type w).0, v))
  unfolding throw_if_aborted call
  resolved-Resolves type w v h =
      let (_, before, h', e) = then-Succeeds (throw_if_aborted host) _ (w, v) tt h in
      let (_, reply, after, e') =
        then-Succeeds (call host (λ _. host.resolve type)) _ (w, v) tt h' in
      (
        (
          abort_result-ok _ before,
          reply-eq (host.resolve type w) tt reply,
          abort_result-ok _ after,
        ),
        e ∙ e',
      )

  judge_guard-true :
      (type : ℕ) (o : Option Bool) (s : State host)
      → (judge_guard host type o s).2 ≡ ok tt
      → (o ≡ some true) × ((judge_guard host type o s).0 ≡ s)
  unfolding throw record_step
  judge_guard-true type (some true) s h = (refl, refl)
  judge_guard-true type (some false) s h = cc h
  judge_guard-true type none s h = cc h

  run_guard-Accepts :
      (type : ℕ) (w : World) (v : Value)
      → (run_guard host type (w, v)).2 ≡ ok tt
      → (ready : World) × (after : World) × Resolves type w ready
        × (host.can_activate type v ready ≡ (after, ok (some true)))
        × ((run_guard host type (w, v)).0 ≡ (after, v))
  unfolding call
  run_guard-Accepts type w v h =
      let ready = (host.resolve type w).0 in
      let (_, first, h', e) = then-Succeeds (resolved host type) _ (w, v) tt h in
      let (r, at) = resolved-Resolves type w v first in
      let (h'', e') =
        moved (then_ host (call host (host.can_activate type)) (judge_guard host type)) _ (ready, v)
          _ tt at h' e in
      let (o, reply, judged, e'') =
        then-Succeeds (call host (host.can_activate type)) (judge_guard host type) (ready, v) tt
          h'' in
      let (accepted, last) = judge_guard-true type o _ judged in
      (
        ready,
        (host.can_activate type v ready).0,
        r,
        reply-eq (host.can_activate type v ready) (some true) (reply ∙ ap ok accepted),
        e' ∙ e'' ∙ last,
      )

  pub run_guards-Accepts :
      (types : List ℕ) (w : World) (v : Value)
      → (run_guards host types (w, v)).2 ≡ ok tt
      → (end : World) × Accepts types v w end × ((run_guards host types (w, v)).0 ≡ (end, v))
  unfolding run_guards
  run_guards-Accepts [] w v h = (w, refl, refl)
  run_guards-Accepts (type ∷ types) w v h =
      let (_, first, h', e) =
        then-Succeeds (run_guard host type) (λ _. run_guards host types) (w, v) tt h in
      let (ready, after, r, accepted, at) = run_guard-Accepts type w v first in
      let (h'', e') = moved (run_guards host types) _ (after, v) _ tt at h' e in
      let (end, rest, last) = run_guards-Accepts types after v h'' in
      (end, (ready, after, r, accepted, rest), e' ∙ last)

  -- The rest of a pipe's work, from each of its awaits.
  abbrev store : ℕ → Value → State host → State host × List Step × Result (Unit {0})
  store type decoded =
      then_ host (set_payload host decoded) (λ _. record_step host (transformed type))

  abbrev recode : ℕ → Value → State host → State host × List Step × Result (Unit {0})
  recode type value = then_ host (call host (λ _. host.recode value)) (store type)

  run_pipe-Pipes :
      (type : ℕ) (w : World) (v : Value)
      → (run_pipe host type (w, v)).2 ≡ ok tt
      → (ready : World) × (after : World) × (next : World) × (value : Value) × (decoded : Value)
        × Resolves type w ready
        × (host.transform type v ready ≡ (after, ok value))
        × (host.recode value after ≡ (next, ok decoded))
        × ((run_pipe host type (w, v)).0 ≡ (next, decoded))
  unfolding call set_payload record_step
  run_pipe-Pipes type w v h =
      let ready = (host.resolve type w).0 in
      let after = (host.transform type v ready).0 in
      let (u, first, h', e) = then-Succeeds (resolved host type) _ (w, v) tt h in
      let (r, at) = resolved-Resolves type w v first in
      let (h'', e') =
        moved (then_ host (call host (host.transform type)) (recode type)) _ (ready, v) _ tt at h'
          e in
      let (value, converted, h3, e3) =
        then-Succeeds (call host (host.transform type)) (recode type) (ready, v) tt h'' in
      let (decoded, recoded, h4, e4) =
        then-Succeeds (call host (λ _. host.recode value)) (store type) (after, v) tt h3 in
      let (_, _, _, e5) =
        then-Succeeds (set_payload host decoded) (λ _. record_step host (transformed type))
          ((host.recode value after).0, v) tt h4 in
      (
        ready,
        after,
        (host.recode value after).0,
        value,
        decoded,
        r,
        reply-eq (host.transform type v ready) value converted,
        reply-eq (host.recode value after) decoded recoded,
        e' ∙ e3 ∙ e4 ∙ e5,
      )

  pub run_pipes-Pipes :
      (types : List ℕ) (w : World) (v : Value)
      → (run_pipes host types (w, v)).2 ≡ ok tt
      → (last : Value) × (end : World) × Pipes types v w last end
        × ((run_pipes host types (w, v)).0 ≡ (end, last))
  unfolding run_pipes
  run_pipes-Pipes [] w v h = (v, w, (refl, refl), refl)
  run_pipes-Pipes (type ∷ types) w v h =
      let (_, first, h', e) =
        then-Succeeds (run_pipe host type) (λ _. run_pipes host types) (w, v) tt h in
      let (ready, after, next, value, decoded, r, t, c, at) = run_pipe-Pipes type w v first in
      let (h'', e') = moved (run_pipes host types) _ (next, decoded) _ tt at h' e in
      let (last, end, rest, final) = run_pipes-Pipes types next decoded h'' in
      (last, end, (ready, after, next, value, decoded, r, t, c, rest), e' ∙ final)
