-- ===== src/Session/Readiness/Progress.antt =====
-- Every step of the session keeps the account of how far its startup has come.
use mathlib.Core.List.{append-nil, append_assoc}
use bettter_nest_mq.Prelude.{
  ◌≡◌, refl, sym, ◌∙◌, ap, inl, inr, Bool, true, false, ◌&&◌, List, [], ◌∷◌, ◌++◌, Option, none,
  some, engine_state, Result, ok, err, if◌then◌else◌,
}
use bettter_nest_mq.Session.{
  Setup, Session, Connection, Binding, Task, starting, ready, Startup, not_started, acquiring,
  making, resolving, probing, cleaning_up, settled, fulfilled,
}
use bettter_nest_mq.Session.Checks.{check_setup, check_participants, check_descriptor, tasks}
use bettter_nest_mq.Session.Machine.Initializing.{
  Reply, resource, descriptor, answered, refused, thrown, fail, commit, next_task, is_none, when_ok,
  add_reader, make_runtime, all_acquired, next_acquire, initialize, on_start, on_startup_reply,
}
use bettter_nest_mq.Session.Soundness.Activating.{Of, ready_names}
use bettter_nest_mq.Session.Readiness.{
  connections_of, resources_of, Bound, no_names, store_names, Serves, ProgressAt, Progress,
}
use bettter_nest_mq.Session.Readiness.Stores.{found_names-tasks}

connections_of-append :
    (bs : List Binding) (b : Binding)
    → connections_of (bs ++ b ∷ []) ≡ connections_of bs ++ b.connection ∷ []
connections_of-append [] b = refl
connections_of-append (x ∷ bs) b = ap (λ l. x.connection ∷ l) (connections_of-append bs b)

resources_of-append :
    (bs : List Binding) (b : Binding)
    → resources_of (bs ++ b ∷ []) ≡ resources_of bs ++ b.resource ∷ []
resources_of-append [] b = refl
resources_of-append (x ∷ bs) b = ap (λ l. x.resource ∷ l) (resources_of-append bs b)

is_none-eq : {A : Type 0} (l : List A) → is_none l ≡ true → l ≡ []
is_none-eq [] h = refl
is_none-eq (x ∷ l) h = cc h

&&-left : (a b : Bool) → a && b ≡ true → a ≡ true
&&-left true b h = refl
&&-left false b h = h

some-injective : {A : Type 0} {a b : A} → some a ≡ some b → a ≡ b
some-injective h = cc h

module _ (configured : List Connection) where
  abbrev HasProgress : Session → Type 0
  HasProgress = Of (Progress configured)

  unless_stopped-Progress :
      (stop : Bool) (next : Session → Session) (s : Session)
      → HasProgress (next s)
      → HasProgress (if stop then fail engine_state s else next s)
  unless_stopped-Progress true next s h = tt
  unless_stopped-Progress false next s h = h

  when_ok-Progress :
      (m : Result (Unit {0})) (next : Session → Session) (s : Session)
      → HasProgress (next s)
      → HasProgress (when_ok m next s)
  when_ok-Progress (ok _) next s h = h
  when_ok-Progress (err cause) next s h = tt

  commit-Serves :
      (bs : List Binding) (found : List Task) (s : Session)
      → Bound configured bs s.taken
      → found ≡ tasks bs
      → s.has_runtime ≡ true
      → Serves configured s.taken s.has_runtime (ready_names (commit found s))
  commit-Serves bs found s c e r =
      let (j, ev, f, sc, o) = found_names-tasks bs in (bs, c, rw (e, j, ev, f, sc, o) refl, inl r)

  next_task-Progress :
      (bs : List Binding) (found rest : List Task) (s : Session)
      → Bound configured bs s.taken
      → found ++ rest ≡ tasks bs
      → s.has_runtime ≡ true
      → HasProgress (next_task bs found rest s)
  unfolding next_task
  next_task-Progress bs found [] s c e r =
      unless_stopped-Progress s.stop_requested (commit found) s
        (λ _. commit-Serves bs found s c (sym (append-nil found) ∙ e) r)
  next_task-Progress bs found (t ∷ rest) s c e r =
      unless_stopped-Progress s.stop_requested
        (λ s'. record s' { startup = resolving bs found t rest }) s (c, e, r)

  module _ (setup : Setup) where
    all_acquired-Progress :
        (b : Bool) (bs : List Binding) (s : Session)
        → is_none bs && is_none setup.plans ≡ b
        → Bound configured bs s.taken
        → ready_names s ≡ no_names
        → HasProgress (
            if b
            then record s { state = ready; startup = settled fulfilled }
            else when_ok (check_participants setup bs) (make_runtime setup bs) s)
    all_acquired-Progress true bs s h c n =
        let e = is_none-eq bs (&&-left (is_none bs) (is_none setup.plans) h) in
        λ _. (bs, c, n ∙ ap store_names (sym e), inr e)
    all_acquired-Progress false bs s h c n =
        when_ok-Progress (check_participants setup bs) (make_runtime setup bs) s (c, n)

    next_acquire-Progress :
        (bs : List Binding) (rest : List Connection) (s : Session)
        → connections_of bs ++ rest ≡ configured
        → (resources_of bs ≡ s.taken) × (ready_names s ≡ no_names)
        → HasProgress (next_acquire setup bs rest s)
    unfolding next_acquire
    next_acquire-Progress bs [] s c n =
        unless_stopped-Progress s.stop_requested (all_acquired setup bs) s (
          all_acquired-Progress (is_none bs && is_none setup.plans) bs s refl
            (sym (append-nil (connections_of bs)) ∙ c, n.0) (n.1))
    next_acquire-Progress bs (x ∷ rest) s c n =
        unless_stopped-Progress s.stop_requested (λ s'. record s' { startup = acquiring bs x rest })
          s (c, n.0, n.1)

    pub on_startup_reply-Progress :
        (st : Startup) (reply : Reply) (s : Session)
        → HasProgress s
        → ProgressAt configured st s.state s.taken s.has_runtime (ready_names s)
        → HasProgress (on_startup_reply setup st reply s)
    unfolding on_startup_reply
    on_startup_reply-Progress (acquiring bs c rest) (resource r) s h (e, m, n) =
        next_acquire-Progress (bs ++ record { connection = c; resource = r } ∷ []) rest
          (record s {
            acquired = s.acquired ++ r ∷ [];
            taken = s.taken ++ r ∷ [];
            flow_readers = add_reader c r s.flow_readers;
          })
          (ap (λ l. l ++ rest) (connections_of-append bs (record { connection = c; resource = r }))
            ∙ append_assoc (connections_of bs) (c ∷ []) rest
            ∙ e)
          (
            resources_of-append bs (record { connection = c; resource = r })
                ∙ ap (λ l. l ++ r ∷ []) m,
            n,
          )
    on_startup_reply-Progress (acquiring bs c rest) (thrown cause) s h k = tt
    on_startup_reply-Progress (acquiring bs c rest) (descriptor d) s h k = h
    on_startup_reply-Progress (acquiring bs c rest) answered s h k = h
    on_startup_reply-Progress (acquiring bs c rest) refused s h k = h
    on_startup_reply-Progress (making bs) answered s h (c, n) =
        next_task-Progress bs [] (tasks bs) (record s { has_runtime = true }) c refl refl
    on_startup_reply-Progress (making bs) (thrown cause) s h k = tt
    on_startup_reply-Progress (making bs) (resource r) s h k = h
    on_startup_reply-Progress (making bs) (descriptor d) s h k = h
    on_startup_reply-Progress (making bs) refused s h k = h
    on_startup_reply-Progress (resolving bs found t rest) (descriptor d) s h k =
        when_ok-Progress (check_descriptor t d)
          (λ s'. record s' { startup = probing bs found t rest }) s k
    on_startup_reply-Progress (resolving bs found t rest) refused s h k = tt
    on_startup_reply-Progress (resolving bs found t rest) (thrown cause) s h k = tt
    on_startup_reply-Progress (resolving bs found t rest) answered s h k = h
    on_startup_reply-Progress (resolving bs found t rest) (resource r) s h k = h
    on_startup_reply-Progress (probing bs found t rest) answered s h (c, e, r) =
        next_task-Progress bs (found ++ t ∷ []) rest s c (append_assoc found (t ∷ []) rest ∙ e) r
    on_startup_reply-Progress (probing bs found t rest) refused s h k = tt
    on_startup_reply-Progress (probing bs found t rest) (thrown cause) s h k = tt
    on_startup_reply-Progress (probing bs found t rest) (resource r) s h k = h
    on_startup_reply-Progress (probing bs found t rest) (descriptor d) s h k = h
    on_startup_reply-Progress not_started reply s h k = h
    on_startup_reply-Progress (cleaning_up f) reply s h k = h
    on_startup_reply-Progress (settled o) reply s h k = h

    initialize-Progress :
        (c : Option (List Connection)) (s : Session)
        → c ≡ some configured
        → (s.taken ≡ []) × (ready_names s ≡ no_names)
        → HasProgress (initialize setup c s)
    unfolding initialize
    initialize-Progress none s e n = cc e
    initialize-Progress (some connections) s e n =
        when_ok-Progress (check_setup connections setup.queues) (next_acquire setup [] connections)
          s (next_acquire-Progress [] connections s (some-injective e) (sym (n.0), n.1))

    start-Progress :
        (stop : Bool) (s : Session)
        → setup.configured ≡ some configured
        → HasProgress s
        → (s.taken ≡ []) × (ready_names s ≡ no_names)
        → HasProgress
            (if stop then s else initialize setup setup.configured (record s { state = starting }))
    start-Progress true s e h n = h
    start-Progress false s e h n =
        initialize-Progress setup.configured (record s { state = starting }) e n

    pub on_start-Progress :
        (st : Startup) (s : Session)
        → setup.configured ≡ some configured
        → HasProgress s
        → ProgressAt configured st s.state s.taken s.has_runtime (ready_names s)
        → HasProgress (on_start setup st s)
    unfolding on_start
    on_start-Progress not_started s e h n = start-Progress s.stop_requested s e h n
    on_start-Progress (acquiring bs c rest) s e h k = h
    on_start-Progress (making bs) s e h k = h
    on_start-Progress (resolving bs found t rest) s e h k = h
    on_start-Progress (probing bs found t rest) s e h k = h
    on_start-Progress (cleaning_up f) s e h k = h
    on_start-Progress (settled o) s e h k = h
