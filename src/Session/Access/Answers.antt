-- ===== src/Session/Access/Answers.antt =====
-- When the operations on the stores of a session are answered.
use bettter_nest_mq.Prelude.{
  ◌≡◌, refl, ◌∙◌, ap, ◌⊎◌, inl, inr, Bool, true, false, List, [], ◌∷◌, Text, some, Failure, Result,
  ◌>>◌, require,
}
use bettter_nest_mq.Session.{Setup, Session, created, ready, Connection, Binding}
use bettter_nest_mq.Session.Checks.{member, names_of, binding_names}
use bettter_nest_mq.Session.Machine.{Event, run}
use bettter_nest_mq.Session.Machine.Activating.{is_ready_state, is_running}
use bettter_nest_mq.Session.Access.{with_store, run_operation}
use bettter_nest_mq.Session.Readiness.{connections_of}
use bettter_nest_mq.Session.Readiness.Served.{ready_is_complete}

binding_names-eq : (bs : List Binding) → binding_names bs ≡ names_of (connections_of bs)
binding_names-eq [] = refl
binding_names-eq (b ∷ bs) = ap (λ l. b.connection.name ∷ l) (binding_names-eq bs)

abbrev first : List (List Text) → List Text
first [] = []
first (names ∷ rest) = names

running :
    (name : Text) (configured : List Connection) (bs : List Binding) (s : Session)
    → s.state ≡ ready
    → member name (names_of configured) ≡ true
    → connections_of bs ≡ configured
    → (s.has_runtime ≡ true) ⊎ (bs ≡ [])
    → is_running s ≡ true
running name configured bs s e m c (inl r) =
    ap (λ x. elim (is_ready_state x) [ true ↦ s.has_runtime | false ↦ false ]) e ∙ r
running name configured bs s e m c (inr n) = cc

passes :
    {A : Type 0} (b : Bool) (failure : Failure) (rest : Result A)
    → b ≡ true
    → (require b failure >> rest) ≡ rest
passes true failure rest e = refl
passes false failure rest e = cc e

-- In every run in which the session shows `ready`, an operation on the store of a configured
-- connection is not refused by the session: `withStore` gives what the operation gives, and so does
-- `runOperation`.
pub ready_answers :
    {Value : Type 0} (setup : Setup) (configured : List Connection) (events : List Event)
    (name : Text) (operation : Result Value)
    → setup.configured ≡ some configured
    → (run setup created events).state ≡ ready
    → member name (names_of configured) ≡ true
    → (with_store name operation (run setup created events) ≡ operation)
      × (run_operation operation (run setup created events) ≡ operation)
unfolding with_store run_operation
ready_answers setup configured events name operation c e m =
    let s = run setup created events in
    let (bs, (conns, _), names, runtime) = ready_is_complete configured setup c events e in
    let jobs : s.ready_jobs ≡ binding_names bs = ap first names in
    let known = ap (member name) (jobs ∙ binding_names-eq bs ∙ ap names_of conns) ∙ m in
    let h = running name configured bs s e m conns runtime in
    (
      passes (is_running s) _ _ h ∙ passes (member name s.ready_jobs) _ operation known,
      passes (is_running s) _ operation h,
    )
