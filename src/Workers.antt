-- ===== src/Workers.antt =====
-- discoverWorkers of engine/worker-discovery.ts. What the decorators and the container say of a
-- provider is a `Provider`; the checks of the retry policies and of the handlers' parameters enter
-- by what they throw, and compileWorker by the names that it is given.
pub mod Handlers
use bettter_nest_mq.Prelude.{
  ℕ, Bool, true, false, ◌&&◌, not, Option, none, some, List, [], ◌∷◌, any, Text, text_eq, Result,
  ok, err, ◌>>=◌, ◌>>◌, Failure, contract, flow, FlowReason, reject_if, require,
}
use bettter_nest_mq.Flows.{has}

-- The kinds of the parameters of a handler; one without a decorator has none.
pub data ParameterKind : Type 0 where
  payload context children undecorated : ParameterKind

pub data PhaseKind : Type 0 where
  process fan_out collect : PhaseKind

pub record Handler : Type 0 where
  -- an own method of the prototype, and no accessor
  pub is_method : Bool
  pub has_enhancers : Bool
  pub parameters : List ParameterKind
  -- what the constructor of MqPipeline throws, if it does
  pub pipeline : Result (Unit {0})

pub record ProcessMethod : Type 0 where
  -- the identity of the registered job, if the queue and the property are known
  pub job : Option Text
  -- what retries.require throws, if it does
  pub retries : Result (Unit {0})
  pub handler : Handler

pub record Provider : Type 0 where
  pub is_class : Bool
  pub worker : Option Text
  pub methods : List ProcessMethod

pub record OwnedFlow : Type 0 where
  pub owner : Text
  pub parent : Text
  pub retries : Result (Unit {0})
  pub fan_out_handler : Handler
  pub collect_handler : Handler

-- The name of a worker, the jobs that it processes, and the parents of the flows that it runs.
pub record WorkerPlan : Type 0 where
  pub name : Text
  pub jobs : List Text
  pub parents : List Text

abbrev pub check_kind : PhaseKind → ParameterKind → Result (Unit {0})
check_kind phase undecorated = err contract
check_kind collect children = ok tt
check_kind process children = err (flow FlowReason.definition)
check_kind fan_out children = err (flow FlowReason.definition)
check_kind phase payload = ok tt
check_kind phase context = ok tt

unfoldable pub check_kinds : PhaseKind → List ParameterKind → Result (Unit {0})
check_kinds phase [] = ok tt
check_kinds phase (kind ∷ kinds) = check_kind phase kind >> check_kinds phase kinds

-- invocationFor
unfoldable pub check_handler : PhaseKind → Handler → Result (Unit {0})
check_handler phase h = do
  require h.is_method contract
  reject_if h.has_enhancers contract
  check_kinds phase h.parameters
  h.pipeline

abbrev pub known_job : Option Text → Result Text
known_job none = err contract
known_job (some key) = ok key

-- Runs a flow's handlers in the worker that owns it.
unfoldable pub owned_flows : Text → List OwnedFlow → Result (List Text)
owned_flows name [] = ok []
owned_flows name (f ∷ flows) = elim (text_eq f.owner name) [
  | true ↦
      check_handler fan_out f.fan_out_handler
      >> (check_handler collect f.collect_handler
          >> (owned_flows name flows >>= λ parents. ok (f.parent ∷ parents)))
  | false ↦ owned_flows name flows
]

unfoldable pub check_retries : Text → List OwnedFlow → Result (Unit {0})
check_retries name [] = ok tt
check_retries name (f ∷ flows) = elim (text_eq f.owner name) [
  | true ↦ f.retries >> check_retries name flows
  | false ↦ check_retries name flows
]

module _ (flows : List OwnedFlow) where
  abbrev pub is_parent : Text → Bool
  is_parent key = any (λ f. text_eq f.parent key) flows

  -- The loop over the methods; `processed` are the jobs of the whole application so far.
  unfoldable pub discover_methods : List Text → List ProcessMethod → Result (List Text × List Text)
  discover_methods processed [] = ok (processed, [])
  discover_methods processed (m ∷ methods) = do
    key ← known_job m.job
    reject_if (is_parent key) (flow FlowReason.definition)
    reject_if (has key processed) contract
    m.retries
    check_handler process m.handler
    (seen, keys) ← discover_methods (key ∷ processed) methods
    ok (seen, key ∷ keys)

  abbrev pub has_methods : List ProcessMethod → Bool
  has_methods [] = false
  has_methods (_ ∷ _) = true

  -- A class with @Worker.
  unfoldable pub discover_worker :
      List Text → List Text → Text → List ProcessMethod → Result (List Text × WorkerPlan)
  discover_worker names processed name methods = do
    reject_if (has name names) contract
    require (has_methods methods) contract
    (seen, keys) ← discover_methods processed methods
    check_retries name flows
    parents ← owned_flows name flows
    ok (seen, record { name = name; jobs = keys; parents = parents })

  unfoldable pub discover_all : List Text → List Text → List Provider → Result (List WorkerPlan)
  discover_all names processed [] = ok []
  discover_all names processed (p ∷ providers) =
      let skipped = discover_all names processed providers in
      elim p.is_class [
        | false ↦ skipped
        | true ↦ elim p.worker [
          | none ↦ reject_if (has_methods p.methods) contract >> skipped
          | some name ↦ discover_worker names processed name p.methods >>= λ r.
              discover_all (name ∷ names) (r.0) providers >>= λ plans. ok (r.1 ∷ plans)
        ]
      ]

  unfoldable pub discover_workers : List Provider → Result (List WorkerPlan)
  discover_workers providers = discover_all [] [] providers
