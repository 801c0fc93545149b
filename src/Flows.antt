-- ===== src/Flows.antt =====
-- discoverFlows of engine/flow-discovery.ts. What the decorators and the container say of a
-- provider is a `Provider`; a reference is resolved by `resolve`, and EngineFlow.define is the
-- engine's. A child's identity key is the three parts that the source joins by JSON.stringify.
pub mod Cycles
pub mod Termination
pub mod Uniqueness
pub mod Results
pub mod Plan
use bettter_nest_mq.Prelude.{
  ℕ, zero, suc, ◌≡◌, Bool, true, false, ◌&&◌, ◌||◌, not, Option, none, some, List, [], ◌∷◌, ◌++◌,
  Text, any, text_eq, find, reverse, length, ◌==◌, if◌then◌else◌, is_some, or_option, Result, ok,
  err, ◌>>=◌, ◌>>◌, reject_if, require, Failure, flow, FlowReason, definition, rethrow,
}

-- A registered job.
pub record FlowEntry : Type 0 where
  pub key : Text
  pub connection : Text
  pub name : Text
  pub version : ℕ
  pub has_controls : Bool
  pub per_key_concurrency : Option ℕ
  pub delay_ms : ℕ

pub data Phase : Type 0 where
  fan_out collect : Phase

pub record FlowOptions (Reference : Type 0) : Type 0 where
  pub name : Text
  pub parent : Reference
  pub children : List Reference

pub record Provider (Reference : Type 0) : Type 0 where
  pub is_alias : Bool
  pub has_prototype : Bool
  pub options : Option (FlowOptions Reference)
  -- the phase methods and the @Process methods
  pub phases : List (Text × Phase)
  pub worker : Option Text
  pub processes : List Text

pub record CompiledFlow : Type 0 where
  pub owner : Text
  pub name : Text
  pub parent : FlowEntry
  pub children : List FlowEntry
  pub fan_out_method : Text
  pub collect_method : Text

abbrev pub invalid : Failure
invalid = flow definition

abbrev pub has : Text → List Text → Bool
has name = any (text_eq name)

abbrev pub is_fan_out : Phase → Bool
is_fan_out fan_out = true
is_fan_out collect = false

-- The methods of a phase.
unfoldable pub methods_of : (Phase → Bool) → List (Text × Phase) → List Text
methods_of p [] = []
methods_of p ((method, phase) ∷ phases) =
    let rest = methods_of p phases in if p phase then method ∷ rest else rest

-- Exactly one method of a phase.
abbrev pub single_method : List Text → Result Text
single_method (method ∷ []) = ok method
single_method _ = err invalid

abbrev pub no_processes : List (Text × Phase) → List Text → Bool
no_processes [] processes = true
no_processes ((method, _) ∷ phases) processes =
    not (has method processes) && no_processes phases processes

abbrev pub required_worker : Option Text → Result Text
required_worker none = err invalid
required_worker (some worker) = ok worker

abbrev pub is_empty : {A : Type 0} → List A → Bool
is_empty [] = true
is_empty (_ ∷ _) = false

-- The names and the parents' keys of the flows so far, and the flows, last first.
pub record Discovered : Type 0 where
  pub names : List Text
  pub parents : List Text
  pub flows : List CompiledFlow

abbrev pub nothing : Discovered
nothing = record { names = []; parents = []; flows = [] }

abbrev pub same_identity : FlowEntry → FlowEntry → Bool
same_identity a b =
    text_eq a.connection b.connection && text_eq a.name b.name && (a.version == b.version)

module _ {Reference : Type 0} (resolve : Reference → Result FlowEntry)
    (define : Text → FlowEntry → List FlowEntry → Result (Unit {0})) where
  abbrev pub accept_child : List FlowEntry → FlowEntry → Result FlowEntry
  accept_child known child =
      reject_if (any (same_identity child) known) invalid
      >> reject_if (is_some child.per_key_concurrency) invalid
      >> require (child.delay_ms == 0) invalid
      >> ok child

  -- The loop over the children; `known` are those before, last first.
  unfoldable pub resolve_children : List FlowEntry → List Reference → Result (List FlowEntry)
  resolve_children known [] = ok (reverse known)
  resolve_children known (reference ∷ references) = resolve reference >>= λ child.
      accept_child known child >>= λ c. resolve_children (c ∷ known) references

  abbrev pub parent_of : Discovered → FlowOptions Reference → Result FlowEntry
  parent_of state options = resolve options.parent >>= λ parent.
      reject_if (has options.name state.names || has parent.key state.parents) invalid
      >> reject_if parent.has_controls invalid
      >> ok parent

  -- One iteration for a provider with @Flow.
  unfoldable pub discover_flow :
      Provider Reference → FlowOptions Reference → Discovered → Result Discovered
  discover_flow p options state = required_worker p.worker >>= λ worker.
      reject_if (is_empty p.processes) invalid
      >> (single_method (methods_of is_fan_out p.phases) >>= λ fan_out_method.
          single_method (methods_of (λ phase. not (is_fan_out phase)) p.phases)
          >>= λ collect_method.
              require (no_processes p.phases p.processes) invalid
              >> (parent_of state options >>= λ parent.
                  resolve_children [] options.children >>= λ children.
                  rethrow invalid (define options.name parent children) >>= λ _. ok (record {
                    names = options.name ∷ state.names;
                    parents = parent.key ∷ state.parents;
                    flows =
                        record {
                          owner = worker;
                          name = options.name;
                          parent = parent;
                          children = children;
                          fan_out_method = fan_out_method;
                          collect_method = collect_method;
                        }
                        ∷ state.flows;
                  })))

  abbrev pub discover_options :
      Provider Reference → Option (FlowOptions Reference) → Discovered → Result Discovered
  discover_options p none state = require (is_empty p.phases) invalid >> ok state
  discover_options p (some options) state = discover_flow p options state

  unfoldable pub discover_provider : Provider Reference → Discovered → Result Discovered
  discover_provider p state =
      if p.is_alias || not p.has_prototype then ok state else discover_options p p.options state

  unfoldable pub discover_providers : List (Provider Reference) → Discovered → Result Discovered
  discover_providers [] state = ok state
  discover_providers (p ∷ providers) state =
      discover_provider p state >>= discover_providers providers

-- byParent.get: of equal keys, a Map keeps the last.
unfoldable pub nested_flow : List CompiledFlow → Text → Option CompiledFlow
nested_flow [] key = none
nested_flow (f ∷ flows) key =
    or_option (nested_flow flows key) (if text_eq f.parent.key key then some f else none)

module _ (flows : List CompiledFlow) where
  -- `visit`, on fuel; `none` is the end of the fuel.
  abbrev pub after_visit :
      Option (Result (Unit {0})) → Option (Result (Unit {0})) → Option (Result (Unit {0}))
  after_visit none rest = none
  after_visit (some (err e)) rest = some (err e)
  after_visit (some (ok _)) rest = rest

  abbrev pub visit_nested :
      (CompiledFlow → Option (Result (Unit {0}))) → Option CompiledFlow → Option (Result (Unit {0}))
  visit_nested visit none = some (ok tt)
  visit_nested visit (some f) = visit f

  unfoldable pub visit_children :
      (CompiledFlow → Option (Result (Unit {0}))) → List FlowEntry → Option (Result (Unit {0}))
  visit_children visit [] = some (ok tt)
  visit_children visit (child ∷ children) =
      after_visit (visit_nested visit (nested_flow flows child.key)) (visit_children visit children)

  abbrev pub visit_fresh : Bool → Option (Result (Unit {0})) → Option (Result (Unit {0}))
  visit_fresh true rest = some (err invalid)
  visit_fresh false rest = rest

  unfoldable pub visit : ℕ → List Text → CompiledFlow → Option (Result (Unit {0}))
  visit zero path f = none
  visit (suc fuel) path f =
      visit_fresh (has f.name path) (visit_children (visit fuel (f.name ∷ path)) f.children)

  unfoldable pub visit_all : ℕ → List CompiledFlow → Option (Result (Unit {0}))
  visit_all fuel [] = some (ok tt)
  visit_all fuel (f ∷ fs) = after_visit (visit fuel [] f) (visit_all fuel fs)

-- The whole check, with fuel for every path of distinct names.
unfoldable pub check_cycles : List CompiledFlow → Option (Result (Unit {0}))
check_cycles flows = visit_all flows (suc (length flows)) flows
