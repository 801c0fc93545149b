-- ===== src/Tests/Invocations.antt =====
-- The pipeline and the discovery of flows at concrete inputs.
use bettter_nest_mq.Prelude.{
  not, ◌==◌, if◌then◌else◌, ℕ, suc, ◌+◌, ◌≤◌, ◌<◌, ◌≡◌, refl, true, false, none, some, List, [],
  ◌∷◌, Text, codes, arith, inl, inr, Result, ok,
}
use bettter_nest_mq.Pipeline.{
  Host, returns, awaits_next, Enhancers, run, attempt, throw, call, record_step, set_payload,
  throw_if_aborted, run_guards, run_pipes, finish, interact, dispatch, run_filters,
}
use bettter_nest_mq.Pipeline.Invocation.{invocations, run_invokes_once}
use bettter_nest_mq.Pipeline.Precedence.{Passes, run_in_order}
use bettter_nest_mq.Flows.{
  FlowEntry, Provider, fan_out, collect, CompiledFlow, Discovered, nothing, methods_of,
  resolve_children, discover_flow, discover_provider, discover_providers, nested_flow,
  visit_children, visit, visit_all, check_cycles,
}
use bettter_nest_mq.Flows.Results.{Pages, Reader, read_page, collect as collect_pages, all_results}
use bettter_nest_mq.Flows.Cycles.{Reaches, check_cycles_acyclic}
use bettter_nest_mq.Flows.Termination.{check_cycles_ends}
use bettter_nest_mq.Flows.Uniqueness.{IsDiscovered, discover_providers-IsDiscovered}

-- The payload is a number, the world counts the calls; interceptor 3 calls `next` twice.
abbrev twice : Host ℕ ℕ
twice = record {
  is_aborted = λ w. false;
  resolve = λ type w. (w, ok tt);
  can_activate = λ type v w. (w, ok (some true));
  transform = λ type v w. (suc w, ok (v + type));
  recode = λ v w. (suc w, ok (v + v));
  intercept = λ type v. awaits_next (λ first. awaits_next (λ second. returns first));
  supports = λ type cause v w. (w, ok (some false));
  catch = λ type cause v w. (w, ok v);
  invoke = λ v w. (w, ok v);
}

abbrev enhancers : Enhancers
enhancers = record { guards = 1 ∷ []; pipes = 2 ∷ []; interceptors = 3 ∷ []; filters = 4 ∷ [] }

run_invokes_once_example : invocations (run twice enhancers (0, 9)).1 ≤ 1
run_invokes_once_example = run_invokes_once twice enhancers 0 9

calls_handler : 0 < invocations (run twice enhancers (0, 9)).1
unfolding run attempt throw call record_step set_payload throw_if_aborted run_guards run_pipes
    finish interact dispatch run_filters
calls_handler = omega arith

run_in_order_example : Passes twice enhancers (0, 9) (run twice enhancers (0, 9)).1
run_in_order_example = run_in_order twice enhancers 0 9 calls_handler

abbrev job : Text → FlowEntry
job key = record {
  key = key;
  connection = codes "main";
  name = key;
  version = 1;
  has_controls = false;
  per_key_concurrency = none;
  delay_ms = 0;
}

abbrev compiled : Text → Text → Text → CompiledFlow
compiled name parent child = record {
  owner = codes "Worker";
  name = name;
  parent = job parent;
  children = job child ∷ [];
  fan_out_method = codes "split";
  collect_method = codes "join";
}

-- One flow nested in another.
abbrev inner : CompiledFlow
inner = compiled (codes "inner") (codes "b") (codes "c")

abbrev nested : List CompiledFlow
nested = compiled (codes "outer") (codes "a") (codes "b") ∷ inner ∷ []

nested_passes : check_cycles nested ≡ some (ok tt)
unfolding check_cycles visit_all visit visit_children nested_flow
nested_passes = refl

check_cycles_acyclic_example : ¬ (Reaches nested inner inner)
check_cycles_acyclic_example = check_cycles_acyclic nested inner nested_passes (inr (inl refl))

-- A flow that is its own child.
abbrev looping : List CompiledFlow
looping = compiled (codes "loop") (codes "a") (codes "a") ∷ []

check_cycles_ends_example : (r : Result (Unit {0})) × (check_cycles looping ≡ some r)
check_cycles_ends_example = check_cycles_ends looping

abbrev provider : Provider Text
provider = record {
  is_alias = false;
  has_prototype = true;
  options = some (record { name = codes "outer"; parent = codes "a"; children = codes "b" ∷ [] });
  phases = (codes "split", fan_out) ∷ (codes "join", collect) ∷ [];
  worker = some (codes "Worker");
  processes = codes "handle" ∷ [];
}

abbrev resolve_job : Text → Result FlowEntry
resolve_job key = ok (job key)

abbrev define_any : Text → FlowEntry → List FlowEntry → Result (Unit {0})
define_any name parent children = ok tt

abbrev found : Discovered
found = record {
  names = codes "outer" ∷ [];
  parents = codes "a" ∷ [];
  flows = compiled (codes "outer") (codes "a") (codes "b") ∷ [];
}

provider-found : discover_providers resolve_job define_any (provider ∷ []) nothing ≡ ok found
unfolding discover_providers discover_provider discover_flow resolve_children methods_of
provider-found = refl

discover_providers-IsDiscovered_example : IsDiscovered found
discover_providers-IsDiscovered_example =
    discover_providers-IsDiscovered resolve_job define_any (provider ∷ []) nothing found
      (refl, refl, tt, tt, tt) provider-found

-- Two pages of numbers, of which the even ones belong to the job.
abbrev two_pages : Pages ℕ ℕ
two_pages = record {
  page = λ cursor limit w.
      if w == 0 then (1, some (1 ∷ 2 ∷ [], some (codes "p2"))) else (2, some (4 ∷ [], none));
  is_own = λ n. not (n == 1);
}

abbrev new_reader : Reader ℕ
new_reader = record { world = 0; cursors = [] }

abbrev used_reader : Reader ℕ
used_reader = record { world = 2; cursors = codes "p2" ∷ [] }

two_pages_collected : all_results two_pages 5 10 3 new_reader ≡ some (used_reader, ok (2 ∷ 4 ∷ []))
unfolding all_results collect_pages read_page
two_pages_collected = refl

abbrev even_items : List ℕ
even_items = 2 ∷ 4 ∷ []
