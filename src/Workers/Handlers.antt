-- ===== src/Workers/Handlers.antt =====
-- No two workers have one name, and no two handlers one job.
use mathlib.Core.Path.{subst}
use bettter_nest_mq.Prelude.{
  ◌≡◌, refl, sym, Bool, true, false, Option, none, some, List, [], ◌∷◌, Text, All, ok, >>=-eq-ok,
  >>_iff, ok-injective, reject_if, reject_if_iff, require, contract, flow, FlowReason,
}
use bettter_nest_mq.Flows.{has}
use bettter_nest_mq.Flows.Plan.Manifest.{IsDistinct}
use bettter_nest_mq.Workers.{
  ProcessMethod, Provider, OwnedFlow, WorkerPlan, process, check_handler, known_job, owned_flows,
  check_retries, is_parent, discover_methods, has_methods, discover_worker, discover_all,
  discover_workers,
}

-- Names in front of others, one by one.
abbrev pub push : List Text → List Text → List Text
push seen [] = seen
push seen (key ∷ keys) = push (key ∷ seen) keys

abbrev pub names_onto : List Text → List WorkerPlan → List Text
names_onto names [] = names
names_onto names (p ∷ plans) = names_onto (p.name ∷ names) plans

abbrev pub jobs_onto : List Text → List WorkerPlan → List Text
jobs_onto seen [] = seen
jobs_onto seen (p ∷ plans) = jobs_onto (push seen p.jobs) plans

module _ (flows : List OwnedFlow) where
  abbrev pub IsPlain : Text → Type 0
  IsPlain key = is_parent flows key ≡ false

  abbrev pub HasPlain : WorkerPlan → Type 0
  HasPlain p = All IsPlain p.jobs

  -- What a list of methods adds to the jobs that were processed.
  abbrev Adds : List Text → List Text → List Text → Type 0
  Adds processed seen keys = IsDistinct seen × (seen ≡ push processed keys) × All IsPlain keys

  Adds-first :
      (processed seen' rest seen keys : List Text) (key : Text)
      → IsPlain key
      → Adds (key ∷ processed) seen' rest
      → ◌≡◌ {A = List Text × List Text} (seen', key ∷ rest) (seen, keys)
      → Adds processed seen keys
  Adds-first processed seen' rest seen keys key plain (distinct, onto, plains) q =
      subst (λ p. Adds processed (p.0) (p.1)) q (distinct, onto, (plain, plains))

  discover_methods-Adds :
      (processed : List Text) (methods : List ProcessMethod) (seen keys : List Text)
      → discover_methods flows processed methods ≡ ok (seen, keys)
      → IsDistinct processed
      → Adds processed seen keys
  unfolding discover_methods
  discover_methods-Adds processed [] seen keys h d =
      subst (λ p. Adds processed (p.0) (p.1)) (ok-injective h) (d, refl, tt)
  discover_methods-Adds processed (m ∷ methods) seen keys h d =
      let (key, _, h1) = >>=-eq-ok (known_job m.job) _ h in
      let (plain, h2) =
        (>>_iff (reject_if (is_parent flows key) (flow FlowReason.definition)) _ (seen, keys)).0
          h1 in
      let (fresh, h3) = (>>_iff (reject_if (has key processed) contract) _ (seen, keys)).0 h2 in
      let (_, h4) = (>>_iff m.retries _ (seen, keys)).0 h3 in
      let (_, h5) = (>>_iff (check_handler process m.handler) _ (seen, keys)).0 h4 in
      let (r, others, h6) = >>=-eq-ok (discover_methods flows (key ∷ processed) methods) _ h5 in
      Adds-first processed (r.0) (r.1) seen keys key
        ((reject_if_iff (is_parent flows key) (flow FlowReason.definition)).0 plain)
        (discover_methods-Adds (key ∷ processed) methods (r.0) (r.1) others
          ((reject_if_iff (has key processed) contract).0 fresh, d))
        (ok-injective h6)

  -- What a worker adds to the names and to the jobs.
  abbrev AddsWorker : List Text → List Text → Text → List Text → WorkerPlan → Type 0
  AddsWorker names processed name seen plan =
      IsDistinct (plan.name ∷ names) × (plan.name ≡ name) × Adds processed seen plan.jobs

  discover_worker-Adds :
      (names processed : List Text) (name : Text) (methods : List ProcessMethod) (seen : List Text)
      (plan : WorkerPlan)
      → discover_worker flows names processed name methods ≡ ok (seen, plan)
      → IsDistinct names
      → IsDistinct processed
      → AddsWorker names processed name seen plan
  unfolding discover_worker
  discover_worker-Adds names processed name methods seen plan h dn dp =
      let (fresh, h1) = (>>_iff (reject_if (has name names) contract) _ (seen, plan)).0 h in
      let (_, h2) = (>>_iff (require (has_methods flows methods) contract) _ (seen, plan)).0 h1 in
      let (r, found, h3) = >>=-eq-ok (discover_methods flows processed methods) _ h2 in
      let (_, h4) = (>>_iff (check_retries name flows) _ (seen, plan)).0 h3 in
      let (parents, _, h5) = >>=-eq-ok (owned_flows name flows) _ h4 in
      subst (λ p. AddsWorker names processed name (p.0) (p.1)) (ok-injective h5)
        (
          ((reject_if_iff (has name names) contract).0 fresh, dn),
          refl,
          discover_methods-Adds processed methods (r.0) (r.1) found dp,
        )

  abbrev pub IsUnambiguous : List Text → List Text → List WorkerPlan → Type 0
  IsUnambiguous names processed plans =
      IsDistinct (names_onto names plans)
      × IsDistinct (jobs_onto processed plans)
      × All HasPlain plans

  IsUnambiguous-first :
      (names processed seen : List Text) (name : Text) (plan : WorkerPlan)
      (plans all_plans : List WorkerPlan)
      → AddsWorker names processed name seen plan
      → IsUnambiguous (name ∷ names) seen plans
      → plan ∷ plans ≡ all_plans
      → IsUnambiguous names processed all_plans
  IsUnambiguous-first names processed seen name plan plans all_plans (d, same, (ds, onto, plain))
        (n, j, ps) q =
      subst (IsUnambiguous names processed) q (
        subst (λ x. IsDistinct (names_onto (x ∷ names) plans)) (sym same) n,
        subst (λ x. IsDistinct (jobs_onto x plans)) onto j,
        (plain, ps),
      )

  provider-IsUnambiguous :
      (names processed : List Text) (is_class : Bool) (worker : Option Text)
      (methods : List ProcessMethod) (providers : List Provider) (plans : List WorkerPlan)
      → IsDistinct names
      → IsDistinct processed
      → ((names' processed' : List Text) (plans' : List WorkerPlan)
          → discover_all flows names' processed' providers ≡ ok plans'
          → IsDistinct names'
          → IsDistinct processed'
          → IsUnambiguous names' processed' plans')
      → discover_all flows names processed
          (record { is_class = is_class; worker = worker; methods = methods } ∷ providers)
        ≡ ok plans
      → IsUnambiguous names processed plans
  unfolding discover_all
  provider-IsUnambiguous names processed false worker methods providers plans dn dp rest h =
      rest names processed plans h dn dp
  provider-IsUnambiguous names processed true none methods providers plans dn dp rest h =
      rest names processed plans
        ((>>_iff (reject_if (has_methods flows methods) contract) _ plans).0 h).1 dn dp
  provider-IsUnambiguous names processed true (some name) methods providers plans dn dp rest h =
      let (r, found, h1) = >>=-eq-ok (discover_worker flows names processed name methods) _ h in
      let adds = discover_worker-Adds names processed name methods (r.0) (r.1) found dn dp in
      let (others, more, h2) = >>=-eq-ok (discover_all flows (name ∷ names) (r.0) providers) _ h1 in
      IsUnambiguous-first names processed (r.0) name (r.1) others plans adds
        (rest (name ∷ names) (r.0) others more
          (subst (λ x. IsDistinct (x ∷ names)) (adds.1) (adds.0)) (adds.2.0))
        (ok-injective h2)

  discover_all-IsUnambiguous :
      (names processed : List Text) (providers : List Provider) (plans : List WorkerPlan)
      → discover_all flows names processed providers ≡ ok plans
      → IsDistinct names
      → IsDistinct processed
      → IsUnambiguous names processed plans
  unfolding discover_all
  discover_all-IsUnambiguous names processed [] plans h dn dp =
      subst (IsUnambiguous names processed) (ok-injective h) (dn, dp, tt)
  discover_all-IsUnambiguous names processed (p ∷ providers) plans h dn dp =
      provider-IsUnambiguous names processed p.is_class p.worker p.methods providers plans dn dp
        (λ n q ps. discover_all-IsUnambiguous n q providers ps) h

  -- Whenever the discovery returns, no two workers have the same name, every job is processed by one
  -- method of one worker at most in the whole application, and no processed job is the parent of a
  -- flow.
  pub discover_workers-IsUnambiguous :
      (providers : List Provider) (plans : List WorkerPlan)
      → discover_workers flows providers ≡ ok plans
      → IsUnambiguous [] [] plans
  unfolding discover_workers
  discover_workers-IsUnambiguous providers plans h =
      discover_all-IsUnambiguous [] [] providers plans h tt tt
