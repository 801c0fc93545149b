-- ===== src/Tests/Handlers.antt =====
-- The discovery of workers at concrete providers.
use bettter_nest_mq.Prelude.{◌≡◌, refl, true, false, none, some, List, [], ◌∷◌, Text, codes, ok}
use bettter_nest_mq.Workers.{
  payload, context, Handler, ProcessMethod, Provider, OwnedFlow, WorkerPlan, check_kinds,
  check_handler, owned_flows, check_retries, discover_methods, discover_worker, discover_all,
  discover_workers,
}
use bettter_nest_mq.Workers.Handlers.{IsUnambiguous, discover_workers-IsUnambiguous}

abbrev sends : Handler
sends = record {
  is_method = true;
  has_enhancers = false;
  parameters = payload ∷ context ∷ [];
  pipeline = ok tt;
}

abbrev processes : Text → ProcessMethod
processes key = record { job = some key; retries = ok tt; handler = sends }

abbrev album : OwnedFlow
album = record {
  owner = codes "images";
  parent = codes "album";
  retries = ok tt;
  fan_out_handler = sends;
  collect_handler = sends;
}

abbrev two_workers : List Provider
two_workers =
    record {
      is_class = true;
      worker = some (codes "mail");
      methods = processes (codes "send") ∷ [];
    }
    ∷ record { is_class = false; worker = none; methods = [] }
    ∷ record {
      is_class = true;
      worker = some (codes "images");
      methods = processes (codes "crop") ∷ processes (codes "scale") ∷ [];
    }
    ∷ []

abbrev worker_plans : List WorkerPlan
worker_plans =
    record { name = codes "mail"; jobs = codes "send" ∷ []; parents = [] }
    ∷ record {
      name = codes "images";
      jobs = codes "crop" ∷ codes "scale" ∷ [];
      parents = codes "album" ∷ [];
    }
    ∷ []

two_workers_discovered : discover_workers (album ∷ []) two_workers ≡ ok worker_plans
unfolding discover_workers discover_all discover_worker discover_methods check_handler check_kinds
    owned_flows check_retries
two_workers_discovered = refl

discover_workers-IsUnambiguous_example : IsUnambiguous (album ∷ []) [] [] worker_plans
discover_workers-IsUnambiguous_example =
    discover_workers-IsUnambiguous (album ∷ []) two_workers worker_plans two_workers_discovered
