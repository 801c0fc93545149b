-- ===== src/Tests/Coordination.antt =====
-- Queue controls at concrete stores.
use bettter_nest_mq.Prelude.{
  ℕ, ◌≤◌, ◌<◌, ◌≡◌, ◌≢◌, refl, Bool, true, false, none, some, List, [], ◌∷◌, ◌++◌, map, leb, length,
  Text, codes, All, if◌then◌else◌, ok, arith,
}
use bettter_nest_mq.Controls.{QueueControlsRecord, QueueControlsOptions, Effect, success}
use bettter_nest_mq.Controls.Clock.{Reply, done, early, found, Host, with_fresh_controlled_clock}
use bettter_nest_mq.Controls.Clock.Replays.{
  Chain, last_reply, with_fresh_controlled_clock_replays, with_fresh_controlled_clock_done,
}
use bettter_nest_mq.Controls.Dispatch.{Stores, claim}
use bettter_nest_mq.Controls.Dispatch.Fencing.{claim_ignores_plain}
use bettter_nest_mq.Controls.Policies.{
  QueueDefinition, validate, reconcile, Call, Deployment, declared, synchronize, same_policy, judge,
  inspect, inspect_all, write_policies,
}
use bettter_nest_mq.Controls.Policies.Startup.{
  IsRead, IsWrite, read_of, IsDeclared, synchronize_reads_first, validate-IsDeclared,
}

-- The record was updated at 100; every earlier time is rejected.
abbrev clocked : Host ℕ ℕ
clocked = record {
  mutate = λ n w. (w, if leb 100 n then done n else early);
  updated_at = λ w. (w, found 100);
  clock = λ w. (w, 50);
}

with_fresh_controlled_clock_replays_example :
    let run = with_fresh_controlled_clock clocked 40 0 in
    (calls : List (ℕ × Reply ℕ)) × (run.1 ≡ (40, early) ∷ calls)
    × (length calls ≤ 3)
    × Chain 40 early calls
    × ((v : ℕ) → run.0 ≡ done v → last_reply early calls ≡ done v)
with_fresh_controlled_clock_replays_example = with_fresh_controlled_clock_replays clocked 40 0

clocked-found : (w : ℕ) → (clocked.updated_at w).1 ≡ found 100
clocked-found w = refl

clocked-accepts : (n w : ℕ) → 100 ≤ n → (v : ℕ) × ((clocked.mutate n w).1 ≡ done v)
clocked-accepts n w h = (n, ground arith)

clocked-rejects : (n w : ℕ) → n < 100 → (clocked.mutate n w).1 ≡ early
clocked-rejects n w h = ground arith

with_fresh_controlled_clock_done_example :
    (v : ℕ) × ((with_fresh_controlled_clock clocked 40 0).0 ≡ done v)
with_fresh_controlled_clock_done_example =
    with_fresh_controlled_clock_done clocked 100 clocked-found clocked-accepts clocked-rejects 40 0

abbrev no_limits : QueueControlsOptions
no_limits = record { global_concurrency = some 2; per_key_concurrency = none; rate_limit = none }

-- A disabled policy.
abbrev disabled : QueueControlsRecord
disabled = record { group = codes "app"; enabled = false; revision = 4; limits = no_limits }

abbrev stores : Stores ℕ ℕ ℕ ℕ ℕ ℕ
stores = record {
  get_controls = λ queue w. (w, success (some disabled));
  get_job = λ job w. (w, success none);
  clock = λ w. (w, 0);
  claim = λ queue w. (w, success 1);
  claim_controlled = λ queue revision w. (w, success 2);
  settle = λ job now run_at w. (w, success 1);
  settle_controlled = λ job now run_at revision w. (w, success 2);
  release = λ job now w. (w, success 1);
  release_controlled = λ job now revision w. (w, success 2);
  cancel = λ job now w. (w, success 1);
  cancel_controlled = λ job now revision w. (w, success 2);
  recover_stalled = λ queue limit w. (w, success []);
  recover_stalled_controlled = λ queue revision limit w. (w, success []);
}

abbrev mail : List Text
mail = codes "mail" ∷ []

abbrev any_name : Text → Bool
any_name name = true

abbrev other_claim : Text → ℕ → ℕ × Effect ℕ
other_claim queue w = (w, success 3)

claim_ignores_plain_example :
    claim (record stores { claim = other_claim }) mail mail any_name (codes "mail") 0
    ≡ claim stores mail mail any_name (codes "mail") 0
claim_ignores_plain_example =
    claim_ignores_plain stores mail mail any_name other_claim (codes "mail") 0 refl

abbrev persisted_policy : QueueControlsRecord
persisted_policy = record disabled { enabled = true }

abbrev deployment : Deployment ℕ ℕ
deployment = record {
  with_store = λ connection w. ok tt;
  is_controlled = λ connection. true;
  global_concurrency = λ connection. true;
  rate_limiting = λ connection. true;
  valid_name = any_name;
  get_controls = λ connection queue w. (w, success (some persisted_policy));
  define = λ queues. ok tt;
  registry = λ queues. ok tt;
  apply = λ connection queues w. (w, success 1);
}

abbrev queue_at : Text → Text → QueueDefinition
queue_at name connection = record { name = name; connection = connection; desired = some no_limits }

abbrev queues : List QueueDefinition
queues =
    queue_at (codes "mail") (codes "a")
    ∷ queue_at (codes "sms") (codes "b")
    ∷ queue_at (codes "push") (codes "a")
    ∷ []

synchronize_reads_first_example :
    (reads : List Call) × (writes : List Call) × ((synchronize deployment
        (codes "app")
        reconcile
        queues
        0).1
      ≡ reads ++ writes)
    × All IsRead reads
    × All IsWrite writes
    × (writes ≢ [] → (reconcile ≡ reconcile) × (reads ≡ map read_of (declared queues)))
synchronize_reads_first_example =
    synchronize_reads_first deployment (codes "app") reconcile queues 0

queues_validate : (synchronize deployment (codes "app") validate queues 0).2 ≡ ok []
unfolding synchronize declared inspect_all inspect judge same_policy write_policies
queues_validate = refl

validate-IsDeclared_example : All (IsDeclared deployment (codes "app")) (declared queues)
validate-IsDeclared_example =
    validate-IsDeclared deployment (codes "app") queues 0 [] queues_validate
