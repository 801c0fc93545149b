-- ===== src/Tests/Schedules.antt =====
-- Schedules at concrete declarations and a concrete store.
use bettter_nest_mq.Prelude.{
  nat_eq, ℕ, ◌≡◌, ◌≢◌, refl, true, false, ◌==◌, none, some, List, [], ◌∷◌, ◌++◌, All, Text, Option,
  text_eq, codes, trim, nat, ok, if◌then◌else◌,
}
use bettter_nest_mq.Policies.{require_name, require_integer}
use bettter_nest_mq.Controls.{success}
use bettter_nest_mq.Schema.{Json, text}
use bettter_nest_mq.Schedules.{
  given, validate, reconcile, SchedulerOptions, ScheduleOptions, Engine, catch_up, skip_overlap,
  with_defaults, schedule_name, check_schedule, copy_schedule,
}
use bettter_nest_mq.Schedules.Coordinator.{
  JobIdentity, Definition, ScheduleRecord, CompiledSchedule, pause, Call, Host, matches,
  assert_store_policy, get_record, judge, preflight, preflight_all, synchronize,
}
use bettter_nest_mq.Schedules.Operations.{address, mutate}
use bettter_nest_mq.Schedules.Ownership.{IsOwnChange, mutate-IsOwnChange}
use bettter_nest_mq.Schedules.Deployment.{
  HasOwn, IsCurrent, synchronize_checks_first, validate-IsCurrent,
}
use bettter_nest_mq.Schedules.Declarations.{IsSchedule, copy_schedule-IsSchedule}
use bettter_nest_mq.Schedules.Preflight.{IsRead, IsWrite}

abbrev mail : JobIdentity
mail = record { connection = codes "a"; queue = codes "mail"; name = codes "send"; version = 1 }

abbrev hourly : Definition ℕ
hourly = record {
  cron = some (codes "0 * * * *");
  every_ms = none;
  time_zone = some (codes "UTC");
  priority = 0;
  attempts_max = 1;
  timeout_ms = none;
  backoff = 0;
  payload = 7;
  metadata = 0;
  misfire = 1;
  overlap = codes "allow";
}

abbrev persisted : ScheduleRecord ℕ
persisted = record {
  queue = codes "mail";
  name = codes "send";
  version = 1;
  paused = false;
  definition = hourly;
}

abbrev declared_mail : CompiledSchedule ℕ
declared_mail = record { job = mail; group = codes "g"; key = codes "hourly"; definition = hourly }

-- One schedule is persisted; the world counts the changes.
abbrev one_schedule : Host ℕ ℕ ℕ
one_schedule = record {
  with_store = λ connection w. ok tt;
  with_schedules = λ connection w. ok tt;
  max_identity = 255;
  valid_queue = λ q. true;
  deep_equal = ◌==◌;
  is_controlled = λ connection. false;
  read_controls = λ connection queue w. (w, success none);
  read_schedule =
      λ a w. (w, success (if text_eq a.key (codes "hourly") then some persisted else none));
  read_schedules = λ connection group w. (w, success (persisted ∷ []));
  change = λ operation a w. (w, success true);
  reconcile_declaration = λ entry w. (w, ok 1);
}

abbrev defaults : SchedulerOptions
defaults = record {
  mode = some (given reconcile);
  group = some (codes "g");
  sweep_interval_ms = none;
  batch_size = none;
  max_store_retries = none;
  retry_delay_ms = some (nat 0);
}

mutate-IsOwnChange_example :
    All
      (IsOwnChange one_schedule
        (with_defaults validate defaults)
        []
        pause
        mail
        (address one_schedule (with_defaults validate defaults) [] mail (codes "hourly") none))
      (mutate one_schedule
        (with_defaults validate defaults)
        []
        pause
        mail
        (codes "hourly")
        none
        0).1
mutate-IsOwnChange_example =
    mutate-IsOwnChange one_schedule (with_defaults validate defaults) [] pause mail (codes "hourly")
      none 0

synchronize_checks_first_example :
    (reads : List Call) × (writes : List Call) × ((synchronize one_schedule reconcile
        (declared_mail ∷ [])
        0).1
      ≡ reads ++ writes)
    × All IsRead reads
    × All IsWrite writes
    × (writes ≢ [] → (reconcile ≡ reconcile) × All (HasOwn one_schedule) (declared_mail ∷ []))
synchronize_checks_first_example =
    synchronize_checks_first one_schedule reconcile (declared_mail ∷ []) 0

nothing_drifted : (synchronize one_schedule validate (declared_mail ∷ []) 0).2 ≡ ok []
unfolding synchronize preflight_all preflight assert_store_policy get_record judge matches
nothing_drifted = refl

validate-IsCurrent_example : All (IsCurrent one_schedule) (declared_mail ∷ [])
validate-IsCurrent_example =
    validate-IsCurrent one_schedule (declared_mail ∷ []) 0 [] nothing_drifted

abbrev first : Text → Option ℕ
first (n ∷ []) = some n
first _ = none

-- The JSON text of a number is that one character here.
abbrev number_json : Json ℕ
number_json = record { stringify = λ n. text (n ∷ []); parse = first }

abbrev any_engine : Engine ℕ
any_engine = record {
  max_identity = 255;
  parse_cron = λ text. ok tt;
  make_every_ms = λ n. ok tt;
  is_valid_time_zone = text_eq (codes "UTC");
  json = number_json;
}

abbrev every_minute : ScheduleOptions ℕ
every_minute = record {
  key = codes "minute";
  group = none;
  payload = 7;
  cron = none;
  every_ms = some (nat 60000);
  time_zone = some (codes "UTC");
  metadata = some ((codes "kind", some (codes "mail")) ∷ []);
  retry = none;
  priority = some (nat 2);
  timeout_ms = none;
  misfire = some (catch_up (nat 256));
  overlap = some skip_overlap;
}

every_minute_copied : copy_schedule any_engine every_minute ≡ ok every_minute
unfolding copy_schedule check_schedule schedule_name require_name require_integer trim
every_minute_copied = refl

copy_schedule-IsSchedule_example :
    IsSchedule any_engine every_minute × (every_minute ≡ every_minute)
copy_schedule-IsSchedule_example =
    copy_schedule-IsSchedule any_engine every_minute every_minute every_minute_copied
