-- ===== src/Schedules/Options.antt =====
-- Which scheduler options are accepted.
use bettter_nest_mq.Prelude.{
  ℕ, ◌≤◌, ◌≡◌, ◌↔◌, refl, ap, false, Text, includes, length, Number, nat, Result, ok, err, Failure,
  rethrow, ◌>>=◌, >>=-eq-ok, arith,
}
use bettter_nest_mq.Policies.Names.{IsName, require_name_iff}
use bettter_nest_mq.Policies.Validation.{IsWhole}
use bettter_nest_mq.Schedules.{ResolvedOptions, max_timer_delay, schedule_name, check_name}

-- A name that fits into the identity of a schedule.
abbrev pub IsScheduleName : ℕ → Text → Type 0
IsScheduleName limit value = IsName value × (length value ≤ limit) × (includes 0 value ≡ false)

-- A whole number within the range of timers.
abbrev pub IsDelay : ℕ → Number → Type 0
IsDelay least (nat n) = (least ≤ n) × (n ≤ max_timer_delay)
IsDelay least _ = ⊥

abbrev pub IsScheduler : ℕ → ResolvedOptions → Type 0
IsScheduler limit o =
    IsScheduleName limit o.group
    × IsDelay 1 o.sweep_interval_ms
    × IsWhole 1 o.batch_size
    × IsWhole 1 o.max_store_retries
    × IsDelay 0 o.retry_delay_ms

pub rethrow-ok_iff :
    {A : Type 0} (e : Failure) (m : Result A) (a : A) → (rethrow e m ≡ ok a) ↔ (m ≡ ok a)
rethrow-ok_iff e (ok b) a = ((λ h. h), λ h. h)
rethrow-ok_iff e (err f) a = ((λ h. cc h), λ h. cc h)

schedule_name_iff :
    (limit : ℕ) (value name : Text)
    → (schedule_name limit value ≡ ok name) ↔ (IsScheduleName limit value × (value ≡ name))
unfolding schedule_name
schedule_name_iff limit value name = ground (arith, require_name_iff value)

pub check_name_iff :
    (limit : ℕ) (value : Text) → (check_name limit value ≡ ok tt) ↔ IsScheduleName limit value
check_name_iff limit value = (
  (λ e.
      let (name, h, _) = >>=-eq-ok (schedule_name limit value) (λ _. ok tt) e in
      ((schedule_name_iff limit value name).0 h).0),
  λ h. ap (λ m. m >>= λ _. ok tt) ((schedule_name_iff limit value value).1 (h, refl)),
)
