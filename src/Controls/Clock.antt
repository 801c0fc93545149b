-- ===== src/Controls/Clock.antt =====
-- withFreshControlledClock of engine/controlled-clock.ts. The store and the clock are third
-- party: `mutate`, `updated_at` (getJob) and `clock` (Date.now) act on a world that they alone
-- know. The result comes with the calls of `mutate` that were made, in order: each with its time
-- and its reply.
pub mod Replays
use bettter_nest_mq.Prelude.{
  ℕ, zero, suc, ◌+◌, ◌≡◌, Bool, true, false, Option, none, some, List, [], ◌∷◌, ◌++◌, max, leb,
  if◌then◌else◌,
}
use bettter_nest_mq.Controls.{StoreError}

-- What a mutation replies: a value, the rejection of a time earlier than the record's updatedAt,
-- or another error.
pub data Reply (Value : Type 0) : Type 0 where
  done : Value → Reply Value
  early : Reply Value
  failed : StoreError → Reply Value

-- What getJob replies: the record's updatedAt, no record, or an error.
pub data Read : Type 0 where
  found : ℕ → Read
  missing : Read
  unreadable : StoreError → Read

pub record Host (World Value : Type 0) : Type 0 where
  pub mutate : ℕ → World → World × Reply Value
  pub updated_at : World → World × Read
  pub clock : World → World × ℕ

-- Math.max(now, current.value.updatedAt, Date.now())
abbrev pub refreshed_now : ℕ → ℕ → ℕ → ℕ
refreshed_now now updated today = max now (max updated today)

module _ {World Value : Type 0} (host : Host World Value) where
  -- The reply, the calls and the world that is left.
  abbrev pub Run : Type 0
  Run = Reply Value × List (ℕ × Reply Value) × World

  -- One round's reads: the refreshed time, or the reply with which the loop ends.
  pub data Refresh : Type 0 where
    again : ℕ → World → Refresh
    stop : Reply Value → World → Refresh

  abbrev pub later : ℕ → ℕ → World → Refresh
  later now refreshed w = if leb refreshed now then stop early w else again refreshed w

  abbrev pub after_read : ℕ → World × Read → Refresh
  after_read now (w, unreadable e) = stop (failed e) w
  after_read now (w, missing) = stop early w
  after_read now (w, found updated) =
      let (w', today) = host.clock w in later now (refreshed_now now updated today) w'

  abbrev pub refresh : ℕ → World → Refresh
  refresh now w = after_read now (host.updated_at w)

  -- The rest of a round: `mutate` at the refreshed time, and the loop again.
  abbrev pub continue : (ℕ → Reply Value → World → Run) → Refresh → Run
  continue rest (stop reply w) = (reply, [], w)
  continue rest (again now w) =
      let (w', reply) = host.mutate now w in
      let (final, calls, w'') = rest now reply w' in (final, (now, reply) ∷ calls, w'')

  -- The loop, with the rounds that are left, after `mutate now` has replied.
  unfoldable pub replay : ℕ → ℕ → Reply Value → World → Run
  replay rounds now (done v) w = (done v, [], w)
  replay rounds now (failed e) w = (failed e, [], w)
  replay zero now early w = (early, [], w)
  replay (suc rounds) now early w = continue (replay rounds) (refresh now w)

  -- Three refreshes at most.
  unfoldable pub with_fresh_controlled_clock : ℕ → World → Run
  unfolding replay
  with_fresh_controlled_clock sampled_now w =
      let (w', reply) = host.mutate sampled_now w in
      let (final, calls, w'') = replay 3 sampled_now reply w' in
      (final, (sampled_now, reply) ∷ calls, w'')
