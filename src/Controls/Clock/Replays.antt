-- ===== src/Controls/Clock/Replays.antt =====
-- Which mutations withFreshControlledClock replays, how often, and when that is enough.
use native.Mathlib.Decide.{dec_lt}
use bettter_nest_mq.Prelude.{
  ℕ, zero, suc, ◌≤◌, ◌<◌, ◌≡◌, ◌≢◌, refl, ◌∙◌, List, [], ◌∷◌, length, arith,
}
use bettter_nest_mq.Controls.Clock.{
  Reply, done, early, failed, Read, found, missing, unreadable, Host, Run, Refresh, again, stop,
  refreshed_now, continue, later, after_read, refresh, replay, with_fresh_controlled_clock,
}

-- A list of calls after one at time `now` that replied `reply`: each call was made because the one
-- before was rejected as early, and at a strictly later time.
abbrev pub Chain : {Value : Type 0} → ℕ → Reply Value → List (ℕ × Reply Value) → Type 0
Chain now reply [] = Unit {0}
Chain now reply ((n, r) ∷ calls) = (reply ≡ early) × (now < n) × Chain n r calls

-- The reply of the last call.
abbrev pub last_reply : {Value : Type 0} → Reply Value → List (ℕ × Reply Value) → Reply Value
last_reply reply [] = reply
last_reply reply ((n, r) ∷ calls) = last_reply r calls

module _ {World Value : Type 0} (host : Host World Value) where
  later-lt :
      (now refreshed n : ℕ) (w w' : World)
      → later host now refreshed w ≡ again n w'
      → (now < n) × (refreshed ≡ n)
  later-lt now refreshed n w w' e = ground arith

  after_read-lt :
      (now n : ℕ) (r : World × Read) (w' : World) → after_read host now r ≡ again n w' → now < n
  after_read-lt now n (w, unreadable x) w' e = cc e
  after_read-lt now n (w, missing) w' e = cc e
  after_read-lt now n (w, found updated) w' e =
      (later-lt now (refreshed_now now updated (host.clock w).1) n (host.clock w).0 w' e).0

  -- What a run of the loop satisfies: at most `rounds` calls, a chain, and, if it ends in a value,
  -- the value of the last call.
  abbrev Replayed : ℕ → ℕ → Reply Value → Reply Value × List (ℕ × Reply Value) × World → Type 0
  Replayed rounds now reply run =
      (length run.1 ≤ rounds)
      × Chain now reply run.1
      × ((v : Value) → run.0 ≡ done v → last_reply reply run.1 ≡ done v)

  continue-Replayed :
      (rounds now : ℕ) (rest : ℕ → Reply Value → World → Run host) (r : Refresh host)
      → ((n : ℕ) (w : World) → r ≡ again n w → now < n)
      → ((n : ℕ) (reply : Reply Value) (w : World) → Replayed rounds n reply (rest n reply w))
      → ((reply : Reply Value) (w : World) → r ≡ stop reply w → (v : Value) → reply ≢ done v)
      → Replayed (suc rounds) now early (continue host rest r)
  continue-Replayed rounds now rest (stop reply w) lt ih st =
      (omega arith, tt, λ v e. absurd (st reply w refl v e))
  continue-Replayed rounds now rest (again n w) lt ih st =
      let (w', reply) = host.mutate n w in
      let (short, chain, last) = ih n reply w' in
      (omega (arith, short), (refl, lt n w refl, chain), last)

  refresh-ne-done :
      (now : ℕ) (r : World × Read) (reply : Reply Value) (w : World) (v : Value)
      → after_read host now r ≡ stop reply w
      → reply ≢ done v
  refresh-ne-done now (w', unreadable x) reply w v e q = cc (e, q)
  refresh-ne-done now (w', missing) reply w v e q = cc (e, q)
  refresh-ne-done now (w', found updated) reply w v e q = ground arith

  replay-Replayed :
      (rounds now : ℕ) (reply : Reply Value) (w : World)
      → Replayed rounds now reply (replay host rounds now reply w)
  unfolding replay
  replay-Replayed rounds now (done v) w = (omega arith, tt, λ x e. e)
  replay-Replayed rounds now (failed x) w = (omega arith, tt, λ x e. e)
  replay-Replayed zero now early w = (omega arith, tt, λ x e. e)
  replay-Replayed (suc rounds) now early w =
      continue-Replayed rounds now (replay host rounds) (refresh host now w)
        (λ n w' e. after_read-lt now n (host.updated_at w) w' e)
        (λ n reply w'. replay-Replayed rounds n reply w')
        (λ reply w' e v. refresh-ne-done now (host.updated_at w) reply w' v e)

  -- A mutation is tried at the sampled time first, and at most three times more. Each further try
  -- follows a reply that rejected the time as early, and no other, and takes a strictly later
  -- time; a value that is returned is the reply of the last try.
  pub with_fresh_controlled_clock_replays :
      (now : ℕ) (w : World)
      → let first = (host.mutate now w).1 in
        let run = with_fresh_controlled_clock host now w in
        (calls : List (ℕ × Reply Value)) × (run.1 ≡ (now, first) ∷ calls)
        × (length calls ≤ 3)
        × Chain now first calls
        × ((v : Value) → run.0 ≡ done v → last_reply first calls ≡ done v)
  unfolding with_fresh_controlled_clock
  with_fresh_controlled_clock_replays now w =
      let (w', reply) = host.mutate now w in
      let (short, chain, last) = replay-Replayed 3 now reply w' in
      ((replay host 3 now reply w').1, refl, short, chain, last)

  later-again :
      (now updated today : ℕ) (w : World)
      → now < updated
      → later host now (refreshed_now now updated today) w
        ≡ again (refreshed_now now updated today) w
  later-again now updated today w lt = ground arith

  after_read-found :
      (now updated : ℕ) (r : World × Read)
      → r.1 ≡ found updated
      → let today = host.clock r.0 in
        after_read host now r ≡ later host now (refreshed_now now updated today.1) today.0
  after_read-found now updated (w, found u) e = ground arith
  after_read-found now updated (w, missing) e = cc e
  after_read-found now updated (w, unreadable x) e = cc e

  refresh-found :
      (now updated : ℕ) (w : World)
      → (host.updated_at w).1 ≡ found updated
      → now < updated
      → (n : ℕ) × (w' : World) × (refresh host now w ≡ again n w') × (updated ≤ n)
  refresh-found now updated w e lt =
      let today = host.clock (host.updated_at w).0 in
      (
        refreshed_now now updated today.1,
        today.0,
        after_read-found now updated (host.updated_at w) e
            ∙ later-again now updated today.1 today.0 lt,
        omega arith,
      )

  -- If the stored time of the job's record stays as it is, and the store accepts every time that
  -- is not before it and rejects every other as early, then a stale sample is repaired: the
  -- mutation returns a value.
  pub with_fresh_controlled_clock_done :
      (updated : ℕ)
      → ((w : World) → (host.updated_at w).1 ≡ found updated)
      → ((n : ℕ) (w : World) → updated ≤ n → (v : Value) × ((host.mutate n w).1 ≡ done v))
      → ((n : ℕ) (w : World) → n < updated → (host.mutate n w).1 ≡ early)
      → (now : ℕ) (w : World) → (v : Value) × ((with_fresh_controlled_clock host now w).0 ≡ done v)
  unfolding with_fresh_controlled_clock replay
  with_fresh_controlled_clock_done updated reads accepts rejects now w =
      let (w', reply) = host.mutate now w in
      elim (dec_lt now updated) [
        | yes early_ ↦
            let (n, w'', r, enough) = refresh-found now updated w' (reads w') early_ in
            let (v, accepted) = accepts n w'' enough in
            (v, rw (rejects now w early_, replay, r) (rw accepted))
        | no late ↦ let (v, accepted) = accepts now w (omega arith) in (v, rw accepted)
      ]
