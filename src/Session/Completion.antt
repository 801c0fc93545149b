-- ===== src/Session/Completion.antt =====
-- A close comes to an end: how many replies it takes.
use mathlib.Core.Path.{subst}
use mathlib.Core.List.{reverse-cons}
use bettter_nest_mq.Prelude.{
  ◌≡◌, refl, sym, ◌∙◌, ap, List, [], ◌∷◌, ◌++◌, reverse, map, length, length-append, Failure,
  Result, arith, ◌+◌,
}
use bettter_nest_mq.Session.{
  Setup, Session, created, Resource, Startup, not_started, acquiring, making, resolving, probing,
  cleaning_up, settled, Cleaning, not_called, disposing, releasing, cleaned, Closing, open_,
  on_startup, on_workers, on_publisher, on_scheduler, on_cleanup, finished,
}
use bettter_nest_mq.Session.Machine.{
  Event, cleanup_replied, wake_startup, await_cleanup, wake_closing, advance, handle, step, run,
}
use bettter_nest_mq.Session.Machine.Releasing.{
  next_release, failure_of, disposal_failures, cleared, on_cleanup_reply,
}
use bettter_nest_mq.Session.Soundness.{created-IsSound}
use bettter_nest_mq.Session.Soundness.Runs.{run-IsSound}
use bettter_nest_mq.Session.Resources.{IsReleased, IsSound-released}

-- A close that waits for `todo` to be released: with none left, it is over.
abbrev Waits : List Resource → Session → Type 0
Waits [] s = (failures : List Failure) × (s.closing ≡ finished failures)
Waits (r ∷ rest) s =
    (s.closing ≡ on_cleanup)
    × ((failures : List Failure) × (s.cleaning ≡ releasing r rest failures))

wake_startup-kept :
    (st : Startup) (cl : Cleaning) (s : Session)
    → ((wake_startup st cl s).closing ≡ s.closing) × ((wake_startup st cl s).cleaning ≡ s.cleaning)
unfolding wake_startup
wake_startup-kept (cleaning_up primary) not_called s = (refl, refl)
wake_startup-kept (cleaning_up primary) disposing s = (refl, refl)
wake_startup-kept (cleaning_up primary) (releasing r rest fs) s = (refl, refl)
wake_startup-kept (cleaning_up primary) (cleaned fs) s = (refl, refl)
wake_startup-kept not_started cl s = (refl, refl)
wake_startup-kept (settled _) cl s = (refl, refl)
wake_startup-kept (acquiring bs c rest) cl s = (refl, refl)
wake_startup-kept (making bs) cl s = (refl, refl)
wake_startup-kept (resolving bs f t rest) cl s = (refl, refl)
wake_startup-kept (probing bs f t rest) cl s = (refl, refl)

finishes :
    (failures : List Failure) (cl : Cleaning) (s : Session)
    → cl ≡ cleaned failures
    → (await_cleanup cl s).closing ≡ finished failures
unfolding await_cleanup
finishes failures not_called s e = cc e
finishes failures disposing s e = cc e
finishes failures (releasing r rest f) s e = cc e
finishes failures (cleaned f) s e = cc e

goes_on :
    (r : Resource) (rest : List Resource) (failures : List Failure) (cl : Cleaning) (s : Session)
    → cl ≡ releasing r rest failures
    → await_cleanup cl s ≡ s
unfolding await_cleanup
goes_on r rest failures not_called s e = refl
goes_on r rest failures disposing s e = refl
goes_on r rest failures (releasing _ _ _) s e = refl
goes_on r rest failures (cleaned f) s e = cc e

wake_closing-cleanup :
    (co : Closing) (s : Session) → co ≡ on_cleanup → wake_closing co s ≡ await_cleanup s.cleaning s
unfolding wake_closing
wake_closing-cleanup open_ s e = cc e
wake_closing-cleanup on_startup s e = cc e
wake_closing-cleanup on_workers s e = cc e
wake_closing-cleanup on_publisher s e = cc e
wake_closing-cleanup on_scheduler s e = cc e
wake_closing-cleanup on_cleanup s e = refl
wake_closing-cleanup (finished _) s e = cc e

advance-cleanup :
    (s : Session)
    → s.closing ≡ on_cleanup
    → (t : Session) × (advance s ≡ await_cleanup t.cleaning t)
      × (t.closing ≡ on_cleanup)
      × (t.cleaning ≡ s.cleaning)
unfolding advance
advance-cleanup s e =
    let t = wake_startup s.startup s.cleaning s in
    let (co, cl) = wake_startup-kept s.startup s.cleaning s in
    (t, wake_closing-cleanup t.closing t (co ∙ e), co ∙ e, cl)

advance-Waits :
    (todo : List Resource) (failures : List Failure) (s : Session)
    → s.closing ≡ on_cleanup
    → Waits todo (advance (next_release todo failures s))
unfolding next_release
advance-Waits [] failures s e =
    let (t, eq, co, cl) =
      advance-cleanup (record s { acquired = []; cleaning = cleaned failures }) e in
    (failures, ap (λ x. x.closing) eq ∙ finishes failures t.cleaning t cl)
advance-Waits (r ∷ rest) failures s e =
    let (t, eq, co, cl) = advance-cleanup (record s { cleaning = releasing r rest failures }) e in
    let same = eq ∙ goes_on r rest failures t.cleaning t cl in
    (ap (λ x. x.closing) same ∙ co, (failures, ap (λ x. x.cleaning) same ∙ cl))

length-reverse : {A : Type 0} (xs : List A) → length (reverse xs) ≡ length xs
length-reverse [] = refl
length-reverse (x ∷ xs) =
    let e : length (reverse xs ++ x ∷ []) ≡ length (reverse xs) + 1 =
      length-append (reverse xs) (x ∷ []) in
    let h = ap length (reverse-cons x xs) in omega (arith, e, h, length-reverse xs)

module _ (setup : Setup) where
  step-disposing :
      (reply : Result (Unit {0})) (s : Session)
      → s.closing ≡ on_cleanup
      → s.cleaning ≡ disposing
      → Waits (reverse s.acquired) (step setup s (cleanup_replied reply))
  unfolding step handle on_cleanup_reply
  step-disposing reply s e d =
      subst (λ c. Waits (reverse s.acquired) (advance (on_cleanup_reply c reply s))) (sym d)
        (advance-Waits (reverse s.acquired) (disposal_failures reply s.diagnostics) (cleared s) e)

  step-releasing :
      (r : Resource) (rest : List Resource) (reply : Result (Unit {0})) (s : Session)
      → Waits (r ∷ rest) s
      → Waits rest (step setup s (cleanup_replied reply))
  unfolding step handle on_cleanup_reply
  step-releasing r rest reply s (e, (fs, d)) =
      subst (λ c. Waits rest (advance (on_cleanup_reply c reply s))) (sym d)
        (advance-Waits rest (fs ++ failure_of reply) (record s { released = s.released ++ r ∷ [] })
          e)

  run-Waits :
      (todo : List Resource) (replies : List (Result (Unit {0}))) (s : Session)
      → length replies ≡ length todo
      → Waits todo s
      → (failures : List Failure) × ((run setup s (map cleanup_replied replies)).closing
          ≡ finished failures)
  unfolding run
  run-Waits [] [] s e w = w
  run-Waits [] (reply ∷ replies) s e w = cc e
  run-Waits (r ∷ rest) [] s e w = cc e
  run-Waits (r ∷ rest) (reply ∷ replies) s e w =
      run-Waits rest replies (step setup s (cleanup_replied reply)) (omega (arith, e))
        (step-releasing r rest reply s w)

  disposal_and_releases :
      (s : Session) (disposal : Result (Unit {0})) (replies : List (Result (Unit {0})))
      → s.closing ≡ on_cleanup
      → s.cleaning ≡ disposing
      → length replies ≡ length s.acquired
      → (failures : List Failure) × ((run setup s
            (map cleanup_replied (disposal ∷ replies))).closing
          ≡ finished failures)
  unfolding run
  disposal_and_releases s disposal replies e d n =
      run-Waits (reverse s.acquired) replies (step setup s (cleanup_replied disposal))
        (n ∙ sym (length-reverse s.acquired)) (step-disposing disposal s e d)

  -- A close that waits for its cleanup, which has the runtime disposed, comes to an end with one
  -- reply to the disposal and one for each resource that is held, whatever the replies are: a
  -- failure of one release keeps no other from being called.
  pub close_completes :
      (events : List Event) (disposal : Result (Unit {0})) (replies : List (Result (Unit {0})))
      → (run setup created events).closing ≡ on_cleanup
      → (run setup created events).cleaning ≡ disposing
      → length replies ≡ length (run setup created events).acquired
      → IsReleased (run setup (run setup created events) (map cleanup_replied (disposal ∷ replies)))
  close_completes events disposal replies e d n =
      let s = run setup created events in
      let final = disposal_and_releases s disposal replies e d n in
      IsSound-released _ (final.0) (run setup s (map cleanup_replied (disposal ∷ replies)))
        (final.1) (run-IsSound setup s _ (run-IsSound setup created events created-IsSound))
