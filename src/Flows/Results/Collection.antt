-- ===== src/Flows/Results/Collection.antt =====
-- What FlowResultReader's `all` returns.
use mathlib.Core.Path.{subst}
use bettter_nest_mq.Prelude.{
  ℕ, zero, suc, ◌≤◌, ◌≡◌, refl, Bool, true, false, Option, none, some, List, [], ◌∷◌, ◌++◌, Text,
  length, ltb, if◌then◌else◌, Result, ok, err, flow, definition, arith,
}
use bettter_nest_mq.Flows.{has}
use bettter_nest_mq.Flows.Results.{
  Pages, Reader, read_page, next_round, after_page, collect, all_results,
}

module _ {World Item : Type 0} (host : Pages World Item) where
  -- A reply's items are at most `most`.
  Within : ℕ → Option (Reader World × Result (List Item)) → Type 0
  Within most o =
      (r : Reader World) (items : List Item) → o ≡ some (r, ok items) → length items ≤ most

  if-Within :
      (most : ℕ) (b : Bool) (x y : Option (Reader World × Result (List Item)))
      → (b ≡ true → Within most x)
      → (b ≡ false → Within most y)
      → Within most (if b then x else y)
  if-Within most true x y h k = h refl
  if-Within most false x y h k = k refl

  err-Within : (most : ℕ) (r : Reader World) (e : _) → Within most (some (r, err e))
  unfolding Within
  err-Within most r e s items h = cc h

  ok-Within :
      (most : ℕ) (r : Reader World) (items : List Item)
      → length items ≤ most
      → Within most (some (r, ok items))
  unfolding Within
  ok-Within most r items h s found e =
      let same_items : items ≡ found = cc e in subst (λ xs. length xs ≤ most) same_items h

  next_round-Within :
      (most : ℕ) (rest : List Item → List Text → Text → Option (Reader World × Result (List Item)))
      (items : List Item) (seen : List Text) (r : Reader World) (next : Option Text)
      → length items ≤ most
      → ((items' : List Item) (seen' : List Text) (c : Text) → Within most (rest items' seen' c))
      → Within most (next_round host rest items seen r next)
  next_round-Within most rest items seen r none bound h = ok-Within most r items bound
  next_round-Within most rest items seen r (some c) bound h =
      if-Within most (has c seen) _ _ (λ _. err-Within most r _) (λ _. h items (c ∷ seen) c)

  after_page-Within :
      (most : ℕ)
      (rest : Reader World
        → List Item
        → List Text
        → Text
        → Option (Reader World × Result (List Item)))
      (items : List Item) (seen : List Text)
      (page : Reader World × Result (List Item × Option Text))
      → ((r : Reader World) (items' : List Item) (seen' : List Text) (c : Text)
          → Within most (rest r items' seen' c))
      → Within most (after_page host most rest items seen page)
  after_page-Within most rest items seen (r, err e) h = err-Within most r e
  after_page-Within most rest items seen (r, ok (found, next)) h =
      if-Within most (ltb most (length (items ++ found))) _ _ (λ _. err-Within most r _)
        (λ b. next_round-Within most (rest r) (items ++ found) seen r next (ground arith) (h r))

  collect-Within :
      (pages most : ℕ) (items : List Item) (seen : List Text) (cursor : Option Text)
      (r : Reader World)
      → Within most (collect host pages most items seen cursor r)
  unfolding collect
  collect-Within zero most items seen cursor r = unfold Within in λ s found e. cc e
  collect-Within (suc pages) most items seen cursor r =
      after_page-Within most _ items seen (read_page host cursor 100 r)
        (λ r' items' seen' c. collect-Within pages most items' seen' (some c) r')

  not_refused :
      (b : Bool) (o : Option (Reader World × Result (List Item))) (r s : Reader World)
      (items : List Item)
      → (if b then some (r, err (flow definition)) else o) ≡ some (s, ok items)
      → (b ≡ false) × (o ≡ some (s, ok items))
  not_refused true o r s items h = cc h
  not_refused false o r s items h = (refl, h)

  -- `all` never returns more than maxItems results, whatever pages the store gives, and returns
  -- none where maxItems is beyond the flow's own bound.
  pub all_results_bounded :
      (pages max_children most : ℕ) (r s : Reader World) (items : List Item)
      → all_results host pages max_children most r ≡ some (s, ok items)
      → (length items ≤ most) × (most ≤ max_children)
  unfolding all_results Within
  all_results_bounded pages max_children most r s items e =
      let (within, collected) =
        not_refused (ltb max_children most) (collect host pages most [] [] none r) r s items e in
      (collect-Within pages most [] [] none r s items collected, ground arith)
