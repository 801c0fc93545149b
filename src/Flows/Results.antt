-- ===== src/Flows/Results.antt =====
-- FlowResultReader of engine/flow-results.ts: readPage and all. The engine's page of child
-- outcomes acts on a world; `is_own` tells the children of the requested job from the others.
pub mod Collection
use bettter_nest_mq.Prelude.{
  ℕ, zero, suc, ◌≡◌, Bool, true, false, ◌||◌, not, Option, none, some, List, [], ◌∷◌, ◌++◌, Text,
  filter, length, ltb, ◌==◌, if◌then◌else◌, Result, ok, err, ◌>>◌, reject_if, Failure, contract,
  flow, FlowReason, definition, operation,
}
use bettter_nest_mq.Flows.{has}

pub record Pages (World Item : Type 0) : Type 0 where
  -- the cursor, the limit; `none` is an error
  pub page : Option Text → ℕ → World → World × Option (List Item × Option Text)
  pub is_own : Item → Bool

-- The world, and the cursors that this reader has handed out.
pub record Reader (World : Type 0) : Type 0 where
  pub world : World
  pub cursors : List Text

abbrev pub check_cursor : Option Text → List Text → Result (Unit {0})
check_cursor none cursors = ok tt
check_cursor (some c) cursors =
    reject_if (length c == 0 || (ltb 256 (length c) || not (has c cursors))) (flow definition)

abbrev pub add_cursor : Option Text → List Text → List Text
add_cursor none cursors = cursors
add_cursor (some c) cursors = c ∷ cursors

module _ {World Item : Type 0} (host : Pages World Item) where
  abbrev pub Reply : Type 0 → Type 0
  Reply A = Reader World × Result A

  abbrev pub accept_page :
      List Text → World × Option (List Item × Option Text) → Reply (List Item × Option Text)
  accept_page cursors (w, none) = (record { world = w; cursors = cursors }, err (flow operation))
  accept_page cursors (w, some (items, next)) =
      (record { world = w; cursors = add_cursor next cursors }, ok (filter host.is_own items, next))

  abbrev pub checked_page :
      Option Text → ℕ → Reader World → Result (Unit {0}) → Reply (List Item × Option Text)
  checked_page cursor limit r (err e) = (r, err e)
  checked_page cursor limit r (ok _) = accept_page r.cursors (host.page cursor limit r.world)

  unfoldable pub read_page : Option Text → ℕ → Reader World → Reply (List Item × Option Text)
  read_page cursor limit r = checked_page cursor limit r (
      reject_if (ltb limit 1) contract
      >> reject_if (ltb 1000 limit) (flow definition)
      >> check_cursor cursor r.cursors)

  -- One round of the loop of `all`, after its page; `rest` is the loop.
  abbrev pub next_round :
      (List Item → List Text → Text → Option (Reply (List Item)))
      → List Item
      → List Text
      → Reader World
      → Option Text
      → Option (Reply (List Item))
  next_round rest items seen r none = some (r, ok items)
  next_round rest items seen r (some c) =
      let more = rest items (c ∷ seen) c in
      if has c seen then some (r, err (flow operation)) else more

  abbrev pub after_page :
      ℕ
      → (Reader World → List Item → List Text → Text → Option (Reply (List Item)))
      → List Item
      → List Text
      → Reply (List Item × Option Text)
      → Option (Reply (List Item))
  after_page most rest items seen (r, err e) = some (r, err e)
  after_page most rest items seen (r, ok (found, next)) =
      let more = next_round (rest r) (items ++ found) seen r next in
      if ltb most (length (items ++ found)) then some (r, err (flow definition)) else more

  -- The loop of `all`, on fuel: one for each page.
  unfoldable pub collect :
      ℕ → ℕ → List Item → List Text → Option Text → Reader World → Option (Reply (List Item))
  collect zero most items seen cursor r = none
  collect (suc pages) most items seen cursor r =
      after_page most (λ r' items' seen' c. collect pages most items' seen' (some c) r') items seen
        (read_page cursor 100 r)

  -- `all`, with the bound of the flow.
  unfoldable pub all_results : ℕ → ℕ → ℕ → Reader World → Option (Reply (List Item))
  all_results pages max_children most r =
      let collected = collect pages most [] [] none r in
      if ltb max_children most then some (r, err (flow definition)) else collected
