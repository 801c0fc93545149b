-- ===== src/Session/Readiness.antt =====
-- What a session that is ready serves: all of its configured connections, and how far a startup
-- has come towards it.
pub mod Stores
pub mod Progress
pub mod Calls
pub mod Served
use mathlib.Core.List.{append-nil}
use bettter_nest_mq.Prelude.{
  ◌≡◌, refl, ◌⊎◌, inl, inr, Bool, true, false, List, [], ◌∷◌, ◌++◌, map, Text,
}
use bettter_nest_mq.Session.{
  EngineState, ready, Connection, Resource, Binding, Startup, not_started, acquiring, making,
  resolving, probing, cleaning_up, settled, Outcome, fulfilled, rejected, aggregate,
}
use bettter_nest_mq.Session.Checks.{with_store_of, binding_names, tasks}
use bettter_nest_mq.Session.Soundness.Activating.{Parts}

abbrev pub connections_of : List Binding → List Connection
connections_of = map (λ b. b.connection)

abbrev pub resources_of : List Binding → List Resource
resources_of = map (λ b. b.resource)

-- The maps of stores before the commit, and after it.
abbrev pub no_names : List (List Text)
no_names = [] ∷ [] ∷ [] ∷ [] ∷ [] ∷ []

abbrev pub store_names : List Binding → List (List Text)
store_names bs =
    binding_names bs
    ∷ binding_names (with_store_of (λ r. r.events) bs)
    ∷ binding_names (with_store_of (λ r. r.flows) bs)
    ∷ binding_names (with_store_of (λ r. r.schedules) bs)
    ∷ binding_names (with_store_of (λ r. r.outbox) bs)
    ∷ []

module _ (configured : List Connection) where
  -- Each configured connection is bound to the resource that was acquired for it.
  abbrev pub Bound : List Binding → List Resource → Type 0
  Bound bs taken = (connections_of bs ≡ configured) × (resources_of bs ≡ taken)

  -- The acquired resources' stores are in the maps, and there is a runtime to run them with if
  -- there is any.
  abbrev pub Serves : List Resource → Bool → List (List Text) → Type 0
  Serves taken has_runtime names =
      (bindings : List Binding) × Bound bindings taken
      × (names ≡ store_names bindings)
      × ((has_runtime ≡ true) ⊎ (bindings ≡ []))

  abbrev pub ProgressAt : Startup → EngineState → List Resource → Bool → List (List Text) → Type 0
  ProgressAt not_started state taken runtime names = (taken ≡ []) × (names ≡ no_names)
  ProgressAt (acquiring bs c rest) state taken runtime names =
      (connections_of bs ++ c ∷ rest ≡ configured) × (resources_of bs ≡ taken) × (names ≡ no_names)
  ProgressAt (making bs) state taken runtime names = Bound bs taken × (names ≡ no_names)
  ProgressAt (resolving bs found t rest) state taken runtime names =
      Bound bs taken × (found ++ t ∷ rest ≡ tasks bs) × (runtime ≡ true)
  ProgressAt (probing bs found t rest) state taken runtime names =
      Bound bs taken × (found ++ t ∷ rest ≡ tasks bs) × (runtime ≡ true)
  ProgressAt (settled fulfilled) state taken runtime names =
      state ≡ ready → Serves taken runtime names
  ProgressAt (settled _) state taken runtime names = Unit
  ProgressAt (cleaning_up _) state taken runtime names = Unit

  abbrev pub Progress : Parts
  Progress st cl co state stop taken acquired released runtime names =
      ProgressAt st state taken runtime names
