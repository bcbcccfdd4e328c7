-- ===== src/Portfolio/Simulation.antt =====
-- The hypothetical positions of a simulation: `apply_changes` of src/aidss/portfolio/simulation.py, on
-- the position of src/aidss/portfolio/metrics.py. Quantities and prices are whole numbers of a
-- smallest unit.
pub mod Changes
use stock_recommendation_be.Base.{
  ℕ, String, Bool, true, false, Option, none, some, List, [], ◌∷◌, ◌++◌, ◌⊎◌, inl, inr, map, str_eq,
  ◌==◌, if◌then◌else◌,
}
use stock_recommendation_be.Base.Dict.{Dict, get, put, remove}
use stock_recommendation_be.Base.Int.{ℤ, pos, negsuc, ltb_ℤ}

pub record Position : Type 0 where
  pub ticker : String
  pub sector : Option String
  pub quantity : ℕ
  pub average_price : ℕ
  pub last_price : Option ℕ

-- The quantity is absolute, and zero removes the position.
pub record AllocationChange : Type 0 where
  pub ticker : String
  pub quantity : ℕ

pub data SimulationError : Type 0 where
  negative_quantity : String → SimulationError
  not_held_to_remove : String → SimulationError
  not_held_to_resize : String → SimulationError
  would_be_empty : SimulationError
  no_positions : SimulationError
  no_changes : SimulationError

-- `__post_init__` of a change.
unfoldable pub new_change : String → ℤ → SimulationError ⊎ AllocationChange
new_change ticker (pos quantity) = inr (record { ticker = ticker; quantity = quantity })
new_change ticker (negsuc _) = inl (negative_quantity ticker)

pub data Action : Type 0 where
  removed : Action
  resized : Action

-- An entry of the account of what was applied.
pub record Applied : Type 0 where
  pub ticker : String
  pub action : Action
  pub from_quantity : ℕ
  pub to_quantity : ℕ

-- `{p.ticker: p for p in positions}`, on what is there already.
unfoldable pub index : List Position → Dict Position → Dict Position
unfolding put
index [] held = held
index (p ∷ positions) held = index positions (put p.ticker p held)

abbrev pub resize : Position → ℕ → Position
resize existing quantity = record existing { quantity = quantity }

-- The body of the loop: `held` is `by_ticker`, which does not change.
unfoldable pub apply_change :
    Dict Position
    → AllocationChange
    → Dict Position × List Applied
    → SimulationError ⊎ (Dict Position × List Applied)
unfolding get put remove
apply_change held change state = elim (get change.ticker held) [
  | none ↦
      if change.quantity == 0
      then inl (not_held_to_remove change.ticker)
      else inl (not_held_to_resize change.ticker)
  | some existing ↦
      if change.quantity == 0
      then inr (
        remove change.ticker state.0,
        state.1
            ++ record {
              ticker = change.ticker;
              action = removed;
              from_quantity = existing.quantity;
              to_quantity = 0;
            }
              ∷ [],
      )
      else inr (
        put change.ticker (resize existing change.quantity) state.0,
        state.1
            ++ record {
              ticker = change.ticker;
              action = resized;
              from_quantity = existing.quantity;
              to_quantity = change.quantity;
            }
              ∷ [],
      )
]

unfoldable pub apply_from :
    Dict Position
    → List AllocationChange
    → Dict Position × List Applied
    → SimulationError ⊎ (Dict Position × List Applied)
unfolding apply_change
apply_from held [] state = inr state
apply_from held (change ∷ changes) state = elim (apply_change held change state) [
  | inl error ↦ inl error
  | inr next ↦ apply_from held changes next
]

-- `list(result.values())`.
unfoldable pub values : Dict Position → List Position
values [] = []
values (e ∷ d) = e.1 ∷ values d

unfoldable pub conclude :
    SimulationError ⊎ (Dict Position × List Applied)
    → SimulationError ⊎ (List Position × List Applied)
unfolding values
conclude (inl error) = inl error
conclude (inr (result, applied)) = elim result [
  | [] ↦ inl would_be_empty
  | e ∷ d ↦ inr (values (e ∷ d), applied)
]

unfoldable pub apply_changes :
    List Position → List AllocationChange → SimulationError ⊎ (List Position × List Applied)
unfolding index apply_from conclude
apply_changes positions changes =
    let held = index positions [] in conclude (apply_from held changes (held, []))

-- The guards of `simulate`, before the metrics are computed.
unfoldable pub simulated_positions :
    List Position → List AllocationChange → SimulationError ⊎ (List Position × List Applied)
unfolding apply_changes
simulated_positions [] changes = inl no_positions
simulated_positions (p ∷ positions) [] = inl no_changes
simulated_positions (p ∷ positions) (c ∷ changes) = apply_changes (p ∷ positions) (c ∷ changes)
