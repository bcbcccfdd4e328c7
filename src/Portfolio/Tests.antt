-- ===== src/Portfolio/Tests.antt =====
-- The simulation of src/aidss/portfolio/simulation.py on two positions.
use stock_recommendation_be.Base.{◌≡◌, refl, List, [], ◌∷◌, none, some, str_eq}
use stock_recommendation_be.Base.Dict.{Dict, get, put, remove}
use stock_recommendation_be.Portfolio.Simulation.{
  Position, AllocationChange, Applied, removed, resized, resize, index, apply_change, apply_from,
}
use stock_recommendation_be.Portfolio.Simulation.Changes.{settled, last_change, changes_get}

abbrev bank : Position
bank = record {
  ticker = "BBCA";
  sector = some "banks";
  quantity = 100;
  average_price = 9000;
  last_price = none;
}

abbrev miner : Position
miner = record bank { ticker = "ADRO" }

abbrev held : Dict Position
held = index (bank ∷ miner ∷ []) []

abbrev changes : List AllocationChange
changes = record { ticker = "BBCA"; quantity = 0 } ∷ record { ticker = "BBCA"; quantity = 50 } ∷ []

abbrev account : List Applied
account =
    record { ticker = "BBCA"; action = removed; from_quantity = 100; to_quantity = 0 }
    ∷ record { ticker = "BBCA"; action = resized; from_quantity = 100; to_quantity = 50 }
    ∷ []

abbrev outcome : Dict Position × List Applied
outcome = (("ADRO", miner) ∷ ("BBCA", resize bank 50) ∷ [], account)

changes_get_example :
    get "BBCA" outcome.0 ≡ settled (get "BBCA" held) (get "BBCA" held) (last_change "BBCA" changes)
unfolding index get put remove str_eq apply_from apply_change
changes_get_example = changes_get held changes "BBCA" outcome refl
