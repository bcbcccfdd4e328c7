-- ===== src/Market/Tests.antt =====
-- A share at 60 and one at 48 rupiah under the bands of src/aidss/market/idx_rules.py.
use stock_recommendation_be.Base.{ℕ, ◌≡◌, ◌≤◌, ◌<◌, ◌*◌, ◌↔◌, some, arith}
use stock_recommendation_be.Market.IdxRules.{AutoRejectBand, proximity}
use stock_recommendation_be.Base.Int.{pos}
use stock_recommendation_be.Market.IdxRules.Band.{proximity_lem}

abbrev band_60 : AutoRejectBand
band_60 = record {
  reference_price = 6000;
  limit_fraction = 35;
  ceiling = 810000;
  floor = pos 390000;
}

proximity_lem_example :
    (n m d : ℕ) × (proximity band_60 7000 ≡ some (n, d))
    × (proximity band_60 8100 ≡ some (m, d))
    × (0 < d)
    × (n ≤ d)
    × (n ≤ m)
    × ((n ≡ d) ↔ (810000 ≤ 7000 * 100))
    × ((n ≡ 0) ↔ (7000 ≤ 6000))
proximity_lem_example = proximity_lem band_60 7000 8100 (omega arith) (omega arith)
