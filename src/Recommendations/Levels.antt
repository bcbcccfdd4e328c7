-- ===== src/Recommendations/Levels.antt =====
-- The prices of a recommendation, from the indicators: `derive_levels` of
-- src/aidss/recommendations/calibration.py. Prices of the snapshot are in millionths and not negative,
-- those of the levels in hundredths; the words for the method are left out.
pub mod Sides
use text.Mathlib.Text.{starts_with}
use stock_recommendation_be.Base.{
  ℕ, ◌+◌, ◌*◌, ◌-◌, ◌/◌, String, Bool, true, false, ◌&&◌, not, Option, none, some, List, [], ◌∷◌,
  ltb, if◌then◌else◌,
}
use stock_recommendation_be.Domain.{
  RecommendationLabel, Direction, constructive, neutral, cautious, label_direction, same_direction,
}

-- What `derive_levels` reads of an indicator snapshot: the value of an indicator is `none` where its
-- payload has none or is no dict.
pub record Snapshot : Type 0 where
  pub last_close : Option ℕ
  pub support : List ℕ
  pub resistance : List ℕ
  pub indicators : List (String × Option ℕ)

pub record DerivedLevels : Type 0 where
  pub support : Option ℕ
  pub resistance : Option ℕ
  pub target_price : Option ℕ
  pub suggested_stop : Option ℕ

abbrev pub no_levels : DerivedLevels
no_levels = record { support = none; resistance = none; target_price = none; suggested_stop = none }

abbrev pub stop_atr_multiple : ℕ
stop_atr_multiple = 2

-- `ROUND_HALF_UP` from millionths to hundredths.
unfoldable pub quantize : ℕ → ℕ
quantize value = (value + 5000) / 10000

unfoldable pub nearest : List ℕ → Option ℕ
unfolding quantize
nearest [] = none
nearest (level ∷ _) = some (quantize level)

unfoldable pub extract_atr : List (String × Option ℕ) → Option ℕ
extract_atr [] = none
extract_atr (e ∷ indicators) =
    let rest = extract_atr indicators in
    if starts_with e.0 "atr(" then elim e.1 [ some value ↦ some value | none ↦ rest ] else rest

-- Towards the resistance, towards the support, or nowhere.
unfoldable pub target_of : Direction → Snapshot → Option ℕ
unfolding nearest
target_of constructive snapshot = nearest snapshot.resistance
target_of cautious snapshot = nearest snapshot.support
target_of neutral snapshot = none

-- The distance is a multiple of a hundredth; `close - distance` has to be positive.
unfoldable pub stop_of : Direction → (close distance : ℕ) → Option ℕ
unfolding quantize
stop_of constructive close distance =
    if ltb (distance * 10000) close then some (quantize (close - distance * 10000)) else none
stop_of cautious close distance =
    if ltb 0 (close + distance * 10000) then some (quantize (close + distance * 10000)) else none
stop_of neutral close distance = none

unfoldable pub suggested_stop_of : Direction → ℕ → Option ℕ → Option ℕ
unfolding stop_of quantize
suggested_stop_of direction close none = none
suggested_stop_of direction close (some atr) =
    if ltb 0 atr then stop_of direction close (quantize (atr * stop_atr_multiple)) else none

-- `none` for an empty snapshot.
unfoldable pub derive_levels : Option Snapshot → RecommendationLabel → DerivedLevels
unfolding nearest target_of suggested_stop_of extract_atr label_direction
derive_levels none label = no_levels
derive_levels (some snapshot) label =
    let direction = label_direction label in
    elim snapshot.last_close [
      | none ↦ record no_levels {
        support = nearest snapshot.support;
        resistance = nearest snapshot.resistance;
      }
      | some close ↦ record {
        support = nearest snapshot.support;
        resistance = nearest snapshot.resistance;
        target_price = target_of direction snapshot;
        suggested_stop = suggested_stop_of direction close (extract_atr snapshot.indicators);
      }
    ]
