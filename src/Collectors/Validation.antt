-- ===== src/Collectors/Validation.antt =====
-- Cleaning of market data: src/aidss/collectors/validation.py, on the candle of
-- src/aidss/domain/types.py. Prices and volumes are whole numbers of a smallest unit; the ratio of
-- the largest plausible jump is in hundredths.
pub mod Sound
pub mod Shift
use stock_recommendation_be.Base.{
  ℕ, ◌+◌, ◌*◌, ◌-◌, Bool, true, false, Option, none, some, List, [], ◌∷◌, length, ltb, ◌||◌, max,
  min, if◌then◌else◌,
}
use stock_recommendation_be.Base.Int.{ℤ, pos, negsuc, ltb_ℤ, leb_ℤ, ◌-ℤ◌, pos_part, neg_part}

pub record Candle : Type 0 where
  pub timestamp : ℕ
  pub open_ : ℤ
  pub high : ℤ
  pub low : ℤ
  pub close : ℤ
  pub volume : ℤ

-- One constructor for each reason.
pub data Problem : Type 0 where
  non_positive_price : Problem
  negative_volume : Problem
  high_below_open_close : Problem
  low_above_open_close : Problem
  high_below_low : Problem
  price_jump : Problem

pub record Rejection : Type 0 where
  pub candle : Candle
  pub reason : Problem

pub record ValidationResult : Type 0 where
  pub accepted : List Candle
  pub rejected : List Rejection

unfoldable pub rejected_count : ValidationResult → ℕ
rejected_count result = length result.rejected

abbrev pub default_max_jump_ratio : ℕ
default_max_jump_ratio = 50

unfoldable pub max_ℤ : ℤ → ℤ → ℤ
max_ℤ a b = if ltb_ℤ a b then b else a

unfoldable pub min_ℤ : ℤ → ℤ → ℤ
min_ℤ a b = if ltb_ℤ b a then b else a

unfoldable pub structural_problem : Candle → Option Problem
unfolding max_ℤ min_ℤ
structural_problem candle =
    if leb_ℤ candle.open_ (pos 0)
      || leb_ℤ candle.high (pos 0)
      || leb_ℤ candle.low (pos 0)
      || leb_ℤ candle.close (pos 0)
    then some non_positive_price
    else if ltb_ℤ candle.volume (pos 0)
    then some negative_volume
    else if ltb_ℤ candle.high (max_ℤ candle.open_ candle.close)
    then some high_below_open_close
    else if ltb_ℤ (min_ℤ candle.open_ candle.close) candle.low
    then some low_above_open_close
    else if ltb_ℤ candle.high candle.low
    then some high_below_low
    else none

-- The size of a difference, `abs(a - b)`.
unfoldable pub distance : ℤ → ℤ → ℕ
distance a b = pos_part (a -ℤ b) + neg_part (a -ℤ b)

-- `abs(close - last) / last > max_jump_ratio`, for a positive `last`.
unfoldable pub jumps : (max_jump_ratio : ℕ) → (close last : ℤ) → Bool
unfolding distance
jumps max_jump_ratio close last = ltb (max_jump_ratio * pos_part last) (100 * distance close last)

-- Against the last valid close, where there is one.
unfoldable pub is_outlier : ℕ → Candle → Option ℤ → Bool
unfolding jumps
is_outlier max_jump_ratio candle none = false
is_outlier max_jump_ratio candle (some last) =
    if ltb_ℤ (pos 0) last then jumps max_jump_ratio candle.close last else false

-- `problem` is that of the candle.
unfoldable pub problem_of : ℕ → Option ℤ → Candle → Option Problem
unfolding structural_problem is_outlier
problem_of max_jump_ratio last candle = elim (structural_problem candle) [
  | some problem ↦ some problem
  | none ↦ if is_outlier max_jump_ratio candle last then some price_jump else none
]

-- The loop, from the last valid close on.
pub validate_from : ℕ → Option ℤ → List Candle → ValidationResult
unfolding problem_of
validate_from max_jump_ratio last [] = record { accepted = []; rejected = [] }
validate_from max_jump_ratio last (candle ∷ candles) =
    let kept = validate_from max_jump_ratio (some candle.close) candles in
    let skipped = validate_from max_jump_ratio last candles in
    elim (problem_of max_jump_ratio last candle) [
      | some problem ↦ record skipped {
        rejected = record { candle = candle; reason = problem } ∷ skipped.rejected;
      }
      | none ↦ record kept { accepted = candle ∷ kept.accepted }
    ]

unfoldable pub validate_candles : ℕ → List Candle → ValidationResult
unfolding validate_from
validate_candles max_jump_ratio candles = validate_from max_jump_ratio none candles
