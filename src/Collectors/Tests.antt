-- ===== src/Collectors/Tests.antt =====
-- The validator of src/aidss/collectors/validation.py on a few bars.
use stock_recommendation_be.Base.{◌≡◌, refl, [], ◌∷◌, none, arith}
use stock_recommendation_be.Base.Int.{pos, ◌-ℤ◌}
use stock_recommendation_be.Collectors.Validation.{
  Candle, default_max_jump_ratio, jumps, distance, validate_candles,
}
use stock_recommendation_be.Collectors.Validation.Sound.{IsClean, IsSound, validate_candles-IsClean}
use stock_recommendation_be.Collectors.Validation.Shift.{AllFar, first_candle_decides}

abbrev bar : Candle
bar = record {
  timestamp = 1;
  open_ = pos 100;
  high = pos 110;
  low = pos 95;
  close = pos 105;
  volume = pos 10;
}

abbrev halved : Candle
halved = record {
  timestamp = 2;
  open_ = pos 42;
  high = pos 45;
  low = pos 40;
  close = pos 44;
  volume = pos 30;
}

abbrev broken : Candle
broken = record bar { high = pos 99 }

bar-IsSound : IsSound bar
bar-IsSound = record {
  positive_low = omega arith;
  open_in_range = (omega arith, omega arith);
  close_in_range = (omega arith, omega arith);
  volume = omega arith;
}

validate_candles-IsClean_example :
    IsClean default_max_jump_ratio none
      (bar ∷ broken ∷ halved ∷ [])
      (validate_candles default_max_jump_ratio (bar ∷ broken ∷ halved ∷ []))
validate_candles-IsClean_example =
    validate_candles-IsClean default_max_jump_ratio (bar ∷ broken ∷ halved ∷ [])

halved_far : AllFar default_max_jump_ratio (pos 105) (halved ∷ halved ∷ [])
unfolding jumps distance ◌-ℤ◌
halved_far = (refl, (refl, tt))

first_candle_decides_example :
    (validate_candles default_max_jump_ratio (bar ∷ halved ∷ halved ∷ [])).accepted ≡ bar ∷ []
first_candle_decides_example =
    first_candle_decides default_max_jump_ratio bar (halved ∷ halved ∷ []) bar-IsSound halved_far
