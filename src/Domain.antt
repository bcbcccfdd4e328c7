-- ===== src/Domain.antt =====
-- Types that several parts share: src/aidss/domain/types.py.
use stock_recommendation_be.Base.{Bool, true, false}

pub data RecommendationLabel : Type 0 where
  strong_buy : RecommendationLabel
  buy : RecommendationLabel
  watchlist : RecommendationLabel
  hold : RecommendationLabel
  reduce : RecommendationLabel
  sell : RecommendationLabel

-- +1, 0 and -1, in the words that the rules have for them.
pub data Direction : Type 0 where
  constructive : Direction
  neutral : Direction
  cautious : Direction

unfoldable pub label_direction : RecommendationLabel → Direction
label_direction strong_buy = constructive
label_direction buy = constructive
label_direction watchlist = neutral
label_direction hold = neutral
label_direction reduce = cautious
label_direction sell = cautious

unfoldable pub is_strong : RecommendationLabel → Bool
is_strong strong_buy = true
is_strong sell = true
is_strong _ = false

unfoldable pub same_direction : Direction → Direction → Bool
same_direction constructive constructive = true
same_direction neutral neutral = true
same_direction cautious cautious = true
same_direction _ _ = false
