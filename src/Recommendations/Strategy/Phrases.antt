-- ===== src/Recommendations/Strategy/Phrases.antt =====
-- The keys of `PHRASES` in src/aidss/recommendations/strategy.py, each with what is inserted. The
-- confidence and its floor are in tenths.
use stock_recommendation_be.Base.{ℕ, String}
use stock_recommendation_be.Domain.{RecommendationLabel}

pub data Phrase : Type 0 where
  disclaimer_phrase : Phrase
  invalid_support : String → Phrase
  invalid_level_gives_way : Phrase
  invalid_stop : String → Phrase
  invalid_stance_turns : Phrase
  nh_thin_rationale : RecommendationLabel → ℕ → ℕ → Phrase
  nh_thin_more_agreement : Phrase
  nh_thin_pullback : String → Phrase
  nh_thin_clearer_level : Phrase
  nh_candidate_rationale : RecommendationLabel → ℕ → Phrase
  nh_candidate_level_support : String → Phrase
  nh_candidate_level_plain : Phrase
  nh_candidate_sizing : Phrase
  nh_watchlist_rationale : Phrase
  nh_watchlist_clears : String → Phrase
  nh_watchlist_resolves : Phrase
  nh_watchlist_reaches : String → Phrase
  nh_watchlist_clearer_entry : Phrase
  nh_watchlist_stops_applying : Phrase
  nh_hold_rationale : Phrase
  nh_hold_directional : Phrase
  nh_hold_off_neutral : Phrase
  nh_avoid_rationale : RecommendationLabel → Phrase
  h_accumulate_rationale : ℕ → Phrase
  h_accumulate_concentration : Phrase
  h_accumulate_pullback : String → Phrase
  h_accumulate_average_level : Phrase
  h_buy_rationale : ℕ → Phrase
  h_buy_target : String → Phrase
  h_maintain_rationale : RecommendationLabel → Phrase
  h_maintain_nothing_turned : Phrase
  h_maintain_next_analysis : Phrase
  h_reduce_rationale : Phrase
  h_reduce_sizing : Phrase
  h_reduce_recovers : Phrase
  h_exit_rationale : ℕ → Phrase
  h_exit_timing : Phrase
