-- ===== src/Recommendations/Strategy.antt =====
-- What a recommendation means to a reader who holds the asset and to one who does not:
-- src/aidss/recommendations/strategy.py. A sentence is its key in the table of phrases, with what is
-- inserted; how a phrase reads in a language, and how a price is written, are arguments. Prices and
-- confidences are whole numbers, the confidence in tenths.
pub mod Phrases
pub mod Stances
use stock_recommendation_be.Base.{
  ℕ, String, Bool, true, false, Option, none, some, List, [], ◌∷◌, ltb, str_eq, if◌then◌else◌,
}
use stock_recommendation_be.Base.Dict.{Dict, get}
use stock_recommendation_be.Domain.{
  RecommendationLabel, strong_buy, buy, watchlist, hold, reduce, sell,
}
use stock_recommendation_be.Recommendations.Strategy.Phrases.{
  Phrase, invalid_support, invalid_level_gives_way, invalid_stop, invalid_stance_turns,
  nh_thin_rationale, nh_thin_more_agreement, nh_thin_pullback, nh_thin_clearer_level,
  nh_candidate_rationale, nh_candidate_level_support, nh_candidate_level_plain, nh_candidate_sizing,
  nh_watchlist_rationale, nh_watchlist_clears, nh_watchlist_resolves, nh_watchlist_reaches,
  nh_watchlist_clearer_entry, nh_watchlist_stops_applying, nh_hold_rationale, nh_hold_directional,
  nh_hold_off_neutral, nh_avoid_rationale, h_accumulate_rationale, h_accumulate_concentration,
  h_accumulate_pullback, h_accumulate_average_level, h_buy_rationale, h_buy_target,
  h_maintain_rationale, h_maintain_nothing_turned, h_maintain_next_analysis, h_reduce_rationale,
  h_reduce_sizing, h_reduce_recovers, h_exit_rationale, h_exit_timing, disclaimer_phrase,
}

pub data PositionState : Type 0 where
  holding : PositionState
  not_holding : PositionState

pub data Stance : Type 0 where
  entry_candidate : Stance
  wait_for_level : Stance
  no_entry_basis : Stance
  avoid : Stance
  maintain : Stance
  accumulate_candidate : Stance
  trim_candidate : Stance
  exit_candidate : Stance

abbrev pub strategy_languages : List String
strategy_languages = "en" ∷ "id" ∷ []

-- In tenths.
abbrev pub entry_confidence_floor : ℕ
entry_confidence_floor = 550

pub record Guidance : Type 0 where
  pub position : PositionState
  pub stance : Stance
  pub rationale : String
  pub conditions : List String
  pub invalidated_if : List String
  pub reference_levels : Dict String

-- Of one language.
pub record Reading : Type 0 where
  pub not_holding : Guidance
  pub holding : Guidance
  pub disclaimer : String

pub record StrategyView : Type 0 where
  pub label : RecommendationLabel
  pub confidence : ℕ
  pub reading : Reading
  pub translations : Dict Reading

-- `if value` of an optional text: a text that is there and not empty.
unfoldable pub or_else {ℓ} : {A : Type ℓ} → Option String → (String → A) → A → A
or_else none present absent = absent
or_else (some value) present absent = if str_eq value "" then absent else present value

unfoldable pub level : (ℕ → String) → String → Option ℕ → Dict String → Dict String
level fmt key none rest = rest
level fmt key (some price) rest = (key, fmt price) ∷ rest

-- `_levels`.
unfoldable pub levels_of :
    (fmt : ℕ → String) → (support resistance target stop : Option ℕ) → Dict String
unfolding level
levels_of fmt support resistance target stop = level fmt "support" support (
    level fmt "resistance" resistance
      (level fmt "target" target (level fmt "suggested_stop" stop [])))

module _ (say : Phrase → String) where
  unfoldable pub invalidation : Option String → List String
  unfolding or_else
  invalidation support =
      or_else support (λ s. say (invalid_support s)) (say invalid_level_gives_way) ∷ []

  abbrev waiting : ℕ → RecommendationLabel → Dict String → Guidance
  waiting confidence label levels =
      let support = get "support" levels in
      record {
        position = not_holding;
        stance = wait_for_level;
        rationale = say (nh_thin_rationale label confidence entry_confidence_floor);
        conditions =
            say nh_thin_more_agreement
            ∷ or_else support (λ s. say (nh_thin_pullback s)) (say nh_thin_clearer_level)
            ∷ [];
        invalidated_if = invalidation support;
        reference_levels = levels;
      }

  abbrev entering : ℕ → RecommendationLabel → Dict String → Guidance
  entering confidence label levels =
      let support = get "support" levels in
      record {
        position = not_holding;
        stance = entry_candidate;
        rationale = say (nh_candidate_rationale label confidence);
        conditions =
            or_else support (λ s. say (nh_candidate_level_support s)) (say nh_candidate_level_plain)
            ∷ say nh_candidate_sizing
            ∷ [];
        invalidated_if = invalidation support;
        reference_levels = levels;
      }

  -- The first test of `_not_holding`: a label to buy.
  unfoldable pub buying : RecommendationLabel → ℕ → Dict String → Guidance
  unfolding invalidation get or_else
  buying label confidence levels =
      if ltb confidence entry_confidence_floor
      then waiting confidence label levels
      else entering confidence label levels

  abbrev avoiding : RecommendationLabel → Dict String → Guidance
  avoiding label levels = record {
    position = not_holding;
    stance = avoid;
    rationale = say (nh_avoid_rationale label);
    conditions = [];
    invalidated_if = say invalid_stance_turns ∷ [];
    reference_levels = levels;
  }

  unfoldable pub guide_not_holding : RecommendationLabel → ℕ → Dict String → Guidance
  unfolding buying get or_else
  guide_not_holding strong_buy confidence levels = buying strong_buy confidence levels
  guide_not_holding buy confidence levels = buying buy confidence levels
  guide_not_holding watchlist confidence levels = record {
    position = not_holding;
    stance = wait_for_level;
    rationale = say nh_watchlist_rationale;
    conditions =
        or_else (get "resistance" levels) (λ r. say (nh_watchlist_clears r))
          (say nh_watchlist_resolves)
        ∷ or_else (get "support" levels) (λ s. say (nh_watchlist_reaches s))
            (say nh_watchlist_clearer_entry)
        ∷ [];
    invalidated_if = say nh_watchlist_stops_applying ∷ [];
    reference_levels = levels;
  }
  guide_not_holding hold confidence levels = record {
    position = not_holding;
    stance = no_entry_basis;
    rationale = say nh_hold_rationale;
    conditions = say nh_hold_directional ∷ [];
    invalidated_if = say nh_hold_off_neutral ∷ [];
    reference_levels = levels;
  }
  guide_not_holding reduce confidence levels = avoiding reduce levels
  guide_not_holding sell confidence levels = avoiding sell levels

  unfoldable pub stop_line : Dict String → String
  unfolding get or_else
  stop_line levels =
      or_else (get "suggested_stop" levels) (λ s. say (invalid_stop s))
        (or_else (get "support" levels) (λ s. say (invalid_support s))
          (say invalid_level_gives_way))

  abbrev maintaining : RecommendationLabel → Dict String → Guidance
  maintaining label levels = record {
    position = holding;
    stance = maintain;
    rationale = say (h_maintain_rationale label);
    conditions = say h_maintain_nothing_turned ∷ [];
    invalidated_if = stop_line levels ∷ say h_maintain_next_analysis ∷ [];
    reference_levels = levels;
  }

  unfoldable pub guide_holding : RecommendationLabel → ℕ → Dict String → Guidance
  unfolding stop_line get or_else
  guide_holding strong_buy confidence levels = record {
    position = holding;
    stance = accumulate_candidate;
    rationale = say (h_accumulate_rationale confidence);
    conditions =
        say h_accumulate_concentration
        ∷ or_else (get "support" levels) (λ s. say (h_accumulate_pullback s))
            (say h_accumulate_average_level)
        ∷ [];
    invalidated_if = stop_line levels ∷ [];
    reference_levels = levels;
  }
  guide_holding buy confidence levels = record {
    position = holding;
    stance = maintain;
    rationale = say (h_buy_rationale confidence);
    conditions = or_else (get "target" levels) (λ t. say (h_buy_target t) ∷ []) [];
    invalidated_if = stop_line levels ∷ [];
    reference_levels = levels;
  }
  guide_holding hold confidence levels = maintaining hold levels
  guide_holding watchlist confidence levels = maintaining watchlist levels
  guide_holding reduce confidence levels = record {
    position = holding;
    stance = trim_candidate;
    rationale = say h_reduce_rationale;
    conditions = say h_reduce_sizing ∷ [];
    invalidated_if = say h_reduce_recovers ∷ [];
    reference_levels = levels;
  }
  guide_holding sell confidence levels = record {
    position = holding;
    stance = exit_candidate;
    rationale = say (h_exit_rationale confidence);
    conditions = say h_exit_timing ∷ [];
    invalidated_if = say invalid_stance_turns ∷ [];
    reference_levels = levels;
  }

  unfoldable pub reading_of : RecommendationLabel → ℕ → Dict String → Reading
  unfolding guide_not_holding guide_holding
  reading_of label confidence levels = record {
    not_holding = guide_not_holding label confidence levels;
    holding = guide_holding label confidence levels;
    disclaimer = say disclaimer_phrase;
  }

-- The other languages, each from the same branches.
unfoldable pub translated :
    (String → Phrase → String) → RecommendationLabel → ℕ → Dict String → List String → Dict Reading
unfolding reading_of
translated say label confidence levels [] = []
translated say label confidence levels (language ∷ languages) =
    let rest = translated say label confidence levels languages in
    if str_eq language "en"
    then rest
    else (language, reading_of (say language) label confidence levels) ∷ rest

unfoldable pub build_strategy :
    (say : String → Phrase → String)
    → (fmt : ℕ → String) → RecommendationLabel
    → (confidence : ℕ) → (support resistance target stop : Option ℕ) → StrategyView
unfolding levels_of reading_of translated
build_strategy say fmt label confidence support resistance target stop =
    let levels = levels_of fmt support resistance target stop in
    record {
      label = label;
      confidence = confidence;
      reading = reading_of (say "en") label confidence levels;
      translations = translated say label confidence levels strategy_languages;
    }
