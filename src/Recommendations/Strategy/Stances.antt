-- ===== src/Recommendations/Strategy/Stances.antt =====
-- How the two readings of a recommendation go together: src/aidss/recommendations/strategy.py.
use stock_recommendation_be.Base.{
  ℕ, ◌≤◌, ◌≡◌, ◌↔◌, refl, inl, inr, String, Bool, true, false, Option, List, [], ◌∷◌, length, map,
  str_eq, All, Bool-cases, arith,
}
use stock_recommendation_be.Base.Dict.{Dict}
use stock_recommendation_be.Domain.{
  RecommendationLabel, strong_buy, buy, watchlist, hold, reduce, sell, constructive,
  label_direction,
}
use stock_recommendation_be.Recommendations.Strategy.{
  Stance, entry_candidate, wait_for_level, no_entry_basis, avoid, maintain, accumulate_candidate,
  trim_candidate, exit_candidate, entry_confidence_floor, Reading, strategy_languages, levels_of,
  invalidation, buying, guide_not_holding, guide_holding, reading_of, translated, build_strategy,
}
use stock_recommendation_be.Recommendations.Strategy.Phrases.{Phrase}

-- Whether the same evidence may say the first to who does not hold and the second to who does.
abbrev pub compatible : Stance → Stance → Bool
compatible entry_candidate accumulate_candidate = true
compatible entry_candidate maintain = true
compatible wait_for_level accumulate_candidate = true
compatible wait_for_level maintain = true
compatible no_entry_basis maintain = true
compatible avoid trim_candidate = true
compatible avoid exit_candidate = true
compatible _ _ = false

-- A reading that can be shown to be wrong, that does not contradict itself, and that calls an entry
-- what has a label to buy and enough confidence, and nothing else.
pub record IsCoherent (label : RecommendationLabel) (confidence : ℕ) (r : Reading) : Type 0 where
  pub can_be_wrong :
      (1 ≤ length r.not_holding.invalidated_if) × (1 ≤ length r.holding.invalidated_if)
  pub agrees : compatible r.not_holding.stance r.holding.stance ≡ true
  pub entry :
      (r.not_holding.stance ≡ entry_candidate)
      ↔ ((label_direction label ≡ constructive) × (entry_confidence_floor ≤ confidence))

abbrev pub SameStances : Reading → Reading → Type 0
SameStances r s =
    (r.not_holding.stance ≡ s.not_holding.stance) × (r.holding.stance ≡ s.holding.stance)

reading_of-IsCoherent :
    (say : Phrase → String) (label : RecommendationLabel) (confidence : ℕ) (levels : Dict String)
    → IsCoherent label confidence (reading_of say label confidence levels)
unfolding reading_of guide_not_holding guide_holding buying invalidation label_direction
reading_of-IsCoherent say strong_buy confidence levels = record {
  can_be_wrong = (ground arith, ground arith);
  agrees = ground arith;
  entry = ground arith;
}
reading_of-IsCoherent say buy confidence levels = record {
  can_be_wrong = (ground arith, ground arith);
  agrees = ground arith;
  entry = ground arith;
}
reading_of-IsCoherent say watchlist confidence levels = record {
  can_be_wrong = (ground arith, ground arith);
  agrees = ground arith;
  entry = ground arith;
}
reading_of-IsCoherent say hold confidence levels = record {
  can_be_wrong = (ground arith, ground arith);
  agrees = ground arith;
  entry = ground arith;
}
reading_of-IsCoherent say reduce confidence levels = record {
  can_be_wrong = (ground arith, ground arith);
  agrees = ground arith;
  entry = ground arith;
}
reading_of-IsCoherent say sell confidence levels = record {
  can_be_wrong = (ground arith, ground arith);
  agrees = ground arith;
  entry = ground arith;
}

-- The stances do not depend on how a phrase reads.
reading_of-SameStances :
    (say say' : Phrase → String) (label : RecommendationLabel) (confidence : ℕ)
    (levels : Dict String)
    → SameStances (reading_of say label confidence levels) (reading_of say' label confidence levels)
unfolding reading_of guide_not_holding guide_holding buying
reading_of-SameStances say say' strong_buy confidence levels = ground arith
reading_of-SameStances say say' buy confidence levels = ground arith
reading_of-SameStances say say' watchlist confidence levels = (refl, refl)
reading_of-SameStances say say' hold confidence levels = (refl, refl)
reading_of-SameStances say say' reduce confidence levels = (refl, refl)
reading_of-SameStances say say' sell confidence levels = (refl, refl)

-- Both readings of a recommendation, in English and in its translations, which are one in Indonesian:
-- each says what would make it wrong; what it says to who holds the asset goes together with what it
-- says to who does not; an entry is called a candidate exactly for a constructive label with a
-- confidence of at least 55; and the translation has the stances of the English reading.
pub build_strategy-IsCoherent :
    (say : String → Phrase → String) (fmt : ℕ → String) (label : RecommendationLabel)
    (confidence : ℕ) (support resistance target stop : Option ℕ)
    → let v = build_strategy say fmt label confidence support resistance target stop in
      IsCoherent label confidence v.reading
      × (map (λ t. t.0) v.translations ≡ "id" ∷ [])
      × All (λ t. IsCoherent label confidence t.1 × SameStances v.reading t.1) v.translations
unfolding build_strategy translated str_eq
build_strategy-IsCoherent say fmt label confidence support resistance target stop =
    (reading_of-IsCoherent (say "en") label confidence levels, refl, in_each strategy_languages)
  where
    levels : Dict String
    levels = levels_of fmt support resistance target stop

    in_each :
        (languages : List String)
        → All
            (λ t.
              IsCoherent label confidence t.1
              × SameStances (reading_of (say "en") label confidence levels) t.1)
            (translated say label confidence levels languages)
    in_each [] = tt
    in_each (language ∷ languages) = elim (Bool-cases (str_eq language "en")) [
      | inl english ↦ rw (english, translated) (in_each languages)
      | inr other ↦
          rw (other, translated)
            (
              (
                reading_of-IsCoherent (say language) label confidence levels,
                reading_of-SameStances (say "en") (say language) label confidence levels,
              ),
              in_each languages,
            )
    ]
