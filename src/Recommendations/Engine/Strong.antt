-- ===== src/Recommendations/Engine/Strong.antt =====
-- What stands behind a strong label: src/aidss/recommendations/engine.py, rules.py and calibration.py.
use mathlib.Core.Path.{subst}
use stock_recommendation_be.Base.{
  ℕ, ◌≡◌, ◌≤◌, ◌⊎◌, sym, inl, inr, String, true, false, List, length, ltb, Bool-cases, arith,
}
use stock_recommendation_be.Base.Texts.{written}
use stock_recommendation_be.Domain.{is_strong}
use stock_recommendation_be.Recommendations.Calibration.{
  Fraction, AnalyzerOutput, calibrate, strong_label_min_confidence,
}
use stock_recommendation_be.Recommendations.Calibration.Bounds.{IsNearest}
use stock_recommendation_be.Recommendations.Calibration.Sources.{usable_count, lone_source_weak}
use stock_recommendation_be.Recommendations.Engine.{
  RecommendationResult, RecommendationEngine, generated, Setting, recalibrate, generate,
}
use stock_recommendation_be.Recommendations.Engine.Stored.{IsEarned, Concludes, generate-Concludes}

confident_has_sources :
    (r : Fraction → ℕ) (outputs : List (String × AnalyzerOutput)) (s c : ℕ)
    → IsNearest r
    → strong_label_min_confidence ≤ (calibrate r outputs s c).confidence
    → 2 ≤ usable_count (calibrate r outputs s c)
confident_has_sources r outputs s c near high =
    elim (Bool-cases (ltb (usable_count (calibrate r outputs s c)) 2)) [
      | inl few ↦ omega (arith, lone_source_weak r outputs s c near (ground arith))
      | inr enough ↦ ground arith
    ]

generated-IsEarned :
    (s : Setting) (engine : RecommendationEngine) (r : RecommendationResult)
    → (generate s engine).0 ≡ generated r
    → IsEarned s r
generated-IsEarned s engine r e =
    (subst (λ g. Concludes s engine.recommendations (g, (generate s engine).1)) e
      (generate-Concludes s engine)).0

-- For every rounding to a nearest tenth: where the engine gives a result with a strong label, at
-- least two sources of evidence were usable, and the result states a factor against itself.
pub strong_result_has_sources :
    (s : Setting) (engine : RecommendationEngine) (r : RecommendationResult)
    → IsNearest s.round_tenths
    → (generate s engine).0 ≡ generated r
    → is_strong r.output.label ≡ true
    → (2 ≤ usable_count r.calibration) × (1 ≤ length (written r.output.conflicting_factors))
unfolding recalibrate
strong_result_has_sources s engine r near e strong =
    let earned = generated-IsEarned s engine r e in
    (
      subst (λ c. 2 ≤ usable_count c) (sym earned.1)
          (confident_has_sources s.round_tenths s.analyzer_outputs
            (length (written r.output.supporting_factors))
            (length (written r.output.conflicting_factors)) near
            (subst (λ c. strong_label_min_confidence ≤ c.confidence) earned.1
              (strength earned.0.strength))),
      earned.0.conflicting,
    )
  where
    strength :
        (is_strong r.output.label ≡ false)
          ⊎ (strong_label_min_confidence ≤ r.calibration.confidence)
        → strong_label_min_confidence ≤ r.calibration.confidence
    strength (inl weak) = ground arith
    strength (inr high) = high
