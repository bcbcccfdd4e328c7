-- ===== src/Recommendations/Calibration/Sources.antt =====
-- What the evidence decides about the score and the direction:
-- src/aidss/recommendations/calibration.py.
use stock_recommendation_be.Base.{
  ℕ, ◌*◌, ◌≤◌, ◌<◌, ◌≡◌, refl, ◌↔◌, String, true, some, List, [], ◌∷◌, filter, count, length,
  count-le-length, length-filter, All, arith,
}
use stock_recommendation_be.Domain.{Direction, same_direction}
use stock_recommendation_be.Recommendations.Calibration.{
  Fraction, EvidenceSignal, AnalyzerOutput, CalibrationResult, compute_coverage, is_usable, points,
  compute_agreement, compute_balance, weighted, capped, calibrate, signals_from_agent_outputs,
  max_confidence, unanimous, evidence_direction,
}
use stock_recommendation_be.Base.Numbers.{mul_pos}
use stock_recommendation_be.Recommendations.Calibration.Bounds.{
  IsNearest, calibrate_le, earned_le, agreement_lone, agreement_of-AtMost, compute_balance-AtMost,
  rounded_le,
}

-- How many sources said something.
abbrev pub usable_count : CalibrationResult → ℕ
usable_count result = count is_usable result.signals

-- For every rounding to a nearest tenth: with one usable source at most, the confidence is at
-- most 58 of 100, whatever the source says and however many factors are listed.
pub lone_source_weak :
    (r : Fraction → ℕ) (outputs : List (String × AnalyzerOutput)) (s c : ℕ)
    → IsNearest r
    → usable_count (calibrate r outputs s c) ≤ 1
    → (calibrate r outputs s c).confidence ≤ 580
unfolding calibrate compute_coverage compute_agreement
lone_source_weak r outputs s c near few =
    calibrate_le r outputs s c 58 45 50 near
      (omega arith, omega (arith, earned_le (signals_from_agent_outputs outputs)))
      (agreement_lone (filter is_usable signals) (omega (arith, length-filter is_usable signals)))
      (omega arith)
  where
    signals : List EvidenceSignal
    signals = signals_from_agent_outputs outputs

same_direction_iff : (d e : Direction) → (same_direction d e ≡ true) ↔ (d ≡ e)
unfolding same_direction
same_direction_iff d e = ground arith

count-All :
    (d : Direction) (xs : List EvidenceSignal)
    → (count (points d) xs ≡ length xs) ↔ All (λ s. s.direction ≡ d) xs
count-All d [] = ((λ _. tt), (λ _. refl))
count-All d (x ∷ xs) = (
  (λ h. (
    ground (arith, same_direction_iff x.direction d, count-le-length (points d) xs),
    (count-All d xs).0 (ground (arith, count-le-length (points d) xs)),
  )),
  (λ a. ground (arith, same_direction_iff x.direction d, a.0, (count-All d xs).1 a.1)),
)

unanimous_iff :
    (d : Direction) (xs : List EvidenceSignal)
    → (unanimous xs ≡ some d) ↔ ((1 ≤ length xs) × All (λ s. s.direction ≡ d) xs)
unfolding unanimous
unanimous_iff d [] = ground arith
unanimous_iff d (x ∷ xs) = (
  (λ h. (omega arith, (same h, (count-All d xs).0 (ground (arith, same h))))),
  (λ a. ground (arith, a.1.0, (count-All d xs).1 a.1.1)),
)
  where
    same : unanimous (x ∷ xs) ≡ some d → x.direction ≡ d
    same h = ground arith

-- The evidence points in a direction when a usable source exists and every usable source points
-- there, and only then.
pub evidence_direction_iff :
    (d : Direction) (signals : List EvidenceSignal)
    → (evidence_direction signals ≡ some d)
      ↔ ((1 ≤ count is_usable signals) × All (λ s. s.direction ≡ d) (filter is_usable signals))
unfolding evidence_direction
evidence_direction_iff d signals =
    rw (← length-filter is_usable signals) (unanimous_iff d (filter is_usable signals))

-- For every rounding to a nearest tenth, the confidence is at most 95 of 100, on any outputs.
pub confidence-le-max :
    (r : Fraction → ℕ) (outputs : List (String × AnalyzerOutput)) (s c : ℕ)
    → IsNearest r
    → (calibrate r outputs s c).confidence ≤ 10 * max_confidence
unfolding calibrate weighted capped compute_agreement compute_coverage
confidence-le-max r outputs s c near =
    rounded_le (r f) f.den f.num max_confidence pos (omega arith) (near f pos).0
  where
    a : Fraction
    a = compute_agreement (signals_from_agent_outputs outputs)

    b : Fraction
    b = compute_balance s c

    f : Fraction
    f = capped (weighted (compute_coverage (signals_from_agent_outputs outputs)) a b)

    pos : 0 < f.den
    pos = mul_pos 200 (a.den * b.den) (omega arith) (
        mul_pos a.den b.den
          (agreement_of-AtMost (filter is_usable (signals_from_agent_outputs outputs))).0
          (compute_balance-AtMost s c).0)
