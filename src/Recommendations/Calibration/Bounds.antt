-- ===== src/Recommendations/Calibration/Bounds.antt =====
-- The range of the components and of the score: src/aidss/recommendations/calibration.py.
use stock_recommendation_be.Base.{
  ℕ, ◌+◌, ◌*◌, ◌≤◌, ◌<◌, inl, inr, String, List, [], ◌∷◌, count, length, count-le-length, ltb,
  ltb→lt, if◌then◌else◌, Bool-cases, arith,
}
use stock_recommendation_be.Base.Numbers.{mul_le, mul_pos}
use stock_recommendation_be.Domain.{constructive, neutral, cautious}
use stock_recommendation_be.Recommendations.Calibration.{
  Fraction, EvidenceSignal, AnalyzerOutput, source_weight, sufficiency_credit, credit, earned,
  is_usable, points, dominant_count, agreement_of, compute_balance, weighted, capped, calibrate,
  coverage_weight, agreement_weight, balance_weight,
}

-- Of p hundredths at most.
abbrev pub AtMost : ℕ → Fraction → Type 0
AtMost p f = (0 < f.den) × (f.num * 100 ≤ p * f.den)

weighted_le :
    (x y z p : ℕ) (c a b : Fraction)
    → AtMost x c
    → AtMost y a
    → AtMost z b
    → coverage_weight * x + agreement_weight * y + balance_weight * z ≤ 100 * p
    → AtMost (100 * p) (weighted c a b)
unfolding weighted
weighted_le x y z p c a b hc ha hb hp = (
  mul_pos c.den (a.den * b.den) hc.0 (mul_pos a.den b.den ha.0 hb.0),
  grind (
    arith,
    mul_le (c.num * 100) (x * c.den) (a.den * b.den) hc.1,
    mul_le (a.num * 100) (y * a.den) (c.den * b.den) ha.1,
    mul_le (b.num * 100) (z * b.den) (c.den * a.den) hb.1,
    mul_le (coverage_weight * x + agreement_weight * y + balance_weight * z) (100 * p)
        (c.den * (a.den * b.den)) hp,
  ),
)

-- `r f` is a nearest number of tenths to f, whichever way it goes at the middle.
abbrev pub IsNearest : (Fraction → ℕ) → Type 0
IsNearest r =
    (f : Fraction)
    → 0 < f.den
    → (2 * (r f * f.den) ≤ 20 * f.num + f.den) × (20 * f.num ≤ 2 * (r f * f.den) + f.den)

-- A fraction of at most p rounds to at most p.
pub rounded_le : (r : ℕ) (d n p : ℕ) → 0 < d → n ≤ p * d → 2 * (r * d) ≤ 20 * n + d → r ≤ 10 * p
rounded_le r d n p pos le near = elim (Bool-cases (ltb (10 * p) r)) [
  | inl above ↦ grind (arith, mul_le (10 * p + 1) r d (omega (arith, ltb→lt _ _ above)))
  | inr below ↦ ground arith
]

pub compute_balance-AtMost : (s c : ℕ) → AtMost 100 (compute_balance s c)
unfolding compute_balance
compute_balance-AtMost s c = ground arith

dominant-le-length : (xs : List EvidenceSignal) → dominant_count xs ≤ length xs
unfolding dominant_count
dominant-le-length xs = omega (
  arith,
  count-le-length (points constructive) xs,
  count-le-length (points neutral) xs,
  count-le-length (points cautious) xs,
)

pub agreement_of-AtMost : (xs : List EvidenceSignal) → AtMost 100 (agreement_of xs)
unfolding agreement_of
agreement_of-AtMost [] = ground arith
agreement_of-AtMost (s ∷ []) = ground arith
agreement_of-AtMost (s ∷ t ∷ xs) = omega (arith, dominant-le-length (s ∷ t ∷ xs))

pub agreement_lone : (xs : List EvidenceSignal) → length xs ≤ 1 → AtMost 50 (agreement_of xs)
unfolding agreement_of
agreement_lone [] h = ground arith
agreement_lone (s ∷ []) h = ground arith
agreement_lone (s ∷ t ∷ xs) h = ground arith

credit_le : (s : EvidenceSignal) → credit s ≤ (if is_usable s then 90 else 0)
unfolding credit source_weight sufficiency_credit is_usable
credit_le s = ground arith

pub earned_le : (xs : List EvidenceSignal) → earned xs ≤ 90 * count is_usable xs
unfolding earned
earned_le [] = ground arith
earned_le (s ∷ xs) = ground (arith, credit_le s, earned_le xs)

pub calibrate_le :
    (r : Fraction → ℕ) (outputs : List (String × AnalyzerOutput)) (s c p x y : ℕ)
    → IsNearest r
    → AtMost x (calibrate r outputs s c).coverage
    → AtMost y (calibrate r outputs s c).agreement
    → coverage_weight * x + agreement_weight * y + balance_weight * 100 ≤ 100 * p
    → (calibrate r outputs s c).confidence ≤ 10 * p
unfolding calibrate capped
calibrate_le r outputs s c p x y near cov agr h =
    rounded_le (r f) f.den f.num p le.0 (omega (arith, le.1)) (near f le.0).0
  where
    w : Fraction
    w =
        weighted (calibrate r outputs s c).coverage (calibrate r outputs s c).agreement
          (calibrate r outputs s c).balance

    f : Fraction
    f = capped w

    le : AtMost (100 * p) w
    le =
        weighted_le x y 100 p (calibrate r outputs s c).coverage (calibrate r outputs s c).agreement
          (calibrate r outputs s c).balance cov agr (compute_balance-AtMost s c) h
