-- ===== src/Recommendations/Calibration.antt =====
-- The calibrated confidence: src/aidss/recommendations/calibration.py. Weights are in percent, credits
-- in halves, sentiment in thousandths, and a quotient is a fraction with its numerator and denominator.
-- How `round(x, 1)` rounds a quotient to tenths is an argument.
pub mod Bounds
pub mod Sources
use stock_recommendation_be.Base.{
  ℕ, ◌+◌, ◌*◌, min, max, String, Bool, true, false, not, Option, none, some, List, [], ◌∷◌, filter,
  count, length, ltb, ◌==◌, str_eq, is_some, if◌then◌else◌,
}
use stock_recommendation_be.Base.Int.{ℤ, pos, negsuc, ltb_ℤ}
use stock_recommendation_be.Domain.{Direction, constructive, neutral, cautious, same_direction}

pub data Bias : Type 0 where
  bullish : Bias
  neutral_bias : Bias
  bearish : Bias

pub data DataSufficiency : Type 0 where
  sufficient : DataSufficiency
  partial : DataSufficiency
  insufficient : DataSufficiency

-- `SOURCE_WEIGHTS`, in percent; `none` where the agent has no entry.
unfoldable pub source_weight : String → Option ℕ
source_weight agent =
    if str_eq agent "technical_analyzer"
    then some 45
    else if str_eq agent "fundamental_analyzer"
    then some 35
    else if str_eq agent "news_analyzer"
    then some 20
    else none

-- `SUFFICIENCY_CREDIT`, in halves.
unfoldable pub sufficiency_credit : DataSufficiency → ℕ
sufficiency_credit sufficient = 2
sufficiency_credit partial = 1
sufficiency_credit insufficient = 0

abbrev pub coverage_weight : ℕ
coverage_weight = 40

abbrev pub agreement_weight : ℕ
agreement_weight = 40

abbrev pub balance_weight : ℕ
balance_weight = 20

abbrev pub max_confidence : ℕ
max_confidence = 95

-- In tenths.
abbrev pub strong_label_min_confidence : ℕ
strong_label_min_confidence = 700

pub record Fraction : Type 0 where
  pub num : ℕ
  pub den : ℕ

pub record EvidenceSignal : Type 0 where
  pub agent : String
  pub direction : Direction
  pub sufficiency : DataSufficiency

-- What calibration reads of an analyzer's output; a field that an output has not is `none`.
pub record AnalyzerOutput : Type 0 where
  pub bias : Option Bias
  pub sentiment_score : Option ℤ
  pub data_sufficiency : Option DataSufficiency

-- The confidence is in tenths.
pub record CalibrationResult : Type 0 where
  pub confidence : ℕ
  pub coverage : Fraction
  pub agreement : Fraction
  pub balance : Fraction
  pub signals : List EvidenceSignal

unfoldable pub bias_direction : Bias → Direction
bias_direction bullish = constructive
bias_direction neutral_bias = neutral
bias_direction bearish = cautious

unfoldable pub sentiment_direction : ℤ → Direction
sentiment_direction score =
    if ltb_ℤ (pos 200) score
    then constructive
    else if ltb_ℤ score (negsuc 199)
    then cautious
    else neutral

unfoldable pub output_direction : AnalyzerOutput → Direction
unfolding bias_direction sentiment_direction
output_direction o = elim o.bias [
  | some b ↦ bias_direction b
  | none ↦ elim o.sentiment_score [ none ↦ neutral | some score ↦ sentiment_direction score ]
]

unfoldable pub signal_of : String → AnalyzerOutput → EvidenceSignal
unfolding output_direction
signal_of agent o = record {
  agent = agent;
  direction = output_direction o;
  sufficiency = elim o.data_sufficiency [ none ↦ partial | some s ↦ s ];
}

unfoldable pub signals_from_agent_outputs : List (String × AnalyzerOutput) → List EvidenceSignal
unfolding signal_of
signals_from_agent_outputs [] = []
signals_from_agent_outputs (e ∷ outputs) =
    if is_some (source_weight e.0)
    then signal_of e.0 e.1 ∷ signals_from_agent_outputs outputs
    else signals_from_agent_outputs outputs

-- The credit of a signal, in two hundredths of the whole.
unfoldable pub credit : EvidenceSignal → ℕ
unfolding source_weight sufficiency_credit
credit s = elim (source_weight s.agent) [ none ↦ 0 | some w ↦ w * sufficiency_credit s.sufficiency ]

unfoldable pub earned : List EvidenceSignal → ℕ
unfolding credit
earned [] = 0
earned (s ∷ signals) = credit s + earned signals

unfoldable pub compute_coverage : List EvidenceSignal → Fraction
unfolding earned
compute_coverage signals = record { num = earned signals; den = 200 }

unfoldable pub is_usable : EvidenceSignal → Bool
is_usable s = elim s.sufficiency [ insufficient ↦ false | _ ↦ true ]

abbrev pub points : Direction → EvidenceSignal → Bool
points d s = same_direction s.direction d

-- How often the most frequent direction occurs.
unfoldable pub dominant_count : List EvidenceSignal → ℕ
unfolding same_direction
dominant_count signals =
    max (count (points constructive) signals)
      (max (count (points neutral) signals) (count (points cautious) signals))

-- Of the usable signals.
unfoldable pub agreement_of : List EvidenceSignal → Fraction
unfolding dominant_count
agreement_of [] = record { num = 0; den = 1 }
agreement_of (s ∷ []) = record { num = 1; den = 2 }
agreement_of (s ∷ t ∷ signals) = record {
  num = dominant_count (s ∷ t ∷ signals);
  den = length (s ∷ t ∷ signals);
}

unfoldable pub compute_agreement : List EvidenceSignal → Fraction
unfolding is_usable agreement_of
compute_agreement signals = agreement_of (filter is_usable signals)

-- 1/2 + (smaller / larger) / 2, over twice the larger.
unfoldable pub compute_balance : (supporting conflicting : ℕ) → Fraction
compute_balance supporting conflicting =
    let larger = max supporting conflicting in
    if supporting + conflicting == 0
    then record { num = 0; den = 1 }
    else if conflicting == 0
    then record { num = 0; den = 1 }
    else record { num = min (2 * larger) (larger + min supporting conflicting); den = 2 * larger }

-- The weighted sum of the components, in percent.
unfoldable pub weighted : Fraction → Fraction → Fraction → Fraction
weighted c a b = record {
  num =
      coverage_weight * (c.num * (a.den * b.den))
      + agreement_weight * (a.num * (c.den * b.den))
      + balance_weight * (b.num * (c.den * a.den));
  den = c.den * (a.den * b.den);
}

unfoldable pub capped : Fraction → Fraction
capped f = record f { num = min f.num (max_confidence * f.den) }

unfoldable pub calibrate :
    (round_tenths : Fraction → ℕ)
    → List (String × AnalyzerOutput)
    → (supporting_count conflicting_count : ℕ) → CalibrationResult
unfolding signals_from_agent_outputs compute_coverage compute_agreement compute_balance weighted
    capped
calibrate round_tenths outputs supporting conflicting =
    let signals = signals_from_agent_outputs outputs in
    let c = compute_coverage signals in
    let a = compute_agreement signals in
    let b = compute_balance supporting conflicting in
    record {
      confidence = round_tenths (capped (weighted c a b));
      coverage = c;
      agreement = a;
      balance = b;
      signals = signals;
    }

-- Whether all of them point one way.
unfoldable pub unanimous : List EvidenceSignal → Option Direction
unfolding same_direction
unanimous [] = none
unanimous (s ∷ signals) =
    if count (points s.direction) signals == length signals then some s.direction else none

unfoldable pub evidence_direction : List EvidenceSignal → Option Direction
unfolding is_usable unanimous
evidence_direction signals = unanimous (filter is_usable signals)
