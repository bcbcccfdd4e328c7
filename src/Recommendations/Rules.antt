-- ===== src/Recommendations/Rules.antt =====
-- The rules that a recommendation meets before it is stored: src/aidss/recommendations/rules.py, on
-- the answer of src/aidss/prompts/schemas.py. The texts of a violation are left out, but for its rule
-- and the field that it names.
pub mod Contract
use stock_recommendation_be.Base.{
  ◌≡◌, String, Bool, true, false, not, ◌&&◌, Option, none, some, List, [], ◌∷◌, ◌++◌, ltb, length,
  ℕ, if◌then◌else◌,
}
use stock_recommendation_be.Base.Texts.{is_blank, written}
use stock_recommendation_be.Domain.{
  RecommendationLabel, Direction, constructive, neutral, cautious, label_direction, is_strong,
  same_direction,
}
use stock_recommendation_be.Recommendations.Calibration.{
  CalibrationResult, evidence_direction, strong_label_min_confidence,
}

pub record RecommendationOutput : Type 0 where
  pub label : RecommendationLabel
  pub reasoning : String
  pub supporting_factors : List String
  pub conflicting_factors : List String
  pub risk_factors : List String
  pub bullish_scenario : String
  pub bearish_scenario : String

-- One constructor for each `rule` word.
pub data RuleViolation : Type 0 where
  completeness : String → RuleViolation
  conflicting_factors_required : RuleViolation
  supporting_factors_required : RuleViolation
  risk_factors_required : RuleViolation
  label_contradicts_evidence : Direction → Direction → RuleViolation
  strong_label_needs_confidence : RuleViolation

abbrev pub RuleReport : Type 0
RuleReport = List RuleViolation

unfoldable pub ok : RuleReport → Bool
ok [] = true
ok (_ ∷ _) = false

-- One field of `REQUIRED_NARRATIVE_FIELDS`.
unfoldable pub check_narrative_field : String → String → RuleReport → RuleReport
unfolding is_blank
check_narrative_field name value report =
    if is_blank value then report ++ completeness name ∷ [] else report

unfoldable pub check_narrative_completeness : RecommendationOutput → RuleReport → RuleReport
unfolding check_narrative_field
check_narrative_completeness o report =
    check_narrative_field "bearish_scenario" o.bearish_scenario (
      check_narrative_field "bullish_scenario" o.bullish_scenario
        (check_narrative_field "reasoning" o.reasoning report))

-- `if not [f for f in factors if f.strip()]`.
unfoldable pub check_factors : RuleViolation → List String → RuleReport → RuleReport
unfolding written
check_factors violation factors report = elim (written factors) [
  | [] ↦ report ++ violation ∷ []
  | _ ∷ _ ↦ report
]

unfoldable pub check_conflicting_factors : RecommendationOutput → RuleReport → RuleReport
unfolding check_factors
check_conflicting_factors o = check_factors conflicting_factors_required o.conflicting_factors

unfoldable pub check_supporting_factors : RecommendationOutput → RuleReport → RuleReport
unfolding check_factors
check_supporting_factors o = check_factors supporting_factors_required o.supporting_factors

unfoldable pub check_risk_factors : RecommendationOutput → RuleReport → RuleReport
unfolding check_factors
check_risk_factors o = check_factors risk_factors_required o.risk_factors

-- A label of the direction l against evidence of the direction d.
unfoldable pub contradicts : (l d : Direction) → Bool
unfolding same_direction
contradicts l d =
    not (same_direction d neutral) && not (same_direction l neutral) && not (same_direction l d)

unfoldable pub check_label_consistency :
    RecommendationOutput → CalibrationResult → RuleReport → RuleReport
unfolding contradicts label_direction
check_label_consistency o calibration report = elim (evidence_direction calibration.signals) [
  | none ↦ report
  | some d ↦
      if contradicts (label_direction o.label) d
      then report ++ label_contradicts_evidence (label_direction o.label) d ∷ []
      else report
]

unfoldable pub check_label_strength :
    RecommendationOutput → CalibrationResult → RuleReport → RuleReport
unfolding is_strong
check_label_strength o calibration report =
    if is_strong o.label && ltb calibration.confidence strong_label_min_confidence
    then report ++ strong_label_needs_confidence ∷ []
    else report

unfoldable pub check : RecommendationOutput → CalibrationResult → RuleReport
unfolding check_narrative_completeness check_conflicting_factors check_supporting_factors
    check_risk_factors check_label_consistency check_label_strength
check o calibration = check_label_strength o calibration (
    check_label_consistency o calibration (
      check_risk_factors o (
        check_supporting_factors o
          (check_conflicting_factors o (check_narrative_completeness o [])))))
