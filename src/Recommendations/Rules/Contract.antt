-- ===== src/Recommendations/Rules/Contract.antt =====
-- What an accepted recommendation satisfies: src/aidss/recommendations/rules.py.
use stock_recommendation_be.Base.{
  ◌≡◌, ◌↔◌, ◌⊎◌, refl, ◌≤◌, String, true, false, Option, none, some, List, [], ◌∷◌, ◌++◌, length,
  if◌then◌else◌, arith,
}
use stock_recommendation_be.Base.Texts.{is_blank, written}
use stock_recommendation_be.Domain.{
  RecommendationLabel, Direction, neutral, label_direction, is_strong, same_direction,
}
use stock_recommendation_be.Recommendations.Calibration.{
  CalibrationResult, evidence_direction, strong_label_min_confidence,
}
use stock_recommendation_be.Recommendations.Rules.{
  RecommendationOutput, completeness, conflicting_factors_required, supporting_factors_required,
  risk_factors_required, label_contradicts_evidence, strong_label_needs_confidence, RuleViolation,
  RuleReport, ok, check_narrative_field, check_narrative_completeness, check_factors,
  check_conflicting_factors, check_supporting_factors, check_risk_factors, contradicts,
  check_label_consistency, check_label_strength, check,
}

-- Where the sources agree on a direction that is not neutral, the label takes it or is neutral.
abbrev pub Follows : Option Direction → RecommendationLabel → Type 0
Follows none label = Unit
Follows (some d) label =
    (d ≡ neutral) ⊎ ((label_direction label ≡ neutral) ⊎ (label_direction label ≡ d))

-- The contract of section 14.4, as a record of what a reader may rely on.
pub record IsAcceptable (o : RecommendationOutput) (calibration : CalibrationResult) : Type 0 where
  pub reasoned : is_blank o.reasoning ≡ false
  pub bullish : is_blank o.bullish_scenario ≡ false
  pub bearish : is_blank o.bearish_scenario ≡ false
  pub conflicting : 1 ≤ length (written o.conflicting_factors)
  pub supporting : 1 ≤ length (written o.supporting_factors)
  pub risks : 1 ≤ length (written o.risk_factors)
  pub follows : Follows (evidence_direction calibration.signals) o.label
  pub strength :
      (is_strong o.label ≡ false) ⊎ (strong_label_min_confidence ≤ calibration.confidence)

ok_append : (report : RuleReport) (v : RuleViolation) → ok (report ++ v ∷ []) ≡ false
unfolding ok
ok_append [] v = refl
ok_append (_ ∷ _) v = refl

ok-check_narrative_field :
    (name value : String) (report : RuleReport)
    → (ok (check_narrative_field name value report) ≡ true)
      ↔ ((is_blank value ≡ false) × (ok report ≡ true))
unfolding check_narrative_field
ok-check_narrative_field name value report = ground (arith, ok_append report (completeness name))

ok-check_factors :
    (v : RuleViolation) (factors : List String) (report : RuleReport)
    → (ok (check_factors v factors report) ≡ true)
      ↔ ((1 ≤ length (written factors)) × (ok report ≡ true))
unfolding check_factors
ok-check_factors v factors report =
    elim (written factors)
      as (λ w.
        (ok (elim w [ [] ↦ report ++ v ∷ [] | _ ∷ _ ↦ report ]) ≡ true)
        ↔ ((1 ≤ length w) × (ok report ≡ true))) [
          | [] ↦ ground (arith, ok_append report v)
          | w ∷ ws ↦ ground arith
        ]

ok-check_label_consistency :
    (o : RecommendationOutput) (calibration : CalibrationResult) (report : RuleReport)
    → (ok (check_label_consistency o calibration report) ≡ true)
      ↔ (Follows (evidence_direction calibration.signals) o.label × (ok report ≡ true))
unfolding check_label_consistency contradicts same_direction
ok-check_label_consistency o calibration report =
    elim (evidence_direction calibration.signals)
      as (λ e.
        (ok (elim e [
          | none ↦ report
          | some d ↦
              if contradicts (label_direction o.label) d
              then report ++ label_contradicts_evidence (label_direction o.label) d ∷ []
              else report
        ])
          ≡ true)
        ↔ (Follows e o.label × (ok report ≡ true))) [
          | none ↦ ground arith
          | some d ↦
              ground
                (arith, ok_append report (label_contradicts_evidence (label_direction o.label) d))
        ]

ok-check_label_strength :
    (o : RecommendationOutput) (calibration : CalibrationResult) (report : RuleReport)
    → (ok (check_label_strength o calibration report) ≡ true) ↔ (
        ((is_strong o.label ≡ false) ⊎ (strong_label_min_confidence ≤ calibration.confidence))
        × (ok report ≡ true))
unfolding check_label_strength
ok-check_label_strength o calibration report =
    ground (arith, ok_append report strong_label_needs_confidence)

-- Every rule is met, and no violation is reported, in the same cases: a recommendation is accepted
-- exactly when it satisfies the contract.
pub check_iff :
    (o : RecommendationOutput) (calibration : CalibrationResult)
    → (ok (check o calibration) ≡ true) ↔ IsAcceptable o calibration
unfolding check check_narrative_completeness check_conflicting_factors check_supporting_factors
    check_risk_factors ok
check_iff o calibration = (
  (λ h.
      let strong = (ok-check_label_strength o calibration consistent).0 h in
      let follows = (ok-check_label_consistency o calibration risks).0 strong.1 in
      let r = (ok-check_factors risk_factors_required o.risk_factors supporting).0 follows.1 in
      let s =
        (ok-check_factors supporting_factors_required o.supporting_factors conflicting).0 r.1 in
      let c =
        (ok-check_factors conflicting_factors_required o.conflicting_factors narrative).0 s.1 in
      let bear = (ok-check_narrative_field "bearish_scenario" o.bearish_scenario bull).0 c.1 in
      let bullish =
        (ok-check_narrative_field "bullish_scenario" o.bullish_scenario reasoned).0 bear.1 in
      let reasoning = (ok-check_narrative_field "reasoning" o.reasoning []).0 bullish.1 in
      record {
        reasoned = reasoning.0;
        bullish = bullish.0;
        bearish = bear.0;
        conflicting = c.0;
        supporting = s.0;
        risks = r.0;
        follows = follows.0;
        strength = strong.0;
      }),
  (λ a. (ok-check_label_strength o calibration consistent).1 (
    a.strength,
    (ok-check_label_consistency o calibration risks).1 (
      a.follows,
      (ok-check_factors risk_factors_required o.risk_factors supporting).1 (
        a.risks,
        (ok-check_factors supporting_factors_required o.supporting_factors conflicting).1 (
          a.supporting,
          (ok-check_factors conflicting_factors_required o.conflicting_factors narrative).1 (
            a.conflicting,
            (ok-check_narrative_field "bearish_scenario" o.bearish_scenario bull).1 (
              a.bearish,
              (ok-check_narrative_field "bullish_scenario" o.bullish_scenario reasoned).1 (
                a.bullish,
                (ok-check_narrative_field "reasoning" o.reasoning []).1 (a.reasoned, refl),
              ),
            ),
          ),
        ),
      ),
    ),
  )),
)
  where
    reasoned : RuleReport
    reasoned = check_narrative_field "reasoning" o.reasoning []

    bull : RuleReport
    bull = check_narrative_field "bullish_scenario" o.bullish_scenario reasoned

    narrative : RuleReport
    narrative = check_narrative_completeness o []

    conflicting : RuleReport
    conflicting = check_conflicting_factors o narrative

    supporting : RuleReport
    supporting = check_supporting_factors o conflicting

    risks : RuleReport
    risks = check_risk_factors o supporting

    consistent : RuleReport
    consistent = check_label_consistency o calibration risks
