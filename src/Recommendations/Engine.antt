-- ===== src/Recommendations/Engine.antt =====
-- The engine that asks for a recommendation, checks it and stores it: `generate` of
-- src/aidss/recommendations/engine.py, on the runner of src/aidss/agents/base.py. The wording of a
-- corrective instruction, the prompt's composition and the identifiers of new rows are arguments;
-- the table of recommendations is a list, in the order of insertion.
pub mod Stored
pub mod Strong
use stock_recommendation_be.Base.{
  ℕ, zero, suc, ◌+◌, String, Bool, true, false, ◌&&◌, is_some, Option, none, some, List, [], ◌∷◌,
  ◌++◌, length, map, if◌then◌else◌,
}
use stock_recommendation_be.Base.Texts.{written}
use stock_recommendation_be.Domain.{RecommendationLabel}
use stock_recommendation_be.Llm.Router.{ProviderBinding}
use stock_recommendation_be.Prompts.Validator.{Checks, ValidationFailure}
use stock_recommendation_be.Llm.Gateway.{Completed}
use stock_recommendation_be.Agents.{
  Agent, AgentRunner, AgentRun, Prompt, Correction, by_caller, Ran, finished, invalid,
  gateway_raised, no_attempt, run,
}
use stock_recommendation_be.Recommendations.Calibration.{
  Fraction, AnalyzerOutput, CalibrationResult, calibrate,
}
use stock_recommendation_be.Recommendations.Levels.{Snapshot, DerivedLevels, derive_levels}
use stock_recommendation_be.Recommendations.Rules.{RecommendationOutput, RuleReport, ok, check}

pub record RecommendationResult : Type 0 where
  pub output : RecommendationOutput
  pub calibration : CalibrationResult
  pub levels : DerivedLevels
  pub attempts : ℕ
  pub recommendation_id : Option ℕ
  pub language : String

-- A row of the table; the horizon and the words for a method are left out.
pub record Recommendation : Type 0 where
  pub id : ℕ
  pub analysis_result_id : ℕ
  pub label : RecommendationLabel
  pub confidence : ℕ
  pub reasoning : String
  pub supporting_factors : List String
  pub conflicting_factors : List String
  pub risk_factors : List String
  pub bullish_scenario : String
  pub bearish_scenario : String
  pub levels : DerivedLevels
  pub language : String

pub record RecommendationEngine : Type 0 where
  pub runner : AgentRunner
  pub recommendations : List Recommendation
  pub max_rule_retries : ℕ

-- How `generate` ends: with a result, with the report of the last answer, with what the runner
-- raised, or at the assertion.
pub data Generated : Type 0 where
  generated : RecommendationResult → Generated
  recommendation_rejected : RuleReport → Generated
  validation_failed : ValidationFailure → Generated
  gateway_failed : Completed → Generated
  no_report : Generated

-- `_persist`.
unfoldable pub row_of : (id analysis_result_id : ℕ) → RecommendationResult → Recommendation
row_of id analysis_result_id result = record {
  id = id;
  analysis_result_id = analysis_result_id;
  label = result.output.label;
  confidence = result.calibration.confidence;
  reasoning = result.output.reasoning;
  supporting_factors = result.output.supporting_factors;
  conflicting_factors = result.output.conflicting_factors;
  risk_factors = result.output.risk_factors;
  bullish_scenario = result.output.bullish_scenario;
  bearish_scenario = result.output.bearish_scenario;
  levels = result.levels;
  language = result.language;
}

-- The arguments of a run of the engine that its loop does not change.
pub record Setting : Type 0 where
  pub samples : ℕ → ℕ
  pub took : ProviderBinding → ℕ → ℕ
  pub round_tenths : Fraction → ℕ
  pub compose : Option Correction → Prompt
  pub checks : Checks RecommendationOutput
  pub agent : Agent
  pub corrective_instruction : RuleReport → String
  pub language : String
  pub new_id : List Recommendation → ℕ
  pub analyzer_outputs : List (String × AnalyzerOutput)
  pub indicator_snapshot : Option Snapshot
  -- `none` where nothing is to be stored.
  pub analysis_result_id : Option ℕ
  pub persist : Bool

module _ (s : Setting) where
  -- Against the factors that the answer lists.
  unfoldable pub recalibrate : RecommendationOutput → CalibrationResult
  unfolding calibrate written
  recalibrate output =
      calibrate s.round_tenths s.analyzer_outputs (length (written output.supporting_factors))
        (length (written output.conflicting_factors))

  abbrev pub result_of : AgentRun RecommendationOutput → Option ℕ → RecommendationResult
  result_of done id = record {
    output = done.output;
    calibration = recalibrate done.output;
    levels = derive_levels s.indicator_snapshot done.output.label;
    attempts = done.attempts;
    recommendation_id = id;
    language = s.language;
  }

  -- `if persist and analysis_result_id is not None`.
  unfoldable pub store :
      AgentRun RecommendationOutput → RecommendationEngine → Generated × RecommendationEngine
  unfolding derive_levels recalibrate row_of
  store done engine = elim (if s.persist then s.analysis_result_id else none) [
    | none ↦ (generated (result_of done none), engine)
    | some result_id ↦
        let id = s.new_id engine.recommendations in
        (
          generated (result_of done (some id)),
          record engine {
            recommendations =
                engine.recommendations ++ row_of id result_id (result_of done none) ∷ [];
          },
        )
  ]

  -- What follows a run; `again` is the next pass of the loop.
  unfoldable pub after_run :
      (RuleReport → Generated × RecommendationEngine)
      → Ran RecommendationOutput
      → RecommendationEngine
      → Generated × RecommendationEngine
  unfolding check ok store
  after_run again (finished done) engine =
      let report = check done.output (recalibrate done.output) in
      if ok report then store done engine else again report
  after_run again (invalid failure) engine = (validation_failed failure, engine)
  after_run again (gateway_raised c) engine = (gateway_failed c, engine)
  after_run again no_attempt engine = (no_report, engine)

  -- The loop, on the number of passes left; `last` is `last_report`.
  pub generate_from :
      ℕ
      → Option RuleReport
      → Option Correction
      → RecommendationEngine
      → Generated × RecommendationEngine
  unfolding after_run run
  generate_from zero none correction engine = (no_report, engine)
  generate_from zero (some report) correction engine = (recommendation_rejected report, engine)
  generate_from (suc fuel) last correction engine =
      let done = run s.samples s.took s.compose s.checks s.agent correction engine.runner in
      let engine' : RecommendationEngine = record engine { runner = done.1 } in
      after_run
        (λ report.
          generate_from fuel (some report) (some (by_caller (s.corrective_instruction report)))
            engine')
        done.0 engine'

  unfoldable pub generate : RecommendationEngine → Generated × RecommendationEngine
  unfolding generate_from
  generate engine = generate_from (suc engine.max_rule_retries) none none engine
